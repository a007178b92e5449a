-- ===== src/Rv32c/Alignment.antt =====
-- riscv_rv32c.hpp: the targets of jumps and branches.
use native.Mathlib.Nat.{pow-suc}
use rv32_complete_v.Common.RegFile
use rv32_complete_v.Common.RegFile.{RegFile}
use rv32_complete_v.Common.Fields.{creg_to_reg}
use rv32_complete_v.Common.Bus.{
  Bus, LoadResult, loaded, load_failed, StoreResult, stored, store_failed,
}
use rv32_complete_v.Rv32c.Types.{InstrType, DecodedInstr}
use rv32_complete_v.Rv32c.Decode.{
  decode, decode_c0, decode_c1, decode_c2, decode_quadrant, decode_alu, decode_register_alu,
  decode_addi16sp_lui, decode_jump_move, decode_cj_imm, decode_cb_imm, undecoded, field,
}
use rv32_complete_v.Rv32c.Execute.{execute, execute_type, finish_load, finish_store}
use rv32_complete_v.Prelude.{
  ℕ, suc, ◌*◌, ◌%◌, bit_and, bit_or, ◌≡◌, refl, ap, Bool, true, false, arith, ◌!=◌, if◌then◌else◌,
  bit-bit_and, bit-bit_or, shl32, not32,
}

pub or_even : (a b : ℕ) → a % 2 ≡ 0 → b % 2 ≡ 0 → bit_or a b % 2 ≡ 0
or_even a b h k = omega (arith, bit-bit_or a b 0)

pub shl32_even : (a k : ℕ) → shl32 a (suc k) % 2 ≡ 0
shl32_even a k = omega (arith, ap (λ (t : ℕ). a * t) (pow-suc 2 k))

-- The test of the sign bit leaves the lowest digit alone.
pub extended_even :
    (imm sign ones : ℕ)
    → imm % 2 ≡ 0
    → ones % 2 ≡ 0
    → (if bit_and imm sign != 0 then bit_or imm ones else imm) % 2 ≡ 0
extended_even imm sign ones h k = ground (arith, or_even imm ones h k)

ruleset parities = (or_even, extended_even, shl32_even)

decode_cj_imm-even : (instr : ℕ) → decode_cj_imm instr % 2 ≡ 0
unfolding decode_cj_imm
decode_cj_imm-even instr = search (parities, arith)

decode_cb_imm-even : (instr : ℕ) → decode_cb_imm instr % 2 ≡ 0
unfolding decode_cb_imm
decode_cb_imm-even instr = search (parities, arith)

-- C.J, C.JAL, C.BEQZ and C.BNEZ.
abbrev pub is_pc_relative : InstrType → Bool
is_pc_relative InstrType.c_jal = true
is_pc_relative InstrType.c_j = true
is_pc_relative InstrType.c_beqz = true
is_pc_relative InstrType.c_bnez = true
is_pc_relative _ = false

abbrev IsEvenOffset : DecodedInstr → Type 0
IsEvenOffset d = is_pc_relative d.type ≡ true → d.imm % 2 ≡ 0

decode_c0-IsEvenOffset :
    (instr : ℕ) (d : DecodedInstr) → d.type ≡ InstrType.illegal → IsEvenOffset (decode_c0 instr d)
unfolding decode_c0
decode_c0-IsEvenOffset instr d e h = ground arith

decode_alu-IsEvenOffset :
    (instr : ℕ) (d : DecodedInstr) → d.type ≡ InstrType.illegal → IsEvenOffset (decode_alu instr d)
unfolding decode_alu decode_register_alu
decode_alu-IsEvenOffset instr d e h = ground arith

decode_addi16sp_lui-IsEvenOffset :
    (instr : ℕ) (d : DecodedInstr)
    → d.type ≡ InstrType.illegal
    → IsEvenOffset (decode_addi16sp_lui instr d)
unfolding decode_addi16sp_lui
decode_addi16sp_lui-IsEvenOffset instr d e h = ground arith

decode_c1-IsEvenOffset :
    (instr : ℕ) (d : DecodedInstr) → d.type ≡ InstrType.illegal → IsEvenOffset (decode_c1 instr d)
unfolding decode_c1
decode_c1-IsEvenOffset instr d e h =
    let full : ℕ = field instr 7 0x1f in
    let short : ℕ = creg_to_reg (field instr 7 0x7) in
    ground (
      arith,
      decode_cj_imm-even instr,
      decode_cb_imm-even instr,
      decode_addi16sp_lui-IsEvenOffset instr (record d { rd = full }) e,
      decode_alu-IsEvenOffset instr (record d { rd = short; rs1 = short }) e,
    )

decode_c2-IsEvenOffset :
    (instr : ℕ) (d : DecodedInstr) → d.type ≡ InstrType.illegal → IsEvenOffset (decode_c2 instr d)
unfolding decode_c2 decode_jump_move
decode_c2-IsEvenOffset instr d e h = ground arith

decode-IsEvenOffset : (instr : ℕ) → IsEvenOffset (decode instr)
unfolding decode undecoded decode_quadrant
decode-IsEvenOffset instr h =
    let d : DecodedInstr = undecoded instr in
    ground (
      arith,
      decode_c0-IsEvenOffset instr d refl,
      decode_c1-IsEvenOffset instr d refl,
      decode_c2-IsEvenOffset instr d refl,
    )

pub clear_lowest : (x : ℕ) → bit_and x (not32 1) % 2 ≡ 0
clear_lowest x = omega (arith, bit-bit_and x (not32 1) 0)

module _ {M : Type 0} (bus : Bus M) (allow_misaligned : Bool) (d : DecodedInstr) (regs : RegFile)
    (m : M) (pc : ℕ) (even : pc % 2 ≡ 0) where
  finish_load-even :
      (r : LoadResult) (m' : M)
      → (finish_load bus allow_misaligned d regs m pc (r, m')).result.next_pc % 2 ≡ 0
  unfolding finish_load
  finish_load-even (loaded val) m' = omega arith
  finish_load-even (load_failed cause tval) m' = omega arith

  finish_store-even :
      (r : StoreResult) (m' : M)
      → (finish_store bus allow_misaligned d regs m pc (r, m')).result.next_pc % 2 ≡ 0
  unfolding finish_store
  finish_store-even stored m' = omega arith
  finish_store-even (store_failed cause tval) m' = omega arith

  execute_type-even :
      (t : InstrType)
      → (is_pc_relative t ≡ true → d.imm % 2 ≡ 0)
      → (execute_type bus allow_misaligned d regs m pc t).result.next_pc % 2 ≡ 0
  unfolding execute_type
  execute_type-even InstrType.c_lw h = finish_load-even _ _
  execute_type-even InstrType.c_lwsp h = finish_load-even _ _
  execute_type-even InstrType.c_sw h = finish_store-even _ _
  execute_type-even InstrType.c_swsp h = finish_store-even _ _
  execute_type-even InstrType.c_jr h = clear_lowest (RegFile.read regs d.rs1)
  execute_type-even InstrType.c_jalr h = clear_lowest (RegFile.read regs d.rs1)
  execute_type-even InstrType.c_jal h = omega (arith, h refl)
  execute_type-even InstrType.c_j h = omega (arith, h refl)
  execute_type-even InstrType.c_beqz h = ground (arith, h refl)
  execute_type-even InstrType.c_bnez h = ground (arith, h refl)
  execute_type-even _ h = omega arith

-- From an even pc, a compressed instruction leads to an even pc, whatever its bits and the values of the
-- registers.
pub execute-even :
    {M : Type 0} (bus : Bus M) (allow_misaligned : Bool) (instr : ℕ) (regs : RegFile) (m : M)
    (pc : ℕ)
    → pc % 2 ≡ 0
    → (execute bus allow_misaligned (decode instr) regs m pc).result.next_pc % 2 ≡ 0
unfolding execute
execute-even bus allow_misaligned instr regs m pc even =
    let d : DecodedInstr = decode instr in
    execute_type-even bus allow_misaligned d regs m pc even d.type (decode-IsEvenOffset instr)
