-- ===== src/Rv32i/Alignment.antt =====
-- riscv_rv32i.hpp: the targets of jumps and branches.
use rv32_complete_v.Common.RegFile
use rv32_complete_v.Common.RegFile.{RegFile}
use rv32_complete_v.Common.Fields.{bits}
use rv32_complete_v.Common.Bus.{
  Bus, LoadResult, loaded, load_failed, StoreResult, stored, store_failed,
}
use rv32_complete_v.Rv32i.Types.{InstrType, InstrFormat, DecodedInstr}
use rv32_complete_v.Rv32i.Decode.{
  decode, decode_b_imm, decode_j_imm, decode_opcode, decode_branch, decode_load, decode_store,
  decode_op_imm, decode_op, decode_fence, decode_system, fields, decode_i_imm, decode_s_imm,
}
use rv32_complete_v.Rv32i.Execute.{Executor, execute, execute_type, finish_load, finish_store}
use rv32_complete_v.Rv32c.Alignment.{or_even, shl32_even, extended_even, clear_lowest}
use rv32_complete_v.Prelude.{ℕ, ◌%◌, ◌≡◌, refl, Bool, true, false, arith, add32}

ruleset parities = (or_even, extended_even, shl32_even)

decode_j_imm-even : (instr : ℕ) → decode_j_imm instr % 2 ≡ 0
unfolding decode_j_imm
decode_j_imm-even instr = search (parities, arith)

decode_b_imm-even : (instr : ℕ) → decode_b_imm instr % 2 ≡ 0
unfolding decode_b_imm
decode_b_imm-even instr = search (parities, arith)

-- JAL and the branches.
abbrev pub is_pc_relative : InstrType → Bool
is_pc_relative InstrType.jal = true
is_pc_relative InstrType.beq = true
is_pc_relative InstrType.bne = true
is_pc_relative InstrType.blt = true
is_pc_relative InstrType.bge = true
is_pc_relative InstrType.bltu = true
is_pc_relative InstrType.bgeu = true
is_pc_relative _ = false

abbrev IsEvenOffset : DecodedInstr → Type 0
IsEvenOffset d = is_pc_relative d.type ≡ true → d.imm % 2 ≡ 0

branch-IsEvenOffset : (d : DecodedInstr) → d.imm % 2 ≡ 0 → IsEvenOffset (decode_branch d)
unfolding decode_branch
branch-IsEvenOffset d e h = ground arith

load-IsEvenOffset : (d : DecodedInstr) → d.type ≡ InstrType.illegal → IsEvenOffset (decode_load d)
unfolding decode_load
load-IsEvenOffset d e h = ground arith

store-IsEvenOffset : (d : DecodedInstr) → d.type ≡ InstrType.illegal → IsEvenOffset (decode_store d)
unfolding decode_store
store-IsEvenOffset d e h = ground arith

op_imm-IsEvenOffset :
    (d : DecodedInstr) → d.type ≡ InstrType.illegal → IsEvenOffset (decode_op_imm d)
unfolding decode_op_imm
op_imm-IsEvenOffset d e h = ground arith

op-IsEvenOffset : (d : DecodedInstr) → d.type ≡ InstrType.illegal → IsEvenOffset (decode_op d)
unfolding decode_op
op-IsEvenOffset d e h = ground arith

fence-IsEvenOffset : (d : DecodedInstr) → d.type ≡ InstrType.illegal → IsEvenOffset (decode_fence d)
unfolding decode_fence
fence-IsEvenOffset d e h = ground arith

system-IsEvenOffset :
    (s : Bool) (d : DecodedInstr) → d.type ≡ InstrType.illegal → IsEvenOffset (decode_system s d)
unfolding decode_system
system-IsEvenOffset s d e h = ground arith

opcode-IsEvenOffset :
    (s : Bool) (op instr : ℕ) (d : DecodedInstr)
    → d.type ≡ InstrType.illegal
    → IsEvenOffset (decode_opcode s op instr d)
unfolding decode_opcode
opcode-IsEvenOffset s op instr d e h = ground (
  arith,
  decode_j_imm-even instr,
  branch-IsEvenOffset (record d { format = InstrFormat.b_type; imm = decode_b_imm instr })
      (decode_b_imm-even instr),
  load-IsEvenOffset (record d { format = InstrFormat.i_type; imm = decode_i_imm instr }) e,
  store-IsEvenOffset (record d { format = InstrFormat.s_type; imm = decode_s_imm instr }) e,
  op_imm-IsEvenOffset (record d { format = InstrFormat.i_type; imm = decode_i_imm instr }) e,
  op-IsEvenOffset (record d { format = InstrFormat.r_type }) e,
  fence-IsEvenOffset (record d { format = InstrFormat.i_type }) e,
  system-IsEvenOffset s (record d { format = InstrFormat.system }) e,
)

decode-IsEvenOffset : (s : Bool) (instr : ℕ) → IsEvenOffset (decode s instr)
unfolding decode fields
decode-IsEvenOffset s instr = opcode-IsEvenOffset s (bits instr 6 0) instr (fields instr) refl

module _ {M : Type 0} (bus : Bus M) (ex : Executor) (d : DecodedInstr) (regs : RegFile) (m : M)
    (pc : ℕ) (even : pc % 2 ≡ 0) where
  finish_load-even :
      (extend : ℕ → ℕ) (r : LoadResult) (m' : M)
      → (finish_load bus ex d regs m pc extend (r, m')).result.next_pc % 2 ≡ 0
  unfolding finish_load
  finish_load-even extend (loaded v) m' = omega arith
  finish_load-even extend (load_failed cause tval) m' = omega arith

  finish_store-even :
      (r : StoreResult) (m' : M) → (finish_store bus ex d regs m pc (r, m')).result.next_pc % 2 ≡ 0
  unfolding finish_store
  finish_store-even stored m' = omega arith
  finish_store-even (store_failed cause tval) m' = omega arith

  execute_type-even :
      (t : InstrType)
      → (is_pc_relative t ≡ true → d.imm % 2 ≡ 0)
      → (execute_type bus ex d regs m pc t).result.next_pc % 2 ≡ 0
  unfolding execute_type
  execute_type-even InstrType.lb h = finish_load-even _ _ _
  execute_type-even InstrType.lh h = finish_load-even _ _ _
  execute_type-even InstrType.lw h = finish_load-even _ _ _
  execute_type-even InstrType.lbu h = finish_load-even _ _ _
  execute_type-even InstrType.lhu h = finish_load-even _ _ _
  execute_type-even InstrType.sb h = finish_store-even _ _
  execute_type-even InstrType.sh h = finish_store-even _ _
  execute_type-even InstrType.sw h = finish_store-even _ _
  execute_type-even InstrType.jal h = ground (arith, h refl)
  execute_type-even InstrType.jalr h =
      ground (arith, clear_lowest (add32 (RegFile.read regs d.rs1) d.imm))
  execute_type-even InstrType.beq h = ground (arith, h refl)
  execute_type-even InstrType.bne h = ground (arith, h refl)
  execute_type-even InstrType.blt h = ground (arith, h refl)
  execute_type-even InstrType.bge h = ground (arith, h refl)
  execute_type-even InstrType.bltu h = ground (arith, h refl)
  execute_type-even InstrType.bgeu h = ground (arith, h refl)
  execute_type-even _ h = omega arith

-- From an even pc, an instruction of the base set leads to an even pc.
pub execute-even :
    {M : Type 0} (bus : Bus M) (ex : Executor) (s : Bool) (instr : ℕ) (regs : RegFile) (m : M)
    (pc : ℕ)
    → pc % 2 ≡ 0
    → (execute bus ex (decode s instr) regs m pc).result.next_pc % 2 ≡ 0
unfolding execute
execute-even bus ex s instr regs m pc even =
    let d : DecodedInstr = decode s instr in
    execute_type-even bus ex d regs m pc even d.type (decode-IsEvenOffset s instr)
