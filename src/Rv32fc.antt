-- ===== src/Rv32fc.antt =====
-- riscv_rv32fc.hpp: compressed loads and stores of floating-point words.
use rv32_complete_v.Prelude.{
  ℕ, zero, suc, ◌+◌, ◌-◌, ◌*◌, ◌/◌, ◌%◌, ◌^◌, ◌≤◌, ◌<◌, min, max, bit_and, bit_or, bit_xor, ◌≡◌,
  refl, sym, ap, ◌∙◌, fun_ext, ◌≢◌, ◌↔◌, ◌⊎◌, inl, inr, Bool, true, false, not, ◌&&◌, ◌||◌, Option,
  none, some, List, [], ◌∷◌, ◌++◌, map, arith, ltb, leb, ◌==◌, ◌!=◌, if◌then◌else◌, ==_iff, ltb_iff,
  Bool-cases, Option-cases, bit, bit-lt, bit-bit_and, bit-bit_or, bit-bit_xor, bit_ext, bit_or-lt,
  bit_xor-lt, bit_and-le, bit_or-zero, bit_or_join, bit_or_add, bit_and_mask, ℤ, pos, negsuc,
  pos_part, neg_part, sub_ℕ, ◌+ℤ◌, ◌*ℤ◌, ltb_ℤ, neg_ℕ, quot_ℤ, abs_ℕ, rem_ℤ, shr_ℤ, wrap, signed,
  signed32, wrap-signed32, u8, u16, u32, u64, add32, sub32, mul32, shl32, shr32, not32, sra32,
  bit-not32, bit-bit_and-not32, bit_and-lt, not32-lt, table, below, bit_and_pow, half_pow,
}
use rv32_complete_v.Common.Exception.{illegal_instruction}
use rv32_complete_v.Common.RegFile
use rv32_complete_v.Common.RegFile.{RegFile}
use rv32_complete_v.Common.Bus.{
  Bus, LoadResult, loaded, load_failed, StoreResult, stored, store_failed, load, store,
}
use rv32_complete_v.Rv32f.FRegFile
use rv32_complete_v.Rv32f.FRegFile.{FRegFile}
pub mod Claims
pub mod Expansion
pub mod Encode
pub mod Traps

pub data InstrType : Type 0 where
  c_flw c_fsw c_flwsp c_fswsp : InstrType
  illegal : InstrType

pub record DecodedInstr : Type 0 where
  pub type : InstrType
  pub rd : ℕ
  pub rs1 : ℕ
  pub rs2 : ℕ
  pub uimm : ℕ
  pub raw : ℕ

-- Without `error`, a text for the user.
pub record ExecResult : Type 0 where
  pub valid : Bool
  pub memory_read : Bool
  pub memory_written : Bool
  pub trap_cause : ℕ
  pub trap_value : ℕ

unfoldable pub creg_to_reg : ℕ → ℕ
creg_to_reg creg = bit_and creg 0x7 + 8

unfoldable pub word_offset : ℕ → ℕ
word_offset instr =
    bit_or (shl32 (bit_and (shr32 instr 10) 0x7) 3)
      (bit_or (shl32 (bit_and (shr32 instr 6) 0x1) 2) (shl32 (bit_and (shr32 instr 5) 0x1) 6))

unfoldable pub flwsp_offset : ℕ → ℕ
flwsp_offset instr =
    bit_or (shl32 (bit_and (shr32 instr 12) 0x1) 5)
      (bit_or (shl32 (bit_and (shr32 instr 4) 0x7) 2) (shl32 (bit_and (shr32 instr 2) 0x3) 6))

unfoldable pub fswsp_offset : ℕ → ℕ
fswsp_offset instr =
    bit_or (shl32 (bit_and (shr32 instr 9) 0xf) 2) (shl32 (bit_and (shr32 instr 7) 0x3) 6)

unfoldable pub decode_quadrant0 : DecodedInstr → ℕ → ℕ → DecodedInstr
unfolding creg_to_reg word_offset
decode_quadrant0 d instr funct3 =
    if funct3 == 0b011
    then record d {
      type = InstrType.c_flw;
      rd = creg_to_reg (bit_and (shr32 instr 2) 0x7);
      rs1 = creg_to_reg (bit_and (shr32 instr 7) 0x7);
      uimm = word_offset instr;
    }
    else if funct3 == 0b111
    then record d {
      type = InstrType.c_fsw;
      rs2 = creg_to_reg (bit_and (shr32 instr 2) 0x7);
      rs1 = creg_to_reg (bit_and (shr32 instr 7) 0x7);
      uimm = word_offset instr;
    }
    else d

unfoldable pub decode_quadrant2 : DecodedInstr → ℕ → ℕ → DecodedInstr
unfolding flwsp_offset fswsp_offset
decode_quadrant2 d instr funct3 =
    if funct3 == 0b011
    then record d {
      type = InstrType.c_flwsp;
      rd = bit_and (shr32 instr 7) 0x1f;
      rs1 = 2;
      uimm = flwsp_offset instr;
    }
    else if funct3 == 0b111
    then record d {
      type = InstrType.c_fswsp;
      rs2 = bit_and (shr32 instr 2) 0x1f;
      rs1 = 2;
      uimm = fswsp_offset instr;
    }
    else d

unfoldable pub undecoded : ℕ → DecodedInstr
undecoded instr = record {
  type = InstrType.illegal;
  rd = 0;
  rs1 = 0;
  rs2 = 0;
  uimm = 0;
  raw = instr;
}

unfoldable pub decode : ℕ → DecodedInstr
unfolding undecoded decode_quadrant0 decode_quadrant2
decode instr =
    let op : ℕ = bit_and instr 0x3 in
    let funct3 : ℕ = bit_and (shr32 instr 13) 0x7 in
    if op == 0b00
    then decode_quadrant0 (undecoded instr) instr funct3
    else if op == 0b10
    then decode_quadrant2 (undecoded instr) instr funct3
    else undecoded instr

unfoldable pub is_compressed_float : ℕ → Bool
is_compressed_float instr =
    let op : ℕ = bit_and instr 0x3 in
    let funct3 : ℕ = bit_and (shr32 instr 13) 0x7 in
    if op == 0b00
    then funct3 == 0b011 || funct3 == 0b111
    else if op == 0b10
    then funct3 == 0b011 || funct3 == 0b111
    else false

-- What one instruction leaves; the integer registers are only read.
pub record Outcome (M : Type 0) : Type 0 where
  pub result : ExecResult
  pub fregs : FRegFile
  pub bus : M

unfoldable pub initial_result : ExecResult
initial_result = record {
  valid = true;
  memory_read = false;
  memory_written = false;
  trap_cause = 0;
  trap_value = 0;
}

unfoldable pub set_trap : ExecResult → ℕ → ℕ → ExecResult
set_trap result cause value = record result {
  valid = false;
  trap_cause = cause;
  trap_value = value;
}

-- The executor's `allow_misaligned` is the second parameter.
module _ {M : Type 0} (bus : Bus M) (allow_misaligned : Bool) (d : DecodedInstr) (regs : RegFile)
    (fregs : FRegFile) (m : M) where
  unfoldable pub finish_load : LoadResult × M → Outcome M
  unfolding initial_result set_trap
  finish_load (loaded val, m') = record {
    result = record initial_result { memory_read = true };
    fregs = FRegFile.write_bits fregs d.rd val;
    bus = m';
  }
  finish_load (load_failed cause tval, m') = record {
    result = set_trap initial_result cause tval;
    fregs = fregs;
    bus = m';
  }

  unfoldable pub do_load32 : ℕ → Outcome M
  unfolding finish_load
  do_load32 base = finish_load (load bus m (add32 base d.uimm) 4 allow_misaligned)

  unfoldable pub finish_store : StoreResult × M → Outcome M
  unfolding initial_result set_trap
  finish_store (stored, m') = record {
    result = record initial_result { memory_written = true };
    fregs = fregs;
    bus = m';
  }
  finish_store (store_failed cause tval, m') = record {
    result = set_trap initial_result cause tval;
    fregs = fregs;
    bus = m';
  }

  unfoldable pub do_store32 : ℕ → Outcome M
  unfolding finish_store
  do_store32 base =
      finish_store
        (store bus m (add32 base d.uimm) 4 (FRegFile.read_bits fregs d.rs2) allow_misaligned)

  -- The test for an illegal instruction, and the `switch (instr.type)`.
  unfoldable pub execute_type : InstrType → Outcome M
  unfolding do_load32 do_store32 initial_result set_trap
  execute_type InstrType.c_flw = do_load32 (RegFile.read regs d.rs1)
  execute_type InstrType.c_flwsp = do_load32 (RegFile.read regs 2)
  execute_type InstrType.c_fsw = do_store32 (RegFile.read regs d.rs1)
  execute_type InstrType.c_fswsp = do_store32 (RegFile.read regs 2)
  execute_type InstrType.illegal = record {
    result = set_trap initial_result illegal_instruction d.raw;
    fregs = fregs;
    bus = m;
  }

  unfoldable pub execute : Outcome M
  unfolding execute_type
  execute = execute_type d.type
