-- ===== src/Zbs.antt =====
-- riscv_zbs.hpp: decoder and executor of the single-bit extension.
use rv32_complete_v.Common.Fields.{bits}
use rv32_complete_v.Common.RegFile
use rv32_complete_v.Common.RegFile.{RegFile}
use rv32_complete_v.Prelude.{
  ◌≡◌, refl, none, shr32, bit_xor, not32, shl32, bit_or, ◌&&◌, true, some, false, ◌==◌, Bool,
  bit_and, if◌then◌else◌, Option, ℕ,
}

pub data InstrType : Type 0 where
  bset bseti bclr bclri binv binvi bext bexti illegal : InstrType

pub record DecodedInstr : Type 0 where
  pub type : InstrType
  pub rd : ℕ
  pub rs1 : ℕ
  pub rs2 : ℕ
  pub shamt : ℕ
  pub raw : ℕ

pub record ExecResult : Type 0 where
  pub valid : Bool
  pub result : ℕ

unfoldable pub type_of_op : ℕ → ℕ → InstrType
type_of_op funct3 funct7 =
    if funct3 == 0b001
    then (if funct7 == 0b0010100
        then InstrType.bset
        else if funct7 == 0b0100100
        then InstrType.bclr
        else if funct7 == 0b0110100
        then InstrType.binv
        else InstrType.illegal)
    else if funct3 == 0b101 && funct7 == 0b0100100
    then InstrType.bext
    else InstrType.illegal

unfoldable pub type_of_op_imm : ℕ → ℕ → InstrType
type_of_op_imm funct3 funct7 =
    if funct3 == 0b001
    then (if funct7 == 0b0010100
        then InstrType.bseti
        else if funct7 == 0b0100100
        then InstrType.bclri
        else if funct7 == 0b0110100
        then InstrType.binvi
        else InstrType.illegal)
    else if funct3 == 0b101 && funct7 == 0b0100100
    then InstrType.bexti
    else InstrType.illegal

unfoldable pub decode : ℕ → DecodedInstr
unfolding bits type_of_op type_of_op_imm
decode instr =
    let op = bits instr 6 0 in
    let funct3 = bits instr 14 12 in
    let funct7 = bits instr 31 25 in
    record {
      type =
          if op == 0b0110011
          then type_of_op funct3 funct7
          else if op == 0b0010011
          then type_of_op_imm funct3 funct7
          else InstrType.illegal;
      rd = bits instr 11 7;
      rs1 = bits instr 19 15;
      rs2 = bits instr 24 20;
      shamt = bits instr 24 20;
      raw = instr;
    }

abbrev pub is_legal : InstrType → Bool
is_legal InstrType.illegal = false
is_legal _ = true

unfoldable pub is_zbs_instruction : ℕ → Bool
unfolding decode
is_zbs_instruction instr = is_legal (decode instr).type

-- The first `switch`: whether the bit position is in `rs2`.
abbrev pub by_register : InstrType → Bool
by_register InstrType.bset = true
by_register InstrType.bclr = true
by_register InstrType.binv = true
by_register InstrType.bext = true
by_register _ = false

-- The second `switch`, at `bit_mask = 1u << bit_pos`.
unfoldable pub compute : InstrType → ℕ → ℕ → Option ℕ
compute InstrType.bset a p = some (bit_or a (shl32 1 p))
compute InstrType.bseti a p = some (bit_or a (shl32 1 p))
compute InstrType.bclr a p = some (bit_and a (not32 (shl32 1 p)))
compute InstrType.bclri a p = some (bit_and a (not32 (shl32 1 p)))
compute InstrType.binv a p = some (bit_xor a (shl32 1 p))
compute InstrType.binvi a p = some (bit_xor a (shl32 1 p))
compute InstrType.bext a p = some (bit_and (shr32 a p) 1)
compute InstrType.bexti a p = some (bit_and (shr32 a p) 1)
compute InstrType.illegal a p = none

abbrev write_result : RegFile → ℕ → Option ℕ → ExecResult × RegFile
write_result regs rd none = (record { valid = false; result = 0 }, regs)
write_result regs rd (some v) = (record { valid = true; result = v }, RegFile.write regs rd v)

unfoldable pub execute : DecodedInstr → RegFile → ExecResult × RegFile
unfolding compute
execute d regs =
    let bit_pos = bit_and (if by_register d.type then RegFile.read regs d.rs2 else d.shamt) 0x1f in
    write_result regs d.rd (compute d.type (RegFile.read regs d.rs1) bit_pos)

write_result-kept :
    (regs : RegFile) (rd : ℕ) (o : Option ℕ)
    → (write_result regs rd o).0.valid ≡ false
    → (write_result regs rd o).1 ≡ regs
write_result-kept regs rd none h = refl
write_result-kept regs rd (some v) h = cc

-- An instruction that is not valid writes no register.
pub execute-kept :
    (d : DecodedInstr) (regs : RegFile)
    → (execute d regs).0.valid ≡ false
    → (execute d regs).1 ≡ regs
unfolding execute
execute-kept d regs h = write_result-kept regs d.rd _ h
