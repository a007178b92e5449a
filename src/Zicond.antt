-- ===== src/Zicond.antt =====
-- riscv_zicond.hpp: decoder and executor of the conditional-zero extension.
use rv32_complete_v.Common.Fields.{bits}
use rv32_complete_v.Common.RegFile
use rv32_complete_v.Common.RegFile.{RegFile}
use rv32_complete_v.Prelude.{
  ◌≡◌, refl, true, none, ◌||◌, ◌&&◌, some, ◌!=◌, false, ◌==◌, Bool, Option, if◌then◌else◌, ℕ,
}

pub data InstrType : Type 0 where
  czero_eqz czero_nez illegal : InstrType

pub record DecodedInstr : Type 0 where
  pub type : InstrType
  pub rd : ℕ
  pub rs1 : ℕ
  pub rs2 : ℕ
  pub raw : ℕ

pub record ExecResult : Type 0 where
  pub valid : Bool
  pub result : ℕ

unfoldable pub type_of_funct3 : ℕ → InstrType
type_of_funct3 f =
    if f == 0b101
    then InstrType.czero_eqz
    else if f == 0b111
    then InstrType.czero_nez
    else InstrType.illegal

unfoldable pub decode : ℕ → DecodedInstr
unfolding bits type_of_funct3
decode instr = record {
  type =
      if bits instr 6 0 == 0b0110011 && bits instr 31 25 == 0b0000111
      then type_of_funct3 (bits instr 14 12)
      else InstrType.illegal;
  rd = bits instr 11 7;
  rs1 = bits instr 19 15;
  rs2 = bits instr 24 20;
  raw = instr;
}

unfoldable pub is_zicond_instruction : ℕ → Bool
unfolding bits
is_zicond_instruction instr =
    let funct3 = bits instr 14 12 in
    if bits instr 6 0 != 0b0110011 || bits instr 31 25 != 0b0000111
    then false
    else funct3 == 0b101 || funct3 == 0b111

unfoldable pub compute : InstrType → ℕ → ℕ → Option ℕ
compute InstrType.czero_eqz a b = some (if b == 0 then 0 else a)
compute InstrType.czero_nez a b = some (if b != 0 then 0 else a)
compute InstrType.illegal a b = none

abbrev write_result : RegFile → ℕ → Option ℕ → ExecResult × RegFile
write_result regs rd none = (record { valid = false; result = 0 }, regs)
write_result regs rd (some v) = (record { valid = true; result = v }, RegFile.write regs rd v)

unfoldable pub execute : DecodedInstr → RegFile → ExecResult × RegFile
unfolding compute
execute d regs =
    write_result regs d.rd (compute d.type (RegFile.read regs d.rs1) (RegFile.read regs d.rs2))

write_result-kept :
    (regs : RegFile) (rd : ℕ) (o : Option ℕ)
    → (write_result regs rd o).0.valid ≡ false
    → (write_result regs rd o).1 ≡ regs
write_result-kept regs rd none h = refl
write_result-kept regs rd (some v) h = cc

-- An instruction that is not valid writes no register.
pub execute-kept :
    (d : DecodedInstr) (regs : RegFile)
    → (execute d regs).0.valid ≡ false
    → (execute d regs).1 ≡ regs
unfolding execute
execute-kept d regs h = write_result-kept regs d.rd _ h
