-- ===== src/Rv32m.antt =====
-- riscv_rv32m.hpp: decoder, executor and encoder of the multiply-divide extension. Error texts are
-- left out.
pub mod Division
pub mod Product
pub mod Encoding
use rv32_complete_v.Common.Fields.{bits}
use rv32_complete_v.Common.RegFile
use rv32_complete_v.Common.RegFile.{RegFile}
use rv32_complete_v.Prelude.{
  ◌≡◌, refl, quot_ℤ, ◌*ℤ◌, ◌*◌, rem_ℤ, u64, signed32, ◌&&◌, mul32, ◌/◌, true, signed, ◌||◌, ◌%◌,
  none, bit_and, shl32, shr32, ◌==◌, false, ◌!=◌, some, shr_ℤ, Bool, bit_or, if◌then◌else◌, Option,
  wrap, u32, ℕ,
}

pub data InstrType : Type 0 where
  mul mulh mulhsu mulhu div divu rem remu illegal : InstrType

pub record DecodedInstr : Type 0 where
  pub type : InstrType
  pub rd : ℕ
  pub rs1 : ℕ
  pub rs2 : ℕ
  pub funct3 : ℕ
  pub funct7 : ℕ
  pub raw : ℕ

pub record ExecResult : Type 0 where
  pub result : ℕ
  pub valid : Bool

unfoldable pub type_of_funct3 : ℕ → InstrType
type_of_funct3 f =
    if f == 0b000
    then InstrType.mul
    else if f == 0b001
    then InstrType.mulh
    else if f == 0b010
    then InstrType.mulhsu
    else if f == 0b011
    then InstrType.mulhu
    else if f == 0b100
    then InstrType.div
    else if f == 0b101
    then InstrType.divu
    else if f == 0b110
    then InstrType.rem
    else if f == 0b111
    then InstrType.remu
    else InstrType.illegal

unfoldable pub decode : ℕ → DecodedInstr
unfolding bits type_of_funct3
decode instr =
    let d : DecodedInstr = record {
      type = InstrType.illegal;
      rd = bits instr 11 7;
      rs1 = bits instr 19 15;
      rs2 = bits instr 24 20;
      funct3 = bits instr 14 12;
      funct7 = bits instr 31 25;
      raw = instr;
    } in
    let op = bits instr 6 0 in
    if op != 0b0110011 || d.funct7 != 0b0000001
    then d
    else record d { type = type_of_funct3 d.funct3 }

unfoldable pub is_m_instruction : ℕ → Bool
unfolding bits
is_m_instruction instr = bits instr 6 0 == 0b0110011 && bits instr 31 25 == 0b0000001

unfoldable pub mul_high : ℕ → ℕ → ℕ
mul_high a b = wrap 32 (shr_ℤ (signed32 a *ℤ signed32 b) 32)

-- `static_cast<int64_t>(rs1_signed) * static_cast<uint64_t>(rs2_val)` is a product of `uint64_t`,
-- stored to an `int64_t`.
unfoldable pub mul_high_su : ℕ → ℕ → ℕ
mul_high_su a b = wrap 32 (shr_ℤ (signed 64 (u64 (wrap 64 (signed32 a) * b))) 32)

unfoldable pub mul_high_u : ℕ → ℕ → ℕ
mul_high_u a b = u32 (shr32 (u64 (a * b)) 32)

-- `rs2_signed == -1` is a test of the pattern.
unfoldable pub divide : ℕ → ℕ → ℕ
divide a b =
    if b == 0
    then 0xffff_ffff
    else if a == 0x8000_0000 && b == 0xffff_ffff
    then 0x8000_0000
    else wrap 32 (quot_ℤ (signed32 a) (signed32 b))

unfoldable pub divide_u : ℕ → ℕ → ℕ
divide_u a b = if b == 0 then 0xffff_ffff else a / b

unfoldable pub remainder : ℕ → ℕ → ℕ
remainder a b =
    if b == 0
    then a
    else if a == 0x8000_0000 && b == 0xffff_ffff
    then 0
    else wrap 32 (rem_ℤ (signed32 a) (signed32 b))

unfoldable pub remainder_u : ℕ → ℕ → ℕ
remainder_u a b = if b == 0 then a else a % b

-- The second `switch (instr.type)`; `none` is its `default`.
unfoldable pub compute : InstrType → ℕ → ℕ → Option ℕ
compute InstrType.mul a b = some (mul32 a b)
compute InstrType.mulh a b = some (mul_high a b)
compute InstrType.mulhsu a b = some (mul_high_su a b)
compute InstrType.mulhu a b = some (mul_high_u a b)
compute InstrType.div a b = some (divide a b)
compute InstrType.divu a b = some (divide_u a b)
compute InstrType.rem a b = some (remainder a b)
compute InstrType.remu a b = some (remainder_u a b)
compute InstrType.illegal a b = none

abbrev write_result : RegFile → ℕ → Option ℕ → ExecResult × RegFile
write_result regs rd none = (record { result = 0; valid = false }, regs)
write_result regs rd (some v) = (record { result = v; valid = true }, RegFile.write regs rd v)

unfoldable pub execute : DecodedInstr → RegFile → ExecResult × RegFile
unfolding compute
execute d regs =
    write_result regs d.rd (compute d.type (RegFile.read regs d.rs1) (RegFile.read regs d.rs2))

unfoldable pub m_instr : ℕ → ℕ → ℕ → ℕ → ℕ
m_instr funct3 rd rs1 rs2 =
    bit_or
      (bit_or
        (bit_or
          (bit_or (bit_or (shl32 0b0000001 25) (shl32 (bit_and rs2 0x1f) 20))
            (shl32 (bit_and rs1 0x1f) 15))
          (shl32 funct3 12))
        (shl32 (bit_and rd 0x1f) 7))
      0b0110011

-- `encode::mul` to `encode::remu`.
unfoldable pub encode : InstrType → ℕ → ℕ → ℕ → Option ℕ
unfolding m_instr
encode InstrType.mul rd rs1 rs2 = some (m_instr 0b000 rd rs1 rs2)
encode InstrType.mulh rd rs1 rs2 = some (m_instr 0b001 rd rs1 rs2)
encode InstrType.mulhsu rd rs1 rs2 = some (m_instr 0b010 rd rs1 rs2)
encode InstrType.mulhu rd rs1 rs2 = some (m_instr 0b011 rd rs1 rs2)
encode InstrType.div rd rs1 rs2 = some (m_instr 0b100 rd rs1 rs2)
encode InstrType.divu rd rs1 rs2 = some (m_instr 0b101 rd rs1 rs2)
encode InstrType.rem rd rs1 rs2 = some (m_instr 0b110 rd rs1 rs2)
encode InstrType.remu rd rs1 rs2 = some (m_instr 0b111 rd rs1 rs2)
encode InstrType.illegal rd rs1 rs2 = none

write_result-kept :
    (regs : RegFile) (rd : ℕ) (o : Option ℕ)
    → (write_result regs rd o).0.valid ≡ false
    → (write_result regs rd o).1 ≡ regs
write_result-kept regs rd none h = refl
write_result-kept regs rd (some v) h = cc

-- An instruction that is not valid writes no register.
pub execute-kept :
    (d : DecodedInstr) (regs : RegFile)
    → (execute d regs).0.valid ≡ false
    → (execute d regs).1 ≡ regs
unfolding execute
execute-kept d regs h = write_result-kept regs d.rd _ h
