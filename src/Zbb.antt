-- ===== src/Zbb.antt =====
-- riscv_zbb.hpp: decoder and executor of the basic bit-manipulation extension.
use rv32_complete_v.Common.Fields.{bits, sign_extend}
use rv32_complete_v.Common.RegFile
use rv32_complete_v.Common.RegFile.{RegFile}
use rv32_complete_v.Prelude.{
  ◌≡◌, refl, none, ltb, signed32, ltb_ℤ, ◌-◌, shl32, add32, bit_xor, ◌+◌, not32, true, shr32,
  bit_or, ◌&&◌, ◌!=◌, false, bit_and, some, ◌==◌, Bool, if◌then◌else◌, Option, sub32, ℕ,
}

pub data InstrType : Type 0 where
  andn orn xnor clz ctz cpop max maxu min minu : InstrType
  sext_b sext_h zext_h rol ror rori orc_b rev8 illegal : InstrType

pub record DecodedInstr : Type 0 where
  pub type : InstrType
  pub rd : ℕ
  pub rs1 : ℕ
  pub rs2 : ℕ
  pub shamt : ℕ
  pub raw : ℕ

pub record ExecResult : Type 0 where
  pub valid : Bool
  pub result : ℕ

-- `decode_r_type`, for the field `rs2`.
unfoldable pub decode_r_type : ℕ → ℕ → ℕ → InstrType
decode_r_type rs2 funct3 funct7 =
    if funct7 == 0b0100000
    then (if funct3 == 0b111
        then InstrType.andn
        else if funct3 == 0b110
        then InstrType.orn
        else if funct3 == 0b100
        then InstrType.xnor
        else InstrType.illegal)
    else if funct7 == 0b0000101
    then (if funct3 == 0b100
        then InstrType.min
        else if funct3 == 0b101
        then InstrType.minu
        else if funct3 == 0b110
        then InstrType.max
        else if funct3 == 0b111
        then InstrType.maxu
        else InstrType.illegal)
    else if funct7 == 0b0110000
    then (if funct3 == 0b001
        then InstrType.rol
        else if funct3 == 0b101
        then InstrType.ror
        else InstrType.illegal)
    else if funct7 == 0b0000100 && funct3 == 0b100 && rs2 == 0
    then InstrType.zext_h
    else InstrType.illegal

unfoldable pub decode_i_type : ℕ → ℕ → ℕ → ℕ → InstrType
decode_i_type rs2 funct3 funct7 funct12 =
    if funct3 == 0b001 && funct7 == 0b0110000
    then (if rs2 == 0b00000
        then InstrType.clz
        else if rs2 == 0b00001
        then InstrType.ctz
        else if rs2 == 0b00010
        then InstrType.cpop
        else if rs2 == 0b00100
        then InstrType.sext_b
        else if rs2 == 0b00101
        then InstrType.sext_h
        else InstrType.illegal)
    else if funct3 == 0b101 && funct7 == 0b0110000
    then InstrType.rori
    else if funct3 == 0b101 && funct12 == 0b001010000111
    then InstrType.orc_b
    else if funct3 == 0b101 && funct12 == 0b011010011000
    then InstrType.rev8
    else InstrType.illegal

unfoldable pub decode : ℕ → DecodedInstr
unfolding bits decode_r_type decode_i_type
decode instr =
    let op = bits instr 6 0 in
    let funct3 = bits instr 14 12 in
    let funct7 = bits instr 31 25 in
    let rs2 = bits instr 24 20 in
    record {
      type =
          if op == 0b0110011
          then decode_r_type rs2 funct3 funct7
          else if op == 0b0010011
          then decode_i_type rs2 funct3 funct7 (bits instr 31 20)
          else InstrType.illegal;
      rd = bits instr 11 7;
      rs1 = bits instr 19 15;
      rs2 = rs2;
      shamt = bits instr 24 20;
      raw = instr;
    }

abbrev pub is_legal : InstrType → Bool
is_legal InstrType.illegal = false
is_legal _ = true

unfoldable pub is_zbb_instruction : ℕ → Bool
unfolding decode
is_zbb_instruction instr = is_legal (decode instr).type

-- A step `if ((x & mask) == 0) { n += k; x <<= k; }` on the pair of `n` and `x`.
abbrev clz_round : ℕ → ℕ → ℕ × ℕ → ℕ × ℕ
clz_round mask k (n, x) = if bit_and x mask == 0 then (n + k, shl32 x k) else (n, x)

unfoldable pub clz32 : ℕ → ℕ
clz32 x =
    let s1 = clz_round 0xffff_0000 16 (0, x) in
    let s2 = clz_round 0xff00_0000 8 s1 in
    let s3 = clz_round 0xf000_0000 4 s2 in
    let s4 = clz_round 0xc000_0000 2 s3 in
    if x == 0 then 32 else if bit_and s4.1 0x8000_0000 == 0 then s4.0 + 1 else s4.0

abbrev ctz_round : ℕ → ℕ → ℕ × ℕ → ℕ × ℕ
ctz_round mask k (n, x) = if bit_and x mask == 0 then (n + k, shr32 x k) else (n, x)

unfoldable pub ctz32 : ℕ → ℕ
ctz32 x =
    let s1 = ctz_round 0x0000_ffff 16 (0, x) in
    let s2 = ctz_round 0x0000_00ff 8 s1 in
    let s3 = ctz_round 0x0000_000f 4 s2 in
    let s4 = ctz_round 0x0000_0003 2 s3 in
    if x == 0 then 32 else if bit_and s4.1 0x0000_0001 == 0 then s4.0 + 1 else s4.0

unfoldable pub popcount32 : ℕ → ℕ
popcount32 x =
    let x1 = sub32 x (bit_and (shr32 x 1) 0x5555_5555) in
    let x2 = add32 (bit_and x1 0x3333_3333) (bit_and (shr32 x1 2) 0x3333_3333) in
    let x3 = bit_and (add32 x2 (shr32 x2 4)) 0x0f0f_0f0f in
    let x4 = add32 x3 (shr32 x3 8) in let x5 = add32 x4 (shr32 x4 16) in bit_and x5 0x3f

abbrev orc_byte : ℕ → ℕ → ℕ → ℕ
orc_byte x mask result = if bit_and x mask != 0 then bit_or result mask else result

unfoldable pub orc_bytes : ℕ → ℕ
orc_bytes x =
    orc_byte x 0xff00_0000
      (orc_byte x 0x00ff_0000 (orc_byte x 0x0000_ff00 (orc_byte x 0x0000_00ff 0)))

unfoldable pub rev_bytes : ℕ → ℕ
rev_bytes x =
    bit_or
      (bit_or (bit_or (shr32 (bit_and x 0xff00_0000) 24) (shr32 (bit_and x 0x00ff_0000) 8))
        (shl32 (bit_and x 0x0000_ff00) 8))
      (shl32 (bit_and x 0x0000_00ff) 24)

unfoldable pub rotate_left : ℕ → ℕ → ℕ
rotate_left a shamt = if shamt == 0 then a else bit_or (shl32 a shamt) (shr32 a (32 - shamt))

unfoldable pub rotate_right : ℕ → ℕ → ℕ
rotate_right a shamt = if shamt == 0 then a else bit_or (shr32 a shamt) (shl32 a (32 - shamt))

-- The `switch (instr.type)`, at the values of `rs1` and `rs2` and the field `shamt`.
unfoldable pub compute : InstrType → ℕ → ℕ → ℕ → Option ℕ
compute InstrType.andn a b s = some (bit_and a (not32 b))
compute InstrType.orn a b s = some (bit_or a (not32 b))
compute InstrType.xnor a b s = some (not32 (bit_xor a b))
compute InstrType.clz a b s = some (clz32 a)
compute InstrType.ctz a b s = some (ctz32 a)
compute InstrType.cpop a b s = some (popcount32 a)
compute InstrType.min a b s = some (if ltb_ℤ (signed32 b) (signed32 a) then b else a)
compute InstrType.max a b s = some (if ltb_ℤ (signed32 a) (signed32 b) then b else a)
compute InstrType.minu a b s = some (if ltb b a then b else a)
compute InstrType.maxu a b s = some (if ltb a b then b else a)
compute InstrType.sext_b a b s = some (sign_extend (bit_and a 0xff) 7)
compute InstrType.sext_h a b s = some (sign_extend (bit_and a 0xffff) 15)
compute InstrType.zext_h a b s = some (bit_and a 0xffff)
compute InstrType.rol a b s = some (rotate_left a (bit_and b 0x1f))
compute InstrType.ror a b s = some (rotate_right a (bit_and b 0x1f))
compute InstrType.rori a b s = some (rotate_right a (bit_and s 0x1f))
compute InstrType.orc_b a b s = some (orc_bytes a)
compute InstrType.rev8 a b s = some (rev_bytes a)
compute InstrType.illegal a b s = none

abbrev write_result : RegFile → ℕ → Option ℕ → ExecResult × RegFile
write_result regs rd none = (record { valid = false; result = 0 }, regs)
write_result regs rd (some v) = (record { valid = true; result = v }, RegFile.write regs rd v)

unfoldable pub execute : DecodedInstr → RegFile → ExecResult × RegFile
unfolding compute
execute d regs =
    write_result regs d.rd
      (compute d.type (RegFile.read regs d.rs1) (RegFile.read regs d.rs2) d.shamt)

write_result-kept :
    (regs : RegFile) (rd : ℕ) (o : Option ℕ)
    → (write_result regs rd o).0.valid ≡ false
    → (write_result regs rd o).1 ≡ regs
write_result-kept regs rd none h = refl
write_result-kept regs rd (some v) h = cc

-- An instruction that is not valid writes no register.
pub execute-kept :
    (d : DecodedInstr) (regs : RegFile)
    → (execute d regs).0.valid ≡ false
    → (execute d regs).1 ≡ regs
unfolding execute
execute-kept d regs h = write_result-kept regs d.rd _ h
