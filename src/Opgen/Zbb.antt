-- ===== src/Opgen/Zbb.antt =====
-- riscv_zbb_opgen.hpp: the class `OpcodeGenerator`. `fuel` bounds the rounds of a rejection loop.
use rv32_complete_v.Opgen.Source.{
  Source, Gen, Loop, ◌>>=◌, pure, reg, shamt, imm12, imm20_upper, branch_offset, jal_offset, choice,
  entry, or_zero,
}
use rv32_complete_v.Opgen.Encode.{
  encode_r_type, encode_i_type, encode_s_type, encode_b_type, encode_u_type, encode_j_type,
}
use rv32_complete_v.Opgen.Generator as Class
use rv32_complete_v.Zbb as Target
use rv32_complete_v.Prelude.{
  ℕ, List, [], ◌∷◌, bit_or, bit_and, shl32, shr32, if◌then◌else◌, ◌==◌, ◌!=◌, ◌||◌, Bool, true,
  false, ltb, ◌+◌, ◌-◌,
}
pub mod Decoding

pub data InstrType : Type 0 where
  andn orn xnor clz ctz cpop min minu : InstrType
  max maxu sext_b sext_h zext_h rol ror rori : InstrType
  orc_b rev8 : InstrType

-- The value of an enumerator, and how many there are.
unfoldable pub code : InstrType → ℕ
code InstrType.andn = 0
code InstrType.orn = 1
code InstrType.xnor = 2
code InstrType.clz = 3
code InstrType.ctz = 4
code InstrType.cpop = 5
code InstrType.min = 6
code InstrType.minu = 7
code InstrType.max = 8
code InstrType.maxu = 9
code InstrType.sext_b = 10
code InstrType.sext_h = 11
code InstrType.zext_h = 12
code InstrType.rol = 13
code InstrType.ror = 14
code InstrType.rori = 15
code InstrType.orc_b = 16
code InstrType.rev8 = 17

abbrev pub count : ℕ
count = 18

-- The type with a given value.
abbrev pub of_code : ℕ → InstrType
of_code n =
    if n == 0
    then InstrType.andn
    else if n == 1
    then InstrType.orn
    else if n == 2
    then InstrType.xnor
    else if n == 3
    then InstrType.clz
    else if n == 4
    then InstrType.ctz
    else if n == 5
    then InstrType.cpop
    else if n == 6
    then InstrType.min
    else if n == 7
    then InstrType.minu
    else if n == 8
    then InstrType.max
    else if n == 9
    then InstrType.maxu
    else if n == 10
    then InstrType.sext_b
    else if n == 11
    then InstrType.sext_h
    else if n == 12
    then InstrType.zext_h
    else if n == 13
    then InstrType.rol
    else if n == 14
    then InstrType.ror
    else if n == 15
    then InstrType.rori
    else if n == 16
    then InstrType.orc_b
    else InstrType.rev8

-- The same type of riscv_zbb.hpp.
abbrev pub decoded : InstrType → Target.InstrType
decoded InstrType.andn = Target.InstrType.andn
decoded InstrType.orn = Target.InstrType.orn
decoded InstrType.xnor = Target.InstrType.xnor
decoded InstrType.clz = Target.InstrType.clz
decoded InstrType.ctz = Target.InstrType.ctz
decoded InstrType.cpop = Target.InstrType.cpop
decoded InstrType.min = Target.InstrType.min
decoded InstrType.minu = Target.InstrType.minu
decoded InstrType.max = Target.InstrType.max
decoded InstrType.maxu = Target.InstrType.maxu
decoded InstrType.sext_b = Target.InstrType.sext_b
decoded InstrType.sext_h = Target.InstrType.sext_h
decoded InstrType.zext_h = Target.InstrType.zext_h
decoded InstrType.rol = Target.InstrType.rol
decoded InstrType.ror = Target.InstrType.ror
decoded InstrType.rori = Target.InstrType.rori
decoded InstrType.orc_b = Target.InstrType.orc_b
decoded InstrType.rev8 = Target.InstrType.rev8

module _ {G : Type 0} (rng : Source G) where
  unfoldable pub gen_andn : Gen G ℕ
  gen_andn = do pure (encode_r_type 0b0100000 (← reg rng) (← reg rng) 0b111 (← reg rng) 0b0110011)

  unfoldable pub gen_orn : Gen G ℕ
  gen_orn = do pure (encode_r_type 0b0100000 (← reg rng) (← reg rng) 0b110 (← reg rng) 0b0110011)

  unfoldable pub gen_xnor : Gen G ℕ
  gen_xnor = do pure (encode_r_type 0b0100000 (← reg rng) (← reg rng) 0b100 (← reg rng) 0b0110011)

  unfoldable pub gen_clz : Gen G ℕ
  gen_clz = do pure (encode_i_type 0b011000000000 (← reg rng) 0b001 (← reg rng) 0b0010011)

  unfoldable pub gen_ctz : Gen G ℕ
  gen_ctz = do pure (encode_i_type 0b011000000001 (← reg rng) 0b001 (← reg rng) 0b0010011)

  unfoldable pub gen_cpop : Gen G ℕ
  gen_cpop = do pure (encode_i_type 0b011000000010 (← reg rng) 0b001 (← reg rng) 0b0010011)

  unfoldable pub gen_min : Gen G ℕ
  gen_min = do pure (encode_r_type 0b0000101 (← reg rng) (← reg rng) 0b100 (← reg rng) 0b0110011)

  unfoldable pub gen_minu : Gen G ℕ
  gen_minu = do pure (encode_r_type 0b0000101 (← reg rng) (← reg rng) 0b101 (← reg rng) 0b0110011)

  unfoldable pub gen_max : Gen G ℕ
  gen_max = do pure (encode_r_type 0b0000101 (← reg rng) (← reg rng) 0b110 (← reg rng) 0b0110011)

  unfoldable pub gen_maxu : Gen G ℕ
  gen_maxu = do pure (encode_r_type 0b0000101 (← reg rng) (← reg rng) 0b111 (← reg rng) 0b0110011)

  unfoldable pub gen_sext_b : Gen G ℕ
  gen_sext_b = do pure (encode_i_type 0b011000000100 (← reg rng) 0b001 (← reg rng) 0b0010011)

  unfoldable pub gen_sext_h : Gen G ℕ
  gen_sext_h = do pure (encode_i_type 0b011000000101 (← reg rng) 0b001 (← reg rng) 0b0010011)

  unfoldable pub gen_zext_h : Gen G ℕ
  gen_zext_h = do pure (encode_r_type 0b0000100 0 (← reg rng) 0b100 (← reg rng) 0b0110011)

  unfoldable pub gen_rol : Gen G ℕ
  gen_rol = do pure (encode_r_type 0b0110000 (← reg rng) (← reg rng) 0b001 (← reg rng) 0b0110011)

  unfoldable pub gen_ror : Gen G ℕ
  gen_ror = do pure (encode_r_type 0b0110000 (← reg rng) (← reg rng) 0b101 (← reg rng) 0b0110011)

  unfoldable pub gen_rori : Gen G ℕ
  gen_rori = do
    amount ← shamt rng
    pure (encode_i_type (bit_or (shl32 0b0110000 5) amount) (← reg rng) 0b101 (← reg rng) 0b0010011)

  unfoldable pub gen_orc_b : Gen G ℕ
  gen_orc_b = do pure (encode_i_type 0b001010000111 (← reg rng) 0b101 (← reg rng) 0b0010011)

  unfoldable pub gen_rev8 : Gen G ℕ
  gen_rev8 = do pure (encode_i_type 0b011010011000 (← reg rng) 0b101 (← reg rng) 0b0010011)

  unfoldable pub generators : List (Gen G ℕ)
  unfolding gen_andn gen_orn gen_xnor gen_clz gen_ctz gen_cpop gen_min gen_minu gen_max gen_maxu
      gen_sext_b gen_sext_h gen_zext_h gen_rol gen_ror gen_rori gen_orc_b gen_rev8
  generators =
      gen_andn ∷ gen_orn ∷ gen_xnor ∷ gen_clz ∷ gen_ctz ∷ gen_cpop ∷ gen_min ∷ gen_minu ∷ gen_max
      ∷ gen_maxu ∷ gen_sext_b ∷ gen_sext_h ∷ gen_zext_h ∷ gen_rol ∷ gen_ror ∷ gen_rori ∷ gen_orc_b
      ∷ gen_rev8 ∷ []

  unfoldable pub generate : InstrType → Loop G ℕ
  unfolding generators code Class.run_entry
  generate t = Class.run_entry rng generators (code t)

  unfoldable pub generate_random : ℕ → ℕ → Loop G ℕ
  unfolding generators Class.generate_random
  generate_random = Class.generate_random rng generators count

  unfoldable pub generate_sequence : ℕ → ℕ → ℕ → Loop G (List ℕ)
  unfolding generators Class.generate_sequence
  generate_sequence = Class.generate_sequence rng generators count
