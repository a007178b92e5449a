-- ===== src/Opgen/Rv32m.antt =====
-- riscv_rv32m_opgen.hpp: the class `OpcodeGenerator`. `fuel` bounds the rounds of a rejection loop.
use rv32_complete_v.Opgen.Source.{
  Source, Gen, Loop, ◌>>=◌, pure, reg, shamt, imm12, imm20_upper, branch_offset, jal_offset, choice,
  entry, or_zero,
}
use rv32_complete_v.Opgen.Encode.{
  encode_r_type, encode_i_type, encode_s_type, encode_b_type, encode_u_type, encode_j_type,
}
use rv32_complete_v.Opgen.Generator as Class
use rv32_complete_v.Rv32m as Target
use rv32_complete_v.Prelude.{
  ℕ, List, [], ◌∷◌, bit_or, bit_and, shl32, shr32, if◌then◌else◌, ◌==◌, ◌!=◌, ◌||◌, Bool, true,
  false, ltb, ◌+◌, ◌-◌,
}
pub mod Decoding

pub data InstrType : Type 0 where
  mul mulh mulhsu mulhu div divu rem remu : InstrType

-- The value of an enumerator, and how many there are.
unfoldable pub code : InstrType → ℕ
code InstrType.mul = 0
code InstrType.mulh = 1
code InstrType.mulhsu = 2
code InstrType.mulhu = 3
code InstrType.div = 4
code InstrType.divu = 5
code InstrType.rem = 6
code InstrType.remu = 7

abbrev pub count : ℕ
count = 8

-- The type with a given value.
abbrev pub of_code : ℕ → InstrType
of_code n =
    if n == 0
    then InstrType.mul
    else if n == 1
    then InstrType.mulh
    else if n == 2
    then InstrType.mulhsu
    else if n == 3
    then InstrType.mulhu
    else if n == 4
    then InstrType.div
    else if n == 5
    then InstrType.divu
    else if n == 6
    then InstrType.rem
    else InstrType.remu

-- The same type of riscv_rv32m.hpp.
abbrev pub decoded : InstrType → Target.InstrType
decoded InstrType.mul = Target.InstrType.mul
decoded InstrType.mulh = Target.InstrType.mulh
decoded InstrType.mulhsu = Target.InstrType.mulhsu
decoded InstrType.mulhu = Target.InstrType.mulhu
decoded InstrType.div = Target.InstrType.div
decoded InstrType.divu = Target.InstrType.divu
decoded InstrType.rem = Target.InstrType.rem
decoded InstrType.remu = Target.InstrType.remu

module _ {G : Type 0} (rng : Source G) where
  unfoldable pub gen_mul : Gen G ℕ
  gen_mul = do pure (encode_r_type 0b0000001 (← reg rng) (← reg rng) 0b000 (← reg rng) 0b0110011)

  unfoldable pub gen_mulh : Gen G ℕ
  gen_mulh = do pure (encode_r_type 0b0000001 (← reg rng) (← reg rng) 0b001 (← reg rng) 0b0110011)

  unfoldable pub gen_mulhsu : Gen G ℕ
  gen_mulhsu = do pure (encode_r_type 0b0000001 (← reg rng) (← reg rng) 0b010 (← reg rng) 0b0110011)

  unfoldable pub gen_mulhu : Gen G ℕ
  gen_mulhu = do pure (encode_r_type 0b0000001 (← reg rng) (← reg rng) 0b011 (← reg rng) 0b0110011)

  unfoldable pub gen_div : Gen G ℕ
  gen_div = do pure (encode_r_type 0b0000001 (← reg rng) (← reg rng) 0b100 (← reg rng) 0b0110011)

  unfoldable pub gen_divu : Gen G ℕ
  gen_divu = do pure (encode_r_type 0b0000001 (← reg rng) (← reg rng) 0b101 (← reg rng) 0b0110011)

  unfoldable pub gen_rem : Gen G ℕ
  gen_rem = do pure (encode_r_type 0b0000001 (← reg rng) (← reg rng) 0b110 (← reg rng) 0b0110011)

  unfoldable pub gen_remu : Gen G ℕ
  gen_remu = do pure (encode_r_type 0b0000001 (← reg rng) (← reg rng) 0b111 (← reg rng) 0b0110011)

  unfoldable pub generators : List (Gen G ℕ)
  unfolding gen_mul gen_mulh gen_mulhsu gen_mulhu gen_div gen_divu gen_rem gen_remu
  generators =
      gen_mul ∷ gen_mulh ∷ gen_mulhsu ∷ gen_mulhu ∷ gen_div ∷ gen_divu ∷ gen_rem ∷ gen_remu ∷ []

  unfoldable pub generate : InstrType → Loop G ℕ
  unfolding generators code Class.run_entry
  generate t = Class.run_entry rng generators (code t)

  unfoldable pub generate_random : ℕ → ℕ → Loop G ℕ
  unfolding generators Class.generate_random
  generate_random = Class.generate_random rng generators count

  unfoldable pub generate_sequence : ℕ → ℕ → ℕ → Loop G (List ℕ)
  unfolding generators Class.generate_sequence
  generate_sequence = Class.generate_sequence rng generators count

  abbrev pub multiply_types : List ℕ
  unfolding code
  multiply_types =
      code InstrType.mul ∷ code InstrType.mulh ∷ code InstrType.mulhsu ∷ code InstrType.mulhu ∷ []

  unfoldable pub generate_multiply : ℕ → ℕ → Loop G ℕ
  unfolding generators code Class.generate_picked
  generate_multiply fuel enabled =
      Class.generate_picked rng generators count fuel enabled multiply_types 3

  abbrev pub divide_types : List ℕ
  unfolding code
  divide_types =
      code InstrType.div ∷ code InstrType.divu ∷ code InstrType.rem ∷ code InstrType.remu ∷ []

  unfoldable pub generate_divide : ℕ → ℕ → Loop G ℕ
  unfolding generators code Class.generate_picked
  generate_divide fuel enabled =
      Class.generate_picked rng generators count fuel enabled divide_types 3
