-- ===== src/Opgen/Zba.antt =====
-- riscv_zba_opgen.hpp: the class `OpcodeGenerator`. `fuel` bounds the rounds of a rejection loop.
use rv32_complete_v.Opgen.Source.{
  Source, Gen, Loop, ◌>>=◌, pure, reg, shamt, imm12, imm20_upper, branch_offset, jal_offset, choice,
  entry, or_zero,
}
use rv32_complete_v.Opgen.Encode.{
  encode_r_type, encode_i_type, encode_s_type, encode_b_type, encode_u_type, encode_j_type,
}
use rv32_complete_v.Opgen.Generator as Class
use rv32_complete_v.Zba as Target
use rv32_complete_v.Prelude.{
  ℕ, List, [], ◌∷◌, bit_or, bit_and, shl32, shr32, if◌then◌else◌, ◌==◌, ◌!=◌, ◌||◌, Bool, true,
  false, ltb, ◌+◌, ◌-◌,
}
pub mod Decoding

pub data InstrType : Type 0 where
  sh1add sh2add sh3add : InstrType

-- The value of an enumerator, and how many there are.
unfoldable pub code : InstrType → ℕ
code InstrType.sh1add = 0
code InstrType.sh2add = 1
code InstrType.sh3add = 2

abbrev pub count : ℕ
count = 3

-- The type with a given value.
abbrev pub of_code : ℕ → InstrType
of_code n =
    if n == 0 then InstrType.sh1add else if n == 1 then InstrType.sh2add else InstrType.sh3add

-- The same type of riscv_zba.hpp.
abbrev pub decoded : InstrType → Target.InstrType
decoded InstrType.sh1add = Target.InstrType.sh1add
decoded InstrType.sh2add = Target.InstrType.sh2add
decoded InstrType.sh3add = Target.InstrType.sh3add

module _ {G : Type 0} (rng : Source G) where
  unfoldable pub gen_sh1add : Gen G ℕ
  gen_sh1add = do pure (encode_r_type 0b0010000 (← reg rng) (← reg rng) 0b010 (← reg rng) 0b0110011)

  unfoldable pub gen_sh2add : Gen G ℕ
  gen_sh2add = do pure (encode_r_type 0b0010000 (← reg rng) (← reg rng) 0b100 (← reg rng) 0b0110011)

  unfoldable pub gen_sh3add : Gen G ℕ
  gen_sh3add = do pure (encode_r_type 0b0010000 (← reg rng) (← reg rng) 0b110 (← reg rng) 0b0110011)

  unfoldable pub generators : List (Gen G ℕ)
  unfolding gen_sh1add gen_sh2add gen_sh3add
  generators = gen_sh1add ∷ gen_sh2add ∷ gen_sh3add ∷ []

  unfoldable pub generate : InstrType → Loop G ℕ
  unfolding generators code Class.run_entry
  generate t = Class.run_entry rng generators (code t)

  unfoldable pub generate_random : ℕ → ℕ → Loop G ℕ
  unfolding generators Class.generate_random
  generate_random = Class.generate_random rng generators count

  unfoldable pub generate_sequence : ℕ → ℕ → ℕ → Loop G (List ℕ)
  unfolding generators Class.generate_sequence
  generate_sequence = Class.generate_sequence rng generators count
