-- ===== src/Opgen/Zicond.antt =====
-- riscv_zicond_opgen.hpp: the class `OpcodeGenerator`. `fuel` bounds the rounds of a rejection loop.
use rv32_complete_v.Opgen.Source.{
  Source, Gen, Loop, ◌>>=◌, pure, reg, shamt, imm12, imm20_upper, branch_offset, jal_offset, choice,
  entry, or_zero,
}
use rv32_complete_v.Opgen.Encode.{
  encode_r_type, encode_i_type, encode_s_type, encode_b_type, encode_u_type, encode_j_type,
}
use rv32_complete_v.Opgen.Generator as Class
use rv32_complete_v.Zicond as Target
use rv32_complete_v.Prelude.{
  ℕ, List, [], ◌∷◌, bit_or, bit_and, shl32, shr32, if◌then◌else◌, ◌==◌, ◌!=◌, ◌||◌, Bool, true,
  false, ltb, ◌+◌, ◌-◌,
}
pub mod Decoding

pub data InstrType : Type 0 where
  czero_eqz czero_nez : InstrType

-- The value of an enumerator, and how many there are.
unfoldable pub code : InstrType → ℕ
code InstrType.czero_eqz = 0
code InstrType.czero_nez = 1

abbrev pub count : ℕ
count = 2

-- The type with a given value.
abbrev pub of_code : ℕ → InstrType
of_code n = if n == 0 then InstrType.czero_eqz else InstrType.czero_nez

-- The same type of riscv_zicond.hpp.
abbrev pub decoded : InstrType → Target.InstrType
decoded InstrType.czero_eqz = Target.InstrType.czero_eqz
decoded InstrType.czero_nez = Target.InstrType.czero_nez

module _ {G : Type 0} (rng : Source G) where
  unfoldable pub gen_czero_eqz : Gen G ℕ
  gen_czero_eqz = do
    pure (encode_r_type 0b0000111 (← reg rng) (← reg rng) 0b101 (← reg rng) 0b0110011)

  unfoldable pub gen_czero_nez : Gen G ℕ
  gen_czero_nez = do
    pure (encode_r_type 0b0000111 (← reg rng) (← reg rng) 0b111 (← reg rng) 0b0110011)

  unfoldable pub generators : List (Gen G ℕ)
  unfolding gen_czero_eqz gen_czero_nez
  generators = gen_czero_eqz ∷ gen_czero_nez ∷ []

  unfoldable pub generate : InstrType → Loop G ℕ
  unfolding generators code Class.run_entry
  generate t = Class.run_entry rng generators (code t)

  unfoldable pub generate_random : ℕ → ℕ → Loop G ℕ
  unfolding generators Class.generate_random
  generate_random = Class.generate_random rng generators count

  unfoldable pub generate_sequence : ℕ → ℕ → ℕ → Loop G (List ℕ)
  unfolding generators Class.generate_sequence
  generate_sequence = Class.generate_sequence rng generators count
