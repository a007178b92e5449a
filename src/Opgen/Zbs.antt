-- ===== src/Opgen/Zbs.antt =====
-- riscv_zbs_opgen.hpp: the class `OpcodeGenerator`. `fuel` bounds the rounds of a rejection loop.
use rv32_complete_v.Opgen.Source.{
  Source, Gen, Loop, ◌>>=◌, pure, reg, shamt, imm12, imm20_upper, branch_offset, jal_offset, choice,
  entry, or_zero,
}
use rv32_complete_v.Opgen.Encode.{
  encode_r_type, encode_i_type, encode_s_type, encode_b_type, encode_u_type, encode_j_type,
}
use rv32_complete_v.Opgen.Generator as Class
use rv32_complete_v.Zbs as Target
use rv32_complete_v.Prelude.{
  ℕ, List, [], ◌∷◌, bit_or, bit_and, shl32, shr32, if◌then◌else◌, ◌==◌, ◌!=◌, ◌||◌, Bool, true,
  false, ltb, ◌+◌, ◌-◌,
}
pub mod Decoding

pub data InstrType : Type 0 where
  bset bseti bclr bclri binv binvi bext bexti : InstrType

-- The value of an enumerator, and how many there are.
unfoldable pub code : InstrType → ℕ
code InstrType.bset = 0
code InstrType.bseti = 1
code InstrType.bclr = 2
code InstrType.bclri = 3
code InstrType.binv = 4
code InstrType.binvi = 5
code InstrType.bext = 6
code InstrType.bexti = 7

abbrev pub count : ℕ
count = 8

-- The type with a given value.
abbrev pub of_code : ℕ → InstrType
of_code n =
    if n == 0
    then InstrType.bset
    else if n == 1
    then InstrType.bseti
    else if n == 2
    then InstrType.bclr
    else if n == 3
    then InstrType.bclri
    else if n == 4
    then InstrType.binv
    else if n == 5
    then InstrType.binvi
    else if n == 6
    then InstrType.bext
    else InstrType.bexti

-- The same type of riscv_zbs.hpp.
abbrev pub decoded : InstrType → Target.InstrType
decoded InstrType.bset = Target.InstrType.bset
decoded InstrType.bseti = Target.InstrType.bseti
decoded InstrType.bclr = Target.InstrType.bclr
decoded InstrType.bclri = Target.InstrType.bclri
decoded InstrType.binv = Target.InstrType.binv
decoded InstrType.binvi = Target.InstrType.binvi
decoded InstrType.bext = Target.InstrType.bext
decoded InstrType.bexti = Target.InstrType.bexti

module _ {G : Type 0} (rng : Source G) where
  unfoldable pub gen_bset : Gen G ℕ
  gen_bset = do pure (encode_r_type 0b0010100 (← reg rng) (← reg rng) 0b001 (← reg rng) 0b0110011)

  unfoldable pub gen_bseti : Gen G ℕ
  gen_bseti = do
    pure (encode_r_type 0b0010100 (← shamt rng) (← reg rng) 0b001 (← reg rng) 0b0010011)

  unfoldable pub gen_bclr : Gen G ℕ
  gen_bclr = do pure (encode_r_type 0b0100100 (← reg rng) (← reg rng) 0b001 (← reg rng) 0b0110011)

  unfoldable pub gen_bclri : Gen G ℕ
  gen_bclri = do
    pure (encode_r_type 0b0100100 (← shamt rng) (← reg rng) 0b001 (← reg rng) 0b0010011)

  unfoldable pub gen_binv : Gen G ℕ
  gen_binv = do pure (encode_r_type 0b0110100 (← reg rng) (← reg rng) 0b001 (← reg rng) 0b0110011)

  unfoldable pub gen_binvi : Gen G ℕ
  gen_binvi = do
    pure (encode_r_type 0b0110100 (← shamt rng) (← reg rng) 0b001 (← reg rng) 0b0010011)

  unfoldable pub gen_bext : Gen G ℕ
  gen_bext = do pure (encode_r_type 0b0100100 (← reg rng) (← reg rng) 0b101 (← reg rng) 0b0110011)

  unfoldable pub gen_bexti : Gen G ℕ
  gen_bexti = do
    pure (encode_r_type 0b0100100 (← shamt rng) (← reg rng) 0b101 (← reg rng) 0b0010011)

  unfoldable pub generators : List (Gen G ℕ)
  unfolding gen_bset gen_bseti gen_bclr gen_bclri gen_binv gen_binvi gen_bext gen_bexti
  generators =
      gen_bset ∷ gen_bseti ∷ gen_bclr ∷ gen_bclri ∷ gen_binv ∷ gen_binvi ∷ gen_bext ∷ gen_bexti ∷ []

  unfoldable pub generate : InstrType → Loop G ℕ
  unfolding generators code Class.run_entry
  generate t = Class.run_entry rng generators (code t)

  unfoldable pub generate_random : ℕ → ℕ → Loop G ℕ
  unfolding generators Class.generate_random
  generate_random = Class.generate_random rng generators count

  unfoldable pub generate_sequence : ℕ → ℕ → ℕ → Loop G (List ℕ)
  unfolding generators Class.generate_sequence
  generate_sequence = Class.generate_sequence rng generators count
