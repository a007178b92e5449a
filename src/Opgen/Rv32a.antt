-- ===== src/Opgen/Rv32a.antt =====
-- riscv_rv32a_opgen.hpp: the class `OpcodeGenerator`. `fuel` bounds the rounds of a rejection loop.
use rv32_complete_v.Opgen.Source.{
  Source, Gen, Loop, ◌>>=◌, pure, reg, shamt, imm12, imm20_upper, branch_offset, jal_offset, choice,
  entry, or_zero,
}
use rv32_complete_v.Opgen.Encode.{
  encode_r_type, encode_i_type, encode_s_type, encode_b_type, encode_u_type, encode_j_type,
}
use rv32_complete_v.Opgen.Generator as Class
use rv32_complete_v.Rv32a as Target
use rv32_complete_v.Prelude.{
  ℕ, List, [], ◌∷◌, bit_or, bit_and, shl32, shr32, if◌then◌else◌, ◌==◌, ◌!=◌, ◌||◌, Bool, true,
  false, ltb, ◌+◌, ◌-◌,
}
pub mod Decoding

pub data InstrType : Type 0 where
  lr_w sc_w amoswap_w amoadd_w amoxor_w amoand_w amoor_w amomin_w : InstrType
  amomax_w amominu_w amomaxu_w : InstrType

-- The value of an enumerator, and how many there are.
unfoldable pub code : InstrType → ℕ
code InstrType.lr_w = 0
code InstrType.sc_w = 1
code InstrType.amoswap_w = 2
code InstrType.amoadd_w = 3
code InstrType.amoxor_w = 4
code InstrType.amoand_w = 5
code InstrType.amoor_w = 6
code InstrType.amomin_w = 7
code InstrType.amomax_w = 8
code InstrType.amominu_w = 9
code InstrType.amomaxu_w = 10

abbrev pub count : ℕ
count = 11

-- The type with a given value.
abbrev pub of_code : ℕ → InstrType
of_code n =
    if n == 0
    then InstrType.lr_w
    else if n == 1
    then InstrType.sc_w
    else if n == 2
    then InstrType.amoswap_w
    else if n == 3
    then InstrType.amoadd_w
    else if n == 4
    then InstrType.amoxor_w
    else if n == 5
    then InstrType.amoand_w
    else if n == 6
    then InstrType.amoor_w
    else if n == 7
    then InstrType.amomin_w
    else if n == 8
    then InstrType.amomax_w
    else if n == 9
    then InstrType.amominu_w
    else InstrType.amomaxu_w

-- The same type of riscv_rv32a.hpp.
abbrev pub decoded : InstrType → Target.InstrType
decoded InstrType.lr_w = Target.InstrType.lr_w
decoded InstrType.sc_w = Target.InstrType.sc_w
decoded InstrType.amoswap_w = Target.InstrType.amoswap_w
decoded InstrType.amoadd_w = Target.InstrType.amoadd_w
decoded InstrType.amoxor_w = Target.InstrType.amoxor_w
decoded InstrType.amoand_w = Target.InstrType.amoand_w
decoded InstrType.amoor_w = Target.InstrType.amoor_w
decoded InstrType.amomin_w = Target.InstrType.amomin_w
decoded InstrType.amomax_w = Target.InstrType.amomax_w
decoded InstrType.amominu_w = Target.InstrType.amominu_w
decoded InstrType.amomaxu_w = Target.InstrType.amomaxu_w

unfoldable pub encode_amo : ℕ → Bool → Bool → ℕ → ℕ → ℕ → ℕ
encode_amo funct5 aq rl rs2 rs1 rd =
    bit_or
      (bit_or
        (bit_or
          (bit_or
            (bit_or
              (bit_or (bit_or (shl32 (bit_and funct5 0x1f) 27) (shl32 (if aq then 1 else 0) 26))
                (shl32 (if rl then 1 else 0) 25))
              (shl32 (bit_and rs2 0x1f) 20))
            (shl32 (bit_and rs1 0x1f) 15))
          (shl32 0b010 12))
        (shl32 (bit_and rd 0x1f) 7))
      0b0101111

module _ {G : Type 0} (rng : Source G) where
  unfoldable pub ordering : Gen G ℕ
  ordering = rng.uniform 0 3

  -- The ordering bits that each generator draws first.
  unfoldable pub gen_ordered : (Bool → Bool → Gen G ℕ) → Gen G ℕ
  unfolding ordering
  gen_ordered next = do ord ← ordering; next (bit_and (shr32 ord 1) 1 != 0) (bit_and ord 1 != 0)

  unfoldable pub gen_lr_w : Gen G ℕ
  gen_lr_w = gen_ordered (λ aq rl. do pure (encode_amo 0b00010 aq rl 0 (← reg rng) (← reg rng)))

  unfoldable pub gen_sc_w : Gen G ℕ
  gen_sc_w =
      gen_ordered (λ aq rl. do pure (encode_amo 0b00011 aq rl (← reg rng) (← reg rng) (← reg rng)))

  unfoldable pub gen_amoswap_w : Gen G ℕ
  gen_amoswap_w =
      gen_ordered (λ aq rl. do pure (encode_amo 0b00001 aq rl (← reg rng) (← reg rng) (← reg rng)))

  unfoldable pub gen_amoadd_w : Gen G ℕ
  gen_amoadd_w =
      gen_ordered (λ aq rl. do pure (encode_amo 0b00000 aq rl (← reg rng) (← reg rng) (← reg rng)))

  unfoldable pub gen_amoxor_w : Gen G ℕ
  gen_amoxor_w =
      gen_ordered (λ aq rl. do pure (encode_amo 0b00100 aq rl (← reg rng) (← reg rng) (← reg rng)))

  unfoldable pub gen_amoand_w : Gen G ℕ
  gen_amoand_w =
      gen_ordered (λ aq rl. do pure (encode_amo 0b01100 aq rl (← reg rng) (← reg rng) (← reg rng)))

  unfoldable pub gen_amoor_w : Gen G ℕ
  gen_amoor_w =
      gen_ordered (λ aq rl. do pure (encode_amo 0b01000 aq rl (← reg rng) (← reg rng) (← reg rng)))

  unfoldable pub gen_amomin_w : Gen G ℕ
  gen_amomin_w =
      gen_ordered (λ aq rl. do pure (encode_amo 0b10000 aq rl (← reg rng) (← reg rng) (← reg rng)))

  unfoldable pub gen_amomax_w : Gen G ℕ
  gen_amomax_w =
      gen_ordered (λ aq rl. do pure (encode_amo 0b10100 aq rl (← reg rng) (← reg rng) (← reg rng)))

  unfoldable pub gen_amominu_w : Gen G ℕ
  gen_amominu_w =
      gen_ordered (λ aq rl. do pure (encode_amo 0b11000 aq rl (← reg rng) (← reg rng) (← reg rng)))

  unfoldable pub gen_amomaxu_w : Gen G ℕ
  gen_amomaxu_w =
      gen_ordered (λ aq rl. do pure (encode_amo 0b11100 aq rl (← reg rng) (← reg rng) (← reg rng)))

  unfoldable pub generators : List (Gen G ℕ)
  unfolding gen_lr_w gen_sc_w gen_amoswap_w gen_amoadd_w gen_amoxor_w gen_amoand_w gen_amoor_w
      gen_amomin_w gen_amomax_w gen_amominu_w gen_amomaxu_w
  generators =
      gen_lr_w ∷ gen_sc_w ∷ gen_amoswap_w ∷ gen_amoadd_w ∷ gen_amoxor_w ∷ gen_amoand_w ∷ gen_amoor_w
      ∷ gen_amomin_w ∷ gen_amomax_w ∷ gen_amominu_w ∷ gen_amomaxu_w ∷ []

  unfoldable pub generate : InstrType → Loop G ℕ
  unfolding generators code Class.run_entry
  generate t = Class.run_entry rng generators (code t)

  unfoldable pub generate_random : ℕ → ℕ → Loop G ℕ
  unfolding generators Class.generate_random
  generate_random = Class.generate_random rng generators count

  unfoldable pub generate_sequence : ℕ → ℕ → ℕ → Loop G (List ℕ)
  unfolding generators Class.generate_sequence
  generate_sequence = Class.generate_sequence rng generators count

  abbrev pub amo_types : List ℕ
  unfolding code
  amo_types =
      code InstrType.amoswap_w
      ∷ code InstrType.amoadd_w
      ∷ code InstrType.amoxor_w
      ∷ code InstrType.amoand_w
      ∷ code InstrType.amoor_w
      ∷ code InstrType.amomin_w
      ∷ code InstrType.amomax_w
      ∷ code InstrType.amominu_w
      ∷ code InstrType.amomaxu_w
      ∷ []

  unfoldable pub generate_amo : ℕ → ℕ → Loop G ℕ
  unfolding generators code Class.generate_picked
  generate_amo fuel enabled = Class.generate_picked rng generators count fuel enabled amo_types 8

  abbrev pub amo_arithmetic_types : List ℕ
  unfolding code
  amo_arithmetic_types =
      code InstrType.amoadd_w
      ∷ code InstrType.amomin_w
      ∷ code InstrType.amomax_w
      ∷ code InstrType.amominu_w
      ∷ code InstrType.amomaxu_w
      ∷ []

  unfoldable pub generate_amo_arithmetic : ℕ → ℕ → Loop G ℕ
  unfolding generators code Class.generate_picked
  generate_amo_arithmetic fuel enabled =
      Class.generate_picked rng generators count fuel enabled amo_arithmetic_types 4

  abbrev pub amo_logical_types : List ℕ
  unfolding code
  amo_logical_types =
      code InstrType.amoswap_w
      ∷ code InstrType.amoxor_w
      ∷ code InstrType.amoand_w
      ∷ code InstrType.amoor_w
      ∷ []

  unfoldable pub generate_amo_logical : ℕ → ℕ → Loop G ℕ
  unfolding generators code Class.generate_picked
  generate_amo_logical fuel enabled =
      Class.generate_picked rng generators count fuel enabled amo_logical_types 3
