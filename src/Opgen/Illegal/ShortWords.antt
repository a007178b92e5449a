-- ===== src/Opgen/Illegal/ShortWords.antt =====
-- riscv_illegal_opgen.hpp: the compressed words.
use rv32_complete_v.Opgen.Source.{Source, IsInRange, Yields, reg}
use rv32_complete_v.Opgen.Illegal.{reg_until, gen_all_zeros}
use rv32_complete_v.Opgen.Illegal.Short.{
  gen_c_addi4spn_zero, gen_c_lwsp_rd0, gen_c_jr_rs1_0, gen_c_shift_shamt5, c_right_shift,
  c_left_shift, gen_c_alu_funct1, lui_word, gen_c_lui_zero, gen_c_addi16sp_zero,
}
use rv32_complete_v.Opgen.Illegal.Rejected.{IsRejected}
use rv32_complete_v.Opgen.Illegal.Words.{reg-lt}
use rv32_complete_v.Opgen.Illegal.FloatWords.{IsFair, after-Yields, reg_until-Yields}
use rv32_complete_v.OpcodeClassify.{
  is_compressed, opcode_is_rv32i, opcode_is_rv32m, opcode_is_rv32a, opcode_is_rv32f,
  opcode_is_zicsr, opcode_is_zifencei, opcode_is_zba, opcode_is_zbb, opcode_is_zbs,
  opcode_is_zicond, opcode_is_rv32c, opcode_is_rv32fc,
}
use rv32_complete_v.OpcodeClassify.Exclusive.{wide_classes, short_classes}
use rv32_complete_v.Rv32c.Decode as CDecode
use rv32_complete_v.Rv32fc as Fc
use rv32_complete_v.Prelude.{
  ℕ, ◌≤◌, ◌<◌, bit_and, bit_or, ◌≡◌, refl, inl, inr, Bool, true, not, ◌&&◌, ◌||◌, arith, ◌==◌,
  Bool-cases, bit_and_mask, shl32, below, below-at,
}

-- A compressed word that neither decoder knows.
unfoldable is_reserved : ℕ → Bool
unfolding is_compressed short_classes
is_reserved w = is_compressed w && short_classes w == 0

is_reserved-IsRejected : (s : Bool) (w : ℕ) → is_reserved w ≡ true → IsRejected s w
unfolding is_reserved wide_classes opcode_is_rv32i opcode_is_rv32m opcode_is_rv32a opcode_is_rv32f
    opcode_is_zicsr opcode_is_zifencei opcode_is_zba opcode_is_zbb opcode_is_zbs opcode_is_zicond
is_reserved-IsRejected s w h = let e : is_compressed w ≡ true = ground arith in rw e (ground arith)

-- The words of the generators, as functions of what they draw.
abbrev addi4spn_word : ℕ → ℕ
addi4spn_word rd = shl32 (bit_and rd 0x7) 2

abbrev lwsp_word : ℕ → ℕ → ℕ
lwsp_word b r =
    bit_or (bit_or (bit_or (shl32 0b010 13) (shl32 b 12)) (shl32 (bit_and r 0x1f) 2)) 0b10

abbrev right_word : ℕ → ℕ → ℕ → ℕ
right_word funct2 rd amount =
    bit_or
      (bit_or
        (bit_or (bit_or (bit_or (shl32 0b100 13) (shl32 1 12)) (shl32 funct2 10))
          (shl32 (bit_and rd 0x7) 7))
        (shl32 (bit_and amount 0x1f) 2))
      0b01

abbrev left_word : ℕ → ℕ → ℕ
left_word rd amount =
    bit_or
      (bit_or (bit_or (shl32 1 12) (shl32 (bit_and rd 0x1f) 7)) (shl32 (bit_and amount 0x1f) 2))
      0b10

abbrev alu_word : ℕ → ℕ → ℕ → ℕ
alu_word rd funct2 rs2 =
    bit_or
      (bit_or
        (bit_or
          (bit_or (bit_or (bit_or (shl32 0b100 13) (shl32 1 12)) (shl32 0b11 10))
            (shl32 (bit_and rd 0x7) 7))
          (shl32 funct2 5))
        (shl32 (bit_and rs2 0x7) 2))
      0b01

abbrev lui_zero : ℕ → ℕ
lui_zero rd = bit_or (bit_or (shl32 0b011 13) (shl32 rd 7)) 0b01

-- All of the words are reserved, one by one.
reserved_words :
    (is_reserved 0 ≡ true)
    × (is_reserved 0x6101 ≡ true)
    × (is_reserved (bit_or (shl32 0b100 13) 0b10) ≡ true)
    × (below 32 (λ rd. is_reserved (addi4spn_word rd)) ≡ true)
    × (below 2 (λ b. below 32 (λ r. is_reserved (lwsp_word b r))) ≡ true)
    × (below 32 (λ rd. rd == 0 || rd == 2 || is_reserved (lui_zero rd)) ≡ true)
    × (below 2 (λ funct2.
          below 32 (λ rd. below 32 (λ amount. is_reserved (right_word funct2 rd amount))))
        ≡ true)
    × (below 32 (λ rd. below 32 (λ amount. is_reserved (left_word rd amount))) ≡ true)
    × (below 32 (λ rd. below 4 (λ funct2. below 32 (λ rs2. is_reserved (alu_word rd funct2 rs2))))
        ≡ true)
unfolding is_reserved is_compressed short_classes opcode_is_rv32c opcode_is_rv32fc CDecode.decode
    CDecode.decode_quadrant CDecode.undecoded CDecode.decode_c0 CDecode.decode_c1 CDecode.decode_c2
    CDecode.decode_jump_move CDecode.decode_alu CDecode.decode_register_alu
    CDecode.decode_addi16sp_lui CDecode.addi4spn_imm CDecode.addi16sp_imm CDecode.signed_six_bits
    CDecode.six_bits Fc.decode Fc.decode_quadrant0 Fc.decode_quadrant2 Fc.undecoded
reserved_words = (refl, refl, refl, refl, refl, refl, refl, refl, refl)

below2-at :
    (m n : ℕ) (p : ℕ → ℕ → Bool)
    → below m (λ i. below n (λ j. p i j)) ≡ true
    → (i j : ℕ) → i < m
    → j < n
    → p i j ≡ true
below2-at m n p h i j a b =
    below-at n (λ y. p i y) (below-at m (λ x. below n (λ y. p x y)) h i a) j b

module _ {G : Type 0} (rng : Source G) (contract : IsInRange rng) (s : Bool) where
  pub all_zeros-IsRejected : (g : G) → IsRejected s (gen_all_zeros rng g).0
  unfolding gen_all_zeros
  all_zeros-IsRejected g = is_reserved-IsRejected s 0 reserved_words.0

  pub c_addi16sp_zero-IsRejected : (g : G) → IsRejected s (gen_c_addi16sp_zero rng g).0
  unfolding gen_c_addi16sp_zero
  c_addi16sp_zero-IsRejected g = is_reserved-IsRejected s 0x6101 reserved_words.1

  pub c_jr_rs1_0-IsRejected : (g : G) → IsRejected s (gen_c_jr_rs1_0 rng g).0
  unfolding gen_c_jr_rs1_0
  c_jr_rs1_0-IsRejected g = is_reserved-IsRejected s _ reserved_words.2

  pub c_addi4spn_zero-IsRejected : (g : G) → IsRejected s (gen_c_addi4spn_zero rng g).0
  unfolding gen_c_addi4spn_zero
  c_addi4spn_zero-IsRejected g = is_reserved-IsRejected s _ (
      below-at 32 (λ rd. is_reserved (addi4spn_word rd)) reserved_words.3 _ (reg-lt rng contract g))

  pub c_lwsp_rd0-IsRejected : (g : G) → IsRejected s (gen_c_lwsp_rd0 rng g).0
  unfolding gen_c_lwsp_rd0
  c_lwsp_rd0-IsRejected g = is_reserved-IsRejected s _ (
      below2-at 2 32 (λ b r. is_reserved (lwsp_word b r)) reserved_words.4 _ _
        (omega (arith, bit_and_mask 1 (rng.bits32 g).0)) (reg-lt rng contract _))

  pub c_shift_shamt5-IsRejected : (g : G) → IsRejected s (gen_c_shift_shamt5 rng g).0
  unfolding gen_c_shift_shamt5 c_right_shift c_left_shift
  c_shift_shamt5-IsRejected g = elim (Bool-cases (rng.chance 50 g).0) [
    | inl e ↦ rw e (
        is_reserved-IsRejected s _ (
          below2-at 32 32
            (λ rd amount.
              is_reserved (right_word (rng.uniform 0 1 (rng.chance 50 g).1).0 rd amount))
            (below-at 2
              (λ funct2.
                below 32 (λ rd. below 32 (λ amount. is_reserved (right_word funct2 rd amount))))
              reserved_words.6 (rng.uniform 0 1 (rng.chance 50 g).1).0
              (omega (arith, (contract 0 1 (rng.chance 50 g).1 (omega arith)).1)))
            _ _ (reg-lt rng contract _) (reg-lt rng contract _)))
    | inr e ↦ rw e (
        is_reserved-IsRejected s _ (
          below2-at 32 32 (λ rd amount. is_reserved (left_word rd amount)) reserved_words.7 _ _
            (reg-lt rng contract _) (reg-lt rng contract _)))
  ]

  pub c_alu_funct1-IsRejected : (g : G) → IsRejected s (gen_c_alu_funct1 rng g).0
  unfolding gen_c_alu_funct1
  c_alu_funct1-IsRejected g = is_reserved-IsRejected s _ (
      below2-at 4 32 (λ funct2 rs2. is_reserved (alu_word (reg rng g).0 funct2 rs2))
        (below-at 32
          (λ rd. below 4 (λ funct2. below 32 (λ rs2. is_reserved (alu_word rd funct2 rs2))))
          reserved_words.8 _ (reg-lt rng contract g))
        _ _ (omega (arith, (contract 0 3 (reg rng g).1 (omega arith)).1)) (reg-lt rng contract _))

  pub c_lui_zero-IsRejected :
      (fuel : ℕ) (fair : IsFair rng fuel) (g : G)
      → Yields (IsRejected s) (gen_c_lui_zero rng fuel g)
  unfolding gen_c_lui_zero lui_word
  c_lui_zero-IsRejected fuel fair g =
      after-Yields (λ x. (x ≤ 31) × (not (x == 0 || x == 2) ≡ true)) (IsRejected s)
        (reg_until rng (λ rd. not (rd == 0 || rd == 2)) fuel g) (lui_word rng)
        (reg_until-Yields rng contract s fuel fair (λ rd. not (rd == 0 || rd == 2)) 1 g
          (omega arith) refl)
        (λ rd g' p.
          let e =
            below-at 32 (λ rd. rd == 0 || rd == 2 || is_reserved (lui_zero rd)) reserved_words.5 rd
              (omega (arith, p.0)) in
          is_reserved-IsRejected s _ (ground (arith, p.1, e)))
