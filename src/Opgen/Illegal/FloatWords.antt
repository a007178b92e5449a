-- ===== src/Opgen/Illegal/FloatWords.antt =====
-- riscv_illegal_opgen.hpp: the floating-point words, and the atomic words that a loop makes.
use rv32_complete_v.Rv32f.Decode as F
use rv32_complete_v.Rv32f.Types as FTypes
use rv32_complete_v.Opgen.Source.{Source, Gen, IsInRange, Yields, entry, or_zero, choice}
use rv32_complete_v.Opgen.Random.{reaches, draw_until-reaches}
use rv32_complete_v.Opgen.Illegal.{after, reg_until, r_word}
use rv32_complete_v.Opgen.Illegal.Float.{
  modes, not_word, fp_word, fp_word_rs2, gen_bad_fp_funct7, gen_bad_fp_rm, gen_bad_fsqrt,
  gen_bad_fcvt, gen_bad_fmv_fclass, gen_bad_fcmp, gen_bad_fminmax, gen_bad_fsgnj, gen_bad_fmv_wx,
  gen_bad_load_fp, gen_bad_store_fp,
}
use rv32_complete_v.Opgen.Illegal.Rejected.{IsRejected}
use rv32_complete_v.Opgen.Illegal.RejectedFloat.{
  checked_type, is_unassigned, is_rounded, is_conversion, unassigned_type, reserved_mode_type,
  conversion_type, op_fp-IsRejected, float_memory-IsRejected, bad_float_memory,
}
use rv32_complete_v.Opgen.Illegal.Words.{
  enc_r-Fields, enc_i-Fields, store_word-Fields, choice_all, reg-lt, between,
}
use rv32_complete_v.Prelude.{
  ℕ, ◌%◌, ◌≤◌, ◌≡◌, refl, Bool, true, ◌||◌, Option, none, some, [], ◌∷◌, arith, ltb, ◌==◌, ◌!=◌,
  ltb_iff, below, if_cases,
}

-- A rejection loop on a register number ends within `fuel` draws, if a number passes its test.
abbrev pub IsFair : {G : Type 0} → Source G → ℕ → Type 0
IsFair {G} rng fuel =
    (ok : ℕ → Bool) (v : ℕ) (g : G) → v ≤ 31 → ok v ≡ true → reaches rng ok 31 fuel g ≡ true

pub after-Yields :
    {G A B : Type 0} (P : A → Type 0) (Q : B → Type 0) (o : Option (A × G)) (f : A → Gen G B)
    → Yields P o
    → ((a : A) (g : G) → P a → Q (f a g).0)
    → Yields Q (after o f)
after-Yields P Q none f y h = y
after-Yields P Q (some (a, g)) f y h = h a g y

unassigned_entries :
    below 6 (λ i. is_unassigned (
      or_zero (entry (0b0000001 ∷ 0b0001001 ∷ 0b0001101 ∷ 0b0101101 ∷ 0b0010001 ∷ 0b1111111 ∷ []) i)
      % 128))
    ≡ true
unfolding entry is_unassigned
unassigned_entries = refl

rounded_entries :
    below 5 (λ i.
      is_rounded
        (or_zero (entry (0b0000000 ∷ 0b0001000 ∷ 0b0101100 ∷ 0b1100000 ∷ 0b1101000 ∷ []) i) % 128))
    ≡ true
unfolding entry is_rounded
rounded_entries = refl

conversion_entries :
    below 2 (λ i. is_conversion (or_zero (entry (0b1100000 ∷ 0b1101000 ∷ []) i) % 128)) ≡ true
unfolding entry is_conversion
conversion_entries = refl

load_entries : below 7 (λ i. bad_float_memory 0b0000111 (or_zero (entry not_word i) % 8)) ≡ true
unfolding entry bad_float_memory
load_entries = refl

store_entries : below 7 (λ i. bad_float_memory 0b0100111 (or_zero (entry not_word i) % 8)) ≡ true
unfolding entry bad_float_memory
store_entries = refl

store_range : below 7 (λ i. ltb (or_zero (entry not_word i)) 8) ≡ true
unfolding entry
store_range = refl

module _ {G : Type 0} (rng : Source G) (contract : IsInRange rng) (s : Bool) where
  fp_word-IsRejected :
      (f7 : ℕ) (funct3 : Gen G ℕ) (g : G)
      → ((g' : G) (rs2 : ℕ)
          → checked_type ((funct3 g').0 % 8) rs2 (F.op_fp_type (f7 % 128) ((funct3 g').0 % 8) rs2)
            ≡ FTypes.InstrType.illegal)
      → IsRejected s (fp_word rng f7 funct3 g).0
  unfolding fp_word
  fp_word-IsRejected f7 funct3 g h = op_fp-IsRejected s _ (enc_r-Fields _ _ _ _ _ 0b1010011) (h _ _)

  fp_word_rs2-IsRejected :
      (f7 : ℕ) (funct3 : Gen G ℕ) (rs2 : ℕ) (g : G)
      → ((g' : G)
          → checked_type
              ((funct3 g').0 % 8)
              (rs2 % 32)
              (F.op_fp_type (f7 % 128) ((funct3 g').0 % 8) (rs2 % 32))
            ≡ FTypes.InstrType.illegal)
      → IsRejected s (fp_word_rs2 rng f7 funct3 rs2 g).0
  unfolding fp_word_rs2
  fp_word_rs2-IsRejected f7 funct3 rs2 g h =
      op_fp-IsRejected s _ (enc_r-Fields _ _ _ _ _ 0b1010011) (h _)

  pub fcmp-IsRejected : (g : G) → IsRejected s (gen_bad_fcmp rng g).0
  unfolding gen_bad_fcmp checked_type F.op_fp_type F.uses_rm
  fcmp-IsRejected g =
      fp_word-IsRejected 0b1010000 (rng.uniform 3 7) g
        (λ g' rs2. ground (arith, contract 3 7 g' (omega arith)))

  pub fminmax-IsRejected : (g : G) → IsRejected s (gen_bad_fminmax rng g).0
  unfolding gen_bad_fminmax checked_type F.op_fp_type F.uses_rm
  fminmax-IsRejected g =
      fp_word-IsRejected 0b0010100 (rng.uniform 2 7) g
        (λ g' rs2. ground (arith, contract 2 7 g' (omega arith)))

  pub fsgnj-IsRejected : (g : G) → IsRejected s (gen_bad_fsgnj rng g).0
  unfolding gen_bad_fsgnj checked_type F.op_fp_type F.uses_rm
  fsgnj-IsRejected g =
      fp_word-IsRejected 0b0010000 (rng.uniform 3 7) g
        (λ g' rs2. ground (arith, contract 3 7 g' (omega arith)))

  pub fp_rm-IsRejected : (g : G) → IsRejected s (gen_bad_fp_rm rng g).0
  unfolding gen_bad_fp_rm
  fp_rm-IsRejected g = fp_word-IsRejected _ (rng.uniform 5 6) _ (λ g' rs2.
      reserved_mode_type _ _ rs2
        (choice_all rng contract (λ f7. is_rounded (f7 % 128)) _ 4 g rounded_entries)
        (between rng contract s (λ f3. f3 % 8 == 5 || f3 % 8 == 6) 5 6 g' (omega arith)
          (λ x a b. ground arith)))

  pub fp_funct7-IsRejected : (g : G) → IsRejected s (gen_bad_fp_funct7 rng g).0
  unfolding gen_bad_fp_funct7
  fp_funct7-IsRejected g = fp_word-IsRejected _ (choice rng modes 5) _ (λ g' rs2.
      unassigned_type _ _ rs2
        (choice_all rng contract (λ f7. is_unassigned (f7 % 128)) _ 5 g unassigned_entries))

  pub fcvt-IsRejected : (g : G) → IsRejected s (gen_bad_fcvt rng g).0
  unfolding gen_bad_fcvt
  fcvt-IsRejected g = fp_word_rs2-IsRejected _ (choice rng modes 5) _ _ (λ g'.
      conversion_type _ _ _
        (choice_all rng contract (λ f7. is_conversion (f7 % 128)) _ 1 g conversion_entries)
        (between rng contract s (λ rs2. ltb 1 (rs2 % 32)) 2 31 _ (omega arith)
          (λ x a b. ground arith)))

  pub load_fp-IsRejected : (g : G) → IsRejected s (gen_bad_load_fp rng g).0
  unfolding gen_bad_load_fp
  load_fp-IsRejected g = float_memory-IsRejected s _ 0b0000111 (enc_i-Fields _ _ _ _ _) (
      choice_all rng contract (λ f3. bad_float_memory 0b0000111 (f3 % 8)) not_word 6 _ load_entries)

  pub store_fp-IsRejected : (g : G) → IsRejected s (gen_bad_store_fp rng g).0
  unfolding gen_bad_store_fp
  store_fp-IsRejected g =
      float_memory-IsRejected s _ 0b0100111
        (store_word-Fields _ _ _ _ 0b0100111 (reg-lt rng contract _) (reg-lt rng contract _)
          ((ltb_iff _ 8).0 (choice_all rng contract (λ f3. ltb f3 8) not_word 6 _ store_range))
          (omega arith))
        (choice_all rng contract (λ f3. bad_float_memory 0b0100111 (f3 % 8)) not_word 6 _
          store_entries)

  -- What a loop on a register number finds passes its test.
  pub reg_until-Yields :
      (fuel : ℕ) (fair : IsFair rng fuel) (ok : ℕ → Bool) (v : ℕ) (g : G)
      → v ≤ 31
      → ok v ≡ true
      → Yields (λ x. (x ≤ 31) × (ok x ≡ true)) (reg_until rng ok fuel g)
  unfolding reg_until
  reg_until-Yields fuel fair ok v g le h =
      draw_until-reaches rng contract ok 31 fuel g (fair ok v g le h)

  module _ (fuel : ℕ) (fair : IsFair rng fuel) where
    pub fsqrt-IsRejected : (g : G) → Yields (IsRejected s) (gen_bad_fsqrt rng fuel g)
    unfolding gen_bad_fsqrt checked_type F.op_fp_type F.uses_rm
    fsqrt-IsRejected g =
        after-Yields (λ x. (x ≤ 31) × ((x != 0) ≡ true)) (IsRejected s)
          (reg_until rng (λ rs2. rs2 != 0) fuel g) (fp_word_rs2 rng 0b0101100 (choice rng modes 5))
          (reg_until-Yields fuel fair (λ rs2. rs2 != 0) 1 g (omega arith) refl)
          (λ rs2 g' p.
            fp_word_rs2-IsRejected 0b0101100 (choice rng modes 5) rs2 g' (λ g''. ground (arith, p)))

    pub fmv_fclass-IsRejected : (g : G) → Yields (IsRejected s) (gen_bad_fmv_fclass rng fuel g)
    unfolding gen_bad_fmv_fclass checked_type F.op_fp_type F.uses_rm
    fmv_fclass-IsRejected g =
        if_cases (Yields (IsRejected s)) (rng.chance 50 g).0 _ _
          (λ y.
            fp_word-IsRejected 0b1110000 (rng.uniform 2 7) (rng.chance 50 g).1
              (λ g' rs2. ground (arith, contract 2 7 g' (omega arith))))
          (λ n.
            after-Yields (λ x. (x ≤ 31) × ((x != 0) ≡ true)) (IsRejected s)
              (reg_until rng (λ rs2. rs2 != 0) fuel (rng.chance 50 g).1)
              (fp_word_rs2 rng 0b1110000 (rng.uniform 0 1))
              (reg_until-Yields fuel fair (λ rs2. rs2 != 0) 1 (rng.chance 50 g).1 (omega arith)
                refl)
              (λ rs2 g' p.
                fp_word_rs2-IsRejected 0b1110000 (rng.uniform 0 1) rs2 g'
                  (λ g''. ground (arith, p))))

    pub fmv_wx-IsRejected : (g : G) → Yields (IsRejected s) (gen_bad_fmv_wx rng fuel g)
    unfolding gen_bad_fmv_wx r_word checked_type F.op_fp_type F.uses_rm
    fmv_wx-IsRejected g =
        if_cases (Yields (IsRejected s)) (rng.chance 50 g).0 _ _
          (λ y.
            fp_word-IsRejected 0b1111000 (rng.uniform 1 7) (rng.chance 50 g).1
              (λ g' rs2. ground (arith, contract 1 7 g' (omega arith))))
          (λ n.
            after-Yields (λ x. (x ≤ 31) × ((x != 0) ≡ true)) (IsRejected s)
              (reg_until rng (λ rs2. rs2 != 0) fuel (rng.chance 50 g).1)
              (r_word rng 0b1010011 0b1111000 0b000)
              (reg_until-Yields fuel fair (λ rs2. rs2 != 0) 1 (rng.chance 50 g).1 (omega arith)
                refl)
              (λ rs2 g' p.
                op_fp-IsRejected s _ (enc_r-Fields _ _ _ _ _ 0b1010011) (ground (arith, p))))
