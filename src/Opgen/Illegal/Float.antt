-- ===== src/Opgen/Illegal/Float.antt =====
-- riscv_illegal_opgen.hpp: the generators of floating-point and atomic words.
use rv32_complete_v.Opgen.Source.{Source, Gen, Loop, ◌>>=◌, pure, reg, choice}
use rv32_complete_v.Opgen.Illegal.{enc_r, enc_i, after, reg_until, r_word}
use rv32_complete_v.Prelude.{
  ℕ, bit_and, bit_or, Bool, not, ◌||◌, some, List, [], ◌∷◌, ◌==◌, ◌!=◌, if◌then◌else◌, shl32,
}

abbrev pub modes : List ℕ
modes = 0 ∷ 1 ∷ 2 ∷ 3 ∷ 4 ∷ 7 ∷ []

abbrev pub not_word : List ℕ
not_word = 0b000 ∷ 0b001 ∷ 0b011 ∷ 0b100 ∷ 0b101 ∷ 0b110 ∷ 0b111 ∷ []

unfoldable pub is_amo : ℕ → Bool
is_amo f5 =
    f5 == 0b00010
    || f5 == 0b00011
    || f5 == 0b00001
    || f5 == 0b00000
    || f5 == 0b00100
    || f5 == 0b01100
    || f5 == 0b01000
    || f5 == 0b10000
    || f5 == 0b10100
    || f5 == 0b11000
    || f5 == 0b11100

module _ {G : Type 0} (rng : Source G) where
  -- `enc_r` of the OP-FP slot, with `rs2` and `rs1` drawn before `funct3`.
  unfoldable pub fp_word : ℕ → Gen G ℕ → Gen G ℕ
  fp_word f7 funct3 = do
    rs2 ← reg rng
    rs1 ← reg rng
    f3 ← funct3
    pure (enc_r f7 rs2 rs1 f3 (← reg rng) 0b1010011)

  -- The same, with an `rs2` that is there already.
  unfoldable pub fp_word_rs2 : ℕ → Gen G ℕ → ℕ → Gen G ℕ
  fp_word_rs2 f7 funct3 rs2 = do
    rs1 ← reg rng
    f3 ← funct3
    pure (enc_r f7 rs2 rs1 f3 (← reg rng) 0b1010011)

  unfoldable pub gen_bad_fp_funct7 : Gen G ℕ
  unfolding fp_word
  gen_bad_fp_funct7 = do
    f7 ← choice rng (0b0000001 ∷ 0b0001001 ∷ 0b0001101 ∷ 0b0101101 ∷ 0b0010001 ∷ 0b1111111 ∷ []) 5
    fp_word f7 (choice rng modes 5)

  unfoldable pub gen_bad_fp_rm : Gen G ℕ
  unfolding fp_word
  gen_bad_fp_rm = do
    f7 ← choice rng (0b0000000 ∷ 0b0001000 ∷ 0b0101100 ∷ 0b1100000 ∷ 0b1101000 ∷ []) 4
    fp_word f7 (rng.uniform 5 6)

  unfoldable pub gen_bad_fsqrt : ℕ → Loop G ℕ
  unfolding reg_until fp_word_rs2
  gen_bad_fsqrt fuel g =
      after (reg_until rng (λ rs2. rs2 != 0) fuel g) (fp_word_rs2 0b0101100 (choice rng modes 5))

  unfoldable pub gen_bad_fcvt : Gen G ℕ
  unfolding fp_word_rs2
  gen_bad_fcvt = do
    f7 ← choice rng (0b1100000 ∷ 0b1101000 ∷ []) 1
    rs2 ← rng.uniform 2 31
    fp_word_rs2 f7 (choice rng modes 5) rs2

  unfoldable pub gen_bad_fmv_fclass : ℕ → Loop G ℕ
  unfolding reg_until fp_word fp_word_rs2
  gen_bad_fmv_fclass fuel g =
      let (funct3, g') = rng.chance 50 g in
      if funct3
      then some (fp_word 0b1110000 (rng.uniform 2 7) g')
      else after (reg_until rng (λ rs2. rs2 != 0) fuel g') (fp_word_rs2 0b1110000 (rng.uniform 0 1))

  unfoldable pub gen_bad_fcmp : Gen G ℕ
  unfolding fp_word
  gen_bad_fcmp = fp_word 0b1010000 (rng.uniform 3 7)

  unfoldable pub gen_bad_fminmax : Gen G ℕ
  unfolding fp_word
  gen_bad_fminmax = fp_word 0b0010100 (rng.uniform 2 7)

  unfoldable pub gen_bad_fsgnj : Gen G ℕ
  unfolding fp_word
  gen_bad_fsgnj = fp_word 0b0010000 (rng.uniform 3 7)

  unfoldable pub gen_bad_fmv_wx : ℕ → Loop G ℕ
  unfolding reg_until fp_word r_word
  gen_bad_fmv_wx fuel g =
      let (funct3, g') = rng.chance 50 g in
      if funct3
      then some (fp_word 0b1111000 (rng.uniform 1 7) g')
      else after (reg_until rng (λ rs2. rs2 != 0) fuel g') (r_word rng 0b1010011 0b1111000 0b000)

  unfoldable pub gen_bad_load_fp : Gen G ℕ
  gen_bad_load_fp = do
    imm ← rng.uniform 0 0xfff
    rs1 ← reg rng
    f3 ← choice rng not_word 6
    pure (enc_i imm rs1 f3 (← reg rng) 0b0000111)

  unfoldable pub gen_bad_store_fp : Gen G ℕ
  gen_bad_store_fp = do
    imm ← rng.uniform 0 0xfff
    rs2 ← reg rng
    rs1 ← reg rng
    f3 ← choice rng not_word 6
    pure (
        bit_or
          (bit_or
            (bit_or (bit_or (bit_or (shl32 (bit_and imm 0xfe0) 20) (shl32 rs2 20)) (shl32 rs1 15))
              (shl32 f3 12))
            (shl32 (bit_and imm 0x1f) 7))
          0b0100111)

  unfoldable pub gen_bad_madd_fmt : Gen G ℕ
  gen_bad_madd_fmt = do
    rs3 ← reg rng
    fmt ← rng.uniform 1 3
    rs2 ← reg rng
    rs1 ← reg rng
    mode ← choice rng modes 5
    rd ← reg rng
    op ← choice rng (0b1000011 ∷ 0b1000111 ∷ 0b1001011 ∷ 0b1001111 ∷ []) 3
    pure (
        bit_or
          (bit_or
            (bit_or
              (bit_or
                (bit_or (bit_or (shl32 (bit_and rs3 0x1f) 27) (shl32 fmt 25))
                  (shl32 (bit_and rs2 0x1f) 20))
                (shl32 (bit_and rs1 0x1f) 15))
              (shl32 mode 12))
            (shl32 (bit_and rd 0x1f) 7))
          op)

  unfoldable pub gen_bad_amo_funct3 : Gen G ℕ
  gen_bad_amo_funct3 = do
    f7 ← rng.uniform 0 0x7f
    rs2 ← reg rng
    rs1 ← reg rng
    f3 ← choice rng not_word 6
    pure (enc_r f7 rs2 rs1 f3 (← reg rng) 0b0101111)

  -- `f5 << 2 | rng.range(0, 3)`, and the registers.
  unfoldable pub amo_word : ℕ → Gen G ℕ
  unfolding r_word
  amo_word f5 = do
    ordering ← rng.uniform 0 3
    rs2 ← reg rng
    r_word rng 0b0101111 (bit_or (shl32 f5 2) ordering) 0b010 rs2

  unfoldable pub gen_bad_amo_funct5 : ℕ → Loop G ℕ
  unfolding reg_until amo_word
  gen_bad_amo_funct5 fuel g = after (reg_until rng (λ f5. not (is_amo f5)) fuel g) amo_word

  unfoldable pub lr_word : ℕ → Gen G ℕ
  unfolding r_word
  lr_word rs2 = do
    ordering ← rng.uniform 0 3
    r_word rng 0b0101111 (bit_or (shl32 0b00010 2) ordering) 0b010 rs2

  unfoldable pub gen_bad_lr : ℕ → Loop G ℕ
  unfolding reg_until lr_word
  gen_bad_lr fuel g = after (reg_until rng (λ rs2. rs2 != 0) fuel g) lr_word
