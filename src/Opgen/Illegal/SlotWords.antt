-- ===== src/Opgen/Illegal/SlotWords.antt =====
-- riscv_illegal_opgen.hpp: the words of the OP-IMM slots and the atomic words that a loop makes.
use rv32_complete_v.Opgen.Source.{Source, IsInRange, Yields, entry, or_zero, choice}
use rv32_complete_v.Opgen.Illegal.{
  after, reg_until, r_word, is_unary, op_imm_shamt, op_imm_rs2, unassigned, slli_funct7s,
  srli_funct7s, gen_bad_slli_slot, gen_bad_srli_slot,
}
use rv32_complete_v.Opgen.Illegal.Float.{is_amo, amo_word, lr_word, gen_bad_amo_funct5, gen_bad_lr}
use rv32_complete_v.Opgen.Illegal.Rejected.{IsRejected}
use rv32_complete_v.Opgen.Illegal.Words.{choice_all}
use rv32_complete_v.Opgen.Illegal.FloatWords.{IsFair, after-Yields, reg_until-Yields}
use rv32_complete_v.Opgen.Illegal.Slots.{
  bad_slli, bad_srli, slli_entries, srli_entries, amo_word-IsRejected, IsSlot, slli-IsSlot,
  srli-IsSlot,
}
use rv32_complete_v.Prelude.{
  ℕ, suc, ◌≤◌, ◌<◌, ◌≡◌, refl, Bool, true, not, ◌&&◌, List, arith, ltb, ◌==◌, ◌!=◌, below, if_cases,
}

module _ {G : Type 0} (rng : Source G) (contract : IsInRange rng) (s : Bool) where
  module _ (f3 : ℕ) (bad : ℕ → ℕ → Bool) (slot : IsSlot s f3 bad) where
    op_imm_shamt-IsRejected :
        (f7 : ℕ) (g : G)
        → f7 < 128
        → ((rs2 : ℕ) → bad f7 rs2 ≡ true)
        → IsRejected s (op_imm_shamt rng f3 f7 g).0
    unfolding op_imm_shamt
    op_imm_shamt-IsRejected f7 g h b =
        slot f7 _ _ _ h (omega (arith, (contract 0 31 g (omega arith)).1)) (b _)

    unassigned-IsRejected :
        (f7s : List ℕ) (last : ℕ) (g : G)
        → ((rs2 : ℕ)
            → below (suc last) (λ i. let f7 : ℕ = or_zero (entry f7s i) in bad f7 rs2 && ltb f7 128)
              ≡ true)
        → IsRejected s (unassigned rng f3 f7s last g).0
    unfolding unassigned
    unassigned-IsRejected f7s last g h =
        let all : (rs2 : ℕ)
            → (bad (choice rng f7s last g).0 rs2 && ltb (choice rng f7s last g).0 128) ≡ true =
          (λ rs2. choice_all rng contract (λ f7. bad f7 rs2 && ltb f7 128) f7s last g (h rs2)) in
        op_imm_shamt-IsRejected (choice rng f7s last g).0 (choice rng f7s last g).1
          (ground (arith, all 0)) (λ rs2. ground (arith, all rs2))

    module _ (fuel : ℕ) (fair : IsFair rng fuel) where
      op_imm_rs2-IsRejected :
          (ok : ℕ → Bool) (f7 v : ℕ) (g : G)
          → v ≤ 31
          → ok v ≡ true
          → f7 < 128
          → ((rs2 : ℕ) → ok rs2 ≡ true → bad f7 rs2 ≡ true)
          → Yields (IsRejected s) (after (reg_until rng ok fuel g) (op_imm_rs2 rng f3 f7))
      unfolding op_imm_rs2
      op_imm_rs2-IsRejected ok f7 v g le y h b =
          after-Yields (λ x. (x ≤ 31) × (ok x ≡ true)) (IsRejected s) (reg_until rng ok fuel g)
            (op_imm_rs2 rng f3 f7) (reg_until-Yields rng contract s fuel fair ok v g le y)
            (λ rs2 g' p. slot f7 rs2 _ _ h (omega (arith, p.0)) (b rs2 p.1))

  module _ (fuel : ℕ) (fair : IsFair rng fuel) where
    pub slli_slot-IsRejected : (g : G) → Yields (IsRejected s) (gen_bad_slli_slot rng fuel g)
    unfolding gen_bad_slli_slot bad_slli is_unary
    slli_slot-IsRejected g =
        let g' = (rng.uniform 0 2 g).1 in
        if_cases (Yields (IsRejected s)) ((rng.uniform 0 2 g).0 == 0) _ _
          (λ y.
            op_imm_shamt-IsRejected 0b001 bad_slli (slli-IsSlot s) 0b0000001 g' (omega arith)
              (λ rs2. refl))
          (λ n.
            if_cases (Yields (IsRejected s)) ((rng.uniform 0 2 g).0 == 1) _ _
              (λ y.
                unassigned-IsRejected 0b001 bad_slli (slli-IsSlot s) (slli_funct7s rng) 8 g'
                  slli_entries)
              (λ n'.
                op_imm_rs2-IsRejected 0b001 bad_slli (slli-IsSlot s) fuel fair
                  (λ rs2. not (is_unary rs2)) 0b0110000 3 g' (omega arith) refl (omega arith)
                  (λ rs2 h. h)))

    pub srli_slot-IsRejected : (g : G) → Yields (IsRejected s) (gen_bad_srli_slot rng fuel g)
    unfolding gen_bad_srli_slot bad_srli
    srli_slot-IsRejected g =
        let g' = (rng.uniform 0 3 g).1 in
        if_cases (Yields (IsRejected s)) ((rng.uniform 0 3 g).0 == 0) _ _
          (λ y.
            op_imm_shamt-IsRejected 0b101 bad_srli (srli-IsSlot s) 0b0000001 g' (omega arith)
              (λ rs2. refl))
          (λ n.
            if_cases (Yields (IsRejected s)) ((rng.uniform 0 3 g).0 == 1) _ _
              (λ y.
                unassigned-IsRejected 0b101 bad_srli (srli-IsSlot s) (srli_funct7s rng) 5 g'
                  srli_entries)
              (λ n'.
                if_cases (Yields (IsRejected s)) ((rng.uniform 0 3 g).0 == 2) _ _
                  (λ y.
                    op_imm_rs2-IsRejected 0b101 bad_srli (srli-IsSlot s) fuel fair (λ rs2. rs2 != 7)
                      0b0010100 0 g' (omega arith) refl (omega arith) (λ rs2 h. ground arith))
                  (λ n''.
                    op_imm_rs2-IsRejected 0b101 bad_srli (srli-IsSlot s) fuel fair
                      (λ rs2. rs2 != 24) 0b0110100 0 g' (omega arith) refl (omega arith)
                      (λ rs2 h. ground arith))))

    pub amo_funct5-IsRejected : (g : G) → Yields (IsRejected s) (gen_bad_amo_funct5 rng fuel g)
    unfolding gen_bad_amo_funct5 amo_word r_word is_amo
    amo_funct5-IsRejected g =
        after-Yields (λ x. (x ≤ 31) × (not (is_amo x) ≡ true)) (IsRejected s)
          (reg_until rng (λ f5. not (is_amo f5)) fuel g) (amo_word rng)
          (reg_until-Yields rng contract s fuel fair (λ f5. not (is_amo f5)) 31 g (omega arith)
            refl)
          (λ f5 g' p.
            amo_word-IsRejected s f5 (rng.uniform 0 3 g').0 _ _ _ (omega (arith, p.0))
              (omega (arith, (contract 0 3 g' (omega arith)).1)) (ground (arith, p.1)))

    pub lr-IsRejected : (g : G) → Yields (IsRejected s) (gen_bad_lr rng fuel g)
    unfolding gen_bad_lr lr_word r_word
    lr-IsRejected g =
        after-Yields (λ x. (x ≤ 31) × ((x != 0) ≡ true)) (IsRejected s)
          (reg_until rng (λ rs2. rs2 != 0) fuel g) (lr_word rng)
          (reg_until-Yields rng contract s fuel fair (λ rs2. rs2 != 0) 1 g (omega arith) refl)
          (λ rs2 g' p.
            amo_word-IsRejected s 0b00010 (rng.uniform 0 3 g').0 rs2 _ _ (omega arith)
              (omega (arith, (contract 0 3 g' (omega arith)).1)) (ground (arith, p)))
