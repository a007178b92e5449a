-- ===== src/Opgen/Illegal/Random.antt =====
-- riscv_illegal_opgen.hpp: what `generate_random` of class `ClassGenerator` returns.
use rv32_complete_v.Opgen.Source.{Source, IsInRange, Yields, entry}
use rv32_complete_v.Opgen.Generator.{selects, legalized, draw_until}
use rv32_complete_v.Opgen.Random.{reaches, draw_until-reaches}
use rv32_complete_v.Opgen.Illegal.Table.{
  ClassInfo, classes, count, with_class, run_class, generate_random,
}
use rv32_complete_v.Opgen.Illegal.OpcodeWords.{reserved_major-IsRejected, madd_fmt-IsRejected}
use rv32_complete_v.Opgen.Illegal.Rejected.{IsRejected}
use rv32_complete_v.Opgen.Illegal.ShortWords.{
  all_zeros-IsRejected, c_addi4spn_zero-IsRejected, c_lwsp_rd0-IsRejected, c_jr_rs1_0-IsRejected,
  c_shift_shamt5-IsRejected, c_alu_funct1-IsRejected, c_lui_zero-IsRejected,
  c_addi16sp_zero-IsRejected,
}
use rv32_complete_v.Opgen.Illegal.Words.{
  all_ones-IsRejected, load-IsRejected, store-IsRejected, branch-IsRejected, jalr-IsRejected,
  misc_mem_word-IsRejected, system_f3_4-IsRejected, amo_funct3-IsRejected,
}
use rv32_complete_v.Opgen.Illegal.SlotWords.{
  slli_slot-IsRejected, srli_slot-IsRejected, amo_funct5-IsRejected, lr-IsRejected,
}
use rv32_complete_v.Opgen.Illegal.FloatWords.{
  fp_funct7-IsRejected, fp_rm-IsRejected, fsqrt-IsRejected, fcvt-IsRejected, fmv_fclass-IsRejected,
  fcmp-IsRejected, fminmax-IsRejected, fsgnj-IsRejected, fmv_wx-IsRejected, load_fp-IsRejected,
  store_fp-IsRejected, IsFair,
}
use rv32_complete_v.Prelude.{
  ℕ, zero, suc, ◌+◌, ◌≤◌, ◌<◌, ◌≡◌, refl, Bool, true, ◌&&◌, Option, none, some, List, [], ◌∷◌,
  arith, ◌!=◌, table,
}

-- All classes but the ones of gen_bad_op, gen_bad_system_f3_0, gen_bad_csr_addr, gen_c_quad0_bad_funct3
-- and gen_c_quad2_bad_funct3.
unfoldable pub is_settled : ℕ → Bool
is_settled idx = idx != 9 && idx != 11 && idx != 13 && idx != 29 && idx != 37

-- The classes of a table from place `n` on: those that are settled make rejected words.
abbrev AreRejected : {G : Type 0} → Bool → ℕ → List (ClassInfo G) → Type 0
AreRejected s n [] = true ≡ true
AreRejected {G} s n (c ∷ rest) =
    (is_settled n ≡ true → (g : G) → Yields (IsRejected s) (c.gen g)) × AreRejected s (suc n) rest

infixr 5 ◌▷◌
abbrev ◌▷◌ : {A B : Type 0} → A → B → A × B
a ▷ b = (a, b)

unfoldable length : {A : Type 0} → List A → ℕ
length [] = 0
length (a ∷ rest) = suc (length rest)

-- `table[i].gen(g)`.
abbrev run_entry : {G : Type 0} → List (ClassInfo G) → ℕ → G → Option (ℕ × G)
run_entry table i g = elim (entry table i) [ none ↦ none | some info ↦ info.gen g ]

run_entry-AreRejected :
    {G : Type 0} (s : Bool) (n : ℕ) (table : List (ClassInfo G)) (i : ℕ)
    → AreRejected s n table
    → is_settled (n + i) ≡ true
    → i < length table
    → (g : G) → Yields (IsRejected s) (run_entry table i g)
unfolding length entry
run_entry-AreRejected s n [] i all h lt g = absurd (omega arith)
run_entry-AreRejected s n (c ∷ rest) zero all h lt g =
    let e : n + 0 ≡ n = omega arith in all.0 (rw e at h) g
run_entry-AreRejected s n (c ∷ rest) (suc i) all h lt g =
    let e : n + suc i ≡ suc n + i = omega arith in
    run_entry-AreRejected s (suc n) rest i all.1 (rw e at h) (omega arith) g

-- A class that the mask enables, and a word that no predicate accepts.
abbrev pub IsRejectedSample : Bool → ℕ → ℕ × ℕ → Type 0
IsRejectedSample s m (idx, word) = (idx < count) × (selects m idx ≡ true) × IsRejected s word

module _ {G : Type 0} (rng : Source G) (contract : IsInRange rng) (s : Bool) (fuel : ℕ)
    (fair : IsFair rng fuel) where
  classes-AreRejected : AreRejected s 0 (classes rng fuel)
  unfolding classes is_settled
  classes-AreRejected =
      (λ h g. all_zeros-IsRejected rng contract s g)
      ▷ (λ h g. all_ones-IsRejected rng contract s g)
      ▷ (λ h g. reserved_major-IsRejected rng contract s g)
      ▷ (λ h g. load-IsRejected rng contract s g)
      ▷ (λ h g. store-IsRejected rng contract s g)
      ▷ (λ h g. branch-IsRejected rng contract s g)
      ▷ (λ h g. jalr-IsRejected rng contract s g)
      ▷ (λ h g. slli_slot-IsRejected rng contract s fuel fair g)
      ▷ (λ h g. srli_slot-IsRejected rng contract s fuel fair g)
      ▷ (λ h g. absurd (ground arith))
      ▷ (λ h g. misc_mem_word-IsRejected rng contract s g)
      ▷ (λ h g. absurd (ground arith))
      ▷ (λ h g. system_f3_4-IsRejected rng contract s g)
      ▷ (λ h g. absurd (ground arith))
      ▷ (λ h g. fp_funct7-IsRejected rng contract s g)
      ▷ (λ h g. fp_rm-IsRejected rng contract s g)
      ▷ (λ h g. fsqrt-IsRejected rng contract s fuel fair g)
      ▷ (λ h g. fcvt-IsRejected rng contract s g)
      ▷ (λ h g. fmv_fclass-IsRejected rng contract s fuel fair g)
      ▷ (λ h g. fcmp-IsRejected rng contract s g)
      ▷ (λ h g. fminmax-IsRejected rng contract s g)
      ▷ (λ h g. fsgnj-IsRejected rng contract s g)
      ▷ (λ h g. fmv_wx-IsRejected rng contract s fuel fair g)
      ▷ (λ h g. load_fp-IsRejected rng contract s g)
      ▷ (λ h g. store_fp-IsRejected rng contract s g)
      ▷ (λ h g. madd_fmt-IsRejected rng contract s g)
      ▷ (λ h g. amo_funct3-IsRejected rng contract s g)
      ▷ (λ h g. amo_funct5-IsRejected rng contract s fuel fair g)
      ▷ (λ h g. lr-IsRejected rng contract s fuel fair g)
      ▷ (λ h g. absurd (ground arith))
      ▷ (λ h g. c_addi4spn_zero-IsRejected rng contract s g)
      ▷ (λ h g. c_lwsp_rd0-IsRejected rng contract s g)
      ▷ (λ h g. c_jr_rs1_0-IsRejected rng contract s g)
      ▷ (λ h g. c_shift_shamt5-IsRejected rng contract s g)
      ▷ (λ h g. c_alu_funct1-IsRejected rng contract s g)
      ▷ (λ h g. c_lui_zero-IsRejected rng contract s fuel fair g)
      ▷ (λ h g. c_addi16sp_zero-IsRejected rng contract s g)
      ▷ (λ h g. absurd (ground arith))
      ▷ refl

  length-classes : length (classes rng fuel) ≡ 38
  unfolding length classes
  length-classes = refl

  with_class-Yields :
      (m idx : ℕ) (o : Option (ℕ × G))
      → idx < count
      → selects m idx ≡ true
      → Yields (IsRejected s) o
      → Yields (IsRejectedSample s m) (with_class rng fuel idx o)
  unfolding with_class
  with_class-Yields m idx none lt selected y = y
  with_class-Yields m idx (some (word, g)) lt selected y = (lt, selected, y)

  run_class-Yields :
      (m : ℕ) (o : Option (ℕ × G))
      → ((idx : ℕ) → idx < count → selects m idx ≡ true → is_settled idx ≡ true)
      → Yields (λ idx. (idx ≤ 37) × (selects m idx ≡ true)) o
      → Yields (IsRejectedSample s m) (run_class rng fuel o)
  unfolding run_class
  run_class-Yields m none only y = y
  run_class-Yields m (some (idx, g)) only (le, selected) =
      let e : idx ≡ 0 + idx = omega arith in
      shape (entry (classes rng fuel) idx) (
        run_entry-AreRejected s 0 (classes rng fuel) idx classes-AreRejected
          (rw e at (only idx (omega arith) selected)) (omega (arith, length-classes)) g)
    where
      shape :
          (c : Option (ClassInfo G))
          → Yields (IsRejected s) (elim c [ none ↦ none | some info ↦ info.gen g ])
          → Yields
              (IsRejectedSample s m)
              (elim c [ none ↦ none | some info ↦ with_class rng fuel idx (info.gen g) ])
      shape none y = y
      shape (some info) y = with_class-Yields m idx (info.gen g) (omega arith) selected y

  -- Under a mask of settled classes, `generate_random` of class `ClassGenerator` returns as soon as one of its
  -- first `fuel` draws is of an enabled class, reports such a class, and none of the predicates `opcode_is_...`
  -- holds of its word. The draws lie between their bounds, and a loop on register numbers ends within `fuel` draws.
  pub generate_random-IsRejected :
      (enabled : ℕ) (g : G)
      → ((idx : ℕ) → idx < count → selects (legalized enabled) idx ≡ true → is_settled idx ≡ true)
      → reaches rng (selects (legalized enabled)) 37 fuel g ≡ true
      → Yields (IsRejectedSample s (legalized enabled)) (generate_random rng fuel enabled g)
  unfolding generate_random
  generate_random-IsRejected enabled g only h =
      run_class-Yields (legalized enabled)
        (draw_until rng (selects (legalized enabled)) 0 37 fuel g) only
        (draw_until-reaches rng contract (selects (legalized enabled)) 37 fuel g h)
