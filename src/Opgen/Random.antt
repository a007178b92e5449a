-- ===== src/Opgen/Random.antt =====
-- What `generate_random` and `pick_enabled` of the riscv_*_opgen.hpp headers return, for any table.
use rv32_complete_v.Opgen.Source.{Source, Gen, IsInRange, Yields}
use rv32_complete_v.Opgen.Generator.{
  all_types, selects, legalized, draw_until, run_entry, after_draw, generate_random,
}
use rv32_complete_v.Prelude.{
  ℕ, zero, suc, ◌-◌, ◌≤◌, ◌<◌, ◌≡◌, refl, ◌≢◌, inl, inr, Bool, true, false, ◌||◌, Option, none,
  some, List, arith, ◌==◌, ==_iff, Bool-cases, below-at,
}

legalized_nonzero : (enabled : ℕ) → enabled ≢ 0 → legalized enabled ≡ enabled
unfolding legalized
legalized_nonzero enabled n = ground arith

all_selected : (m idx : ℕ) → m ≡ all_types → idx < 64 → selects m idx ≡ true
unfolding selects
all_selected m idx e lt = rw e (below-at 64 (selects all_types) refl idx lt)

module _ {G : Type 0} (rng : Source G) where
  -- Whether one of the first `fuel` draws between 0 and `last` passes the test.
  unfoldable pub reaches : (ℕ → Bool) → ℕ → ℕ → G → Bool
  reaches ok last zero g = false
  reaches ok last (suc fuel) g =
      let (idx, g') = rng.uniform 0 last g in let rest = reaches ok last fuel g' in ok idx || rest

  pub draw_until-reaches :
      (contract : IsInRange rng) (ok : ℕ → Bool) (last fuel : ℕ) (g : G)
      → reaches ok last fuel g ≡ true
      → Yields (λ idx. (idx ≤ last) × (ok idx ≡ true)) (draw_until rng ok 0 last fuel g)
  unfolding reaches draw_until
  draw_until-reaches contract ok last zero g h = absurd (ground arith)
  draw_until-reaches contract ok last (suc fuel) g h =
      elim (Bool-cases (ok (rng.uniform 0 last g).0)) [
        | inl e ↦ rw e ((contract 0 last g (omega arith)).1, e)
        | inr e ↦
            rw e (draw_until-reaches contract ok last fuel (rng.uniform 0 last g).1 (rw e at h))
      ]

  module _ (generators : List (Gen G ℕ)) (num : ℕ) where
    -- A generator of a selected type made the word.
    abbrev pub IsOf : (ℕ → ℕ → Type 0) → ℕ → ℕ → Type 0
    IsOf Q m w = (idx : ℕ) × (idx < num) × (selects m idx ≡ true) × Q idx w

    entry-Yields :
        (Q : ℕ → ℕ → Type 0) (m idx : ℕ) (g : G)
        → idx < num
        → selects m idx ≡ true
        → Yields (Q idx) (run_entry rng generators idx g)
        → Yields (IsOf Q m) (run_entry rng generators idx g)
    entry-Yields Q m idx g h s y = lift (run_entry rng generators idx g) y
      where
        lift : (o : Option (ℕ × G)) → Yields (Q idx) o → Yields (IsOf Q m) o
        lift none y = y
        lift (some (w, g')) y = (idx, h, s, y)

    after_draw-Yields :
        (Q : ℕ → ℕ → Type 0) (m : ℕ)
        (sound : (idx : ℕ) (g : G) → idx < num → Yields (Q idx) (run_entry rng generators idx g))
        (o : Option (ℕ × G))
        → 0 < num
        → Yields (λ idx. (idx ≤ num - 1) × (selects m idx ≡ true)) o
        → Yields (IsOf Q m) (after_draw rng generators num o)
    unfolding after_draw
    after_draw-Yields Q m sound none p y = y
    after_draw-Yields Q m sound (some (idx, g)) p (le, s) =
        entry-Yields Q m idx g (omega arith) s (sound idx g (omega arith))

    -- `generate_random` returns a word of a selected type as soon as one of its draws is one, and at once under
    -- the default mask.
    pub generate_random-reaches :
        (contract : IsInRange rng) (Q : ℕ → ℕ → Type 0)
        (sound : (idx : ℕ) (g : G) → idx < num → Yields (Q idx) (run_entry rng generators idx g))
        (fuel enabled : ℕ) (g : G)
        → 0 < num
        → num ≤ 64
        → ((legalized enabled == all_types)
            || reaches (selects (legalized enabled)) (num - 1) fuel g)
          ≡ true
        → Yields (IsOf Q (legalized enabled)) (generate_random rng generators num fuel enabled g)
    unfolding generate_random
    generate_random-reaches contract Q sound fuel enabled g p q h =
        elim (Bool-cases (legalized enabled == all_types)) [
          | inl e ↦ rw e (
              let idx : ℕ = (rng.uniform 0 (num - 1) g).0 in
              let small : idx < num = omega (arith, (contract 0 (num - 1) g (omega arith)).1) in
              entry-Yields Q (legalized enabled) idx (rng.uniform 0 (num - 1) g).1 small
                (all_selected (legalized enabled) idx ((==_iff (legalized enabled) all_types).0 e)
                  (omega arith))
                (sound idx (rng.uniform 0 (num - 1) g).1 small))
          | inr e ↦ rw e (
              after_draw-Yields Q (legalized enabled) sound
                (draw_until rng (selects (legalized enabled)) 0 (num - 1) fuel g) p
                (draw_until-reaches contract (selects (legalized enabled)) (num - 1) fuel g
                  (rw e at h)))
        ]

    never_drawn :
        (contract : IsInRange rng) (ok : ℕ → Bool) (last fuel : ℕ) (g : G)
        → ((idx : ℕ) → idx ≤ last → ok idx ≡ false)
        → draw_until rng ok 0 last fuel g ≡ none
    unfolding draw_until
    never_drawn contract ok last zero g h = refl
    never_drawn contract ok last (suc fuel) g h =
        rw
          (
            h (rng.uniform 0 last g).0 (contract 0 last g (omega arith)).1,
            never_drawn contract ok last fuel (rng.uniform 0 last g).1 h,
          )
          refl

    -- With a mask that is not empty but has no bit of a type, `generate_random` does not return, for any table of
    -- at least one generator and however many rounds it may take. The draws lie between their bounds.
    pub generate_random-none :
        (contract : IsInRange rng) (fuel enabled : ℕ) (g : G)
        → 0 < num
        → enabled ≢ 0
        → ((idx : ℕ) → idx < num → selects enabled idx ≡ false)
        → generate_random rng generators num fuel enabled g ≡ none
    unfolding generate_random legalized after_draw
    generate_random-none contract fuel enabled g p n h = elim (Bool-cases (enabled == all_types)) [
      | inl e ↦ absurd (
          ground
            (arith, all_selected enabled 0 ((==_iff enabled all_types).0 e) (omega arith), h 0 p))
      | inr e ↦
          rw
            (
              legalized_nonzero enabled n,
              e,
              never_drawn contract (selects enabled) (num - 1) fuel g
                  (λ idx le. h idx (omega arith)),
            )
            refl
    ]

    -- The same by the types of a header: `code` gives the place of a type in the table, `of_code` the type at a
    -- place.
    module _ {T : Type 0} (code : T → ℕ) (of_code : ℕ → T) (Q : T → ℕ → Type 0) where
      abbrev pub IsEnabledWord : ℕ → ℕ → Type 0
      IsEnabledWord enabled w = (t : T) × (selects (legalized enabled) (code t) ≡ true) × Q t w

      named :
          (enabled : ℕ) (o : Option (ℕ × G))
          → ((idx : ℕ) → idx < num → code (of_code idx) ≡ idx)
          → Yields (IsOf (λ idx. Q (of_code idx)) (legalized enabled)) o
          → Yields (IsEnabledWord enabled) o
      named enabled none back y = y
      named enabled (some (w, g)) back (idx, lt, s, q) = (of_code idx, rw (back idx lt) s, q)

      pub generate_random-types :
          (contract : IsInRange rng) (fuel enabled : ℕ) (g : G)
          → ((idx : ℕ) → idx < num → code (of_code idx) ≡ idx)
          → ((t : T) (g' : G) → Yields (Q t) (run_entry rng generators (code t) g'))
          → 0 < num
          → num ≤ 64
          → ((legalized enabled == all_types)
              || reaches (selects (legalized enabled)) (num - 1) fuel g)
            ≡ true
          → Yields (IsEnabledWord enabled) (generate_random rng generators num fuel enabled g)
      generate_random-types contract fuel enabled g back sound p q h =
          named enabled (generate_random rng generators num fuel enabled g) back (
            generate_random-reaches contract (λ idx. Q (of_code idx))
              (λ idx g' lt. rw (back idx lt) at (sound (of_code idx) g')) fuel enabled g p q h)
