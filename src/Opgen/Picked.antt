-- ===== src/Opgen/Picked.antt =====
-- What `pick_enabled` and the generators of a category (`generate_alu` and the like) return.
use rv32_complete_v.Opgen.Source.{Source, Gen, Yields, entry}
use rv32_complete_v.Opgen.Generator.{
  is_enabled, run_entry, first_enabled, drawn_enabled, taken, generate_random, generate_picked,
}
use rv32_complete_v.Prelude.{
  ℕ, zero, suc, ◌≡◌, refl, inl, inr, Bool, true, false, ◌||◌, Option, none, some, List, [], ◌∷◌,
  arith, ◌==◌, Bool-cases, if_cases,
}

unfoldable pub contains : List ℕ → ℕ → Bool
contains [] t = false
contains (s ∷ rest) t = let later = contains rest t in (s == t) || later

unfoldable pub any_enabled : ℕ → List ℕ → Bool
any_enabled enabled [] = false
any_enabled enabled (t ∷ rest) =
    let later = any_enabled enabled rest in is_enabled enabled t || later

-- A type of the list that the mask enables.
abbrev pub IsChoice : ℕ → List ℕ → Option ℕ → Type 0
IsChoice enabled list none = false ≡ true
IsChoice enabled list (some t) = (contains list t ≡ true) × (is_enabled enabled t ≡ true)

contains-entry : (list : List ℕ) (i : ℕ) {t : ℕ} → entry list i ≡ some t → contains list t ≡ true
unfolding entry contains
contains-entry [] i h = absurd (ground arith)
contains-entry (s ∷ rest) zero h = ground arith
contains-entry (s ∷ rest) (suc i) h = ground (arith, contains-entry rest i h)

weaken :
    (enabled s : ℕ) (list : List ℕ) (o : Option ℕ)
    → IsChoice enabled list o
    → IsChoice enabled (s ∷ list) o
unfolding contains
weaken enabled s list none h = h
weaken enabled s list (some t) (c, e) = (ground arith, e)

module _ {G : Type 0} (rng : Source G) (generators : List (Gen G ℕ)) (num : ℕ) where
  first_enabled-any :
      (enabled : ℕ) (list : List ℕ)
      → any_enabled enabled list ≡ true
      → IsChoice enabled list (first_enabled rng generators num enabled list)
  unfolding first_enabled any_enabled contains
  first_enabled-any enabled [] h = h
  first_enabled-any enabled (t ∷ rest) h = elim (Bool-cases (is_enabled enabled t)) [
    | inl e ↦ rw e (ground arith, e)
    | inr e ↦ rw e (
        weaken enabled t rest (first_enabled rng generators num enabled rest)
          (first_enabled-any enabled rest (rw e at h)))
  ]

  taken-any :
      (enabled : ℕ) (list : List ℕ) (rest : Option ℕ × G) (g : G) (o : Option ℕ)
      → ((t : ℕ) → o ≡ some t → contains list t ≡ true)
      → IsChoice enabled list rest.0
      → IsChoice enabled list (taken rng generators num enabled rest g o).0
  unfolding taken
  taken-any enabled list rest g none c h = h
  taken-any enabled list rest g (some t) c h =
      if_cases (λ o. IsChoice enabled list o.0) (is_enabled enabled t) (some t, g) rest
        (λ y. (c t refl, y)) (λ n. h)

  drawn_enabled-any :
      (enabled : ℕ) (list : List ℕ) (last tries : ℕ) (g : G)
      → any_enabled enabled list ≡ true
      → IsChoice enabled list (drawn_enabled rng generators num enabled list last tries g).0
  unfolding drawn_enabled
  drawn_enabled-any enabled list last zero g h = first_enabled-any enabled list h
  drawn_enabled-any enabled list last (suc tries) g h =
      taken-any enabled list
        (drawn_enabled rng generators num enabled list last tries (rng.uniform 0 last g).1)
        (rng.uniform 0 last g).1 (entry list (rng.uniform 0 last g).0)
        (λ t e. contains-entry list (rng.uniform 0 last g).0 e)
        (drawn_enabled-any enabled list last tries (rng.uniform 0 last g).1 h)

  -- Under a mask that enables one of the listed types, the generator of a category returns, without a round of a
  -- loop, a word that the generator of a listed and enabled type made, if those generators make words with a
  -- property that depends on the type.
  pub generate_picked-any :
      (Q : ℕ → ℕ → Type 0) (fuel enabled : ℕ) (list : List ℕ) (last : ℕ) (g : G)
      → any_enabled enabled list ≡ true
      → ((idx : ℕ) (g' : G)
          → contains list idx ≡ true
          → Yields (Q idx) (run_entry rng generators idx g'))
      → Yields
          (λ w. (idx : ℕ) × (contains list idx ≡ true) × (is_enabled enabled idx ≡ true) × Q idx w)
          (generate_picked rng generators num fuel enabled list last g)
  unfolding generate_picked
  generate_picked-any Q fuel enabled list last g h sound =
      go (drawn_enabled rng generators num enabled list last 8 g).0
        (drawn_enabled rng generators num enabled list last 8 g).1
        (drawn_enabled-any enabled list last 8 g h)
    where
      tag :
          (t : ℕ) (o : Option (ℕ × G))
          → contains list t ≡ true
          → is_enabled enabled t ≡ true
          → Yields (Q t) o
          → Yields
              (λ w.
                (idx : ℕ) × (contains list idx ≡ true) × (is_enabled enabled idx ≡ true) × Q idx w)
              o
      tag t none c e y = y
      tag t (some (w, g')) c e y = (t, c, e, y)

      go :
          (o : Option ℕ) (g' : G)
          → IsChoice enabled list o
          → Yields
              (λ w.
                (idx : ℕ) × (contains list idx ≡ true) × (is_enabled enabled idx ≡ true) × Q idx w)
              (elim o [
                | none ↦ generate_random rng generators num fuel enabled g'
                | some t ↦ run_entry rng generators t g'
              ])
      go none g' c = absurd (ground arith)
      go (some t) g' (c, e) = tag t (run_entry rng generators t g') c e (sound t g' c)
