-- ===== src/Opgen/Generator.antt =====
-- The class `OpcodeGenerator` of the riscv_*_opgen.hpp headers, which differ in the table of generators and
-- the numbers of its entries only. Each header's own functions are in the module of its name.
use rv32_complete_v.Opgen.Source.{Source, Gen, Loop, entry}
use rv32_complete_v.Prelude.{
  ℕ, zero, suc, ◌-◌, ◌/◌, ◌%◌, ◌^◌, bit_and, bit_or, Bool, Option, none, some, List, [], ◌∷◌, ◌==◌,
  ◌!=◌, if◌then◌else◌,
}

-- `groups::ALL`, and the operators of `uint64_t` on masks.
abbrev pub all_types : ℕ
all_types = 0xffff_ffff_ffff_ffff

abbrev pub not64 : ℕ → ℕ
not64 a = 2 ^ 64 - 1 - a

unfoldable pub type_bit : ℕ → ℕ
type_bit t = 2 ^ t % 2 ^ 64

unfoldable pub enable_group : ℕ → Bool → ℕ → ℕ
enable_group group_mask on enabled =
    if on then bit_or enabled group_mask else bit_and enabled (not64 group_mask)

unfoldable pub is_enabled : ℕ → ℕ → Bool
unfolding type_bit
is_enabled enabled t = bit_and enabled (type_bit t) != 0

-- `(m >> idx) & 1`.
unfoldable pub selects : ℕ → ℕ → Bool
selects m idx = bit_and (m / 2 ^ idx) 1 != 0

-- `enabled_ ? enabled_ : groups::ALL`.
unfoldable pub legalized : ℕ → ℕ
legalized enabled = if enabled != 0 then enabled else all_types

module _ {G : Type 0} (rng : Source G) where
  -- `for (;;) { idx = rng.range(lo, hi); if (ok(idx)) return ...; }` with `fuel` rounds.
  unfoldable pub draw_until : (ℕ → Bool) → ℕ → ℕ → ℕ → Loop G ℕ
  draw_until ok lo hi zero g = none
  draw_until ok lo hi (suc fuel) g =
      let (idx, g') = rng.uniform lo hi g in
      let rest = draw_until ok lo hi fuel g' in if ok idx then some (idx, g') else rest

  -- `generators[idx](rng)`.
  unfoldable pub run_entry : List (Gen G ℕ) → ℕ → Loop G ℕ
  unfolding entry
  run_entry generators idx g = elim (entry generators idx) [ none ↦ none | some f ↦ some (f g) ]

  module _ (generators : List (Gen G ℕ)) (num : ℕ) where
    unfoldable pub after_draw : Option (ℕ × G) → Option (ℕ × G)
    unfolding run_entry
    after_draw none = none
    after_draw (some (idx, g)) = run_entry generators idx g

    unfoldable pub generate_random : ℕ → ℕ → Loop G ℕ
    unfolding legalized selects draw_until run_entry after_draw
    generate_random fuel enabled g =
        let m = legalized enabled in
        if m == all_types
        then (let (idx, g') = rng.uniform 0 (num - 1) g in run_entry generators idx g')
        else after_draw (draw_until (selects m) 0 (num - 1) fuel g)

    -- `generate_sequence(n)`: with `fuel` rounds for each instruction.
    unfoldable pub generate_sequence : ℕ → ℕ → ℕ → Loop G (List ℕ)
    unfolding generate_random
    generate_sequence fuel enabled zero g = some ([], g)
    generate_sequence fuel enabled (suc n) g = elim (generate_random fuel enabled g) [
      | none ↦ none
      | some (w, g') ↦ elim (generate_sequence fuel enabled n g') [
        | none ↦ none
        | some (ws, g'') ↦ some (w ∷ ws, g'')
      ]
    ]

    -- `pick_enabled(list)`, for the entries of `list`: at most `tries` draws, then the first that is enabled;
    -- `none` stands for `COUNT`.
    unfoldable pub first_enabled : ℕ → List ℕ → Option ℕ
    unfolding is_enabled
    first_enabled enabled [] = none
    first_enabled enabled (t ∷ rest) =
        let later = first_enabled enabled rest in if is_enabled enabled t then some t else later

    -- `if (is_enabled(t)) return t;`, or else the rest of the loop.
    unfoldable pub taken : ℕ → Option ℕ × G → G → Option ℕ → Option ℕ × G
    unfolding is_enabled
    taken enabled rest g none = rest
    taken enabled rest g (some t) = if is_enabled enabled t then (some t, g) else rest

    unfoldable pub drawn_enabled : ℕ → List ℕ → ℕ → ℕ → Gen G (Option ℕ)
    unfolding entry first_enabled taken
    drawn_enabled enabled list last zero g = (first_enabled enabled list, g)
    drawn_enabled enabled list last (suc tries) g =
        let (i, g') = rng.uniform 0 last g in
        let rest = drawn_enabled enabled list last tries g' in taken enabled rest g' (entry list i)

    -- `(t == COUNT) ? generate_random() : generate(t)`.
    unfoldable pub generate_picked : ℕ → ℕ → List ℕ → ℕ → Loop G ℕ
    unfolding generate_random run_entry drawn_enabled
    generate_picked fuel enabled list last g =
        let (picked, g') = drawn_enabled enabled list last 8 g in
        elim picked [ none ↦ generate_random fuel enabled g' | some t ↦ run_entry generators t g' ]
