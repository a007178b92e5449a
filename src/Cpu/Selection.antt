-- ===== src/Cpu/Selection.antt =====
-- riscv_cpu.hpp: which pending interrupt is selected.
use rv32_complete_v.Cpu.State.{Cpu}
use rv32_complete_v.Cpu.Interrupt.{or_else, priority, is_taken, scan, select}
use rv32_complete_v.Cpu.Eligible.{
  reaches_machine, reaches_supervisor, is_taken_machine, is_taken_supervisor,
}
use rv32_complete_v.Prelude.{
  ℕ, zero, suc, ◌≤◌, ◌<◌, ◌≡◌, refl, sym, ap, ◌∙◌, ◌⊎◌, inl, inr, Bool, true, false, Option, none,
  some, List, [], ◌∷◌, arith, ◌==◌, if◌then◌else◌, Bool-cases,
}

-- The order of the standard interrupts: external, software and timer of M-mode, then the same of S-mode. Other
-- codes come after them.
unfoldable pub rank : ℕ → ℕ
rank code =
    if code == 11
    then 0
    else if code == 3
    then 1
    else if code == 7
    then 2
    else if code == 9
    then 3
    else if code == 1
    then 4
    else if code == 5
    then 5
    else 6

-- No standard interrupt passes the test.
abbrev pub IsNone : (ℕ → Bool) → Type 0
IsNone p = (d : ℕ) → rank d < 6 → p d ≡ false

-- A standard interrupt that passes the test, before every other one that does.
abbrev pub IsForemost : (ℕ → Bool) → ℕ → Type 0
IsForemost p code = (rank code < 6) × (p code ≡ true) × ((d : ℕ) → rank d < rank code → p d ≡ false)

-- What `select` promises of a code that it returns, or of none.
abbrev pub IsSelected : Cpu → ℕ → Option ℕ → Type 0
IsSelected cpu pending none =
    IsNone (reaches_machine cpu pending) × IsNone (reaches_supervisor cpu pending)
IsSelected cpu pending (some code) =
    IsForemost (reaches_machine cpu pending) code
    ⊎ (IsNone (reaches_machine cpu pending) × IsForemost (reaches_supervisor cpu pending) code)

pub rank-lt : (code : ℕ) → rank code < 6 → code < 32
unfolding rank
rank-lt code h = ground arith

-- A list of the standard interrupts in their order, from a place on.
abbrev IsOrdered : ℕ → List ℕ → Type 0
IsOrdered n [] = n ≡ 6
IsOrdered n (c ∷ codes) =
    (c < 32) × (rank c ≡ n) × (n < 6) × ((d : ℕ) → rank d ≡ n → d ≡ c) × IsOrdered (suc n) codes

dec_place : (n k : ℕ) → n ≤ k → (n ≡ k) ⊎ (suc n ≤ k)
dec_place zero zero h = inl refl
dec_place zero (suc k) h = inr (omega arith)
dec_place (suc n) zero h = absurd (omega arith)
dec_place (suc n) (suc k) h = elim (dec_place n k (omega arith)) [
  | inl e ↦ inl (ap suc e)
  | inr g ↦ inr (omega arith)
]

at_0 : (d : ℕ) → rank d ≡ 0 → d ≡ 11
unfolding rank
at_0 d h = ground arith

at_1 : (d : ℕ) → rank d ≡ 1 → d ≡ 3
unfolding rank
at_1 d h = ground arith

at_2 : (d : ℕ) → rank d ≡ 2 → d ≡ 7
unfolding rank
at_2 d h = ground arith

at_3 : (d : ℕ) → rank d ≡ 3 → d ≡ 9
unfolding rank
at_3 d h = ground arith

at_4 : (d : ℕ) → rank d ≡ 4 → d ≡ 1
unfolding rank
at_4 d h = ground arith

at_5 : (d : ℕ) → rank d ≡ 5 → d ≡ 5
unfolding rank
at_5 d h = ground arith

priority-IsOrdered : IsOrdered 0 priority
unfolding rank
priority-IsOrdered = (
  omega arith,
  refl,
  omega arith,
  at_0,
  (
    omega arith,
    refl,
    omega arith,
    at_1,
    (
      omega arith,
      refl,
      omega arith,
      at_2,
      (
        omega arith,
        refl,
        omega arith,
        at_3,
        (omega arith, refl, omega arith, at_4, (omega arith, refl, omega arith, at_5, refl)),
      ),
    ),
  ),
)

module _ (cpu : Cpu) (to_machine : Bool) (pending : ℕ) (p : ℕ → Bool)
    (agree : (d : ℕ) → d < 32 → is_taken cpu to_machine pending d ≡ p d) where
  -- The same from the place `n` on.
  abbrev IsForemostFrom : ℕ → ℕ → Type 0
  IsForemostFrom n code =
      (n ≤ rank code)
      × (rank code < 6)
      × (p code ≡ true)
      × ((d : ℕ) → n ≤ rank d → rank d < rank code → p d ≡ false)

  scan_from :
      (n : ℕ) (codes : List ℕ) (code : ℕ)
      → IsOrdered n codes
      → scan cpu to_machine pending codes ≡ some code
      → IsForemostFrom n code
  unfolding scan
  scan_from n [] code o h = absurd (ground arith)
  scan_from n (c ∷ codes) code (lt, r, b, only, rest) h =
      elim (Bool-cases (is_taken cpu to_machine pending c)) [
        | inl e ↦
            (let same : c ≡ code = ground arith in
              let here : IsForemostFrom n c =
                (omega arith, omega arith, sym (agree c lt) ∙ e, λ d a l. absurd (omega arith)) in
              rw same at here)
        | inr e ↦
            (let (a, l, y, first) = scan_from (suc n) codes code rest (ground arith) in
              (
                omega arith,
                l,
                y,
                λ d a' l'. elim (dec_place n (rank d) a') [
                  | inl q ↦ ap p (only d (sym q)) ∙ sym (agree c lt) ∙ e
                  | inr g ↦ first d g l'
                ],
              ))
      ]

  scan-none :
      (n : ℕ) (codes : List ℕ) (d : ℕ)
      → IsOrdered n codes
      → scan cpu to_machine pending codes ≡ none
      → n ≤ rank d
      → rank d < 6
      → p d ≡ false
  unfolding scan
  scan-none n [] d o h a l = absurd (omega arith)
  scan-none n (c ∷ codes) d (lt, r, b, only, rest) h a l =
      elim (Bool-cases (is_taken cpu to_machine pending c)) [
        | inl e ↦ absurd (ground arith)
        | inr e ↦ elim (dec_place n (rank d) a) [
          | inl q ↦ ap p (only d (sym q)) ∙ sym (agree c lt) ∙ e
          | inr g ↦ scan-none (suc n) codes d rest (ground arith) g l
        ]
      ]

  scan-IsForemost :
      (code : ℕ) → scan cpu to_machine pending priority ≡ some code → IsForemost p code
  scan-IsForemost code h =
      let (a, l, y, first) = scan_from 0 priority code priority-IsOrdered h in
      (l, y, λ d lt. first d (omega arith) lt)

  scan-IsNone : scan cpu to_machine pending priority ≡ none → IsNone p
  scan-IsNone h d lt = scan-none 0 priority d priority-IsOrdered h (omega arith) lt

selected :
    (cpu : Cpu) (pending : ℕ) (m s : Option ℕ)
    → scan cpu true pending priority ≡ m
    → scan cpu false pending priority ≡ s
    → IsSelected cpu pending (or_else m s)
selected cpu pending m s hm hs = go m s hm hs
  where
    to_m : (d : ℕ) → d < 32 → is_taken cpu true pending d ≡ reaches_machine cpu pending d
    to_m = is_taken_machine cpu pending

    to_s : (d : ℕ) → d < 32 → is_taken cpu false pending d ≡ reaches_supervisor cpu pending d
    to_s = is_taken_supervisor cpu pending

    go :
        (m s : Option ℕ)
        → scan cpu true pending priority ≡ m
        → scan cpu false pending priority ≡ s
        → IsSelected cpu pending (or_else m s)
    go none none hm hs = (
      scan-IsNone cpu true pending (reaches_machine cpu pending) to_m hm,
      scan-IsNone cpu false pending (reaches_supervisor cpu pending) to_s hs,
    )
    go none (some c) hm hs = inr (
      scan-IsNone cpu true pending (reaches_machine cpu pending) to_m hm,
      scan-IsForemost cpu false pending (reaches_supervisor cpu pending) to_s c hs,
    )
    go (some c) s hm hs =
        inl (scan-IsForemost cpu true pending (reaches_machine cpu pending) to_m c hm)

-- `select` returns the first standard interrupt, in the order MEI, MSI, MTI, SEI, SSI, STI, of those that
-- are pending, not delegated and enabled for M-mode by the privilege and mstatus.MIE; if there is none, the
-- first of those that are pending, delegated and enabled for S-mode by the privilege and mstatus.SIE; and
-- nothing only if there is neither.
pub select-IsSelected : (cpu : Cpu) (pending : ℕ) → IsSelected cpu pending (select cpu pending)
unfolding select
select-IsSelected cpu pending =
    selected cpu pending (scan cpu true pending priority) (scan cpu false pending priority) refl
      refl
