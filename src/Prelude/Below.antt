-- ===== src/Prelude/Below.antt =====
-- Checking every number below a bound, and reading single digits off a word by a mask.
use rv32_complete_v.Prelude.Tests.{◌==◌, ==_iff, Bool-cases}
use rv32_complete_v.Prelude.Bits.{bit, bit_and_mask}
use rv32_complete_v.Prelude.Bits.Step.{bit_and-IsDigitwise}
use Prim.Native.Nat.{ℕ, zero, suc, ◌*◌, ◌/◌, ◌^◌, ◌<◌}
use Prim.Native.Nat.{bit_and}
use mathlib.Core.Path.{◌≡◌, refl, ap, ◌∙◌}
use mathlib.Core.Logic.{inl, inr}
use mathlib.Core.Bool.{Bool, true, false, ◌&&◌}
use native.Mathlib.Omega.{arith}
use native.Mathlib.Nat.{pow-suc}

-- Whether `p` holds of every number below `n`.
abbrev pub below : ℕ → (ℕ → Bool) → Bool
below zero p = true
below (suc n) p = p n && below n p

and_left : (a b : Bool) → (a && b) ≡ true → a ≡ true
and_left true b h = refl
and_left false b h = h

and_right : (a b : Bool) → (a && b) ≡ true → b ≡ true
and_right true b h = h
and_right false b h = absurd (ground arith)

pub below-at : (n : ℕ) (p : ℕ → Bool) → below n p ≡ true → (i : ℕ) → i < n → p i ≡ true
below-at zero p h i lt = absurd (omega arith)
below-at (suc n) p h i lt = elim (Bool-cases (i == n)) [
  | inl e ↦ ap p ((==_iff i n).0 e) ∙ and_left (p n) (below n p) h
  | inr ne ↦ below-at n p (and_right (p n) (below n p) h) i (ground arith)
]

-- Two functions that agree below `n`, checked one argument at a time.
pub table : (n : ℕ) (f g : ℕ → ℕ) → below n (λ i. f i == g i) ≡ true → (i : ℕ) → i < n → f i ≡ g i
table n f g h i lt = (==_iff (f i) (g i)).0 (below-at n (λ j. f j == g j) h i lt)

pub half_pow : (k : ℕ) → 2 ^ suc k / 2 ≡ 2 ^ k
half_pow k = omega (arith, pow-suc 2 k)

pub bit_and_pow : (k s : ℕ) → bit_and s (2 ^ k) ≡ bit s k * 2 ^ k
bit_and_pow zero s = omega (arith, bit_and_mask 1 s)
bit_and_pow (suc k) s = omega (
  arith,
  pow-suc 2 k,
  bit_and-IsDigitwise s (2 ^ suc k),
  ap (bit_and (s / 2)) (half_pow k),
  bit_and_pow k (s / 2),
  ap (λ (t : ℕ). bit (s / 2) k * t) (pow-suc 2 k),
)
