-- ===== src/Prelude/Bits/Step.antt =====
-- `bit_and`, `bit_or` and `bit_xor` by halves, from the recursion that they stand for: an operation
-- is digitwise if its result is that of the halves, with one more digit below.
use Prim.Native.Nat.{
  ℕ, zero, suc, ◌+◌, ◌-◌, ◌*◌, ◌/◌, ◌%◌, ◌≤◌, min, max, differ, bit_and, bit_or, bit_xor,
}
use Prim.Native.Nat.{digits, bitwise, bit_and-bitwise, bit_or-bitwise, bit_xor-bitwise}
use mathlib.Core.Path.{◌≡◌, refl, ap, ◌∙◌}
use native.Mathlib.Omega.{arith}

-- `op` works on each digit by `digit`.
abbrev pub IsDigitwise : (ℕ → ℕ → ℕ) → (ℕ → ℕ → ℕ) → Type 0
IsDigitwise op digit = (x y : ℕ) → op x y ≡ 2 * op (x / 2) (y / 2) + digit (x % 2) (y % 2)

module _ (rest : ℕ → ℕ) (digit : ℕ → ℕ → ℕ) where
  -- One digit more to go makes no difference once there are enough for `x`.
  one_more : (n x y : ℕ) → x ≤ n → digits rest digit (suc n) x y ≡ digits rest digit n x y
  one_more zero zero y le = refl
  one_more (suc n) zero y le = refl
  one_more zero (suc x) y le = absurd (omega arith)
  one_more (suc n) (suc x) y le = omega (arith, one_more n (suc x / 2) (y / 2) (omega arith))

  -- Nor do `k` digits more.
  more : (k n x y : ℕ) → n ≡ k + x → digits rest digit n x y ≡ digits rest digit x x y
  more zero n x y e = ap (λ (m : ℕ). digits rest digit m x y) (omega arith)
  more (suc k) n x y e =
      let peeled : n ≡ suc (k + x) = omega arith in
      ap (λ (m : ℕ). digits rest digit m x y) peeled
      ∙ one_more (k + x) x y (omega arith)
      ∙ more k (k + x) x y (omega arith)

  bitwise-IsDigitwise :
      ((y : ℕ) → rest y ≡ 2 * rest (y / 2) + digit 0 (y % 2))
      → IsDigitwise (bitwise rest digit) digit
  bitwise-IsDigitwise last zero y = last y
  bitwise-IsDigitwise last (suc x) y =
      omega (arith, more (x - suc x / 2) x (suc x / 2) (y / 2) (omega arith))

pub bit_and-IsDigitwise : IsDigitwise bit_and min
bit_and-IsDigitwise x y =
    simp bit_and-bitwise (bitwise-IsDigitwise (λ _. 0) min (λ w. omega arith) x y)

pub bit_or-IsDigitwise : IsDigitwise bit_or max
bit_or-IsDigitwise x y =
    simp bit_or-bitwise (bitwise-IsDigitwise (λ w. w) max (λ w. omega arith) x y)

-- `differ` of two digits is their sum without the carry.
differ_sum : (c d : ℕ) → c ≤ 1 → d ≤ 1 → differ c d ≡ (c + d) % 2
differ_sum zero d hc hd = omega arith
differ_sum (suc c) zero hc hd = omega arith
differ_sum (suc zero) (suc d) hc hd = omega arith
differ_sum (suc (suc c)) (suc d) hc hd = absurd (omega arith)

pub bit_xor-IsDigitwise : IsDigitwise bit_xor (λ c d. (c + d) % 2)
bit_xor-IsDigitwise x y = omega (
  arith,
  bit_xor-bitwise x y,
  bit_xor-bitwise (x / 2) (y / 2),
  bitwise-IsDigitwise (λ w. w) differ (λ w. omega arith) x y,
  differ_sum (x % 2) (y % 2) (omega arith) (omega arith),
)
