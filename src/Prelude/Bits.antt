-- ===== src/Prelude/Bits.antt =====
-- The bit operations of C++ at variables: each result is described digit by digit.
pub mod Step
use Step.{bit_and-IsDigitwise, bit_or-IsDigitwise, bit_xor-IsDigitwise}
use Prim.Native.Nat.{ℕ, zero, suc, ◌+◌, ◌-◌, ◌*◌, ◌/◌, ◌%◌, ◌^◌, ◌≤◌, ◌<◌, min, max}
use Prim.Native.Nat.{bit_and, bit_or, bit_xor, bit_and-bitwise}
use mathlib.Core.Path.{◌≡◌, refl, ap, ◌∙◌}
use native.Mathlib.Omega.{arith}
use native.Mathlib.Nat.{
  pow-suc, one-le-pow, mod-lt, div-add-mod', mul-add-mod_self_right, mod-eq_of_lt,
  div-div-eq-div-mul,
}

-- Digit `i` of `x`.
abbrev pub bit : ℕ → ℕ → ℕ
bit x zero = x % 2
bit x (suc i) = bit (x / 2) i

pub bit-lt : (x i : ℕ) → bit x i < 2
bit-lt x zero = omega arith
bit-lt x (suc i) = bit-lt (x / 2) i

half-bit_and : (a b : ℕ) → bit_and a b / 2 ≡ bit_and (a / 2) (b / 2)
half-bit_and a b = omega (arith, bit_and-IsDigitwise a b)

half-bit_or : (a b : ℕ) → bit_or a b / 2 ≡ bit_or (a / 2) (b / 2)
half-bit_or a b = omega (arith, bit_or-IsDigitwise a b)

half-bit_xor : (a b : ℕ) → bit_xor a b / 2 ≡ bit_xor (a / 2) (b / 2)
half-bit_xor a b = omega (arith, bit_xor-IsDigitwise a b)

pub bit-bit_and : (a b i : ℕ) → bit (bit_and a b) i ≡ min (bit a i) (bit b i)
bit-bit_and a b zero = omega (arith, bit_and-IsDigitwise a b)
bit-bit_and a b (suc i) = rw half-bit_and (bit-bit_and (a / 2) (b / 2) i)

pub bit-bit_or : (a b i : ℕ) → bit (bit_or a b) i ≡ max (bit a i) (bit b i)
bit-bit_or a b zero = omega (arith, bit_or-IsDigitwise a b)
bit-bit_or a b (suc i) = rw half-bit_or (bit-bit_or (a / 2) (b / 2) i)

pub bit-bit_xor : (a b i : ℕ) → bit (bit_xor a b) i ≡ (bit a i + bit b i) % 2
bit-bit_xor a b zero = omega (arith, bit_xor-IsDigitwise a b)
bit-bit_xor a b (suc i) = rw half-bit_xor (bit-bit_xor (a / 2) (b / 2) i)

-- Two words with the same digits are the same.
pub bit_ext : (k a b : ℕ) → a < 2 ^ k → b < 2 ^ k → ((i : ℕ) → i < k → bit a i ≡ bit b i) → a ≡ b
bit_ext zero a b ha hb h = omega arith
bit_ext (suc k) a b ha hb h = omega (
  arith,
  h 0 (omega arith),
  bit_ext k (a / 2) (b / 2) (omega (arith, pow-suc 2 k)) (omega (arith, pow-suc 2 k))
      (λ i p. h (suc i) (omega arith)),
)

pub bit_or-lt : (k a b : ℕ) → a < 2 ^ k → b < 2 ^ k → bit_or a b < 2 ^ k
bit_or-lt zero zero zero ha hb = omega (arith, bit_or-IsDigitwise 0 0)
bit_or-lt zero zero (suc b) ha hb = absurd (omega arith)
bit_or-lt zero (suc a) b ha hb = absurd (omega arith)
bit_or-lt (suc k) a b ha hb = omega (
  arith,
  pow-suc 2 k,
  bit_or-IsDigitwise a b,
  bit_or-lt k (a / 2) (b / 2) (omega (arith, pow-suc 2 k)) (omega (arith, pow-suc 2 k)),
)

pub bit_xor-lt : (k a b : ℕ) → a < 2 ^ k → b < 2 ^ k → bit_xor a b < 2 ^ k
bit_xor-lt zero zero zero ha hb = omega (arith, bit_xor-IsDigitwise 0 0)
bit_xor-lt zero zero (suc b) ha hb = absurd (omega arith)
bit_xor-lt zero (suc a) b ha hb = absurd (omega arith)
bit_xor-lt (suc k) a b ha hb = omega (
  arith,
  pow-suc 2 k,
  bit_xor-IsDigitwise a b,
  bit_xor-lt k (a / 2) (b / 2) (omega (arith, pow-suc 2 k)) (omega (arith, pow-suc 2 k)),
)

bit_and-le_fuel : (n a b : ℕ) → a ≤ n → (bit_and a b ≤ a) × (bit_and a b ≤ b)
bit_and-le_fuel zero zero b h = omega (arith, bit_and-bitwise 0 b)
bit_and-le_fuel zero (suc a) b h = absurd (omega arith)
bit_and-le_fuel (suc n) zero b h = omega (arith, bit_and-bitwise 0 b)
bit_and-le_fuel (suc n) (suc a) b h =
    omega
      (arith, bit_and-IsDigitwise (suc a) b, bit_and-le_fuel n (suc a / 2) (b / 2) (omega arith))

pub bit_and-le : (a b : ℕ) → (bit_and a b ≤ a) × (bit_and a b ≤ b)
bit_and-le a b = bit_and-le_fuel a a b (omega arith)

bit_or-zero_fuel : (n a : ℕ) → a ≤ n → bit_or a 0 ≡ a
bit_or-zero_fuel n zero h = refl
bit_or-zero_fuel zero (suc a) h = absurd (omega arith)
bit_or-zero_fuel (suc n) (suc a) h =
    omega (arith, bit_or-IsDigitwise (suc a) 0, bit_or-zero_fuel n (suc a / 2) (omega arith))

pub bit_or-zero : (a : ℕ) → bit_or a 0 ≡ a
bit_or-zero a = bit_or-zero_fuel a a (omega arith)

double_pow : (q k : ℕ) → q * 2 ^ suc k ≡ 2 * (q * 2 ^ k)
double_pow q k = omega (arith, ap (λ (t : ℕ). q * t) (pow-suc 2 k))

-- Fields that do not overlap are joined by a sum.
pub bit_or_join : (k q r : ℕ) → r < 2 ^ k → bit_or (q * 2 ^ k) r ≡ q * 2 ^ k + r
bit_or_join zero q r h = ground (arith, bit_or-zero q)
bit_or_join (suc k) q r h = ground (
  arith,
  bit_or-IsDigitwise (q * 2 ^ suc k) r,
  double_pow q k,
  bit_or_join k q (r / 2) (omega arith),
)

half_mask : (k : ℕ) → (2 ^ suc k - 1) / 2 ≡ 2 ^ k - 1
half_mask k = omega (arith, pow-suc 2 k, one-le-pow k 2 (omega arith))

mod_pow_suc : (k a : ℕ) → a % 2 ^ suc k ≡ a / 2 % 2 ^ k * 2 + a % 2
mod_pow_suc k a =
    let c : ℕ = 2 ^ k in
    let pos : 0 < c = one-le-pow k 2 (omega arith) in
    let r : ℕ = a / 2 % c * 2 + a % 2 in
    let small : r < 2 ^ suc k = omega (arith, pow-suc 2 k, mod-lt (a / 2) pos) in
    let whole : a ≡ a / 2 / c * 2 ^ suc k + r =
      omega (arith, double_pow (a / 2 / c) k, div-add-mod' (a / 2) c) in
    ap (λ t. t % 2 ^ suc k) whole
    ∙ mul-add-mod_self_right (a / 2 / c) (2 ^ suc k) r
    ∙ mod-eq_of_lt small

-- A mask of `k` ones keeps the remainder.
pub bit_and_mask : (k a : ℕ) → bit_and a (2 ^ k - 1) ≡ a % 2 ^ k
bit_and_mask zero a = omega (arith, bit_and-le a 0)
bit_and_mask (suc k) a = omega (
  arith,
  one-le-pow k 2 (omega arith),
  pow-suc 2 k,
  bit_and-IsDigitwise a (2 ^ suc k - 1),
  ap (bit_and (a / 2)) (half_mask k),
  bit_and_mask k (a / 2),
  mod_pow_suc k a,
)

pub bit_or_add : (k x r : ℕ) → x % 2 ^ k ≡ 0 → r < 2 ^ k → bit_or x r ≡ x + r
bit_or_add k x r h p =
    let whole : x / 2 ^ k * 2 ^ k ≡ x = omega (arith, div-add-mod' x (2 ^ k)) in
    rw whole at (bit_or_join k (x / 2 ^ k) r p)

-- A mask that is shifted up.
halve_shift : (k m : ℕ) → m * 2 ^ suc k ≡ 2 * (m * 2 ^ k)
halve_shift k m = omega (arith, ap (λ (t : ℕ). m * t) (pow-suc 2 k))

pub bit_and_shift : (k x m : ℕ) → bit_and x (m * 2 ^ k) ≡ bit_and (x / 2 ^ k) m * 2 ^ k
bit_and_shift zero x m = ap (bit_and x) one ∙ omega (arith, ap (λ t. bit_and t m) whole)
  where
    one : m * 2 ^ 0 ≡ m
    one = omega arith

    whole : x / 2 ^ 0 ≡ x
    whole = omega arith
bit_and_shift (suc k) x m = omega (
  arith,
  bit_and-IsDigitwise x (m * 2 ^ suc k),
  ap (bit_and (x / 2)) half,
  bit_and_shift k (x / 2) m,
  ap (λ t. bit_and t m) two,
  halve_shift k m,
  halve_shift k (bit_and (x / 2 ^ suc k) m),
  ap (λ (t : ℕ). t * 2 ^ k) (ap (λ t. bit_and t m) two),
)
  where
    half : m * 2 ^ suc k / 2 ≡ m * 2 ^ k
    half = omega (arith, halve_shift k m)

    two : x / 2 / 2 ^ k ≡ x / 2 ^ suc k
    two = div-div-eq-div-mul x 2 (2 ^ k) ∙ ap (λ (t : ℕ). x / t) (omega (arith, pow-suc 2 k))

-- Words whose low digits are all zero.
pub bit_or_multiple : (k a b : ℕ) → a % 2 ^ k ≡ 0 → b % 2 ^ k ≡ 0 → bit_or a b % 2 ^ k ≡ 0
bit_or_multiple zero a b h p = omega arith
bit_or_multiple (suc k) a b h p =
    let halves : (a / 2 % 2 ^ k ≡ 0) × (b / 2 % 2 ^ k ≡ 0) =
      (omega (arith, mod_pow_suc k a), omega (arith, mod_pow_suc k b)) in
    omega (
      arith,
      mod_pow_suc k a,
      mod_pow_suc k b,
      mod_pow_suc k (bit_or a b),
      bit_or-IsDigitwise a b,
      ap (λ (t : ℕ). t % 2 ^ k) (half-bit_or a b),
      bit_or_multiple k (a / 2) (b / 2) halves.0 halves.1,
    )
