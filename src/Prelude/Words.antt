-- ===== src/Prelude/Words.antt =====
-- Unsigned words of C++ as native numbers, the wrap-around written out.
use Prim.Native.Nat.{ℕ, zero, suc, ◌+◌, ◌-◌, ◌*◌, ◌/◌, ◌%◌, ◌^◌, ◌<◌, min}
use Prim.Native.Nat.{bit_and}
use mathlib.Core.Path.{◌≡◌, ap, ◌∙◌}
use native.Mathlib.Omega.{arith}
use native.Mathlib.Nat.{pow-suc}
use rv32_complete_v.Prelude.Bits.{bit, bit_and-le, bit-bit_and}
use rv32_complete_v.Prelude.Int.{shr_ℤ, wrap, signed32}

abbrev pub u8 : ℕ → ℕ
u8 x = x % 2 ^ 8

abbrev pub u16 : ℕ → ℕ
u16 x = x % 2 ^ 16

abbrev pub u32 : ℕ → ℕ
u32 x = x % 2 ^ 32

abbrev pub u64 : ℕ → ℕ
u64 x = x % 2 ^ 64

-- `uint32_t` operators: a + b, a - b, a * b, a << k, a >> k, ~a, and the signed `a >> k`.
abbrev pub add32 : ℕ → ℕ → ℕ
add32 a b = u32 (a + b)

abbrev pub sub32 : ℕ → ℕ → ℕ
sub32 a b = u32 (a + 2 ^ 32 - b)

abbrev pub mul32 : ℕ → ℕ → ℕ
mul32 a b = u32 (a * b)

abbrev pub shl32 : ℕ → ℕ → ℕ
shl32 a k = u32 (a * 2 ^ k)

abbrev pub shr32 : ℕ → ℕ → ℕ
shr32 a k = a / 2 ^ k

abbrev pub not32 : ℕ → ℕ
not32 a = 2 ^ 32 - 1 - a

abbrev pub sra32 : ℕ → ℕ → ℕ
sra32 a k = wrap 32 (shr_ℤ (signed32 a) k)

-- The complement in a word of `k` digits flips each of them.
bit_complement : (k x i : ℕ) → x < 2 ^ k → i < k → bit (2 ^ k - 1 - x) i ≡ 1 - bit x i
bit_complement (suc k) x zero h p = omega (arith, pow-suc 2 k)
bit_complement (suc k) x (suc i) h p =
    ap (λ t. bit t i) halves ∙ bit_complement k (x / 2) i (omega (arith, pow-suc 2 k)) (omega arith)
  where
    halves : (2 ^ suc k - 1 - x) / 2 ≡ 2 ^ k - 1 - x / 2
    halves = omega (arith, pow-suc 2 k)
bit_complement zero x i h p = absurd (omega arith)

pub bit-not32 : (x i : ℕ) → x < 2 ^ 32 → i < 32 → bit (not32 x) i ≡ 1 - bit x i
bit-not32 x i h p = bit_complement 32 x i h p

-- Clearing the digits of a mask and keeping those of the mask are complementary.
pub bit-bit_and-not32 :
    (x m i : ℕ) → m < 2 ^ 32 → i < 32 → bit (bit_and x (not32 m)) i ≡ min (bit x i) (1 - bit m i)
bit-bit_and-not32 x m i h p = bit-bit_and x (not32 m) i ∙ ap (min (bit x i)) (bit-not32 m i h p)

pub bit_and-lt : (k a b : ℕ) → a < 2 ^ k → bit_and a b < 2 ^ k
bit_and-lt k a b h = omega (arith, bit_and-le a b)

pub not32-lt : (x : ℕ) → not32 x < 2 ^ 32
not32-lt x = omega arith
