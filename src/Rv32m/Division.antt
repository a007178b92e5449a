-- ===== src/Rv32m/Division.antt =====
-- Division and remainder of riscv_rv32m.hpp: the results fit together, on every branch.
use rv32_complete_v.Rv32m.{divide, divide_u, remainder, remainder_u}
use native.Mathlib.Nat.{div-add-mod', mod-lt, div-le_self, mod-le}
use rv32_complete_v.Prelude.{
  zero, suc, ◌⊎◌, ℕ, ◌+◌, ◌-◌, ◌*◌, ◌/◌, ◌%◌, ◌^◌, ◌<◌, ◌≡◌, refl, ap, arith, pos, neg_ℕ, wrap,
  add32, mul32, abs_ℕ, rem_ℤ, ℤ, negsuc, signed32, inl, inr, ltb, if◌then◌else◌, ◌==◌, ◌≤◌, ◌≢◌,
  if_cases, ◌&&◌, false,
}

-- DIVU and REMU: quotient times divisor plus remainder is the dividend, also for a divisor of 0; and
-- the divisor is 0 or above the remainder.
divide_u-remainder_u :
    (a b : ℕ)
    → a < 2 ^ 32
    → b < 2 ^ 32
    → (add32 (mul32 (divide_u a b) b) (remainder_u a b) ≡ a) × ((b ≡ 0) ⊎ (remainder_u a b < b))
unfolding divide_u remainder_u
divide_u-remainder_u a zero ha hb = ground (arith, div-add-mod' a 0)
divide_u-remainder_u a (suc b) ha hb =
    ground (arith, div-add-mod' a (suc b), mod-lt a {m = suc b} (omega arith))

-- The word of -n.
abbrev minus : ℕ → ℕ
minus n = (2 ^ 32 - n) % 2 ^ 32

wrap-neg_ℕ : (n : ℕ) → n < 2 ^ 32 → wrap 32 (neg_ℕ n) ≡ minus n
wrap-neg_ℕ zero h = refl
wrap-neg_ℕ (suc n) h = omega arith

wrap-pos : (n : ℕ) → n < 2 ^ 32 → wrap 32 (pos n) ≡ n
wrap-pos n h = omega arith

-- Multiplying by the word of -q cancels multiplying by q.
minus_cancel : (q b : ℕ) → q < 2 ^ 32 → (minus q * b + q * b) % 2 ^ 32 ≡ 0
minus_cancel zero b h = omega arith
minus_cancel (suc q) b h =
    let e : minus (suc q) + suc q ≡ 2 ^ 32 = omega arith in omega (arith, ap (λ (t : ℕ). t * b) e)

complement_cancel : (q b c : ℕ) → b + c ≡ 2 ^ 32 → (q * b + q * c) % 2 ^ 32 ≡ 0
complement_cancel q b c e = omega (arith, ap (λ (t : ℕ). q * t) e)

-- The four cases of the signs; `m` and `n` are those of `negsuc`.
pos-pos :
    (a b : ℕ) → a < 2 ^ 31 → add32 (mul32 (wrap 32 (pos (a / b))) b) (wrap 32 (pos (a % b))) ≡ a
pos-pos a b h =
    let small : a / b < 2 ^ 32 = omega (arith, div-le_self a b) in
    rw (wrap-pos (a / b) small) (omega (arith, div-add-mod' a b))

pos-neg :
    (a m : ℕ)
    → a < 2 ^ 31
    → m < 2 ^ 31
    → add32 (mul32 (wrap 32 (neg_ℕ (a / suc m))) (2 ^ 32 - 1 - m)) (wrap 32 (pos (a % suc m))) ≡ a
pos-neg a m ha hm =
    let q : ℕ = a / suc m in
    let b : ℕ = 2 ^ 32 - 1 - m in
    let small : q < 2 ^ 32 = omega (arith, div-le_self a (suc m)) in
    rw (wrap-neg_ℕ q small) (
      omega (
        arith,
        div-add-mod' a (suc m),
        minus_cancel q b small,
        complement_cancel q b (suc m) (omega arith),
      ))

neg-pos :
    (n b : ℕ)
    → n < 2 ^ 31
    → add32 (mul32 (wrap 32 (neg_ℕ (suc n / b))) b) (wrap 32 (neg_ℕ (suc n % b))) ≡ 2 ^ 32 - 1 - n
neg-pos n b h =
    let q : ℕ = suc n / b in
    let r : ℕ = suc n % b in
    let small : q < 2 ^ 32 = omega (arith, div-le_self (suc n) b) in
    let small_r : r < 2 ^ 32 = omega (arith, mod-le (suc n) b) in
    rw (wrap-neg_ℕ q small, wrap-neg_ℕ r small_r)
      (omega (arith, div-add-mod' (suc n) b, minus_cancel q b small))

neg-neg :
    (n m : ℕ)
    → n < 2 ^ 31
    → m < 2 ^ 31
    → add32
        (mul32 (wrap 32 (pos (suc n / suc m))) (2 ^ 32 - 1 - m))
        (wrap 32 (neg_ℕ (suc n % suc m)))
      ≡ 2 ^ 32 - 1 - n
neg-neg n m hn hm =
    let q : ℕ = suc n / suc m in
    let r : ℕ = suc n % suc m in
    let small_r : r < 2 ^ 32 = omega (arith, mod-le (suc n) (suc m)) in
    let small : q < 2 ^ 32 = omega (arith, div-le_self (suc n) (suc m)) in
    rw (wrap-neg_ℕ r small_r) (
      omega (
        arith,
        div-add-mod' (suc n) (suc m),
        ap (λ (t : ℕ). t * (2 ^ 32 - 1 - m)) (wrap-pos q small),
        complement_cancel q (2 ^ 32 - 1 - m) (suc m) (omega arith),
      ))

-- The magnitude of a signed word.
abbrev pub magnitude : ℕ → ℕ
magnitude x = if ltb x (2 ^ 31) then x else 2 ^ 32 - x

magnitude-pos : (n : ℕ) → n < 2 ^ 31 → magnitude (wrap 32 (pos n)) ≡ n
magnitude-pos n h = ground (arith, wrap-pos n (omega arith))

magnitude-neg_ℕ : (n : ℕ) → n < 2 ^ 31 → magnitude (wrap 32 (neg_ℕ n)) ≡ n
magnitude-neg_ℕ zero h = refl
magnitude-neg_ℕ (suc n) h = ground (arith, wrap-neg_ℕ (suc n) (omega arith))

abs_ℕ-signed32 : (x : ℕ) → x < 2 ^ 32 → abs_ℕ (signed32 x) ≡ magnitude x
abs_ℕ-signed32 x h = ground arith

rem_ℤ-lt : (x y : ℤ) → abs_ℕ y ≢ 0 → abs_ℕ y ≤ 2 ^ 31 → magnitude (wrap 32 (rem_ℤ x y)) < abs_ℕ y
rem_ℤ-lt (pos a) y n le =
    let lt = mod-lt a {m = abs_ℕ y} (omega arith) in
    rw (magnitude-pos (a % abs_ℕ y) (omega arith)) lt
rem_ℤ-lt (negsuc a) y n le =
    let lt = mod-lt (suc a) {m = abs_ℕ y} (omega arith) in
    rw (magnitude-neg_ℕ (suc a % abs_ℕ y) (omega arith)) lt

remainder-lt : (a b : ℕ) → b < 2 ^ 32 → b ≢ 0 → magnitude (remainder a b) < magnitude b
unfolding remainder
remainder-lt a b hb n =
    let e = abs_ℕ-signed32 b hb in
    let small : magnitude (wrap 32 (rem_ℤ (signed32 a) (signed32 b))) < abs_ℕ (signed32 b) =
      rem_ℤ-lt (signed32 a) (signed32 b) (ground arith) (ground arith) in
    let nonzero : (b == 0) ≡ false = ground arith in
    rw nonzero (
      if_cases (λ r. magnitude r < magnitude b) (a == 0x8000_0000 && b == 0xffff_ffff) 0
        (wrap 32 (rem_ℤ (signed32 a) (signed32 b))) (λ y. ground arith) (λ n'. rw e at small))

quotient_remainder :
    (a b : ℕ) → a < 2 ^ 32 → b < 2 ^ 32 → add32 (mul32 (divide a b) b) (remainder a b) ≡ a
unfolding divide remainder
quotient_remainder a b ha hb = ground (
  arith,
  pos-pos a b,
  pos-neg a (2 ^ 32 - 1 - b),
  neg-pos (2 ^ 32 - 1 - a) b,
  neg-neg (2 ^ 32 - 1 - a) (2 ^ 32 - 1 - b),
)

quotient_bounds :
    (a b : ℕ)
    → b < 2 ^ 32
    → ((b ≡ 0) × (divide a b ≡ 0xffff_ffff)) ⊎ (magnitude (remainder a b) < magnitude b)
unfolding divide
quotient_bounds a zero h = inl (refl, refl)
quotient_bounds a (suc b) h = inr (remainder-lt a (suc b) h (λ e. absurd (omega arith)))

-- DIV and REM on signed words: in 32-bit arithmetic, quotient times divisor plus remainder is the
-- dividend, also for a divisor of 0 and for the overflow of the least integer by -1. By 0 the quotient is
-- the word of -1, and for another divisor the magnitude of the remainder is below that of the divisor.
pub divide-remainder :
    (a b : ℕ)
    → a < 2 ^ 32
    → b < 2 ^ 32
    → (add32 (mul32 (divide a b) b) (remainder a b) ≡ a)
      × (((b ≡ 0) × (divide a b ≡ 0xffff_ffff)) ⊎ (magnitude (remainder a b) < magnitude b))
divide-remainder a b ha hb = (quotient_remainder a b ha hb, quotient_bounds a b hb)
