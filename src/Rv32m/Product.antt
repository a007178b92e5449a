-- ===== src/Rv32m/Product.antt =====
-- The high and low words of the products of riscv_rv32m.hpp make up the exact 64-bit product.
use native.Mathlib.Nat.{mul-le-mul_left}
use rv32_complete_v.Rv32m.{mul_high, mul_high_su, mul_high_u}
use rv32_complete_v.Prelude.{
  ℕ, suc, ◌+◌, ◌-◌, ◌*◌, ◌%◌, ◌^◌, ◌≤◌, ◌<◌, ◌≡◌, refl, ap, ◌⊎◌, inl, inr, arith, ℤ, pos, negsuc,
  pos_part, neg_part, sub_ℕ, ◌*ℤ◌, shr_ℤ, wrap, signed, signed32, u64, mul32,
}

product-lt : (a b : ℕ) → a < 2 ^ 32 → b < 2 ^ 32 → a * b < 2 ^ 64
product-lt a b ha hb = grind arith

-- MULHU and MUL: the high word times 2 ^ 32 plus the low word is the product of the two words.
mul_high_u-mul : (a b : ℕ) → a < 2 ^ 32 → b < 2 ^ 32 → mul_high_u a b * 2 ^ 32 + mul32 a b ≡ a * b
unfolding mul_high_u
mul_high_u-mul a b ha hb = omega (arith, product-lt a b ha hb)

-- The two words of an integer of 64 bits.
join_words :
    (z : ℤ)
    → pos_part z < 2 ^ 63
    → neg_part z ≤ 2 ^ 63
    → signed 64 (wrap 32 (shr_ℤ z 32) * 2 ^ 32 + wrap 32 z) ≡ z
join_words (pos n) p q = ground arith
join_words (negsuc n) p q = ground arith

wrap-lt : (z : ℤ) → wrap 32 z < 2 ^ 32
wrap-lt (pos n) = omega arith
wrap-lt (negsuc n) = omega arith

wrap-sub_ℕ : (x y : ℕ) → (wrap 32 (sub_ℕ x y) + y) % 2 ^ 32 ≡ x % 2 ^ 32
wrap-sub_ℕ x y = ground arith

-- The parts `p` and `n` of the word `a` that is read as signed.
abbrev Parts : ℕ → ℕ → ℕ → Type 0
Parts a p n = ((p ≡ a) × (n ≡ 0)) ⊎ ((p ≡ 0) × (n + a ≡ 2 ^ 32))

signed32-Parts : (a : ℕ) → a < 2 ^ 32 → Parts a (pos_part (signed32 a)) (neg_part (signed32 a))
signed32-Parts a h = ground arith

Parts-product :
    (a p n b q m : ℕ)
    → Parts a p n
    → Parts b q m
    → (a * b + (p * m + n * q)) % 2 ^ 32 ≡ (p * q + n * m) % 2 ^ 32
Parts-product a p n b q m (inl (ep, en)) (inl (eq, em)) = rw (ep, en, eq, em) (omega arith)
Parts-product a p n b q m (inl (ep, en)) (inr (eq, em)) =
    rw (ep, en, eq) (omega (arith, ap (λ (t : ℕ). a * t) em))
Parts-product a p n b q m (inr (ep, en)) (inl (eq, em)) =
    rw (ep, eq, em) (omega (arith, ap (λ (t : ℕ). t * b) en))
Parts-product a p n b q m (inr (ep, en)) (inr (eq, em)) =
    rw (ep, eq) (omega (arith, ap (λ (t : ℕ). n * t) em, ap (λ (t : ℕ). t * b) en))

-- The low word of a product does not depend on the signs.
low_word : (a b : ℕ) → a < 2 ^ 32 → b < 2 ^ 32 → mul32 a b ≡ wrap 32 (signed32 a *ℤ signed32 b)
unfolding ◌*ℤ◌
low_word a b ha hb = omega (
  arith,
  Parts-product a (pos_part (signed32 a)) (neg_part (signed32 a)) b (pos_part (signed32 b))
      (neg_part (signed32 b)) (signed32-Parts a ha) (signed32-Parts b hb),
  wrap-sub_ℕ
      (pos_part (signed32 a) * pos_part (signed32 b)
        + neg_part (signed32 a) * neg_part (signed32 b))
      (pos_part (signed32 a) * neg_part (signed32 b)
        + neg_part (signed32 a) * pos_part (signed32 b)),
  wrap-lt (signed32 a *ℤ signed32 b),
)

signed32-bounds : (a : ℕ) → a < 2 ^ 32 → pos_part (signed32 a) + neg_part (signed32 a) ≤ 2 ^ 31
signed32-bounds a h = ground arith

products-lt : (p n q m : ℕ) → p + n ≤ 2 ^ 31 → q ≤ 2 ^ 31 → m ≤ 2 ^ 31 → p * q + n * m < 2 ^ 63
products-lt p n q m h hq hm = omega (arith, mul-le-mul_left p hq, mul-le-mul_left n hm)

sub_ℕ-bounds : (x y : ℕ) → (pos_part (sub_ℕ x y) ≤ x) × (neg_part (sub_ℕ x y) ≤ y)
sub_ℕ-bounds x y = ground arith

product-bounds :
    (w z : ℤ)
    → pos_part w + neg_part w ≤ 2 ^ 31
    → pos_part z + neg_part z ≤ 2 ^ 31
    → (pos_part (w *ℤ z) < 2 ^ 63) × (neg_part (w *ℤ z) ≤ 2 ^ 63)
unfolding ◌*ℤ◌
product-bounds w z hw hz = omega (
  arith,
  sub_ℕ-bounds (pos_part w * pos_part z + neg_part w * neg_part z)
      (pos_part w * neg_part z + neg_part w * pos_part z),
  products-lt (pos_part w) (neg_part w) (pos_part z) (neg_part z) hw (omega arith) (omega arith),
  products-lt (pos_part w) (neg_part w) (neg_part z) (pos_part z) hw (omega arith) (omega arith),
)

-- MULH and MUL: the high word times 2 ^ 32 plus the low word, read as a signed number of 64 bits, is
-- the product of the two words read as signed numbers.
pub mul_high-mul :
    (a b : ℕ)
    → a < 2 ^ 32
    → b < 2 ^ 32
    → signed 64 (mul_high a b * 2 ^ 32 + mul32 a b) ≡ signed32 a *ℤ signed32 b
unfolding mul_high
mul_high-mul a b ha hb =
    let (p, n) =
      product-bounds (signed32 a) (signed32 b) (signed32-bounds a ha) (signed32-bounds b hb) in
    rw (low_word a b ha hb) (join_words (signed32 a *ℤ signed32 b) p n)

wide_product :
    (z : ℤ) (b : ℕ)
    → pos_part z + neg_part z ≤ 2 ^ 31
    → b < 2 ^ 32
    → signed 64 (u64 (wrap 64 z * b)) ≡ z *ℤ pos b
unfolding ◌*ℤ◌
wide_product (pos n) b h hb =
    let e : n % 2 ^ 64 ≡ n = omega arith in
    ground
      (arith, ap (λ (t : ℕ). t * b) e, mul-le-mul_left {m = b} {n = 2 ^ 32 - 1} n (omega arith))
wide_product (negsuc n) b h hb =
    let e : (2 ^ 64 - 1 - n % 2 ^ 64) + suc n ≡ 2 ^ 64 = omega arith in
    ground (
      arith,
      ap (λ (t : ℕ). t * b) e,
      mul-le-mul_left {m = b} {n = 2 ^ 32 - 1} (suc n) (omega arith),
    )

mixed-bounds :
    (z : ℤ) (b : ℕ)
    → pos_part z + neg_part z ≤ 2 ^ 31
    → b < 2 ^ 32
    → (pos_part (z *ℤ pos b) < 2 ^ 63) × (neg_part (z *ℤ pos b) ≤ 2 ^ 63)
unfolding ◌*ℤ◌
mixed-bounds z b h hb = omega (
  arith,
  sub_ℕ-bounds (pos_part z * b + neg_part z * 0) (pos_part z * 0 + neg_part z * b),
  mul-le-mul_left {m = b} {n = 2 ^ 32 - 1} (pos_part z) (omega arith),
  mul-le-mul_left {m = b} {n = 2 ^ 32 - 1} (neg_part z) (omega arith),
)

mixed_low_word : (a b : ℕ) → a < 2 ^ 32 → mul32 a b ≡ wrap 32 (signed32 a *ℤ pos b)
unfolding ◌*ℤ◌
mixed_low_word a b ha = omega (
  arith,
  Parts-product a (pos_part (signed32 a)) (neg_part (signed32 a)) b b 0 (signed32-Parts a ha)
      (inl (refl, refl)),
  wrap-sub_ℕ (pos_part (signed32 a) * b + neg_part (signed32 a) * 0)
      (pos_part (signed32 a) * 0 + neg_part (signed32 a) * b),
  wrap-lt (signed32 a *ℤ pos b),
)

-- MULHSU and MUL: the high word times 2 ^ 32 plus the low word, read as a signed number of 64 bits, is
-- the product of the first word read as signed and the second word read as unsigned.
mul_high_su-mul :
    (a b : ℕ)
    → a < 2 ^ 32
    → b < 2 ^ 32
    → signed 64 (mul_high_su a b * 2 ^ 32 + mul32 a b) ≡ signed32 a *ℤ pos b
unfolding mul_high_su
mul_high_su-mul a b ha hb =
    let (p, n) = mixed-bounds (signed32 a) b (signed32-bounds a ha) hb in
    rw (wide_product (signed32 a) b (signed32-bounds a ha) hb, mixed_low_word a b ha)
      (join_words (signed32 a *ℤ pos b) p n)
