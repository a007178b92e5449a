-- ===== src/Rv32f/Classify.antt =====
-- riscv_rv32f.hpp: `FClass`, `classify_float` and `is_snan`, on the bits of a `float`.
use rv32_complete_v.Rv32f.FClass
use rv32_complete_v.Prelude.{
  ℕ, zero, suc, ◌+◌, ◌*◌, ◌/◌, ◌%◌, ◌^◌, ◌<◌, bit_and, ◌≡◌, refl, ap, ◌∙◌, Bool, not, ◌&&◌, arith,
  ltb, ◌==◌, ◌!=◌, if◌then◌else◌, bit_and_mask, shr32, bit_and_pow,
}

unfoldable pub classify_float : ℕ → ℕ
classify_float pattern =
    let sign : Bool = bit_and (shr32 pattern 31) 1 != 0 in
    let exp : ℕ = bit_and (shr32 pattern 23) 0xff in
    let frac : ℕ = bit_and pattern 0x7fffff in
    if exp == 0xff
    then (if frac == 0
        then (if sign then FClass.neg_inf else FClass.pos_inf)
        else if bit_and frac 0x400000 != 0
        then FClass.quiet_nan
        else FClass.signaling_nan)
    else if exp == 0
    then (if frac == 0
        then (if sign then FClass.neg_zero else FClass.pos_zero)
        else if sign
        then FClass.neg_subnorm
        else FClass.pos_subnorm)
    else if sign
    then FClass.neg_normal
    else FClass.pos_normal

unfoldable pub is_snan : ℕ → Bool
is_snan pattern =
    let exp : ℕ = bit_and (shr32 pattern 23) 0xff in
    let frac : ℕ = bit_and pattern 0x7fffff in
    exp == 0xff && frac != 0 && not (bit_and frac 0x400000 != 0)

abbrev pub canonical_nan : ℕ
canonical_nan = 0x7fc0_0000

-- What the class of a pattern is by its place in the order of the 32-bit numbers.
abbrev pub class_by_range : ℕ → ℕ
class_by_range x =
    if x == 0
    then FClass.pos_zero
    else if ltb x 0x80_0000
    then FClass.pos_subnorm
    else if ltb x 0x7f80_0000
    then FClass.pos_normal
    else if x == 0x7f80_0000
    then FClass.pos_inf
    else if ltb x 0x7fc0_0000
    then FClass.signaling_nan
    else if ltb x 0x8000_0000
    then FClass.quiet_nan
    else if x == 0x8000_0000
    then FClass.neg_zero
    else if ltb x 0x8080_0000
    then FClass.neg_subnorm
    else if ltb x 0xff80_0000
    then FClass.neg_normal
    else if x == 0xff80_0000
    then FClass.neg_inf
    else if ltb x 0xffc0_0000
    then FClass.signaling_nan
    else FClass.quiet_nan

quiet_bit : (f : ℕ) → f < 2 ^ 23 → (bit_and f 0x400000 != 0) ≡ not (ltb f 0x400000)
quiet_bit f h = ground (arith, bit_and_pow 22 f)

-- The body of `classify_float` on the parts of a pattern.
abbrev class_of_parts : ℕ → ℕ → ℕ → ℕ
class_of_parts sign exp frac =
    if exp == 0xff
    then (if frac == 0
        then (if sign != 0 then FClass.neg_inf else FClass.pos_inf)
        else if not (ltb frac 0x400000)
        then FClass.quiet_nan
        else FClass.signaling_nan)
    else if exp == 0
    then (if frac == 0
        then (if sign != 0 then FClass.neg_zero else FClass.pos_zero)
        else if sign != 0
        then FClass.neg_subnorm
        else FClass.pos_subnorm)
    else if sign != 0
    then FClass.neg_normal
    else FClass.pos_normal

positive_class :
    (e f : ℕ) → e < 256 → f < 2 ^ 23 → class_of_parts 0 e f ≡ class_by_range (e * 2 ^ 23 + f)
positive_class e f he hf = ground arith

negative_class :
    (e f : ℕ)
    → e < 256
    → f < 2 ^ 23
    → class_of_parts 1 e f ≡ class_by_range (2 ^ 31 + e * 2 ^ 23 + f)
negative_class e f he hf = ground arith

class_of_sign :
    (s e f : ℕ)
    → s < 2
    → e < 256
    → f < 2 ^ 23
    → class_of_parts s e f ≡ class_by_range (s * 2 ^ 31 + e * 2 ^ 23 + f)
class_of_sign zero e f hs he hf =
    let same : e * 2 ^ 23 + f ≡ 0 * 2 ^ 31 + e * 2 ^ 23 + f = omega arith in
    positive_class e f he hf ∙ ap class_by_range same
class_of_sign (suc zero) e f hs he hf =
    let same : 2 ^ 31 + e * 2 ^ 23 + f ≡ 1 * 2 ^ 31 + e * 2 ^ 23 + f = omega arith in
    negative_class e f he hf ∙ ap class_by_range same
class_of_sign (suc (suc s)) e f hs he hf = absurd (omega arith)

classify_float-class_of_parts :
    (x : ℕ) → classify_float x ≡ class_of_parts (x / 2 ^ 31 % 2) (x / 2 ^ 23 % 256) (x % 2 ^ 23)
unfolding classify_float
classify_float-class_of_parts x =
    rw
      (
        bit_and_mask 1 (x / 2 ^ 31),
        bit_and_mask 8 (x / 2 ^ 23),
        bit_and_mask 23 x,
        quiet_bit (x % 2 ^ 23) (omega arith),
      )
      refl

-- The class that FCLASS.S gives a 32-bit pattern is the one of its place in the order of the numbers:
-- each class is an interval of patterns, or two for the NaNs.
pub classify_float-class_by_range : (x : ℕ) → x < 2 ^ 32 → classify_float x ≡ class_by_range x
classify_float-class_by_range x h =
    let whole : x / 2 ^ 31 % 2 * 2 ^ 31 + x / 2 ^ 23 % 256 * 2 ^ 23 + x % 2 ^ 23 ≡ x =
      omega arith in
    classify_float-class_of_parts x
    ∙ class_of_sign (x / 2 ^ 31 % 2) (x / 2 ^ 23 % 256) (x % 2 ^ 23) (omega arith) (omega arith)
        (omega arith)
    ∙ ap class_by_range whole
