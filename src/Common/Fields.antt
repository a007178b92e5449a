-- ===== src/Common/Fields.antt =====
-- riscv_common.hpp, "Utility Functions": bit ranges, sign extension, the compressed register map.
use rv32_complete_v.Prelude.{
  false, ℕ, ◌+◌, ◌-◌, ◌/◌, ◌%◌, ◌^◌, ◌<◌, ◌≡◌, arith, bit_and, bit_xor, bit_and_mask, leb,
  if◌then◌else◌, u32, shr32, sub32,
}

-- `bits(val, hi, lo)`: the bits `hi` down to `lo` of `val`.
unfoldable pub bits : ℕ → ℕ → ℕ → ℕ
bits val hi lo =
    let width = hi - lo + 1 in
    let mask = if leb 32 width then 0xffff_ffff else 2 ^ width - 1 in bit_and (shr32 val lo) mask

pub bits_lem : (val hi lo : ℕ) → hi - lo < 31 → bits val hi lo ≡ val / 2 ^ lo % 2 ^ (hi - lo + 1)
unfolding bits
bits_lem val hi lo h = rw (narrow (hi - lo) h) (bit_and_mask (hi - lo + 1) (val / 2 ^ lo))
  where
    narrow : (d : ℕ) → d < 31 → leb 32 (d + 1) ≡ false
    narrow d p = ground arith

-- `sign_extend(val, sign_bit)`, as the pattern of the `int32_t`.
unfoldable pub sign_extend : ℕ → ℕ → ℕ
sign_extend val sign_bit = let mask = u32 (2 ^ sign_bit) in sub32 (bit_xor val mask) mask

unfoldable pub creg_to_reg : ℕ → ℕ
creg_to_reg creg = 8 + bit_and creg 0x7
