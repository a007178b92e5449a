-- ===== src/Rv32f/FcsrLaws.antt =====
-- riscv_rv32f.hpp, `FCSR`: `read` after `write`, and `write` after `read`.
use rv32_complete_v.Prelude.{
  ℕ, ◌/◌, ◌%◌, ◌^◌, ◌<◌, ◌≡◌, refl, arith, bit_or_join, bit_and_mask, table,
}
use rv32_complete_v.Rv32f.Fcsr.{read, write, to_bits, from_bits}

-- The flags of the low five digits, checked on each of them.
to_bits-from_bits : (i : ℕ) → i < 32 → to_bits (from_bits i) ≡ i
unfolding to_bits from_bits
to_bits-from_bits i h = table 32 (λ i. to_bits (from_bits i)) (λ i. i) refl i h

-- Reading fcsr after a write gives the low eight bits of the value.
pub read-write_lem : (val : ℕ) → read (write val) ≡ val % 2 ^ 8
unfolding read write
read-write_lem val = ground (
  arith,
  bit_and_mask 5 val,
  bit_and_mask 3 (val / 2 ^ 5),
  to_bits-from_bits (val % 2 ^ 5) (omega arith),
  bit_or_join 5 (val / 2 ^ 5 % 2 ^ 3) (val % 2 ^ 5) (omega arith),
)
