-- ===== src/Common/RegFile.antt =====
-- riscv_common.hpp, `RegFile`: 32 integer registers, x0 hardwired to zero.
use rv32_complete_v.Prelude.{
  ℕ, ◌%◌, ◌^◌, ◌<◌, ◌≡◌, arith, bit_and, bit_and_mask, ◌==◌, ◌!=◌, if◌then◌else◌,
}

-- The array `x`, by index. Only the indices below 32 are used.
pub record RegFile : Type 0 where
  pub x : ℕ → ℕ

unfoldable pub read : RegFile → ℕ → ℕ
read regs idx = let idx' = bit_and idx 0x1f in if idx' == 0 then 0 else regs.x idx'

unfoldable pub write : RegFile → ℕ → ℕ → RegFile
write regs idx val =
    let idx' = bit_and idx 0x1f in
    if idx' != 0 then record regs { x = λ i. if i == idx' then val else regs.x i } else regs

unfoldable pub reset : RegFile → RegFile
reset regs = record regs { x = λ i. 0 }

-- Every register holds a 32-bit value.
abbrev pub IsWords : RegFile → Type 0
IsWords regs = (i : ℕ) → regs.x i < 2 ^ 32

pub read-lt : (regs : RegFile) (idx : ℕ) → IsWords regs → read regs idx < 2 ^ 32
unfolding read
read-lt regs idx h = ground (arith, h (bit_and idx 0x1f))

pub write-IsWords :
    (regs : RegFile) (idx val : ℕ) → IsWords regs → val < 2 ^ 32 → IsWords (write regs idx val)
unfolding write
write-IsWords regs idx val h v i = ground (arith, h i)

-- A read after a write: x0 stays zero, the written register has the value, and no other changes.
read-write :
    (regs : RegFile) (i j val : ℕ)
    → read (write regs i val) j
      ≡ (if j % 32 == 0 then 0 else if j % 32 == i % 32 then val else read regs j)
unfolding read write
read-write regs i j val = ground (arith, bit_and_mask 5 i, bit_and_mask 5 j)
