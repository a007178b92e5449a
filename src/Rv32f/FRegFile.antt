-- ===== src/Rv32f/FRegFile.antt =====
-- riscv_rv32f.hpp, class `FRegFile`: 32 registers as raw bits.
use rv32_complete_v.Prelude.{◌==◌, if◌then◌else◌, bit_and, ℕ}

pub record FRegFile : Type 0 where
  pub regs : ℕ → ℕ

unfoldable pub zeros : FRegFile
zeros = record { regs = λ i. 0 }

unfoldable pub read_bits : FRegFile → ℕ → ℕ
read_bits f idx = f.regs (bit_and idx 0x1f)

unfoldable pub write_bits : FRegFile → ℕ → ℕ → FRegFile
write_bits f idx val =
    let idx' = bit_and idx 0x1f in record f { regs = λ i. if i == idx' then val else f.regs i }
