-- ===== src/Rv32fc/Encode.antt =====
-- riscv_rv32fc.hpp, namespace `encode`.
use rv32_complete_v.Prelude.{ℕ, ◌+◌, ◌-◌, ◌^◌, bit_and, bit_or, u8, u16, shl32, shr32}

-- `(reg - 8) & 0x7`, for a `uint8_t`.
abbrev short : ℕ → ℕ
short reg = bit_and (u8 (reg + 2 ^ 8 - 8)) 0x7

unfoldable pub c_flw : ℕ → ℕ → ℕ → ℕ
c_flw rd rs1 uimm = u16 (
    bit_or (shl32 (short rd) 2) (
      bit_or (shl32 (bit_and (shr32 uimm 6) 0x1) 5) (
        bit_or (shl32 (bit_and (shr32 uimm 2) 0x1) 6) (
          bit_or (shl32 (short rs1) 7)
            (bit_or (shl32 (bit_and (shr32 uimm 3) 0x7) 10) (shl32 0b011 13))))))

unfoldable pub c_fsw : ℕ → ℕ → ℕ → ℕ
c_fsw rs2 rs1 uimm = u16 (
    bit_or (shl32 (short rs2) 2) (
      bit_or (shl32 (bit_and (shr32 uimm 6) 0x1) 5) (
        bit_or (shl32 (bit_and (shr32 uimm 2) 0x1) 6) (
          bit_or (shl32 (short rs1) 7)
            (bit_or (shl32 (bit_and (shr32 uimm 3) 0x7) 10) (shl32 0b111 13))))))

unfoldable pub c_flwsp : ℕ → ℕ → ℕ
c_flwsp rd uimm = u16 (
    bit_or 0b10 (
      bit_or (shl32 (bit_and (shr32 uimm 6) 0x3) 2) (
        bit_or (shl32 (bit_and (shr32 uimm 2) 0x7) 4) (
          bit_or (shl32 (bit_and rd 0x1f) 7)
            (bit_or (shl32 (bit_and (shr32 uimm 5) 0x1) 12) (shl32 0b011 13))))))

unfoldable pub c_fswsp : ℕ → ℕ → ℕ
c_fswsp rs2 uimm = u16 (
    bit_or 0b10 (
      bit_or (shl32 (bit_and rs2 0x1f) 2) (
        bit_or (shl32 (bit_and (shr32 uimm 6) 0x3) 7)
          (bit_or (shl32 (bit_and (shr32 uimm 2) 0xf) 9) (shl32 0b111 13)))))
