-- ===== src/Rv32f.antt =====
-- riscv_rv32f.hpp: the single-precision floating-point extension.
pub mod FRegFile
pub mod Fcsr
pub mod FClass
pub mod Opcode
pub mod Classify
pub mod Types
pub mod Decode
pub mod Host
pub mod Execute
pub mod Flags
pub mod FcsrLaws
