-- ===== src/Rv32c.antt =====
-- riscv_rv32c.hpp: the compressed instruction set.
pub mod Types
pub mod Decode
pub mod Execute
pub mod Immediates
pub mod Expansion
pub mod Alignment
pub mod Traps
