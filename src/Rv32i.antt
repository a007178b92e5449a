-- ===== src/Rv32i.antt =====
-- riscv_rv32i.hpp: the base integer instruction set.
pub mod Types
pub mod Decode
pub mod Execute
pub mod Traps
pub mod Words
pub mod Alignment
