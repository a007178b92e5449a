-- ===== src/Zicsr.antt =====
-- riscv_zicsr.hpp: the control and status registers and the CSR instructions.
pub mod Addr
pub mod Masks
pub mod File
pub mod Access
pub mod Execute
pub mod Guards
pub mod Encoding
pub mod Warl
