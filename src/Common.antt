-- ===== src/Common.antt =====
-- riscv_common.hpp: what every extension module of the model shares.
pub mod Fields
pub mod Encode
pub mod Exception
pub mod RegFile
pub mod Bus
pub mod Memory
pub mod MemoryLaws
