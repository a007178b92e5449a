-- ===== src/Opgen.antt =====
-- The generators of random instructions: riscv_*_opgen.hpp.
pub mod Source
pub mod Encode
pub mod Illegal
pub mod Shapes
pub mod Generator
pub mod Random
pub mod Picked
pub mod Zba
pub mod Zbb
pub mod Zbs
pub mod Zicond
pub mod Rv32m
pub mod Rv32iGens
pub mod Rv32i
pub mod Rv32fGens
pub mod Rv32f
pub mod Rv32a
pub mod Zicsr
