-- ===== src/Examples.antt =====
-- Tests: the theorems at concrete inputs.
mod Integer
mod Store
mod Atomic
mod Csr
mod Machine
mod Short
mod Steps
mod Random
mod Illegal
