-- ===== src/Cpu.antt =====
-- riscv_cpu.hpp: the hart. Traps, interrupts, the return instructions and the counters.
pub mod State
pub mod Trap
pub mod Interrupt
pub mod Return
pub mod Status
pub mod ReturnStatus
pub mod TrapReturn
pub mod Modes
pub mod Counting
pub mod Delivery
pub mod Delegation
pub mod Eligible
pub mod Selection
pub mod STrapReturn
pub mod Counters
pub mod EvenCsrs
pub mod Dispatch
pub mod Step
pub mod Run
pub mod Contained
pub mod ContainedStep
pub mod ContainedFetch
pub mod StepSafety
pub mod EvenStep
pub mod EvenPc
pub mod EvenRun
pub mod Claims
pub mod Disabled
