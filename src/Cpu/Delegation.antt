-- ===== src/Cpu/Delegation.antt =====
-- riscv_cpu.hpp: where `take_exception` and an interrupt go.
use rv32_complete_v.Common.Exception.{PrivilegeLevel, user, supervisor, machine, reserved, level}
use rv32_complete_v.Rv32a.{clear}
use rv32_complete_v.Zicsr.Addr
use rv32_complete_v.Zicsr.File.{get, set}
use rv32_complete_v.Zicsr.Access.{write}
use rv32_complete_v.Cpu.State.{Cpu, CpuExecResult}
use rv32_complete_v.Cpu.Trap.{
  is_supervisor, is_machine, delegate_target, enter_s_trap, enter_m_trap, take_exception,
}
use rv32_complete_v.Prelude.{
  ℕ, ◌%◌, ◌≤◌, bit_and, ◌≡◌, refl, ap, ◌≢◌, inl, inr, true, false, arith, Bool-cases, bit-bit_and,
  not32,
}

pub privilege-enter_m_trap :
    (cpu : Cpu) (cause tval pc : ℕ)
    → (enter_m_trap cpu cause tval pc).csrs.current_privilege ≡ machine
unfolding enter_m_trap write get set
privilege-enter_m_trap cpu cause tval pc = ground arith

pub privilege-enter_s_trap :
    (cpu : Cpu) (cause tval pc : ℕ)
    → (enter_s_trap cpu cause tval pc).csrs.current_privilege ≡ supervisor
unfolding enter_s_trap write get set
privilege-enter_s_trap cpu cause tval pc = ground arith

level-below : (p : PrivilegeLevel) → p ≢ reserved → is_machine p ≡ false → level p ≤ 1
level-below user h e = omega arith
level-below supervisor h e = omega arith
level-below reserved h e = absurd (h refl)
level-below machine h e = absurd (ground arith)

pub level-le : (p : PrivilegeLevel) → level p ≤ 3
level-le user = omega arith
level-le supervisor = omega arith
level-le reserved = omega arith
level-le machine = omega arith

not_machine :
    (cpu : Cpu) (cause : ℕ)
    → is_supervisor (delegate_target cpu cause false) ≡ true
    → is_machine cpu.csrs.current_privilege ≡ false
unfolding delegate_target
not_machine cpu cause e = ground arith

-- The level of the target, which S-mode has on exceptions from below M-mode only.
target-above :
    (cpu : Cpu) (cause : ℕ)
    → cpu.csrs.current_privilege ≢ reserved
    → is_supervisor (delegate_target cpu cause false) ≡ true
    → level cpu.csrs.current_privilege ≤ 1
target-above cpu cause h e = level-below cpu.csrs.current_privilege h (not_machine cpu cause e)

pub aligned : (x : ℕ) → bit_and x (not32 0x3) % 4 ≡ 0
aligned x = omega (arith, bit-bit_and x 0xffff_fffc 0, bit-bit_and x 0xffff_fffc 1)

abbrev pub IsTarget : Cpu → Cpu × CpuExecResult → ℕ → Type 0
IsTarget cpu after cause =
    (level cpu.csrs.current_privilege ≤ level after.0.csrs.current_privilege)
    × (after.1.next_pc % 4 ≡ 0)
    × (after.1.trap ≡ true)
    × (after.1.trap_cause ≡ cause)
    × (after.0.reservation.valid ≡ false)
    × (after.0.regs ≡ cpu.regs)

-- A synchronous exception never lowers the privilege (of a hart that is not at the reserved level),
-- goes to an address that is a multiple of 4, reports its cause, drops the reservation and keeps the
-- registers.
pub take_exception-IsTarget :
    (cpu : Cpu) (r : CpuExecResult) (cause tval : ℕ)
    → cpu.csrs.current_privilege ≢ reserved
    → IsTarget cpu (take_exception cpu r cause tval) cause
unfolding take_exception clear enter_m_trap enter_s_trap
take_exception-IsTarget cpu r cause tval h =
    elim (Bool-cases (is_supervisor (delegate_target cpu cause false))) [
      | inl e ↦ rw e (
        omega (
          arith,
          ap level (privilege-enter_s_trap cpu cause tval cpu.pc),
          target-above cpu cause h e,
        ),
        aligned (get (enter_s_trap cpu cause tval cpu.pc).csrs Addr.stvec),
        refl,
        refl,
        refl,
        refl,
      )
      | inr e ↦ rw e (
        omega (
          arith,
          ap level (privilege-enter_m_trap cpu cause tval cpu.pc),
          level-le cpu.csrs.current_privilege,
        ),
        aligned (get (enter_m_trap cpu cause tval cpu.pc).csrs Addr.mtvec),
        refl,
        refl,
        refl,
        refl,
      )
    ]
