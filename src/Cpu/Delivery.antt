-- ===== src/Cpu/Delivery.antt =====
-- riscv_cpu.hpp: `take_pending_interrupt` as a whole.
use rv32_complete_v.Common.Exception.{
  PrivilegeLevel, user, supervisor, machine, reserved, level, interrupt_bit,
}
use rv32_complete_v.Rv32a.{clear}
use rv32_complete_v.Zicsr.Addr
use rv32_complete_v.Zicsr.Masks.{mstatus_mie}
use rv32_complete_v.Zicsr.File.{get}
use rv32_complete_v.Cpu.State.{Cpu, CpuExecResult}
use rv32_complete_v.Cpu.Interrupt.{or_else, same}
use rv32_complete_v.Cpu.Trap.{
  is_machine, is_supervisor, delegate_target, interrupt_globally_enabled, enter_s_trap,
  enter_m_trap,
}
use rv32_complete_v.Cpu.Interrupt.{
  priority, is_taken, scan, select, vector, deliver, delivered, take_pending_interrupt,
}
use rv32_complete_v.Cpu.Delegation.{
  privilege-enter_s_trap, privilege-enter_m_trap, level-le, aligned,
}
use rv32_complete_v.Cpu.Eligible.{is_taken_machine, is_taken_supervisor}
use rv32_complete_v.Cpu.Selection.{IsSelected, select-IsSelected, rank-lt}
use rv32_complete_v.Prelude.{
  ℕ, ◌%◌, ◌≤◌, bit_and, bit_or, ◌≡◌, refl, ap, ◌∙◌, ◌⊎◌, inl, inr, Bool, true, false, ◌&&◌, Option,
  none, some, List, [], ◌∷◌, arith, ◌==◌, ◌!=◌, Bool-cases, shl32,
}

last : (a b c : Bool) → (a && b && c) ≡ true → c ≡ true
last true true c h = h
last true false c h = absurd (ground arith)
last false b c h = absurd (ground arith)

is_taken-enabled :
    (cpu : Cpu) (t : Bool) (pending c : ℕ)
    → is_taken cpu t pending c ≡ true
    → interrupt_globally_enabled cpu (delegate_target cpu (bit_or interrupt_bit c) true) ≡ true
unfolding is_taken
is_taken-enabled cpu t pending c h =
    last (bit_and pending (shl32 1 c) != 0)
      (same t (is_machine (delegate_target cpu (bit_or interrupt_bit c) true)))
      (interrupt_globally_enabled cpu (delegate_target cpu (bit_or interrupt_bit c) true)) h

module _ (cpu : Cpu) (pending : ℕ) (in_machine : cpu.csrs.current_privilege ≡ machine)
    (masked : bit_and (get cpu.csrs Addr.mstatus) mstatus_mie ≡ 0) where
  masked-level : (p : PrivilegeLevel) → interrupt_globally_enabled cpu p ≡ false
  unfolding interrupt_globally_enabled
  masked-level user = ground (arith, ap level in_machine)
  masked-level supervisor = ground (arith, ap level in_machine)
  masked-level reserved = ground (arith, ap level in_machine)
  masked-level machine = ground (arith, ap level in_machine)

  masked-is_taken : (t : Bool) (code : ℕ) → is_taken cpu t pending code ≡ false
  masked-is_taken t code = elim (Bool-cases (is_taken cpu t pending code)) [
    | inl e ↦ absurd (
        ground (
          arith,
          is_taken-enabled cpu t pending code e,
          masked-level (delegate_target cpu (bit_or interrupt_bit code) true),
        ))
    | inr e ↦ e
  ]

  masked-scan : (t : Bool) (codes : List ℕ) → scan cpu t pending codes ≡ none
  unfolding scan
  masked-scan t [] = refl
  masked-scan t (c ∷ codes) = ground (arith, masked-is_taken t c, masked-scan t codes)

  masked-select : select cpu pending ≡ none
  unfolding select
  masked-select =
      ap (λ o. or_else o (scan cpu false pending priority)) (masked-scan true priority)
      ∙ masked-scan false priority

chosen :
    (cpu : Cpu) (pending c : ℕ)
    → IsSelected cpu pending (some c)
    → interrupt_globally_enabled cpu (delegate_target cpu (bit_or interrupt_bit c) true) ≡ true
chosen cpu pending c (inl (r, t, n)) =
    is_taken-enabled cpu true pending c (is_taken_machine cpu pending c (rank-lt c r) ∙ t)
chosen cpu pending c (inr (none_m, (r, t, n))) =
    is_taken-enabled cpu false pending c (is_taken_supervisor cpu pending c (rank-lt c r) ∙ t)

target :
    (cpu : Cpu) (pending c : ℕ)
    → select cpu pending ≡ some c
    → interrupt_globally_enabled cpu (delegate_target cpu (bit_or interrupt_bit c) true) ≡ true
target cpu pending c h = chosen cpu pending c (rw h at (select-IsSelected cpu pending))

enabled-level :
    (cpu : Cpu) (p : PrivilegeLevel)
    → interrupt_globally_enabled cpu p ≡ true
    → level cpu.csrs.current_privilege ≤ level p
unfolding interrupt_globally_enabled
enabled-level cpu p h = ground arith

pub vector-aligned : (tvec code : ℕ) → vector tvec code % 4 ≡ 0
unfolding vector
vector-aligned tvec code = ground (arith, aligned tvec)

-- After an interrupt: what `take_pending_interrupt` promises of the hart and of the result.
abbrev IsDelivered : Cpu → Cpu × CpuExecResult → Type 0
IsDelivered cpu after =
    (level cpu.csrs.current_privilege ≤ level after.0.csrs.current_privilege)
    × (after.1.next_pc % 4 ≡ 0)
    × (after.1.interrupt ≡ true)
    × (after.0.reservation.valid ≡ false)
    × (after.0.regs ≡ cpu.regs)

supervisor_target :
    (cpu : Cpu) (p : PrivilegeLevel)
    → is_supervisor p ≡ true
    → interrupt_globally_enabled cpu p ≡ true
    → level cpu.csrs.current_privilege ≤ 1
supervisor_target cpu supervisor e h = enabled-level cpu supervisor h
supervisor_target cpu user e h = absurd (ground arith)
supervisor_target cpu reserved e h = absurd (ground arith)
supervisor_target cpu machine e h = absurd (ground arith)

deliver-IsDelivered :
    (cpu : Cpu) (r : CpuExecResult) (c : ℕ)
    → interrupt_globally_enabled cpu (delegate_target cpu (bit_or interrupt_bit c) true) ≡ true
    → IsDelivered cpu (deliver cpu r c)
unfolding deliver clear enter_m_trap enter_s_trap
deliver-IsDelivered cpu r c h =
    let cause : ℕ = bit_or interrupt_bit c in
    elim (Bool-cases (is_supervisor (delegate_target cpu cause true))) [
      | inl e ↦ rw e (
        omega (
          arith,
          ap level (privilege-enter_s_trap cpu cause 0 cpu.pc),
          supervisor_target cpu (delegate_target cpu cause true) e h,
        ),
        vector-aligned (get (enter_s_trap cpu cause 0 cpu.pc).csrs Addr.stvec) c,
        refl,
        refl,
        refl,
      )
      | inr e ↦ rw e (
        omega (
          arith,
          ap level (privilege-enter_m_trap cpu cause 0 cpu.pc),
          level-le cpu.csrs.current_privilege,
        ),
        vector-aligned (get (enter_m_trap cpu cause 0 cpu.pc).csrs Addr.mtvec) c,
        refl,
        refl,
        refl,
      )
    ]

-- Either nothing changes or an interrupt is delivered.
abbrev pub IsSampled : Cpu → CpuExecResult → Bool × Cpu × CpuExecResult → Type 0
IsSampled cpu r (taken, cpu', r') =
    ((taken ≡ false) × (cpu' ≡ cpu) × (r' ≡ r)) ⊎ ((taken ≡ true) × IsDelivered cpu (cpu', r'))

sampled :
    (cpu : Cpu) (r : CpuExecResult) (pending : ℕ) (o : Option ℕ)
    → select cpu pending ≡ o
    → IsSampled cpu r (delivered cpu r o)
sampled cpu r pending none h = inl (refl, refl, refl)
sampled cpu r pending (some c) h = inr (refl, deliver-IsDelivered cpu r c (target cpu pending c h))

-- `take_pending_interrupt` either reports that it took none and changes nothing, or delivers one: then
-- the privilege is not lowered, the next pc is a multiple of 4, the result is marked as an interrupt,
-- the reservation is dropped and the registers are kept.
pub take_pending_interrupt-IsSampled :
    (cpu : Cpu) (r : CpuExecResult) → IsSampled cpu r (take_pending_interrupt cpu r)
unfolding take_pending_interrupt
take_pending_interrupt-IsSampled cpu r =
    let pending : ℕ = bit_and (get cpu.csrs Addr.mip) (get cpu.csrs Addr.mie) in
    elim (Bool-cases (pending == 0)) [
      | inl e ↦ rw e (inl (refl, refl, refl))
      | inr e ↦ rw e (sampled cpu r pending (select cpu pending) refl)
    ]

-- A hart in M-mode whose mstatus.MIE is off takes no interrupt, whatever is pending and enabled.
take_pending_interrupt-masked :
    (cpu : Cpu) (r : CpuExecResult)
    → cpu.csrs.current_privilege ≡ machine
    → bit_and (get cpu.csrs Addr.mstatus) mstatus_mie ≡ 0
    → take_pending_interrupt cpu r ≡ (false, cpu, r)
unfolding take_pending_interrupt
take_pending_interrupt-masked cpu r h m =
    let pending : ℕ = bit_and (get cpu.csrs Addr.mip) (get cpu.csrs Addr.mie) in
    elim (Bool-cases (pending == 0)) [
      | inl e ↦ rw e refl
      | inr e ↦ rw e (ap (delivered cpu r) (masked-select cpu pending h m))
    ]
