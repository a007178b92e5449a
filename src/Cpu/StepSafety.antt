-- ===== src/Cpu/StepSafety.antt =====
-- riscv_cpu.hpp, `step`: precise traps, and privilege across a step.
use rv32_complete_v.Prelude.{
  ℕ, ◌≤◌, bit_and, bit_or, ◌≡◌, refl, ◌⊎◌, inl, inr, Bool, true, false, Option, none, some, ◌==◌,
  Bool-cases, Option-cases,
}
use rv32_complete_v.Common.Exception.{level, interrupt_bit}
use rv32_complete_v.Common.Bus.{Bus}
use rv32_complete_v.Zicsr.Addr
use rv32_complete_v.Zicsr.File.{get}
use rv32_complete_v.Rv32f.Host.{Host}
use rv32_complete_v.Cpu.State.{Cpu, CpuExecResult}
use rv32_complete_v.Cpu.Trap.{is_supervisor, delegate_target, enter_m_trap, enter_s_trap}
use rv32_complete_v.Cpu.Interrupt.{take_pending_interrupt, select, deliver}
use rv32_complete_v.Cpu.Counters.{begin_step, bump_cycle}
use rv32_complete_v.Cpu.Dispatch.{Stepped}
use rv32_complete_v.Cpu.Step.{begun, step, step_opcode, injected}
use rv32_complete_v.Cpu.Contained.{IsContained}
use rv32_complete_v.Cpu.ContainedFetch.{fetched_first-IsContained, execute_fetched-IsContained}

-- An interrupt touches neither register file nor the configuration, and marks the result.
deliver-same :
    (cpu : Cpu) (r : CpuExecResult) (c : ℕ)
    → ((deliver cpu r c).0.regs ≡ cpu.regs)
      × ((deliver cpu r c).0.fregs ≡ cpu.fregs)
      × ((deliver cpu r c).0.config ≡ cpu.config)
      × ((deliver cpu r c).1.interrupt ≡ true)
unfolding deliver enter_m_trap enter_s_trap
deliver-same cpu r c =
    elim (Bool-cases (is_supervisor (delegate_target cpu (bit_or interrupt_bit c) true))) [
      | inl e ↦ rw e (refl, refl, refl, refl)
      | inr e ↦ rw e (refl, refl, refl, refl)
    ]

-- What `begin_step` returns: no interrupt, the hart as it was and a fresh result; or an interrupt.
abbrev IsBegun : Cpu → Bool × Cpu × CpuExecResult → Type 0
IsBegun cpu (taken, cpu', r') =
    ((taken ≡ false) × (cpu' ≡ cpu) × (r'.trap ≡ false))
    ⊎ ((taken ≡ true)
        × (cpu'.regs ≡ cpu.regs)
        × (cpu'.fregs ≡ cpu.fregs)
        × (cpu'.config ≡ cpu.config)
        × (r'.interrupt ≡ true))

bump_cycle-same :
    (cpu : Cpu)
    → ((bump_cycle cpu).regs ≡ cpu.regs)
      × ((bump_cycle cpu).fregs ≡ cpu.fregs)
      × ((bump_cycle cpu).config ≡ cpu.config)
unfolding bump_cycle
bump_cycle-same cpu = (refl, refl, refl)

begin_step-IsBegun : (cpu : Cpu) → IsBegun cpu (begin_step cpu)
unfolding begin_step take_pending_interrupt
begin_step-IsBegun cpu =
    let pending : ℕ = bit_and (get cpu.csrs Addr.mip) (get cpu.csrs Addr.mie) in
    elim (Bool-cases (pending == 0)) [
      | inl e ↦ rw e (inl (refl, refl, refl))
      | inr e ↦ elim (Option-cases (select cpu pending)) [
        | inl f ↦ rw (e, f) (inl (refl, refl, refl))
        | inr (c, f) ↦ rw (e, f) (inr (taken c))
      ]
    ]
  where
    fresh : CpuExecResult
    fresh = record {
      pc = cpu.pc;
      next_pc = cpu.pc;
      instruction = 0;
      instr_size = 4;
      branch_taken = false;
      trap = false;
      interrupt = false;
      trap_cause = 0;
      trap_value = 0;
    }

    taken :
        (c : ℕ)
        → (true ≡ true)
          × ((deliver cpu fresh c).0.regs ≡ cpu.regs)
          × ((deliver cpu fresh c).0.fregs ≡ cpu.fregs)
          × ((deliver cpu fresh c).0.config ≡ cpu.config)
          × ((deliver cpu fresh c).1.interrupt ≡ true)
    taken c = let (a, b, k, i) = deliver-same cpu fresh c in (refl, a, b, k, i)

-- Across a step: a synchronous exception leaves both register files as they were; the configuration
-- never changes; and without an exception or an interrupt the privilege does not rise.
record IsSafe {B : Type 0} (before : Cpu) (s : Stepped B) : Type 0 where
  precise : s.result.trap ≡ true → (s.cpu.regs ≡ before.regs) × (s.cpu.fregs ≡ before.fregs)
  configured : s.cpu.config ≡ before.config
  not_raised :
      s.result.trap ≡ false
      → s.result.interrupt ≡ false
      → level s.cpu.csrs.current_privilege ≤ level before.csrs.current_privilege

contained-IsSafe : {B : Type 0} (cpu : Cpu) (s : Stepped B) → IsContained cpu s → IsSafe cpu s
contained-IsSafe cpu s i = record {
  precise = λ t. (i.regs_kept t, i.fregs_kept t);
  configured = i.config_kept;
  not_raised = λ t n. i.not_raised t;
}

interrupted-IsSafe :
    {B : Type 0} (cpu cpu' : Cpu) (r : CpuExecResult) (m : B)
    → cpu'.regs ≡ cpu.regs
    → cpu'.fregs ≡ cpu.fregs
    → cpu'.config ≡ cpu.config
    → r.interrupt ≡ true
    → IsSafe cpu (record { cpu = cpu'; result = r; bus = m })
interrupted-IsSafe cpu cpu' r m a b c i = record {
  precise = λ t. (a, b);
  configured = c;
  not_raised = λ t n. cc;
}

module _ {B : Type 0} (host : Host) (bus : Bus B) (cpu : Cpu) (m : B) where
  begun-IsSafe :
      (taken : Bool) (cpu' : Cpu) (r : CpuExecResult)
      → IsBegun cpu (taken, cpu', r)
      → IsSafe cpu (begun host bus (taken, cpu', r) m)
  unfolding begun
  begun-IsSafe true cpu' r (inl (n, same, quiet)) = cc
  begun-IsSafe true cpu' r (inr (n, a, b, c, i)) = interrupted-IsSafe cpu cpu' r m a b c i
  begun-IsSafe false cpu' r (inr (n, a, b, c, i)) = cc
  begun-IsSafe false cpu' r (inl (n, same, quiet)) = rw same (
      contained-IsSafe cpu _ (
        fetched_first-IsContained host bus cpu r (bus.fetch16 m cpu.pc).0 (bus.fetch16 m cpu.pc).1
          quiet))

  injected-IsSafe :
      (opcode : ℕ) (taken : Bool) (cpu' : Cpu) (r : CpuExecResult)
      → IsBegun cpu (taken, cpu', r)
      → IsSafe cpu (injected host bus (taken, cpu', r) m opcode)
  unfolding injected
  injected-IsSafe opcode true cpu' r (inl (n, same, quiet)) = cc
  injected-IsSafe opcode true cpu' r (inr (n, a, b, c, i)) = interrupted-IsSafe cpu cpu' r m a b c i
  injected-IsSafe opcode false cpu' r (inr (n, a, b, c, i)) = cc
  injected-IsSafe opcode false cpu' r (inl (n, same, quiet)) = rw same (
      contained-IsSafe cpu _ (
        execute_fetched-IsContained host bus cpu (record r { instruction = opcode }) m opcode
          (bit_and opcode 0x3 == 0x3) quiet))

  -- `step(bus)`, or `step(bus, opcode)` for an opcode.
  abbrev pub step_of : Option ℕ → Stepped B
  step_of none = step host bus cpu m
  step_of (some opcode) = step_opcode host bus cpu m opcode

  step_of-IsSafe : (source : Option ℕ) → IsSafe cpu (step_of source)
  unfolding step step_opcode
  step_of-IsSafe none =
      let (taken, cpu', r) = begin_step cpu in begun-IsSafe taken cpu' r (begin_step-IsBegun cpu)
  step_of-IsSafe (some opcode) =
      let (taken, cpu', r) = begin_step cpu in
      injected-IsSafe opcode taken cpu' r (begin_step-IsBegun cpu)

  -- A step, fetched or with a given opcode, that takes a synchronous exception leaves both register files and
  -- the configuration as they were, whatever the instruction and the bus.
  pub step-trapped :
      (source : Option ℕ)
      → (step_of source).result.trap ≡ true
      → ((step_of source).cpu.regs ≡ cpu.regs)
        × ((step_of source).cpu.fregs ≡ cpu.fregs)
        × ((step_of source).cpu.config ≡ cpu.config)
  step-trapped source t =
      let safe = step_of-IsSafe source in ((safe.precise t).0, (safe.precise t).1, safe.configured)

  -- A step, fetched or with a given opcode, that takes neither a synchronous exception nor an interrupt does
  -- not raise the privilege, whatever the instruction and the bus.
  pub step-not_raised :
      (source : Option ℕ)
      → (step_of source).result.trap ≡ false
      → (step_of source).result.interrupt ≡ false
      → level (step_of source).cpu.csrs.current_privilege ≤ level cpu.csrs.current_privilege
  step-not_raised source t n = (step_of-IsSafe source).not_raised t n
