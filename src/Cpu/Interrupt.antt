-- ===== src/Cpu/Interrupt.antt =====
-- riscv_cpu.hpp: sampling of pending interrupts before a step.
use rv32_complete_v.Common.Exception.{interrupt_bit}
use rv32_complete_v.Zicsr.Addr
use rv32_complete_v.Zicsr.File.{get}
use rv32_complete_v.Cpu.State.{Cpu, CpuExecResult}
use rv32_complete_v.Cpu.Trap.{
  is_machine, is_supervisor, delegate_target, interrupt_globally_enabled, enter_m_trap,
  enter_s_trap,
}
use rv32_complete_v.Prelude.{
  ◌&&◌, ◌*◌, ◌!=◌, add32, ◌==◌, shl32, [], not, true, not32, if◌then◌else◌, ◌∷◌, some, none, false,
  List, Option, bit_or, Bool, bit_and, ℕ,
}

-- MEI > MSI > MTI > SEI > SSI > STI.
abbrev pub priority : List ℕ
priority = 11 ∷ 3 ∷ 7 ∷ 9 ∷ 1 ∷ 5 ∷ []

-- The three `continue` tests of the loop's body, for the pass that takes traps to M-mode or for the
-- one that takes the others.
abbrev pub same : Bool → Bool → Bool
same true b = b
same false b = not b

unfoldable pub is_taken : Cpu → Bool → ℕ → ℕ → Bool
unfolding delegate_target interrupt_globally_enabled
is_taken cpu to_machine pending code =
    let target = delegate_target cpu (bit_or interrupt_bit code) true in
    bit_and pending (shl32 1 code) != 0
    && same to_machine (is_machine target)
    && interrupt_globally_enabled cpu target

-- One pass over the codes: the first that passes the tests.
unfoldable pub scan : Cpu → Bool → ℕ → List ℕ → Option ℕ
unfolding is_taken
scan cpu to_machine pending [] = none
scan cpu to_machine pending (code ∷ codes) =
    if is_taken cpu to_machine pending code then some code else scan cpu to_machine pending codes

abbrev pub or_else : Option ℕ → Option ℕ → Option ℕ
or_else (some c) other = some c
or_else none other = other

-- The code that the two passes select.
unfoldable pub select : Cpu → ℕ → Option ℕ
unfolding scan
select cpu pending = or_else (scan cpu true pending priority) (scan cpu false pending priority)

unfoldable pub vector : ℕ → ℕ → ℕ
vector tvec code =
    let base = bit_and tvec (not32 0x3) in
    if bit_and tvec 0x3 == 1 then add32 base (4 * code) else base

unfoldable pub deliver : Cpu → CpuExecResult → ℕ → Cpu × CpuExecResult
unfolding delegate_target enter_s_trap enter_m_trap vector get
deliver cpu result code =
    let cause = bit_or interrupt_bit code in
    let taken = record result {
      interrupt = true;
      trap_cause = cause;
      trap_value = 0;
      instr_size = 0;
    } in
    let to_s = enter_s_trap cpu cause 0 cpu.pc in
    let to_m = enter_m_trap cpu cause 0 cpu.pc in
    if is_supervisor (delegate_target cpu cause true)
    then (to_s, record taken { next_pc = vector (get to_s.csrs Addr.stvec) code })
    else (to_m, record taken { next_pc = vector (get to_m.csrs Addr.mtvec) code })

abbrev pub delivered : Cpu → CpuExecResult → Option ℕ → Bool × Cpu × CpuExecResult
delivered cpu result none = (false, cpu, result)
delivered cpu result (some code) = let (c, r) = deliver cpu result code in (true, c, r)

-- Whether an interrupt was taken, the hart and the result record.
unfoldable pub take_pending_interrupt : Cpu → CpuExecResult → Bool × Cpu × CpuExecResult
unfolding get select deliver
take_pending_interrupt cpu result =
    let pending = bit_and (get cpu.csrs Addr.mip) (get cpu.csrs Addr.mie) in
    if pending == 0 then (false, cpu, result) else delivered cpu result (select cpu pending)
