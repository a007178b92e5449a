-- ===== src/Cpu/EvenRun.antt =====
-- riscv_cpu.hpp: from a reset on, the pc is even.
use rv32_complete_v.Common.Bus.{Bus}
use rv32_complete_v.Zicsr.Addr
use rv32_complete_v.Zicsr.File
use rv32_complete_v.Zicsr.File.{CsrFile, get, set_f_extension, set_misa, init_storage}
use rv32_complete_v.Rv32f.Host.{Host}
use rv32_complete_v.Cpu.State.{Cpu, CpuExecResult, CpuConfig, reset, reset_csrs, misa_value}
use rv32_complete_v.Cpu.Interrupt.{take_pending_interrupt, select}
use rv32_complete_v.Cpu.Counters.{begin_step, bump_cycle}
use rv32_complete_v.Cpu.EvenCsrs.{IsEvenFile, IsEven, write-IsEvenFile, set-IsEvenFile}
use rv32_complete_v.Cpu.EvenPc.{
  IsEvenHart, IsBegun, bump-IsEvenFile, deliver-IsEvenHart, first-IsEvenHart,
}
use rv32_complete_v.Cpu.Step.{begun, step, run, stops, Ran}
use rv32_complete_v.Prelude.{
  if_either, ℕ, zero, suc, ◌%◌, bit_and, ◌≡◌, refl, inl, inr, Bool, true, false, arith, ◌==◌,
  Bool-cases, Option-cases, not32,
}

taken-IsEvenHart :
    (cpu : Cpu) (r : CpuExecResult)
    → IsEven cpu r
    → IsEvenHart (bump_cycle (record cpu { pc = r.next_pc }))
unfolding bump_cycle
taken-IsEvenHart cpu r e = record {
  pc_even = e.next_pc;
  file_even = bump-IsEvenFile cpu.csrs Addr.mcycle Addr.mcycleh refl refl refl refl e.file;
}

begin_step-IsBegun : (cpu : Cpu) → IsEvenHart cpu → IsBegun cpu (begin_step cpu)
unfolding begin_step take_pending_interrupt
begin_step-IsBegun cpu e =
    let pending : ℕ = bit_and (get cpu.csrs Addr.mip) (get cpu.csrs Addr.mie) in
    elim (Bool-cases (pending == 0)) [
      | inl p ↦ rw p (inl (refl, refl, refl))
      | inr p ↦ elim (Option-cases (select cpu pending)) [
        | inl f ↦ rw (p, f) (inl (refl, refl, refl))
        | inr (c, f) ↦
            rw (p, f)
              (inr (refl, taken-IsEvenHart _ _ (deliver-IsEvenHart cpu fresh c e.file_even)))
      ]
    ]
  where
    fresh : CpuExecResult
    fresh = record {
      pc = cpu.pc;
      next_pc = cpu.pc;
      instruction = 0;
      instr_size = 4;
      branch_taken = false;
      trap = false;
      interrupt = false;
      trap_cause = 0;
      trap_value = 0;
    }

init_storage-IsEvenFile : (f : CsrFile) → f.mepc_mask % 2 ≡ 0 → IsEvenFile (init_storage f)
unfolding init_storage get
init_storage-IsEvenFile f h = record { mask = h; mepc = ground arith; sepc = ground arith }

reset-IsEvenFile : (f : CsrFile) → f.mepc_mask % 2 ≡ 0 → IsEvenFile (File.reset f)
unfolding File.reset get
reset-IsEvenFile f h =
    let e = init_storage-IsEvenFile f h in record { mask = e.mask; mepc = e.mepc; sepc = e.sepc }

reset_csrs-IsEvenFile : (c : CpuConfig) (f : CsrFile) → IsEvenFile (reset_csrs c f)
unfolding reset_csrs set_misa
reset_csrs-IsEvenFile c f = set-IsEvenFile _ Addr.misa (misa_value c) refl refl (
    write-IsEvenFile _ Addr.mtvec c.mtvec_reset (
      reset-IsEvenFile _
        (if_either (λ (x : ℕ). x % 2 ≡ 0) c.enable_c_extension (not32 1) (not32 3) refl refl)))

-- A reset makes the hart even, whatever it was, if the reset vector is even.
reset-IsEvenHart : (cpu : Cpu) → cpu.config.reset_vector % 2 ≡ 0 → IsEvenHart (reset cpu)
unfolding reset
reset-IsEvenHart cpu h = record {
  pc_even = h;
  file_even = reset_csrs-IsEvenFile cpu.config cpu.csrs;
}

module _ {B : Type 0} (host : Host) (bus : Bus B) where
  begun-IsEvenHart :
      (cpu : Cpu) (m : B) (taken : Bool) (cpu' : Cpu) (r : CpuExecResult)
      → IsEvenHart cpu
      → IsBegun cpu (taken, cpu', r)
      → IsEvenHart (begun host bus (taken, cpu', r) m).cpu
  unfolding begun
  begun-IsEvenHart cpu m true cpu' r e (inl (n, same, next)) = cc
  begun-IsEvenHart cpu m true cpu' r e (inr (n, h)) = h
  begun-IsEvenHart cpu m false cpu' r e (inr (n, h)) = cc
  begun-IsEvenHart cpu m false cpu' r e (inl (n, same, next)) = rw same (
      first-IsEvenHart host bus cpu e r (bus.fetch16 m cpu.pc).0 (bus.fetch16 m cpu.pc).1
        (omega (arith, next, e.pc_even)))

  pub step-IsEvenHart : (cpu : Cpu) (m : B) → IsEvenHart cpu → IsEvenHart (step host bus cpu m).cpu
  unfolding step
  step-IsEvenHart cpu m e =
      let (taken, cpu', r) = begin_step cpu in
      begun-IsEvenHart cpu m taken cpu' r e (begin_step-IsBegun cpu e)

  pub run-IsEvenHart :
      (n : ℕ) (stop_on_trap : Bool) (cpu : Cpu) (m : B)
      → IsEvenHart cpu
      → IsEvenHart (run host bus n stop_on_trap cpu m).cpu
  unfolding run
  run-IsEvenHart zero stop_on_trap cpu m e = e
  run-IsEvenHart (suc n) stop_on_trap cpu m e =
      let s = step host bus cpu m in
      let next = step-IsEvenHart cpu m e in
      if_either (λ (r : Ran B). IsEvenHart r.cpu) (stops stop_on_trap s.result) _ _ next
        (run-IsEvenHart n stop_on_trap s.cpu s.bus next)

  -- From a reset with an even reset vector on, the pc is even after any number of steps on any bus, whatever
  -- instructions, traps, interrupts and returns they are.
  pub run-reset-even :
      (n : ℕ) (stop_on_trap : Bool) (cpu : Cpu) (m : B)
      → cpu.config.reset_vector % 2 ≡ 0
      → (run host bus n stop_on_trap (reset cpu) m).cpu.pc % 2 ≡ 0
  run-reset-even n stop_on_trap cpu m h =
      (run-IsEvenHart n stop_on_trap (reset cpu) m (reset-IsEvenHart cpu h)).pc_even
