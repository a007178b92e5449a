-- ===== src/Cpu/Counters.antt =====
-- riscv_cpu.hpp: the 64-bit counters, the prologue and the end of a step.
use rv32_complete_v.Zicsr.Addr
use rv32_complete_v.Zicsr.File.{CsrFile, get, set}
use rv32_complete_v.Cpu.State.{Cpu, CpuExecResult}
use rv32_complete_v.Cpu.Interrupt.{take_pending_interrupt}
use rv32_complete_v.Prelude.{
  ◌/◌, u32, ◌+◌, ◌^◌, ◌*◌, true, not, false, bit_or, Bool, u64, if◌then◌else◌, ℕ,
}

-- The body that `bump_cycle` and `bump_instret` share, for the registers `lo` and `hi`.
unfoldable pub bump : CsrFile → ℕ → ℕ → CsrFile
unfolding get set
bump f lo hi =
    let count = u64 (bit_or (u64 (get f hi * 2 ^ 32)) (get f lo) + 1) in
    set (set f lo (u32 count)) hi (u32 (count / 2 ^ 32))

unfoldable pub bump_cycle : Cpu → Cpu
unfolding bump
bump_cycle cpu = record cpu { csrs = bump cpu.csrs Addr.mcycle Addr.mcycleh }

unfoldable pub bump_instret : Cpu → Cpu
unfolding bump
bump_instret cpu = record cpu { csrs = bump cpu.csrs Addr.minstret Addr.minstreth }

unfoldable pub finish_step : Cpu → CpuExecResult → Cpu
unfolding bump_cycle bump_instret
finish_step cpu result =
    let moved = bump_cycle (record cpu { pc = result.next_pc }) in
    if not result.trap then bump_instret moved else moved

-- `begin_step`: whether an interrupt was taken and the step is complete.
unfoldable pub begin_step : Cpu → Bool × Cpu × CpuExecResult
unfolding take_pending_interrupt bump_cycle
begin_step cpu =
    let result : CpuExecResult = record {
      pc = cpu.pc;
      next_pc = cpu.pc;
      instruction = 0;
      instr_size = 4;
      branch_taken = false;
      trap = false;
      interrupt = false;
      trap_cause = 0;
      trap_value = 0;
    } in
    let (taken, cpu', result') = take_pending_interrupt cpu result in
    if taken
    then (true, bump_cycle (record cpu' { pc = result'.next_pc }), result')
    else (false, cpu', result')
