-- ===== src/Cpu/Step.antt =====
-- riscv_cpu.hpp: both forms of `step`, and `run`.
use rv32_complete_v.Prelude.{
  ℕ, zero, suc, bit_and, bit_or, Bool, true, false, not, ◌&&◌, ◌||◌, Option, none, some, ◌==◌,
  if◌then◌else◌, u16, add32, shl32,
}
use rv32_complete_v.Common.Exception.{instr_access_fault, illegal_instruction}
use rv32_complete_v.Common.Bus.{Bus}
use rv32_complete_v.Rv32f.Host.{Host}
use rv32_complete_v.Cpu.State.{Cpu, CpuExecResult}
use rv32_complete_v.Cpu.Counters.{begin_step, finish_step}
use rv32_complete_v.Cpu.Dispatch.{Stepped, raise, execute_32bit, execute_compressed}

unfoldable pub finished : {B : Type 0} → Stepped B → Stepped B
unfolding finish_step
finished s = record s { cpu = finish_step s.cpu s.result }

-- The steps that were counted, and what they left.
pub record Ran (B : Type 0) : Type 0 where
  pub count : ℕ
  pub cpu : Cpu
  pub bus : B

abbrev pub stops : Bool → CpuExecResult → Bool
stops stop_on_trap r = stop_on_trap && (r.trap || r.interrupt)

module _ {B : Type 0} (host : Host) (bus : Bus B) where
  -- A compressed instruction of `execute_fetched`, up to `finish_step`.
  unfoldable pub execute_half : Cpu → CpuExecResult → B → ℕ → Stepped B
  unfolding raise execute_compressed
  execute_half cpu result m instr =
      let sized = record result { instr_size = 2 } in
      if not cpu.config.enable_c_extension
      then raise cpu sized m illegal_instruction (bit_and instr 0xffff)
      else execute_compressed host bus cpu sized m (u16 instr)

  unfoldable pub execute_fetched : Cpu → CpuExecResult → B → ℕ → Bool → Stepped B
  unfolding finished execute_half execute_32bit
  execute_fetched cpu result m instr is_32bit = finished (
      if not is_32bit
      then execute_half cpu result m instr
      else execute_32bit host bus cpu result m instr)

  -- After the second fetch.
  unfoldable pub fetched_second : Cpu → CpuExecResult → ℕ → Option ℕ × B → Stepped B
  unfolding finished raise execute_fetched
  fetched_second cpu result parcel0 (none, m) =
      finished (raise cpu result m instr_access_fault (add32 cpu.pc 2))
  fetched_second cpu result parcel0 (some parcel1, m) =
      let instr = bit_or parcel0 (shl32 parcel1 16) in
      execute_fetched cpu (record result { instruction = instr }) m instr true

  -- After the first fetch.
  unfoldable pub fetched_first : Cpu → CpuExecResult → Option ℕ × B → Stepped B
  unfolding finished raise execute_fetched fetched_second
  fetched_first cpu result (none, m) = finished (raise cpu result m instr_access_fault cpu.pc)
  fetched_first cpu result (some parcel0, m) =
      if bit_and parcel0 0x3 == 0x3
      then fetched_second cpu result parcel0 (bus.fetch16 m (add32 cpu.pc 2))
      else execute_fetched cpu (record result { instruction = parcel0 }) m parcel0 false

  -- After `begin_step`.
  unfoldable pub begun : Bool × Cpu × CpuExecResult → B → Stepped B
  unfolding fetched_first
  begun (true, cpu, result) m = record { cpu = cpu; result = result; bus = m }
  begun (false, cpu, result) m = fetched_first cpu result (bus.fetch16 m cpu.pc)

  -- `step(bus)`.
  unfoldable pub step : Cpu → B → Stepped B
  unfolding begin_step begun
  step cpu m = begun (begin_step cpu) m

  unfoldable pub injected : Bool × Cpu × CpuExecResult → B → ℕ → Stepped B
  unfolding execute_fetched
  injected (true, cpu, result) m opcode = record { cpu = cpu; result = result; bus = m }
  injected (false, cpu, result) m opcode =
      execute_fetched cpu (record result { instruction = opcode }) m opcode
        (bit_and opcode 0x3 == 0x3)

  -- `step(bus, opcode)`.
  unfoldable pub step_opcode : Cpu → B → ℕ → Stepped B
  unfolding begin_step injected
  step_opcode cpu m opcode = injected (begin_step cpu) m opcode

  -- The loop of `run`, by the steps that are left to `max_instructions`.
  unfoldable pub run : ℕ → Bool → Cpu → B → Ran B
  unfolding step
  run zero stop_on_trap cpu m = record { count = 0; cpu = cpu; bus = m }
  run (suc n) stop_on_trap cpu m =
      let s = step cpu m in
      let rest = run n stop_on_trap s.cpu s.bus in
      if stops stop_on_trap s.result
      then record { count = 1; cpu = s.cpu; bus = s.bus }
      else record rest { count = suc rest.count }
