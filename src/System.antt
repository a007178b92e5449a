-- ===== src/System.antt =====
-- riscv_cpu.hpp, class `System`: a hart and its memory.
use rv32_complete_v.Prelude.{
  Option, none, some, ℕ, suc, ◌+◌, ◌*◌, Bool, true, false, Option, none, some, List, [], ◌∷◌, u32,
}
use rv32_complete_v.Common.Memory
use rv32_complete_v.Common.Memory.{SimpleMemory, memory_bus}
use rv32_complete_v.Rv32f.Host.{Host}
use rv32_complete_v.Cpu.State as State
use rv32_complete_v.Cpu.State.{Cpu, CpuExecResult}
use rv32_complete_v.Cpu.Step as Step

pub record System : Type 0 where
  pub cpu : Cpu
  pub memory : SimpleMemory

module _ (host : Host) where
  unfoldable pub step : System → CpuExecResult × System
  unfolding Step.step memory_bus
  step sys =
      let s = Step.step host memory_bus sys.cpu sys.memory in
      (s.result, record { cpu = s.cpu; memory = s.bus })

  unfoldable pub run : ℕ → Bool → System → ℕ × System
  unfolding Step.run memory_bus
  run max_instructions stop_on_trap sys =
      let r = Step.run host memory_bus max_instructions stop_on_trap sys.cpu sys.memory in
      (r.count, record { cpu = r.cpu; memory = r.bus })

abbrev with_memory : System → Option SimpleMemory → Option System
with_memory sys none = none
with_memory sys (some m) = some (record sys { memory = m })

-- `load_program` with bytes. `none` is the thrown exception.
unfoldable pub load_bytes : System → ℕ → List ℕ → Option System
unfolding Memory.load
load_bytes sys addr src = with_memory sys (Memory.load sys.memory addr src)

-- The loop goes on only after a write that did not throw.
abbrev after_write :
    SimpleMemory → Option SimpleMemory → (SimpleMemory → Bool × SimpleMemory) → Bool × SimpleMemory
after_write m none next = (false, m)
after_write m (some m') next = next m'

-- `load_program` with instructions, from the index `i` on: whether it ended without an exception, and the memory.
unfoldable pub load_words : SimpleMemory → ℕ → ℕ → List ℕ → Bool × SimpleMemory
unfolding Memory.write32
load_words m addr i [] = (true, m)
load_words m addr i (word ∷ rest) =
    let written = Memory.write32 m (u32 (addr + i * 4)) word in
    after_write m written (λ m'. load_words m' addr (suc i) rest)

unfoldable pub reset : System → System
unfolding State.reset Memory.clear
reset sys = record { cpu = State.reset sys.cpu; memory = Memory.clear sys.memory }
