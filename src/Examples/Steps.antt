-- ===== src/Examples/Steps.antt =====
-- Tests of `step` and `run` of riscv_cpu.hpp.
use rv32_complete_v.Rv32i.Decode.{decode_system}
use rv32_complete_v.Zicond.{is_zicond_instruction}
use rv32_complete_v.Zbs.{is_zbs_instruction}
use rv32_complete_v.Zbb.{is_zbb_instruction}
use rv32_complete_v.Zba.{is_zba_instruction}
use rv32_complete_v.Rv32f.Decode.{is_f_instruction}
use rv32_complete_v.Rv32a.{is_atomic_instruction}
use rv32_complete_v.Rv32m.{is_m_instruction}
use rv32_complete_v.Zicsr.Execute.{is_csr_instruction}
use rv32_complete_v.Zifencei.{is_zifencei_instruction}
use rv32_complete_v.Rv32c.Decode.{addi4spn_imm}
use rv32_complete_v.Rv32c.Decode.{decode_c0}
use rv32_complete_v.Rv32fc.{is_compressed_float}
use rv32_complete_v.Cpu.State.{reset}
use rv32_complete_v.Cpu.EvenRun.{run-reset-even}
use rv32_complete_v.Prelude.{◌⊎◌, ◌%◌, false, ◌≤◌, ◌≡◌, refl, true, none, some}
use rv32_complete_v.Common.Exception.{machine, level}
use rv32_complete_v.Examples.Integer.{latch}
use rv32_complete_v.Examples.Machine.{hart}
use rv32_complete_v.Examples.Short.{host}
use rv32_complete_v.Cpu.State.{Cpu, CpuExecResult}
use rv32_complete_v.Cpu.Step.{step, step_opcode, run}
use rv32_complete_v.Cpu.Run.{IsRun, run-IsRun}
use rv32_complete_v.Cpu.Dispatch.{execute_32bit}
use rv32_complete_v.Cpu.Disabled.{is_enabled, raised, execute_32bit-raised}
use rv32_complete_v.Cpu.Claims.{claims, IsIllegal, claims_lem}
use rv32_complete_v.Cpu.StepSafety.{step_of, step-trapped, step-not_raised}

-- A hart in M-mode with interrupts off.
abbrev quiet : Cpu
quiet = hart machine 0

-- `c.addi x10, 1` in every place of the memory.
run-IsRun_example : IsRun host latch 3 true quiet 0x0505 (run host latch 3 true quiet 0x0505)
run-IsRun_example = run-IsRun host latch 3 true quiet 0x0505

-- The illegal instruction 0.
step-trapped_example :
    ((step_of host latch quiet 0 none).cpu.regs ≡ quiet.regs)
    × ((step_of host latch quiet 0 none).cpu.fregs ≡ quiet.fregs)
    × ((step_of host latch quiet 0 none).cpu.config ≡ quiet.config)
unfolding step is_compressed_float decode_c0 addi4spn_imm
step-trapped_example = step-trapped host latch quiet 0 none refl

-- MRET.
step-not_raised_example :
    level (step_of host latch quiet 0 (some 0x3020_0073)).cpu.csrs.current_privilege ≤ 3
unfolding step_opcode is_zifencei_instruction is_csr_instruction is_m_instruction
    is_atomic_instruction is_f_instruction is_zba_instruction is_zbb_instruction is_zbs_instruction
    is_zicond_instruction decode_system
step-not_raised_example = step-not_raised host latch quiet 0 (some 0x3020_0073) refl refl

run-reset-even_example : (run host latch 3 false (reset quiet) 0x0505).cpu.pc % 2 ≡ 0
run-reset-even_example = run-reset-even host latch 3 false quiet 0x0505 refl

-- MUL x1, x2, x3.
claims_lem_example :
    (claims 0x0231_00b3 ≡ 0) ⊎ ((claims 0x0231_00b3 ≡ 1) × IsIllegal true 0x0231_00b3)
claims_lem_example = claims_lem true 0x0231_00b3

-- A hart without the M extension.
abbrev without_m : Cpu
without_m = record quiet { config = record quiet.config { enable_m_extension = false } }

abbrev fetched : CpuExecResult
fetched = record {
  pc = 0x400;
  next_pc = 0x400;
  instruction = 0x0231_00b3;
  instr_size = 4;
  branch_taken = false;
  trap = false;
  interrupt = false;
  trap_cause = 0;
  trap_value = 0;
}

execute_32bit-raised_example :
    execute_32bit host latch without_m fetched 0 0x0231_00b3
    ≡ raised host latch without_m fetched 0 0x0231_00b3
unfolding claims is_m_instruction is_atomic_instruction is_f_instruction is_zba_instruction
    is_zbb_instruction is_zbs_instruction is_zicond_instruction is_enabled
execute_32bit-raised_example =
    execute_32bit-raised host latch without_m fetched 0 0x0231_00b3 refl refl
