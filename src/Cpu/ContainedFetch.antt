-- ===== src/Cpu/ContainedFetch.antt =====
-- riscv_cpu.hpp: what a whole step can do to the hart.
use rv32_complete_v.Zicsr.File.{set}
use rv32_complete_v.Prelude.{
  if_either, ℕ, bit_and, bit_or, ◌≡◌, refl, ap, ◌∙◌, Bool, true, false, not, ◌&&◌, Option, none,
  some, arith, ◌==◌, u16, add32, shl32,
}
use rv32_complete_v.Common.Exception.{level}
use rv32_complete_v.Cpu.Counters.{finish_step, bump_cycle, bump_instret, bump}
use rv32_complete_v.Common.Exception.{level, illegal_instruction, instr_access_fault}
use rv32_complete_v.Common.Bus.{Bus}
use rv32_complete_v.Rv32c.Decode as C
use rv32_complete_v.Rv32c.Traps as CTraps
use rv32_complete_v.Rv32f.Host.{Host}
use rv32_complete_v.Rv32fc as Fc
use rv32_complete_v.Rv32fc.Traps as FcTraps
use rv32_complete_v.Cpu.State.{Cpu, CpuExecResult}
use rv32_complete_v.Cpu.Counters.{finish_step, bump_cycle, bump_instret, bump}
use rv32_complete_v.Cpu.Dispatch.{
  Stepped, execute_32bit, compressed_float_op, compressed_op, execute_compressed,
}
use rv32_complete_v.Cpu.Step.{
  finished, execute_half, execute_fetched, fetched_first, fetched_second,
}
use rv32_complete_v.Cpu.Contained.{IsContained, raise-IsContained, raise_unless-IsContained}
use rv32_complete_v.Cpu.ContainedStep.{dispatch-IsContained, true_of_not}

-- The end of a step changes the counters and the pc only.
finish_step-same :
    (cpu : Cpu) (r : CpuExecResult)
    → ((finish_step cpu r).regs ≡ cpu.regs)
      × ((finish_step cpu r).fregs ≡ cpu.fregs)
      × ((finish_step cpu r).config ≡ cpu.config)
      × ((finish_step cpu r).csrs.current_privilege ≡ cpu.csrs.current_privilege)
unfolding finish_step bump_cycle bump_instret bump set
finish_step-same cpu r = ground arith

finished-IsContained :
    {B : Type 0} (cpu : Cpu) (s : Stepped B) → IsContained cpu s → IsContained cpu (finished s)
unfolding finished
finished-IsContained cpu s i =
    let (regs_same, fregs_same, config_same, privilege_same) = finish_step-same s.cpu s.result in
    record {
      regs_kept = λ t. regs_same ∙ i.regs_kept t;
      fregs_kept = λ t. fregs_same ∙ i.fregs_kept t;
      config_kept = config_same ∙ i.config_kept;
      not_raised = λ t. omega (arith, ap level privilege_same, i.not_raised t);
    }

module _ {B : Type 0} (host : Host) (bus : Bus B) (cpu : Cpu) where
  compressed_float_op-IsContained :
      (r : CpuExecResult) (m : B) (instr : ℕ)
      → r.trap ≡ false
      → IsContained cpu (compressed_float_op host bus cpu r m instr)
  unfolding compressed_float_op
  compressed_float_op-IsContained r m instr quiet =
      raise_unless-IsContained cpu _ _ _ _ _ _ quiet refl refl (λ v. refl)
        (FcTraps.execute-fregs bus cpu.config.allow_misaligned_data (Fc.decode instr) cpu.regs
          cpu.fregs m)

  compressed_op-IsContained :
      (r : CpuExecResult) (m : B) (instr : ℕ)
      → r.trap ≡ false
      → IsContained cpu (compressed_op host bus cpu r m instr)
  unfolding compressed_op
  compressed_op-IsContained r m instr quiet =
      raise_unless-IsContained cpu _ _ _ _ _ _ quiet refl refl
        (λ v.
          CTraps.execute-regs bus cpu.config.allow_misaligned_data (C.decode instr) cpu.regs m
            cpu.pc (true_of_not _ v))
        (λ v. refl)

  execute_half-IsContained :
      (r : CpuExecResult) (m : B) (instr : ℕ)
      → r.trap ≡ false
      → IsContained cpu (execute_half host bus cpu r m instr)
  unfolding execute_half execute_compressed
  execute_half-IsContained r m instr quiet =
      let sized : CpuExecResult = record r { instr_size = 2 } in
      if_either (IsContained cpu) (not cpu.config.enable_c_extension) _ _
        (raise-IsContained cpu cpu sized m illegal_instruction (bit_and instr 0xffff) refl refl
          refl)
        (if_either (IsContained cpu)
          (cpu.config.enable_f_extension && Fc.is_compressed_float (u16 instr)) _ _
          (compressed_float_op-IsContained sized m (u16 instr) quiet)
          (compressed_op-IsContained sized m (u16 instr) quiet))

  pub execute_fetched-IsContained :
      (r : CpuExecResult) (m : B) (instr : ℕ) (is_32bit : Bool)
      → r.trap ≡ false
      → IsContained cpu (execute_fetched host bus cpu r m instr is_32bit)
  unfolding execute_fetched execute_32bit
  execute_fetched-IsContained r m instr is_32bit quiet = finished-IsContained cpu _ (
      if_either (IsContained cpu) (not is_32bit) _ _ (execute_half-IsContained r m instr quiet)
        (dispatch-IsContained host bus cpu (record r { next_pc = add32 cpu.pc 4 }) m quiet instr))

  fetched_second-IsContained :
      (r : CpuExecResult) (parcel0 : ℕ) (parcel1 : Option ℕ) (m : B)
      → r.trap ≡ false
      → IsContained cpu (fetched_second host bus cpu r parcel0 (parcel1, m))
  unfolding fetched_second
  fetched_second-IsContained r parcel0 none m quiet =
      finished-IsContained cpu _
        (raise-IsContained cpu cpu r m instr_access_fault (add32 cpu.pc 2) refl refl refl)
  fetched_second-IsContained r parcel0 (some parcel1) m quiet =
      let instr : ℕ = bit_or parcel0 (shl32 parcel1 16) in
      execute_fetched-IsContained (record r { instruction = instr }) m instr true quiet

  pub fetched_first-IsContained :
      (r : CpuExecResult) (parcel0 : Option ℕ) (m : B)
      → r.trap ≡ false
      → IsContained cpu (fetched_first host bus cpu r (parcel0, m))
  unfolding fetched_first
  fetched_first-IsContained r none m quiet =
      finished-IsContained cpu _
        (raise-IsContained cpu cpu r m instr_access_fault cpu.pc refl refl refl)
  fetched_first-IsContained r (some parcel0) m quiet =
      if_either (IsContained cpu) (bit_and parcel0 0x3 == 0x3) _ _
        (fetched_second-IsContained r parcel0 (bus.fetch16 m (add32 cpu.pc 2)).0 _ quiet)
        (execute_fetched-IsContained (record r { instruction = parcel0 }) m parcel0 false quiet)
