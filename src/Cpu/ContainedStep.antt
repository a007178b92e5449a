-- ===== src/Cpu/ContainedStep.antt =====
-- riscv_cpu.hpp: what the dispatch and a whole step can do to the hart.
use rv32_complete_v.Rv32f.Execute as FExecute
use rv32_complete_v.Prelude.{
  ◌⊎◌, if_either, if_cases, ℕ, ◌≡◌, refl, ◌∙◌, inl, inr, Bool, true, false, not, ◌&&◌, ◌||◌, arith,
}
use rv32_complete_v.Common.Exception.{illegal_instruction}
use rv32_complete_v.Common.RegFile.{RegFile}
use rv32_complete_v.Cpu.Trap.{is_machine}
use rv32_complete_v.Cpu.Dispatch.{sret_denied, is_user, raise_unless}
use rv32_complete_v.Common.Exception.{illegal_instruction}
use rv32_complete_v.Common.RegFile.{RegFile}
use rv32_complete_v.Common.Bus.{Bus}
use rv32_complete_v.Zicsr.Addr
use rv32_complete_v.Zicsr.File.{get}
use rv32_complete_v.Zicsr.Execute as Csr
use rv32_complete_v.Rv32i.Decode as I
use rv32_complete_v.Rv32i.Execute as IExecute
use rv32_complete_v.Rv32i.Traps as ITraps
use rv32_complete_v.Rv32m as M
use rv32_complete_v.Rv32a as A
use rv32_complete_v.Rv32a.Precise as APrecise
use rv32_complete_v.Rv32f.Fcsr
use rv32_complete_v.Rv32f.Host.{Host}
use rv32_complete_v.Rv32f.Decode as F
use rv32_complete_v.Rv32f.Flags as FFlags
use rv32_complete_v.Zba
use rv32_complete_v.Zbb
use rv32_complete_v.Zbs
use rv32_complete_v.Zicond
use rv32_complete_v.Zifencei
use rv32_complete_v.Cpu.State.{Cpu, CpuExecResult}
use rv32_complete_v.Cpu.Trap.{is_machine}
use rv32_complete_v.Cpu.Dispatch.{
  Stepped, base_executor, base_op, finish_base, atomic_op, float_op, dispatch, sret_denied, is_user,
}
use rv32_complete_v.Cpu.Contained.{
  IsContained, raise-IsContained, raise_unless-IsContained, register_op-IsContained,
  csr_op-IsContained, returned_m-IsContained, returned_s-IsContained,
}

pub true_of_not : (b : Bool) → not b ≡ false → b ≡ true
true_of_not true h = refl
true_of_not false h = cc

or_first : (a b : Bool) → (a || b) ≡ false → a ≡ false
or_first a b h = ground arith

or_second : (a b : Bool) → (a || b) ≡ false → b ≡ false
or_second a b h = ground arith

not_denied : (cpu : Cpu) → sret_denied cpu ≡ false → is_user cpu.csrs.current_privilege ≡ false
unfolding sret_denied
not_denied cpu h = ground arith

-- The second case of a sum whose first is refuted.
float_kept :
    (valid : Bool) (P Q R : Type 0)
    → (valid ≡ true) ⊎ ((valid ≡ false) × P × Q × R)
    → valid ≡ false
    → P × Q
float_kept valid P Q R (inl v) h = cc
float_kept valid P Q R (inr (v, p, q, r)) h = (p, q)

module _ {B : Type 0} (host : Host) (bus : Bus B) (cpu : Cpu) (r : CpuExecResult) (m : B)
    (quiet : r.trap ≡ false) where
  atomic_regs :
      (d : A.DecodedInstr)
      → APrecise.IsAllOrNothing bus d cpu.regs m cpu.reservation
          (A.execute bus d cpu.regs m cpu.reservation)
      → (A.execute bus d cpu.regs m cpu.reservation).result.valid ≡ false
      → (A.execute bus d cpu.regs m cpu.reservation).regs ≡ cpu.regs
  atomic_regs d (inl v) h = cc
  atomic_regs d (inr (v, same, kept)) h = same

  atomic_op-IsContained : (instr : ℕ) → IsContained cpu (atomic_op host bus cpu r m instr)
  unfolding atomic_op
  atomic_op-IsContained instr =
      let d = A.decode instr in
      raise_unless-IsContained cpu _ _ r _ _ _ quiet refl refl
        (atomic_regs d (APrecise.execute-IsAllOrNothing bus d cpu.regs m cpu.reservation))
        (λ v. refl)

  float_op-IsContained : (instr : ℕ) → IsContained cpu (float_op host bus cpu r m instr)
  unfolding float_op
  float_op-IsContained instr =
      let fcsr = Fcsr.write (get cpu.csrs Addr.fcsr) in
      let o =
        FExecute.execute host bus cpu.config.allow_misaligned_data (F.decode instr) cpu.regs
          cpu.fregs m fcsr in
      let (grown, same, kept) =
        FFlags.execute-IsSticky host bus cpu.config.allow_misaligned_data (F.decode instr) cpu.regs
          cpu.fregs m fcsr in
      raise_unless-IsContained cpu _ _ r _ _ _ quiet refl refl
        (λ v. (float_kept o.result.valid _ _ _ kept v).0)
        (λ v. (float_kept o.result.valid _ _ _ kept v).1)

  -- Containment from the hart with the registers that the base executor left, if they are the old ones.
  with_regs-IsContained :
      (regs : RegFile) (s : Stepped B)
      → regs ≡ cpu.regs
      → IsContained (record cpu { regs = regs }) s
      → IsContained cpu s
  with_regs-IsContained regs s e i = record {
    regs_kept = λ t. i.regs_kept t ∙ e;
    fregs_kept = i.fregs_kept;
    config_kept = i.config_kept;
    not_raised = i.not_raised;
  }

  -- SFENCE.VMA and WFI.
  checked :
      (o : IExecute.Outcome B) (next_pc : ℕ) (taken : Bool) (instr : ℕ) (allowed : Bool)
      → o.regs ≡ cpu.regs
      → IsContained cpu (
          raise_unless allowed
            (record cpu { regs = o.regs })
            (record r { next_pc = next_pc; branch_taken = taken })
            o.bus
            illegal_instruction
            instr)
  checked o next_pc taken instr allowed same =
      raise_unless-IsContained cpu allowed _ _ o.bus _ _ quiet refl refl (λ v. same) (λ v. refl)

  finish_base-IsContained :
      (o : IExecute.Outcome B) (next_pc : ℕ) (taken : Bool) (instr : ℕ)
      → (o.result.trap ≡ true → o.regs ≡ cpu.regs)
      → (ITraps.is_privileged o ≡ true → o.regs ≡ cpu.regs)
      → IsContained cpu (
          finish_base o
            (record cpu { regs = o.regs })
            (record r { next_pc = next_pc; branch_taken = taken })
            instr)
  unfolding finish_base
  finish_base-IsContained o next_pc taken instr trapped privileged =
      let now : Cpu = record cpu { regs = o.regs } in
      let set : CpuExecResult = record r { next_pc = next_pc; branch_taken = taken } in
      if_cases (IsContained cpu) o.result.mret _ _
        (λ e.
          let same : o.regs ≡ cpu.regs = privileged (rw e refl) in
          if_cases (IsContained cpu) (not (is_machine cpu.csrs.current_privilege)) _ _
            (λ f. raise-IsContained cpu now set o.bus illegal_instruction instr same refl refl)
            (λ f.
              with_regs-IsContained o.regs _ same
                (returned_m-IsContained now set o.bus quiet (true_of_not _ f))))
        (λ e.
          if_cases (IsContained cpu) o.result.sret _ _
            (λ f.
              let same : o.regs ≡ cpu.regs = privileged (rw (e, f) refl) in
              if_cases (IsContained cpu) (sret_denied now) _ _
                (λ g. raise-IsContained cpu now set o.bus illegal_instruction instr same refl refl)
                (λ g.
                  with_regs-IsContained o.regs _ same
                    (returned_s-IsContained now set o.bus quiet (not_denied now g))))
            (λ f.
              if_cases (IsContained cpu) o.result.sfence_vma _ _
                (λ g. checked o next_pc taken instr _ (privileged (rw (e, f, g) refl)))
                (λ g.
                  if_cases (IsContained cpu) o.result.wfi _ _
                    (λ h. checked o next_pc taken instr _ (privileged (rw (e, f, g, h) refl)))
                    (λ h.
                      raise_unless-IsContained cpu (not o.result.trap) now set o.bus _ _ quiet refl
                        refl (λ v. trapped (true_of_not _ v)) (λ v. refl)))))

  base_op-IsContained : (instr : ℕ) → IsContained cpu (base_op host bus cpu r m instr)
  unfolding base_op
  base_op-IsContained instr =
      let d = I.decode cpu.config.enable_s_mode instr in
      let ex = base_executor cpu in
      let o = IExecute.execute bus ex d cpu.regs m cpu.pc in
      finish_base-IsContained o _ _ instr
        (λ t. (ITraps.execute-IsPrecise bus ex d cpu.regs m cpu.pc t).0)
        (ITraps.execute-regs bus ex d cpu.regs m cpu.pc)

  pub dispatch-IsContained : (instr : ℕ) → IsContained cpu (dispatch host bus cpu r m instr)
  unfolding dispatch
  dispatch-IsContained instr =
      let c = cpu.config in
      if_either (IsContained cpu) (c.enable_zifencei && Zifencei.is_zifencei_instruction instr) _ _
        (raise_unless-IsContained cpu _ cpu r m _ _ quiet refl refl (λ v. refl) (λ v. refl))
        (if_either (IsContained cpu) (c.enable_zicsr && Csr.is_csr_instruction instr) _ _
          (csr_op-IsContained cpu r m instr quiet)
          (if_either (IsContained cpu) (c.enable_m_extension && M.is_m_instruction instr) _ _
            (register_op-IsContained cpu _ _ r m instr quiet
              (M.execute-kept (M.decode instr) cpu.regs))
            (if_either (IsContained cpu) (c.enable_a_extension && A.is_atomic_instruction instr) _ _
              (atomic_op-IsContained instr)
              (if_either (IsContained cpu) (c.enable_f_extension && F.is_f_instruction instr) _ _
                (float_op-IsContained instr)
                (if_either (IsContained cpu) (c.enable_zba && Zba.is_zba_instruction instr) _ _
                  (register_op-IsContained cpu _ _ r m instr quiet
                    (Zba.execute-kept (Zba.decode instr) cpu.regs))
                  (if_either (IsContained cpu) (c.enable_zbb && Zbb.is_zbb_instruction instr) _ _
                    (register_op-IsContained cpu _ _ r m instr quiet
                      (Zbb.execute-kept (Zbb.decode instr) cpu.regs))
                    (if_either (IsContained cpu) (c.enable_zbs && Zbs.is_zbs_instruction instr) _ _
                      (register_op-IsContained cpu _ _ r m instr quiet
                        (Zbs.execute-kept (Zbs.decode instr) cpu.regs))
                      (if_either (IsContained cpu)
                        (c.enable_zicond && Zicond.is_zicond_instruction instr) _ _
                        (register_op-IsContained cpu _ _ r m instr quiet
                          (Zicond.execute-kept (Zicond.decode instr) cpu.regs))
                        (base_op-IsContained instr)))))))))
