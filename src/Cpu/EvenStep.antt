-- ===== src/Cpu/EvenStep.antt =====
-- riscv_cpu.hpp: a step leads from an even pc to an even pc.
use rv32_complete_v.Prelude.{
  if_either, ℕ, ◌%◌, bit_and, ◌≡◌, refl, Bool, true, false, not, ◌&&◌, arith, add32,
}
use rv32_complete_v.Common.Exception.{illegal_instruction}
use rv32_complete_v.Common.RegFile.{RegFile}
use rv32_complete_v.Common.Bus.{Bus}
use rv32_complete_v.Zicsr.Addr
use rv32_complete_v.Zicsr.File.{CsrFile, get, set, exists, can_read, can_write}
use rv32_complete_v.Zicsr.Execute as Csr
use rv32_complete_v.Rv32i.Decode as I
use rv32_complete_v.Rv32i.Execute as IExecute
use rv32_complete_v.Rv32i.Alignment as IAlignment
use rv32_complete_v.Rv32m as M
use rv32_complete_v.Rv32a as A
use rv32_complete_v.Rv32c.Decode as C
use rv32_complete_v.Rv32c.Execute as CExecute
use rv32_complete_v.Rv32c.Alignment as CAlignment
use rv32_complete_v.Rv32f.Fcsr
use rv32_complete_v.Rv32f.Host.{Host}
use rv32_complete_v.Rv32f.Decode as F
use rv32_complete_v.Rv32f.Execute as FExecute
use rv32_complete_v.Rv32fc as Fc
use rv32_complete_v.Zba
use rv32_complete_v.Zbb
use rv32_complete_v.Zbs
use rv32_complete_v.Zicond
use rv32_complete_v.Zifencei
use rv32_complete_v.Cpu.State.{Cpu, CpuExecResult}
use rv32_complete_v.Cpu.Trap.{is_machine}
use rv32_complete_v.Cpu.EvenCsrs.{
  IsEvenFile, IsEven, write-IsEvenFile, set-IsEvenFile, take_exception-IsEven, do_mret-IsEven,
  do_sret-IsEven,
}
use rv32_complete_v.Cpu.Dispatch.{
  Stepped, raise, raise_unless, register_op, returned, satp_blocked, csr_op, base_executor, base_op,
  finish_base, atomic_op, float_op, dispatch, compressed_float_op, compressed_op, sret_denied,
  sfence_denied, wfi_denied,
}

-- The next pc of a call is even, and so are mepc and sepc.
pub record IsEvenStep {B : Type 0} (s : Stepped B) : Type 0 where
  pub even : IsEven s.cpu s.result

module _ {B : Type 0} where
  pub raise-IsEvenStep :
      (cpu : Cpu) (r : CpuExecResult) (m : B) (cause tval : ℕ)
      → IsEvenFile cpu.csrs
      → IsEvenStep (raise cpu r m cause tval)
  unfolding raise
  raise-IsEvenStep cpu r m cause tval e = record { even = take_exception-IsEven cpu r cause tval e }

  raise_unless-IsEvenStep :
      (valid : Bool) (cpu : Cpu) (r : CpuExecResult) (m : B) (cause tval : ℕ)
      → r.next_pc % 2 ≡ 0
      → IsEvenFile cpu.csrs
      → IsEvenStep (raise_unless valid cpu r m cause tval)
  unfolding raise_unless
  raise_unless-IsEvenStep true cpu r m cause tval n e = record {
    even = record { next_pc = n; file = e };
  }
  raise_unless-IsEvenStep false cpu r m cause tval n e = raise-IsEvenStep cpu r m cause tval e

  register_op-IsEvenStep :
      (valid : Bool) (regs : RegFile) (cpu : Cpu) (r : CpuExecResult) (m : B) (instr : ℕ)
      → r.next_pc % 2 ≡ 0
      → IsEvenFile cpu.csrs
      → IsEvenStep (register_op valid regs cpu r m instr)
  unfolding register_op
  register_op-IsEvenStep valid regs cpu r m instr n e =
      raise_unless-IsEvenStep valid _ r m illegal_instruction instr n e

access-IsEvenFile :
    (d : Csr.DecodedCsrInstr) (regs : RegFile) (f : CsrFile)
    → IsEvenFile f
    → IsEvenFile (Csr.access d regs f).csrs
unfolding Csr.access
access-IsEvenFile d regs f e =
    if_either IsEvenFile (Csr.writes d.type d.rs1) _ f (write-IsEvenFile f d.csr _ e) e

execute-IsEvenFile :
    (d : Csr.DecodedCsrInstr) (regs : RegFile) (f : CsrFile)
    → IsEvenFile f
    → IsEvenFile (Csr.execute d regs f).csrs
unfolding Csr.execute Csr.denied
execute-IsEvenFile d regs f e =
    let P = λ (o : Csr.Outcome). IsEvenFile o.csrs in
    if_either P (Csr.is_illegal d.type) _ _ e (
      if_either P (not (exists f d.csr)) _ _ e (
        if_either P (not (can_read f d.csr)) _ _ e (
          if_either P (Csr.writes d.type d.rs1 && not (can_write f d.csr)) _ _ e
            (access-IsEvenFile d regs f e))))

module _ {B : Type 0} (host : Host) (bus : Bus B) (cpu : Cpu) (r : CpuExecResult) (m : B)
    (next : r.next_pc % 2 ≡ 0) (file : IsEvenFile cpu.csrs) (pc_even : cpu.pc % 2 ≡ 0) where
  csr_op-IsEvenStep : (instr : ℕ) → IsEvenStep (csr_op cpu r m instr)
  unfolding csr_op
  csr_op-IsEvenStep instr =
      let d = Csr.decode instr in
      let o = Csr.execute d cpu.regs cpu.csrs in
      if_either IsEvenStep (satp_blocked cpu d.csr) _ _
        (raise-IsEvenStep cpu r m illegal_instruction instr file)
        (raise_unless-IsEvenStep o.result.valid (record cpu { regs = o.regs; csrs = o.csrs }) r m
          o.result.exception_cause o.result.trap_value next
          (execute-IsEvenFile d cpu.regs cpu.csrs file))

  atomic_op-IsEvenStep : (instr : ℕ) → IsEvenStep (atomic_op host bus cpu r m instr)
  unfolding atomic_op
  atomic_op-IsEvenStep instr =
      let o = A.execute bus (A.decode instr) cpu.regs m cpu.reservation in
      raise_unless-IsEvenStep o.result.valid
        (record cpu { regs = o.regs; reservation = o.reservation }) r o.bus o.result.trap_cause
        o.result.trap_value next file

  float_op-IsEvenStep : (instr : ℕ) → IsEvenStep (float_op host bus cpu r m instr)
  unfolding float_op
  float_op-IsEvenStep instr =
      let o =
        FExecute.execute host bus cpu.config.allow_misaligned_data (F.decode instr) cpu.regs
          cpu.fregs m (Fcsr.write (get cpu.csrs Addr.fcsr)) in
      let status : ℕ = bit_and (Fcsr.read o.fcsr) 0xff in
      raise_unless-IsEvenStep o.result.valid
        (record cpu { regs = o.regs; fregs = o.fregs; csrs = set cpu.csrs Addr.fcsr status }) r
        o.bus o.result.trap_cause o.result.trap_value next
        (set-IsEvenFile cpu.csrs Addr.fcsr status refl refl file)

  finish_base-IsEvenStep :
      (o : IExecute.Outcome B) (now : Cpu) (set : CpuExecResult) (instr : ℕ)
      → set.next_pc % 2 ≡ 0
      → IsEvenFile now.csrs
      → IsEvenStep (finish_base o now set instr)
  unfolding finish_base returned
  finish_base-IsEvenStep o now set instr n e =
      let refused = raise-IsEvenStep now set o.bus illegal_instruction instr e in
      if_either IsEvenStep o.result.mret _ _
        (if_either IsEvenStep (not (is_machine now.csrs.current_privilege)) _ _ refused
          (record { even = do_mret-IsEven now set e }))
        (if_either IsEvenStep o.result.sret _ _
          (if_either IsEvenStep (sret_denied now) _ _ refused
            (record { even = do_sret-IsEven now set e }))
          (if_either IsEvenStep o.result.sfence_vma _ _
            (raise_unless-IsEvenStep (not (sfence_denied now)) now set o.bus illegal_instruction
              instr n e)
            (if_either IsEvenStep o.result.wfi _ _
              (raise_unless-IsEvenStep (not (wfi_denied now)) now set o.bus illegal_instruction
                instr n e)
              (raise_unless-IsEvenStep (not o.result.trap) now set o.bus o.result.trap_cause
                o.result.trap_value n e))))

  base_op-IsEvenStep : (instr : ℕ) → IsEvenStep (base_op host bus cpu r m instr)
  unfolding base_op
  base_op-IsEvenStep instr =
      let ex = base_executor cpu in
      let o = IExecute.execute bus ex (I.decode cpu.config.enable_s_mode instr) cpu.regs m cpu.pc in
      finish_base-IsEvenStep o (record cpu { regs = o.regs })
        (record r { next_pc = o.result.next_pc; branch_taken = o.result.branch_taken }) instr
        (IAlignment.execute-even bus ex cpu.config.enable_s_mode instr cpu.regs m cpu.pc pc_even)
        file

  pub dispatch-IsEvenStep : (instr : ℕ) → IsEvenStep (dispatch host bus cpu r m instr)
  unfolding dispatch
  dispatch-IsEvenStep instr =
      let c = cpu.config in
      if_either IsEvenStep (c.enable_zifencei && Zifencei.is_zifencei_instruction instr) _ _
        (raise_unless-IsEvenStep (Zifencei.execute false (Zifencei.decode instr)).valid cpu r m
          illegal_instruction instr next file)
        (if_either IsEvenStep (c.enable_zicsr && Csr.is_csr_instruction instr) _ _
          (csr_op-IsEvenStep instr)
          (if_either IsEvenStep (c.enable_m_extension && M.is_m_instruction instr) _ _
            (let o = M.execute (M.decode instr) cpu.regs in
              register_op-IsEvenStep o.0.valid o.1 cpu r m instr next file)
            (if_either IsEvenStep (c.enable_a_extension && A.is_atomic_instruction instr) _ _
              (atomic_op-IsEvenStep instr)
              (if_either IsEvenStep (c.enable_f_extension && F.is_f_instruction instr) _ _
                (float_op-IsEvenStep instr)
                (if_either IsEvenStep (c.enable_zba && Zba.is_zba_instruction instr) _ _
                  (let o = Zba.execute (Zba.decode instr) cpu.regs in
                    register_op-IsEvenStep o.0.valid o.1 cpu r m instr next file)
                  (if_either IsEvenStep (c.enable_zbb && Zbb.is_zbb_instruction instr) _ _
                    (let o = Zbb.execute (Zbb.decode instr) cpu.regs in
                      register_op-IsEvenStep o.0.valid o.1 cpu r m instr next file)
                    (if_either IsEvenStep (c.enable_zbs && Zbs.is_zbs_instruction instr) _ _
                      (let o = Zbs.execute (Zbs.decode instr) cpu.regs in
                        register_op-IsEvenStep o.0.valid o.1 cpu r m instr next file)
                      (if_either IsEvenStep (c.enable_zicond && Zicond.is_zicond_instruction instr)
                        _ _
                        (let o = Zicond.execute (Zicond.decode instr) cpu.regs in
                          register_op-IsEvenStep o.0.valid o.1 cpu r m instr next file)
                        (base_op-IsEvenStep instr)))))))))

  pub compressed_float_op-IsEvenStep :
      (instr : ℕ) → IsEvenStep (compressed_float_op host bus cpu r m instr)
  unfolding compressed_float_op
  compressed_float_op-IsEvenStep instr =
      let o =
        Fc.execute bus cpu.config.allow_misaligned_data (Fc.decode instr) cpu.regs cpu.fregs m in
      raise_unless-IsEvenStep o.result.valid (record cpu { fregs = o.fregs })
        (record r { next_pc = add32 cpu.pc 2 }) o.bus o.result.trap_cause o.result.trap_value
        (omega arith) file

  pub compressed_op-IsEvenStep : (instr : ℕ) → IsEvenStep (compressed_op host bus cpu r m instr)
  unfolding compressed_op
  compressed_op-IsEvenStep instr =
      let o =
        CExecute.execute bus cpu.config.allow_misaligned_data (C.decode instr) cpu.regs m cpu.pc in
      raise_unless-IsEvenStep (not o.result.trap) (record cpu { regs = o.regs })
        (record r { next_pc = o.result.next_pc; branch_taken = o.result.branch_taken }) o.bus
        o.result.trap_cause o.result.trap_value
        (CAlignment.execute-even bus cpu.config.allow_misaligned_data instr cpu.regs m cpu.pc
          pc_even)
        file
