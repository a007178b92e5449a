-- ===== src/Cpu/Dispatch.antt =====
-- riscv_cpu.hpp: the dispatch of a fetched instruction to the extensions.
use rv32_complete_v.Prelude.{
  ℕ, bit_and, Bool, true, false, not, ◌&&◌, ◌||◌, ◌==◌, ◌!=◌, if◌then◌else◌, add32,
}
use rv32_complete_v.Common.Exception.{PrivilegeLevel, user, illegal_instruction}
use rv32_complete_v.Common.RegFile.{RegFile}
use rv32_complete_v.Common.Bus.{Bus}
use rv32_complete_v.Zicsr.Addr
use rv32_complete_v.Zicsr.Masks.{mstatus_tvm, mstatus_tw, mstatus_tsr}
use rv32_complete_v.Zicsr.File.{get, set}
use rv32_complete_v.Zicsr.Execute as Csr
use rv32_complete_v.Rv32i.Decode as I
use rv32_complete_v.Rv32i.Execute as IExecute
use rv32_complete_v.Rv32m as M
use rv32_complete_v.Rv32a as A
use rv32_complete_v.Rv32c.Decode as C
use rv32_complete_v.Rv32c.Execute as CExecute
use rv32_complete_v.Rv32f.Fcsr
use rv32_complete_v.Rv32f.Host.{Host}
use rv32_complete_v.Rv32f.Decode as F
use rv32_complete_v.Rv32f.Execute as FExecute
use rv32_complete_v.Rv32fc as Fc
use rv32_complete_v.Zba
use rv32_complete_v.Zbb
use rv32_complete_v.Zbs
use rv32_complete_v.Zicond
use rv32_complete_v.Zifencei
use rv32_complete_v.Cpu.State.{Cpu, CpuExecResult}
use rv32_complete_v.Cpu.Trap.{take_exception, is_machine, is_supervisor}
use rv32_complete_v.Cpu.Return.{do_mret, do_sret}

-- The hart, the result record and the bus after a call.
pub record Stepped (B : Type 0) : Type 0 where
  pub cpu : Cpu
  pub result : CpuExecResult
  pub bus : B

-- `sync_executor_config`, for the executor of the base set.
unfoldable pub base_executor : Cpu → IExecute.Executor
base_executor cpu = record {
  c_ext_enabled = cpu.config.enable_c_extension;
  allow_misaligned = cpu.config.allow_misaligned_data;
  priv = cpu.csrs.current_privilege;
}

abbrev pub is_user : PrivilegeLevel → Bool
is_user user = true
is_user _ = false

-- SATP is out of reach of S-mode while mstatus.TVM is set.
unfoldable pub satp_blocked : Cpu → ℕ → Bool
unfolding get
satp_blocked cpu csr =
    csr == Addr.satp
    && cpu.config.enable_s_mode
    && is_supervisor cpu.csrs.current_privilege
    && bit_and (get cpu.csrs Addr.mstatus) mstatus_tvm != 0

-- The three tests that make a privileged instruction illegal.
unfoldable pub sret_denied : Cpu → Bool
unfolding get
sret_denied cpu =
    let p = cpu.csrs.current_privilege in
    not cpu.config.enable_s_mode
    || is_user p
    || is_supervisor p && bit_and (get cpu.csrs Addr.mstatus) mstatus_tsr != 0

unfoldable pub sfence_denied : Cpu → Bool
unfolding get
sfence_denied cpu =
    let p = cpu.csrs.current_privilege in
    is_user p || is_supervisor p && bit_and (get cpu.csrs Addr.mstatus) mstatus_tvm != 0

unfoldable pub wfi_denied : Cpu → Bool
unfolding get
wfi_denied cpu =
    let p = cpu.csrs.current_privilege in
    is_user p || is_supervisor p && bit_and (get cpu.csrs Addr.mstatus) mstatus_tw != 0

module _ {B : Type 0} where
  unfoldable pub raise : Cpu → CpuExecResult → B → ℕ → ℕ → Stepped B
  unfolding take_exception
  raise cpu result m cause tval =
      let (cpu', result') = take_exception cpu result cause tval in
      record { cpu = cpu'; result = result'; bus = m }

  -- `if (!valid) take_exception(...)`.
  unfoldable pub raise_unless : Bool → Cpu → CpuExecResult → B → ℕ → ℕ → Stepped B
  unfolding raise
  raise_unless true cpu result m cause tval = record { cpu = cpu; result = result; bus = m }
  raise_unless false cpu result m cause tval = raise cpu result m cause tval

  -- The end of an extension that touches the integer registers only: whether its result is valid, and
  -- the registers.
  unfoldable pub register_op : Bool → RegFile → Cpu → CpuExecResult → B → ℕ → Stepped B
  unfolding raise_unless
  register_op valid regs cpu result m instr =
      raise_unless valid (record cpu { regs = regs }) result m illegal_instruction instr

  unfoldable pub csr_op : Cpu → CpuExecResult → B → ℕ → Stepped B
  unfolding satp_blocked raise raise_unless Csr.execute
  csr_op cpu result m instr =
      let d = Csr.decode instr in
      let o = Csr.execute d cpu.regs cpu.csrs in
      if satp_blocked cpu d.csr
      then raise cpu result m illegal_instruction instr
      else raise_unless o.result.valid (record cpu { regs = o.regs; csrs = o.csrs }) result m
          o.result.exception_cause o.result.trap_value

  unfoldable pub returned : Cpu × CpuExecResult → B → Stepped B
  returned (cpu, result) m = record { cpu = cpu; result = result; bus = m }

  -- What `execute_32bit` does after the base executor has run; `cpu` has its registers.
  unfoldable pub finish_base : IExecute.Outcome B → Cpu → CpuExecResult → ℕ → Stepped B
  unfolding raise raise_unless returned do_mret do_sret sret_denied sfence_denied wfi_denied
  finish_base o cpu result instr =
      if o.result.mret
      then (if not (is_machine cpu.csrs.current_privilege)
          then raise cpu result o.bus illegal_instruction instr
          else returned (do_mret cpu result) o.bus)
      else if o.result.sret
      then (if sret_denied cpu
          then raise cpu result o.bus illegal_instruction instr
          else returned (do_sret cpu result) o.bus)
      else if o.result.sfence_vma
      then raise_unless (not (sfence_denied cpu)) cpu result o.bus illegal_instruction instr
      else if o.result.wfi
      then raise_unless (not (wfi_denied cpu)) cpu result o.bus illegal_instruction instr
      else raise_unless (not o.result.trap) cpu result o.bus o.result.trap_cause o.result.trap_value

module _ {B : Type 0} (host : Host) (bus : Bus B) where
  unfoldable pub atomic_op : Cpu → CpuExecResult → B → ℕ → Stepped B
  unfolding raise_unless A.execute A.decode
  atomic_op cpu result m instr =
      let o = A.execute bus (A.decode instr) cpu.regs m cpu.reservation in
      raise_unless o.result.valid (record cpu { regs = o.regs; reservation = o.reservation }) result
        o.bus o.result.trap_cause o.result.trap_value

  unfoldable pub float_op : Cpu → CpuExecResult → B → ℕ → Stepped B
  unfolding raise_unless FExecute.execute F.decode get set Fcsr.read Fcsr.write
  float_op cpu result m instr =
      let fcsr = Fcsr.write (get cpu.csrs Addr.fcsr) in
      let o =
        FExecute.execute host bus cpu.config.allow_misaligned_data (F.decode instr) cpu.regs
          cpu.fregs m fcsr in
      let f = set cpu.csrs Addr.fcsr (bit_and (Fcsr.read o.fcsr) 0xff) in
      raise_unless o.result.valid (record cpu { regs = o.regs; fregs = o.fregs; csrs = f }) result
        o.bus o.result.trap_cause o.result.trap_value

  unfoldable pub base_op : Cpu → CpuExecResult → B → ℕ → Stepped B
  unfolding base_executor finish_base I.decode IExecute.execute
  base_op cpu result m instr =
      let d = I.decode cpu.config.enable_s_mode instr in
      let o = IExecute.execute bus (base_executor cpu) d cpu.regs m cpu.pc in
      finish_base o (record cpu { regs = o.regs })
        (record result { next_pc = o.result.next_pc; branch_taken = o.result.branch_taken }) instr

  -- The chain of tests of `execute_32bit`, where `next_pc` is set.
  unfoldable pub dispatch : Cpu → CpuExecResult → B → ℕ → Stepped B
  unfolding raise_unless register_op csr_op atomic_op float_op base_op Zifencei.execute
  dispatch cpu result m instr =
      let c = cpu.config in
      if c.enable_zifencei && Zifencei.is_zifencei_instruction instr
      then (let o = Zifencei.execute false (Zifencei.decode instr) in
          raise_unless o.valid cpu result m illegal_instruction instr)
      else if c.enable_zicsr && Csr.is_csr_instruction instr
      then csr_op cpu result m instr
      else if c.enable_m_extension && M.is_m_instruction instr
      then (let (o, regs) = M.execute (M.decode instr) cpu.regs in
          register_op o.valid regs cpu result m instr)
      else if c.enable_a_extension && A.is_atomic_instruction instr
      then atomic_op cpu result m instr
      else if c.enable_f_extension && F.is_f_instruction instr
      then float_op cpu result m instr
      else if c.enable_zba && Zba.is_zba_instruction instr
      then (let (o, regs) = Zba.execute (Zba.decode instr) cpu.regs in
          register_op o.valid regs cpu result m instr)
      else if c.enable_zbb && Zbb.is_zbb_instruction instr
      then (let (o, regs) = Zbb.execute (Zbb.decode instr) cpu.regs in
          register_op o.valid regs cpu result m instr)
      else if c.enable_zbs && Zbs.is_zbs_instruction instr
      then (let (o, regs) = Zbs.execute (Zbs.decode instr) cpu.regs in
          register_op o.valid regs cpu result m instr)
      else if c.enable_zicond && Zicond.is_zicond_instruction instr
      then (let (o, regs) = Zicond.execute (Zicond.decode instr) cpu.regs in
          register_op o.valid regs cpu result m instr)
      else base_op cpu result m instr

  unfoldable pub execute_32bit : Cpu → CpuExecResult → B → ℕ → Stepped B
  unfolding dispatch
  execute_32bit cpu result m instr =
      dispatch cpu (record result { next_pc = add32 cpu.pc 4 }) m instr

  unfoldable pub compressed_float_op : Cpu → CpuExecResult → B → ℕ → Stepped B
  unfolding raise_unless Fc.execute Fc.decode
  compressed_float_op cpu result m c_instr =
      let o =
        Fc.execute bus cpu.config.allow_misaligned_data (Fc.decode c_instr) cpu.regs cpu.fregs m in
      raise_unless o.result.valid (record cpu { fregs = o.fregs })
        (record result { next_pc = add32 cpu.pc 2 }) o.bus o.result.trap_cause o.result.trap_value

  unfoldable pub compressed_op : Cpu → CpuExecResult → B → ℕ → Stepped B
  unfolding raise_unless CExecute.execute C.decode
  compressed_op cpu result m c_instr =
      let o =
        CExecute.execute bus cpu.config.allow_misaligned_data (C.decode c_instr) cpu.regs m
          cpu.pc in
      raise_unless (not o.result.trap) (record cpu { regs = o.regs })
        (record result { next_pc = o.result.next_pc; branch_taken = o.result.branch_taken }) o.bus
        o.result.trap_cause o.result.trap_value

  unfoldable pub execute_compressed : Cpu → CpuExecResult → B → ℕ → Stepped B
  unfolding compressed_float_op compressed_op
  execute_compressed cpu result m c_instr =
      if cpu.config.enable_f_extension && Fc.is_compressed_float c_instr
      then compressed_float_op cpu result m c_instr
      else compressed_op cpu result m c_instr
