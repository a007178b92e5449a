-- ===== src/Cpu/Disabled.antt =====
-- riscv_cpu.hpp, `execute_32bit`: an instruction of an extension that is off.
use rv32_complete_v.Prelude.{
  ℕ, ◌≡◌, ◌⊎◌, inl, inr, Bool, false, arith, refl, ap, ◌∙◌, ◌&&◌, ◌||◌, if◌then◌else◌, add32,
}
use rv32_complete_v.Common.Fields.{bits}
use rv32_complete_v.Common.Bus.{Bus}
use rv32_complete_v.Common.Exception.{illegal_instruction}
use rv32_complete_v.Zicsr.Execute as Csr
use rv32_complete_v.Rv32i.Types as Base
use rv32_complete_v.Rv32i.Decode as I
use rv32_complete_v.Rv32i.Execute as IExecute
use rv32_complete_v.Rv32m as M
use rv32_complete_v.Rv32a as A
use rv32_complete_v.Rv32f.Decode as F
use rv32_complete_v.Rv32f.Host.{Host}
use rv32_complete_v.Zba
use rv32_complete_v.Zbb
use rv32_complete_v.Zbs
use rv32_complete_v.Zicond
use rv32_complete_v.Zifencei
use rv32_complete_v.Cpu.State.{Cpu, CpuExecResult}
use rv32_complete_v.Cpu.Dispatch.{
  base_executor, Stepped, dispatch, raise, raise_unless, finish_base, base_op, execute_32bit,
}
use rv32_complete_v.Cpu.Claims.{claims, IsIllegal, claims_lem}

-- Whether an extension that is on claims the word.
unfoldable pub is_enabled : Cpu → ℕ → Bool
is_enabled cpu instr =
    let c = cpu.config in
    c.enable_zifencei && Zifencei.is_zifencei_instruction instr
    || c.enable_zicsr && Csr.is_csr_instruction instr
    || c.enable_m_extension && M.is_m_instruction instr
    || c.enable_a_extension && A.is_atomic_instruction instr
    || c.enable_f_extension && F.is_f_instruction instr
    || c.enable_zba && Zba.is_zba_instruction instr
    || c.enable_zbb && Zbb.is_zbb_instruction instr
    || c.enable_zbs && Zbs.is_zbs_instruction instr
    || c.enable_zicond && Zicond.is_zicond_instruction instr

branch_raw : (d : Base.DecodedInstr) → (I.decode_branch d).raw ≡ d.raw
unfolding I.decode_branch
branch_raw d = ground arith

load_raw : (d : Base.DecodedInstr) → (I.decode_load d).raw ≡ d.raw
unfolding I.decode_load
load_raw d = ground arith

store_raw : (d : Base.DecodedInstr) → (I.decode_store d).raw ≡ d.raw
unfolding I.decode_store
store_raw d = ground arith

op_imm_raw : (d : Base.DecodedInstr) → (I.decode_op_imm d).raw ≡ d.raw
unfolding I.decode_op_imm
op_imm_raw d = ground arith

op_raw : (d : Base.DecodedInstr) → (I.decode_op d).raw ≡ d.raw
unfolding I.decode_op
op_raw d = ground arith

fence_raw : (d : Base.DecodedInstr) → (I.decode_fence d).raw ≡ d.raw
unfolding I.decode_fence
fence_raw d = ground arith

system_raw : (s : Bool) (d : Base.DecodedInstr) → (I.decode_system s d).raw ≡ d.raw
unfolding I.decode_system
system_raw s d = ground arith

opcode_raw :
    (s : Bool) (op instr : ℕ) (d : Base.DecodedInstr) → (I.decode_opcode s op instr d).raw ≡ d.raw
unfolding I.decode_opcode
opcode_raw s op instr d =
    grind (arith, branch_raw, load_raw, store_raw, op_imm_raw, op_raw, fence_raw, system_raw)

decode-raw : (s : Bool) (instr : ℕ) → (I.decode s instr).raw ≡ instr
unfolding I.decode I.fields
decode-raw s instr = opcode_raw s (bits instr 6 0) instr (I.fields instr)

illegal_of_claim : {X : Type 0} {n : ℕ} → (n ≡ 0) ⊎ ((n ≡ 1) × X) → n ≡ 1 → X
illegal_of_claim (inl e) one = absurd (omega arith)
illegal_of_claim (inr (e, x)) one = x

-- A chain of nine tests that are all off.
skipped :
    {A : Type 0} (b1 b2 b3 b4 b5 b6 b7 b8 b9 : Bool) (x1 x2 x3 x4 x5 x6 x7 x8 x9 y : A)
    → (b1 || b2 || b3 || b4 || b5 || b6 || b7 || b8 || b9) ≡ false
    → (if b1
        then x1
        else if b2
        then x2
        else if b3
        then x3
        else if b4
        then x4
        else if b5
        then x5
        else if b6
        then x6
        else if b7
        then x7
        else if b8
        then x8
        else if b9
        then x9
        else y)
      ≡ y
skipped b1 b2 b3 b4 b5 b6 b7 b8 b9 x1 x2 x3 x4 x5 x6 x7 x8 x9 y h = ground arith

module _ {B : Type 0} (host : Host) (bus : Bus B) (cpu : Cpu) (m : B) (instr : ℕ) where
  dispatch-base_op :
      (result : CpuExecResult)
      → is_enabled cpu instr ≡ false
      → dispatch host bus cpu result m instr ≡ base_op host bus cpu result m instr
  unfolding is_enabled dispatch
  dispatch-base_op result h = search skipped

module _ {B : Type 0} (host : Host) (bus : Bus B) (cpu : Cpu) (result : CpuExecResult) (m : B)
    (instr : ℕ) where
  -- The hart, the result and the bus after the exception of an illegal instruction.
  abbrev pub raised : Stepped B
  raised =
      raise cpu (record result { next_pc = add32 cpu.pc 4; branch_taken = false }) m
        illegal_instruction instr

  -- The outcome of the base executor for an illegal instruction.
  abbrev trapped : IExecute.Outcome B
  unfolding IExecute.set_trap IExecute.initial_result
  trapped = record {
    result = IExecute.set_trap (IExecute.initial_result cpu.pc) illegal_instruction instr;
    regs = cpu.regs;
    bus = m;
  }

  execute-trapped :
      (ex : IExecute.Executor) (d : Base.DecodedInstr)
      → d.type ≡ Base.InstrType.illegal
      → d.raw ≡ instr
      → IExecute.execute bus ex d cpu.regs m cpu.pc ≡ trapped
  unfolding IExecute.execute IExecute.execute_type IExecute.with_result IExecute.set_trap
      IExecute.initial_result
  execute-trapped ex d h r =
      ap (IExecute.execute_type bus ex d cpu.regs m cpu.pc) h
      ∙ ap
          (λ i. record {
            result = IExecute.set_trap (IExecute.initial_result cpu.pc) illegal_instruction i;
            regs = cpu.regs;
            bus = m;
          })
          r

  abbrev finished : IExecute.Outcome B → Stepped B
  finished o =
      finish_base o (record cpu { regs = o.regs })
        (record result { next_pc = o.result.next_pc; branch_taken = o.result.branch_taken }) instr

  finished-trapped : finished trapped ≡ raised
  unfolding finish_base raise_unless IExecute.set_trap IExecute.initial_result
  finished-trapped = refl

  base_op-raised :
      IsIllegal cpu.config.enable_s_mode instr
      → base_op host bus cpu (record result { next_pc = add32 cpu.pc 4 }) m instr ≡ raised
  unfolding base_op
  base_op-raised h =
      ap finished (
        execute-trapped (base_executor cpu) (I.decode cpu.config.enable_s_mode instr) h
          (decode-raw cpu.config.enable_s_mode instr))
      ∙ finished-trapped

  -- A 32-bit word that one of the nine tests of `execute_32bit` accepts, but none of an extension that is on,
  -- raises an illegal instruction with the word as trap value, and nothing else happens.
  pub execute_32bit-raised :
      claims instr ≡ 1
      → is_enabled cpu instr ≡ false
      → execute_32bit host bus cpu result m instr ≡ raised
  unfolding execute_32bit
  execute_32bit-raised one off =
      dispatch-base_op host bus cpu m instr (record result { next_pc = add32 cpu.pc 4 }) off
      ∙ base_op-raised (illegal_of_claim (claims_lem cpu.config.enable_s_mode instr) one)
