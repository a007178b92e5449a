-- ===== src/Rv32i/Execute.antt =====
-- riscv_rv32i.hpp, `Executor`. The texts of `trap_info` are left out.
use rv32_complete_v.Prelude.{
  sub32, sra32, shr32, shl32, bit_or, bit_xor, leb, ltb, signed32, ltb_ℤ, ◌==◌, ◌!=◌, ◌&&◌, u16,
  not32, u8, bit_and, not, false, signed, Bool, if◌then◌else◌, wrap, add32, true, ℕ,
}
use rv32_complete_v.Common.Exception.{PrivilegeLevel, user, supervisor}
use rv32_complete_v.Common.Exception.{instr_addr_misaligned, illegal_instruction, breakpoint}
use rv32_complete_v.Common.Exception.{ecall_from_u, ecall_from_s, ecall_from_m}
use rv32_complete_v.Common.RegFile
use rv32_complete_v.Common.RegFile.{RegFile}
use rv32_complete_v.Common.Bus.{
  Bus, LoadResult, loaded, load_failed, StoreResult, stored, store_failed, load, store,
}
use rv32_complete_v.Rv32i.Types.{InstrType, DecodedInstr, ExecResult}

-- The executor's configuration.
pub record Executor : Type 0 where
  pub c_ext_enabled : Bool
  pub allow_misaligned : Bool
  pub priv : PrivilegeLevel

-- What one instruction leaves: its result, the registers and the bus.
pub record Outcome (M : Type 0) : Type 0 where
  pub result : ExecResult
  pub regs : RegFile
  pub bus : M

unfoldable pub initial_result : ℕ → ExecResult
initial_result pc = record {
  next_pc = add32 pc 4;
  branch_taken = false;
  trap = false;
  trap_cause = 0;
  trap_value = 0;
  mret = false;
  sret = false;
  sfence_vma = false;
  wfi = false;
}

unfoldable pub target_misaligned : Executor → ℕ → Bool
target_misaligned ex target = not ex.c_ext_enabled && bit_and target 0x2 != 0

unfoldable pub set_trap : ExecResult → ℕ → ℕ → ExecResult
set_trap result cause value = record result { trap = true; trap_cause = cause; trap_value = value }

unfoldable pub take_branch : Executor → ExecResult → ℕ → ExecResult
unfolding target_misaligned set_trap
take_branch ex result target =
    if target_misaligned ex target
    then set_trap result instr_addr_misaligned target
    else record result { next_pc = target; branch_taken = true }

-- `static_cast<uint32_t>(static_cast<int32_t>(static_cast<int8_t>(val)))`, and so for `int16_t`.
abbrev pub sext8 : ℕ → ℕ
sext8 val = wrap 32 (signed 8 (u8 val))

abbrev pub sext16 : ℕ → ℕ
sext16 val = wrap 32 (signed 16 (u16 val))

abbrev pub of_bool : Bool → ℕ
of_bool true = 1
of_bool false = 0

abbrev pub ecall_cause : PrivilegeLevel → ℕ
ecall_cause user = ecall_from_u
ecall_cause supervisor = ecall_from_s
ecall_cause _ = ecall_from_m

module _ {M : Type 0} (bus : Bus M) (ex : Executor) (d : DecodedInstr) (regs : RegFile) (m : M)
    (pc : ℕ) where
  unfoldable pub rs1_val : ℕ
  unfolding RegFile.read
  rs1_val = RegFile.read regs d.rs1

  unfoldable pub rs2_val : ℕ
  unfolding RegFile.read
  rs2_val = RegFile.read regs d.rs2

  unfoldable pub with_result : ExecResult → Outcome M
  with_result r = record { result = r; regs = regs; bus = m }

  -- `regs.write(instr.rd, val)` as the only effect.
  unfoldable pub set_rd : ℕ → Outcome M
  unfolding initial_result
  set_rd val = record { result = initial_result pc; regs = RegFile.write regs d.rd val; bus = m }

  unfoldable pub jump : ℕ → Outcome M
  unfolding initial_result target_misaligned set_trap with_result
  jump target =
      if target_misaligned ex target
      then with_result (set_trap (initial_result pc) instr_addr_misaligned target)
      else record {
        result = record (initial_result pc) { next_pc = target; branch_taken = true };
        regs = RegFile.write regs d.rd (add32 pc 4);
        bus = m;
      }

  unfoldable pub branch_if : Bool → Outcome M
  unfolding initial_result take_branch with_result
  branch_if taken =
      with_result
        (if taken then take_branch ex (initial_result pc) (add32 pc d.imm) else initial_result pc)

  unfoldable pub finish_load : (ℕ → ℕ) → LoadResult × M → Outcome M
  unfolding initial_result set_trap
  finish_load extend (loaded val, m') = record {
    result = initial_result pc;
    regs = RegFile.write regs d.rd (extend val);
    bus = m';
  }
  finish_load extend (load_failed cause tval, m') = record {
    result = set_trap (initial_result pc) cause tval;
    regs = regs;
    bus = m';
  }

  unfoldable pub do_load : ℕ → (ℕ → ℕ) → Outcome M
  unfolding finish_load rs1_val
  do_load size extend =
      finish_load extend (load bus m (add32 rs1_val d.imm) size ex.allow_misaligned)

  unfoldable pub finish_store : StoreResult × M → Outcome M
  unfolding initial_result set_trap
  finish_store (stored, m') = record { result = initial_result pc; regs = regs; bus = m' }
  finish_store (store_failed cause tval, m') = record {
    result = set_trap (initial_result pc) cause tval;
    regs = regs;
    bus = m';
  }

  unfoldable pub do_store : ℕ → Outcome M
  unfolding finish_store rs1_val rs2_val
  do_store size = finish_store (store bus m (add32 rs1_val d.imm) size rs2_val ex.allow_misaligned)

  -- The `switch (instr.type)`.
  unfoldable pub execute_type : InstrType → Outcome M
  unfolding rs1_val rs2_val with_result set_rd jump branch_if do_load do_store initial_result
      set_trap
  execute_type InstrType.lui = set_rd d.imm
  execute_type InstrType.auipc = set_rd (add32 pc d.imm)
  execute_type InstrType.jal = jump (add32 pc d.imm)
  execute_type InstrType.jalr = jump (bit_and (add32 rs1_val d.imm) (not32 1))
  execute_type InstrType.beq = branch_if (rs1_val == rs2_val)
  execute_type InstrType.bne = branch_if (rs1_val != rs2_val)
  execute_type InstrType.blt = branch_if (ltb_ℤ (signed32 rs1_val) (signed32 rs2_val))
  execute_type InstrType.bge = branch_if (not (ltb_ℤ (signed32 rs1_val) (signed32 rs2_val)))
  execute_type InstrType.bltu = branch_if (ltb rs1_val rs2_val)
  execute_type InstrType.bgeu = branch_if (leb rs2_val rs1_val)
  execute_type InstrType.lb = do_load 1 sext8
  execute_type InstrType.lh = do_load 2 sext16
  execute_type InstrType.lw = do_load 4 (λ val. val)
  execute_type InstrType.lbu = do_load 1 (λ val. bit_and val 0xff)
  execute_type InstrType.lhu = do_load 2 (λ val. bit_and val 0xffff)
  execute_type InstrType.sb = do_store 1
  execute_type InstrType.sh = do_store 2
  execute_type InstrType.sw = do_store 4
  execute_type InstrType.addi = set_rd (add32 rs1_val d.imm)
  execute_type InstrType.slti = set_rd (of_bool (ltb_ℤ (signed32 rs1_val) (signed32 d.imm)))
  execute_type InstrType.sltiu = set_rd (of_bool (ltb rs1_val d.imm))
  execute_type InstrType.xori = set_rd (bit_xor rs1_val d.imm)
  execute_type InstrType.ori = set_rd (bit_or rs1_val d.imm)
  execute_type InstrType.andi = set_rd (bit_and rs1_val d.imm)
  execute_type InstrType.slli = set_rd (shl32 rs1_val (bit_and d.imm 0x1f))
  execute_type InstrType.srli = set_rd (shr32 rs1_val (bit_and d.imm 0x1f))
  execute_type InstrType.srai = set_rd (sra32 rs1_val (bit_and d.imm 0x1f))
  execute_type InstrType.add = set_rd (add32 rs1_val rs2_val)
  execute_type InstrType.sub = set_rd (sub32 rs1_val rs2_val)
  execute_type InstrType.sll = set_rd (shl32 rs1_val (bit_and rs2_val 0x1f))
  execute_type InstrType.slt = set_rd (of_bool (ltb_ℤ (signed32 rs1_val) (signed32 rs2_val)))
  execute_type InstrType.sltu = set_rd (of_bool (ltb rs1_val rs2_val))
  execute_type InstrType.xor = set_rd (bit_xor rs1_val rs2_val)
  execute_type InstrType.srl = set_rd (shr32 rs1_val (bit_and rs2_val 0x1f))
  execute_type InstrType.sra = set_rd (sra32 rs1_val (bit_and rs2_val 0x1f))
  execute_type InstrType.or = set_rd (bit_or rs1_val rs2_val)
  execute_type InstrType.and = set_rd (bit_and rs1_val rs2_val)
  execute_type InstrType.fence = with_result (initial_result pc)
  execute_type InstrType.ecall = with_result (set_trap (initial_result pc) (ecall_cause ex.priv) 0)
  execute_type InstrType.ebreak = with_result (set_trap (initial_result pc) breakpoint pc)
  execute_type InstrType.mret = with_result (record (initial_result pc) { mret = true })
  execute_type InstrType.sret = with_result (record (initial_result pc) { sret = true })
  execute_type InstrType.sfence_vma = with_result (record (initial_result pc) { sfence_vma = true })
  execute_type InstrType.wfi = with_result (record (initial_result pc) { wfi = true })
  execute_type InstrType.illegal =
      with_result (set_trap (initial_result pc) illegal_instruction d.raw)

  unfoldable pub execute : Outcome M
  unfolding execute_type
  execute = execute_type d.type
