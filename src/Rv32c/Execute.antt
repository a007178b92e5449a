-- ===== src/Rv32c/Execute.antt =====
-- riscv_rv32c.hpp, `Executor`. The texts of `trap_info` are left out.
use rv32_complete_v.Prelude.{
  ℕ, bit_and, bit_or, bit_xor, Bool, true, false, ◌==◌, ◌!=◌, if◌then◌else◌, add32, sub32, shl32,
  shr32, not32, sra32,
}
use rv32_complete_v.Common.Exception.{illegal_instruction, breakpoint}
use rv32_complete_v.Common.RegFile
use rv32_complete_v.Common.RegFile.{RegFile}
use rv32_complete_v.Common.Bus.{
  Bus, LoadResult, loaded, load_failed, StoreResult, stored, store_failed, load, store,
}
use rv32_complete_v.Rv32c.Types.{InstrType, DecodedInstr, ExecResult}

-- What one instruction leaves: its result, the registers and the bus.
pub record Outcome (M : Type 0) : Type 0 where
  pub result : ExecResult
  pub regs : RegFile
  pub bus : M

unfoldable pub initial_result : ℕ → ExecResult
initial_result pc = record {
  next_pc = add32 pc 2;
  branch_taken = false;
  trap = false;
  trap_cause = 0;
  trap_value = 0;
}

unfoldable pub set_trap : ExecResult → ℕ → ℕ → ExecResult
set_trap result cause value = record result { trap = true; trap_cause = cause; trap_value = value }

-- The executor's `allow_misaligned` is the second parameter.
module _ {M : Type 0} (bus : Bus M) (allow_misaligned : Bool) (d : DecodedInstr) (regs : RegFile)
    (m : M) (pc : ℕ) where
  unfoldable pub reg : ℕ → ℕ
  unfolding RegFile.read
  reg idx = RegFile.read regs idx

  unfoldable pub with_result : ExecResult → Outcome M
  with_result r = record { result = r; regs = regs; bus = m }

  -- `regs.write(idx, val)` as the only effect.
  unfoldable pub set_reg : ℕ → ℕ → Outcome M
  unfolding initial_result
  set_reg idx val = record {
    result = initial_result pc;
    regs = RegFile.write regs idx val;
    bus = m;
  }

  -- `next_pc` and `branch_taken` set to a target.
  unfoldable pub goto : ℕ → ExecResult
  unfolding initial_result
  goto target = record (initial_result pc) { next_pc = target; branch_taken = true }

  -- The same, after `pc + 2` is written to x1.
  unfoldable pub link : ℕ → Outcome M
  unfolding goto
  link target = record { result = goto target; regs = RegFile.write regs 1 (add32 pc 2); bus = m }

  unfoldable pub branch_if : Bool → Outcome M
  unfolding initial_result goto with_result
  branch_if taken = with_result (if taken then goto (add32 pc d.imm) else initial_result pc)

  unfoldable pub finish_load : LoadResult × M → Outcome M
  unfolding initial_result set_trap
  finish_load (loaded val, m') = record {
    result = initial_result pc;
    regs = RegFile.write regs d.rd val;
    bus = m';
  }
  finish_load (load_failed cause tval, m') = record {
    result = set_trap (initial_result pc) cause tval;
    regs = regs;
    bus = m';
  }

  unfoldable pub do_load32 : ℕ → Outcome M
  unfolding finish_load
  do_load32 addr = finish_load (load bus m addr 4 allow_misaligned)

  unfoldable pub finish_store : StoreResult × M → Outcome M
  unfolding initial_result set_trap
  finish_store (stored, m') = record { result = initial_result pc; regs = regs; bus = m' }
  finish_store (store_failed cause tval, m') = record {
    result = set_trap (initial_result pc) cause tval;
    regs = regs;
    bus = m';
  }

  unfoldable pub do_store32 : ℕ → ℕ → Outcome M
  unfolding finish_store
  do_store32 addr val = finish_store (store bus m addr 4 val allow_misaligned)

  -- The `switch (instr.type)`.
  unfoldable pub execute_type : InstrType → Outcome M
  unfolding reg with_result set_reg goto link branch_if do_load32 do_store32 initial_result set_trap
  execute_type InstrType.c_addi4spn = set_reg d.rd (add32 (reg 2) d.imm)
  execute_type InstrType.c_lw = do_load32 (add32 (reg d.rs1) d.imm)
  execute_type InstrType.c_sw = do_store32 (add32 (reg d.rs1) d.imm) (reg d.rs2)
  execute_type InstrType.c_nop = with_result (initial_result pc)
  execute_type InstrType.c_addi = set_reg d.rd (add32 (reg d.rs1) d.imm)
  execute_type InstrType.c_jal = link (add32 pc d.imm)
  execute_type InstrType.c_li = set_reg d.rd d.imm
  execute_type InstrType.c_addi16sp = set_reg 2 (add32 (reg 2) d.imm)
  execute_type InstrType.c_lui = set_reg d.rd d.imm
  execute_type InstrType.c_srli = set_reg d.rd (shr32 (reg d.rs1) (bit_and d.imm 0x1f))
  execute_type InstrType.c_srai = set_reg d.rd (sra32 (reg d.rs1) (bit_and d.imm 0x1f))
  execute_type InstrType.c_andi = set_reg d.rd (bit_and (reg d.rs1) d.imm)
  execute_type InstrType.c_sub = set_reg d.rd (sub32 (reg d.rs1) (reg d.rs2))
  execute_type InstrType.c_xor = set_reg d.rd (bit_xor (reg d.rs1) (reg d.rs2))
  execute_type InstrType.c_or = set_reg d.rd (bit_or (reg d.rs1) (reg d.rs2))
  execute_type InstrType.c_and = set_reg d.rd (bit_and (reg d.rs1) (reg d.rs2))
  execute_type InstrType.c_j = with_result (goto (add32 pc d.imm))
  execute_type InstrType.c_beqz = branch_if (reg d.rs1 == 0)
  execute_type InstrType.c_bnez = branch_if (reg d.rs1 != 0)
  execute_type InstrType.c_slli = set_reg d.rd (shl32 (reg d.rs1) (bit_and d.imm 0x1f))
  execute_type InstrType.c_lwsp = do_load32 (add32 (reg 2) d.imm)
  execute_type InstrType.c_jr = with_result (goto (bit_and (reg d.rs1) (not32 1)))
  execute_type InstrType.c_mv = set_reg d.rd (reg d.rs2)
  execute_type InstrType.c_ebreak = with_result (set_trap (initial_result pc) breakpoint pc)
  execute_type InstrType.c_jalr = link (bit_and (reg d.rs1) (not32 1))
  execute_type InstrType.c_add = set_reg d.rd (add32 (reg d.rs1) (reg d.rs2))
  execute_type InstrType.c_swsp = do_store32 (add32 (reg 2) d.imm) (reg d.rs2)
  execute_type InstrType.illegal =
      with_result (set_trap (initial_result pc) illegal_instruction d.raw)

  unfoldable pub execute : Outcome M
  unfolding execute_type
  execute = execute_type d.type
