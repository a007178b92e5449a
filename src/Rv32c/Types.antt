-- ===== src/Rv32c/Types.antt =====
-- riscv_rv32c.hpp: instruction types, the decoded instruction and the execution result.
use rv32_complete_v.Prelude.{ℕ, Bool}

pub data InstrType : Type 0 where
  c_addi4spn c_lw c_sw : InstrType
  c_nop c_addi c_jal c_li c_addi16sp c_lui : InstrType
  c_srli c_srai c_andi c_sub c_xor c_or c_and : InstrType
  c_j c_beqz c_bnez : InstrType
  c_slli c_lwsp c_jr c_mv c_ebreak c_jalr c_add c_swsp : InstrType
  illegal : InstrType

-- `imm` is the 32-bit pattern of the `int32_t`.
pub record DecodedInstr : Type 0 where
  pub type : InstrType
  pub rd : ℕ
  pub rs1 : ℕ
  pub rs2 : ℕ
  pub imm : ℕ
  pub raw : ℕ

-- Without `trap_info`, a text for the user.
pub record ExecResult : Type 0 where
  pub next_pc : ℕ
  pub branch_taken : Bool
  pub trap : Bool
  pub trap_cause : ℕ
  pub trap_value : ℕ
