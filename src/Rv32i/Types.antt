-- ===== src/Rv32i/Types.antt =====
-- riscv_rv32i.hpp: instruction types, the decoded instruction and the execution result.
use rv32_complete_v.Prelude.{ℕ, Bool}

pub data InstrType : Type 0 where
  add sub sll slt sltu xor srl sra or and : InstrType
  addi slti sltiu xori ori andi slli srli srai : InstrType
  lb lh lw lbu lhu : InstrType
  sb sh sw : InstrType
  beq bne blt bge bltu bgeu : InstrType
  lui auipc : InstrType
  jal jalr : InstrType
  ecall ebreak mret sret wfi sfence_vma : InstrType
  fence : InstrType
  illegal : InstrType

pub data InstrFormat : Type 0 where
  r_type i_type s_type b_type u_type j_type system unknown : InstrFormat

-- `imm` is the 32-bit pattern of the `int32_t`.
pub record DecodedInstr : Type 0 where
  pub type : InstrType
  pub format : InstrFormat
  pub rd : ℕ
  pub rs1 : ℕ
  pub rs2 : ℕ
  pub imm : ℕ
  pub funct3 : ℕ
  pub funct7 : ℕ
  pub raw : ℕ

-- Without `trap_info`, a text for the user.
pub record ExecResult : Type 0 where
  pub next_pc : ℕ
  pub branch_taken : Bool
  pub trap : Bool
  pub trap_cause : ℕ
  pub trap_value : ℕ
  pub mret : Bool
  pub sret : Bool
  pub sfence_vma : Bool
  pub wfi : Bool
