-- ===== src/Rv32f/Types.antt =====
-- riscv_rv32f.hpp: instruction types, the decoded instruction and the execution result.
use rv32_complete_v.Prelude.{ℕ, Bool}
use rv32_complete_v.Rv32f.Fcsr.{FFlags}

pub data InstrType : Type 0 where
  flw fsw : InstrType
  fadd_s fsub_s fmul_s fdiv_s fsqrt_s fmin_s fmax_s : InstrType
  fmadd_s fmsub_s fnmadd_s fnmsub_s : InstrType
  fcvt_w_s fcvt_wu_s fcvt_s_w fcvt_s_wu : InstrType
  fmv_x_w fmv_w_x : InstrType
  feq_s flt_s fle_s : InstrType
  fsgnj_s fsgnjn_s fsgnjx_s : InstrType
  fclass_s : InstrType
  illegal : InstrType

-- `imm` is the 32-bit pattern of the `int32_t`.
pub record DecodedInstr : Type 0 where
  pub type : InstrType
  pub rd : ℕ
  pub rs1 : ℕ
  pub rs2 : ℕ
  pub rs3 : ℕ
  pub rm : ℕ
  pub imm : ℕ
  pub funct7 : ℕ
  pub funct3 : ℕ
  pub raw : ℕ

-- Without `error`, a text for the user; `float_result` is the pattern of the `float`.
pub record ExecResult : Type 0 where
  pub valid : Bool
  pub flags : FFlags
  pub int_result : ℕ
  pub float_result : ℕ
  pub wrote_int_reg : Bool
  pub wrote_float_reg : Bool
  pub memory_read : Bool
  pub memory_written : Bool
  pub trap_cause : ℕ
  pub trap_value : ℕ
