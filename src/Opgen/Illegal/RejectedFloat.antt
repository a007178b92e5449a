-- ===== src/Opgen/Illegal/RejectedFloat.antt =====
-- riscv_illegal_opgen.hpp against riscv_opcode_classify.hpp: the fields for which a floating-point word belongs
-- to no extension.
use rv32_complete_v.Common.Fields.{bits, bits_lem}
use rv32_complete_v.Common.Encode.{Fields}
use rv32_complete_v.Rv32i.Decode as I
use rv32_complete_v.Rv32f.Decode as F
use rv32_complete_v.Rv32f.Types as FTypes
use rv32_complete_v.OpcodeClassify.{opcode_is_rv32f}
use rv32_complete_v.OpcodeClassify.Exclusive.{wide_classes, rv32i_illegal}
use rv32_complete_v.OpcodeClassify.Opcodes.{
  is_float_op, zifencei_op, zicsr_op, rv32m_op, rv32a_op, zba_op, zbb_op, zbs_op, zicond_op,
}
use rv32_complete_v.Opgen.Illegal.Rejected.{IsRejected, is_compressed_op, no_short}
use rv32_complete_v.Prelude.{
  ℕ, ◌%◌, ◌≡◌, ◌∙◌, Bool, true, ◌&&◌, ◌||◌, arith, ltb, ◌==◌, ◌!=◌, if◌then◌else◌,
}

pub float-IsRejected :
    (s : Bool) (w : ℕ)
    → is_float_op (bits w 6 0) ≡ true
    → (F.decode w).type ≡ FTypes.InstrType.illegal
    → IsRejected s w
unfolding wide_classes is_float_op opcode_is_rv32f I.decode I.decode_opcode I.fields
float-IsRejected s w h illegal = ground (
  arith,
  no_short w (is_compressed_op w (ground arith)),
  rv32i_illegal s w (ground arith),
  zifencei_op w,
  zicsr_op w,
  rv32m_op w,
  rv32a_op w,
  zba_op w,
  zbb_op w,
  zbs_op w,
  zicond_op w,
)

-- The type of an OP-FP word after the test of its rounding mode.
unfoldable pub checked_type : ℕ → ℕ → FTypes.InstrType → FTypes.InstrType
unfolding F.uses_rm
checked_type f3 rs2 t =
    if F.uses_rm t && (f3 == 0b101 || f3 == 0b110) then FTypes.InstrType.illegal else t

-- The values of `funct7` that no OP-FP instruction has, of instructions with a rounding mode, and of the
-- conversions.
unfoldable pub is_unassigned : ℕ → Bool
is_unassigned f7 =
    f7 == 0b0000001
    || f7 == 0b0001001
    || f7 == 0b0001101
    || f7 == 0b0101101
    || f7 == 0b0010001
    || f7 == 0b1111111

unfoldable pub is_rounded : ℕ → Bool
is_rounded f7 =
    f7 == 0b0000000 || f7 == 0b0001000 || f7 == 0b0101100 || f7 == 0b1100000 || f7 == 0b1101000

unfoldable pub is_conversion : ℕ → Bool
is_conversion f7 = f7 == 0b1100000 || f7 == 0b1101000

pub unassigned_type :
    (f7 f3 rs2 : ℕ)
    → is_unassigned f7 ≡ true
    → checked_type f3 rs2 (F.op_fp_type f7 f3 rs2) ≡ FTypes.InstrType.illegal
unfolding F.op_fp_type checked_type F.uses_rm is_unassigned
unassigned_type f7 f3 rs2 h = ground arith

pub reserved_mode_type :
    (f7 f3 rs2 : ℕ)
    → is_rounded f7 ≡ true
    → (f3 == 5 || f3 == 6) ≡ true
    → checked_type f3 rs2 (F.op_fp_type f7 f3 rs2) ≡ FTypes.InstrType.illegal
unfolding F.op_fp_type checked_type F.uses_rm is_rounded
reserved_mode_type f7 f3 rs2 h r = ground arith

pub conversion_type :
    (f7 f3 rs2 : ℕ)
    → is_conversion f7 ≡ true
    → ltb 1 rs2 ≡ true
    → checked_type f3 rs2 (F.op_fp_type f7 f3 rs2) ≡ FTypes.InstrType.illegal
unfolding F.op_fp_type checked_type F.uses_rm is_conversion
conversion_type f7 f3 rs2 h r = ground arith

pub checked_type-decode :
    (w : ℕ) {rd f3 rs1 rs2 f7 : ℕ}
    → Fields w 0b1010011 rd f3 rs1 rs2 f7
    → (F.decode w).type ≡ checked_type f3 rs2 (F.op_fp_type f7 f3 rs2)
unfolding F.decode F.decode_opcode F.fields F.decode_op_fp F.reserved_rm checked_type
checked_type-decode w h = ground arith

pub op_fp-IsRejected :
    (s : Bool) (w : ℕ) {rd f3 rs1 rs2 f7 : ℕ}
    → Fields w 0b1010011 rd f3 rs1 rs2 f7
    → checked_type f3 rs2 (F.op_fp_type f7 f3 rs2) ≡ FTypes.InstrType.illegal
    → IsRejected s w
unfolding is_float_op
op_fp-IsRejected s w {rd} {f3} {rs1} {rs2} {f7} h bad =
    float-IsRejected s w (ground arith) (checked_type-decode w h ∙ bad)

-- Loads and stores of a size that RV32F does not have.
unfoldable pub bad_float_memory : ℕ → ℕ → Bool
bad_float_memory op f3 = (op == 0b0000111 || op == 0b0100111) && f3 != 0b010

pub float_memory-IsRejected :
    (s : Bool) (w op : ℕ) {rd f3 rs1 rs2 f7 : ℕ}
    → Fields w op rd f3 rs1 rs2 f7
    → bad_float_memory op f3 ≡ true
    → IsRejected s w
unfolding is_float_op bad_float_memory F.decode F.decode_opcode F.fields F.reserved_rm F.uses_rm
float_memory-IsRejected s w op h bad = float-IsRejected s w (ground arith) (ground arith)

pub fused-IsRejected :
    (s : Bool) (w op : ℕ) {rd f3 rs1 rs2 f7 : ℕ}
    → Fields w op rd f3 rs1 rs2 f7
    → ((op == 0b1000011 || op == 0b1000111 || op == 0b1001011 || op == 0b1001111) && f7 % 4 != 0)
      ≡ true
    → IsRejected s w
unfolding is_float_op F.decode F.decode_opcode F.fields F.fused F.reserved_rm F.uses_rm
fused-IsRejected s w op h bad =
    let e : bits w 26 25 ≡ bits w 31 25 % 4 =
      omega (arith, bits_lem w 31 25 (omega arith), bits_lem w 26 25 (omega arith)) in
    float-IsRejected s w (ground arith) (ground arith)
