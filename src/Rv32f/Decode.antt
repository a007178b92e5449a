-- ===== src/Rv32f/Decode.antt =====
-- riscv_rv32f.hpp, `Decoder`.
use rv32_complete_v.Rv32f.Opcode
use rv32_complete_v.Prelude.{ℕ, bit_or, Bool, true, false, ◌&&◌, ◌||◌, ◌==◌, if◌then◌else◌, shl32}
use rv32_complete_v.Common.Fields.{bits, sign_extend}
use rv32_complete_v.Rv32f.Types.{InstrType, DecodedInstr}

unfoldable pub uses_rm : InstrType → Bool
uses_rm InstrType.fadd_s = true
uses_rm InstrType.fsub_s = true
uses_rm InstrType.fmul_s = true
uses_rm InstrType.fdiv_s = true
uses_rm InstrType.fsqrt_s = true
uses_rm InstrType.fmadd_s = true
uses_rm InstrType.fmsub_s = true
uses_rm InstrType.fnmadd_s = true
uses_rm InstrType.fnmsub_s = true
uses_rm InstrType.fcvt_w_s = true
uses_rm InstrType.fcvt_wu_s = true
uses_rm InstrType.fcvt_s_w = true
uses_rm InstrType.fcvt_s_wu = true
uses_rm _ = false

-- The type that `decode_op_fp` finds for a funct7, a funct3 and an rs2.
unfoldable pub op_fp_type : ℕ → ℕ → ℕ → InstrType
op_fp_type funct7 funct3 rs2 =
    if funct7 == 0b0000000
    then InstrType.fadd_s
    else if funct7 == 0b0000100
    then InstrType.fsub_s
    else if funct7 == 0b0001000
    then InstrType.fmul_s
    else if funct7 == 0b0001100
    then InstrType.fdiv_s
    else if funct7 == 0b0101100
    then (if rs2 == 0 then InstrType.fsqrt_s else InstrType.illegal)
    else if funct7 == 0b0010000
    then (if funct3 == 0b000
        then InstrType.fsgnj_s
        else if funct3 == 0b001
        then InstrType.fsgnjn_s
        else if funct3 == 0b010
        then InstrType.fsgnjx_s
        else InstrType.illegal)
    else if funct7 == 0b0010100
    then (if funct3 == 0b000
        then InstrType.fmin_s
        else if funct3 == 0b001
        then InstrType.fmax_s
        else InstrType.illegal)
    else if funct7 == 0b1100000
    then (if rs2 == 0
        then InstrType.fcvt_w_s
        else if rs2 == 1
        then InstrType.fcvt_wu_s
        else InstrType.illegal)
    else if funct7 == 0b1110000
    then (if funct3 == 0b000
        then (if rs2 == 0 then InstrType.fmv_x_w else InstrType.illegal)
        else if funct3 == 0b001
        then (if rs2 == 0 then InstrType.fclass_s else InstrType.illegal)
        else InstrType.illegal)
    else if funct7 == 0b1010000
    then (if funct3 == 0b010
        then InstrType.feq_s
        else if funct3 == 0b001
        then InstrType.flt_s
        else if funct3 == 0b000
        then InstrType.fle_s
        else InstrType.illegal)
    else if funct7 == 0b1101000
    then (if rs2 == 0
        then InstrType.fcvt_s_w
        else if rs2 == 1
        then InstrType.fcvt_s_wu
        else InstrType.illegal)
    else if funct7 == 0b1111000
    then (if funct3 == 0 && rs2 == 0 then InstrType.fmv_w_x else InstrType.illegal)
    else InstrType.illegal

unfoldable pub decode_op_fp : DecodedInstr → DecodedInstr
unfolding op_fp_type
decode_op_fp d = record d { type = op_fp_type d.funct7 d.funct3 d.rs2 }

-- The fields that `decode` sets before the `switch`.
unfoldable pub fields : ℕ → DecodedInstr
unfolding bits
fields instr = record {
  type = InstrType.illegal;
  rd = bits instr 11 7;
  rs1 = bits instr 19 15;
  rs2 = bits instr 24 20;
  rs3 = bits instr 31 27;
  rm = bits instr 14 12;
  imm = 0;
  funct7 = bits instr 31 25;
  funct3 = bits instr 14 12;
  raw = instr;
}

-- A fused instruction, if its format is the single-precision one.
unfoldable pub fused : ℕ → InstrType → DecodedInstr → DecodedInstr
unfolding bits
fused instr t d = if bits instr 26 25 == 0b00 then record d { type = t } else d

-- The `switch (op)`.
unfoldable pub decode_opcode : ℕ → ℕ → DecodedInstr → DecodedInstr
unfolding bits sign_extend fused decode_op_fp
decode_opcode op instr d =
    if op == Opcode.load_fp
    then (if d.funct3 == 0b010
        then record d { type = InstrType.flw; imm = sign_extend (bits instr 31 20) 11 }
        else d)
    else if op == Opcode.store_fp
    then (if d.funct3 == 0b010
        then record d {
          type = InstrType.fsw;
          imm = sign_extend (bit_or (shl32 (bits instr 31 25) 5) (bits instr 11 7)) 11;
        }
        else d)
    else if op == Opcode.madd
    then fused instr InstrType.fmadd_s d
    else if op == Opcode.msub
    then fused instr InstrType.fmsub_s d
    else if op == Opcode.nmsub
    then fused instr InstrType.fnmsub_s d
    else if op == Opcode.nmadd
    then fused instr InstrType.fnmadd_s d
    else if op == Opcode.op_fp
    then decode_op_fp d
    else d

-- The static rounding modes 101 and 110 are reserved.
unfoldable pub reserved_rm : DecodedInstr → Bool
unfolding uses_rm
reserved_rm d = uses_rm d.type && (d.rm == 0b101 || d.rm == 0b110)

unfoldable pub decode : ℕ → DecodedInstr
unfolding bits fields decode_opcode reserved_rm
decode instr =
    let d = decode_opcode (bits instr 6 0) instr (fields instr) in
    if reserved_rm d then record d { type = InstrType.illegal } else d

unfoldable pub is_f_instruction : ℕ → Bool
unfolding bits
is_f_instruction instr =
    let op = bits instr 6 0 in
    op == Opcode.load_fp
    || op == Opcode.store_fp
    || op == Opcode.madd
    || op == Opcode.msub
    || op == Opcode.nmsub
    || op == Opcode.nmadd
    || op == Opcode.op_fp
