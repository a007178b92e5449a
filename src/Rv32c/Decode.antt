-- ===== src/Rv32c/Decode.antt =====
-- riscv_rv32c.hpp, `Decoder`. An instruction is a 16-bit word.
use rv32_complete_v.Prelude.{
  ℕ, bit_and, bit_or, Bool, ◌&&◌, ◌==◌, ◌!=◌, if◌then◌else◌, shl32, shr32,
}
use rv32_complete_v.Common.Fields.{creg_to_reg}
use rv32_complete_v.Rv32c.Types.{InstrType, DecodedInstr}

-- `(instr >> lo) & mask`.
abbrev pub field : ℕ → ℕ → ℕ → ℕ
field instr lo mask = bit_and (shr32 instr lo) mask

unfoldable pub decode_cj_imm : ℕ → ℕ
decode_cj_imm instr =
    let imm = bit_or (shl32 (field instr 2 0x1) 5) (
      bit_or (shl32 (field instr 3 0x7) 1) (
        bit_or (shl32 (field instr 6 0x1) 7) (
          bit_or (shl32 (field instr 7 0x1) 6) (
            bit_or (shl32 (field instr 8 0x1) 10) (
              bit_or (shl32 (field instr 9 0x3) 8)
                (bit_or (shl32 (field instr 11 0x1) 4) (shl32 (field instr 12 0x1) 11))))))) in
    if bit_and imm 0x800 != 0 then bit_or imm 0xffff_f000 else imm

unfoldable pub decode_cb_imm : ℕ → ℕ
decode_cb_imm instr =
    let imm = bit_or (shl32 (field instr 2 0x1) 5) (
      bit_or (shl32 (field instr 3 0x3) 1) (
        bit_or (shl32 (field instr 5 0x3) 6)
          (bit_or (shl32 (field instr 10 0x3) 3) (shl32 (field instr 12 0x1) 8)))) in
    if bit_and imm 0x100 != 0 then bit_or imm 0xffff_fe00 else imm

-- The six-bit immediate of C.ADDI, C.LI and C.ANDI, and its sign extension.
unfoldable pub six_bits : ℕ → ℕ
six_bits instr = bit_or (field instr 2 0x1f) (shl32 (field instr 12 0x1) 5)

unfoldable pub signed_six_bits : ℕ → ℕ
unfolding six_bits
signed_six_bits instr =
    let imm = six_bits instr in if bit_and imm 0x20 != 0 then bit_or imm 0xffff_ffc0 else imm

unfoldable pub addi4spn_imm : ℕ → ℕ
addi4spn_imm instr = bit_or (shl32 (field instr 5 0x1) 3) (
    bit_or (shl32 (field instr 6 0x1) 2)
      (bit_or (shl32 (field instr 7 0xf) 6) (shl32 (field instr 11 0x3) 4)))

-- The offset of C.LW and C.SW.
unfoldable pub word_offset : ℕ → ℕ
word_offset instr =
    bit_or (shl32 (field instr 5 0x1) 6)
      (bit_or (shl32 (field instr 6 0x1) 2) (shl32 (field instr 10 0x7) 3))

unfoldable pub addi16sp_imm : ℕ → ℕ
addi16sp_imm instr = bit_or (shl32 (field instr 2 0x1) 5) (
    bit_or (shl32 (field instr 3 0x3) 7) (
      bit_or (shl32 (field instr 5 0x1) 6)
        (bit_or (shl32 (field instr 6 0x1) 4) (shl32 (field instr 12 0x1) 9))))

unfoldable pub lwsp_imm : ℕ → ℕ
lwsp_imm instr =
    bit_or (shl32 (field instr 2 0x3) 6)
      (bit_or (shl32 (field instr 4 0x7) 2) (shl32 (field instr 12 0x1) 5))

unfoldable pub swsp_imm : ℕ → ℕ
swsp_imm instr = bit_or (shl32 (field instr 7 0x3) 6) (shl32 (field instr 9 0xf) 2)

unfoldable pub decode_c0 : ℕ → DecodedInstr → DecodedInstr
unfolding creg_to_reg
decode_c0 instr d =
    let funct3 : ℕ = field instr 13 0x7 in
    if funct3 == 0b000
    then (let imm = addi4spn_imm instr in
        if imm != 0
        then record d {
          type = InstrType.c_addi4spn;
          rd = creg_to_reg (field instr 2 0x7);
          rs1 = 2;
          imm = imm;
        }
        else d)
    else if funct3 == 0b010
    then record d {
      type = InstrType.c_lw;
      rd = creg_to_reg (field instr 2 0x7);
      rs1 = creg_to_reg (field instr 7 0x7);
      imm = word_offset instr;
    }
    else if funct3 == 0b110
    then record d {
      type = InstrType.c_sw;
      rs2 = creg_to_reg (field instr 2 0x7);
      rs1 = creg_to_reg (field instr 7 0x7);
      imm = word_offset instr;
    }
    else d

-- C.ADDI16SP and C.LUI, where `rd` is set.
unfoldable pub decode_addi16sp_lui : ℕ → DecodedInstr → DecodedInstr
decode_addi16sp_lui instr d =
    if d.rd == 2
    then (let nzimm = addi16sp_imm instr in
        if nzimm != 0
        then record d {
          type = InstrType.c_addi16sp;
          rs1 = 2;
          imm = if bit_and nzimm 0x200 != 0 then bit_or nzimm 0xffff_fc00 else nzimm;
        }
        else d)
    else (let nzimm6 = six_bits instr in
        if nzimm6 != 0
        then record d {
          type = InstrType.c_lui;
          imm =
              if bit_and instr 0x1000 != 0
              then bit_or (shl32 nzimm6 12) 0xfffc_0000
              else shl32 nzimm6 12;
        }
        else d)

-- The `switch (funct2b)` of the register operations.
unfoldable pub decode_register_alu : ℕ → DecodedInstr → DecodedInstr
decode_register_alu instr d =
    let funct1 : ℕ = field instr 12 0x1 in
    let funct2b : ℕ = field instr 5 0x3 in
    if funct1 == 0
    then (if funct2b == 0b00
        then record d { type = InstrType.c_sub }
        else if funct2b == 0b01
        then record d { type = InstrType.c_xor }
        else if funct2b == 0b10
        then record d { type = InstrType.c_or }
        else if funct2b == 0b11
        then record d { type = InstrType.c_and }
        else d)
    else d

-- The ALU operations, where `rd` and `rs1` are set.
unfoldable pub decode_alu : ℕ → DecodedInstr → DecodedInstr
unfolding creg_to_reg decode_register_alu
decode_alu instr d =
    let funct2 : ℕ = field instr 10 0x3 in
    if funct2 == 0b00
    then (if field instr 12 0x1 == 0
        then record d { type = InstrType.c_srli; imm = field instr 2 0x1f }
        else d)
    else if funct2 == 0b01
    then (if field instr 12 0x1 == 0
        then record d { type = InstrType.c_srai; imm = field instr 2 0x1f }
        else d)
    else if funct2 == 0b10
    then record d { type = InstrType.c_andi; imm = signed_six_bits instr }
    else if funct2 == 0b11
    then decode_register_alu instr (record d { rs2 = creg_to_reg (field instr 2 0x7) })
    else d

unfoldable pub decode_c1 : ℕ → DecodedInstr → DecodedInstr
unfolding creg_to_reg decode_addi16sp_lui decode_alu
decode_c1 instr d =
    let funct3 : ℕ = field instr 13 0x7 in
    let full : ℕ = field instr 7 0x1f in
    let short : ℕ = creg_to_reg (field instr 7 0x7) in
    if funct3 == 0b000
    then record d {
      rd = full;
      rs1 = full;
      imm = signed_six_bits instr;
      type = if full == 0 then InstrType.c_nop else InstrType.c_addi;
    }
    else if funct3 == 0b001
    then record d { type = InstrType.c_jal; rd = 1; imm = decode_cj_imm instr }
    else if funct3 == 0b010
    then record d { type = InstrType.c_li; rd = full; imm = signed_six_bits instr }
    else if funct3 == 0b011
    then decode_addi16sp_lui instr (record d { rd = full })
    else if funct3 == 0b100
    then decode_alu instr (record d { rd = short; rs1 = short })
    else if funct3 == 0b101
    then record d { type = InstrType.c_j; imm = decode_cj_imm instr }
    else if funct3 == 0b110
    then record d { type = InstrType.c_beqz; rs1 = short; imm = decode_cb_imm instr }
    else if funct3 == 0b111
    then record d { type = InstrType.c_bnez; rs1 = short; imm = decode_cb_imm instr }
    else d

-- C.JR, C.MV, C.EBREAK, C.JALR and C.ADD.
unfoldable pub decode_jump_move : ℕ → DecodedInstr → DecodedInstr
decode_jump_move instr d =
    let rs1' : ℕ = field instr 7 0x1f in
    let rs2' : ℕ = field instr 2 0x1f in
    let funct1 : ℕ = field instr 12 0x1 in
    if funct1 == 0
    then (if rs2' == 0
        then (if rs1' != 0 then record d { type = InstrType.c_jr; rs1 = rs1' } else d)
        else record d { type = InstrType.c_mv; rd = rs1'; rs2 = rs2' })
    else if rs1' == 0 && rs2' == 0
    then record d { type = InstrType.c_ebreak }
    else if rs2' == 0
    then record d { type = InstrType.c_jalr; rd = 1; rs1 = rs1' }
    else record d { type = InstrType.c_add; rd = rs1'; rs1 = rs1'; rs2 = rs2' }

unfoldable pub decode_c2 : ℕ → DecodedInstr → DecodedInstr
unfolding decode_jump_move
decode_c2 instr d =
    let funct3 : ℕ = field instr 13 0x7 in
    let full : ℕ = field instr 7 0x1f in
    if funct3 == 0b000
    then (if field instr 12 0x1 == 0
        then record d { type = InstrType.c_slli; rd = full; rs1 = full; imm = field instr 2 0x1f }
        else d)
    else if funct3 == 0b010
    then (if full != 0
        then record d { type = InstrType.c_lwsp; rd = full; rs1 = 2; imm = lwsp_imm instr }
        else d)
    else if funct3 == 0b100
    then decode_jump_move instr d
    else if funct3 == 0b110
    then record d {
      type = InstrType.c_swsp;
      rs1 = 2;
      rs2 = field instr 2 0x1f;
      imm = swsp_imm instr;
    }
    else d

unfoldable pub undecoded : ℕ → DecodedInstr
undecoded instr = record {
  type = InstrType.illegal;
  rd = 0;
  rs1 = 0;
  rs2 = 0;
  imm = 0;
  raw = instr;
}

-- The `switch (op)`.
unfoldable pub decode_quadrant : ℕ → ℕ → DecodedInstr → DecodedInstr
decode_quadrant op instr d =
    if op == 0b00
    then decode_c0 instr d
    else if op == 0b01
    then decode_c1 instr d
    else if op == 0b10
    then decode_c2 instr d
    else d

unfoldable pub decode : ℕ → DecodedInstr
unfolding undecoded decode_quadrant
decode instr = decode_quadrant (bit_and instr 0x3) instr (undecoded instr)

unfoldable pub is_compressed : ℕ → Bool
is_compressed instr = bit_and instr 0x3 != 0x3
