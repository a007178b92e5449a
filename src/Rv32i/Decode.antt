-- ===== src/Rv32i/Decode.antt =====
-- riscv_rv32i.hpp, `Decoder`. Its `s_mode_enabled` is the first argument of `decode`.
use rv32_complete_v.Common.Fields.{bits}
use rv32_complete_v.Prelude.{◌!=◌, bit_and, shl32, ◌==◌, Bool, if◌then◌else◌, bit_or, sra32, ℕ}
use rv32_complete_v.Rv32i.Types.{InstrType, InstrFormat, DecodedInstr}

unfoldable pub decode_i_imm : ℕ → ℕ
decode_i_imm instr = sra32 instr 20

unfoldable pub decode_s_imm : ℕ → ℕ
unfolding bits
decode_s_imm instr =
    let imm = bit_or (shl32 (bits instr 31 25) 5) (bits instr 11 7) in
    if bit_and imm 0x800 != 0 then bit_or imm 0xffff_f000 else imm

unfoldable pub decode_b_imm : ℕ → ℕ
unfolding bits
decode_b_imm instr =
    let imm =
      bit_or
        (bit_or (bit_or (shl32 (bits instr 31 31) 12) (shl32 (bits instr 7 7) 11))
          (shl32 (bits instr 30 25) 5))
        (shl32 (bits instr 11 8) 1) in
    if bit_and imm 0x1000 != 0 then bit_or imm 0xffff_e000 else imm

unfoldable pub decode_j_imm : ℕ → ℕ
unfolding bits
decode_j_imm instr =
    let imm =
      bit_or
        (bit_or (bit_or (shl32 (bits instr 31 31) 20) (shl32 (bits instr 19 12) 12))
          (shl32 (bits instr 20 20) 11))
        (shl32 (bits instr 30 21) 1) in
    if bit_and imm 0x10_0000 != 0 then bit_or imm 0xffe0_0000 else imm

unfoldable pub decode_branch : DecodedInstr → DecodedInstr
decode_branch d =
    if d.funct3 == 0b000
    then record d { type = InstrType.beq }
    else if d.funct3 == 0b001
    then record d { type = InstrType.bne }
    else if d.funct3 == 0b100
    then record d { type = InstrType.blt }
    else if d.funct3 == 0b101
    then record d { type = InstrType.bge }
    else if d.funct3 == 0b110
    then record d { type = InstrType.bltu }
    else if d.funct3 == 0b111
    then record d { type = InstrType.bgeu }
    else d

unfoldable pub decode_load : DecodedInstr → DecodedInstr
decode_load d =
    if d.funct3 == 0b000
    then record d { type = InstrType.lb }
    else if d.funct3 == 0b001
    then record d { type = InstrType.lh }
    else if d.funct3 == 0b010
    then record d { type = InstrType.lw }
    else if d.funct3 == 0b100
    then record d { type = InstrType.lbu }
    else if d.funct3 == 0b101
    then record d { type = InstrType.lhu }
    else d

unfoldable pub decode_store : DecodedInstr → DecodedInstr
decode_store d =
    if d.funct3 == 0b000
    then record d { type = InstrType.sb }
    else if d.funct3 == 0b001
    then record d { type = InstrType.sh }
    else if d.funct3 == 0b010
    then record d { type = InstrType.sw }
    else d

unfoldable pub decode_op_imm : DecodedInstr → DecodedInstr
decode_op_imm d =
    if d.funct3 == 0b000
    then record d { type = InstrType.addi }
    else if d.funct3 == 0b010
    then record d { type = InstrType.slti }
    else if d.funct3 == 0b011
    then record d { type = InstrType.sltiu }
    else if d.funct3 == 0b100
    then record d { type = InstrType.xori }
    else if d.funct3 == 0b110
    then record d { type = InstrType.ori }
    else if d.funct3 == 0b111
    then record d { type = InstrType.andi }
    else if d.funct3 == 0b001
    then (if d.funct7 == 0b0000000 then record d { type = InstrType.slli; imm = d.rs2 } else d)
    else if d.funct3 == 0b101
    then (if d.funct7 == 0b0000000
        then record d { type = InstrType.srli; imm = d.rs2 }
        else if d.funct7 == 0b0100000
        then record d { type = InstrType.srai; imm = d.rs2 }
        else d)
    else d

unfoldable pub decode_op : DecodedInstr → DecodedInstr
decode_op d =
    if d.funct7 == 0b0000000
    then (if d.funct3 == 0b000
        then record d { type = InstrType.add }
        else if d.funct3 == 0b001
        then record d { type = InstrType.sll }
        else if d.funct3 == 0b010
        then record d { type = InstrType.slt }
        else if d.funct3 == 0b011
        then record d { type = InstrType.sltu }
        else if d.funct3 == 0b100
        then record d { type = InstrType.xor }
        else if d.funct3 == 0b101
        then record d { type = InstrType.srl }
        else if d.funct3 == 0b110
        then record d { type = InstrType.or }
        else if d.funct3 == 0b111
        then record d { type = InstrType.and }
        else d)
    else if d.funct7 == 0b0100000
    then (if d.funct3 == 0b000
        then record d { type = InstrType.sub }
        else if d.funct3 == 0b101
        then record d { type = InstrType.sra }
        else d)
    else d

unfoldable pub decode_fence : DecodedInstr → DecodedInstr
decode_fence d = if d.funct3 == 0b000 then record d { type = InstrType.fence } else d

unfoldable pub decode_system : Bool → DecodedInstr → DecodedInstr
decode_system s_mode_enabled d =
    if d.funct3 == 0
    then (if d.raw == 0x0000_0073
        then record d { type = InstrType.ecall }
        else if d.raw == 0x0010_0073
        then record d { type = InstrType.ebreak }
        else if d.raw == 0x3020_0073
        then record d { type = InstrType.mret }
        else if d.raw == 0x1050_0073
        then record d { type = InstrType.wfi }
        else if s_mode_enabled
        then (if d.raw == 0x1020_0073
            then record d { type = InstrType.sret }
            else if bit_and d.raw 0xfe00_7fff == 0x1200_0073
            then record d { type = InstrType.sfence_vma }
            else d)
        else d)
    else d

-- The fields that `decode` sets before the `switch`.
unfoldable pub fields : ℕ → DecodedInstr
unfolding bits
fields instr = record {
  type = InstrType.illegal;
  format = InstrFormat.unknown;
  rd = bits instr 11 7;
  rs1 = bits instr 19 15;
  rs2 = bits instr 24 20;
  imm = 0;
  funct3 = bits instr 14 12;
  funct7 = bits instr 31 25;
  raw = instr;
}

-- The `switch (op)`.
unfoldable pub decode_opcode : Bool → ℕ → ℕ → DecodedInstr → DecodedInstr
decode_opcode s_mode_enabled op instr d =
    if op == 0b0110111
    then record d {
      type = InstrType.lui;
      format = InstrFormat.u_type;
      imm = bit_and instr 0xffff_f000;
    }
    else if op == 0b0010111
    then record d {
      type = InstrType.auipc;
      format = InstrFormat.u_type;
      imm = bit_and instr 0xffff_f000;
    }
    else if op == 0b1101111
    then record d { type = InstrType.jal; format = InstrFormat.j_type; imm = decode_j_imm instr }
    else if op == 0b1100111
    then (if d.funct3 == 0b000
        then record d {
          type = InstrType.jalr;
          format = InstrFormat.i_type;
          imm = decode_i_imm instr;
        }
        else record d { format = InstrFormat.i_type })
    else if op == 0b1100011
    then decode_branch (record d { format = InstrFormat.b_type; imm = decode_b_imm instr })
    else if op == 0b0000011
    then decode_load (record d { format = InstrFormat.i_type; imm = decode_i_imm instr })
    else if op == 0b0100011
    then decode_store (record d { format = InstrFormat.s_type; imm = decode_s_imm instr })
    else if op == 0b0010011
    then decode_op_imm (record d { format = InstrFormat.i_type; imm = decode_i_imm instr })
    else if op == 0b0110011
    then decode_op (record d { format = InstrFormat.r_type })
    else if op == 0b0001111
    then decode_fence (record d { format = InstrFormat.i_type })
    else if op == 0b1110011
    then decode_system s_mode_enabled (record d { format = InstrFormat.system })
    else d

unfoldable pub decode : Bool → ℕ → DecodedInstr
unfolding bits fields decode_opcode
decode s_mode_enabled instr = decode_opcode s_mode_enabled (bits instr 6 0) instr (fields instr)
