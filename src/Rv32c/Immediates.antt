-- ===== src/Rv32c/Immediates.antt =====
-- riscv_rv32c.hpp: the immediates that the decoder builds.
use rv32_complete_v.Prelude.{
  ℕ, ◌^◌, ◌<◌, bit_and, bit_or, arith, ◌!=◌, if◌then◌else◌, bit_or-lt, bit_and-le, shl32, shr32,
}
use rv32_complete_v.Common.Fields.{creg_to_reg}
use rv32_complete_v.Rv32c.Types.{DecodedInstr}
use rv32_complete_v.Rv32c.Decode.{
  decode, decode_c0, decode_c1, decode_c2, decode_quadrant, decode_alu, decode_register_alu,
  decode_addi16sp_lui, decode_jump_move, decode_cj_imm, decode_cb_imm, six_bits, signed_six_bits,
  addi4spn_imm, word_offset, addi16sp_imm, lwsp_imm, swsp_imm, field, undecoded,
}

extended-lt :
    (imm sign ones : ℕ)
    → imm < 2 ^ 32
    → ones < 2 ^ 32
    → (if bit_and imm sign != 0 then bit_or imm ones else imm) < 2 ^ 32
extended-lt imm sign ones h k = ground (arith, bit_or-lt 32 imm ones h k)

or_lt : (a b : ℕ) → a < 2 ^ 32 → b < 2 ^ 32 → bit_or a b < 2 ^ 32
or_lt a b h k = bit_or-lt 32 a b h k

field-lt : (instr lo mask : ℕ) → mask < 2 ^ 32 → field instr lo mask < 2 ^ 32
field-lt instr lo mask h = omega (arith, bit_and-le (shr32 instr lo) mask)

shl32-lt : (a k : ℕ) → shl32 a k < 2 ^ 32
shl32-lt a k = omega arith

ruleset sizes = (or_lt, shl32-lt, field-lt, extended-lt)

decode_cj_imm-lt : (instr : ℕ) → decode_cj_imm instr < 2 ^ 32
unfolding decode_cj_imm
decode_cj_imm-lt instr = search (sizes, arith)

decode_cb_imm-lt : (instr : ℕ) → decode_cb_imm instr < 2 ^ 32
unfolding decode_cb_imm
decode_cb_imm-lt instr = search (sizes, arith)

six_bits-lt : (instr : ℕ) → six_bits instr < 2 ^ 32
unfolding six_bits
six_bits-lt instr = search (sizes, arith)

signed_six_bits-lt : (instr : ℕ) → signed_six_bits instr < 2 ^ 32
unfolding signed_six_bits
signed_six_bits-lt instr =
    extended-lt (six_bits instr) 0x20 0xffff_ffc0 (six_bits-lt instr) (omega arith)

addi4spn_imm-lt : (instr : ℕ) → addi4spn_imm instr < 2 ^ 32
unfolding addi4spn_imm
addi4spn_imm-lt instr = search (sizes, arith)

word_offset-lt : (instr : ℕ) → word_offset instr < 2 ^ 32
unfolding word_offset
word_offset-lt instr = search (sizes, arith)

addi16sp_imm-lt : (instr : ℕ) → addi16sp_imm instr < 2 ^ 32
unfolding addi16sp_imm
addi16sp_imm-lt instr = search (sizes, arith)

lwsp_imm-lt : (instr : ℕ) → lwsp_imm instr < 2 ^ 32
unfolding lwsp_imm
lwsp_imm-lt instr = search (sizes, arith)

swsp_imm-lt : (instr : ℕ) → swsp_imm instr < 2 ^ 32
unfolding swsp_imm
swsp_imm-lt instr = search (sizes, arith)

decode_c0-imm : (instr : ℕ) (d : DecodedInstr) → d.imm < 2 ^ 32 → (decode_c0 instr d).imm < 2 ^ 32
unfolding decode_c0
decode_c0-imm instr d h = ground (arith, addi4spn_imm-lt instr, word_offset-lt instr)

decode_addi16sp_lui-imm :
    (instr : ℕ) (d : DecodedInstr) → d.imm < 2 ^ 32 → (decode_addi16sp_lui instr d).imm < 2 ^ 32
unfolding decode_addi16sp_lui
decode_addi16sp_lui-imm instr d h = ground (
  arith,
  extended-lt (addi16sp_imm instr) 0x200 0xffff_fc00 (addi16sp_imm-lt instr) (omega arith),
  or_lt (shl32 (six_bits instr) 12) 0xfffc_0000 (omega arith) (omega arith),
)

decode_alu-imm : (instr : ℕ) (d : DecodedInstr) → d.imm < 2 ^ 32 → (decode_alu instr d).imm < 2 ^ 32
unfolding decode_alu decode_register_alu
decode_alu-imm instr d h =
    ground (arith, field-lt instr 2 0x1f (omega arith), signed_six_bits-lt instr)

decode_c1-imm : (instr : ℕ) (d : DecodedInstr) → d.imm < 2 ^ 32 → (decode_c1 instr d).imm < 2 ^ 32
unfolding decode_c1
decode_c1-imm instr d h =
    let full : ℕ = field instr 7 0x1f in
    let short : ℕ = creg_to_reg (field instr 7 0x7) in
    ground (
      arith,
      signed_six_bits-lt instr,
      decode_cj_imm-lt instr,
      decode_cb_imm-lt instr,
      decode_addi16sp_lui-imm instr (record d { rd = full }) h,
      decode_alu-imm instr (record d { rd = short; rs1 = short }) h,
    )

decode_c2-imm : (instr : ℕ) (d : DecodedInstr) → d.imm < 2 ^ 32 → (decode_c2 instr d).imm < 2 ^ 32
unfolding decode_c2 decode_jump_move
decode_c2-imm instr d h =
    ground (arith, field-lt instr 2 0x1f (omega arith), lwsp_imm-lt instr, swsp_imm-lt instr)

-- The immediate of a decoded instruction is a 32-bit pattern.
pub decode-imm-lt : (instr : ℕ) → (decode instr).imm < 2 ^ 32
unfolding decode undecoded decode_quadrant
decode-imm-lt instr =
    let d : DecodedInstr = undecoded instr in
    ground (
      arith,
      decode_c0-imm instr d (omega arith),
      decode_c1-imm instr d (omega arith),
      decode_c2-imm instr d (omega arith),
    )
