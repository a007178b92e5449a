-- ===== src/Opgen/Illegal/Slots.antt =====
-- riscv_illegal_opgen.hpp: the fields of the words of the OP-IMM slots and of the atomic words.
use rv32_complete_v.Common.Fields.{bits, bits_lem}
use rv32_complete_v.Common.Encode.{Fields}
use rv32_complete_v.Rv32a as A
use rv32_complete_v.Rv32i.Decode as I
use rv32_complete_v.Zbb
use rv32_complete_v.Zbs
use rv32_complete_v.Cpu.Claims.{IsIllegal}
use rv32_complete_v.OpcodeClassify.{opcode_is_zbb, opcode_is_zbs}
use rv32_complete_v.OpcodeClassify.Exclusive.{wide_classes, rv32i_illegal}
use rv32_complete_v.OpcodeClassify.Opcodes.{
  is_float_op, zifencei_op, zicsr_op, rv32m_op, rv32a_op, rv32f_op, zba_op, zicond_op,
}
use rv32_complete_v.Opgen.Source.{entry, or_zero}
use rv32_complete_v.Opgen.Illegal.{enc_r, enc_i, is_unary}
use rv32_complete_v.Opgen.Illegal.Float.{is_amo}
use rv32_complete_v.Opgen.Illegal.Rejected.{
  IsRejected, atomic-IsRejected, no_short, is_compressed_op,
}
use rv32_complete_v.Opgen.Illegal.Words.{enc_r-Fields, enc_i-Fields}
use rv32_complete_v.Prelude.{
  ℕ, ◌+◌, ◌*◌, ◌/◌, ◌%◌, ◌<◌, bit_or, ◌≡◌, refl, Bool, true, false, not, ◌&&◌, ◌||◌, [], ◌∷◌, arith,
  ltb, ◌==◌, ◌!=◌, bit_or_add, shl32, below,
}

-- The values of `funct7` and `rs2` that the two slots leave unused.
unfoldable pub bad_slli : ℕ → ℕ → Bool
unfolding is_unary
bad_slli f7 rs2 =
    f7 == 0b0000001
    || f7 == 0b0000010
    || f7 == 0b0000011
    || f7 == 0b0000100
    || f7 == 0b0000101
    || f7 == 0b0000110
    || f7 == 0b0000111
    || f7 == 0b0001000
    || f7 == 0b0100000
    || f7 == 0b1111111
    || f7 == 0b0110000 && not (is_unary rs2)

unfoldable pub bad_srli : ℕ → ℕ → Bool
bad_srli f7 rs2 =
    f7 == 0b0000001
    || f7 == 0b0000010
    || f7 == 0b0000011
    || f7 == 0b0001000
    || f7 == 0b0100001
    || f7 == 0b0110001
    || f7 == 0b1111111
    || f7 == 0b0010100 && rs2 != 7
    || f7 == 0b0110100 && rs2 != 24

pub op_imm-IsRejected :
    (s : Bool) (w : ℕ)
    → bits w 6 0 ≡ 0b0010011
    → IsIllegal s w
    → opcode_is_zbb w ≡ false
    → opcode_is_zbs w ≡ false
    → IsRejected s w
unfolding wide_classes is_float_op
op_imm-IsRejected s w h illegal zbb zbs = ground (
  arith,
  no_short w (is_compressed_op w (ground arith)),
  rv32i_illegal s w illegal,
  zifencei_op w,
  zicsr_op w,
  rv32m_op w,
  rv32a_op w,
  rv32f_op w,
  zba_op w,
  zicond_op w,
)

module _ (s : Bool) (w : ℕ) {rd rs1 rs2 f7 : ℕ} where
  pub slli-base : Fields w 0b0010011 rd 0b001 rs1 rs2 f7 → bad_slli f7 rs2 ≡ true → IsIllegal s w
  unfolding bad_slli I.decode I.decode_opcode I.fields I.decode_op_imm
  slli-base h bad = ground arith

  pub slli-zbb :
      Fields w 0b0010011 rd 0b001 rs1 rs2 f7 → bad_slli f7 rs2 ≡ true → opcode_is_zbb w ≡ false
  unfolding bad_slli is_unary opcode_is_zbb Zbb.decode Zbb.decode_i_type
  slli-zbb h bad = ground arith

  pub slli-zbs :
      Fields w 0b0010011 rd 0b001 rs1 rs2 f7 → bad_slli f7 rs2 ≡ true → opcode_is_zbs w ≡ false
  unfolding bad_slli opcode_is_zbs Zbs.decode Zbs.type_of_op_imm
  slli-zbs h bad = ground arith

  pub srli-base : Fields w 0b0010011 rd 0b101 rs1 rs2 f7 → bad_srli f7 rs2 ≡ true → IsIllegal s w
  unfolding bad_srli I.decode I.decode_opcode I.fields I.decode_op_imm
  srli-base h bad = ground arith

  pub srli-zbb :
      Fields w 0b0010011 rd 0b101 rs1 rs2 f7 → bad_srli f7 rs2 ≡ true → opcode_is_zbb w ≡ false
  unfolding bad_srli opcode_is_zbb Zbb.decode Zbb.decode_i_type
  srli-zbb h bad = ground (arith, h.at_funct12, bits_lem w 24 20 (omega arith))

  pub srli-zbs :
      Fields w 0b0010011 rd 0b101 rs1 rs2 f7 → bad_srli f7 rs2 ≡ true → opcode_is_zbs w ≡ false
  unfolding bad_srli opcode_is_zbs Zbs.decode Zbs.type_of_op_imm
  srli-zbs h bad = ground arith

  pub amo-IsRejected :
      Fields w 0b0101111 rd 0b010 rs1 rs2 f7
      → (not (is_amo (f7 / 4)) || f7 / 4 == 2 && rs2 != 0) ≡ true
      → IsRejected s w
  unfolding is_amo A.decode A.type_of_funct5
  amo-IsRejected h bad =
      let e : bits w 31 27 ≡ bits w 31 25 / 4 =
        omega (arith, bits_lem w 31 27 (omega arith), bits_lem w 31 25 (omega arith)) in
      atomic-IsRejected s w h.at_op (ground arith)

-- The fields of `f7 << 5 | rs2`.
pub slot_fields : (f7 rs2 : ℕ) → f7 < 128 → rs2 < 32 → bit_or (shl32 f7 5) rs2 ≡ f7 * 32 + rs2
slot_fields f7 rs2 h l = ground (arith, bit_or_add 5 (shl32 f7 5) rs2 (omega arith) (omega arith))

pub amo_fields : (f5 order : ℕ) → f5 < 32 → order < 4 → bit_or (shl32 f5 2) order ≡ f5 * 4 + order
amo_fields f5 order h l =
    ground (arith, bit_or_add 2 (shl32 f5 2) order (omega arith) (omega arith))

pub slli_entries :
    (rs2 : ℕ)
    → below 9 (λ i.
      let f7 : ℕ = or_zero (
        entry
          (0b0000010 ∷ 0b0000011 ∷ 0b0000100 ∷ 0b0000101 ∷ 0b0000110 ∷ 0b0000111 ∷ 0b0001000
            ∷ 0b0100000 ∷ 0b1111111 ∷ [])
          i) in
      bad_slli f7 rs2 && ltb f7 128)
      ≡ true
unfolding bad_slli entry
slli_entries rs2 = refl

pub srli_entries :
    (rs2 : ℕ)
    → below 6 (λ i.
      let f7 : ℕ =
        or_zero
          (entry (0b0000010 ∷ 0b0000011 ∷ 0b0001000 ∷ 0b0100001 ∷ 0b0110001 ∷ 0b1111111 ∷ []) i) in
      bad_srli f7 rs2 && ltb f7 128)
      ≡ true
unfolding bad_srli entry
srli_entries rs2 = refl

pub slot_word-Fields :
    (f7 rs2 rs1 f3 rd : ℕ)
    → f7 < 128
    → rs2 < 32
    → Fields
        (enc_i (bit_or (shl32 f7 5) rs2) rs1 f3 rd 0b0010011)
        0b0010011
        (rd % 32)
        (f3 % 8)
        (rs1 % 32)
        rs2
        f7
slot_word-Fields f7 rs2 rs1 f3 rd h l =
    let low : (f7 * 32 + rs2) % 32 ≡ rs2 = omega arith in
    let high : (f7 * 32 + rs2) % 4096 / 32 ≡ f7 = omega arith in
    rw (slot_fields f7 rs2 h l)
      (rw (low, high) at (enc_i-Fields (f7 * 32 + rs2) rs1 f3 rd 0b0010011))

pub amo_word-Fields :
    (f5 order rs2 rs1 rd : ℕ)
    → f5 < 32
    → order < 4
    → Fields
        (enc_r (bit_or (shl32 f5 2) order) rs2 rs1 0b010 rd 0b0101111)
        0b0101111
        (rd % 32)
        0b010
        (rs1 % 32)
        (rs2 % 32)
        (f5 * 4 + order)
amo_word-Fields f5 order rs2 rs1 rd h l =
    let whole : (f5 * 4 + order) % 128 ≡ f5 * 4 + order = omega arith in
    rw (amo_fields f5 order h l)
      (rw whole at (enc_r-Fields (f5 * 4 + order) rs2 rs1 0b010 rd 0b0101111))

pub amo_word-IsRejected :
    (s : Bool) (f5 order rs2 rs1 rd : ℕ)
    → f5 < 32
    → order < 4
    → (not (is_amo f5) || f5 == 2 && rs2 % 32 != 0) ≡ true
    → IsRejected s (enc_r (bit_or (shl32 f5 2) order) rs2 rs1 0b010 rd 0b0101111)
amo_word-IsRejected s f5 order rs2 rs1 rd h l bad =
    let part : (f5 * 4 + order) / 4 ≡ f5 = omega arith in
    amo-IsRejected s _ (amo_word-Fields f5 order rs2 rs1 rd h l) (rw part bad)

-- One of the two slots: the test of its fields, and that its words are rejected.
abbrev pub IsSlot : Bool → ℕ → (ℕ → ℕ → Bool) → Type 0
IsSlot s f3 bad =
    (f7 rs2 rs1 rd : ℕ)
    → f7 < 128
    → rs2 < 32
    → bad f7 rs2 ≡ true
    → IsRejected s (enc_i (bit_or (shl32 f7 5) rs2) rs1 f3 rd 0b0010011)

pub slli-IsSlot : (s : Bool) → IsSlot s 0b001 bad_slli
slli-IsSlot s f7 rs2 rs1 rd h l bad =
    let fields = slot_word-Fields f7 rs2 rs1 0b001 rd h l in
    op_imm-IsRejected s _ fields.at_op (slli-base s _ fields bad) (slli-zbb s _ fields bad)
      (slli-zbs s _ fields bad)

pub srli-IsSlot : (s : Bool) → IsSlot s 0b101 bad_srli
srli-IsSlot s f7 rs2 rs1 rd h l bad =
    let fields = slot_word-Fields f7 rs2 rs1 0b101 rd h l in
    op_imm-IsRejected s _ fields.at_op (srli-base s _ fields bad) (srli-zbb s _ fields bad)
      (srli-zbs s _ fields bad)
