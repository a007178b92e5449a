-- ===== src/Opgen/Illegal/Rejected.antt =====
-- riscv_illegal_opgen.hpp against riscv_opcode_classify.hpp: the fields for which a word belongs to no extension.
use rv32_complete_v.Common.Fields.{bits, bits_lem}
use rv32_complete_v.Common.Encode.{Fields}
use rv32_complete_v.Rv32i.Decode as I
use rv32_complete_v.Rv32a as A
use rv32_complete_v.Zifencei
use rv32_complete_v.Zicsr.Execute as Csr
use rv32_complete_v.Cpu.Claims.{IsIllegal}
use rv32_complete_v.OpcodeClassify.{
  is_compressed, opcode_is_rv32a, opcode_is_zicsr, opcode_is_zifencei, opcode_is_rv32c,
  opcode_is_rv32fc,
}
use rv32_complete_v.OpcodeClassify.Exclusive.{wide_classes, short_classes, rv32i_illegal}
use rv32_complete_v.OpcodeClassify.Opcodes.{
  is_float_op, zifencei_op, zicsr_op, rv32m_op, rv32a_op, rv32f_op, zba_op, zbb_op, zbs_op,
  zicond_op,
}
use rv32_complete_v.Prelude.{
  ℕ, ◌+◌, ◌%◌, ◌≡◌, refl, Bool, true, false, not, ◌&&◌, ◌||◌, arith, ltb, ◌==◌, ◌!=◌, bit_and_mask,
}

-- None of the predicates holds.
abbrev pub IsRejected : Bool → ℕ → Type 0
IsRejected s w = wide_classes s w + short_classes w ≡ 0

pub is_compressed_op : (w : ℕ) → bits w 6 0 % 4 ≡ 3 → is_compressed w ≡ false
unfolding is_compressed
is_compressed_op w h = ground (arith, bits_lem w 6 0 (omega arith), bit_and_mask 2 w)

pub no_short : (w : ℕ) → is_compressed w ≡ false → short_classes w ≡ 0
unfolding short_classes opcode_is_rv32c opcode_is_rv32fc
no_short w h = rw h refl

-- The opcodes that the base set has alone, or no extension at all.
unfoldable pub is_plain : ℕ → Bool
unfolding is_float_op
is_plain op =
    op % 4 == 3
    && not (
        op == 0b0001111
        || op == 0b1110011
        || op == 0b0110011
        || op == 0b0010011
        || op == 0b0101111
        || is_float_op op)

pub plain-IsRejected :
    (s : Bool) (w : ℕ) → is_plain (bits w 6 0) ≡ true → IsIllegal s w → IsRejected s w
unfolding wide_classes is_plain is_float_op
plain-IsRejected s w h illegal = ground (
  arith,
  no_short w (is_compressed_op w (ground arith)),
  rv32i_illegal s w illegal,
  zifencei_op w,
  zicsr_op w,
  rv32m_op w,
  rv32a_op w,
  rv32f_op w,
  zba_op w,
  zbb_op w,
  zbs_op w,
  zicond_op w,
)

-- The values of `funct3` that the loads, the stores, the branches and JALR leave unused.
unfoldable pub bad_base : ℕ → ℕ → Bool
bad_base op f3 =
    op == 0b0000011 && (f3 == 0b011 || f3 == 0b110 || f3 == 0b111)
    || op == 0b0100011 && (f3 == 0b011 || ltb 3 f3)
    || op == 0b1100011 && (f3 == 0b010 || f3 == 0b011)
    || op == 0b1100111 && f3 != 0b000

pub base-IsRejected :
    (s : Bool) (w op : ℕ) {rd f3 rs1 rs2 f7 : ℕ}
    → Fields w op rd f3 rs1 rs2 f7
    → bad_base op f3 ≡ true
    → IsRejected s w
unfolding I.decode I.decode_opcode I.fields I.decode_load I.decode_store I.decode_branch is_plain
    is_float_op bad_base
base-IsRejected s w op h bad = plain-IsRejected s w (ground arith) (ground arith)

pub atomic-IsRejected :
    (s : Bool) (w : ℕ)
    → bits w 6 0 ≡ 0b0101111
    → (A.decode w).type ≡ A.InstrType.illegal
    → IsRejected s w
unfolding wide_classes is_float_op opcode_is_rv32a I.decode I.decode_opcode I.fields
atomic-IsRejected s w h illegal = ground (
  arith,
  no_short w (is_compressed_op w (ground arith)),
  rv32i_illegal s w (ground arith),
  zifencei_op w,
  zicsr_op w,
  rv32m_op w,
  rv32f_op w,
  zba_op w,
  zbb_op w,
  zbs_op w,
  zicond_op w,
)

pub amo_size-IsRejected :
    (s : Bool) (w : ℕ) {rd f3 rs1 rs2 f7 : ℕ}
    → Fields w 0b0101111 rd f3 rs1 rs2 f7
    → (f3 != 0b010) ≡ true
    → IsRejected s w
unfolding A.decode
amo_size-IsRejected s w h bad = atomic-IsRejected s w h.at_op (ground arith)

pub misc_mem-IsRejected :
    (s : Bool) (w : ℕ) {rd f3 rs1 rs2 f7 : ℕ}
    → Fields w 0b0001111 rd f3 rs1 rs2 f7
    → ltb 1 f3 ≡ true
    → IsRejected s w
unfolding wide_classes is_float_op opcode_is_zifencei Zifencei.decode I.decode I.decode_opcode
    I.fields I.decode_fence
misc_mem-IsRejected s w h illegal = ground (
  arith,
  no_short w (is_compressed_op w (ground arith)),
  rv32i_illegal s w (ground arith),
  zicsr_op w,
  rv32m_op w,
  rv32a_op w,
  rv32f_op w,
  zba_op w,
  zbb_op w,
  zbs_op w,
  zicond_op w,
)

pub hypervisor-IsRejected :
    (s : Bool) (w : ℕ) {rd f3 rs1 rs2 f7 : ℕ}
    → Fields w 0b1110011 rd f3 rs1 rs2 f7
    → f3 ≡ 0b100
    → IsRejected s w
unfolding wide_classes is_float_op opcode_is_zicsr Csr.decode Csr.type_of_funct3 I.decode
    I.decode_opcode I.fields I.decode_system
hypervisor-IsRejected s w h illegal = ground (
  arith,
  no_short w (is_compressed_op w (ground arith)),
  rv32i_illegal s w (ground arith),
  zifencei_op w,
  rv32m_op w,
  rv32a_op w,
  rv32f_op w,
  zba_op w,
  zbb_op w,
  zbs_op w,
  zicond_op w,
)
