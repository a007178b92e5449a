-- ===== src/OpcodeClassify/Exclusive.antt =====
-- riscv_opcode_classify.hpp: a word belongs to one extension at most.
use rv32_complete_v.Prelude.{
  ℕ, ◌+◌, ◌≤◌, ◌≡◌, refl, ◌⊎◌, inl, inr, Bool, true, false, arith, Bool-cases, u16,
}
use rv32_complete_v.Rv32m as M
use rv32_complete_v.Rv32a as A
use rv32_complete_v.Rv32f.Decode as FDecode
use rv32_complete_v.Rv32fc.Claims.{is_compressed_float-decode}
use rv32_complete_v.Zicsr.Execute as Csr
use rv32_complete_v.Zifencei
use rv32_complete_v.Zba
use rv32_complete_v.Zbb
use rv32_complete_v.Zbs
use rv32_complete_v.Zicond
use rv32_complete_v.Cpu.Claims.{claims, claims_lem, digit, IsIllegal}
use rv32_complete_v.OpcodeClassify.{
  is_compressed, opcode_is_rv32i, opcode_is_rv32m, opcode_is_rv32a, opcode_is_rv32f,
  opcode_is_zicsr, opcode_is_zifencei, opcode_is_zba, opcode_is_zbb, opcode_is_zbs,
  opcode_is_zicond, opcode_is_rv32c, opcode_is_rv32fc,
}

-- How many of the predicates hold of the opcode.
unfoldable pub wide_classes : Bool → ℕ → ℕ
wide_classes s opcode =
    digit (opcode_is_rv32i s opcode)
    + (digit (opcode_is_zifencei opcode)
        + digit (opcode_is_zicsr opcode)
        + digit (opcode_is_rv32m opcode)
        + digit (opcode_is_rv32a opcode)
        + digit (opcode_is_rv32f opcode)
        + digit (opcode_is_zba opcode)
        + digit (opcode_is_zbb opcode)
        + digit (opcode_is_zbs opcode)
        + digit (opcode_is_zicond opcode))

unfoldable pub short_classes : ℕ → ℕ
short_classes opcode = digit (opcode_is_rv32c opcode) + digit (opcode_is_rv32fc opcode)

-- A predicate holds of words only that `execute_32bit` gives to its extension.
zifencei_le : (w : ℕ) → digit (opcode_is_zifencei w) ≤ digit (Zifencei.is_zifencei_instruction w)
unfolding opcode_is_zifencei Zifencei.decode Zifencei.is_zifencei_instruction
zifencei_le w = ground arith

zicsr_le : (w : ℕ) → digit (opcode_is_zicsr w) ≤ digit (Csr.is_csr_instruction w)
unfolding opcode_is_zicsr Csr.decode Csr.is_csr_instruction Csr.type_of_funct3
zicsr_le w = ground arith

rv32m_le : (w : ℕ) → digit (opcode_is_rv32m w) ≤ digit (M.is_m_instruction w)
unfolding opcode_is_rv32m M.decode M.is_m_instruction M.type_of_funct3
rv32m_le w = ground arith

rv32a_le : (w : ℕ) → digit (opcode_is_rv32a w) ≤ digit (A.is_atomic_instruction w)
unfolding opcode_is_rv32a A.decode A.is_atomic_instruction
rv32a_le w = ground arith

rv32f_le : (w : ℕ) → digit (opcode_is_rv32f w) ≤ digit (FDecode.is_f_instruction w)
unfolding opcode_is_rv32f FDecode.decode FDecode.decode_opcode FDecode.fields FDecode.reserved_rm
    FDecode.uses_rm FDecode.is_f_instruction
rv32f_le w = ground arith

zba_le : (w : ℕ) → digit (opcode_is_zba w) ≤ digit (Zba.is_zba_instruction w)
unfolding opcode_is_zba Zba.decode Zba.is_zba_instruction Zba.type_of_funct3
zba_le w = ground arith

zbb_le : (w : ℕ) → digit (opcode_is_zbb w) ≤ digit (Zbb.is_zbb_instruction w)
unfolding opcode_is_zbb Zbb.is_zbb_instruction
zbb_le w = ground arith

zbs_le : (w : ℕ) → digit (opcode_is_zbs w) ≤ digit (Zbs.is_zbs_instruction w)
unfolding opcode_is_zbs Zbs.is_zbs_instruction
zbs_le w = ground arith

zicond_le : (w : ℕ) → digit (opcode_is_zicond w) ≤ digit (Zicond.is_zicond_instruction w)
unfolding opcode_is_zicond Zicond.decode Zicond.is_zicond_instruction Zicond.type_of_funct3
zicond_le w = ground arith

pub rv32i_illegal : (s : Bool) (w : ℕ) → IsIllegal s w → digit (opcode_is_rv32i s w) ≡ 0
unfolding opcode_is_rv32i
rv32i_illegal s w h = ground arith

digit_le : (b : Bool) → digit b ≤ 1
digit_le true = omega arith
digit_le false = omega arith

wide_classes_le : (s : Bool) (w : ℕ) → wide_classes s w ≤ 1
unfolding wide_classes claims
wide_classes_le s w = elim (claims_lem s w) [
  | inl none_of_them ↦ omega (
    arith,
    digit_le (opcode_is_rv32i s w),
    zifencei_le w,
    zicsr_le w,
    rv32m_le w,
    rv32a_le w,
    rv32f_le w,
    zba_le w,
    zbb_le w,
    zbs_le w,
    zicond_le w,
  )
  | inr (one, illegal) ↦ omega (
    arith,
    rv32i_illegal s w illegal,
    zifencei_le w,
    zicsr_le w,
    rv32m_le w,
    rv32a_le w,
    rv32f_le w,
    zba_le w,
    zbb_le w,
    zbs_le w,
    zicond_le w,
  )
]

short_classes_le : (w : ℕ) → short_classes w ≤ 1
unfolding short_classes opcode_is_rv32c opcode_is_rv32fc
short_classes_le w = ground (arith, is_compressed_float-decode (u16 w))

pub wide_or_short : (s : Bool) (w : ℕ) → (wide_classes s w ≡ 0) ⊎ (short_classes w ≡ 0)
unfolding wide_classes short_classes opcode_is_rv32i opcode_is_rv32m opcode_is_rv32a opcode_is_rv32f
    opcode_is_zicsr opcode_is_zifencei opcode_is_zba opcode_is_zbb opcode_is_zbs opcode_is_zicond
    opcode_is_rv32c opcode_is_rv32fc
wide_or_short s w = elim (Bool-cases (is_compressed w)) [
  | inl e ↦ inl (rw e refl)
  | inr e ↦ inr (rw e refl)
]

-- At most one of the twelve predicates `opcode_is_...` holds of an opcode.
pub classes_exclusive : (s : Bool) (opcode : ℕ) → wide_classes s opcode + short_classes opcode ≤ 1
classes_exclusive s w = elim (wide_or_short s w) [
  | inl e ↦ omega (arith, short_classes_le w)
  | inr e ↦ omega (arith, wide_classes_le s w)
]
