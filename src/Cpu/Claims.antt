-- ===== src/Cpu/Claims.antt =====
-- riscv_cpu.hpp, `execute_32bit`: which extension a word belongs to.
use rv32_complete_v.Prelude.{
  not, inl, inr, refl, ℕ, ◌≡◌, ◌⊎◌, Bool, true, false, arith, ◌==◌, ◌&&◌, ◌||◌, if◌then◌else◌, ◌+◌,
  ◌<◌, ◌≤◌, ◌/◌, ◌!=◌,
}
use rv32_complete_v.Common.Fields.{bits, bits_lem}
use rv32_complete_v.Zicsr.Execute as Csr
use rv32_complete_v.Rv32i.Types as Base
use rv32_complete_v.Rv32i.Decode as I
use rv32_complete_v.Rv32m as M
use rv32_complete_v.Rv32a as A
use rv32_complete_v.Rv32f.Decode as F
use rv32_complete_v.Zba
use rv32_complete_v.Zbb
use rv32_complete_v.Zbs
use rv32_complete_v.Zicond
use rv32_complete_v.Zifencei

abbrev pub digit : Bool → ℕ
digit true = 1
digit false = 0

-- How many of the nine tests of `execute_32bit` accept the word.
unfoldable pub claims : ℕ → ℕ
unfolding Zifencei.is_zifencei_instruction Csr.is_csr_instruction
claims instr =
    digit (Zifencei.is_zifencei_instruction instr)
    + digit (Csr.is_csr_instruction instr)
    + digit (M.is_m_instruction instr)
    + digit (A.is_atomic_instruction instr)
    + digit (F.is_f_instruction instr)
    + digit (Zba.is_zba_instruction instr)
    + digit (Zbb.is_zbb_instruction instr)
    + digit (Zbs.is_zbs_instruction instr)
    + digit (Zicond.is_zicond_instruction instr)

-- The extension that the opcode, `funct3` and `funct7` leave room for, as its place in the chain.
unfoldable place : ℕ → ℕ → ℕ → ℕ
place op f3 f7 =
    if op == 0b0001111
    then 1
    else if op == 0b1110011
    then 2
    else if op == 0b0101111
    then 4
    else if op == 0b0110011 || op == 0b0010011
    then (if f7 == 0b0000001
        then 3
        else if f7 == 0b0010000
        then 6
        else if f7 == 0b0000111
        then 9
        else if f7 == 0b0010100 || f7 == 0b0100100 || f7 == 0b0110100
        then (if f3 == 0b001 || f7 == 0b0100100 then 8 else 7)
        else 7)
    else 5

unfoldable place_of : ℕ → ℕ
unfolding bits
place_of instr = place (bits instr 6 0) (bits instr 14 12) (bits instr 31 25)

funct7_of_funct12 : (instr : ℕ) → bits instr 31 25 ≡ bits instr 31 20 / 32
funct7_of_funct12 instr =
    let low = bits_lem instr 31 20 (omega arith) in
    let high = bits_lem instr 31 25 (omega arith) in omega arith

abbrev pub IsIllegal : Bool → ℕ → Type 0
IsIllegal s instr = (I.decode s instr).type ≡ Base.InstrType.illegal

-- The opcodes of which the base decoder knows no instruction.
unfoldable is_unknown : ℕ → Bool
is_unknown op = not (
    op == 0b0110111
    || op == 0b0010111
    || op == 0b1101111
    || op == 0b1100111
    || op == 0b1100011
    || op == 0b0000011
    || op == 0b0100011
    || op == 0b0010011
    || op == 0b0110011
    || op == 0b0001111
    || op == 0b1110011)

-- The fields of an arithmetic instruction that the base decoder does not know.
unfoldable is_foreign : ℕ → ℕ → ℕ → Bool
is_foreign op f3 f7 =
    op == 0b0110011 && f7 != 0 && (f7 != 0b0100000 || f3 != 0b000 && f3 != 0b101)
    || op == 0b0010011 && f7 != 0 && (f3 == 0b001 || f3 == 0b101 && f7 != 0b0100000)

is_unknown-decode : (s : Bool) (instr : ℕ) → is_unknown (bits instr 6 0) ≡ true → IsIllegal s instr
unfolding is_unknown I.decode I.decode_opcode I.fields
is_unknown-decode s instr h = ground arith

is_foreign-decode :
    (s : Bool) (instr : ℕ)
    → is_foreign (bits instr 6 0) (bits instr 14 12) (bits instr 31 25) ≡ true
    → IsIllegal s instr
unfolding is_foreign I.decode I.decode_opcode I.fields I.decode_op I.decode_op_imm
is_foreign-decode s instr h = ground arith

zifencei_place :
    (s : Bool) (instr : ℕ)
    → Zifencei.is_zifencei_instruction instr ≡ true
    → (place_of instr ≡ 1) × IsIllegal s instr
unfolding Zifencei.is_zifencei_instruction I.decode_fence place_of place I.decode I.decode_opcode
    I.fields
zifencei_place s instr h = (ground arith, ground arith)

csr_place :
    (s : Bool) (instr : ℕ)
    → Csr.is_csr_instruction instr ≡ true
    → (place_of instr ≡ 2) × IsIllegal s instr
unfolding Csr.is_csr_instruction I.decode_system place_of place I.decode I.decode_opcode I.fields
csr_place s instr h = (ground arith, ground arith)

m_foreign :
    (instr : ℕ)
    → M.is_m_instruction instr ≡ true
    → (place_of instr ≡ 3)
      × (is_foreign (bits instr 6 0) (bits instr 14 12) (bits instr 31 25) ≡ true)
unfolding M.is_m_instruction place_of place is_foreign
m_foreign instr h = (ground arith, ground arith)

atomic_foreign :
    (instr : ℕ)
    → A.is_atomic_instruction instr ≡ true
    → (place_of instr ≡ 4) × (is_unknown (bits instr 6 0) ≡ true)
unfolding A.is_atomic_instruction place_of place is_unknown
atomic_foreign instr h = (ground arith, ground arith)

f_foreign :
    (instr : ℕ)
    → F.is_f_instruction instr ≡ true
    → (place_of instr ≡ 5) × (is_unknown (bits instr 6 0) ≡ true)
unfolding F.is_f_instruction place_of place is_unknown
f_foreign instr h = (ground arith, ground arith)

zba_foreign :
    (instr : ℕ)
    → Zba.is_zba_instruction instr ≡ true
    → (place_of instr ≡ 6)
      × (is_foreign (bits instr 6 0) (bits instr 14 12) (bits instr 31 25) ≡ true)
unfolding Zba.is_zba_instruction place_of place is_foreign
zba_foreign instr h = (ground arith, ground arith)

zbb_foreign :
    (instr : ℕ)
    → Zbb.is_zbb_instruction instr ≡ true
    → (place_of instr ≡ 7)
      × (is_foreign (bits instr 6 0) (bits instr 14 12) (bits instr 31 25) ≡ true)
unfolding Zbb.is_zbb_instruction Zbb.decode Zbb.decode_r_type Zbb.decode_i_type place_of place
    is_foreign
zbb_foreign instr h = let e = funct7_of_funct12 instr in (ground arith, ground arith)

zbs_foreign :
    (instr : ℕ)
    → Zbs.is_zbs_instruction instr ≡ true
    → (place_of instr ≡ 8)
      × (is_foreign (bits instr 6 0) (bits instr 14 12) (bits instr 31 25) ≡ true)
unfolding Zbs.is_zbs_instruction Zbs.decode Zbs.type_of_op Zbs.type_of_op_imm place_of place
    is_foreign
zbs_foreign instr h = (ground arith, ground arith)

zicond_foreign :
    (instr : ℕ)
    → Zicond.is_zicond_instruction instr ≡ true
    → (place_of instr ≡ 9)
      × (is_foreign (bits instr 6 0) (bits instr 14 12) (bits instr 31 25) ≡ true)
unfolding Zicond.is_zicond_instruction place_of place is_foreign
zicond_foreign instr h = (ground arith, ground arith)

unknown_place :
    (s : Bool) (instr k : ℕ)
    → (place_of instr ≡ k) × (is_unknown (bits instr 6 0) ≡ true)
    → (place_of instr ≡ k) × IsIllegal s instr
unknown_place s instr k (p, u) = (p, is_unknown-decode s instr u)

foreign_place :
    (s : Bool) (instr k : ℕ)
    → (place_of instr ≡ k)
      × (is_foreign (bits instr 6 0) (bits instr 14 12) (bits instr 31 25) ≡ true)
    → (place_of instr ≡ k) × IsIllegal s instr
foreign_place s instr k (p, u) = (p, is_foreign-decode s instr u)

-- After the tests of the places up to `j`: `n` of them accept the word of place `p`.
abbrev AtMostOne : ℕ → ℕ → ℕ → Type 0 → Type 0
AtMostOne n p j X = (n ≡ 0) ⊎ ((n ≡ 1) × (p ≤ j) × X)

first_test :
    {X : Type 0} {b : Bool} {p k : ℕ} → (b ≡ true → (p ≡ k) × X) → AtMostOne (digit b) p k X
first_test {b = true} h = inr (refl, omega (arith, (h refl).0), (h refl).1)
first_test {b = false} h = inl refl

one_more :
    {X : Type 0} {b : Bool} {n p k j : ℕ}
    → AtMostOne n p j X
    → (b ≡ true → (p ≡ k) × X)
    → j < k
    → AtMostOne (n + digit b) p k X
one_more {b = true} (inl e) h lt = inr (omega arith, omega (arith, (h refl).0), (h refl).1)
one_more {b = true} (inr (e, le, x)) h lt = absurd (omega (arith, (h refl).0))
one_more {b = false} (inl e) h lt = inl (omega arith)
one_more {b = false} (inr (e, le, x)) h lt = inr (omega arith, omega arith, x)

-- At most one of the tests of `execute_32bit` accepts a word, and the base decoder takes the word that one of
-- them accepts for illegal.
pub claims_lem :
    (s : Bool) (instr : ℕ) → (claims instr ≡ 0) ⊎ ((claims instr ≡ 1) × IsIllegal s instr)
unfolding claims
claims_lem s instr =
    let t1 = first_test (zifencei_place s instr) in
    let t2 = one_more t1 (csr_place s instr) (omega arith) in
    let t3 = one_more t2 (λ h. foreign_place s instr 3 (m_foreign instr h)) (omega arith) in
    let t4 = one_more t3 (λ h. unknown_place s instr 4 (atomic_foreign instr h)) (omega arith) in
    let t5 = one_more t4 (λ h. unknown_place s instr 5 (f_foreign instr h)) (omega arith) in
    let t6 = one_more t5 (λ h. foreign_place s instr 6 (zba_foreign instr h)) (omega arith) in
    let t7 = one_more t6 (λ h. foreign_place s instr 7 (zbb_foreign instr h)) (omega arith) in
    let t8 = one_more t7 (λ h. foreign_place s instr 8 (zbs_foreign instr h)) (omega arith) in
    let t9 = one_more t8 (λ h. foreign_place s instr 9 (zicond_foreign instr h)) (omega arith) in
    elim t9 [ inl e ↦ inl e | inr (e, le, x) ↦ inr (e, x) ]
