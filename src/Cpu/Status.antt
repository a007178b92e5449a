-- ===== src/Cpu/Status.antt =====
-- riscv_cpu.hpp: the digits of mstatus on a trap.
use rv32_complete_v.Common.Exception.{PrivilegeLevel, user, supervisor, machine, reserved, level}
use rv32_complete_v.Cpu.Trap.{is_supervisor, s_trap_mstatus, m_trap_mstatus}
use native.Mathlib.Nat.{pow-suc}
use rv32_complete_v.Prelude.{
  ◌<◌, ◌^◌, bit_or-lt, bit_and-le, ℕ, zero, suc, ◌*◌, ◌/◌, ◌%◌, ◌^◌, ◌<◌, min, max, bit_and, bit_or,
  ◌≡◌, refl, ap, ◌∙◌, Bool, true, false, ◌||◌, arith, ◌==◌, if◌then◌else◌, bit, bit-lt, bit-bit_and,
  bit-bit_or, bit_or-zero, table, bit_and_pow, half_pow,
}

-- Digit `i` of a word of which `keep` is kept and `a` and `b` are added.
joined :
    (x keep a b i : ℕ)
    → bit (bit_or (bit_or (bit_and x keep) a) b) i
      ≡ max (max (min (bit x i) (bit keep i)) (bit a i)) (bit b i)
joined x keep a b i =
    rw
      (
        bit-bit_or (bit_or (bit_and x keep) a) b i,
        bit-bit_or (bit_and x keep) a i,
        bit-bit_and x keep i,
      )
      refl

pub zero_digit : (i : ℕ) → bit 0 i ≡ 0
zero_digit zero = refl
zero_digit (suc i) = zero_digit i

-- The digits of a single one.
pub one_digit : (k i : ℕ) → bit (2 ^ k) i ≡ (if i == k then 1 else 0)
one_digit zero zero = refl
one_digit zero (suc i) = ground (arith, zero_digit i)
one_digit (suc k) zero = ground (arith, pow-suc 2 k)
one_digit (suc k) (suc i) = ground (arith, ap (λ t. bit t i) (half_pow k), one_digit k i)

-- Digit `i` of mstatus after a trap to M-mode from the level `p`: MPIE takes MIE, MIE is off, and MPP
-- holds the level.
abbrev pub m_trap_digit : ℕ → ℕ → ℕ → ℕ
m_trap_digit s p i =
    if i == 3
    then 0
    else if i == 7
    then bit s 3
    else if i == 11
    then p % 2
    else if i == 12
    then p / 2
    else bit s i

m_keep :
    (i : ℕ) → i < 32 → bit 0xffff_e777 i ≡ (if i == 3 || i == 7 || i == 11 || i == 12 then 0 else 1)
m_keep i h =
    table 32 (bit 0xffff_e777) (λ i. if i == 3 || i == 7 || i == 11 || i == 12 then 0 else 1) refl i
      h

m_trap_form :
    (s : ℕ) (p : PrivilegeLevel)
    → m_trap_mstatus s p
      ≡ bit_or (bit_or (bit_and s 0xffff_e777) (if bit s 3 == 1 then 128 else 0)) (level p * 2048)
unfolding m_trap_mstatus
m_trap_form s user =
    ground (arith, bit_and_pow 3 s, bit-lt s 3, bit_or-zero (bit_and s 0xffff_e777))
m_trap_form s supervisor =
    ground (arith, bit_and_pow 3 s, bit-lt s 3, bit_or-zero (bit_and s 0xffff_e777))
m_trap_form s reserved =
    ground (arith, bit_and_pow 3 s, bit-lt s 3, bit_or-zero (bit_and s 0xffff_e777))
m_trap_form s machine =
    ground (arith, bit_and_pow 3 s, bit-lt s 3, bit_or-zero (bit_and s 0xffff_e777))

level_field-lt : (p : PrivilegeLevel) → level p * 2048 < 2 ^ 32
level_field-lt user = omega arith
level_field-lt supervisor = omega arith
level_field-lt reserved = omega arith
level_field-lt machine = omega arith

pub m_trap_mstatus-lt : (s : ℕ) (p : PrivilegeLevel) → m_trap_mstatus s p < 2 ^ 32
m_trap_mstatus-lt s p =
    let flag : ℕ = if bit s 3 == 1 then 128 else 0 in
    let kept : ℕ = bit_and s 0xffff_e777 in
    let kept-lt : kept < 2 ^ 32 = omega (arith, bit_and-le s 0xffff_e777) in
    omega (
      arith,
      m_trap_form s p,
      bit_or-lt 32 (bit_or kept flag) (level p * 2048)
          (bit_or-lt 32 kept flag kept-lt (ground arith)) (level_field-lt p),
    )

level_digit :
    (p : PrivilegeLevel) (i : ℕ)
    → bit (level p * 2048) i ≡ (if i == 11 then level p % 2 else if i == 12 then level p / 2 else 0)
level_digit user i = ground (arith, zero_digit i)
level_digit supervisor i = ground (arith, one_digit 11 i)
level_digit reserved i = ground (arith, one_digit 12 i)
level_digit machine i = ground (arith, bit-bit_or 2048 4096 i, one_digit 11 i, one_digit 12 i)

pub flag_digit :
    (b : Bool) (k i : ℕ)
    → bit (if b then 2 ^ k else 0) i ≡ (if b then (if i == k then 1 else 0) else 0)
flag_digit true k i = one_digit k i
flag_digit false k i = zero_digit i

pub m_trap_mstatus-bit :
    (s i : ℕ) (p : PrivilegeLevel)
    → i < 32
    → bit (m_trap_mstatus s p) i ≡ m_trap_digit s (level p) i
m_trap_mstatus-bit s i p h =
    let flag = if bit s 3 == 1 then 128 else 0 in
    ap (λ t. bit t i) (m_trap_form s p)
    ∙ joined s 0xffff_e777 flag (level p * 2048) i
    ∙ ground
        (arith, m_keep i h, flag_digit (bit s 3 == 1) 7 i, level_digit p i, bit-lt s i, bit-lt s 3)

-- The same for a trap to S-mode: SPIE takes SIE, SIE is off, and SPP tells S-mode from U-mode.
abbrev pub s_trap_digit : ℕ → Bool → ℕ → ℕ
s_trap_digit s from_s i =
    if i == 1
    then 0
    else if i == 5
    then bit s 1
    else if i == 8
    then (if from_s then 1 else 0)
    else bit s i

s_keep : (i : ℕ) → i < 32 → bit 0xffff_fedd i ≡ (if i == 1 || i == 5 || i == 8 then 0 else 1)
s_keep i h = table 32 (bit 0xffff_fedd) (λ i. if i == 1 || i == 5 || i == 8 then 0 else 1) refl i h

s_trap_form :
    (s : ℕ) (p : PrivilegeLevel)
    → s_trap_mstatus s p
      ≡ bit_or
          (bit_or (bit_and s 0xffff_fedd) (if bit s 1 == 1 then 32 else 0))
          (if is_supervisor p then 256 else 0)
unfolding s_trap_mstatus
s_trap_form s user =
    ground (arith, bit_and_pow 1 s, bit-lt s 1, bit_or-zero (bit_and s 0xffff_fedd))
s_trap_form s supervisor =
    ground (arith, bit_and_pow 1 s, bit-lt s 1, bit_or-zero (bit_and s 0xffff_fedd))
s_trap_form s reserved =
    ground (arith, bit_and_pow 1 s, bit-lt s 1, bit_or-zero (bit_and s 0xffff_fedd))
s_trap_form s machine =
    ground (arith, bit_and_pow 1 s, bit-lt s 1, bit_or-zero (bit_and s 0xffff_fedd))

pub s_trap_mstatus-bit :
    (s i : ℕ) (p : PrivilegeLevel)
    → i < 32
    → bit (s_trap_mstatus s p) i ≡ s_trap_digit s (is_supervisor p) i
s_trap_mstatus-bit s i p h =
    let flag = if bit s 1 == 1 then 32 else 0 in
    ap (λ t. bit t i) (s_trap_form s p)
    ∙ joined s 0xffff_fedd flag (if is_supervisor p then 256 else 0) i
    ∙ ground (
      arith,
      s_keep i h,
      flag_digit (bit s 1 == 1) 5 i,
      flag_digit (is_supervisor p) 8 i,
      bit-lt s i,
      bit-lt s 1,
    )
