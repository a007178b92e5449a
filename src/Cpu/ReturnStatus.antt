-- ===== src/Cpu/ReturnStatus.antt =====
-- riscv_cpu.hpp: the digits of mstatus on MRET and SRET.
use rv32_complete_v.Cpu.Return.{mret_mstatus, mpp_field, sret_mstatus}
use rv32_complete_v.Cpu.Status.{zero_digit, one_digit}
use rv32_complete_v.Prelude.{
  ℕ, ◌^◌, ◌<◌, bit_and, bit_or, ◌≡◌, refl, ap, ◌∙◌, Bool, ◌||◌, arith, ◌==◌, if◌then◌else◌, bit,
  bit-lt, bit-bit_and, bit-bit_or, bit_or-lt, bit_or-zero, bit_and_mask, bit_and-lt, table,
  bit_and_pow,
}

-- MRET: MIE takes MPIE, MPIE is on, MPP holds the least level, and MPRV is kept only on a return to
-- M-mode.
abbrev pub mret_digit : ℕ → Bool → Bool → Bool → ℕ → ℕ
mret_digit s mpie u to_m i =
    if i == 3
    then (if mpie then 1 else 0)
    else if i == 7
    then 1
    else if i == 11 || i == 12
    then (if u then 0 else 1)
    else if i == 17
    then (if to_m then bit s i else 0)
    else bit s i

-- `mret_mstatus` with its tests as arguments.
abbrev mret_word : ℕ → Bool → Bool → Bool → ℕ
mret_word s mpie u to_m =
    let m0 = bit_and s 0xffff_fff7 in
    let m1 = bit_or m0 (if mpie then 8 else 0) in
    let m2 = bit_or (bit_and (bit_or m1 0x80) 0xffff_e7ff) (if u then 0 else 0x1800) in
    bit_and m2 (if to_m then 0xffff_ffff else 0xfffd_ffff)

holes :
    (i : ℕ)
    → i < 32
    → (bit 0xffff_fff7 i ≡ (if i == 3 then 0 else 1))
      × (bit 0xffff_e7ff i ≡ (if i == 11 || i == 12 then 0 else 1))
      × (bit 0x1800 i ≡ (if i == 11 || i == 12 then 1 else 0))
      × (bit 0xfffd_ffff i ≡ (if i == 17 then 0 else 1))
      × (bit 0xffff_ffff i ≡ 1)
holes i h = (
  table 32 (bit 0xffff_fff7) (λ i. if i == 3 then 0 else 1) refl i h,
  table 32 (bit 0xffff_e7ff) (λ i. if i == 11 || i == 12 then 0 else 1) refl i h,
  table 32 (bit 0x1800) (λ i. if i == 11 || i == 12 then 1 else 0) refl i h,
  table 32 (bit 0xfffd_ffff) (λ i. if i == 17 then 0 else 1) refl i h,
  table 32 (bit 0xffff_ffff) (λ i. 1) refl i h,
)

mret_word-bit :
    (s i : ℕ) (mpie u to_m : Bool)
    → i < 32
    → bit (mret_word s mpie u to_m) i ≡ mret_digit s mpie u to_m i
mret_word-bit s i mpie u to_m h =
    let m0 = bit_and s 0xffff_fff7 in
    let m1 = bit_or m0 (if mpie then 8 else 0) in
    let m2 = bit_and (bit_or m1 0x80) 0xffff_e7ff in
    rw
      (
        bit-bit_and (bit_or m2 (if u then 0 else 0x1800))
            (if to_m then 0xffff_ffff else 0xfffd_ffff) i,
        bit-bit_or m2 (if u then 0 else 0x1800) i,
        bit-bit_and (bit_or m1 0x80) 0xffff_e7ff i,
        bit-bit_or m1 0x80 i,
        bit-bit_or m0 (if mpie then 8 else 0) i,
        bit-bit_and s 0xffff_fff7 i,
      )
      (ground (arith, holes i h, one_digit 3 i, one_digit 7 i, zero_digit i, bit-lt s i))

all_ones : (a : ℕ) → a < 2 ^ 32 → bit_and a 0xffff_ffff ≡ a
all_ones a h = omega (arith, bit_and_mask 32 a)

mret_form :
    (s : ℕ) (u : Bool)
    → s < 2 ^ 32
    → mret_mstatus s u ≡ mret_word s (bit s 7 == 1) u (mpp_field s == 3)
unfolding mret_mstatus
mret_form s u h =
    let m0 = bit_and s 0xffff_fff7 in
    let m1 = bit_or m0 (if bit s 7 == 1 then 8 else 0) in
    let m2 = bit_and (bit_or m1 0x80) 0xffff_e7ff in
    let m3 = bit_or m2 (if u then 0 else 0x1800) in
    let m1-lt : m1 < 2 ^ 32 =
      bit_or-lt 32 m0 (if bit s 7 == 1 then 8 else 0) (bit_and-lt 32 s 0xffff_fff7 h)
        (ground arith) in
    let m2-lt : m2 < 2 ^ 32 =
      bit_and-lt 32 (bit_or m1 0x80) 0xffff_e7ff (bit_or-lt 32 m1 0x80 m1-lt (omega arith)) in
    let m3-lt : m3 < 2 ^ 32 = bit_or-lt 32 m2 (if u then 0 else 0x1800) m2-lt (ground arith) in
    ground (arith, bit_and_pow 7 s, bit-lt s 7, bit_or-zero m0, bit_or-zero m2, all_ones m3 m3-lt)

pub mret_mstatus-bit :
    (s i : ℕ) (u : Bool)
    → s < 2 ^ 32
    → i < 32
    → bit (mret_mstatus s u) i ≡ mret_digit s (bit s 7 == 1) u (mpp_field s == 3) i
mret_mstatus-bit s i u h p =
    ap (λ t. bit t i) (mret_form s u h) ∙ mret_word-bit s i (bit s 7 == 1) u (mpp_field s == 3) p

-- SRET: SIE takes SPIE, SPIE is on, SPP and MPRV are off.
abbrev pub sret_digit : ℕ → Bool → ℕ → ℕ
sret_digit s spie i =
    if i == 1
    then (if spie then 1 else 0)
    else if i == 5
    then 1
    else if i == 8 || i == 17
    then 0
    else bit s i

abbrev sret_word : ℕ → Bool → ℕ
sret_word s spie =
    let m1 = bit_or (bit_and s 0xffff_fffd) (if spie then 2 else 0) in
    bit_and (bit_and (bit_or m1 0x20) 0xffff_feff) 0xfffd_ffff

s_holes :
    (i : ℕ)
    → i < 32
    → (bit 0xffff_fffd i ≡ (if i == 1 then 0 else 1))
      × (bit 0xffff_feff i ≡ (if i == 8 then 0 else 1))
      × (bit 0xfffd_ffff i ≡ (if i == 17 then 0 else 1))
s_holes i h = (
  table 32 (bit 0xffff_fffd) (λ i. if i == 1 then 0 else 1) refl i h,
  table 32 (bit 0xffff_feff) (λ i. if i == 8 then 0 else 1) refl i h,
  table 32 (bit 0xfffd_ffff) (λ i. if i == 17 then 0 else 1) refl i h,
)

sret_word-bit : (s i : ℕ) (spie : Bool) → i < 32 → bit (sret_word s spie) i ≡ sret_digit s spie i
sret_word-bit s i spie h =
    let m0 = bit_and s 0xffff_fffd in
    let m1 = bit_or m0 (if spie then 2 else 0) in
    rw
      (
        bit-bit_and (bit_and (bit_or m1 0x20) 0xffff_feff) 0xfffd_ffff i,
        bit-bit_and (bit_or m1 0x20) 0xffff_feff i,
        bit-bit_or m1 0x20 i,
        bit-bit_or m0 (if spie then 2 else 0) i,
        bit-bit_and s 0xffff_fffd i,
      )
      (ground (arith, s_holes i h, one_digit 1 i, one_digit 5 i, zero_digit i, bit-lt s i))

sret_form : (s : ℕ) → sret_mstatus s ≡ sret_word s (bit s 5 == 1)
unfolding sret_mstatus
sret_form s = ground (arith, bit_and_pow 5 s, bit-lt s 5, bit_or-zero (bit_and s 0xffff_fffd))

pub sret_mstatus-bit : (s i : ℕ) → i < 32 → bit (sret_mstatus s) i ≡ sret_digit s (bit s 5 == 1) i
sret_mstatus-bit s i h = ap (λ t. bit t i) (sret_form s) ∙ sret_word-bit s i (bit s 5 == 1) h
