-- ===== src/Zicsr/Warl.antt =====
-- riscv_zicsr.hpp: the level in mstatus.MPP is one that the hart has, whatever is written.
use rv32_complete_v.Zicsr.Addr
use rv32_complete_v.Zicsr.Masks.{mstatus_mpp}
use rv32_complete_v.Zicsr.File.{
  CsrFile, get, set, mstatus_legal_mask, legalize_mpp, mstatus_hardwired,
}
use rv32_complete_v.Zicsr.Access.{write, write_value, legal_mstatus, legal_sstatus, merge}
use rv32_complete_v.Prelude.{
  true, false, ◌∷◌, ◌∷◌, Bool, sym, refl, ap, ◌∙◌, ℕ, ◌+◌, ◌*◌, ◌/◌, ◌%◌, ◌^◌, ◌<◌, bit_and, bit_or,
  ◌≡◌, refl, sym, ap, ◌∙◌, ◌⊎◌, true, arith, ◌==◌, if◌then◌else◌, bit, bit-lt, bit-bit_and,
  bit-bit_or, bit_and-le, shl32, shr32, not32,
}

-- The number of a level that the hart has.
abbrev pub IsMode : CsrFile → ℕ → Type 0
IsMode f n =
    (n ≡ 3) ⊎ (((n ≡ 1) × (f.s_mode_enabled ≡ true)) ⊎ ((n ≡ 0) × (f.u_mode_enabled ≡ true)))

-- The two digits of MPP.
abbrev pub mpp : ℕ → ℕ
mpp s = s / 2 ^ 11 % 4

legalize_mpp-IsMode : (f : CsrFile) (n : ℕ) → n < 4 → IsMode f (legalize_mpp f n)
unfolding legalize_mpp
legalize_mpp-IsMode f n h = ground arith

legal_mask-mpp :
    (f : CsrFile) → (bit (mstatus_legal_mask f) 11 ≡ 1) × (bit (mstatus_legal_mask f) 12 ≡ 1)
unfolding mstatus_legal_mask
legal_mask-mpp f = ground arith

hardwired-mpp :
    (f : CsrFile) → (bit (mstatus_hardwired f) 11 ≡ 0) × (bit (mstatus_hardwired f) 12 ≡ 0)
unfolding mstatus_hardwired
hardwired-mpp f = ground arith

mpp-bits : (s : ℕ) → mpp s ≡ bit s 11 + 2 * bit s 12
mpp-bits s = omega arith

put_digit :
    (v field hw i : ℕ)
    → bit 0xffff_e7ff i ≡ 0
    → bit hw i ≡ 0
    → bit (bit_or (bit_or (bit_and v 0xffff_e7ff) field) hw) i ≡ bit field i
put_digit v field hw i a b = omega (
  arith,
  bit-bit_or (bit_or (bit_and v 0xffff_e7ff) field) hw i,
  bit-bit_or (bit_and v 0xffff_e7ff) field i,
  bit-bit_and v 0xffff_e7ff i,
)

mpp-field : (x : ℕ) → x < 4 → mpp (shl32 x 11) ≡ x
mpp-field x h = omega arith

-- A field put in place of MPP is read back.
mpp-put :
    (v x hw : ℕ)
    → x < 4
    → bit hw 11 ≡ 0
    → bit hw 12 ≡ 0
    → mpp (bit_or (bit_or (bit_and v (not32 mstatus_mpp)) (shl32 x 11)) hw) ≡ x
mpp-put v x hw h p q =
    let field : ℕ = shl32 x 11 in
    mpp-bits (bit_or (bit_or (bit_and v 0xffff_e7ff) field) hw)
    ∙ ap (λ (t : ℕ). t + 2 * bit (bit_or (bit_or (bit_and v 0xffff_e7ff) field) hw) 12)
        (put_digit v field hw 11 refl p)
    ∙ ap (λ (t : ℕ). bit field 11 + 2 * t) (put_digit v field hw 12 refl q)
    ∙ sym (mpp-bits field)
    ∙ mpp-field x h

IsMode-lt : (f : CsrFile) (n : ℕ) → IsMode f n → n < 4
IsMode-lt f n h = ground arith

written_mpp-IsMode : (f : CsrFile) (v : ℕ) → IsMode f (mpp (legal_mstatus f v))
unfolding legal_mstatus
written_mpp-IsMode f v =
    let masked : ℕ = bit_and v (mstatus_legal_mask f) in
    let x : ℕ = legalize_mpp f (bit_and (shr32 masked 11) 3) in
    let legal : IsMode f x =
      legalize_mpp-IsMode f (bit_and (shr32 masked 11) 3)
        (omega (arith, bit_and-le (shr32 masked 11) 3)) in
    let (p, q) = hardwired-mpp f in
    rw (mpp-put masked x (mstatus_hardwired f) (IsMode-lt f x legal) p q) legal

kept_digit :
    (old v mask hw i : ℕ)
    → bit mask i ≡ 1
    → bit hw i ≡ 0
    → bit 0xfff3_fedd i ≡ 1
    → bit 0xc0122 i ≡ 0
    → bit 0x7fff_ffff i ≡ 1
    → bit (bit_or (bit_and (bit_and (merge old 0xc0122 v) 0x7fff_ffff) mask) hw) i ≡ bit old i
unfolding merge
kept_digit old v mask hw i a b c d e = omega (
  arith,
  bit-lt old i,
  bit-bit_or (bit_and (bit_and (merge old 0xc0122 v) 0x7fff_ffff) mask) hw i,
  bit-bit_and (bit_and (merge old 0xc0122 v) 0x7fff_ffff) mask i,
  bit-bit_and (merge old 0xc0122 v) 0x7fff_ffff i,
  bit-bit_or (bit_and old 0xfff3_fedd) (bit_and v 0xc0122) i,
  bit-bit_and old 0xfff3_fedd i,
  bit-bit_and v 0xc0122 i,
)

mpp-legal_sstatus : (f : CsrFile) (v : ℕ) → mpp (legal_sstatus f v) ≡ mpp (get f Addr.mstatus)
unfolding legal_sstatus
mpp-legal_sstatus f v =
    let old : ℕ = get f Addr.mstatus in
    let mask : ℕ = mstatus_legal_mask f in
    let hw : ℕ = mstatus_hardwired f in
    let (m, n) = legal_mask-mpp f in
    let (p, q) = hardwired-mpp f in
    omega (
      arith,
      mpp-bits old,
      mpp-bits (bit_or (bit_and (bit_and (merge old 0xc0122 v) 0x7fff_ffff) mask) hw),
      kept_digit old v mask hw 11 m p refl refl refl,
      kept_digit old v mask hw 12 n q refl refl refl,
    )

-- What `write_value` leaves in mstatus.
mstatus-write_value :
    (f : CsrFile) (a v : ℕ)
    → get (write_value f a v) Addr.mstatus ≡ (
        if a == Addr.mstatus
        then legal_mstatus f v
        else if a == Addr.sstatus
        then legal_sstatus f v
        else get f Addr.mstatus)
unfolding write_value get set
mstatus-write_value f a v = ground arith

pub modes-write_value :
    (f : CsrFile) (a v : ℕ)
    → ((write_value f a v).s_mode_enabled ≡ f.s_mode_enabled)
      × ((write_value f a v).u_mode_enabled ≡ f.u_mode_enabled)
      × ((write_value f a v).current_privilege ≡ f.current_privilege)
unfolding write_value set
modes-write_value f a v = ground arith

-- mstatus.MPP names a level that the hart has.
abbrev pub IsModal : CsrFile → Type 0
IsModal f = IsMode f (mpp (get f Addr.mstatus))

pub IsMode-same :
    (f g : CsrFile) (n : ℕ)
    → g.s_mode_enabled ≡ f.s_mode_enabled
    → g.u_mode_enabled ≡ f.u_mode_enabled
    → IsMode f n
    → IsMode g n
IsMode-same f g n p q h = ground arith

write_value-IsModal : (f : CsrFile) (a v : ℕ) → IsModal f → IsModal (write_value f a v)
write_value-IsModal f a v h =
    let (s, u, c) = modes-write_value f a v in
    IsMode-same f (write_value f a v) (mpp (get (write_value f a v) Addr.mstatus)) s u
      (rw (mstatus-write_value f a v) (by_register (a == Addr.mstatus) (a == Addr.sstatus)))
  where
    by_register :
        (b c : Bool)
        → IsMode f (
            mpp (
              if b then legal_mstatus f v else if c then legal_sstatus f v else get f Addr.mstatus))
    by_register true c = written_mpp-IsMode f v
    by_register false true = rw (mpp-legal_sstatus f v) h
    by_register false false = h

noted-IsModal :
    (f : CsrFile) (a v : ℕ) (b : Bool)
    → IsModal f
    → IsModal (write_value (if b then record f { observed = (a, v) ∷ f.observed } else f) a v)
unfolding get
noted-IsModal f a v true h = write_value-IsModal (record f { observed = (a, v) ∷ f.observed }) a v h
noted-IsModal f a v false h = write_value-IsModal f a v h

-- Writing any value to any register keeps mstatus.MPP at a level that the hart has: M-mode, or S-mode or
-- U-mode where they are enabled.
pub write-IsModal : (f : CsrFile) (a v : ℕ) → IsModal f → IsModal (write f a v)
unfolding write
write-IsModal f a v h = noted-IsModal f a v f.write_callback h
