-- ===== src/Rv32f/Flags.antt =====
-- riscv_rv32f.hpp: what an instruction does to fcsr, and what a trapping one leaves.
use rv32_complete_v.Prelude.{
  ℕ, ◌≡◌, refl, sym, ap, ◌∙◌, ◌⊎◌, inl, inr, Bool, true, false, ◌&&◌, ◌||◌, ltb, Bool-cases,
}
use rv32_complete_v.Common.RegFile.{RegFile}
use rv32_complete_v.Common.Bus.{
  Bus, LoadResult, loaded, load_failed, StoreResult, stored, store_failed,
}
use rv32_complete_v.Rv32f.FRegFile.{FRegFile}
use rv32_complete_v.Rv32f.Fcsr.{FFlags, no_flags, merge, Fcsr, effective_rm, rmm}
use rv32_complete_v.Rv32f.Types.{InstrType, DecodedInstr}
use rv32_complete_v.Rv32f.Decode.{uses_rm}
use rv32_complete_v.Rv32f.Host.{Host}
use rv32_complete_v.Rv32f.Execute.{
  Outcome, finish_load, finish_store, execute_type, rejected, execute, is_illegal,
}

or_false : (b : Bool) → (b || false) ≡ b
or_false true = refl
or_false false = refl

merge-no_flags : (f : FFlags) → merge f no_flags ≡ f
unfolding merge no_flags
merge-no_flags f =
    rw (or_false f.nx, or_false f.uf, or_false f.of, or_false f.dz, or_false f.nv) refl

or_twice : (a b : Bool) → (a || (a || b)) ≡ (a || b)
or_twice true b = refl
or_twice false b = refl

merge-merge : (f g : FFlags) → merge f (merge f g) ≡ merge f g
unfolding merge
merge-merge f g =
    rw
      (
        or_twice f.nx g.nx,
        or_twice f.uf g.uf,
        or_twice f.of g.of,
        or_twice f.dz g.dz,
        or_twice f.nv g.nv,
      )
      refl

module _ {M : Type 0} (host : Host) (bus : Bus M) (allow_misaligned : Bool) (d : DecodedInstr)
    (regs : RegFile) (fregs : FRegFile) (m : M) (fcsr : Fcsr) where
  -- The flags of fcsr grow by those of the result and nothing else of it changes; and where the
  -- instruction traps the result has no flag and no register is written.
  abbrev IsAccrued : Outcome M → Type 0
  IsAccrued o =
      (o.fcsr ≡ record fcsr { fflags = merge fcsr.fflags o.result.flags })
      × (o.result.valid ≡ false → (o.regs ≡ regs) × (o.fregs ≡ fregs) × (o.result.flags ≡ no_flags))

  finish_load-IsAccrued :
      (r : LoadResult) (m' : M)
      → IsAccrued (finish_load host bus allow_misaligned d regs fregs m fcsr (r, m'))
  unfolding finish_load
  finish_load-IsAccrued (loaded val) m' = (refl, λ h. cc)
  finish_load-IsAccrued (load_failed cause tval) m' = (refl, λ h. (refl, refl, refl))

  finish_store-IsAccrued :
      (r : StoreResult) (m' : M)
      → IsAccrued (finish_store host bus allow_misaligned d regs fregs m fcsr (r, m'))
  unfolding finish_store
  finish_store-IsAccrued stored m' = (refl, λ h. (refl, refl, refl))
  finish_store-IsAccrued (store_failed cause tval) m' = (refl, λ h. (refl, refl, refl))

  execute_type-IsAccrued :
      (rm : ℕ) (t : InstrType)
      → IsAccrued (execute_type host bus allow_misaligned d regs fregs m fcsr rm t)
  unfolding execute_type
  execute_type-IsAccrued rm InstrType.flw = finish_load-IsAccrued _ _
  execute_type-IsAccrued rm InstrType.fsw = finish_store-IsAccrued _ _
  execute_type-IsAccrued rm InstrType.illegal = (refl, λ h. (refl, refl, refl))
  execute_type-IsAccrued rm _ = (refl, λ h. cc)

  rejected-IsAccrued : IsAccrued (rejected host bus allow_misaligned d regs fregs m fcsr)
  unfolding rejected
  rejected-IsAccrued = (
    ap (λ f. record fcsr { fflags = f }) (sym (merge-no_flags fcsr.fflags)),
    λ h. (refl, refl, refl),
  )

  unflagged :
      (f : FFlags)
      → f ≡ no_flags
      → ◌≡◌ {A = Fcsr} (record fcsr { fflags = merge fcsr.fflags f }) fcsr
  unflagged f h = rw (h, merge-no_flags fcsr.fflags) refl

  execute-IsAccrued : IsAccrued (execute host bus allow_misaligned d regs fregs m fcsr)
  unfolding execute
  execute-IsAccrued =
      let rm : ℕ = effective_rm fcsr d.rm in
      elim (Bool-cases (is_illegal d.type)) [
        | inl e ↦ rw e rejected-IsAccrued
        | inr e ↦ elim (Bool-cases (uses_rm d.type && ltb rmm rm)) [
          | inl f ↦ rw (e, f) rejected-IsAccrued
          | inr f ↦ rw (e, f) (execute_type-IsAccrued rm d.type)
        ]
      ]

  -- Whatever the host's arithmetic gives, a floating-point instruction clears no accrued exception flag
  -- (merging the old flags into the new ones adds nothing) and keeps the rounding mode; and it either is valid
  -- or leaves both register files and fcsr as they were.
  pub execute-IsSticky :
      let o = execute host bus allow_misaligned d regs fregs m fcsr in
      (merge fcsr.fflags o.fcsr.fflags ≡ o.fcsr.fflags)
      × (o.fcsr.frm ≡ fcsr.frm)
      × ((o.result.valid ≡ true)
          ⊎ ((o.result.valid ≡ false) × (o.regs ≡ regs) × (o.fregs ≡ fregs) × (o.fcsr ≡ fcsr)))
  execute-IsSticky =
      let o = execute host bus allow_misaligned d regs fregs m fcsr in
      let (grown, trapped) = execute-IsAccrued in
      (
        rw grown (merge-merge fcsr.fflags o.result.flags),
        rw grown refl,
        elim (Bool-cases o.result.valid) [
          | inl v ↦ inl v
          | inr v ↦
              let (regs_same, fregs_same, none_raised) = trapped v in
              inr (v, regs_same, fregs_same, grown ∙ unflagged o.result.flags none_raised)
        ],
      )
