-- ===== src/Rv32a/Precise.antt =====
-- riscv_rv32a.hpp: a trapping instruction changes nothing.
use rv32_complete_v.Common.RegFile.{RegFile}
use rv32_complete_v.Common.Bus.{Bus}
use rv32_complete_v.Rv32a.{
  store_conditional, InstrType, DecodedInstr, ReservationSet, Outcome, execute, execute_type,
  trapped, access_fault, load_reserved, conditional_stored, amo_written, amo_update, amo_read,
  amo_value, check, is_illegal, is_lr,
}
use rv32_complete_v.Common.Exception.{
  illegal_instruction, load_addr_misaligned, store_addr_misaligned,
}
use rv32_complete_v.Common.RegFile
use rv32_complete_v.Prelude.{
  ℕ, bit_and, ◌≡◌, refl, ◌⊎◌, inl, inr, Bool, true, false, Option, none, some, ◌!=◌, if◌then◌else◌,
  Bool-cases,
}

module _ {M : Type 0} (bus : Bus M) (d : DecodedInstr) (regs : RegFile) (m : M)
    (reservation : ReservationSet) where
  -- Either the instruction is done, or it left the registers and the reservation alone.
  abbrev pub IsAllOrNothing : Outcome M → Type 0
  IsAllOrNothing o =
      (o.result.valid ≡ true)
      ⊎ ((o.result.valid ≡ false) × (o.regs ≡ regs) × (o.reservation ≡ reservation))

  fault-IsAllOrNothing :
      (m' : M) (addr : ℕ) → IsAllOrNothing (access_fault bus d regs m reservation m' addr)
  unfolding access_fault
  fault-IsAllOrNothing m' addr = inr (refl, refl, refl)

  trapped-IsAllOrNothing :
      (cause tval : ℕ) → IsAllOrNothing (trapped bus d regs m reservation cause tval)
  unfolding trapped
  trapped-IsAllOrNothing cause tval = inr (refl, refl, refl)

  load_reserved-IsAllOrNothing :
      (addr : ℕ) (value : Option ℕ) (m' : M)
      → IsAllOrNothing (load_reserved bus d regs m reservation addr value m')
  load_reserved-IsAllOrNothing addr none m' = fault-IsAllOrNothing m' addr
  load_reserved-IsAllOrNothing addr (some v) m' = inl refl

  stored-IsAllOrNothing :
      (addr b : ℕ) (done : Bool) (m' : M)
      → IsAllOrNothing (conditional_stored bus d regs m reservation addr b done m')
  stored-IsAllOrNothing addr b false m' = fault-IsAllOrNothing m' addr
  stored-IsAllOrNothing addr b true m' = inl refl

  written-IsAllOrNothing :
      (addr old_val new_val : ℕ) (done : Bool) (m' : M)
      → IsAllOrNothing (amo_written bus d regs m reservation addr old_val new_val done m')
  written-IsAllOrNothing addr old_val new_val false m' = fault-IsAllOrNothing m' addr
  written-IsAllOrNothing addr old_val new_val true m' = inl refl

  update-IsAllOrNothing :
      (addr old_val : ℕ) (new_val : Option ℕ) (m' : M)
      → IsAllOrNothing (amo_update bus d regs m reservation addr old_val new_val m')
  update-IsAllOrNothing addr old_val none m' = inr (refl, refl, refl)
  update-IsAllOrNothing addr old_val (some v) m' =
      written-IsAllOrNothing addr old_val v (bus.write32 m' addr v).0 (bus.write32 m' addr v).1

  amo-IsAllOrNothing :
      (addr b : ℕ) (old_val : Option ℕ) (m' : M)
      → IsAllOrNothing (amo_read bus d regs m reservation addr b old_val m')
  amo-IsAllOrNothing addr b none m' = fault-IsAllOrNothing m' addr
  amo-IsAllOrNothing addr b (some v) m' = update-IsAllOrNothing addr v (amo_value d.type v b) m'

  store_conditional-IsAllOrNothing :
      (addr b : ℕ) → IsAllOrNothing (store_conditional bus d regs m reservation addr b)
  store_conditional-IsAllOrNothing addr b = elim (Bool-cases (check reservation addr)) [
    | inl e ↦ rw e (stored-IsAllOrNothing addr b (bus.write32 m addr b).0 (bus.write32 m addr b).1)
    | inr e ↦ rw e (inl refl)
  ]

  execute_type-IsAllOrNothing :
      (t : InstrType) (addr b : ℕ) → IsAllOrNothing (execute_type bus d regs m reservation t addr b)
  unfolding execute_type
  execute_type-IsAllOrNothing InstrType.lr_w addr b =
      load_reserved-IsAllOrNothing addr (bus.read32 m addr).0 (bus.read32 m addr).1
  execute_type-IsAllOrNothing InstrType.sc_w addr b = store_conditional-IsAllOrNothing addr b
  execute_type-IsAllOrNothing InstrType.illegal addr b =
      trapped-IsAllOrNothing illegal_instruction d.raw
  execute_type-IsAllOrNothing _ addr b =
      amo-IsAllOrNothing addr b (bus.read32 m addr).0 (bus.read32 m addr).1

  -- An atomic instruction either completes or, whatever the trap, leaves the registers and the reservation
  -- as they were.
  pub execute-IsAllOrNothing : IsAllOrNothing (execute bus d regs m reservation)
  unfolding execute
  execute-IsAllOrNothing =
      let addr : ℕ = RegFile.read regs d.rs1 in
      elim (Bool-cases (is_illegal d.type)) [
        | inl e ↦ rw e (trapped-IsAllOrNothing illegal_instruction d.raw)
        | inr e ↦ elim (Bool-cases (bit_and addr 0x3 != 0)) [
          | inl f ↦
              rw (e, f)
                (trapped-IsAllOrNothing
                  (if is_lr d.type then load_addr_misaligned else store_addr_misaligned) addr)
          | inr f ↦ rw (e, f) (execute_type-IsAllOrNothing d.type addr (RegFile.read regs d.rs2))
        ]
      ]
