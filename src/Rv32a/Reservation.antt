-- ===== src/Rv32a/Reservation.antt =====
-- riscv_rv32a.hpp: LR.W and SC.W with the reservation between them.
use rv32_complete_v.Common.RegFile
use rv32_complete_v.Common.RegFile.{RegFile}
use rv32_complete_v.Common.Bus.{Bus}
use rv32_complete_v.Rv32a.{
  InstrType, DecodedInstr, ReservationSet, execute, execute_type, trapped, access_fault, check,
  reserve, load_reserved, store_conditional, clear,
}
use rv32_complete_v.Prelude.{
  ℕ, bit_and, ◌≡◌, refl, sym, ap, ◌∙◌, inl, inr, true, false, Option, none, some, arith, ◌!=◌,
  Bool-cases, not32,
}

-- A reservation is good at each address of the reserved word.
check-reserve :
    (r : ReservationSet) (a b : ℕ)
    → bit_and a (not32 0x3) ≡ bit_and b (not32 0x3)
    → check (reserve r a) b ≡ true
unfolding check reserve
check-reserve r a b h = ground arith

module _ {M : Type 0} (bus : Bus M) (d : DecodedInstr) (regs : RegFile) (m : M)
    (reservation : ReservationSet) where
  abbrev addr : ℕ
  addr = RegFile.read regs d.rs1

  abbrev value : ℕ
  value = RegFile.read regs d.rs2

  -- An aligned SC.W is the body of its case.
  execute-sc :
      d.type ≡ InstrType.sc_w
      → bit_and addr 0x3 ≡ 0
      → execute bus d regs m reservation ≡ store_conditional bus d regs m reservation addr value
  unfolding execute execute_type
  execute-sc e h = rw (e, h) refl

  -- An aligned SC.W whose reservation is not good completes without touching the bus: it writes 1 to its
  -- destination and drops the reservation.
  sc-without_reservation :
      d.type ≡ InstrType.sc_w
      → bit_and addr 0x3 ≡ 0
      → check reservation addr ≡ false
      → let o = execute bus d regs m reservation in
        (o.result.valid ≡ true)
        × (o.result.sc_success ≡ false)
        × (o.bus ≡ m)
        × (o.regs ≡ RegFile.write regs d.rd 1)
        × (o.reservation.valid ≡ false)
  unfolding clear
  sc-without_reservation e h c = rw (execute-sc e h, c) (refl, refl, refl, refl, refl)

  -- An aligned SC.W whose reservation is good, on a bus that takes the write.
  pub sc-with_reservation :
      d.type ≡ InstrType.sc_w
      → bit_and addr 0x3 ≡ 0
      → check reservation addr ≡ true
      → (bus.write32 m addr value).0 ≡ true
      → let o = execute bus d regs m reservation in
        (o.result.valid ≡ true)
        × (o.result.sc_success ≡ true)
        × (o.bus ≡ (bus.write32 m addr value).1)
        × (o.regs ≡ RegFile.write regs d.rd 0)
        × (o.reservation.valid ≡ false)
  unfolding clear
  sc-with_reservation e h c w = rw (execute-sc e h, c, w) (refl, refl, refl, refl, refl)

  lr-loaded :
      (v : Option ℕ) (m' : M)
      → (load_reserved bus d regs m reservation addr v m').result.valid ≡ true
      → (load_reserved bus d regs m reservation addr v m').reservation ≡ reserve reservation addr
  unfolding access_fault
  lr-loaded none m' h = absurd (ground arith)
  lr-loaded (some v) m' h = refl

  execute-lr :
      d.type ≡ InstrType.lr_w
      → bit_and addr 0x3 ≡ 0
      → execute bus d regs m reservation
        ≡ load_reserved bus d regs m reservation addr (bus.read32 m addr).0 (bus.read32 m addr).1
  unfolding execute execute_type
  execute-lr e h = rw (e, h) refl

  misaligned_lr :
      d.type ≡ InstrType.lr_w
      → (bit_and addr 0x3 != 0) ≡ true
      → (execute bus d regs m reservation).result.valid ≡ false
  unfolding execute trapped
  misaligned_lr e h = rw (e, h) refl

  -- LR.W that completes has an aligned address and reserves its word.
  lr-reserves :
      d.type ≡ InstrType.lr_w
      → (execute bus d regs m reservation).result.valid ≡ true
      → ((execute bus d regs m reservation).reservation ≡ reserve reservation addr)
        × (bit_and addr 0x3 ≡ 0)
  lr-reserves e h = elim (Bool-cases (bit_and addr 0x3 != 0)) [
    | inl f ↦ absurd (ground (arith, misaligned_lr e f))
    | inr f ↦
        (let aligned : bit_and addr 0x3 ≡ 0 = ground arith in
          (
            rw (execute-lr e aligned) (
                lr-loaded (bus.read32 m addr).0 (bus.read32 m addr).1
                  (rw (execute-lr e aligned) at h)),
            aligned,
          ))
  ]

-- After an LR.W that completes, an SC.W to the same word succeeds if the bus takes the write: it stores
-- the value, writes 0 to its destination, and uses up the reservation.
pub sc-lr :
    {M : Type 0} (bus : Bus M) (lr sc : DecodedInstr) (regs : RegFile) (m : M)
    (reservation : ReservationSet)
    → lr.type ≡ InstrType.lr_w
    → sc.type ≡ InstrType.sc_w
    → (execute bus lr regs m reservation).result.valid ≡ true
    → RegFile.read (execute bus lr regs m reservation).regs sc.rs1 ≡ RegFile.read regs lr.rs1
    → let after = execute bus lr regs m reservation in
      let stored =
        bus.write32 after.bus (RegFile.read after.regs sc.rs1) (RegFile.read after.regs sc.rs2) in
      stored.0 ≡ true
      → let o = execute bus sc after.regs after.bus after.reservation in
        (o.result.sc_success ≡ true)
        × (o.bus ≡ stored.1)
        × (o.regs ≡ RegFile.write after.regs sc.rd 0)
        × (o.reservation.valid ≡ false)
sc-lr bus lr sc regs m reservation e f v a w =
    let after = execute bus lr regs m reservation in
    let (r, aligned) = lr-reserves bus lr regs m reservation e v in
    let good : check after.reservation (RegFile.read after.regs sc.rs1) ≡ true = rw r (
      check-reserve reservation (RegFile.read regs lr.rs1) (RegFile.read after.regs sc.rs1)
        (ap (λ x. bit_and x (not32 0x3)) (sym a))) in
    let (done, success, memory, written, cleared) =
      sc-with_reservation bus sc after.regs after.bus after.reservation f
        (ap (λ x. bit_and x 0x3) a ∙ aligned) good w in
    (success, memory, written, cleared)
