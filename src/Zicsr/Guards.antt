-- ===== src/Zicsr/Guards.antt =====
-- riscv_zicsr.hpp: what an access to a control and status register is checked for.
use rv32_complete_v.Common.Exception.{level, of_level, illegal_instruction}
use rv32_complete_v.Common.RegFile.{RegFile}
use rv32_complete_v.Zicsr.File.{CsrFile, exists, can_read, can_write, from_address}
use rv32_complete_v.Zicsr.Execute.{DecodedCsrInstr, is_illegal, writes, denied, access, execute}
use rv32_complete_v.Prelude.{
  ℕ, zero, suc, ◌/◌, ◌%◌, ◌≤◌, ◌<◌, ◌≡◌, refl, ap, ◌∙◌, ◌⊎◌, inl, inr, Bool, true, false, not, ◌&&◌,
  ◌||◌, arith, if◌then◌else◌, Bool-cases, bit_and_mask,
}

level-of_level : (n : ℕ) → n < 4 → level (of_level n) ≡ n
level-of_level zero h = refl
level-of_level (suc zero) h = refl
level-of_level (suc (suc zero)) h = refl
level-of_level (suc (suc (suc zero))) h = refl
level-of_level (suc (suc (suc (suc n)))) h = absurd (omega arith)

-- The fields of a register's number: its lowest level and whether it is read-only.
min_level : (a : ℕ) → level (from_address a).min_privilege ≡ a / 256 % 4
unfolding from_address
min_level a =
    ap (λ n. level (of_level n)) (bit_and_mask 2 (a / 256))
    ∙ level-of_level (a / 256 % 4) (omega arith)

writable-field : (f : CsrFile) (a : ℕ) → can_write f a ≡ true → a / 1024 % 4 < 3
unfolding can_write from_address
writable-field f a h = ground (arith, bit_and_mask 2 (a / 1024))

conjuncts :
    (a b c d e : Bool)
    → (a && b && c && (d || e)) ≡ true
    → (b ≡ true) × (c ≡ true) × ((d ≡ true) ⊎ (e ≡ true))
conjuncts a b c d e h = ground arith

module _ (d : DecodedCsrInstr) (regs : RegFile) (f : CsrFile) where
  abbrev guards : Bool
  guards =
      not (is_illegal d.type)
      && exists f d.csr
      && can_read f d.csr
      && (not (writes d.type d.rs1) || can_write f d.csr)

  -- The chain of early returns is one test.
  execute-guards : execute d regs f ≡ (if guards then access d regs f else denied d regs f)
  unfolding execute
  execute-guards = ground arith

  can_read-level :
      can_read f d.csr ≡ true → level (from_address d.csr).min_privilege ≤ level f.current_privilege
  unfolding can_read
  can_read-level h = ground arith

  written :
      (not (writes d.type d.rs1) ≡ true) ⊎ (can_write f d.csr ≡ true)
      → (writes d.type d.rs1 ≡ false) ⊎ (d.csr / 1024 % 4 < 3)
  written (inl n) = inl (ground arith)
  written (inr w) = inr (writable-field f d.csr w)

  -- An access that is refused changes neither the registers nor the file, and is an illegal instruction
  -- whose trap value is the instruction.
  pub execute-denied :
      (execute d regs f).result.valid ≡ false
      → let o = execute d regs f in
        (o.regs ≡ regs)
        × (o.csrs ≡ f)
        × (o.result.exception_cause ≡ illegal_instruction)
        × (o.result.trap_value ≡ d.raw)
  unfolding denied access
  execute-denied h = elim (Bool-cases guards) [
    | inl g ↦ absurd (ground (arith, rw (execute-guards, g) at h))
    | inr g ↦ rw (execute-guards, g) (refl, refl, refl, refl)
  ]

  -- An access that completes is to a register that exists and whose number asks for no higher level than
  -- the current one, and does not write a register whose number says that it is read-only.
  pub execute-allowed :
      (execute d regs f).result.valid ≡ true
      → (exists f d.csr ≡ true)
        × (d.csr / 256 % 4 ≤ level f.current_privilege)
        × ((writes d.type d.rs1 ≡ false) ⊎ (d.csr / 1024 % 4 < 3))
  unfolding denied
  execute-allowed h = elim (Bool-cases guards) [
    | inl g ↦
        (let (x, r, w) =
            conjuncts (not (is_illegal d.type)) (exists f d.csr) (can_read f d.csr)
              (not (writes d.type d.rs1)) (can_write f d.csr) g in
          (x, omega (arith, can_read-level r, min_level d.csr), written w))
    | inr g ↦ absurd (ground (arith, rw (execute-guards, g) at h))
  ]
