-- ===== src/Rv32a/Amo.antt =====
-- riscv_rv32a.hpp: the atomic memory operations on a `SimpleMemory`.
use rv32_complete_v.Common.RegFile
use rv32_complete_v.Common.RegFile.{RegFile, IsWords, read-lt}
use rv32_complete_v.Common.Bus.{Bus}
use rv32_complete_v.Common.Memory.{SimpleMemory, memory_bus, check_addr, read32, write32}
use rv32_complete_v.Common.MemoryLaws.{read32-write32}
use rv32_complete_v.Rv32a.{
  InstrType, DecodedInstr, ReservationSet, amo_value, amo_read, execute, execute_type, is_illegal,
}
use rv32_complete_v.Prelude.{
  Option-cases, ℕ, ◌^◌, ◌<◌, bit_and, ◌≡◌, refl, inl, inr, true, false, some, arith, Bool-cases,
  ◌+◌, ◌%◌, ℕ, min, max, bit, bit-bit_and, bit-bit_or, bit-bit_xor, bit_or-lt, bit_xor-lt,
  bit_and-lt,
}

-- A signed word on a scale from 0: the order of these numbers is that of the signed words.
abbrev offset : ℕ → ℕ
offset x = (x + 2 ^ 31) % 2 ^ 32

-- What an operation makes of the old word and of the source register: the bitwise ones by their digits, the
-- signed ones on the scale.
abbrev pub IsAmoWord : InstrType → ℕ → ℕ → ℕ → Type 0
IsAmoWord InstrType.amoswap_w a b v = v ≡ b
IsAmoWord InstrType.amoadd_w a b v = v ≡ (a + b) % 2 ^ 32
IsAmoWord InstrType.amoxor_w a b v = (i : ℕ) → bit v i ≡ (bit a i + bit b i) % 2
IsAmoWord InstrType.amoand_w a b v = (i : ℕ) → bit v i ≡ min (bit a i) (bit b i)
IsAmoWord InstrType.amoor_w a b v = (i : ℕ) → bit v i ≡ max (bit a i) (bit b i)
IsAmoWord InstrType.amomin_w a b v = offset v ≡ min (offset a) (offset b)
IsAmoWord InstrType.amomax_w a b v = offset v ≡ max (offset a) (offset b)
IsAmoWord InstrType.amominu_w a b v = v ≡ min a b
IsAmoWord InstrType.amomaxu_w a b v = v ≡ max a b
IsAmoWord _ a b v = true ≡ false

amo_value-IsAmoWord :
    (t : InstrType) (a b v : ℕ)
    → a < 2 ^ 32
    → b < 2 ^ 32
    → amo_value t a b ≡ some v
    → IsAmoWord t a b v
unfolding amo_value
amo_value-IsAmoWord InstrType.amoswap_w a b v p q e = ground arith
amo_value-IsAmoWord InstrType.amoadd_w a b v p q e = ground arith
amo_value-IsAmoWord InstrType.amoxor_w a b v p q e = λ i. ground (arith, bit-bit_xor a b i)
amo_value-IsAmoWord InstrType.amoand_w a b v p q e = λ i. ground (arith, bit-bit_and a b i)
amo_value-IsAmoWord InstrType.amoor_w a b v p q e = λ i. ground (arith, bit-bit_or a b i)
amo_value-IsAmoWord InstrType.amomin_w a b v p q e = ground arith
amo_value-IsAmoWord InstrType.amomax_w a b v p q e = ground arith
amo_value-IsAmoWord InstrType.amominu_w a b v p q e = ground arith
amo_value-IsAmoWord InstrType.amomaxu_w a b v p q e = ground arith
amo_value-IsAmoWord InstrType.lr_w a b v p q e = absurd (ground arith)
amo_value-IsAmoWord InstrType.sc_w a b v p q e = absurd (ground arith)
amo_value-IsAmoWord InstrType.illegal a b v p q e = absurd (ground arith)

-- A word that an operation stores is a word.
amo_value-lt :
    (t : InstrType) (a b new_val : ℕ)
    → a < 2 ^ 32
    → b < 2 ^ 32
    → amo_value t a b ≡ some new_val
    → new_val < 2 ^ 32
unfolding amo_value
amo_value-lt InstrType.lr_w a b new_val p q e = absurd (ground arith)
amo_value-lt InstrType.sc_w a b new_val p q e = absurd (ground arith)
amo_value-lt InstrType.illegal a b new_val p q e = absurd (ground arith)
amo_value-lt InstrType.amoxor_w a b new_val p q e = ground (arith, bit_xor-lt 32 a b p q)
amo_value-lt InstrType.amoand_w a b new_val p q e = ground (arith, bit_and-lt 32 a b p)
amo_value-lt InstrType.amoor_w a b new_val p q e = ground (arith, bit_or-lt 32 a b p q)
amo_value-lt _ a b new_val p q e = ground arith

module _ {M : Type 0} (bus : Bus M) (d : DecodedInstr) (regs : RegFile) (m : M)
    (reservation : ReservationSet) where
  amo-body :
      (t : InstrType) (addr b a new_val : ℕ)
      → amo_value t a b ≡ some new_val
      → (is_illegal t ≡ false)
        × (execute_type bus d regs m reservation t addr b
            ≡ amo_read bus d regs m reservation addr b (bus.read32 m addr).0 (bus.read32 m addr).1)
  unfolding execute_type amo_value
  amo-body InstrType.lr_w addr b a new_val e = absurd (ground arith)
  amo-body InstrType.sc_w addr b a new_val e = absurd (ground arith)
  amo-body InstrType.illegal addr b a new_val e = absurd (ground arith)
  amo-body _ addr b a new_val e = (refl, refl)

  execute-amo :
      (a new_val : ℕ)
      → bit_and (RegFile.read regs d.rs1) 0x3 ≡ 0
      → amo_value d.type a (RegFile.read regs d.rs2) ≡ some new_val
      → execute bus d regs m reservation
        ≡ amo_read bus d regs m reservation
            (RegFile.read regs d.rs1)
            (RegFile.read regs d.rs2)
            (bus.read32 m (RegFile.read regs d.rs1)).0
            (bus.read32 m (RegFile.read regs d.rs1)).1
  unfolding execute
  execute-amo a new_val h e =
      let (l, b) =
        amo-body d.type (RegFile.read regs d.rs1) (RegFile.read regs d.rs2) a new_val e in
      rw (l, h) b

-- Where a word can be read, it can be written.
write32-read32 :
    (m : SimpleMemory) (addr w v : ℕ)
    → read32 m addr ≡ some v
    → (m' : SimpleMemory) × (write32 m addr w ≡ some m')
unfolding read32 write32
write32-read32 m addr w v e = elim (Bool-cases (check_addr m addr 4)) [
  | inl c ↦ elim (Option-cases (write32 m addr w)) [
    | inl q ↦ absurd (ground (arith, rw c at q))
    | inr found ↦ found
  ]
  | inr c ↦ absurd (ground (arith, rw c at e))
]

-- With 32-bit registers, an aligned AMO on a memory where its word can be read completes: its
-- destination gets the old word, a read of the address then gives what the operation makes of the old word
-- and the source register, and the reservation is kept. This word is the swapped one, the sum, the bitwise
-- one by its digits, or the lesser or the greater one in the signed or the unsigned order.
pub amo-memory :
    (d : DecodedInstr) (regs : RegFile) (m : SimpleMemory) (reservation : ReservationSet)
    (a new_val : ℕ)
    → IsWords regs
    → a < 2 ^ 32
    → bit_and (RegFile.read regs d.rs1) 0x3 ≡ 0
    → read32 m (RegFile.read regs d.rs1) ≡ some a
    → amo_value d.type a (RegFile.read regs d.rs2) ≡ some new_val
    → let o = execute memory_bus d regs m reservation in
      (o.result.valid ≡ true)
      × (o.regs ≡ RegFile.write regs d.rd a)
      × (read32 o.bus (RegFile.read regs d.rs1) ≡ some new_val)
      × (o.reservation ≡ reservation)
      × IsAmoWord d.type a (RegFile.read regs d.rs2) new_val
unfolding memory_bus
amo-memory d regs m reservation a new_val w p h r e =
    let addr : ℕ = RegFile.read regs d.rs1 in
    let b : ℕ = RegFile.read regs d.rs2 in
    let (m', s) = write32-read32 m addr new_val a r in
    let new-lt = amo_value-lt d.type a b new_val p (read-lt regs d.rs2 w) e in
    rw (execute-amo memory_bus d regs m reservation a new_val h e, r, e, s)
      (
        refl,
        refl,
        read32-write32 m m' addr new_val new-lt s,
        refl,
        amo_value-IsAmoWord d.type a b new_val p (read-lt regs d.rs2 w) e,
      )
