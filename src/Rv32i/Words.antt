-- ===== src/Rv32i/Words.antt =====
-- Every value that the base set of riscv_rv32i.hpp produces is a 32-bit word.
use native.Mathlib.Nat.{div-le_self}
use rv32_complete_v.Common.RegFile
use rv32_complete_v.Common.RegFile.{RegFile, IsWords, read-lt, write-IsWords}
use rv32_complete_v.Common.Bus.{
  Bus, LoadResult, loaded, load_failed, StoreResult, stored, store_failed, load,
}
use rv32_complete_v.Rv32i.Types.{InstrType, DecodedInstr}
use rv32_complete_v.Rv32i.Execute.{
  Executor, Outcome, execute, execute_type, finish_load, finish_store, sext8, sext16, of_bool,
  set_rd, jump, branch_if,
}
use rv32_complete_v.Prelude.{
  ℕ, ◌^◌, ◌<◌, bit_and, ◌≡◌, refl, Bool, true, false, Option, none, some, arith, bit_or-lt,
  bit_xor-lt, bit_and-le, ℤ, pos, negsuc, shr_ℤ, wrap, signed, signed32, u8, u16, add32, shr32,
  not32, sra32, bit_and-lt,
}

abbrev OptionLt : ℕ → Option ℕ → Type 0
OptionLt k none = Unit {0}
OptionLt k (some v) = v < k

-- A bus whose reads return values of their width.
pub record IsWordBus {M : Type 0} (bus : Bus M) : Type 0 where
  pub bytes : (m : M) (addr : ℕ) → OptionLt (2 ^ 8) (bus.read8 m addr).0
  pub halves : (m : M) (addr : ℕ) → OptionLt (2 ^ 16) (bus.read16 m addr).0
  pub words : (m : M) (addr : ℕ) → OptionLt (2 ^ 32) (bus.read32 m addr).0

-- The registers and the next program counter are words.
abbrev pub IsWordOutcome : {M : Type 0} → Outcome M → Type 0
IsWordOutcome o = IsWords o.regs × (o.result.next_pc < 2 ^ 32)

wrap-lt : (z : ℤ) → wrap 32 z < 2 ^ 32
wrap-lt (pos n) = omega arith
wrap-lt (negsuc n) = omega arith

of_bool-lt : (b : Bool) → of_bool b < 2 ^ 32
of_bool-lt true = omega arith
of_bool-lt false = omega arith

sra32-lt : (a k : ℕ) → sra32 a k < 2 ^ 32
sra32-lt a k = wrap-lt (shr_ℤ (signed32 a) k)

shr32-lt : (a k : ℕ) → a < 2 ^ 32 → shr32 a k < 2 ^ 32
shr32-lt a k h = omega (arith, div-le_self a (2 ^ k))

module _ {M : Type 0} (bus : Bus M) (ex : Executor) (d : DecodedInstr) (regs : RegFile) (m : M)
    (pc : ℕ) (regs_words : IsWords regs) (imm_word : d.imm < 2 ^ 32) where
  rs1_word : RegFile.read regs d.rs1 < 2 ^ 32
  rs1_word = read-lt regs d.rs1 regs_words

  rs2_word : RegFile.read regs d.rs2 < 2 ^ 32
  rs2_word = read-lt regs d.rs2 regs_words

  set_rd-IsWordOutcome : (v : ℕ) → v < 2 ^ 32 → IsWordOutcome (set_rd bus ex d regs m pc v)
  unfolding set_rd
  set_rd-IsWordOutcome v h = (write-IsWords regs d.rd v regs_words h, omega arith)

  jump-IsWordOutcome : (t : ℕ) → t < 2 ^ 32 → IsWordOutcome (jump bus ex d regs m pc t)
  unfolding jump
  jump-IsWordOutcome t h = (
    λ i.
        ground
          (arith, write-IsWords regs d.rd (add32 pc 4) regs_words (omega arith) i, regs_words i),
    ground arith,
  )

  branch_if-IsWordOutcome : (b : Bool) → IsWordOutcome (branch_if bus ex d regs m pc b)
  unfolding branch_if
  branch_if-IsWordOutcome b = (regs_words, ground arith)

  finish_load-IsWordOutcome :
      (extend : ℕ → ℕ) (r : LoadResult) (m' : M)
      → ((v : ℕ) → r ≡ loaded v → extend v < 2 ^ 32)
      → IsWordOutcome (finish_load bus ex d regs m pc extend (r, m'))
  unfolding finish_load
  finish_load-IsWordOutcome extend (loaded v) m' h =
      (write-IsWords regs d.rd (extend v) regs_words (h v refl), omega arith)
  finish_load-IsWordOutcome extend (load_failed cause tval) m' h = (regs_words, omega arith)

  finish_store-IsWordOutcome :
      (r : StoreResult) (m' : M) → IsWordOutcome (finish_store bus ex d regs m pc (r, m'))
  unfolding finish_store
  finish_store-IsWordOutcome stored m' = (regs_words, omega arith)
  finish_store-IsWordOutcome (store_failed cause tval) m' = (regs_words, omega arith)

  load_word :
      (bus_words : IsWordBus bus) (addr : ℕ) (v : ℕ)
      → (load bus m addr 4 ex.allow_misaligned).0 ≡ loaded v
      → v < 2 ^ 32
  unfolding load
  load_word bus_words addr v h = ground (arith, bus_words.words m addr)

  execute_type-IsWordOutcome :
      (bus_words : IsWordBus bus) (t : InstrType)
      → IsWordOutcome (execute_type bus ex d regs m pc t)
  unfolding execute_type
  execute_type-IsWordOutcome bus_words InstrType.lb =
      finish_load-IsWordOutcome sext8 _ _ (λ v h. wrap-lt (signed 8 (u8 v)))
  execute_type-IsWordOutcome bus_words InstrType.lh =
      finish_load-IsWordOutcome sext16 _ _ (λ v h. wrap-lt (signed 16 (u16 v)))
  execute_type-IsWordOutcome bus_words InstrType.lw =
      finish_load-IsWordOutcome (λ v. v) _ _ (λ v h. load_word bus_words _ v h)
  execute_type-IsWordOutcome bus_words InstrType.lbu =
      finish_load-IsWordOutcome (λ v. bit_and v 0xff) _ _ (λ v h. omega (arith, bit_and-le v 0xff))
  execute_type-IsWordOutcome bus_words InstrType.lhu =
      finish_load-IsWordOutcome (λ v. bit_and v 0xffff) _ _
        (λ v h. omega (arith, bit_and-le v 0xffff))
  execute_type-IsWordOutcome bus_words InstrType.sb = finish_store-IsWordOutcome _ _
  execute_type-IsWordOutcome bus_words InstrType.sh = finish_store-IsWordOutcome _ _
  execute_type-IsWordOutcome bus_words InstrType.sw = finish_store-IsWordOutcome _ _
  execute_type-IsWordOutcome bus_words InstrType.jal = jump-IsWordOutcome _ (omega arith)
  execute_type-IsWordOutcome bus_words InstrType.jalr =
      jump-IsWordOutcome _ (bit_and-lt 32 _ (not32 1) (omega arith))
  execute_type-IsWordOutcome bus_words InstrType.lui = set_rd-IsWordOutcome _ imm_word
  execute_type-IsWordOutcome bus_words InstrType.xori =
      set_rd-IsWordOutcome _ (bit_xor-lt 32 _ _ rs1_word imm_word)
  execute_type-IsWordOutcome bus_words InstrType.ori =
      set_rd-IsWordOutcome _ (bit_or-lt 32 _ _ rs1_word imm_word)
  execute_type-IsWordOutcome bus_words InstrType.andi =
      set_rd-IsWordOutcome _ (bit_and-lt 32 _ _ rs1_word)
  execute_type-IsWordOutcome bus_words InstrType.xor =
      set_rd-IsWordOutcome _ (bit_xor-lt 32 _ _ rs1_word rs2_word)
  execute_type-IsWordOutcome bus_words InstrType.or =
      set_rd-IsWordOutcome _ (bit_or-lt 32 _ _ rs1_word rs2_word)
  execute_type-IsWordOutcome bus_words InstrType.and =
      set_rd-IsWordOutcome _ (bit_and-lt 32 _ _ rs1_word)
  execute_type-IsWordOutcome bus_words InstrType.slti = set_rd-IsWordOutcome _ (of_bool-lt _)
  execute_type-IsWordOutcome bus_words InstrType.sltiu = set_rd-IsWordOutcome _ (of_bool-lt _)
  execute_type-IsWordOutcome bus_words InstrType.slt = set_rd-IsWordOutcome _ (of_bool-lt _)
  execute_type-IsWordOutcome bus_words InstrType.sltu = set_rd-IsWordOutcome _ (of_bool-lt _)
  execute_type-IsWordOutcome bus_words InstrType.srai = set_rd-IsWordOutcome _ (sra32-lt _ _)
  execute_type-IsWordOutcome bus_words InstrType.sra = set_rd-IsWordOutcome _ (sra32-lt _ _)
  execute_type-IsWordOutcome bus_words InstrType.srli =
      set_rd-IsWordOutcome _ (shr32-lt _ _ rs1_word)
  execute_type-IsWordOutcome bus_words InstrType.srl =
      set_rd-IsWordOutcome _ (shr32-lt _ _ rs1_word)
  execute_type-IsWordOutcome bus_words InstrType.auipc = set_rd-IsWordOutcome _ (omega arith)
  execute_type-IsWordOutcome bus_words InstrType.addi = set_rd-IsWordOutcome _ (omega arith)
  execute_type-IsWordOutcome bus_words InstrType.add = set_rd-IsWordOutcome _ (omega arith)
  execute_type-IsWordOutcome bus_words InstrType.sub = set_rd-IsWordOutcome _ (omega arith)
  execute_type-IsWordOutcome bus_words InstrType.slli = set_rd-IsWordOutcome _ (omega arith)
  execute_type-IsWordOutcome bus_words InstrType.sll = set_rd-IsWordOutcome _ (omega arith)
  execute_type-IsWordOutcome bus_words InstrType.beq = branch_if-IsWordOutcome _
  execute_type-IsWordOutcome bus_words InstrType.bne = branch_if-IsWordOutcome _
  execute_type-IsWordOutcome bus_words InstrType.blt = branch_if-IsWordOutcome _
  execute_type-IsWordOutcome bus_words InstrType.bge = branch_if-IsWordOutcome _
  execute_type-IsWordOutcome bus_words InstrType.bltu = branch_if-IsWordOutcome _
  execute_type-IsWordOutcome bus_words InstrType.bgeu = branch_if-IsWordOutcome _
  execute_type-IsWordOutcome bus_words _ = (regs_words, omega arith)

-- Executing an instruction keeps every register and the next program counter a 32-bit word, if the
-- registers, the immediate and what the bus returns are.
pub execute-IsWordOutcome :
    {M : Type 0} (bus : Bus M) (ex : Executor) (d : DecodedInstr) (regs : RegFile) (m : M) (pc : ℕ)
    → IsWordBus bus
    → IsWords regs
    → d.imm < 2 ^ 32
    → IsWordOutcome (execute bus ex d regs m pc)
unfolding execute
execute-IsWordOutcome bus ex d regs m pc bus_words regs_words imm_word =
    execute_type-IsWordOutcome bus ex d regs m pc regs_words imm_word bus_words d.type
