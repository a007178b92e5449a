-- ===== src/Rv32c/Expansion.antt =====
-- riscv_rv32c.hpp against riscv_rv32i.hpp: each compressed instruction does what the base instruction
-- it abbreviates does.
use rv32_complete_v.Prelude.{ℕ, ◌^◌, ◌<◌, ◌≡◌, refl, Bool, true, false, arith, if◌then◌else◌, add32}
use rv32_complete_v.Common.Exception.{PrivilegeLevel}
use rv32_complete_v.Common.RegFile
use rv32_complete_v.Common.RegFile.{RegFile, IsWords, read-lt}
use rv32_complete_v.Common.Bus.{
  Bus, LoadResult, loaded, load_failed, StoreResult, stored, store_failed,
}
use rv32_complete_v.Rv32i.Types as Base
use rv32_complete_v.Rv32i.Execute as BaseExecute
use rv32_complete_v.Rv32c.Types.{InstrType, DecodedInstr}
use rv32_complete_v.Rv32c.Decode.{decode}
use rv32_complete_v.Rv32c.Execute.{Outcome, execute, execute_type, finish_load, finish_store}
use rv32_complete_v.Rv32c.Immediates.{decode-imm-lt}

-- A base instruction of the given operands; its format and function fields play no part.
abbrev base : Base.InstrType → ℕ → ℕ → ℕ → ℕ → ℕ → Base.DecodedInstr
base type rd rs1 rs2 imm raw = record {
  type = type;
  format = Base.InstrFormat.unknown;
  rd = rd;
  rs1 = rs1;
  rs2 = rs2;
  imm = imm;
  funct3 = 0;
  funct7 = 0;
  raw = raw;
}

-- The expansions of the manual: sp is x2, the link register x1.
abbrev pub expand_type : InstrType → DecodedInstr → Base.DecodedInstr
expand_type InstrType.c_addi4spn d = base Base.InstrType.addi d.rd 2 0 d.imm d.raw
expand_type InstrType.c_lw d = base Base.InstrType.lw d.rd d.rs1 0 d.imm d.raw
expand_type InstrType.c_sw d = base Base.InstrType.sw 0 d.rs1 d.rs2 d.imm d.raw
expand_type InstrType.c_nop d = base Base.InstrType.addi 0 0 0 0 d.raw
expand_type InstrType.c_addi d = base Base.InstrType.addi d.rd d.rs1 0 d.imm d.raw
expand_type InstrType.c_jal d = base Base.InstrType.jal 1 0 0 d.imm d.raw
expand_type InstrType.c_li d = base Base.InstrType.addi d.rd 0 0 d.imm d.raw
expand_type InstrType.c_addi16sp d = base Base.InstrType.addi 2 2 0 d.imm d.raw
expand_type InstrType.c_lui d = base Base.InstrType.lui d.rd 0 0 d.imm d.raw
expand_type InstrType.c_srli d = base Base.InstrType.srli d.rd d.rs1 0 d.imm d.raw
expand_type InstrType.c_srai d = base Base.InstrType.srai d.rd d.rs1 0 d.imm d.raw
expand_type InstrType.c_andi d = base Base.InstrType.andi d.rd d.rs1 0 d.imm d.raw
expand_type InstrType.c_sub d = base Base.InstrType.sub d.rd d.rs1 d.rs2 0 d.raw
expand_type InstrType.c_xor d = base Base.InstrType.xor d.rd d.rs1 d.rs2 0 d.raw
expand_type InstrType.c_or d = base Base.InstrType.or d.rd d.rs1 d.rs2 0 d.raw
expand_type InstrType.c_and d = base Base.InstrType.and d.rd d.rs1 d.rs2 0 d.raw
expand_type InstrType.c_j d = base Base.InstrType.jal 0 0 0 d.imm d.raw
expand_type InstrType.c_beqz d = base Base.InstrType.beq 0 d.rs1 0 d.imm d.raw
expand_type InstrType.c_bnez d = base Base.InstrType.bne 0 d.rs1 0 d.imm d.raw
expand_type InstrType.c_slli d = base Base.InstrType.slli d.rd d.rs1 0 d.imm d.raw
expand_type InstrType.c_lwsp d = base Base.InstrType.lw d.rd 2 0 d.imm d.raw
expand_type InstrType.c_jr d = base Base.InstrType.jalr 0 d.rs1 0 0 d.raw
expand_type InstrType.c_mv d = base Base.InstrType.add d.rd 0 d.rs2 0 d.raw
expand_type InstrType.c_ebreak d = base Base.InstrType.ebreak 0 0 0 0 d.raw
expand_type InstrType.c_jalr d = base Base.InstrType.jalr 1 d.rs1 0 0 d.raw
expand_type InstrType.c_add d = base Base.InstrType.add d.rd d.rs1 d.rs2 0 d.raw
expand_type InstrType.c_swsp d = base Base.InstrType.sw 0 2 d.rs2 d.imm d.raw
expand_type InstrType.illegal d = base Base.InstrType.illegal 0 0 0 0 d.raw

abbrev pub expand : DecodedInstr → Base.DecodedInstr
expand d = expand_type d.type d

abbrev pub is_jump : Base.InstrType → Bool
is_jump Base.InstrType.jal = true
is_jump Base.InstrType.jalr = true
is_jump _ = false

-- A base executor of a hart that has the compressed set.
abbrev pub executor : Bool → PrivilegeLevel → BaseExecute.Executor
executor allow_misaligned priv = record {
  c_ext_enabled = true;
  allow_misaligned = allow_misaligned;
  priv = priv;
}

-- The outcome of a base instruction as that of one half as long: the next instruction and the link
-- are at `pc + 2`.
abbrev pub shortened :
    {M : Type 0} → ℕ → RegFile → Base.DecodedInstr → BaseExecute.Outcome M → Outcome M
shortened pc regs d o = record {
  result = record {
    next_pc = if o.result.branch_taken then o.result.next_pc else add32 pc 2;
    branch_taken = o.result.branch_taken;
    trap = o.result.trap;
    trap_cause = o.result.trap_cause;
    trap_value = o.result.trap_value;
  };
  regs = if is_jump d.type then RegFile.write regs d.rd (add32 pc 2) else o.regs;
  bus = o.bus;
}

zero_add32 : (x : ℕ) → x < 2 ^ 32 → add32 0 x ≡ x
zero_add32 x h = omega arith

add32_zero : (x : ℕ) → x < 2 ^ 32 → add32 x 0 ≡ x
add32_zero x h = omega arith

module _ {M : Type 0} (bus : Bus M) (allow_misaligned : Bool) (priv : PrivilegeLevel)
    (d : DecodedInstr) (regs : RegFile) (m : M) (pc : ℕ) where
  finish_load-shortened :
      (e : Base.DecodedInstr)
      → is_jump e.type ≡ false
      → e.rd ≡ d.rd
      → (r : LoadResult) (m' : M)
      → finish_load bus allow_misaligned d regs m pc (r, m')
        ≡ shortened pc regs e (
            BaseExecute.finish_load bus
              (executor allow_misaligned priv)
              e
              regs
              m
              pc
              (λ v. v)
              (r, m'))
  unfolding finish_load BaseExecute.finish_load
  finish_load-shortened e h p (loaded v) m' = rw (h, p) refl
  finish_load-shortened e h p (load_failed cause tval) m' = rw h refl

  finish_store-shortened :
      (e : Base.DecodedInstr)
      → is_jump e.type ≡ false
      → (r : StoreResult) (m' : M)
      → finish_store bus allow_misaligned d regs m pc (r, m')
        ≡ shortened pc regs e
            (BaseExecute.finish_store bus (executor allow_misaligned priv) e regs m pc (r, m'))
  unfolding finish_store BaseExecute.finish_store
  finish_store-shortened e h stored m' = rw h refl
  finish_store-shortened e h (store_failed cause tval) m' = rw h refl

  execute_type-expand :
      IsWords regs
      → d.imm < 2 ^ 32
      → (t : InstrType)
      → execute_type bus allow_misaligned d regs m pc t
        ≡ shortened pc regs
            (expand_type t d)
            (BaseExecute.execute bus (executor allow_misaligned priv) (expand_type t d) regs m pc)
  unfolding execute_type BaseExecute.execute RegFile.read RegFile.write
  execute_type-expand words imm_word InstrType.c_lw =
      finish_load-shortened (expand_type InstrType.c_lw d) refl refl _ _
  execute_type-expand words imm_word InstrType.c_lwsp =
      finish_load-shortened (expand_type InstrType.c_lwsp d) refl refl _ _
  execute_type-expand words imm_word InstrType.c_sw =
      finish_store-shortened (expand_type InstrType.c_sw d) refl _ _
  execute_type-expand words imm_word InstrType.c_swsp =
      finish_store-shortened (expand_type InstrType.c_swsp d) refl _ _
  execute_type-expand words imm_word InstrType.c_li = rw (zero_add32 d.imm imm_word) refl
  execute_type-expand words imm_word InstrType.c_jr =
      rw (add32_zero (RegFile.read regs d.rs1) (read-lt regs d.rs1 words)) refl
  execute_type-expand words imm_word InstrType.c_jalr =
      rw (add32_zero (RegFile.read regs d.rs1) (read-lt regs d.rs1 words)) refl
  execute_type-expand words imm_word InstrType.c_mv =
      rw (zero_add32 (RegFile.read regs d.rs2) (read-lt regs d.rs2 words)) refl
  execute_type-expand words imm_word InstrType.c_beqz = ground arith
  execute_type-expand words imm_word InstrType.c_bnez = ground arith
  execute_type-expand words imm_word _ = refl

-- Executing a decoded compressed instruction, whatever its 16 bits, gives what the base executor
-- gives for its expansion, traps and faults included, with the following instruction and the link
-- at `pc + 2`.
pub execute-expand :
    {M : Type 0} (bus : Bus M) (allow_misaligned : Bool) (priv : PrivilegeLevel) (instr : ℕ)
    (regs : RegFile) (m : M) (pc : ℕ)
    → IsWords regs
    → execute bus allow_misaligned (decode instr) regs m pc
      ≡ shortened pc regs (expand (decode instr)) (
          BaseExecute.execute bus
            (executor allow_misaligned priv)
            (expand (decode instr))
            regs
            m
            pc)
unfolding execute
execute-expand bus allow_misaligned priv instr regs m pc words =
    let d : DecodedInstr = decode instr in
    execute_type-expand bus allow_misaligned priv d regs m pc words (decode-imm-lt instr) d.type
