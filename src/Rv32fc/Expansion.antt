-- ===== src/Rv32fc/Expansion.antt =====
-- riscv_rv32fc.hpp against riscv_rv32f.hpp: C.FLW and C.FLWSP do what FLW does, C.FSW and C.FSWSP what FSW does.
use rv32_complete_v.Prelude.{ℕ, ◌≡◌, refl, Bool}
use rv32_complete_v.Common.RegFile.{RegFile}
use rv32_complete_v.Common.Bus.{
  Bus, LoadResult, loaded, load_failed, StoreResult, stored, store_failed,
}
use rv32_complete_v.Rv32f.FRegFile.{FRegFile}
use rv32_complete_v.Rv32f.Fcsr.{Fcsr}
use rv32_complete_v.Rv32f.Host.{Host}
use rv32_complete_v.Rv32f.Types as Base
use rv32_complete_v.Rv32f.Execute as BaseExecute
use rv32_complete_v.Rv32fc.{
  InstrType, DecodedInstr, Outcome, execute, execute_type, finish_load, finish_store,
}

abbrev base : Base.InstrType → ℕ → ℕ → ℕ → ℕ → ℕ → Base.DecodedInstr
base type rd rs1 rs2 imm raw = record {
  type = type;
  rd = rd;
  rs1 = rs1;
  rs2 = rs2;
  rs3 = 0;
  rm = 0;
  imm = imm;
  funct7 = 0;
  funct3 = 0;
  raw = raw;
}

-- The instructions that the four abbreviate.
abbrev pub expand_type : InstrType → DecodedInstr → Base.DecodedInstr
expand_type InstrType.c_flw d = base Base.InstrType.flw d.rd d.rs1 0 d.uimm d.raw
expand_type InstrType.c_fsw d = base Base.InstrType.fsw 0 d.rs1 d.rs2 d.uimm d.raw
expand_type InstrType.c_flwsp d = base Base.InstrType.flw d.rd 2 0 d.uimm d.raw
expand_type InstrType.c_fswsp d = base Base.InstrType.fsw 0 2 d.rs2 d.uimm d.raw
expand_type InstrType.illegal d = base Base.InstrType.illegal 0 0 0 0 d.raw

-- What both outcomes report alike: the result, the floating-point registers and the bus.
abbrev pub AreAlike : {M : Type 0} → Outcome M → BaseExecute.Outcome M → Type 0
AreAlike o b =
    (o.result.valid ≡ b.result.valid)
    × (o.result.trap_cause ≡ b.result.trap_cause)
    × (o.result.trap_value ≡ b.result.trap_value)
    × (o.result.memory_read ≡ b.result.memory_read)
    × (o.result.memory_written ≡ b.result.memory_written)
    × (o.fregs ≡ b.fregs)
    × (o.bus ≡ b.bus)

module _ {M : Type 0} (host : Host) (bus : Bus M) (allow_misaligned : Bool) (d : DecodedInstr)
    (regs : RegFile) (fregs : FRegFile) (m : M) (fcsr : Fcsr) where
  finish_load-AreAlike :
      (e : Base.DecodedInstr) (r : LoadResult) (m' : M)
      → d.rd ≡ e.rd
      → AreAlike
          (finish_load bus allow_misaligned d regs fregs m (r, m'))
          (BaseExecute.finish_load host bus allow_misaligned e regs fregs m fcsr (r, m'))
  unfolding finish_load BaseExecute.finish_load
  finish_load-AreAlike e (loaded val) m' h = rw h (refl, refl, refl, refl, refl, refl, refl)
  finish_load-AreAlike e (load_failed cause tval) m' h = (refl, refl, refl, refl, refl, refl, refl)

  finish_store-AreAlike :
      (e : Base.DecodedInstr) (r : StoreResult) (m' : M)
      → AreAlike
          (finish_store bus allow_misaligned d regs fregs m (r, m'))
          (BaseExecute.finish_store host bus allow_misaligned e regs fregs m fcsr (r, m'))
  unfolding finish_store BaseExecute.finish_store
  finish_store-AreAlike e stored m' = (refl, refl, refl, refl, refl, refl, refl)
  finish_store-AreAlike e (store_failed cause tval) m' = (refl, refl, refl, refl, refl, refl, refl)

  execute_type-AreAlike :
      (t : InstrType)
      → AreAlike
          (execute_type bus allow_misaligned d regs fregs m t)
          (BaseExecute.execute host bus allow_misaligned (expand_type t d) regs fregs m fcsr)
  unfolding execute_type BaseExecute.execute
  execute_type-AreAlike InstrType.c_flw =
      finish_load-AreAlike (expand_type InstrType.c_flw d) _ _ refl
  execute_type-AreAlike InstrType.c_flwsp =
      finish_load-AreAlike (expand_type InstrType.c_flwsp d) _ _ refl
  execute_type-AreAlike InstrType.c_fsw = finish_store-AreAlike (expand_type InstrType.c_fsw d) _ _
  execute_type-AreAlike InstrType.c_fswsp =
      finish_store-AreAlike (expand_type InstrType.c_fswsp d) _ _
  execute_type-AreAlike InstrType.illegal = (refl, refl, refl, refl, refl, refl, refl)

  -- A compressed floating-point instruction does what FLW or FSW with its operands does: the same
  -- verdict, cause and trap value, the same registers and the same bus.
  pub execute-AreAlike :
      AreAlike
        (execute bus allow_misaligned d regs fregs m)
        (BaseExecute.execute host bus allow_misaligned (expand_type d.type d) regs fregs m fcsr)
  unfolding execute
  execute-AreAlike = execute_type-AreAlike d.type
