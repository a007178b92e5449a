-- ===== src/Rv32c/Traps.antt =====
-- riscv_rv32c.hpp, `Executor::execute`: a trapping instruction writes no register.
use rv32_complete_v.Prelude.{ℕ, ◌≡◌, refl, Bool, true, arith}
use rv32_complete_v.Common.RegFile.{RegFile}
use rv32_complete_v.Common.Bus.{
  Bus, LoadResult, loaded, load_failed, StoreResult, stored, store_failed,
}
use rv32_complete_v.Rv32c.Types.{InstrType, DecodedInstr}
use rv32_complete_v.Rv32c.Execute.{execute, execute_type, finish_load, finish_store}

module _ {M : Type 0} (bus : Bus M) (allow_misaligned : Bool) (d : DecodedInstr) (regs : RegFile)
    (m : M) (pc : ℕ) where
  finish_load-regs :
      (r : LoadResult) (m' : M)
      → (finish_load bus allow_misaligned d regs m pc (r, m')).result.trap ≡ true
      → (finish_load bus allow_misaligned d regs m pc (r, m')).regs ≡ regs
  unfolding finish_load
  finish_load-regs (loaded v) m' h = cc
  finish_load-regs (load_failed cause tval) m' h = refl

  finish_store-regs :
      (r : StoreResult) (m' : M)
      → (finish_store bus allow_misaligned d regs m pc (r, m')).regs ≡ regs
  unfolding finish_store
  finish_store-regs stored m' = refl
  finish_store-regs (store_failed cause tval) m' = refl

  execute_type-regs :
      (t : InstrType)
      → (execute_type bus allow_misaligned d regs m pc t).result.trap ≡ true
      → (execute_type bus allow_misaligned d regs m pc t).regs ≡ regs
  unfolding execute_type
  execute_type-regs InstrType.c_lw h = finish_load-regs _ _ h
  execute_type-regs InstrType.c_lwsp h = finish_load-regs _ _ h
  execute_type-regs InstrType.c_sw h = finish_store-regs _ _
  execute_type-regs InstrType.c_swsp h = finish_store-regs _ _
  execute_type-regs _ h = ground arith

  -- A compressed instruction that traps writes no register.
  pub execute-regs :
      (execute bus allow_misaligned d regs m pc).result.trap ≡ true
      → (execute bus allow_misaligned d regs m pc).regs ≡ regs
  unfolding execute
  execute-regs h = execute_type-regs d.type h
