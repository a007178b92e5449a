-- ===== src/Rv32fc/Traps.antt =====
-- riscv_rv32fc.hpp, `Executor::execute`: a trapping instruction writes no register.
use rv32_complete_v.Prelude.{◌≡◌, refl, Bool, false}
use rv32_complete_v.Common.RegFile.{RegFile}
use rv32_complete_v.Common.Bus.{
  Bus, LoadResult, loaded, load_failed, StoreResult, stored, store_failed,
}
use rv32_complete_v.Rv32f.FRegFile.{FRegFile}
use rv32_complete_v.Rv32fc.{
  InstrType, DecodedInstr, execute, execute_type, finish_load, finish_store,
}

module _ {M : Type 0} (bus : Bus M) (allow_misaligned : Bool) (d : DecodedInstr) (regs : RegFile)
    (fregs : FRegFile) (m : M) where
  finish_load-fregs :
      (r : LoadResult) (m' : M)
      → (finish_load bus allow_misaligned d regs fregs m (r, m')).result.valid ≡ false
      → (finish_load bus allow_misaligned d regs fregs m (r, m')).fregs ≡ fregs
  unfolding finish_load
  finish_load-fregs (loaded v) m' h = cc
  finish_load-fregs (load_failed cause tval) m' h = refl

  finish_store-fregs :
      (r : StoreResult) (m' : M)
      → (finish_store bus allow_misaligned d regs fregs m (r, m')).fregs ≡ fregs
  unfolding finish_store
  finish_store-fregs stored m' = refl
  finish_store-fregs (store_failed cause tval) m' = refl

  execute_type-fregs :
      (t : InstrType)
      → (execute_type bus allow_misaligned d regs fregs m t).result.valid ≡ false
      → (execute_type bus allow_misaligned d regs fregs m t).fregs ≡ fregs
  unfolding execute_type
  execute_type-fregs InstrType.c_flw h = finish_load-fregs _ _ h
  execute_type-fregs InstrType.c_flwsp h = finish_load-fregs _ _ h
  execute_type-fregs InstrType.c_fsw h = finish_store-fregs _ _
  execute_type-fregs InstrType.c_fswsp h = finish_store-fregs _ _
  execute_type-fregs InstrType.illegal h = refl

  pub execute-fregs :
      (execute bus allow_misaligned d regs fregs m).result.valid ≡ false
      → (execute bus allow_misaligned d regs fregs m).fregs ≡ fregs
  unfolding execute
  execute-fregs h = execute_type-fregs d.type h
