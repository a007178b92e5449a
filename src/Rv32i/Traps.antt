-- ===== src/Rv32i/Traps.antt =====
-- Precise traps of the base set: riscv_rv32i.hpp, `Executor::execute`.
use rv32_complete_v.Common.RegFile.{RegFile}
use rv32_complete_v.Common.Bus.{
  Bus, LoadResult, loaded, load_failed, StoreResult, stored, store_failed,
}
use rv32_complete_v.Rv32i.Types.{InstrType, DecodedInstr}
use rv32_complete_v.Rv32i.Execute.{
  Executor, Outcome, execute, execute_type, finish_load, finish_store,
}
use rv32_complete_v.Prelude.{ℕ, Bool, ◌||◌, refl, ◌≡◌, true, false, arith, add32}

-- What a trapping instruction leaves.
abbrev pub IsPrecise : {M : Type 0} → RegFile → ℕ → Outcome M → Type 0
IsPrecise regs pc o =
    (o.regs ≡ regs)
    × (o.result.next_pc ≡ add32 pc 4)
    × (o.result.branch_taken ≡ false)
    × (o.result.mret ≡ false)
    × (o.result.sret ≡ false)

module _ {M : Type 0} (bus : Bus M) (ex : Executor) (d : DecodedInstr) (regs : RegFile) (m : M)
    (pc : ℕ) where
  finish_load-IsPrecise :
      (extend : ℕ → ℕ) (r : LoadResult) (m' : M)
      → (finish_load bus ex d regs m pc extend (r, m')).result.trap ≡ true
      → IsPrecise regs pc (finish_load bus ex d regs m pc extend (r, m'))
  unfolding finish_load
  finish_load-IsPrecise extend (loaded v) m' h = cc
  finish_load-IsPrecise extend (load_failed cause tval) m' h = ground arith

  finish_store-IsPrecise :
      (r : StoreResult) (m' : M)
      → (finish_store bus ex d regs m pc (r, m')).result.trap ≡ true
      → IsPrecise regs pc (finish_store bus ex d regs m pc (r, m'))
  unfolding finish_store
  finish_store-IsPrecise stored m' h = cc
  finish_store-IsPrecise (store_failed cause tval) m' h = ground arith

  execute_type-IsPrecise :
      (t : InstrType)
      → (execute_type bus ex d regs m pc t).result.trap ≡ true
      → IsPrecise regs pc (execute_type bus ex d regs m pc t)
  unfolding execute_type
  execute_type-IsPrecise InstrType.lb h = finish_load-IsPrecise _ _ _ h
  execute_type-IsPrecise InstrType.lh h = finish_load-IsPrecise _ _ _ h
  execute_type-IsPrecise InstrType.lw h = finish_load-IsPrecise _ _ _ h
  execute_type-IsPrecise InstrType.lbu h = finish_load-IsPrecise _ _ _ h
  execute_type-IsPrecise InstrType.lhu h = finish_load-IsPrecise _ _ _ h
  execute_type-IsPrecise InstrType.sb h = finish_store-IsPrecise _ _ h
  execute_type-IsPrecise InstrType.sh h = finish_store-IsPrecise _ _ h
  execute_type-IsPrecise InstrType.sw h = finish_store-IsPrecise _ _ h
  execute_type-IsPrecise _ h = ground arith

  -- An instruction of the base set that traps, for any reason, changes no register, takes no branch and
  -- leaves `next_pc` at the following word.
  pub execute-IsPrecise :
      (execute bus ex d regs m pc).result.trap ≡ true
      → IsPrecise regs pc (execute bus ex d regs m pc)
  unfolding execute
  execute-IsPrecise h = execute_type-IsPrecise d.type h

-- Left to the hart: MRET, SRET, SFENCE.VMA and WFI.
abbrev pub is_privileged : {M : Type 0} → Outcome M → Bool
is_privileged o = o.result.mret || o.result.sret || o.result.sfence_vma || o.result.wfi

module _ {M : Type 0} (bus : Bus M) (ex : Executor) (d : DecodedInstr) (regs : RegFile) (m : M)
    (pc : ℕ) where
  finish_load-regs :
      (extend : ℕ → ℕ) (r : LoadResult) (m' : M)
      → is_privileged (finish_load bus ex d regs m pc extend (r, m')) ≡ true
      → (finish_load bus ex d regs m pc extend (r, m')).regs ≡ regs
  unfolding finish_load
  finish_load-regs extend (loaded v) m' h = cc
  finish_load-regs extend (load_failed cause tval) m' h = refl

  finish_store-regs :
      (r : StoreResult) (m' : M) → (finish_store bus ex d regs m pc (r, m')).regs ≡ regs
  unfolding finish_store
  finish_store-regs stored m' = refl
  finish_store-regs (store_failed cause tval) m' = refl

  execute_type-regs :
      (t : InstrType)
      → is_privileged (execute_type bus ex d regs m pc t) ≡ true
      → (execute_type bus ex d regs m pc t).regs ≡ regs
  unfolding execute_type
  execute_type-regs InstrType.lb h = finish_load-regs _ _ _ h
  execute_type-regs InstrType.lh h = finish_load-regs _ _ _ h
  execute_type-regs InstrType.lw h = finish_load-regs _ _ _ h
  execute_type-regs InstrType.lbu h = finish_load-regs _ _ _ h
  execute_type-regs InstrType.lhu h = finish_load-regs _ _ _ h
  execute_type-regs InstrType.sb h = finish_store-regs _ _
  execute_type-regs InstrType.sh h = finish_store-regs _ _
  execute_type-regs InstrType.sw h = finish_store-regs _ _
  execute_type-regs _ h = ground arith

  -- An instruction that is left to the hart writes no register.
  pub execute-regs :
      is_privileged (execute bus ex d regs m pc) ≡ true → (execute bus ex d regs m pc).regs ≡ regs
  unfolding execute
  execute-regs h = execute_type-regs d.type h
