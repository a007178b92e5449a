-- ===== src/Cpu/Modes.antt =====
-- riscv_cpu.hpp: MRET stays within the levels that the hart has.
use rv32_complete_v.Common.Exception.{level}
use rv32_complete_v.Zicsr.Addr
use rv32_complete_v.Zicsr.File.{CsrFile, get, set}
use rv32_complete_v.Zicsr.Warl.{IsMode, IsModal, mpp, IsMode-same}
use rv32_complete_v.Cpu.State.{Cpu, CpuExecResult}
use rv32_complete_v.Cpu.Return.{do_mret, mret_mstatus, mret_privilege, mpp_field}
use rv32_complete_v.Cpu.ReturnStatus.{mret_mstatus-bit}
use rv32_complete_v.Cpu.TrapReturn.{get-do_mret, privilege-do_mret}
use rv32_complete_v.Prelude.{
  inl, inr, true, false, Bool, if◌then◌else◌, ℕ, ◌/◌, ◌^◌, ◌<◌, ◌≡◌, refl, ◌⊎◌, arith, bit_and_mask,
}

level-mret_privilege : (n : ℕ) → (n ≡ 3) ⊎ ((n ≡ 1) ⊎ (n ≡ 0)) → level (mret_privilege n) ≡ n
level-mret_privilege n h = ground arith

mpp-mpp_field : (s : ℕ) → mpp_field s ≡ mpp s
mpp-mpp_field s = bit_and_mask 2 (s / 2 ^ 11)

mpp-mret_mstatus : (s : ℕ) (u : Bool) → s < 2 ^ 32 → mpp (mret_mstatus s u) ≡ (if u then 0 else 3)
mpp-mret_mstatus s true h =
    omega (
      arith,
      mret_mstatus-bit s 11 true h (omega arith),
      mret_mstatus-bit s 12 true h (omega arith),
    )
mpp-mret_mstatus s false h = omega (
  arith,
  mret_mstatus-bit s 11 false h (omega arith),
  mret_mstatus-bit s 12 false h (omega arith),
)

modes-do_mret :
    (cpu : Cpu) (r : CpuExecResult)
    → ((do_mret cpu r).0.csrs.s_mode_enabled ≡ cpu.csrs.s_mode_enabled)
      × ((do_mret cpu r).0.csrs.u_mode_enabled ≡ cpu.csrs.u_mode_enabled)
unfolding do_mret set
modes-do_mret cpu r = (refl, refl)

level-back : (f : CsrFile) (n : ℕ) → IsMode f n → IsMode f (level (mret_privilege n))
level-back f n m = rw (level-mret_privilege n (numbered m)) m
  where
    numbered : IsMode f n → (n ≡ 3) ⊎ ((n ≡ 1) ⊎ (n ≡ 0))
    numbered h = ground arith

least-IsMode : (f : CsrFile) (u : Bool) → f.u_mode_enabled ≡ u → IsMode f (if u then 0 else 3)
least-IsMode f true e = inr (inr (refl, e))
least-IsMode f false e = inl refl

-- MRET on a hart whose mstatus is a word and whose MPP names a level that the hart has goes to such a
-- level, and leaves such a level in MPP.
pub do_mret-IsModal :
    (cpu : Cpu) (r : CpuExecResult)
    → get cpu.csrs Addr.mstatus < 2 ^ 32
    → IsModal cpu.csrs
    → IsMode cpu.csrs (level (do_mret cpu r).0.csrs.current_privilege)
      × IsModal (do_mret cpu r).0.csrs
do_mret-IsModal cpu r h m =
    let f = cpu.csrs in
    let g = (do_mret cpu r).0.csrs in
    let s : ℕ = get f Addr.mstatus in
    let (s_same, u_same) = modes-do_mret cpu r in
    (
      rw (privilege-do_mret cpu r, mpp-mpp_field s) (level-back f (mpp s) m),
      IsMode-same f g (mpp (get g Addr.mstatus)) s_same u_same (
          rw (get-do_mret cpu r Addr.mstatus, mpp-mret_mstatus s f.u_mode_enabled h)
            (least-IsMode f f.u_mode_enabled refl)),
    )
