-- ===== src/Cpu/TrapReturn.antt =====
-- riscv_cpu.hpp: a trap followed by the return from it, on the whole hart.
use rv32_complete_v.Common.Exception.{PrivilegeLevel, user, supervisor, machine, reserved, level}
use rv32_complete_v.Zicsr.Addr
use rv32_complete_v.Zicsr.File.{get, set}
use rv32_complete_v.Zicsr.Access.{write}
use rv32_complete_v.Cpu.State.{Cpu, CpuExecResult}
use rv32_complete_v.Cpu.Trap.{enter_m_trap, m_trap_mstatus}
use rv32_complete_v.Cpu.Return.{mret_privilege, mpp_field, do_mret, mret_mstatus}
use rv32_complete_v.Rv32a.{clear}
use rv32_complete_v.Cpu.Status.{m_trap_mstatus-bit, m_trap_mstatus-lt}
use rv32_complete_v.Cpu.ReturnStatus.{mret_mstatus-bit}
use rv32_complete_v.Prelude.{
  inl, inr, ap, Bool-cases, bit-lt, ==_iff, Bool, ◌∙◌, refl, ◌||◌, false, ◌/◌, bit_and_mask, ◌*◌,
  ◌+◌, ◌^◌, bit, ◌≢◌, ◌<◌, ℕ, bit_and, ◌≡◌, arith, ◌==◌, if◌then◌else◌,
}

module _ (cpu : Cpu) (cause tval trap_pc : ℕ) where
  -- The registers that a trap to M-mode writes.
  abbrev m_trap_csr : ℕ → ℕ
  m_trap_csr a =
      if a == Addr.mtval
      then tval
      else if a == Addr.mcause
      then cause
      else if a == Addr.mepc
      then bit_and trap_pc cpu.csrs.mepc_mask
      else if a == Addr.mstatus
      then m_trap_mstatus (get cpu.csrs Addr.mstatus) cpu.csrs.current_privilege
      else get cpu.csrs a

  pub get-enter_m_trap : (a : ℕ) → get (enter_m_trap cpu cause tval trap_pc).csrs a ≡ m_trap_csr a
  unfolding enter_m_trap write get set
  get-enter_m_trap a = ground arith

  u_mode-enter_m_trap :
      (enter_m_trap cpu cause tval trap_pc).csrs.u_mode_enabled ≡ cpu.csrs.u_mode_enabled
  unfolding enter_m_trap write get set
  u_mode-enter_m_trap = ground arith

pub get-do_mret :
    (cpu : Cpu) (r : CpuExecResult) (a : ℕ)
    → get (do_mret cpu r).0.csrs a ≡ (
        if a == Addr.mstatus
        then mret_mstatus (get cpu.csrs Addr.mstatus) cpu.csrs.u_mode_enabled
        else get cpu.csrs a)
unfolding do_mret get set
get-do_mret cpu r a = ground arith

pub privilege-do_mret :
    (cpu : Cpu) (r : CpuExecResult)
    → (do_mret cpu r).0.csrs.current_privilege
      ≡ mret_privilege (mpp_field (get cpu.csrs Addr.mstatus))
unfolding do_mret get set
privilege-do_mret cpu r = refl

next_pc-do_mret :
    (cpu : Cpu) (r : CpuExecResult) → (do_mret cpu r).1.next_pc ≡ get cpu.csrs Addr.mepc
unfolding do_mret get set
next_pc-do_mret cpu r = refl

mpp-bits : (s : ℕ) → mpp_field s ≡ bit s 11 + 2 * bit s 12
mpp-bits s = omega (arith, bit_and_mask 2 (s / 2 ^ 11))

mpp-m_trap_mstatus : (s : ℕ) (p : PrivilegeLevel) → mpp_field (m_trap_mstatus s p) ≡ level p
mpp-m_trap_mstatus s p = omega (
  arith,
  mpp-bits (m_trap_mstatus s p),
  m_trap_mstatus-bit s 11 p (omega arith),
  m_trap_mstatus-bit s 12 p (omega arith),
)

mret_privilege-level : (p : PrivilegeLevel) → p ≢ reserved → mret_privilege (level p) ≡ p
mret_privilege-level user h = refl
mret_privilege-level supervisor h = refl
mret_privilege-level reserved h = absurd (h refl)
mret_privilege-level machine h = refl

-- The digits of mstatus after a trap and MRET.
abbrev pub back_digit : ℕ → PrivilegeLevel → Bool → ℕ → ℕ
back_digit s p u i =
    if i == 7
    then 1
    else if i == 11 || i == 12
    then (if u then 0 else 1)
    else if i == 17
    then (if level p == 3 then bit s i else 0)
    else bit s i

mret-m_trap-bit :
    (s : ℕ) (p : PrivilegeLevel) (u : Bool) (i : ℕ)
    → i < 32
    → bit (mret_mstatus (m_trap_mstatus s p) u) i ≡ back_digit s p u i
mret-m_trap-bit s p u i h =
    mret_mstatus-bit (m_trap_mstatus s p) i u (m_trap_mstatus-lt s p) h
    ∙ rw
        (mpp-m_trap_mstatus s p, m_trap_mstatus-bit s i p h, m_trap_mstatus-bit s 7 p (omega arith))
        (elim (Bool-cases (i == 3)) [
          | inl e ↦ ground (arith, ap (bit s) ((==_iff i 3).0 e), bit-lt s 3)
          | inr e ↦ ground arith
        ])

module _ (cpu : Cpu) (cause tval trap_pc : ℕ) (r : CpuExecResult) where
  abbrev back : Cpu × CpuExecResult
  back = do_mret (enter_m_trap cpu cause tval trap_pc) r

  -- Control comes back: after a trap to M-mode from any level but the reserved one and an MRET, the
  -- privilege is the one before the trap, the next pc is the trapped one under the mask of mepc, the
  -- registers are untouched, and no reservation is left.
  pub mret-enter_m_trap :
      cpu.csrs.current_privilege ≢ reserved
      → (back.0.csrs.current_privilege ≡ cpu.csrs.current_privilege)
        × (back.1.next_pc ≡ bit_and trap_pc cpu.csrs.mepc_mask)
        × (back.0.regs ≡ cpu.regs)
        × (back.0.fregs ≡ cpu.fregs)
        × (back.0.reservation.valid ≡ false)
  unfolding do_mret enter_m_trap clear
  mret-enter_m_trap h = (
    rw
        (
          privilege-do_mret (enter_m_trap cpu cause tval trap_pc) r,
          get-enter_m_trap cpu cause tval trap_pc Addr.mstatus,
          mpp-m_trap_mstatus (get cpu.csrs Addr.mstatus) cpu.csrs.current_privilege,
        )
        (mret_privilege-level cpu.csrs.current_privilege h),
    next_pc-do_mret (enter_m_trap cpu cause tval trap_pc) r
        ∙ get-enter_m_trap cpu cause tval trap_pc Addr.mepc,
    refl,
    refl,
    refl,
  )

  -- The digits of mstatus after a trap to M-mode and an MRET: MIE and all others are as before,
  -- except that MPIE is on, MPP holds U-mode (M-mode on a hart without U-mode), and MPRV is cleared
  -- unless the trap came from M-mode.
  pub mret-enter_m_trap-mstatus :
      (i : ℕ)
      → i < 32
      → bit (get back.0.csrs Addr.mstatus) i
        ≡ back_digit
            (get cpu.csrs Addr.mstatus)
            cpu.csrs.current_privilege
            cpu.csrs.u_mode_enabled
            i
  mret-enter_m_trap-mstatus i p =
      rw
        (
          get-do_mret (enter_m_trap cpu cause tval trap_pc) r Addr.mstatus,
          get-enter_m_trap cpu cause tval trap_pc Addr.mstatus,
          u_mode-enter_m_trap cpu cause tval trap_pc,
        )
        (mret-m_trap-bit (get cpu.csrs Addr.mstatus) cpu.csrs.current_privilege
          cpu.csrs.u_mode_enabled i p)

  -- A trap to M-mode and an MRET leave every other register than mstatus, mepc, mcause and mtval as it
  -- was.
  mret-enter_m_trap-get :
      (a : ℕ)
      → a ≢ Addr.mstatus
      → a ≢ Addr.mepc
      → a ≢ Addr.mcause
      → a ≢ Addr.mtval
      → get back.0.csrs a ≡ get cpu.csrs a
  mret-enter_m_trap-get a h1 h2 h3 h4 = ground (
    arith,
    get-do_mret (enter_m_trap cpu cause tval trap_pc) r a,
    get-enter_m_trap cpu cause tval trap_pc a,
  )
