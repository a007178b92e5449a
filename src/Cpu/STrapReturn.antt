-- ===== src/Cpu/STrapReturn.antt =====
-- riscv_cpu.hpp: a trap to S-mode followed by SRET, on the whole hart.
use rv32_complete_v.Common.Exception.{PrivilegeLevel, user, supervisor, machine, reserved}
use rv32_complete_v.Rv32a.{clear}
use rv32_complete_v.Zicsr.Addr
use rv32_complete_v.Zicsr.File.{get, set}
use rv32_complete_v.Zicsr.Access.{write}
use rv32_complete_v.Cpu.State.{Cpu, CpuExecResult}
use rv32_complete_v.Cpu.Trap.{is_supervisor, enter_s_trap, s_trap_mstatus}
use rv32_complete_v.Cpu.Return.{do_sret, sret_mstatus}
use rv32_complete_v.Cpu.Status.{s_trap_mstatus-bit}
use rv32_complete_v.Cpu.ReturnStatus.{sret_mstatus-bit}
use rv32_complete_v.Prelude.{
  ℕ, ◌<◌, bit_and, ◌≡◌, refl, ap, ◌∙◌, ◌⊎◌, inl, inr, false, ◌||◌, arith, ◌==◌, if◌then◌else◌,
  ==_iff, Bool-cases, bit, bit-lt, bit_and_pow,
}

module _ (cpu : Cpu) (cause tval trap_pc : ℕ) where
  -- The registers that a trap to S-mode writes.
  abbrev s_trap_csr : ℕ → ℕ
  s_trap_csr a =
      if a == Addr.stval
      then tval
      else if a == Addr.scause
      then cause
      else if a == Addr.sepc
      then bit_and trap_pc cpu.csrs.mepc_mask
      else if a == Addr.mstatus
      then s_trap_mstatus (get cpu.csrs Addr.mstatus) cpu.csrs.current_privilege
      else get cpu.csrs a

  pub get-enter_s_trap : (a : ℕ) → get (enter_s_trap cpu cause tval trap_pc).csrs a ≡ s_trap_csr a
  unfolding enter_s_trap write get set
  get-enter_s_trap a = ground arith

get-do_sret :
    (cpu : Cpu) (r : CpuExecResult) (a : ℕ)
    → get (do_sret cpu r).0.csrs a
      ≡ (if a == Addr.mstatus then sret_mstatus (get cpu.csrs Addr.mstatus) else get cpu.csrs a)
unfolding do_sret get set
get-do_sret cpu r a = ground arith

privilege-do_sret :
    (cpu : Cpu) (r : CpuExecResult)
    → (do_sret cpu r).0.csrs.current_privilege
      ≡ (if bit (get cpu.csrs Addr.mstatus) 8 == 1 then supervisor else user)
unfolding do_sret get set
privilege-do_sret cpu r =
    ground (arith, bit_and_pow 8 (get cpu.csrs Addr.mstatus), bit-lt (get cpu.csrs Addr.mstatus) 8)

next_pc-do_sret :
    (cpu : Cpu) (r : CpuExecResult) → (do_sret cpu r).1.next_pc ≡ get cpu.csrs Addr.sepc
unfolding do_sret get set
next_pc-do_sret cpu r = refl

returned :
    (p : PrivilegeLevel)
    → (p ≡ user) ⊎ (p ≡ supervisor)
    → (if (if is_supervisor p then 1 else 0) == 1 then supervisor else user) ≡ p
returned user h = refl
returned supervisor h = refl
returned machine h = absurd (ground arith)
returned reserved h = absurd (ground arith)

-- The digits of mstatus after a trap to S-mode and SRET.
abbrev pub s_back_digit : ℕ → ℕ → ℕ
s_back_digit s i = if i == 5 then 1 else if i == 8 || i == 17 then 0 else bit s i

sret-s_trap-bit :
    (s : ℕ) (p : PrivilegeLevel) (i : ℕ)
    → i < 32
    → bit (sret_mstatus (s_trap_mstatus s p)) i ≡ s_back_digit s i
sret-s_trap-bit s p i h =
    sret_mstatus-bit (s_trap_mstatus s p) i h
    ∙ rw (s_trap_mstatus-bit s i p h, s_trap_mstatus-bit s 5 p (omega arith))
        (elim (Bool-cases (i == 1)) [
          | inl e ↦ ground (arith, ap (bit s) ((==_iff i 1).0 e), bit-lt s 1)
          | inr e ↦ ground arith
        ])

module _ (cpu : Cpu) (cause tval trap_pc : ℕ) (r : CpuExecResult) where
  abbrev back : Cpu × CpuExecResult
  back = do_sret (enter_s_trap cpu cause tval trap_pc) r

  -- Control comes back: after a trap to S-mode from U-mode or S-mode and an SRET, the privilege is the
  -- one before the trap, the next pc is the trapped one under the mask of sepc, the registers are
  -- untouched, and no reservation is left.
  pub sret-enter_s_trap :
      (cpu.csrs.current_privilege ≡ user) ⊎ (cpu.csrs.current_privilege ≡ supervisor)
      → (back.0.csrs.current_privilege ≡ cpu.csrs.current_privilege)
        × (back.1.next_pc ≡ bit_and trap_pc cpu.csrs.mepc_mask)
        × (back.0.regs ≡ cpu.regs)
        × (back.0.fregs ≡ cpu.fregs)
        × (back.0.reservation.valid ≡ false)
  unfolding do_sret enter_s_trap clear
  sret-enter_s_trap h = (
    rw
        (
          privilege-do_sret (enter_s_trap cpu cause tval trap_pc) r,
          get-enter_s_trap cpu cause tval trap_pc Addr.mstatus,
          s_trap_mstatus-bit (get cpu.csrs Addr.mstatus) 8 cpu.csrs.current_privilege (omega arith),
        )
        (returned cpu.csrs.current_privilege h),
    next_pc-do_sret (enter_s_trap cpu cause tval trap_pc) r
        ∙ get-enter_s_trap cpu cause tval trap_pc Addr.sepc,
    refl,
    refl,
    refl,
  )

  -- The digits of mstatus after a trap to S-mode and an SRET: SIE and all others are as before, except
  -- that SPIE is on and that SPP and MPRV are off.
  pub sret-enter_s_trap-mstatus :
      (i : ℕ)
      → i < 32
      → bit (get back.0.csrs Addr.mstatus) i ≡ s_back_digit (get cpu.csrs Addr.mstatus) i
  sret-enter_s_trap-mstatus i p =
      rw
        (
          get-do_sret (enter_s_trap cpu cause tval trap_pc) r Addr.mstatus,
          get-enter_s_trap cpu cause tval trap_pc Addr.mstatus,
        )
        (sret-s_trap-bit (get cpu.csrs Addr.mstatus) cpu.csrs.current_privilege i p)
