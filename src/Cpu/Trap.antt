-- ===== src/Cpu/Trap.antt =====
-- riscv_cpu.hpp: delegation, trap entry and synchronous exceptions.
use rv32_complete_v.Common.Exception.{PrivilegeLevel, supervisor, machine, level}
use rv32_complete_v.Rv32a.{clear}
use rv32_complete_v.Zicsr.Addr
use rv32_complete_v.Zicsr.Masks.{
  mstatus_sie, mstatus_mie, mstatus_spie, mstatus_mpie, mstatus_spp, mstatus_mpp,
}
use rv32_complete_v.Zicsr.File.{get, set}
use rv32_complete_v.Zicsr.Access.{write}
use rv32_complete_v.Cpu.State.{Cpu, CpuExecResult}
use rv32_complete_v.Prelude.{
  shr32, leb, shl32, bit_or, ◌&&◌, not32, not, ltb, if◌then◌else◌, ◌!=◌, false, bit_and, true, Bool,
  ℕ,
}

abbrev pub is_machine : PrivilegeLevel → Bool
is_machine machine = true
is_machine _ = false

abbrev pub is_supervisor : PrivilegeLevel → Bool
is_supervisor supervisor = true
is_supervisor _ = false

unfoldable pub delegate_target : Cpu → ℕ → Bool → PrivilegeLevel
unfolding get
delegate_target cpu cause is_interrupt =
    let code = bit_and cause 0x7fff_ffff in
    let deleg = get cpu.csrs (if is_interrupt then Addr.mideleg else Addr.medeleg) in
    if not cpu.config.enable_s_mode
    then machine
    else if not is_interrupt && is_machine cpu.csrs.current_privilege
    then machine
    else if leb 32 code
    then machine
    else if bit_and (shr32 deleg code) 1 != 0
    then supervisor
    else machine

-- By the current and the target privilege; the last two arguments are mstatus.MIE and mstatus.SIE.
abbrev same_level_enabled : PrivilegeLevel → Bool → Bool → Bool
same_level_enabled machine mie sie = mie
same_level_enabled supervisor mie sie = sie
same_level_enabled _ mie sie = false

unfoldable pub interrupt_globally_enabled : Cpu → PrivilegeLevel → Bool
unfolding get
interrupt_globally_enabled cpu target =
    let cur = cpu.csrs.current_privilege in
    let mstatus = get cpu.csrs Addr.mstatus in
    if ltb (level target) (level cur)
    then false
    else if ltb (level cur) (level target)
    then true
    else same_level_enabled target (bit_and mstatus mstatus_mie != 0)
        (bit_and mstatus mstatus_sie != 0)

-- The new mstatus of `enter_m_trap`, from the old one and the privilege of the trapped code.
unfoldable pub m_trap_mstatus : ℕ → PrivilegeLevel → ℕ
m_trap_mstatus mstatus priv =
    let old_mie = bit_and mstatus mstatus_mie != 0 in
    let cleared = bit_and mstatus (not32 (bit_or (bit_or mstatus_mie mstatus_mpie) mstatus_mpp)) in
    let kept = if old_mie then bit_or cleared mstatus_mpie else cleared in
    let mpp = level priv in bit_or kept (shl32 (if ltb 3 mpp then 3 else mpp) 11)

unfoldable pub enter_m_trap : Cpu → ℕ → ℕ → ℕ → Cpu
unfolding m_trap_mstatus get set clear write
enter_m_trap cpu cause tval trap_pc =
    let f0 = cpu.csrs in
    let f1 = set f0 Addr.mstatus (m_trap_mstatus (get f0 Addr.mstatus) f0.current_privilege) in
    let f2 = record f1 { current_privilege = machine } in
    let f3 = write f2 Addr.mepc trap_pc in
    record cpu {
      reservation = clear cpu.reservation;
      csrs = set (set f3 Addr.mcause cause) Addr.mtval tval;
    }

unfoldable pub s_trap_mstatus : ℕ → PrivilegeLevel → ℕ
s_trap_mstatus mstatus priv =
    let old_sie = bit_and mstatus mstatus_sie != 0 in
    let cleared = bit_and mstatus (not32 (bit_or (bit_or mstatus_sie mstatus_spie) mstatus_spp)) in
    let kept = if old_sie then bit_or cleared mstatus_spie else cleared in
    bit_or kept (shl32 (if is_supervisor priv then 1 else 0) 8)

unfoldable pub enter_s_trap : Cpu → ℕ → ℕ → ℕ → Cpu
unfolding s_trap_mstatus get set clear write
enter_s_trap cpu cause tval trap_pc =
    let f0 = cpu.csrs in
    let f1 = set f0 Addr.mstatus (s_trap_mstatus (get f0 Addr.mstatus) f0.current_privilege) in
    let f2 = record f1 { current_privilege = supervisor } in
    let f3 = write f2 Addr.sepc trap_pc in
    record cpu {
      reservation = clear cpu.reservation;
      csrs = set (set f3 Addr.scause cause) Addr.stval tval;
    }

-- The hart and the result record after `take_exception`.
unfoldable pub take_exception : Cpu → CpuExecResult → ℕ → ℕ → Cpu × CpuExecResult
unfolding delegate_target enter_m_trap enter_s_trap get
take_exception cpu result cause tval =
    let trapped = record result { trap = true; trap_cause = cause; trap_value = tval } in
    let to_s = enter_s_trap cpu cause tval cpu.pc in
    let to_m = enter_m_trap cpu cause tval cpu.pc in
    if is_supervisor (delegate_target cpu cause false)
    then (to_s, record trapped { next_pc = bit_and (get to_s.csrs Addr.stvec) (not32 0x3) })
    else (to_m, record trapped { next_pc = bit_and (get to_m.csrs Addr.mtvec) (not32 0x3) })
