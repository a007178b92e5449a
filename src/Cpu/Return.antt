-- ===== src/Cpu/Return.antt =====
-- riscv_cpu.hpp: MRET and SRET.
use rv32_complete_v.Common.Exception.{PrivilegeLevel, user, supervisor, machine}
use rv32_complete_v.Zicsr.Addr
use rv32_complete_v.Zicsr.Masks.{
  mstatus_sie, mstatus_mie, mstatus_spie, mstatus_mpie, mstatus_spp, mstatus_mpp, mstatus_mprv,
}
use rv32_complete_v.Zicsr.File.{get, set}
use rv32_complete_v.Cpu.State.{Cpu, CpuExecResult}
use rv32_complete_v.Prelude.{
  shl32, bit_or, not32, ◌==◌, ◌!=◌, shr32, Bool, bit_and, true, if◌then◌else◌, ℕ,
}

abbrev pub mpp_field : ℕ → ℕ
mpp_field mstatus = bit_and (shr32 mstatus 11) 3

unfoldable pub mret_mstatus : ℕ → Bool → ℕ
mret_mstatus mstatus has_u_mode =
    let mpie = bit_and mstatus mstatus_mpie != 0 in
    let m0 = bit_and mstatus (not32 mstatus_mie) in
    let m1 = if mpie then bit_or m0 mstatus_mie else m0 in
    let m2 = bit_and (bit_or m1 mstatus_mpie) (not32 mstatus_mpp) in
    let m3 = bit_or m2 (shl32 (if has_u_mode then 0 else 3) 11) in
    if mpp_field mstatus != 3 then bit_and m3 (not32 mstatus_mprv) else m3

abbrev pub mret_privilege : ℕ → PrivilegeLevel
mret_privilege mpp = if mpp == 0 then user else if mpp == 1 then supervisor else machine

unfoldable pub do_mret : Cpu → CpuExecResult → Cpu × CpuExecResult
unfolding mret_mstatus get set
do_mret cpu result =
    let mstatus = get cpu.csrs Addr.mstatus in
    let f = set cpu.csrs Addr.mstatus (mret_mstatus mstatus cpu.csrs.u_mode_enabled) in
    let g = record f { current_privilege = mret_privilege (mpp_field mstatus) } in
    (record cpu { csrs = g }, record result { next_pc = get g Addr.mepc; branch_taken = true })

unfoldable pub sret_mstatus : ℕ → ℕ
sret_mstatus mstatus =
    let spie = bit_and mstatus mstatus_spie != 0 in
    let m0 = bit_and mstatus (not32 mstatus_sie) in
    let m1 = if spie then bit_or m0 mstatus_sie else m0 in
    let m2 = bit_and (bit_or m1 mstatus_spie) (not32 mstatus_spp) in bit_and m2 (not32 mstatus_mprv)

unfoldable pub do_sret : Cpu → CpuExecResult → Cpu × CpuExecResult
unfolding sret_mstatus get set
do_sret cpu result =
    let mstatus = get cpu.csrs Addr.mstatus in
    let spp = bit_and mstatus mstatus_spp != 0 in
    let f = set cpu.csrs Addr.mstatus (sret_mstatus mstatus) in
    let g = record f { current_privilege = if spp then supervisor else user } in
    (record cpu { csrs = g }, record result { next_pc = get g Addr.sepc; branch_taken = true })
