-- ===== src/Examples/Machine.antt =====
-- Tests of riscv_cpu.hpp.
use rv32_complete_v.Common.Exception.{PrivilegeLevel, user, machine, reserved}
use rv32_complete_v.Zicsr.Addr
use rv32_complete_v.Zicsr.File.{CsrFile, get}
use rv32_complete_v.Cpu.State.{Cpu, CpuConfig, CpuExecResult}
use rv32_complete_v.Cpu.Trap.{enter_m_trap, enter_s_trap, take_exception}
use rv32_complete_v.Cpu.Interrupt.{select, take_pending_interrupt}
use rv32_complete_v.Cpu.Return.{do_mret, do_sret}
use rv32_complete_v.Cpu.Counters.{finish_step}
use rv32_complete_v.Cpu.TrapReturn.{back_digit, mret-enter_m_trap, mret-enter_m_trap-mstatus}
use rv32_complete_v.Cpu.STrapReturn.{s_back_digit, sret-enter_s_trap, sret-enter_s_trap-mstatus}
use rv32_complete_v.Cpu.Delegation.{IsTarget, take_exception-IsTarget}
use rv32_complete_v.Cpu.Delivery.{IsSampled, take_pending_interrupt-IsSampled}
use rv32_complete_v.Cpu.Selection.{IsSelected, select-IsSelected}
use rv32_complete_v.Cpu.Counting.{cycles, instructions, finish_step-count}
use rv32_complete_v.Cpu.Modes.{do_mret-IsModal}
use rv32_complete_v.Zicsr.Warl.{IsMode, IsModal}
use rv32_complete_v.Common.Exception.{level}
use rv32_complete_v.Prelude.{inr}
use rv32_complete_v.Prelude.{
  ℕ, ◌+◌, ◌%◌, ◌^◌, ◌<◌, bit_and, ◌≡◌, refl, ◌≢◌, inl, true, false, none, some, [], arith, ◌==◌,
  if◌then◌else◌, bit,
}

abbrev pub config : CpuConfig
config = record {
  enable_m_extension = true;
  enable_a_extension = true;
  enable_f_extension = true;
  enable_c_extension = true;
  enable_zicsr = true;
  enable_zifencei = true;
  enable_zba = true;
  enable_zbb = true;
  enable_zbs = true;
  enable_zicond = true;
  enable_s_mode = true;
  enable_u_mode = true;
  allow_misaligned_data = false;
  reset_vector = 0;
  mtvec_reset = 0;
}

-- The timer and the external interrupt are pending and enabled; load faults are delegated.
abbrev pub register : ℕ → ℕ → ℕ
register mstatus a =
    if a == Addr.mstatus
    then mstatus
    else if a == Addr.mip
    then 0x880
    else if a == Addr.mie
    then 0x880
    else if a == Addr.medeleg
    then 0x20
    else if a == Addr.mcycle
    then 0xffff_ffff
    else if a == Addr.mtvec
    then 0x101
    else 0

abbrev pub file : PrivilegeLevel → ℕ → CsrFile
file p mstatus = record {
  csrs = λ a. some (register mstatus a);
  current_privilege = p;
  read_callback = none;
  write_callback = false;
  observed = [];
  f_extension = false;
  s_mode_enabled = true;
  u_mode_enabled = true;
  mepc_mask = 0xffff_fffe;
}

abbrev pub hart : PrivilegeLevel → ℕ → Cpu
hart p mstatus = record {
  regs = record { x = λ i. 0 };
  fregs = record { regs = λ i. 0 };
  csrs = file p mstatus;
  pc = 0x400;
  reservation = record { valid = true; reserved_addr = 8 };
  config = config;
}

abbrev result : CpuExecResult
result = record {
  pc = 0x400;
  next_pc = 0x404;
  instruction = 0x13;
  instr_size = 4;
  branch_taken = false;
  trap = false;
  interrupt = false;
  trap_cause = 0;
  trap_value = 0;
}

abbrev from_user : Cpu
from_user = hart user 0x8

abbrev returned : Cpu × CpuExecResult
returned = do_mret (enter_m_trap from_user 2 0x13 0x400) result

not_reserved : from_user.csrs.current_privilege ≢ reserved
not_reserved e = absurd (ground arith)

mret-enter_m_trap_example :
    (returned.0.csrs.current_privilege ≡ user)
    × (returned.1.next_pc ≡ bit_and 0x400 0xffff_fffe)
    × (returned.0.regs ≡ from_user.regs)
    × (returned.0.fregs ≡ from_user.fregs)
    × (returned.0.reservation.valid ≡ false)
mret-enter_m_trap_example = mret-enter_m_trap from_user 2 0x13 0x400 result not_reserved

mret-enter_m_trap-mstatus_example :
    bit (get returned.0.csrs Addr.mstatus) 3
    ≡ back_digit (get from_user.csrs Addr.mstatus) user true 3
mret-enter_m_trap-mstatus_example =
    mret-enter_m_trap-mstatus from_user 2 0x13 0x400 result 3 (omega arith)

abbrev s_returned : Cpu × CpuExecResult
s_returned = do_sret (enter_s_trap from_user 5 0x44 0x400) result

sret-enter_s_trap_example :
    (s_returned.0.csrs.current_privilege ≡ user)
    × (s_returned.1.next_pc ≡ bit_and 0x400 0xffff_fffe)
    × (s_returned.0.regs ≡ from_user.regs)
    × (s_returned.0.fregs ≡ from_user.fregs)
    × (s_returned.0.reservation.valid ≡ false)
sret-enter_s_trap_example = sret-enter_s_trap from_user 5 0x44 0x400 result (inl refl)

sret-enter_s_trap-mstatus_example :
    bit (get s_returned.0.csrs Addr.mstatus) 3 ≡ s_back_digit (get from_user.csrs Addr.mstatus) 3
sret-enter_s_trap-mstatus_example =
    sret-enter_s_trap-mstatus from_user 5 0x44 0x400 result 3 (omega arith)

take_exception-IsTarget_example : IsTarget from_user (take_exception from_user result 5 0x44) 5
take_exception-IsTarget_example = take_exception-IsTarget from_user result 5 0x44 not_reserved

take_pending_interrupt-IsSampled_example :
    IsSampled from_user result (take_pending_interrupt from_user result)
take_pending_interrupt-IsSampled_example = take_pending_interrupt-IsSampled from_user result

select-IsSelected_example : IsSelected from_user 0x880 (select from_user 0x880)
select-IsSelected_example = select-IsSelected from_user 0x880

register-lt : (a : ℕ) → register 0x8 a < 2 ^ 32
register-lt a = ground arith

finish_step-count_example :
    (cycles (finish_step from_user result).csrs ≡ (cycles from_user.csrs + 1) % 2 ^ 64)
    × (instructions (finish_step from_user result).csrs
        ≡ (instructions from_user.csrs + 1) % 2 ^ 64)
    × ((finish_step from_user result).pc ≡ 0x404)
unfolding get
finish_step-count_example = finish_step-count from_user result register-lt

do_mret-IsModal_example :
    IsMode (file machine 0x88) (level (do_mret (hart machine 0x88) result).0.csrs.current_privilege)
    × IsModal (do_mret (hart machine 0x88) result).0.csrs
unfolding get
do_mret-IsModal_example =
    do_mret-IsModal (hart machine 0x88) result (omega arith) (inr (inr (refl, refl)))
