-- ===== src/Common/Exception.antt =====
-- riscv_common.hpp, namespace `exception`, and `PrivilegeLevel`.
use rv32_complete_v.Prelude.{ℕ, true, false, ◌==◌}

pub data PrivilegeLevel : Type 0 where
  user supervisor reserved machine : PrivilegeLevel

-- The underlying `uint8_t` of the enumeration.
abbrev pub level : PrivilegeLevel → ℕ
level user = 0
level supervisor = 1
level reserved = 2
level machine = 3

-- `static_cast<PrivilegeLevel>` of a two-bit field.
abbrev pub of_level : ℕ → PrivilegeLevel
of_level n = elim (n == 0) [
  | true ↦ user
  | false ↦ elim (n == 1) [
    | true ↦ supervisor
    | false ↦ elim (n == 2) [ true ↦ reserved | false ↦ machine ]
  ]
]

abbrev pub instr_addr_misaligned : ℕ
instr_addr_misaligned = 0

abbrev pub instr_access_fault : ℕ
instr_access_fault = 1

abbrev pub illegal_instruction : ℕ
illegal_instruction = 2

abbrev pub breakpoint : ℕ
breakpoint = 3

abbrev pub load_addr_misaligned : ℕ
load_addr_misaligned = 4

abbrev pub load_access_fault : ℕ
load_access_fault = 5

abbrev pub store_addr_misaligned : ℕ
store_addr_misaligned = 6

abbrev pub store_access_fault : ℕ
store_access_fault = 7

abbrev pub ecall_from_u : ℕ
ecall_from_u = 8

abbrev pub ecall_from_s : ℕ
ecall_from_s = 9

abbrev pub ecall_from_m : ℕ
ecall_from_m = 11

abbrev pub interrupt_bit : ℕ
interrupt_bit = 0x8000_0000
