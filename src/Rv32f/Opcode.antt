-- ===== src/Rv32f/Opcode.antt =====
-- riscv_rv32f.hpp, namespace `opcode`.
use rv32_complete_v.Prelude.{ℕ}

abbrev pub load_fp : ℕ
load_fp = 0b0000111

abbrev pub store_fp : ℕ
store_fp = 0b0100111

abbrev pub madd : ℕ
madd = 0b1000011

abbrev pub msub : ℕ
msub = 0b1000111

abbrev pub nmsub : ℕ
nmsub = 0b1001011

abbrev pub nmadd : ℕ
nmadd = 0b1001111

abbrev pub op_fp : ℕ
op_fp = 0b1010011
