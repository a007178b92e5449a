-- ===== src/Rv32f/FClass.antt =====
-- riscv_rv32f.hpp, `FClass`: the result of FCLASS.S.
use rv32_complete_v.Prelude.{ℕ, ◌^◌}

abbrev pub neg_inf : ℕ
neg_inf = 2 ^ 0

abbrev pub neg_normal : ℕ
neg_normal = 2 ^ 1

abbrev pub neg_subnorm : ℕ
neg_subnorm = 2 ^ 2

abbrev pub neg_zero : ℕ
neg_zero = 2 ^ 3

abbrev pub pos_zero : ℕ
pos_zero = 2 ^ 4

abbrev pub pos_subnorm : ℕ
pos_subnorm = 2 ^ 5

abbrev pub pos_normal : ℕ
pos_normal = 2 ^ 6

abbrev pub pos_inf : ℕ
pos_inf = 2 ^ 7

abbrev pub signaling_nan : ℕ
signaling_nan = 2 ^ 8

abbrev pub quiet_nan : ℕ
quiet_nan = 2 ^ 9
