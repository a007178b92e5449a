-- ===== src/Rv32f/Host.antt =====
-- What riscv_rv32f.hpp uses of the host: the C++ operators on `float` and the functions of <cmath> and
-- <cfenv>. A `float` is its 32-bit pattern. It is a parameter of the executor.
use rv32_complete_v.Prelude.{ℕ, Bool}

-- The rounding directions of <cfenv>.
pub data HostRounding : Type 0 where
  to_nearest toward_zero downward upward : HostRounding

-- The exceptions that `fetestexcept` reports after an operation that `feclearexcept` preceded.
pub record Raised : Type 0 where
  pub inexact : Bool
  pub underflow : Bool
  pub overflow : Bool
  pub div_by_zero : Bool
  pub invalid : Bool

-- An operation that rounds gives a value and the exceptions that it raises.
pub record Host : Type 0 where
  pub add : HostRounding → ℕ → ℕ → ℕ × Raised
  pub sub : HostRounding → ℕ → ℕ → ℕ × Raised
  pub mul : HostRounding → ℕ → ℕ → ℕ × Raised
  pub div : HostRounding → ℕ → ℕ → ℕ × Raised
  pub sqrt : HostRounding → ℕ → ℕ × Raised
  pub fma : HostRounding → ℕ → ℕ → ℕ → ℕ × Raised
  pub of_int32 : HostRounding → ℕ → ℕ × Raised
  pub of_uint32 : HostRounding → ℕ → ℕ × Raised
  pub to_int32 : ℕ → ℕ
  pub to_uint32 : ℕ → ℕ
  pub neg : ℕ → ℕ
  pub is_nan : ℕ → Bool
  pub eq : ℕ → ℕ → Bool
  pub lt : ℕ → ℕ → Bool
  pub le : ℕ → ℕ → Bool
  pub trunc : ℕ → ℕ
  pub floor : ℕ → ℕ
  pub ceil : ℕ → ℕ
  pub round : ℕ → ℕ
  pub nearbyint : HostRounding → ℕ → ℕ
