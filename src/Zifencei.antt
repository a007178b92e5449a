-- ===== src/Zifencei.antt =====
-- riscv_zifencei.hpp: decoder and executor of FENCE.I.
use rv32_complete_v.Common.Fields.{bits}
use rv32_complete_v.Prelude.{◌&&◌, true, shl32, ◌==◌, false, bit_or, Bool, if◌then◌else◌, ℕ}

pub data InstrType : Type 0 where
  fence_i illegal : InstrType

pub record DecodedInstr : Type 0 where
  pub type : InstrType
  pub raw : ℕ
  pub rd : ℕ
  pub rs1 : ℕ
  pub imm : ℕ

-- `notified` says that the callback `on_fence_i` was called.
pub record ExecResult : Type 0 where
  pub valid : Bool
  pub fence_executed : Bool
  pub notified : Bool

unfoldable pub is_zifencei_instruction : ℕ → Bool
unfolding bits
is_zifencei_instruction instr = bits instr 6 0 == 0b0001111 && bits instr 14 12 == 0b001

unfoldable pub decode : ℕ → DecodedInstr
unfolding bits
decode instr = record {
  type =
      if bits instr 6 0 == 0b0001111 && bits instr 14 12 == 0b001
      then InstrType.fence_i
      else InstrType.illegal;
  raw = instr;
  rd = bits instr 11 7;
  rs1 = bits instr 19 15;
  imm = bits instr 31 20;
}

-- The first argument says whether a callback is set.
abbrev pub execute_type : Bool → InstrType → ExecResult
execute_type on_fence_i InstrType.illegal = record {
  valid = false;
  fence_executed = false;
  notified = false;
}
execute_type on_fence_i InstrType.fence_i = record {
  valid = true;
  fence_executed = true;
  notified = on_fence_i;
}

unfoldable pub execute : Bool → DecodedInstr → ExecResult
execute on_fence_i d = execute_type on_fence_i d.type

unfoldable pub encode_fence_i : ℕ
encode_fence_i = bit_or (shl32 0b001 12) 0b0001111
