-- ===== src/Rv32f/Execute.antt =====
-- riscv_rv32f.hpp, `Executor`. The texts of `error` are left out.
use rv32_complete_v.Prelude.{
  ℕ, ◌-◌, ◌^◌, bit_and, bit_or, bit_xor, Bool, true, false, not, ◌&&◌, ◌||◌, ltb, ◌==◌, ◌!=◌,
  if◌then◌else◌, add32, not32,
}
use rv32_complete_v.Common.Exception.{illegal_instruction}
use rv32_complete_v.Common.RegFile
use rv32_complete_v.Common.RegFile.{RegFile}
use rv32_complete_v.Common.Bus.{
  Bus, LoadResult, loaded, load_failed, StoreResult, stored, store_failed, load, store,
}
use rv32_complete_v.Rv32f.FRegFile
use rv32_complete_v.Rv32f.FRegFile.{FRegFile}
use rv32_complete_v.Rv32f.Fcsr.{FFlags, no_flags, merge, Fcsr, effective_rm, rtz, rdn, rup, rmm}
use rv32_complete_v.Rv32f.Classify.{classify_float, is_snan, canonical_nan}
use rv32_complete_v.Rv32f.Types.{InstrType, DecodedInstr, ExecResult}
use rv32_complete_v.Rv32f.Decode.{uses_rm}
use rv32_complete_v.Rv32f.Host.{
  Host, HostRounding, to_nearest, toward_zero, downward, upward, Raised,
}

-- What one instruction leaves: its result, both register files, the bus and fcsr.
pub record Outcome (M : Type 0) : Type 0 where
  pub result : ExecResult
  pub regs : RegFile
  pub fregs : FRegFile
  pub bus : M
  pub fcsr : Fcsr

unfoldable pub initial_result : ExecResult
unfolding no_flags
initial_result = record {
  valid = true;
  flags = no_flags;
  int_result = 0;
  float_result = 0;
  wrote_int_reg = false;
  wrote_float_reg = false;
  memory_read = false;
  memory_written = false;
  trap_cause = 0;
  trap_value = 0;
}

unfoldable pub set_trap : ExecResult → ℕ → ℕ → ExecResult
set_trap result cause value = record result {
  valid = false;
  trap_cause = cause;
  trap_value = value;
}

-- `HostRoundingGuard`: the host's direction while an instruction with the mode `rm` runs.
unfoldable pub host_rounding : ℕ → HostRounding
host_rounding rm =
    if rm == rtz
    then toward_zero
    else if rm == rdn
    then downward
    else if rm == rup
    then upward
    else to_nearest

unfoldable pub update_flags : FFlags → Raised → FFlags
update_flags flags raised = record {
  nx = if raised.inexact then true else flags.nx;
  uf = if raised.underflow then true else flags.uf;
  of = if raised.overflow then true else flags.of;
  dz = if raised.div_by_zero then true else flags.dz;
  nv = if raised.invalid then true else flags.nv;
}

abbrev set_nv : Bool → FFlags → FFlags
set_nv b flags = if b then record flags { nv = true } else flags

abbrev set_nx : Bool → FFlags → FFlags
set_nx b flags = if b then record flags { nx = true } else flags

-- The patterns of the `float` constants 2^31, -2^31, 2^32 and 0.
abbrev two_31 : ℕ
two_31 = 0x4f00_0000

abbrev minus_two_31 : ℕ
minus_two_31 = 0xcf00_0000

abbrev two_32 : ℕ
two_32 = 0x4f80_0000

abbrev pub is_illegal : InstrType → Bool
is_illegal InstrType.illegal = true
is_illegal _ = false

module _ (host : Host) where
  unfoldable pub round_to_int : ℕ → ℕ → ℕ
  round_to_int f rm =
      if rm == rtz
      then host.trunc f
      else if rm == rdn
      then host.floor f
      else if rm == rup
      then host.ceil f
      else if rm == rmm
      then host.round f
      else host.nearbyint to_nearest f

  unfoldable pub write_canonical : FRegFile → ℕ → ℕ → FRegFile
  write_canonical fregs rd r =
      if host.is_nan r
      then FRegFile.write_bits fregs rd canonical_nan
      else FRegFile.write_bits fregs rd r

  -- The value and the flags of FCVT.W.S.
  unfoldable pub convert_w : ℕ → ℕ → ℕ × FFlags
  unfolding round_to_int no_flags
  convert_w rm a =
      let rounded = round_to_int a rm in
      if host.is_nan a
      then (2 ^ 31 - 1, set_nv true no_flags)
      else if host.le two_31 rounded
      then (2 ^ 31 - 1, set_nv true no_flags)
      else if host.lt rounded minus_two_31
      then (2 ^ 31, set_nv true no_flags)
      else (host.to_int32 rounded, set_nx (not (host.eq rounded a)) no_flags)

  unfoldable pub convert_wu : ℕ → ℕ → ℕ × FFlags
  unfolding round_to_int no_flags
  convert_wu rm a =
      let rounded = round_to_int a rm in
      if host.is_nan a
      then (2 ^ 32 - 1, set_nv true no_flags)
      else if host.le two_32 rounded
      then (2 ^ 32 - 1, set_nv true no_flags)
      else if host.lt rounded 0
      then (0, set_nv true no_flags)
      else (host.to_uint32 rounded, set_nx (not (host.eq rounded a)) no_flags)

  unfoldable pub minimum : ℕ → ℕ → ℕ
  minimum a b =
      if host.is_nan a && host.is_nan b
      then canonical_nan
      else if host.is_nan a
      then b
      else if host.is_nan b
      then a
      else if host.eq a 0 && host.eq b 0
      then (if bit_and a 0x8000_0000 != 0 then a else b)
      else if host.lt a b
      then a
      else b

  unfoldable pub maximum : ℕ → ℕ → ℕ
  maximum a b =
      if host.is_nan a && host.is_nan b
      then canonical_nan
      else if host.is_nan a
      then b
      else if host.is_nan b
      then a
      else if host.eq a 0 && host.eq b 0
      then (if bit_and a 0x8000_0000 != 0 then b else a)
      else if host.lt b a
      then a
      else b

-- The executor's `allow_misaligned` is the third parameter.
module _ {M : Type 0} (host : Host) (bus : Bus M) (allow_misaligned : Bool) (d : DecodedInstr)
    (regs : RegFile) (fregs : FRegFile) (m : M) (fcsr : Fcsr) where
  -- The end of `execute`, after the `switch`: the flags go to fcsr.
  unfoldable pub finish : ExecResult → RegFile → FRegFile → M → Outcome M
  unfolding merge
  finish result regs' fregs' m' = record {
    result = result;
    regs = regs';
    fregs = fregs';
    bus = m';
    fcsr = record fcsr { fflags = merge fcsr.fflags result.flags };
  }

  unfoldable pub float_reg : ℕ → ℕ
  unfolding FRegFile.read_bits
  float_reg idx = FRegFile.read_bits fregs idx

  -- A result of the host's arithmetic, with the exceptions it raised.
  unfoldable pub arithmetic : ℕ × Raised → Outcome M
  unfolding finish initial_result update_flags write_canonical no_flags
  arithmetic (r, raised) =
      finish
        (record initial_result {
          float_result = r;
          wrote_float_reg = true;
          flags = update_flags no_flags raised;
        })
        regs (write_canonical host fregs d.rd r) m

  -- FMIN.S and FMAX.S: NV is set if an operand is a signaling NaN.
  unfoldable pub selection : ℕ → Outcome M
  unfolding finish initial_result write_canonical is_snan float_reg no_flags
  selection r =
      finish
        (record initial_result {
          flags = set_nv (is_snan (float_reg d.rs1) || is_snan (float_reg d.rs2)) no_flags;
          float_result = r;
          wrote_float_reg = true;
        })
        regs (write_canonical host fregs d.rd r) m

  -- A value for an integer register, and the flags.
  unfoldable pub to_integer : ℕ × FFlags → Outcome M
  unfolding finish initial_result
  to_integer (val, flags) =
      finish (record initial_result { flags = flags; int_result = val; wrote_int_reg = true })
        (RegFile.write regs d.rd val) fregs m

  -- Raw bits for a floating-point register.
  unfoldable pub raw_bits : ℕ → Outcome M
  unfolding finish initial_result
  raw_bits val =
      finish (record initial_result { wrote_float_reg = true }) regs
        (FRegFile.write_bits fregs d.rd val) m

  unfoldable pub finish_load : LoadResult × M → Outcome M
  unfolding finish initial_result set_trap
  finish_load (loaded val, m') =
      finish (record initial_result { wrote_float_reg = true; memory_read = true }) regs
        (FRegFile.write_bits fregs d.rd val) m'
  finish_load (load_failed cause tval, m') =
      finish (set_trap initial_result cause tval) regs fregs m'

  unfoldable pub finish_store : StoreResult × M → Outcome M
  unfolding finish initial_result set_trap
  finish_store (stored, m') = finish (record initial_result { memory_written = true }) regs fregs m'
  finish_store (store_failed cause tval, m') =
      finish (set_trap initial_result cause tval) regs fregs m'

  abbrev compared : Bool → ℕ
  compared b = if b then 1 else 0

  -- The `switch (instr.type)`, for the rounding mode `rm`.
  unfoldable pub execute_type : ℕ → InstrType → Outcome M
  unfolding float_reg host_rounding arithmetic selection to_integer raw_bits finish_load
      finish_store no_flags minimum maximum convert_w convert_wu is_snan classify_float finish
      set_trap initial_result
  execute_type rm t =
      let mode = host_rounding rm in
      let a = float_reg d.rs1 in
      let b = float_reg d.rs2 in
      let c = float_reg d.rs3 in
      let x = RegFile.read regs d.rs1 in
      let addr : ℕ = add32 x d.imm in
      elim t [
        | InstrType.flw ↦ finish_load (load bus m addr 4 allow_misaligned)
        | InstrType.fsw ↦ finish_store (store bus m addr 4 b allow_misaligned)
        | InstrType.fadd_s ↦ arithmetic (host.add mode a b)
        | InstrType.fsub_s ↦ arithmetic (host.sub mode a b)
        | InstrType.fmul_s ↦ arithmetic (host.mul mode a b)
        | InstrType.fdiv_s ↦ arithmetic (host.div mode a b)
        | InstrType.fsqrt_s ↦ arithmetic (host.sqrt mode a)
        | InstrType.fmin_s ↦ selection (minimum host a b)
        | InstrType.fmax_s ↦ selection (maximum host a b)
        | InstrType.fmadd_s ↦ arithmetic (host.fma mode a b c)
        | InstrType.fmsub_s ↦ arithmetic (host.fma mode a b (host.neg c))
        | InstrType.fnmadd_s ↦
            let (r, raised) = host.fma mode a b c in arithmetic (host.neg r, raised)
        | InstrType.fnmsub_s ↦
            let (r, raised) = host.fma mode a b (host.neg c) in arithmetic (host.neg r, raised)
        | InstrType.fcvt_w_s ↦ to_integer (convert_w host rm a)
        | InstrType.fcvt_wu_s ↦ to_integer (convert_wu host rm a)
        | InstrType.fcvt_s_w ↦ arithmetic (host.of_int32 mode x)
        | InstrType.fcvt_s_wu ↦ arithmetic (host.of_uint32 mode x)
        | InstrType.fmv_x_w ↦ to_integer (a, no_flags)
        | InstrType.fmv_w_x ↦ raw_bits x
        | InstrType.feq_s ↦
            to_integer (compared (host.eq a b), set_nv (is_snan a || is_snan b) no_flags)
        | InstrType.flt_s ↦
            to_integer (compared (host.lt a b), set_nv (host.is_nan a || host.is_nan b) no_flags)
        | InstrType.fle_s ↦
            to_integer (compared (host.le a b), set_nv (host.is_nan a || host.is_nan b) no_flags)
        | InstrType.fsgnj_s ↦ raw_bits (bit_or (bit_and a 0x7fff_ffff) (bit_and b 0x8000_0000))
        | InstrType.fsgnjn_s ↦
            raw_bits (bit_or (bit_and a 0x7fff_ffff) (bit_and (not32 b) 0x8000_0000))
        | InstrType.fsgnjx_s ↦
            raw_bits (bit_or (bit_and a 0x7fff_ffff) (bit_and (bit_xor a b) 0x8000_0000))
        | InstrType.fclass_s ↦ to_integer (classify_float a, no_flags)
        | InstrType.illegal ↦
            finish (set_trap initial_result illegal_instruction d.raw) regs fregs m
      ]

  -- An early `return` of `execute`: an illegal instruction.
  unfoldable pub rejected : Outcome M
  unfolding set_trap initial_result
  rejected = record {
    result = set_trap initial_result illegal_instruction d.raw;
    regs = regs;
    fregs = fregs;
    bus = m;
    fcsr = fcsr;
  }

  unfoldable pub execute : Outcome M
  unfolding rejected effective_rm uses_rm execute_type
  execute =
      let rm = effective_rm fcsr d.rm in
      if is_illegal d.type
      then rejected
      else if uses_rm d.type && ltb rmm rm
      then rejected
      else execute_type rm d.type
