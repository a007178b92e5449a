-- ===== src/Opgen/Rv32f.antt =====
-- riscv_rv32f_opgen.hpp: the class `OpcodeGenerator`. `fuel` bounds the rounds of a rejection loop.
use rv32_complete_v.Opgen.Source.{
  Source, Gen, Loop, ◌>>=◌, pure, reg, shamt, imm12, imm20_upper, branch_offset, jal_offset, choice,
  entry, or_zero,
}
use rv32_complete_v.Opgen.Encode.{
  encode_r_type, encode_i_type, encode_s_type, encode_b_type, encode_u_type, encode_j_type,
}
use rv32_complete_v.Opgen.Generator as Class
use rv32_complete_v.Opgen.Rv32fGens.{
  gen_flw, gen_fsw, gen_fadd_s, gen_fsub_s, gen_fmul_s, gen_fdiv_s, gen_fsqrt_s, gen_fmin_s,
  gen_fmax_s, gen_fmadd_s, gen_fmsub_s, gen_fnmadd_s, gen_fnmsub_s, gen_fcvt_w_s, gen_fcvt_wu_s,
  gen_fcvt_s_w, gen_fcvt_s_wu, gen_fmv_x_w, gen_fmv_w_x, gen_feq_s, gen_flt_s, gen_fle_s,
  gen_fsgnj_s, gen_fsgnjn_s, gen_fsgnjx_s, gen_fclass_s,
}
use rv32_complete_v.Rv32f.Types as Target
use rv32_complete_v.Prelude.{
  ℕ, List, [], ◌∷◌, bit_or, bit_and, shl32, shr32, if◌then◌else◌, ◌==◌, ◌!=◌, ◌||◌, Bool, true,
  false, ltb, ◌+◌, ◌-◌,
}
pub mod Decoding
pub mod Categories

pub data InstrType : Type 0 where
  flw fsw fadd_s fsub_s fmul_s fdiv_s fsqrt_s fmin_s : InstrType
  fmax_s fmadd_s fmsub_s fnmadd_s fnmsub_s fcvt_w_s fcvt_wu_s fcvt_s_w : InstrType
  fcvt_s_wu fmv_x_w fmv_w_x feq_s flt_s fle_s fsgnj_s fsgnjn_s : InstrType
  fsgnjx_s fclass_s : InstrType

-- The value of an enumerator, and how many there are.
unfoldable pub code : InstrType → ℕ
code InstrType.flw = 0
code InstrType.fsw = 1
code InstrType.fadd_s = 2
code InstrType.fsub_s = 3
code InstrType.fmul_s = 4
code InstrType.fdiv_s = 5
code InstrType.fsqrt_s = 6
code InstrType.fmin_s = 7
code InstrType.fmax_s = 8
code InstrType.fmadd_s = 9
code InstrType.fmsub_s = 10
code InstrType.fnmadd_s = 11
code InstrType.fnmsub_s = 12
code InstrType.fcvt_w_s = 13
code InstrType.fcvt_wu_s = 14
code InstrType.fcvt_s_w = 15
code InstrType.fcvt_s_wu = 16
code InstrType.fmv_x_w = 17
code InstrType.fmv_w_x = 18
code InstrType.feq_s = 19
code InstrType.flt_s = 20
code InstrType.fle_s = 21
code InstrType.fsgnj_s = 22
code InstrType.fsgnjn_s = 23
code InstrType.fsgnjx_s = 24
code InstrType.fclass_s = 25

abbrev pub count : ℕ
count = 26

-- The type with a given value.
abbrev pub of_code : ℕ → InstrType
of_code n =
    if n == 0
    then InstrType.flw
    else if n == 1
    then InstrType.fsw
    else if n == 2
    then InstrType.fadd_s
    else if n == 3
    then InstrType.fsub_s
    else if n == 4
    then InstrType.fmul_s
    else if n == 5
    then InstrType.fdiv_s
    else if n == 6
    then InstrType.fsqrt_s
    else if n == 7
    then InstrType.fmin_s
    else if n == 8
    then InstrType.fmax_s
    else if n == 9
    then InstrType.fmadd_s
    else if n == 10
    then InstrType.fmsub_s
    else if n == 11
    then InstrType.fnmadd_s
    else if n == 12
    then InstrType.fnmsub_s
    else if n == 13
    then InstrType.fcvt_w_s
    else if n == 14
    then InstrType.fcvt_wu_s
    else if n == 15
    then InstrType.fcvt_s_w
    else if n == 16
    then InstrType.fcvt_s_wu
    else if n == 17
    then InstrType.fmv_x_w
    else if n == 18
    then InstrType.fmv_w_x
    else if n == 19
    then InstrType.feq_s
    else if n == 20
    then InstrType.flt_s
    else if n == 21
    then InstrType.fle_s
    else if n == 22
    then InstrType.fsgnj_s
    else if n == 23
    then InstrType.fsgnjn_s
    else if n == 24
    then InstrType.fsgnjx_s
    else InstrType.fclass_s

-- The same type of riscv_rv32f.hpp.
abbrev pub decoded : InstrType → Target.InstrType
decoded InstrType.flw = Target.InstrType.flw
decoded InstrType.fsw = Target.InstrType.fsw
decoded InstrType.fadd_s = Target.InstrType.fadd_s
decoded InstrType.fsub_s = Target.InstrType.fsub_s
decoded InstrType.fmul_s = Target.InstrType.fmul_s
decoded InstrType.fdiv_s = Target.InstrType.fdiv_s
decoded InstrType.fsqrt_s = Target.InstrType.fsqrt_s
decoded InstrType.fmin_s = Target.InstrType.fmin_s
decoded InstrType.fmax_s = Target.InstrType.fmax_s
decoded InstrType.fmadd_s = Target.InstrType.fmadd_s
decoded InstrType.fmsub_s = Target.InstrType.fmsub_s
decoded InstrType.fnmadd_s = Target.InstrType.fnmadd_s
decoded InstrType.fnmsub_s = Target.InstrType.fnmsub_s
decoded InstrType.fcvt_w_s = Target.InstrType.fcvt_w_s
decoded InstrType.fcvt_wu_s = Target.InstrType.fcvt_wu_s
decoded InstrType.fcvt_s_w = Target.InstrType.fcvt_s_w
decoded InstrType.fcvt_s_wu = Target.InstrType.fcvt_s_wu
decoded InstrType.fmv_x_w = Target.InstrType.fmv_x_w
decoded InstrType.fmv_w_x = Target.InstrType.fmv_w_x
decoded InstrType.feq_s = Target.InstrType.feq_s
decoded InstrType.flt_s = Target.InstrType.flt_s
decoded InstrType.fle_s = Target.InstrType.fle_s
decoded InstrType.fsgnj_s = Target.InstrType.fsgnj_s
decoded InstrType.fsgnjn_s = Target.InstrType.fsgnjn_s
decoded InstrType.fsgnjx_s = Target.InstrType.fsgnjx_s
decoded InstrType.fclass_s = Target.InstrType.fclass_s

module _ {G : Type 0} (rng : Source G) where
  unfoldable pub generators : List (Gen G ℕ)
  unfolding gen_flw gen_fsw gen_fadd_s gen_fsub_s gen_fmul_s gen_fdiv_s gen_fsqrt_s gen_fmin_s
      gen_fmax_s gen_fmadd_s gen_fmsub_s gen_fnmadd_s gen_fnmsub_s gen_fcvt_w_s gen_fcvt_wu_s
      gen_fcvt_s_w gen_fcvt_s_wu gen_fmv_x_w gen_fmv_w_x gen_feq_s gen_flt_s gen_fle_s gen_fsgnj_s
      gen_fsgnjn_s gen_fsgnjx_s gen_fclass_s
  generators =
      gen_flw rng
      ∷ gen_fsw rng
      ∷ gen_fadd_s rng
      ∷ gen_fsub_s rng
      ∷ gen_fmul_s rng
      ∷ gen_fdiv_s rng
      ∷ gen_fsqrt_s rng
      ∷ gen_fmin_s rng
      ∷ gen_fmax_s rng
      ∷ gen_fmadd_s rng
      ∷ gen_fmsub_s rng
      ∷ gen_fnmadd_s rng
      ∷ gen_fnmsub_s rng
      ∷ gen_fcvt_w_s rng
      ∷ gen_fcvt_wu_s rng
      ∷ gen_fcvt_s_w rng
      ∷ gen_fcvt_s_wu rng
      ∷ gen_fmv_x_w rng
      ∷ gen_fmv_w_x rng
      ∷ gen_feq_s rng
      ∷ gen_flt_s rng
      ∷ gen_fle_s rng
      ∷ gen_fsgnj_s rng
      ∷ gen_fsgnjn_s rng
      ∷ gen_fsgnjx_s rng
      ∷ gen_fclass_s rng
      ∷ []

  unfoldable pub generate : InstrType → Loop G ℕ
  unfolding generators code Class.run_entry
  generate t = Class.run_entry rng generators (code t)

  unfoldable pub generate_random : ℕ → ℕ → Loop G ℕ
  unfolding generators Class.generate_random
  generate_random = Class.generate_random rng generators count

  unfoldable pub generate_sequence : ℕ → ℕ → ℕ → Loop G (List ℕ)
  unfolding generators Class.generate_sequence
  generate_sequence = Class.generate_sequence rng generators count
