-- ===== src/Opgen/Rv32f/Categories.antt =====
-- riscv_rv32f_opgen.hpp: the generators of a category of instructions.
use rv32_complete_v.Opgen.Source.{Source, Loop}
use rv32_complete_v.Opgen.Generator as Class
use rv32_complete_v.Opgen.Rv32f.{InstrType, code, count, generators}
use rv32_complete_v.Prelude.{ℕ, List, [], ◌∷◌}

module _ {G : Type 0} (rng : Source G) where
  abbrev pub arithmetic_types : List ℕ
  unfolding code
  arithmetic_types =
      code InstrType.fadd_s
      ∷ code InstrType.fsub_s
      ∷ code InstrType.fmul_s
      ∷ code InstrType.fdiv_s
      ∷ code InstrType.fsqrt_s
      ∷ []

  unfoldable pub generate_arithmetic : ℕ → ℕ → Loop G ℕ
  unfolding generators code Class.generate_picked
  generate_arithmetic fuel enabled =
      Class.generate_picked rng (generators rng) count fuel enabled arithmetic_types 4

  abbrev pub fma_types : List ℕ
  unfolding code
  fma_types =
      code InstrType.fmadd_s
      ∷ code InstrType.fmsub_s
      ∷ code InstrType.fnmadd_s
      ∷ code InstrType.fnmsub_s
      ∷ []

  unfoldable pub generate_fma : ℕ → ℕ → Loop G ℕ
  unfolding generators code Class.generate_picked
  generate_fma fuel enabled =
      Class.generate_picked rng (generators rng) count fuel enabled fma_types 3

  abbrev pub conversion_types : List ℕ
  unfolding code
  conversion_types =
      code InstrType.fcvt_w_s
      ∷ code InstrType.fcvt_wu_s
      ∷ code InstrType.fcvt_s_w
      ∷ code InstrType.fcvt_s_wu
      ∷ []

  unfoldable pub generate_conversion : ℕ → ℕ → Loop G ℕ
  unfolding generators code Class.generate_picked
  generate_conversion fuel enabled =
      Class.generate_picked rng (generators rng) count fuel enabled conversion_types 3

  abbrev pub compare_types : List ℕ
  unfolding code
  compare_types = code InstrType.feq_s ∷ code InstrType.flt_s ∷ code InstrType.fle_s ∷ []

  unfoldable pub generate_compare : ℕ → ℕ → Loop G ℕ
  unfolding generators code Class.generate_picked
  generate_compare fuel enabled =
      Class.generate_picked rng (generators rng) count fuel enabled compare_types 2

  abbrev pub sign_inject_types : List ℕ
  unfolding code
  sign_inject_types =
      code InstrType.fsgnj_s ∷ code InstrType.fsgnjn_s ∷ code InstrType.fsgnjx_s ∷ []

  unfoldable pub generate_sign_inject : ℕ → ℕ → Loop G ℕ
  unfolding generators code Class.generate_picked
  generate_sign_inject fuel enabled =
      Class.generate_picked rng (generators rng) count fuel enabled sign_inject_types 2

  abbrev pub no_memory_types : List ℕ
  unfolding code
  no_memory_types =
      code InstrType.fadd_s
      ∷ code InstrType.fsub_s
      ∷ code InstrType.fmul_s
      ∷ code InstrType.fdiv_s
      ∷ code InstrType.fsqrt_s
      ∷ code InstrType.fmin_s
      ∷ code InstrType.fmax_s
      ∷ code InstrType.fmadd_s
      ∷ code InstrType.fmsub_s
      ∷ code InstrType.fnmadd_s
      ∷ code InstrType.fnmsub_s
      ∷ code InstrType.fcvt_w_s
      ∷ code InstrType.fcvt_wu_s
      ∷ code InstrType.fcvt_s_w
      ∷ code InstrType.fcvt_s_wu
      ∷ code InstrType.fmv_x_w
      ∷ code InstrType.fmv_w_x
      ∷ code InstrType.feq_s
      ∷ code InstrType.flt_s
      ∷ code InstrType.fle_s
      ∷ code InstrType.fsgnj_s
      ∷ code InstrType.fsgnjn_s
      ∷ code InstrType.fsgnjx_s
      ∷ code InstrType.fclass_s
      ∷ []

  unfoldable pub generate_no_memory : ℕ → ℕ → Loop G ℕ
  unfolding generators code Class.generate_picked
  generate_no_memory fuel enabled =
      Class.generate_picked rng (generators rng) count fuel enabled no_memory_types 23
