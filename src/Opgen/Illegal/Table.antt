-- ===== src/Opgen/Illegal/Table.antt =====
-- riscv_illegal_opgen.hpp: the table of the classes, and class `ClassGenerator`. The name of a class is left out.
use rv32_complete_v.Opgen.Source.{Source, Loop, returning, entry}
use rv32_complete_v.Opgen.Generator.{draw_until, legalized, selects}
use rv32_complete_v.Opgen.Illegal.{
  gen_all_zeros, gen_all_ones, gen_reserved_major_opcode, gen_bad_load, gen_bad_store,
  gen_bad_branch, gen_bad_jalr, gen_bad_slli_slot, gen_bad_srli_slot, gen_bad_op, gen_bad_misc_mem,
  gen_bad_system_f3_0, gen_bad_system_f3_4, gen_bad_csr_addr,
}
use rv32_complete_v.Opgen.Illegal.Float.{
  gen_bad_fp_funct7, gen_bad_fp_rm, gen_bad_fsqrt, gen_bad_fcvt, gen_bad_fmv_fclass, gen_bad_fcmp,
  gen_bad_fminmax, gen_bad_fsgnj, gen_bad_fmv_wx, gen_bad_load_fp, gen_bad_store_fp,
  gen_bad_madd_fmt, gen_bad_amo_funct3, gen_bad_amo_funct5, gen_bad_lr,
}
use rv32_complete_v.Opgen.Illegal.Short.{
  gen_c_quad0_bad_funct3, gen_c_addi4spn_zero, gen_c_lwsp_rd0, gen_c_jr_rs1_0, gen_c_shift_shamt5,
  gen_c_alu_funct1, gen_c_lui_zero, gen_c_addi16sp_zero, gen_c_quad2_bad_funct3,
}
use rv32_complete_v.Prelude.{ℕ, ◌-◌, Bool, true, false, Option, none, some, List, [], ◌∷◌}

pub record ClassInfo (G : Type 0) : Type 0 where
  pub gen : Loop G ℕ
  pub compressed : Bool

abbrev pub count : ℕ
count = 38

module _ {G : Type 0} (rng : Source G) (fuel : ℕ) where
  unfoldable pub classes : List (ClassInfo G)
  unfolding gen_all_zeros gen_all_ones gen_reserved_major_opcode gen_bad_load gen_bad_store
      gen_bad_branch gen_bad_jalr gen_bad_slli_slot gen_bad_srli_slot gen_bad_op gen_bad_misc_mem
      gen_bad_system_f3_0 gen_bad_system_f3_4 gen_bad_csr_addr gen_bad_fp_funct7 gen_bad_fp_rm
      gen_bad_fsqrt gen_bad_fcvt gen_bad_fmv_fclass gen_bad_fcmp gen_bad_fminmax gen_bad_fsgnj
      gen_bad_fmv_wx gen_bad_load_fp gen_bad_store_fp gen_bad_madd_fmt gen_bad_amo_funct3
      gen_bad_amo_funct5 gen_bad_lr gen_c_quad0_bad_funct3 gen_c_addi4spn_zero gen_c_lwsp_rd0
      gen_c_jr_rs1_0 gen_c_shift_shamt5 gen_c_alu_funct1 gen_c_lui_zero gen_c_addi16sp_zero
      gen_c_quad2_bad_funct3
  classes =
      record { gen = returning (gen_all_zeros rng); compressed = true }
      ∷ record { gen = returning (gen_all_ones rng); compressed = false }
      ∷ record { gen = returning (gen_reserved_major_opcode rng); compressed = false }
      ∷ record { gen = returning (gen_bad_load rng); compressed = false }
      ∷ record { gen = returning (gen_bad_store rng); compressed = false }
      ∷ record { gen = returning (gen_bad_branch rng); compressed = false }
      ∷ record { gen = returning (gen_bad_jalr rng); compressed = false }
      ∷ record { gen = gen_bad_slli_slot rng fuel; compressed = false }
      ∷ record { gen = gen_bad_srli_slot rng fuel; compressed = false }
      ∷ record { gen = gen_bad_op rng fuel; compressed = false }
      ∷ record { gen = returning (gen_bad_misc_mem rng); compressed = false }
      ∷ record { gen = gen_bad_system_f3_0 rng fuel; compressed = false }
      ∷ record { gen = returning (gen_bad_system_f3_4 rng); compressed = false }
      ∷ record { gen = returning (gen_bad_csr_addr rng); compressed = false }
      ∷ record { gen = returning (gen_bad_fp_funct7 rng); compressed = false }
      ∷ record { gen = returning (gen_bad_fp_rm rng); compressed = false }
      ∷ record { gen = gen_bad_fsqrt rng fuel; compressed = false }
      ∷ record { gen = returning (gen_bad_fcvt rng); compressed = false }
      ∷ record { gen = gen_bad_fmv_fclass rng fuel; compressed = false }
      ∷ record { gen = returning (gen_bad_fcmp rng); compressed = false }
      ∷ record { gen = returning (gen_bad_fminmax rng); compressed = false }
      ∷ record { gen = returning (gen_bad_fsgnj rng); compressed = false }
      ∷ record { gen = gen_bad_fmv_wx rng fuel; compressed = false }
      ∷ record { gen = returning (gen_bad_load_fp rng); compressed = false }
      ∷ record { gen = returning (gen_bad_store_fp rng); compressed = false }
      ∷ record { gen = returning (gen_bad_madd_fmt rng); compressed = false }
      ∷ record { gen = returning (gen_bad_amo_funct3 rng); compressed = false }
      ∷ record { gen = gen_bad_amo_funct5 rng fuel; compressed = false }
      ∷ record { gen = gen_bad_lr rng fuel; compressed = false }
      ∷ record { gen = returning (gen_c_quad0_bad_funct3 rng); compressed = true }
      ∷ record { gen = returning (gen_c_addi4spn_zero rng); compressed = true }
      ∷ record { gen = returning (gen_c_lwsp_rd0 rng); compressed = true }
      ∷ record { gen = returning (gen_c_jr_rs1_0 rng); compressed = true }
      ∷ record { gen = returning (gen_c_shift_shamt5 rng); compressed = true }
      ∷ record { gen = returning (gen_c_alu_funct1 rng); compressed = true }
      ∷ record { gen = gen_c_lui_zero rng fuel; compressed = true }
      ∷ record { gen = returning (gen_c_addi16sp_zero rng); compressed = true }
      ∷ record { gen = returning (gen_c_quad2_bad_funct3 rng); compressed = true }
      ∷ []

  -- The place of the class, which stands for the pointer `out`, and the word.
  unfoldable pub with_class : ℕ → Option (ℕ × G) → Option ((ℕ × ℕ) × G)
  with_class idx none = none
  with_class idx (some (word, g)) = some ((idx, word), g)

  -- `out = &table[idx]; return table[idx].gen(rng_);`
  unfoldable pub run_class : Option (ℕ × G) → Option ((ℕ × ℕ) × G)
  unfolding classes entry with_class
  run_class none = none
  run_class (some (idx, g)) = elim (entry classes idx) [
    | none ↦ none
    | some info ↦ with_class idx (info.gen g)
  ]

  unfoldable pub generate_random : ℕ → Loop G (ℕ × ℕ)
  unfolding run_class draw_until legalized selects
  generate_random enabled g =
      run_class (draw_until rng (selects (legalized enabled)) 0 (count - 1) fuel g)
