-- ===== src/Opgen/Zbs/Decoding.antt =====
-- riscv_zbs_opgen.hpp: what the decoder of riscv_zbs.hpp makes of the generated words.
use rv32_complete_v.Common.Encode.{Fields}
use rv32_complete_v.Opgen.Source.{Source, IsInRange, Yields, entry}
use rv32_complete_v.Opgen.Shapes.{encode_r_type-Fields}
use rv32_complete_v.Opgen.Generator as Class
use rv32_complete_v.Opgen.Generator.{all_types, selects, legalized}
use rv32_complete_v.Opgen.Random.{reaches, generate_random-types, IsEnabledWord}
use rv32_complete_v.Zbs as Target
use rv32_complete_v.Opgen.Zbs.{
  InstrType, code, of_code, count, decoded, generators, generate, generate_random,
}
use rv32_complete_v.Opgen.Zbs.{
  gen_bset, gen_bseti, gen_bclr, gen_bclri, gen_binv, gen_binvi, gen_bext, gen_bexti,
}
use rv32_complete_v.Prelude.{ℕ, ◌-◌, ◌%◌, ◌≡◌, refl, true, ◌||◌, arith, ◌==◌, table}

op_decoded :
    (w : ℕ) {rd f3 rs1 rs2 f7 : ℕ}
    → Fields w (0b0110011 % 128) rd f3 rs1 rs2 f7
    → (Target.decode w).type ≡ Target.type_of_op f3 f7
unfolding Target.decode
op_decoded w h = ground arith

op_imm_decoded :
    (w : ℕ) {rd f3 rs1 rs2 f7 : ℕ}
    → Fields w (0b0010011 % 128) rd f3 rs1 rs2 f7
    → (Target.decode w).type ≡ Target.type_of_op_imm f3 f7
unfolding Target.decode
op_imm_decoded w h = ground arith

-- A word of the type.
abbrev pub IsDecoded : InstrType → ℕ → Type 0
IsDecoded t w = (Target.decode w).type ≡ decoded t

module _ {G : Type 0} (rng : Source G) where
  -- The word that `generate` makes for a type decodes to this type, whatever the draws.
  pub generate-decode : (t : InstrType) (g : G) → Yields (IsDecoded t) (generate rng t g)
  unfolding generate generators code Class.run_entry entry gen_bset gen_bseti gen_bclr gen_bclri
      gen_binv gen_binvi gen_bext gen_bexti Target.type_of_op Target.type_of_op_imm
  generate-decode InstrType.bset g =
      op_decoded _ (encode_r_type-Fields 0b0010100 _ _ 0b001 _ 0b0110011)
  generate-decode InstrType.bseti g =
      op_imm_decoded _ (encode_r_type-Fields 0b0010100 _ _ 0b001 _ 0b0010011)
  generate-decode InstrType.bclr g =
      op_decoded _ (encode_r_type-Fields 0b0100100 _ _ 0b001 _ 0b0110011)
  generate-decode InstrType.bclri g =
      op_imm_decoded _ (encode_r_type-Fields 0b0100100 _ _ 0b001 _ 0b0010011)
  generate-decode InstrType.binv g =
      op_decoded _ (encode_r_type-Fields 0b0110100 _ _ 0b001 _ 0b0110011)
  generate-decode InstrType.binvi g =
      op_imm_decoded _ (encode_r_type-Fields 0b0110100 _ _ 0b001 _ 0b0010011)
  generate-decode InstrType.bext g =
      op_decoded _ (encode_r_type-Fields 0b0100100 _ _ 0b101 _ 0b0110011)
  generate-decode InstrType.bexti g =
      op_imm_decoded _ (encode_r_type-Fields 0b0100100 _ _ 0b101 _ 0b0010011)

module _ {G : Type 0} (rng : Source G) where
  -- `generate_random` returns as soon as one of its first `fuel` draws is of an enabled type, and at once under
  -- the default mask; its word then decodes to an enabled type. The draws lie between their bounds.
  pub generate_random-decode_zbs :
      (contract : IsInRange rng) (fuel enabled : ℕ) (g : G)
      → ((legalized enabled == all_types)
          || reaches rng (selects (legalized enabled)) (count - 1) fuel g)
        ≡ true
      → Yields
          (IsEnabledWord rng (generators rng) count code of_code IsDecoded enabled)
          (generate_random rng fuel enabled g)
  unfolding generate_random generate code
  generate_random-decode_zbs contract fuel enabled g h =
      generate_random-types rng (generators rng) count code of_code IsDecoded contract fuel enabled
        g (table count (λ i. code (of_code i)) (λ i. i) refl) (λ t g'. generate-decode rng t g')
        (omega arith) (omega arith) h
