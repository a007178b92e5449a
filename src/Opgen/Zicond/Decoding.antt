-- ===== src/Opgen/Zicond/Decoding.antt =====
-- riscv_zicond_opgen.hpp: what the decoder of riscv_zicond.hpp makes of the generated words.
use rv32_complete_v.Common.Encode.{Fields}
use rv32_complete_v.Opgen.Source.{Source, IsInRange, Yields, entry}
use rv32_complete_v.Opgen.Shapes.{encode_r_type-Fields}
use rv32_complete_v.Opgen.Generator as Class
use rv32_complete_v.Opgen.Generator.{all_types, selects, legalized}
use rv32_complete_v.Opgen.Random.{reaches, generate_random-types, IsEnabledWord}
use rv32_complete_v.Zicond as Target
use rv32_complete_v.Opgen.Zicond.{
  InstrType, code, of_code, count, decoded, generators, generate, generate_random,
}
use rv32_complete_v.Opgen.Zicond.{gen_czero_eqz, gen_czero_nez}
use rv32_complete_v.Prelude.{ℕ, ◌-◌, ◌%◌, ◌≡◌, refl, true, ◌||◌, arith, ◌==◌, table}

r_decoded :
    (w : ℕ) {rd f3 rs1 rs2 : ℕ}
    → Fields w (0b0110011 % 128) rd f3 rs1 rs2 (0b0000111 % 128)
    → (Target.decode w).type ≡ Target.type_of_funct3 f3
unfolding Target.decode
r_decoded w h = ground arith

-- A word of the type.
abbrev pub IsDecoded : InstrType → ℕ → Type 0
IsDecoded t w = (Target.decode w).type ≡ decoded t

module _ {G : Type 0} (rng : Source G) where
  -- The word that `generate` makes for a type decodes to this type, whatever the draws.
  pub generate-decode : (t : InstrType) (g : G) → Yields (IsDecoded t) (generate rng t g)
  unfolding generate generators code Class.run_entry entry gen_czero_eqz gen_czero_nez
      Target.type_of_funct3
  generate-decode InstrType.czero_eqz g =
      r_decoded _ (encode_r_type-Fields 0b0000111 _ _ 0b101 _ 0b0110011)
  generate-decode InstrType.czero_nez g =
      r_decoded _ (encode_r_type-Fields 0b0000111 _ _ 0b111 _ 0b0110011)

module _ {G : Type 0} (rng : Source G) where
  -- `generate_random` returns as soon as one of its first `fuel` draws is of an enabled type, and at once under
  -- the default mask; its word then decodes to an enabled type. The draws lie between their bounds.
  pub generate_random-decode_zicond :
      (contract : IsInRange rng) (fuel enabled : ℕ) (g : G)
      → ((legalized enabled == all_types)
          || reaches rng (selects (legalized enabled)) (count - 1) fuel g)
        ≡ true
      → Yields
          (IsEnabledWord rng (generators rng) count code of_code IsDecoded enabled)
          (generate_random rng fuel enabled g)
  unfolding generate_random generate code
  generate_random-decode_zicond contract fuel enabled g h =
      generate_random-types rng (generators rng) count code of_code IsDecoded contract fuel enabled
        g (table count (λ i. code (of_code i)) (λ i. i) refl) (λ t g'. generate-decode rng t g')
        (omega arith) (omega arith) h
