-- ===== src/Opgen/Rv32a/Decoding.antt =====
-- riscv_rv32a_opgen.hpp: what the decoder of riscv_rv32a.hpp makes of the generated words.
use rv32_complete_v.Opgen.Source.{Source, IsInRange, Yields, entry}
use rv32_complete_v.Opgen.Generator as Class
use rv32_complete_v.Opgen.Generator.{all_types, selects, legalized}
use rv32_complete_v.Opgen.Random.{reaches, generate_random-types, IsEnabledWord}
use rv32_complete_v.Rv32a as Target
use rv32_complete_v.Opgen.Rv32a.{
  InstrType, code, of_code, count, decoded, generators, generate, generate_random,
}
use rv32_complete_v.Opgen.Rv32a.{
  gen_lr_w, gen_sc_w, gen_amoswap_w, gen_amoadd_w, gen_amoxor_w, gen_amoand_w, gen_amoor_w,
  gen_amomin_w, gen_amomax_w, gen_amominu_w, gen_amomaxu_w,
}
use rv32_complete_v.Prelude.{ℕ, ◌-◌, ◌<◌, ◌≡◌, refl, Bool, true, ◌||◌, arith, ◌==◌, table}
use rv32_complete_v.Rv32a.Encoding
use rv32_complete_v.Opgen.Rv32a.{encode_amo, gen_ordered}

encode_amo-amo_instr :
    (f5 rs2 rs1 rd : ℕ) (aq rl : Bool)
    → encode_amo f5 aq rl rs2 rs1 rd ≡ Target.amo_instr f5 aq rl rs2 rs1 rd
unfolding encode_amo Target.amo_instr
encode_amo-amo_instr f5 rs2 rs1 rd aq rl = refl

decode-encode_amo :
    (f5 rs2 rs1 rd : ℕ) (aq rl : Bool)
    → f5 < 32
    → Encoding.IsRead (encode_amo f5 aq rl rs2 rs1 rd) f5 aq rl rs2 rs1 rd
decode-encode_amo f5 rs2 rs1 rd aq rl h =
    rw (encode_amo-amo_instr f5 rs2 rs1 rd aq rl)
      (Encoding.decode-amo_instr f5 rs2 rs1 rd aq rl h).0

-- A word of the type.
abbrev pub IsDecoded : InstrType → ℕ → Type 0
IsDecoded t w = (Target.decode w).type ≡ decoded t

module _ {G : Type 0} (rng : Source G) where
  -- The word that `generate` makes for a type decodes to this type, whatever the draws.
  pub generate-decode : (t : InstrType) (g : G) → Yields (IsDecoded t) (generate rng t g)
  unfolding generate generators code Class.run_entry entry gen_lr_w gen_sc_w gen_amoswap_w
      gen_amoadd_w gen_amoxor_w gen_amoand_w gen_amoor_w gen_amomin_w gen_amomax_w gen_amominu_w
      gen_amomaxu_w gen_ordered Target.type_of_funct5
  generate-decode InstrType.lr_w g = (decode-encode_amo 0b00010 _ _ _ _ _ (omega arith)).0
  generate-decode InstrType.sc_w g = (decode-encode_amo 0b00011 _ _ _ _ _ (omega arith)).0
  generate-decode InstrType.amoswap_w g = (decode-encode_amo 0b00001 _ _ _ _ _ (omega arith)).0
  generate-decode InstrType.amoadd_w g = (decode-encode_amo 0b00000 _ _ _ _ _ (omega arith)).0
  generate-decode InstrType.amoxor_w g = (decode-encode_amo 0b00100 _ _ _ _ _ (omega arith)).0
  generate-decode InstrType.amoand_w g = (decode-encode_amo 0b01100 _ _ _ _ _ (omega arith)).0
  generate-decode InstrType.amoor_w g = (decode-encode_amo 0b01000 _ _ _ _ _ (omega arith)).0
  generate-decode InstrType.amomin_w g = (decode-encode_amo 0b10000 _ _ _ _ _ (omega arith)).0
  generate-decode InstrType.amomax_w g = (decode-encode_amo 0b10100 _ _ _ _ _ (omega arith)).0
  generate-decode InstrType.amominu_w g = (decode-encode_amo 0b11000 _ _ _ _ _ (omega arith)).0
  generate-decode InstrType.amomaxu_w g = (decode-encode_amo 0b11100 _ _ _ _ _ (omega arith)).0

module _ {G : Type 0} (rng : Source G) where
  -- `generate_random` returns as soon as one of its first `fuel` draws is of an enabled type, and at once under
  -- the default mask; its word then decodes to an enabled type. The draws lie between their bounds.
  pub generate_random-decode_a :
      (contract : IsInRange rng) (fuel enabled : ℕ) (g : G)
      → ((legalized enabled == all_types)
          || reaches rng (selects (legalized enabled)) (count - 1) fuel g)
        ≡ true
      → Yields
          (IsEnabledWord rng (generators rng) count code of_code IsDecoded enabled)
          (generate_random rng fuel enabled g)
  unfolding generate_random generate code
  generate_random-decode_a contract fuel enabled g h =
      generate_random-types rng (generators rng) count code of_code IsDecoded contract fuel enabled
        g (table count (λ i. code (of_code i)) (λ i. i) refl) (λ t g'. generate-decode rng t g')
        (omega arith) (omega arith) h
