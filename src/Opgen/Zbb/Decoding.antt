-- ===== src/Opgen/Zbb/Decoding.antt =====
-- riscv_zbb_opgen.hpp: what the decoder of riscv_zbb.hpp makes of the generated words.
use rv32_complete_v.Common.Encode.{Fields}
use rv32_complete_v.Opgen.Source.{Source, IsInRange, Yields, entry, shamt, shamt_lt}
use rv32_complete_v.Opgen.Shapes.{encode_r_type-Fields, encode_i_type-Fields}
use rv32_complete_v.Opgen.Generator as Class
use rv32_complete_v.Opgen.Generator.{all_types, selects, legalized}
use rv32_complete_v.Opgen.Random.{reaches, generate_random-types, IsEnabledWord}
use rv32_complete_v.Zbb as Target
use rv32_complete_v.Opgen.Zbb.{
  InstrType, code, of_code, count, decoded, generators, generate, generate_random,
}
use rv32_complete_v.Opgen.Zbb.{
  gen_andn, gen_orn, gen_xnor, gen_clz, gen_ctz, gen_cpop, gen_min, gen_minu, gen_max, gen_maxu,
  gen_sext_b, gen_sext_h, gen_zext_h, gen_rol, gen_ror, gen_rori, gen_orc_b, gen_rev8,
}
use rv32_complete_v.Prelude.{
  ℕ, ◌+◌, ◌-◌, ◌*◌, ◌/◌, ◌%◌, ◌<◌, bit_or, ◌≡◌, refl, true, ◌||◌, arith, ◌==◌, shl32, table,
}

r_decoded :
    (w : ℕ) {rd f3 rs1 rs2 f7 : ℕ}
    → Fields w (0b0110011 % 128) rd f3 rs1 rs2 f7
    → (Target.decode w).type ≡ Target.decode_r_type rs2 f3 f7
unfolding Target.decode
r_decoded w h = ground arith

i_decoded :
    (w : ℕ) {rd f3 rs1 rs2 f7 : ℕ}
    → Fields w (0b0010011 % 128) rd f3 rs1 rs2 f7
    → (Target.decode w).type ≡ Target.decode_i_type rs2 f3 f7 (f7 * 32 + rs2)
unfolding Target.decode
i_decoded w h = ground arith

rori_imm : (x : ℕ) → x < 32 → bit_or (shl32 0b0110000 5) x ≡ 1536 + x
rori_imm = table 32 (λ x. bit_or (shl32 0b0110000 5) x) (λ x. 1536 + x) refl

rori-Fields :
    (w amount : ℕ) {rd rs1 : ℕ}
    → amount < 32
    → Fields w
        (0b0010011 % 128)
        rd
        (0b101 % 8)
        rs1
        (bit_or (shl32 0b0110000 5) amount % 32)
        (bit_or (shl32 0b0110000 5) amount % 4096 / 32)
    → (Target.decode w).type ≡ Target.InstrType.rori
unfolding Target.decode Target.decode_r_type Target.decode_i_type
rori-Fields w amount lt h = ground (arith, rori_imm amount lt)

-- A word of the type.
abbrev pub IsDecoded : InstrType → ℕ → Type 0
IsDecoded t w = (Target.decode w).type ≡ decoded t

module _ {G : Type 0} (rng : Source G) where
  -- The word that `generate` makes for a type decodes to this type, if the draws lie between their bounds.
  pub generate-decode :
      (contract : IsInRange rng) (t : InstrType) (g : G) → Yields (IsDecoded t) (generate rng t g)
  unfolding generate generators code Class.run_entry entry gen_andn gen_orn gen_xnor gen_clz gen_ctz
      gen_cpop gen_min gen_minu gen_max gen_maxu gen_sext_b gen_sext_h gen_zext_h gen_rol gen_ror
      gen_rori gen_orc_b gen_rev8 Target.decode_r_type Target.decode_i_type
  generate-decode contract InstrType.andn g =
      r_decoded _ (encode_r_type-Fields 0b0100000 _ _ 0b111 _ 0b0110011)
  generate-decode contract InstrType.orn g =
      r_decoded _ (encode_r_type-Fields 0b0100000 _ _ 0b110 _ 0b0110011)
  generate-decode contract InstrType.xnor g =
      r_decoded _ (encode_r_type-Fields 0b0100000 _ _ 0b100 _ 0b0110011)
  generate-decode contract InstrType.clz g =
      i_decoded _ (encode_i_type-Fields 0b011000000000 _ 0b001 _ 0b0010011)
  generate-decode contract InstrType.ctz g =
      i_decoded _ (encode_i_type-Fields 0b011000000001 _ 0b001 _ 0b0010011)
  generate-decode contract InstrType.cpop g =
      i_decoded _ (encode_i_type-Fields 0b011000000010 _ 0b001 _ 0b0010011)
  generate-decode contract InstrType.min g =
      r_decoded _ (encode_r_type-Fields 0b0000101 _ _ 0b100 _ 0b0110011)
  generate-decode contract InstrType.minu g =
      r_decoded _ (encode_r_type-Fields 0b0000101 _ _ 0b101 _ 0b0110011)
  generate-decode contract InstrType.max g =
      r_decoded _ (encode_r_type-Fields 0b0000101 _ _ 0b110 _ 0b0110011)
  generate-decode contract InstrType.maxu g =
      r_decoded _ (encode_r_type-Fields 0b0000101 _ _ 0b111 _ 0b0110011)
  generate-decode contract InstrType.sext_b g =
      i_decoded _ (encode_i_type-Fields 0b011000000100 _ 0b001 _ 0b0010011)
  generate-decode contract InstrType.sext_h g =
      i_decoded _ (encode_i_type-Fields 0b011000000101 _ 0b001 _ 0b0010011)
  generate-decode contract InstrType.zext_h g =
      r_decoded _ (encode_r_type-Fields 0b0000100 0 _ 0b100 _ 0b0110011)
  generate-decode contract InstrType.rol g =
      r_decoded _ (encode_r_type-Fields 0b0110000 _ _ 0b001 _ 0b0110011)
  generate-decode contract InstrType.ror g =
      r_decoded _ (encode_r_type-Fields 0b0110000 _ _ 0b101 _ 0b0110011)
  generate-decode contract InstrType.rori g =
      rori-Fields _ (shamt rng g).0 (shamt_lt rng contract g) (encode_i_type-Fields _ _ _ _ _)
  generate-decode contract InstrType.orc_b g =
      i_decoded _ (encode_i_type-Fields 0b001010000111 _ 0b101 _ 0b0010011)
  generate-decode contract InstrType.rev8 g =
      i_decoded _ (encode_i_type-Fields 0b011010011000 _ 0b101 _ 0b0010011)

module _ {G : Type 0} (rng : Source G) where
  -- `generate_random` returns as soon as one of its first `fuel` draws is of an enabled type, and at once under
  -- the default mask; its word then decodes to an enabled type. The draws lie between their bounds.
  pub generate_random-decode_zbb :
      (contract : IsInRange rng) (fuel enabled : ℕ) (g : G)
      → ((legalized enabled == all_types)
          || reaches rng (selects (legalized enabled)) (count - 1) fuel g)
        ≡ true
      → Yields
          (IsEnabledWord rng (generators rng) count code of_code IsDecoded enabled)
          (generate_random rng fuel enabled g)
  unfolding generate_random generate code
  generate_random-decode_zbb contract fuel enabled g h =
      generate_random-types rng (generators rng) count code of_code IsDecoded contract fuel enabled
        g (table count (λ i. code (of_code i)) (λ i. i) refl)
        (λ t g'. generate-decode rng contract t g') (omega arith) (omega arith) h
