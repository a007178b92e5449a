-- ===== src/Opgen/Zicsr/Decoding.antt =====
-- riscv_zicsr_opgen.hpp: what the decoder of riscv_zicsr.hpp makes of the generated words.
use rv32_complete_v.Common.Encode.{Fields}
use rv32_complete_v.Opgen.Source.{Source, IsInRange, Yields, entry}
use rv32_complete_v.Opgen.Shapes.{encode_i_type-Fields}
use rv32_complete_v.Opgen.Generator as Class
use rv32_complete_v.Opgen.Generator.{all_types, selects, legalized}
use rv32_complete_v.Opgen.Random.{reaches, generate_random-types, IsEnabledWord}
use rv32_complete_v.Zicsr.Execute as Target
use rv32_complete_v.Opgen.Zicsr.{
  InstrType, code, of_code, count, decoded, generators, generate, generate_random,
}
use rv32_complete_v.Opgen.Zicsr.{
  gen_csrrw, gen_csrrs, gen_csrrc, gen_csrrwi, gen_csrrsi, gen_csrrci,
}
use rv32_complete_v.Prelude.{ℕ, ◌-◌, ◌/◌, ◌%◌, ◌≡◌, refl, Bool, true, ◌||◌, arith, ◌==◌, table}
use rv32_complete_v.Opgen.Zicsr.{encode_csr}
use rv32_complete_v.Opgen.Encode.{encode_i_type}

encode_csr-eq :
    (csr rs1 f3 rd : ℕ) → encode_csr csr rs1 f3 rd ≡ encode_i_type csr rs1 f3 rd 0b1110011
unfolding encode_csr encode_i_type
encode_csr-eq csr rs1 f3 rd = refl

encode_csr-Fields :
    (csr rs1 f3 rd : ℕ)
    → Fields
        (encode_csr csr rs1 f3 rd)
        (0b1110011 % 128)
        (rd % 32)
        (f3 % 8)
        (rs1 % 32)
        (csr % 32)
        (csr % 4096 / 32)
encode_csr-Fields csr rs1 f3 rd =
    rw (encode_csr-eq csr rs1 f3 rd) (encode_i_type-Fields csr rs1 f3 rd 0b1110011)

csrrw-Fields :
    (w : ℕ) {rd rs1 rs2 f7 : ℕ}
    → Fields w (0b1110011 % 128) rd (0b001 % 8) rs1 rs2 f7
    → (Target.decode w).type ≡ Target.CsrInstrType.csrrw
unfolding Target.decode Target.type_of_funct3
csrrw-Fields w h = ground arith

csrrs-Fields :
    (w : ℕ) {rd rs1 rs2 f7 : ℕ}
    → Fields w (0b1110011 % 128) rd (0b010 % 8) rs1 rs2 f7
    → (Target.decode w).type ≡ Target.CsrInstrType.csrrs
unfolding Target.decode Target.type_of_funct3
csrrs-Fields w h = ground arith

csrrc-Fields :
    (w : ℕ) {rd rs1 rs2 f7 : ℕ}
    → Fields w (0b1110011 % 128) rd (0b011 % 8) rs1 rs2 f7
    → (Target.decode w).type ≡ Target.CsrInstrType.csrrc
unfolding Target.decode Target.type_of_funct3
csrrc-Fields w h = ground arith

csrrwi-Fields :
    (w : ℕ) {rd rs1 rs2 f7 : ℕ}
    → Fields w (0b1110011 % 128) rd (0b101 % 8) rs1 rs2 f7
    → (Target.decode w).type ≡ Target.CsrInstrType.csrrwi
unfolding Target.decode Target.type_of_funct3
csrrwi-Fields w h = ground arith

csrrsi-Fields :
    (w : ℕ) {rd rs1 rs2 f7 : ℕ}
    → Fields w (0b1110011 % 128) rd (0b110 % 8) rs1 rs2 f7
    → (Target.decode w).type ≡ Target.CsrInstrType.csrrsi
unfolding Target.decode Target.type_of_funct3
csrrsi-Fields w h = ground arith

csrrci-Fields :
    (w : ℕ) {rd rs1 rs2 f7 : ℕ}
    → Fields w (0b1110011 % 128) rd (0b111 % 8) rs1 rs2 f7
    → (Target.decode w).type ≡ Target.CsrInstrType.csrrci
unfolding Target.decode Target.type_of_funct3
csrrci-Fields w h = ground arith

-- A word of the type.
abbrev pub IsDecoded : InstrType → ℕ → Type 0
IsDecoded t w = (Target.decode w).type ≡ decoded t

module _ {G : Type 0} (rng : Source G) (s_mode u_mode : Bool) where
  -- The word that `generate` makes for a type decodes to this type, whatever the draws.
  pub generate-decode :
      (t : InstrType) (g : G) → Yields (IsDecoded t) (generate rng s_mode u_mode t g)
  unfolding generate generators code Class.run_entry entry gen_csrrw gen_csrrs gen_csrrc gen_csrrwi
      gen_csrrsi gen_csrrci
  generate-decode InstrType.csrrw g = csrrw-Fields _ (encode_csr-Fields _ _ _ _)
  generate-decode InstrType.csrrs g = csrrs-Fields _ (encode_csr-Fields _ _ _ _)
  generate-decode InstrType.csrrc g = csrrc-Fields _ (encode_csr-Fields _ _ _ _)
  generate-decode InstrType.csrrwi g = csrrwi-Fields _ (encode_csr-Fields _ _ _ _)
  generate-decode InstrType.csrrsi g = csrrsi-Fields _ (encode_csr-Fields _ _ _ _)
  generate-decode InstrType.csrrci g = csrrci-Fields _ (encode_csr-Fields _ _ _ _)

module _ {G : Type 0} (rng : Source G) (s_mode u_mode : Bool) where
  -- `generate_random` returns as soon as one of its first `fuel` draws is of an enabled type, and at once under
  -- the default mask; its word then decodes to an enabled type. The draws lie between their bounds.
  pub generate_random-decode_csr :
      (contract : IsInRange rng) (fuel enabled : ℕ) (g : G)
      → ((legalized enabled == all_types)
          || reaches rng (selects (legalized enabled)) (count - 1) fuel g)
        ≡ true
      → Yields
          (IsEnabledWord rng (generators rng s_mode u_mode) count code of_code IsDecoded enabled)
          (generate_random rng s_mode u_mode fuel enabled g)
  unfolding generate_random generate code
  generate_random-decode_csr contract fuel enabled g h =
      generate_random-types rng (generators rng s_mode u_mode) count code of_code IsDecoded contract
        fuel enabled g (table count (λ i. code (of_code i)) (λ i. i) refl)
        (λ t g'. generate-decode rng s_mode u_mode t g') (omega arith) (omega arith) h
