-- ===== src/Opgen/Rv32f/Decoding.antt =====
-- riscv_rv32f_opgen.hpp: what the decoder of riscv_rv32f.hpp makes of the generated words.
use rv32_complete_v.Common.Fields.{bits, bits_lem}
use rv32_complete_v.Common.Encode.{Fields}
use rv32_complete_v.Opgen.Source.{Source, IsInRange, Yields, entry, choice, or_zero}
use rv32_complete_v.Opgen.Shapes.{encode_r_type-Fields, encode_i_type-Fields, encode_s_type-Fields}
use rv32_complete_v.Opgen.Generator as Class
use rv32_complete_v.Opgen.Generator.{all_types, selects, legalized}
use rv32_complete_v.Opgen.Random.{reaches, generate_random-types, IsEnabledWord}
use rv32_complete_v.Rv32f.Decode as Target
use rv32_complete_v.Rv32f.Types as Types
use rv32_complete_v.Opgen.Rv32f.{
  InstrType, code, of_code, count, decoded, generators, generate, generate_random,
}
use rv32_complete_v.Opgen.Rv32fGens.{
  gen_flw, gen_fsw, gen_fadd_s, gen_fsub_s, gen_fmul_s, gen_fdiv_s, gen_fsqrt_s, gen_fmin_s,
  gen_fmax_s, gen_fmadd_s, gen_fmsub_s, gen_fnmadd_s, gen_fnmsub_s, gen_fcvt_w_s, gen_fcvt_wu_s,
  gen_fcvt_s_w, gen_fcvt_s_wu, gen_fmv_x_w, gen_fmv_w_x, gen_feq_s, gen_flt_s, gen_fle_s,
  gen_fsgnj_s, gen_fsgnjn_s, gen_fsgnjx_s, gen_fclass_s,
}
use rv32_complete_v.Prelude.{
  ℕ, ◌-◌, ◌*◌, ◌%◌, ◌^◌, ◌<◌, ◌≡◌, refl, Bool, true, not, ◌&&◌, ◌||◌, [], ◌∷◌, arith, ◌==◌,
  bit_or-zero, bit_and_mask, shl32, table, below-at,
}
use rv32_complete_v.Opgen.Rv32fGens.{encode_r4_type, rm}
use rv32_complete_v.Opgen.Encode.{encode_r_type}

-- A rounding mode that is not reserved.
unfoldable is_mode : ℕ → Bool
is_mode m = not (m % 8 == 0b101) && not (m % 8 == 0b110)

mode_at : (i : ℕ) → i < 6 → is_mode (or_zero (entry (0 ∷ 1 ∷ 2 ∷ 3 ∷ 4 ∷ 7 ∷ []) i) % 8) ≡ true
unfolding is_mode entry
mode_at = below-at 6 (λ i. is_mode (or_zero (entry (0 ∷ 1 ∷ 2 ∷ 3 ∷ 4 ∷ 7 ∷ []) i) % 8)) refl

modes : {G : Type 0} (rng : Source G) → IsInRange rng → (g : G) → is_mode ((rm rng g).0 % 8) ≡ true
unfolding rm choice
modes rng contract g =
    mode_at (rng.uniform 0 5 g).0 (omega (arith, (contract 0 5 g (omega arith)).1))

-- The fused instructions have the format of single precision.
encode_r4_type-eq :
    (rs3 rs2 rs1 rm rd op : ℕ)
    → encode_r4_type rs3 rs2 rs1 rm rd op ≡ encode_r_type (rs3 % 32 * 4) rs2 rs1 rm rd op
unfolding encode_r4_type encode_r_type
encode_r4_type-eq rs3 rs2 rs1 rm rd op =
    rw
      (
        bit_and_mask 5 rs3,
        bit_and_mask 7 (rs3 % 32 * 4),
        bit_or-zero (shl32 (rs3 % 32) 27),
        upper rs3,
      )
      refl
  where
    upper : (x : ℕ) → shl32 (x % 32 * 4 % 2 ^ 7) 25 ≡ shl32 (x % 32) 27
    upper x = omega arith

pub encode_r4_type-Fields :
    (rs3 rs2 rs1 rm rd op : ℕ)
    → Fields
        (encode_r4_type rs3 rs2 rs1 rm rd op)
        (op % 128)
        (rd % 32)
        (rm % 8)
        (rs1 % 32)
        (rs2 % 32)
        (rs3 % 32 * 4)
encode_r4_type-Fields rs3 rs2 rs1 rm rd op =
    rw (encode_r4_type-eq rs3 rs2 rs1 rm rd op)
      (fields_of (encode_r_type-Fields (rs3 % 32 * 4) rs2 rs1 rm rd op))
  where
    same : rs3 % 32 * 4 % 128 ≡ rs3 % 32 * 4
    same = omega arith

    fields_of :
        Fields
          (encode_r_type (rs3 % 32 * 4) rs2 rs1 rm rd op)
          (op % 128)
          (rd % 32)
          (rm % 8)
          (rs1 % 32)
          (rs2 % 32)
          (rs3 % 32 * 4 % 128)
        → Fields
            (encode_r_type (rs3 % 32 * 4) rs2 rs1 rm rd op)
            (op % 128)
            (rd % 32)
            (rm % 8)
            (rs1 % 32)
            (rs2 % 32)
            (rs3 % 32 * 4)
    fields_of h = rw same at h

single_format : (w rs3 : ℕ) → bits w 31 25 ≡ rs3 % 32 * 4 → bits w 26 25 ≡ 0
single_format w rs3 h =
    omega (arith, bits_lem w 31 25 (omega arith), bits_lem w 26 25 (omega arith))

flw-Fields :
    (w : ℕ) {rd rs1 rs2 f7 : ℕ}
    → Fields w (0b0000111 % 128) rd (0b010 % 8) rs1 rs2 f7
    → (Target.decode w).type ≡ Types.InstrType.flw
unfolding Target.decode Target.decode_opcode Target.fields Target.decode_op_fp Target.op_fp_type
    Target.reserved_rm Target.uses_rm
flw-Fields w h = ground arith

fsw-Fields :
    (w : ℕ) {rd rs1 rs2 f7 : ℕ}
    → Fields w (0b0100111 % 128) rd (0b010 % 8) rs1 rs2 f7
    → (Target.decode w).type ≡ Types.InstrType.fsw
unfolding Target.decode Target.decode_opcode Target.fields Target.decode_op_fp Target.op_fp_type
    Target.reserved_rm Target.uses_rm
fsw-Fields w h = ground arith

op_fp_decoded :
    (w : ℕ) {rd f3 rs1 rs2 f7 : ℕ}
    → is_mode f3 ≡ true
    → Fields w (0b1010011 % 128) rd f3 rs1 rs2 f7
    → (Target.decode w).type ≡ Target.op_fp_type f7 f3 rs2
unfolding Target.decode Target.decode_opcode Target.fields Target.decode_op_fp Target.reserved_rm
    is_mode
op_fp_decoded w p h = ground arith

fmadd_s-Fields :
    (w rs3 : ℕ) {rd f3 rs1 rs2 : ℕ}
    → is_mode f3 ≡ true
    → Fields w (0b1000011 % 128) rd f3 rs1 rs2 (rs3 % 32 * 4)
    → (Target.decode w).type ≡ Types.InstrType.fmadd_s
unfolding Target.decode Target.decode_opcode Target.fields Target.fused Target.reserved_rm
    Target.uses_rm is_mode
fmadd_s-Fields w rs3 p h = let e = single_format w rs3 h.at_funct7 in ground arith

fmsub_s-Fields :
    (w rs3 : ℕ) {rd f3 rs1 rs2 : ℕ}
    → is_mode f3 ≡ true
    → Fields w (0b1000111 % 128) rd f3 rs1 rs2 (rs3 % 32 * 4)
    → (Target.decode w).type ≡ Types.InstrType.fmsub_s
unfolding Target.decode Target.decode_opcode Target.fields Target.fused Target.reserved_rm
    Target.uses_rm is_mode
fmsub_s-Fields w rs3 p h = let e = single_format w rs3 h.at_funct7 in ground arith

fnmadd_s-Fields :
    (w rs3 : ℕ) {rd f3 rs1 rs2 : ℕ}
    → is_mode f3 ≡ true
    → Fields w (0b1001111 % 128) rd f3 rs1 rs2 (rs3 % 32 * 4)
    → (Target.decode w).type ≡ Types.InstrType.fnmadd_s
unfolding Target.decode Target.decode_opcode Target.fields Target.fused Target.reserved_rm
    Target.uses_rm is_mode
fnmadd_s-Fields w rs3 p h = let e = single_format w rs3 h.at_funct7 in ground arith

fnmsub_s-Fields :
    (w rs3 : ℕ) {rd f3 rs1 rs2 : ℕ}
    → is_mode f3 ≡ true
    → Fields w (0b1001011 % 128) rd f3 rs1 rs2 (rs3 % 32 * 4)
    → (Target.decode w).type ≡ Types.InstrType.fnmsub_s
unfolding Target.decode Target.decode_opcode Target.fields Target.fused Target.reserved_rm
    Target.uses_rm is_mode
fnmsub_s-Fields w rs3 p h = let e = single_format w rs3 h.at_funct7 in ground arith

-- A word of the type.
abbrev pub IsDecoded : InstrType → ℕ → Type 0
IsDecoded t w = (Target.decode w).type ≡ decoded t

module _ {G : Type 0} (rng : Source G) where
  -- The word that `generate` makes for a type decodes to this type, if the draws lie between their bounds.
  pub generate-decode :
      (contract : IsInRange rng) (t : InstrType) (g : G) → Yields (IsDecoded t) (generate rng t g)
  unfolding generate generators code Class.run_entry entry gen_flw gen_fsw gen_fadd_s gen_fsub_s
      gen_fmul_s gen_fdiv_s gen_fsqrt_s gen_fmin_s gen_fmax_s gen_fmadd_s gen_fmsub_s gen_fnmadd_s
      gen_fnmsub_s gen_fcvt_w_s gen_fcvt_wu_s gen_fcvt_s_w gen_fcvt_s_wu gen_fmv_x_w gen_fmv_w_x
      gen_feq_s gen_flt_s gen_fle_s gen_fsgnj_s gen_fsgnjn_s gen_fsgnjx_s gen_fclass_s
      Target.op_fp_type is_mode
  generate-decode contract InstrType.flw g = flw-Fields _ (encode_i_type-Fields _ _ _ _ _)
  generate-decode contract InstrType.fsw g = fsw-Fields _ (encode_s_type-Fields _ _ _ _ _)
  generate-decode contract InstrType.fadd_s g =
      op_fp_decoded _ (modes rng contract _) (encode_r_type-Fields 0b0000000 _ _ _ _ 0b1010011)
  generate-decode contract InstrType.fsub_s g =
      op_fp_decoded _ (modes rng contract _) (encode_r_type-Fields 0b0000100 _ _ _ _ 0b1010011)
  generate-decode contract InstrType.fmul_s g =
      op_fp_decoded _ (modes rng contract _) (encode_r_type-Fields 0b0001000 _ _ _ _ 0b1010011)
  generate-decode contract InstrType.fdiv_s g =
      op_fp_decoded _ (modes rng contract _) (encode_r_type-Fields 0b0001100 _ _ _ _ 0b1010011)
  generate-decode contract InstrType.fsqrt_s g =
      op_fp_decoded _ (modes rng contract _) (encode_r_type-Fields 0b0101100 0 _ _ _ 0b1010011)
  generate-decode contract InstrType.fmin_s g =
      op_fp_decoded _ refl (encode_r_type-Fields 0b0010100 _ _ 0b000 _ 0b1010011)
  generate-decode contract InstrType.fmax_s g =
      op_fp_decoded _ refl (encode_r_type-Fields 0b0010100 _ _ 0b001 _ 0b1010011)
  generate-decode contract InstrType.fmadd_s g =
      fmadd_s-Fields _ _ (modes rng contract _) (encode_r4_type-Fields _ _ _ _ _ _)
  generate-decode contract InstrType.fmsub_s g =
      fmsub_s-Fields _ _ (modes rng contract _) (encode_r4_type-Fields _ _ _ _ _ _)
  generate-decode contract InstrType.fnmadd_s g =
      fnmadd_s-Fields _ _ (modes rng contract _) (encode_r4_type-Fields _ _ _ _ _ _)
  generate-decode contract InstrType.fnmsub_s g =
      fnmsub_s-Fields _ _ (modes rng contract _) (encode_r4_type-Fields _ _ _ _ _ _)
  generate-decode contract InstrType.fcvt_w_s g =
      op_fp_decoded _ (modes rng contract _) (encode_r_type-Fields 0b1100000 0 _ _ _ 0b1010011)
  generate-decode contract InstrType.fcvt_wu_s g =
      op_fp_decoded _ (modes rng contract _) (encode_r_type-Fields 0b1100000 1 _ _ _ 0b1010011)
  generate-decode contract InstrType.fcvt_s_w g =
      op_fp_decoded _ (modes rng contract _) (encode_r_type-Fields 0b1101000 0 _ _ _ 0b1010011)
  generate-decode contract InstrType.fcvt_s_wu g =
      op_fp_decoded _ (modes rng contract _) (encode_r_type-Fields 0b1101000 1 _ _ _ 0b1010011)
  generate-decode contract InstrType.fmv_x_w g =
      op_fp_decoded _ refl (encode_r_type-Fields 0b1110000 0 _ 0b000 _ 0b1010011)
  generate-decode contract InstrType.fmv_w_x g =
      op_fp_decoded _ refl (encode_r_type-Fields 0b1111000 0 _ 0b000 _ 0b1010011)
  generate-decode contract InstrType.feq_s g =
      op_fp_decoded _ refl (encode_r_type-Fields 0b1010000 _ _ 0b010 _ 0b1010011)
  generate-decode contract InstrType.flt_s g =
      op_fp_decoded _ refl (encode_r_type-Fields 0b1010000 _ _ 0b001 _ 0b1010011)
  generate-decode contract InstrType.fle_s g =
      op_fp_decoded _ refl (encode_r_type-Fields 0b1010000 _ _ 0b000 _ 0b1010011)
  generate-decode contract InstrType.fsgnj_s g =
      op_fp_decoded _ refl (encode_r_type-Fields 0b0010000 _ _ 0b000 _ 0b1010011)
  generate-decode contract InstrType.fsgnjn_s g =
      op_fp_decoded _ refl (encode_r_type-Fields 0b0010000 _ _ 0b001 _ 0b1010011)
  generate-decode contract InstrType.fsgnjx_s g =
      op_fp_decoded _ refl (encode_r_type-Fields 0b0010000 _ _ 0b010 _ 0b1010011)
  generate-decode contract InstrType.fclass_s g =
      op_fp_decoded _ refl (encode_r_type-Fields 0b1110000 0 _ 0b001 _ 0b1010011)

module _ {G : Type 0} (rng : Source G) where
  -- `generate_random` returns as soon as one of its first `fuel` draws is of an enabled type, and at once under
  -- the default mask; its word then decodes to an enabled type. The draws lie between their bounds.
  pub generate_random-decode_f :
      (contract : IsInRange rng) (fuel enabled : ℕ) (g : G)
      → ((legalized enabled == all_types)
          || reaches rng (selects (legalized enabled)) (count - 1) fuel g)
        ≡ true
      → Yields
          (IsEnabledWord rng (generators rng) count code of_code IsDecoded enabled)
          (generate_random rng fuel enabled g)
  unfolding generate_random generate code
  generate_random-decode_f contract fuel enabled g h =
      generate_random-types rng (generators rng) count code of_code IsDecoded contract fuel enabled
        g (table count (λ i. code (of_code i)) (λ i. i) refl)
        (λ t g'. generate-decode rng contract t g') (omega arith) (omega arith) h
