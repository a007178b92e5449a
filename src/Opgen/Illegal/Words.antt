-- ===== src/Opgen/Illegal/Words.antt =====
-- riscv_illegal_opgen.hpp: the words of the base set and of the atomic extension that the generators make.
use rv32_complete_v.Common.Fields.{bits}
use rv32_complete_v.Common.Encode.{Fields}
use rv32_complete_v.Rv32i.Decode as I
use rv32_complete_v.Opgen.Source.{Source, IsInRange, entry, or_zero, choice, reg}
use rv32_complete_v.Opgen.Encode.{encode_r_type, encode_i_type, encode_s_type}
use rv32_complete_v.Opgen.Shapes.{encode_r_type-Fields, encode_i_type-Fields, encode_s_type-Fields}
use rv32_complete_v.Opgen.Illegal.{
  enc_r, enc_i, gen_all_ones, gen_bad_load, gen_bad_store, gen_bad_branch, gen_bad_jalr,
  gen_bad_misc_mem, gen_bad_system_f3_4,
}
use rv32_complete_v.Opgen.Illegal.Float.{gen_bad_amo_funct3, not_word}
use rv32_complete_v.Opgen.Illegal.Rejected.{
  IsRejected, bad_base, base-IsRejected, amo_size-IsRejected, misc_mem-IsRejected,
  hypervisor-IsRejected, plain-IsRejected, is_plain,
}
use rv32_complete_v.Prelude.{
  ℕ, suc, ◌/◌, ◌%◌, ◌≤◌, ◌<◌, bit_and, bit_or, ◌≡◌, refl, Bool, true, List, [], ◌∷◌, arith, ltb,
  ◌!=◌, ltb_iff, bit_and_mask, shl32, below, below-at,
}

pub enc_r-Fields :
    (f7 rs2 rs1 f3 rd op : ℕ)
    → Fields
        (enc_r f7 rs2 rs1 f3 rd op)
        (op % 128)
        (rd % 32)
        (f3 % 8)
        (rs1 % 32)
        (rs2 % 32)
        (f7 % 128)
unfolding enc_r encode_r_type
enc_r-Fields = encode_r_type-Fields

pub enc_i-Fields :
    (imm rs1 f3 rd op : ℕ)
    → Fields
        (enc_i imm rs1 f3 rd op)
        (op % 128)
        (rd % 32)
        (f3 % 8)
        (rs1 % 32)
        (imm % 32)
        (imm % 4096 / 32)
unfolding enc_i encode_i_type
enc_i-Fields = encode_i_type-Fields

-- The stores have no masks on the fields that are in range.
pub store_word-Fields :
    (imm rs2 rs1 f3 op : ℕ)
    → rs2 < 32
    → rs1 < 32
    → f3 < 8
    → op < 128
    → Fields
        (bit_or
          (bit_or
            (bit_or
              (bit_or (bit_or (shl32 (bit_and imm 0xfe0) 20) (shl32 rs2 20)) (shl32 rs1 15))
              (shl32 f3 12))
            (shl32 (bit_and imm 0x1f) 7))
          op)
        (op % 128)
        (imm % 32)
        (f3 % 8)
        (rs1 % 32)
        (rs2 % 32)
        (imm % 4096 / 32)
unfolding encode_s_type
store_word-Fields imm rs2 rs1 f3 op h2 h1 h3 h =
    rw (masked5 rs2 h2, masked5 rs1 h1, masked3 f3 h3, masked7 op h) at
      (encode_s_type-Fields imm rs2 rs1 f3 op)
  where
    masked5 : (x : ℕ) → x < 32 → bit_and x 0x1f ≡ x
    masked5 x lt = ground (arith, bit_and_mask 5 x)

    masked3 : (x : ℕ) → x < 8 → bit_and x 0x7 ≡ x
    masked3 x lt = ground (arith, bit_and_mask 3 x)

    masked7 : (x : ℕ) → x < 128 → bit_and x 0x7f ≡ x
    masked7 x lt = ground (arith, bit_and_mask 7 x)

-- What holds of every entry of a list holds of the chosen one.
pub choice_all :
    {G : Type 0} (rng : Source G) (contract : IsInRange rng) (p : ℕ → Bool) (list : List ℕ)
    (last : ℕ) (g : G)
    → below (suc last) (λ i. p (or_zero (entry list i))) ≡ true
    → p (choice rng list last g).0 ≡ true
unfolding choice
choice_all rng contract p list last g h =
    below-at (suc last) (λ i. p (or_zero (entry list i))) h (rng.uniform 0 last g).0
      (omega (arith, (contract 0 last g (omega arith)).1))

pub reg-lt : {G : Type 0} (rng : Source G) → IsInRange rng → (g : G) → (reg rng g).0 < 32
unfolding reg
reg-lt rng contract g = omega (arith, (contract 0 31 g (omega arith)).1)

load_entries :
    below 3 (λ i. bad_base 0b0000011 (or_zero (entry (0b011 ∷ 0b110 ∷ 0b111 ∷ []) i) % 8)) ≡ true
unfolding bad_base entry
load_entries = refl

store_range :
    below 5 (λ i. ltb (or_zero (entry (0b011 ∷ 0b100 ∷ 0b101 ∷ 0b110 ∷ 0b111 ∷ []) i)) 8) ≡ true
unfolding entry
store_range = refl

store_entries :
    below 5
      (λ i. bad_base 0b0100011 (or_zero (entry (0b011 ∷ 0b100 ∷ 0b101 ∷ 0b110 ∷ 0b111 ∷ []) i) % 8))
    ≡ true
unfolding bad_base entry
store_entries = refl

branch_entries :
    below 2 (λ i. bad_base 0b1100011 (or_zero (entry (0b010 ∷ 0b011 ∷ []) i) % 8)) ≡ true
unfolding bad_base entry
branch_entries = refl

amo_funct3_entries : below 7 (λ i. or_zero (entry not_word i) % 8 != 0b010) ≡ true
unfolding entry
amo_funct3_entries = refl

module _ {G : Type 0} (rng : Source G) (contract : IsInRange rng) (s : Bool) where
  pub all_ones-IsRejected : (g : G) → IsRejected s (gen_all_ones rng g).0
  unfolding gen_all_ones is_plain bits I.decode I.decode_opcode I.fields
  all_ones-IsRejected g = plain-IsRejected s 0xffff_ffff refl refl

  pub load-IsRejected : (g : G) → IsRejected s (gen_bad_load rng g).0
  unfolding gen_bad_load
  load-IsRejected g = base-IsRejected s _ 0b0000011 (enc_i-Fields _ _ _ _ _) (
      choice_all rng contract (λ f3. bad_base 0b0000011 (f3 % 8)) (0b011 ∷ 0b110 ∷ 0b111 ∷ []) 2 _
        load_entries)

  pub store-IsRejected : (g : G) → IsRejected s (gen_bad_store rng g).0
  unfolding gen_bad_store
  store-IsRejected g =
      base-IsRejected s _ 0b0100011
        (store_word-Fields _ _ _ _ 0b0100011 (reg-lt rng contract _) (reg-lt rng contract _)
          ((ltb_iff _ 8).0 (
            choice_all rng contract (λ f3. ltb f3 8) (0b011 ∷ 0b100 ∷ 0b101 ∷ 0b110 ∷ 0b111 ∷ []) 4
              _ store_range))
          (omega arith))
        (choice_all rng contract (λ f3. bad_base 0b0100011 (f3 % 8))
          (0b011 ∷ 0b100 ∷ 0b101 ∷ 0b110 ∷ 0b111 ∷ []) 4 _ store_entries)

  pub branch-IsRejected : (g : G) → IsRejected s (gen_bad_branch rng g).0
  unfolding gen_bad_branch
  branch-IsRejected g = base-IsRejected s _ 0b1100011 (enc_r-Fields _ _ _ _ _ _) (
      choice_all rng contract (λ f3. bad_base 0b1100011 (f3 % 8)) (0b010 ∷ 0b011 ∷ []) 1 _
        branch_entries)

  -- A draw of `funct3` between its bounds.
  pub between :
      (p : ℕ → Bool) (lo hi : ℕ) (g : G)
      → lo ≤ hi
      → ((x : ℕ) → lo ≤ x → x ≤ hi → p x ≡ true)
      → p (rng.uniform lo hi g).0 ≡ true
  between p lo hi g le h = h (rng.uniform lo hi g).0 (contract lo hi g le).0 (contract lo hi g le).1

  pub jalr-IsRejected : (g : G) → IsRejected s (gen_bad_jalr rng g).0
  unfolding gen_bad_jalr bad_base
  jalr-IsRejected g =
      base-IsRejected s _ 0b1100111 (enc_i-Fields _ _ _ _ _)
        (between (λ f3. bad_base 0b1100111 (f3 % 8)) 1 7 _ (omega arith) (λ x a b. ground arith))

  pub misc_mem_word-IsRejected : (g : G) → IsRejected s (gen_bad_misc_mem rng g).0
  unfolding gen_bad_misc_mem
  misc_mem_word-IsRejected g =
      misc_mem-IsRejected s _ (enc_i-Fields _ _ _ _ _)
        (between (λ f3. ltb 1 (f3 % 8)) 2 7 _ (omega arith) (λ x a b. ground arith))

  pub system_f3_4-IsRejected : (g : G) → IsRejected s (gen_bad_system_f3_4 rng g).0
  unfolding gen_bad_system_f3_4
  system_f3_4-IsRejected g = hypervisor-IsRejected s _ (enc_i-Fields _ _ _ _ _) refl

  pub amo_funct3-IsRejected : (g : G) → IsRejected s (gen_bad_amo_funct3 rng g).0
  unfolding gen_bad_amo_funct3
  amo_funct3-IsRejected g =
      amo_size-IsRejected s _ (enc_r-Fields _ _ _ _ _ _)
        (choice_all rng contract (λ f3. f3 % 8 != 0b010) not_word 6 _ amo_funct3_entries)
