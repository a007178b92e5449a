-- ===== src/Opgen/Illegal/OpcodeWords.antt =====
-- riscv_illegal_opgen.hpp: the words of a reserved major opcode and of a fused multiplication.
use rv32_complete_v.Common.Fields.{bits, bits_lem}
use rv32_complete_v.Rv32i.Decode as I
use rv32_complete_v.Cpu.Claims.{IsIllegal}
use rv32_complete_v.Opgen.Source.{Source, IsInRange, entry, or_zero, reg}
use rv32_complete_v.Opgen.Illegal.{enc_r, gen_reserved_major_opcode}
use rv32_complete_v.Opgen.Illegal.Float.{gen_bad_madd_fmt, modes}
use rv32_complete_v.Opgen.Illegal.Rejected.{IsRejected, is_plain, plain-IsRejected}
use rv32_complete_v.Opgen.Illegal.RejectedFloat.{fused-IsRejected}
use rv32_complete_v.Opgen.Illegal.Words.{enc_r-Fields, choice_all}
use rv32_complete_v.OpcodeClassify.Opcodes.{is_float_op}
use rv32_complete_v.Prelude.{
  ℕ, ◌+◌, ◌*◌, ◌/◌, ◌%◌, ◌^◌, ◌≤◌, ◌<◌, bit_and, bit_or, ◌≡◌, refl, Bool, true, not, ◌&&◌, ◌||◌, [],
  ◌∷◌, arith, ltb, ◌==◌, bit_or_add, bit_and_mask, shl32, not32, below, bit_and_shift,
}

-- Whether `op` is the upper part of an opcode that no extension has.
unfoldable is_free : ℕ → Bool
unfolding is_plain
is_free op =
    is_plain (op * 4 + 3)
    && ltb op 32
    && not (
        op == 0b01101
        || op == 0b00101
        || op == 0b11011
        || op == 0b11001
        || op == 0b11000
        || op == 0b00000
        || op == 0b01000)

free_entries :
    below 13 (λ i. is_free (
      or_zero (
        entry
          (0b00010 ∷ 0b00110 ∷ 0b00111 ∷ 0b01010 ∷ 0b01110 ∷ 0b01111 ∷ 0b10101 ∷ 0b10110 ∷ 0b10111
            ∷ 0b11010 ∷ 0b11101 ∷ 0b11110 ∷ 0b11111 ∷ [])
          i)))
    ≡ true
unfolding is_free is_plain is_float_op entry
free_entries = refl

free-IsIllegal : (s : Bool) (w op : ℕ) → bits w 6 0 ≡ op * 4 + 3 → is_free op ≡ true → IsIllegal s w
unfolding is_free is_plain is_float_op I.decode I.decode_opcode I.fields
free-IsIllegal s w op e h = ground arith

-- The lowest seven digits of a word of `gen_reserved_major_opcode`.
major_word :
    (b op : ℕ)
    → op < 32
    → bits (bit_or (bit_or (bit_and b (not32 0x7f)) (shl32 op 2)) 0b11) 6 0 ≡ op * 4 + 3
major_word b op lt =
    let upper : ℕ = bit_and (b / 128) 0x1ff_ffff in
    let first : bit_or (upper * 128) (op * 4) ≡ upper * 128 + op * 4 =
      bit_or_add 7 (upper * 128) (op * 4) (omega arith) (omega arith) in
    let second : bit_or (upper * 128 + op * 4) 3 ≡ upper * 128 + op * 4 + 3 =
      bit_or_add 2 (upper * 128 + op * 4) 3 (omega arith) (omega arith) in
    let shift : shl32 op 2 ≡ op * 4 = omega arith in
    rw (bit_and_shift 7 b 0x1ff_ffff, shift, first, second)
      (omega (arith, bits_lem (upper * 128 + op * 4 + 3) 6 0 (omega arith)))

-- The word of `gen_bad_madd_fmt`, as a function of what it draws.
abbrev fused_bits : ℕ → ℕ → ℕ → ℕ → ℕ → ℕ → ℕ → ℕ
fused_bits rs3 fmt rs2 rs1 mode rd op =
    bit_or
      (bit_or
        (bit_or
          (bit_or
            (bit_or (bit_or (shl32 (bit_and rs3 0x1f) 27) (shl32 fmt 25))
              (shl32 (bit_and rs2 0x1f) 20))
            (shl32 (bit_and rs1 0x1f) 15))
          (shl32 mode 12))
        (shl32 (bit_and rd 0x1f) 7))
      op

-- The format of a fused instruction is the lower part of its `funct7`.
fused_word :
    (rs3 fmt rs2 rs1 mode rd op : ℕ)
    → fmt < 4
    → mode < 8
    → op < 128
    → fused_bits rs3 fmt rs2 rs1 mode rd op ≡ enc_r (rs3 % 32 * 4 + fmt) rs2 rs1 mode rd op
unfolding enc_r
fused_word rs3 fmt rs2 rs1 mode rd op hf hm ho =
    let both : bit_or (shl32 (rs3 % 32) 27) (shl32 fmt 25) ≡ shl32 (rs3 % 32) 27 + shl32 fmt 25 =
      bit_or_add 27 (shl32 (rs3 % 32) 27) (shl32 fmt 25) (omega arith) (omega arith) in
    let top : shl32 ((rs3 % 32 * 4 + fmt) % 2 ^ 7) 25 ≡ shl32 (rs3 % 32) 27 + shl32 fmt 25 =
      omega arith in
    let m : mode % 2 ^ 3 ≡ mode = omega arith in
    let o : op % 2 ^ 7 ≡ op = omega arith in
    rw
      (
        bit_and_mask 5 rs3,
        both,
        bit_and_mask 7 (rs3 % 32 * 4 + fmt),
        top,
        bit_and_mask 3 mode,
        m,
        bit_and_mask 7 op,
        o,
      )
      refl

unfoldable is_fused : ℕ → Bool
is_fused op = op == 0b1000011 || op == 0b1000111 || op == 0b1001011 || op == 0b1001111

mode_entries : below 6 (λ i. ltb (or_zero (entry modes i)) 8) ≡ true
unfolding entry
mode_entries = refl

fused_entries :
    below 4 (λ i. is_fused (or_zero (entry (0b1000011 ∷ 0b1000111 ∷ 0b1001011 ∷ 0b1001111 ∷ []) i)))
    ≡ true
unfolding entry is_fused
fused_entries = refl

free_word-IsRejected :
    (s : Bool) (b op : ℕ)
    → is_free op ≡ true
    → IsRejected s (bit_or (bit_or (bit_and b (not32 0x7f)) (shl32 op 2)) 0b11)
unfolding is_free
free_word-IsRejected s b op h =
    let e = major_word b op (ground arith) in
    plain-IsRejected s _ (rw e (ground arith)) (free-IsIllegal s _ op e h)

fused_bits-IsRejected :
    (s : Bool) (rs3 fmt rs2 rs1 mode rd op : ℕ)
    → (1 ≤ fmt) × (fmt ≤ 3)
    → ltb mode 8 ≡ true
    → is_fused op ≡ true
    → IsRejected s (fused_bits rs3 fmt rs2 rs1 mode rd op)
unfolding is_fused
fused_bits-IsRejected s rs3 fmt rs2 rs1 mode rd op hf hm ho =
    rw (fused_word rs3 fmt rs2 rs1 mode rd op (omega (arith, hf)) (ground arith) (ground arith)) (
      fused-IsRejected s _ (op % 128) (enc_r-Fields (rs3 % 32 * 4 + fmt) rs2 rs1 mode rd op)
        (ground (arith, hf)))

module _ {G : Type 0} (rng : Source G) (contract : IsInRange rng) (s : Bool) where
  pub reserved_major-IsRejected : (g : G) → IsRejected s (gen_reserved_major_opcode rng g).0
  unfolding gen_reserved_major_opcode
  reserved_major-IsRejected g =
      free_word-IsRejected s _ _
        (choice_all rng contract is_free _ 12 (rng.bits32 g).1 free_entries)

  pub madd_fmt-IsRejected : (g : G) → IsRejected s (gen_bad_madd_fmt rng g).0
  unfolding gen_bad_madd_fmt
  madd_fmt-IsRejected g =
      fused_bits-IsRejected s _ _ _ _ _ _ _ (contract 1 3 (reg rng g).1 (omega arith))
        (choice_all rng contract (λ m. ltb m 8) modes 5 _ mode_entries)
        (choice_all rng contract is_fused (0b1000011 ∷ 0b1000111 ∷ 0b1001011 ∷ 0b1001111 ∷ []) 3 _
          fused_entries)
