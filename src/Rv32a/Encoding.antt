-- ===== src/Rv32a/Encoding.antt =====
-- riscv_rv32a.hpp: the encoder against the decoder.
use rv32_complete_v.Common.Encode.{Fields, sum-Fields}
use rv32_complete_v.Common.Fields.{bits, bits_lem}
use rv32_complete_v.Rv32a.{
  InstrType, decode, type_of_funct5, is_lr, is_atomic_instruction, amo_instr,
}
use rv32_complete_v.Prelude.{
  ℕ, ◌⊎◌, inl, inr, ◌≢◌, if_cases, sym, ap, ◌+◌, ◌*◌, ◌/◌, ◌%◌, ◌^◌, ◌<◌, ◌≡◌, refl, ◌∙◌, Bool,
  true, arith, bit_and, shr32, bit_or, bit_or_add, bit_and_mask, shl32, if◌then◌else◌, ◌!=◌, ◌&&◌,
}

-- Seven fields, from the highest down.
join_fields :
    (f a l s t w r o : ℕ)
    → f % 2 ^ 27 ≡ 0
    → a < 2 ^ 27
    → a % 2 ^ 26 ≡ 0
    → l < 2 ^ 26
    → l % 2 ^ 25 ≡ 0
    → s < 2 ^ 25
    → s % 2 ^ 20 ≡ 0
    → t < 2 ^ 20
    → t % 2 ^ 15 ≡ 0
    → w < 2 ^ 15
    → w % 2 ^ 12 ≡ 0
    → r < 2 ^ 12
    → r % 2 ^ 7 ≡ 0
    → o < 2 ^ 7
    → bit_or (bit_or (bit_or (bit_or (bit_or (bit_or (bit_or f a) l) s) t) w) r) o
      ≡ f + a + l + s + t + w + r + o
join_fields f a l s t w r o h0 h1 h2 h3 h4 h5 h6 h7 h8 h9 h10 h11 h12 h13 =
    rw
      (
        bit_or_add 27 f a h0 h1,
        bit_or_add 26 (f + a) l (omega arith) h3,
        bit_or_add 25 (f + a + l) s (omega arith) h5,
        bit_or_add 20 (f + a + l + s) t (omega arith) h7,
        bit_or_add 15 (f + a + l + s + t) w (omega arith) h9,
        bit_or_add 12 (f + a + l + s + t + w) r (omega arith) h11,
        bit_or_add 7 (f + a + l + s + t + w + r) o (omega arith) h13,
      )
      refl

abbrev flag : Bool → ℕ
flag b = if b then 1 else 0

-- The seven bits of funct5, aq and rl.
abbrev high : ℕ → Bool → Bool → ℕ
high f5 aq rl = f5 * 4 + flag aq * 2 + flag rl

amo_instr-sum :
    (f5 rs2 rs1 rd : ℕ) (aq rl : Bool)
    → f5 < 32
    → amo_instr f5 aq rl rs2 rs1 rd
      ≡ high f5 aq rl * 2 ^ 25
        + rs2 % 32 * 2 ^ 20
        + rs1 % 32 * 2 ^ 15
        + 2 * 2 ^ 12
        + rd % 32 * 2 ^ 7
        + 0b0101111
unfolding amo_instr
amo_instr-sum f5 rs2 rs1 rd aq rl h =
    rw (bit_and_mask 5 f5, bit_and_mask 5 rs2, bit_and_mask 5 rs1, bit_and_mask 5 rd)
      (join_fields (shl32 (f5 % 32) 27) (shl32 (flag aq) 26) (shl32 (flag rl) 25)
          (shl32 (rs2 % 32) 20) (shl32 (rs1 % 32) 15) (shl32 2 12) (shl32 (rd % 32) 7) 0b0101111
          (omega arith) (ground arith) (ground arith) (ground arith) (ground arith) (omega arith)
          (omega arith) (omega arith) (omega arith) (omega arith) (omega arith) (omega arith)
          (omega arith) (omega arith)
        ∙ ground arith)

-- The value of `funct5` that the manual gives each type; 32 stands for none.
abbrev pub funct5_of : InstrType → ℕ
funct5_of InstrType.lr_w = 0b00010
funct5_of InstrType.sc_w = 0b00011
funct5_of InstrType.amoswap_w = 0b00001
funct5_of InstrType.amoadd_w = 0b00000
funct5_of InstrType.amoxor_w = 0b00100
funct5_of InstrType.amoand_w = 0b01100
funct5_of InstrType.amoor_w = 0b01000
funct5_of InstrType.amomin_w = 0b10000
funct5_of InstrType.amomax_w = 0b10100
funct5_of InstrType.amominu_w = 0b11000
funct5_of InstrType.amomaxu_w = 0b11100
funct5_of InstrType.illegal = 32

-- The type whose `funct5` it is; an illegal one if there is none, or for LR.W with a source register.
abbrev pub IsNamed : InstrType → ℕ → ℕ → Type 0
IsNamed t f5 rs2 =
    (funct5_of t ≡ f5)
    ⊎ ((t ≡ InstrType.illegal)
        × (((f5 ≡ 0b00010) × (rs2 % 32 ≢ 0)) ⊎ ((u : InstrType) → funct5_of u ≢ f5)))

type_of_funct5-funct5_of : (u : InstrType) → type_of_funct5 (funct5_of u) ≡ u
unfolding type_of_funct5
type_of_funct5-funct5_of InstrType.lr_w = refl
type_of_funct5-funct5_of InstrType.sc_w = refl
type_of_funct5-funct5_of InstrType.amoswap_w = refl
type_of_funct5-funct5_of InstrType.amoadd_w = refl
type_of_funct5-funct5_of InstrType.amoxor_w = refl
type_of_funct5-funct5_of InstrType.amoand_w = refl
type_of_funct5-funct5_of InstrType.amoor_w = refl
type_of_funct5-funct5_of InstrType.amomin_w = refl
type_of_funct5-funct5_of InstrType.amomax_w = refl
type_of_funct5-funct5_of InstrType.amominu_w = refl
type_of_funct5-funct5_of InstrType.amomaxu_w = refl
type_of_funct5-funct5_of InstrType.illegal = refl

funct5_of-type_of_funct5 :
    (f5 : ℕ) → (funct5_of (type_of_funct5 f5) ≡ f5) ⊎ (type_of_funct5 f5 ≡ InstrType.illegal)
unfolding type_of_funct5
funct5_of-type_of_funct5 f5 = ground arith

is_lr-funct5 : (f5 : ℕ) → is_lr (type_of_funct5 f5) ≡ true → f5 ≡ 0b00010
unfolding type_of_funct5
is_lr-funct5 f5 h = ground arith

unnamed :
    (f5 : ℕ) → f5 < 32 → type_of_funct5 f5 ≡ InstrType.illegal → (u : InstrType) → funct5_of u ≢ f5
unnamed f5 lt h u e =
    let same : u ≡ InstrType.illegal = sym (type_of_funct5-funct5_of u) ∙ ap type_of_funct5 e ∙ h in
    let high : 32 ≡ f5 = sym (ap funct5_of same) ∙ e in absurd (omega arith)

type-IsNamed :
    (f5 rs2 : ℕ)
    → f5 < 32
    → IsNamed
        (if is_lr (type_of_funct5 f5) && rs2 % 32 != 0
          then InstrType.illegal
          else type_of_funct5 f5)
        f5
        rs2
type-IsNamed f5 rs2 lt =
    if_cases (λ t. IsNamed t f5 rs2) (is_lr (type_of_funct5 f5) && rs2 % 32 != 0) InstrType.illegal
      (type_of_funct5 f5) (λ y. inr (refl, inl (is_lr-funct5 f5 (ground arith), ground arith)))
      (λ n. elim (funct5_of-type_of_funct5 f5) [
        | inl e ↦ inl e
        | inr e ↦ inr (e, inr (unnamed f5 lt e))
      ])

-- What the decoder finds in a word of these fields.
abbrev pub IsRead : ℕ → ℕ → Bool → Bool → ℕ → ℕ → ℕ → Type 0
IsRead w f5 aq rl rs2 rs1 rd =
    ((decode w).type ≡ (
      if is_lr (type_of_funct5 f5) && rs2 % 32 != 0 then InstrType.illegal else type_of_funct5 f5))
    × ((decode w).rd ≡ rd % 32)
    × ((decode w).rs1 ≡ rs1 % 32)
    × ((decode w).rs2 ≡ rs2 % 32)
    × ((decode w).aq ≡ aq)
    × ((decode w).rl ≡ rl)
    × (is_atomic_instruction w ≡ true)

-- The same, with the type named by its own value of `funct5`.
abbrev pub IsDecoded : ℕ → ℕ → Bool → Bool → ℕ → ℕ → ℕ → Type 0
IsDecoded w f5 aq rl rs2 rs1 rd = IsRead w f5 aq rl rs2 rs1 rd × IsNamed (decode w).type f5 rs2

amo_instr-Fields :
    (f5 rs2 rs1 rd : ℕ) (aq rl : Bool)
    → f5 < 32
    → Fields
        (amo_instr f5 aq rl rs2 rs1 rd)
        0b0101111
        (rd % 32)
        2
        (rs1 % 32)
        (rs2 % 32)
        (high f5 aq rl)
amo_instr-Fields f5 rs2 rs1 rd aq rl h = rw (amo_instr-sum f5 rs2 rs1 rd aq rl h) (
    sum-Fields 0b0101111 (rd % 32) 2 (rs1 % 32) (rs2 % 32) (high f5 aq rl) (omega arith)
      (omega arith) (omega arith) (omega arith) (omega arith) (ground arith))

bits-high :
    (w f5 : ℕ) (aq rl : Bool)
    → f5 < 32
    → bits w 31 25 ≡ high f5 aq rl
    → (bits w 31 27 ≡ f5) × (bit_and (shr32 w 26) 1 ≡ flag aq) × (bit_and (shr32 w 25) 1 ≡ flag rl)
bits-high w f5 aq rl h e =
    let whole : w / 2 ^ 25 % 2 ^ 7 ≡ f5 * 4 + flag aq * 2 + flag rl =
      omega (arith, bits_lem w 31 25 (omega arith)) in
    (
      ground (arith, bits_lem w 31 27 (omega arith), whole),
      ground (arith, bit_and_mask 1 (w / 2 ^ 26), whole),
      ground (arith, bit_and_mask 1 (w / 2 ^ 25), whole),
    )

decode-Fields :
    (w f5 rs2 rs1 rd : ℕ) (aq rl : Bool)
    → Fields w 0b0101111 (rd % 32) 2 (rs1 % 32) (rs2 % 32) (high f5 aq rl)
    → bits w 31 27 ≡ f5
    → bit_and (shr32 w 26) 1 ≡ flag aq
    → bit_and (shr32 w 25) 1 ≡ flag rl
    → IsRead w f5 aq rl rs2 rs1 rd
unfolding decode is_atomic_instruction
decode-Fields w f5 rs2 rs1 rd aq rl h p q r = ground arith

-- An encoded atomic instruction is claimed by `is_atomic_instruction` and decodes to the type whose `funct5`
-- it has, with its operands and its ordering bits; a `funct5` of no type, and an LR.W with a source register
-- other than x0, decode to an illegal instruction.
pub decode-amo_instr :
    (f5 rs2 rs1 rd : ℕ) (aq rl : Bool)
    → f5 < 32
    → IsDecoded (amo_instr f5 aq rl rs2 rs1 rd) f5 aq rl rs2 rs1 rd
decode-amo_instr f5 rs2 rs1 rd aq rl h =
    let w : ℕ = amo_instr f5 aq rl rs2 rs1 rd in
    let fields = amo_instr-Fields f5 rs2 rs1 rd aq rl h in
    let (p, q, r) = bits-high w f5 aq rl h fields.at_funct7 in
    let read = decode-Fields w f5 rs2 rs1 rd aq rl fields p q r in
    (read, rw (read.0) (type-IsNamed f5 rs2 h))
