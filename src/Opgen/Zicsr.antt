-- ===== src/Opgen/Zicsr.antt =====
-- riscv_zicsr_opgen.hpp: the class `OpcodeGenerator`. `fuel` bounds the rounds of a rejection loop.
use rv32_complete_v.Opgen.Source.{
  Source, Gen, Loop, ◌>>=◌, pure, reg, shamt, imm12, imm20_upper, branch_offset, jal_offset, choice,
  entry, or_zero,
}
use rv32_complete_v.Opgen.Encode.{
  encode_r_type, encode_i_type, encode_s_type, encode_b_type, encode_u_type, encode_j_type,
}
use rv32_complete_v.Opgen.Generator as Class
use rv32_complete_v.Zicsr.Execute as Target
use rv32_complete_v.Prelude.{
  ℕ, List, [], ◌∷◌, bit_or, bit_and, shl32, shr32, if◌then◌else◌, ◌==◌, ◌!=◌, ◌||◌, Bool, true,
  false, ltb, ◌+◌, ◌-◌,
}
pub mod Decoding

pub data InstrType : Type 0 where
  csrrw csrrs csrrc csrrwi csrrsi csrrci : InstrType

-- The value of an enumerator, and how many there are.
unfoldable pub code : InstrType → ℕ
code InstrType.csrrw = 0
code InstrType.csrrs = 1
code InstrType.csrrc = 2
code InstrType.csrrwi = 3
code InstrType.csrrsi = 4
code InstrType.csrrci = 5

abbrev pub count : ℕ
count = 6

-- The type with a given value.
abbrev pub of_code : ℕ → InstrType
of_code n =
    if n == 0
    then InstrType.csrrw
    else if n == 1
    then InstrType.csrrs
    else if n == 2
    then InstrType.csrrc
    else if n == 3
    then InstrType.csrrwi
    else if n == 4
    then InstrType.csrrsi
    else InstrType.csrrci

-- The same type of riscv_zicsr.hpp.
abbrev pub decoded : InstrType → Target.CsrInstrType
decoded InstrType.csrrw = Target.CsrInstrType.csrrw
decoded InstrType.csrrs = Target.CsrInstrType.csrrs
decoded InstrType.csrrc = Target.CsrInstrType.csrrc
decoded InstrType.csrrwi = Target.CsrInstrType.csrrwi
decoded InstrType.csrrsi = Target.CsrInstrType.csrrsi
decoded InstrType.csrrci = Target.CsrInstrType.csrrci

-- `encode_csr`.
unfoldable pub encode_csr : ℕ → ℕ → ℕ → ℕ → ℕ
encode_csr csr rs1_or_uimm funct3 rd =
    bit_or
      (bit_or
        (bit_or (bit_or (shl32 (bit_and csr 0xfff) 20) (shl32 (bit_and rs1_or_uimm 0x1f) 15))
          (shl32 (bit_and funct3 0x7) 12))
        (shl32 (bit_and rd 0x1f) 7))
      0b1110011

-- The pools of register numbers.
abbrev pub wr_base : List ℕ
wr_base =
    0x001 ∷ 0x002 ∷ 0x003 ∷ 0x300 ∷ 0x304 ∷ 0x305 ∷ 0x306 ∷ 0x310 ∷ 0x30a ∷ 0x31a ∷ 0x340 ∷ 0x341
    ∷ 0x342 ∷ 0x343 ∷ 0x344 ∷ 0xb00 ∷ 0xb02 ∷ 0xb80 ∷ 0xb82 ∷ []

abbrev pub wr_deleg : List ℕ
wr_deleg = 0x302 ∷ 0x303 ∷ []

abbrev pub wr_smode : List ℕ
wr_smode = 0x100 ∷ 0x104 ∷ 0x105 ∷ 0x106 ∷ 0x140 ∷ 0x141 ∷ 0x142 ∷ 0x143 ∷ 0x144 ∷ 0x180 ∷ []

abbrev pub ro_pool : List ℕ
ro_pool =
    0xc00 ∷ 0xc01 ∷ 0xc02 ∷ 0xc80 ∷ 0xc81 ∷ 0xc82 ∷ 0xf11 ∷ 0xf12 ∷ 0xf13 ∷ 0xf14 ∷ 0xf15 ∷ 0x301
    ∷ []

-- `s_mode` and `u_mode` are the flags of the class `RNG`.
module _ {G : Type 0} (rng : Source G) (s_mode u_mode : Bool) where
  abbrev pub n_deleg : ℕ
  n_deleg = if s_mode || u_mode then 2 else 0

  abbrev pub n_smode : ℕ
  n_smode = if s_mode then 10 else 0

  -- The register at an index below the sizes of the pools in use; there are 19 in `wr_base`.
  unfoldable pub writable_at : ℕ → ℕ
  unfolding entry
  writable_at idx =
      if ltb idx 19
      then or_zero (entry wr_base idx)
      else if ltb (idx - 19) n_deleg
      then or_zero (entry wr_deleg (idx - 19))
      else or_zero (entry wr_smode (idx - 19 - n_deleg))

  unfoldable pub writable_csr : Gen G ℕ
  unfolding writable_at
  writable_csr = do pure (writable_at (← rng.uniform 0 (19 + n_deleg + n_smode - 1)))

  unfoldable pub readonly_csr : Gen G ℕ
  unfolding choice
  readonly_csr = choice rng ro_pool 11

  unfoldable pub csr : Gen G ℕ
  unfolding writable_csr readonly_csr
  csr = do writable ← rng.chance 80; if writable then writable_csr else readonly_csr

  abbrev uimm5 : Source G → Gen G ℕ
  uimm5 r = r.uniform 0 31

  unfoldable pub gen_csrrw : Gen G ℕ
  gen_csrrw = do pure (encode_csr (← writable_csr) (← reg rng) 0b001 (← reg rng))

  unfoldable pub gen_csrrs : Gen G ℕ
  gen_csrrs = do
    zeroed ← rng.chance 30
    rs1 ← if zeroed then pure 0 else reg rng
    target ← if rs1 == 0 then csr else writable_csr
    pure (encode_csr target rs1 0b010 (← reg rng))

  unfoldable pub gen_csrrc : Gen G ℕ
  gen_csrrc = do
    zeroed ← rng.chance 30
    rs1 ← if zeroed then pure 0 else reg rng
    target ← if rs1 == 0 then csr else writable_csr
    pure (encode_csr target rs1 0b011 (← reg rng))

  unfoldable pub gen_csrrwi : Gen G ℕ
  gen_csrrwi = do pure (encode_csr (← writable_csr) (← uimm5 rng) 0b101 (← reg rng))

  unfoldable pub gen_csrrsi : Gen G ℕ
  gen_csrrsi = do
    zeroed ← rng.chance 30
    uimm ← if zeroed then pure 0 else uimm5 rng
    target ← if uimm == 0 then csr else writable_csr
    pure (encode_csr target uimm 0b110 (← reg rng))

  unfoldable pub gen_csrrci : Gen G ℕ
  gen_csrrci = do
    zeroed ← rng.chance 30
    uimm ← if zeroed then pure 0 else uimm5 rng
    target ← if uimm == 0 then csr else writable_csr
    pure (encode_csr target uimm 0b111 (← reg rng))

  unfoldable pub generators : List (Gen G ℕ)
  unfolding gen_csrrw gen_csrrs gen_csrrc gen_csrrwi gen_csrrsi gen_csrrci
  generators = gen_csrrw ∷ gen_csrrs ∷ gen_csrrc ∷ gen_csrrwi ∷ gen_csrrsi ∷ gen_csrrci ∷ []

  unfoldable pub generate : InstrType → Loop G ℕ
  unfolding generators code Class.run_entry
  generate t = Class.run_entry rng generators (code t)

  unfoldable pub generate_random : ℕ → ℕ → Loop G ℕ
  unfolding generators Class.generate_random
  generate_random = Class.generate_random rng generators count

  unfoldable pub generate_sequence : ℕ → ℕ → ℕ → Loop G (List ℕ)
  unfolding generators Class.generate_sequence
  generate_sequence = Class.generate_sequence rng generators count
