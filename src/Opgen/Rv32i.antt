-- ===== src/Opgen/Rv32i.antt =====
-- riscv_rv32i_opgen.hpp: the class `OpcodeGenerator`. `fuel` bounds the rounds of a rejection loop.
use rv32_complete_v.Opgen.Source.{
  Source, Gen, Loop, ◌>>=◌, pure, reg, shamt, imm12, imm20_upper, branch_offset, jal_offset, choice,
  entry, or_zero,
}
use rv32_complete_v.Opgen.Encode.{
  encode_r_type, encode_i_type, encode_s_type, encode_b_type, encode_u_type, encode_j_type,
}
use rv32_complete_v.Opgen.Generator as Class
use rv32_complete_v.Opgen.Rv32iGens.{
  gen_lui, gen_auipc, gen_jal, gen_jalr, gen_beq, gen_bne, gen_blt, gen_bge, gen_bltu, gen_bgeu,
  gen_lb, gen_lh, gen_lw, gen_lbu, gen_lhu, gen_sb, gen_sh, gen_sw, gen_addi, gen_slti, gen_sltiu,
  gen_xori, gen_ori, gen_andi, gen_slli, gen_srli, gen_srai, gen_add, gen_sub, gen_sll, gen_slt,
  gen_sltu, gen_xor, gen_srl, gen_sra, gen_or, gen_and, gen_fence, gen_ecall, gen_ebreak,
}
use rv32_complete_v.Rv32i.Types as Target
use rv32_complete_v.Prelude.{
  ℕ, List, [], ◌∷◌, bit_or, bit_and, shl32, shr32, if◌then◌else◌, ◌==◌, ◌!=◌, ◌||◌, Bool, true,
  false, ltb, ◌+◌, ◌-◌,
}
pub mod Decoding
pub mod Categories

pub data InstrType : Type 0 where
  lui auipc jal jalr beq bne blt bge : InstrType
  bltu bgeu lb lh lw lbu lhu sb : InstrType
  sh sw addi slti sltiu xori ori andi : InstrType
  slli srli srai add sub sll slt sltu : InstrType
  xor srl sra or and fence ecall ebreak : InstrType

-- The value of an enumerator, and how many there are.
unfoldable pub code : InstrType → ℕ
code InstrType.lui = 0
code InstrType.auipc = 1
code InstrType.jal = 2
code InstrType.jalr = 3
code InstrType.beq = 4
code InstrType.bne = 5
code InstrType.blt = 6
code InstrType.bge = 7
code InstrType.bltu = 8
code InstrType.bgeu = 9
code InstrType.lb = 10
code InstrType.lh = 11
code InstrType.lw = 12
code InstrType.lbu = 13
code InstrType.lhu = 14
code InstrType.sb = 15
code InstrType.sh = 16
code InstrType.sw = 17
code InstrType.addi = 18
code InstrType.slti = 19
code InstrType.sltiu = 20
code InstrType.xori = 21
code InstrType.ori = 22
code InstrType.andi = 23
code InstrType.slli = 24
code InstrType.srli = 25
code InstrType.srai = 26
code InstrType.add = 27
code InstrType.sub = 28
code InstrType.sll = 29
code InstrType.slt = 30
code InstrType.sltu = 31
code InstrType.xor = 32
code InstrType.srl = 33
code InstrType.sra = 34
code InstrType.or = 35
code InstrType.and = 36
code InstrType.fence = 37
code InstrType.ecall = 38
code InstrType.ebreak = 39

abbrev pub count : ℕ
count = 40

-- The type with a given value.
abbrev pub of_code : ℕ → InstrType
of_code n =
    if n == 0
    then InstrType.lui
    else if n == 1
    then InstrType.auipc
    else if n == 2
    then InstrType.jal
    else if n == 3
    then InstrType.jalr
    else if n == 4
    then InstrType.beq
    else if n == 5
    then InstrType.bne
    else if n == 6
    then InstrType.blt
    else if n == 7
    then InstrType.bge
    else if n == 8
    then InstrType.bltu
    else if n == 9
    then InstrType.bgeu
    else if n == 10
    then InstrType.lb
    else if n == 11
    then InstrType.lh
    else if n == 12
    then InstrType.lw
    else if n == 13
    then InstrType.lbu
    else if n == 14
    then InstrType.lhu
    else if n == 15
    then InstrType.sb
    else if n == 16
    then InstrType.sh
    else if n == 17
    then InstrType.sw
    else if n == 18
    then InstrType.addi
    else if n == 19
    then InstrType.slti
    else if n == 20
    then InstrType.sltiu
    else if n == 21
    then InstrType.xori
    else if n == 22
    then InstrType.ori
    else if n == 23
    then InstrType.andi
    else if n == 24
    then InstrType.slli
    else if n == 25
    then InstrType.srli
    else if n == 26
    then InstrType.srai
    else if n == 27
    then InstrType.add
    else if n == 28
    then InstrType.sub
    else if n == 29
    then InstrType.sll
    else if n == 30
    then InstrType.slt
    else if n == 31
    then InstrType.sltu
    else if n == 32
    then InstrType.xor
    else if n == 33
    then InstrType.srl
    else if n == 34
    then InstrType.sra
    else if n == 35
    then InstrType.or
    else if n == 36
    then InstrType.and
    else if n == 37
    then InstrType.fence
    else if n == 38
    then InstrType.ecall
    else InstrType.ebreak

-- The same type of riscv_rv32i.hpp.
abbrev pub decoded : InstrType → Target.InstrType
decoded InstrType.lui = Target.InstrType.lui
decoded InstrType.auipc = Target.InstrType.auipc
decoded InstrType.jal = Target.InstrType.jal
decoded InstrType.jalr = Target.InstrType.jalr
decoded InstrType.beq = Target.InstrType.beq
decoded InstrType.bne = Target.InstrType.bne
decoded InstrType.blt = Target.InstrType.blt
decoded InstrType.bge = Target.InstrType.bge
decoded InstrType.bltu = Target.InstrType.bltu
decoded InstrType.bgeu = Target.InstrType.bgeu
decoded InstrType.lb = Target.InstrType.lb
decoded InstrType.lh = Target.InstrType.lh
decoded InstrType.lw = Target.InstrType.lw
decoded InstrType.lbu = Target.InstrType.lbu
decoded InstrType.lhu = Target.InstrType.lhu
decoded InstrType.sb = Target.InstrType.sb
decoded InstrType.sh = Target.InstrType.sh
decoded InstrType.sw = Target.InstrType.sw
decoded InstrType.addi = Target.InstrType.addi
decoded InstrType.slti = Target.InstrType.slti
decoded InstrType.sltiu = Target.InstrType.sltiu
decoded InstrType.xori = Target.InstrType.xori
decoded InstrType.ori = Target.InstrType.ori
decoded InstrType.andi = Target.InstrType.andi
decoded InstrType.slli = Target.InstrType.slli
decoded InstrType.srli = Target.InstrType.srli
decoded InstrType.srai = Target.InstrType.srai
decoded InstrType.add = Target.InstrType.add
decoded InstrType.sub = Target.InstrType.sub
decoded InstrType.sll = Target.InstrType.sll
decoded InstrType.slt = Target.InstrType.slt
decoded InstrType.sltu = Target.InstrType.sltu
decoded InstrType.xor = Target.InstrType.xor
decoded InstrType.srl = Target.InstrType.srl
decoded InstrType.sra = Target.InstrType.sra
decoded InstrType.or = Target.InstrType.or
decoded InstrType.and = Target.InstrType.and
decoded InstrType.fence = Target.InstrType.fence
decoded InstrType.ecall = Target.InstrType.ecall
decoded InstrType.ebreak = Target.InstrType.ebreak

module _ {G : Type 0} (rng : Source G) where
  unfoldable pub generators : List (Gen G ℕ)
  unfolding gen_lui gen_auipc gen_jal gen_jalr gen_beq gen_bne gen_blt gen_bge gen_bltu gen_bgeu
      gen_lb gen_lh gen_lw gen_lbu gen_lhu gen_sb gen_sh gen_sw gen_addi gen_slti gen_sltiu gen_xori
      gen_ori gen_andi gen_slli gen_srli gen_srai gen_add gen_sub gen_sll gen_slt gen_sltu gen_xor
      gen_srl gen_sra gen_or gen_and gen_fence gen_ecall gen_ebreak
  generators =
      gen_lui rng
      ∷ gen_auipc rng
      ∷ gen_jal rng
      ∷ gen_jalr rng
      ∷ gen_beq rng
      ∷ gen_bne rng
      ∷ gen_blt rng
      ∷ gen_bge rng
      ∷ gen_bltu rng
      ∷ gen_bgeu rng
      ∷ gen_lb rng
      ∷ gen_lh rng
      ∷ gen_lw rng
      ∷ gen_lbu rng
      ∷ gen_lhu rng
      ∷ gen_sb rng
      ∷ gen_sh rng
      ∷ gen_sw rng
      ∷ gen_addi rng
      ∷ gen_slti rng
      ∷ gen_sltiu rng
      ∷ gen_xori rng
      ∷ gen_ori rng
      ∷ gen_andi rng
      ∷ gen_slli rng
      ∷ gen_srli rng
      ∷ gen_srai rng
      ∷ gen_add rng
      ∷ gen_sub rng
      ∷ gen_sll rng
      ∷ gen_slt rng
      ∷ gen_sltu rng
      ∷ gen_xor rng
      ∷ gen_srl rng
      ∷ gen_sra rng
      ∷ gen_or rng
      ∷ gen_and rng
      ∷ gen_fence rng
      ∷ gen_ecall rng
      ∷ gen_ebreak rng
      ∷ []

  unfoldable pub generate : InstrType → Loop G ℕ
  unfolding generators code Class.run_entry
  generate t = Class.run_entry rng generators (code t)

  unfoldable pub generate_random : ℕ → ℕ → Loop G ℕ
  unfolding generators Class.generate_random
  generate_random = Class.generate_random rng generators count

  unfoldable pub generate_sequence : ℕ → ℕ → ℕ → Loop G (List ℕ)
  unfolding generators Class.generate_sequence
  generate_sequence = Class.generate_sequence rng generators count
