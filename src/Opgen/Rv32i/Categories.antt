-- ===== src/Opgen/Rv32i/Categories.antt =====
-- riscv_rv32i_opgen.hpp: the generators of a category of instructions.
use rv32_complete_v.Opgen.Source.{Source, Loop}
use rv32_complete_v.Opgen.Generator as Class
use rv32_complete_v.Opgen.Rv32i.{InstrType, code, count, generators}
use rv32_complete_v.Prelude.{ℕ, List, [], ◌∷◌}

module _ {G : Type 0} (rng : Source G) where
  abbrev pub no_control_flow_types : List ℕ
  unfolding code
  no_control_flow_types =
      code InstrType.lui
      ∷ code InstrType.auipc
      ∷ code InstrType.lb
      ∷ code InstrType.lh
      ∷ code InstrType.lw
      ∷ code InstrType.lbu
      ∷ code InstrType.lhu
      ∷ code InstrType.sb
      ∷ code InstrType.sh
      ∷ code InstrType.sw
      ∷ code InstrType.addi
      ∷ code InstrType.slti
      ∷ code InstrType.sltiu
      ∷ code InstrType.xori
      ∷ code InstrType.ori
      ∷ code InstrType.andi
      ∷ code InstrType.slli
      ∷ code InstrType.srli
      ∷ code InstrType.srai
      ∷ code InstrType.add
      ∷ code InstrType.sub
      ∷ code InstrType.sll
      ∷ code InstrType.slt
      ∷ code InstrType.sltu
      ∷ code InstrType.xor
      ∷ code InstrType.srl
      ∷ code InstrType.sra
      ∷ code InstrType.or
      ∷ code InstrType.and
      ∷ code InstrType.fence
      ∷ []

  unfoldable pub generate_no_control_flow : ℕ → ℕ → Loop G ℕ
  unfolding generators code Class.generate_picked
  generate_no_control_flow fuel enabled =
      Class.generate_picked rng (generators rng) count fuel enabled no_control_flow_types 29

  abbrev pub alu_types : List ℕ
  unfolding code
  alu_types =
      code InstrType.addi
      ∷ code InstrType.slti
      ∷ code InstrType.sltiu
      ∷ code InstrType.xori
      ∷ code InstrType.ori
      ∷ code InstrType.andi
      ∷ code InstrType.slli
      ∷ code InstrType.srli
      ∷ code InstrType.srai
      ∷ code InstrType.add
      ∷ code InstrType.sub
      ∷ code InstrType.sll
      ∷ code InstrType.slt
      ∷ code InstrType.sltu
      ∷ code InstrType.xor
      ∷ code InstrType.srl
      ∷ code InstrType.sra
      ∷ code InstrType.or
      ∷ code InstrType.and
      ∷ []

  unfoldable pub generate_alu : ℕ → ℕ → Loop G ℕ
  unfolding generators code Class.generate_picked
  generate_alu fuel enabled =
      Class.generate_picked rng (generators rng) count fuel enabled alu_types 18

  abbrev pub memory_types : List ℕ
  unfolding code
  memory_types =
      code InstrType.lb
      ∷ code InstrType.lh
      ∷ code InstrType.lw
      ∷ code InstrType.lbu
      ∷ code InstrType.lhu
      ∷ code InstrType.sb
      ∷ code InstrType.sh
      ∷ code InstrType.sw
      ∷ []

  unfoldable pub generate_memory : ℕ → ℕ → Loop G ℕ
  unfolding generators code Class.generate_picked
  generate_memory fuel enabled =
      Class.generate_picked rng (generators rng) count fuel enabled memory_types 7

  abbrev pub branch_types : List ℕ
  unfolding code
  branch_types =
      code InstrType.beq
      ∷ code InstrType.bne
      ∷ code InstrType.blt
      ∷ code InstrType.bge
      ∷ code InstrType.bltu
      ∷ code InstrType.bgeu
      ∷ []

  unfoldable pub generate_branch : ℕ → ℕ → Loop G ℕ
  unfolding generators code Class.generate_picked
  generate_branch fuel enabled =
      Class.generate_picked rng (generators rng) count fuel enabled branch_types 5
