-- ===== src/Opgen/Rv32i/Decoding.antt =====
-- riscv_rv32i_opgen.hpp: what the decoder of riscv_rv32i.hpp makes of the generated words.
use rv32_complete_v.Common.Fields.{bits}
use rv32_complete_v.Common.Encode.{Fields}
use rv32_complete_v.Opgen.Source.{Source, IsInRange, Yields, entry, shamt, shamt_lt}
use rv32_complete_v.Opgen.Shapes.{
  encode_r_type-Fields, encode_i_type-Fields, encode_s_type-Fields, encode_b_type-Fields,
  encode_u_type-op, encode_j_type-op,
}
use rv32_complete_v.Opgen.Generator as Class
use rv32_complete_v.Opgen.Generator.{all_types, selects, legalized}
use rv32_complete_v.Opgen.Random.{reaches, generate_random-types, IsEnabledWord}
use rv32_complete_v.Rv32i.Decode as Target
use rv32_complete_v.Rv32i.Types as Types
use rv32_complete_v.Opgen.Rv32i.{
  InstrType, code, of_code, count, decoded, generators, generate, generate_random,
}
use rv32_complete_v.Opgen.Rv32iGens.{
  gen_lui, gen_auipc, gen_jal, gen_jalr, gen_beq, gen_bne, gen_blt, gen_bge, gen_bltu, gen_bgeu,
  gen_lb, gen_lh, gen_lw, gen_lbu, gen_lhu, gen_sb, gen_sh, gen_sw, gen_addi, gen_slti, gen_sltiu,
  gen_xori, gen_ori, gen_andi, gen_slli, gen_srli, gen_srai, gen_add, gen_sub, gen_sll, gen_slt,
  gen_sltu, gen_xor, gen_srl, gen_sra, gen_or, gen_and, gen_fence, gen_ecall, gen_ebreak,
}
use rv32_complete_v.Prelude.{
  ℕ, ◌+◌, ◌-◌, ◌/◌, ◌%◌, ◌<◌, bit_or, ◌≡◌, refl, Bool, true, ◌||◌, arith, ◌==◌, table,
}

lui_fields :
    (s : Bool) (w : ℕ)
    → bits w 6 0 ≡ 0b0110111 % 128
    → (Target.decode s w).type ≡ Types.InstrType.lui
unfolding Target.decode Target.decode_opcode Target.fields
lui_fields s w h = ground arith

auipc_fields :
    (s : Bool) (w : ℕ)
    → bits w 6 0 ≡ 0b0010111 % 128
    → (Target.decode s w).type ≡ Types.InstrType.auipc
unfolding Target.decode Target.decode_opcode Target.fields
auipc_fields s w h = ground arith

jal_fields :
    (s : Bool) (w : ℕ)
    → bits w 6 0 ≡ 0b1101111 % 128
    → (Target.decode s w).type ≡ Types.InstrType.jal
unfolding Target.decode Target.decode_opcode Target.fields
jal_fields s w h = ground arith

jalr-Fields :
    (s : Bool) (w : ℕ) {rd rs1 rs2 f7 : ℕ}
    → Fields w (0b1100111 % 128) rd (0b000 % 8) rs1 rs2 f7
    → (Target.decode s w).type ≡ Types.InstrType.jalr
unfolding Target.decode Target.decode_opcode Target.fields
jalr-Fields s w h = ground arith

branch_decoded :
    (s : Bool) (w : ℕ) {rd f3 rs1 rs2 f7 : ℕ}
    → Fields w (0b1100011 % 128) rd f3 rs1 rs2 f7
    → (Target.decode s w).type
      ≡ (Target.decode_branch (record (Target.fields w) { funct3 = f3; funct7 = f7 })).type
unfolding Target.decode Target.decode_opcode Target.fields Target.decode_branch
branch_decoded s w h = ground arith

load_decoded :
    (s : Bool) (w : ℕ) {rd f3 rs1 rs2 f7 : ℕ}
    → Fields w (0b0000011 % 128) rd f3 rs1 rs2 f7
    → (Target.decode s w).type
      ≡ (Target.decode_load (record (Target.fields w) { funct3 = f3; funct7 = f7 })).type
unfolding Target.decode Target.decode_opcode Target.fields Target.decode_load
load_decoded s w h = ground arith

store_decoded :
    (s : Bool) (w : ℕ) {rd f3 rs1 rs2 f7 : ℕ}
    → Fields w (0b0100011 % 128) rd f3 rs1 rs2 f7
    → (Target.decode s w).type
      ≡ (Target.decode_store (record (Target.fields w) { funct3 = f3; funct7 = f7 })).type
unfolding Target.decode Target.decode_opcode Target.fields Target.decode_store
store_decoded s w h = ground arith

op_imm_decoded :
    (s : Bool) (w : ℕ) {rd f3 rs1 rs2 f7 : ℕ}
    → Fields w (0b0010011 % 128) rd f3 rs1 rs2 f7
    → (Target.decode s w).type
      ≡ (Target.decode_op_imm (record (Target.fields w) { funct3 = f3; funct7 = f7 })).type
unfolding Target.decode Target.decode_opcode Target.fields Target.decode_op_imm
op_imm_decoded s w h = ground arith

slli-Fields :
    (s : Bool) (w amount : ℕ) {rd rs1 : ℕ}
    → amount < 32
    → Fields w (0b0010011 % 128) rd (0b001 % 8) rs1 (amount % 32) (amount % 4096 / 32)
    → (Target.decode s w).type ≡ Types.InstrType.slli
unfolding Target.decode Target.decode_opcode Target.fields Target.decode_op_imm
slli-Fields s w amount lt h = ground (arith)

srli-Fields :
    (s : Bool) (w amount : ℕ) {rd rs1 : ℕ}
    → amount < 32
    → Fields w (0b0010011 % 128) rd (0b101 % 8) rs1 (amount % 32) (amount % 4096 / 32)
    → (Target.decode s w).type ≡ Types.InstrType.srli
unfolding Target.decode Target.decode_opcode Target.fields Target.decode_op_imm
srli-Fields s w amount lt h = ground (arith)

srai_imm : (x : ℕ) → x < 32 → bit_or x 0x400 ≡ x + 0x400
srai_imm = table 32 (λ x. bit_or x 0x400) (λ x. x + 0x400) refl

srai-Fields :
    (s : Bool) (w amount : ℕ) {rd rs1 : ℕ}
    → amount < 32
    → Fields w
        (0b0010011 % 128)
        rd
        (0b101 % 8)
        rs1
        ((bit_or amount 0x400) % 32)
        ((bit_or amount 0x400) % 4096 / 32)
    → (Target.decode s w).type ≡ Types.InstrType.srai
unfolding Target.decode Target.decode_opcode Target.fields Target.decode_op_imm
srai-Fields s w amount lt h = ground (arith, srai_imm amount lt)

op_decoded :
    (s : Bool) (w : ℕ) {rd f3 rs1 rs2 f7 : ℕ}
    → Fields w (0b0110011 % 128) rd f3 rs1 rs2 f7
    → (Target.decode s w).type
      ≡ (Target.decode_op (record (Target.fields w) { funct3 = f3; funct7 = f7 })).type
unfolding Target.decode Target.decode_opcode Target.fields Target.decode_op
op_decoded s w h = ground arith

fence-Fields :
    (s : Bool) (w : ℕ) {rd rs1 rs2 f7 : ℕ}
    → Fields w (0b0001111 % 128) rd (0b000 % 8) rs1 rs2 f7
    → (Target.decode s w).type ≡ Types.InstrType.fence
unfolding Target.decode Target.decode_opcode Target.fields Target.decode_fence
fence-Fields s w h = ground arith

ecall_word : (s : Bool) → (Target.decode s 0x0000_0073).type ≡ Types.InstrType.ecall
unfolding Target.decode Target.decode_opcode Target.fields Target.decode_system
ecall_word s = refl

ebreak_word : (s : Bool) → (Target.decode s 0x0010_0073).type ≡ Types.InstrType.ebreak
unfolding Target.decode Target.decode_opcode Target.fields Target.decode_system
ebreak_word s = refl

-- A word of the type.
abbrev pub IsDecoded : Bool → InstrType → ℕ → Type 0
IsDecoded s t w = (Target.decode s w).type ≡ decoded t

module _ {G : Type 0} (rng : Source G) where
  -- The word that `generate` makes for a type decodes to this type, if the draws lie between their bounds.
  pub generate-decode :
      (contract : IsInRange rng) (s : Bool) (t : InstrType) (g : G)
      → Yields (IsDecoded s t) (generate rng t g)
  unfolding generate generators code Class.run_entry entry gen_lui gen_auipc gen_jal gen_jalr
      gen_beq gen_bne gen_blt gen_bge gen_bltu gen_bgeu gen_lb gen_lh gen_lw gen_lbu gen_lhu gen_sb
      gen_sh gen_sw gen_addi gen_slti gen_sltiu gen_xori gen_ori gen_andi gen_slli gen_srli gen_srai
      gen_add gen_sub gen_sll gen_slt gen_sltu gen_xor gen_srl gen_sra gen_or gen_and gen_fence
      gen_ecall gen_ebreak Target.decode_branch Target.decode_load Target.decode_store
      Target.decode_op_imm Target.decode_op Target.fields
  generate-decode contract s InstrType.lui g = lui_fields s _ (encode_u_type-op _ _ 0b0110111)
  generate-decode contract s InstrType.auipc g = auipc_fields s _ (encode_u_type-op _ _ 0b0010111)
  generate-decode contract s InstrType.jal g = jal_fields s _ (encode_j_type-op _ _ 0b1101111)
  generate-decode contract s InstrType.jalr g = jalr-Fields s _ (encode_i_type-Fields _ _ _ _ _)
  generate-decode contract s InstrType.beq g =
      branch_decoded s _ (encode_b_type-Fields _ _ _ 0b000 0b1100011)
  generate-decode contract s InstrType.bne g =
      branch_decoded s _ (encode_b_type-Fields _ _ _ 0b001 0b1100011)
  generate-decode contract s InstrType.blt g =
      branch_decoded s _ (encode_b_type-Fields _ _ _ 0b100 0b1100011)
  generate-decode contract s InstrType.bge g =
      branch_decoded s _ (encode_b_type-Fields _ _ _ 0b101 0b1100011)
  generate-decode contract s InstrType.bltu g =
      branch_decoded s _ (encode_b_type-Fields _ _ _ 0b110 0b1100011)
  generate-decode contract s InstrType.bgeu g =
      branch_decoded s _ (encode_b_type-Fields _ _ _ 0b111 0b1100011)
  generate-decode contract s InstrType.lb g =
      load_decoded s _ (encode_i_type-Fields _ _ 0b000 _ 0b0000011)
  generate-decode contract s InstrType.lh g =
      load_decoded s _ (encode_i_type-Fields _ _ 0b001 _ 0b0000011)
  generate-decode contract s InstrType.lw g =
      load_decoded s _ (encode_i_type-Fields _ _ 0b010 _ 0b0000011)
  generate-decode contract s InstrType.lbu g =
      load_decoded s _ (encode_i_type-Fields _ _ 0b100 _ 0b0000011)
  generate-decode contract s InstrType.lhu g =
      load_decoded s _ (encode_i_type-Fields _ _ 0b101 _ 0b0000011)
  generate-decode contract s InstrType.sb g =
      store_decoded s _ (encode_s_type-Fields _ _ _ 0b000 0b0100011)
  generate-decode contract s InstrType.sh g =
      store_decoded s _ (encode_s_type-Fields _ _ _ 0b001 0b0100011)
  generate-decode contract s InstrType.sw g =
      store_decoded s _ (encode_s_type-Fields _ _ _ 0b010 0b0100011)
  generate-decode contract s InstrType.addi g =
      op_imm_decoded s _ (encode_i_type-Fields _ _ 0b000 _ 0b0010011)
  generate-decode contract s InstrType.slti g =
      op_imm_decoded s _ (encode_i_type-Fields _ _ 0b010 _ 0b0010011)
  generate-decode contract s InstrType.sltiu g =
      op_imm_decoded s _ (encode_i_type-Fields _ _ 0b011 _ 0b0010011)
  generate-decode contract s InstrType.xori g =
      op_imm_decoded s _ (encode_i_type-Fields _ _ 0b100 _ 0b0010011)
  generate-decode contract s InstrType.ori g =
      op_imm_decoded s _ (encode_i_type-Fields _ _ 0b110 _ 0b0010011)
  generate-decode contract s InstrType.andi g =
      op_imm_decoded s _ (encode_i_type-Fields _ _ 0b111 _ 0b0010011)
  generate-decode contract s InstrType.slli g =
      slli-Fields s _ (shamt rng g).0 (shamt_lt rng contract g) (encode_i_type-Fields _ _ _ _ _)
  generate-decode contract s InstrType.srli g =
      srli-Fields s _ (shamt rng g).0 (shamt_lt rng contract g) (encode_i_type-Fields _ _ _ _ _)
  generate-decode contract s InstrType.srai g =
      srai-Fields s _ (shamt rng g).0 (shamt_lt rng contract g) (encode_i_type-Fields _ _ _ _ _)
  generate-decode contract s InstrType.add g =
      op_decoded s _ (encode_r_type-Fields 0b0000000 _ _ 0b000 _ 0b0110011)
  generate-decode contract s InstrType.sub g =
      op_decoded s _ (encode_r_type-Fields 0b0100000 _ _ 0b000 _ 0b0110011)
  generate-decode contract s InstrType.sll g =
      op_decoded s _ (encode_r_type-Fields 0b0000000 _ _ 0b001 _ 0b0110011)
  generate-decode contract s InstrType.slt g =
      op_decoded s _ (encode_r_type-Fields 0b0000000 _ _ 0b010 _ 0b0110011)
  generate-decode contract s InstrType.sltu g =
      op_decoded s _ (encode_r_type-Fields 0b0000000 _ _ 0b011 _ 0b0110011)
  generate-decode contract s InstrType.xor g =
      op_decoded s _ (encode_r_type-Fields 0b0000000 _ _ 0b100 _ 0b0110011)
  generate-decode contract s InstrType.srl g =
      op_decoded s _ (encode_r_type-Fields 0b0000000 _ _ 0b101 _ 0b0110011)
  generate-decode contract s InstrType.sra g =
      op_decoded s _ (encode_r_type-Fields 0b0100000 _ _ 0b101 _ 0b0110011)
  generate-decode contract s InstrType.or g =
      op_decoded s _ (encode_r_type-Fields 0b0000000 _ _ 0b110 _ 0b0110011)
  generate-decode contract s InstrType.and g =
      op_decoded s _ (encode_r_type-Fields 0b0000000 _ _ 0b111 _ 0b0110011)
  generate-decode contract s InstrType.fence g = fence-Fields s _ (encode_i_type-Fields _ _ _ _ _)
  generate-decode contract s InstrType.ecall g = ecall_word s
  generate-decode contract s InstrType.ebreak g = ebreak_word s

module _ {G : Type 0} (rng : Source G) where
  -- `generate_random` returns as soon as one of its first `fuel` draws is of an enabled type, and at once under
  -- the default mask; its word then decodes to an enabled type. The draws lie between their bounds.
  pub generate_random-decode_i :
      (contract : IsInRange rng) (s : Bool) (fuel enabled : ℕ) (g : G)
      → ((legalized enabled == all_types)
          || reaches rng (selects (legalized enabled)) (count - 1) fuel g)
        ≡ true
      → Yields
          (IsEnabledWord rng (generators rng) count code of_code (IsDecoded s) enabled)
          (generate_random rng fuel enabled g)
  unfolding generate_random generate code
  generate_random-decode_i contract s fuel enabled g h =
      generate_random-types rng (generators rng) count code of_code (IsDecoded s) contract fuel
        enabled g (table count (λ i. code (of_code i)) (λ i. i) refl)
        (λ t g'. generate-decode rng contract s t g') (omega arith) (omega arith) h
