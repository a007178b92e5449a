-- ===== src/OpcodeClassify/Opcodes.antt =====
-- riscv_opcode_classify.hpp: the opcodes for which each predicate can hold.
use rv32_complete_v.Prelude.{ℕ, ◌≤◌, Bool, ◌||◌, ◌==◌, arith}
use rv32_complete_v.Common.Fields.{bits}
use rv32_complete_v.Rv32m as M
use rv32_complete_v.Rv32a as A
use rv32_complete_v.Rv32f.Decode as FDecode
use rv32_complete_v.Zicsr.Execute as Csr
use rv32_complete_v.Zifencei
use rv32_complete_v.Zba
use rv32_complete_v.Zbb
use rv32_complete_v.Zbs
use rv32_complete_v.Zicond
use rv32_complete_v.Cpu.Claims.{digit}
use rv32_complete_v.OpcodeClassify.{
  opcode_is_rv32m, opcode_is_rv32a, opcode_is_rv32f, opcode_is_zicsr, opcode_is_zifencei,
  opcode_is_zba, opcode_is_zbb, opcode_is_zbs, opcode_is_zicond,
}

unfoldable pub is_float_op : ℕ → Bool
is_float_op op =
    op == 0b0000111
    || op == 0b0100111
    || op == 0b1000011
    || op == 0b1000111
    || op == 0b1001011
    || op == 0b1001111
    || op == 0b1010011

pub zifencei_op : (w : ℕ) → digit (opcode_is_zifencei w) ≤ digit (bits w 6 0 == 0b0001111)
unfolding opcode_is_zifencei Zifencei.decode
zifencei_op w = ground arith

pub zicsr_op : (w : ℕ) → digit (opcode_is_zicsr w) ≤ digit (bits w 6 0 == 0b1110011)
unfolding opcode_is_zicsr Csr.decode
zicsr_op w = ground arith

pub rv32m_op : (w : ℕ) → digit (opcode_is_rv32m w) ≤ digit (bits w 6 0 == 0b0110011)
unfolding opcode_is_rv32m M.decode
rv32m_op w = ground arith

pub rv32a_op : (w : ℕ) → digit (opcode_is_rv32a w) ≤ digit (bits w 6 0 == 0b0101111)
unfolding opcode_is_rv32a A.decode
rv32a_op w = ground arith

pub rv32f_op : (w : ℕ) → digit (opcode_is_rv32f w) ≤ digit (is_float_op (bits w 6 0))
unfolding opcode_is_rv32f FDecode.decode FDecode.decode_opcode FDecode.fields is_float_op
rv32f_op w = ground arith

pub zba_op : (w : ℕ) → digit (opcode_is_zba w) ≤ digit (bits w 6 0 == 0b0110011)
unfolding opcode_is_zba Zba.decode
zba_op w = ground arith

pub zbb_op :
    (w : ℕ) → digit (opcode_is_zbb w) ≤ digit (bits w 6 0 == 0b0110011 || bits w 6 0 == 0b0010011)
unfolding opcode_is_zbb Zbb.decode
zbb_op w = ground arith

pub zbs_op :
    (w : ℕ) → digit (opcode_is_zbs w) ≤ digit (bits w 6 0 == 0b0110011 || bits w 6 0 == 0b0010011)
unfolding opcode_is_zbs Zbs.decode
zbs_op w = ground arith

pub zicond_op : (w : ℕ) → digit (opcode_is_zicond w) ≤ digit (bits w 6 0 == 0b0110011)
unfolding opcode_is_zicond Zicond.decode
zicond_op w = ground arith
