-- ===== src/Lib.antt =====
-- A model of the RISC-V simulator (RV32IMAFC with Zicsr, Zifencei, Zba, Zbb, Zbs and Zicond), and
-- theorems about it.
--
-- The program is a set of C++ headers. riscv_common.hpp has the bus, a memory, the register file and
-- helpers on fields of words; one header per extension has a decoder and an executor; riscv_zicsr.hpp
-- has the control and status registers as well; riscv_cpu.hpp joins them to a hart with traps,
-- interrupts, privilege levels and counters.
--
-- Which module models which code:
--   Prelude            numbers, words and digits; no code of the program
--   Common/Bus         `Bus` and `mem_access` of riscv_common.hpp; `Bus M` is a bus whose state is an `M`
--   Common/Memory      `SimpleMemory` of riscv_common.hpp, and `memory_bus`, the same as a bus
--   Common/RegFile, Common/Exception, Common/Fields
--                      `RegFile`, the causes and levels, and `bits` of riscv_common.hpp
--   Common/Encode      `encode::r_type` of riscv_zba.hpp
--   Rv32i/*            riscv_rv32i.hpp: `decode` is `Decoder::decode`, `execute` is `Executor::execute`
--   Rv32m, Rv32a, Zba, Zbb, Zbs, Zicond, Zifencei
--                      the headers of the same names, with the same functions
--   Zicsr/*            riscv_zicsr.hpp: File and Access are class `CSRFile`, Execute the instructions
--   Rv32c/*            riscv_rv32c.hpp: Decode and Execute are the classes `Decoder` and `Executor`
--   Rv32f/*            riscv_rv32f.hpp: FRegFile, Fcsr, Classify, Decode and Execute are its classes and
--                      functions; Host is what it uses of the host's arithmetic, a parameter
--   Rv32fc, Rv32fc/Encode
--                      riscv_rv32fc.hpp
--   Cpu/*              riscv_cpu.hpp: State, Trap, Interrupt, Return, Counters, Dispatch and Step are the
--                      functions of class `CPU`, the other modules are about them
--   System             class `System` of riscv_cpu.hpp
--   OpcodeClassify     riscv_opcode_classify.hpp; its children compare the predicates
--   Opgen/Source       class `RNG` of the riscv_*_opgen.hpp headers
--   Opgen/Encode       their encoders; Opgen/Shapes has the fields of the words
--   Opgen/Generator    class `OpcodeGenerator`, for any table of generators; Opgen/Random and
--                      Opgen/Picked are about it
--   Opgen/Rv32i, Rv32iGens, Rv32m, Rv32a, Rv32f, Rv32fGens, Zba, Zbb, Zbs, Zicond, Zicsr
--                      the generators of riscv_<name>_opgen.hpp, the table, and (for some in a child
--                      Categories) the generators of a category; the children Decoding are about them
--   Opgen/Illegal, its children Float, Short and Table
--                      riscv_illegal_opgen.hpp; the other children are about its words
--   Common/MemoryLaws, Rv32i/Traps, Rv32i/Words, Rv32i/Alignment, Rv32m/*, Rv32a/*, Rv32c/Expansion,
--   Rv32c/Alignment, Rv32c/Immediates, Rv32c/Traps, Rv32f/Flags, Rv32f/FcsrLaws, Rv32fc/Claims,
--   Rv32fc/Expansion, Rv32fc/Traps, Zicsr/Guards, Zicsr/Warl, Zicsr/Encoding
--                      theorems
--   Examples/*         tests
--
-- Words are native numbers, and a C++ operator is the operation on numbers with its wrap-around
-- (`add32`, `shl32`, `not32`). A signed pattern is read by `signed32`, and a `float` is its 32-bit
-- pattern. An array or a map is a function of its index; a missing key is `none`. An object that a
-- member function changes is passed in and returned. A thrown exception of the bus is `none` or `false`
-- in the result of the call. The loops of the simulator run over constant lists, and `run` recurs on the
-- number of steps that it may still take, so no function of it needs fuel.
--
-- The instruction generators draw from <random>, a parameter (`Source`) of which theorems assume that a
-- draw lies between its bounds (`IsInRange`). Where C++ leaves the order of the draws of a call
-- open, they are made from left to right. A loop that draws until a test is passed has `fuel` rounds;
-- enough are given if one of that many draws passes (`reaches`), and no number is enough if the mask has
-- no bit of a type. The generator of illegal words has loops on register numbers as well: `IsFair` says
-- that `fuel` draws hit each of the 32 numbers. An index past the end of a table gives no result.
--
-- The compressed instructions are specified by the base instructions that they abbreviate
-- (`expand` of Rv32c/Expansion), `run` by the repetition of `step` (`after` of Cpu/Run), the choice of an
-- interrupt by an order of the codes and the digits of the registers (`rank` of Cpu/Selection,
-- `reaches_machine` and `reaches_supervisor` of Cpu/Eligible), and the classes of floats by intervals of
-- their patterns (`class_by_range` of Rv32f/Classify). The host's operations on floats are any functions at
-- all (Rv32f/Host): no theorem assumes anything about them.
--
-- Not modelled: texts (mnemonics, `disasm`, error messages, `trap_info`, names of instructions), the
-- callback of FENCE.I in the dispatch, the one-line encoders of most extensions, the seeds, group masks
-- and a few generators of a category of the instruction generators, the generators of RV32C, RV32FC
-- and Zifencei (riscv_rv32c_opgen.hpp, riscv_rv32fc_opgen.hpp, riscv_zifencei_opgen.hpp) and the tests.
pub mod Prelude
pub mod Common
pub mod Rv32i
pub mod Rv32m
pub mod Rv32a
pub mod Rv32c
pub mod Zba
pub mod Zbb
pub mod Zbs
pub mod Zicond
pub mod Zifencei
pub mod Zicsr
pub mod Rv32f
pub mod Rv32fc
pub mod Cpu
pub mod OpcodeClassify
pub mod System
pub mod Opgen
pub mod Examples
