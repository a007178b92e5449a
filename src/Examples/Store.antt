-- ===== src/Examples/Store.antt =====
-- Tests of riscv_common.hpp.
use rv32_complete_v.Common.Memory.{SimpleMemory, check_addr, cell, read8, read32, write32}
use rv32_complete_v.Common.MemoryLaws.{read32-write32, read8-write32, check_addr-cell, stored}
use rv32_complete_v.Prelude.{◌<◌, ◌≡◌, refl, true, false, some, arith}

-- 64 bytes at 0x8000_0000, and the same with a word stored at 0x8000_0010.
abbrev memory : SimpleMemory
memory = record {
  mem = λ i. 0;
  is_null = false;
  mem_size = 64;
  base_addr = 0x8000_0000;
  owns_memory = true;
}

abbrev after : SimpleMemory
after = stored memory 0x8000_0010 0xdead_beef

read32-write32_example : read32 after 0x8000_0010 ≡ some 0xdead_beef
unfolding write32
read32-write32_example = read32-write32 memory after 0x8000_0010 0xdead_beef (omega arith) refl

read8-write32_example : read8 after 0x8000_0014 ≡ read8 memory 0x8000_0014
unfolding write32
read8-write32_example =
    read8-write32 memory after 0x8000_0010 0x8000_0014 0xdead_beef (omega arith) (omega arith)
      (omega arith) (omega arith) refl

check_addr-cell_example : (cell memory 0x8000_003c 3 < memory.mem_size) × (memory.is_null ≡ false)
unfolding check_addr
check_addr-cell_example =
    check_addr-cell memory 0x8000_003c 4 3 (omega arith) (omega arith) (omega arith) (omega arith)
      refl
