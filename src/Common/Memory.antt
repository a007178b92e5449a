-- ===== src/Common/Memory.antt =====
-- riscv_common.hpp, `SimpleMemory`: a byte array with a base address behind the bus interface.

use rv32_complete_v.Prelude.{
  ℕ, ◌+◌, ◌-◌, ◌%◌, ◌^◌, bit_and, bit_or, Bool, true, false, not, ◌||◌, ◌==◌, ltb, if◌then◌else◌,
  Option, none, some, List, [], ◌∷◌, add32, sub32, shl32, shr32,
}
use rv32_complete_v.Common.Bus.{Bus}

-- `mem` is the buffer by offset; `is_null` says that the pointer is null, as after a move.
pub record SimpleMemory : Type 0 where
  pub mem : ℕ → ℕ
  pub is_null : Bool
  pub mem_size : ℕ
  pub base_addr : ℕ
  pub owns_memory : Bool

-- `false` is the thrown `BusFault`. `addr - base_addr` is in 64 bits and not negative where it is
-- evaluated.
unfoldable pub check_addr : SimpleMemory → ℕ → ℕ → Bool
check_addr m addr size =
    not (m.is_null || ltb addr m.base_addr || ltb m.mem_size ((addr - m.base_addr + size) % 2 ^ 64))

-- `offset + k` for `uint32_t offset = addr - base_addr`.
unfoldable pub cell : SimpleMemory → ℕ → ℕ → ℕ
cell m addr k = add32 (sub32 addr m.base_addr) k

abbrev pub put : SimpleMemory → ℕ → ℕ → SimpleMemory
put m i v = record m { mem = λ j. if j == i then v else m.mem j }

unfoldable pub new : ℕ → ℕ → SimpleMemory
new size base = record {
  mem = λ i. 0;
  is_null = false;
  mem_size = size;
  base_addr = base;
  owns_memory = true;
}

unfoldable pub of_buffer : (ℕ → ℕ) → ℕ → ℕ → SimpleMemory
of_buffer buffer size base = record {
  mem = buffer;
  is_null = false;
  mem_size = size;
  base_addr = base;
  owns_memory = false;
}

-- The move constructor: the new object, and what is left of the old one.
unfoldable pub move : SimpleMemory → SimpleMemory × SimpleMemory
move other = (other, record other { is_null = true; mem_size = 0; owns_memory = false })

-- The move assignment: the object assigned to, and what is left of the other one. The first argument is
-- whether the two are the same object; the buffer that `delete[]` frees is not reached any more.
unfoldable pub move_assign : Bool → SimpleMemory → SimpleMemory → SimpleMemory × SimpleMemory
unfolding move
move_assign true this other = (this, this)
move_assign false this other = move other

unfoldable pub read8 : SimpleMemory → ℕ → Option ℕ
unfolding check_addr cell
read8 m addr = if check_addr m addr 1 then some (m.mem (cell m addr 0)) else none

unfoldable pub write8 : SimpleMemory → ℕ → ℕ → Option SimpleMemory
unfolding check_addr cell
write8 m addr byte = if check_addr m addr 1 then some (put m (cell m addr 0) byte) else none

unfoldable pub read16 : SimpleMemory → ℕ → Option ℕ
unfolding check_addr cell
read16 m addr =
    if check_addr m addr 2
    then some (bit_or (m.mem (cell m addr 0)) (shl32 (m.mem (cell m addr 1)) 8))
    else none

unfoldable pub write16 : SimpleMemory → ℕ → ℕ → Option SimpleMemory
unfolding check_addr cell
write16 m addr half =
    if check_addr m addr 2
    then some (
        put (put m (cell m addr 0) (bit_and half 0xff)) (cell m addr 1)
          (bit_and (shr32 half 8) 0xff))
    else none

unfoldable pub read32 : SimpleMemory → ℕ → Option ℕ
unfolding check_addr cell
read32 m addr =
    if check_addr m addr 4
    then some (
        bit_or
          (bit_or (bit_or (m.mem (cell m addr 0)) (shl32 (m.mem (cell m addr 1)) 8))
            (shl32 (m.mem (cell m addr 2)) 16))
          (shl32 (m.mem (cell m addr 3)) 24))
    else none

unfoldable pub write32 : SimpleMemory → ℕ → ℕ → Option SimpleMemory
unfolding check_addr cell
write32 m addr word =
    if check_addr m addr 4
    then (let m0 = put m (cell m addr 0) (bit_and word 0xff) in
        let m1 = put m0 (cell m addr 1) (bit_and (shr32 word 8) 0xff) in
        let m2 = put m1 (cell m addr 2) (bit_and (shr32 word 16) 0xff) in
        some (put m2 (cell m addr 3) (bit_and (shr32 word 24) 0xff)))
    else none

-- `std::copy` into the buffer from the offset `i` on.
abbrev pub copy_from : (ℕ → ℕ) → ℕ → List ℕ → ℕ → ℕ
copy_from mem i [] = mem
copy_from mem i (b ∷ src) = copy_from (λ j. if j == i then b else mem j) (i + 1) src

abbrev pub length : List ℕ → ℕ
length [] = 0
length (b ∷ src) = length src + 1

unfoldable pub load : SimpleMemory → ℕ → List ℕ → Option SimpleMemory
unfolding check_addr
load m addr src =
    if check_addr m addr (length src)
    then some (record m { mem = copy_from m.mem (sub32 addr m.base_addr) src })
    else none

unfoldable pub clear : SimpleMemory → SimpleMemory
clear m = record m { mem = λ i. if ltb i m.mem_size then 0 else m.mem i }

-- `SimpleMemory` as a `Bus`. A write that throws leaves the memory as it was.
abbrev pub kept : SimpleMemory → Option SimpleMemory → Bool × SimpleMemory
kept m none = (false, m)
kept m (some m') = (true, m')

unfoldable pub memory_bus : Bus SimpleMemory
unfolding read8 read16 read32 write8 write16 write32
memory_bus = record {
  read8 = λ m addr. (read8 m addr, m);
  read16 = λ m addr. (read16 m addr, m);
  read32 = λ m addr. (read32 m addr, m);
  write8 = λ m addr v. kept m (write8 m addr v);
  write16 = λ m addr v. kept m (write16 m addr v);
  write32 = λ m addr v. kept m (write32 m addr v);
  fetch16 = λ m addr. (read16 m addr, m);
}
