-- ===== src/Common/Bus.antt =====
-- riscv_common.hpp, `Bus` and `mem_access`.
use rv32_complete_v.Prelude.{
  ℕ, ◌%◌, bit_and, Bool, true, false, not, ◌&&◌, ◌==◌, ◌!=◌, ltb, if◌then◌else◌, Option, none, some,
}
use rv32_complete_v.Common.Exception.{
  load_addr_misaligned, load_access_fault, store_addr_misaligned, store_access_fault,
}

-- The virtual functions of a bus whose state is an `M`. A call returns the state after it; `none`
-- and `false` mean that it threw an exception.
pub record Bus (M : Type 0) : Type 0 where
  pub read8 : M → ℕ → Option ℕ × M
  pub read16 : M → ℕ → Option ℕ × M
  pub read32 : M → ℕ → Option ℕ × M
  pub write8 : M → ℕ → ℕ → Bool × M
  pub write16 : M → ℕ → ℕ → Bool × M
  pub write32 : M → ℕ → ℕ → Bool × M
  pub fetch16 : M → ℕ → Option ℕ × M

-- What `mem_access::load` reports: `val` on success, `cause` and `tval` on failure.
pub data LoadResult : Type 0 where
  loaded : ℕ → LoadResult
  load_failed : ℕ → ℕ → LoadResult

pub data StoreResult : Type 0 where
  stored : StoreResult
  store_failed : ℕ → ℕ → StoreResult

abbrev caught_load : ℕ → Option ℕ → LoadResult
caught_load addr none = load_failed load_access_fault addr
caught_load addr (some v) = loaded v

abbrev caught_store : ℕ → Bool → StoreResult
caught_store addr false = store_failed store_access_fault addr
caught_store addr true = stored

abbrev pub is_misaligned : ℕ → ℕ → Bool → Bool
is_misaligned addr size allow_misaligned = not allow_misaligned && ltb 1 size && (addr % size) != 0

module _ {M : Type 0} (bus : Bus M) where
  -- The `switch (size)` of both functions.
  abbrev pub sized_read : M → ℕ → ℕ → Option ℕ × M
  sized_read m addr size =
      if size == 1
      then bus.read8 m addr
      else if size == 2
      then bus.read16 m addr
      else bus.read32 m addr

  abbrev pub sized_write : M → ℕ → ℕ → ℕ → Bool × M
  sized_write m addr size val =
      if size == 1
      then bus.write8 m addr (bit_and val 0xff)
      else if size == 2
      then bus.write16 m addr (bit_and val 0xffff)
      else bus.write32 m addr val

  unfoldable pub load : M → ℕ → ℕ → Bool → LoadResult × M
  load m addr size allow_misaligned =
      let (v, m') = sized_read m addr size in
      if is_misaligned addr size allow_misaligned
      then (load_failed load_addr_misaligned addr, m)
      else (caught_load addr v, m')

  unfoldable pub store : M → ℕ → ℕ → ℕ → Bool → StoreResult × M
  store m addr size val allow_misaligned =
      let (done, m') = sized_write m addr size val in
      if is_misaligned addr size allow_misaligned
      then (store_failed store_addr_misaligned addr, m)
      else (caught_store addr done, m')
