-- ===== src/Common/MemoryLaws.antt =====
-- riscv_common.hpp, `SimpleMemory`: what a read gives after a write, and the bounds of an access.
use rv32_complete_v.Common.Memory.{SimpleMemory, check_addr, cell, put, read8, read32, write32}
use mathlib.Core.Option.{some-injective}
use native.Mathlib.Nat.{mod-eq_of_lt}
use rv32_complete_v.Prelude.{
  ℕ, ◌+◌, ◌*◌, ◌/◌, ◌%◌, ◌^◌, ◌≤◌, ◌<◌, bit_and, bit_or, ◌≡◌, refl, sym, ap, ◌∙◌, Bool, true, false,
  none, some, arith, ◌==◌, if◌then◌else◌, bit-bit_or, bit_ext, bit_or-lt, bit_or_join, bit_and_mask,
  sub32, shl32, shr32,
}

bit_or_swap : (a b : ℕ) → a < 2 ^ 32 → b < 2 ^ 32 → bit_or a b ≡ bit_or b a
bit_or_swap a b p q =
    bit_ext 32 (bit_or a b) (bit_or b a) (bit_or-lt 32 a b p q) (bit_or-lt 32 b a q p)
      (λ i h. omega (arith, bit-bit_or a b i, bit-bit_or b a i))

-- Fields that do not overlap, the lower one first.
low_join :
    (k a b : ℕ) → a < 2 ^ k → a < 2 ^ 32 → b * 2 ^ k < 2 ^ 32 → bit_or a (b * 2 ^ k) ≡ a + b * 2 ^ k
low_join k a b p q h = omega (arith, bit_or_swap a (b * 2 ^ k) q h, bit_or_join k b a p)

-- The byte `k` of a word.
abbrev pub byte : ℕ → ℕ → ℕ
byte w k = bit_and (shr32 w k) 0xff

join_fields :
    (k a b : ℕ) → a < 2 ^ k → a < 2 ^ 32 → b * 2 ^ k < 2 ^ 32 → bit_or a (shl32 b k) ≡ a + b * 2 ^ k
join_fields k a b p q h =
    let fits : shl32 b k ≡ b * 2 ^ k = omega (arith, mod-eq_of_lt h) in
    ap (bit_or a) fits ∙ low_join k a b p q h

join_four :
    (a b c d : ℕ)
    → a < 256
    → b < 256
    → c < 256
    → d < 256
    → bit_or (bit_or (bit_or a (shl32 b 8)) (shl32 c 16)) (shl32 d 24)
      ≡ a + b * 2 ^ 8 + c * 2 ^ 16 + d * 2 ^ 24
join_four a b c d p q r t =
    let two : ℕ = a + b * 2 ^ 8 in
    let three : ℕ = two + c * 2 ^ 16 in
    let two-eq : bit_or a (shl32 b 8) ≡ two = join_fields 8 a b p (omega arith) (omega arith) in
    let three-eq : bit_or two (shl32 c 16) ≡ three =
      join_fields 16 two c (omega arith) (omega arith) (omega arith) in
    ap (λ (x : ℕ). bit_or (bit_or x (shl32 c 16)) (shl32 d 24)) two-eq
    ∙ ap (λ (x : ℕ). bit_or x (shl32 d 24)) three-eq
    ∙ join_fields 24 three d (omega arith) (omega arith) (omega arith)

join_bytes :
    (w : ℕ)
    → w < 2 ^ 32
    → bit_or
        (bit_or (bit_or (bit_and w 0xff) (shl32 (byte w 8) 8)) (shl32 (byte w 16) 16))
        (shl32 (byte w 24) 24)
      ≡ w
join_bytes w h =
    let low : (x : ℕ) → bit_and x 0xff ≡ x % 2 ^ 8 = λ x. bit_and_mask 8 x in
    join_four (bit_and w 0xff) (byte w 8) (byte w 16) (byte w 24) (omega (arith, low w))
      (omega (arith, low (w / 2 ^ 8))) (omega (arith, low (w / 2 ^ 16)))
      (omega (arith, low (w / 2 ^ 24)))
    ∙ omega (arith, low w, low (w / 2 ^ 8), low (w / 2 ^ 16), low (w / 2 ^ 24))

cell-distinct :
    (m : SimpleMemory) (addr j k : ℕ) → j < 4 → k < 4 → (cell m addr j == cell m addr k) ≡ (j == k)
unfolding cell
cell-distinct m addr j k p q = ground arith

-- The memory after a word is written at an address that `check_addr` passes.
abbrev pub stored : SimpleMemory → ℕ → ℕ → SimpleMemory
stored m addr w =
    put
      (put (put (put m (cell m addr 0) (bit_and w 0xff)) (cell m addr 1) (byte w 8)) (cell m addr 2)
        (byte w 16))
      (cell m addr 3) (byte w 24)

guarded {ℓ} :
    {A : Type ℓ} (b : Bool) (x y : A) → (if b then some x else none) ≡ some y → (b ≡ true) × (x ≡ y)
guarded true x y e = (refl, some-injective x y e)
guarded false x y e = absurd (ground arith)

stored-write32 :
    (m m' : SimpleMemory) (addr w : ℕ)
    → write32 m addr w ≡ some m'
    → (check_addr m addr 4 ≡ true) × (stored m addr w ≡ m')
unfolding write32
stored-write32 m m' addr w e = guarded (check_addr m addr 4) (stored m addr w) m' e

mem-stored :
    (m : SimpleMemory) (addr w : ℕ)
    → ((stored m addr w).mem (cell m addr 0) ≡ bit_and w 0xff)
      × ((stored m addr w).mem (cell m addr 1) ≡ byte w 8)
      × ((stored m addr w).mem (cell m addr 2) ≡ byte w 16)
      × ((stored m addr w).mem (cell m addr 3) ≡ byte w 24)
unfolding cell
mem-stored m addr w = (ground arith, ground arith, ground arith, ground arith)

-- The word of four bytes, as `read32` joins them.
abbrev word : ℕ → ℕ → ℕ → ℕ → ℕ
word a b c d = bit_or (bit_or (bit_or a (shl32 b 8)) (shl32 c 16)) (shl32 d 24)

word-cong :
    (a b c d a' b' c' d' : ℕ) → a ≡ a' → b ≡ b' → c ≡ c' → d ≡ d' → word a b c d ≡ word a' b' c' d'
word-cong a b c d a' b' c' d' p q r t = rw (p, q, r, t) refl

read32-stored :
    (m : SimpleMemory) (addr w : ℕ)
    → w < 2 ^ 32
    → check_addr m addr 4 ≡ true
    → read32 (stored m addr w) addr ≡ some w
unfolding read32 check_addr cell
read32-stored m addr w h c =
    let (p, q, r, t) = mem-stored m addr w in
    rw c (ap some (word-cong _ _ _ _ _ _ _ _ p q r t ∙ join_bytes w h))

-- A word of 32 bits that `write32` stored is what `read32` at the same address gives.
pub read32-write32 :
    (m m' : SimpleMemory) (addr w : ℕ)
    → w < 2 ^ 32
    → write32 m addr w ≡ some m'
    → read32 m' addr ≡ some w
read32-write32 m m' addr w h e =
    let (c, q) = stored-write32 m m' addr w e in
    ap (λ n. read32 n addr) (sym q) ∙ read32-stored m addr w h c

other_cell :
    (m : SimpleMemory) (addr a w : ℕ)
    → m.base_addr < 2 ^ 32
    → addr < 2 ^ 32
    → a < 2 ^ 32
    → 4 ≤ sub32 a addr
    → (stored m addr w).mem (cell m a 0) ≡ m.mem (cell m a 0)
unfolding cell
other_cell m addr a w hb h p q = ground arith

read8-stored :
    (m : SimpleMemory) (addr a w : ℕ)
    → m.base_addr < 2 ^ 32
    → addr < 2 ^ 32
    → a < 2 ^ 32
    → 4 ≤ sub32 a addr
    → read8 (stored m addr w) a ≡ read8 m a
unfolding read8 check_addr cell
read8-stored m addr a w hb h p q =
    ap (λ (x : ℕ). if check_addr m a 1 then some x else none) (other_cell m addr a w hb h p q)

-- `write32` changes no byte but the four from its address on: with addresses of 32 bits, a byte that is
-- none of these four reads as before.
pub read8-write32 :
    (m m' : SimpleMemory) (addr a w : ℕ)
    → m.base_addr < 2 ^ 32
    → addr < 2 ^ 32
    → a < 2 ^ 32
    → 4 ≤ sub32 a addr
    → write32 m addr w ≡ some m'
    → read8 m' a ≡ read8 m a
read8-write32 m m' addr a w hb h p q e =
    let (c, s) = stored-write32 m m' addr w e in
    ap (λ n. read8 n a) (sym s) ∙ read8-stored m addr a w hb h p q

-- An access that `check_addr` passes stays inside the buffer, cell by cell, and the buffer is there: for
-- a memory of at most 2^32 bytes, each of the `size` cells has an index below `mem_size`.
pub check_addr-cell :
    (m : SimpleMemory) (addr size k : ℕ)
    → addr < 2 ^ 32
    → m.mem_size ≤ 2 ^ 32
    → size ≤ 2 ^ 32
    → k < size
    → check_addr m addr size ≡ true
    → (cell m addr k < m.mem_size) × (m.is_null ≡ false)
unfolding check_addr cell
check_addr-cell m addr size k h p q t c = ground arith
