-- ===== src/Opgen/Source.antt =====
-- The class `RNG` of the riscv_*_opgen.hpp headers. The engine and the distributions of <random> are a
-- parameter: a source on a state `G`. Where C++ leaves the order of the draws in a call open, they are made
-- from left to right.
use rv32_complete_v.Prelude.{
  arith, ◌<◌, ℕ, zero, suc, ◌≤◌, ◌≡◌, Bool, true, false, Option, none, some, List, [], ◌∷◌, ℤ, pos,
  negsuc, ◌*ℤ◌, wrap, shl32,
}

pub record Source (G : Type 0) : Type 0 where
  -- `std::uniform_int_distribution<uint32_t>(lo, hi)(gen)`, and the same on `int32_t`.
  pub uniform : ℕ → ℕ → G → ℕ × G
  pub uniform_signed : ℤ → ℤ → G → ℤ × G
  -- `std::uniform_real_distribution<double>(0.0, 1.0)(gen) < p`, for `p` in hundredths.
  pub chance : ℕ → G → Bool × G
  -- `gen()`.
  pub bits32 : G → ℕ × G

-- What <random> documents: a draw lies between its bounds.
abbrev pub IsInRange : {G : Type 0} → Source G → Type 0
IsInRange {G} rng =
    (lo hi : ℕ) (g : G) → lo ≤ hi → (lo ≤ (rng.uniform lo hi g).0) × ((rng.uniform lo hi g).0 ≤ hi)

-- A computation that draws numbers, and one that may also not return.
abbrev pub Gen : Type 0 → Type 0 → Type 0
Gen G A = G → A × G

abbrev pub Loop : Type 0 → Type 0 → Type 0
Loop G A = G → Option (A × G)

infixl 10 ◌>>=◌
abbrev pub ◌>>=◌ : {G A B : Type 0} → Gen G A → (A → Gen G B) → Gen G B
m >>= f = λ g. f (m g).0 (m g).1

abbrev pub pure : {G A : Type 0} → A → Gen G A
pure a = λ g. (a, g)

-- A computation without a loop.
abbrev pub returning : {G A : Type 0} → Gen G A → Loop G A
returning m = λ g. some (m g)

-- The computation returns, with a value that has the property.
abbrev pub Yields : {G A : Type 0} → (A → Type 0) → Option (A × G) → Type 0
Yields Q none = false ≡ true
Yields Q (some (a, g)) = Q a

module _ {G : Type 0} (rng : Source G) where
  unfoldable pub reg : Gen G ℕ
  reg = rng.uniform 0 31

  unfoldable pub reg_nz : Gen G ℕ
  reg_nz = rng.uniform 1 31

  unfoldable pub shamt : Gen G ℕ
  shamt = rng.uniform 0 31

  -- An `int32_t` is its 32-bit pattern.
  unfoldable pub imm12 : Gen G ℕ
  imm12 = do pure (wrap 32 (← rng.uniform_signed (negsuc 2047) (pos 2047)))

  unfoldable pub imm20_upper : Gen G ℕ
  imm20_upper = do pure (shl32 (← rng.uniform 0 0xf_ffff) 12)

  unfoldable pub branch_offset : Gen G ℕ
  branch_offset = do pure (wrap 32 ((← rng.uniform_signed (negsuc 2047) (pos 2047)) *ℤ pos 2))

  unfoldable pub jal_offset : Gen G ℕ
  jal_offset = do pure (wrap 32 ((← rng.uniform_signed (negsuc 524287) (pos 524287)) *ℤ pos 2))

-- An entry of an array; past its end, where C++ has no behaviour, there is no result.
unfoldable pub entry : {A : Type 0} → List A → ℕ → Option A
entry [] i = none
entry (a ∷ rest) zero = some a
entry (a ∷ rest) (suc i) = entry rest i

abbrev pub or_zero : Option ℕ → ℕ
or_zero none = 0
or_zero (some a) = a

-- `arr[uniform(0, N - 1)]`, for the `last` index N - 1.
unfoldable pub choice : {G : Type 0} → Source G → List ℕ → ℕ → Gen G ℕ
unfolding entry
choice rng list last = do pure (or_zero (entry list (← rng.uniform 0 last)))

pub shamt_lt : {G : Type 0} (rng : Source G) → IsInRange rng → (g : G) → (shamt rng g).0 < 32
unfolding shamt
shamt_lt rng contract g = omega (arith, (contract 0 31 g (omega arith)).1)
