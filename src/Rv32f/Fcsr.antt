-- ===== src/Rv32f/Fcsr.antt =====
-- riscv_rv32f.hpp: `RoundingMode`, `FFlags` and `FCSR`.
use rv32_complete_v.Prelude.{
  ℕ, bit_and, bit_or, Bool, true, false, ◌||◌, ◌==◌, ◌!=◌, if◌then◌else◌, shl32, shr32,
}

-- A `RoundingMode` is its underlying three-bit number, since a `static_cast` makes the reserved values
-- as well.
abbrev pub rne : ℕ
rne = 0b000

abbrev pub rtz : ℕ
rtz = 0b001

abbrev pub rdn : ℕ
rdn = 0b010

abbrev pub rup : ℕ
rup = 0b011

abbrev pub rmm : ℕ
rmm = 0b100

abbrev pub dyn : ℕ
dyn = 0b111

pub record FFlags : Type 0 where
  pub nx : Bool
  pub uf : Bool
  pub of : Bool
  pub dz : Bool
  pub nv : Bool

-- The constructor, and `clear`.
unfoldable pub no_flags : FFlags
no_flags = record { nx = false; uf = false; of = false; dz = false; nv = false }

abbrev pub digit : Bool → ℕ
digit true = 1
digit false = 0

unfoldable pub to_bits : FFlags → ℕ
to_bits f =
    bit_or
      (bit_or (bit_or (bit_or (shl32 (digit f.nv) 4) (shl32 (digit f.dz) 3)) (shl32 (digit f.of) 2))
        (shl32 (digit f.uf) 1))
      (digit f.nx)

unfoldable pub from_bits : ℕ → FFlags
from_bits b = record {
  nx = bit_and b 1 != 0;
  uf = bit_and (shr32 b 1) 1 != 0;
  of = bit_and (shr32 b 2) 1 != 0;
  dz = bit_and (shr32 b 3) 1 != 0;
  nv = bit_and (shr32 b 4) 1 != 0;
}

unfoldable pub merge : FFlags → FFlags → FFlags
merge f other = record {
  nx = f.nx || other.nx;
  uf = f.uf || other.uf;
  of = f.of || other.of;
  dz = f.dz || other.dz;
  nv = f.nv || other.nv;
}

pub record Fcsr : Type 0 where
  pub fflags : FFlags
  pub frm : ℕ

unfoldable pub read : Fcsr → ℕ
unfolding to_bits
read c = bit_or (shl32 c.frm 5) (to_bits c.fflags)

unfoldable pub write : ℕ → Fcsr
unfolding from_bits
write val = record { fflags = from_bits (bit_and val 0x1f); frm = bit_and (shr32 val 5) 0x7 }

unfoldable pub effective_rm : Fcsr → ℕ → ℕ
effective_rm c instr_rm = if instr_rm == dyn then c.frm else instr_rm
