-- ===== src/Examples/Short.antt =====
-- Tests of riscv_rv32c.hpp, riscv_rv32f.hpp and riscv_rv32fc.hpp.
use rv32_complete_v.Prelude.{◌+◌, ◌%◌, ◌^◌, ◌≡◌, ◌⊎◌, true, false, arith, ltb, leb, ◌==◌}
use rv32_complete_v.Common.Exception.{machine}
use rv32_complete_v.Examples.Integer.{latch, regs, regs-IsWords}
use rv32_complete_v.Rv32i.Execute as BaseExecute
use rv32_complete_v.Rv32c.Decode as C
use rv32_complete_v.Rv32c.Execute as CExecute
use rv32_complete_v.Rv32c.Expansion.{expand, executor, shortened, execute-expand}
use rv32_complete_v.Rv32f.FRegFile.{FRegFile}
use rv32_complete_v.Rv32f.Fcsr.{Fcsr, merge, write}
use rv32_complete_v.Rv32f.Classify.{classify_float, class_by_range, classify_float-class_by_range}
use rv32_complete_v.Rv32f.Decode as F
use rv32_complete_v.Rv32f.Execute as FExecute
use rv32_complete_v.Rv32f.Host.{Host, Raised}
use rv32_complete_v.Rv32f.Flags.{execute-IsSticky}
use rv32_complete_v.Rv32fc as Fc
use rv32_complete_v.Rv32fc.Expansion.{expand_type, AreAlike, execute-AreAlike}

-- `c.jalr x5`, at a pc just below the end of the address space.
execute-expand_example :
    CExecute.execute latch false (C.decode 0x9282) regs 7 0xffff_fffe
    ≡ shortened 0xffff_fffe regs (expand (C.decode 0x9282)) (
        BaseExecute.execute latch
          (executor false machine)
          (expand (C.decode 0x9282))
          regs
          7
          0xffff_fffe)
execute-expand_example = execute-expand latch false machine 0x9282 regs 7 0xffff_fffe regs-IsWords

-- The quietest of the signaling NaNs.
classify_float-class_by_range_example : classify_float 0xffbf_ffff ≡ class_by_range 0xffbf_ffff
classify_float-class_by_range_example = classify_float-class_by_range 0xffbf_ffff (omega arith)

abbrev pub inexact : Raised
inexact = record {
  inexact = true;
  underflow = false;
  overflow = false;
  div_by_zero = false;
  invalid = false;
}

-- A host whose arithmetic gives its first operand, inexactly.
abbrev pub host : Host
host = record {
  add = λ mode a b. (a, inexact);
  sub = λ mode a b. (a, inexact);
  mul = λ mode a b. (a, inexact);
  div = λ mode a b. (a, inexact);
  sqrt = λ mode a. (a, inexact);
  fma = λ mode a b c. (a, inexact);
  of_int32 = λ mode x. (x, inexact);
  of_uint32 = λ mode x. (x, inexact);
  to_int32 = λ a. a;
  to_uint32 = λ a. a;
  neg = λ a. a;
  is_nan = λ a. ltb 0x7f80_0000 (a % 2 ^ 31);
  eq = λ a b. a == b;
  lt = λ a b. ltb a b;
  le = λ a b. leb a b;
  trunc = λ a. a;
  floor = λ a. a;
  ceil = λ a. a;
  round = λ a. a;
  nearbyint = λ mode a. a;
}

abbrev fregs : FRegFile
fregs = record { regs = λ i. 0x3f80_0000 + i }

abbrev fcsr : Fcsr
fcsr = write 0x31

-- `fadd.s f3, f1, f2` with the dynamic rounding mode.
execute-IsSticky_example :
    let o = FExecute.execute host latch false (F.decode 0x0020_f1d3) regs fregs 7 fcsr in
    (merge fcsr.fflags o.fcsr.fflags ≡ o.fcsr.fflags)
    × (o.fcsr.frm ≡ fcsr.frm)
    × ((o.result.valid ≡ true)
        ⊎ ((o.result.valid ≡ false) × (o.regs ≡ regs) × (o.fregs ≡ fregs) × (o.fcsr ≡ fcsr)))
execute-IsSticky_example =
    execute-IsSticky host latch false (F.decode 0x0020_f1d3) regs fregs 7 fcsr

-- `c.flwsp f1, 4(sp)`.
execute-AreAlike_example : AreAlike (Fc.execute latch false (Fc.decode 0x6092) regs fregs 7) (
    FExecute.execute host latch false
      (expand_type (Fc.decode 0x6092).type (Fc.decode 0x6092))
      regs
      fregs
      7
      fcsr)
execute-AreAlike_example = execute-AreAlike host latch false (Fc.decode 0x6092) regs fregs 7 fcsr
