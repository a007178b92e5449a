-- ===== src/Examples/Integer.antt =====
-- Tests of riscv_rv32i.hpp and riscv_rv32m.hpp.
use rv32_complete_v.Rv32i.Decode.{decode_op}
use rv32_complete_v.Rv32i.Decode.{decode_i_imm}
use rv32_complete_v.Common.Bus
use rv32_complete_v.Rv32i.Decode.{decode_load}
use rv32_complete_v.Common.Exception.{machine}
use rv32_complete_v.Common.RegFile
use rv32_complete_v.Common.RegFile.{RegFile, IsWords}
use rv32_complete_v.Common.Bus.{Bus}
use rv32_complete_v.Rv32i.Types.{DecodedInstr}
use rv32_complete_v.Rv32i.Decode.{decode}
use rv32_complete_v.Rv32i.Execute.{Executor, execute, execute_type}
use rv32_complete_v.Rv32i.Traps.{IsPrecise, execute-IsPrecise}
use rv32_complete_v.Rv32i.Words.{IsWordBus, IsWordOutcome, execute-IsWordOutcome}
use rv32_complete_v.Rv32m.{divide, remainder, mul_high}
use rv32_complete_v.Rv32m.Division.{magnitude, divide-remainder}
use rv32_complete_v.Rv32m.Product.{mul_high-mul}
use rv32_complete_v.Prelude.{
  ◌<◌, ◌⊎◌, ℕ, ◌+◌, ◌*◌, ◌^◌, ◌≡◌, refl, true, false, some, arith, ltb, if◌then◌else◌, ◌*ℤ◌, signed,
  signed32, u8, u16, u32, add32, mul32,
}

-- A bus with one word that every address reads and that a write replaces.
abbrev pub latch : Bus ℕ
latch = record {
  read8 = λ m addr. (some (u8 m), m);
  read16 = λ m addr. (some (u16 m), m);
  read32 = λ m addr. (some (u32 m), m);
  write8 = λ m addr v. (true, v);
  write16 = λ m addr v. (true, v);
  write32 = λ m addr v. (true, v);
  fetch16 = λ m addr. (some (u16 m), m);
}

latch-IsWordBus : IsWordBus latch
latch-IsWordBus = record {
  bytes = λ m addr. omega arith;
  halves = λ m addr. omega arith;
  words = λ m addr. omega arith;
}

-- Register i holds 4 * i.
abbrev pub regs : RegFile
regs = record { x = λ i. if ltb i 32 then 4 * i else 0 }

pub regs-IsWords : IsWords regs
regs-IsWords i = ground arith

abbrev executor : Executor
executor = record { c_ext_enabled = true; allow_misaligned = false; priv = machine }

-- `lw x7, 2(x5)`, at a misaligned address, and `sub x7, x5, x6`.
abbrev lw_misaligned : DecodedInstr
lw_misaligned = decode false 0x0022a383

abbrev sub_x7 : DecodedInstr
sub_x7 = decode false 0x406283b3

execute-IsPrecise_example : IsPrecise regs 0x100 (execute latch executor lw_misaligned regs 9 0x100)
unfolding execute execute_type decode decode_load Bus.load decode_i_imm
execute-IsPrecise_example = execute-IsPrecise latch executor lw_misaligned regs 9 0x100 refl

execute-IsWordOutcome_example : IsWordOutcome (execute latch executor sub_x7 regs 9 0x100)
unfolding execute execute_type decode decode_op
execute-IsWordOutcome_example =
    execute-IsWordOutcome latch executor sub_x7 regs 9 0x100 latch-IsWordBus regs-IsWords
      (omega arith)

sub_x7_result : RegFile.read (execute latch executor sub_x7 regs 9 0x100).regs 7 ≡ 0xffff_fffc
unfolding execute execute_type decode RegFile.read decode_op RegFile.write
sub_x7_result = refl

abbrev minus_one : ℕ
minus_one = 0xffff_ffff

divide-remainder_example :
    (add32 (mul32 (divide 0x8000_0000 minus_one) minus_one) (remainder 0x8000_0000 minus_one)
      ≡ 0x8000_0000)
    × (((minus_one ≡ 0) × (divide 0x8000_0000 minus_one ≡ 0xffff_ffff))
        ⊎ (magnitude (remainder 0x8000_0000 minus_one) < magnitude minus_one))
divide-remainder_example = divide-remainder 0x8000_0000 minus_one (omega arith) (omega arith)

mul_high-mul_example :
    signed 64 (mul_high 0xffff_ffff 3 * 2 ^ 32 + mul32 0xffff_ffff 3)
    ≡ signed32 0xffff_ffff *ℤ signed32 3
mul_high-mul_example = mul_high-mul 0xffff_ffff 3 (omega arith) (omega arith)
