-- ===== src/Examples/Illegal.antt =====
-- Tests of riscv_illegal_opgen.hpp.
use rv32_complete_v.Opgen.Source.{Yields}
use rv32_complete_v.Opgen.Generator as Class
use rv32_complete_v.Opgen.Random.{reaches}
use rv32_complete_v.Opgen.Illegal.FloatWords.{IsFair}
use rv32_complete_v.Opgen.Illegal.Table.{count, generate_random}
use rv32_complete_v.Opgen.Illegal.Random.{is_settled, IsRejectedSample, generate_random-IsRejected}
use rv32_complete_v.Examples.Random.{counter, counter-IsInRange}
use rv32_complete_v.Prelude.{
  ℕ, zero, suc, ◌+◌, ◌-◌, ◌%◌, ◌<◌, ◌≡◌, refl, Bool, true, not, ◌||◌, arith, below-at,
}

counter-reaches :
    (ok : ℕ → Bool) (k fuel g : ℕ)
    → k < fuel
    → ok ((g + k) % 32) ≡ true
    → reaches counter ok 31 fuel g ≡ true
unfolding reaches
counter-reaches ok k zero g lt h = absurd (omega arith)
counter-reaches ok zero (suc fuel) g lt h =
    let e : (g + 0) % 32 ≡ 0 + g % 32 = omega arith in
    let first : ok (0 + g % 32) ≡ true = rw e at h in ground arith
counter-reaches ok (suc k) (suc fuel) g lt h =
    let e : (g + suc k) % 32 ≡ (g + 1 + k) % 32 = omega arith in
    let later = counter-reaches ok k fuel (g + 1) (omega arith) (rw e at h) in ground arith

-- Of 32 draws in a row, one is the number that passes.
counter-IsFair : IsFair counter 32
counter-IsFair ok v g le h =
    let e : v ≡ (g + (v + 32 - g % 32) % 32) % 32 = omega arith in
    counter-reaches ok ((v + 32 - g % 32) % 32) 32 g (omega arith) (rw e at h)

-- The classes of bad loads (3), of bad operations of AMO (27) and of C.LUI (35).
abbrev three_classes : ℕ
three_classes = 0x8_0800_0008

generate_random-IsRejected_example :
    Yields
      (IsRejectedSample true (Class.legalized three_classes))
      (generate_random counter 32 three_classes 14)
unfolding Class.legalized Class.selects reaches is_settled
generate_random-IsRejected_example =
    generate_random-IsRejected counter counter-IsInRange true 32 counter-IsFair three_classes 14
      (λ idx lt y. ground (
        arith,
        y,
        below-at count (λ i. not (Class.selects three_classes i) || is_settled i) refl idx lt,
      ))
      refl
