-- ===== src/Examples/Random.antt =====
-- Tests of the riscv_*_opgen.hpp headers and of riscv_opcode_classify.hpp.
use rv32_complete_v.Opgen.Source.{Source, IsInRange, Yields}
use rv32_complete_v.Opgen.Generator as Class
use rv32_complete_v.Opgen.Random.{reaches, IsEnabledWord, generate_random-none}
use rv32_complete_v.Opgen.Picked.{contains, any_enabled, generate_picked-any}
use rv32_complete_v.Opgen.Generator.{is_enabled}
use rv32_complete_v.Opgen.Rv32i as I
use rv32_complete_v.Opgen.Rv32i.Decoding as IDecoding
use rv32_complete_v.Opgen.Rv32f as F
use rv32_complete_v.Opgen.Rv32f.Decoding as FDecoding
use rv32_complete_v.Opgen.Rv32m as M
use rv32_complete_v.Opgen.Rv32m.Decoding as MDecoding
use rv32_complete_v.OpcodeClassify.Exclusive.{wide_classes, short_classes, classes_exclusive}
use rv32_complete_v.Prelude.{
  ℕ, ◌+◌, ◌-◌, ◌%◌, ◌<◌, ◌≤◌, ◌≡◌, refl, not, true, false, none, arith, ◌==◌, [], ◌∷◌, below-at,
  table,
}

-- A source that counts its draws and returns the count, brought between the bounds.
abbrev pub counter : Source ℕ
counter = record {
  uniform = λ lo hi g. (lo + g % (hi - lo + 1), g + 1);
  uniform_signed = λ lo hi g. (lo, g + 1);
  chance = λ p g. (g % 2 == 0, g + 1);
  bits32 = λ g. (g, g + 1);
}

pub counter-IsInRange : IsInRange counter
counter-IsInRange lo hi g le = omega arith

-- Only SUB (28) and AND (36) of the base set are enabled; the fourth draw is the first of one of them.
abbrev sub_and : ℕ
sub_and = 0x10_1000_0000

generate_random-decode_i_example :
    Yields
      (IsEnabledWord counter
        (I.generators counter)
        I.count
        I.code
        I.of_code
        (IDecoding.IsDecoded false)
        sub_and)
      (I.generate_random counter 4 sub_and 25)
unfolding Class.legalized reaches Class.selects
generate_random-decode_i_example =
    IDecoding.generate_random-decode_i counter counter-IsInRange false 4 sub_and 25 refl

-- Both groups of the M extension are disabled.
abbrev no_groups : ℕ
no_groups = 0xffff_ffff_ffff_ff00

generate_random-none_example :
    Class.generate_random counter (M.generators counter) M.count 1000 no_groups 3 ≡ none
unfolding Class.selects
generate_random-none_example =
    generate_random-none counter (M.generators counter) M.count counter-IsInRange 1000 no_groups 3
      (omega arith) (omega arith)
      (λ idx lt.
        ground (arith, below-at M.count (λ i. not (Class.selects no_groups i)) refl idx lt))

-- Under the default mask no round of a loop is needed.
generate_random-decode_f_example :
    Yields
      (IsEnabledWord counter
        (F.generators counter)
        F.count
        F.code
        F.of_code
        FDecoding.IsDecoded
        Class.all_types)
      (F.generate_random counter 0 Class.all_types 11)
unfolding Class.legalized
generate_random-decode_f_example =
    FDecoding.generate_random-decode_f counter counter-IsInRange 0 Class.all_types 11 refl

-- Of the divisions only REMU (7) is enabled.
abbrev only_remu : ℕ
only_remu = 0x80

abbrev IsDecodedAt : ℕ → ℕ → Type 0
IsDecodedAt idx w = MDecoding.IsDecoded (M.of_code idx) w

divide_types-lt : (idx : ℕ) → contains (4 ∷ 5 ∷ 6 ∷ 7 ∷ []) idx ≡ true → idx < 8
unfolding contains
divide_types-lt idx h = ground arith

divide_word :
    (idx : ℕ) (g : ℕ)
    → contains (M.divide_types counter) idx ≡ true
    → Yields (IsDecodedAt idx) (Class.run_entry counter (M.generators counter) idx g)
unfolding M.generate M.code
divide_word idx g h =
    rw (table 8 (λ i. M.code (M.of_code i)) (λ i. i) refl idx (divide_types-lt idx h)) at
      (MDecoding.generate-decode counter (M.of_code idx) g)

generate_picked-any_example :
    Yields
      (λ w.
        (idx : ℕ) × (contains (M.divide_types counter) idx ≡ true)
        × (is_enabled only_remu idx ≡ true)
        × IsDecodedAt idx w)
      (M.generate_divide counter 0 only_remu 2)
unfolding M.generate_divide any_enabled is_enabled
generate_picked-any_example =
    generate_picked-any counter (M.generators counter) M.count IsDecodedAt 0 only_remu
      (M.divide_types counter) 3 2 refl divide_word

classes_exclusive_example : wide_classes true 0x0231_00b3 + short_classes 0x0231_00b3 ≤ 1
classes_exclusive_example = classes_exclusive true 0x0231_00b3
