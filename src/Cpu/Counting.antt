-- ===== src/Cpu/Counting.antt =====
-- riscv_cpu.hpp: the counters of cycles and of retired instructions, as numbers of 64 bits.
use rv32_complete_v.Zicsr.Addr
use rv32_complete_v.Zicsr.File.{CsrFile, get, set}
use rv32_complete_v.Cpu.State.{Cpu, CpuExecResult}
use rv32_complete_v.Cpu.Counters.{bump, bump_cycle, bump_instret, finish_step}
use rv32_complete_v.Prelude.{
  ℕ, ◌+◌, ◌*◌, ◌/◌, ◌%◌, ◌^◌, ◌<◌, bit_or, ◌≡◌, refl, ap, ◌∙◌, ◌≢◌, inl, inr, Bool, true, false,
  not, arith, ◌==◌, if◌then◌else◌, Bool-cases, bit_or_join, u32, u64,
}

-- The number that the registers `lo` and `hi` hold together.
abbrev pub count : CsrFile → ℕ → ℕ → ℕ
count f lo hi = get f hi * 2 ^ 32 + get f lo

get-bump :
    (f : CsrFile) (lo hi a : ℕ)
    → get (bump f lo hi) a ≡ (
        let n = u64 (bit_or (u64 (get f hi * 2 ^ 32)) (get f lo) + 1) in
        if a == hi then u32 (n / 2 ^ 32) else if a == lo then u32 n else get f a)
unfolding bump get set
get-bump f lo hi a = ground arith

join-count : (h l : ℕ) → h < 2 ^ 32 → l < 2 ^ 32 → bit_or (u64 (h * 2 ^ 32)) l ≡ h * 2 ^ 32 + l
join-count h l p q =
    let fits : u64 (h * 2 ^ 32) ≡ h * 2 ^ 32 = omega arith in
    ap (λ (t : ℕ). bit_or t l) fits ∙ bit_or_join 32 h l q

count-bump :
    (f : CsrFile) (lo hi : ℕ)
    → lo ≢ hi
    → get f lo < 2 ^ 32
    → get f hi < 2 ^ 32
    → count (bump f lo hi) lo hi ≡ (count f lo hi + 1) % 2 ^ 64
count-bump f lo hi d p q =
    ground (arith, get-bump f lo hi lo, get-bump f lo hi hi, join-count (get f hi) (get f lo) q p)

bump-other : (f : CsrFile) (lo hi a : ℕ) → a ≢ lo → a ≢ hi → get (bump f lo hi) a ≡ get f a
bump-other f lo hi a p q = ground (arith, get-bump f lo hi a)

csrs-finish_step :
    (cpu : Cpu) (r : CpuExecResult)
    → (finish_step cpu r).csrs ≡ (
        if not r.trap
        then bump (bump cpu.csrs Addr.mcycle Addr.mcycleh) Addr.minstret Addr.minstreth
        else bump cpu.csrs Addr.mcycle Addr.mcycleh)
unfolding finish_step bump_cycle bump_instret
csrs-finish_step cpu r = elim (Bool-cases r.trap) [ inl e ↦ rw e refl | inr e ↦ rw e refl ]

pc-finish_step : (cpu : Cpu) (r : CpuExecResult) → (finish_step cpu r).pc ≡ r.next_pc
unfolding finish_step bump_cycle bump_instret
pc-finish_step cpu r = elim (Bool-cases r.trap) [ inl e ↦ rw e refl | inr e ↦ rw e refl ]

abbrev pub cycles : CsrFile → ℕ
cycles f = count f Addr.mcycle Addr.mcycleh

abbrev pub instructions : CsrFile → ℕ
instructions f = count f Addr.minstret Addr.minstreth

-- The two pairs of registers are apart.
instructions-bump_cycle :
    (f : CsrFile)
    → (get (bump f Addr.mcycle Addr.mcycleh) Addr.minstret ≡ get f Addr.minstret)
      × (get (bump f Addr.mcycle Addr.mcycleh) Addr.minstreth ≡ get f Addr.minstreth)
instructions-bump_cycle f = (
  bump-other f Addr.mcycle Addr.mcycleh Addr.minstret (omega arith) (omega arith),
  bump-other f Addr.mcycle Addr.mcycleh Addr.minstreth (omega arith) (omega arith),
)

cycles-bump_instret : (f : CsrFile) → cycles (bump f Addr.minstret Addr.minstreth) ≡ cycles f
cycles-bump_instret f = omega (
  arith,
  bump-other f Addr.minstret Addr.minstreth Addr.mcycle (omega arith) (omega arith),
  bump-other f Addr.minstret Addr.minstreth Addr.mcycleh (omega arith) (omega arith),
)

both :
    (f : CsrFile) (trap : Bool)
    → ((a : ℕ) → get f a < 2 ^ 32)
    → let g = bump f Addr.mcycle Addr.mcycleh in
      let h = if not trap then bump g Addr.minstret Addr.minstreth else g in
      (cycles h ≡ (cycles f + 1) % 2 ^ 64)
      × (instructions h ≡ (if trap then instructions f else (instructions f + 1) % 2 ^ 64))
both f true w = (
  count-bump f Addr.mcycle Addr.mcycleh (omega arith) (w Addr.mcycle) (w Addr.mcycleh),
  omega (arith, instructions-bump_cycle f),
)
both f false w =
    let g : CsrFile = bump f Addr.mcycle Addr.mcycleh in
    (
      cycles-bump_instret g
          ∙ count-bump f Addr.mcycle Addr.mcycleh (omega arith) (w Addr.mcycle) (w Addr.mcycleh),
      omega (
        arith,
        instructions-bump_cycle f,
        count-bump g Addr.minstret Addr.minstreth (omega arith)
            (omega (arith, instructions-bump_cycle f, w Addr.minstret))
            (omega (arith, instructions-bump_cycle f, w Addr.minstreth)),
      ),
    )

-- At the end of a step, if every register holds a word, the number in mcycle and mcycleh is one more,
-- modulo 2^64, the number in minstret and minstreth is one more unless the step trapped, and the pc is
-- the next pc of the result.
pub finish_step-count :
    (cpu : Cpu) (r : CpuExecResult)
    → ((a : ℕ) → get cpu.csrs a < 2 ^ 32)
    → (cycles (finish_step cpu r).csrs ≡ (cycles cpu.csrs + 1) % 2 ^ 64)
      × (instructions (finish_step cpu r).csrs
          ≡ (if r.trap then instructions cpu.csrs else (instructions cpu.csrs + 1) % 2 ^ 64))
      × ((finish_step cpu r).pc ≡ r.next_pc)
finish_step-count cpu r w =
    let (c, i) = both cpu.csrs r.trap w in
    (
      ap cycles (csrs-finish_step cpu r) ∙ c,
      ap instructions (csrs-finish_step cpu r) ∙ i,
      pc-finish_step cpu r,
    )
