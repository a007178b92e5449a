-- ===== src/Cpu/Run.antt =====
-- riscv_cpu.hpp: `run` against the repetition of `step`.
use rv32_complete_v.Prelude.{
  ℕ, zero, suc, ◌≤◌, ◌≡◌, refl, ap, ◌⊎◌, inl, inr, Bool, true, false, not, ◌&&◌, arith, Bool-cases,
  if◌then◌else◌,
}
use rv32_complete_v.Common.Bus.{Bus}
use rv32_complete_v.Rv32f.Host.{Host}
use rv32_complete_v.Cpu.State.{Cpu, CpuExecResult}
use rv32_complete_v.Cpu.Step.{step, run, Ran, stops}

-- A step that ends a run which is to stop on traps: it took an exception or an interrupt.
abbrev pub is_last : Bool → CpuExecResult → Bool
is_last false r = false
is_last true r = if r.trap then true else r.interrupt

stops-is_last :
    (stop_on_trap : Bool) (r : CpuExecResult) → stops stop_on_trap r ≡ is_last stop_on_trap r
stops-is_last false r = refl
stops-is_last true r = ground arith

module _ {B : Type 0} (host : Host) (bus : Bus B) where
  -- The hart and the bus after so many steps.
  abbrev pub after : ℕ → Cpu → B → Cpu × B
  after zero cpu m = (cpu, m)
  after (suc n) cpu m = let s = step host bus cpu m in after n s.cpu s.bus

  -- The result of the step that follows so many others.
  abbrev pub result_at : ℕ → Cpu → B → CpuExecResult
  result_at zero cpu m = (step host bus cpu m).result
  result_at (suc n) cpu m = let s = step host bus cpu m in result_at n s.cpu s.bus

  -- Whether none of the first steps meets the condition to stop.
  abbrev pub goes_on : ℕ → Bool → Cpu → B → Bool
  goes_on zero stop_on_trap cpu m = true
  goes_on (suc n) stop_on_trap cpu m =
      let s = step host bus cpu m in
      not (is_last stop_on_trap s.result) && goes_on n stop_on_trap s.cpu s.bus

  abbrev pub all_but_last : ℕ → ℕ
  all_but_last zero = zero
  all_but_last (suc n) = n

  -- A run is the first steps up to the limit or to the first that stops it.
  pub record IsRun (n : ℕ) (stop_on_trap : Bool) (cpu : Cpu) (m : B) (r : Ran B) : Type 0 where
    pub bounded : r.count ≤ n
    pub state : ◌≡◌ {A = Cpu × B} (r.cpu, r.bus) (after r.count cpu m)
    pub unstopped : goes_on (all_but_last r.count) stop_on_trap cpu m ≡ true
    pub ended :
        (r.count ≡ n)
        ⊎ ((k : ℕ) × (r.count ≡ suc k) × (is_last stop_on_trap (result_at k cpu m) ≡ true))

  stopped-IsRun :
      (n : ℕ) (stop_on_trap : Bool) (cpu : Cpu) (m : B)
      → is_last stop_on_trap (step host bus cpu m).result ≡ true
      → IsRun
          (suc n)
          stop_on_trap
          cpu
          m
          (record { count = 1; cpu = (step host bus cpu m).cpu; bus = (step host bus cpu m).bus })
  stopped-IsRun n stop_on_trap cpu m h = record {
    bounded = omega arith;
    state = refl;
    unstopped = refl;
    ended = inr (0, refl, h);
  }

  step-goes_on :
      (c : ℕ) (stop_on_trap : Bool) (cpu : Cpu) (m : B)
      → is_last stop_on_trap (step host bus cpu m).result ≡ false
      → goes_on (all_but_last c) stop_on_trap (step host bus cpu m).cpu (step host bus cpu m).bus
        ≡ true
      → goes_on c stop_on_trap cpu m ≡ true
  step-goes_on zero stop_on_trap cpu m h g = refl
  step-goes_on (suc c) stop_on_trap cpu m h g = rw h g

  step-IsRun :
      (n : ℕ) (stop_on_trap : Bool) (cpu : Cpu) (m : B) (r : Ran B)
      → is_last stop_on_trap (step host bus cpu m).result ≡ false
      → IsRun n stop_on_trap (step host bus cpu m).cpu (step host bus cpu m).bus r
      → IsRun (suc n) stop_on_trap cpu m (record r { count = suc r.count })
  step-IsRun n stop_on_trap cpu m r h i = record {
    bounded = omega (arith, i.bounded);
    state = i.state;
    unstopped = step-goes_on r.count stop_on_trap cpu m h i.unstopped;
    ended = elim i.ended [ inl e ↦ inl (ap suc e) | inr (k, e, t) ↦ inr (suc k, ap suc e, t) ];
  }

  -- `run` ends after at most `max_instructions` steps and leaves what that many repetitions of `step` leave. No
  -- step before the last took an exception or an interrupt, if the run is to stop on them; and the number of
  -- steps is the limit, or the run is to stop on them and the last step took one.
  pub run-IsRun :
      (n : ℕ) (stop_on_trap : Bool) (cpu : Cpu) (m : B)
      → IsRun n stop_on_trap cpu m (run host bus n stop_on_trap cpu m)
  unfolding run
  run-IsRun zero stop_on_trap cpu m = record {
    bounded = omega arith;
    state = refl;
    unstopped = refl;
    ended = inl refl;
  }
  run-IsRun (suc n) stop_on_trap cpu m =
      let s = step host bus cpu m in
      let rest = run-IsRun n stop_on_trap s.cpu s.bus in
      elim (Bool-cases (is_last stop_on_trap s.result)) [
        | inl e ↦ rw (stops-is_last stop_on_trap s.result, e) (stopped-IsRun n stop_on_trap cpu m e)
        | inr e ↦
            rw (stops-is_last stop_on_trap s.result, e)
              (step-IsRun n stop_on_trap cpu m (run host bus n stop_on_trap s.cpu s.bus) e rest)
      ]
