-- ===== src/Cpu/Eligible.antt =====
-- riscv_cpu.hpp: when an interrupt is taken to M-mode or to S-mode, by the digits of the registers.
use rv32_complete_v.Common.Exception.{supervisor, machine, level, interrupt_bit}
use rv32_complete_v.Zicsr.Addr
use rv32_complete_v.Zicsr.File.{get}
use native.Mathlib.Nat.{pow-suc, one-le-pow, div-div-eq-div-mul}
use rv32_complete_v.Cpu.State.{Cpu}
use rv32_complete_v.Cpu.Trap.{delegate_target, interrupt_globally_enabled}
use rv32_complete_v.Cpu.Interrupt.{is_taken}
use rv32_complete_v.Prelude.{
  ℕ, zero, suc, ◌*◌, ◌/◌, ◌%◌, ◌^◌, ◌≤◌, ◌<◌, bit_and, bit_or, ◌≡◌, refl, sym, inl, inr, Bool, true,
  false, not, ◌&&◌, ◌||◌, arith, ltb, ◌==◌, ◌!=◌, if◌then◌else◌, Bool-cases, bit, bit-lt,
  bit_and_mask, shl32, table, bit_and_pow,
}

-- The interrupt is delegated to S-mode, on a hart that has it.
unfoldable pub is_delegated : Cpu → ℕ → Bool
is_delegated cpu code = cpu.config.enable_s_mode && bit (get cpu.csrs Addr.mideleg) code == 1

-- It is pending and not delegated, and the hart is below M-mode or in M-mode with mstatus.MIE on.
unfoldable pub reaches_machine : Cpu → ℕ → ℕ → Bool
unfolding is_delegated
reaches_machine cpu pending code =
    bit pending code == 1
    && not (is_delegated cpu code)
    && (ltb (level cpu.csrs.current_privilege) 3 || bit (get cpu.csrs Addr.mstatus) 3 == 1)

-- It is pending and delegated, and the hart is in U-mode or in S-mode with mstatus.SIE on.
unfoldable pub reaches_supervisor : Cpu → ℕ → ℕ → Bool
unfolding is_delegated
reaches_supervisor cpu pending code =
    bit pending code == 1
    && is_delegated cpu code
    && (level cpu.csrs.current_privilege == 0
        || level cpu.csrs.current_privilege == 1 && bit (get cpu.csrs Addr.mstatus) 1 == 1)

digit_at : (k x : ℕ) → x / 2 ^ k % 2 ≡ bit x k
digit_at zero x = omega arith
digit_at (suc k) x =
    let e : 2 ^ suc k ≡ 2 * 2 ^ k = omega (arith, pow-suc 2 k) in
    rw (e, sym (div-div-eq-div-mul x 2 (2 ^ k))) (digit_at k (x / 2))

code_of_cause : (code : ℕ) → code < 32 → bit_and (bit_or interrupt_bit code) 0x7fff_ffff ≡ code
code_of_cause = table 32 (λ c. bit_and (bit_or interrupt_bit c) 0x7fff_ffff) (λ c. c) refl

digit_mask : (code : ℕ) → code < 32 → shl32 1 code ≡ 2 ^ code
digit_mask = table 32 (λ c. shl32 1 c) (λ c. 2 ^ c) refl

pending_digit :
    (pending code : ℕ) → code < 32 → (bit_and pending (shl32 1 code) != 0) ≡ (bit pending code == 1)
pending_digit pending code lt =
    rw (digit_mask code lt, bit_and_pow code pending)
      (digit_test (bit pending code) (2 ^ code) (bit-lt pending code)
        (one-le-pow code 2 (omega arith)))
  where
    digit_test : (b m : ℕ) → b < 2 → 1 ≤ m → (b * m != 0) ≡ (b == 1)
    digit_test zero m h p = ground arith
    digit_test (suc zero) m h p = ground arith
    digit_test (suc (suc b)) m h p = absurd (omega arith)

target_lem :
    (cpu : Cpu) (code : ℕ)
    → code < 32
    → delegate_target cpu (bit_or interrupt_bit code) true
      ≡ (if is_delegated cpu code then supervisor else machine)
unfolding delegate_target is_delegated
target_lem cpu code lt = rw (code_of_cause code lt) (
    ground (
      arith,
      bit_and_mask 1 (get cpu.csrs Addr.mideleg / 2 ^ code),
      digit_at code (get cpu.csrs Addr.mideleg),
    ))

enabled_machine :
    (cpu : Cpu)
    → interrupt_globally_enabled cpu machine
      ≡ (ltb (level cpu.csrs.current_privilege) 3 || bit (get cpu.csrs Addr.mstatus) 3 == 1)
unfolding interrupt_globally_enabled
enabled_machine cpu =
    ground (arith, bit_and_pow 3 (get cpu.csrs Addr.mstatus), bit-lt (get cpu.csrs Addr.mstatus) 3)

enabled_supervisor :
    (cpu : Cpu)
    → interrupt_globally_enabled cpu supervisor ≡ (
        level cpu.csrs.current_privilege == 0
        || level cpu.csrs.current_privilege == 1 && bit (get cpu.csrs Addr.mstatus) 1 == 1)
unfolding interrupt_globally_enabled
enabled_supervisor cpu =
    ground (arith, bit_and_pow 1 (get cpu.csrs Addr.mstatus), bit-lt (get cpu.csrs Addr.mstatus) 1)

pub is_taken_machine :
    (cpu : Cpu) (pending code : ℕ)
    → code < 32
    → is_taken cpu true pending code ≡ reaches_machine cpu pending code
unfolding is_taken reaches_machine
is_taken_machine cpu pending code lt =
    rw (target_lem cpu code lt, pending_digit pending code lt)
      (elim (Bool-cases (is_delegated cpu code)) [
        | inl e ↦ rw e (ground arith)
        | inr e ↦ rw (e, enabled_machine cpu) (ground arith)
      ])

pub is_taken_supervisor :
    (cpu : Cpu) (pending code : ℕ)
    → code < 32
    → is_taken cpu false pending code ≡ reaches_supervisor cpu pending code
unfolding is_taken reaches_supervisor
is_taken_supervisor cpu pending code lt =
    rw (target_lem cpu code lt, pending_digit pending code lt)
      (elim (Bool-cases (is_delegated cpu code)) [
        | inl e ↦ rw (e, enabled_supervisor cpu) (ground arith)
        | inr e ↦ rw e (ground arith)
      ])
