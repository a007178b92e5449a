-- ===== src/Cpu/EvenPc.antt =====
-- riscv_cpu.hpp: the pc stays even, step after step.
use rv32_complete_v.Common.Exception.{illegal_instruction, instr_access_fault, interrupt_bit}
use rv32_complete_v.Common.Bus.{Bus}
use rv32_complete_v.Zicsr.Addr
use rv32_complete_v.Zicsr.File.{CsrFile, get}
use rv32_complete_v.Rv32f.Host.{Host}
use rv32_complete_v.Rv32fc as Fc
use rv32_complete_v.Cpu.State.{Cpu, CpuExecResult}
use rv32_complete_v.Cpu.Trap.{is_supervisor, delegate_target, enter_m_trap, enter_s_trap}
use rv32_complete_v.Cpu.Interrupt.{deliver, vector}
use rv32_complete_v.Cpu.Delivery.{vector-aligned}
use rv32_complete_v.Cpu.Counters.{finish_step, bump_cycle, bump_instret, bump}
use rv32_complete_v.Cpu.EvenCsrs.{
  IsEvenFile, IsEven, set-IsEvenFile, enter_m_trap-IsEvenFile, enter_s_trap-IsEvenFile,
}
use rv32_complete_v.Cpu.EvenStep.{
  IsEvenStep, raise-IsEvenStep, dispatch-IsEvenStep, compressed_op-IsEvenStep,
  compressed_float_op-IsEvenStep,
}
use rv32_complete_v.Cpu.Dispatch.{Stepped, execute_32bit, execute_compressed}
use rv32_complete_v.Cpu.Step.{
  finished, execute_half, execute_fetched, fetched_first, fetched_second,
}
use rv32_complete_v.Prelude.{
  if_either, ℕ, ◌%◌, bit_and, bit_or, ◌≡◌, refl, ◌⊎◌, inl, inr, Bool, true, false, not, ◌&&◌,
  Option, none, some, arith, ◌==◌, Bool-cases, u16, add32, shl32,
}

-- The pc, the mask of mepc and sepc, and both registers are even.
pub record IsEvenHart (cpu : Cpu) : Type 0 where
  pub pc_even : cpu.pc % 2 ≡ 0
  pub file_even : IsEvenFile cpu.csrs

pub bump-IsEvenFile :
    (f : CsrFile) (lo hi : ℕ)
    → (Addr.mepc == lo) ≡ false
    → (Addr.sepc == lo) ≡ false
    → (Addr.mepc == hi) ≡ false
    → (Addr.sepc == hi) ≡ false
    → IsEvenFile f
    → IsEvenFile (bump f lo hi)
unfolding bump
bump-IsEvenFile f lo hi a b c d e = set-IsEvenFile _ hi _ c d (set-IsEvenFile f lo _ a b e)

finished-IsEvenHart : {B : Type 0} (s : Stepped B) → IsEvenStep s → IsEvenHart (finished s).cpu
unfolding finished finish_step bump_cycle bump_instret
finished-IsEvenHart s e =
    let cycled =
      bump-IsEvenFile s.cpu.csrs Addr.mcycle Addr.mcycleh refl refl refl refl e.even.file in
    if_either IsEvenHart (not s.result.trap) _ _
      (record {
        pc_even = e.even.next_pc;
        file_even = bump-IsEvenFile _ Addr.minstret Addr.minstreth refl refl refl refl cycled;
      })
      (record { pc_even = e.even.next_pc; file_even = cycled })

module _ {B : Type 0} (host : Host) (bus : Bus B) (cpu : Cpu) (even : IsEvenHart cpu) where
  half-IsEvenStep :
      (r : CpuExecResult) (m : B) (instr : ℕ)
      → r.next_pc % 2 ≡ 0
      → IsEvenStep (execute_half host bus cpu r m instr)
  unfolding execute_half execute_compressed
  half-IsEvenStep r m instr next =
      let sized : CpuExecResult = record r { instr_size = 2 } in
      if_either IsEvenStep (not cpu.config.enable_c_extension) _ _
        (raise-IsEvenStep cpu sized m illegal_instruction (bit_and instr 0xffff) even.file_even)
        (if_either IsEvenStep (cpu.config.enable_f_extension && Fc.is_compressed_float (u16 instr))
          _ _
          (compressed_float_op-IsEvenStep host bus cpu sized m next even.file_even even.pc_even
            (u16 instr))
          (compressed_op-IsEvenStep host bus cpu sized m next even.file_even even.pc_even
            (u16 instr)))

  fetched-IsEvenHart :
      (r : CpuExecResult) (m : B) (instr : ℕ) (is_32bit : Bool)
      → r.next_pc % 2 ≡ 0
      → IsEvenHart (execute_fetched host bus cpu r m instr is_32bit).cpu
  unfolding execute_fetched execute_32bit
  fetched-IsEvenHart r m instr is_32bit next =
      let four : (add32 cpu.pc 4) % 2 ≡ 0 = omega (arith, even.pc_even) in
      finished-IsEvenHart _ (
        if_either IsEvenStep (not is_32bit) _ _ (half-IsEvenStep r m instr next) (
          dispatch-IsEvenStep host bus cpu (record r { next_pc = add32 cpu.pc 4 }) m four
            even.file_even even.pc_even instr))

  second-IsEvenHart :
      (r : CpuExecResult) (parcel0 : ℕ) (parcel1 : Option ℕ) (m : B)
      → r.next_pc % 2 ≡ 0
      → IsEvenHart (fetched_second host bus cpu r parcel0 (parcel1, m)).cpu
  unfolding fetched_second
  second-IsEvenHart r parcel0 none m next =
      finished-IsEvenHart _
        (raise-IsEvenStep cpu r m instr_access_fault (add32 cpu.pc 2) even.file_even)
  second-IsEvenHart r parcel0 (some parcel1) m next =
      let instr : ℕ = bit_or parcel0 (shl32 parcel1 16) in
      fetched-IsEvenHart (record r { instruction = instr }) m instr true next

  pub first-IsEvenHart :
      (r : CpuExecResult) (parcel0 : Option ℕ) (m : B)
      → r.next_pc % 2 ≡ 0
      → IsEvenHart (fetched_first host bus cpu r (parcel0, m)).cpu
  unfolding fetched_first
  first-IsEvenHart r none m next =
      finished-IsEvenHart _ (raise-IsEvenStep cpu r m instr_access_fault cpu.pc even.file_even)
  first-IsEvenHart r (some parcel0) m next =
      if_either (λ (s : Stepped B). IsEvenHart s.cpu) (bit_and parcel0 0x3 == 0x3) _ _
        (second-IsEvenHart r parcel0 (bus.fetch16 m (add32 cpu.pc 2)).0 _ next)
        (fetched-IsEvenHart (record r { instruction = parcel0 }) m parcel0 false next)

-- What `begin_step` returns: the hart as it was and a result that leads to its pc, or an even hart.
abbrev pub IsBegun : Cpu → Bool × Cpu × CpuExecResult → Type 0
IsBegun cpu (taken, cpu', r') =
    ((taken ≡ false) × (cpu' ≡ cpu) × (r'.next_pc ≡ cpu.pc)) ⊎ ((taken ≡ true) × IsEvenHart cpu')

vector_even : (tvec code : ℕ) → vector tvec code % 2 ≡ 0
vector_even tvec code = omega (arith, vector-aligned tvec code)

pub deliver-IsEvenHart :
    (cpu : Cpu) (r : CpuExecResult) (c : ℕ)
    → IsEvenFile cpu.csrs
    → IsEven (deliver cpu r c).0 (deliver cpu r c).1
unfolding deliver
deliver-IsEvenHart cpu r c e =
    let cause : ℕ = bit_or interrupt_bit c in
    elim (Bool-cases (is_supervisor (delegate_target cpu cause true))) [
      | inl s ↦ rw s (record {
        next_pc = vector_even (get (enter_s_trap cpu cause 0 cpu.pc).csrs Addr.stvec) c;
        file = enter_s_trap-IsEvenFile cpu cause 0 cpu.pc e;
      })
      | inr s ↦ rw s (record {
        next_pc = vector_even (get (enter_m_trap cpu cause 0 cpu.pc).csrs Addr.mtvec) c;
        file = enter_m_trap-IsEvenFile cpu cause 0 cpu.pc e;
      })
    ]
