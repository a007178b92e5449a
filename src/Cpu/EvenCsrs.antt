-- ===== src/Cpu/EvenCsrs.antt =====
-- riscv_cpu.hpp and riscv_zicsr.hpp: mepc and sepc stay even, and traps and returns lead to even addresses.
use rv32_complete_v.Cpu.Trap.{m_trap_mstatus, s_trap_mstatus}
use rv32_complete_v.Prelude.{
  if_either, ℕ, ◌%◌, bit_and, ◌≡◌, refl, inl, inr, false, ◌∷◌, arith, ◌==◌, Bool-cases, bit-bit_and,
  not32,
}
use rv32_complete_v.Zicsr.Addr
use rv32_complete_v.Zicsr.File.{CsrFile, get, set}
use rv32_complete_v.Zicsr.Access.{write, write_value}
use rv32_complete_v.Cpu.State.{Cpu, CpuExecResult}
use rv32_complete_v.Cpu.Trap.{
  take_exception, enter_m_trap, enter_s_trap, delegate_target, is_supervisor,
}
use rv32_complete_v.Cpu.Return.{do_mret, do_sret}

-- The mask of mepc and sepc clears the lowest digit, and so is that of both registers.
pub record IsEvenFile (f : CsrFile) : Type 0 where
  pub mask : f.mepc_mask % 2 ≡ 0
  pub mepc : get f Addr.mepc % 2 ≡ 0
  pub sepc : get f Addr.sepc % 2 ≡ 0

masked_even : (v mask : ℕ) → mask % 2 ≡ 0 → bit_and v mask % 2 ≡ 0
masked_even v mask h = omega (arith, bit-bit_and v mask 0)

mask-write_value : (f : CsrFile) (a v : ℕ) → (write_value f a v).mepc_mask ≡ f.mepc_mask
unfolding write_value set
mask-write_value f a v = ground arith

mepc-write_value :
    (f : CsrFile) (a v : ℕ)
    → f.mepc_mask % 2 ≡ 0
    → get f Addr.mepc % 2 ≡ 0
    → get (write_value f a v) Addr.mepc % 2 ≡ 0
unfolding write_value set get
mepc-write_value f a v h k = ground (arith, masked_even v f.mepc_mask h)

sepc-write_value :
    (f : CsrFile) (a v : ℕ)
    → f.mepc_mask % 2 ≡ 0
    → get f Addr.sepc % 2 ≡ 0
    → get (write_value f a v) Addr.sepc % 2 ≡ 0
unfolding write_value set get
sepc-write_value f a v h k = ground (arith, masked_even v f.mepc_mask h)

write_value-IsEvenFile : (f : CsrFile) (a v : ℕ) → IsEvenFile f → IsEvenFile (write_value f a v)
write_value-IsEvenFile f a v e = record {
  mask = omega (arith, mask-write_value f a v, e.mask);
  mepc = mepc-write_value f a v e.mask e.mepc;
  sepc = sepc-write_value f a v e.mask e.sepc;
}

pub write-IsEvenFile : (f : CsrFile) (a v : ℕ) → IsEvenFile f → IsEvenFile (write f a v)
unfolding write get
write-IsEvenFile f a v e =
    let noted : CsrFile = record f { observed = (a, v) ∷ f.observed } in
    let same : IsEvenFile noted = record { mask = e.mask; mepc = e.mepc; sepc = e.sepc } in
    write_value-IsEvenFile _ a v (if_either IsEvenFile f.write_callback noted f same e)

-- A raw write to another register.
pub set-IsEvenFile :
    (f : CsrFile) (a v : ℕ)
    → (Addr.mepc == a) ≡ false
    → (Addr.sepc == a) ≡ false
    → IsEvenFile f
    → IsEvenFile (set f a v)
unfolding set get
set-IsEvenFile f a v m s e = record { mask = e.mask; mepc = rw m e.mepc; sepc = rw s e.sepc }

pub enter_m_trap-IsEvenFile :
    (cpu : Cpu) (cause tval trap_pc : ℕ)
    → IsEvenFile cpu.csrs
    → IsEvenFile (enter_m_trap cpu cause tval trap_pc).csrs
unfolding enter_m_trap get
enter_m_trap-IsEvenFile cpu cause tval trap_pc e =
    let status : ℕ = m_trap_mstatus (get cpu.csrs Addr.mstatus) cpu.csrs.current_privilege in
    let f = set-IsEvenFile cpu.csrs Addr.mstatus status refl refl e in
    set-IsEvenFile _ Addr.mtval tval refl refl (
      set-IsEvenFile _ Addr.mcause cause refl refl (
        write-IsEvenFile _ Addr.mepc trap_pc
          (record { mask = f.mask; mepc = f.mepc; sepc = f.sepc })))

pub enter_s_trap-IsEvenFile :
    (cpu : Cpu) (cause tval trap_pc : ℕ)
    → IsEvenFile cpu.csrs
    → IsEvenFile (enter_s_trap cpu cause tval trap_pc).csrs
unfolding enter_s_trap get
enter_s_trap-IsEvenFile cpu cause tval trap_pc e =
    let status : ℕ = s_trap_mstatus (get cpu.csrs Addr.mstatus) cpu.csrs.current_privilege in
    let f = set-IsEvenFile cpu.csrs Addr.mstatus status refl refl e in
    set-IsEvenFile _ Addr.stval tval refl refl (
      set-IsEvenFile _ Addr.scause cause refl refl (
        write-IsEvenFile _ Addr.sepc trap_pc
          (record { mask = f.mask; mepc = f.mepc; sepc = f.sepc })))

-- The next pc is even, and so are mepc and sepc.
pub record IsEven (cpu : Cpu) (r : CpuExecResult) : Type 0 where
  pub next_pc : r.next_pc % 2 ≡ 0
  pub file : IsEvenFile cpu.csrs

pub take_exception-IsEven :
    (cpu : Cpu) (r : CpuExecResult) (cause tval : ℕ)
    → IsEvenFile cpu.csrs
    → IsEven (take_exception cpu r cause tval).0 (take_exception cpu r cause tval).1
unfolding take_exception
take_exception-IsEven cpu r cause tval e =
    elim (Bool-cases (is_supervisor (delegate_target cpu cause false))) [
      | inl s ↦ rw s (record {
        next_pc = masked_even _ (not32 0x3) refl;
        file = enter_s_trap-IsEvenFile cpu cause tval cpu.pc e;
      })
      | inr s ↦ rw s (record {
        next_pc = masked_even _ (not32 0x3) refl;
        file = enter_m_trap-IsEvenFile cpu cause tval cpu.pc e;
      })
    ]

pub do_mret-IsEven :
    (cpu : Cpu) (r : CpuExecResult)
    → IsEvenFile cpu.csrs
    → IsEven (do_mret cpu r).0 (do_mret cpu r).1
unfolding do_mret get set
do_mret-IsEven cpu r e = record {
  next_pc = e.mepc;
  file = record { mask = e.mask; mepc = e.mepc; sepc = e.sepc };
}

pub do_sret-IsEven :
    (cpu : Cpu) (r : CpuExecResult)
    → IsEvenFile cpu.csrs
    → IsEven (do_sret cpu r).0 (do_sret cpu r).1
unfolding do_sret get set
do_sret-IsEven cpu r e = record {
  next_pc = e.sepc;
  file = record { mask = e.mask; mepc = e.mepc; sepc = e.sepc };
}
