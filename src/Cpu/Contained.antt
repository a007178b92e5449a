-- ===== src/Cpu/Contained.antt =====
-- riscv_cpu.hpp: what an instruction can do to the hart, for each group of the dispatch.
use rv32_complete_v.Prelude.{
  if_either, ℕ, ◌≤◌, bit_and, ◌≡◌, refl, ap, ◌∙◌, inl, inr, Bool, true, false, not, ◌&&◌, ◌∷◌,
  arith, ◌!=◌, if◌then◌else◌, Bool-cases,
}
use rv32_complete_v.Zicsr.File.{exists, can_read, can_write}
use rv32_complete_v.Zicsr.Addr
use rv32_complete_v.Zicsr.Masks.{mstatus_spp}
use rv32_complete_v.Zicsr.File.{get}
use rv32_complete_v.Common.Exception.{illegal_instruction}
use rv32_complete_v.Common.Exception.{PrivilegeLevel, user, supervisor, machine, reserved, level}
use rv32_complete_v.Common.RegFile.{RegFile}
use rv32_complete_v.Zicsr.File.{CsrFile}
use rv32_complete_v.Zicsr.Warl.{modes-write_value}
use rv32_complete_v.Zicsr.Access.{read, write, write_value}
use rv32_complete_v.Zicsr.Execute as Csr
use rv32_complete_v.Cpu.State.{Cpu, CpuExecResult}
use rv32_complete_v.Cpu.Trap.{
  take_exception, enter_m_trap, enter_s_trap, delegate_target, is_supervisor, is_machine,
}
use rv32_complete_v.Cpu.Return.{do_mret, do_sret}
use rv32_complete_v.Cpu.Dispatch.{
  returned, Stepped, raise, raise_unless, register_op, csr_op, satp_blocked, is_user,
}

-- Seen from the hart before: a trap leaves both register files alone, the configuration stays, and
-- without a trap the privilege does not rise.
pub record IsContained {B : Type 0} (before : Cpu) (s : Stepped B) : Type 0 where
  pub regs_kept : s.result.trap ≡ true → s.cpu.regs ≡ before.regs
  pub fregs_kept : s.result.trap ≡ true → s.cpu.fregs ≡ before.fregs
  pub config_kept : s.cpu.config ≡ before.config
  pub not_raised :
      s.result.trap ≡ false
      → level s.cpu.csrs.current_privilege ≤ level before.csrs.current_privilege

raise_lem :
    {B : Type 0} (cpu : Cpu) (r : CpuExecResult) (m : B) (cause tval : ℕ)
    → ((raise cpu r m cause tval).cpu.regs ≡ cpu.regs)
      × ((raise cpu r m cause tval).cpu.fregs ≡ cpu.fregs)
      × ((raise cpu r m cause tval).cpu.config ≡ cpu.config)
      × ((raise cpu r m cause tval).result.trap ≡ true)
unfolding raise take_exception enter_m_trap enter_s_trap
raise_lem cpu r m cause tval = elim (Bool-cases (is_supervisor (delegate_target cpu cause false))) [
  | inl e ↦ rw e (refl, refl, refl, refl)
  | inr e ↦ rw e (refl, refl, refl, refl)
]

pub raise-IsContained :
    {B : Type 0} (before cpu : Cpu) (r : CpuExecResult) (m : B) (cause tval : ℕ)
    → cpu.regs ≡ before.regs
    → cpu.fregs ≡ before.fregs
    → cpu.config ≡ before.config
    → IsContained before (raise cpu r m cause tval)
raise-IsContained before cpu r m cause tval h k c =
    let (regs_same, fregs_same, config_same, trapped) = raise_lem cpu r m cause tval in
    record {
      regs_kept = λ t. regs_same ∙ h;
      fregs_kept = λ t. fregs_same ∙ k;
      config_kept = config_same ∙ c;
      not_raised = λ t. cc;
    }

pub raise_unless-IsContained :
    {B : Type 0} (before : Cpu) (valid : Bool) (cpu : Cpu) (r : CpuExecResult) (m : B)
    (cause tval : ℕ)
    → r.trap ≡ false
    → cpu.config ≡ before.config
    → cpu.csrs.current_privilege ≡ before.csrs.current_privilege
    → (valid ≡ false → cpu.regs ≡ before.regs)
    → (valid ≡ false → cpu.fregs ≡ before.fregs)
    → IsContained before (raise_unless valid cpu r m cause tval)
unfolding raise_unless
raise_unless-IsContained before true cpu r m cause tval q c p h k = record {
  regs_kept = λ t. cc;
  fregs_kept = λ t. cc;
  config_kept = c;
  not_raised = λ t. omega (arith, ap level p);
}
raise_unless-IsContained before false cpu r m cause tval q c p h k =
    raise-IsContained before cpu r m cause tval (h refl) (k refl) c

pub register_op-IsContained :
    {B : Type 0} (cpu : Cpu) (valid : Bool) (regs : RegFile) (r : CpuExecResult) (m : B) (instr : ℕ)
    → r.trap ≡ false
    → (valid ≡ false → regs ≡ cpu.regs)
    → IsContained cpu (register_op valid regs cpu r m instr)
unfolding register_op
register_op-IsContained cpu valid regs r m instr q h =
    raise_unless-IsContained cpu valid _ r m _ instr q refl refl h (λ v. refl)

write-privilege : (f : CsrFile) (a v : ℕ) → (write f a v).current_privilege ≡ f.current_privilege
unfolding write
write-privilege f a v =
    let noted : CsrFile = record f { observed = (a, v) ∷ f.observed } in
    if_either (λ (g : CsrFile). (write_value g a v).current_privilege ≡ f.current_privilege)
      f.write_callback noted f ((modes-write_value noted a v).2) ((modes-write_value f a v).2)

-- A CSR instruction keeps the privilege, and where it is not valid it keeps the registers.
record IsCsrOutcome (regs : RegFile) (f : CsrFile) (o : Csr.Outcome) : Type 0 where
  same : o.csrs.current_privilege ≡ f.current_privilege
  kept : o.result.valid ≡ false → o.regs ≡ regs

denied-IsCsrOutcome :
    (d : Csr.DecodedCsrInstr) (regs : RegFile) (f : CsrFile)
    → IsCsrOutcome regs f (Csr.denied d regs f)
unfolding Csr.denied
denied-IsCsrOutcome d regs f = record { same = refl; kept = λ h. refl }

access-IsCsrOutcome :
    (d : Csr.DecodedCsrInstr) (regs : RegFile) (f : CsrFile)
    → IsCsrOutcome regs f (Csr.access d regs f)
unfolding Csr.access
access-IsCsrOutcome d regs f =
    let v : ℕ =
      Csr.new_value d.type (Csr.writes d.type d.rs1)
        (if Csr.reads d.type d.rd then read f d.csr else 0) (Csr.source d.type regs d.rs1) in
    record {
      same =
          if_either (λ (g : CsrFile). g.current_privilege ≡ f.current_privilege)
            (Csr.writes d.type d.rs1) (write f d.csr v) f (write-privilege f d.csr v) refl;
      kept = λ h. cc;
    }

execute-IsCsrOutcome :
    (d : Csr.DecodedCsrInstr) (regs : RegFile) (f : CsrFile)
    → IsCsrOutcome regs f (Csr.execute d regs f)
unfolding Csr.execute
execute-IsCsrOutcome d regs f =
    let refused = denied-IsCsrOutcome d regs f in
    if_either (IsCsrOutcome regs f) (Csr.is_illegal d.type) _ _ refused (
      if_either (IsCsrOutcome regs f) (not (exists f d.csr)) _ _ refused (
        if_either (IsCsrOutcome regs f) (not (can_read f d.csr)) _ _ refused (
          if_either (IsCsrOutcome regs f) (Csr.writes d.type d.rs1 && not (can_write f d.csr)) _ _
            refused (access-IsCsrOutcome d regs f))))

pub csr_op-IsContained :
    {B : Type 0} (cpu : Cpu) (r : CpuExecResult) (m : B) (instr : ℕ)
    → r.trap ≡ false
    → IsContained cpu (csr_op cpu r m instr)
unfolding csr_op
csr_op-IsContained cpu r m instr q =
    let d = Csr.decode instr in
    let o = execute-IsCsrOutcome d cpu.regs cpu.csrs in
    if_either (IsContained cpu) (satp_blocked cpu d.csr) _ _
      (raise-IsContained cpu cpu r m illegal_instruction instr refl refl refl)
      (raise_unless-IsContained cpu _ _ r m _ _ q refl o.same o.kept (λ v. refl))

level-le_3 : (p : PrivilegeLevel) → level p ≤ 3
level-le_3 user = omega arith
level-le_3 supervisor = omega arith
level-le_3 reserved = omega arith
level-le_3 machine = omega arith

level-is_machine : (p : PrivilegeLevel) → is_machine p ≡ true → level p ≡ 3
level-is_machine machine h = refl
level-is_machine user h = cc
level-is_machine supervisor h = cc
level-is_machine reserved h = cc

level-is_user : (p : PrivilegeLevel) → is_user p ≡ false → 1 ≤ level p
level-is_user user h = cc
level-is_user supervisor h = omega arith
level-is_user reserved h = omega arith
level-is_user machine h = omega arith

pub returned_m-IsContained :
    {B : Type 0} (cpu : Cpu) (r : CpuExecResult) (m : B)
    → r.trap ≡ false
    → is_machine cpu.csrs.current_privilege ≡ true
    → IsContained cpu (returned (do_mret cpu r) m)
unfolding returned do_mret
returned_m-IsContained cpu r m q h = record {
  regs_kept = λ t. refl;
  fregs_kept = λ t. refl;
  config_kept = refl;
  not_raised = λ t. omega (
    arith,
    level-is_machine cpu.csrs.current_privilege h,
    level-le_3 (do_mret cpu r).0.csrs.current_privilege,
  );
}

supervisor_or_user : (b : Bool) → level (if b then supervisor else user) ≤ 1
supervisor_or_user true = omega arith
supervisor_or_user false = omega arith

pub returned_s-IsContained :
    {B : Type 0} (cpu : Cpu) (r : CpuExecResult) (m : B)
    → r.trap ≡ false
    → is_user cpu.csrs.current_privilege ≡ false
    → IsContained cpu (returned (do_sret cpu r) m)
unfolding returned do_sret
returned_s-IsContained cpu r m q h = record {
  regs_kept = λ t. refl;
  fregs_kept = λ t. refl;
  config_kept = refl;
  not_raised = λ t. omega (
    arith,
    level-is_user cpu.csrs.current_privilege h,
    supervisor_or_user (bit_and (get cpu.csrs Addr.mstatus) mstatus_spp != 0),
  );
}
