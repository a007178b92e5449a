-- ===== src/Examples/Csr.antt =====
-- Tests of riscv_zicsr.hpp.
use rv32_complete_v.Zicsr.File.{can_write}
use rv32_complete_v.Zicsr.File.{can_read}
use rv32_complete_v.Common.Exception.{PrivilegeLevel, user, machine, level, illegal_instruction}
use rv32_complete_v.Common.RegFile.{RegFile}
use rv32_complete_v.Zicsr.Addr
use rv32_complete_v.Zicsr.File.{CsrFile, exists, get}
use rv32_complete_v.Zicsr.Access.{write}
use rv32_complete_v.Zicsr.Execute.{DecodedCsrInstr, decode, execute, writes}
use rv32_complete_v.Zicsr.Encoding.{is_csr_instruction-encode}
use rv32_complete_v.Zicsr.Execute.{CsrInstrType, is_csr_instruction, encode, csr_instr}
use rv32_complete_v.Prelude.{◌^◌}
use rv32_complete_v.Zicsr.Guards.{execute-denied, execute-allowed}
use rv32_complete_v.Zicsr.Warl.{IsModal, write-IsModal}
use rv32_complete_v.Prelude.{
  ◌*◌, ◌/◌, ◌%◌, ◌≤◌, ◌<◌, ◌≡◌, refl, ◌⊎◌, inl, true, false, none, some, [], ltb, ◌==◌,
  if◌then◌else◌,
}

-- A file at the level `p`, with S-mode and U-mode; mstatus is 0x1800 and every other register 0.
abbrev pub file : PrivilegeLevel → CsrFile
file p = record {
  csrs = λ a. if a == Addr.mstatus then some 0x1808 else some 0;
  current_privilege = p;
  read_callback = none;
  write_callback = true;
  observed = [];
  f_extension = false;
  s_mode_enabled = true;
  u_mode_enabled = true;
  mepc_mask = 0xffff_fffe;
}

abbrev regs : RegFile
regs = record { x = λ i. if ltb i 32 then 4 * i else 0 }

-- `csrrw x5, mscratch, x6`.
abbrev csrrw_mscratch : DecodedCsrInstr
csrrw_mscratch = decode 0x340312f3

execute-denied_example :
    let o = execute csrrw_mscratch regs (file user) in
    (o.regs ≡ regs)
    × (o.csrs ≡ file user)
    × (o.result.exception_cause ≡ illegal_instruction)
    × (o.result.trap_value ≡ csrrw_mscratch.raw)
unfolding execute decode exists can_read
execute-denied_example = execute-denied csrrw_mscratch regs (file user) refl

execute-allowed_example :
    (exists (file machine) csrrw_mscratch.csr ≡ true)
    × (csrrw_mscratch.csr / 256 % 4 ≤ level machine)
    × ((writes csrrw_mscratch.type csrrw_mscratch.rs1 ≡ false)
        ⊎ (csrrw_mscratch.csr / 1024 % 4 < 3))
unfolding execute decode exists can_read can_write
execute-allowed_example = execute-allowed csrrw_mscratch regs (file machine) refl

-- The pattern 10 of MPP is written.
write-IsModal_example : IsModal (write (file machine) Addr.mstatus 0x1000)
unfolding get
write-IsModal_example = write-IsModal (file machine) Addr.mstatus 0x1000 (inl refl)

-- `csrrs x5, mcause, x6`.
is_csr_instruction-encode_example :
    ((decode 0x3423_22f3).type ≡ CsrInstrType.csrrs)
    × ((decode 0x3423_22f3).rd ≡ 5 % 32)
    × ((decode 0x3423_22f3).csr ≡ 0x342 % 2 ^ 12)
    × ((decode 0x3423_22f3).rs1 ≡ 6 % 32)
    × (is_csr_instruction 0x3423_22f3 ≡ true)
unfolding encode csr_instr
is_csr_instruction-encode_example = is_csr_instruction-encode CsrInstrType.csrrs 5 0x342 6 refl
