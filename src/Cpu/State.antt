-- ===== src/Cpu/State.antt =====
-- riscv_cpu.hpp: configuration, step result, the state of the hart and its reset.
use rv32_complete_v.Common.RegFile
use rv32_complete_v.Common.RegFile.{RegFile}
use rv32_complete_v.Rv32f.FRegFile
use rv32_complete_v.Rv32f.FRegFile.{FRegFile}
use rv32_complete_v.Rv32a.{ReservationSet, clear}
use rv32_complete_v.Zicsr.Addr
use rv32_complete_v.Zicsr.File.{CsrFile, get, set, set_f_extension, set_misa}
use rv32_complete_v.Zicsr.File
use rv32_complete_v.Zicsr.Access.{write}
use rv32_complete_v.Prelude.{true, false, bit_and, ◌^◌, not32, Bool, if◌then◌else◌, bit_or, ℕ}

pub record CpuConfig : Type 0 where
  pub enable_m_extension : Bool
  pub enable_a_extension : Bool
  pub enable_f_extension : Bool
  pub enable_c_extension : Bool
  pub enable_zicsr : Bool
  pub enable_zifencei : Bool
  pub enable_zba : Bool
  pub enable_zbb : Bool
  pub enable_zbs : Bool
  pub enable_zicond : Bool
  pub enable_s_mode : Bool
  pub enable_u_mode : Bool
  pub allow_misaligned_data : Bool
  pub reset_vector : ℕ
  pub mtvec_reset : ℕ

-- Without the texts `trap_info` and `mnemonic`.
pub record CpuExecResult : Type 0 where
  pub pc : ℕ
  pub next_pc : ℕ
  pub instruction : ℕ
  pub instr_size : ℕ
  pub branch_taken : Bool
  pub trap : Bool
  pub interrupt : Bool
  pub trap_cause : ℕ
  pub trap_value : ℕ

-- The decoders and executors keep no state of their own but copies of `config` and of the
-- privilege, which `sync_executor_config` renews before each step.
pub record Cpu : Type 0 where
  pub regs : RegFile
  pub fregs : FRegFile
  pub csrs : CsrFile
  pub pc : ℕ
  pub reservation : ReservationSet
  pub config : CpuConfig

abbrev flag : Bool → ℕ → ℕ
flag true k = 2 ^ k
flag false k = 0

unfoldable pub misa_value : CpuConfig → ℕ
misa_value c =
    bit_or
      (bit_or
        (bit_or
          (bit_or
            (bit_or (bit_or 0x4000_0100 (flag c.enable_a_extension 0))
              (flag c.enable_c_extension 2))
            (flag c.enable_f_extension 5))
          (flag c.enable_m_extension 12))
        (flag c.enable_s_mode 18))
      (flag c.enable_u_mode 20)

-- The CSR part of `reset`.
unfoldable pub reset_csrs : CpuConfig → CsrFile → CsrFile
unfolding misa_value set_f_extension set_misa write
reset_csrs c f =
    let modes = record f { s_mode_enabled = c.enable_s_mode; u_mode_enabled = c.enable_u_mode } in
    let masked = record (set_f_extension modes c.enable_f_extension) {
      mepc_mask = if c.enable_c_extension then not32 1 else not32 3;
    } in
    set_misa (write (File.reset masked) Addr.mtvec c.mtvec_reset) (misa_value c)

unfoldable pub reset : Cpu → Cpu
unfolding reset_csrs clear
reset cpu = record cpu {
  pc = cpu.config.reset_vector;
  regs = RegFile.reset cpu.regs;
  fregs = FRegFile.zeros;
  reservation = clear cpu.reservation;
  csrs = reset_csrs cpu.config cpu.csrs;
}

-- The interrupt input lines: `line` is one of the `mi_` masks.
unfoldable pub set_mip_bit : Cpu → ℕ → Bool → Cpu
unfolding get set
set_mip_bit cpu line high =
    let mip = get cpu.csrs Addr.mip in
    record cpu {
      csrs = set cpu.csrs Addr.mip (if high then bit_or mip line else bit_and mip (not32 line));
    }
