-- ===== src/Zicsr/Execute.antt =====
-- riscv_zicsr.hpp: decoder, executor and encoder of the CSR instructions. Error texts are left out.
use rv32_complete_v.Common.Fields.{bits}
use rv32_complete_v.Common.Exception.{illegal_instruction}
use rv32_complete_v.Common.RegFile
use rv32_complete_v.Common.RegFile.{RegFile}
use rv32_complete_v.Zicsr.File.{CsrFile, exists, can_read, can_write}
use rv32_complete_v.Zicsr.Access.{read, write}
use rv32_complete_v.Prelude.{
  leb, not32, none, ◌&&◌, not, shl32, some, true, bit_and, ◌!=◌, ◌==◌, if◌then◌else◌, bit_or, Bool,
  Option, false, ℕ,
}

pub data CsrInstrType : Type 0 where
  csrrw csrrs csrrc csrrwi csrrsi csrrci illegal : CsrInstrType

pub record DecodedCsrInstr : Type 0 where
  pub type : CsrInstrType
  pub rd : ℕ
  pub rs1 : ℕ
  pub csr : ℕ
  pub funct3 : ℕ
  pub raw : ℕ

pub record CsrExecResult : Type 0 where
  pub valid : Bool
  pub old_csr_value : ℕ
  pub new_csr_value : ℕ
  pub csr_read : Bool
  pub csr_written : Bool
  pub exception : Bool
  pub exception_cause : ℕ
  pub trap_value : ℕ

unfoldable pub type_of_funct3 : ℕ → CsrInstrType
type_of_funct3 f =
    if f == 0b001
    then CsrInstrType.csrrw
    else if f == 0b010
    then CsrInstrType.csrrs
    else if f == 0b011
    then CsrInstrType.csrrc
    else if f == 0b101
    then CsrInstrType.csrrwi
    else if f == 0b110
    then CsrInstrType.csrrsi
    else if f == 0b111
    then CsrInstrType.csrrci
    else CsrInstrType.illegal

unfoldable pub decode : ℕ → DecodedCsrInstr
unfolding bits type_of_funct3
decode instr = record {
  type =
      if bits instr 6 0 != 0b1110011
      then CsrInstrType.illegal
      else type_of_funct3 (bits instr 14 12);
  rd = bits instr 11 7;
  rs1 = bits instr 19 15;
  csr = bits instr 31 20;
  funct3 = bits instr 14 12;
  raw = instr;
}

unfoldable pub is_csr_instruction : ℕ → Bool
unfolding bits
is_csr_instruction instr =
    let f3 = bits instr 14 12 in bits instr 6 0 == 0b1110011 && leb 1 f3 && f3 != 4

-- The four `switch (instr.type)` of the executor.
abbrev pub is_illegal : CsrInstrType → Bool
is_illegal CsrInstrType.illegal = true
is_illegal _ = false

abbrev pub writes : CsrInstrType → ℕ → Bool
writes CsrInstrType.csrrw rs1 = true
writes CsrInstrType.csrrwi rs1 = true
writes CsrInstrType.illegal rs1 = false
writes _ rs1 = rs1 != 0

abbrev pub reads : CsrInstrType → ℕ → Bool
reads CsrInstrType.csrrw rd = rd != 0
reads CsrInstrType.csrrwi rd = rd != 0
reads _ rd = true

abbrev pub source : CsrInstrType → RegFile → ℕ → ℕ
source CsrInstrType.csrrw regs rs1 = RegFile.read regs rs1
source CsrInstrType.csrrs regs rs1 = RegFile.read regs rs1
source CsrInstrType.csrrc regs rs1 = RegFile.read regs rs1
source _ regs rs1 = rs1

abbrev pub new_value : CsrInstrType → Bool → ℕ → ℕ → ℕ
new_value CsrInstrType.csrrw will_write csr_val src_val = src_val
new_value CsrInstrType.csrrwi will_write csr_val src_val = src_val
new_value CsrInstrType.csrrs will_write csr_val src_val =
    if will_write then bit_or csr_val src_val else csr_val
new_value CsrInstrType.csrrsi will_write csr_val src_val =
    if will_write then bit_or csr_val src_val else csr_val
new_value CsrInstrType.csrrc will_write csr_val src_val =
    if will_write then bit_and csr_val (not32 src_val) else csr_val
new_value CsrInstrType.csrrci will_write csr_val src_val =
    if will_write then bit_and csr_val (not32 src_val) else csr_val
new_value CsrInstrType.illegal will_write csr_val src_val = csr_val

-- What one instruction leaves.
pub record Outcome : Type 0 where
  pub result : CsrExecResult
  pub regs : RegFile
  pub csrs : CsrFile

unfoldable pub denied : DecodedCsrInstr → RegFile → CsrFile → Outcome
denied d regs csrs = record {
  result = record {
    valid = false;
    old_csr_value = 0;
    new_csr_value = 0;
    csr_read = false;
    csr_written = false;
    exception = true;
    exception_cause = illegal_instruction;
    trap_value = d.raw;
  };
  regs = regs;
  csrs = csrs;
}

unfoldable pub access : DecodedCsrInstr → RegFile → CsrFile → Outcome
access d regs csrs =
    let will_write = writes d.type d.rs1 in
    let will_read = reads d.type d.rd in
    let csr_val = if will_read then read csrs d.csr else 0 in
    let new_val = new_value d.type will_write csr_val (source d.type regs d.rs1) in
    record {
      result = record {
        valid = true;
        old_csr_value = csr_val;
        new_csr_value = new_val;
        csr_read = will_read;
        csr_written = will_write;
        exception = false;
        exception_cause = 0;
        trap_value = 0;
      };
      regs = RegFile.write regs d.rd csr_val;
      csrs = if will_write then write csrs d.csr new_val else csrs;
    }

unfoldable pub execute : DecodedCsrInstr → RegFile → CsrFile → Outcome
unfolding denied access
execute d regs csrs =
    if is_illegal d.type
    then denied d regs csrs
    else if not (exists csrs d.csr)
    then denied d regs csrs
    else if not (can_read csrs d.csr)
    then denied d regs csrs
    else if writes d.type d.rs1 && not (can_write csrs d.csr)
    then denied d regs csrs
    else access d regs csrs

unfoldable pub csr_instr : ℕ → ℕ → ℕ → ℕ → ℕ
csr_instr funct3 rd csr rs1_uimm =
    bit_or
      (bit_or
        (bit_or (bit_or (shl32 (bit_and csr 0xfff) 20) (shl32 (bit_and rs1_uimm 0x1f) 15))
          (shl32 funct3 12))
        (shl32 (bit_and rd 0x1f) 7))
      0b1110011

-- `encode::csrrw` to `encode::csrrci`.
unfoldable pub encode : CsrInstrType → ℕ → ℕ → ℕ → Option ℕ
unfolding csr_instr
encode CsrInstrType.csrrw rd csr rs1 = some (csr_instr 0b001 rd csr rs1)
encode CsrInstrType.csrrs rd csr rs1 = some (csr_instr 0b010 rd csr rs1)
encode CsrInstrType.csrrc rd csr rs1 = some (csr_instr 0b011 rd csr rs1)
encode CsrInstrType.csrrwi rd csr rs1 = some (csr_instr 0b101 rd csr rs1)
encode CsrInstrType.csrrsi rd csr rs1 = some (csr_instr 0b110 rd csr rs1)
encode CsrInstrType.csrrci rd csr rs1 = some (csr_instr 0b111 rd csr rs1)
encode CsrInstrType.illegal rd csr rs1 = none
