-- ===== src/Rv32a.antt =====
-- riscv_rv32a.hpp: LR/SC with the reservation, and the atomic memory operations.
pub mod Precise
pub mod Amo
pub mod Encoding
pub mod Reservation
use rv32_complete_v.Common.Fields.{bits}
use rv32_complete_v.Common.RegFile
use rv32_complete_v.Common.RegFile.{RegFile}
use rv32_complete_v.Common.Bus.{Bus}
use rv32_complete_v.Common.Exception.{illegal_instruction, load_addr_misaligned, load_access_fault}
use rv32_complete_v.Common.Exception.{store_addr_misaligned, store_access_fault}
use rv32_complete_v.Prelude.{
  shl32, none, ltb, signed32, ltb_ℤ, bit_or, bit_xor, ◌||◌, ◌!=◌, add32, some, shr32, ◌&&◌, not32,
  ◌==◌, bit_and, true, Option, Bool, if◌then◌else◌, false, ℕ,
}

pub data InstrType : Type 0 where
  lr_w sc_w amoswap_w amoadd_w amoxor_w amoand_w amoor_w : InstrType
  amomin_w amomax_w amominu_w amomaxu_w illegal : InstrType

pub record DecodedInstr : Type 0 where
  pub type : InstrType
  pub rd : ℕ
  pub rs1 : ℕ
  pub rs2 : ℕ
  pub aq : Bool
  pub rl : Bool
  pub funct5 : ℕ
  pub funct3 : ℕ
  pub raw : ℕ

pub record ExecResult : Type 0 where
  pub valid : Bool
  pub loaded_value : ℕ
  pub stored_value : ℕ
  pub sc_success : Bool
  pub memory_read : Bool
  pub memory_written : Bool
  pub trap_cause : ℕ
  pub trap_value : ℕ

pub record ReservationSet : Type 0 where
  pub valid : Bool
  pub reserved_addr : ℕ

unfoldable pub reserve : ReservationSet → ℕ → ReservationSet
reserve r addr = record { valid = true; reserved_addr = bit_and addr (not32 0x3) }

unfoldable pub clear : ReservationSet → ReservationSet
clear r = record r { valid = false }

unfoldable pub check : ReservationSet → ℕ → Bool
check r addr = r.valid && bit_and addr (not32 0x3) == r.reserved_addr

unfoldable pub type_of_funct5 : ℕ → InstrType
type_of_funct5 f =
    if f == 0b00010
    then InstrType.lr_w
    else if f == 0b00011
    then InstrType.sc_w
    else if f == 0b00001
    then InstrType.amoswap_w
    else if f == 0b00000
    then InstrType.amoadd_w
    else if f == 0b00100
    then InstrType.amoxor_w
    else if f == 0b01100
    then InstrType.amoand_w
    else if f == 0b01000
    then InstrType.amoor_w
    else if f == 0b10000
    then InstrType.amomin_w
    else if f == 0b10100
    then InstrType.amomax_w
    else if f == 0b11000
    then InstrType.amominu_w
    else if f == 0b11100
    then InstrType.amomaxu_w
    else InstrType.illegal

abbrev pub is_illegal : InstrType → Bool
is_illegal InstrType.illegal = true
is_illegal _ = false

abbrev pub is_lr : InstrType → Bool
is_lr InstrType.lr_w = true
is_lr _ = false

unfoldable pub decode : ℕ → DecodedInstr
unfolding bits type_of_funct5
decode instr =
    let d : DecodedInstr = record {
      type = InstrType.illegal;
      rd = bits instr 11 7;
      rs1 = bits instr 19 15;
      rs2 = bits instr 24 20;
      aq = bit_and (shr32 instr 26) 1 == 1;
      rl = bit_and (shr32 instr 25) 1 == 1;
      funct5 = bits instr 31 27;
      funct3 = bits instr 14 12;
      raw = instr;
    } in
    let type = type_of_funct5 d.funct5 in
    if bits instr 6 0 != 0b0101111 || d.funct3 != 0b010
    then d
    else record d { type = if is_lr type && d.rs2 != 0 then InstrType.illegal else type }

unfoldable pub is_atomic_instruction : ℕ → Bool
unfolding bits
is_atomic_instruction instr = bits instr 6 0 == 0b0101111 && bits instr 14 12 == 0b010

-- What an AMO stores, from the old value of the word and the value of `rs2`.
unfoldable pub amo_value : InstrType → ℕ → ℕ → Option ℕ
amo_value InstrType.amoswap_w old_val b = some b
amo_value InstrType.amoadd_w old_val b = some (add32 old_val b)
amo_value InstrType.amoxor_w old_val b = some (bit_xor old_val b)
amo_value InstrType.amoand_w old_val b = some (bit_and old_val b)
amo_value InstrType.amoor_w old_val b = some (bit_or old_val b)
amo_value InstrType.amomin_w old_val b =
    some (if ltb_ℤ (signed32 old_val) (signed32 b) then old_val else b)
amo_value InstrType.amomax_w old_val b =
    some (if ltb_ℤ (signed32 b) (signed32 old_val) then old_val else b)
amo_value InstrType.amominu_w old_val b = some (if ltb old_val b then old_val else b)
amo_value InstrType.amomaxu_w old_val b = some (if ltb b old_val then old_val else b)
amo_value _ old_val b = none

-- What one instruction leaves.
pub record Outcome (M : Type 0) : Type 0 where
  pub result : ExecResult
  pub regs : RegFile
  pub bus : M
  pub reservation : ReservationSet

abbrev pub empty_result : ExecResult
empty_result = record {
  valid = true;
  loaded_value = 0;
  stored_value = 0;
  sc_success = false;
  memory_read = false;
  memory_written = false;
  trap_cause = 0;
  trap_value = 0;
}

abbrev pub set_trap : ExecResult → ℕ → ℕ → ExecResult
set_trap r cause tval = record r { valid = false; trap_cause = cause; trap_value = tval }

module _ {M : Type 0} (bus : Bus M) (d : DecodedInstr) (regs : RegFile) (m : M)
    (reservation : ReservationSet) where
  unfoldable pub access_fault : M → ℕ → Outcome M
  access_fault m' addr = record {
    result =
        set_trap empty_result (if is_lr d.type then load_access_fault else store_access_fault) addr;
    regs = regs;
    bus = m';
    reservation = reservation;
  }

  -- An early return with no effect.
  unfoldable pub trapped : ℕ → ℕ → Outcome M
  trapped cause tval = record {
    result = set_trap empty_result cause tval;
    regs = regs;
    bus = m;
    reservation = reservation;
  }

  abbrev pub load_reserved : ℕ → Option ℕ → M → Outcome M
  load_reserved addr none m' = access_fault m' addr
  load_reserved addr (some value) m' = record {
    result = record empty_result { loaded_value = value; memory_read = true };
    regs = RegFile.write regs d.rd value;
    bus = m';
    reservation = reserve reservation addr;
  }

  -- SC.W whose reservation is good, after the write.
  abbrev pub conditional_stored : ℕ → ℕ → Bool → M → Outcome M
  conditional_stored addr b false m' = access_fault m' addr
  conditional_stored addr b true m' = record {
    result = record empty_result { sc_success = true; stored_value = b; memory_written = true };
    regs = RegFile.write regs d.rd 0;
    bus = m';
    reservation = clear reservation;
  }

  abbrev pub store_conditional : ℕ → ℕ → Outcome M
  store_conditional addr b =
      let (done, m') = bus.write32 m addr b in
      if check reservation addr then conditional_stored addr b done m' else record {
        result = empty_result;
        regs = RegFile.write regs d.rd 1;
        bus = m;
        reservation = clear reservation;
      }

  -- An AMO after its read and its write.
  abbrev pub amo_written : ℕ → ℕ → ℕ → Bool → M → Outcome M
  amo_written addr old_val new_val false m' = access_fault m' addr
  amo_written addr old_val new_val true m' = record {
    result = record empty_result {
      loaded_value = old_val;
      stored_value = new_val;
      memory_read = true;
      memory_written = true;
    };
    regs = RegFile.write regs d.rd old_val;
    bus = m';
    reservation = reservation;
  }

  abbrev pub amo_update : ℕ → ℕ → Option ℕ → M → Outcome M
  amo_update addr old_val none m' = record {
    result = set_trap empty_result illegal_instruction d.raw;
    regs = regs;
    bus = m';
    reservation = reservation;
  }
  amo_update addr old_val (some new_val) m' =
      let (done, m'') = bus.write32 m' addr new_val in amo_written addr old_val new_val done m''

  abbrev pub amo_read : ℕ → ℕ → Option ℕ → M → Outcome M
  amo_read addr b none m' = access_fault m' addr
  amo_read addr b (some old_val) m' = amo_update addr old_val (amo_value d.type old_val b) m'

  -- The `switch (instr.type)` inside the `try`.
  unfoldable pub execute_type : InstrType → ℕ → ℕ → Outcome M
  unfolding access_fault trapped
  execute_type InstrType.lr_w addr b =
      let (value, m') = bus.read32 m addr in load_reserved addr value m'
  execute_type InstrType.sc_w addr b = store_conditional addr b
  execute_type InstrType.illegal addr b = trapped illegal_instruction d.raw
  execute_type _ addr b = let (old_val, m') = bus.read32 m addr in amo_read addr b old_val m'

  unfoldable pub execute : Outcome M
  unfolding execute_type trapped
  execute =
      let addr = RegFile.read regs d.rs1 in
      if is_illegal d.type
      then trapped illegal_instruction d.raw
      else if bit_and addr 0x3 != 0
      then trapped (if is_lr d.type then load_addr_misaligned else store_addr_misaligned) addr
      else execute_type d.type addr (RegFile.read regs d.rs2)

-- `encode::amo_instr`.
unfoldable pub amo_instr : ℕ → Bool → Bool → ℕ → ℕ → ℕ → ℕ
amo_instr funct5 aq rl rs2 rs1 rd =
    let flag = λ (b : Bool). if b then 1 else 0 in
    bit_or
      (bit_or
        (bit_or
          (bit_or
            (bit_or
              (bit_or (bit_or (shl32 (bit_and funct5 0x1f) 27) (shl32 (flag aq) 26))
                (shl32 (flag rl) 25))
              (shl32 (bit_and rs2 0x1f) 20))
            (shl32 (bit_and rs1 0x1f) 15))
          (shl32 0b010 12))
        (shl32 (bit_and rd 0x1f) 7))
      0b0101111
