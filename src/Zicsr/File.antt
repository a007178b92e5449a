-- ===== src/Zicsr/File.antt =====
-- riscv_zicsr.hpp, class `CSRFile`: its state, configuration, existence and permissions.
use rv32_complete_v.Common.Exception.{PrivilegeLevel, supervisor, machine, level, of_level}
use rv32_complete_v.Zicsr.Addr
use rv32_complete_v.Zicsr.Masks.{
  mi_msi, mi_ssi, mi_sti, mi_sei, mstatus_dirty, mstatus_all, mstatus_s_only, mstatus_u_only,
  mstatus_tw, mstatus_mpp,
}
use rv32_complete_v.Prelude.{
  ◌!=◌, not32, none, shr32, ◌||◌, false, ◌&&◌, leb, bit_or, List, ◌==◌, some, bit_and, not,
  if◌then◌else◌, Bool, true, Option, ℕ,
}

-- `csrs` is the map; `none` is a missing key. Of the callbacks, `read_callback` is the installed
-- function, if any, and `write_callback` says whether one is installed; `observed` lists the calls
-- that it got, the last one first.
pub record CsrFile : Type 0 where
  pub csrs : ℕ → Option ℕ
  pub current_privilege : PrivilegeLevel
  pub read_callback : Option (ℕ → ℕ)
  pub write_callback : Bool
  pub observed : List (ℕ × ℕ)
  pub f_extension : Bool
  pub s_mode_enabled : Bool
  pub u_mode_enabled : Bool
  pub mepc_mask : ℕ

abbrev is_some : Option ℕ → Bool
is_some none = false
is_some (some v) = true

abbrev pub get_or : Option ℕ → ℕ
get_or none = 0
get_or (some v) = v

unfoldable pub get : CsrFile → ℕ → ℕ
get f addr = get_or (f.csrs addr)

unfoldable pub set : CsrFile → ℕ → ℕ → CsrFile
set f addr value = record f { csrs = λ a. if a == addr then some value else f.csrs a }

unfoldable pub mip_writable_mask : CsrFile → ℕ
mip_writable_mask f =
    if f.s_mode_enabled then bit_or (bit_or (bit_or mi_msi mi_ssi) mi_sti) mi_sei else mi_msi

unfoldable pub mstatus_hardwired : CsrFile → ℕ
mstatus_hardwired f = if f.f_extension then mstatus_dirty else 0

unfoldable pub mstatus_legal_mask : CsrFile → ℕ
mstatus_legal_mask f =
    let mask1 =
      if f.s_mode_enabled
      then mstatus_all
      else bit_and (bit_and mstatus_all (not32 mstatus_s_only)) (not32 mstatus_tw) in
    if f.u_mode_enabled then mask1 else bit_and mask1 (not32 mstatus_u_only)

unfoldable pub legalize_mpp : CsrFile → ℕ → ℕ
legalize_mpp f mpp =
    let mpp1 = if mpp == 2 then 3 else mpp in
    let mpp2 = if not f.u_mode_enabled && mpp1 == 0 then 3 else mpp1 in
    if not f.s_mode_enabled && mpp2 == 1 then 3 else mpp2

-- The keys that `init_storage` enters besides mstatus and misa, all at 0.
abbrev is_zero_key : Bool → Bool → ℕ → Bool
is_zero_key s u a =
    a == Addr.fcsr
    || a == Addr.mvendorid
    || a == Addr.marchid
    || a == Addr.mimpid
    || a == Addr.mhartid
    || a == Addr.mconfigptr
    || a == Addr.mstatush
    || a == Addr.menvcfg
    || a == Addr.menvcfgh
    || a == Addr.mtvec
    || a == Addr.mie
    || a == Addr.mepc
    || a == Addr.mcause
    || a == Addr.mtval
    || a == Addr.mscratch
    || a == Addr.mip
    || (s || u) && (a == Addr.medeleg || a == Addr.mideleg)
    || a == Addr.mcounteren
    || s
      && (a == Addr.sstatus
          || a == Addr.sie
          || a == Addr.stvec
          || a == Addr.scounteren
          || a == Addr.sscratch
          || a == Addr.sepc
          || a == Addr.scause
          || a == Addr.stval
          || a == Addr.sip
          || a == Addr.satp)
    || a == Addr.mcycle
    || a == Addr.mcycleh
    || a == Addr.minstret
    || a == Addr.minstreth

unfoldable pub init_storage : CsrFile → CsrFile
unfolding mstatus_hardwired
init_storage f = record f {
  csrs = λ a.
      if a == Addr.misa
      then some 0x4000_0100
      else if a == Addr.mstatus
      then some (bit_or (mstatus_hardwired f) mstatus_mpp)
      else if is_zero_key f.s_mode_enabled f.u_mode_enabled a
      then some 0
      else none;
}

unfoldable pub reset : CsrFile → CsrFile
unfolding init_storage
reset f = record (init_storage f) { current_privilege = machine }

unfoldable pub set_f_extension : CsrFile → Bool → CsrFile
unfolding set get mstatus_legal_mask mstatus_hardwired
set_f_extension f enabled =
    let g = record f { f_extension = enabled } in
    set g Addr.mstatus
      (bit_or (bit_and (get g Addr.mstatus) (mstatus_legal_mask g)) (mstatus_hardwired g))

unfoldable pub set_misa : CsrFile → ℕ → CsrFile
unfolding set
set_misa f value = set f Addr.misa value

unfoldable pub exists : CsrFile → ℕ → Bool
exists f a =
    if a == Addr.fflags || a == Addr.frm || a == Addr.fcsr
    then f.f_extension
    else if a == Addr.cycle
        || a == Addr.cycleh
        || a == Addr.time
        || a == Addr.timeh
        || a == Addr.instret
        || a == Addr.instreth
    then true
    else is_some (f.csrs a)

-- `CSRPermissions::from_address`.
pub record CsrPermissions : Type 0 where
  pub readable : Bool
  pub writable : Bool
  pub min_privilege : PrivilegeLevel

unfoldable pub from_address : ℕ → CsrPermissions
from_address a = record {
  readable = true;
  writable = bit_and (shr32 a 10) 0x3 != 0x3;
  min_privilege = of_level (bit_and (shr32 a 8) 0x3);
}

unfoldable pub is_counter_csr : ℕ → Bool
is_counter_csr a =
    a == Addr.cycle
    || a == Addr.cycleh
    || a == Addr.time
    || a == Addr.timeh
    || a == Addr.instret
    || a == Addr.instreth

abbrev pub enabled : ℕ → ℕ → Bool
enabled counters a = bit_and (shr32 counters (bit_and a 0x1f)) 1 != 0

-- By the current privilege. Without S-mode the user level asks mcounteren alone.
abbrev counter_allowed : PrivilegeLevel → Bool → Bool → Bool → Bool
counter_allowed machine s_mode m_ok s_ok = true
counter_allowed supervisor s_mode m_ok s_ok = m_ok
counter_allowed _ s_mode m_ok s_ok = m_ok && (not s_mode || s_ok)

unfoldable pub counter_readable : CsrFile → ℕ → Bool
unfolding get
counter_readable f a =
    counter_allowed f.current_privilege f.s_mode_enabled (enabled (get f Addr.mcounteren) a)
      (enabled (get f Addr.scounteren) a)

abbrev privileged : CsrFile → ℕ → Bool
privileged f a = leb (level (from_address a).min_privilege) (level f.current_privilege)

unfoldable pub can_read : CsrFile → ℕ → Bool
unfolding from_address is_counter_csr counter_readable
can_read f a =
    if not (privileged f a) then false else if is_counter_csr a then counter_readable f a else true

unfoldable pub can_write : CsrFile → ℕ → Bool
unfolding from_address
can_write f a = (from_address a).writable && privileged f a
