-- ===== src/Zicsr/Access.antt =====
-- riscv_zicsr.hpp, class `CSRFile`: architectural reads and writes, with aliases and WARL fields.
use rv32_complete_v.Zicsr.Addr
use rv32_complete_v.Zicsr.Masks.{
  mi_mask, mi_ssi, mstatus_mpp, mstatus_sd, sstatus_read_mask, sstatus_write_mask,
}
use rv32_complete_v.Zicsr.File.{
  CsrFile, get, set, mip_writable_mask, mstatus_hardwired, mstatus_legal_mask, legalize_mpp,
}
use rv32_complete_v.Prelude.{
  none, some, not, ◌||◌, ltb, not32, ◌==◌, ◌∷◌, shl32, some, Option, bit_or, bit_and, if◌then◌else◌,
  shr32, ℕ,
}

abbrev overridden : CsrFile → ℕ → Option (ℕ → ℕ) → ℕ
overridden f addr none = get f addr
overridden f addr (some callback) = callback addr

unfoldable pub read_raw : CsrFile → ℕ → ℕ
unfolding get
read_raw f addr = overridden f addr f.read_callback

unfoldable pub read : CsrFile → ℕ → ℕ
unfolding read_raw get
read f a =
    if a == Addr.fflags
    then bit_and (read_raw f Addr.fcsr) 0x1f
    else if a == Addr.frm
    then bit_and (shr32 (read_raw f Addr.fcsr) 5) 0x7
    else if a == Addr.cycle
    then read_raw f Addr.mcycle
    else if a == Addr.cycleh
    then read_raw f Addr.mcycleh
    else if a == Addr.time
    then read_raw f Addr.mcycle
    else if a == Addr.timeh
    then read_raw f Addr.mcycleh
    else if a == Addr.instret
    then read_raw f Addr.minstret
    else if a == Addr.instreth
    then read_raw f Addr.minstreth
    else if a == Addr.sstatus
    then bit_and (read_raw f Addr.mstatus) sstatus_read_mask
    else if a == Addr.sie
    then bit_and (read_raw f Addr.mie) (get f Addr.mideleg)
    else if a == Addr.sip
    then bit_and (read_raw f Addr.mip) (get f Addr.mideleg)
    else read_raw f a

-- The values that the WARL fields legalize to.
unfoldable pub legal_mstatus : CsrFile → ℕ → ℕ
unfolding mstatus_legal_mask legalize_mpp mstatus_hardwired
legal_mstatus f value =
    let v = bit_and value (mstatus_legal_mask f) in
    let mpp = legalize_mpp f (bit_and (shr32 v 11) 3) in
    bit_or (bit_or (bit_and v (not32 mstatus_mpp)) (shl32 mpp 11)) (mstatus_hardwired f)

unfoldable pub legal_tvec : ℕ → ℕ
legal_tvec value =
    let mode = bit_and value 0x3 in
    bit_or (bit_and value (not32 0x3)) (if ltb 1 mode then 0 else mode)

-- Replace the digits of `mask` in `old` by those of `value`.
unfoldable pub merge : ℕ → ℕ → ℕ → ℕ
merge old mask value = bit_or (bit_and old (not32 mask)) (bit_and value mask)

unfoldable pub legal_sstatus : CsrFile → ℕ → ℕ
unfolding merge get mstatus_legal_mask mstatus_hardwired
legal_sstatus f value =
    let v = bit_and (merge (get f Addr.mstatus) sstatus_write_mask value) (not32 mstatus_sd) in
    bit_or (bit_and v (mstatus_legal_mask f)) (mstatus_hardwired f)

unfoldable pub legal_satp : ℕ → ℕ
legal_satp value =
    let mode = shr32 value 31 in
    bit_or (bit_and value 0x7fff_ffff) (shl32 (if ltb 1 mode then 0 else mode) 31)

-- The `switch (addr)` of `write`. The registers that it lists and stores as they are (mcounteren,
-- scause, stval, sscratch, scounteren) go with its `default`.
unfoldable pub write_value : CsrFile → ℕ → ℕ → CsrFile
unfolding get set merge legal_mstatus legal_tvec legal_sstatus legal_satp mip_writable_mask
write_value f a value =
    if a == Addr.fflags
    then set f Addr.fcsr (bit_or (bit_and (get f Addr.fcsr) (not32 0x1f)) (bit_and value 0x1f))
    else if a == Addr.frm
    then set f Addr.fcsr
        (bit_or (bit_and (get f Addr.fcsr) (not32 0xe0)) (shl32 (bit_and value 0x7) 5))
    else if a == Addr.fcsr
    then set f Addr.fcsr (bit_and value 0xff)
    else if a == Addr.mstatus
    then set f Addr.mstatus (legal_mstatus f value)
    else if a == Addr.mtvec
    then set f Addr.mtvec (legal_tvec value)
    else if a == Addr.mepc
    then set f Addr.mepc (bit_and value f.mepc_mask)
    else if a == Addr.misa
    then f
    else if a == Addr.mstatush || a == Addr.menvcfg || a == Addr.menvcfgh
    then f
    else if a == Addr.mie
    then set f Addr.mie (bit_and value mi_mask)
    else if a == Addr.mip
    then set f Addr.mip (merge (get f Addr.mip) (mip_writable_mask f) value)
    else if a == Addr.medeleg
    then set f Addr.medeleg (bit_and value 0xf7ff)
    else if a == Addr.mideleg
    then set f Addr.mideleg (bit_and value mi_mask)
    else if a == Addr.sstatus
    then set f Addr.mstatus (legal_sstatus f value)
    else if a == Addr.sie
    then (if not f.s_mode_enabled
        then f
        else (let deleg = get f Addr.mideleg in
            set f Addr.mie (
              bit_or (bit_and (get f Addr.mie) (not32 deleg))
                (bit_and (bit_and value deleg) mi_mask))))
    else if a == Addr.sip
    then (if not f.s_mode_enabled
        then f
        else set f Addr.mip (merge (get f Addr.mip) (bit_and mi_ssi (get f Addr.mideleg)) value))
    else if a == Addr.stvec
    then set f Addr.stvec (legal_tvec value)
    else if a == Addr.sepc
    then set f Addr.sepc (bit_and value f.mepc_mask)
    else if a == Addr.satp
    then set f Addr.satp (legal_satp value)
    else set f a value

unfoldable pub write : CsrFile → ℕ → ℕ → CsrFile
unfolding write_value
write f a value =
    write_value (if f.write_callback then record f { observed = (a, value) ∷ f.observed } else f) a
      value
