-- ===== src/Zicsr/Masks.antt =====
-- riscv_zicsr.hpp, class `CSRFile`: the bits of mstatus, and of mie and mip.
use rv32_complete_v.Prelude.{ℕ}

abbrev pub mstatus_sie : ℕ
mstatus_sie = 0x2

abbrev pub mstatus_mie : ℕ
mstatus_mie = 0x8

abbrev pub mstatus_spie : ℕ
mstatus_spie = 0x20

abbrev pub mstatus_mpie : ℕ
mstatus_mpie = 0x80

abbrev pub mstatus_spp : ℕ
mstatus_spp = 0x100

abbrev pub mstatus_mpp : ℕ
mstatus_mpp = 0x1800

abbrev pub mstatus_fs : ℕ
mstatus_fs = 0x6000

abbrev pub mstatus_mprv : ℕ
mstatus_mprv = 0x20000

abbrev pub mstatus_sum : ℕ
mstatus_sum = 0x40000

abbrev pub mstatus_mxr : ℕ
mstatus_mxr = 0x80000

abbrev pub mstatus_tvm : ℕ
mstatus_tvm = 0x100000

abbrev pub mstatus_tw : ℕ
mstatus_tw = 0x200000

abbrev pub mstatus_tsr : ℕ
mstatus_tsr = 0x400000

abbrev pub mstatus_sd : ℕ
mstatus_sd = 0x80000000

abbrev pub mi_ssi : ℕ
mi_ssi = 0x2

abbrev pub mi_msi : ℕ
mi_msi = 0x8

abbrev pub mi_sti : ℕ
mi_sti = 0x20

abbrev pub mi_mti : ℕ
mi_mti = 0x80

abbrev pub mi_sei : ℕ
mi_sei = 0x200

abbrev pub mi_mei : ℕ
mi_mei = 0x800

-- The unions of such bits, evaluated.

abbrev pub mi_mask : ℕ
mi_mask = 0xaaa

abbrev pub sstatus_read_mask : ℕ
sstatus_read_mask = 0x800c6122

abbrev pub sstatus_write_mask : ℕ
sstatus_write_mask = 0xc0122

abbrev pub mstatus_all : ℕ
mstatus_all = 0x7e19aa

abbrev pub mstatus_s_only : ℕ
mstatus_s_only = 0x540122

abbrev pub mstatus_u_only : ℕ
mstatus_u_only = 0x2e0000

abbrev pub mstatus_dirty : ℕ
mstatus_dirty = 0x80006000
