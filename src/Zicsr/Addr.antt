-- ===== src/Zicsr/Addr.antt =====
-- riscv_zicsr.hpp, namespace `csr_addr`.
use rv32_complete_v.Prelude.{ℕ}

abbrev pub fflags : ℕ
fflags = 0x001

abbrev pub frm : ℕ
frm = 0x002

abbrev pub fcsr : ℕ
fcsr = 0x003

abbrev pub cycle : ℕ
cycle = 0xc00

abbrev pub time : ℕ
time = 0xc01

abbrev pub instret : ℕ
instret = 0xc02

abbrev pub cycleh : ℕ
cycleh = 0xc80

abbrev pub timeh : ℕ
timeh = 0xc81

abbrev pub instreth : ℕ
instreth = 0xc82

abbrev pub sstatus : ℕ
sstatus = 0x100

abbrev pub sie : ℕ
sie = 0x104

abbrev pub stvec : ℕ
stvec = 0x105

abbrev pub scounteren : ℕ
scounteren = 0x106

abbrev pub sscratch : ℕ
sscratch = 0x140

abbrev pub sepc : ℕ
sepc = 0x141

abbrev pub scause : ℕ
scause = 0x142

abbrev pub stval : ℕ
stval = 0x143

abbrev pub sip : ℕ
sip = 0x144

abbrev pub satp : ℕ
satp = 0x180

abbrev pub mvendorid : ℕ
mvendorid = 0xf11

abbrev pub marchid : ℕ
marchid = 0xf12

abbrev pub mimpid : ℕ
mimpid = 0xf13

abbrev pub mhartid : ℕ
mhartid = 0xf14

abbrev pub mconfigptr : ℕ
mconfigptr = 0xf15

abbrev pub mstatus : ℕ
mstatus = 0x300

abbrev pub misa : ℕ
misa = 0x301

abbrev pub medeleg : ℕ
medeleg = 0x302

abbrev pub mideleg : ℕ
mideleg = 0x303

abbrev pub mie : ℕ
mie = 0x304

abbrev pub mtvec : ℕ
mtvec = 0x305

abbrev pub mcounteren : ℕ
mcounteren = 0x306

abbrev pub mstatush : ℕ
mstatush = 0x310

abbrev pub menvcfg : ℕ
menvcfg = 0x30a

abbrev pub menvcfgh : ℕ
menvcfgh = 0x31a

abbrev pub mscratch : ℕ
mscratch = 0x340

abbrev pub mepc : ℕ
mepc = 0x341

abbrev pub mcause : ℕ
mcause = 0x342

abbrev pub mtval : ℕ
mtval = 0x343

abbrev pub mip : ℕ
mip = 0x344

abbrev pub mcycle : ℕ
mcycle = 0xb00

abbrev pub minstret : ℕ
minstret = 0xb02

abbrev pub mcycleh : ℕ
mcycleh = 0xb80

abbrev pub minstreth : ℕ
minstreth = 0xb82
