-- ===== src/Csr/Number.antt =====
-- The CSR numbers of csr.h.
use xemu.Base.{ℕ}

abbrev pub ustatus : ℕ
ustatus = 0x000

abbrev pub fcsr : ℕ
fcsr = 0x003

abbrev pub sstatus : ℕ
sstatus = 0x100

abbrev pub sedeleg : ℕ
sedeleg = 0x102

abbrev pub sideleg : ℕ
sideleg = 0x103

abbrev pub sie : ℕ
sie = 0x104

abbrev pub stvec : ℕ
stvec = 0x105

abbrev pub scounteren : ℕ
scounteren = 0x106

abbrev pub sscratch : ℕ
sscratch = 0x140

abbrev pub sepc : ℕ
sepc = 0x141

abbrev pub scause : ℕ
scause = 0x142

abbrev pub stval : ℕ
stval = 0x143

abbrev pub sip : ℕ
sip = 0x144

abbrev pub satp : ℕ
satp = 0x180

abbrev pub mstatus : ℕ
mstatus = 0x300

abbrev pub misa : ℕ
misa = 0x301

abbrev pub medeleg : ℕ
medeleg = 0x302

abbrev pub mideleg : ℕ
mideleg = 0x303

abbrev pub mie : ℕ
mie = 0x304

abbrev pub mtvec : ℕ
mtvec = 0x305

abbrev pub mcounteren : ℕ
mcounteren = 0x306

abbrev pub mscratch : ℕ
mscratch = 0x340

abbrev pub mepc : ℕ
mepc = 0x341

abbrev pub mcause : ℕ
mcause = 0x342

abbrev pub mtval : ℕ
mtval = 0x343

abbrev pub mip : ℕ
mip = 0x344

abbrev pub pmpcfg0 : ℕ
pmpcfg0 = 0x3a0

abbrev pub pmpcfg2 : ℕ
pmpcfg2 = 0x3a2

abbrev pub pmpaddr0 : ℕ
pmpaddr0 = 0x3b0

abbrev pub pmpaddr1 : ℕ
pmpaddr1 = 0x3b1

abbrev pub pmpaddr2 : ℕ
pmpaddr2 = 0x3b2

abbrev pub pmpaddr3 : ℕ
pmpaddr3 = 0x3b3

abbrev pub pmpaddr4 : ℕ
pmpaddr4 = 0x3b4

abbrev pub pmpaddr5 : ℕ
pmpaddr5 = 0x3b5

abbrev pub pmpaddr6 : ℕ
pmpaddr6 = 0x3b6

abbrev pub pmpaddr7 : ℕ
pmpaddr7 = 0x3b7

abbrev pub pmpaddr8 : ℕ
pmpaddr8 = 0x3b8

abbrev pub pmpaddr9 : ℕ
pmpaddr9 = 0x3b9

abbrev pub pmpaddr10 : ℕ
pmpaddr10 = 0x3ba

abbrev pub pmpaddr11 : ℕ
pmpaddr11 = 0x3bb

abbrev pub pmpaddr12 : ℕ
pmpaddr12 = 0x3bc

abbrev pub pmpaddr13 : ℕ
pmpaddr13 = 0x3bd

abbrev pub pmpaddr14 : ℕ
pmpaddr14 = 0x3be

abbrev pub pmpaddr15 : ℕ
pmpaddr15 = 0x3bf

abbrev pub pmpaddr16 : ℕ
pmpaddr16 = 0x3c0

abbrev pub pmpaddr63 : ℕ
pmpaddr63 = 0x3ef

abbrev pub mhpmcounter3 : ℕ
mhpmcounter3 = 0xb03

abbrev pub mhpmcounter31 : ℕ
mhpmcounter31 = 0xb1f

abbrev pub cycle : ℕ
cycle = 0xc00

abbrev pub time : ℕ
time = 0xc01

abbrev pub instret : ℕ
instret = 0xc02

abbrev pub mvendorid : ℕ
mvendorid = 0xf11

abbrev pub marchid : ℕ
marchid = 0xf12

abbrev pub mimpid : ℕ
mimpid = 0xf13

abbrev pub mhartid : ℕ
mhartid = 0xf14
