-- ===== src/Csr/Cause.antt =====
-- The bit positions, the modes and the causes of csr.h.
use xemu.Base.{ℕ, ◌+◌, ◌^◌}

abbrev pub u_mode : ℕ
u_mode = 0

abbrev pub s_mode : ℕ
s_mode = 1

abbrev pub m_mode : ℕ
m_mode = 3

abbrev pub sie_pos : ℕ
sie_pos = 1

abbrev pub mie_pos : ℕ
mie_pos = 3

abbrev pub spie_pos : ℕ
spie_pos = 5

abbrev pub mpie_pos : ℕ
mpie_pos = 7

abbrev pub spp_pos : ℕ
spp_pos = 8

abbrev pub intr : ℕ
intr = 2 ^ 63

abbrev pub inst_addr_misaligned : ℕ
inst_addr_misaligned = 0x0

abbrev pub inst_access_fault : ℕ
inst_access_fault = 0x1

abbrev pub illegal_inst : ℕ
illegal_inst = 0x2

abbrev pub break_point : ℕ
break_point = 0x3

abbrev pub load_addr_misaligned : ℕ
load_addr_misaligned = 0x4

abbrev pub load_access_fault : ℕ
load_access_fault = 0x5

abbrev pub store_addr_misaligned : ℕ
store_addr_misaligned = 0x6

abbrev pub store_access_fault : ℕ
store_access_fault = 0x7

abbrev pub ecall_from_u_mode : ℕ
ecall_from_u_mode = 0x8

abbrev pub ecall_from_s_mode : ℕ
ecall_from_s_mode = 0x9

abbrev pub ecall_from_m_mode : ℕ
ecall_from_m_mode = 0xb

abbrev pub inst_page_fault : ℕ
inst_page_fault = 0xc

abbrev pub load_page_fault : ℕ
load_page_fault = 0xd

abbrev pub store_page_fault : ℕ
store_page_fault = 0xf

abbrev pub u_software_intr : ℕ
u_software_intr = intr + 0x0

abbrev pub s_software_intr : ℕ
s_software_intr = intr + 0x1

abbrev pub m_software_intr : ℕ
m_software_intr = intr + 0x3

abbrev pub u_timer_intr : ℕ
u_timer_intr = intr + 0x4

abbrev pub s_timer_intr : ℕ
s_timer_intr = intr + 0x5

abbrev pub m_timer_intr : ℕ
m_timer_intr = intr + 0x7

abbrev pub u_external_intr : ℕ
u_external_intr = intr + 0x8

abbrev pub s_external_intr : ℕ
s_external_intr = intr + 0x9

abbrev pub m_external_intr : ℕ
m_external_intr = intr + 0xb
