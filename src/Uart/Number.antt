-- ===== src/Uart/Number.antt =====
-- The registers of uart.c and their flags.
use xemu.Base.{ℕ}

abbrev pub uart_rbr : ℕ
uart_rbr = 0

abbrev pub uart_thr : ℕ
uart_thr = 0

abbrev pub uart_ier : ℕ
uart_ier = 1

abbrev pub uart_iir : ℕ
uart_iir = 2

abbrev pub uart_lcr : ℕ
uart_lcr = 3

abbrev pub uart_mcr : ℕ
uart_mcr = 4

abbrev pub uart_lsr : ℕ
uart_lsr = 5

abbrev pub uart_msr : ℕ
uart_msr = 6

abbrev pub uart_scr : ℕ
uart_scr = 7

abbrev pub uart_lsr_temt : ℕ
uart_lsr_temt = 0x40

abbrev pub uart_lsr_thre : ℕ
uart_lsr_thre = 0x20

abbrev pub uart_lsr_bi : ℕ
uart_lsr_bi = 0x10

abbrev pub uart_lsr_dr : ℕ
uart_lsr_dr = 0x01

abbrev pub uart_lcr_dlab : ℕ
uart_lcr_dlab = 0x80

abbrev pub uart_ier_msi : ℕ
uart_ier_msi = 0x08

abbrev pub uart_ier_rlsi : ℕ
uart_ier_rlsi = 0x04

abbrev pub uart_ier_thri : ℕ
uart_ier_thri = 0x02

abbrev pub uart_ier_rdi : ℕ
uart_ier_rdi = 0x01

abbrev pub uart_iir_msi : ℕ
uart_iir_msi = 0x00

abbrev pub uart_iir_thri : ℕ
uart_iir_thri = 0x02

abbrev pub uart_iir_rdi : ℕ
uart_iir_rdi = 0x04

abbrev pub uart_iir_rlsi : ℕ
uart_iir_rlsi = 0x06

abbrev pub uart_iir_no_int : ℕ
uart_iir_no_int = 0x01

abbrev pub uart_iir_id : ℕ
uart_iir_id = 0x06
