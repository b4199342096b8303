-- ===== src/Rtc.antt =====
-- student-distrib/rtc.c and rtc.h: the real time clock. The clock's chip is the index written to port
-- 0x70, whose top bit disables the NMI, and the registers that port 0x71 reads and writes.
pub mod Rates
pub mod Blocking
mod Tests
use os.Prelude.{
  ℕ, ◌+◌, ◌-◌, ◌%◌, ◌^◌, Bool, true, false, ◌||◌, not, Option, none, some, ◌==◌, if◌then◌else◌,
  Bytes, update, word32, u32, ℤ, pos, minus_one, int32, bit_and, bit_or,
}
use os.Pic.{Pic, enable_irq, send_eoi}

abbrev pub irq_rtc : ℕ
irq_rtc = 8

abbrev pub disable_nmi : ℕ
disable_nmi = 0x80

abbrev pub rate_mask : ℕ
rate_mask = 0xF0

abbrev pub freq_2_hz : ℕ
freq_2_hz = 0x0F

-- The two globals of rtc.c, and the chip.
pub record Rtc : Type 0 where
  pub rtc_ctr : ℕ
  pub rtc_flag : ℕ
  pub index : ℕ
  pub reg : ℕ → ℕ

-- outb(value, CMOS_ADDR)
abbrev pub select : ℕ → Rtc → Rtc
select value r = record r { index = value }

-- inb(CMOS_DATA)
abbrev pub cmos_read : Rtc → ℕ
cmos_read r = r.reg (r.index % disable_nmi)

-- outb(value, CMOS_DATA)
abbrev pub cmos_write : ℕ → Rtc → Rtc
cmos_write value r = record r { reg = update r.reg (r.index % disable_nmi) (value % 2 ^ 8) }

-- The sequence that sets the rate in register A: select, read, select again, write.
unfoldable pub set_rate : ℕ → Rtc → Rtc
set_rate rate r =
    let r1 = select (bit_or disable_nmi 0x0A) r in
    let prev = cmos_read r1 in
    cmos_write (bit_or (bit_and prev rate_mask) rate) (select (bit_or disable_nmi 0x0A) r1)

unfoldable pub rtc_init : Rtc → Pic → Rtc × Pic
unfolding set_rate
rtc_init r p =
    let r1 = set_rate freq_2_hz r in
    let r2 = select (bit_or disable_nmi 0x0B) r1 in
    let prev = cmos_read r2 in
    let r3 = cmos_write (bit_or prev 0x40) (select (bit_or disable_nmi 0x0B) r2) in
    (record r3 { rtc_flag = 0 }, enable_irq irq_rtc p)

-- Reading register C is what lets the chip interrupt again; the value is dropped.
unfoldable pub rtc_int_handler : Rtc → Pic → Rtc × Pic
rtc_int_handler r p =
    (select 0x0C (record r { rtc_ctr = u32 (r.rtc_ctr + 1); rtc_flag = 1 }), send_eoi irq_rtc p)

unfoldable pub rtc_open : Rtc → ℤ × Rtc
unfolding set_rate
rtc_open r = (pos 0, set_rate freq_2_hz r)

unfoldable pub rtc_close : ℤ
rtc_close = pos 0

-- `while (!RTC_flag) {}`: `none` as long as the flag is clear.
unfoldable pub rtc_read : Rtc → Option (ℤ × Rtc)
rtc_read r = if r.rtc_flag == 0 then none else some (pos 0, record r { rtc_flag = 0 })

-- The -1 that `convert_freq` stores for a frequency that it does not know.
abbrev pub no_rate : ℕ
no_rate = 2 ^ 32 - 1

unfoldable pub convert_freq : ℕ → ℕ
convert_freq freq =
    if freq == 2
    then 0x0F
    else if freq == 4
    then 0x0E
    else if freq == 8
    then 0x0D
    else if freq == 16
    then 0x0C
    else if freq == 32
    then 0x0B
    else if freq == 64
    then 0x0A
    else if freq == 128
    then 0x02
    else if freq == 256
    then 0x01
    else if freq == 512
    then 0x07
    else if freq == 1024
    then 0x06
    else no_rate

-- `nbytes` is a 32-bit pattern. The outer branch is the test of the parameters.
unfoldable pub rtc_write : Option Bytes → ℕ → Rtc → ℤ × Rtc
rtc_write none nbytes r = (minus_one, r)
rtc_write (some buf) nbytes r =
    let freq = convert_freq (word32 buf 0) in
    if not (nbytes == 4)
    then (minus_one, r)
    else if freq == no_rate
    then (minus_one, r)
    else (int32 nbytes, set_rate freq r)
