-- ===== src/Rtc/Tests.antt =====
-- Examples of the clock.
use os.Prelude.{◌/◌, ◌%◌, ◌≡◌, refl, arith, some, ◌==◌, if◌then◌else◌, Bytes, update, word32, pos}
use os.Rtc.{Rtc, rtc_write}
use os.Rtc.Rates.{hertz, rtc_write_accepts}

abbrev clock : Rtc
clock = record { rtc_ctr = 0; rtc_flag = 0; index = 0; reg = update (λ _. 0) 0x0A 0x26 }

-- A buffer with the word 64, and one with 100.
abbrev hertz_64 : Bytes
hertz_64 = update (λ _. 0) 0 64

rtc_write_accepts_example :
    let (ret, r') = rtc_write (some hertz_64) 4 clock in
    (ret ≡ pos 4)
    × (hertz (r'.reg 0x0A % 16) ≡ word32 hertz_64 0)
    × (r'.reg 0x0A / 16 ≡ clock.reg 0x0A / 16)
    × (r'.reg 0x0B ≡ (if 0x0B == 0x0A then r'.reg 0x0A else clock.reg 0x0B))
rtc_write_accepts_example = rtc_write_accepts hertz_64 clock 0x0B refl (omega arith)
