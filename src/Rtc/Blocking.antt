-- ===== src/Rtc/Blocking.antt =====
-- When `rtc_read` waits.
use os.Prelude.{◌≡◌, refl, arith, none, some, pos}
use os.Pic.{Pic}
use os.Rtc.{Rtc, rtc_int_handler, rtc_read}

-- `rtc_read` returns as soon as an interrupt has come, however long ago, and takes the flag with it:
-- after an interrupt one read returns 0, and the next one waits.
rtc_read_once :
    (r : Rtc) (p : Pic)
    → (r' : Rtc) × (rtc_read (rtc_int_handler r p).0 ≡ some (pos 0, r'))
      × (rtc_read r' ≡ none)
      × (r'.reg ≡ r.reg)
unfolding rtc_read rtc_int_handler
rtc_read_once r p =
    (record (rtc_int_handler r p).0 { rtc_flag = 0 }, ground arith, ground arith, refl)
