-- ===== src/Rtc/Rates.antt =====
-- The frequencies that `rtc_write` accepts, and the rate that it programs for each.
use os.Prelude.{
  ℕ, ◌+◌, ◌-◌, ◌*◌, ◌/◌, ◌%◌, ◌^◌, ◌<◌, ◌≡◌, refl, arith, Bool, true, ◌&&◌, ◌||◌, Option, some, ltb,
  ◌==◌, if◌then◌else◌, Bytes, word32, ℤ, pos, minus_one, bit_and, bit_or, all_pass, all_pass_at,
  ==_iff,
}
use os.Prelude.{false, none, not, ◌⊎◌, inl, inr, ◌≢◌}
use os.Rtc.{Rtc, convert_freq, rtc_write, set_rate, no_rate, rate_mask}

-- The chip's frequency for the low four bits of register A: rates 1 and 2 are its two fast ones, the
-- others halve 32768 Hz.
abbrev pub hertz : ℕ → ℕ
hertz rate = if rate == 1 then 256 else if rate == 2 then 128 else 2 ^ (16 - rate)

-- A power of two from 2 to 1024.
abbrev pub is_supported : ℕ → Bool
is_supported f =
    f == 2
    || f == 4
    || f == 8
    || f == 16
    || f == 32
    || f == 64
    || f == 128
    || f == 256
    || f == 512
    || f == 1024

-- Bytes of register A with its low half set to `rate`.
rate_byte : ℕ → ℕ → Bool
rate_byte rate a = bit_or (bit_and a rate_mask) rate == a / 16 * 16 + rate

rate_table : all_pass 16 (λ rate. all_pass 256 (rate_byte rate)) ≡ true
unfolding all_pass rate_byte
rate_table = refl

rate_byte_lem :
    (rate a : ℕ) → rate < 16 → a < 256 → bit_or (bit_and a rate_mask) rate ≡ a / 16 * 16 + rate
unfolding rate_byte
rate_byte_lem rate a hr ha = (==_iff _ _).0 (
    all_pass_at 256 (rate_byte rate) a
      (all_pass_at 16 (λ k. all_pass 256 (rate_byte k)) rate rate_table hr) ha)

-- `set_rate` changes the low half of register A to the rate, keeps the high half, and leaves every
-- other register alone.
set_rate_lem :
    (rate : ℕ) (r : Rtc) (k : ℕ)
    → rate < 16
    → r.reg 0x0A < 256
    → (set_rate rate r).reg k ≡ (if k == 0x0A then r.reg 0x0A / 16 * 16 + rate else r.reg k)
unfolding set_rate
set_rate_lem rate r k hr ha = ground (arith, rate_byte_lem rate (r.reg 0x0A))

freq_good : ℕ → Bool
freq_good f = not (is_supported f) || (hertz (convert_freq f) == f && ltb (convert_freq f) 16)

freq_table : all_pass 1025 freq_good ≡ true
unfolding all_pass freq_good convert_freq
freq_table = refl

supported_small : (f : ℕ) → is_supported f ≡ true → f < 1025
supported_small f h = ground arith

supported_rate :
    (f : ℕ) → is_supported f ≡ true → (hertz (convert_freq f) ≡ f) × (convert_freq f < 16)
supported_rate f h =
    let good : freq_good f ≡ true = all_pass_at 1025 freq_good f freq_table (supported_small f h) in
    split (convert_freq f) (rw h at (open_good good))
  where
    open_good :
        freq_good f ≡ true
        → (not (is_supported f) || (hertz (convert_freq f) == f && ltb (convert_freq f) 16)) ≡ true
    open_good g = unfold freq_good in g

    split : (r : ℕ) → (hertz r == f && ltb r 16) ≡ true → (hertz r ≡ f) × (r < 16)
    split r e = ground (arith, ==_iff (hertz r) f)

unsupported_rate : (f : ℕ) → is_supported f ≡ false → convert_freq f ≡ no_rate
unfolding convert_freq
unsupported_rate f h = ground arith

low_half : (a rate : ℕ) → rate < 16 → (a / 16 * 16 + rate) % 16 ≡ rate
low_half a rate h = omega arith

-- A write of four bytes that hold a supported frequency is accepted: it returns 4 (where its comment in
-- rtc.c says 0), the chip then runs at that frequency, and the high half of register A and all other
-- registers are kept.
pub rtc_write_accepts :
    (buf : Bytes) (r : Rtc) (k : ℕ)
    → is_supported (word32 buf 0) ≡ true
    → r.reg 0x0A < 256
    → let (ret, r') = rtc_write (some buf) 4 r in
      (ret ≡ pos 4)
      × (hertz (r'.reg 0x0A % 16) ≡ word32 buf 0)
      × (r'.reg 0x0A / 16 ≡ r.reg 0x0A / 16)
      × (r'.reg k ≡ (if k == 0x0A then r'.reg 0x0A else r.reg k))
unfolding rtc_write
rtc_write_accepts buf r k h ha =
    let g = supported_rate (word32 buf 0) h in accept (convert_freq (word32 buf 0)) g.0 g.1
  where
    accept :
        (rate : ℕ)
        → hertz rate ≡ word32 buf 0
        → rate < 16
        → let (ret, r') =
            if◌then◌else◌ {A = ℤ × Rtc} (rate == no_rate) (minus_one, r) (pos 4, set_rate rate r) in
          (ret ≡ pos 4)
          × (hertz (r'.reg 0x0A % 16) ≡ word32 buf 0)
          × (r'.reg 0x0A / 16 ≡ r.reg 0x0A / 16)
          × (r'.reg k ≡ (if k == 0x0A then r'.reg 0x0A else r.reg k))
    accept rate e small =
        let known : (rate == no_rate) ≡ false = ground arith in
        let new = set_rate_lem rate r 0x0A small ha in
        let kept = set_rate_lem rate r k small ha in
        rw known (
          refl,
          rw (new, low_half (r.reg 0x0A) rate small) e,
          ground (arith, new),
          ground (arith, new, kept),
        )

-- Every other write is refused: with no buffer, with a size that is not 4, or with a frequency that is
-- not supported it returns -1 and leaves the clock alone.
rtc_write_refuses :
    (buf : Option Bytes) (nbytes : ℕ) (r : Rtc)
    → (buf ≡ none)
      ⊎ (nbytes ≢ 4)
      ⊎ ((b : Bytes) × (buf ≡ some b) × (is_supported (word32 b 0) ≡ false))
    → rtc_write buf nbytes r ≡ (minus_one, r)
unfolding rtc_write
rtc_write_refuses none nbytes r h = refl
rtc_write_refuses (some b) nbytes r (inl e) = cc
rtc_write_refuses (some b) nbytes r (inr (inl ne)) = ground arith
rtc_write_refuses (some b) nbytes r (inr (inr (b', e, un))) =
    ground (arith, unsupported_rate (word32 b' 0) un)
