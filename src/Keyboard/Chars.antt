-- ===== src/Keyboard/Chars.antt =====
-- The characters that `char_match` gives once the tables are filled.
use os.Prelude.{
  ℕ, ◌+◌, ◌-◌, ◌<◌, ◌≡◌, ◌≢◌, refl, arith, Bool, true, ◌&&◌, ◌||◌, not, List, [], ◌∷◌, leb, ◌==◌,
  if◌then◌else◌, Bytes, update, count_up, count_up_writes, all_pass, all_pass_at,
}
use mathlib.Core.Bool.{xor}
use os.ScanCode.{
  plain_keys, shifted_keys, assign, init_scan_code, init_shift_convert, num_scan_codes, num_convert,
}
use os.Keyboard.{Keyboard, char_match, shift_held, enter}

-- The tables over arrays that held nothing.
plain_char : ℕ → ℕ
plain_char = assign plain_keys (λ _. 0)

shifted_char : ℕ → ℕ
shifted_char = assign shifted_keys (λ _. 0)

assign_ext :
    (keys : List (ℕ × ℕ)) (m m' : Bytes) (a : ℕ) → m a ≡ m' a → assign keys m a ≡ assign keys m' a
assign_ext [] m m' a e = e
assign_ext ((i, c) ∷ rest) m m' a e =
    assign_ext rest (update m i c) (update m' i c) a (ground arith)

init_scan_code_lem : (m : Bytes) (c : ℕ) → c < 255 → init_scan_code m c ≡ plain_char c
unfolding init_scan_code plain_char
init_scan_code_lem m c h =
    assign_ext plain_keys (count_up num_scan_codes 0 (λ i m'. update m' i 0) m) (λ _. 0) c
      (ground (arith, count_up_writes (λ _ _. 0) 255 0 m c))

init_shift_convert_lem : (m : Bytes) (c : ℕ) → c < 80 → init_shift_convert m c ≡ shifted_char c
unfolding init_shift_convert shifted_char
init_shift_convert_lem m c h =
    assign_ext shifted_keys (count_up num_convert 0 (λ i m'. update m' i 0) m) (λ _. 0) c
      (ground (arith, count_up_writes (λ _ _. 0) 80 0 m c))

abbrev pub is_lower : ℕ → Bool
is_lower c = leb b'a' c && leb c b'z'

-- Keys that have a character of their own and no entry in the shift table: tab, space, and the keypad's
-- multiplication, digits 1 to 9, minus and plus.
abbrev pub has_no_shift : ℕ → Bool
has_no_shift c = c == 15 || c == 57 || c == 55 || (leb 71 c && leb c 79)

letter_entry : ℕ → Bool
letter_entry c =
    not (is_lower (plain_char c)) || (shifted_char c + 32 == plain_char c && not (c == enter))

letter_table : all_pass 80 letter_entry ≡ true
unfolding all_pass letter_entry plain_char shifted_char
letter_table = refl

lost_entry : ℕ → Bool
lost_entry c =
    not (has_no_shift c)
    || (shifted_char c == 0
        && not (plain_char c == 0)
        && not (is_lower (plain_char c))
        && not (c == enter))

lost_table : all_pass 80 lost_entry ≡ true
unfolding all_pass lost_entry plain_char shifted_char
lost_table = refl

-- The tables are those that `init_scan_code` leaves.
pub record IsReady (k : Keyboard) : Type 0 where
  pub before : Bytes
  pub before_shift : Bytes
  pub plain : k.scan_code ≡ init_scan_code before
  pub shifted : k.shift_convert ≡ init_shift_convert before_shift

module _ (k : Keyboard) (ready : IsReady k) (c : ℕ) (in_table : c < 80) where
  plain_entry : k.scan_code c ≡ plain_char c
  plain_entry = rw ready.plain (init_scan_code_lem ready.before c (omega arith))

  shifted_entry : k.shift_convert c ≡ shifted_char c
  shifted_entry = rw ready.shifted (init_shift_convert_lem ready.before_shift c in_table)

  -- A letter key gives the capital letter when exactly one of caps lock and a shift key is on, and the
  -- small letter otherwise.
  char_match-letter :
      is_lower (k.scan_code c) ≡ true
      → char_match k c
        ≡ (if xor (k.cap_status == 1) (shift_held k) then k.scan_code c - 32 else k.scan_code c)
  unfolding char_match letter_entry xor
  char_match-letter letter =
      ground
        (arith, plain_entry, shifted_entry, (all_pass_at 80 letter_entry c letter_table in_table))

  -- With a shift key held, Tab, Space and the keypad's keys give the NUL character, though each has a
  -- character of its own.
  char_match-shift_nul :
      has_no_shift c ≡ true → shift_held k ≡ true → (char_match k c ≡ 0) × (k.scan_code c ≢ 0)
  unfolding char_match lost_entry
  char_match-shift_nul lost held =
      ground (arith, plain_entry, shifted_entry, all_pass_at 80 lost_entry c lost_table in_table)
