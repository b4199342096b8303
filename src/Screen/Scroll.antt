-- ===== src/Screen/Scroll.antt =====
-- The scrolling loops: where each byte of the page comes from.
use os.Prelude.{
  ℕ, zero, suc, ◌+◌, ◌-◌, ◌*◌, ◌%◌, ◌≤◌, ◌≡◌, arith, Bool, ltb, ◌==◌, if◌then◌else◌, Bytes,
  count_up, in_range,
}
use os.Prelude.{true, false, ◌∙◌}
use os.Screen.{num_cols, attrib, shift_cell, shift_row, blank_cell, shift_page}

-- What a scrolled row holds: the character of the row below, and the attribute.
abbrev shifted : ℕ → Bytes → ℕ → ℕ
shifted base m a = if (a - base) % 2 == 0 then m (a + 160) else attrib

row_loop :
    (n base y x : ℕ) (m : Bytes) (a : ℕ)
    → x + n ≤ num_cols
    → count_up n x (shift_cell base y) m a
      ≡ (if in_range (base + (num_cols * y + x) * 2) (2 * n) a then shifted base m a else m a)
unfolding count_up
row_loop zero base y x m a h = ground arith
row_loop (suc n) base y x m a h =
    ground (arith, row_loop n base y (x + 1) (shift_cell base y x m) a (omega arith))

shift_row_lem :
    (base y : ℕ) (m : Bytes) (a : ℕ)
    → shift_row base y m a ≡ (if in_range (base + 160 * y) 160 a then shifted base m a else m a)
unfolding shift_row
shift_row_lem base y m a = ground (arith, row_loop 80 base y 0 m a (omega arith))

rows_loop :
    (n base y : ℕ) (m : Bytes) (a : ℕ)
    → count_up n y (shift_row base) m a
      ≡ (if in_range (base + 160 * y) (160 * n) a then shifted base m a else m a)
unfolding count_up
rows_loop zero base y m a = ground arith
rows_loop (suc n) base y m a = ground (
  arith,
  rows_loop n base (y + 1) (shift_row base y m) a,
  shift_row_lem base y m a,
  shift_row_lem base y m (a + 160),
)

blank_loop :
    (n base x : ℕ) (m : Bytes) (a : ℕ)
    → count_up n x (blank_cell base) m a ≡ (
        if in_range (base + 3840 + x * 2) (2 * n) a
        then if (a - base) % 2 == 0 then 32 else attrib
        else m a)
unfolding count_up
blank_loop zero base x m a = ground arith
blank_loop (suc n) base x m a = ground (arith, blank_loop n base (x + 1) (blank_cell base x m) a)

-- The two parts of the page put together.
join_parts :
    (base a p q z : ℕ) (even : Bool)
    → z ≡ (if in_range base 3840 a then if even then p else attrib else q)
    → (if in_range (base + 3840) 160 a then if even then 32 else attrib else z) ≡ (
        if in_range base 4000 a
        then if even then if ltb (a - base) 3840 then p else 32 else attrib
        else q)
join_parts base a p q z true e = ground arith
join_parts base a p q z false e = ground arith

-- Scrolling the page at `base` moves each character of its 4000 bytes up by one row, blanks the last
-- row, sets every attribute, and leaves all other memory alone.
pub shift_page_lem :
    (base : ℕ) (m : Bytes) (a : ℕ)
    → shift_page base m a ≡ (
        if in_range base 4000 a
        then if (a - base) % 2 == 0 then if ltb (a - base) 3840 then m (a + 160) else 32 else attrib
        else m a)
unfolding shift_page
shift_page_lem base m a =
    blank_loop 80 base 0 (count_up 24 0 (shift_row base) m) a
    ∙ join_parts' (count_up 24 0 (shift_row base) m a) (rows_loop 24 base 0 m a)
  where
    join_parts' :
        (z : ℕ)
        → z ≡ (if in_range (base + 160 * 0) (160 * 24) a then shifted base m a else m a)
        → (if in_range (base + 3840 + 0 * 2) (2 * 80) a
            then if (a - base) % 2 == 0 then 32 else attrib
            else z)
          ≡ (if in_range base 4000 a
              then if (a - base) % 2 == 0
                then if ltb (a - base) 3840 then m (a + 160) else 32
                else attrib
              else m a)
    join_parts' z e = ground (arith, e)
