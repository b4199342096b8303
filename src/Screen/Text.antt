-- ===== src/Screen/Text.antt =====
-- The abstract view of a terminal: 2000 characters in a row, and the number of the next one to print.
use os.Prelude.{
  ℕ, ◌+◌, ◌*◌, ◌/◌, ◌<◌, ◌≡◌, refl, arith, ltb, leb, ◌==◌, if◌then◌else◌, update, Bool-cases, inl,
  inr,
}
use os.Screen.{
  Screen, num_cols, num_rows, putc_scroll, next_row, is_newline, put_cell, scroll_active,
}
use os.Screen.Scroll.{shift_page_lem}
use os.Screen.Cursor.{OnScreen, page_base, scroll_active_lem}

pub record Text : Type 0 where
  pub char : ℕ → ℕ
  pub next : ℕ

-- The first 80 characters go, 80 blanks come, and printing goes on at the start of the last row.
abbrev pub scroll : Text → Text
scroll t = record { char = λ i. if ltb i 1920 then t.char (i + 80) else 32; next = 1920 }

-- A newline goes to the start of the next row, which may be a new one. Another character is put at
-- the next place, and is what makes room for it where the text is full.
abbrev pub put_char : ℕ → Text → Text
put_char c t =
    let t' = if leb 2000 t.next then scroll t else t in
    record { char = update t'.char t'.next c; next = t'.next + 1 }

abbrev pub new_line : Text → Text
new_line t =
    let n = (t.next / 80 + 1) * 80 in
    if leb 2000 n then scroll t else record { char = t.char; next = n }

unfoldable pub print : ℕ → Text → Text
print c t = if is_newline c then new_line t else put_char c t

-- The running terminal's characters, and its place.
abbrev pub view : Screen → Text
view s = record {
  char = λ i. s.vmem (page_base s + 2 * i);
  next = num_cols * s.screen_y_array s.active_terminal + s.screen_x_array s.active_terminal;
}

-- One character, at a place on the screen.
put_cell_char :
    (base t c : ℕ) (s : Screen) (i : ℕ)
    → base < 20000
    → s.screen_x_array t < num_cols
    → s.screen_y_array t < num_rows
    → i < 2000
    → (put_cell base t c s).vmem (base + 2 * i) ≡ (
        if i == num_cols * s.screen_y_array t + s.screen_x_array t
        then c
        else s.vmem (base + 2 * i))
unfolding put_cell
put_cell_char base t c s i hb hx hy h = ground arith

put_cell_next :
    (base t c : ℕ) (s : Screen)
    → s.screen_x_array t < num_cols
    → s.screen_y_array t < num_rows
    → num_cols * (put_cell base t c s).screen_y_array t + (put_cell base t c s).screen_x_array t
      ≡ num_cols * s.screen_y_array t + s.screen_x_array t + 1
unfolding put_cell
put_cell_next base t c s hx hy = ground arith

put_cell_same :
    (base t c : ℕ) (s : Screen)
    → ((put_cell base t c s).active_terminal ≡ s.active_terminal)
      × ((put_cell base t c s).display_terminal ≡ s.display_terminal)
unfolding put_cell
put_cell_same base t c s = (refl, refl)

-- What precedes the character: the row is past the last one only where the text is full.
make_room :
    (s : Screen) (i : ℕ)
    → OnScreen (s.screen_x_array s.active_terminal) (s.screen_y_array s.active_terminal)
    → i < 2000
    → let t = view s in
      let s1 = scroll_active 2 s in
      let t1 = if leb 2000 t.next then scroll t else t in
      ((view s1).char i ≡ t1.char i)
      × ((view s1).next ≡ t1.next)
      × (s1.active_terminal ≡ s.active_terminal)
      × (s1.display_terminal ≡ s.display_terminal)
      × (s1.screen_x_array s.active_terminal < num_cols)
      × (s1.screen_y_array s.active_terminal < num_rows)
make_room s i v h =
    ground (arith, scroll_active_lem s, shift_page_lem (page_base s) s.vmem (page_base s + 2 * i))

-- `putc_scroll` prints: seen as a text, the terminal it leaves is the text printed on, in every one of
-- the 2000 characters and in the place of the next.
pub putc_scroll_refines :
    (c : ℕ) (s : Screen) (i : ℕ)
    → s.active_terminal < 3
    → OnScreen (s.screen_x_array s.active_terminal) (s.screen_y_array s.active_terminal)
    → i < 2000
    → ((view (putc_scroll c s)).char i ≡ (print c (view s)).char i)
      × ((view (putc_scroll c s)).next ≡ (print c (view s)).next)
unfolding putc_scroll print
putc_scroll_refines c s i lim v h = elim (Bool-cases (is_newline c)) [
  | inl nl ↦ rw nl (
      ground (
        arith,
        scroll_active_lem (next_row s.active_terminal s),
        shift_page_lem (page_base s) s.vmem (page_base s + 2 * i),
      ))
  | inr ch ↦
      let r = make_room s i v h in
      rw ch (
        ground (
          arith,
          r,
          put_cell_same (page_base s) s.active_terminal c (scroll_active 2 s),
          put_cell_next (page_base s) s.active_terminal c (scroll_active 2 s) r.4 r.5,
          put_cell_char (page_base s) s.active_terminal c (scroll_active 2 s) i (ground arith) r.4
              r.5 h,
        ))
]
