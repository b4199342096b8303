-- ===== src/Screen/Cursor.antt =====
-- The place of a terminal stays on the screen, and printing stays inside the terminal's own page.
use os.Prelude.{
  ℕ, ◌+◌, ◌-◌, ◌*◌, ◌<◌, ◌≤◌, ◌≡◌, refl, arith, false, ◌==◌, if◌then◌else◌, in_range, List, [], ◌∷◌,
  Bool-cases, inl, inr,
}
use os.Screen.{
  Screen, num_cols, num_rows, terminal_mem, shift_up, shift_up_display, scroll_active, put_cell,
  putc_scroll, puts_scroll, next_row, set_place, is_newline, past_last_row, shift_page,
}
use os.Screen.Scroll.{shift_page_lem}

-- A place on the screen, or the one just behind its last cell.
pub record OnScreen (x y : ℕ) : Type 0 where
  pub column : x < num_cols
  pub cell : num_cols * y + x ≤ num_cols * num_rows

-- Where terminal `t` keeps its text.
abbrev pub page_base : Screen → ℕ
page_base s = if s.active_terminal == s.display_terminal then 0 else terminal_mem s.active_terminal

-- One round of scrolling of the running terminal.
abbrev pub scrolled : Screen → Screen
scrolled s =
    set_place s.active_terminal 0 (num_rows - 1)
      (record s { vmem = shift_page (page_base s) s.vmem })

-- The loop scrolls once if the row is past the last one, and not at all if it is not: two rounds of
-- fuel are enough.
pub scroll_active_lem :
    (s : Screen)
    → scroll_active 2 s
      ≡ (if past_last_row (s.screen_y_array s.active_terminal) then scrolled s else s)
unfolding scroll_active shift_up shift_up_display
scroll_active_lem s = ground arith

-- Printing a character at a terminal that is on the screen leaves every terminal where it was but the
-- running one, and that one on the screen.
putc_scroll-OnScreen :
    (c : ℕ) (s : Screen) (t : ℕ)
    → OnScreen (s.screen_x_array t) (s.screen_y_array t)
    → OnScreen ((putc_scroll c s).screen_x_array t) ((putc_scroll c s).screen_y_array t)
unfolding putc_scroll put_cell
putc_scroll-OnScreen c s t v = elim (Bool-cases (is_newline c)) [
  | inl nl ↦ rw nl (ground (arith, scroll_active_lem (next_row s.active_terminal s)))
  | inr ch ↦ rw ch (ground (arith, scroll_active_lem s))
]

-- Printing writes inside the page of the running terminal and nowhere else: the display and the texts
-- of the other terminals stay as they are.
pub putc_scroll_frame :
    (c : ℕ) (s : Screen) (a : ℕ)
    → s.active_terminal < 3
    → OnScreen (s.screen_x_array s.active_terminal) (s.screen_y_array s.active_terminal)
    → in_range (page_base s) 4000 a ≡ false
    → (putc_scroll c s).vmem a ≡ s.vmem a
unfolding putc_scroll put_cell
putc_scroll_frame c s a lim v out = elim (Bool-cases (is_newline c)) [
  | inl nl ↦ rw nl (
      ground (
        arith,
        scroll_active_lem (next_row s.active_terminal s),
        shift_page_lem (page_base s) s.vmem a,
      ))
  | inr ch ↦ rw ch (ground (arith, scroll_active_lem s, shift_page_lem (page_base s) s.vmem a))
]

pub putc_scroll_same :
    (c : ℕ) (s : Screen)
    → ((putc_scroll c s).active_terminal ≡ s.active_terminal)
      × ((putc_scroll c s).display_terminal ≡ s.display_terminal)
unfolding putc_scroll put_cell
putc_scroll_same c s = elim (Bool-cases (is_newline c)) [
  | inl nl ↦ rw nl (ground (arith, scroll_active_lem (next_row s.active_terminal s)))
  | inr ch ↦ rw ch (ground (arith, scroll_active_lem s))
]

-- Whatever a process prints goes to the page of its own terminal: no byte outside changes, whichever
-- terminal is on display.
pub puts_scroll_frame :
    (cs : List ℕ) (s : Screen) (a : ℕ)
    → s.active_terminal < 3
    → OnScreen (s.screen_x_array s.active_terminal) (s.screen_y_array s.active_terminal)
    → in_range (page_base s) 4000 a ≡ false
    → (puts_scroll cs s).vmem a ≡ s.vmem a
unfolding puts_scroll
puts_scroll_frame [] s a lim v out = refl
puts_scroll_frame (c ∷ cs) s a lim v out = ground (
  arith,
  putc_scroll_same c s,
  putc_scroll_frame c s a lim v out,
  putc_scroll-OnScreen c s s.active_terminal v,
  puts_scroll_frame cs (putc_scroll c s) a,
)
