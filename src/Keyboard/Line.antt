-- ===== src/Keyboard/Line.antt =====
-- The line editor: a key and Backspace, and what Enter hands to `terminal_read`.
use os.Prelude.{
  ℕ, zero, suc, ◌+◌, ◌-◌, ◌*◌, ◌<◌, ◌≡◌, arith, ltb, if◌then◌else◌, Bytes, update, count_up,
  count_up_each, in_range,
}
use os.Screen.{Screen}
use os.Keyboard.{Keyboard, type_key, erase, commit_line, fill, line_size, print_lim}

fill_lem :
    (start n c : ℕ) (m : Bytes) (a : ℕ)
    → fill start n c m a ≡ (if in_range start n a then c else m a)
unfolding fill
fill_lem start n c m a =
    count_up_each (λ i m'. update m' i c) (λ _ _. c) (λ i m' a'. ground arith) n start m a

-- Copying `n` bytes from elsewhere into a row.
pub copy_row :
    (n base start : ℕ) (src m : Bytes) (a : ℕ)
    → count_up n start (λ i m'. update m' (base + i) (src i)) m a
      ≡ (if in_range (base + start) n a then src (a - base) else m a)
unfolding count_up
copy_row zero base start src m a = ground arith
copy_row (suc n) base start src m a =
    ground (arith, copy_row n base (start + 1) src (update m (base + start) (src start)) a)

-- Backspace undoes a key: the line and its length are what they were, where the line has room and
-- holds no character behind its end.
erase-type_key :
    (input t : ℕ) (k : Keyboard) (s s' : Screen) (a : ℕ)
    → k.cursor_ind t < 128
    → k.keyboard_buffer (line_size * t + k.cursor_ind t) ≡ 0
    → let k' = (erase t (type_key input t k s).0 s').0 in
      (k'.keyboard_buffer a ≡ k.keyboard_buffer a) × (k'.cursor_ind a ≡ k.cursor_ind a)
unfolding erase type_key
erase-type_key input t k s s' a room clean = ground arith

-- Enter hands over the line: the print buffer of the terminal then begins with the 129 places of the
-- line and goes on with NULs, its line is empty, and the rows of other terminals stay as they are.
pub commit_line_lem :
    (t i : ℕ) (k : Keyboard)
    → ((commit_line t k).print_buffer i ≡ (
        if in_range (print_lim * t) print_lim i
        then if ltb (i - print_lim * t) line_size
          then k.keyboard_buffer (line_size * t + (i - print_lim * t))
          else 0
        else k.print_buffer i))
      × ((commit_line t k).keyboard_buffer i
          ≡ (if in_range (line_size * t) line_size i then 0 else k.keyboard_buffer i))
      × ((commit_line t k).cursor_ind t ≡ 0)
      × ((commit_line t k).terminal_read_ready t ≡ 1)
unfolding commit_line
commit_line_lem t i k = ground (
  arith,
  copy_row line_size (print_lim * t) 0 (λ j. k.keyboard_buffer (line_size * t + j))
      (fill (print_lim * t) print_lim 0 k.print_buffer) i,
  fill_lem (print_lim * t) print_lim 0 k.print_buffer i,
  fill_lem (line_size * t) line_size 0 k.keyboard_buffer i,
)
