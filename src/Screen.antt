-- ===== src/Screen.antt =====
-- student-distrib/lib.c: the three text terminals. `vmem` is the memory from 0xB8000 on: the page on
-- display first, then a page of 4 KB for each terminal, which holds its text while another is on
-- display. A character cell is two bytes, the character and its attribute.
-- Coordinates are C `int`s, as 32-bit patterns.
pub mod Scroll
pub mod Cursor
pub mod Text
pub mod Switch
mod Tests
use os.Prelude.{
  ℕ, zero, suc, ◌+◌, ◌-◌, ◌*◌, ◌/◌, ◌%◌, ◌^◌, Bool, ◌||◌, not, List, [], ◌∷◌, ◌==◌, if◌then◌else◌,
  Bytes, update, count_up, u16, u32, sub32, slt, Option, none, some,
}
use os.Paging.{Paging, set_active_terminal_paging}

abbrev pub num_cols : ℕ
num_cols = 80

abbrev pub num_rows : ℕ
num_rows = 25

abbrev pub attrib : ℕ
attrib = 0x7

abbrev pub kb_4 : ℕ
kb_4 = 0x1000

-- The static variables of lib.c, the cursor registers of the video controller, and the page tables,
-- which `set_active_terminal` changes. `screen_x_array` and `screen_y_array` go by terminal.
pub record Screen : Type 0 where
  pub vmem : Bytes
  pub screen_x : ℕ
  pub screen_y : ℕ
  pub screen_x_array : ℕ → ℕ
  pub screen_y_array : ℕ → ℕ
  pub display_terminal : ℕ
  pub active_terminal : ℕ
  pub crtc : ℕ → ℕ
  pub paging : Paging

-- terminal_mem[t], from the video memory on
abbrev pub terminal_mem : ℕ → ℕ
terminal_mem t = (t + 1) * 0x1000

-- The byte offset of the cell at column `x` of row `y`, in the page at `base`.
abbrev pub cell_at : ℕ → ℕ → ℕ → ℕ
cell_at base x y = u32 (base + (num_cols * y + x) * 2)

-- A character and its attribute.
abbrev pub write_cell : ℕ → ℕ → ℕ → ℕ → Bytes → Bytes
write_cell base x y c m =
    update (update m (cell_at base x y) c) (u32 (base + (num_cols * y + x) * 2 + 1)) attrib

unfoldable pub get_active_terminal : Screen → ℕ
get_active_terminal s = s.active_terminal

unfoldable pub get_display_terminal : Screen → ℕ
get_display_terminal s = s.display_terminal

unfoldable pub set_active_terminal : ℕ → Screen → Screen
unfolding set_active_terminal_paging
set_active_terminal terminal_id s =
    let s' =
      if terminal_id == s.display_terminal
      then record s { paging = set_active_terminal_paging terminal_id s.paging }
      else s in
    record s' { active_terminal = terminal_id }

-- Register 0x0F has the low byte of the position, 0x0E the high one.
unfoldable pub update_cursor : ℕ → ℕ → Screen → Screen
update_cursor x y s =
    let pos = u16 (y * num_cols + x) in
    record s { crtc = update (update s.crtc 0x0F (pos % 2 ^ 8)) 0x0E (pos / 2 ^ 8 % 2 ^ 8) }

-- memcpy(dest, src, n) inside the video memory, of pages that do not overlap
unfoldable pub copy_page : ℕ → ℕ → ℕ → Bytes → Bytes
copy_page dest src n m = count_up n 0 (λ i m'. update m' (dest + i) (m' (src + i))) m

-- The name is the source's.
unfoldable pub set_disiplay_terminal : ℕ → Screen → Screen
unfolding set_active_terminal update_cursor
set_disiplay_terminal terminal_id s =
    let saved = copy_page (terminal_mem s.display_terminal) 0 kb_4 s.vmem in
    let shown = record s {
      vmem = copy_page 0 (terminal_mem terminal_id) kb_4 saved;
      display_terminal = terminal_id;
    } in
    update_cursor (s.screen_x_array terminal_id) (s.screen_y_array terminal_id)
      (set_active_terminal s.active_terminal shown)

-- Setting the place of terminal `t`.
abbrev pub set_place : ℕ → ℕ → ℕ → Screen → Screen
set_place t x y s = record s {
  screen_x_array = update s.screen_x_array t x;
  screen_y_array = update s.screen_y_array t y;
}

-- One step back, from the first column to the last one of the row above.
unfoldable pub delete_c : Screen → Screen
unfolding update_cursor
delete_c s =
    let d = s.display_terminal in
    let first = s.screen_x_array d == 0 in
    let x = if first then num_cols - 1 else sub32 (s.screen_x_array d) 1 in
    let y = if first then sub32 (s.screen_y_array d) 1 else s.screen_y_array d in
    update_cursor x y (set_place d x y (record s { vmem = write_cell 0 x y 32 s.vmem }))

unfoldable pub clear : Screen → Screen
unfolding update_cursor
clear s =
    let d = s.display_terminal in
    update_cursor 0 0 (
      set_place d 0 0 (record s {
        vmem =
            count_up (num_rows * num_cols) 0
              (λ i m. update (update m (i * 2) 32) (i * 2 + 1) attrib) s.vmem;
      }))

-- for (x = ..; x < 80; x++): cell x of row `y` from the cell below it
abbrev pub shift_cell : ℕ → ℕ → ℕ → Bytes → Bytes
shift_cell base y x m =
    update (update m (base + (num_cols * y + x) * 2) (m (base + (num_cols * (y + 1) + x) * 2)))
      (base + (num_cols * y + x) * 2 + 1) attrib

unfoldable pub shift_row : ℕ → ℕ → Bytes → Bytes
shift_row base y = count_up num_cols 0 (shift_cell base y)

abbrev pub blank_cell : ℕ → ℕ → Bytes → Bytes
blank_cell base x m =
    update (update m (base + (num_cols * (num_rows - 1) + x) * 2) 32)
      (base + (num_cols * (num_rows - 1) + x) * 2 + 1) attrib

-- The loops that `shift_up_display` and `shift_up` have in common, on the page at `base`.
unfoldable pub shift_page : ℕ → Bytes → Bytes
shift_page base m =
    count_up num_cols 0 (blank_cell base) (count_up (num_rows - 1) 0 (shift_row base) m)

unfoldable pub shift_up_display : Screen → Screen
shift_up_display s =
    set_place s.display_terminal 0 (num_rows - 1) (record s { vmem = shift_page 0 s.vmem })

unfoldable pub shift_up : Screen → Screen
shift_up s =
    set_place s.active_terminal 0 (num_rows - 1)
      (record s { vmem = shift_page (terminal_mem s.active_terminal) s.vmem })

-- `y >= NUM_ROWS` on signed numbers
abbrev pub past_last_row : ℕ → Bool
past_last_row y = not (slt y num_rows)

-- while (screen_y_array[active_terminal] >= NUM_ROWS) ..., with fuel. A round sets the row to 24, so
-- that two rounds are enough.
unfoldable pub scroll_active : ℕ → Screen → Screen
scroll_active zero s = s
scroll_active (suc fuel) s =
    let shifted =
      if s.active_terminal == s.display_terminal then shift_up_display s else shift_up s in
    let rest = scroll_active fuel shifted in
    if past_last_row (s.screen_y_array s.active_terminal) then rest else s

unfoldable pub scroll_display : ℕ → Screen → Screen
scroll_display zero s = s
scroll_display (suc fuel) s =
    let rest = scroll_display fuel (shift_up_display s) in
    if past_last_row (s.screen_y_array s.display_terminal) then rest else s

-- Writing `c` at the place of terminal `t`, whose page is at `base`, and stepping on. The column is no
-- negative number, so that the signed `/` and `%` are the unsigned ones.
unfoldable pub put_cell : ℕ → ℕ → ℕ → Screen → Screen
put_cell base t c s =
    let x = s.screen_x_array t in
    let y = s.screen_y_array t in
    set_place t (u32 (x + 1) % num_cols) (u32 (y + u32 (x + 1) / num_cols))
      (record s { vmem = write_cell base x y c s.vmem })

abbrev pub is_newline : ℕ → Bool
is_newline c = c == b'\n' || c == b'\r'

-- The start of the next row.
abbrev pub next_row : ℕ → Screen → Screen
next_row t s = set_place t 0 (u32 (s.screen_y_array t + 1)) s

unfoldable pub putc_scroll : ℕ → Screen → Screen
unfolding update_cursor
putc_scroll c s =
    let a = s.active_terminal in
    let s' =
      if is_newline c
      then scroll_active 2 (next_row a s)
      else let s1 = scroll_active 2 s in
        put_cell (if a == s.display_terminal then 0 else terminal_mem a) a c s1 in
    if a == s.display_terminal
    then update_cursor (s'.screen_x_array a) (s'.screen_y_array a) s'
    else s'

unfoldable pub putc_scroll_display : ℕ → Screen → Screen
unfolding update_cursor
putc_scroll_display c s =
    let d = s.display_terminal in
    let s' =
      if is_newline c
      then scroll_display 2 (next_row d s)
      else put_cell 0 d c (scroll_display 2 s) in
    update_cursor (s'.screen_x_array d) (s'.screen_y_array d) s'

-- puts_scroll(s, len) for a length that is given: the characters in turn. The number of characters
-- is what it returns.
unfoldable pub puts_scroll : List ℕ → Screen → Screen
puts_scroll [] s = s
puts_scroll (c ∷ cs) s = puts_scroll cs (putc_scroll c s)

-- `putc`, which `printf` and `puts` print through: it knows one place, and does not scroll.
unfoldable pub putc : ℕ → Screen → Screen
putc c s =
    if is_newline c
    then record s { screen_y = u32 (s.screen_y + 1); screen_x = 0 }
    else let x = u32 (s.screen_x + 1) % num_cols in
      record s {
        vmem = write_cell 0 s.screen_x s.screen_y c s.vmem;
        screen_x = x;
        screen_y = u32 (s.screen_y + x / num_cols) % num_rows;
      }

unfoldable pub screen_y_change : ℕ → Screen → Screen
screen_y_change n s = record s { screen_y = u32 (s.screen_y + n) }

unfoldable pub get_screen_y : Screen → ℕ
get_screen_y s = s.screen_y

-- video_mem[i << 1]++ for every cell
unfoldable pub test_interrupts : Screen → Screen
test_interrupts s = record s {
  vmem =
      count_up (num_rows * num_cols) 0 (λ i m. update m (i * 2) ((m (i * 2) + 1) % 2 ^ 8)) s.vmem;
}

-- The loop of `puts`, at `index`; the string ends at its NUL.
unfoldable pub puts_from : ℕ → ℕ → Bytes → Screen → Option (ℕ × Screen)
unfolding putc
puts_from zero index text s = none
puts_from (suc fuel) index text s =
    let rest = puts_from fuel (index + 1) text (putc (text index) s) in
    if text index == 0 then some (index, s) else rest

unfoldable pub puts : ℕ → Bytes → Screen → Option (ℕ × Screen)
unfolding puts_from
puts fuel text s = puts_from fuel 0 text s
