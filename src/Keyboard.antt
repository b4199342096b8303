-- ===== src/Keyboard.antt =====
-- student-distrib/keyboard.c: the keyboard, the line that is being typed at each terminal, and the
-- reads and writes of a terminal.
-- The two-dimensional buffers are flat memory: row `t` of `keyboard_buffer` begins at 129 * t, row `t`
-- of `print_buffer` at 2050 * t, as C lays them out.
pub mod Chars
pub mod Line
pub mod Terminal
mod Tests
use os.Prelude.{
  ℕ, zero, suc, ◌+◌, ◌-◌, ◌*◌, ◌/◌, ◌%◌, ◌^◌, ◌<◌, Bool, true, false, ◌&&◌, ◌||◌, not, List, [],
  ◌∷◌, Option, none, some, ltb, leb, ◌==◌, if◌then◌else◌, Bytes, update, count_up, slt, u32, ℤ, pos,
  negsuc, minus_one, int32,
}
use os.Strings.{strlen}
use os.Screen.{Screen, clear, putc_scroll_display, puts_scroll, set_disiplay_terminal, delete_c}
use os.ScanCode.{init_scan_code, init_shift_convert}
use os.Pic.{Pic, enable_irq}

abbrev pub max_key_ind : ℕ
max_key_ind = 127

abbrev pub total_key_num : ℕ
total_key_num = 128

abbrev pub print_lim : ℕ
print_lim = 1025 * 2

abbrev pub line_size : ℕ
line_size = total_key_num + 1

-- The globals of keyboard.c and scan_code.c.
pub record Keyboard : Type 0 where
  pub pressed_key : ℕ → ℕ
  pub keyboard_buffer : Bytes
  pub print_buffer : Bytes
  pub cap_status : ℕ
  pub cursor_ind : ℕ → ℕ
  pub terminal_read_ready : ℕ → ℕ
  pub terminal_2_running : ℕ
  pub terminal_3_running : ℕ
  pub scan_code : Bytes
  pub shift_convert : Bytes

-- memset(&m[start], c, n)
unfoldable pub fill : ℕ → ℕ → ℕ → Bytes → Bytes
fill start n c m = count_up n start (λ i m'. update m' i c) m

unfoldable pub init_keyboard : Keyboard → Pic → Keyboard × Pic
init_keyboard k p = (
  record k {
    scan_code = init_scan_code k.scan_code;
    shift_convert = init_shift_convert k.shift_convert;
    pressed_key = fill 0 total_key_num 0 k.pressed_key;
    keyboard_buffer = fill 0 (3 * line_size) 0 k.keyboard_buffer;
    cursor_ind = fill 0 3 0 k.cursor_ind;
    terminal_read_ready = fill 0 3 0 k.terminal_read_ready;
    cap_status = 0;
  },
  enable_irq 1 p,
)

-- The scan codes that the handler knows by name.
abbrev pub enter : ℕ
enter = 0x1C

abbrev pub backspace : ℕ
backspace = 0x0E

abbrev pub caps_lock : ℕ
caps_lock = 58

abbrev pub left_ctrl : ℕ
left_ctrl = 0x1D

abbrev pub left_alt : ℕ
left_alt = 56

abbrev pub key_l : ℕ
key_l = 38

-- One of the shift keys is held.
abbrev pub shift_held : Keyboard → Bool
shift_held k = k.pressed_key 42 == 1 || k.pressed_key 54 == 1

unfoldable pub char_match : Keyboard → ℕ → ℕ
char_match k c =
    let plain = k.scan_code c in
    let shifted = k.shift_convert c in
    if plain == 0
    then 0
    else if k.cap_status == 1 && leb b'a' plain && leb plain b'z'
    then if shift_held k then (if c == enter then b'\n' else plain) else shifted
    else if shift_held k
    then (if c == enter then b'\n' else shifted)
    else plain

-- What a key press asks of the rest of the kernel.
pub data Request : Type 0 where
  no_request : Request
  start_shell : ℕ → Request

-- The text that Ctrl-L prints on the cleared screen: "391OS> ".
abbrev pub prompt : List ℕ
prompt = b'3' ∷ b'9' ∷ b'1' ∷ b'O' ∷ b'S' ∷ b'>' ∷ b' ' ∷ []

abbrev pub echo : List ℕ → Screen → Screen
echo [] s = s
echo (c ∷ cs) s = echo cs (putc_scroll_display c s)

-- Emptying the line of terminal `t`.
abbrev pub drop_line : ℕ → Keyboard → Keyboard
drop_line t k = record k {
  keyboard_buffer = fill (line_size * t) line_size 0 k.keyboard_buffer;
  cursor_ind = update k.cursor_ind t 0;
}

-- A key with a character, without Ctrl-L or Alt: into the line of terminal `t` if it has room, and on
-- the screen; a full line takes no more, and only Enter is still shown.
unfoldable pub type_key : ℕ → ℕ → Keyboard → Screen → Keyboard × Screen
type_key input t k s =
    let c = char_match k input in
    if leb (max_key_ind + 1) (k.cursor_ind t)
    then (k, if input == enter then putc_scroll_display c s else s)
    else (
      record k {
        keyboard_buffer = update k.keyboard_buffer (line_size * t + k.cursor_ind t) c;
        cursor_ind = update k.cursor_ind t (k.cursor_ind t + 1);
      },
      putc_scroll_display c s,
    )

-- Enter: the line goes to the print buffer, where `terminal_read` finds it.
unfoldable pub commit_line : ℕ → Keyboard → Keyboard
commit_line t k =
    let cleared = fill (print_lim * t) print_lim 0 k.print_buffer in
    drop_line t (record k {
      print_buffer =
          count_up line_size 0
            (λ i m. update m (print_lim * t + i) (k.keyboard_buffer (line_size * t + i))) cleared;
      terminal_read_ready = update k.terminal_read_ready t 1;
    })

-- Backspace: the last character of a line that is not empty.
unfoldable pub erase : ℕ → Keyboard → Screen → Keyboard × Screen
erase t k s = if k.cursor_ind t == 0 then (k, s) else (
  record k {
    keyboard_buffer = update k.keyboard_buffer (line_size * t + (k.cursor_ind t - 1)) 0;
    cursor_ind = update k.cursor_ind t (k.cursor_ind t - 1);
  },
  delete_c s,
)

-- Alt with F1, F2 or F3: another terminal on display, and a shell for it if it has none yet. The two
-- flags are set by the caller, which knows whether a process is free.
unfoldable pub alt_key : ℕ → Keyboard → Screen → Screen × Request
alt_key input k s =
    if input == 59
    then (set_disiplay_terminal 0 s, no_request)
    else if input == 60
    then (
      set_disiplay_terminal 1 s,
      if k.terminal_2_running == 0 then start_shell 1 else no_request,
    )
    else if input == 61
    then (
      set_disiplay_terminal 2 s,
      if k.terminal_3_running == 0 then start_shell 2 else no_request,
    )
    else (s, no_request)

-- The branches on a key that goes down, in the terminal `t` on display when it does.
unfoldable pub press : ℕ → ℕ → Keyboard → Screen → Keyboard × Screen × Request
press input t k s =
    let down = record k {
      pressed_key = update k.pressed_key input 1;
      cap_status = if input == caps_lock then 1 - k.cap_status else k.cap_status;
    } in
    if input == key_l && down.pressed_key left_ctrl == 1
    then (drop_line t down, echo prompt (clear s), no_request)
    else if down.pressed_key left_alt == 1
    then (let (s', r) = alt_key input down s in (down, s', r))
    else if down.scan_code input == 0
    then (down, s, no_request)
    else (let (k', s') = type_key input t down s in (k', s', no_request))

-- One round of the handler's loop on the byte `input`, up to a request to start a shell: the handler
-- makes that call inside the branch, before the tests for Enter and Backspace, which such a key does
-- not meet.
unfoldable pub on_scan_code : ℕ → Keyboard → Screen → Keyboard × Screen × Request
unfolding press
on_scan_code input k s =
    let t = s.display_terminal in
    let (k1, s1, r) =
      if◌then◌else◌ {A = Keyboard × Screen × Request} (ltb max_key_ind input)
        (record k { pressed_key = update k.pressed_key (input - 128) 0 }, s, no_request)
        (press input t k s) in
    let k2 = if input == enter then commit_line t k1 else k1 in
    let (k3, s3) =
      if◌then◌else◌ {A = Keyboard × Screen} (input == backspace) (erase t k2 s1) (k2, s1) in
    (k3, s3, r)

-- The loop over the bytes that the controller has, up to a request.
unfoldable pub on_scan_codes : List ℕ → Keyboard → Screen → Keyboard × Screen × Request
on_scan_codes [] k s = (k, s, no_request)
on_scan_codes (input ∷ rest) k s =
    let (k', s', r) = on_scan_code input k s in
    elim r [ no_request ↦ on_scan_codes rest k' s' | start_shell t ↦ (k', s', start_shell t) ]

-- m[start .. start + n) as the list that `puts_scroll` prints
unfoldable pub read_out : ℕ → ℕ → Bytes → List ℕ
read_out zero start m = []
read_out (suc n) start m = m start ∷ read_out n (start + 1) m

-- `count` is no negative number. The NUL behind the characters is written at `lim`, which may be one
-- past the row.
unfoldable pub terminal_write : Bytes → ℕ → Keyboard → Screen → ℤ × Keyboard × Screen
terminal_write buf count k s =
    let idx = s.active_terminal in
    let lim = if slt count print_lim then count else print_lim in
    let copied = count_up lim 0 (λ i m. update m (print_lim * idx + i) (buf i)) k.print_buffer in
    let m = update copied (print_lim * idx + lim) 0 in
    (int32 count, record k { print_buffer = m }, puts_scroll (read_out lim (print_lim * idx) m) s)

-- `none` as long as no line is ready. `fuel` is for `strlen`, on the caller's buffer.
unfoldable pub terminal_read :
    ℕ → Bytes → ℕ → Keyboard → Screen → Option (Option ℕ × Bytes × Keyboard)
terminal_read fuel buf count k s =
    let idx = s.active_terminal in
    let copied = count_up count 0 (λ i m. update m i (k.print_buffer (print_lim * idx + i))) buf in
    if k.terminal_read_ready idx == 1
    then some (
      strlen fuel copied,
      copied,
      record k { terminal_read_ready = update k.terminal_read_ready idx 0 },
    )
    else none

unfoldable pub terminal_wrong : ℤ
terminal_wrong = minus_one

unfoldable pub terminal_nothing : ℤ
terminal_nothing = pos 0
