-- ===== src/Keyboard/Tests.antt =====
-- Examples of the line editor.
use os.Prelude.{◌+◌, ◌-◌, ◌*◌, ◌≡◌, refl, arith, ltb, if◌then◌else◌, Bytes, update, some, in_range}
use os.Strings.{strlen}
use os.Screen.{Screen}
use os.ScanCode.{init_scan_code, init_shift_convert}
use os.Keyboard.{Keyboard, commit_line, terminal_read, terminal_write, line_size, print_lim}
use os.Keyboard.Line.{commit_line_lem}
use os.Keyboard.Terminal.{terminal_write-next_row, terminal_write-replaces}

abbrev screen : Screen
screen = record {
  vmem = λ _. 32;
  screen_x = 0;
  screen_y = 0;
  screen_x_array = λ _. 0;
  screen_y_array = λ _. 0;
  display_terminal = 0;
  active_terminal = 0;
  crtc = λ _. 0;
  paging = record {
    page_directory = λ _. 0;
    page_table = λ _. 0;
    vid_mem_table = λ _. 0;
    cr3 = 0;
    pse = 0;
    pg = 0;
    flushes = 0;
  };
}

-- "ls" typed at terminal 0, with the left shift key held.
abbrev typed : Keyboard
typed = record {
  pressed_key = update (λ _. 0) 42 1;
  keyboard_buffer = update (update (λ _. 0) 0 108) 1 115;
  print_buffer = λ _. 0;
  cap_status = 0;
  cursor_ind = update (λ _. 0) 0 2;
  terminal_read_ready = λ _. 0;
  terminal_2_running = 0;
  terminal_3_running = 0;
  scan_code = init_scan_code (λ _. 0);
  shift_convert = init_shift_convert (λ _. 0);
}

commit_line_lem_example :
    ((commit_line 0 typed).print_buffer 1 ≡ (
      if in_range (print_lim * 0) print_lim 1
      then if ltb (1 - print_lim * 0) line_size
        then typed.keyboard_buffer (line_size * 0 + (1 - print_lim * 0))
        else 0
      else typed.print_buffer 1))
    × ((commit_line 0 typed).keyboard_buffer 1
        ≡ (if in_range (line_size * 0) line_size 1 then 0 else typed.keyboard_buffer 1))
    × ((commit_line 0 typed).cursor_ind 0 ≡ 0)
    × ((commit_line 0 typed).terminal_read_ready 0 ≡ 1)
commit_line_lem_example = commit_line_lem 0 1 typed

terminal_write-next_row_example :
    let next = print_lim * (0 + 1) in
    (terminal_write (λ _. 65) 3000 typed screen).1.print_buffer next
    ≡ (if ltb 3000 print_lim then typed.print_buffer next else 0)
terminal_write-next_row_example = terminal_write-next_row (λ _. 65) 3000 typed screen (omega arith)

-- "ls" is ready, and the program writes seven characters A.
terminal_write-replaces_example :
    let k' = (terminal_write (λ _. 65) 7 (commit_line 0 typed) screen).1 in
    (buf' : Bytes) × (k'' : Keyboard) × (terminal_read 200 (λ _. 7) 4 k' screen
      ≡ some (strlen 200 buf', buf', k''))
    × (buf' 1 ≡ (if ltb 1 7 then 65 else 0))
terminal_write-replaces_example =
    terminal_write-replaces 200 7 4 1 (λ _. 65) (λ _. 7) (commit_line 0 typed) screen screen refl
      (omega arith) (omega arith) (omega arith) (commit_line_lem 0 0 typed).3
