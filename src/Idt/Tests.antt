-- ===== src/Idt/Tests.antt =====
-- Examples of the descriptor table.
use os.Prelude.{◌-◌, ◌<◌, ◌≡◌, ◌==◌, ◌&&◌, if◌then◌else◌, in_range, false, some, ℕ, arith}
use os.Strings.Chars.{length}
use os.Screen.{Screen, num_cols, num_rows}
use os.Idt.Exceptions.{exception, message}
use os.Idt.Exceptions.Message.{char_at, letter, exception_lem}
use os.Idt.{Code, Table}

-- What the table holds before.
abbrev empty : Table
empty v = record {
  offset_15_00 = 0;
  seg_selector = 0;
  reserved4 = 0;
  reserved3 = 0;
  reserved2 = 0;
  reserved1 = 0;
  size = 0;
  reserved0 = 0;
  dpl = 0;
  present = 0;
  offset_31_16 = 0;
}

abbrev placed : Code → ℕ
placed Code.syscall_asm = 0x401234
placed c = 0x400000

abbrev cleared : Screen
cleared = record {
  vmem = λ _. 65;
  screen_x = 3;
  screen_y = 2;
  screen_x_array = λ _. 0;
  screen_y_array = λ _. 0;
  display_terminal = 0;
  active_terminal = 0;
  crtc = λ _. 0;
  paging = record {
    page_directory = λ _. 0;
    page_table = λ _. 0;
    vid_mem_table = λ _. 0;
    cr3 = 0;
    pse = 0;
    pg = 0;
    flushes = 0;
  };
}

-- A divide error.
exception_lem_example :
    (s' : Screen) × (exception 50 (λ _. 7) (λ _. 7) 1000 (λ _. 7) Code.exception_0_de cleared
      ≡ some (false, s'))
    × ((x y : ℕ)
        → x < num_cols
        → y < num_rows
        → char_at s' x y ≡ (
            if y == 2 && in_range 3 (length (message Code.exception_0_de)) x
            then letter (message Code.exception_0_de) (x - 3)
            else 32))
unfolding message
exception_lem_example =
    exception_lem Code.exception_0_de 50 (λ _. 7) (λ _. 7) 1000 (λ _. 7) cleared (omega arith)
      (omega arith) (omega arith)
