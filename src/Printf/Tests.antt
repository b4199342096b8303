-- ===== src/Printf/Tests.antt =====
-- Examples of formats.
use os.Prelude.{ℕ, ◌≡◌, arith, List, [], ◌∷◌, some, Bytes, update}
use os.Screen.{Screen}
use os.Printf.{printf}
use os.Printf.Digits.{put_all}
use os.Printf.Pieces.{Piece, plain, hex8, signed}
use os.Printf.Formats.{printf_lem, AllPrint, size}

-- "a%#x%d" at 0
abbrev format : Bytes
format =
    update (update (update (update (update (update (λ _. 0) 0 97) 1 37) 2 35) 3 120) 4 37) 5 100

-- The arguments 48879 and -1.
abbrev stack : ℕ → ℕ
stack = update (update (λ _. 0) 0 48879) 1 4294967295

abbrev pieces : List Piece
pieces = plain 97 ∷ hex8 48879 ∷ signed 4294967295 ∷ []

abbrev blank : Screen
blank = record {
  vmem = λ _. 32;
  screen_x = 0;
  screen_y = 0;
  screen_x_array = λ _. 0;
  screen_y_array = λ _. 0;
  display_terminal = 0;
  active_terminal = 0;
  crtc = λ _. 0;
  paging = record {
    page_directory = λ _. 0;
    page_table = λ _. 0;
    vid_mem_table = λ _. 0;
    cr3 = 0;
    pse = 0;
    pg = 0;
    flushes = 0;
  };
}

printf_lem_example :
    (text : List ℕ) × AllPrint format pieces text
    × (printf 40 (λ _. 7) format 0 stack blank ≡ some (size pieces, put_all text blank))
printf_lem_example =
    printf_lem pieces 40 (λ _. 7) format 0 stack blank (omega arith) (omega arith) (omega arith)
      (omega arith) (omega arith)
