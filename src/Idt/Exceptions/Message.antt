-- ===== src/Idt/Exceptions/Message.antt =====
-- What is on the display after an exception.
use os.Prelude.{
  ℕ, zero, suc, ◌+◌, ◌-◌, ◌*◌, ◌%◌, ◌<◌, ◌≤◌, ◌≡◌, ◌≢◌, refl, arith, Bool, true, false, List, [],
  ◌∷◌, some, ◌==◌, ◌&&◌, if◌then◌else◌, Bytes, update, in_range, count_up, ap, ◌∙◌,
}
use native.Mathlib.Decide.{dec_lt}
use os.Strings.Chars.{length}
use os.Screen.{Screen, putc, clear, update_cursor, num_cols, num_rows, attrib}
use os.Printf.{printf, literal}
use os.Printf.Digits.{put_all}
use os.Printf.Pieces.{plains}
use os.Printf.Formats.{plain_line-AllPrint, printf_lem, AllFit, ArgsAt, FormatAt, size}
use os.Idt.{Code}
use os.Idt.Exceptions.{message, exception}

-- The character on display at column `x` of row `y`.
abbrev pub char_at : Screen → ℕ → ℕ → ℕ
char_at s x y = s.vmem ((num_cols * y + x) * 2)

abbrev pub letter : List ℕ → ℕ → ℕ
letter [] i = 0
letter (c ∷ cs) zero = c
letter (c ∷ cs) (suc i) = letter cs i

-- The characters of a line: no NUL, no % and no line feed.
abbrev pub AllPlain : List ℕ → Type 0
AllPlain [] = Unit {0}
AllPlain (c ∷ cs) = (c ≢ 0) × (c ≢ b'%') × (c ≢ b'\n') × (c ≢ b'\r') × AllPlain cs

blanked :
    (n start j : ℕ) (m : Bytes)
    → count_up n start (λ i m. update (update m (i * 2) 32) (i * 2 + 1) attrib) m (j * 2)
      ≡ (if in_range start n j then 32 else m (j * 2))
unfolding count_up
blanked zero start j m = ground arith
blanked (suc n) start j m =
    ground
      (arith, blanked n (start + 1) j (update (update m (start * 2) 32) (start * 2 + 1) attrib))

clear-char : (s : Screen) (x y : ℕ) → x < num_cols → y < num_rows → char_at (clear s) x y ≡ 32
unfolding clear update_cursor
clear-char s x y low low' = blanked (num_rows * num_cols) 0 (num_cols * y + x) s.vmem ∙ ground arith

-- `putc` of a character of a line, at a place on the display.
module _ (c : ℕ) (s : Screen) (line : c ≢ b'\n') (line' : c ≢ b'\r') (at_x : s.screen_x < num_cols)
    (at_y : s.screen_y < num_rows) where
  putc-x : (putc c s).screen_x ≡ (s.screen_x + 1) % num_cols
  unfolding putc
  putc-x = ground arith

  putc-y : (putc c s).screen_y ≡ s.screen_y
  unfolding putc
  putc-y = ground arith

  putc-char :
      (x y : ℕ)
      → x < num_cols
      → y < num_rows
      → char_at (putc c s) x y ≡ (if y == s.screen_y && x == s.screen_x then c else char_at s x y)
  unfolding putc
  putc-char x y low low' = ground arith

letter-later :
    (c : ℕ) (cs : List ℕ) (at x : ℕ) → at < x → letter (c ∷ cs) (x - at) ≡ letter cs (x - (at + 1))
letter-later c cs at x more =
    let e : x - at ≡ suc (x - (at + 1)) = omega arith in ap (letter (c ∷ cs)) e

letter-first : (c : ℕ) (cs : List ℕ) (at x : ℕ) → x ≡ at → letter (c ∷ cs) (x - at) ≡ c
letter-first c cs at x here = let e : x - at ≡ 0 = omega arith in ap (letter (c ∷ cs)) e

-- The rest of a row, and its first character.
row_step :
    (c : ℕ) (cs : List ℕ) (at x : ℕ) (here : Bool) (old : ℕ)
    → at + suc (length cs) ≤ num_cols
    → x < num_cols
    → (if here && in_range ((at + 1) % num_cols) (length cs) x
        then letter cs (x - (at + 1) % num_cols)
        else if here && x == at
        then c
        else old)
      ≡ (if here && in_range at (suc (length cs)) x then letter (c ∷ cs) (x - at) else old)
row_step c cs at x false old fits low = refl
row_step c cs at x true old fits low = elim (dec_lt (at + 1) num_cols) [
  | yes more ↦
      let e : (at + 1) % num_cols ≡ at + 1 = omega arith in
      rw e (ground (arith, letter-later c cs at x, letter-first c cs at x))
  | no last ↦
      let none_left : length cs ≡ 0 = omega arith in
      rw none_left (ground (arith, letter-first c cs at x))
]

put_row :
    (cs : List ℕ) (s : Screen) (x y : ℕ)
    → AllPlain cs
    → s.screen_x + length cs ≤ num_cols
    → s.screen_y < num_rows
    → x < num_cols
    → y < num_rows
    → char_at (put_all cs s) x y ≡ (
        if y == s.screen_y && in_range s.screen_x (length cs) x
        then letter cs (x - s.screen_x)
        else char_at s x y)
put_row [] s x y line fits inside low low' = ground arith
put_row (c ∷ cs) s x y (nul, sign, feed, return, line) fits inside low low' =
    let e_x = putc-x c s feed return (omega arith) inside in
    let e_y = putc-y c s feed return (omega arith) inside in
    let ih = put_row cs (putc c s) x y line (omega (arith, e_x)) (omega (arith, e_y)) low low' in
    ih
    ∙ rw (e_x, e_y, putc-char c s feed return (omega arith) inside x y low low')
        (row_step c cs s.screen_x x (y == s.screen_y) (char_at s x y) fits low)

length-plains : (cs : List ℕ) → length (plains cs) ≡ length cs
unfolding plains
length-plains [] = refl
length-plains (c ∷ cs) = ap suc (length-plains cs)

plains-AllFit : (fuel : ℕ) (mem : Bytes) (cs : List ℕ) → AllPlain cs → AllFit fuel mem (plains cs)
unfolding plains
plains-AllFit fuel mem [] line = tt
plains-AllFit fuel mem (c ∷ cs) (nul, sign, feed, return, line) =
    ((nul, sign), plains-AllFit fuel mem cs line)

plains-ArgsAt : (cs : List ℕ) (esp : ℕ → ℕ) → ArgsAt (plains cs) esp
unfolding plains
plains-ArgsAt [] esp = tt
plains-ArgsAt (c ∷ cs) esp = (tt, plains-ArgsAt cs esp)

literal-FormatAt :
    (cs : List ℕ) (at : ℕ) (mem mem' : Bytes)
    → ((i : ℕ) → at ≤ i → mem' i ≡ literal at cs mem i)
    → FormatAt at (plains cs) mem'
unfolding plains
literal-FormatAt [] at mem mem' same = same at (omega arith) ∙ ground arith
literal-FormatAt (c ∷ cs) at mem mem' same = (
  (same at (omega arith) ∙ ground arith, tt),
  literal-FormatAt cs (at + 1) mem mem' (λ i high. same i (omega arith) ∙ ground arith),
)

-- `printf` of a line without conversions.
printf_line :
    (cs : List ℕ) (fuel : ℕ) (conv_buf mem : Bytes) (at : ℕ) (esp : ℕ → ℕ) (s : Screen)
    → length cs < fuel
    → 35 ≤ fuel
    → AllPlain cs
    → printf fuel conv_buf (literal at cs mem) at esp s ≡ some (size (plains cs), put_all cs s)
printf_line cs fuel conv_buf mem at esp s more enough line =
    let (text, shows, runs) =
      printf_lem (plains cs) fuel conv_buf (literal at cs mem) at esp s
        (omega (arith, length-plains cs)) enough (plains-AllFit fuel (literal at cs mem) cs line)
        (literal-FormatAt cs at mem (literal at cs mem) (λ i high. refl)) (plains-ArgsAt cs esp) in
    runs
    ∙ ap (λ t. some (size (plains cs), put_all t s))
        (plain_line-AllPrint cs (literal at cs mem) text shows)

message-AllPlain : (code : Code) → AllPlain (message code)
unfolding message
message-AllPlain Code.exception_0_de = omega arith
message-AllPlain code = omega arith

message-short : (code : Code) → length (message code) < 40
unfolding message
message-short Code.exception_0_de = omega arith
message-short code = omega arith

clear-place : (s : Screen) → ((clear s).screen_x ≡ s.screen_x) × ((clear s).screen_y ≡ s.screen_y)
unfolding clear update_cursor
clear-place s = (refl, refl)

-- An exception leaves its message on an otherwise blank display, where `putc` was when it came, and
-- interrupts are off, if the row of `putc` is one of the 25 of the display and has room for the message.
-- The fuel is 40 or more.
pub exception_lem :
    (code : Code) (fuel : ℕ) (conv_buf mem : Bytes) (at : ℕ) (esp : ℕ → ℕ) (s : Screen)
    → 40 ≤ fuel
    → s.screen_x + length (message code) ≤ num_cols
    → s.screen_y < num_rows
    → (s' : Screen) × (exception fuel conv_buf mem at esp code s ≡ some (false, s'))
      × ((x y : ℕ)
          → x < num_cols
          → y < num_rows
          → char_at s' x y ≡ (
              if y == s.screen_y && in_range s.screen_x (length (message code)) x
              then letter (message code) (x - s.screen_x)
              else 32))
unfolding exception
exception_lem code fuel conv_buf mem at esp s enough fits inside =
    let cs = message code in
    let line =
      printf_line cs fuel conv_buf mem at esp (clear s) (omega (arith, message-short code))
        (omega arith) (message-AllPlain code) in
    let (e_x, e_y) = clear-place s in
    (
      put_all cs (clear s),
      rw (line, exception) refl,
      λ x y low low'.
          put_row cs (clear s) x y (message-AllPlain code) (omega (arith, e_x)) (omega (arith, e_y))
            low low'
          ∙ rw (e_x, e_y, clear-char s x y low low') refl,
    )
