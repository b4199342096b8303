-- ===== src/Programs/Shell/Enter.antt =====
-- The line that is typed at the shell, from the key Enter to what the shell does with it.
use os.Prelude.{
  ℕ, zero, suc, ◌+◌, ◌-◌, ◌*◌, ◌<◌, ◌≤◌, ◌≡◌, ◌≢◌, refl, arith, false, Bytes, List, [], ◌∷◌, ◌++◌,
  update, some, ◌∙◌, sym, ◌==◌, ltb, if◌then◌else◌, Bool-cases, inl, inr,
}
use mathlib.Core.Path.{subst}
use os.Strings.Chars.{length}
use os.FileSys.{Dentry}
use os.Screen.{
  Screen, putc_scroll_display, put_cell, next_row, is_newline, scroll_display, shift_up_display,
}
use os.Keyboard.{
  Keyboard, no_request, press, type_key, char_match, on_scan_code, commit_line, enter, left_alt,
  line_size, print_lim, total_key_num,
}
use os.Keyboard.Line.{commit_line_lem}
use os.System.{System}
use os.Command.Args.{NoNul}
use os.Kernel.{nth}
use os.Programs.Support.Texts.{nth-end, IsString}
use os.Programs.Grep.Lines.{length-append}
use os.Programs.Shell.Answers.{Answers, trim-IsString}
use os.Programs.Shell.Lines.{Reads, Waiting, line_taken, read_step-Waiting}
use os.Programs.Shell.{Shell, trim, read_step, shell_size}

-- What Enter hands over: a line that is not full gets a line feed.
abbrev pub handed_over : List ℕ → List ℕ
handed_over cs = if ltb (length cs) total_key_num then cs ++ b'\n' ∷ [] else cs

-- The line `cs` has been typed at terminal `t`.
pub record IsTyped (cs : List ℕ) (t : ℕ) (k : Keyboard) : Type 0 where
  pub cursor : k.cursor_ind t ≡ length cs
  pub chars : (j : ℕ) → j < line_size → k.keyboard_buffer (line_size * t + j) ≡ nth cs j
  pub short : length cs ≤ total_key_num
  pub clean : NoNul cs
  pub no_feed : nth cs (length cs - 1) ≢ b'\n'

-- Enter gives a line feed, with or without a shift key, and Alt is not held.
pub record EntersLine (k : Keyboard) : Type 0 where
  pub feed : k.scan_code enter ≡ b'\n'
  pub no_alt : k.pressed_key left_alt ≢ 1

-- The system after the key Enter.
abbrev pub after_enter : System → System
after_enter s =
    let (kb, sc, r) = on_scan_code enter s.keyboard s.screen in
    record s { keyboard = kb; screen = sc }

nth-past : (cs : List ℕ) (k : ℕ) → length cs ≤ k → nth cs k ≡ 0
nth-past [] k high = refl
nth-past (c ∷ cs) zero high = absurd (omega arith)
nth-past (c ∷ cs) (suc k) high = nth-past cs k (omega arith)

nth-feed :
    (cs : List ℕ) (k : ℕ) → nth (cs ++ b'\n' ∷ []) k ≡ (if k == length cs then b'\n' else nth cs k)
nth-feed [] zero = refl
nth-feed [] (suc k) = ground arith
nth-feed (c ∷ cs) zero = ground arith
nth-feed (c ∷ cs) (suc k) = nth-feed cs k ∙ ground arith

NoNul-feed : (cs : List ℕ) → NoNul cs → NoNul (cs ++ b'\n' ∷ [])
NoNul-feed [] clean = (λ e. omega arith, tt)
NoNul-feed (c ∷ cs) (some_char, clean) = (some_char, NoNul-feed cs clean)

-- The shell cuts off the line feed.
trim-feed :
    (cs : List ℕ) (m : Bytes)
    → IsString (cs ++ b'\n' ∷ []) m
    → IsString cs (trim (length (cs ++ b'\n' ∷ [])) m)
trim-feed cs m holds k low =
    let n : length (cs ++ b'\n' ∷ []) ≡ length cs + 1 = length-append cs (b'\n' ∷ []) in
    let last : m (length cs) ≡ b'\n' =
      holds (length cs) (omega (arith, n)) ∙ nth-feed cs (length cs) ∙ ground arith in
    let here : m k ≡ (if k == length cs then b'\n' else nth cs k) =
      holds k (omega (arith, n)) ∙ nth-feed cs k in
    rw n (ground (arith, last, here, nth-end cs))

trim-handed_over :
    (cs : List ℕ) (m : Bytes)
    → nth cs (length cs - 1) ≢ b'\n'
    → IsString (handed_over cs) m
    → IsString cs (trim (length (handed_over cs)) m)
trim-handed_over cs m no_feed = elim (Bool-cases (ltb (length cs) total_key_num)) [
  | inl room ↦ rw room (trim-feed cs m)
  | inr full ↦ rw full (trim-IsString cs m no_feed)
]

length-handed_over :
    (cs : List ℕ)
    → length cs ≤ total_key_num
    → (length cs ≤ length (handed_over cs)) × (length (handed_over cs) ≤ total_key_num)
length-handed_over cs short = elim (Bool-cases (ltb (length cs) total_key_num)) [
  | inl room ↦
      let n = length-append cs (b'\n' ∷ []) in rw room (omega (arith, n), ground (arith, room, n))
  | inr full ↦ rw full (omega arith, short)
]

handed_over-NoNul : (cs : List ℕ) → NoNul cs → NoNul (handed_over cs)
handed_over-NoNul cs clean = elim (Bool-cases (ltb (length cs) total_key_num)) [
  | inl room ↦ rw room (NoNul-feed cs clean)
  | inr full ↦ rw full clean
]

-- The keyboard while Enter is held.
abbrev pressed : Keyboard → Keyboard
pressed k = record k { pressed_key = update k.pressed_key enter 1 }

on_scan_code-enter :
    (k : Keyboard) (s : Screen)
    → EntersLine k
    → let t = s.display_terminal in
      let (k', s') = type_key enter t (pressed k) s in
      on_scan_code enter k s ≡ (commit_line t k', s', no_request)
unfolding on_scan_code press
on_scan_code-enter k s h =
    let alt : (k.pressed_key left_alt == 1) ≡ false = ground (arith, h.no_alt) in
    rw (alt, h.feed) refl

char_match-enter : (k : Keyboard) → EntersLine k → char_match (pressed k) enter ≡ b'\n'
unfolding char_match
char_match-enter k h = ground (arith, h.feed)

-- The line with the character of Enter.
type_key-enter :
    (cs : List ℕ) (t j : ℕ) (k : Keyboard) (s : Screen)
    → EntersLine k
    → IsTyped cs t k
    → j < line_size
    → (type_key enter t (pressed k) s).0.keyboard_buffer (line_size * t + j)
      ≡ nth (handed_over cs) j
unfolding type_key
type_key-enter cs t j k s h typed low =
    let feed = char_match-enter k h in
    let before = typed.chars j low in
    let cursor = typed.cursor in
    elim (Bool-cases (ltb (length cs) total_key_num)) [
      | inl room ↦ rw room (ground (arith, feed, before, cursor, room, nth-feed cs j))
      | inr full ↦ rw full (ground (arith, before, cursor, full))
    ]

scroll_display-terminal :
    (fuel : ℕ) (s : Screen) → (scroll_display fuel s).active_terminal ≡ s.active_terminal
unfolding scroll_display shift_up_display
scroll_display-terminal zero s = refl
scroll_display-terminal (suc fuel) s =
    ground (arith, scroll_display-terminal fuel (shift_up_display s))

putc_scroll_display-terminal :
    (c : ℕ) (s : Screen) → (putc_scroll_display c s).active_terminal ≡ s.active_terminal
unfolding putc_scroll_display put_cell
putc_scroll_display-terminal c s = elim (Bool-cases (is_newline c)) [
  | inl nl ↦ rw nl (scroll_display-terminal 2 (next_row s.display_terminal s))
  | inr ch ↦ rw ch (scroll_display-terminal 2 s)
]

type_key-terminal :
    (input t : ℕ) (k : Keyboard) (s : Screen)
    → (type_key input t k s).1.active_terminal ≡ s.active_terminal
unfolding type_key
type_key-terminal input t k s = ground (arith, putc_scroll_display-terminal (char_match k input) s)

-- When Enter is pressed after a line has been typed, the next read of the shell takes that line, without
-- the line feed that Enter puts behind it if the line has room, which it has below 128 characters: the
-- shell goes on with the line in its buffer, and from an empty line it goes back to its prompt, from
-- "exit" it ends with status 0, and any other line it hands to `execute`. The line is in the row of the
-- editor with NULs behind it and the cursor at its end; it has at most 128 characters, no NUL, and no line
-- feed at its end. Enter has the line feed as its character, Alt is not held, the terminal on display is
-- the running one, the process has it as its descriptor 0, and the fuel is 1024 or more.
pub read_step-on_scan_code :
    (fuel : ℕ) (stack : Dentry) (cs : List ℕ) (sh : Shell) (s : System)
    → shell_size ≤ fuel
    → Reads s
    → s.screen.display_terminal ≡ s.screen.active_terminal
    → EntersLine s.keyboard
    → IsTyped cs s.screen.display_terminal s.keyboard
    → (sh' : Shell) × (read_step fuel stack sh (after_enter s)
        ≡ some (sh', line_taken (length (handed_over cs)) (after_enter s)))
      × IsString cs sh'.buf
      × Answers cs sh'.place
read_step-on_scan_code fuel stack cs sh s enough reads own h typed =
    let t = s.screen.display_terminal in
    let text = handed_over cs in
    let (k', sc) = type_key enter t (pressed s.keyboard) s.screen in
    let e = on_scan_code-enter s.keyboard s.screen h in
    let (more, most) = length-handed_over cs typed.short in
    let at : sc.active_terminal ≡ t =
      type_key-terminal enter t (pressed s.keyboard) s.screen ∙ sym own in
    let waits : Waiting text (record s { keyboard = commit_line t k'; screen = sc }) = record {
      ready = rw at (commit_line_lem t 0 k').3;
      holds = λ k low. rw at (
          (commit_line_lem t (print_lim * t + k) k').0
          ∙ ground (arith, type_key-enter cs t k s.keyboard s.screen h typed, low, most));
      clean = handed_over-NoNul cs typed.clean;
      short = omega arith;
    } in
    read_step-Waiting fuel stack cs text sh (after_enter s) enough reads
      (subst (λ r. Waiting text (record s { keyboard = r.0; screen = r.1 })) (sym e) waits)
      typed.clean more (λ m. trim-handed_over cs m typed.no_feed)
