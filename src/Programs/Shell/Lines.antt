-- ===== src/Programs/Shell/Lines.antt =====
-- The line that the shell reads, and what it does with it.
use os.Prelude.{
  ℕ, ◌+◌, ◌-◌, ◌*◌, ◌<◌, ◌≤◌, ◌≡◌, ◌≢◌, refl, arith, false, Bytes, List, [], ◌∷◌, update, some, pos,
  ap, ◌∙◌, ◌==◌, int32,
}
use os.Strings.Chars.{length}
use os.FileSys.{Dentry}
use os.Screen.{Screen, puts_scroll, putc_scroll}
use os.Screen.Cursor.{putc_scroll_same}
use os.Keyboard.{print_lim, terminal_write}
use os.Keyboard.Terminal.{terminal_read-ready, terminal_write-print_buffer}
use os.Process.{Handler}
use os.System.{System, read, call_read, running, advance}
use os.Command.Args.{NoNul}
use os.Kernel.{nth}
use os.Programs.Calls.{Prints, printed, printed_lem}
use os.Programs.Support.Texts.{IsText, nth-end, HoldsString, IsString, strlen-IsString, fdputs_lem}
use os.Programs.Shell.Answers.{Answers, trim-IsString, take_line-Answers}
use os.Programs.Shell.{
  Shell, at_read, at_execute, trim, read_step, prompt_step, shell_size, shell_prompt, say_and,
}

-- The descriptor 0 is the keyboard of the terminal.
abbrev pub Reads : System → Type 0
Reads s =
    (((running s).file_array 0).flag ≢ 0)
    × (((running s).file_array 0).read_handler ≡ Handler.terminal_read_wrap)

-- A line is ready for the running terminal.
pub record Waiting (cs : List ℕ) (s : System) : Type 0 where
  pub ready : s.keyboard.terminal_read_ready s.screen.active_terminal ≡ 1
  pub holds : HoldsString cs (print_lim * s.screen.active_terminal) s.keyboard.print_buffer
  pub clean : NoNul cs
  pub short : length cs < shell_size - 1

-- The system once a line has been read.
abbrev pub line_taken : ℕ → System → System
line_taken n s = advance 0 n (record s {
  keyboard = record s.keyboard {
    terminal_read_ready = update s.keyboard.terminal_read_ready s.screen.active_terminal 0;
  };
})

read-Waiting :
    (fuel : ℕ) (stack : Dentry) (cs : List ℕ) (buf : Bytes) (s : System)
    → shell_size ≤ fuel
    → Reads s
    → Waiting cs s
    → (buf' : Bytes) × (read fuel stack (pos 0) buf (shell_size - 1) s
        ≡ some (pos (length cs), buf', line_taken (length cs) s))
      × IsString cs buf'
unfolding read call_read
read-Waiting fuel stack cs buf s enough (up, handler) w =
    let (buf', answer, chars) =
      terminal_read-ready fuel (shell_size - 1) buf s.keyboard s.screen w.ready in
    let holds : IsString cs buf' = λ k low. chars k (omega (arith, w.short)) ∙ w.holds k low in
    let measured = strlen-IsString fuel cs buf' (omega (arith, w.short)) w.clean holds in
    let is_open : (((running s).file_array 0).flag == 0) ≡ false = ground (arith, up) in
    let small : int32 (length cs) ≡ pos (length cs) = ground (arith, w.short) in
    let d = (running s).file_array 0 in
    let lowered = record s {
      keyboard = record s.keyboard {
        terminal_read_ready = update s.keyboard.terminal_read_ready s.screen.active_terminal 0;
      };
    } in
    let through : call_read fuel stack Handler.terminal_read_wrap d.inode d.file_pos buf
          (shell_size - 1) s
        ≡ some (pos (length cs), buf', lowered) =
      rw (answer, measured, small, call_read) refl in
    let call =
      ap (λ f. call_read fuel stack f d.inode d.file_pos buf (shell_size - 1) s) handler
      ∙ through in
    (buf', rw (is_open, call) refl, holds)

-- A text that waits for the shell is taken at once, as the line `cs` that is left without its line feed.
pub read_step-Waiting :
    (fuel : ℕ) (stack : Dentry) (cs text : List ℕ) (sh : Shell) (s : System)
    → shell_size ≤ fuel
    → Reads s
    → Waiting text s
    → NoNul cs
    → length cs ≤ length text
    → ((m : Bytes) → IsString text m → IsString cs (trim (length text) m))
    → (sh' : Shell) × (read_step fuel stack sh s ≡ some (sh', line_taken (length text) s))
      × IsString cs sh'.buf
      × Answers cs sh'.place
unfolding read_step
read_step-Waiting fuel stack cs text sh s enough reads w clean shorter trimmed =
    let (buf', answer, holds) = read-Waiting fuel stack text sh.buf s enough reads w in
    let line = trimmed buf' holds in
    let (next, taken, answers) =
      take_line-Answers fuel cs (trim (length text) buf') (omega (arith, w.short)) clean line in
    (
      record { place = next; buf = trim (length text) buf' },
      rw (answer, taken, read_step) refl,
      line,
      answers,
    )

puts_scroll_same :
    (cs : List ℕ) (s : Screen) → (puts_scroll cs s).active_terminal ≡ s.active_terminal
unfolding puts_scroll
puts_scroll_same [] s = refl
puts_scroll_same (c ∷ cs) s = puts_scroll_same cs (putc_scroll c s) ∙ (putc_scroll_same c s).0

prompt-IsText : IsText shell_prompt
prompt-IsText = (
  (
    λ e. omega arith,
    (
      λ e. omega arith,
      (
        λ e. omega arith,
        (λ e. omega arith, (λ e. omega arith, (λ e. omega arith, (λ e. omega arith, tt)))),
      ),
    ),
  ),
  omega arith,
)

printed-ready :
    (line : Bytes) (n : ℕ) (s : System)
    → (printed line n s).keyboard.terminal_read_ready ≡ s.keyboard.terminal_read_ready
unfolding terminal_write
printed-ready line n s = refl

-- A line that was ready before the shell's prompt is lost: the shell takes its own prompt for the
-- line, and hands the prompt to `execute`. The process has the terminal as its descriptors 0 and 1,
-- and the fuel is 1024 or more.
pub prompt_step-read_step :
    (fuel : ℕ) (stack : Dentry) (sh : Shell) (s : System)
    → shell_size ≤ fuel
    → Prints s
    → Reads s
    → s.keyboard.terminal_read_ready s.screen.active_terminal ≡ 1
    → (sh1 : Shell) × (s1 : System) × (sh2 : Shell) × (s2 : System) × (prompt_step fuel sh s
        ≡ some (sh1, s1))
      × (read_step fuel stack sh1 s1 ≡ some (sh2, s2))
      × (sh2.place ≡ at_execute)
      × IsString shell_prompt sh2.buf
unfolding prompt_step
prompt_step-read_step fuel stack sh s enough prints reads ready =
    let n = length shell_prompt in
    let s1 = printed (nth shell_prompt) n s in
    let told = fdputs_lem fuel shell_prompt s (omega arith) prompt-IsText prints in
    let same : s1.screen.active_terminal ≡ s.screen.active_terminal =
      ap (λ sc. sc.active_terminal) (printed_lem (nth shell_prompt) n s prints (omega arith)).1
      ∙ puts_scroll_same _ s.screen in
    let waits : Waiting shell_prompt s1 = record {
      ready =
          ap (λ f. f s1.screen.active_terminal) (printed-ready (nth shell_prompt) n s)
          ∙ ap s.keyboard.terminal_read_ready same
          ∙ ready;
      holds = λ k low.
          ap (λ t. s1.keyboard.print_buffer (print_lim * t + k)) same
          ∙ terminal_write-print_buffer n k (nth shell_prompt) s.keyboard s.screen (omega arith) low
          ∙ ground (arith, nth-end shell_prompt);
      clean = prompt-IsText.0;
      short = omega arith;
    } in
    let sh1 = record sh { place = at_read } in
    let (sh2, done, line, answers) =
      read_step-Waiting fuel stack shell_prompt shell_prompt sh1 s1 enough reads waits
        prompt-IsText.0 (omega arith) (λ m. trim-IsString shell_prompt m (λ e. omega arith)) in
    (
      sh1,
      s1,
      sh2,
      _,
      rw (told, prompt_step, say_and) refl,
      done,
      answers.2 (λ e. cc) (λ e. cc),
      line,
    )
