-- ===== src/Programs/Shell.antt =====
-- syscalls/ece391shell.c: the shell, in the steps between which other programs and interrupts run.
pub mod Answers
pub mod Lines
pub mod Enter
use os.Prelude.{
  ℕ, ◌-◌, Bool, true, false, not, ◌&&◌, Option, none, some, ◌==◌, if◌then◌else◌, Bytes, List, [],
  ◌∷◌, update, ℤ, pos, negsuc,
}
use os.FileSys.{Dentry, is_minus_one, is_zero}
use os.System.{System, read}
use os.Kernel.{nth}
use os.Programs.Support.{fdputs, strcmp}

-- Where the shell is: before the prompt, before the read, in the call `execute` of its buffer, or at its
-- end with a status.
pub data Place : Type 0 where
  at_prompt : Place
  at_read : Place
  at_execute : Place
  at_end : ℕ → Place

pub record Shell : Type 0 where
  pub place : Place
  pub buf : Bytes

-- What the shell says, and the name of its command.
abbrev pub starting : List ℕ
starting =
    b'S' ∷ b't' ∷ b'a' ∷ b'r' ∷ b't' ∷ b'i' ∷ b'n' ∷ b'g' ∷ b' ' ∷ b'3' ∷ b'9' ∷ b'1' ∷ b' ' ∷ b'S'
    ∷ b'h' ∷ b'e' ∷ b'l' ∷ b'l' ∷ b'\n' ∷ []

abbrev pub shell_prompt : List ℕ
shell_prompt = b'3' ∷ b'9' ∷ b'1' ∷ b'O' ∷ b'S' ∷ b'>' ∷ b' ' ∷ []

abbrev pub keyboard_failed : List ℕ
keyboard_failed =
    b'r' ∷ b'e' ∷ b'a' ∷ b'd' ∷ b' ' ∷ b'f' ∷ b'r' ∷ b'o' ∷ b'm' ∷ b' ' ∷ b'k' ∷ b'e' ∷ b'y' ∷ b'b'
    ∷ b'o' ∷ b'a' ∷ b'r' ∷ b'd' ∷ b' ' ∷ b'f' ∷ b'a' ∷ b'i' ∷ b'l' ∷ b'e' ∷ b'd' ∷ b'\n' ∷ []

abbrev pub exit_text : List ℕ
exit_text = b'e' ∷ b'x' ∷ b'i' ∷ b't' ∷ []

abbrev pub no_such_command : List ℕ
no_such_command =
    b'n' ∷ b'o' ∷ b' ' ∷ b's' ∷ b'u' ∷ b'c' ∷ b'h' ∷ b' ' ∷ b'c' ∷ b'o' ∷ b'm' ∷ b'm' ∷ b'a' ∷ b'n'
    ∷ b'd' ∷ b'\n' ∷ []

abbrev pub by_exception : List ℕ
by_exception =
    b'p' ∷ b'r' ∷ b'o' ∷ b'g' ∷ b'r' ∷ b'a' ∷ b'm' ∷ b' ' ∷ b't' ∷ b'e' ∷ b'r' ∷ b'm' ∷ b'i' ∷ b'n'
    ∷ b'a' ∷ b't' ∷ b'e' ∷ b'd' ∷ b' ' ∷ b'b' ∷ b'y' ∷ b' ' ∷ b'e' ∷ b'x' ∷ b'c' ∷ b'e' ∷ b'p'
    ∷ b't' ∷ b'i' ∷ b'o' ∷ b'n' ∷ b'\n' ∷ []

abbrev pub abnormally : List ℕ
abnormally =
    b'p' ∷ b'r' ∷ b'o' ∷ b'g' ∷ b'r' ∷ b'a' ∷ b'm' ∷ b' ' ∷ b't' ∷ b'e' ∷ b'r' ∷ b'm' ∷ b'i' ∷ b'n'
    ∷ b'a' ∷ b't' ∷ b'e' ∷ b'd' ∷ b' ' ∷ b'a' ∷ b'b' ∷ b'n' ∷ b'o' ∷ b'r' ∷ b'm' ∷ b'a' ∷ b'l'
    ∷ b'l' ∷ b'y' ∷ b'\n' ∷ []

abbrev pub shell_size : ℕ
shell_size = 1024

-- A text on the screen, and the next place.
unfoldable pub say_and : ℕ → List ℕ → Shell → System → Option (Shell × System)
unfolding fdputs
say_and fuel text next s = elim (fdputs fuel (nth text) s) [
  | none ↦ none
  | some s' ↦ some (next, s')
]

-- Before the loop.
unfoldable pub begin_shell : ℕ → Bytes → System → Option (Shell × System)
unfolding say_and
begin_shell fuel buf s = say_and fuel starting (record { place = at_prompt; buf = buf }) s

unfoldable pub prompt_step : ℕ → Shell → System → Option (Shell × System)
unfolding say_and
prompt_step fuel sh s = say_and fuel shell_prompt (record sh { place = at_read }) s

-- The line without its line feed.
abbrev pub trim : ℕ → Bytes → Bytes
trim cnt buf =
    let ends = not (cnt == 0) && buf (cnt - 1) == b'\n' in
    update buf (if ends then cnt - 1 else cnt) 0

-- What a line asks for.
unfoldable pub take_line : ℕ → Bytes → Option Place
unfolding strcmp
take_line fuel buf = elim (strcmp fuel buf (nth exit_text)) [
  | none ↦ none
  | some r ↦ some (if is_zero r then at_end 0 else if buf 0 == 0 then at_prompt else at_execute)
]

-- `none` also as long as the read waits for a line. A read gives no negative number but -1.
unfoldable pub read_step : ℕ → Dentry → Shell → System → Option (Shell × System)
unfolding read take_line say_and
read_step fuel stack sh s = elim (read fuel stack (pos 0) sh.buf (shell_size - 1) s) [
  | none ↦ none
  | some (cnt, buf', s') ↦ elim cnt [
    | pos n ↦ elim (take_line fuel (trim n buf')) [
      | none ↦ none
      | some next ↦ some (record { place = next; buf = trim n buf' }, s')
    ]
    | negsuc _ ↦ say_and fuel keyboard_failed (record { place = at_end 3; buf = buf' }) s'
  ]
]

-- When `execute` is back with `rval`.
unfoldable pub executed : ℕ → ℤ → Shell → System → Option (Shell × System)
unfolding say_and
executed fuel rval sh s =
    let next = record sh { place = at_prompt } in
    if is_minus_one rval
    then say_and fuel no_such_command next s
    else if is_signal rval
    then say_and fuel by_exception next s
    else if is_zero rval
    then some (next, s)
    else say_and fuel abnormally next s
  where
    is_signal : ℤ → Bool
    is_signal (pos n) = n == 256
    is_signal (negsuc _) = false
