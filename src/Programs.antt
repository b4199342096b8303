-- ===== src/Programs.antt =====
-- syscalls/ece391ls.c and ece391cat.c: programs as clients of the system calls.
pub mod Calls
pub mod Ls
pub mod Reading
pub mod Cat
pub mod Support
pub mod Shell
pub mod Grep
pub mod Syserr
mod Tests
use os.Prelude.{
  ℕ, zero, suc, ◌+◌, ◌-◌, Option, none, some, ◌==◌, if◌then◌else◌, Bytes, List, [], ◌∷◌, update, ℤ,
  pos, negsuc,
}
use os.Strings.{strlen}
use os.FileSys.{Dentry, is_minus_one, is_zero}
use os.Process.{open_file}
use os.Command.{Command, getargs, or_else}
use os.System.{System, read, write}
use os.Kernel.{nth}

-- The call `open`.
abbrev pub open_call : Dentry → Bytes → System → ℤ × System
open_call stack name s =
    let (fd, p, fs) = open_file s.file_sys stack (some name) s.processes in
    (fd, record s { processes = p; file_sys = fs })

-- A literal on the screen, and the program's result.
unfoldable pub fail_with : ℕ → List ℕ → ℕ → System → Option (ℕ × System)
unfolding strlen write
fail_with fuel text status s = elim (strlen fuel (nth text)) [
  | none ↦ none
  | some n ↦ elim (write (pos 1) (nth text) n s) [ none ↦ none | some (w, s') ↦ some (status, s') ]
]

abbrev pub sbufsize : ℕ
sbufsize = 33

-- "directory open failed\n" and "directory entry read failed\n"
abbrev pub open_failed : List ℕ
open_failed =
    b'd' ∷ b'i' ∷ b'r' ∷ b'e' ∷ b'c' ∷ b't' ∷ b'o' ∷ b'r' ∷ b'y' ∷ b' ' ∷ b'o' ∷ b'p' ∷ b'e' ∷ b'n'
    ∷ b' ' ∷ b'f' ∷ b'a' ∷ b'i' ∷ b'l' ∷ b'e' ∷ b'd' ∷ b'\n' ∷ []

abbrev pub read_failed : List ℕ
read_failed =
    b'd' ∷ b'i' ∷ b'r' ∷ b'e' ∷ b'c' ∷ b't' ∷ b'o' ∷ b'r' ∷ b'y' ∷ b' ' ∷ b'e' ∷ b'n' ∷ b't' ∷ b'r'
    ∷ b'y' ∷ b' ' ∷ b'r' ∷ b'e' ∷ b'a' ∷ b'd' ∷ b' ' ∷ b'f' ∷ b'a' ∷ b'i' ∷ b'l' ∷ b'e' ∷ b'd'
    ∷ b'\n' ∷ []

-- The loop of `ls`, with `rounds` left; `fuel` is for the loops over strings, and `stack` what the local
-- `dentry_t` of the kernel held. A read gives no negative number but -1.
unfoldable pub ls_loop : ℕ → ℕ → Dentry → ℤ → Bytes → System → Option (ℕ × System)
unfolding read write fail_with
ls_loop zero fuel stack fd buf s = none
ls_loop (suc rounds) fuel stack fd buf s = elim (read fuel stack fd buf (sbufsize - 1) s) [
  | none ↦ none
  | some (cnt, buf', s') ↦ elim cnt [
    | pos n ↦
        let line = update buf' n b'\n' in
        let rest : Option (ℕ × System) = elim (write (pos 1) line (n + 1) s') [
          | none ↦ none
          | some (w, s'') ↦
              let next = ls_loop rounds fuel stack fd line s'' in
              if is_minus_one w then some (3, s'') else next
        ] in
        if n == 0 then some (0, s') else rest
    | negsuc _ ↦ fail_with fuel read_failed 3 s'
  ]
]

-- `main`; the result is its status.
unfoldable pub ls : ℕ → ℕ → Dentry → Bytes → System → Option (ℕ × System)
unfolding ls_loop open_file fail_with
ls rounds fuel stack buf s =
    let (fd, s') = open_call stack (nth (b'.' ∷ [])) s in
    if is_minus_one fd then fail_with fuel open_failed 2 s' else ls_loop rounds fuel stack fd buf s'

-- What `cat` says: "could not read arguments\n", "file not found\n" and "file read failed\n".
abbrev pub no_arguments : List ℕ
no_arguments =
    b'c' ∷ b'o' ∷ b'u' ∷ b'l' ∷ b'd' ∷ b' ' ∷ b'n' ∷ b'o' ∷ b't' ∷ b' ' ∷ b'r' ∷ b'e' ∷ b'a' ∷ b'd'
    ∷ b' ' ∷ b'a' ∷ b'r' ∷ b'g' ∷ b'u' ∷ b'm' ∷ b'e' ∷ b'n' ∷ b't' ∷ b's' ∷ b'\n' ∷ []

abbrev pub not_found : List ℕ
not_found =
    b'f' ∷ b'i' ∷ b'l' ∷ b'e' ∷ b' ' ∷ b'n' ∷ b'o' ∷ b't' ∷ b' ' ∷ b'f' ∷ b'o' ∷ b'u' ∷ b'n' ∷ b'd'
    ∷ b'\n' ∷ []

abbrev pub file_failed : List ℕ
file_failed =
    b'f' ∷ b'i' ∷ b'l' ∷ b'e' ∷ b' ' ∷ b'r' ∷ b'e' ∷ b'a' ∷ b'd' ∷ b' ' ∷ b'f' ∷ b'a' ∷ b'i' ∷ b'l'
    ∷ b'e' ∷ b'd' ∷ b'\n' ∷ []

-- The size of the buffer of `cat`.
abbrev pub cat_size : ℕ
cat_size = 1024

-- The loop of `cat`, with `rounds` left.
unfoldable pub cat_loop : ℕ → ℕ → Dentry → ℤ → Bytes → System → Option (ℕ × System)
unfolding read write fail_with
cat_loop zero fuel stack fd buf s = none
cat_loop (suc rounds) fuel stack fd buf s = elim (read fuel stack fd buf cat_size s) [
  | none ↦ none
  | some (cnt, buf', s') ↦ elim cnt [
    | pos n ↦
        let rest : Option (ℕ × System) = elim (write (pos 1) buf' n s') [
          | none ↦ none
          | some (w, s'') ↦
              let next = cat_loop rounds fuel stack fd buf' s'' in
              if is_minus_one w then some (3, s'') else next
        ] in
        if n == 0 then some (0, s') else rest
    | negsuc _ ↦ fail_with fuel file_failed 3 s'
  ]
]

-- `main`; the arguments of the command `c` are those that the program is given.
unfoldable pub cat : ℕ → ℕ → Dentry → Command → Bytes → System → Option (ℕ × System)
unfolding cat_loop open_file fail_with getargs
cat rounds fuel stack c buf s = elim (getargs fuel c (some buf)) [
  | none ↦ none
  | some (r, kept) ↦
      let name = or_else kept buf in
      let (fd, s') = open_call stack name s in
      let opened =
        if is_minus_one fd
        then fail_with fuel not_found 2 s'
        else cat_loop rounds fuel stack fd name s' in
      if is_zero r then opened else fail_with fuel no_arguments 3 s
]
