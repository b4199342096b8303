-- ===== src/Command.antt =====
-- student-distrib/syscall.c: the command line that `execute` is given. `verify_file` takes it apart,
-- keeps the arguments for `getargs`, and looks whether the file is a program.
pub mod Parse
pub mod Args
pub mod Programs
mod Tests
use os.Prelude.{
  ℕ, zero, suc, ◌+◌, Option, none, some, ◌==◌, if◌then◌else◌, Bytes, update, ℤ, pos, minus_one,
}
use os.Strings.{strlen, memset, strncmp, copy_bytes}
use os.FileSys.{FileSys, Dentry, read_dentry_by_name, read_f_by_name, is_zero, is_minus_one}

abbrev pub cmd_limit : ℕ
cmd_limit = 129

abbrev pub byte_len : ℕ
byte_len = 4

abbrev pub start_addr : ℕ
start_addr = 24

-- The name and the entry point that `execute` keeps on its stack, and the arguments of syscall.c.
pub record Command : Type 0 where
  pub in_file : Bytes
  pub v_addr : Bytes
  pub arg_size : ℕ
  pub arg_buf : Bytes

-- What the locals of `verify_file` held.
pub record Locals : Type 0 where
  pub dentry : Dentry
  pub file_buf : Bytes

-- The loop for the file's name, at `i` with `n` characters left: where it stops, and the name.
unfoldable pub copy_name : ℕ → ℕ → Bytes → Bytes → ℕ × Bytes
copy_name zero i cmd in_file = (i, in_file)
copy_name (suc n) i cmd in_file =
    let rest = copy_name n (i + 1) cmd (update in_file i (cmd i)) in
    if cmd i == b' ' then (i, in_file) else rest

-- The loop for the arguments: their size and the characters.
unfoldable pub copy_args : ℕ → ℕ → Bytes → ℕ → Bytes → Option (ℕ × Bytes)
copy_args zero i cmd size buf = none
copy_args (suc fuel) i cmd size buf =
    let skip = copy_args fuel (i + 1) cmd size buf in
    let keep = copy_args fuel (i + 1) cmd (size + 1) (update buf size (cmd i)) in
    if cmd i == 0 then some (size, buf) else if cmd i == b' ' then skip else keep

-- `verify_file` up to the look into the file system; `fuel` is for the loops over the command.
unfoldable pub parse : ℕ → Bytes → Command → Option Command
unfolding copy_name copy_args
parse fuel cmd c = elim (strlen fuel cmd) [
  | none ↦ none
  | some n ↦
      let (i, name) = copy_name n 0 cmd (memset c.in_file 0 cmd_limit) in
      elim (copy_args fuel i cmd 0 (memset c.arg_buf 0 cmd_limit)) [
        | none ↦ none
        | some (size, buf) ↦
            some (record c { in_file = update name i 0; arg_size = size; arg_buf = buf })
      ]
]

-- "\x7fELF"
abbrev pub magic : Bytes
magic = update (update (update (update (λ _. 0) 0 0x7F) 1 0x45) 2 0x4C) 3 0x46

abbrev pub or_else : Option Bytes → Bytes → Bytes
or_else none m = m
or_else (some m') m = m'

-- The rest: the file is there, begins with the magic number, and has its entry point at byte 24.
unfoldable pub check_program : FileSys → Locals → Command → ℤ × Command
check_program fs l c =
    let found = read_dentry_by_name fs c.in_file l.dentry in
    let head = (read_f_by_name fs l.dentry c.in_file 0 (some l.file_buf) byte_len).1 in
    let entry = (read_f_by_name fs l.dentry c.in_file start_addr (some c.v_addr) byte_len).1 in
    if is_minus_one found.0
    then (minus_one, c)
    else if is_zero (strncmp (or_else head l.file_buf) magic byte_len)
    then (pos 0, record c { v_addr = or_else entry c.v_addr })
    else (minus_one, c)

-- `cmd` is `none` for NULL.
unfoldable pub verify_file : ℕ → FileSys → Locals → Option Bytes → Command → Option (ℤ × Command)
verify_file fuel fs l none c = some (minus_one, c)
verify_file fuel fs l (some cmd) c = elim (parse fuel cmd c) [
  | none ↦ none
  | some c' ↦ some (check_program fs l c')
]

-- `buf` is `none` for NULL.
unfoldable pub getargs : ℕ → Command → Option Bytes → Option (ℤ × Option Bytes)
getargs fuel c none = some (minus_one, none)
getargs fuel c (some buf) =
    if c.arg_size == 0 then some (minus_one, some buf) else elim (strlen fuel buf) [
      | none ↦ none
      | some old ↦ elim (strlen fuel c.arg_buf) [
        | none ↦ none
        | some n ↦ some (pos 0, some (update (copy_bytes n c.arg_buf (memset buf 0 old)) n 0))
      ]
    ]
