-- ===== src/System.antt =====
-- student-distrib/syscall.c: the calls `read` and `write`, which find the handler of a descriptor and
-- call it. The handlers are those of keyboard.c, rtc.c and filesys_read.c behind their wrappers, which
-- only drop arguments.
pub mod Reads
use os.Prelude.{
  ℕ, ◌+◌, Bool, true, false, Option, none, some, leb, ◌==◌, if◌then◌else◌, Bytes, ℤ, pos, negsuc,
  minus_one, u32, int32,
}
use os.FileSys.{FileSys, Dentry, read_data, read_dir, write_dir, write_f}
use os.Screen.{Screen}
use os.Keyboard.{Keyboard, terminal_read, terminal_write}
use os.Rtc.{Rtc, rtc_read, rtc_write}
use os.Process.{Handler, FileDesc, Pcb, Processes, fdesc_size, set_pcb, set_desc}

pub record System : Type 0 where
  pub processes : Processes
  pub file_sys : FileSys
  pub screen : Screen
  pub keyboard : Keyboard
  pub rtc : Rtc

-- The result of a handler with the buffer it leaves, or `none` where it waits, or where the pointer is to
-- none of the handlers of a read. `fuel` is for the string length that `terminal_read` returns, and
-- `stack` what the local `dentry_t` of `read_dir` held.
unfoldable pub call_read :
    ℕ → Dentry → Handler → ℕ → ℕ → Bytes → ℕ → System → Option (ℤ × Bytes × System)
unfolding read_data terminal_read rtc_read read_dir
call_read fuel stack Handler.terminal_read_wrap inode offset buf count s =
    elim (terminal_read fuel buf count s.keyboard s.screen) [
      | none ↦ none
      | some (n, buf', k) ↦ elim n [
        | none ↦ none
        | some len ↦ some (int32 len, buf', record s { keyboard = k })
      ]
    ]
call_read fuel stack Handler.rtc_read_wrapper inode offset buf count s = elim (rtc_read s.rtc) [
  | none ↦ none
  | some (n, r) ↦ some (n, buf, record s { rtc = r })
]
call_read fuel stack Handler.read_dir_wrapper inode offset buf count s =
    let (n, buf', fs) = read_dir s.file_sys stack buf in some (n, buf', record s { file_sys = fs })
call_read fuel stack Handler.read_f_wrapper inode offset buf count s =
    let (n, kept) = read_data s.file_sys inode offset (some buf) count in
    some (n, elim kept [ none ↦ buf | some buf' ↦ buf' ], s)
call_read fuel stack Handler.terminal_wrong inode offset buf count s = some (minus_one, buf, s)
call_read fuel stack _ inode offset buf count s = none

-- The result of a handler of a write.
unfoldable pub call_write : Handler → Bytes → ℕ → System → Option (ℤ × System)
unfolding terminal_write rtc_write
call_write Handler.terminal_write_wrap buf count s =
    let (n, k, sc) = terminal_write buf count s.keyboard s.screen in
    some (n, record s { keyboard = k; screen = sc })
call_write Handler.rtc_write_wrapper buf count s =
    let (n, r) = rtc_write (some buf) count s.rtc in some (n, record s { rtc = r })
call_write Handler.write_dir_wrapper buf count s = some (write_dir, s)
call_write Handler.write_f_wrapper buf count s = some (write_f, s)
call_write Handler.terminal_wrong buf count s = some (minus_one, s)
call_write _ buf count s = none

abbrev pub running : System → Pcb
running s = s.processes.pcb s.processes.curr

-- file_pos += count
abbrev pub advance : ℕ → ℕ → System → System
advance fd count s = record s {
  processes =
      set_pcb s.processes.curr
        (set_desc fd (λ d. record d { file_pos = u32 (d.file_pos + count) }) (running s))
        s.processes;
}

-- What `read` makes of the handler's result.
abbrev pub finish_read : ℕ → ℤ × Bytes × System → ℤ × Bytes × System
finish_read fd (pos count, buf, s) = (pos count, buf, advance fd count s)
finish_read fd (negsuc _, buf, s) = (minus_one, buf, s)

-- `buf` is no null pointer; -1 is the result for one.
unfoldable pub read : ℕ → Dentry → ℤ → Bytes → ℕ → System → Option (ℤ × Bytes × System)
read fuel stack (negsuc _) buf nbytes s = some (minus_one, buf, s)
read fuel stack (pos fd) buf nbytes s =
    let d = (running s).file_array fd in
    if leb fdesc_size fd
    then some (minus_one, buf, s)
    else if d.flag == 0
    then some (minus_one, buf, s)
    else elim (call_read fuel stack d.read_handler d.inode d.file_pos buf nbytes s) [
      | none ↦ none
      | some r ↦ some (finish_read fd r)
    ]

abbrev pub finish_write : ℤ × System → ℤ × System
finish_write (pos count, s) = (pos count, s)
finish_write (negsuc _, s) = (minus_one, s)

unfoldable pub write : ℤ → Bytes → ℕ → System → Option (ℤ × System)
write (negsuc _) buf nbytes s = some (minus_one, s)
write (pos fd) buf nbytes s =
    if leb fdesc_size fd
    then some (minus_one, s)
    else if (running s).bitmap fd == 0
    then some (minus_one, s)
    else elim (call_write ((running s).file_array fd).write_handler buf nbytes s) [
      | none ↦ none
      | some r ↦ some (finish_write r)
    ]
