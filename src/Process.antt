-- ===== src/Process.antt =====
-- student-distrib/syscall.c: the process table, the process control blocks and their file descriptors.
-- The block of process `x` is the structure at GET_PCB(x); the macro GET_ESP(x) gives the top of its
-- kernel stack.
pub mod Pids
pub mod Files
pub mod Halting
mod Tests
use os.Prelude.{
  ℕ, zero, suc, ◌+◌, ◌-◌, ◌*◌, Bool, true, false, ◌||◌, Option, none, some, ltb, leb, ◌==◌,
  if◌then◌else◌, Bytes, update, count_up, ℤ, pos, negsuc, minus_one,
}
use os.FileSys.{FileSys, Dentry, read_dentry_by_name, is_minus_one, open_dir}

abbrev pub fdesc_size : ℕ
fdesc_size = 8

abbrev pub proc_num : ℕ
proc_num = 6

abbrev pub get_esp : ℕ → ℕ
get_esp x = 0x800000 - 0x1000 * x - 0x10

-- The functions that a descriptor points to; `unknown_handler` is any other pointer.
pub data Handler : Type 0 where
  terminal_read_wrap : Handler
  terminal_write_wrap : Handler
  terminal_wrong : Handler
  terminal_nothing : Handler
  rtc_read_wrapper : Handler
  rtc_write_wrapper : Handler
  rtc_open_wrapper : Handler
  rtc_close_wrapper : Handler
  read_dir_wrapper : Handler
  write_dir_wrapper : Handler
  open_dir_wrapper : Handler
  close_dir_wrapper : Handler
  read_f_wrapper : Handler
  write_f_wrapper : Handler
  open_f_wrapper : Handler
  close_f_wrapper : Handler
  unknown_handler : Handler

pub record FileDesc : Type 0 where
  pub open_handler : Handler
  pub close_handler : Handler
  pub read_handler : Handler
  pub write_handler : Handler
  pub inode : ℕ
  pub file_pos : ℕ
  pub flag : ℕ

-- `behind` is the word after the structure, where `bitmap[8]` would be.
pub record Pcb : Type 0 where
  pub pid : ℕ
  pub p_pid : ℕ
  pub parent_esp : ℕ
  pub parent_ebp : ℕ
  pub current_esp : ℕ
  pub current_ebp : ℕ
  pub terminal : ℕ
  pub file_array : ℕ → FileDesc
  pub bitmap : ℕ → ℕ
  pub behind : ℕ

pub record Processes : Type 0 where
  pub curr : ℕ
  pub t_curr : ℕ → ℤ
  pub proc_state : ℕ → ℕ
  pub pcb : ℕ → Pcb

abbrev pub replace : {A : Type 0} → (ℕ → A) → ℕ → A → ℕ → A
replace m i x j = if j == i then x else m j

abbrev pub set_pcb : ℕ → Pcb → Processes → Processes
set_pcb x b p = record p { pcb = replace p.pcb x b }

abbrev pub set_desc : ℕ → (FileDesc → FileDesc) → Pcb → Pcb
set_desc i f b = record b { file_array = replace b.file_array i (f (b.file_array i)) }

abbrev pub set_flag : ℕ → ℕ → Pcb → Pcb
set_flag i x = set_desc i (λ d. record d { flag = x })

abbrev pub set_handlers : Handler → Handler → Handler → Handler → FileDesc → FileDesc
set_handlers r w o c d = record d {
  read_handler = r;
  write_handler = w;
  open_handler = o;
  close_handler = c;
}

-- The descriptors of a new process: stdin and stdout, and the others unused.
unfoldable pub init_files : Pcb → Pcb
init_files b =
    let stdin = set_flag 0 1 (
      set_desc 0 (set_handlers terminal_read_wrap terminal_wrong terminal_nothing terminal_nothing)
        b) in
    let b1 = record stdin { bitmap = update stdin.bitmap 0 1 } in
    let stdout = set_flag 1 1 (
      set_desc 1 (set_handlers terminal_wrong terminal_write_wrap terminal_nothing terminal_nothing)
        b1) in
    let b2 = record stdout { bitmap = update stdout.bitmap 1 1 } in
    record b2 {
      file_array = λ i.
          if leb 2 i
          then if ltb i fdesc_size then record (b2.file_array i) { flag = 0 } else b2.file_array i
          else b2.file_array i;
    }

-- The block of the running process is read after the new one has its pid, its files and its stack,
-- which matters if they are one.
unfoldable pub pcb_init : ℕ → ℕ → Processes → Processes
unfolding init_files
pcb_init pid terminal_num p =
    let b0 = record (p.pcb pid) { pid = pid } in
    let b1 = record (init_files b0) { current_ebp = get_esp pid; current_esp = get_esp pid } in
    let running = replace p.pcb pid b1 p.curr in
    let b2 =
      if is_minus_one (p.t_curr terminal_num)
      then record b1 { p_pid = pid; parent_esp = get_esp pid }
      else record b1 {
        p_pid = running.pid;
        parent_ebp = running.current_ebp;
        parent_esp = running.current_ebp;
      } in
    record p {
      curr = pid;
      t_curr = replace p.t_curr terminal_num (pos pid);
      pcb = replace p.pcb pid (record b2 { terminal = terminal_num });
    }

-- The loop of `get_pid`, at `i` with `n` left.
unfoldable pub find_pid : ℕ → ℕ → (ℕ → ℕ) → ℤ
find_pid zero i states = minus_one
find_pid (suc n) i states =
    let rest = find_pid n (i + 1) states in if states i == 0 then pos i else rest

unfoldable pub get_pid : Processes → ℤ
unfolding find_pid
get_pid p = find_pid proc_num 0 p.proc_state

-- The loop of `open` for a descriptor that is not taken, at `i` with `n` left: where it stops.
unfoldable pub free_slot : ℕ → ℕ → (ℕ → ℕ) → ℕ
free_slot zero i taken = i
free_slot (suc n) i taken = let rest = free_slot n (i + 1) taken in if taken i == 0 then i else rest

-- The handlers by the type of the file; an other type leaves the pointers as they were.
unfoldable pub handlers_for : ℕ → FileDesc → FileDesc
handlers_for ftype d =
    if ftype == 0
    then set_handlers rtc_read_wrapper rtc_write_wrapper rtc_open_wrapper rtc_close_wrapper d
    else if ftype == 1
    then set_handlers read_dir_wrapper write_dir_wrapper open_dir_wrapper close_dir_wrapper d
    else if ftype == 2
    then set_handlers read_f_wrapper write_f_wrapper open_f_wrapper close_f_wrapper d
    else d

-- Where the loop of `open` ends: at a descriptor from 2 on that is not taken, or at 8.
unfoldable pub find_slot : Pcb → ℕ
find_slot b = free_slot (fdesc_size - 2) 2 b.bitmap

-- What `open` enters at the place `i`.
unfoldable pub enter_file : ℕ → Dentry → Pcb → Pcb
unfolding handlers_for
enter_file i d b =
    set_desc i (λ f. record (handlers_for d.ftype f) { inode = d.inode; flag = 1; file_pos = 0 })
      (record b { bitmap = update b.bitmap i 1 })

-- `filename` is `none` for NULL; `stack` is what the local `dentry_t` held.
unfoldable pub open_file : FileSys → Dentry → Option Bytes → Processes → ℤ × Processes × FileSys
unfolding read_dentry_by_name open_dir
open_file fs stack none p = (minus_one, p, fs)
open_file fs stack (some filename) p =
    let b = p.pcb p.curr in
    let (r, d) = read_dentry_by_name fs filename stack in
    let i = find_slot b in
    if is_minus_one r || i == fdesc_size
    then (minus_one, p, fs)
    else (pos i, set_pcb p.curr (enter_file i d b) p, if d.ftype == 1 then (open_dir fs).1 else fs)

-- pcb->file_array[fd].flag for fd up to 8. The array has 8 descriptors of 7 words, and the bitmap
-- follows it: the flag of a ninth would be `bitmap[6]`.
abbrev pub flag_at : ℕ → Pcb → ℕ
flag_at fd b = if fd == fdesc_size then b.bitmap 6 else (b.file_array fd).flag

abbrev pub clear_flag : ℕ → Pcb → Pcb
clear_flag fd b =
    if fd == fdesc_size then record b { bitmap = update b.bitmap 6 0 } else set_flag fd 0 b

-- pcb->bitmap[fd] = 0
abbrev pub clear_bit : ℕ → Pcb → Pcb
clear_bit fd b =
    if fd == fdesc_size then record b { behind = 0 } else record b { bitmap = update b.bitmap fd 0 }

unfoldable pub close : ℤ → Processes → ℤ × Processes
close (negsuc _) p = (minus_one, p)
close (pos fd) p =
    let b = p.pcb p.curr in
    if ltb fdesc_size fd || ltb fd 2
    then (minus_one, p)
    else if flag_at fd b == 0
    then (minus_one, p)
    else (pos 0, set_pcb p.curr (clear_bit fd (clear_flag fd b)) p)

-- One round of the loop of `halt` over the descriptors.
unfoldable pub shut : ℕ → Processes → Processes
unfolding close
shut i p =
    let p1 = if ((p.pcb p.curr).file_array i).flag == 0 then p else (close (pos i) p).1 in
    set_pcb p1.curr (set_flag i 0 (p1.pcb p1.curr)) p1

-- The loop, at `i` with `n` left.
unfoldable pub close_all : ℕ → ℕ → Processes → Processes
close_all zero i p = p
close_all (suc n) i p = close_all n (i + 1) (shut i p)
