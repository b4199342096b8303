-- ===== src/Kernel.antt =====
-- student-distrib/syscall.c over the state of the whole kernel: programs begin and end. A call that
-- leaves C by an `iret` or a `jmp` has an outcome that says where the processor goes.
pub mod Execute
pub mod Launching
pub mod Halt
pub mod Orphan
pub mod Tree
pub mod Ending
pub mod Vidmap
pub mod Examples
mod Tests
use os.Prelude.{
  ℕ, zero, suc, ◌+◌, ◌-◌, ◌*◌, ◌%◌, Bool, true, false, List, [], ◌∷◌, Option, none, some, ◌==◌,
  ◌||◌, ltb, if◌then◌else◌, Bytes, word32, ℤ, pos, negsuc, minus_one,
}
use os.FileSys.{FileSys, Dentry, read_dentry_by_name, read_f, is_minus_one}
use os.Paging.{Layout, Paging, mb, pid_page_map, vid_mem_page_map}
use os.Screen.{Screen, set_active_terminal, get_display_terminal, clear}
use os.Pic.{Pic, send_eoi}
use os.Keyboard.{Keyboard, Request, on_scan_code, terminal_write, no_request, start_shell}
use os.Process.{Processes, Pcb, get_pid, pcb_init, close_all, fdesc_size, get_esp, replace, set_pcb}
use os.System.{System}
use os.Command.{Command, Locals, verify_file, or_else}

-- The system with the arguments of the last command, the task state's stack, the interrupt flag, the
-- interrupt controllers, and the memory of each program, from PROGRAM_IMAGE_ADDR on.
pub record Kernel : Type 0 where
  pub system : System
  pub command : Command
  pub tss_ss0 : ℕ
  pub tss_esp0 : ℕ
  pub interrupts : Bool
  pub pic : Pic
  pub program : ℕ → Bytes

-- `returned` is a C return; `entered` begins a program at an address; `resumed` goes on in a kernel stack:
-- with `esp`, `ebp` and, for `halt`, the status in eax.
pub data Outcome : Type 0 where
  returned : ℤ → Outcome
  entered : ℕ → Outcome
  resumed : ℕ → ℕ → ℕ → Outcome

-- The registers at the place of the code that saves them.
pub record Frame : Type 0 where
  pub esp : ℕ
  pub ebp : ℕ

abbrev pub kernel_ds : ℕ
kernel_ds = 0x18

abbrev pub processes : Kernel → Processes
processes k = k.system.processes

abbrev pub set_processes : Processes → Kernel → Kernel
set_processes p k = record k { system = record k.system { processes = p } }

abbrev pub set_screen : Screen → Kernel → Kernel
set_screen s k = record k { system = record k.system { screen = s } }

abbrev pub set_paging : (Paging → Paging) → Kernel → Kernel
set_paging f k = set_screen (record k.system.screen { paging = f k.system.screen.paging }) k

-- The characters of a literal, and the NUL behind them.
abbrev pub nth : List ℕ → Bytes
nth [] i = 0
nth (c ∷ cs) zero = c
nth (c ∷ cs) (suc i) = nth cs i

-- "TOO MANY PROCESSES OPEN!\n" and its NUL
abbrev pub err_msg : Bytes
err_msg = nth (
    84 ∷ 79 ∷ 79 ∷ 32 ∷ 77 ∷ 65 ∷ 78 ∷ 89 ∷ 32 ∷ 80 ∷ 82 ∷ 79 ∷ 67 ∷ 69 ∷ 83 ∷ 83 ∷ 69 ∷ 83 ∷ 32
    ∷ 79 ∷ 80 ∷ 69 ∷ 78 ∷ 33 ∷ 10 ∷ [])

abbrev pub err_buf : ℕ
err_buf = 26

-- No process is free: the message goes to the running terminal, and `terminal_write` ends with `sti`.
unfoldable pub refuse_process : Kernel → Kernel
unfolding terminal_write
refuse_process k =
    let (_, keyboard, screen) = terminal_write err_msg err_buf k.system.keyboard k.system.screen in
    record k {
      system = record k.system { keyboard = keyboard; screen = screen };
      interrupts = true;
    }

-- The saved registers of the caller go into the new control block.
abbrev pub save_parent : Frame → Pcb → Pcb
save_parent f b = record b { parent_esp = f.esp; parent_ebp = f.ebp }

abbrev pub set_current : ℕ → Pcb → Pcb
set_current esp b = record b { current_ebp = esp; current_esp = esp }

-- The process table once `execute` has entered process `pid`.
unfoldable pub start_process : ℕ → ℕ → Frame → Processes → Processes
unfolding pcb_init
start_process pid terminal_num f p =
    let p1 = pcb_init pid terminal_num (record p { proc_state = replace p.proc_state pid 1 }) in
    set_pcb pid (set_current (get_esp pid) (save_parent f (p1.pcb pid))) p1

-- `execute` from the free process `pid` on: the rest of the kernel's state, and the program.
unfoldable pub load_process : ℕ → ℕ → Frame → Locals → Kernel → Kernel
unfolding start_process pid_page_map set_active_terminal read_dentry_by_name read_f
load_process pid terminal_num f l k =
    let k1 =
      set_paging (pid_page_map pid)
        (set_processes (start_process pid terminal_num f (processes k)) k) in
    let k2 = set_screen (set_active_terminal terminal_num k1.system.screen) k1 in
    let fs = k.system.file_sys in
    let d = (read_dentry_by_name fs k.command.in_file l.dentry).1 in
    let image = (read_f fs d.inode (some (k.program pid))).1 in
    record k2 {
      program = replace k.program pid (or_else image (k.program pid));
      tss_ss0 = kernel_ds;
      tss_esp0 = get_esp pid;
      interrupts = true;
    }

-- `execute` after `verify_file`, by the process that `get_pid` gives.
unfoldable pub launch : ℤ → ℕ → Frame → Locals → Kernel → Outcome × Kernel
unfolding load_process refuse_process
launch (negsuc _) terminal_num f l k = (returned (pos 0), refuse_process k)
launch (pos pid) terminal_num f l k =
    (entered (word32 k.command.v_addr 0), load_process pid terminal_num f l k)

-- `fuel` is for the loops over the command, which is `none` for NULL; `f` holds the registers where they
-- are saved.
unfoldable pub execute_with_terminal_num :
    ℕ → Frame → Locals → Option Bytes → ℕ → Kernel → Option (Outcome × Kernel)
unfolding verify_file get_pid
execute_with_terminal_num fuel f l none terminal_num k = some (returned minus_one, k)
execute_with_terminal_num fuel f l (some command) terminal_num k =
    elim (verify_file fuel k.system.file_sys l (some command) k.command) [
      | none ↦ none
      | some (result, c) ↦
          let k1 = record k { command = c; interrupts = false } in
          some (
            if is_minus_one result
            then (returned minus_one, k1)
            else launch (get_pid (processes k1)) terminal_num f l k1)
    ]

unfoldable pub execute : ℕ → Frame → Locals → Option Bytes → Kernel → Option (Outcome × Kernel)
unfolding execute_with_terminal_num
execute fuel f l command k =
    let p = processes k in execute_with_terminal_num fuel f l command (p.pcb p.curr).terminal k

-- "shell"
abbrev pub shell : Bytes
shell = nth (115 ∷ 104 ∷ 101 ∷ 108 ∷ 108 ∷ [])

-- The process table when a program has ended: its entry is free, its descriptors are closed, and the
-- terminal goes back to the parent.
unfoldable pub end_process : Processes → Processes
unfolding close_all
end_process p =
    let b = p.pcb p.curr in
    let p1 = close_all fdesc_size 0 (record p { proc_state = replace p.proc_state b.pid 0 }) in
    record p1 { curr = b.p_pid; t_curr = replace p1.t_curr b.terminal (pos b.p_pid) }

-- Back to the parent of the ended process, whose block is still there.
unfoldable pub return_to_parent : ℕ → ℕ → Kernel → Outcome × Kernel
unfolding pid_page_map
return_to_parent ended status k =
    let p = processes k in
    let b = p.pcb ended in
    (
      resumed b.parent_esp b.parent_ebp status,
      record (set_paging (pid_page_map (p.pcb b.p_pid).pid) k) {
        tss_esp0 = b.parent_esp;
        interrupts = true;
      },
    )

abbrev pub after_shell : ℕ → ℕ → Outcome × Kernel → Outcome × Kernel
after_shell ended status (returned _, k) = return_to_parent ended status k
after_shell ended status (entered addr, k) = (entered addr, k)
after_shell ended status (resumed esp ebp eax, k) = (resumed esp ebp eax, k)

-- A process that is its own parent is the terminal's first shell: another is started, and `halt` goes on
-- only if that fails.
unfoldable pub halt : ℕ → Frame → Locals → ℕ → Kernel → Option (Outcome × Kernel)
unfolding end_process return_to_parent execute_with_terminal_num
halt fuel f l status k =
    let ended = (processes k).curr in
    let b = (processes k).pcb ended in
    let k1 = record (set_processes (end_process (processes k)) k) { interrupts = false } in
    if b.pid == b.p_pid
    then elim (execute_with_terminal_num fuel f l (some shell) b.terminal k1) [
      | none ↦ none
      | some r ↦ some (after_shell ended status r)
    ]
    else some (return_to_parent ended status k1)

-- `start_screen` is the pointer; the result has what is stored there.
unfoldable pub vidmap : Layout → ℕ → Kernel → ℤ × Option ℕ × Kernel
unfolding vid_mem_page_map get_display_terminal
vidmap layout start_screen k =
    if start_screen == 0 || start_screen == 4 * mb
    then (minus_one, none, k)
    else let t_display = get_display_terminal k.system.screen in
      (
        pos (132 * mb),
        some (132 * mb),
        set_paging (vid_mem_page_map layout t_display (132 * mb) t_display) k,
      )
