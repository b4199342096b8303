-- ===== src/Timer.antt =====
-- student-distrib/timer.c: the timer's interrupt, which gives the terminals their turns.
pub mod Schedule
pub mod Boot
pub mod Examples
mod Tests
use os.Prelude.{
  ℕ, zero, suc, ◌+◌, ◌-◌, ◌*◌, ◌%◌, ◌/◌, ◌^◌, Bool, true, false, List, [], ◌∷◌, Option, none, some,
  ◌==◌, ◌||◌, ltb, if◌then◌else◌, Bytes, word32, ℤ, pos, negsuc, minus_one,
}
use os.FileSys.{FileSys, Dentry, read_dentry_by_name, read_f, is_minus_one}
use os.Paging.{Layout, Paging, mb, pid_page_map, vid_mem_page_map}
use os.Screen.{Screen, set_active_terminal, get_display_terminal, clear}
use os.Pic.{Pic, send_eoi, enable_irq, outb}
use os.Keyboard.{Keyboard, Request, on_scan_code, terminal_write, no_request, start_shell}
use os.Process.{Processes, Pcb, get_pid, pcb_init, close_all, fdesc_size, get_esp, replace, set_pcb}
use os.Command.{Locals}
use os.Kernel.{
  Kernel, Outcome, Frame, returned, entered, resumed, kernel_ds, processes, set_processes,
  set_screen, set_paging, execute_with_terminal_num, shell, start_process,
}

abbrev pub desired_freq : ℕ
desired_freq = 50

abbrev pub pit_clock_freq : ℕ
pit_clock_freq = 1193180

-- The divisor goes out in two bytes, the low one first.
unfoldable pub pit_init : Pic → Pic
unfolding enable_irq
pit_init p =
    let divisor = pit_clock_freq / desired_freq in
    outb ((divisor / 2 ^ 8) % 2 ^ 8) 0x40
      (outb (divisor % 2 ^ 8) 0x40 (outb 0x36 0x43 (enable_irq 0 p)))

abbrev pub num_terminals : ℕ
num_terminals = 3

abbrev pub get_next_term : ℕ → ℕ
get_next_term x = (x + 1) % num_terminals

-- The loop of the timer's handler over the terminals, from `t` on. After three rounds it is back at `t`:
-- with more fuel it finds nothing new, and without fuel it does not end.
unfoldable pub next_active : ℕ → (ℕ → ℤ) → ℕ → Option ℕ
next_active zero t_curr t = none
next_active (suc fuel) t_curr t =
    let rest = next_active fuel t_curr (get_next_term t) in
    if is_minus_one (t_curr t) then rest else some t

-- The index of GET_PCB, where it is no negative number.
abbrev pub index_of : ℤ → ℕ
index_of (pos n) = n
index_of (negsuc _) = 0

-- The process table after a switch: the registers of the process that ran are saved.
unfoldable pub switch_process : ℕ → Frame → Processes → Processes
switch_process nxt f p =
    let cur = p.pcb p.curr in
    record (set_pcb p.curr (record cur { current_ebp = f.ebp; current_esp = f.esp }) p) {
      curr = nxt;
    }

-- The switch to terminal `nxt_terminal`, which has a process.
unfoldable pub switch_to : Layout → Frame → ℕ → Kernel → Outcome × Kernel
unfolding switch_process pid_page_map vid_mem_page_map get_display_terminal set_active_terminal
switch_to layout f nxt_terminal k =
    let nxt = index_of ((processes k).t_curr nxt_terminal) in
    let b = (processes k).pcb nxt in
    let t_display = get_display_terminal k.system.screen in
    let k1 =
      set_paging (vid_mem_page_map layout t_display (132 * mb) b.terminal)
        (set_paging (pid_page_map b.pid) k) in
    let k2 = set_screen (set_active_terminal b.terminal k1.system.screen) k1 in
    let p = switch_process b.pid f (processes k) in
    (
      resumed (p.pcb nxt).current_esp (p.pcb nxt).current_ebp 0,
      record (set_processes p k2) {
        tss_ss0 = kernel_ds;
        tss_esp0 = get_esp b.pid;
        interrupts = true;
      },
    )

unfoldable pub schedule : Layout → Frame → Kernel → Option (Outcome × Kernel)
unfolding switch_to next_active
schedule layout f k =
    let p = processes k in
    elim (next_active num_terminals p.t_curr (get_next_term (p.pcb p.curr).terminal)) [
      | none ↦ none
      | some t ↦ some (switch_to layout f t k)
    ]

abbrev pub then_schedule : Layout → Frame → Outcome × Kernel → Option (Outcome × Kernel)
then_schedule layout f (returned _, k) = schedule layout f k
then_schedule layout f (entered addr, k) = some (entered addr, k)
then_schedule layout f (resumed esp ebp eax, k) = some (resumed esp ebp eax, k)

unfoldable pub pit_int_handler : ℕ → Layout → Frame → Locals → Kernel → Option (Outcome × Kernel)
unfolding schedule execute_with_terminal_num send_eoi clear
pit_int_handler fuel layout f l k =
    let k0 = record k { interrupts = false; pic = send_eoi 0 k.pic } in
    if is_minus_one ((processes k).t_curr 0)
    then elim (execute_with_terminal_num fuel f l (some shell) 0
        (set_screen (clear k0.system.screen) k0)) [
          | none ↦ none
          | some r ↦ then_schedule layout f r
        ]
    else schedule layout f k0
