-- ===== src/KeyboardHandler.antt =====
-- student-distrib/keyboard.c: the interrupt handler as a whole, with the shells that it starts.
pub mod Flags
pub mod Soundness
mod Tests
use os.Prelude.{
  ℕ, zero, suc, ◌+◌, ◌-◌, ◌*◌, ◌%◌, Bool, true, false, List, [], ◌∷◌, Option, none, some, ◌==◌,
  ◌||◌, ltb, if◌then◌else◌, Bytes, word32, ℤ, pos, negsuc, minus_one,
}
use os.FileSys.{FileSys, Dentry, read_dentry_by_name, read_f, is_minus_one}
use os.Paging.{Layout, Paging, mb, pid_page_map, vid_mem_page_map}
use os.Screen.{Screen, set_active_terminal, get_display_terminal, clear}
use os.Pic.{Pic, send_eoi}
use os.Keyboard.{Keyboard, Request, on_scan_code, terminal_write, no_request, start_shell}
use os.Process.{Processes, Pcb, get_pid, pcb_init, close_all, fdesc_size, get_esp, replace, set_pcb}
use os.Command.{Locals}
use os.Kernel.{
  Kernel, Outcome, Frame, returned, entered, resumed, kernel_ds, processes, set_processes,
  set_screen, set_paging, execute_with_terminal_num, shell, start_process,
}

-- The flag that terminal `t` has a shell.
abbrev pub mark_running : ℕ → Kernel → Kernel
mark_running t k =
    let kb = k.system.keyboard in
    record k {
      system = record k.system {
        keyboard = record kb {
          terminal_2_running = if t == 1 then 1 else kb.terminal_2_running;
          terminal_3_running = if t == 2 then 1 else kb.terminal_3_running;
        };
      };
    }

-- A scan code without what it asks for.
abbrev pub type_code : ℕ → Kernel → Request × Kernel
type_code input k =
    let (kb, sc, r) = on_scan_code input k.system.keyboard k.system.screen in
    (r, record k { system = record k.system { keyboard = kb; screen = sc } })

-- The loop of `keyboard_handler` over the bytes that the controller has. It leaves at once, before `sti`,
-- where a shell is asked for and no process is free.
unfoldable pub handle_codes : ℕ → Frame → Locals → List ℕ → Kernel → Option (Outcome × Kernel)
unfolding on_scan_code execute_with_terminal_num get_pid
handle_codes fuel f l [] k = some (returned (pos 0), record k { interrupts = true })
handle_codes fuel f l (input ∷ rest) k =
    let k1 = (type_code input k).1 in
    elim (type_code input k).0 [
      | no_request ↦ handle_codes fuel f l rest k1
      | start_shell t ↦ elim (is_minus_one (get_pid (processes k1))) [
        | true ↦ some (returned (pos 0), k1)
        | false ↦ elim (execute_with_terminal_num fuel f l (some shell) t (mark_running t k1)) [
          | none ↦ none
          | some (returned _, k2) ↦ handle_codes fuel f l rest k2
          | some (entered addr, k2) ↦ some (entered addr, k2)
          | some (resumed esp ebp eax, k2) ↦ some (resumed esp ebp eax, k2)
        ]
      ]
    ]

unfoldable pub keyboard_handler : ℕ → Frame → Locals → List ℕ → Kernel → Option (Outcome × Kernel)
unfolding handle_codes send_eoi
keyboard_handler fuel f l codes k =
    handle_codes fuel f l codes (record k { interrupts = false; pic = send_eoi 1 k.pic })
