-- ===== src/Timer/Boot.antt =====
-- The timer's first interrupt: no process is there yet, and the first shell is started.
use os.Prelude.{
  ℕ, ◌<◌, ◌≤◌, ◌≡◌, ◌≢◌, refl, arith, true, false, some, ◌==◌, if◌then◌else◌, pos, minus_one, ap,
  ◌∙◌, sym, word32,
}
use mathlib.Core.Path.{subst}
use os.FileSys.{is_minus_one}
use os.Paging.{Layout}
use os.Screen.{clear}
use os.Pic.{send_eoi}
use os.Process.{Processes, get_pid, find_pid, pcb_init, init_files, fdesc_size}
use os.Process.Files.{InStep}
use os.Command.{Command, Locals, verify_file}
use os.Kernel.{
  Kernel, Frame, entered, processes, start_process, execute_with_terminal_num, launch, load_process,
  shell, set_screen,
}
use os.Kernel.Tree.{IsTree}
use os.Kernel.Execute.{execute-verified, verified}
use os.Timer.{pit_int_handler}
use os.KeyboardHandler.Soundness.{IsSound}

-- The process table after the boot: no terminal has a process, no entry is in use, and the blocks are clear.
pub record IsIdle (p : Processes) : Type 0 where
  pub nothing_shown : (t : ℕ) → p.t_curr t ≡ minus_one
  pub unused : (q : ℕ) → p.proc_state q ≡ 0
  pub clean : (q i : ℕ) → 2 ≤ i → i < fdesc_size → (p.pcb q).bitmap i ≡ 0

module _ (f : Frame) (p : Processes) (idle : IsIdle p) where
  first : Processes
  first = start_process 0 0 f p

  first_curr : first.curr ≡ 0
  unfolding first start_process pcb_init
  first_curr = refl

  first_t_curr : (t : ℕ) → first.t_curr t ≡ (if t == 0 then pos 0 else minus_one)
  unfolding first start_process pcb_init
  first_t_curr t = ground (arith, idle.nothing_shown t)

  first_state : (q : ℕ) → first.proc_state q ≡ (if q == 0 then 1 else 0)
  unfolding first start_process pcb_init
  first_state q = ground (arith, idle.unused q)

  first_block : ((first.pcb 0).pid ≡ 0) × ((first.pcb 0).p_pid ≡ 0) × ((first.pcb 0).terminal ≡ 0)
  unfolding first start_process pcb_init
  first_block = ground (arith, idle.nothing_shown 0)

  others : (q : ℕ) → q ≢ 0 → first.pcb q ≡ p.pcb q
  unfolding first start_process pcb_init
  others q ne = ground arith

  first-InStep : InStep (first.pcb 0)
  unfolding first start_process pcb_init init_files InStep
  first-InStep i low high = ground (arith, idle.clean 0 i, idle.nothing_shown 0)

  only : (q : ℕ) → first.proc_state q ≡ 1 → q ≡ 0
  only q h = ground (arith, first_state q)

  first-IsTree : IsTree (start_process 0 0 f p)
  unfolding first
  first-IsTree = record {
    current = ground (arith, first_curr, first_state first.curr);
    at_top = ground (
      arith,
      first_curr,
      ap (λ q. (first.pcb q).terminal) first_curr,
      first_block,
      first_t_curr (first.pcb first.curr).terminal,
    );
    own = λ q h. ground (arith, only q h, ap (λ r. (first.pcb r).pid) (only q h), first_block);
    shown = λ t q e. ground (arith, first_t_curr t, first_state q, first_block);
    parents = λ q h. ground (
      arith,
      only q h,
      ap (λ r. (first.pcb r).p_pid) (only q h),
      first_block,
      first_state (first.pcb q).p_pid,
    );
    leaf = λ t q r e h ne. ground (arith, only q h, first_t_curr t);
    single = λ q q' h h' e ne ne'. only q h ∙ sym (only q' h');
    in_step = λ q h. subst (λ r. InStep (first.pcb r)) (sym (only q h)) first-InStep;
    clean = λ q i h low high. ground (arith, first_state q, others q, idle.clean q i);
  }

first_pid : (p : Processes) → p.proc_state 0 ≡ 0 → get_pid p ≡ pos 0
unfolding get_pid find_pid
first_pid p e = ground (arith, e)

boot_tick :
    (fuel : ℕ) (layout : Layout) (f : Frame) (l : Locals) (k : Kernel) (addr : ℕ) (k' : Kernel)
    → is_minus_one ((processes k).t_curr 0) ≡ true
    → let k0 = record k { interrupts = false; pic = send_eoi 0 k.pic } in
      execute_with_terminal_num fuel f l (some shell) 0 (set_screen (clear k0.system.screen) k0)
        ≡ some (entered addr, k')
      → pit_int_handler fuel layout f l k ≡ some (entered addr, k')
unfolding pit_int_handler
boot_tick fuel layout f l k addr k' gone runs = rw (gone, runs, pit_int_handler) refl

-- `execute` of the first shell, at terminal 0.
pub first_shell :
    (fuel : ℕ) (f : Frame) (l : Locals) (c : Command) (k : Kernel)
    → IsIdle (processes k)
    → verify_file fuel k.system.file_sys l (some shell) k.command ≡ some (pos 0, c)
    → (k' : Kernel) × (execute_with_terminal_num fuel f l (some shell) 0 k
        ≡ some (entered (word32 c.v_addr 0), k'))
      × ((processes k').curr ≡ 0)
      × ((t : ℕ) → (processes k').t_curr t ≡ (if t == 0 then pos 0 else minus_one))
      × IsSound k'
      × ((k'.pic ≡ k.pic) × (k'.system.file_sys ≡ k.system.file_sys))
unfolding load_process launch first
first_shell fuel f l c k idle ok =
    let ready = verified c k in
    let shown = first_t_curr f (processes k) idle in
    (
      load_process 0 0 f l ready,
      execute-verified fuel 0 f l shell c k (pos 0) ok
          ∙ ap (λ z. some (launch z 0 f l ready)) (first_pid (processes k) (idle.unused 0)),
      first_curr f (processes k) idle,
      shown,
      record {
        tree = first-IsTree f (processes k) idle;
        flags = record { two = λ _. shown 1; three = λ _. shown 2 };
      },
      (refl, refl),
    )

-- The first tick after the boot begins the first shell at its entry point, as process 0 at terminal 0, if
-- the file "shell" is a program. From then on the processes are in chains, and the terminals whose flags
-- are down have no process: the state that the keyboard's handler and `execute` keep.
pit_int_handler-boot :
    (fuel : ℕ) (layout : Layout) (f : Frame) (l : Locals) (c : Command) (k : Kernel)
    → IsIdle (processes k)
    → verify_file fuel k.system.file_sys l (some shell) k.command ≡ some (pos 0, c)
    → (k' : Kernel) × (pit_int_handler fuel layout f l k ≡ some (entered (word32 c.v_addr 0), k'))
      × ((processes k').curr ≡ 0)
      × ((t : ℕ) → (processes k').t_curr t ≡ (if t == 0 then pos 0 else minus_one))
      × IsSound k'
pit_int_handler-boot fuel layout f l c k idle ok =
    let k0 = record k { interrupts = false; pic = send_eoi 0 k.pic } in
    let (k', runs, curr, shown, sound, same) =
      first_shell fuel f l c (set_screen (clear k0.system.screen) k0) idle ok in
    (
      k',
      boot_tick fuel layout f l k (word32 c.v_addr 0) k' (ap is_minus_one (idle.nothing_shown 0))
          runs,
      curr,
      shown,
      sound,
    )
