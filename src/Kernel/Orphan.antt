-- ===== src/Kernel/Orphan.antt =====
-- A first shell that ends.
use os.Prelude.{
  ℕ, ◌≡◌, ◌≢◌, refl, arith, true, false, some, ◌==◌, pos, ap, ◌∙◌, sym, word32, ==-self,
}
use os.Process.{get_pid}
use os.Command.{Command, Locals, verify_file}
use os.Kernel.{
  Kernel, Frame, Outcome, entered, processes, set_processes, execute_with_terminal_num, launch,
  load_process, start_process, end_process, halt, after_shell, shell,
}
use os.Kernel.Tree.{IsTree, start_process_lem}
use os.Kernel.Execute.{execute-verified, verified}
use os.Kernel.Halt.{end_process_lem}

-- `halt` of a process that is its own parent.
halt-restart :
    (fuel status : ℕ) (f : Frame) (l : Locals) (k : Kernel) (r : Outcome × Kernel)
    → let p = processes k in
      (p.pcb p.curr).pid ≡ (p.pcb p.curr).p_pid
      → execute_with_terminal_num fuel f l
          (some shell)
          (p.pcb p.curr).terminal
          (record (set_processes (end_process p) k) { interrupts = false })
        ≡ some r
      → halt fuel f l status k ≡ some (after_shell p.curr status r)
unfolding halt
halt-restart fuel status f l k r same runs =
    let p = processes k in
    let test : ((p.pcb p.curr).pid == (p.pcb p.curr).p_pid) ≡ true = ground (arith, same) in
    rw (test, halt, runs) refl

-- `halt` of a process that is its own parent, where its terminal's new shell can be started.
halt-first :
    (fuel status : ℕ) (f : Frame) (l : Locals) (c : Command) (k : Kernel) (pid : ℕ)
    → let p = processes k in
      (p.pcb p.curr).pid ≡ (p.pcb p.curr).p_pid
      → verify_file fuel k.system.file_sys l (some shell) k.command ≡ some (pos 0, c)
      → get_pid (end_process p) ≡ pos pid
      → let ended = record (set_processes (end_process p) k) { interrupts = false } in
        halt fuel f l status k
        ≡ some (
          entered (word32 c.v_addr 0),
          load_process pid (p.pcb p.curr).terminal f l (verified c ended),
        )
unfolding launch
halt-first fuel status f l c k pid same ok found =
    let p = processes k in
    let at = (p.pcb p.curr).terminal in
    let ended = record (set_processes (end_process p) k) { interrupts = false } in
    halt-restart fuel status f l k (launch (pos pid) at f l (verified c ended)) same (
      execute-verified fuel at f l shell c ended (pos 0) ok
      ∙ ap (λ z. some (launch z at f l (verified c ended))) found)

-- When a terminal's first shell ends and another entry of the table is free before its own, the shell that
-- `halt` starts in its place has the ended process for its parent: it is running with a parent that is
-- not in use, and the processes are no longer in chains.
pub halt-orphan :
    (fuel status : ℕ) (f : Frame) (l : Locals) (c : Command) (k : Kernel) (pid : ℕ)
    → IsTree (processes k)
    → ((processes k).pcb (processes k).curr).p_pid ≡ (processes k).curr
    → verify_file fuel k.system.file_sys l (some shell) k.command ≡ some (pos 0, c)
    → get_pid (end_process (processes k)) ≡ pos pid
    → (processes k).curr ≢ pid
    → (addr : ℕ) × (k' : Kernel) × (halt fuel f l status k ≡ some (entered addr, k'))
      × ((processes k').curr ≡ pid)
      × (((processes k').pcb pid).p_pid ≡ (processes k).curr)
      × ((processes k').proc_state (processes k).curr ≡ 0)
      × (IsTree (processes k') → ⊥)
unfolding load_process
halt-orphan fuel status f l c k pid tree first ok found other =
    let p = processes k in
    let own = tree.own p.curr tree.current in
    let at = (p.pcb p.curr).terminal in
    let gone = end_process p in
    let gone-curr : gone.curr ≡ p.curr = (end_process_lem p 0 at own).0 ∙ first in
    let gone-own : (gone.pcb gone.curr).pid ≡ gone.curr =
      (end_process_lem p gone.curr at own).3
      ∙ ap (λ q. (p.pcb q).pid) gone-curr
      ∙ own
      ∙ sym gone-curr in
    let gone-other : gone.curr ≢ pid = λ e. other (sym gone-curr ∙ e) in
    let new = λ (q : ℕ). start_process_lem pid at q at f gone gone-own gone-other in
    let shown : gone.t_curr at ≡ pos p.curr =
      (end_process_lem p 0 at own).1 ∙ rw (==-self at) (ap pos first) in
    let state : (start_process pid at f gone).proc_state p.curr ≡ 0 =
      ground (arith, (new p.curr).2, (end_process_lem p p.curr at own).2, other) in
    let orphan : ((start_process pid at f gone).pcb pid).p_pid ≡ p.curr =
      (new pid).4 ∙ rw (==-self pid, shown) gone-curr in
    let in_use : (start_process pid at f gone).proc_state pid ≡ 1 =
      (new pid).2 ∙ rw (==-self pid) refl in
    (
      word32 c.v_addr 0,
      load_process pid at f l (verified c (record (set_processes gone k) { interrupts = false })),
      halt-first fuel status f l c k pid (own ∙ sym first) ok found,
      (new pid).0,
      orphan,
      state,
      λ tree'. ground (
        arith,
        tree'.parents pid in_use,
        ap (start_process pid at f gone).proc_state orphan,
        state,
      ),
    )
