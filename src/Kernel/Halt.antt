-- ===== src/Kernel/Halt.antt =====
-- A program that is started ends.
use os.Prelude.{
  ℕ, ◌≡◌, ◌≢◌, refl, arith, false, some, ◌==◌, if◌then◌else◌, Bytes, pos, ap, ◌∙◌, sym, word32,
  ==-self,
}
use os.Process.{Processes, get_pid, fdesc_size, replace}
use os.Command.{Command, Locals, verify_file}
use os.Kernel.{
  Kernel, Frame, entered, resumed, processes, set_processes, execute, launch, load_process,
  start_process, end_process, halt, return_to_parent,
}
use os.Kernel.Tree.{IsTree, start_process_lem}
use os.Kernel.Ending.{close_all-Untouched}
use os.Kernel.Execute.{execute-verified, verified, get_pid-free}

-- The process table after `end_process`, for a running process whose block has its own number.
pub end_process_lem :
    (p : Processes) (q t : ℕ)
    → (p.pcb p.curr).pid ≡ p.curr
    → let p' = end_process p in
      (p'.curr ≡ (p.pcb p.curr).p_pid)
      × (p'.t_curr t
          ≡ (if t == (p.pcb p.curr).terminal then pos (p.pcb p.curr).p_pid else p.t_curr t))
      × (p'.proc_state q ≡ (if q == p.curr then 0 else p.proc_state q))
      × ((p'.pcb q).pid ≡ (p.pcb q).pid)
      × ((p'.pcb q).p_pid ≡ (p.pcb q).p_pid)
      × ((p'.pcb q).parent_esp ≡ (p.pcb q).parent_esp)
      × ((p'.pcb q).parent_ebp ≡ (p.pcb q).parent_ebp)
unfolding end_process
end_process_lem p q t own =
    let freed = record p { proc_state = replace p.proc_state (p.pcb p.curr).pid 0 } in
    let kept = close_all-Untouched fdesc_size 0 q freed in
    (
      refl,
      rw kept.t_curr refl,
      ap (λ f. f q) kept.proc_state ∙ ap (λ i. if q == i then 0 else p.proc_state q) own,
      kept.pid,
      kept.p_pid,
      kept.parent_esp,
      kept.parent_ebp,
    )

-- The caller's registers in the new control block.
start_process-saved :
    (pid term : ℕ) (f : Frame) (p : Processes)
    → let b = (start_process pid term f p).pcb pid in
      (b.parent_esp ≡ f.esp) × (b.parent_ebp ≡ f.ebp)
unfolding start_process
start_process-saved pid term f p = rw (==-self pid) (refl, refl)

-- `halt` of a process with another parent.
halt-child :
    (fuel status : ℕ) (f : Frame) (l : Locals) (k : Kernel)
    → let p = processes k in
      (p.pcb p.curr).pid ≢ (p.pcb p.curr).p_pid
      → halt fuel f l status k
        ≡ some (
            return_to_parent p.curr status
              (record (set_processes (end_process p) k) { interrupts = false }))
unfolding halt
halt-child fuel status f l k ne =
    let test : (((processes k).pcb (processes k).curr).pid
          == ((processes k).pcb (processes k).curr).p_pid)
        ≡ false =
      ground (arith, ne) in
    rw (test, halt) refl

-- A process starts at the running process's terminal and ends.
module _ (p : Processes) (tree : IsTree p) (pid : ℕ) (free : p.proc_state pid ≡ 0) (f : Frame) where
  term : ℕ
  term = (p.pcb p.curr).terminal

  p1 : Processes
  p1 = start_process pid term f p

  p2 : Processes
  p2 = end_process p1

  other : p.curr ≢ pid
  other e = ground (arith, tree.current, ap p.proc_state e)

  Start : ℕ → ℕ → Type 0
  Start q t =
      (p1.curr ≡ pid)
      × (p1.t_curr t ≡ (if t == term then pos pid else p.t_curr t))
      × (p1.proc_state q ≡ (if q == pid then 1 else p.proc_state q))
      × ((p1.pcb pid).pid ≡ pid)
      × ((p1.pcb pid).p_pid ≡ p.curr)
      × ((p1.pcb pid).terminal ≡ term)

  start : (q t : ℕ) → Start q t
  unfolding Start p1 term
  start q t =
      let own = tree.own p.curr tree.current in
      let at_pid = start_process_lem pid term pid t f p own other in
      let at_q = start_process_lem pid term q t f p own other in
      (
        at_q.0,
        at_q.1,
        at_q.2,
        at_pid.3 ∙ rw (==-self pid) refl,
        at_pid.4 ∙ rw (==-self pid, tree.at_top) refl,
        at_pid.5 ∙ rw (==-self pid) refl,
      )

  on_top : p.t_curr term ≡ pos p.curr
  unfolding term
  on_top = tree.at_top

  own1 : (p1.pcb p1.curr).pid ≡ p1.curr
  unfolding Start
  own1 = let s = start 0 0 in ap (λ q. (p1.pcb q).pid) s.0 ∙ s.3 ∙ sym s.0

  parent1 : (p1.pcb p1.curr).p_pid ≡ p.curr
  unfolding Start
  parent1 = let s = start 0 0 in ap (λ q. (p1.pcb q).p_pid) s.0 ∙ s.4

  terminal1 : (p1.pcb p1.curr).terminal ≡ term
  unfolding Start
  terminal1 = let s = start 0 0 in ap (λ q. (p1.pcb q).terminal) s.0 ∙ s.5

  not_first : (p1.pcb p1.curr).pid ≢ (p1.pcb p1.curr).p_pid
  unfolding Start
  not_first e = other (sym parent1 ∙ sym e ∙ own1 ∙ (start 0 0).0)

  saved : ((p1.pcb pid).parent_esp ≡ f.esp) × ((p1.pcb pid).parent_ebp ≡ f.ebp)
  unfolding p1
  saved = start_process-saved pid term f p

  End : ℕ → ℕ → Type 0
  End q t =
      (p2.curr ≡ p.curr)
      × (p2.t_curr t ≡ p.t_curr t)
      × (p2.proc_state q ≡ p.proc_state q)
      × ((p2.pcb p1.curr).parent_esp ≡ f.esp)
      × ((p2.pcb p1.curr).parent_ebp ≡ f.ebp)

  there_and_back : (q t : ℕ) → End q t
  unfolding Start End p2
  there_and_back q t =
      let s = start q t in
      let e = end_process_lem p1 q t own1 in
      let e' = end_process_lem p1 p1.curr t own1 in
      (
        e.0 ∙ parent1,
        ground (arith, e.1, s.1, parent1, terminal1, on_top),
        ground (arith, e.2, s.2, s.0, free),
        e'.5 ∙ ap (λ i. (p1.pcb i).parent_esp) s.0 ∙ saved.0,
        e'.6 ∙ ap (λ i. (p1.pcb i).parent_ebp) s.0 ∙ saved.1,
      )

-- A program that `execute` starts for the running process and that calls `halt` at once gives the
-- processor back to `execute`'s caller, at the registers that it saved and with the program's status;
-- the running process, the process of every terminal and the table of processes in use are as before.
-- The processes have to be in their chains, the command a program, and a process free.
pub execute-halt :
    (fuel status : ℕ) (f f' : Frame) (l l' : Locals) (cmd : Bytes) (c : Command) (k : Kernel)
    (pid : ℕ)
    → IsTree (processes k)
    → verify_file fuel k.system.file_sys l (some cmd) k.command ≡ some (pos 0, c)
    → get_pid (processes k) ≡ pos pid
    → (addr : ℕ) × (k1 : Kernel) × (k2 : Kernel) × (execute fuel f l (some cmd) k
        ≡ some (entered addr, k1))
      × (halt fuel f' l' status k1 ≡ some (resumed f.esp f.ebp status, k2))
      × ((processes k2).curr ≡ (processes k).curr)
      × ((t : ℕ) → (processes k2).t_curr t ≡ (processes k).t_curr t)
      × ((q : ℕ) → (processes k2).proc_state q ≡ (processes k).proc_state q)
unfolding execute launch load_process return_to_parent End p1 p2 term
execute-halt fuel status f f' l l' cmd c k pid tree ok found =
    let p = processes k in
    let free = get_pid-free pid p found in
    let at = (p.pcb p.curr).terminal in
    let k1 = load_process pid at f l (verified c k) in
    let ended = record (set_processes (end_process (processes k1)) k1) { interrupts = false } in
    let back = return_to_parent (processes k1).curr status ended in
    let same = there_and_back p tree pid free f in
    let registers : back.0 ≡ resumed f.esp f.ebp status =
      let (_, _, _, esp, ebp) = same 0 0 in ground (arith, esp, ebp) in
    (
      word32 c.v_addr 0,
      k1,
      back.1,
      execute-verified fuel at f l cmd c k (pos 0) ok
          ∙ ap (λ z. some (launch z at f l (verified c k))) found,
      halt-child fuel status f' l' k1 (not_first p tree pid free f)
          ∙ ap (λ o. some (o, back.1)) registers,
      (same 0 0).0,
      (λ t. (same 0 t).1),
      (λ q. (same q 0).2),
    )
