-- ===== src/Kernel/Tree.antt =====
-- The processes form chains, one for each terminal: a shell, the program that it runs, and so on.
use os.Prelude.{
  ℕ, ◌<◌, ◌≤◌, ◌≡◌, ◌≢◌, ◌⊎◌, inl, inr, refl, arith, ◌==◌, if◌then◌else◌, pos, minus_one, ==-self,
  ap, ◌∙◌, sym,
}
use mathlib.Core.Path.{subst}
use native.Mathlib.Decide.{ℕ_discrete}
use os.FileSys.{is_minus_one}
use os.Process.{Processes, Pcb, pcb_init, fdesc_size, replace, get_esp}
use os.Process.Files.{InStep}
use os.Process.Halting.{pcb_init_lem}
use os.Kernel.{Frame, start_process, save_parent, set_current}

-- The entries of the process table and the control blocks agree, and a process at the top of a terminal
-- has no children.
pub record IsTree (p : Processes) : Type 0 where
  pub current : p.proc_state p.curr ≡ 1
  pub at_top : p.t_curr (p.pcb p.curr).terminal ≡ pos p.curr
  pub own : (q : ℕ) → p.proc_state q ≡ 1 → (p.pcb q).pid ≡ q
  pub shown : (t q : ℕ) → p.t_curr t ≡ pos q → (p.proc_state q ≡ 1) × ((p.pcb q).terminal ≡ t)
  pub parents :
      (q : ℕ)
      → p.proc_state q ≡ 1
      → (p.proc_state (p.pcb q).p_pid ≡ 1) × ((p.pcb (p.pcb q).p_pid).terminal ≡ (p.pcb q).terminal)
  pub leaf : (t q r : ℕ) → p.t_curr t ≡ pos r → p.proc_state q ≡ 1 → q ≢ r → (p.pcb q).p_pid ≢ r
  pub single :
      (q q' : ℕ)
      → p.proc_state q ≡ 1
      → p.proc_state q' ≡ 1
      → (p.pcb q).p_pid ≡ (p.pcb q').p_pid
      → (p.pcb q).p_pid ≢ q
      → (p.pcb q').p_pid ≢ q'
      → q ≡ q'
  pub in_step : (q : ℕ) → p.proc_state q ≡ 1 → InStep (p.pcb q)
  pub clean : (q i : ℕ) → p.proc_state q ≢ 1 → 2 ≤ i → i < fdesc_size → (p.pcb q).bitmap i ≡ 0

pub start_process_lem :
    (pid term q t : ℕ) (f : Frame) (p : Processes)
    → (p.pcb p.curr).pid ≡ p.curr
    → p.curr ≢ pid
    → let p' = start_process pid term f p in
      (p'.curr ≡ pid)
      × (p'.t_curr t ≡ (if t == term then pos pid else p.t_curr t))
      × (p'.proc_state q ≡ (if q == pid then 1 else p.proc_state q))
      × ((p'.pcb q).pid ≡ (if q == pid then pid else (p.pcb q).pid))
      × ((p'.pcb q).p_pid ≡ (
          if q == pid
          then if is_minus_one (p.t_curr term) then pid else p.curr
          else (p.pcb q).p_pid))
      × ((p'.pcb q).terminal ≡ (if q == pid then term else (p.pcb q).terminal))
      × (q ≢ pid → p'.pcb q ≡ p.pcb q)
unfolding start_process pcb_init
start_process_lem pid term q t f p own other = (
  refl,
  refl,
  refl,
  ground (arith, own, other),
  ground (arith, own, other),
  ground arith,
  λ ne. ground arith,
)

replace_self : (m : ℕ → Pcb) (i : ℕ) (b : Pcb) → replace m i b i ≡ b
replace_self m i b = rw (==-self i) refl

InStep-saved :
    (esp : ℕ) (f : Frame) (b : Pcb) → InStep b → InStep (set_current esp (save_parent f b))
unfolding InStep
InStep-saved esp f b h = h

-- The descriptors of the new process.
start_process-InStep :
    (pid term : ℕ) (f : Frame) (p : Processes)
    → (p.pcb p.curr).pid ≡ p.curr
    → ((i : ℕ) → 2 ≤ i → i < fdesc_size → (p.pcb pid).bitmap i ≡ 0)
    → InStep ((start_process pid term f p).pcb pid)
unfolding start_process
start_process-InStep pid term f p own clean =
    let p0 = record p { proc_state = replace p.proc_state pid 1 } in
    let p1 = pcb_init pid term p0 in
    subst InStep
      (sym (replace_self p1.pcb pid (set_current (get_esp pid) (save_parent f (p1.pcb pid)))))
      (InStep-saved (get_esp pid) f (p1.pcb pid) (pcb_init_lem pid term p0 clean own).0)

-- `execute` in a free process, for the terminal of the running process or for one without a process.
module _ (pid term : ℕ) (f : Frame) (p : Processes) (tree : IsTree p) (free : p.proc_state pid ≡ 0)
    (place : (p.t_curr term ≡ minus_one) ⊎ (term ≡ (p.pcb p.curr).terminal)) where
  new : Processes
  new = start_process pid term f p

  other : p.curr ≢ pid
  other e = ground (arith, tree.current, ap p.proc_state e)

  own_curr : (p.pcb p.curr).pid ≡ p.curr
  own_curr = tree.own p.curr tree.current

  curr_eq : new.curr ≡ pid
  unfolding new
  curr_eq = (start_process_lem pid term 0 0 f p own_curr other).0

  t_curr_eq : (t : ℕ) → new.t_curr t ≡ (if t == term then pos pid else p.t_curr t)
  unfolding new
  t_curr_eq t = (start_process_lem pid term 0 t f p own_curr other).1

  state_eq : (q : ℕ) → new.proc_state q ≡ (if q == pid then 1 else p.proc_state q)
  unfolding new
  state_eq q = (start_process_lem pid term q 0 f p own_curr other).2

  pid_eq : (q : ℕ) → (new.pcb q).pid ≡ (if q == pid then pid else (p.pcb q).pid)
  unfolding new
  pid_eq q = (start_process_lem pid term q 0 f p own_curr other).3

  p_pid_eq :
      (q : ℕ)
      → (new.pcb q).p_pid ≡ (
          if q == pid
          then if is_minus_one (p.t_curr term) then pid else p.curr
          else (p.pcb q).p_pid)
  unfolding new
  p_pid_eq q = (start_process_lem pid term q 0 f p own_curr other).4

  terminal_eq : (q : ℕ) → (new.pcb q).terminal ≡ (if q == pid then term else (p.pcb q).terminal)
  unfolding new
  terminal_eq q = (start_process_lem pid term q 0 f p own_curr other).5

  same : (q : ℕ) → q ≢ pid → new.pcb q ≡ p.pcb q
  unfolding new
  same q ne = (start_process_lem pid term q 0 f p own_curr other).6 ne

  -- The parent of the new process: itself, or the running process on the same terminal.
  parent :
      ((p.t_curr term ≡ minus_one) × ((new.pcb pid).p_pid ≡ pid))
      ⊎ ((term ≡ (p.pcb p.curr).terminal)
          × (p.t_curr term ≡ pos p.curr)
          × ((new.pcb pid).p_pid ≡ p.curr))
  parent = elim place [
    | inl none_there ↦ inl (none_there, ground (arith, p_pid_eq pid))
    | inr here ↦ inr (
      here,
      ap p.t_curr here ∙ tree.at_top,
      ground (arith, p_pid_eq pid, ap p.t_curr here, tree.at_top),
    )
  ]

  new_at_top : new.t_curr (new.pcb new.curr).terminal ≡ pos new.curr
  new_at_top = ground (
    arith,
    curr_eq,
    ap (λ q. (new.pcb q).terminal) curr_eq,
    terminal_eq pid,
    t_curr_eq term,
    t_curr_eq (new.pcb new.curr).terminal,
  )

  new_shown : (t q : ℕ) → new.t_curr t ≡ pos q → (new.proc_state q ≡ 1) × ((new.pcb q).terminal ≡ t)
  new_shown t q e = ground (arith, t_curr_eq t, state_eq q, terminal_eq q, tree.shown t q)

  new_parents :
      (q : ℕ)
      → new.proc_state q ≡ 1
      → (new.proc_state (new.pcb q).p_pid ≡ 1)
        × ((new.pcb (new.pcb q).p_pid).terminal ≡ (new.pcb q).terminal)
  new_parents q h = ground (
    arith,
    parent,
    state_eq q,
    p_pid_eq q,
    terminal_eq q,
    state_eq (new.pcb q).p_pid,
    terminal_eq (new.pcb q).p_pid,
    tree.parents q,
    tree.current,
  )

  new_leaf :
      (t q r : ℕ) → new.t_curr t ≡ pos r → new.proc_state q ≡ 1 → q ≢ r → (new.pcb q).p_pid ≢ r
  new_leaf t q r e h ne = ground (
    arith,
    parent,
    t_curr_eq t,
    state_eq q,
    p_pid_eq q,
    tree.leaf t q r,
    tree.parents q,
    tree.shown t p.curr,
  )

  new_single :
      (q q' : ℕ)
      → new.proc_state q ≡ 1
      → new.proc_state q' ≡ 1
      → (new.pcb q).p_pid ≡ (new.pcb q').p_pid
      → (new.pcb q).p_pid ≢ q
      → (new.pcb q').p_pid ≢ q'
      → q ≡ q'
  new_single q q' h h' e ne ne' = ground (
    arith,
    parent,
    state_eq q,
    state_eq q',
    p_pid_eq q,
    p_pid_eq q',
    tree.single q q',
    tree.leaf (p.pcb p.curr).terminal q p.curr tree.at_top,
    tree.leaf (p.pcb p.curr).terminal q' p.curr tree.at_top,
    tree.parents q,
    tree.parents q',
  )

  pid-InStep : InStep (new.pcb pid)
  unfolding new
  pid-InStep =
      start_process-InStep pid term f p own_curr (λ i. tree.clean pid i (ground (arith, free)))

  new-InStep : (q : ℕ) → new.proc_state q ≡ 1 → InStep (new.pcb q)
  new-InStep q h = elim (ℕ_discrete q pid) [
    | yes e ↦ subst (λ i. InStep (new.pcb i)) (sym e) pid-InStep
    | no ne ↦ subst InStep (sym (same q ne)) (tree.in_step q (ground (arith, state_eq q)))
  ]

  new_clean : (q i : ℕ) → new.proc_state q ≢ 1 → 2 ≤ i → i < fdesc_size → (new.pcb q).bitmap i ≡ 0
  new_clean q i h low high = ground (arith, state_eq q, same q, tree.clean q i)

  -- The chains stay.
  pub start_process-IsTree : IsTree (start_process pid term f p)
  unfolding new
  start_process-IsTree = record {
    current = ground (arith, state_eq pid, curr_eq);
    at_top = new_at_top;
    own = λ q h. ground (arith, state_eq q, pid_eq q, tree.own q);
    shown = new_shown;
    parents = new_parents;
    leaf = new_leaf;
    single = new_single;
    in_step = new-InStep;
    clean = new_clean;
  }
