-- ===== src/Kernel/Ending.antt =====
-- The end of a process that another one is waiting for.
use os.Prelude.{
  ℕ, zero, suc, ◌+◌, ◌<◌, ◌≤◌, ◌≡◌, ◌≢◌, inl, inr, refl, arith, ◌||◌, ◌==◌, if◌then◌else◌, ltb, pos,
  Bool-cases, ap, ◌∙◌, sym,
}
use mathlib.Core.Path.{subst}
use native.Mathlib.Decide.{ℕ_discrete}
use os.Process.{
  Processes, Pcb, fdesc_size, replace, set_pcb, close, shut, close_all, clear_flag, clear_bit,
  set_flag, flag_at,
}
use os.Process.Files.{InStep}
use os.Process.Halting.{close_all_lem}
use os.Kernel.{end_process}
use os.Kernel.Tree.{IsTree}

-- What closing descriptors leaves alone.
pub record Untouched (p p' : Processes) (q : ℕ) : Type 0 where
  pub curr : p'.curr ≡ p.curr
  pub t_curr : p'.t_curr ≡ p.t_curr
  pub proc_state : p'.proc_state ≡ p.proc_state
  pub pid : (p'.pcb q).pid ≡ (p.pcb q).pid
  pub p_pid : (p'.pcb q).p_pid ≡ (p.pcb q).p_pid
  pub terminal : (p'.pcb q).terminal ≡ (p.pcb q).terminal
  pub parent_esp : (p'.pcb q).parent_esp ≡ (p.pcb q).parent_esp
  pub parent_ebp : (p'.pcb q).parent_ebp ≡ (p.pcb q).parent_ebp
  pub others : q ≢ p.curr → p'.pcb q ≡ p.pcb q

Untouched-refl : (p : Processes) (q : ℕ) → Untouched p p q
Untouched-refl p q = ground arith

Untouched-trans :
    (p p' p'' : Processes) (q : ℕ) → Untouched p p' q → Untouched p' p'' q → Untouched p p'' q
Untouched-trans p p' p'' q u v = ground (arith, u.others, v.others)

-- A new block for the running process, with the old block's place in the tree.
set_pcb-Untouched :
    (q : ℕ) (b : Pcb) (p : Processes)
    → b.pid ≡ (p.pcb p.curr).pid
    → b.p_pid ≡ (p.pcb p.curr).p_pid
    → b.terminal ≡ (p.pcb p.curr).terminal
    → b.parent_esp ≡ (p.pcb p.curr).parent_esp
    → b.parent_ebp ≡ (p.pcb p.curr).parent_ebp
    → Untouched p (set_pcb p.curr b p) q
set_pcb-Untouched q b p h1 h2 h3 h4 h5 = record {
  curr = refl;
  t_curr = refl;
  proc_state = refl;
  pid = ground arith;
  p_pid = ground arith;
  terminal = ground arith;
  parent_esp = ground arith;
  parent_ebp = ground arith;
  others = λ ne. ground arith;
}

close-Untouched : (fd q : ℕ) (p : Processes) → Untouched p (close (pos fd) p).1 q
unfolding close
close-Untouched fd q p = elim (Bool-cases (ltb fdesc_size fd || ltb fd 2)) [
  | inl out ↦ rw out (Untouched-refl p q)
  | inr inside ↦ elim (Bool-cases (flag_at fd (p.pcb p.curr) == 0)) [
    | inl down ↦ rw (inside, down) (Untouched-refl p q)
    | inr up ↦
        rw (inside, up)
          (set_pcb-Untouched q (clear_bit fd (clear_flag fd (p.pcb p.curr))) p (ground arith)
            (ground arith) (ground arith) (ground arith) (ground arith))
  ]
]

shut-Untouched : (i q : ℕ) (p : Processes) → Untouched p (shut i p) q
unfolding shut
shut-Untouched i q p = elim (Bool-cases (((p.pcb p.curr).file_array i).flag == 0)) [
  | inl down ↦ rw down (lower p)
  | inr up ↦ rw up (Untouched-trans p p1 _ q (close-Untouched i q p) (lower p1))
]
  where
    p1 : Processes
    p1 = (close (pos i) p).1

    lower : (p' : Processes) → Untouched p' (set_pcb p'.curr (set_flag i 0 (p'.pcb p'.curr)) p') q
    lower p' = set_pcb-Untouched q (set_flag i 0 (p'.pcb p'.curr)) p' refl refl refl refl refl

pub close_all-Untouched : (n i q : ℕ) (p : Processes) → Untouched p (close_all n i p) q
unfolding close_all
close_all-Untouched zero i q p = Untouched-refl p q
close_all-Untouched (suc n) i q p =
    Untouched-trans p (shut i p) _ q (shut-Untouched i q p)
      (close_all-Untouched n (i + 1) q (shut i p))

-- The end of the running process, whose parent is another one.
module _ (p : Processes) (tree : IsTree p) (child : (p.pcb p.curr).p_pid ≢ p.curr) where
  parent : ℕ
  parent = (p.pcb p.curr).p_pid

  freed : Processes
  freed = record p { proc_state = replace p.proc_state (p.pcb p.curr).pid 0 }

  gone : Processes
  gone = end_process p

  kept : (q : ℕ) → Untouched freed (close_all fdesc_size 0 freed) q
  kept q = close_all-Untouched fdesc_size 0 q freed

  curr_eq : gone.curr ≡ parent
  unfolding gone end_process parent
  curr_eq = refl

  t_curr_eq :
      (t : ℕ) → gone.t_curr t ≡ (if t == (p.pcb p.curr).terminal then pos parent else p.t_curr t)
  unfolding gone end_process parent freed
  t_curr_eq t = rw ((kept 0).t_curr) refl

  state_eq : (q : ℕ) → gone.proc_state q ≡ (if q == p.curr then 0 else p.proc_state q)
  unfolding gone end_process freed
  state_eq q =
      ap (λ f. f q) (kept 0).proc_state
      ∙ ap (λ i. if q == i then 0 else p.proc_state q) (tree.own p.curr tree.current)

  pid_eq : (q : ℕ) → (gone.pcb q).pid ≡ (p.pcb q).pid
  unfolding gone end_process freed
  pid_eq q = (kept q).pid

  p_pid_eq : (q : ℕ) → (gone.pcb q).p_pid ≡ (p.pcb q).p_pid
  unfolding gone end_process freed
  p_pid_eq q = (kept q).p_pid

  terminal_eq : (q : ℕ) → (gone.pcb q).terminal ≡ (p.pcb q).terminal
  unfolding gone end_process freed
  terminal_eq q = (kept q).terminal

  same : (q : ℕ) → q ≢ p.curr → gone.pcb q ≡ p.pcb q
  unfolding gone end_process freed
  same q ne = (kept q).others ne

  cleaned : (i : ℕ) → 2 ≤ i → i < fdesc_size → (gone.pcb p.curr).bitmap i ≡ 0
  unfolding gone end_process freed
  cleaned i low high =
      ap (λ q. ((close_all fdesc_size 0 freed).pcb q).bitmap i) (sym (kept 0).curr)
      ∙ (close_all_lem freed i (tree.in_step p.curr tree.current) high).1 low

  down : (i : ℕ) → i < fdesc_size → ((gone.pcb p.curr).file_array i).flag ≡ 0
  unfolding gone end_process freed
  down i high =
      ap (λ q. (((close_all fdesc_size 0 freed).pcb q).file_array i).flag) (sym (kept 0).curr)
      ∙ (close_all_lem freed i (tree.in_step p.curr tree.current) high).0

  -- The parent is in the table, at the same terminal.
  parent_lem : (p.proc_state parent ≡ 1) × ((p.pcb parent).terminal ≡ (p.pcb p.curr).terminal)
  unfolding parent
  parent_lem = tree.parents p.curr tree.current

  differs : parent ≢ p.curr
  unfolding parent
  differs = child

  def : (p.pcb p.curr).p_pid ≡ parent
  unfolding parent
  def = refl

  gone_at_top : gone.t_curr (gone.pcb gone.curr).terminal ≡ pos gone.curr
  gone_at_top = ground (
    arith,
    curr_eq,
    ap (λ q. (gone.pcb q).terminal) curr_eq,
    terminal_eq parent,
    parent_lem,
    t_curr_eq (gone.pcb gone.curr).terminal,
  )

  gone_shown :
      (t q : ℕ) → gone.t_curr t ≡ pos q → (gone.proc_state q ≡ 1) × ((gone.pcb q).terminal ≡ t)
  gone_shown t q e =
      ground (arith, t_curr_eq t, state_eq q, terminal_eq q, tree.shown t q, parent_lem, differs)

  gone_parents :
      (q : ℕ)
      → gone.proc_state q ≡ 1
      → (gone.proc_state (gone.pcb q).p_pid ≡ 1)
        × ((gone.pcb (gone.pcb q).p_pid).terminal ≡ (gone.pcb q).terminal)
  gone_parents q h = ground (
    arith,
    state_eq q,
    p_pid_eq q,
    terminal_eq q,
    state_eq (gone.pcb q).p_pid,
    terminal_eq (gone.pcb q).p_pid,
    tree.parents q,
    tree.leaf (p.pcb p.curr).terminal q p.curr tree.at_top,
  )

  gone_leaf :
      (t q r : ℕ) → gone.t_curr t ≡ pos r → gone.proc_state q ≡ 1 → q ≢ r → (gone.pcb q).p_pid ≢ r
  gone_leaf t q r e h ne = ground (
    arith,
    t_curr_eq t,
    state_eq q,
    p_pid_eq q,
    tree.leaf t q r,
    tree.single q p.curr,
    tree.current,
    differs,
    def,
  )

  gone_single :
      (q q' : ℕ)
      → gone.proc_state q ≡ 1
      → gone.proc_state q' ≡ 1
      → (gone.pcb q).p_pid ≡ (gone.pcb q').p_pid
      → (gone.pcb q).p_pid ≢ q
      → (gone.pcb q').p_pid ≢ q'
      → q ≡ q'
  gone_single q q' h h' e ne ne' =
      ground (arith, state_eq q, state_eq q', p_pid_eq q, p_pid_eq q', tree.single q q')

  still_there : (q : ℕ) → gone.proc_state q ≡ 1 → (q ≢ p.curr) × (p.proc_state q ≡ 1)
  still_there q h = ground (arith, state_eq q)

  gone-InStep : (q : ℕ) → gone.proc_state q ≡ 1 → InStep (gone.pcb q)
  gone-InStep q h =
      let (ne, old) = still_there q h in subst InStep (sym (same q ne)) (tree.in_step q old)

  gone_clean :
      (q i : ℕ) → gone.proc_state q ≢ 1 → 2 ≤ i → i < fdesc_size → (gone.pcb q).bitmap i ≡ 0
  gone_clean q i h low high = elim (ℕ_discrete q p.curr) [
    | yes e ↦ ap (λ j. (gone.pcb j).bitmap i) e ∙ cleaned i low high
    | no ne ↦ ground (arith, same q ne, state_eq q, tree.clean q i)
  ]

  -- The chains stay.
  pub end_process-IsTree : IsTree (end_process p)
  unfolding gone
  end_process-IsTree = record {
    current = ground (arith, curr_eq, state_eq gone.curr, state_eq parent, parent_lem, differs);
    at_top = gone_at_top;
    own = λ q h. ground (arith, state_eq q, pid_eq q, tree.own q);
    shown = gone_shown;
    parents = gone_parents;
    leaf = gone_leaf;
    single = gone_single;
    in_step = gone-InStep;
    clean = gone_clean;
  }

  -- The end of a process that is not the first of its terminal keeps the chains: the parent is the running
  -- process and again at the top of the terminal, the entry of the ended process is free, and so are its
  -- descriptors from 2 on; the flags of all its descriptors are down. The other entries, control blocks and
  -- terminals are as before.
  pub end_process-parent :
      let p' = end_process p in
      IsTree p'
      × (p'.curr ≡ (p.pcb p.curr).p_pid)
      × ((t : ℕ)
          → p'.t_curr t
            ≡ (if t == (p.pcb p.curr).terminal then pos (p.pcb p.curr).p_pid else p.t_curr t))
      × ((q : ℕ) → p'.proc_state q ≡ (if q == p.curr then 0 else p.proc_state q))
      × ((i : ℕ) → 2 ≤ i → i < fdesc_size → (p'.pcb p.curr).bitmap i ≡ 0)
      × ((i : ℕ) → i < fdesc_size → ((p'.pcb p.curr).file_array i).flag ≡ 0)
      × ((q : ℕ) → q ≢ p.curr → p'.pcb q ≡ p.pcb q)
  unfolding gone parent
  end_process-parent = (end_process-IsTree, curr_eq, t_curr_eq, state_eq, cleaned, down, same)
