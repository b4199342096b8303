-- ===== src/Process/Pids.antt =====
-- The identifiers of processes: `get_pid`, and what `pcb_init` enters.
use os.Prelude.{
  ℕ, zero, suc, ◌+◌, ◌<◌, ◌≤◌, ◌≡◌, ◌≢◌, ◌⊎◌, inl, inr, Bool-cases, refl, arith, ◌==◌, ℤ, pos,
  minus_one,
}
use os.Process.{Processes, get_pid, find_pid, proc_num}

-- Among the `n` places from `i` on: the first that is free, or none.
unfoldable pub FirstFree : ℕ → ℕ → (ℕ → ℕ) → ℤ → Type 0
FirstFree i n states r =
    ((pid : ℕ) × (r ≡ pos pid)
      × (i ≤ pid)
      × (pid < i + n)
      × (states pid ≡ 0)
      × ((q : ℕ) → i ≤ q → q < pid → states q ≢ 0))
    ⊎ ((r ≡ minus_one) × ((q : ℕ) → i ≤ q → q < i + n → states q ≢ 0))

extend :
    (n i : ℕ) (states : ℕ → ℕ) (r : ℤ)
    → states i ≢ 0
    → FirstFree (i + 1) n states r
    → FirstFree i (suc n) states r
unfolding FirstFree
extend n i states r taken (inl (pid, e, low, high, free, before)) =
    inl (pid, e, omega arith, omega arith, free, λ q h h'. ground (arith, before q))
extend n i states r taken (inr (e, all)) = inr (e, λ q h h'. ground (arith, all q))

find_pid_lem : (n i : ℕ) (states : ℕ → ℕ) → FirstFree i n states (find_pid n i states)
unfolding find_pid FirstFree
find_pid_lem zero i states = inr (refl, λ q h h'. absurd (omega arith))
find_pid_lem (suc n) i states = elim (Bool-cases (states i == 0)) [
  | inl e ↦ inl (
    i,
    ground (arith, e),
    omega arith,
    omega arith,
    ground (arith, e),
    λ q h h'. absurd (omega arith),
  )
  | inr e ↦
      let tail = find_pid_lem n (i + 1) states in
      rw e (extend n i states (find_pid n (i + 1) states) (ground (arith, e)) tail)
]

-- `get_pid` gives the first free entry of the process table, one below 6, and -1 exactly if all the six
-- are in use.
pub get_pid_lem : (p : Processes) → FirstFree 0 proc_num p.proc_state (get_pid p)
unfolding get_pid
get_pid_lem p = find_pid_lem proc_num 0 p.proc_state
