-- ===== src/Kernel/Execute.antt =====
-- What `execute` does to the processes and to their memory.
use os.Prelude.{
  ℕ, ◌≡◌, ◌≢◌, ◌⊎◌, inl, inr, refl, arith, false, some, if◌then◌else◌, Bytes, ℤ, pos, negsuc,
  minus_one, Bool-cases, ◌∙◌, sym, word32,
}
use mathlib.Core.Path.{subst}
use os.Strings.{strlen}
use os.FileSys.{is_minus_one}
use os.Process.{Processes, get_pid, replace}
use os.Process.Pids.{FirstFree, get_pid_lem}
use os.Command.{Command, Locals, verify_file, check_program}
use os.Command.Parse.{parse_unbounded}
use os.Kernel.{
  Kernel, Frame, Outcome, returned, entered, processes, execute_with_terminal_num, launch,
  load_process, refuse_process, start_process,
}
use os.Kernel.Tree.{IsTree, start_process-IsTree}

-- What `get_pid` gives is free.
pub get_pid-free : (pid : ℕ) (p : Processes) → get_pid p ≡ pos pid → p.proc_state pid ≡ 0
unfolding FirstFree
get_pid-free pid p e = elim (get_pid_lem p) [
  | inl (q, at, low, high, free, first) ↦ ground arith
  | inr (missing, all) ↦ ground arith
]

-- The flags of the second and third terminal are the same.
pub record SameFlags (k k' : Kernel) : Type 0 where
  pub two : k'.system.keyboard.terminal_2_running ≡ k.system.keyboard.terminal_2_running
  pub three : k'.system.keyboard.terminal_3_running ≡ k.system.keyboard.terminal_3_running

-- What a call of `execute` for terminal `term` may have done: nothing to any process or its memory, or the
-- start of the first free process.
pub data Executed (term : ℕ) (f : Frame) (k : Kernel) : Outcome → Kernel → Type 0 where
  refused :
      (r : ℤ) (k' : Kernel)
      → processes k' ≡ processes k
      → k'.program ≡ k.program
      → k'.system.file_sys ≡ k.system.file_sys
      → SameFlags k k'
      → Executed term f k (returned r) k'
  started :
      (pid addr : ℕ) (k' : Kernel)
      → get_pid (processes k) ≡ pos pid
      → processes k' ≡ start_process pid term f (processes k)
      → ((q : ℕ) → q ≢ pid → k'.program q ≡ k.program q)
      → SameFlags k k'
      → Executed term f k (entered addr) k'

replace_other : {A : Type 0} (m : ℕ → A) (i q : ℕ) (x : A) → q ≢ i → replace m i x q ≡ m q
replace_other m i q x ne = ground arith

launch-Executed :
    (z : ℤ) (term : ℕ) (f : Frame) (l : Locals) (k : Kernel)
    → get_pid (processes k) ≡ z
    → let r = launch z term f l k in Executed term f k r.0 r.1
unfolding launch load_process refuse_process
launch-Executed (negsuc n) term f l k e =
    refused (pos 0) _ refl refl refl (record { two = refl; three = refl })
launch-Executed (pos pid) term f l k e =
    started pid (word32 k.command.v_addr 0) _ e refl (λ q ne. replace_other k.program pid q _ ne)
      (record { two = refl; three = refl })

-- The state in which `verify_file` leaves `execute`.
abbrev pub verified : Command → Kernel → Kernel
verified c k = record k { command = c; interrupts = false }

Executed-verified :
    {term : ℕ} {f : Frame} {o : Outcome} {k' : Kernel} (c : Command) (k : Kernel)
    → Executed term f (verified c k) o k'
    → Executed term f k o k'
Executed-verified c k (refused r k' e e' e'' s) =
    refused r k' e e' e'' (record { two = s.two; three = s.three })
Executed-verified c k (started pid addr k' e e' e'' s) =
    started pid addr k' e e' e'' (record { two = s.two; three = s.three })

pub execute-verified :
    (fuel term : ℕ) (f : Frame) (l : Locals) (cmd : Bytes) (c : Command) (k : Kernel) (r : ℤ)
    → verify_file fuel k.system.file_sys l (some cmd) k.command ≡ some (r, c)
    → execute_with_terminal_num fuel f l (some cmd) term k
      ≡ some (
          if is_minus_one r
          then (returned minus_one, verified c k)
          else launch (get_pid (processes k)) term f l (verified c k))
unfolding execute_with_terminal_num
execute-verified fuel term f l cmd c k r e = rw (e, execute_with_terminal_num) refl

-- For a command whose length is found, `execute` comes to an end: it refuses and leaves all processes,
-- their memory and the files alone, or it starts the first free process, for the terminal that was asked
-- for, and touches no other program's memory.
pub execute-Executed :
    (fuel n term : ℕ) (f : Frame) (l : Locals) (cmd : Bytes) (k : Kernel)
    → strlen fuel cmd ≡ some n
    → (o : Outcome) × (k' : Kernel) × (execute_with_terminal_num fuel f l (some cmd) term k
        ≡ some (o, k'))
      × Executed term f k o k'
unfolding verify_file
execute-Executed fuel n term f l cmd k e =
    let found = parse_unbounded fuel n cmd k.command e in
    let runs = found.1 in
    let r = check_program k.system.file_sys l found.0 in
    let seen : verify_file fuel k.system.file_sys l (some cmd) k.command ≡ some r =
      rw (runs, verify_file) refl in
    let done = execute-verified fuel term f l cmd r.1 k r.0 seen in
    elim (Bool-cases (is_minus_one r.0)) [
      | inl bad ↦ (
        returned minus_one,
        verified r.1 k,
        done ∙ rw bad refl,
        refused minus_one (verified r.1 k) refl refl refl (record { two = refl; three = refl }),
      )
      | inr good ↦
          let go = launch (get_pid (processes k)) term f l (verified r.1 k) in
          (
            go.0,
            go.1,
            done ∙ rw good refl,
            Executed-verified r.1 k
                (launch-Executed (get_pid (processes k)) term f l (verified r.1 k) refl),
          )
    ]

-- Whatever `execute` does, the processes stay in their chains, if the terminal is that of the running
-- process or has no process.
pub Executed-IsTree :
    (term : ℕ) (f : Frame) (k k' : Kernel) (o : Outcome)
    → Executed term f k o k'
    → IsTree (processes k)
    → ((processes k).t_curr term ≡ minus_one)
      ⊎ (term ≡ ((processes k).pcb (processes k).curr).terminal)
    → IsTree (processes k')
Executed-IsTree term f k k' o (refused r _ e e' e'' s) tree place = subst IsTree (sym e) tree
Executed-IsTree term f k k' o (started pid addr _ e e' e'' s) tree place =
    subst IsTree (sym e')
      (start_process-IsTree pid term f (processes k) tree (get_pid-free pid (processes k) e) place)
