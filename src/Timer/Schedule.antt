-- ===== src/Timer/Schedule.antt =====
-- The timer's choice of the next terminal.
use os.Prelude.{ℕ, zero, suc, ◌+◌, ◌-◌, ◌%◌, not, ◌<◌, ◌≡◌, Bool, true, Option, none, some, ℤ}
use os.FileSys.{is_minus_one}
use os.Paging.{Layout}
use os.Process.{Processes}
use os.Kernel.{Kernel, Frame, Outcome, processes}
use os.Command.{Locals}
use os.Timer.{pit_int_handler, num_terminals, index_of}

-- Terminal `t` has a process.
abbrev pub is_active : (ℕ → ℤ) → ℕ → Bool
is_active t_curr t = not (is_minus_one (t_curr t))

-- How many steps round the three terminals lead from `t` to `u`.
abbrev pub steps : ℕ → ℕ → ℕ
steps t u = (u + 3 - t) % 3

-- What the switch relies on: the running process is at one of the terminals, and each terminal's process
-- is a process of that terminal.
pub record IsPlaced (p : Processes) : Type 0 where
  pub running : (p.pcb p.curr).terminal < num_terminals
  pub shown :
      (t : ℕ)
      → t < num_terminals
      → is_active p.t_curr t ≡ true
      → let q = index_of (p.t_curr t) in ((p.pcb q).pid ≡ q) × ((p.pcb q).terminal ≡ t)

-- The terminal that has the processor.
abbrev pub turn : Kernel → ℕ
turn k = ((processes k).pcb (processes k).curr).terminal

-- `k'` follows `k` by one tick, which gives the processor to terminal `r`.
pub record Tick (fuel : ℕ) (layout : Layout) (f : Frame) (l : Locals) (k : Kernel) (r : ℕ)
    (k' : Kernel) : Type 0 where
  pub outcome : Outcome
  pub runs : pit_int_handler fuel layout f l k ≡ some (outcome, k')
  pub turned : turn k' ≡ r
  pub kept : (processes k').t_curr ≡ (processes k).t_curr
  pub placed : IsPlaced (processes k')

-- What a call of the timer's handler meets: the registers, and what the local variables held.
pub record Interrupted : Type 0 where
  pub frame : Frame
  pub locals : Locals

-- `n` interrupts of the timer.
unfoldable pub ticks : ℕ → Layout → ℕ → (ℕ → Interrupted) → Kernel → Option Kernel
unfolding pit_int_handler
ticks fuel layout zero met k = some k
ticks fuel layout (suc n) met k =
    elim (pit_int_handler fuel layout (met 0).frame (met 0).locals k) [
      | none ↦ none
      | some (o, k') ↦ ticks fuel layout n (λ i. met (i + 1)) k'
    ]
