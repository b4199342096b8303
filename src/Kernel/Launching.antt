-- ===== src/Kernel/Launching.antt =====
-- What `execute` does with a command: whether it begins a program, in which process, and with what in its
-- memory.
use os.Prelude.{ℕ, ◌<◌, ◌≡◌, ◌≢◌, true, false, ◌==◌, if◌then◌else◌, Bytes, pos, minus_one}
use os.FileSys.{FileSys, program_max_size}
use os.Process.{proc_num}
use os.Command.{Command, Locals}
use os.Command.Programs.{is_program, entry_point, inode_of, copied}
use os.Kernel.{Kernel, Outcome, returned, entered, processes}

-- The processes, their memory and the files are as before.
pub record IsUnchanged (k k' : Kernel) : Type 0 where
  pub processes_same : processes k' ≡ processes k
  pub program_same : k'.program ≡ k.program
  pub file_sys_same : k'.system.file_sys ≡ k.system.file_sys

-- Process `pid`, the first one that was free, runs at terminal `term` with the file `name` in its memory,
-- and the other processes and terminals are as before.
pub record HasBegun (pid term : ℕ) (l : Locals) (name : Bytes) (k k' : Kernel) : Type 0 where
  pub low : pid < proc_num
  pub free : (processes k).proc_state pid ≡ 0
  pub first : (q : ℕ) → q < pid → (processes k).proc_state q ≢ 0
  pub curr : (processes k').curr ≡ pid
  pub terminal : ((processes k').pcb pid).terminal ≡ term
  pub at_top :
      (t : ℕ) → (processes k').t_curr t ≡ (if t == term then pos pid else (processes k).t_curr t)
  pub used :
      (q : ℕ) → (processes k').proc_state q ≡ (if q == pid then 1 else (processes k).proc_state q)
  pub others : (q : ℕ) → q ≢ pid → (processes k').pcb q ≡ (processes k).pcb q
  pub image :
      (i : ℕ)
      → k'.program pid i
        ≡ copied k.system.file_sys
            (inode_of k.system.file_sys l name)
            0
            program_max_size
            (k.program pid)
            i
  pub memories : (q : ℕ) → q ≢ pid → k'.program q ≡ k.program q

-- The three ends of `execute` for the file `name`.
pub data Launched (term : ℕ) (l : Locals) (name : Bytes) (k : Kernel)
    : Outcome → Kernel → Type 0 where
  no_program :
      (k' : Kernel)
      → is_program k.system.file_sys l name ≡ false
      → IsUnchanged k k'
      → Launched term l name k (returned minus_one) k'
  too_many :
      (k' : Kernel)
      → is_program k.system.file_sys l name ≡ true
      → ((q : ℕ) → q < proc_num → (processes k).proc_state q ≢ 0)
      → IsUnchanged k k'
      → Launched term l name k (returned (pos 0)) k'
  begun :
      (pid : ℕ) (k' : Kernel)
      → is_program k.system.file_sys l name ≡ true
      → HasBegun pid term l name k k'
      → Launched term l name k (entered (entry_point k.system.file_sys l name k.command.v_addr)) k'
