-- ===== src/Programs/Syserr/Refusals.antt =====
-- The calls that the program's tests expect to fail.
use os.Prelude.{
  ℕ, ◌<◌, ◌≤◌, ◌≡◌, ◌⊎◌, refl, arith, List, Option, some, true, false, ℤ, pos, minus_one, ap, ◌==◌,
  ltb, ◌||◌, Bool,
}
use mathlib.Core.Path.{subst}
use os.FileSys.{is_minus_one, read_dentry_by_name}
use os.Process.{Handler, Processes, close, fdesc_size, flag_at}
use os.System.{read, write, call_read, call_write, running}
use os.System.Reads.{read-refused, write-refused}
use os.Kernel.{vidmap, nth, set_processes}
use os.Programs.Syserr.{
  Run, Env, after_read, after_write, read_fd, write_fd, close_fd, open_name, map_video, neg_fd,
}
use os.Programs.Syserr.Steps.{system}
use os.Programs.Syserr.Slots.{open_missing}

pos-injective : (a b : ℕ) → pos a ≡ pos b → a ≡ b
pos-injective a b e = cc

module _ (fd : ℕ) (r : Run) where
  pub write-closed :
      (n : ℕ)
      → (fdesc_size ≤ fd) ⊎ ((running (system r)).bitmap fd ≡ 0)
      → write_fd (pos fd) n r ≡ some (minus_one, r)
  write-closed n why = ap (after_write r) (write-refused fd r.buf n (system r) why)

  pub read-closed :
      (e : Env) (n : ℕ)
      → (fdesc_size ≤ fd) ⊎ (((running (system r)).file_array fd).flag ≡ 0)
      → read_fd e (pos fd) n r ≡ some (minus_one, r)
  read-closed e n why = ap (after_read r) (
      read-refused e.fuel e.stack (pos fd) r.buf n (system r) (λ m same.
        subst (λ j. (fdesc_size ≤ j) ⊎ (((running (system r)).file_array j).flag ≡ 0))
          (pos-injective fd m same) why))

  pub close-closed :
      (fd < 2)
        ⊎ (fdesc_size < fd)
        ⊎ ((fd < fdesc_size) × (((running (system r)).file_array fd).flag ≡ 0))
      → close_fd (pos fd) r ≡ some (minus_one, r)
  unfolding close
  close-closed why = ap (after_close r) (refused (ltb fdesc_size fd || ltb fd 2) refl)
    where
      after_close : Run → ℤ × Processes → Option (ℤ × Run)
      after_close r' (result, p) = some (result, record r' { kernel = set_processes p r'.kernel })

      refused :
          (b : Bool)
          → (ltb fdesc_size fd || ltb fd 2) ≡ b
          → close (pos fd) (system r).processes ≡ (minus_one, (system r).processes)
      refused true out = rw out refl
      refused false inside =
          let shut : (flag_at fd (running (system r)) == 0) ≡ true = ground (arith, inside, why) in
          rw (inside, shut) refl

pub read-neg : (e : Env) (n : ℕ) (r : Run) → read_fd e neg_fd n r ≡ some (minus_one, r)
unfolding read
read-neg e n r = refl

pub write-neg : (n : ℕ) (r : Run) → write_fd neg_fd n r ≡ some (minus_one, r)
unfolding write
write-neg n r = refl

pub close-neg : (r : Run) → close_fd neg_fd r ≡ some (minus_one, r)
unfolding close
close-neg r = refl

-- stdin is not written, and stdout not read.
pub write-stdin :
    (n : ℕ) (r : Run)
    → ((running (system r)).file_array 0).write_handler ≡ Handler.terminal_wrong
    → write_fd (pos 0) n r ≡ some (minus_one, r)
unfolding write call_write
write-stdin n r wrong = ap (after_write r) (refused ((running (system r)).bitmap 0 == 0) refl)
  where
    refused :
        (b : Bool)
        → ((running (system r)).bitmap 0 == 0) ≡ b
        → write (pos 0) r.buf n (system r) ≡ some (minus_one, system r)
    refused true free = rw free refl
    refused false taken = rw (taken, wrong) refl

pub read-stdout :
    (e : Env) (n : ℕ) (r : Run)
    → ((running (system r)).file_array 1).read_handler ≡ Handler.terminal_wrong
    → read_fd e (pos 1) n r ≡ some (minus_one, r)
unfolding read call_read
read-stdout e n r wrong =
    ap (after_read r) (refused (((running (system r)).file_array 1).flag == 0) refl)
  where
    refused :
        (b : Bool)
        → (((running (system r)).file_array 1).flag == 0) ≡ b
        → read e.fuel e.stack (pos 1) r.buf n (system r) ≡ some (minus_one, r.buf, system r)
    refused true shut = rw shut refl
    refused false up = rw (up, wrong) refl

pub map_video-null : (e : Env) (r : Run) → map_video e 0 r ≡ some (minus_one, r)
unfolding vidmap
map_video-null e r = refl

pub map_video-kernel : (e : Env) (r : Run) → map_video e 0x400000 r ≡ some (minus_one, r)
unfolding vidmap
map_video-kernel e r = refl

pub open-missing :
    (e : Env) (name : List ℕ) (r : Run)
    → is_minus_one (read_dentry_by_name (system r).file_sys (nth name) e.stack).0 ≡ true
    → open_name e name r ≡ some (minus_one, r)
open-missing e name r missing =
    ap (λ x. after_write r (some x)) (open_missing (nth name) e.stack (system r) missing)
