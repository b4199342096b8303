-- ===== src/Programs/Syserr/Lots.antt =====
-- `err_open_lots`: all descriptors are opened and closed again.
use os.Prelude.{
  ℕ, zero, suc, ◌+◌, ◌≤◌, ◌≡◌, refl, arith, [], ◌∷◌, some, ℤ, ap, ◌∙◌, sym, if◌then◌else◌,
}
use mathlib.Core.Path.{subst}
use os.FileSys.{is_minus_one}
use os.Screen.{puts_scroll}
use os.Process.{Processes, fdesc_size}
use os.System.{System}
use os.Kernel.{nth, set_processes}
use os.Programs.Syserr.{
  Run, Env, set_system, err_open_lots, count_refused, close_each, close_lots, judge_lots,
}
use os.Programs.Syserr.Texts.{open_lots_pass, open_lots_fail}
use os.Programs.Syserr.Steps.{system, report_lem}
use os.Programs.Syserr.Slots.{Holding, HasNames, open_next, open_full, closed-Holding}

-- No descriptor but stdin and stdout is open, and the files are those that the tests count on.
pub record IsReady (e : Env) (s : System) : Type 0 where
  pub holding : Holding 2 2 s
  pub names : HasNames e.stack s.file_sys

pub Holding-same :
    (lo hi : ℕ) (s s' : System) → s'.processes ≡ s.processes → Holding lo hi s → Holding lo hi s'
Holding-same lo hi s s' same h =
    let at = λ (p : Processes). record s' { processes = p } in
    subst (λ p. Holding lo hi (at p)) (sym same)
      (record { prints = h.prints; stdin = h.stdin; stdout = h.stdout; slots = h.slots })

-- Calls of `open` until one fails.
count_refused_lem :
    (e : Env) (n hi cnt : ℕ) (r : Run)
    → Holding 2 hi (system r)
    → HasNames e.stack (system r).file_sys
    → 2 ≤ hi
    → hi ≤ fdesc_size
    → hi + n ≡ fdesc_size
    → (r' : Run) × (count_refused e (suc n) cnt r ≡ some (cnt + 1, r'))
      × Holding 2 fdesc_size (system r')
      × HasNames e.stack (system r').file_sys
      × ((system r').screen ≡ (system r).screen)
unfolding count_refused
count_refused_lem e zero hi cnt r h names low high all =
    let next = λ (m : ℕ) (x : ℤ × System).
      count_refused e m (if is_minus_one x.0 then cnt + 1 else cnt) (set_system x.1 r) in
    let full = subst (λ i. Holding 2 i (system r)) (omega (arith, all)) h in
    (r, ap (next zero) (open_full (nth (b'.' ∷ [])) e.stack (system r) full), full, names, refl)
count_refused_lem e (suc n) hi cnt r h names low high all =
    let next = λ (m : ℕ) (x : ℤ × System).
      count_refused e m (if is_minus_one x.0 then cnt + 1 else cnt) (set_system x.1 r) in
    let (s, runs, h', names', same) = open_next hi e.stack (system r) h names low (omega arith) in
    let (r', more, h'', names'', same') =
      count_refused_lem e n (hi + 1) cnt (set_system s r) h' names' (omega arith) (omega arith)
        (omega arith) in
    (r', ap (next (suc n)) runs ∙ more, h'', names'', same' ∙ same)

-- All that is open is closed.
close_each_lem :
    (n lo : ℕ) (r : Run)
    → Holding lo fdesc_size (system r)
    → 2 ≤ lo
    → lo + n ≡ fdesc_size
    → (r' : Run) × (close_each n lo r ≡ some r')
      × Holding fdesc_size fdesc_size (system r')
      × ((system r').file_sys ≡ (system r).file_sys)
      × ((system r').screen ≡ (system r).screen)
unfolding close_each
close_each_lem zero lo r h low all =
    (r, refl, subst (λ i. Holding i fdesc_size (system r)) (omega (arith, all)) h, refl, refl)
close_each_lem (suc n) lo r h low all =
    let (p, runs, h') = closed-Holding lo (system r) h low (omega arith) in
    let (r', more, h'', same, same') =
      close_each_lem n (lo + 1) (record r { kernel = set_processes p r.kernel }) h' (omega arith)
        (omega arith) in
    (r', rw runs more, h'', same, same')

-- Nothing is open.
none_open : (lo : ℕ) (s : System) → Holding fdesc_size fdesc_size s → Holding 2 2 s
none_open lo s h = record {
  prints = h.prints;
  stdin = h.stdin;
  stdout = h.stdout;
  slots = λ i low high. ground (arith, h.slots i low high);
}

pub err_open_lots_lem :
    (e : Env) (r : Run)
    → 100 ≤ e.fuel
    → IsReady e (system r)
    → (r' : Run) × (err_open_lots e r ≡ some (0, r'))
      × IsReady e (system r')
      × ((system r').screen ≡ puts_scroll open_lots_pass (system r).screen)
unfolding err_open_lots close_lots judge_lots
err_open_lots_lem e r enough ready =
    let (r1, opened, h1, names, same1) =
      count_refused_lem e 6 2 0 r ready.holding ready.names (omega arith) (omega arith) refl in
    let (r2, closed, h2, files, same2) = close_each_lem 6 2 r1 h1 (omega arith) refl in
    let h = none_open 2 (system r2) h2 in
    let (r', told, said) =
      report_lem e open_lots_pass open_lots_fail (record r2 { fail = 0 }) enough (omega arith)
        h.prints refl in
    (
      r',
      ap (close_lots e) opened ∙ ap (judge_lots e 1) closed ∙ told,
      record {
        holding = Holding-same 2 2 (system r2) (system r') said.processes h;
        names = subst (HasNames e.stack) (sym (said.file_sys ∙ files)) names;
      },
      said.screen ∙ ap (puts_scroll open_lots_pass) (same2 ∙ same1),
    )
