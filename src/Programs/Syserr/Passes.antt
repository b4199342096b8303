-- ===== src/Programs/Syserr/Passes.antt =====
-- The program's tests on this kernel.
use os.Prelude.{
  ℕ, zero, suc, ◌+◌, ◌<◌, ◌≤◌, ◌≡◌, inl, inr, refl, arith, List, [], ◌∷◌, ◌++◌, Option, none, some,
  pos, minus_one, ap, ◌∙◌, sym,
}
use mathlib.Core.Path.{subst}
use os.Screen.{puts_scroll}
use os.Programs.Calls.{puts_scroll-append}
use os.Programs.Syserr.{
  Run, Env, Call, Check, test, read_fd, write_fd, close_fd, big_fd, err_neg_fd, err_big_fd,
  err_open_lots, err_open, err_unopened, err_vidmap, err_stdin_out, err_syscall_num, checks_from,
  in_turn, run_all, judge_all, helloo, shel,
}
use os.Programs.Syserr.Texts.{
  neg_fd_pass, neg_fd_fail, big_fd_pass, big_fd_fail, open_lots_pass, open_pass, open_fail,
  unopened_pass, unopened_fail, vidmap_pass, vidmap_fail, stdin_out_pass, stdin_out_fail,
  syscall_num_pass, syscall_num_fail, overall_pass, close_unopened, read_unopened, write_unopened,
}
use os.Programs.Support.Texts.{IsText}
use os.Programs.Syserr.Steps.{system, say_lem, AllFail, AllFail-append, test_lem}
use os.Programs.Syserr.Slots.{HasNames}
use os.Programs.Syserr.Refusals.{
  write-closed, read-closed, close-closed, read-neg, write-neg, close-neg, write-stdin, read-stdout,
  map_video-null, map_video-kernel, open-missing,
}
use os.Programs.Syserr.Lots.{IsReady, Holding-same, err_open_lots_lem}

-- A test that passes: its verdict is on the screen, and the next test can begin.
abbrev pub Passes : Env → (Run → Option (ℕ × Run)) → List ℕ → Run → Type 0
Passes e t text r =
    (r' : Run) × (t r ≡ some (0, r'))
    × IsReady e (system r')
    × ((system r').screen ≡ puts_scroll text (system r).screen)

module _ (e : Env) (r : Run) (enough : 100 ≤ e.fuel) (ready : IsReady e (system r)) where
  r0 : Run
  r0 = record r { fail = 0 }

  checks_pass :
      (checks : List Check) (pass_text fail_text : List ℕ)
      → IsText pass_text
      → AllFail checks r0
      → Passes e (test e checks pass_text fail_text) pass_text r
  unfolding r0
  checks_pass checks pass_text fail_text text fails =
      let (r', runs, said) =
        test_lem e checks pass_text fail_text r enough text ready.holding.prints fails in
      (
        r',
        runs,
        record {
          holding = Holding-same 2 2 (system r) (system r') said.processes ready.holding;
          names = subst (HasNames e.stack) (sym said.file_sys) ready.names;
        },
        said.screen,
      )

  neg_fd-Passes : Passes e (err_neg_fd e) neg_fd_pass r
  unfolding r0
  neg_fd-Passes =
      checks_pass _ neg_fd_pass neg_fd_fail (omega arith)
        (read-neg e 31 r0, (write-neg 31 r0, (close-neg r0, tt)))

  big_fd-Passes : Passes e (err_big_fd e) big_fd_pass r
  unfolding r0
  big_fd-Passes = checks_pass _ big_fd_pass big_fd_fail (omega arith) (
    read-closed big_fd r0 e 31 (inl (omega arith)),
    (
      write-closed big_fd r0 31 (inl (omega arith)),
      (close-closed big_fd r0 (inr (inl (omega arith))), tt),
    ),
  )

  open-Passes : Passes e (err_open e) open_pass r
  unfolding r0
  open-Passes = checks_pass _ open_pass open_fail (omega arith) (
    open-missing e helloo r0 ready.names.no_helloo,
    (open-missing e shel r0 ready.names.no_shel, (open-missing e [] r0 ready.names.no_empty, tt)),
  )

  vidmap-Passes : Passes e (err_vidmap e) vidmap_pass r
  unfolding r0
  vidmap-Passes =
      checks_pass _ vidmap_pass vidmap_fail (omega arith)
        (map_video-null e r0, (map_video-kernel e r0, tt))

  stdin_out-Passes : Passes e (err_stdin_out e) stdin_out_pass r
  unfolding r0
  stdin_out-Passes =
      checks_pass _ stdin_out_pass stdin_out_fail (omega arith)
        (write-stdin 31 r0 ready.holding.stdin, (read-stdout e 31 r0 ready.holding.stdout, tt))

  syscall_num-Passes : Passes e (err_syscall_num e) syscall_num_pass r
  unfolding r0
  syscall_num-Passes =
      checks_pass _ syscall_num_pass syscall_num_fail (omega arith) (refl, (refl, (refl, tt)))

  -- The loops of `err_unopened`.
  loop-AllFail :
      (n i : ℕ) (call : ℕ → Call) (text : List ℕ)
      → ((k : ℕ) → i ≤ k → k < i + n → call k r0 ≡ some (minus_one, r0))
      → AllFail (checks_from n i call text) r0
  loop-AllFail zero i call text fails = tt
  loop-AllFail (suc n) i call text fails = (
    fails i (omega arith) (omega arith),
    loop-AllFail n (i + 1) call text (λ k low high. fails k (omega arith) (omega arith)),
  )

  unopened-Passes : Passes e (err_unopened e) unopened_pass r
  unfolding r0
  unopened-Passes =
      let slot = ready.holding.slots in
      let reads = checks_from 6 2 (λ i. read_fd e (pos i) 31) read_unopened in
      let writes = checks_from 6 2 (λ i. write_fd (pos i) 31) write_unopened in
      checks_pass _ unopened_pass unopened_fail (omega arith) (
        AllFail-append (checks_from 8 0 (λ i. close_fd (pos i)) close_unopened) (reads ++ writes) r0
          (loop-AllFail 8 0 (λ i. close_fd (pos i)) close_unopened
            (λ k low high. close-closed k r0 (ground (arith, slot k))))
          (AllFail-append (checks_from 6 2 (λ i. read_fd e (pos i) 31) read_unopened) writes r0
            (loop-AllFail 6 2 (λ i. read_fd e (pos i) 31) read_unopened
              (λ k low high. read-closed k r0 e 31 (inr (ground (arith, slot k low high)))))
            (loop-AllFail 6 2 (λ i. write_fd (pos i) 31) write_unopened
              (λ k low high. write-closed k r0 31 (inr (ground (arith, slot k low high)))))))

-- Tests with the texts of their verdicts.
abbrev Suite : Type 0
Suite = List ((Run → Option (ℕ × Run)) × List ℕ)

abbrev tests_of : Suite → List (Run → Option (ℕ × Run))
tests_of [] = []
tests_of ((t, text) ∷ suite) = t ∷ tests_of suite

abbrev pub texts_of : Suite → List ℕ
texts_of [] = []
texts_of ((t, text) ∷ suite) = text ++ texts_of suite

abbrev AllPass : Env → Suite → Type 0
AllPass e [] = Unit {0}
AllPass e ((t, text) ∷ suite) =
    ((r : Run) → IsReady e (system r) → Passes e t text r) × AllPass e suite

in_turn_lem :
    (e : Env) (suite : Suite) (r : Run)
    → AllPass e suite
    → IsReady e (system r)
    → Passes e (in_turn (tests_of suite) 0) (texts_of suite) r
unfolding in_turn puts_scroll
in_turn_lem e [] r pass ready = (r, refl, ready, refl)
in_turn_lem e ((t, text) ∷ suite) r (one, more) ready =
    let (r1, runs, ready1, shown) = one r ready in
    let (r2, rest, ready2, shown2) = in_turn_lem e suite r1 more ready1 in
    (
      r2,
      rw runs rest,
      ready2,
      shown2
          ∙ ap (puts_scroll (texts_of suite)) shown
          ∙ sym (puts_scroll-append text (texts_of suite) (system r).screen),
    )

abbrev pub the_suite : Env → Suite
the_suite e =
    (err_neg_fd e, neg_fd_pass)
    ∷ (err_big_fd e, big_fd_pass)
    ∷ (err_open_lots e, open_lots_pass)
    ∷ (err_open e, open_pass)
    ∷ (err_unopened e, unopened_pass)
    ∷ (err_vidmap e, vidmap_pass)
    ∷ (err_stdin_out e, stdin_out_pass)
    ∷ (err_syscall_num e, syscall_num_pass)
    ∷ []

-- What the program prints on this kernel.
abbrev pub transcript : Env → List ℕ
transcript e = texts_of (the_suite e)

the_suite-AllPass : (e : Env) → 100 ≤ e.fuel → AllPass e (the_suite e)
the_suite-AllPass e enough = (
  (λ r h. neg_fd-Passes e r enough h),
  (
    (λ r h. big_fd-Passes e r enough h),
    (
      (λ r h. err_open_lots_lem e r enough h),
      (
        (λ r h. open-Passes e r enough h),
        (
          (λ r h. unopened-Passes e r enough h),
          (
            (λ r h. vidmap-Passes e r enough h),
            (
              (λ r h. stdin_out-Passes e r enough h),
              ((λ r h. syscall_num-Passes e r enough h), tt),
            ),
          ),
        ),
      ),
    ),
  ),
)

-- The kernel passes all tests of the program: when 0 is chosen, each of the eight tests prints that it
-- passes, then the overall verdict is printed, and the result is 0. At the start the process has no
-- descriptor open but stdin and stdout, and the file system has the directory "." and none of the names
-- "helloo", "shel" and "". Afterwards the descriptors and the files are so again. A fuel of 100 is enough.
pub run_all_lem :
    (e : Env) (r : Run)
    → 100 ≤ e.fuel
    → IsReady e (system r)
    → Passes e (run_all e) (transcript e ++ overall_pass) r
unfolding run_all judge_all
run_all_lem e r enough ready =
    let (r1, runs, ready', shown) =
      in_turn_lem e (the_suite e) r (the_suite-AllPass e enough) ready in
    let (r2, told, said) = say_lem e overall_pass r1 enough (omega arith) ready'.holding.prints in
    (
      r2,
      ap (judge_all e) runs ∙ ap (finish 0) told,
      record {
        holding = Holding-same 2 2 (system r1) (system r2) said.processes ready'.holding;
        names = subst (HasNames e.stack) (sym said.file_sys) ready'.names;
      },
      said.screen
          ∙ ap (puts_scroll overall_pass) shown
          ∙ sym (puts_scroll-append (transcript e) overall_pass (system r).screen),
    )
  where
    finish : ℕ → Option Run → Option (ℕ × Run)
    finish total none = none
    finish total (some r') = some (total, r')
