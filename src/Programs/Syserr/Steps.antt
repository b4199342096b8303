-- ===== src/Programs/Syserr/Steps.antt =====
-- The steps of the program: what it says, and calls that fail as they should.
use os.Prelude.{
  ℕ, ◌≤◌, ◌≡◌, refl, arith, List, [], ◌∷◌, ◌++◌, some, true, minus_one, ap, ◌∙◌, if◌then◌else◌,
  ◌==◌, none, Option,
}
use os.Strings.Chars.{length}
use os.Screen.{puts_scroll}
use os.System.{System}
use os.Kernel.{nth}
use os.Programs.Calls.{Prints, printed, printed_lem}
use os.Programs.Support.Texts.{IsText, read_out-nth, fdputs_lem}
use os.Programs.Syserr.{Run, Env, Check, say, expect, run_checks, report, test, set_system}

abbrev pub system : Run → System
system r = r.kernel.system

-- `r'` is `r` after `text` has been printed: the processes and the files are the same.
pub record Said (text : List ℕ) (r r' : Run) : Type 0 where
  pub processes : (system r').processes ≡ (system r).processes
  pub file_sys : (system r').file_sys ≡ (system r).file_sys
  pub screen : (system r').screen ≡ puts_scroll text (system r).screen
  pub fail : r'.fail ≡ r.fail

pub say_lem :
    (e : Env) (text : List ℕ) (r : Run)
    → 100 ≤ e.fuel
    → IsText text
    → Prints (system r)
    → (r' : Run) × (say e text r ≡ some r') × Said text r r'
unfolding say
say_lem e text r enough is_text prints =
    let n = length text in
    let told = fdputs_lem e.fuel text (system r) enough is_text prints in
    let shown = (printed_lem (nth text) n (system r) prints (omega (arith, is_text.1))).1 in
    let plain = read_out-nth text 0 (nth text) (λ k. ap (nth text) (omega arith)) in
    (
      set_system (printed (nth text) n (system r)) r,
      rw (told, say) refl,
      record {
        processes = refl;
        file_sys = refl;
        screen = shown ∙ ap (λ cs. puts_scroll cs (system r).screen) plain;
        fail = refl;
      },
    )

-- Every call of the checks fails and changes nothing.
abbrev pub AllFail : List Check → Run → Type 0
AllFail [] r = Unit {0}
AllFail ((call, text) ∷ checks) r = (call r ≡ some (minus_one, r)) × AllFail checks r

pub AllFail-append :
    (xs ys : List Check) (r : Run) → AllFail xs r → AllFail ys r → AllFail (xs ++ ys) r
AllFail-append [] ys r left right = right
AllFail-append ((call, text) ∷ xs) ys r (one, left) right = (one, AllFail-append xs ys r left right)

run_checks-AllFail :
    (e : Env) (checks : List Check) (r : Run) → AllFail checks r → run_checks e checks r ≡ some r
unfolding run_checks expect
run_checks-AllFail e [] r fails = refl
run_checks-AllFail e ((call, text) ∷ checks) r (fails, more) =
    rw (fails, run_checks) (run_checks-AllFail e checks r more)

pub report_lem :
    (e : Env) (pass_text fail_text : List ℕ) (r : Run)
    → 100 ≤ e.fuel
    → IsText pass_text
    → Prints (system r)
    → r.fail ≡ 0
    → (r' : Run) × (report e pass_text fail_text r ≡ some (0, r')) × Said pass_text r r'
unfolding report
report_lem e pass_text fail_text r enough text prints none_failed =
    let (r', told, said) = say_lem e pass_text r enough text prints in
    let passed : (r.fail == 0) ≡ true = ground arith in
    let verdict : say e (if r.fail == 0 then pass_text else fail_text) r ≡ some r' =
      rw passed told in
    (r', ap finish verdict ∙ ap (λ n. some (n, r')) none_failed, said)
  where
    finish : Option Run → Option (ℕ × Run)
    finish none = none
    finish (some r') = some (r.fail, r')

-- A test whose calls all fail passes.
pub test_lem :
    (e : Env) (checks : List Check) (pass_text fail_text : List ℕ) (r : Run)
    → 100 ≤ e.fuel
    → IsText pass_text
    → Prints (system r)
    → AllFail checks (record r { fail = 0 })
    → (r' : Run) × (test e checks pass_text fail_text r ≡ some (0, r'))
      × Said pass_text (record r { fail = 0 }) r'
unfolding test
test_lem e checks pass_text fail_text r enough text prints fails =
    let r0 = record r { fail = 0 } in
    let (r', told, said) = report_lem e pass_text fail_text r0 enough text prints refl in
    (r', rw (run_checks-AllFail e checks r0 fails, test) told, said)
