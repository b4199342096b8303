-- ===== src/Programs/Syserr.antt =====
-- syscalls/ece391syserr.c: the program that tries the errors of the system calls, and the test of
-- the number of a call in student-distrib/interrupt_service_wrapper.S.
pub mod Texts
pub mod Steps
pub mod Slots
pub mod Refusals
pub mod Lots
pub mod Passes
use os.Prelude.{
  ℕ, zero, suc, ◌+◌, ◌-◌, ◌*◌, ◌^◌, Bool, ◌||◌, Option, none, some, ◌==◌, leb, if◌then◌else◌, Bytes,
  List, [], ◌∷◌, ◌++◌, ℤ, pos, negsuc, minus_one,
}
use os.Strings.{strlen}
use os.FileSys.{Dentry, is_minus_one}
use os.Paging.{Layout, mb}
use os.Process.{close}
use os.System.{System, read, write}
use os.Kernel.{Kernel, nth, vidmap, set_processes}
use os.Programs.{open_call}
use os.Programs.Support.{fdputs}
use os.Programs.Syserr.Texts.*

-- The program while it runs: the kernel, what the buffer of `main` or of the running test holds, and
-- `fail` of that test.
pub record Run : Type 0 where
  pub kernel : Kernel
  pub buf : Bytes
  pub fail : ℕ

-- The fuel of the loops over strings, what the local `dentry_t` of the kernel held, the place of the page
-- tables, and what a call by a valid number does with the registers as they are.
pub record Env : Type 0 where
  pub fuel : ℕ
  pub stack : Dentry
  pub layout : Layout
  pub by_number : ℕ → Run → Option (ℤ × Run)

abbrev pub Call : Type 0
Call = Run → Option (ℤ × Run)

abbrev pub set_system : System → Run → Run
set_system s r = record r { kernel = record r.kernel { system = s } }

-- NEG_FD, and BIG_FD and BIG_NUM; NEG_NUM as a word.
abbrev pub neg_fd : ℤ
neg_fd = negsuc 1073741822

abbrev pub big_fd : ℕ
big_fd = 1073741823

abbrev pub neg_num : ℕ
neg_num = 3221225473

-- ece391_fdputs(1, text)
unfoldable pub say : Env → List ℕ → Run → Option Run
unfolding fdputs
say e text r = elim (fdputs e.fuel (nth text) r.kernel.system) [
  | none ↦ none
  | some s ↦ some (set_system s r)
]

-- What the program has when a call comes back.
abbrev pub after_read : Run → Option (ℤ × Bytes × System) → Option (ℤ × Run)
after_read r none = none
after_read r (some (result, buf, s)) = some (result, record (set_system s r) { buf = buf })

abbrev pub after_write : Run → Option (ℤ × System) → Option (ℤ × Run)
after_write r none = none
after_write r (some (result, s)) = some (result, set_system s r)

-- The system calls of the program.
abbrev pub read_fd : Env → ℤ → ℕ → Call
read_fd e fd n r = after_read r (read e.fuel e.stack fd r.buf n r.kernel.system)

abbrev pub write_fd : ℤ → ℕ → Call
write_fd fd n r = after_write r (write fd r.buf n r.kernel.system)

abbrev pub close_fd : ℤ → Call
close_fd fd r =
    let (result, p) = close fd r.kernel.system.processes in
    some (result, record r { kernel = set_processes p r.kernel })

abbrev pub open_name : Env → List ℕ → Call
open_name e name r = after_write r (some (open_call e.stack (nth name) r.kernel.system))

-- What `vidmap` stores at the pointer is left out.
abbrev pub map_video : Env → ℕ → Call
map_video e start_screen r =
    let (result, _, k) = vidmap e.layout start_screen r.kernel in
    some (result, record r { kernel = k })

-- The number of the last call, and one more.
abbrev pub syscall_num : ℕ
syscall_num = 9

-- From `syscall_asm`: a number that is none of a call gives -1.
abbrev pub syscall_asm : Env → ℕ → Call
syscall_asm e num r =
    if leb syscall_num num || num == 0 then some (minus_one, r) else e.by_number num r

abbrev pub call_sys : Env → ℕ → Call
call_sys e num = syscall_asm e num

-- A call that has to fail, and what the program says if it does not.
abbrev pub Check : Type 0
Check = Call × List ℕ

-- if (-1 != call()) { fail = 2; ece391_fdputs(1, text); }
unfoldable pub expect : Env → Check → Run → Option Run
unfolding say
expect e (call, text) r = elim (call r) [
  | none ↦ none
  | some (result, r') ↦
      let told = say e text (record r' { fail = 2 }) in
      if is_minus_one result then some r' else told
]

unfoldable pub run_checks : Env → List Check → Run → Option Run
unfolding expect
run_checks e [] r = some r
run_checks e (check ∷ checks) r = elim (expect e check r) [
  | none ↦ none
  | some r' ↦ run_checks e checks r'
]

-- The end of a test: its verdict and its result.
unfoldable pub report : Env → List ℕ → List ℕ → Run → Option (ℕ × Run)
unfolding say
report e pass_text fail_text r = elim (say e (if r.fail == 0 then pass_text else fail_text) r) [
  | none ↦ none
  | some r' ↦ some (r.fail, r')
]

-- A test that consists of checks.
unfoldable pub test : Env → List Check → List ℕ → List ℕ → Run → Option (ℕ × Run)
unfolding run_checks report
test e checks pass_text fail_text r = elim (run_checks e checks (record r { fail = 0 })) [
  | none ↦ none
  | some r' ↦ report e pass_text fail_text r'
]

abbrev pub err_neg_fd : Env → Run → Option (ℕ × Run)
err_neg_fd e =
    test e
      ((read_fd e neg_fd 31, read_fail)
        ∷ (write_fd neg_fd 31, write_fail)
        ∷ (close_fd neg_fd, close_fail)
        ∷ [])
      neg_fd_pass neg_fd_fail

abbrev pub err_big_fd : Env → Run → Option (ℕ × Run)
err_big_fd e =
    test e
      ((read_fd e (pos big_fd) 31, read_fail)
        ∷ (write_fd (pos big_fd) 31, write_fail)
        ∷ (close_fd (pos big_fd), close_fail)
        ∷ [])
      big_fd_pass big_fd_fail

-- The first loop of `err_open_lots`, with `n` left: how many calls have failed.
unfoldable pub count_refused : Env → ℕ → ℕ → Run → Option (ℕ × Run)
count_refused e zero cnt r = some (cnt, r)
count_refused e (suc n) cnt r = elim (open_name e (b'.' ∷ []) r) [
  | none ↦ none
  | some (fd, r') ↦ count_refused e n (if is_minus_one fd then cnt + 1 else cnt) r'
]

-- The second loop, at `i` with `n` left.
unfoldable pub close_each : ℕ → ℕ → Run → Option Run
close_each zero i r = some r
close_each (suc n) i r = elim (close_fd (pos i) r) [
  | none ↦ none
  | some (_, r') ↦ close_each n (i + 1) r'
]

-- The verdict on the count, and what goes before it.
unfoldable pub judge_lots : Env → ℕ → Option Run → Option (ℕ × Run)
unfolding report
judge_lots e cnt none = none
judge_lots e cnt (some r) =
    report e open_lots_pass open_lots_fail (record r { fail = if cnt == 1 then 0 else 2 })

unfoldable pub close_lots : Env → Option (ℕ × Run) → Option (ℕ × Run)
unfolding judge_lots close_each
close_lots e none = none
close_lots e (some (cnt, r)) = judge_lots e cnt (close_each 6 2 r)

unfoldable pub err_open_lots : Env → Run → Option (ℕ × Run)
unfolding count_refused close_lots
err_open_lots e r = close_lots e (count_refused e 7 0 r)

-- "helloo", "shel" and ""
abbrev pub helloo : List ℕ
helloo = b'h' ∷ b'e' ∷ b'l' ∷ b'l' ∷ b'o' ∷ b'o' ∷ []

abbrev pub shel : List ℕ
shel = b's' ∷ b'h' ∷ b'e' ∷ b'l' ∷ []

abbrev pub err_open : Env → Run → Option (ℕ × Run)
err_open e =
    test e
      ((open_name e helloo, helloo_fail)
        ∷ (open_name e shel, shel_fail)
        ∷ (open_name e [], empty_fail)
        ∷ [])
      open_pass open_fail

-- A loop whose body is a check, at `i` with `n` left.
abbrev pub checks_from : ℕ → ℕ → (ℕ → Call) → List ℕ → List Check
checks_from zero i call text = []
checks_from (suc n) i call text = (call i, text) ∷ checks_from n (i + 1) call text

abbrev pub err_unopened : Env → Run → Option (ℕ × Run)
err_unopened e =
    test e
      (checks_from 8 0 (λ i. close_fd (pos i)) close_unopened
        ++ (checks_from 6 2 (λ i. read_fd e (pos i) 31) read_unopened
            ++ checks_from 6 2 (λ i. write_fd (pos i) 31) write_unopened))
      unopened_pass unopened_fail

abbrev pub err_vidmap : Env → Run → Option (ℕ × Run)
err_vidmap e =
    test e ((map_video e 0, null_fail) ∷ (map_video e 0x400000, kernel_fail) ∷ []) vidmap_pass
      vidmap_fail

abbrev pub err_stdin_out : Env → Run → Option (ℕ × Run)
err_stdin_out e =
    test e ((write_fd (pos 0) 31, stdin_fail) ∷ (read_fd e (pos 1) 31, stdout_fail) ∷ [])
      stdin_out_pass stdin_out_fail

abbrev pub err_syscall_num : Env → Run → Option (ℕ × Run)
err_syscall_num e =
    test e
      ((call_sys e big_fd, number_0_fail)
        ∷ (call_sys e neg_num, big_number_fail)
        ∷ (call_sys e 0, neg_number_fail)
        ∷ [])
      syscall_num_pass syscall_num_fail

-- The tests in turn, with the sum of their results so far.
unfoldable pub in_turn : List (Run → Option (ℕ × Run)) → ℕ → Run → Option (ℕ × Run)
in_turn [] total r = some (total, r)
in_turn (t ∷ ts) total r = elim (t r) [ none ↦ none | some (n, r') ↦ in_turn ts (total + n) r' ]

abbrev pub all_tests : Env → List (Run → Option (ℕ × Run))
all_tests e =
    err_neg_fd e
    ∷ err_big_fd e
    ∷ err_open_lots e
    ∷ err_open e
    ∷ err_unopened e
    ∷ err_vidmap e
    ∷ err_stdin_out e
    ∷ err_syscall_num e
    ∷ []

unfoldable pub judge_all : Env → Option (ℕ × Run) → Option (ℕ × Run)
unfolding say
judge_all e none = none
judge_all e (some (total, r)) = elim (say e (if total == 0 then overall_pass else overall_fail) r) [
  | none ↦ none
  | some r' ↦ some (total, r')
]

-- case 0
unfoldable pub run_all : Env → Run → Option (ℕ × Run)
unfolding in_turn judge_all err_open_lots
run_all e r = judge_all e (in_turn (all_tests e) 0 r)

-- The other cases: the test of that number, from 1.
unfoldable pub run_one : Env → List (Run → Option (ℕ × Run)) → ℕ → Run → Option (ℕ × Run)
unfolding say
run_one e [] n r = elim (say e invalid_test r) [ none ↦ none | some r' ↦ some (0, r') ]
run_one e (t ∷ ts) zero r = t r
run_one e (t ∷ ts) (suc n) r = run_one e ts n r

-- `main`; a first character before '0' is no test either.
unfoldable pub syserr : Env → Run → Option (ℕ × Run)
unfolding say run_all run_one err_open_lots
syserr e r = elim (say e prompt_text r) [
  | none ↦ none
  | some r1 ↦ elim (read_fd e (pos 0) 127 r1) [
    | none ↦ none
    | some (cnt, r2) ↦
        let c = r2.buf 0 in
        let one = run_one e (if leb b'0' c then all_tests e else []) (c - b'1') r2 in
        let unread = elim (say e cannot_read r2) as (λ _. Option (ℕ × Run)) [
          | none ↦ none
          | some r3 ↦ some (2, r3)
        ] in
        if is_minus_one cnt then unread else if c == b'0' then run_all e r2 else one
  ]
]
