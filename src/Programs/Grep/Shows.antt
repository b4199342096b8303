-- ===== src/Programs/Grep/Shows.antt =====
-- What grep prints for the lines that are in its buffer.
use os.Prelude.{
  ℕ, ◌+◌, ◌<◌, ◌≤◌, ◌≡◌, ◌≢◌, refl, arith, Bytes, List, [], ◌∷◌, ◌++◌, some, ap, sym, ◌∙◌,
}
use os.Strings.Chars.{length}
use os.Screen.{puts_scroll}
use os.Keyboard.{read_out, print_lim}
use os.Command.Args.{NoNul}
use os.Kernel.{nth}
use os.System.{System}
use os.Programs.Calls.{Prints, printed, printed_lem, puts_scroll-append}
use os.Programs.Support.{fdputs}
use os.Programs.Support.Texts.{
  HoldsString, HoldsString-rest, HoldsString-here, IsString, IsString-start, strlen-IsString,
}
use os.Programs.Grep.{Job, print_line, colon, line_feed}

-- `s'` is `s` after `text` has been printed.
pub record Shown (text : List ℕ) (s s' : System) : Type 0 where
  pub processes : s'.processes ≡ s.processes
  pub file_sys : s'.file_sys ≡ s.file_sys
  pub screen : s'.screen ≡ puts_scroll text s.screen

pub Shown-trans :
    (text text' : List ℕ) (s s' s'' : System)
    → Shown text s s'
    → Shown text' s' s''
    → Shown (text ++ text') s s''
Shown-trans text text' s s' s'' one two = record {
  processes = two.processes ∙ one.processes;
  file_sys = two.file_sys ∙ one.file_sys;
  screen =
      two.screen ∙ ap (puts_scroll text') one.screen ∙ sym (puts_scroll-append text text' s.screen);
}

pub Prints-Shown : (text : List ℕ) (s s' : System) → Shown text s s' → Prints s → Prints s'
Prints-Shown text s s' one (taken, handler) = (
  λ e. taken (ap (λ p. (p.pcb p.curr).bitmap 1) (sym one.processes) ∙ e),
  ap (λ p. ((p.pcb p.curr).file_array 1).write_handler) one.processes ∙ handler,
)

read_out-IsString :
    (cs : List ℕ) (i : ℕ) (m : Bytes) → HoldsString cs i m → read_out (length cs) i m ≡ cs
unfolding read_out
read_out-IsString [] i m holds = refl
read_out-IsString (c ∷ cs) i m holds =
    let first = HoldsString-here (c ∷ cs) i m holds in
    let rest = read_out-IsString cs (i + 1) m (HoldsString-rest c cs i m holds) in
    rw (first, rest) refl

-- A string in memory is printed.
fdputs-Shown :
    (fuel : ℕ) (cs : List ℕ) (m : Bytes) (s : System)
    → length cs < fuel
    → length cs < print_lim
    → NoNul cs
    → IsString cs m
    → Prints s
    → (s' : System) × (fdputs fuel m s ≡ some s') × Shown cs s s'
unfolding fdputs
fdputs-Shown fuel cs m s enough short clean holds prints =
    let (written, shown) = printed_lem m (length cs) s prints short in
    (
      printed m (length cs) s,
      rw (strlen-IsString fuel cs m enough clean holds, written, fdputs) refl,
      record {
        processes = refl;
        file_sys = refl;
        screen =
            shown
            ∙ ap (λ ds. puts_scroll ds s.screen)
                (read_out-IsString cs 0 m (IsString-start cs m holds));
      },
    )

-- A string that can be printed.
pub record Printable (fuel : ℕ) (cs : List ℕ) : Type 0 where
  pub enough : length cs < fuel
  pub short : length cs < print_lim
  pub clean : NoNul cs

-- What stands on the screen for a line in which the string is found.
abbrev pub found_line : List ℕ → List ℕ → List ℕ
found_line name line = name ++ (b':' ∷ (line ++ (b'\n' ∷ [])))

pub print_line_lem :
    (name line : List ℕ) (job : Job) (m : Bytes) (s : System)
    → 2 ≤ job.fuel
    → Printable job.fuel name
    → Printable job.fuel line
    → IsString name job.fname
    → IsString line m
    → Prints s
    → (s' : System) × (print_line job m s ≡ some s') × Shown (found_line name line) s s'
unfolding print_line
print_line_lem name line job m s enough n l h1 h2 prints =
    let one_char : (c : ℕ) → c ≢ 0 → NoNul (c ∷ []) = λ c e. (e, tt) in
    let (s1, e1, d1) = fdputs-Shown job.fuel name job.fname s n.enough n.short n.clean h1 prints in
    let p1 = Prints-Shown name s s1 d1 prints in
    let (s2, e2, d2) =
      fdputs-Shown job.fuel colon (nth colon) s1 (omega arith) (omega arith)
        (one_char b':' (λ e. omega arith)) (λ k low. refl) p1 in
    let p2 = Prints-Shown colon s1 s2 d2 p1 in
    let (s3, e3, d3) = fdputs-Shown job.fuel line m s2 l.enough l.short l.clean h2 p2 in
    let p3 = Prints-Shown line s2 s3 d3 p2 in
    let (s4, e4, d4) =
      fdputs-Shown job.fuel line_feed (nth line_feed) s3 (omega arith) (omega arith)
        (one_char b'\n' (λ e. omega arith)) (λ k low. refl) p3 in
    let end = Shown-trans line line_feed s2 s3 s4 d3 d4 in
    let most = Shown-trans colon (line ++ line_feed) s1 s2 s4 d2 end in
    (s4, rw (e1, e2, e3, e4, print_line) refl, Shown-trans name _ s s1 s4 d1 most)
