-- ===== src/Entry/Printing.antt =====
-- The calls of `printf` in `entry` come to an end.
use os.Prelude.{ℕ, ◌+◌, ◌<◌, ◌≤◌, ◌≡◌, refl, arith, List, [], ◌∷◌, ◌++◌, some, Bytes, ap, ◌∙◌, sym}
use native.Mathlib.Numerals.{unary_clauses}
use os.Strings.Chars.{length}
use os.Screen.{Screen}
use os.Kernel.{nth}
use os.Printf.{literal}
use os.Printf.Digits.{put_all}
use os.Printf.Pieces.{
  Piece, plain, percent, hex, hex8, unsigned, signed, character, string, spelling, StandsAt,
}
use os.Printf.Formats.{printf_lem, FormatAt, ArgsAt, AllFit, AllPrint, put_all-append}
use os.Entry.Report.{Build, format_of, args_of, print, print_all}

-- The memory is the literal from an address on.
abbrev Holds : ℕ → List ℕ → Bytes → Bytes → Type 0
Holds at cs mem mem' = (i : ℕ) → at ≤ i → mem' i ≡ literal at cs mem i

literal-StandsAt :
    (cs rest : List ℕ) (at : ℕ) (mem mem' : Bytes)
    → Holds at (cs ++ rest) mem mem'
    → StandsAt at cs mem' × Holds (at + length cs) rest mem mem'
literal-StandsAt [] rest at mem mem' same =
    let e : at + 0 ≡ at = omega arith in
    (tt, λ i high. same i (omega arith) ∙ ap (λ a. literal a rest mem i) (omega arith))
literal-StandsAt (c ∷ cs) rest at mem mem' same =
    let (stands, more) =
      literal-StandsAt cs rest (at + 1) mem mem' (λ i high. same i (omega arith) ∙ ground arith) in
    (
      (same at (omega arith) ∙ ground arith, stands),
      λ i high. more i (omega arith) ∙ ap (λ a. literal a rest mem i) (omega arith),
    )

literal-FormatAt :
    (ps : List Piece) (at : ℕ) (mem mem' : Bytes)
    → Holds at (format_of ps) mem mem'
    → FormatAt at ps mem'
literal-FormatAt [] at mem mem' same = same at (omega arith) ∙ ground arith
literal-FormatAt (p ∷ ps) at mem mem' same =
    let (stands, more) = literal-StandsAt (spelling p) (format_of ps) at mem mem' same in
    (stands, literal-FormatAt ps (at + length (spelling p)) mem mem' more)

args-ArgsAt :
    (ps : List Piece) (esp : ℕ → ℕ) → ((i : ℕ) → esp i ≡ nth (args_of ps) i) → ArgsAt ps esp
args-ArgsAt [] esp same = tt
args-ArgsAt (plain c ∷ ps) esp same = (tt, args-ArgsAt ps esp same)
args-ArgsAt (percent ∷ ps) esp same = (tt, args-ArgsAt ps esp same)
args-ArgsAt (hex v ∷ ps) esp same =
    ((same 0, tt), args-ArgsAt ps (λ i. esp (i + 1)) (λ i. same (i + 1) ∙ simp unary_clauses refl))
args-ArgsAt (hex8 v ∷ ps) esp same =
    ((same 0, tt), args-ArgsAt ps (λ i. esp (i + 1)) (λ i. same (i + 1) ∙ simp unary_clauses refl))
args-ArgsAt (unsigned v ∷ ps) esp same =
    ((same 0, tt), args-ArgsAt ps (λ i. esp (i + 1)) (λ i. same (i + 1) ∙ simp unary_clauses refl))
args-ArgsAt (signed v ∷ ps) esp same =
    ((same 0, tt), args-ArgsAt ps (λ i. esp (i + 1)) (λ i. same (i + 1) ∙ simp unary_clauses refl))
args-ArgsAt (character c ∷ ps) esp same =
    ((same 0, tt), args-ArgsAt ps (λ i. esp (i + 1)) (λ i. same (i + 1) ∙ simp unary_clauses refl))
args-ArgsAt (string p n ∷ ps) esp same =
    ((same 0, tt), args-ArgsAt ps (λ i. esp (i + 1)) (λ i. same (i + 1) ∙ simp unary_clauses refl))

-- What a line needs to be printed.
abbrev pub Ready : Build → Bytes → List Piece → Type 0
Ready b mem ps = (length ps < 100) × AllFit b.fuel (literal b.literal_addr (format_of ps) mem) ps

abbrev pub AllReady : Build → Bytes → List (List Piece) → Type 0
AllReady b mem [] = Unit {0}
AllReady b mem (line ∷ lines) = Ready b mem line × AllReady b mem lines

pub print-ends :
    (b : Build) (mem : Bytes) (ps : List Piece) (s : Screen)
    → 100 ≤ b.fuel
    → Ready b mem ps
    → (text : List ℕ) × AllPrint (literal b.literal_addr (format_of ps) mem) ps text
      × (print b mem ps s ≡ some (put_all text s))
unfolding print
print-ends b mem ps s enough (short, fits) =
    let mem' = literal b.literal_addr (format_of ps) mem in
    let (text, shows, runs) =
      printf_lem ps b.fuel b.conv_buf mem' b.literal_addr (nth (args_of ps)) s (omega arith)
        (omega arith) fits (literal-FormatAt ps b.literal_addr mem mem' (λ i high. refl))
        (args-ArgsAt ps (nth (args_of ps)) (λ i. refl)) in
    (text, shows, rw (runs, print) refl)

-- The text of the lines, one after the other.
abbrev pub AllShow : Build → Bytes → List (List Piece) → List ℕ → Type 0
AllShow b mem [] text = text ≡ []
AllShow b mem (line ∷ lines) text =
    (first : List ℕ) × (rest : List ℕ) × AllPrint (literal b.literal_addr (format_of line) mem) line
      first
    × AllShow b mem lines rest
    × (text ≡ first ++ rest)

pub print_all-ends :
    (b : Build) (mem : Bytes) (lines : List (List Piece)) (s : Screen)
    → 100 ≤ b.fuel
    → AllReady b mem lines
    → (text : List ℕ) × AllShow b mem lines text × (print_all b mem lines s ≡ some (put_all text s))
unfolding print_all
print_all-ends b mem [] s enough ready = ([], refl, refl)
print_all-ends b mem (line ∷ lines) s enough (ready, more) =
    let (first, shows, e1) = print-ends b mem line s enough ready in
    let (rest, others, e2) = print_all-ends b mem lines (put_all first s) enough more in
    (
      first ++ rest,
      (first, rest, shows, others, refl),
      rw (e1, print_all) (e2 ∙ ap some (sym (put_all-append first rest s))),
    )

pub append_none : (xs : List ℕ) → xs ++ [] ≡ xs
append_none [] = refl
append_none (x ∷ xs) = ap (λ r. x ∷ r) (append_none xs)

append_assoc : (xs ys zs : List ℕ) → (xs ++ ys) ++ zs ≡ xs ++ (ys ++ zs)
append_assoc [] ys zs = refl
append_assoc (x ∷ xs) ys zs = ap (λ r. x ∷ r) (append_assoc xs ys zs)

-- The text of lines in two parts.
pub AllShow-append :
    (b : Build) (mem : Bytes) (xs ys : List (List Piece)) (text : List ℕ)
    → AllShow b mem (xs ++ ys) text
    → (first : List ℕ) × (rest : List ℕ) × AllShow b mem xs first
      × AllShow b mem ys rest
      × (text ≡ first ++ rest)
AllShow-append b mem [] ys text shown = ([], text, refl, shown, refl)
AllShow-append b mem (x ∷ xs) ys text (head, tail, prints, more, e) =
    let (first, rest, left, right, e') = AllShow-append b mem xs ys tail more in
    (
      head ++ first,
      rest,
      (head, first, prints, left, refl),
      right,
      e ∙ ap (λ r. head ++ r) e' ∙ sym (append_assoc head first rest),
    )

pub AllReady-append :
    (b : Build) (mem : Bytes) (xs ys : List (List Piece))
    → AllReady b mem xs
    → AllReady b mem ys
    → AllReady b mem (xs ++ ys)
AllReady-append b mem [] ys left right = right
AllReady-append b mem (x ∷ xs) ys (one, left) right = (one, AllReady-append b mem xs ys left right)
