-- ===== src/Printf/Formats.antt =====
-- What `printf` prints for a format that is made of its conversions.
use os.Prelude.{
  ℕ, zero, suc, ◌+◌, ◌<◌, ◌≤◌, ◌≡◌, ◌≢◌, refl, arith, List, [], ◌∷◌, ◌++◌, ◌==◌, some, Bytes, ap,
  ◌∙◌, sym, true, false,
}
use os.Strings.Chars.{length}
use os.Screen.{Screen, putc}
use os.Printf.{printf, printf_from, print_conversion}
use os.Printf.Digits.{put_all}
use os.Printf.Pieces.{
  Piece, plain, plains, spelling, words, Fits, Prints, StandsAt, behind, convert_piece,
}

abbrev pub FormatAt : ℕ → List Piece → Bytes → Type 0
FormatAt buf [] mem = mem buf ≡ 0
FormatAt buf (p ∷ ps) mem =
    StandsAt buf (spelling p) mem × FormatAt (buf + length (spelling p)) ps mem

abbrev pub ArgsAt : List Piece → (ℕ → ℕ) → Type 0
ArgsAt [] esp = Unit {0}
ArgsAt (p ∷ ps) esp = StandsAt 0 (words p) esp × ArgsAt ps (behind p esp)

abbrev pub AllFit : ℕ → Bytes → List Piece → Type 0
AllFit fuel mem [] = Unit {0}
AllFit fuel mem (p ∷ ps) = Fits fuel mem p × AllFit fuel mem ps

abbrev pub AllPrint : Bytes → List Piece → List ℕ → Type 0
AllPrint mem [] text = text ≡ []
AllPrint mem (p ∷ ps) text =
    (first : List ℕ) × (rest : List ℕ) × Prints mem p first
    × AllPrint mem ps rest
    × (text ≡ first ++ rest)

-- The length of the format.
abbrev pub size : List Piece → ℕ
size [] = 0
size (p ∷ ps) = length (spelling p) + size ps

pub put_all-append :
    (cs ds : List ℕ) (s : Screen) → put_all (cs ++ ds) s ≡ put_all ds (put_all cs s)
put_all-append [] ds s = refl
put_all-append (c ∷ cs) ds s = put_all-append cs ds (putc c s)

-- What the loop does from `buf` on.
abbrev Printed : ℕ → ℕ → Bytes → Bytes → ℕ → (ℕ → ℕ) → Screen → List Piece → Type 0
Printed rounds fuel conv_buf mem buf esp s ps =
    (text : List ℕ) × AllPrint mem ps text
    × (printf_from rounds fuel conv_buf mem buf esp s ≡ some (buf + size ps, put_all text s))

plain_round :
    (rounds fuel : ℕ) (conv_buf mem : Bytes) (buf : ℕ) (esp : ℕ → ℕ) (s : Screen) (c : ℕ)
    → mem buf ≡ c
    → c ≢ 0
    → c ≢ b'%'
    → printf_from (suc rounds) fuel conv_buf mem buf esp s
      ≡ printf_from rounds fuel conv_buf mem (buf + 1) esp (putc c s)
unfolding printf_from
plain_round rounds fuel conv_buf mem buf esp s c at some_char no_sign =
    let more : (mem buf == 0) ≡ false = ground arith in
    let other : (mem buf == b'%') ≡ false = ground arith in
    rw (more, other) (ap (λ d. printf_from rounds fuel conv_buf mem (buf + 1) esp (putc d s)) at)

sign_round :
    (rounds fuel : ℕ) (conv_buf mem : Bytes) (buf : ℕ) (esp : ℕ → ℕ) (s : Screen) (buf' : ℕ)
    (esp' : ℕ → ℕ) (s' : Screen)
    → mem buf ≡ b'%'
    → print_conversion fuel conv_buf mem buf esp s ≡ some (buf', esp', s')
    → printf_from (suc rounds) fuel conv_buf mem buf esp s
      ≡ printf_from rounds fuel conv_buf mem buf' esp' s'
unfolding printf_from
sign_round rounds fuel conv_buf mem buf esp s buf' esp' s' at runs =
    let more : (mem buf == 0) ≡ false = ground arith in
    let sign : (mem buf == b'%') ≡ true = ground arith in rw (more, sign, runs, printf_from) refl

module _ (rounds fuel : ℕ) (conv_buf mem : Bytes) (buf : ℕ) (esp : ℕ → ℕ) (s : Screen) (p : Piece)
    (ps : List Piece) where
  -- One part, and the parts behind it.
  join :
      (first : List ℕ)
      → Prints mem p first
      → printf_from (suc rounds) fuel conv_buf mem buf esp s
        ≡ printf_from rounds fuel conv_buf mem
            (buf + length (spelling p))
            (behind p esp)
            (put_all first s)
      → Printed rounds fuel conv_buf mem
          (buf + length (spelling p))
          (behind p esp)
          (put_all first s)
          ps
      → Printed (suc rounds) fuel conv_buf mem buf esp s (p ∷ ps)
  join first shows step (rest, others, runs) = (
    first ++ rest,
    (first, rest, shows, others, refl),
    step
        ∙ runs
        ∙ ap (λ i. some (i, put_all rest (put_all first s))) (omega arith)
        ∙ ap (λ s'. some (buf + (length (spelling p) + size ps), s'))
            (sym (put_all-append first rest s)),
  )

  converted :
      35 ≤ fuel
      → Fits fuel mem p
      → StandsAt buf (spelling p) mem
      → StandsAt 0 (words p) esp
      → mem buf ≡ b'%'
      → ((s' : Screen)
          → Printed rounds fuel conv_buf mem (buf + length (spelling p)) (behind p esp) s' ps)
      → Printed (suc rounds) fuel conv_buf mem buf esp s (p ∷ ps)
  converted enough fits at args sign more =
      let (first, shows, runs) =
        convert_piece fuel conv_buf mem buf esp s p enough fits at args sign in
      join first shows
        (sign_round rounds fuel conv_buf mem buf esp s (buf + length (spelling p)) (behind p esp)
          (put_all first s) sign runs)
        (more (put_all first s))

printf_from_lem :
    (ps : List Piece) (rounds fuel : ℕ) (conv_buf mem : Bytes) (buf : ℕ) (esp : ℕ → ℕ) (s : Screen)
    → length ps < rounds
    → 35 ≤ fuel
    → AllFit fuel mem ps
    → FormatAt buf ps mem
    → ArgsAt ps esp
    → Printed rounds fuel conv_buf mem buf esp s ps
unfolding printf_from
printf_from_lem ps zero fuel conv_buf mem buf esp s few enough fits at args = absurd (omega arith)
printf_from_lem [] (suc rounds) fuel conv_buf mem buf esp s few enough fits at args =
    let stop : (mem buf == 0) ≡ true = ground arith in
    ([], refl, rw stop (ap (λ i. some (i, s)) (omega arith)))
printf_from_lem (plain c ∷ ps) (suc rounds) fuel conv_buf mem buf esp s few enough fits at args =
    join rounds fuel conv_buf mem buf esp s (plain c) ps (c ∷ []) refl
      (plain_round rounds fuel conv_buf mem buf esp s c at.0.0 fits.0.0 fits.0.1)
      (printf_from_lem ps rounds fuel conv_buf mem (buf + 1) esp (putc c s) (omega arith) enough
        fits.1 at.1 args.1)
printf_from_lem (p ∷ ps) (suc rounds) fuel conv_buf mem buf esp s few enough fits at args =
    converted rounds fuel conv_buf mem buf esp s p ps enough fits.0 at.0 args.0 at.0.0 (λ s'.
      printf_from_lem ps rounds fuel conv_buf mem (buf + length (spelling p)) (behind p esp) s'
        (omega arith) enough fits.1 at.1 args.1)

-- `printf` prints what its format asks for: the plain characters as they are, numbers in base 16 or 10
-- with the digits 0 to 9 and A to F, characters and strings, each with its own argument from the stack and
-- in their order. A number has just eight digits for %#x, with zeros in front, and else no more than it
-- needs, and a minus sign for a negative %d. `printf` comes to an end and returns the length of the format.
-- The fuel has to be 35 or more, for the longest number, and more than the parts of the format and than
-- the length of each string.
pub printf_lem :
    (ps : List Piece) (fuel : ℕ) (conv_buf mem : Bytes) (format : ℕ) (esp : ℕ → ℕ) (s : Screen)
    → length ps < fuel
    → 35 ≤ fuel
    → AllFit fuel mem ps
    → FormatAt format ps mem
    → ArgsAt ps esp
    → (text : List ℕ) × AllPrint mem ps text
      × (printf fuel conv_buf mem format esp s ≡ some (size ps, put_all text s))
unfolding printf
printf_lem ps fuel conv_buf mem format esp s few enough fits at args =
    let (text, shows, runs) =
      printf_from_lem ps fuel fuel conv_buf mem format esp s few enough fits at args in
    (text, shows, rw (runs, printf) (ap (λ n. some (n, put_all text s)) (omega arith)))

-- Plain characters before the other parts of a line.
pub plains-AllPrint :
    (cs : List ℕ) (ps : List Piece) (mem : Bytes) (text : List ℕ)
    → AllPrint mem (plains cs ++ ps) text
    → (rest : List ℕ) × AllPrint mem ps rest × (text ≡ cs ++ rest)
unfolding plains
plains-AllPrint [] ps mem text prints = (text, prints, refl)
plains-AllPrint (c ∷ cs) ps mem text (first, tail, one, more, e) =
    let (rest, others, e') = plains-AllPrint cs ps mem tail more in
    (rest, others, e ∙ ap (λ r. r ++ tail) one ∙ ap (λ r. c ∷ r) e')

-- A line of plain characters.
pub plain_line-AllPrint :
    (cs : List ℕ) (mem : Bytes) (text : List ℕ) → AllPrint mem (plains cs) text → text ≡ cs
unfolding plains
plain_line-AllPrint [] mem text prints = prints
plain_line-AllPrint (c ∷ cs) mem text (first, tail, one, more, e) =
    e ∙ ap (λ r. r ++ tail) one ∙ ap (λ r. c ∷ r) (plain_line-AllPrint cs mem tail more)
