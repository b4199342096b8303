-- ===== src/Printf/Pieces.antt =====
-- The conversions of `printf`, one by one.
use os.Prelude.{
  ℕ, zero, suc, ◌+◌, ◌-◌, ◌^◌, ◌%◌, ◌<◌, ◌≤◌, ◌≡◌, ◌≢◌, refl, arith, List, [], ◌∷◌, ltb, ◌==◌,
  if◌then◌else◌, Option, some, Bytes, ap, ◌∙◌, sym, Bool, true, false,
}
use os.Strings.Chars.{chars, length}
use os.Screen.{Screen, putc}
use os.Printf.{print_conversion, convert, skip_alternate, consumed, at_offset, print_hex8}
use os.Printf.Digits.{
  put_all, IsString, Shows, ShowsShort, puts_text_lem, print_number_lem, print_hex8_lem,
  print_signed_lem,
}

-- The parts of a format with what they are given: `string` the address and the length.
pub data Piece : Type 0 where
  plain : ℕ → Piece
  percent : Piece
  hex : ℕ → Piece
  hex8 : ℕ → Piece
  unsigned : ℕ → Piece
  signed : ℕ → Piece
  character : ℕ → Piece
  string : ℕ → ℕ → Piece

-- Plain characters.
unfoldable pub plains : List ℕ → List Piece
plains [] = []
plains (c ∷ cs) = plain c ∷ plains cs

-- How a part is written in the format.
abbrev pub spelling : Piece → List ℕ
spelling (plain c) = c ∷ []
spelling percent = b'%' ∷ b'%' ∷ []
spelling (hex v) = b'%' ∷ b'x' ∷ []
spelling (hex8 v) = b'%' ∷ b'#' ∷ b'x' ∷ []
spelling (unsigned v) = b'%' ∷ b'u' ∷ []
spelling (signed v) = b'%' ∷ b'd' ∷ []
spelling (character c) = b'%' ∷ b'c' ∷ []
spelling (string p n) = b'%' ∷ b's' ∷ []

-- The words that a part takes from the stack.
abbrev pub words : Piece → List ℕ
words (plain c) = []
words percent = []
words (hex v) = v ∷ []
words (hex8 v) = v ∷ []
words (unsigned v) = v ∷ []
words (signed v) = v ∷ []
words (character c) = c ∷ []
words (string p n) = p ∷ []

-- What a part needs: a plain character is neither NUL nor %, a number is a word, and a string stands in
-- memory, short enough for the fuel.
abbrev pub Fits : ℕ → Bytes → Piece → Type 0
Fits fuel mem (plain c) = (c ≢ 0) × (c ≢ b'%')
Fits fuel mem percent = Unit {0}
Fits fuel mem (hex v) = v < 2 ^ 32
Fits fuel mem (hex8 v) = v < 2 ^ 32
Fits fuel mem (unsigned v) = v < 2 ^ 32
Fits fuel mem (signed v) = v < 2 ^ 32
Fits fuel mem (character c) = Unit {0}
Fits fuel mem (string p n) = (n < fuel) × IsString n (at_offset p mem)

-- A negative number has a sign before its digits.
abbrev pub ShowsSigned : ℕ → List ℕ → Type 0
ShowsSigned v text =
    (digits : List ℕ) × ShowsShort 10 (if ltb v (2 ^ 31) then v else 2 ^ 32 - v) digits
    × (text ≡ (if ltb v (2 ^ 31) then digits else b'-' ∷ digits))

-- The text that a part stands for.
abbrev pub Prints : Bytes → Piece → List ℕ → Type 0
Prints mem (plain c) text = text ≡ c ∷ []
Prints mem percent text = text ≡ b'%' ∷ []
Prints mem (hex v) text = ShowsShort 16 v text
Prints mem (hex8 v) text = (length text ≡ 8) × Shows 16 v text
Prints mem (unsigned v) text = ShowsShort 10 v text
Prints mem (signed v) text = ShowsSigned v text
Prints mem (character c) text = text ≡ (c % 2 ^ 8) ∷ []
Prints mem (string p n) text = text ≡ chars n 0 (at_offset p mem)

-- The list stands at `i`.
abbrev pub StandsAt : ℕ → List ℕ → (ℕ → ℕ) → Type 0
StandsAt i [] m = Unit {0}
StandsAt i (c ∷ cs) m = (m i ≡ c) × StandsAt (i + 1) cs m

-- The arguments behind those of a part.
abbrev pub behind : Piece → (ℕ → ℕ) → ℕ → ℕ
behind (plain c) esp = esp
behind percent esp = esp
behind _ esp = λ i. esp (i + 1)

-- A conversion, from the sign % on.
abbrev pub Converts : ℕ → Bytes → Bytes → ℕ → (ℕ → ℕ) → Screen → Piece → Type 0
Converts fuel conv_buf mem buf esp s p =
    (text : List ℕ) × Prints mem p text
    × (print_conversion fuel conv_buf mem buf esp s
        ≡ some (buf + length (spelling p), behind p esp, put_all text s))

skip_none :
    (fuel at : ℕ) (mem : Bytes) (alternate : Bool)
    → 0 < fuel
    → mem at ≢ b'#'
    → skip_alternate fuel mem at alternate ≡ some (alternate, at)
unfolding skip_alternate
skip_none zero at mem alternate enough other = absurd (omega arith)
skip_none (suc fuel) at mem alternate enough other = ground arith

skip_one :
    (fuel at : ℕ) (mem : Bytes)
    → 1 < fuel
    → mem at ≡ b'#'
    → mem (at + 1) ≢ b'#'
    → skip_alternate fuel mem at false ≡ some (true, at + 1)
unfolding skip_alternate
skip_one zero at mem enough sign other = absurd (omega arith)
skip_one (suc fuel) at mem enough sign other =
    let here : (mem at == b'#') ≡ true = ground arith in
    rw here (skip_none fuel (at + 1) mem true (omega arith) other)

module _ (fuel : ℕ) (conv_buf mem : Bytes) (buf : ℕ) (esp : ℕ → ℕ) (s : Screen) where
  -- A conversion of one character.
  one_letter :
      (c : ℕ) (moves : Bool) (s' : Screen)
      → 0 < fuel
      → c ≢ b'#'
      → mem (buf + 1) ≡ c
      → convert fuel conv_buf mem false c (esp 0) s ≡ some (moves, s')
      → print_conversion fuel conv_buf mem buf esp s
        ≡ some (buf + 2, (if moves then (λ i. esp (i + 1)) else esp), s')
  unfolding print_conversion
  one_letter c moves s' enough other at runs =
      rw
        (
          skip_none fuel (buf + 1) mem false enough (λ e. other (sym at ∙ e)),
          at,
          runs,
          print_conversion,
        )
        (ap (λ i. some (i, (if moves then (λ i. esp (i + 1)) else esp), s')) (omega arith))

  -- A conversion that prints with `puts`.
  with_puts :
      (c : ℕ) (printed : Option Screen) (text : List ℕ)
      → 0 < fuel
      → c ≢ b'#'
      → mem (buf + 1) ≡ c
      → convert fuel conv_buf mem false c (esp 0) s ≡ consumed printed
      → printed ≡ some (put_all text s)
      → print_conversion fuel conv_buf mem buf esp s
        ≡ some (buf + 2, (λ i. esp (i + 1)), put_all text s)
  with_puts c printed text enough other at runs e =
      one_letter c true (put_all text s) enough other at (runs ∙ ap consumed e)

  -- `%#x`
  after_sign :
      (text : List ℕ)
      → 1 < fuel
      → mem (buf + 1) ≡ b'#'
      → mem (buf + 1 + 1) ≡ b'x'
      → print_hex8 fuel conv_buf (esp 0) s ≡ some (put_all text s)
      → print_conversion fuel conv_buf mem buf esp s
        ≡ some (buf + 3, (λ i. esp (i + 1)), put_all text s)
  unfolding print_conversion convert
  after_sign text enough sign at runs =
      rw
        (
          skip_one fuel (buf + 1) mem enough sign (λ e. ground (arith, e, at)),
          at,
          runs,
          print_conversion,
        )
        (ap (λ i. some (i, (λ j. esp (j + 1)), put_all text s)) (omega arith))

  pub convert_piece :
      (p : Piece)
      → 35 ≤ fuel
      → Fits fuel mem p
      → StandsAt buf (spelling p) mem
      → StandsAt 0 (words p) esp
      → mem buf ≡ b'%'
      → Converts fuel conv_buf mem buf esp s p
  unfolding convert
  convert_piece (plain c) enough fits at args sign = absurd (ground (arith, fits, at))
  convert_piece percent enough fits at args sign = (
    b'%' ∷ [],
    refl,
    one_letter b'%' false (putc b'%' s) (omega arith) (λ e. omega arith) at.1.0 refl,
  )
  convert_piece (hex v) enough fits at args sign =
      let (text, shows, runs) =
        print_number_lem fuel v 16 conv_buf s (omega arith) fits (omega arith) (omega arith) in
      (
        text,
        shows,
        with_puts b'x' _ text (omega arith) (λ e. omega arith) at.1.0 refl (rw args.0 runs),
      )
  convert_piece (hex8 v) enough fits at args sign =
      let (text, eight, shows, runs) = print_hex8_lem fuel v conv_buf s (omega arith) fits in
      (text, (eight, shows), after_sign text (omega arith) at.1.0 at.1.1.0 (rw args.0 runs))
  convert_piece (unsigned v) enough fits at args sign =
      let (text, shows, runs) =
        print_number_lem fuel v 10 conv_buf s (omega arith) fits (omega arith) (omega arith) in
      (
        text,
        shows,
        with_puts b'u' _ text (omega arith) (λ e. omega arith) at.1.0 refl (rw args.0 runs),
      )
  convert_piece (signed v) enough fits at args sign =
      let (text, shows, runs) = print_signed_lem fuel v conv_buf s enough fits in
      (
        if ltb v (2 ^ 31) then text else b'-' ∷ text,
        (text, shows, refl),
        with_puts b'd' _ (if ltb v (2 ^ 31) then text else b'-' ∷ text) (omega arith)
            (λ e. omega arith) at.1.0 refl (rw args.0 runs),
      )
  convert_piece (character c) enough fits at args sign = (
    (c % 2 ^ 8) ∷ [],
    refl,
    one_letter b'c' true (putc (c % 2 ^ 8) s) (omega arith) (λ e. omega arith) at.1.0
        (ap (λ a. some (true, putc (a % 2 ^ 8) s)) args.0),
  )
  convert_piece (string p n) enough fits at args sign = (
    chars n 0 (at_offset p mem),
    refl,
    with_puts b's' _ (chars n 0 (at_offset p mem)) (omega arith) (λ e. omega arith) at.1.0 refl
        (rw args.0 (puts_text_lem n fuel (at_offset p mem) s fits.0 fits.1)),
  )
