-- ===== src/Command/Args.antt =====
-- `getargs` gives a program the arguments of its command line.
use os.Prelude.{
  ℕ, zero, suc, ◌+◌, ◌<◌, ◌≤◌, ◌≡◌, ◌≢◌, refl, arith, false, List, [], ◌∷◌, ◌==◌, Bytes, update,
  some, ap, ◌∙◌, sym, Bool-cases, inl, inr, pos, minus_one, ◌⊎◌,
}
use mathlib.Core.Path.{subst}
use os.Strings.{strlen, memset, copy_bytes}
use os.Strings.Copying.{copy_bytes_lem}
use os.Command.{Command, parse, getargs, cmd_limit}
use os.Command.Parse.{after_word, without_spaces, parse_unbounded}
use os.Strings.Chars.{chars, length, chars_ext, length-chars, strlen_at, strlen_from_enough}

-- No character of the list is NUL.
abbrev pub NoNul : List ℕ → Type 0
NoNul [] = Unit {0}
NoNul (c ∷ cs) = (c ≢ 0) × NoNul cs

without_spaces-NoNul : (cs : List ℕ) → NoNul cs → NoNul (without_spaces cs)
without_spaces-NoNul [] h = tt
without_spaces-NoNul (c ∷ cs) h = elim (Bool-cases (c == b' ')) [
  | inl space ↦ rw space (without_spaces-NoNul cs h.1)
  | inr other ↦ rw other (h.0, without_spaces-NoNul cs h.1)
]

after_word-NoNul : (cs : List ℕ) → NoNul cs → NoNul (after_word cs)
after_word-NoNul [] h = tt
after_word-NoNul (c ∷ cs) h = elim (Bool-cases (c == b' ')) [
  | inl space ↦ rw space h
  | inr other ↦ rw other (after_word-NoNul cs h.1)
]

chars-NoNul :
    (n start : ℕ) (m : Bytes)
    → ((k : ℕ) → start ≤ k → k < start + n → m k ≢ 0)
    → NoNul (chars n start m)
unfolding chars
chars-NoNul zero start m h = tt
chars-NoNul (suc n) start m h = (
  h start (omega arith) (omega arith),
  chars-NoNul n (start + 1) m (λ k low high. h k (omega arith) (omega arith)),
)

NoNul-at :
    (n start k : ℕ) (m : Bytes) → NoNul (chars n start m) → start ≤ k → k < start + n → m k ≢ 0
unfolding chars
NoNul-at zero start k m h low high = absurd (omega arith)
NoNul-at (suc n) start k m h low high = ground (arith, NoNul-at n (start + 1) k m h.1)

length-without_spaces : (cs : List ℕ) → length (without_spaces cs) ≤ length cs
length-without_spaces [] = omega arith
length-without_spaces (c ∷ cs) = ground (arith, length-without_spaces cs)

length-after_word : (cs : List ℕ) → length (after_word cs) ≤ length cs
length-after_word [] = omega arith
length-after_word (c ∷ cs) = ground (arith, length-after_word cs)

-- What `getargs` promises about a list of arguments.
abbrev pub Gives : ℕ → Command → Bytes → List ℕ → Type 0
Gives fuel c buf args =
    ((args ≡ []) × (getargs fuel c (some buf) ≡ some (minus_one, some buf)))
    ⊎ ((buf' : Bytes) × (getargs fuel c (some buf) ≡ some (pos 0, some buf'))
        × (chars (length args) 0 buf' ≡ args)
        × (buf' (length args) ≡ 0))

module _ (fuel old : ℕ) (buf : Bytes) (c : Command) (held : strlen fuel buf ≡ some old) where
  getargs_none : (args : List ℕ) → args ≡ [] → c.arg_size ≡ length args → Gives fuel c buf args
  unfolding getargs
  getargs_none args e size = inl (e, ground (arith, ap length e))

  getargs_some :
      (args : List ℕ)
      → 0 < length args
      → length args < fuel
      → NoNul args
      → c.arg_size ≡ length args
      → chars (length args) 0 c.arg_buf ≡ args
      → c.arg_buf (length args) ≡ 0
      → Gives fuel c buf args
  unfolding getargs strlen
  getargs_some args more enough clean size text ends =
      let n = length args in
      let filled = update (copy_bytes n c.arg_buf (memset buf 0 old)) n 0 in
      let measured : strlen fuel c.arg_buf ≡ some n =
        strlen_from_enough n fuel 0 c.arg_buf enough
          (λ k low high. NoNul-at n 0 k c.arg_buf (subst NoNul (sym text) clean) low high)
          (ap c.arg_buf (omega arith) ∙ ends)
        ∙ ap some (omega arith) in
      let some_args : (c.arg_size == 0) ≡ false = ground arith in
      inr (
        filled,
        rw (some_args, held, measured) refl,
        chars_ext n 0 filled c.arg_buf
              (λ k low high. ground (arith, copy_bytes_lem n c.arg_buf (memset buf 0 old) k))
            ∙ text,
        ground arith,
      )

-- After `verify_file` has read a line of at most 128 characters, `getargs` gives the line's arguments:
-- -1 if there are none, and else 0 and a buffer with their characters and a NUL. The fuel has to be
-- more than 128, and enough to find the length of the line and of what the buffer held.
pub getargs-parse :
    (fuel n old : ℕ) (cmd buf : Bytes) (c : Command)
    → strlen fuel cmd ≡ some n
    → n < cmd_limit
    → cmd_limit ≤ fuel
    → strlen fuel buf ≡ some old
    → (c' : Command) × (parse fuel cmd c ≡ some c')
      × Gives fuel c' buf (without_spaces (after_word (chars n 0 cmd)))
getargs-parse fuel n old cmd buf c e small enough held =
    let (c', runs, name, nul, size, text, rest, _) = parse_unbounded fuel n cmd c e in
    let args = without_spaces (after_word (chars n 0 cmd)) in
    let short : length args ≤ n = omega (
      arith,
      length-without_spaces (after_word (chars n 0 cmd)),
      length-after_word (chars n 0 cmd),
      length-chars n 0 cmd,
    ) in
    let clean = without_spaces-NoNul _ (
      after_word-NoNul _
        (chars-NoNul n 0 cmd (λ k low high. (strlen_at fuel n k cmd e).2 (omega arith)))) in
    (
      c',
      runs,
      elim (empty_or_more args) [
        | inl none_left ↦ getargs_none fuel old buf c' held args none_left size
        | inr more ↦
            getargs_some fuel old buf c' held args more (omega arith) clean size text
              (rest (length args) (omega arith) (omega arith))
      ],
    )
  where
    empty_or_more : (cs : List ℕ) → (cs ≡ []) ⊎ (0 < length cs)
    empty_or_more [] = inl refl
    empty_or_more (c ∷ cs) = inr (omega arith)
