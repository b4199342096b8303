-- ===== src/Command/Parse.antt =====
-- What `verify_file` makes of a command line: the first word, and the arguments.
use os.Prelude.{
  ℕ, zero, suc, ◌+◌, ◌-◌, ◌<◌, ◌≤◌, ◌≡◌, ◌≢◌, refl, arith, false, List, [], ◌∷◌, ◌==◌,
  if◌then◌else◌, Bytes, update, some, in_range, ap, ◌∙◌, count_up_writes, Bool-cases, inl, inr,
}
use os.Strings.Chars.{chars, length, chars_ext, strlen_at}
use os.Strings.{strlen, memset}
use os.Command.{Command, copy_name, copy_args, parse, cmd_limit}

-- The characters up to the first space, and those from it on.
abbrev pub first_word : List ℕ → List ℕ
first_word [] = []
first_word (c ∷ cs) = if c == b' ' then [] else c ∷ first_word cs

abbrev pub after_word : List ℕ → List ℕ
after_word [] = []
after_word (c ∷ cs) = if c == b' ' then c ∷ cs else after_word cs

abbrev pub without_spaces : List ℕ → List ℕ
without_spaces [] = []
without_spaces (c ∷ cs) = if c == b' ' then without_spaces cs else c ∷ without_spaces cs

-- The characters of `cs` at the places from `size` on.
abbrev pub put_at : ℕ → List ℕ → Bytes → Bytes
put_at size [] buf = buf
put_at size (c ∷ cs) buf = put_at (size + 1) cs (update buf size c)

chars-first_word :
    (n i : ℕ) (m : Bytes) → chars (length (first_word (chars n i m))) i m ≡ first_word (chars n i m)
unfolding chars
chars-first_word zero i m = refl
chars-first_word (suc n) i m = elim (Bool-cases (m i == b' ')) [
  | inl space ↦ rw space refl
  | inr other ↦ rw other (ap (λ cs. m i ∷ cs) (chars-first_word n (i + 1) m))
]

chars_at : {n n' i i' : ℕ} (m : Bytes) → n ≡ n' → i ≡ i' → chars n i m ≡ chars n' i' m
chars_at m e e' = cc

-- What is left after the first word begins where it ends.
chars-after_word :
    (n i : ℕ) (m : Bytes)
    → let len = length (first_word (chars n i m)) in
      (len ≤ n) × (chars (n - len) (i + len) m ≡ after_word (chars n i m))
unfolding chars
chars-after_word zero i m = (omega arith, refl)
chars-after_word (suc n) i m = elim (Bool-cases (m i == b' ')) [
  | inl space ↦ rw space (omega arith, chars_at {n' = suc n} {i' = i} m (omega arith) (omega arith))
  | inr other ↦
      let ih = chars-after_word n (i + 1) m in
      rw other (omega (arith, ih.0), chars_at m (omega (arith, ih.0)) (omega arith) ∙ ih.1)
]

copy_name_lem :
    (n i k : ℕ) (cmd f : Bytes)
    → let len = length (first_word (chars n i cmd)) in
      ((copy_name n i cmd f).0 ≡ i + len)
      × ((copy_name n i cmd f).1 k ≡ (if in_range i len k then cmd k else f k))
unfolding copy_name chars
copy_name_lem zero i k cmd f = ground arith
copy_name_lem (suc n) i k cmd f = ground (arith, copy_name_lem n (i + 1) k cmd (update f i (cmd i)))

copy_args_lem :
    (n fuel i size : ℕ) (cmd buf : Bytes)
    → n < fuel
    → ((k : ℕ) → i ≤ k → k < i + n → cmd k ≢ 0)
    → cmd (i + n) ≡ 0
    → let args = without_spaces (chars n i cmd) in
      copy_args fuel i cmd size buf ≡ some (size + length args, put_at size args buf)
unfolding copy_args chars
copy_args_lem n zero i size cmd buf h inside ends = absurd (omega arith)
copy_args_lem zero (suc fuel) i size cmd buf h inside ends = ground arith
copy_args_lem (suc n) (suc fuel) i size cmd buf h inside ends =
    let here : (cmd i == 0) ≡ false = ground (arith, inside i (omega arith) (omega arith)) in
    let go = λ (size' : ℕ) (buf' : Bytes).
      copy_args_lem n fuel (i + 1) size' cmd buf' (omega arith)
        (λ k low high. inside k (omega arith) (omega arith)) (ap cmd (omega arith) ∙ ends) in
    elim (Bool-cases (cmd i == b' ')) [
      | inl space ↦ rw (here, space) (go size buf)
      | inr other ↦ rw (here, other) (go (size + 1) (update buf size (cmd i)) ∙ ground arith)
    ]

put_at_lem :
    (cs : List ℕ) (size k : ℕ) (buf : Bytes)
    → (k < size → put_at size cs buf k ≡ buf k)
      × (size + length cs ≤ k → put_at size cs buf k ≡ buf k)
put_at_lem [] size k buf = ground arith
put_at_lem (c ∷ cs) size k buf = ground (arith, put_at_lem cs (size + 1) k (update buf size c))

chars-put_at :
    (cs : List ℕ) (size : ℕ) (buf : Bytes) → chars (length cs) size (put_at size cs buf) ≡ cs
unfolding chars
chars-put_at [] size buf = refl
chars-put_at (c ∷ cs) size buf = ground (
  arith,
  put_at_lem cs (size + 1) size (update buf size c),
  chars-put_at cs (size + 1) (update buf size c),
)

-- The two loops on a line of any length, over buffers without an end.
pub parse_unbounded :
    (fuel n : ℕ) (cmd : Bytes) (c : Command)
    → strlen fuel cmd ≡ some n
    → let line = chars n 0 cmd in
      let args = without_spaces (after_word line) in
      (c' : Command) × (parse fuel cmd c ≡ some c')
      × (chars (length (first_word line)) 0 c'.in_file ≡ first_word line)
      × (c'.in_file (length (first_word line)) ≡ 0)
      × (c'.arg_size ≡ length args)
      × (chars (length args) 0 c'.arg_buf ≡ args)
      × ((k : ℕ) → length args ≤ k → k < cmd_limit → c'.arg_buf k ≡ 0)
      × (c'.v_addr ≡ c.v_addr)
unfolding parse memset
parse_unbounded fuel n cmd c e =
    (parsed, runs, name, ground arith, refl, chars-put_at args 0 cleared, rest, refl)
  where
    line : List ℕ
    line = chars n 0 cmd

    args : List ℕ
    args = without_spaces (after_word line)

    len : ℕ
    len = length (first_word line)

    cleared : Bytes
    cleared = memset c.arg_buf 0 cmd_limit

    named : Bytes
    named = (copy_name n 0 cmd (memset c.in_file 0 cmd_limit)).1

    parsed : Command
    parsed = record c {
      in_file = update named len 0;
      arg_size = length args;
      arg_buf = put_at 0 args cleared;
    }

    fits : len ≤ n
    fits = (chars-after_word n 0 cmd).0

    tail : chars (n - len) len cmd ≡ after_word line
    tail =
        chars_at {n' = n - len} {i' = 0 + len} cmd (omega arith) (omega arith)
        ∙ (chars-after_word n 0 cmd).1

    scanned : copy_args fuel len cmd 0 cleared ≡ some (length args, put_at 0 args cleared)
    scanned =
        copy_args_lem (n - len) fuel len 0 cmd cleared (omega (arith, (strlen_at fuel n 0 cmd e).0))
          (λ k low high. (strlen_at fuel n k cmd e).2 (omega (arith, fits)))
          (ap cmd (omega (arith, fits)) ∙ (strlen_at fuel n 0 cmd e).1)
        ∙ rw tail (ap (λ size. some (size, put_at 0 args cleared)) (omega arith))

    stop : (copy_name n 0 cmd (memset c.in_file 0 cmd_limit)).0 ≡ len
    stop = omega (arith, (copy_name_lem n 0 0 cmd (memset c.in_file 0 cmd_limit)).0)

    runs : parse fuel cmd c ≡ some parsed
    runs =
        rw (e, parse, stop, scanned)
          (ap
            (λ at. some (record c {
              in_file = update named at 0;
              arg_size = length args;
              arg_buf = put_at 0 args cleared;
            }))
            stop)

    name : chars len 0 (update named len 0) ≡ first_word line
    name =
        chars_ext len 0 (update named len 0) cmd
          (λ k low high. ground (arith, copy_name_lem n 0 k cmd (memset c.in_file 0 cmd_limit)))
        ∙ chars-first_word n 0 cmd

    rest : (k : ℕ) → length args ≤ k → k < cmd_limit → put_at 0 args cleared k ≡ 0
    rest k h h' =
        ground
          (arith, put_at_lem args 0 k cleared, count_up_writes (λ _ _. 0) cmd_limit 0 c.arg_buf k)

-- `verify_file` splits a line of at most 128 characters, which its two buffers of 129 bytes have room for, at its
-- first space: the name is what stands before it, ended by a NUL, and the arguments are all the characters
-- from there on but the spaces, in their order, with NULs to the end of the buffer. Where the command's
-- length is found, the fuel is enough for the loops.
pub parse_lem :
    (fuel n : ℕ) (cmd : Bytes) (c : Command)
    → strlen fuel cmd ≡ some n
    → n < cmd_limit
    → let line = chars n 0 cmd in
      let args = without_spaces (after_word line) in
      (c' : Command) × (parse fuel cmd c ≡ some c')
      × (chars (length (first_word line)) 0 c'.in_file ≡ first_word line)
      × (c'.in_file (length (first_word line)) ≡ 0)
      × (c'.arg_size ≡ length args)
      × (chars (length args) 0 c'.arg_buf ≡ args)
      × ((k : ℕ) → length args ≤ k → k < cmd_limit → c'.arg_buf k ≡ 0)
parse_lem fuel n cmd c e short =
    let (c', runs, name, nul, size, text, rest, _) = parse_unbounded fuel n cmd c e in
    (c', runs, name, nul, size, text, rest)
