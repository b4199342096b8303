-- ===== src/Printf.antt =====
-- student-distrib/lib.c: `printf`. The format and the strings that it is given stand in one memory, and
-- the other arguments follow it as words on the stack.
pub mod Digits
pub mod Pieces
pub mod Formats
mod Tests
use os.Prelude.{
  ℕ, zero, suc, ◌+◌, ◌-◌, ◌%◌, ◌^◌, Bool, true, false, Option, none, some, ltb, ◌==◌, if◌then◌else◌,
  Bytes, update, count_up, List, [], ◌∷◌,
}
use os.Strings.{strlen, itoa}
use os.Screen.{Screen, putc, puts}

-- The bytes that a pointer into a buffer reaches, and the buffer when they have changed.
abbrev pub at_offset : ℕ → Bytes → Bytes
at_offset n m i = m (n + i)

abbrev pub set_offset : ℕ → Bytes → Bytes → Bytes
set_offset n part m i = if ltb i n then m i else part (i - n)

-- A literal where the linker has put it.
abbrev pub literal : ℕ → List ℕ → Bytes → Bytes
literal at [] m i = if i == at then 0 else m i
literal at (c ∷ cs) m i = if i == at then c else literal (at + 1) cs m i

-- puts, for the screen alone.
abbrev pub puts_text : ℕ → Bytes → Screen → Option Screen
puts_text fuel text s = elim (puts fuel text s) [ none ↦ none | some (n, s') ↦ some s' ]

-- %#x: the digits go behind the eighth place, and zeros before them.
unfoldable pub print_hex8 : ℕ → Bytes → ℕ → Screen → Option Screen
unfolding puts
print_hex8 fuel conv_buf value s =
    let written = itoa value (at_offset 8 conv_buf) 16 in
    elim (strlen fuel written) [
      | none ↦ none
      | some starting_index ↦
          let padded =
            count_up (8 - starting_index) starting_index (λ i m. update m i b'0')
              (set_offset 8 written conv_buf) in
          puts_text fuel (at_offset starting_index padded) s
    ]

-- %d: `value` is a word, negative from 2 ^ 31 on.
unfoldable pub print_signed : ℕ → Bytes → ℕ → Screen → Option Screen
unfolding puts
print_signed fuel conv_buf value s =
    if ltb value (2 ^ 31)
    then puts_text fuel (itoa value conv_buf 10) s
    else let minus = update conv_buf 0 b'-' in
      puts_text fuel (set_offset 1 (itoa (2 ^ 32 - value) (at_offset 1 minus) 10) minus) s

-- A conversion that takes its argument.
abbrev pub consumed : Option Screen → Option (Bool × Screen)
consumed none = none
consumed (some s) = some (true, s)

-- The conversion `c` of the word `arg` that `esp` points to: whether `esp` moves on, and the screen.
-- `conv_buf` is what the local buffer held.
unfoldable pub convert : ℕ → Bytes → Bytes → Bool → ℕ → ℕ → Screen → Option (Bool × Screen)
unfolding print_hex8 print_signed putc puts
convert fuel conv_buf mem alternate c arg s =
    if c == b'%'
    then some (false, putc b'%' s)
    else if c == b'x'
    then consumed (
        if alternate
        then print_hex8 fuel conv_buf arg s
        else puts_text fuel (itoa arg conv_buf 16) s)
    else if c == b'u'
    then consumed (puts_text fuel (itoa arg conv_buf 10) s)
    else if c == b'd'
    then consumed (print_signed fuel conv_buf arg s)
    else if c == b'c'
    then some (true, putc (arg % 2 ^ 8) s)
    else if c == b's'
    then consumed (puts_text fuel (at_offset arg mem) s)
    else some (false, s)

-- From format_char_switch: over the signs # to the conversion.
unfoldable pub skip_alternate : ℕ → Bytes → ℕ → Bool → Option (Bool × ℕ)
skip_alternate zero mem buf alternate = none
skip_alternate (suc fuel) mem buf alternate =
    let rest = skip_alternate fuel mem (buf + 1) true in
    if mem buf == b'#' then rest else some (alternate, buf)

-- One % of the format, at `buf`, with the arguments from `esp` on: where the format and the arguments go
-- on, and the screen.
unfoldable pub print_conversion :
    ℕ → Bytes → Bytes → ℕ → (ℕ → ℕ) → Screen → Option (ℕ × (ℕ → ℕ) × Screen)
unfolding skip_alternate convert
print_conversion fuel conv_buf mem buf esp s = elim (skip_alternate fuel mem (buf + 1) false) [
  | none ↦ none
  | some (alternate, at) ↦ elim (convert fuel conv_buf mem alternate (mem at) (esp 0) s) [
    | none ↦ none
    | some (moves, s') ↦ some (at + 1, (if moves then (λ i. esp (i + 1)) else esp), s')
  ]
]

-- The loop of `printf`, with `rounds` left; `fuel` is for the loops inside.
unfoldable pub printf_from : ℕ → ℕ → Bytes → Bytes → ℕ → (ℕ → ℕ) → Screen → Option (ℕ × Screen)
unfolding print_conversion
printf_from zero fuel conv_buf mem buf esp s = none
printf_from (suc rounds) fuel conv_buf mem buf esp s =
    let plain = printf_from rounds fuel conv_buf mem (buf + 1) esp (putc (mem buf) s) in
    let converted : Option (ℕ × Screen) = elim (print_conversion fuel conv_buf mem buf esp s) [
      | none ↦ none
      | some (buf', esp', s') ↦ printf_from rounds fuel conv_buf mem buf' esp' s'
    ] in
    if mem buf == 0 then some (buf, s) else if mem buf == b'%' then converted else plain

-- The result is the length of the format, with the screen.
unfoldable pub printf : ℕ → Bytes → Bytes → ℕ → (ℕ → ℕ) → Screen → Option (ℕ × Screen)
unfolding printf_from
printf fuel conv_buf mem format esp s = elim (printf_from fuel fuel conv_buf mem format esp s) [
  | none ↦ none
  | some (buf, s') ↦ some (buf - format, s')
]
