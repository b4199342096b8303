-- ===== src/Printf/Digits.antt =====
-- The numbers that `printf` prints, as texts.
use os.Prelude.{
  ℕ, zero, suc, ◌+◌, ◌-◌, ◌*◌, ◌^◌, ◌<◌, ◌≤◌, ◌≡◌, ◌≢◌, refl, arith, List, [], ◌∷◌, ltb, ◌==◌,
  if◌then◌else◌, Option, none, some, Bytes, update, count_up, count_up_writes, in_range, ap, ◌∙◌,
  sym, Bool-cases, inl, inr, false,
}
use native.Mathlib.Numerals.{add-one}
use native.Mathlib.Nat.{add-suc}
use native.Mathlib.Decide.{dec_lt}
use os.Strings.{strlen, itoa}
use mathlib.Core.Path.{subst}
use os.Strings.Numbers.{IsDigit, from_digit, value_of, Reads, itoa_lem}
use os.Strings.Chars.{chars, length, length-chars, strlen_from_enough}
use os.Screen.{Screen, putc, puts, puts_from}
use os.Printf.{puts_text, at_offset, set_offset, print_hex8, print_signed}

-- The characters in turn.
abbrev pub put_all : List ℕ → Screen → Screen
put_all [] s = s
put_all (c ∷ cs) s = put_all cs (putc c s)

-- `text` is a string of `n` characters.
pub record IsString (n : ℕ) (text : Bytes) : Type 0 where
  pub inside : (k : ℕ) → k < n → text k ≢ 0
  pub ends : text n ≡ 0

puts_from_lem :
    (n fuel index : ℕ) (text : Bytes) (s : Screen)
    → n < fuel
    → ((k : ℕ) → index ≤ k → k < index + n → text k ≢ 0)
    → text (index + n) ≡ 0
    → puts_from fuel index text s ≡ some (index + n, put_all (chars n index text) s)
unfolding puts_from chars
puts_from_lem n zero index text s h inside ends = absurd (omega arith)
puts_from_lem zero (suc fuel) index text s h inside ends = ground arith
puts_from_lem (suc n) (suc fuel) index text s h inside ends =
    let here : (text index == 0) ≡ false =
      ground (arith, inside index (omega arith) (omega arith)) in
    rw here (
      puts_from_lem n fuel (index + 1) text (putc (text index) s) (omega arith)
        (λ k low high. inside k (omega arith) (omega arith)) (ap text (omega arith) ∙ ends)
      ∙ ap (λ i. some (i, put_all (chars n (index + 1) text) (putc (text index) s))) (omega arith))

-- `puts` prints the string.
pub puts_text_lem :
    (n fuel : ℕ) (text : Bytes) (s : Screen)
    → n < fuel
    → IsString n text
    → puts_text fuel text s ≡ some (put_all (chars n 0 text) s)
unfolding puts
puts_text_lem n fuel text s h string =
    let run =
      puts_from_lem n fuel 0 text s h (λ k low high. string.inside k (omega arith))
        (ap text (omega arith) ∙ string.ends) in
    ap (λ r. elim r as (λ _. Option Screen) [ none ↦ none | some (i, s') ↦ some s' ]) run

-- The number that a list of digits shows, after the digits of `acc`.
abbrev pub number : ℕ → ℕ → List ℕ → ℕ
number radix acc [] = acc
number radix acc (c ∷ cs) = number radix (acc * radix + from_digit c) cs

number-chars :
    (radix n i : ℕ) (text : Bytes)
    → number radix (value_of radix i text) (chars n i text) ≡ value_of radix (i + n) text
unfolding chars value_of
number-chars radix zero i text = ap (λ j. value_of radix j text) (omega arith)
number-chars radix (suc n) i text =
    ap (λ j. number radix (value_of radix (suc i) text) (chars n j text)) (add-one i)
    ∙ number-chars radix n (suc i) text
    ∙ ap (λ j. value_of radix j text) (omega arith)

-- Only digits of the base.
abbrev pub AllDigits : ℕ → List ℕ → Type 0
AllDigits radix [] = Unit
AllDigits radix (c ∷ cs) = IsDigit radix c × AllDigits radix cs

chars-AllDigits :
    (radix n i : ℕ) (text : Bytes)
    → ((k : ℕ) → i ≤ k → k < i + n → IsDigit radix (text k))
    → AllDigits radix (chars n i text)
unfolding chars
chars-AllDigits radix zero i text all = tt
chars-AllDigits radix (suc n) i text all = (
  all i (omega arith) (omega arith),
  chars-AllDigits radix n (i + 1) text (λ k low high. all k (omega arith) (omega arith)),
)

-- A text that shows `value` in the given base, without a sign: digits of the base, 0 to 9 and then A to
-- Z, at least one.
pub record Shows (radix value : ℕ) (text : List ℕ) : Type 0 where
  pub some_digit : 0 < length text
  pub digits : AllDigits radix text
  pub value_is : number radix 0 text ≡ value

-- The same with no more digits than the number needs.
abbrev pub ShowsShort : ℕ → ℕ → List ℕ → Type 0
ShowsShort radix value text =
    Shows radix value text × ((k : ℕ) → 0 < k → value < radix ^ k → length text ≤ k)

Shows-chars :
    {radix value n : ℕ} {text : Bytes}
    → Reads radix value text n
    → Shows radix value (chars n 0 text)
unfolding value_of
Shows-chars {radix} {value} {n} {text} r = record {
  some_digit = omega (arith, length-chars n 0 text, r.more);
  digits = chars-AllDigits radix n 0 text (λ k low high. r.digits k low (omega arith));
  value_is =
      number-chars radix n 0 text ∙ ap (λ j. value_of radix j text) (omega arith) ∙ r.value_is;
}

Reads-IsString : {radix value n : ℕ} {text : Bytes} → Reads radix value text n → IsString n text
Reads-IsString {radix} {value} {n} {text} r = record {
  inside = λ k low. ground (arith, r.digits k (omega arith) low);
  ends = r.ends;
}

string_length :
    (fuel radix value n : ℕ) (text : Bytes)
    → n < fuel
    → Reads radix value text n
    → strlen fuel text ≡ some n
unfolding strlen
string_length fuel radix value n text enough r =
    strlen_from_enough n fuel 0 text enough
      (λ k low high. (Reads-IsString r).inside k (omega arith)) (ap text (omega arith) ∙ r.ends)
    ∙ ap some (omega arith)

-- `puts` of what `itoa` makes.
pub print_number_lem :
    (fuel value radix : ℕ) (buf : Bytes) (s : Screen)
    → 34 ≤ fuel
    → value < 2 ^ 32
    → 2 ≤ radix
    → radix ≤ 36
    → (text : List ℕ) × ShowsShort radix value text
      × (puts_text fuel (itoa value buf radix) s ≡ some (put_all text s))
print_number_lem fuel value radix buf s enough small h h' =
    let (n, few, fewer, r) = itoa_lem value radix buf small h h' in
    (
      chars n 0 (itoa value buf radix),
      (
        Shows-chars r,
        λ k more below. omega (arith, length-chars n 0 (itoa value buf radix), fewer k more below),
      ),
      puts_text_lem n fuel (itoa value buf radix) s (omega (arith, few)) (Reads-IsString r),
    )

value_of_none :
    (radix z : ℕ) (text : Bytes) → ((k : ℕ) → k < z → text k ≡ b'0') → value_of radix z text ≡ 0
unfolding value_of
value_of_none radix zero text zeros = refl
value_of_none radix (suc z) text zeros =
    rw (value_of_none radix z text (λ k low. zeros k (omega arith)), zeros z (omega arith))
      (omega arith)

-- Zeros in front do not change the value.
value_of-zeros :
    (radix z n : ℕ) (text digits : Bytes)
    → ((k : ℕ) → k < z → text k ≡ b'0')
    → ((k : ℕ) → k < n → text (z + k) ≡ digits k)
    → value_of radix (z + n) text ≡ value_of radix n digits
unfolding value_of
value_of-zeros radix z zero text digits zeros same =
    ap (λ j. value_of radix j text) (omega arith) ∙ value_of_none radix z text zeros
value_of-zeros radix z (suc n) text digits zeros same =
    let ih = value_of-zeros radix z n text digits zeros (λ k low. same k (omega arith)) in
    rw (add-suc z n, ih, same n (omega arith)) refl

-- The buffer of `%#x` from where it is printed: zeros and then the digits.
padded : ℕ → Bytes → Bytes → Bytes
padded n written conv_buf =
    at_offset n (count_up (8 - n) n (λ i m. update m i b'0') (set_offset 8 written conv_buf))

module _ (n : ℕ) (written conv_buf : Bytes) (few : n ≤ 8) where
  padded_zero : (k : ℕ) → k < 8 - n → padded n written conv_buf k ≡ b'0'
  unfolding padded
  padded_zero k low =
      ground
        (arith, count_up_writes (λ _ _. b'0') (8 - n) n (set_offset 8 written conv_buf) (n + k))

  padded_digit : (k : ℕ) → padded n written conv_buf (8 - n + k) ≡ written k
  unfolding padded
  padded_digit k =
      count_up_writes (λ _ _. b'0') (8 - n) n (set_offset 8 written conv_buf) (n + (8 - n + k))
      ∙ past (n + (8 - n + k)) (omega arith)
      ∙ ap written (omega arith)
    where
      past :
          (j : ℕ)
          → 8 ≤ j
          → (if in_range n (8 - n) j then b'0' else set_offset 8 written conv_buf j)
            ≡ written (j - 8)
      past j high = ground arith

  padded-Reads :
      (value : ℕ) → Reads 16 value written n → Reads 16 value (padded n written conv_buf) 8
  padded-Reads value r = record {
    more = omega arith;
    ends = end;
    digits = λ k low high. digit_at k high;
    value_is =
        ap (λ j. value_of 16 j (padded n written conv_buf)) eight
        ∙ value_of-zeros 16 (8 - n) n (padded n written conv_buf) written padded_zero
            (λ k low. padded_digit k)
        ∙ r.value_is;
  }
    where
      eight : 8 ≡ 8 - n + n
      eight = omega arith

      end : padded n written conv_buf 8 ≡ 0
      end = ap (padded n written conv_buf) (omega arith) ∙ padded_digit n ∙ r.ends

      digit_at : (k : ℕ) → k < 8 → IsDigit 16 (padded n written conv_buf k)
      digit_at k high = elim (dec_lt k (8 - n)) [
        | yes low ↦
            subst (IsDigit 16) (sym (padded_zero k low))
              (inl (omega arith, omega arith), omega arith)
        | no up ↦
            let here : padded n written conv_buf k ≡ written (k - (8 - n)) =
              ap (padded n written conv_buf) (omega arith) ∙ padded_digit (k - (8 - n)) in
            subst (IsDigit 16) (sym here) (r.digits (k - (8 - n)) (omega arith) (omega arith))
      ]

-- `%#x`: eight digits.
pub print_hex8_lem :
    (fuel value : ℕ) (conv_buf : Bytes) (s : Screen)
    → 34 ≤ fuel
    → value < 2 ^ 32
    → (text : List ℕ) × (length text ≡ 8)
      × Shows 16 value text
      × (print_hex8 fuel conv_buf value s ≡ some (put_all text s))
unfolding print_hex8 padded
print_hex8_lem fuel value conv_buf s enough small =
    let written = itoa value (at_offset 8 conv_buf) 16 in
    let (n, few, fewer, r) =
      itoa_lem value 16 (at_offset 8 conv_buf) small (omega arith) (omega arith) in
    let whole = padded-Reads n written conv_buf (fewer 8 (omega arith) small) value r in
    (
      chars 8 0 (padded n written conv_buf),
      length-chars 8 0 (padded n written conv_buf),
      Shows-chars whole,
      rw (string_length fuel 16 value n written (omega (arith, few)) r, print_hex8)
          (puts_text_lem 8 fuel (padded n written conv_buf) s (omega arith) (Reads-IsString whole)),
    )

chars_shift :
    (n i j : ℕ) (m m' : Bytes)
    → ((k : ℕ) → k < n → m (i + k) ≡ m' (j + k))
    → chars n i m ≡ chars n j m'
unfolding chars
chars_shift zero i j m m' same = refl
chars_shift (suc n) i j m m' same =
    let here : m i ≡ m' j = ap m (omega arith) ∙ same 0 (omega arith) ∙ ap m' (omega arith) in
    let rest =
      chars_shift n (i + 1) (j + 1) m m'
        (λ k low. ap m (omega arith) ∙ same (k + 1) (omega arith) ∙ ap m' (omega arith)) in
    cc

minus_sign :
    (fuel n : ℕ) (digits conv_buf : Bytes) (s : Screen)
    → n + 1 < fuel
    → IsString n digits
    → puts_text fuel (set_offset 1 digits (update conv_buf 0 b'-')) s
      ≡ some (put_all (b'-' ∷ chars n 0 digits) s)
unfolding chars
minus_sign fuel n digits conv_buf s enough string =
    let text = set_offset 1 digits (update conv_buf 0 b'-') in
    let whole : IsString (suc n) text = record {
      inside = λ k low. ground (arith, string.inside (k - 1));
      ends = ground (arith, string.ends);
    } in
    puts_text_lem (suc n) fuel text s (omega arith) whole
    ∙ ap (λ cs. some (put_all cs s)) (signed n digits conv_buf)
  where
    signed :
        (n : ℕ) (digits conv_buf : Bytes)
        → chars (suc n) 0 (set_offset 1 digits (update conv_buf 0 b'-')) ≡ b'-' ∷ chars n 0 digits
    signed n digits conv_buf =
        ap (λ cs. b'-' ∷ cs)
          (chars_shift n 1 0 (set_offset 1 digits (update conv_buf 0 b'-')) digits
            (λ k low. ground arith))

-- `%d`: the digits of the distance from zero, and a sign before those of a negative number.
pub print_signed_lem :
    (fuel value : ℕ) (conv_buf : Bytes) (s : Screen)
    → 35 ≤ fuel
    → value < 2 ^ 32
    → (text : List ℕ) × ShowsShort 10 (if ltb value (2 ^ 31) then value else 2 ^ 32 - value) text
      × (print_signed fuel conv_buf value s
          ≡ some (put_all (if ltb value (2 ^ 31) then text else b'-' ∷ text) s))
unfolding print_signed
print_signed_lem fuel value conv_buf s enough small = elim (Bool-cases (ltb value (2 ^ 31))) [
  | inl up ↦
      let (text, shows, runs) =
        print_number_lem fuel value 10 conv_buf s (omega arith) small (omega arith) (omega arith) in
      (text, rw up shows, rw (up, print_signed) runs)
  | inr down ↦
      let digits = itoa (2 ^ 32 - value) (at_offset 1 (update conv_buf 0 b'-')) 10 in
      let (n, few, fewer, r) =
        itoa_lem (2 ^ 32 - value) 10 (at_offset 1 (update conv_buf 0 b'-')) (ground (arith, down))
          (omega arith) (omega arith) in
      (
        chars n 0 digits,
        rw down (
          Shows-chars r,
          λ k more below. omega (arith, length-chars n 0 digits, fewer k more below),
        ),
        rw (down, print_signed)
            (minus_sign fuel n digits conv_buf s (omega (arith, few)) (Reads-IsString r)),
      )
]
