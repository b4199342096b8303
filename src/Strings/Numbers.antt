-- ===== src/Strings/Numbers.antt =====
-- `strrev` and `itoa`: the digits of a number.
use os.Prelude.{
  ℕ, true, zero, suc, ◌+◌, ◌-◌, ◌*◌, ◌/◌, ◌%◌, ◌^◌, ◌<◌, ◌≤◌, ◌≡◌, refl, arith, false, ◌==◌, ltb,
  leb, ◌&&◌, if◌then◌else◌, Bytes, update, ap, ◌∙◌, sym, Bool-cases, inl, inr, ◌⊎◌,
}
use native.Mathlib.Decide.{ℕ_discrete}
use native.Mathlib.Numerals.{unary_clauses}
use native.Mathlib.Omega.{div_any}
use native.Mathlib.Nat.{mod-lt, pow-suc, div-lt_iff_lt-mul}
use mathlib.Core.Path.{subst}
use os.Strings.{swap_ends, strrev, digit, put_digits, itoa}

-- The number of a digit up to Z.
abbrev pub from_digit : ℕ → ℕ
from_digit c = if ltb c b'A' then c - b'0' else c - b'A' + 10

from-digit : (i : ℕ) → i < 36 → from_digit (digit i) ≡ i
from-digit i h = ground arith

halves : (value radix bound : ℕ) → 2 ≤ radix → value < 2 * bound → value / radix < bound
halves value zero bound h small = absurd (omega arith)
halves value (suc zero) bound h small = absurd (omega arith)
halves value (suc (suc r)) bound h small = omega (arith, div_any value (suc (suc r)))

-- `s` with the places from `beg` to `end` turned round.
swap_ends_lem :
    (fuel beg end k : ℕ) (s : Bytes)
    → end ≤ beg + fuel
    → swap_ends fuel beg end s k ≡ (if leb beg k && leb k end then s (beg + end - k) else s k)
unfolding swap_ends
swap_ends_lem zero beg end k s h = ground arith
swap_ends_lem (suc fuel) beg end k s h =
    ground
      (arith, swap_ends_lem fuel (beg + 1) (end - 1) k (update (update s end (s beg)) beg (s end)))

-- The number whose digits are the first `n` characters of `s`.
unfoldable pub value_of : ℕ → ℕ → Bytes → ℕ
value_of radix zero s = 0
value_of radix (suc n) s = value_of radix n s * radix + from_digit (s n)

-- The same for `n` digits from `start` on with the lowest first.
unfoldable low_first : ℕ → ℕ → ℕ → Bytes → ℕ
low_first radix zero start s = 0
low_first radix (suc n) start s = from_digit (s start) + radix * low_first radix n (start + 1) s

-- A digit of the base: 0 to 9, and then A to Z.
abbrev pub IsDigit : ℕ → ℕ → Type 0
IsDigit radix c = (((b'0' ≤ c) × (c ≤ b'9')) ⊎ ((b'A' ≤ c) × (c ≤ b'Z'))) × (from_digit c < radix)

digit-IsDigit : (radix i : ℕ) → i < radix → i < 36 → IsDigit radix (digit i)
digit-IsDigit radix i low high = elim (Bool-cases (ltb i 10)) [
  | inl few ↦ (rw few (inl (omega arith, ground (arith, few))), omega (arith, from-digit i high))
  | inr more ↦ (rw more (inr (omega arith, ground (arith, more))), omega (arith, from-digit i high))
]

-- Digits.
abbrev pub AreDigits : ℕ → ℕ → ℕ → Bytes → Type 0
AreDigits radix start n s = (k : ℕ) → start ≤ k → k < n → IsDigit radix (s k)

-- `r` has the digits of `value` from `at` on, over what `buf` held.
record Written (at value radix : ℕ) (buf : Bytes) (r : ℕ × Bytes) : Type 0 where
  pub from : at ≤ r.0
  pub some_digit : 0 < value → at < r.0
  pub value_is : low_first radix (r.0 - at) at r.1 ≡ value
  pub kept : (k : ℕ) → k < at → r.1 k ≡ buf k
  pub digits : AreDigits radix at r.0 r.1

nothing-Written : (at radix : ℕ) (buf : Bytes) → Written at 0 radix buf (at, buf)
unfolding low_first
nothing-Written at radix buf = record {
  from = omega arith;
  some_digit = λ more. absurd (omega arith);
  value_is = ap (λ n. low_first radix n at buf) (minus_self at);
  kept = λ k low. refl;
  digits = λ k low high. absurd (omega arith);
}
  where
    minus_self : (n : ℕ) → n - n ≡ 0
    minus_self n = omega arith

one_digit :
    (radix n start : ℕ) (s : Bytes)
    → start < n
    → low_first radix (n - start) start s
      ≡ from_digit (s start) + radix * low_first radix (n - (start + 1)) (start + 1) s
unfolding low_first
one_digit radix n start s more = ap (λ len. low_first radix len start s) (shift n start more)
  where
    shift : (n start : ℕ) → start < n → n - start ≡ suc (n - (start + 1))
    shift n start more = omega arith

digit-Written :
    (at value radix : ℕ) (buf : Bytes) (r : ℕ × Bytes)
    → 2 ≤ radix
    → radix ≤ 36
    → Written (at + 1) (value / radix) radix (update buf at (digit (value % radix))) r
    → Written at value radix buf r
digit-Written at value radix buf r h h' rest =
    let small : value % radix < radix = mod-lt value (omega arith) in
    let here : r.1 at ≡ digit (value % radix) = rest.kept at (omega arith) ∙ ground arith in
    record {
      from = omega (arith, rest.from);
      some_digit = λ more. omega (arith, rest.from);
      value_is =
          one_digit radix r.0 at r.1 (omega (arith, rest.from))
          ∙ rw (here, from-digit (value % radix) (omega (arith, small)), rest.value_is)
              (omega (arith, div_any value radix));
      kept = λ k low. rest.kept k (omega arith) ∙ ground arith;
      digits = λ k low high. elim (ℕ_discrete k at) [
        | yes e ↦
            subst (IsDigit radix) (sym (ap r.1 e ∙ here))
              (digit-IsDigit radix (value % radix) small (omega (arith, small)))
        | no ne ↦ rest.digits k (omega arith) high
      ];
    }

put_digits_lem :
    (fuel value radix at : ℕ) (buf : Bytes)
    → 2 ≤ radix
    → radix ≤ 36
    → value < 2 ^ fuel
    → Written at value radix buf (put_digits fuel value radix at buf)
      × ((put_digits fuel value radix at buf).0 ≤ at + fuel)
unfolding put_digits
put_digits_lem zero zero radix at buf h h' small = (nothing-Written at radix buf, omega arith)
put_digits_lem zero (suc value) radix at buf h h' small = absurd (omega arith)
put_digits_lem (suc fuel) value radix at buf h h' small = elim (Bool-cases (value == 0)) [
  | inl none_left ↦ rw none_left (
    subst (λ v. Written at v radix buf (at, buf)) (ground (arith, none_left))
        (nothing-Written at radix buf),
    omega arith,
  )
  | inr more ↦
      let (rest, few) =
        put_digits_lem fuel (value / radix) radix (at + 1) (update buf at (digit (value % radix))) h
          h' (halves value radix (2 ^ fuel) h (omega (arith, small, pow-suc 2 fuel))) in
      rw more (digit-Written at value radix buf _ h h' rest, omega (arith, few))
]

-- Reading `n` digits from the highest on, and from the lowest on in the string that is turned round.
value_of-turned :
    (radix n k : ℕ) (s t : Bytes)
    → k ≤ n
    → ((i : ℕ) → i < n → s i ≡ t (n - 1 - i))
    → value_of radix k s ≡ low_first radix k (n - k) t
unfolding value_of low_first
value_of-turned radix n zero s t h turned = refl
value_of-turned radix n (suc k) s t h turned =
    let ih = value_of-turned radix n k s t (omega arith) turned in
    let place : n - 1 - k ≡ n - suc k = omega arith in
    let next : n - k ≡ n - suc k + 1 = omega arith in
    rw (ih, turned k (omega arith), place, next) (omega arith)

-- `strrev` of the `n` characters of `m`, which a NUL is put behind.
strrev_lem :
    (n k : ℕ) (m : Bytes)
    → 0 < n
    → (strrev n (update m n 0) n ≡ 0) × (k < n → strrev n (update m n 0) k ≡ m (n - 1 - k))
unfolding strrev
strrev_lem n k m more =
    let turned = λ (j : ℕ). swap_ends_lem n 0 (n - 1) j (update m n 0) (omega arith) in
    (ground (arith, turned n), λ low. ground (arith, turned k))

low_first_at :
    {n n' i i' : ℕ} (radix : ℕ) (m : Bytes)
    → n ≡ n'
    → i ≡ i'
    → low_first radix n i m ≡ low_first radix n' i' m
low_first_at radix m e e' = cc

-- A string of digits whose value is `value`.
pub record Reads (radix value : ℕ) (s : Bytes) (n : ℕ) : Type 0 where
  pub more : 0 < n
  pub ends : s n ≡ 0
  pub digits : AreDigits radix 0 n s
  pub value_is : value_of radix n s ≡ value

turned-Reads :
    (radix value : ℕ) (buf : Bytes) (r : ℕ × Bytes)
    → 0 < value
    → Written 0 value radix buf r
    → Reads radix value (strrev r.0 (update r.1 r.0 0)) r.0
turned-Reads radix value buf (n, m) positive w =
    let more : 0 < n = w.some_digit positive in
    let inner : (k : ℕ) → k < n → strrev n (update m n 0) k ≡ m (n - 1 - k) =
      λ k. (strrev_lem n k m more).1 in
    record {
      more = more;
      ends = (strrev_lem n 0 m more).0;
      digits = λ k low high.
          subst (IsDigit radix) (sym (inner k high))
            (w.digits (n - 1 - k) (omega arith) (omega arith));
      value_is =
          value_of-turned radix n n (strrev n (update m n 0)) m (omega arith) inner
          ∙ low_first_at radix m (omega arith) (omega arith)
          ∙ w.value_is;
    }

zero-Reads : (radix : ℕ) (buf : Bytes) → 2 ≤ radix → Reads radix 0 (itoa 0 buf radix) 1
unfolding itoa value_of
zero-Reads radix buf h = record {
  more = omega arith;
  ends = ground arith;
  digits = λ k low high.
      subst (IsDigit radix) (sym (first k high))
        (digit-IsDigit radix 0 (omega arith) (omega arith));
  value_is = ground arith;
}
  where
    first : (k : ℕ) → k < 1 → itoa 0 buf radix k ≡ b'0'
    first k high = ground arith

smaller_quotient :
    (value radix bound : ℕ) → 2 ≤ radix → value < bound * radix → value / radix < bound
smaller_quotient value radix bound h below = (div-lt_iff_lt-mul (omega arith)).1 below

-- As many digits as a power of the base that is above the number.
put_digits-few :
    (fuel k value radix at : ℕ) (buf : Bytes)
    → 2 ≤ radix
    → value < radix ^ k
    → (put_digits fuel value radix at buf).0 ≤ at + k
unfolding put_digits
put_digits-few zero k value radix at buf h below = omega arith
put_digits-few (suc fuel) zero value radix at buf h below =
    let small : value < 1 = simp unary_clauses at below in
    let none_left : (value == 0) ≡ true = ground (arith, small) in rw none_left (omega arith)
put_digits-few (suc fuel) (suc k) value radix at buf h below = elim (Bool-cases (value == 0)) [
  | inl none_left ↦ rw none_left (omega arith)
  | inr more ↦
      let rest =
        put_digits-few fuel k (value / radix) radix (at + 1) (update buf at (digit (value % radix)))
          h (smaller_quotient value radix (radix ^ k) h (rw (← pow-suc radix k) below)) in
      rw more (omega (arith, rest))
]

itoa_some :
    (value radix : ℕ) (buf : Bytes)
    → (value == 0) ≡ false
    → let r = put_digits 33 value radix 0 buf in
      itoa value buf radix ≡ strrev r.0 (update r.1 r.0 0)
unfolding itoa
itoa_some value radix buf more = rw more refl

-- A number of 32 bits that `itoa` has written can be read back: for a base from 2 to 36 the buffer has a
-- string of digits of the base, 0 to 9 and then A to Z, at least one and at most 33, and their value, the
-- highest first, is the number. There
-- are no more digits than a power of the base that is above the number has.
pub itoa_lem :
    (value radix : ℕ) (buf : Bytes)
    → value < 2 ^ 32
    → 2 ≤ radix
    → radix ≤ 36
    → (n : ℕ) × (n ≤ 33)
      × ((k : ℕ) → 0 < k → value < radix ^ k → n ≤ k)
      × Reads radix value (itoa value buf radix) n
itoa_lem value radix buf small h h' = elim (Bool-cases (value == 0)) [
  | inl none_left ↦ (
    1,
    omega arith,
    (λ k more below. more),
    subst (λ v. Reads radix v (itoa v buf radix) 1) (ground (arith, none_left))
        (zero-Reads radix buf h),
  )
  | inr more ↦
      let (w, few) = put_digits_lem 33 value radix 0 buf h h' (omega arith) in
      let r = put_digits 33 value radix 0 buf in
      (
        r.0,
        omega (arith, few),
        (λ k more below. omega (arith, put_digits-few 33 k value radix 0 buf h below)),
        subst (λ s. Reads radix value s r.0) (sym (itoa_some value radix buf more))
            (turned-Reads radix value buf r (ground (arith, more)) w),
      )
]
