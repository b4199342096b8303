-- ===== src/Strings.antt =====
-- student-distrib/lib.c: the string and memory functions that the rest of the kernel calls.
-- A string is the memory from its pointer on; a loop that ends at the NUL has fuel, and `none` means
-- that the fuel ran out before one was met.
pub mod Compare
pub mod Copying
pub mod Numbers
pub mod Chars
mod Tests
use os.Prelude.{
  ℕ, zero, suc, ◌+◌, ◌-◌, ◌/◌, ◌%◌, Bool, true, false, ltb, ◌||◌, not, Option, none, some, ◌==◌,
  if◌then◌else◌, Bytes, update, count_up, ℤ, pos, int8, ◌-ℤ◌,
}

-- memcpy(dest, src, n) where `src` and `dest` do not overlap: each is memory of its own.
unfoldable pub copy_bytes : ℕ → Bytes → Bytes → Bytes
copy_bytes n src dest = count_up n 0 (λ i m. update m i (src i)) dest

-- memset(s, c, n)
unfoldable pub memset : Bytes → ℕ → ℕ → Bytes
memset s c n = count_up n 0 (λ i m. update m i c) s

-- The loop of `strlen`, at `len`.
unfoldable pub strlen_from : ℕ → ℕ → Bytes → Option ℕ
strlen_from zero len s = none
strlen_from (suc fuel) len s =
    let rest = strlen_from fuel (len + 1) s in if s len == 0 then some len else rest

unfoldable pub strlen : ℕ → Bytes → Option ℕ
unfolding strlen_from
strlen fuel s = strlen_from fuel 0 s

-- The loop of `strncmp`, at index `i` with `n` left; characters are signed.
unfoldable pub strncmp_from : ℕ → ℕ → Bytes → Bytes → ℤ
strncmp_from zero i s1 s2 = pos 0
strncmp_from (suc n) i s1 s2 =
    let rest = strncmp_from n (i + 1) s1 s2 in
    if not (s1 i == s2 i) || s1 i == 0 then int8 (s1 i) -ℤ int8 (s2 i) else rest

unfoldable pub strncmp : Bytes → Bytes → ℕ → ℤ
unfolding strncmp_from ◌-ℤ◌
strncmp s1 s2 n = strncmp_from n 0 s1 s2

-- The loop of `strcpy`, at `i`.
unfoldable pub strcpy_from : ℕ → ℕ → Bytes → Bytes → Option Bytes
strcpy_from zero i dest src = none
strcpy_from (suc fuel) i dest src =
    let rest = strcpy_from fuel (i + 1) (update dest i (src i)) src in
    if src i == 0 then some (update dest i 0) else rest

unfoldable pub strcpy : ℕ → Bytes → Bytes → Option Bytes
unfolding strcpy_from
strcpy fuel dest src = strcpy_from fuel 0 dest src

-- The two loops of `strncpy`, at `i` with `left` characters to go: once a NUL is met, only NULs are
-- stored.
unfoldable pub strncpy_from : ℕ → ℕ → Bool → Bytes → Bytes → Bytes
strncpy_from zero i ended dest src = dest
strncpy_from (suc left) i ended dest src =
    let over = ended || src i == 0 in
    strncpy_from left (i + 1) over (update dest i (if over then 0 else src i)) src

unfoldable pub strncpy : Bytes → Bytes → ℕ → Bytes
unfolding strncpy_from
strncpy dest src n = strncpy_from n 0 false dest src

-- The loop of `strrev`: the places `beg` and `end` change their contents, as long as `beg < end`.
unfoldable pub swap_ends : ℕ → ℕ → ℕ → Bytes → Bytes
swap_ends zero beg end s = s
swap_ends (suc fuel) beg end s =
    let rest = swap_ends fuel (beg + 1) (end - 1) (update (update s end (s beg)) beg (s end)) in
    if ltb beg end then rest else s

-- `n` is what `strlen` returns; `n` rounds are more than the loop has. The empty string is left alone.
unfoldable pub strrev : ℕ → Bytes → Bytes
unfolding swap_ends
strrev n s = swap_ends n 0 (n - 1) s

-- lookup[i]
abbrev pub digit : ℕ → ℕ
digit i = if ltb i 10 then b'0' + i else b'A' + (i - 10)

-- The loop of `itoa`, at place `at`: the digits from the lowest on, and how many there are.
unfoldable pub put_digits : ℕ → ℕ → ℕ → ℕ → Bytes → ℕ × Bytes
put_digits zero value radix at buf = (at, buf)
put_digits (suc fuel) value radix at buf =
    let rest =
      put_digits fuel (value / radix) radix (at + 1) (update buf at (digit (value % radix))) in
    if value == 0 then (at, buf) else rest

-- A word has at most 32 digits, in base 2; `radix` is from 2 to 36, as `lookup` has no more digits.
unfoldable pub itoa : ℕ → Bytes → ℕ → Bytes
unfolding put_digits strrev
itoa value buf radix =
    if value == 0
    then update (update buf 0 b'0') 1 0
    else let (n, m) = put_digits 33 value radix 0 buf in strrev n (update m n 0)
