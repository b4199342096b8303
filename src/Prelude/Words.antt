-- ===== src/Prelude/Words.antt =====
-- Machine words. A 32-bit word is its bit pattern, a number below 2 ^ 32, and `int32` is the signed
-- integer that a pattern stands for. The integers are over the native numbers, under the library's
-- names, and serve as the return values of the C functions.
use Prim.Native.Nat.{ℕ, suc, ◌+◌, ◌-◌, ◌*◌, ◌/◌, ◌%◌, ◌^◌}
use mathlib.Core.Bool.{Bool, true, false}
use os.Prelude.Tests.{ltb, leb, if◌then◌else◌}

-- `negsuc n` is -(n + 1).
pub data ℤ : Type 0 where
  pos : ℕ → ℤ
  negsuc : ℕ → ℤ

-- The -1 that the kernel's functions return on failure.
abbrev pub minus_one : ℤ
minus_one = negsuc 0

abbrev pub is_neg : ℤ → Bool
is_neg (pos n) = false
is_neg (negsuc n) = true

abbrev pub u8 : ℕ → ℕ
u8 n = n % 2 ^ 8

abbrev pub u16 : ℕ → ℕ
u16 n = n % 2 ^ 16

abbrev pub u32 : ℕ → ℕ
u32 n = n % 2 ^ 32

-- a - b on 32-bit words
abbrev pub sub32 : ℕ → ℕ → ℕ
sub32 a b = (a + 2 ^ 32 - b) % 2 ^ 32

-- The signed value of a 32-bit pattern.
abbrev pub int32 : ℕ → ℤ
int32 n = if ltb n (2 ^ 31) then pos n else negsuc (2 ^ 32 - 1 - n)

-- `a < b` on the signed values of two 32-bit patterns: adding 2 ^ 31 carries the signed order over
-- to the unsigned one.
abbrev pub slt : ℕ → ℕ → Bool
slt a b = ltb (u32 (a + 2 ^ 31)) (u32 (b + 2 ^ 31))

-- How many rounds `for (i = 0; i < n; i++)` makes, for a signed bound `n`.
abbrev pub rounds : ℕ → ℕ
rounds n = if ltb n (2 ^ 31) then n else 0

-- The signed value of a byte, which is what a plain `char` holds.
abbrev pub int8 : ℕ → ℤ
int8 n = if ltb n (2 ^ 7) then pos n else negsuc (2 ^ 8 - 1 - n)

abbrev pos_part : ℤ → ℕ
pos_part (pos n) = n
pos_part (negsuc n) = 0

abbrev neg_part : ℤ → ℕ
neg_part (pos n) = 0
neg_part (negsuc n) = suc n

abbrev sub_ℕ : ℕ → ℕ → ℤ
sub_ℕ a b = if leb b a then pos (a - b) else negsuc (b - a - 1)

infixl 65 ◌-ℤ◌
unfoldable pub ◌-ℤ◌ : ℤ → ℤ → ℤ
a -ℤ b = sub_ℕ (pos_part a + neg_part b) (neg_part a + pos_part b)

-- The bit-field of width `w` from bit `lo` on, and a word with that field set to `v`.
abbrev pub field : ℕ → ℕ → ℕ → ℕ
field lo w e = e / 2 ^ lo % 2 ^ w

abbrev pub set_field : ℕ → ℕ → ℕ → ℕ → ℕ
set_field lo w v e = e % 2 ^ lo + v % 2 ^ w * 2 ^ lo + e / 2 ^ (lo + w) * 2 ^ (lo + w)
