-- ===== src/Strings/Compare.antt =====
-- `strncmp` against the strings that its arguments hold.
use os.Prelude.{
  ℕ, zero, suc, ◌+◌, ◌<◌, ◌≡◌, ◌↔◌, refl, arith, List, [], ◌∷◌, ◌==◌, if◌then◌else◌, Bytes, pos,
  int8, ◌-ℤ◌,
}
use os.Strings.{strncmp, strncmp_from}

-- The C string at index `i`, cut after `n` characters.
unfoldable pub c_string_from : ℕ → ℕ → Bytes → List ℕ
c_string_from zero i s = []
c_string_from (suc n) i s = if s i == 0 then [] else s i ∷ c_string_from n (i + 1) s

unfoldable pub c_string : ℕ → Bytes → List ℕ
unfolding c_string_from
c_string n s = c_string_from n 0 s

-- Every place holds a byte.
abbrev pub HoldsBytes : Bytes → Type 0
HoldsBytes s = (i : ℕ) → s i < 256

pub sub_bytes_zero : (a b : ℕ) → a < 256 → b < 256 → int8 a -ℤ int8 b ≡ pos 0 → a ≡ b
unfolding ◌-ℤ◌
sub_bytes_zero a b ha hb e = ground arith

sub_self : (a : ℕ) → int8 a -ℤ int8 a ≡ pos 0
unfolding ◌-ℤ◌
sub_self a = ground arith

strncmp_from_sound :
    (n i : ℕ) (s1 s2 : Bytes)
    → HoldsBytes s1
    → HoldsBytes s2
    → strncmp_from n i s1 s2 ≡ pos 0
    → c_string_from n i s1 ≡ c_string_from n i s2
unfolding strncmp_from c_string_from
strncmp_from_sound zero i s1 s2 b1 b2 e = refl
strncmp_from_sound (suc n) i s1 s2 b1 b2 e =
    ground
      (arith, b1 i, b2 i, sub_bytes_zero (s1 i) (s2 i), strncmp_from_sound n (i + 1) s1 s2 b1 b2)

strncmp_from_complete :
    (n i : ℕ) (s1 s2 : Bytes)
    → c_string_from n i s1 ≡ c_string_from n i s2
    → strncmp_from n i s1 s2 ≡ pos 0
unfolding strncmp_from c_string_from
strncmp_from_complete zero i s1 s2 e = refl
strncmp_from_complete (suc n) i s1 s2 e =
    ground (arith, sub_self (s1 i), strncmp_from_complete n (i + 1) s1 s2)

-- `strncmp` returns 0 exactly when both arguments hold the same string up to `n` characters, if all
-- places hold bytes.
pub strncmp-eq-zero :
    (n : ℕ) (s1 s2 : Bytes)
    → HoldsBytes s1
    → HoldsBytes s2
    → (strncmp s1 s2 n ≡ pos 0) ↔ (c_string n s1 ≡ c_string n s2)
unfolding strncmp c_string
strncmp-eq-zero n s1 s2 b1 b2 =
    (strncmp_from_sound n 0 s1 s2 b1 b2, strncmp_from_complete n 0 s1 s2)
