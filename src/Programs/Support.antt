-- ===== src/Programs/Support.antt =====
-- syscalls/ece391support.c: the functions of the programs that the models of the programs use.
pub mod Texts
use os.Prelude.{
  ℕ, zero, suc, ◌+◌, Option, none, some, ◌==◌, if◌then◌else◌, ◌||◌, update, Bytes, ℤ, pos, ◌-ℤ◌,
}
use os.Strings.{strlen}
use os.System.{System, write}

-- ece391_fdputs(1, text); the result of the write is not used.
unfoldable pub fdputs : ℕ → Bytes → System → Option System
unfolding strlen write
fdputs fuel text s = elim (strlen fuel text) [
  | none ↦ none
  | some n ↦ elim (write (pos 1) text n s) [ none ↦ none | some (_, s') ↦ some s' ]
]

-- The loop of `ece391_strcmp`, at index `i`; characters are unsigned.
unfoldable pub strcmp_from : ℕ → ℕ → Bytes → Bytes → Option ℤ
unfolding ◌-ℤ◌
strcmp_from zero i s1 s2 = none
strcmp_from (suc fuel) i s1 s2 =
    let rest = strcmp_from fuel (i + 1) s1 s2 in
    if s1 i == s2 i
    then if s1 i == 0 then some (pos 0) else rest
    else some (pos (s1 i) -ℤ pos (s2 i))

unfoldable pub strcmp : ℕ → Bytes → Bytes → Option ℤ
unfolding strcmp_from
strcmp fuel s1 s2 = strcmp_from fuel 0 s1 s2

-- The loop of `ece391_strncmp`, at index `i` with `n` left.
unfoldable pub ece391_strncmp_from : ℕ → ℕ → Bytes → Bytes → ℤ
unfolding ◌-ℤ◌
ece391_strncmp_from zero i s1 s2 = pos 0
ece391_strncmp_from (suc n) i s1 s2 =
    let rest = ece391_strncmp_from n (i + 1) s1 s2 in
    if s1 i == s2 i then if s1 i == 0 || n == 0 then pos 0 else rest else pos (s1 i) -ℤ pos (s2 i)

unfoldable pub ece391_strncmp : Bytes → Bytes → ℕ → ℤ
unfolding ece391_strncmp_from
ece391_strncmp s1 s2 n = ece391_strncmp_from n 0 s1 s2

-- ece391_strcpy(m + dst, m + src) within one memory.
unfoldable pub ece391_strcpy : ℕ → ℕ → ℕ → Bytes → Option Bytes
ece391_strcpy zero dst src m = none
ece391_strcpy (suc fuel) dst src m =
    let rest = ece391_strcpy fuel (dst + 1) (src + 1) (update m dst (m src)) in
    if m src == 0 then some (update m dst 0) else rest
