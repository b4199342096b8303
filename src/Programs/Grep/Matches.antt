-- ===== src/Programs/Grep/Matches.antt =====
-- The comparison that grep makes at each place of a line.
use os.Prelude.{
  ℕ, zero, suc, ◌+◌, ◌≡◌, ◌≢◌, refl, arith, true, false, Bool, Bytes, List, [], ◌∷◌, some, ℤ, pos,
  negsuc, sym, ◌∙◌, ◌==◌, if◌then◌else◌, Bool-cases, inl, inr, ◌&&◌, ◌||◌, ◌-ℤ◌,
}
use os.Strings.Chars.{length}
use os.FileSys.{is_zero}
use os.Command.Args.{NoNul}
use os.System.{System}
use os.Programs.Support.{ece391_strncmp, ece391_strncmp_from}
use os.Programs.Support.Texts.{
  HoldsString, HoldsString-rest, HoldsString-here, sub_zero, IsString, IsString-start,
}
use os.Programs.Grep.{Job, search_line, print_line}

-- `line` begins with `pattern`.
abbrev pub starts : List ℕ → List ℕ → Bool
starts [] line = true
starts (p ∷ ps) [] = false
starts (p ∷ ps) (c ∷ cs) = c == p && starts ps cs

-- `pattern` stands somewhere in the line.
abbrev pub contains : List ℕ → List ℕ → Bool
contains pattern [] = false
contains pattern (c ∷ cs) = starts pattern (c ∷ cs) || contains pattern cs

is_zero_lem : (r : ℤ) → r ≢ pos 0 → is_zero r ≡ false
is_zero_lem (pos zero) other = absurd (other refl)
is_zero_lem (pos (suc n)) other = refl
is_zero_lem (negsuc n) other = refl

strncmp_from-starts :
    (ps cs : List ℕ) (i : ℕ) (s1 s2 : Bytes)
    → NoNul ps
    → NoNul cs
    → HoldsString cs i s1
    → HoldsString ps i s2
    → is_zero (ece391_strncmp_from (length ps) i s1 s2) ≡ starts ps cs
unfolding ece391_strncmp_from
strncmp_from-starts [] cs i s1 s2 _ _ _ _ = refl
strncmp_from-starts (p ∷ ps) [] i s1 s2 (some_p, clean) _ h1 h2 =
    let e1 = HoldsString-here [] i s1 h1 in
    let e2 = HoldsString-here (p ∷ ps) i s2 h2 in
    let differ : (s1 i == s2 i) ≡ false = ground (arith, e1, e2) in
    rw differ (
      is_zero_lem (pos (s1 i) -ℤ pos (s2 i))
        (λ z. some_p (sym e2 ∙ sym (sub_zero (s1 i) (s2 i) z) ∙ e1)))
strncmp_from-starts (p ∷ ps) (c ∷ cs) i s1 s2 (some_p, clean1) (some_c, clean2) h1 h2 =
    let e1 = HoldsString-here (c ∷ cs) i s1 h1 in
    let e2 = HoldsString-here (p ∷ ps) i s2 h2 in
    elim (Bool-cases (c == p)) [
      | inl found ↦
          let equal : (s1 i == s2 i) ≡ true = ground (arith, e1, e2, found) in
          let inner : (s1 i == 0) ≡ false = ground (arith, e1) in
          let rest =
            strncmp_from-starts ps cs (i + 1) s1 s2 clean1 clean2 (HoldsString-rest c cs i s1 h1)
              (HoldsString-rest p ps i s2 h2) in
          rw (equal, inner, found) (over ps rest)
      | inr missed ↦
          let differ : (s1 i == s2 i) ≡ false = ground (arith, e1, e2, missed) in
          rw (differ, missed)
            (is_zero_lem (pos (s1 i) -ℤ pos (s2 i))
              (λ z. ground (arith, e1, e2, missed, sub_zero (s1 i) (s2 i) z)))
    ]
  where
    over :
        (ps : List ℕ)
        → is_zero (ece391_strncmp_from (length ps) (i + 1) s1 s2) ≡ starts ps cs
        → is_zero (if length ps == 0 then pos 0 else ece391_strncmp_from (length ps) (i + 1) s1 s2)
          ≡ starts ps cs
    over [] rest = refl
    over (q ∷ qs) rest = let more : (length (q ∷ qs) == 0) ≡ false = ground arith in rw more rest

-- `check` reaches the end of the line, or the first place where the string stands.
pub search_line_lem :
    (p : ℕ) (ps cs : List ℕ) (job : Job) (check line_start : ℕ) (buf : Bytes) (s : System)
    → NoNul (p ∷ ps)
    → NoNul cs
    → IsString (p ∷ ps) job.pattern
    → HoldsString cs check buf
    → search_line job (length (p ∷ ps)) (length cs) check line_start buf s
      ≡ (if contains (p ∷ ps) cs then print_line job (λ k. buf (line_start + k)) s else some s)
unfolding search_line ece391_strncmp
search_line_lem p ps [] job check line_start buf s clean1 clean2 h1 h2 = refl
search_line_lem p ps (c ∷ cs) job check line_start buf s clean1 clean2 h1 h2 =
    let rest =
      search_line_lem p ps cs job (check + 1) line_start buf s clean1 clean2.1 h1
        (HoldsString-rest c cs check buf h2) in
    let here =
      strncmp_from-starts (p ∷ ps) (c ∷ cs) 0 (λ k. buf (check + k)) job.pattern clean1 clean2
        (IsString-start (c ∷ cs) (λ k. buf (check + k)) h2)
        (IsString-start (p ∷ ps) job.pattern h1) in
    let e1 = h1 0 (omega arith) in
    let e2 = HoldsString-here (c ∷ cs) check buf h2 in
    let first : (job.pattern 0 == buf check) ≡ (c == p) = ground (arith, e1, e2) in
    elim (Bool-cases (c == p)) [
      | inr missed ↦ rw (first, missed) rest
      | inl found ↦ elim (Bool-cases (starts ps cs)) [
        | inl there ↦
            let begins : starts (p ∷ ps) (c ∷ cs) ≡ true = rw (found, there) refl in
            let is_there = here ∙ begins in rw (first, found, is_there, there) refl
        | inr gone ↦
            let differs : starts (p ∷ ps) (c ∷ cs) ≡ false = rw (found, gone) refl in
            let is_none = here ∙ differs in rw (first, found, is_none, gone) rest
      ]
    ]
