-- ===== src/Programs/Support/Texts.antt =====
-- Texts of the programs, what printing one does, and the comparison of two strings.
use os.Prelude.{
  true, false, sym, ℕ, zero, suc, ◌+◌, ◌<◌, ◌≤◌, ◌≡◌, ◌≢◌, ◌↔◌, refl, arith, Bytes, List, [], ◌∷◌,
  some, pos, ap, ◌∙◌, ℤ, ◌-ℤ◌, ◌==◌, Bool-cases, inl, inr,
}
use os.Strings.{strlen}
use os.Strings.Chars.{length, strlen_from_enough}
use os.Keyboard.{read_out}
use os.System.{System}
use os.Command.Args.{NoNul}
use os.Kernel.{nth}
use os.Programs.Calls.{Prints, printed, printed_lem}
use os.Programs.Support.{fdputs, strcmp, strcmp_from}

-- A text: no NUL, and short.
abbrev pub IsText : List ℕ → Type 0
IsText cs = NoNul cs × (length cs < 100)

pub nth-inside : (cs : List ℕ) (k : ℕ) → NoNul cs → k < length cs → nth cs k ≢ 0
nth-inside [] k clean low = absurd (omega arith)
nth-inside (c ∷ cs) zero (some_char, clean) low = some_char
nth-inside (c ∷ cs) (suc k) (some_char, clean) low = nth-inside cs k clean (omega arith)

pub nth-end : (cs : List ℕ) → nth cs (length cs) ≡ 0
nth-end [] = refl
nth-end (c ∷ cs) = nth-end cs

pub read_out-nth :
    (cs : List ℕ) (i : ℕ) (m : Bytes)
    → ((k : ℕ) → m (i + k) ≡ nth cs k)
    → read_out (length cs) i m ≡ cs
unfolding read_out
read_out-nth [] i m same = refl
read_out-nth (c ∷ cs) i m same =
    let first : m i ≡ c = ap m (omega arith) ∙ same 0 in
    let rest =
      read_out-nth cs (i + 1) m
        (λ k. let e : i + 1 + k ≡ i + suc k = omega arith in ap m e ∙ same (suc k)) in
    rw (first, rest) refl

pub sub_zero : (a b : ℕ) → pos a -ℤ pos b ≡ pos 0 → a ≡ b
unfolding ◌-ℤ◌
sub_zero a b e = ground arith

-- `m` holds the string `cs` from `i` on.
abbrev pub HoldsString : List ℕ → ℕ → Bytes → Type 0
HoldsString cs i m = (k : ℕ) → k ≤ length cs → m (i + k) ≡ nth cs k

pub HoldsString-rest :
    (c : ℕ) (cs : List ℕ) (i : ℕ) (m : Bytes) → HoldsString (c ∷ cs) i m → HoldsString cs (i + 1) m
HoldsString-rest c cs i m holds k low =
    let e : i + 1 + k ≡ i + suc k = omega arith in ap m e ∙ holds (suc k) (omega arith)

pub HoldsString-here : (cs : List ℕ) (i : ℕ) (m : Bytes) → HoldsString cs i m → m i ≡ nth cs 0
HoldsString-here cs i m holds = ap m (omega arith) ∙ holds 0 (omega arith)

-- A difference at the first character.
strcmp_from-differ :
    (fuel i a b : ℕ) (s1 s2 : Bytes)
    → s1 i ≡ a
    → s2 i ≡ b
    → a ≢ b
    → (r : ℤ) × (strcmp_from (suc fuel) i s1 s2 ≡ some r) × (r ≢ pos 0)
unfolding strcmp_from
strcmp_from-differ fuel i a b s1 s2 e1 e2 other =
    let differ : (s1 i == s2 i) ≡ false = ground (arith, e1, e2) in
    (
      pos (s1 i) -ℤ pos (s2 i),
      rw differ refl,
      λ same. other (sym e1 ∙ sub_zero (s1 i) (s2 i) same ∙ e2),
    )

strcmp_from_lem :
    (cs ds : List ℕ) (fuel i : ℕ) (s1 s2 : Bytes)
    → length cs < fuel
    → NoNul cs
    → NoNul ds
    → HoldsString cs i s1
    → HoldsString ds i s2
    → (r : ℤ) × (strcmp_from fuel i s1 s2 ≡ some r) × ((r ≡ pos 0) ↔ (cs ≡ ds))
unfolding strcmp_from
strcmp_from_lem cs ds zero i s1 s2 enough _ _ _ _ = absurd (omega arith)
strcmp_from_lem [] [] (suc fuel) i s1 s2 enough clean1 clean2 h1 h2 =
    let e1 = HoldsString-here [] i s1 h1 in
    let e2 = HoldsString-here [] i s2 h2 in
    let same : (s1 i == s2 i) ≡ true = ground (arith, e1, e2) in
    let ends : (s1 i == 0) ≡ true = ground (arith, e1) in
    (pos 0, rw (same, ends) refl, (λ _. refl, λ _. refl))
strcmp_from_lem [] (d ∷ ds) (suc fuel) i s1 s2 enough clean1 (some_d, clean2) h1 h2 =
    let (r, done, other) =
      strcmp_from-differ fuel i 0 d s1 s2 (HoldsString-here [] i s1 h1)
        (HoldsString-here (d ∷ ds) i s2 h2) (λ e. some_d (sym e)) in
    (r, done, (λ e. absurd (other e), λ e. cc))
strcmp_from_lem (c ∷ cs) [] (suc fuel) i s1 s2 enough (some_c, clean1) clean2 h1 h2 =
    let (r, done, other) =
      strcmp_from-differ fuel i c 0 s1 s2 (HoldsString-here (c ∷ cs) i s1 h1)
        (HoldsString-here [] i s2 h2) some_c in
    (r, done, (λ e. absurd (other e), λ e. cc))
strcmp_from_lem (c ∷ cs) (d ∷ ds) (suc fuel) i s1 s2 enough (some_c, clean1) (some_d, clean2) h1
      h2 =
    let e1 = HoldsString-here (c ∷ cs) i s1 h1 in
    let e2 = HoldsString-here (d ∷ ds) i s2 h2 in
    elim (Bool-cases (c == d)) [
      | inl found ↦
          let same : c ≡ d = ground (arith, found) in
          let equal : (s1 i == s2 i) ≡ true = ground (arith, e1, e2) in
          let inner : (s1 i == 0) ≡ false = ground (arith, e1) in
          let (r, done, iff) =
            strcmp_from_lem cs ds fuel (i + 1) s1 s2 (omega arith) clean1 clean2
              (HoldsString-rest c cs i s1 h1) (HoldsString-rest d ds i s2 h2) in
          (r, rw (equal, inner) done, (λ z. let e = iff.0 z in cc, λ e. iff.1 cc))
      | inr missed ↦
          let other : c ≢ d = λ e. ground (arith, missed, e) in
          let (r, done, nonzero) = strcmp_from-differ fuel i c d s1 s2 e1 e2 other in
          (r, done, (λ e. absurd (nonzero e), λ e. absurd (other cc)))
    ]

-- `m` holds the string `cs`.
abbrev pub IsString : List ℕ → Bytes → Type 0
IsString cs m = (k : ℕ) → k ≤ length cs → m k ≡ nth cs k

pub IsString-start : (cs : List ℕ) (m : Bytes) → IsString cs m → HoldsString cs 0 m
IsString-start cs m holds k low = ap m (omega arith) ∙ holds k low

-- `ece391_strcmp` of two strings gives a number, and gives 0 exactly if they are the same string, if the
-- fuel is more than the first one's length.
pub strcmp_lem :
    (cs ds : List ℕ) (fuel : ℕ) (s1 s2 : Bytes)
    → length cs < fuel
    → NoNul cs
    → NoNul ds
    → IsString cs s1
    → IsString ds s2
    → (r : ℤ) × (strcmp fuel s1 s2 ≡ some r) × ((r ≡ pos 0) ↔ (cs ≡ ds))
unfolding strcmp
strcmp_lem cs ds fuel s1 s2 enough clean1 clean2 h1 h2 =
    strcmp_from_lem cs ds fuel 0 s1 s2 enough clean1 clean2 (IsString-start cs s1 h1)
      (IsString-start ds s2 h2)

pub strlen-IsString :
    (fuel : ℕ) (cs : List ℕ) (m : Bytes)
    → length cs < fuel
    → NoNul cs
    → IsString cs m
    → strlen fuel m ≡ some (length cs)
unfolding strlen
strlen-IsString fuel cs m enough clean holds =
    strlen_from_enough (length cs) fuel 0 m enough
      (λ k low high z. nth-inside cs k clean (omega arith) (sym (holds k (omega arith)) ∙ z))
      (ap m (omega arith) ∙ holds (length cs) (omega arith) ∙ nth-end cs)
    ∙ ap some (omega arith)

pub fdputs_lem :
    (fuel : ℕ) (text : List ℕ) (s : System)
    → 100 ≤ fuel
    → IsText text
    → Prints s
    → fdputs fuel (nth text) s ≡ some (printed (nth text) (length text) s)
unfolding fdputs
fdputs_lem fuel text s enough (clean, short) prints =
    rw
      (
        strlen-IsString fuel text (nth text) (omega arith) clean (λ k low. refl),
        (printed_lem (nth text) (length text) s prints (omega arith)).0,
        fdputs,
      )
      refl
