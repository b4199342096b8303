-- ===== src/Programs/Shell/Answers.antt =====
-- What the shell does with a line, once it has been read.
use os.Prelude.{
  ℕ, zero, suc, ◌-◌, ◌<◌, ◌≡◌, ◌≢◌, ◌↔◌, refl, arith, false, Bytes, List, [], ◌∷◌, some, ℤ, pos,
  negsuc, ap, ◌==◌, if◌then◌else◌, Bool-cases, inl, inr,
}
use os.Strings.Chars.{length}
use os.FileSys.{is_zero}
use os.Command.Args.{NoNul}
use os.Kernel.{nth}
use os.Programs.Support.Texts.{nth-end, IsString, strcmp_lem}
use os.Programs.Shell.{Place, at_prompt, at_execute, at_end, trim, take_line, exit_text}

-- What the shell does with a line.
abbrev pub Answers : List ℕ → Place → Type 0
Answers cs next =
    (cs ≡ [] → next ≡ at_prompt)
    × (cs ≡ exit_text → next ≡ at_end 0)
    × (cs ≢ [] → cs ≢ exit_text → next ≡ at_execute)

-- The line as it stands in the buffer, without a line feed.
pub trim-IsString :
    (cs : List ℕ) (m : Bytes)
    → nth cs (length cs - 1) ≢ b'\n'
    → IsString cs m
    → IsString cs (trim (length cs) m)
trim-IsString cs m ends holds k low =
    let last = holds (length cs - 1) (omega arith) in
    let no_feed : (m (length cs - 1) == b'\n') ≡ false = ground (arith, last, ends) in
    rw no_feed (ground (arith, holds k low, nth-end cs))

exit-NoNul : NoNul exit_text
exit-NoNul = (λ e. omega arith, (λ e. omega arith, (λ e. omega arith, (λ e. omega arith, tt))))

first_char : (cs : List ℕ) → NoNul cs → nth cs 0 ≡ 0 → cs ≡ []
first_char [] clean e = refl
first_char (c ∷ cs) (some_char, clean) e = absurd (some_char e)

no_exit :
    (cs : List ℕ) (c : ℕ)
    → NoNul cs
    → c ≡ nth cs 0
    → cs ≢ exit_text
    → Answers cs (if c == 0 then at_prompt else at_execute)
no_exit cs c clean first other = elim (Bool-cases (c == 0)) [
  | inl z ↦ rw z (
    (λ _. refl),
    (λ e. absurd (other e)),
    λ some_char _. absurd (some_char (first_char cs clean (ground (arith, z, first)))),
  )
  | inr nz ↦ rw nz (
    (λ e. absurd (ground (arith, nz, first, ap (λ ds. nth ds 0) e))),
    (λ e. absurd (other e)),
    λ _ _. refl,
  )
]

asked :
    (cs : List ℕ) (c : ℕ) (r : ℤ)
    → NoNul cs
    → c ≡ nth cs 0
    → (r ≡ pos 0) ↔ (cs ≡ exit_text)
    → Answers cs (if is_zero r then at_end 0 else if c == 0 then at_prompt else at_execute)
asked cs c (pos zero) clean first iff =
    let is_exit = iff.0 refl in ((λ e. cc), (λ _. refl), λ _ other. absurd (other is_exit))
asked cs c (pos (suc n)) clean first iff = no_exit cs c clean first (λ e. let z = iff.1 e in cc)
asked cs c (negsuc n) clean first iff = no_exit cs c clean first (λ e. let z = iff.1 e in cc)

pub take_line-Answers :
    (fuel : ℕ) (cs : List ℕ) (m : Bytes)
    → length cs < fuel
    → NoNul cs
    → IsString cs m
    → (next : Place) × (take_line fuel m ≡ some next) × Answers cs next
unfolding take_line
take_line-Answers fuel cs m enough clean holds =
    let (r, compared, iff) =
      strcmp_lem cs exit_text fuel m (nth exit_text) enough clean exit-NoNul holds
        (λ k low. refl) in
    (_, rw (compared, take_line) refl, asked cs (m 0) r clean (holds 0 (omega arith)) iff)
