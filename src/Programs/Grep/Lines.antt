-- ===== src/Programs/Grep/Lines.antt =====
-- A text as lines, in memory.
use os.Prelude.{
  ℕ, zero, suc, ◌+◌, ◌<◌, ◌≤◌, ◌≡◌, ◌≢◌, refl, arith, true, false, Bytes, List, [], ◌∷◌, ◌++◌, ap,
  ◌∙◌, ◌==◌, if◌then◌else◌,
}
use os.Strings.Chars.{length}
use os.Kernel.{nth}
use os.Programs.Grep.{find_end}
use os.Programs.Grep.Matches.{contains}
use os.Programs.Grep.Shows.{Printable, found_line}

-- A text of lines, each with its line feed, and of a last line `tail` without one, which may be empty.
abbrev pub text_of : List (List ℕ) → List ℕ → List ℕ
text_of [] tail = tail
text_of (l ∷ ls) tail = l ++ (b'\n' ∷ text_of ls tail)

abbrev pub NoFeed : List ℕ → Type 0
NoFeed [] = Unit {0}
NoFeed (c ∷ cs) = (c ≢ b'\n') × NoFeed cs

-- Lines without a NUL, which can be printed.
abbrev pub AreLines : ℕ → List (List ℕ) → List ℕ → Type 0
AreLines fuel [] tail = NoFeed tail × Printable fuel tail
AreLines fuel (l ∷ ls) tail = NoFeed l × Printable fuel l × AreLines fuel ls tail

-- What grep prints for a line, and for the lines of a text.
abbrev pub if_found : List ℕ → List ℕ → List ℕ → List ℕ
if_found name pattern l = if contains pattern l then found_line name l else []

abbrev pub found_lines : List ℕ → List ℕ → List (List ℕ) → List ℕ → List ℕ
found_lines name pattern [] tail = if_found name pattern tail
found_lines name pattern (l ∷ ls) tail = if_found name pattern l ++ found_lines name pattern ls tail

-- The characters of `cs` stand in memory from `i` on.
abbrev pub HoldsChars : List ℕ → ℕ → Bytes → Type 0
HoldsChars cs i m = (k : ℕ) → k < length cs → m (i + k) ≡ nth cs k

pub length-append : (cs ds : List ℕ) → length (cs ++ ds) ≡ length cs + length ds
length-append [] ds = omega arith
length-append (c ∷ cs) ds = let e = length-append cs ds in omega arith

pub length-text_of :
    (ls : List (List ℕ)) (tail : List ℕ) → length ls + length tail ≤ length (text_of ls tail)
length-text_of [] tail = omega arith
length-text_of (l ∷ ls) tail =
    let e = length-append l (b'\n' ∷ text_of ls tail) in
    let e' = length-text_of ls tail in omega arith

pub nth-left : (cs ds : List ℕ) (k : ℕ) → k < length cs → nth (cs ++ ds) k ≡ nth cs k
nth-left [] ds k low = absurd (omega arith)
nth-left (c ∷ cs) ds zero low = refl
nth-left (c ∷ cs) ds (suc k) low = nth-left cs ds k (omega arith)

pub nth-right : (cs ds : List ℕ) (k : ℕ) → nth (cs ++ ds) (length cs + k) ≡ nth ds k
nth-right [] ds k = ap (nth ds) (omega arith)
nth-right (c ∷ cs) ds k =
    let e : length (c ∷ cs) + k ≡ suc (length cs + k) = omega arith in
    ap (nth (c ∷ (cs ++ ds))) e ∙ nth-right cs ds k

-- The line feed behind a line is found.
pub find_end_lem :
    (l : List ℕ) (left i : ℕ) (m : Bytes)
    → NoFeed l
    → length l < left
    → HoldsChars l i m
    → m (i + length l) ≡ b'\n'
    → find_end left i m ≡ i + length l
unfolding find_end
find_end_lem l zero i m _ enough _ _ = absurd (omega arith)
find_end_lem [] (suc left) i m _ enough _ ends =
    let e : m i ≡ b'\n' = ap m (omega arith) ∙ ends in
    let feed : (m i == b'\n') ≡ true = ground (arith, e) in rw feed (omega arith)
find_end_lem (c ∷ cs) (suc left) i m (other, clean) enough holds ends =
    let e : m i ≡ c = ap m (omega arith) ∙ holds 0 (omega arith) in
    let inner : (m i == b'\n') ≡ false = ground (arith, e, other) in
    let rest =
      find_end_lem cs left (i + 1) m clean (omega arith)
        (λ k low.
          let e' : i + 1 + k ≡ i + suc k = omega arith in ap m e' ∙ holds (suc k) (omega arith))
        (ap m (omega arith) ∙ ends) in
    rw inner (rest ∙ omega arith)

-- No line feed is found.
pub find_end-NoFeed :
    (l : List ℕ) (i : ℕ) (m : Bytes)
    → NoFeed l
    → HoldsChars l i m
    → find_end (length l) i m ≡ i + length l
unfolding find_end
find_end-NoFeed [] i m plain holds = omega arith
find_end-NoFeed (c ∷ cs) i m (other, plain) holds =
    let e : m i ≡ c = ap m (omega arith) ∙ holds 0 (omega arith) in
    let inner : (m i == b'\n') ≡ false = ground (arith, e, other) in
    let rest = find_end-NoFeed cs (i + 1) m plain (λ k low.
      let e' : i + 1 + k ≡ i + suc k = omega arith in ap m e' ∙ holds (suc k) (omega arith)) in
    rw inner (rest ∙ omega arith)

pub AreLines-tail :
    (fuel : ℕ) (ls : List (List ℕ)) (tail : List ℕ)
    → AreLines fuel ls tail
    → NoFeed tail × Printable fuel tail
AreLines-tail fuel [] tail lines = lines
AreLines-tail fuel (l ∷ ls) tail (_, _, more) = AreLines-tail fuel ls tail more

append_assoc : (a b c : List ℕ) → (a ++ b) ++ c ≡ a ++ (b ++ c)
append_assoc [] b c = refl
append_assoc (x ∷ a) b c = ap (λ cs. x ∷ cs) (append_assoc a b c)

-- The last line may be searched later than the others.
pub found_lines_split :
    (name pattern : List ℕ) (ls : List (List ℕ)) (tail : List ℕ)
    → found_lines name pattern ls [] ++ if_found name pattern tail
      ≡ found_lines name pattern ls tail
found_lines_split name pattern [] tail = refl
found_lines_split name pattern (l ∷ ls) tail =
    append_assoc (if_found name pattern l) (found_lines name pattern ls [])
      (if_found name pattern tail)
    ∙ ap (λ cs. if_found name pattern l ++ cs) (found_lines_split name pattern ls tail)

pub nothing_found :
    (name pattern : List ℕ) (ls : List (List ℕ)) (tail : List ℕ)
    → length (text_of ls tail) ≡ 0
    → found_lines name pattern ls tail ≡ []
nothing_found name pattern [] [] e = refl
nothing_found name pattern [] (c ∷ cs) e = absurd (omega arith)
nothing_found name pattern (l ∷ ls) tail e = absurd (omega (arith, length-text_of (l ∷ ls) tail))
