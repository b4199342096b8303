-- ===== src/Programs/Grep/Moves.antt =====
-- The copy of a line to the front of the buffer.
use os.Prelude.{
  ℕ, suc, ◌+◌, ◌<◌, ◌≤◌, ◌≡◌, refl, arith, true, false, zero, Bytes, List, [], ◌∷◌, update, some,
  Option, ap, ◌∙◌, ◌==◌,
}
use os.Strings.Chars.{length}
use os.Command.Args.{NoNul}
use os.Kernel.{nth}
use os.Programs.Support.Texts.{HoldsString, HoldsString-here, HoldsString-rest, IsString}
use os.Programs.Support.{ece391_strcpy}

-- What the copy to the front leaves.
pub record Moved (cs : List ℕ) (dst : ℕ) (m : Bytes) (result : Option Bytes) : Type 0 where
  pub kept : Bytes
  pub done : result ≡ some kept
  pub holds : HoldsString cs dst kept
  pub before : (a : ℕ) → a < dst → kept a ≡ m a

-- A string may be moved to lower addresses even where the two places overlap.
pub strcpy-Moved :
    (cs : List ℕ) (fuel dst src : ℕ) (m : Bytes)
    → length cs < fuel
    → dst ≤ src
    → NoNul cs
    → HoldsString cs src m
    → Moved cs dst m (ece391_strcpy fuel dst src m)
unfolding ece391_strcpy
strcpy-Moved cs zero dst src m enough down clean holds = absurd (omega arith)
strcpy-Moved [] (suc fuel) dst src m enough down clean holds =
    let ends : (m src == 0) ≡ true = ground (arith, HoldsString-here [] src m holds) in
    record {
      kept = update m dst 0;
      done = rw ends refl;
      holds = λ k low. ground arith;
      before = λ a low. ground arith;
    }
strcpy-Moved (c ∷ cs) (suc fuel) dst src m enough down (some_char, clean) holds =
    let first = HoldsString-here (c ∷ cs) src m holds in
    let m1 = update m dst (m src) in
    let inner : (m src == 0) ≡ false = ground (arith, first, some_char) in
    let after = HoldsString-rest c cs src m holds in
    let rest =
      strcpy-Moved cs fuel (dst + 1) (src + 1) m1 (omega arith) (omega arith) clean
        (λ k low. ground (arith, after k low)) in
    record {
      kept = rest.kept;
      done = rw inner rest.done;
      holds = λ k low. from k low rest.kept (ground (arith, rest.before dst, first)) rest.holds;
      before = λ a low. ground (arith, rest.before a);
    }
  where
    from :
        (k : ℕ)
        → k ≤ length (c ∷ cs)
        → (m' : Bytes) → m' dst ≡ c
        → HoldsString cs (dst + 1) m'
        → m' (dst + k) ≡ nth (c ∷ cs) k
    from zero low m' here there = ap m' (omega arith) ∙ here
    from (suc k) low m' here there =
        let e : dst + suc k ≡ dst + 1 + k = omega arith in ap m' e ∙ there k (omega arith)

pub front : (cs : List ℕ) (m : Bytes) → HoldsString cs 0 m → IsString cs m
front cs m holds k low = let e : k ≡ 0 + k = omega arith in ap m e ∙ holds k low
