-- ===== src/Strings/Chars.antt =====
-- The characters of a string as a list.
use os.Prelude.{
  ℕ, zero, suc, ◌+◌, ◌<◌, ◌≤◌, ◌≡◌, ◌≢◌, refl, arith, false, List, [], ◌∷◌, ◌==◌, Bytes, some, ap,
  ◌∙◌,
}
use os.Strings.{strlen, strlen_from}

-- The characters m[start .. start + n).
unfoldable pub chars : ℕ → ℕ → Bytes → List ℕ
chars zero start m = []
chars (suc n) start m = m start ∷ chars n (start + 1) m

abbrev pub length {ℓ} : {A : Type ℓ} → List A → ℕ
length [] = 0
length (c ∷ cs) = suc (length cs)

pub chars_ext :
    (n start : ℕ) (m m' : Bytes)
    → ((k : ℕ) → start ≤ k → k < start + n → m k ≡ m' k)
    → chars n start m ≡ chars n start m'
unfolding chars
chars_ext zero start m m' h = refl
chars_ext (suc n) start m m' h =
    let tail = chars_ext n (start + 1) m m' (λ k low high. h k (omega arith) (omega arith)) in
    let head = h start (omega arith) (omega arith) in cc

pub length-chars : (n start : ℕ) (m : Bytes) → length (chars n start m) ≡ n
unfolding chars
length-chars zero start m = refl
length-chars (suc n) start m = ap suc (length-chars n (start + 1) m)

-- A string of `n` characters stands at `start`, and place `k` is none of its NULs.
strlen_from_at :
    (fuel i n k : ℕ) (m : Bytes)
    → strlen_from fuel i m ≡ some n
    → (i ≤ n) × (n < i + fuel) × (m n ≡ 0) × (i ≤ k → k < n → m k ≢ 0)
unfolding strlen_from
strlen_from_at zero i n k m h = cc
strlen_from_at (suc fuel) i n k m h = ground (arith, strlen_from_at fuel (i + 1) n k m)

pub strlen_at :
    (fuel n k : ℕ) (m : Bytes) → strlen fuel m ≡ some n → (n < fuel) × (m n ≡ 0) × (k < n → m k ≢ 0)
unfolding strlen
strlen_at fuel n k m h = ground (arith, strlen_from_at fuel 0 n k m h)

-- Enough fuel finds the length of a string.
pub strlen_from_enough :
    (n fuel i : ℕ) (m : Bytes)
    → n < fuel
    → ((k : ℕ) → i ≤ k → k < i + n → m k ≢ 0)
    → m (i + n) ≡ 0
    → strlen_from fuel i m ≡ some (i + n)
unfolding strlen_from
strlen_from_enough n zero i m h inside ends = absurd (omega arith)
strlen_from_enough zero (suc fuel) i m h inside ends = ground arith
strlen_from_enough (suc n) (suc fuel) i m h inside ends =
    let here : (m i == 0) ≡ false = ground (arith, inside i (omega arith) (omega arith)) in
    rw here (
      strlen_from_enough n fuel (i + 1) m (omega arith)
        (λ k low high. inside k (omega arith) (omega arith)) (ap m (omega arith) ∙ ends)
      ∙ ground arith)
