-- ===== src/Prelude/Memory.antt =====
-- Memory that a pointer reaches: the bytes (or words) from it on, by their index.
use Prim.Native.Nat.{ℕ, zero, suc, ◌+◌, ◌*◌, ◌^◌}
use mathlib.Core.Path.{◌≡◌}
use mathlib.Core.Bool.{Bool, ◌&&◌}
use native.Mathlib.Omega.{arith}
use os.Prelude.Tests.{ltb, leb, ◌==◌, if◌then◌else◌}

-- The bytes that a pointer reaches.
abbrev pub Bytes : Type 0
Bytes = ℕ → ℕ

-- m[i] = v
abbrev pub update {ℓ} : {Cell : Type ℓ} (m : ℕ → Cell) (i : ℕ) (v : Cell) (j : ℕ) → Cell
update m i v j = if j == i then v else m j

-- The little-endian word at `a`.
abbrev pub word32 : Bytes → ℕ → ℕ
word32 m a = m a + 2 ^ 8 * m (a + 1) + 2 ^ 16 * m (a + 2) + 2 ^ 24 * m (a + 3)

-- `a` lies in the `n` places from `start` on.
abbrev pub in_range : ℕ → ℕ → ℕ → Bool
in_range start n a = leb start a && ltb a (start + n)

-- for (i = start; i < start + n; i++) body, over a state: recursion on the rounds left.
unfoldable pub count_up {ℓ} :
    {State : Type ℓ} (left start : ℕ) (round : ℕ → State → State) (now : State) → State
count_up zero start round now = now
count_up (suc left) start round now = count_up left (start + 1) round (round start now)

-- A counted loop whose round `i` writes place `i` alone, from the value there: each place of the
-- range is written once, and no other changes.
pub count_up_each {ℓ} :
    {A : Type ℓ} (body : ℕ → (ℕ → A) → ℕ → A) (f : ℕ → A → A)
    → ((i : ℕ) (m : ℕ → A) (a : ℕ) → body i m a ≡ (if a == i then f i (m i) else m a))
    → (n start : ℕ) (m : ℕ → A) (a : ℕ)
    → count_up n start body m a ≡ (if in_range start n a then f a (m a) else m a)
unfolding count_up
count_up_each body f writes zero start m a = ground arith
count_up_each body f writes (suc n) start m a =
    ground (arith, count_up_each body f writes n (start + 1) (body start m) a, writes start m a)

pub count_up_writes {ℓ} :
    {A : Type ℓ} (f : ℕ → A → A) (n start : ℕ) (m : ℕ → A) (a : ℕ)
    → count_up n start (λ i s. update s i (f i (s i))) m a
      ≡ (if in_range start n a then f a (m a) else m a)
count_up_writes f = count_up_each (λ i s. update s i (f i (s i))) f (λ i m a. ground arith)
