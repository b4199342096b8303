-- ===== src/Memory/Filled.antt =====
-- The steps of memset, memset_word and memset_dword: what each leaves in memory, and a row of them.
use os.Prelude.{
  ℕ, zero, suc, ◌+◌, ◌-◌, ◌*◌, ◌/◌, ◌%◌, ◌^◌, ◌<◌, ◌≤◌, ◌≡◌, inl, inr, refl, arith, ◌==◌, Bytes,
  Bool-cases, in_range, if◌then◌else◌, ◌∙◌, sym,
}
use mathlib.Core.Path.{subst}
use os.Memory.{rep}
use os.Memory.Filling.{Filler, store_al, stosw, stosl, fill_align}

-- `r` follows `s` after `k` bytes, where address `a` gets `what a`.
pub record Filled (what : Bytes) (k : ℕ) (s r : Filler) : Type 0 where
  pub edi : r.edi ≡ s.edi + k
  pub eax : r.eax ≡ s.eax
  pub mem : (a : ℕ) → r.mem a ≡ (if in_range s.edi k a then what a else s.mem a)

Filled-here : (what : Bytes) (c : ℕ) (s : Filler) → Filled what 0 s (record s { ecx = c })
Filled-here what c s = record { edi = omega arith; eax = refl; mem = λ a. ground arith }

pub Filled-trans :
    (what : Bytes) (k j : ℕ) (s r t : Filler)
    → Filled what k s r
    → Filled what j r t
    → Filled what (k + j) s t
Filled-trans what k j s r t one two = record {
  edi = omega (arith, one.edi, two.edi);
  eax = two.eax ∙ one.eax;
  mem = λ a. ground (arith, one.edi, two.mem a, one.mem a);
}

pub Filled-at :
    {what : Bytes} {k j : ℕ} {s r : Filler} → k ≡ j → Filled what k s r → Filled what j s r
Filled-at {what = what} {s = s} {r = r} e one = subst (λ i. Filled what i s r) e one

-- A step of `k` bytes, from the addresses that are a multiple of `k` behind `start`.
unfoldable pub Steps : Bytes → ℕ → ℕ → ℕ → (Filler → Filler) → Type 0
Steps what k start eax step =
    (i : ℕ) (s : Filler)
    → s.edi ≡ start + k * i
    → s.eax ≡ eax
    → s.edi + k < 2 ^ 32
    → Filled what k s (step s)

pub rep-Filled :
    (what : Bytes) (k n start eax i : ℕ) (step : Filler → Filler) (s : Filler)
    → Steps what k start eax step
    → s.edi ≡ start + k * i
    → s.eax ≡ eax
    → s.edi + k * n < 2 ^ 32
    → Filled what (k * n) s (rep n step s)
unfolding rep Steps
rep-Filled what k zero start eax i step s one h h' room =
    Filled-at (omega arith) (Filled-here what s.ecx s)
rep-Filled what k (suc n) start eax i step s one h h' room =
    let split : k * suc n ≡ k + k * n = ground arith in
    let next : k * (i + 1) ≡ k * i + k = ground arith in
    let first = one i s h h' (omega arith) in
    let rest =
      rep-Filled what k n start eax (i + 1) step (step s) one (omega (arith, first.edi))
        (first.eax ∙ h') (omega (arith, first.edi)) in
    Filled-at (sym split) (Filled-trans what k (k * n) s (step s) _ first rest)

pub store_al-Filled :
    (what : Bytes) (s : Filler)
    → what s.edi ≡ s.eax % 2 ^ 8
    → s.edi + 1 < 2 ^ 32
    → Filled what 1 s (store_al s)
store_al-Filled what s al room = record { edi = omega arith; eax = refl; mem = λ a. ground arith }

-- Byte `i` of a register.
abbrev pub byte_of : ℕ → ℕ → ℕ
byte_of eax i =
    if i == 0
    then eax % 2 ^ 8
    else if i == 1
    then eax / 2 ^ 8 % 2 ^ 8
    else if i == 2
    then eax / 2 ^ 16 % 2 ^ 8
    else eax / 2 ^ 24 % 2 ^ 8

pub stosw-Filled :
    (what : Bytes) (s : Filler)
    → what s.edi ≡ byte_of s.eax 0
    → what (s.edi + 1) ≡ byte_of s.eax 1
    → s.edi + 2 < 2 ^ 32
    → Filled what 2 s (stosw s)
stosw-Filled what s b0 b1 room = record { edi = omega arith; eax = refl; mem = λ a. ground arith }

pub stosl-Filled :
    (what : Bytes) (s : Filler)
    → what s.edi ≡ byte_of s.eax 0
    → what (s.edi + 1) ≡ byte_of s.eax 1
    → what (s.edi + 2) ≡ byte_of s.eax 2
    → what (s.edi + 3) ≡ byte_of s.eax 3
    → s.edi + 4 < 2 ^ 32
    → Filled what 4 s (stosl s)
stosl-Filled what s b0 b1 b2 b3 room = record {
  edi = omega arith;
  eax = refl;
  mem = λ a. ground arith;
}

-- The bytes up to the address of a word, and how many are left.
pub fill_align-Filled :
    (what : Bytes) (n : ℕ) (s : Filler)
    → ((a : ℕ) → what a ≡ s.eax % 2 ^ 8)
    → s.edi + n < 2 ^ 32
    → let r = fill_align n s in (r.ecx ≤ n) × Filled what (n - r.ecx) s r
unfolding fill_align
fill_align-Filled what zero s all room = (omega arith, Filled-here what 0 s)
fill_align-Filled what (suc n) s all room = elim (Bool-cases (s.edi % 4 == 0)) [
  | inl word ↦ rw word (omega arith, Filled-at (omega arith) (Filled-here what (suc n) s))
  | inr odd ↦
      let first = store_al-Filled what s (all s.edi) (omega arith) in
      let (few, rest) = fill_align-Filled what n (store_al s) all (omega (arith, first.edi)) in
      rw odd (
        omega (arith, few),
        Filled-at (omega (arith, few)) (Filled-trans what 1 _ s (store_al s) _ first rest),
      )
]
