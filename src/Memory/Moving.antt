-- ===== src/Memory/Moving.antt =====
-- What `memmove` leaves in memory.
use os.Prelude.{
  ℕ, zero, suc, ◌+◌, ◌-◌, ◌^◌, ◌<◌, ◌≤◌, ◌≡◌, ◌⊎◌, inl, inr, refl, arith, true, false, ltb, leb,
  if◌then◌else◌, Bytes, u32, in_range, ap, ◌∙◌, Bool-cases,
}
use os.Memory.{Machine, movsb, rep, advance, memmove}

-- The memory after `n` bytes from `src` were moved to `dest` all at once.
abbrev pub moved : ℕ → ℕ → ℕ → Bytes → Bytes
moved dest src n m a = if in_range dest n a then m (src + (a - dest)) else m a

pub advance_up : (by p : ℕ) → p + by < 2 ^ 32 → advance false by p ≡ p + by
unfolding advance
advance_up by p h = omega arith

advance_down : (p : ℕ) → 0 < p → p < 2 ^ 32 → advance true 1 p ≡ p - 1
unfolding advance
advance_down p more h = omega arith

forwards :
    (n a : ℕ) (s : Machine)
    → s.df ≡ false
    → s.edi + n < 2 ^ 32
    → s.esi + n < 2 ^ 32
    → (s.edi ≤ s.esi) ⊎ (s.esi + n ≤ s.edi)
    → ((rep n movsb s).mem a ≡ moved s.edi s.esi n s.mem a) × ((rep n movsb s).df ≡ false)
unfolding rep
forwards zero a s flag h h' apart = ground arith
forwards (suc n) a s flag h h' apart =
    let up : (p : ℕ) → p + 1 < 2 ^ 32 → advance s.df 1 p ≡ p + 1 =
      λ p small. ap (λ df. advance df 1 p) flag ∙ advance_up 1 p small in
    ground (arith, up s.edi, up s.esi, forwards n a (movsb s))

backwards :
    (n dest src a : ℕ) (s : Machine)
    → s.df ≡ true
    → dest + n < 2 ^ 32
    → src < dest
    → (0 < n → (s.edi ≡ dest + n - 1) × (s.esi ≡ src + n - 1))
    → ((rep n movsb s).mem a ≡ moved dest src n s.mem a) × ((rep n movsb s).df ≡ true)
unfolding rep
backwards zero dest src a s flag h h' at = ground arith
backwards (suc n) dest src a s flag h h' at =
    let down : (p : ℕ) → 0 < p → p < 2 ^ 32 → advance s.df 1 p ≡ p - 1 =
      λ p more small. ap (λ df. advance df 1 p) flag ∙ advance_down p more small in
    let (edi, esi) = at (omega arith) in
    let ih = backwards n dest src a (movsb s) flag (omega arith) h' (λ more. (
      down s.edi (omega (arith, edi)) (omega (arith, edi)) ∙ omega (arith, edi),
      down s.esi (omega (arith, esi)) (omega (arith, esi)) ∙ omega (arith, esi),
    )) in
    ground (arith, edi, esi, ih)

-- `memmove` moves `n` bytes as if all at once, also between places that overlap, if neither place
-- reaches the end of the address space. Where it goes backwards, it leaves the direction flag set.
pub memmove_lem :
    (dest src n : ℕ) (m : Bytes)
    → dest + n < 2 ^ 32
    → src + n < 2 ^ 32
    → ((a : ℕ) → (memmove dest src n m).0 a ≡ moved dest src n m a)
      × ((memmove dest src n m).1 ≡ ltb src dest)
unfolding memmove
memmove_lem dest src n m h h' = elim (Bool-cases (leb dest src)) [
  | inl up ↦
      let run = λ (a : ℕ).
        forwards n a (record { edi = dest; esi = src; ecx = n; df = false; mem = m }) refl h h'
          (inl (ground (arith, up))) in
      rw up ((λ a. (run a).0), (run 0).1 ∙ ground (arith, up))
  | inr down ↦
      let start : Machine = record {
        edi = u32 (dest + n + (2 ^ 32 - 1));
        esi = u32 (src + n + (2 ^ 32 - 1));
        ecx = n;
        df = true;
        mem = m;
      } in
      let run = λ (a : ℕ).
        backwards n dest src a start refl h (ground (arith, down))
          (λ more. (last dest n more h, last src n more h')) in
      rw down ((λ a. (run a).0), (run 0).1 ∙ ground (arith, down))
]
  where
    last : (p n : ℕ) → 0 < n → p + n < 2 ^ 32 → u32 (p + n + (2 ^ 32 - 1)) ≡ p + n - 1
    last p n more small = omega arith
