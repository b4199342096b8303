-- ===== src/Memory/Copies.antt =====
-- What `memcpy` leaves in memory.
use os.Prelude.{
  ℕ, zero, suc, ◌+◌, ◌-◌, ◌*◌, ◌/◌, ◌%◌, ◌^◌, ◌<◌, ◌≤◌, ◌≡◌, ◌⊎◌, inl, inr, refl, arith, false,
  ◌==◌, Bytes, ap, ◌∙◌, sym, Bool-cases,
}
use mathlib.Core.Path.{subst}
use os.Memory.{Machine, movsb, movsl, rep, align, advance, memcpy, memmove}
use os.Strings.{copy_bytes}
use os.Strings.Copying.{copy_bytes_lem}
use os.Memory.Moving.{moved, advance_up, memmove_lem}

-- The two places do not meet.
abbrev pub Apart : ℕ → ℕ → ℕ → Type 0
Apart dest src n = (dest + n ≤ src) ⊎ (src + n ≤ dest)

-- `r` follows `s` after `k` bytes.
record Copied (k : ℕ) (s r : Machine) : Type 0 where
  pub df : r.df ≡ false
  pub edi : r.edi ≡ s.edi + k
  pub esi : r.esi ≡ s.esi + k
  pub mem : (a : ℕ) → r.mem a ≡ moved s.edi s.esi k s.mem a

-- The flag is clear, and `n` bytes can be copied.
record Room (n : ℕ) (s : Machine) : Type 0 where
  pub clear : s.df ≡ false
  pub dest : s.edi + n < 2 ^ 32
  pub src : s.esi + n < 2 ^ 32
  pub apart : Apart s.edi s.esi n

moved_more :
    (dest src k j a : ℕ) (m m' m'' : Bytes)
    → Apart dest src (k + j)
    → ((b : ℕ) → m' b ≡ moved dest src k m b)
    → m'' a ≡ moved (dest + k) (src + k) j m' a
    → m'' a ≡ moved dest src (k + j) m a
moved_more dest src k j a m m' m'' apart first second =
    ground (arith, second, first a, first (src + k + (a - (dest + k))))

Copied-trans :
    (k j : ℕ) (s r t : Machine) → Room (k + j) s → Copied k s r → Copied j r t → Copied (k + j) s t
Copied-trans k j s r t room one two = record {
  df = two.df;
  edi = omega (arith, one.edi, two.edi);
  esi = omega (arith, one.esi, two.esi);
  mem = λ a.
      moved_more s.edi s.esi k j a s.mem r.mem t.mem room.apart one.mem
        (two.mem a ∙ rw (one.edi, one.esi) refl);
}

Copied-here : (c : ℕ) (s : Machine) → s.df ≡ false → Copied 0 s (record s { ecx = c })
Copied-here c s clear = record {
  df = clear;
  edi = omega arith;
  esi = omega arith;
  mem = λ a. ground arith;
}

-- What is left of the room.
Room-rest : (k j : ℕ) (s r : Machine) → Room (k + j) s → Copied k s r → Room j r
Room-rest k j s r room one = record {
  clear = one.df;
  dest = omega (arith, one.edi, room.dest);
  src = omega (arith, one.esi, room.src);
  apart = elim room.apart [
    | inl h ↦ inl (omega (arith, one.edi, one.esi))
    | inr h ↦ inr (omega (arith, one.edi, one.esi))
  ];
}

Copied-at : {k j : ℕ} {s r : Machine} → k ≡ j → Copied k s r → Copied j s r
Copied-at {s = s} {r = r} e one = subst (λ i. Copied i s r) e one

Room-at : {k j : ℕ} {s : Machine} → k ≡ j → Room k s → Room j s
Room-at {s = s} e room = subst (λ i. Room i s) e room

Room-less : (k j : ℕ) (s : Machine) → Room (k + j) s → Room k s
Room-less k j s room = record {
  clear = room.clear;
  dest = omega (arith, room.dest);
  src = omega (arith, room.src);
  apart = elim room.apart [ inl h ↦ inl (omega arith) | inr h ↦ inr (omega arith) ];
}

movsb-Copied : (s : Machine) → Room 1 s → Copied 1 s (movsb s)
movsb-Copied s room = record {
  df = room.clear;
  edi = ap (λ df. advance df 1 s.edi) room.clear ∙ advance_up 1 s.edi room.dest;
  esi = ap (λ df. advance df 1 s.esi) room.clear ∙ advance_up 1 s.esi room.src;
  mem = λ a. ground arith;
}

movsl-Copied : (s : Machine) → Room 4 s → Copied 4 s (movsl s)
movsl-Copied s room = record {
  df = room.clear;
  edi = ap (λ df. advance df 4 s.edi) room.clear ∙ advance_up 4 s.edi room.dest;
  esi = ap (λ df. advance df 4 s.esi) room.clear ∙ advance_up 4 s.esi room.src;
  mem = λ a. ground (arith, room.dest, room.src);
}

-- `n` steps of `k` bytes.
rep-Copied :
    (k n : ℕ) (step : Machine → Machine) (s : Machine)
    → ((r : Machine) → Room k r → Copied k r (step r))
    → Room (k * n) s
    → Copied (k * n) s (rep n step s)
unfolding rep
rep-Copied k zero step s one room = Copied-at (omega arith) (Copied-here s.ecx s room.clear)
rep-Copied k (suc n) step s one room =
    let whole : Room (k + k * n) s = Room-at (split k n) room in
    let first = one s (Room-less k (k * n) s whole) in
    let rest = rep-Copied k n step (step s) one (Room-rest k (k * n) s (step s) whole first) in
    Copied-at (sym (split k n)) (Copied-trans k (k * n) s (step s) _ whole first rest)
  where
    split : (k n : ℕ) → k * suc n ≡ k + k * n
    split k n = ground arith

-- The bytes up to the address of a word, and how many are left.
align-Copied :
    (n : ℕ) (s : Machine) → Room n s → let r = align n s in (r.ecx ≤ n) × Copied (n - r.ecx) s r
unfolding align
align-Copied zero s room = (omega arith, Copied-here 0 s room.clear)
align-Copied (suc n) s room = elim (Bool-cases (s.edi % 4 == 0)) [
  | inl word ↦ rw word (omega arith, Copied-at (omega arith) (Copied-here (suc n) s room.clear))
  | inr odd ↦
      let whole : Room (1 + n) s = Room-at (omega arith) room in
      let first = movsb-Copied s (Room-less 1 n s whole) in
      let (few, rest) = align-Copied n (movsb s) (Room-rest 1 n s (movsb s) whole first) in
      let left = (align n (movsb s)).ecx in
      let used : Room (1 + (n - left)) s =
        Room-less (1 + (n - left)) left s (Room-at (omega (arith, few)) room) in
      rw odd (
        omega (arith, few),
        Copied-at (omega (arith, few)) (Copied-trans 1 (n - left) s (movsb s) _ used first rest),
      )
]

module _ (dest src n : ℕ) (m : Bytes) (h : dest + n < 2 ^ 32) (h' : src + n < 2 ^ 32)
    (apart : Apart dest src n) where
  entry : Machine
  entry = record { edi = dest; esi = src; ecx = n; df = false; mem = m }

  room : Room n entry
  unfolding entry
  room = record { clear = refl; dest = h; src = h'; apart = apart }

  aligned : Machine
  aligned = align n entry

  left : ℕ
  left = aligned.ecx

  few : left ≤ n
  unfolding left aligned
  few = (align-Copied n entry room).0

  to_word : Copied (n - left) entry aligned
  unfolding left aligned
  to_word = (align-Copied n entry room).1

  from_word : Room left aligned
  from_word = Room-rest (n - left) left entry aligned (Room-at (omega (arith, few)) room) to_word

  parts : left ≡ 4 * (left / 4) + 1 * (left % 4)
  parts = omega arith

  words : Machine
  words = rep (left / 4) movsl aligned

  in_parts : Room (4 * (left / 4) + 1 * (left % 4)) aligned
  in_parts = Room-at parts from_word

  by_words : Copied (4 * (left / 4)) aligned words
  unfolding words
  by_words =
      rep-Copied 4 (left / 4) movsl aligned movsl-Copied
        (Room-less (4 * (left / 4)) (1 * (left % 4)) aligned in_parts)

  by_bytes : Copied (1 * (left % 4)) words (rep (left % 4) movsb words)
  by_bytes =
      rep-Copied 1 (left % 4) movsb words movsb-Copied
        (Room-rest (4 * (left / 4)) (1 * (left % 4)) aligned words in_parts by_words)

  all_of_it : Copied n entry (rep (left % 4) movsb words)
  all_of_it = Copied-at (omega (arith, few)) (
      Copied-trans (n - left) left entry aligned _ (Room-at (omega (arith, few)) room) to_word (
        Copied-at (sym parts) (
          Copied-trans (4 * (left / 4)) (1 * (left % 4)) aligned words _ in_parts by_words
            by_bytes)))

  -- `memcpy` between places that do not meet copies each byte, whatever the alignment of the addresses: bytes
  -- up to a word, words, and the bytes that are left.
  pub memcpy_lem : (a : ℕ) → memcpy dest src n m a ≡ moved dest src n m a
  unfolding memcpy entry words left aligned
  memcpy_lem a = all_of_it.mem a

  -- Between places that do not meet, `memcpy` and `memmove` leave the same memory.
  memcpy-memmove : (a : ℕ) → memcpy dest src n m a ≡ (memmove dest src n m).0 a
  memcpy-memmove a = memcpy_lem a ∙ sym ((memmove_lem dest src n m h h').0 a)

  -- `copy_bytes`, which has source and destination as memories of their own, is what `memcpy` does to
  -- the bytes from `dest` on, whatever the alignment, if the two places do not meet and neither reaches
  -- the end of the address space.
  pub memcpy-copy_bytes :
      (k : ℕ)
      → memcpy dest src n m (dest + k) ≡ copy_bytes n (λ i. m (src + i)) (λ i. m (dest + i)) k
  memcpy-copy_bytes k =
      memcpy_lem (dest + k)
      ∙ ground (arith, copy_bytes_lem n (λ i. m (src + i)) (λ i. m (dest + i)) k)
