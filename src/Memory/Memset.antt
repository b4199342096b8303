-- ===== src/Memory/Memset.antt =====
-- What memset, memset_word and memset_dword leave in memory.
use os.Prelude.{
  ℕ, ◌+◌, ◌-◌, ◌*◌, ◌/◌, ◌%◌, ◌^◌, ◌<◌, ◌≤◌, ◌≡◌, refl, arith, Bytes, in_range, if◌then◌else◌, ap,
  ◌∙◌, sym,
}
use os.Memory.{rep}
use os.Memory.Filling.{
  Filler, store_al, stosw, stosl, fill_align, four_times, memset, memset_word, memset_dword,
}
use os.Memory.Filled.{
  Filled, Filled-trans, Filled-at, Steps, rep-Filled, store_al-Filled, stosw-Filled, stosl-Filled,
  fill_align-Filled, byte_of,
}
use os.Strings
use os.Strings.Copying.{memset_lem}

module _ (s c n : ℕ) (m : Bytes) (h : s + n < 2 ^ 32) where
  byte : ℕ
  byte = c % 2 ^ 8

  same : Bytes
  same _ = byte

  entry : Filler
  entry = record { edi = s; ecx = n; eax = four_times byte; mem = m }

  same-bytes : (a i : ℕ) → same a ≡ byte_of (four_times byte) i
  unfolding same byte
  same-bytes a i = ground arith

  aligned : Filler
  aligned = fill_align n entry

  left : ℕ
  left = aligned.ecx

  to_word : (left ≤ n) × Filled same (n - left) entry aligned
  unfolding left aligned entry
  to_word = fill_align-Filled same n entry (λ a. same-bytes a 0) h

  -- A step stores the same byte at each address.
  stored : (r : Filler) (a i : ℕ) → r.eax ≡ four_times byte → same a ≡ byte_of r.eax i
  stored r a i e = same-bytes a i ∙ ap (λ w. byte_of w i) (sym e)

  word_step : (start : ℕ) → Steps same 4 start (four_times byte) stosl
  unfolding Steps
  word_step start i r _ e room =
      stosl-Filled same r (stored r r.edi 0 e) (stored r (r.edi + 1) 1 e) (stored r (r.edi + 2) 2 e)
        (stored r (r.edi + 3) 3 e) room

  byte_step : (start : ℕ) → Steps same 1 start (four_times byte) store_al
  unfolding Steps
  byte_step start i r _ e room = store_al-Filled same r (stored r r.edi 0 e) room

  words : Filler
  words = rep (left / 4) stosl aligned

  by_words : Filled same (4 * (left / 4)) aligned words
  unfolding words entry
  by_words =
      let (few, one) = to_word in
      rep-Filled same 4 (left / 4) aligned.edi (four_times byte) 0 stosl aligned
        (word_step aligned.edi) (omega arith) one.eax (omega (arith, few, one.edi))

  by_bytes : Filled same (1 * (left % 4)) words (rep (left % 4) store_al words)
  unfolding entry
  by_bytes =
      let (few, one) = to_word in
      let two = by_words in
      rep-Filled same 1 (left % 4) words.edi (four_times byte) 0 store_al words
        (byte_step words.edi) (omega arith) (two.eax ∙ one.eax)
        (omega (arith, few, one.edi, two.edi))

  all_of_it : Filled same n entry (rep (left % 4) store_al words)
  all_of_it =
      let (few, one) = to_word in
      Filled-at (omega (arith, few)) (
        Filled-trans same (n - left) _ entry aligned _ one
          (Filled-trans same (4 * (left / 4)) (1 * (left % 4)) aligned words _ by_words by_bytes))

  -- `memset`, which stores bytes up to the address of a word, then words, then the bytes that are left,
  -- does to the `n` bytes from `s` on what a loop over the bytes does, and leaves all other bytes as they
  -- were, whatever the alignment. The value is taken modulo 256, and the bytes end before the end of the
  -- address space.
  pub memset-Strings :
      (a : ℕ)
      → memset s c n m a
        ≡ (if in_range s n a then Strings.memset (λ i. m (s + i)) (c % 2 ^ 8) n (a - s) else m a)
  unfolding memset entry words left aligned same byte
  memset-Strings a =
      all_of_it.mem a ∙ ground (arith, memset_lem (λ i. m (s + i)) (c % 2 ^ 8) n (a - s))

-- What a word of `k` bytes, stored again and again from `s` on, leaves at an address.
abbrev pub by_words_of : ℕ → ℕ → ℕ → Bytes
by_words_of k s c a = byte_of c ((a - s) % k)

-- `memset_word` counts words, not bytes: the `2 * n` bytes from `s` on are the low and the high byte of
-- the value in turn, and all other bytes are as they were. The words end before the end of the address
-- space.
memset_word_lem :
    (s c n : ℕ) (m : Bytes)
    → s + 2 * n < 2 ^ 32
    → (a : ℕ)
    → memset_word s c n m a ≡ (if in_range s (2 * n) a then byte_of c ((a - s) % 2) else m a)
unfolding memset_word Steps
memset_word_lem s c n m h a =
    (rep-Filled (by_words_of 2 s c) 2 n s c 0 stosw (record { edi = s; ecx = n; eax = c; mem = m })
        (λ i r at e room.
          stosw-Filled (by_words_of 2 s c) r (ground (arith, at, e)) (ground (arith, at, e)) room)
        (omega arith) refl h).mem
      a

-- `memset_dword` counts words of four bytes.
memset_dword_lem :
    (s c n : ℕ) (m : Bytes)
    → s + 4 * n < 2 ^ 32
    → (a : ℕ)
    → memset_dword s c n m a ≡ (if in_range s (4 * n) a then byte_of c ((a - s) % 4) else m a)
unfolding memset_dword Steps
memset_dword_lem s c n m h a =
    (rep-Filled (by_words_of 4 s c) 4 n s c 0 stosl (record { edi = s; ecx = n; eax = c; mem = m })
        (λ i r at e room.
          stosl-Filled (by_words_of 4 s c) r (ground (arith, at, e)) (ground (arith, at, e))
            (ground (arith, at, e)) (ground (arith, at, e)) room)
        (omega arith) refl h).mem
      a
