-- ===== src/Memory/Filling.antt =====
-- student-distrib/lib.c: memset, memset_word and memset_dword, by the instructions of their assembly.
use os.Prelude.{ℕ, zero, suc, ◌+◌, ◌*◌, ◌/◌, ◌%◌, ◌^◌, ◌==◌, if◌then◌else◌, Bytes, update, u32}
use os.Memory.{rep}

-- The registers of the three functions, and the memory. `eax` holds what is stored.
pub record Filler : Type 0 where
  pub edi : ℕ
  pub ecx : ℕ
  pub eax : ℕ
  pub mem : Bytes

-- movb %al, (%edi) and the addition to %edi.
abbrev pub store_al : Filler → Filler
store_al s = record s { edi = u32 (s.edi + 1); mem = update s.mem s.edi (s.eax % 2 ^ 8) }

-- stosw, the flag being clear.
abbrev pub stosw : Filler → Filler
stosw s = record s {
  edi = u32 (s.edi + 2);
  mem = update (update s.mem s.edi (s.eax % 2 ^ 8)) (u32 (s.edi + 1)) (s.eax / 2 ^ 8 % 2 ^ 8);
}

-- stosl, the flag being clear.
abbrev pub stosl : Filler → Filler
stosl s = record s {
  edi = u32 (s.edi + 4);
  mem =
      update
        (update
          (update (update s.mem s.edi (s.eax % 2 ^ 8)) (u32 (s.edi + 1)) (s.eax / 2 ^ 8 % 2 ^ 8))
          (u32 (s.edi + 2)) (s.eax / 2 ^ 16 % 2 ^ 8))
        (u32 (s.edi + 3)) (s.eax / 2 ^ 24 % 2 ^ 8);
}

-- From .memset_top to .memset_aligned, with `n` in ecx: bytes up to an address of a word.
unfoldable pub fill_align : ℕ → Filler → Filler
fill_align zero s = record s { ecx = 0 }
fill_align (suc n) s =
    let rest = fill_align n (store_al s) in
    if s.edi % 4 == 0 then record s { ecx = suc n } else rest

-- The byte four times in a word, c << 24 | c << 16 | c << 8 | c.
abbrev pub four_times : ℕ → ℕ
four_times c = c * 2 ^ 24 + c * 2 ^ 16 + c * 2 ^ 8 + c

-- ecx counts the words, and edx the bytes from .memset_bottom on.
unfoldable pub memset : ℕ → ℕ → ℕ → Bytes → Bytes
unfolding fill_align rep
memset s c n m =
    let r = fill_align n (record { edi = s; ecx = n; eax = four_times (c % 2 ^ 8); mem = m }) in
    (rep (r.ecx % 4) store_al (rep (r.ecx / 4) stosl r)).mem

unfoldable pub memset_word : ℕ → ℕ → ℕ → Bytes → Bytes
unfolding rep
memset_word s c n m = (rep n stosw (record { edi = s; ecx = n; eax = c; mem = m })).mem

unfoldable pub memset_dword : ℕ → ℕ → ℕ → Bytes → Bytes
unfolding rep
memset_dword s c n m = (rep n stosl (record { edi = s; ecx = n; eax = c; mem = m })).mem
