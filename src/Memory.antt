-- ===== src/Memory.antt =====
-- student-distrib/lib.c: the memory functions, by the instructions of their assembly. Both pointers reach
-- into one memory, so that the places may overlap.
pub mod Moving
pub mod Copies
pub mod Filling
pub mod Filled
pub mod Memset
mod Tests
use os.Prelude.{
  ℕ, zero, suc, ◌+◌, ◌-◌, ◌*◌, ◌/◌, ◌%◌, ◌^◌, Bool, true, false, ◌==◌, leb, if◌then◌else◌, Bytes,
  update, u32,
}

-- The registers of the copies, and the memory; `df` is the direction flag.
pub record Machine : Type 0 where
  pub edi : ℕ
  pub esi : ℕ
  pub ecx : ℕ
  pub df : Bool
  pub mem : Bytes

-- A pointer after a step of `by` bytes in the direction of the flag.
unfoldable pub advance : Bool → ℕ → ℕ → ℕ
advance df by p = if df then u32 (p + (2 ^ 32 - by)) else u32 (p + by)

-- movsb, or a movb through %al with the two additions, as the flag is clear there.
abbrev pub movsb : Machine → Machine
movsb s = record s {
  edi = advance s.df 1 s.edi;
  esi = advance s.df 1 s.esi;
  mem = update s.mem s.edi (s.mem s.esi);
}

-- movsl: the word is read before it is written.
abbrev pub movsl : Machine → Machine
movsl s = record s {
  edi = advance s.df 4 s.edi;
  esi = advance s.df 4 s.esi;
  mem =
      update
        (update
          (update (update s.mem s.edi (s.mem s.esi)) (u32 (s.edi + 1)) (s.mem (u32 (s.esi + 1))))
          (u32 (s.edi + 2)) (s.mem (u32 (s.esi + 2))))
        (u32 (s.edi + 3)) (s.mem (u32 (s.esi + 3)));
}

-- rep
unfoldable pub rep : {A : Type 0} → ℕ → (A → A) → A → A
rep zero step s = s
rep (suc n) step s = rep n step (step s)

-- From .memcpy_top to .memcpy_aligned, with `n` in ecx: bytes up to an address of a word.
unfoldable pub align : ℕ → Machine → Machine
align zero s = record s { ecx = 0 }
align (suc n) s =
    let rest = align n (movsb s) in if s.edi % 4 == 0 then record s { ecx = suc n } else rest

-- `cld` stands behind .memcpy_aligned: a function is entered with the flag clear.
unfoldable pub memcpy : ℕ → ℕ → ℕ → Bytes → Bytes
unfolding align rep
memcpy dest src n m =
    let s = align n (record { edi = dest; esi = src; ecx = n; df = false; mem = m }) in
    (rep (s.ecx % 4) movsb (rep (s.ecx / 4) movsl s)).mem

-- Backwards where `src` is before `dest`. The result is the memory and the direction flag.
unfoldable pub memmove : ℕ → ℕ → ℕ → Bytes → Bytes × Bool
unfolding rep
memmove dest src n m =
    let forward : Machine = record { edi = dest; esi = src; ecx = n; df = false; mem = m } in
    let backward : Machine = record {
      edi = u32 (dest + n + (2 ^ 32 - 1));
      esi = u32 (src + n + (2 ^ 32 - 1));
      ecx = n;
      df = true;
      mem = m;
    } in
    let s = rep n movsb (if leb dest src then forward else backward) in (s.mem, s.df)
