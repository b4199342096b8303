-- ===== src/Process/Files.antt =====
-- The file descriptors of a process: the flag of a descriptor and its place in the bitmap.
use os.Prelude.{
  ℕ, zero, suc, ◌+◌, ◌<◌, ◌≤◌, ◌≡◌, ◌≢◌, ◌⊎◌, inl, inr, refl, arith, Bool, true, false, ◌||◌, ◌==◌,
  ==-self, if◌then◌else◌, Bytes, pos, minus_one, Option, none, some, Bool-cases,
}
use os.FileSys.{FileSys, Dentry, is_minus_one, read_dentry_by_name}
use os.Process.{
  Processes, Pcb, open_file, close, free_slot, find_slot, enter_file, handlers_for, fdesc_size,
}

-- The descriptors from 2 on: the flag is up exactly where the bitmap says that the place is taken.
unfoldable pub InStep : Pcb → Type 0
InStep b =
    (i : ℕ) → 2 ≤ i → i < fdesc_size → ((b.file_array i).flag ≡ (if b.bitmap i == 0 then 0 else 1))

free_slot_lem :
    (n i : ℕ) (taken : ℕ → ℕ)
    → (i ≤ free_slot n i taken)
      × (free_slot n i taken ≤ i + n)
      × (free_slot n i taken < i + n → taken (free_slot n i taken) ≡ 0)
unfolding free_slot
free_slot_lem zero i taken = ground arith
free_slot_lem (suc n) i taken = ground (arith, free_slot_lem n (i + 1) taken)

free_slot_least : (n i q : ℕ) (taken : ℕ → ℕ) → i ≤ q → q < free_slot n i taken → taken q ≢ 0
unfolding free_slot
free_slot_least zero i q taken h h' = ground arith
free_slot_least (suc n) i q taken h h' = ground (arith, free_slot_least n (i + 1) q taken)

pub find_slot_lem :
    (b : Pcb)
    → (2 ≤ find_slot b)
      × (find_slot b ≤ fdesc_size)
      × (find_slot b < fdesc_size → b.bitmap (find_slot b) ≡ 0)
unfolding find_slot
find_slot_lem b = ground (arith, free_slot_lem 6 2 b.bitmap)

pub find_slot_least : (b : Pcb) (i : ℕ) → 2 ≤ i → i < find_slot b → b.bitmap i ≢ 0
unfolding find_slot
find_slot_least b i h h' = free_slot_least 6 2 i b.bitmap h h'

enter_file-InStep : (j : ℕ) (d : Dentry) (b : Pcb) → InStep b → InStep (enter_file j d b)
unfolding enter_file handlers_for InStep
enter_file-InStep j d b h = λ i low high. ground (arith, h i)

-- The two tests of `open` on a name that is not NULL.
abbrev pub refuses : FileSys → Dentry → Bytes → Processes → Bool
refuses fs stack name p =
    is_minus_one (read_dentry_by_name fs name stack).0 || find_slot (p.pcb p.curr) == fdesc_size

-- Opening a file keeps the flags and the bitmap in step, on every path of `open`.
open_file-InStep :
    (fs : FileSys) (stack : Dentry) (name : Option Bytes) (p : Processes)
    → InStep (p.pcb p.curr)
    → InStep ((open_file fs stack name p).1.pcb p.curr)
unfolding open_file
open_file-InStep fs stack none p h = h
open_file-InStep fs stack (some name) p h = elim (Bool-cases (refuses fs stack name p)) [
  | inl e ↦ rw e h
  | inr e ↦ rw (e, ==-self p.curr) (enter_file-InStep _ _ (p.pcb p.curr) h)
]

why_refused :
    (fs : FileSys) (stack : Dentry) (name : Bytes) (p : Processes)
    → refuses fs stack name p ≡ true
    → (is_minus_one (read_dentry_by_name fs name stack).0 ≡ true)
      ⊎ ((i : ℕ) → 2 ≤ i → i < fdesc_size → (p.pcb p.curr).bitmap i ≢ 0)
why_refused fs stack name p e =
    elim (Bool-cases (is_minus_one (read_dentry_by_name fs name stack).0)) [
      | inl missing ↦ inl missing
      | inr found ↦ inr (λ i h h'. find_slot_least (p.pcb p.curr) i h (ground (arith, e, found)))
    ]

if-not : {q j : ℕ} (h : q ≢ j) (x y : Pcb) → (if q == j then x else y) ≡ y
if-not h x y = ground (arith, h)

-- `b'` is the block `b` with the file `d` open at `fd`.
pub record Opened (b : Pcb) (d : Dentry) (fd : ℕ) (b' : Pcb) : Type 0 where
  pub in_array : (2 ≤ fd) × (fd < fdesc_size)
  pub was_free : b.bitmap fd ≡ 0
  pub least : (i : ℕ) → 2 ≤ i → i < fd → b.bitmap i ≢ 0
  pub inode : (b'.file_array fd).inode ≡ d.inode
  pub at_start : (b'.file_array fd).file_pos ≡ 0
  pub up : (b'.file_array fd).flag ≡ 1
  pub taken : b'.bitmap fd ≡ 1
  pub others : (i : ℕ) → i ≢ fd → (b'.file_array i ≡ b.file_array i) × (b'.bitmap i ≡ b.bitmap i)

enter_file-Opened :
    (d : Dentry) (b : Pcb)
    → find_slot b < fdesc_size
    → Opened b d (find_slot b) (enter_file (find_slot b) d b)
unfolding enter_file handlers_for
enter_file-Opened d b low = record {
  in_array = ((find_slot_lem b).0, low);
  was_free = (find_slot_lem b).2 low;
  least = λ i h h'. find_slot_least b i h h';
  inode = ground arith;
  at_start = ground arith;
  up = ground arith;
  taken = ground arith;
  others = λ i h. ground arith;
}

-- A name that the file system does not have gives -1 and changes nothing, and so does any name if the
-- descriptors 2 to 7 are all taken. Another name gives the least free descriptor from 2 on, with the
-- file's inode at position 0; its flag is up and its place taken, and every other descriptor, place
-- and process is as it was.
pub open_file_lem :
    (fs : FileSys) (stack : Dentry) (name : Bytes) (p : Processes)
    → let d = read_dentry_by_name fs name stack in
      let r = open_file fs stack (some name) p in
      ((r ≡ (minus_one, p, fs))
        × ((is_minus_one d.0 ≡ true)
            ⊎ ((i : ℕ) → 2 ≤ i → i < fdesc_size → (p.pcb p.curr).bitmap i ≢ 0)))
      ⊎ ((fd : ℕ) × (r.0 ≡ pos fd)
          × (is_minus_one d.0 ≡ false)
          × Opened (p.pcb p.curr) d.1 fd (r.1.pcb p.curr)
          × ((q : ℕ) → q ≢ p.curr → r.1.pcb q ≡ p.pcb q))
unfolding open_file
open_file_lem fs stack name p = elim (Bool-cases (refuses fs stack name p)) [
  | inl e ↦ inl (rw e refl, why_refused fs stack name p e)
  | inr e ↦ inr (
    find_slot (p.pcb p.curr),
    rw e refl,
    ground (arith, e),
    rw (e, ==-self p.curr)
        (enter_file-Opened _ (p.pcb p.curr) (ground (arith, e, find_slot_lem (p.pcb p.curr)))),
    λ q h. rw e (if-not h _ _),
  )
]

-- Closing a descriptor below 8 keeps the flags and the bitmap in step.
close-InStep :
    (fd : ℕ) (p : Processes)
    → fd ≢ fdesc_size
    → InStep (p.pcb p.curr)
    → InStep ((close (pos fd) p).1.pcb p.curr)
unfolding close InStep
close-InStep fd p small h = λ i low high. ground (arith, h i)

-- `close` of descriptor 8, one past the array, is not refused where descriptor 6 is open: it answers 0
-- and takes descriptor 6 from the bitmap, but leaves its flag up.
pub close-past_end :
    (p : Processes)
    → InStep (p.pcb p.curr)
    → ((p.pcb p.curr).file_array 6).flag ≡ 1
    → let after = (close (pos 8) p).1.pcb p.curr in
      ((close (pos 8) p).0 ≡ pos 0) × ((after.file_array 6).flag ≡ 1) × (after.bitmap 6 ≡ 0)
unfolding close InStep
close-past_end p h up = ground (arith, h 6)
