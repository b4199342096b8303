-- ===== src/Programs/Syserr/Slots.antt =====
-- The descriptors of the program while it opens and closes them.
use os.Prelude.{
  rounds, ℕ, zero, suc, ◌+◌, ◌<◌, ◌≤◌, ◌≡◌, refl, arith, Bytes, [], ◌∷◌, true, false, pos,
  minus_one, if◌then◌else◌, ◌==◌, ==-self, leb, ltb, ◌&&◌, ◌||◌,
}
use os.FileSys.{FileSys, Dentry, is_minus_one, read_dentry_by_name, find_dentry, open_dir}
use os.Process.{
  Handler, Processes, close, find_slot, fdesc_size, enter_file, handlers_for, set_pcb, open_file,
  clear_bit, clear_flag,
}
use os.Process.Files.{find_slot_lem, find_slot_least}
use os.System.{System, running}
use os.Kernel.{nth}
use os.Programs.{open_call}
use os.Programs.Calls.{Prints}
use os.Programs.Syserr.{helloo, shel}

-- The descriptors from `lo` to `hi - 1` are open, and no others from 2 on; stdin and stdout are as they
-- were at the start.
pub record Holding (lo hi : ℕ) (s : System) : Type 0 where
  pub prints : Prints s
  pub stdin : ((running s).file_array 0).write_handler ≡ Handler.terminal_wrong
  pub stdout : ((running s).file_array 1).read_handler ≡ Handler.terminal_wrong
  pub slots :
      (i : ℕ)
      → 2 ≤ i
      → i < fdesc_size
      → ((running s).bitmap i ≡ (if leb lo i && ltb i hi then 1 else 0))
        × (((running s).file_array i).flag ≡ (if leb lo i && ltb i hi then 1 else 0))

-- The directory "." is there, and none of the names that `err_open` tries.
pub record HasNames (stack : Dentry) (fs : FileSys) : Type 0 where
  pub there : is_minus_one (read_dentry_by_name fs (nth (b'.' ∷ [])) stack).0 ≡ false
  pub directory : (read_dentry_by_name fs (nth (b'.' ∷ [])) stack).1.ftype ≡ 1
  pub no_helloo : is_minus_one (read_dentry_by_name fs (nth helloo) stack).0 ≡ true
  pub no_shel : is_minus_one (read_dentry_by_name fs (nth shel) stack).0 ≡ true
  pub no_empty : is_minus_one (read_dentry_by_name fs (nth []) stack).0 ≡ true

find_slot-Holding :
    (hi : ℕ) (s : System) → Holding 2 hi s → 2 ≤ hi → hi ≤ fdesc_size → find_slot (running s) ≡ hi
find_slot-Holding hi s h low high =
    let b = running s in
    let (from, to, free) = find_slot_lem b in
    ground (arith, free, h.slots (find_slot b), h.slots hi, find_slot_least b hi)

-- The next descriptor is entered.
entered-Holding :
    (hi : ℕ) (d : Dentry) (fs : FileSys) (s : System)
    → Holding 2 hi s
    → 2 ≤ hi
    → hi < fdesc_size
    → Holding 2 (hi + 1) (record s {
      processes = set_pcb s.processes.curr (enter_file hi d (running s)) s.processes;
      file_sys = fs;
    })
unfolding enter_file handlers_for
entered-Holding hi d fs s h low high =
    let (taken, writes) = h.prints in
    record {
      prints = (ground arith, rw (==-self s.processes.curr) (ground arith));
      stdin = rw (==-self s.processes.curr) (ground (arith, h.stdin));
      stdout = rw (==-self s.processes.curr) (ground (arith, h.stdout));
      slots = λ i from to. rw (==-self s.processes.curr) (ground (arith, h.slots i));
    }

-- `close` of the first open descriptor.
pub closed-Holding :
    (lo : ℕ) (s : System)
    → Holding lo fdesc_size s
    → 2 ≤ lo
    → lo < fdesc_size
    → (p : Processes) × (close (pos lo) s.processes ≡ (pos 0, p))
      × Holding (lo + 1) fdesc_size (record s { processes = p })
unfolding close
closed-Holding lo s h low high =
    let b = running s in
    let (taken, writes) = h.prints in
    let in_array : (ltb fdesc_size lo || ltb lo 2) ≡ false = ground arith in
    let not_last : (lo == fdesc_size) ≡ false = ground arith in
    let is_open : ((b.file_array lo).flag == 0) ≡ false = ground (arith, h.slots lo) in
    (
      set_pcb s.processes.curr (clear_bit lo (clear_flag lo b)) s.processes,
      rw (in_array, not_last, is_open, close) refl,
      record {
        prints = rw (==-self s.processes.curr, not_last) (ground arith, ground arith);
        stdin = rw (==-self s.processes.curr, not_last) (ground (arith, h.stdin));
        stdout = rw (==-self s.processes.curr, not_last) (ground (arith, h.stdout));
        slots = λ i from to. rw (==-self s.processes.curr, not_last) (ground (arith, h.slots i));
      },
    )

-- A name is found whatever the number of the next name to be listed is.
find_dentry-index :
    (n i x : ℕ) (fs : FileSys) (name : Bytes) (stack : Dentry)
    → find_dentry n i (record fs { read_dir_index = x }) name stack ≡ find_dentry n i fs name stack
unfolding find_dentry
find_dentry-index zero i x fs name stack = refl
find_dentry-index (suc n) i x fs name stack = rw (find_dentry-index n (i + 1) x fs name stack) refl

HasNames-opened :
    (stack : Dentry) (fs : FileSys) → HasNames stack fs → HasNames stack (open_dir fs).1
unfolding open_dir read_dentry_by_name
HasNames-opened stack fs h =
    let same = λ (name : Bytes). find_dentry-index (rounds fs.num_dentry) 0 0 fs name stack in
    record {
      there = rw (same (nth (b'.' ∷ []))) h.there;
      directory = rw (same (nth (b'.' ∷ []))) h.directory;
      no_helloo = rw (same (nth helloo)) h.no_helloo;
      no_shel = rw (same (nth shel)) h.no_shel;
      no_empty = rw (same (nth [])) h.no_empty;
    }

-- `open` of the directory, while a descriptor is free.
pub open_next :
    (hi : ℕ) (stack : Dentry) (s : System)
    → Holding 2 hi s
    → HasNames stack s.file_sys
    → 2 ≤ hi
    → hi < fdesc_size
    → (s' : System) × (open_call stack (nth (b'.' ∷ [])) s ≡ (pos hi, s'))
      × Holding 2 (hi + 1) s'
      × HasNames stack s'.file_sys
      × (s'.screen ≡ s.screen)
unfolding open_file
open_next hi stack s h names low high =
    let d = (read_dentry_by_name s.file_sys (nth (b'.' ∷ [])) stack).1 in
    let slot = find_slot-Holding hi s h low (omega arith) in
    let free : (hi == fdesc_size) ≡ false = ground arith in
    (
      record s {
        processes = set_pcb s.processes.curr (enter_file hi d (running s)) s.processes;
        file_sys = (open_dir s.file_sys).1;
      },
      rw (slot, names.there, free, names.directory) refl,
      entered-Holding hi d (open_dir s.file_sys).1 s h low high,
      HasNames-opened stack s.file_sys names,
      refl,
    )

-- `open` while no descriptor is free, or of a name that is missing.
pub open_full :
    (name : Bytes) (stack : Dentry) (s : System)
    → Holding 2 fdesc_size s
    → open_call stack name s ≡ (minus_one, s)
unfolding open_file
open_full name stack s h =
    let slot = find_slot-Holding fdesc_size s h (omega arith) (omega arith) in
    let full : (is_minus_one (read_dentry_by_name s.file_sys name stack).0
          || find_slot (running s) == fdesc_size)
        ≡ true =
      ground (arith, slot) in
    rw full refl

pub open_missing :
    (name : Bytes) (stack : Dentry) (s : System)
    → is_minus_one (read_dentry_by_name s.file_sys name stack).0 ≡ true
    → open_call stack name s ≡ (minus_one, s)
unfolding open_file
open_missing name stack s missing = rw missing refl
