-- ===== src/Paging/Walk.antt =====
-- The page walk of an x86 processor with 4 MB pages enabled, over the tables of paging.c: where a
-- virtual address leads, `none` standing for a page fault. A user access needs the `us` bit at both
-- levels. A directory entry names a table by its page frame; the kernel has two tables.
use os.Prelude.{
  ℕ, ◌*◌, ◌+◌, ◌/◌, ◌%◌, ◌^◌, Bool, true, false, ◌&&◌, Option, none, some, ◌==◌, if◌then◌else◌,
  field,
}
use os.Paging.{Layout, Paging, Table}

-- Does an entry let the access through?
abbrev pub grants : Bool → ℕ → Bool
grants true e = field 0 1 e == 1 && field 2 1 e == 1
grants false e = field 0 1 e == 1

-- The walk from a page table entry on.
abbrev pub through_entry : Bool → ℕ → ℕ → Option ℕ
through_entry user v e = if grants user e then some (e / 2 ^ 12 * 2 ^ 12 + v % 2 ^ 12) else none

abbrev pub through_table : Bool → ℕ → Table → Option ℕ
through_table user v t = through_entry user v (t (v / 2 ^ 12 % 2 ^ 10))

-- The walk from a directory entry on.
unfoldable pub through_directory : Layout → Paging → Bool → ℕ → ℕ → Option ℕ
through_directory layout s user v e =
    if grants user e
    then if field 7 1 e == 1
      then some (e / 2 ^ 22 * 2 ^ 22 + v % 2 ^ 22)
      else if e / 2 ^ 12 == layout.page_table_addr / 2 ^ 12
      then through_table user v s.page_table
      else if e / 2 ^ 12 == layout.vid_mem_table_addr / 2 ^ 12
      then through_table user v s.vid_mem_table
      else none
    else none

unfoldable pub translate : Layout → Paging → Bool → ℕ → Option ℕ
unfolding through_directory
translate layout s user v = through_directory layout s user v (s.page_directory (v / 2 ^ 22))
