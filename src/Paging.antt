-- ===== src/Paging.antt =====
-- student-distrib/paging.c and paging.h: the page directory and the two page tables. An entry is its
-- 32-bit pattern, and a bit-field of `pdt_entry_t` or `pt_entry_t` is read and written by its place.
-- The addresses of the tables are the linker's; the C declarations align them to 4096.
pub mod Walk
pub mod Init
pub mod Process
mod Tests
use os.Prelude.{
  ℕ, zero, suc, ◌+◌, ◌-◌, ◌*◌, ◌/◌, ◌%◌, ◌^◌, List, [], ◌∷◌, ◌==◌, if◌then◌else◌, update, count_up,
  set_field,
}

abbrev pub page_entry_size : ℕ
page_entry_size = 1024

abbrev pub pt_video : ℕ
pt_video = 0xB8

abbrev pub program_page_idx : ℕ
program_page_idx = 32

abbrev pub mb : ℕ
mb = 0x100000

-- Where the linker puts the tables.
pub record Layout : Type 0 where
  pub page_directory_addr : ℕ
  pub page_table_addr : ℕ
  pub vid_mem_table_addr : ℕ

-- An array of 1024 entries.
abbrev pub Table : Type 0
Table = ℕ → ℕ

-- The three arrays, and what `paging_init` leaves in the control registers: `pse` and `pg` are bit 4
-- of cr4 and bits 31 and 0 of cr0, and `flushes` counts the reloads of cr3.
pub record Paging : Type 0 where
  pub page_directory : Table
  pub page_table : Table
  pub vid_mem_table : Table
  pub cr3 : ℕ
  pub pse : ℕ
  pub pg : ℕ
  pub flushes : ℕ

-- Bit-fields in the order of their declaration, each its width and its value, from bit 0 up.
abbrev pub pack : List (ℕ × ℕ) → ℕ
pack [] = 0
pack ((w, v) ∷ fields) = v % 2 ^ w + 2 ^ w * pack fields

-- A directory entry for a page table, all clear.
abbrev pub kb_entry : ℕ
kb_entry = pack (
    (1, 0)
    ∷ (1, 0)
    ∷ (1, 0)
    ∷ (1, 0)
    ∷ (1, 0)
    ∷ (1, 0)
    ∷ (1, 0)
    ∷ (1, 0)
    ∷ (1, 0)
    ∷ (3, 0)
    ∷ (20, 0)
    ∷ [])

-- A directory entry for a page of 4 MB, clear but for `pt_size`.
abbrev pub mb_entry : ℕ
mb_entry = pack (
    (1, 0)
    ∷ (1, 0)
    ∷ (1, 0)
    ∷ (1, 0)
    ∷ (1, 0)
    ∷ (1, 0)
    ∷ (1, 0)
    ∷ (1, 1)
    ∷ (1, 0)
    ∷ (3, 0)
    ∷ (1, 0)
    ∷ (9, 0)
    ∷ (10, 0)
    ∷ [])

-- A page table entry, all clear.
abbrev pub blank_entry : ℕ
blank_entry = pack (
    (1, 0)
    ∷ (1, 0)
    ∷ (1, 0)
    ∷ (1, 0)
    ∷ (1, 0)
    ∷ (1, 0)
    ∷ (1, 0)
    ∷ (1, 0)
    ∷ (1, 0)
    ∷ (3, 0)
    ∷ (20, 0)
    ∷ [])

-- The fields that the code sets. `present`, `rw`, `us`, `wthrough`, `cache_da`, `accessed` and
-- `global` stand at the same place in every kind of entry.
abbrev pub set_present : ℕ → ℕ → ℕ
set_present = set_field 0 1

abbrev pub set_rw : ℕ → ℕ → ℕ
set_rw = set_field 1 1

abbrev pub set_us : ℕ → ℕ → ℕ
set_us = set_field 2 1

abbrev pub set_wthrough : ℕ → ℕ → ℕ
set_wthrough = set_field 3 1

abbrev pub set_cache_da : ℕ → ℕ → ℕ
set_cache_da = set_field 4 1

abbrev pub set_accessed : ℕ → ℕ → ℕ
set_accessed = set_field 5 1

abbrev pub set_dirty : ℕ → ℕ → ℕ
set_dirty = set_field 6 1

-- bit 7: `pt_size` of a directory entry, `page_attr` of a table entry
abbrev pub set_size : ℕ → ℕ → ℕ
set_size = set_field 7 1

abbrev pub set_global : ℕ → ℕ → ℕ
set_global = set_field 8 1

abbrev pub set_avail : ℕ → ℕ → ℕ
set_avail = set_field 9 3

-- `page_addr`, and `pt_base_addr` of a directory entry for a page table
abbrev pub set_addr : ℕ → ℕ → ℕ
set_addr = set_field 12 20

-- `pt_base_addr` of a directory entry for a page of 4 MB
abbrev pub set_mb_base : ℕ → ℕ → ℕ
set_mb_base = set_field 22 10

-- table[i] changed by `f`
abbrev pub edit : ℕ → (ℕ → ℕ) → Table → Table
edit i f t = update t i (f (t i))

abbrev pub pdt_init_kb : ℕ → Table → Table
pdt_init_kb idx pd = update pd idx kb_entry

abbrev pub pdt_init_mb : ℕ → Table → Table
pdt_init_mb idx pd = update pd idx mb_entry

abbrev pub pt_init : ℕ → Table → Table
pt_init idx pt = update pt idx blank_entry

abbrev pub init_pde : ℕ → Table → Table
init_pde i pd = edit i (set_mb_base i) (pdt_init_mb i pd)

abbrev pub init_pte : ℕ → Table → Table
init_pte i pt = edit i (λ e. set_addr i (set_present 0 e)) (pt_init i pt)

-- Marking one page of video memory present.
abbrev pub mark_video : ℕ → Table → Table
mark_video i = edit i λ e. set_addr i (set_cache_da 1 (set_rw 1 (set_present 1 e)))

unfoldable pub init_directory : ℕ → Table → Table
init_directory page_table_addr pd =
    edit 1 (λ e. set_mb_base 1 (set_rw 1 (set_present 1 e)))
      (pdt_init_mb 1 (
        edit 0 (λ e. set_addr (page_table_addr / 2 ^ 12) (set_rw 1 (set_present 1 e)))
          (pdt_init_kb 0 (count_up (page_entry_size - 2) 2 init_pde pd))))

unfoldable pub init_table : Table → Table
init_table pt = mark_video (pt_video + 4) (
    mark_video (pt_video + 3) (
      mark_video (pt_video + 2)
        (mark_video (pt_video + 1) (mark_video pt_video (count_up page_entry_size 0 init_pte pt)))))

-- `Entry` prints the line "PAGE_INIT OK".
unfoldable pub paging_init : Layout → Paging → Paging
paging_init layout s = record s {
  page_directory = init_directory layout.page_table_addr s.page_directory;
  page_table = init_table s.page_table;
  cr3 = layout.page_directory_addr;
  pse = 1;
  pg = 1;
}

-- cr3 is written with the value that it has.
unfoldable pub flush_tlb : Paging → Paging
flush_tlb s = record s { flushes = s.flushes + 1 }

-- `pid` is one of the numbers that `get_pid` returns, so that no product wraps.
unfoldable pub pid_page_map : ℕ → Paging → Paging
unfolding flush_tlb
pid_page_map pid s = flush_tlb (record s {
  page_directory =
      edit program_page_idx
        (λ e.
          set_mb_base ((pid * (4 * mb) + 8 * mb) / 2 ^ 22)
            (set_rw 1 (set_us 1 (set_size 1 (set_present 1 e)))))
        s.page_directory;
})

-- The entry of the video page: every field but the address is written.
abbrev pub vid_mem_entry : ℕ → ℕ → ℕ
vid_mem_entry addr e = set_addr addr (
    set_avail 0 (
      set_global 0 (
        set_size 0 (
          set_dirty 0 (
            set_accessed 0
              (set_cache_da 0 (set_wthrough 0 (set_us 1 (set_rw 1 (set_present 1 e))))))))))

-- `t_display` is what `get_display_terminal` returns.
unfoldable pub vid_mem_page_map : Layout → ℕ → ℕ → ℕ → Paging → Paging
unfolding flush_tlb
vid_mem_page_map layout t_display v_addr t_id s =
    let pd_i = v_addr / 2 ^ 22 in
    flush_tlb (record s {
      page_directory =
          edit pd_i
            (λ e.
              set_addr (layout.vid_mem_table_addr / 2 ^ 12) (set_rw 1 (set_us 1 (set_present 1 e))))
            (pdt_init_kb pd_i s.page_directory);
      vid_mem_table =
          edit 0 (vid_mem_entry (if t_id == t_display then pt_video else 0)) s.vid_mem_table;
    })

unfoldable pub set_active_terminal_paging : ℕ → Paging → Paging
unfolding flush_tlb
set_active_terminal_paging terminal_id s =
    flush_tlb (record s { page_table = edit pt_video (set_addr pt_video) s.page_table })
