-- ===== src/Paging/Process.antt =====
-- What `pid_page_map` and `vidMem_page_map` make of the address space of a user program.
use os.Prelude.{
  ℕ, ◌+◌, ◌*◌, ◌/◌, ◌%◌, ◌^◌, ◌<◌, ◌≡◌, ◌≢◌, arith, Bool, true, false, some, ◌==◌, if◌then◌else◌,
  field, Bool-cases, inl, inr,
}
use os.Paging.{
  Layout, Paging, mb, program_page_idx, pid_page_map, vid_mem_page_map, set_mb_base, set_rw, set_us,
  set_size, set_present,
}
use os.Prelude.{==-self, ◌∙◌}
use os.Paging.{vid_mem_entry, pt_video, kb_entry, set_addr}
use os.Paging.Walk.{translate, through_directory, through_table, through_entry}

program_entry : ℕ → ℕ → ℕ
program_entry pid e =
    set_mb_base ((pid * (4 * mb) + 8 * mb) / 2 ^ 22)
      (set_rw 1 (set_us 1 (set_size 1 (set_present 1 e))))

program_entry_fields :
    (pid e : ℕ)
    → pid < 6
    → e < 2 ^ 32
    → (field 0 1 (program_entry pid e) ≡ 1)
      × (field 2 1 (program_entry pid e) ≡ 1)
      × (field 7 1 (program_entry pid e) ≡ 1)
      × (program_entry pid e / 2 ^ 22 ≡ pid + 2)
unfolding program_entry
program_entry_fields pid e h w = omega arith

-- An entry for a page of 4 MB that is present and open to users lets every access through.
large_page :
    (layout : Layout) (s : Paging) (user : Bool) (v e p : ℕ)
    → field 0 1 e ≡ 1
    → field 2 1 e ≡ 1
    → field 7 1 e ≡ 1
    → e / 2 ^ 22 ≡ p
    → through_directory layout s user v e ≡ some (p * 2 ^ 22 + v % 2 ^ 22)
unfolding through_directory
large_page layout s true v e p h0 h2 h7 hp = rw (h0, h2, h7, hp)
large_page layout s false v e p h0 h2 h7 hp = rw (h0, h7, hp)

-- After `pid_page_map` the 4 MB from 128 MB on, for the program and for the kernel, are the 4 MB of
-- physical memory from 8 MB + pid * 4 MB on, whatever word the entry held; no other address moves.
pub pid_page_map_lem :
    (layout : Layout) (s : Paging) (pid : ℕ) (user : Bool) (v : ℕ)
    → pid < 6
    → s.page_directory program_page_idx < 2 ^ 32
    → translate layout (pid_page_map pid s) user v ≡ (
        if v / 2 ^ 22 == program_page_idx
        then some ((pid + 2) * 2 ^ 22 + v % 2 ^ 22)
        else translate layout s user v)
unfolding translate pid_page_map program_entry
pid_page_map_lem layout s pid user v h w = elim (Bool-cases (v / 2 ^ 22 == program_page_idx)) [
  | inl here ↦
      let f = program_entry_fields pid (s.page_directory program_page_idx) h w in
      rw here (large_page layout s user v _ (pid + 2) f.0 f.1 f.2 f.3)
  | inr other ↦ rw other
]

-- Two processes share no physical memory: whatever addresses of their 4 MB they use, each sees memory
-- that the other cannot reach.
pub pid_page_map_isolates :
    (layout : Layout) (s t : Paging) (pid qid : ℕ) (user user' : Bool) (v w : ℕ)
    → pid < 6
    → qid < 6
    → pid ≢ qid
    → s.page_directory program_page_idx < 2 ^ 32
    → t.page_directory program_page_idx < 2 ^ 32
    → v / 2 ^ 22 ≡ program_page_idx
    → w / 2 ^ 22 ≡ program_page_idx
    → translate layout (pid_page_map pid s) user v ≢ translate layout (pid_page_map qid t) user' w
pid_page_map_isolates layout s t pid qid user user' v w hp hq ne ws wt hv hw e =
    ground (
      arith,
      pid_page_map_lem layout s pid user v hp ws,
      pid_page_map_lem layout t qid user' w hq wt,
    )

vid_mem_entry_fields :
    (addr e : ℕ)
    → e < 2 ^ 32
    → addr < 2 ^ 20
    → (field 0 1 (vid_mem_entry addr e) ≡ 1)
      × (field 2 1 (vid_mem_entry addr e) ≡ 1)
      × (vid_mem_entry addr e / 2 ^ 12 ≡ addr)
vid_mem_entry_fields addr e h w = omega arith

-- An open entry of a page table.
small_page :
    (user : Bool) (v e p : ℕ)
    → field 0 1 e ≡ 1
    → field 2 1 e ≡ 1
    → e / 2 ^ 12 ≡ p
    → through_entry user v e ≡ some (p * 2 ^ 12 + v % 2 ^ 12)
small_page true v e p h0 h2 hp = rw (h0, h2, hp)
small_page false v e p h0 h2 hp = rw (h0, hp)

-- A directory entry for `vidMem_table` leads to that table.
video_table :
    (layout : Layout) (s : Paging) (user : Bool) (v e : ℕ)
    → field 0 1 e ≡ 1
    → field 2 1 e ≡ 1
    → field 7 1 e ≡ 0
    → e / 2 ^ 12 ≡ layout.vid_mem_table_addr / 2 ^ 12
    → layout.vid_mem_table_addr / 2 ^ 12 ≢ layout.page_table_addr / 2 ^ 12
    → through_directory layout s user v e ≡ through_table user v s.vid_mem_table
unfolding through_directory
video_table layout s true v e h0 h2 h7 hp ne = rw (h0, h2, h7, hp) (ground (arith, ne))
video_table layout s false v e h0 h2 h7 hp ne = rw (h0, h7, hp) (ground (arith, ne))

table_entry_fields :
    (addr : ℕ)
    → addr < 2 ^ 32
    → let e = set_addr (addr / 2 ^ 12) (set_rw 1 (set_us 1 (set_present 1 kb_entry))) in
      (field 0 1 e ≡ 1) × (field 2 1 e ≡ 1) × (field 7 1 e ≡ 0) × (e / 2 ^ 12 ≡ addr / 2 ^ 12)
table_entry_fields addr h = omega arith

-- The walk through both levels, the two entries given.
walk_video :
    (layout : Layout) (p : Paging) (user : Bool) (v e t addr : ℕ)
    → p.page_directory (v / 2 ^ 22) ≡ e
    → p.vid_mem_table (v / 2 ^ 12 % 2 ^ 10) ≡ t
    → layout.vid_mem_table_addr / 2 ^ 12 ≢ layout.page_table_addr / 2 ^ 12
    → (field 0 1 e ≡ 1)
      × (field 2 1 e ≡ 1)
      × (field 7 1 e ≡ 0)
      × (e / 2 ^ 12 ≡ layout.vid_mem_table_addr / 2 ^ 12)
    → (field 0 1 t ≡ 1) × (field 2 1 t ≡ 1) × (t / 2 ^ 12 ≡ addr)
    → translate layout p user v ≡ some (addr * 2 ^ 12 + v % 2 ^ 12)
unfolding translate
walk_video layout p user v e t addr he ht ne f g = rw he (
    video_table layout p user v e f.0 f.1 f.2 f.3 ne ∙ rw ht (small_page user v t addr g.0 g.1 g.2))

-- After `vidMem_page_map` the first page of the 4 MB of `v_addr`, for the program and for the kernel,
-- is the video memory if the terminal is the one on display, and page frame 0 if it is another, where
-- the two page tables are different pages of a 32-bit memory.
pub vid_mem_page_map_lem :
    (layout : Layout) (s : Paging) (t_display v_addr t_id : ℕ) (user : Bool) (v : ℕ)
    → layout.vid_mem_table_addr < 2 ^ 32
    → layout.vid_mem_table_addr / 2 ^ 12 ≢ layout.page_table_addr / 2 ^ 12
    → s.vid_mem_table 0 < 2 ^ 32
    → v / 2 ^ 22 ≡ v_addr / 2 ^ 22
    → v / 2 ^ 12 % 2 ^ 10 ≡ 0
    → translate layout (vid_mem_page_map layout t_display v_addr t_id s) user v
      ≡ some ((if t_id == t_display then pt_video else 0) * 2 ^ 12 + v % 2 ^ 12)
unfolding vid_mem_page_map
vid_mem_page_map_lem layout s t_display v_addr t_id user v small ne word here first =
    let addr = if t_id == t_display then pt_video else 0 in
    let in_range : addr < 2 ^ 20 = ground arith in
    walk_video layout (vid_mem_page_map layout t_display v_addr t_id s) user v
      (set_addr (layout.vid_mem_table_addr / 2 ^ 12) (set_rw 1 (set_us 1 (set_present 1 kb_entry))))
      (vid_mem_entry addr (s.vid_mem_table 0)) addr (rw here (rw (==-self (v_addr / 2 ^ 22))))
      (rw first) ne (table_entry_fields layout.vid_mem_table_addr small)
      (vid_mem_entry_fields addr (s.vid_mem_table 0) word in_range)
