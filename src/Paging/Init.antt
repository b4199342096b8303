-- ===== src/Paging/Init.antt =====
-- The address space that `paging_init` sets up.
use os.Prelude.{
  ℕ, ◌+◌, ◌-◌, ◌*◌, ◌/◌, ◌%◌, ◌^◌, ◌<◌, ◌≡◌, refl, arith, Bool, true, false, Option, none, some,
  ◌&&◌, ◌||◌, ltb, leb, ◌==◌, if◌then◌else◌, field, count_up, count_up_each, in_range,
}
use os.Paging.{
  Layout, Paging, Table, page_entry_size, pt_video, init_directory, init_table, init_pde, init_pte,
  paging_init, mb_entry, blank_entry, kb_entry, set_mb_base, set_addr, set_present, set_rw,
  set_cache_da,
}
use os.Paging.{edit, mb}
use os.Prelude.{ap, ◌∙◌, Bool-cases, inl, inr, ==-self}
use native.Mathlib.Decide.{dec_lt, ℕ_discrete}
use os.Paging.Walk.{translate, through_directory, through_table, through_entry}

-- What the first loop leaves at entry `a` of the directory.
pde_loop :
    (pd : Table) (a : ℕ)
    → count_up (page_entry_size - 2) 2 init_pde pd a
      ≡ (if in_range 2 1022 a then set_mb_base a mb_entry else pd a)
pde_loop pd a =
    count_up_each init_pde (λ i _. set_mb_base i mb_entry) (λ i m a. ground arith) 1022 2 pd a

pte_loop :
    (pt : Table) (a : ℕ)
    → count_up page_entry_size 0 init_pte pt a
      ≡ (if in_range 0 1024 a then set_addr a (set_present 0 blank_entry) else pt a)
pte_loop pt a =
    count_up_each init_pte (λ i _. set_addr i (set_present 0 blank_entry)) (λ i m a. ground arith)
      1024 0 pt a

-- The directory of `paging_init`, entry by entry.
init_directory_lem :
    (addr : ℕ) (pd : Table) (a : ℕ)
    → init_directory addr pd a ≡ (
        if a == 1
        then set_mb_base 1 (set_rw 1 (set_present 1 mb_entry))
        else if a == 0
        then set_addr (addr / 2 ^ 12) (set_rw 1 (set_present 1 kb_entry))
        else if in_range 2 1022 a
        then set_mb_base a mb_entry
        else pd a)
unfolding init_directory
init_directory_lem addr pd a = ground (arith, pde_loop pd a)

-- The case of entry `a` in that lemma.
high_case :
    (x y z w a : ℕ)
    → 1 < a
    → a < 1024
    → (if a == 1 then x else if a == 0 then y else if in_range 2 1022 a then z else w) ≡ z
high_case x y z w a lo hi = ground arith

-- Five neighbouring entries changed one after the other.
five_edits :
    (g : ℕ → ℕ → ℕ) (b : ℕ) (t : Table) (a : ℕ)
    → edit
        (b + 4)
        (g (b + 4))
        (edit
          (b + 3)
          (g (b + 3))
          (edit (b + 2) (g (b + 2)) (edit (b + 1) (g (b + 1)) (edit b (g b) t))))
        a
      ≡ (if in_range b 5 a then g a (t a) else t a)
five_edits g b t a = ground arith

video_inside : (a : ℕ) → in_range pt_video 5 a ≡ true → in_range 0 1024 a ≡ true
video_inside a h = ground arith

abbrev video_mark : ℕ → ℕ → ℕ
video_mark i e = set_addr i (set_cache_da 1 (set_rw 1 (set_present 1 e)))

-- The page table of `paging_init`, entry by entry.
init_table_lem :
    (pt : Table) (a : ℕ)
    → init_table pt a ≡ (
        if in_range pt_video 5 a
        then video_mark a (set_addr a (set_present 0 blank_entry))
        else if in_range 0 1024 a
        then set_addr a (set_present 0 blank_entry)
        else pt a)
unfolding init_table
init_table_lem pt a =
    five_edits video_mark pt_video (count_up page_entry_size 0 init_pte pt) a
    ∙ rw (pte_loop pt a) (elim (Bool-cases (in_range pt_video 5 a)) [
      | inl h ↦ rw (h, video_inside a h)
      | inr h ↦ rw h
    ])

-- Where the kernel's accesses lead: entry 0 of the directory, to the page table.
low_memory :
    (layout : Layout) (s : Paging) (v : ℕ)
    → v < 2 ^ 22
    → layout.page_table_addr < 2 ^ 32
    → let e = set_addr (layout.page_table_addr / 2 ^ 12) (set_rw 1 (set_present 1 kb_entry)) in
      (through_directory layout s false v e ≡ through_table false v s.page_table)
      × (through_directory layout s true v e ≡ none)
unfolding through_directory
low_memory layout s v h w =
    let e = set_addr (layout.page_table_addr / 2 ^ 12) (set_rw 1 (set_present 1 kb_entry)) in
    let p : field 0 1 e ≡ 1 = omega arith in
    let u : field 2 1 e ≡ 0 = omega arith in
    let z : field 7 1 e ≡ 0 = omega arith in
    let q : e / 2 ^ 12 ≡ layout.page_table_addr / 2 ^ 12 = omega arith in
    (rw (p, z, q, ==-self (layout.page_table_addr / 2 ^ 12)), rw (p, u))

-- Entry `a` of the page table.
video_page :
    (v a : ℕ)
    → a < 1024
    → in_range pt_video 5 a ≡ true
    → through_entry false v (video_mark a (set_addr a (set_present 0 blank_entry)))
      ≡ some (a * 2 ^ 12 + v % 2 ^ 12)
video_page v a h w =
    let e = video_mark a (set_addr a (set_present 0 blank_entry)) in
    let p : field 0 1 e ≡ 1 = omega arith in let q : e / 2 ^ 12 ≡ a = omega arith in rw (p, q)

absent_page : (v a : ℕ) → through_entry false v (set_addr a (set_present 0 blank_entry)) ≡ none
absent_page v a =
    let p : field 0 1 (set_addr a (set_present 0 blank_entry)) ≡ 0 = omega arith in rw p

kernel_page :
    (layout : Layout) (s : Paging) (v : ℕ)
    → let e = set_mb_base 1 (set_rw 1 (set_present 1 mb_entry)) in
      (through_directory layout s false v e ≡ some (1 * 2 ^ 22 + v % 2 ^ 22))
      × (through_directory layout s true v e ≡ none)
unfolding through_directory
kernel_page layout s v = (refl, refl)

absent_large :
    (layout : Layout) (s : Paging) (user : Bool) (v a : ℕ)
    → through_directory layout s user v (set_mb_base a mb_entry) ≡ none
unfolding through_directory
absent_large layout s true v a =
    let p : field 0 1 (set_mb_base a mb_entry) ≡ 0 = omega arith in rw p
absent_large layout s false v a =
    let p : field 0 1 (set_mb_base a mb_entry) ≡ 0 = omega arith in rw p

-- The identity on the kernel's 4 MB and on the five pages of video memory, and nothing else.
abbrev pub kernel_view : ℕ → Option ℕ
kernel_view v =
    if leb (4 * mb) v && ltb v (8 * mb) || (leb 0xB8000 v && ltb v 0xBD000) then some v else none

view_kernel : (v : ℕ) → v / 2 ^ 22 ≡ 1 → some (1 * 2 ^ 22 + v % 2 ^ 22) ≡ kernel_view v
view_kernel v h = ground arith

view_video :
    (v : ℕ)
    → v / 2 ^ 22 ≡ 0
    → in_range pt_video 5 (v / 2 ^ 12 % 2 ^ 10) ≡ true
    → some (v / 2 ^ 12 % 2 ^ 10 * 2 ^ 12 + v % 2 ^ 12) ≡ kernel_view v
view_video v h w = ground arith

view_absent :
    (v : ℕ)
    → v / 2 ^ 22 ≡ 0
    → in_range pt_video 5 (v / 2 ^ 12 % 2 ^ 10) ≡ false
    → none ≡ kernel_view v
view_absent v h w = ground arith

view_high : (v : ℕ) → 1 < v / 2 ^ 22 → none ≡ kernel_view v
view_high v h = ground arith

low_entry : (v : ℕ) → in_range 0 1024 (v / 2 ^ 12 % 2 ^ 10) ≡ true
low_entry v = ground arith

module _ (layout : Layout) (s : Paging) (v : ℕ) (v_word : v < 2 ^ 32)
    (table_word : layout.page_table_addr < 2 ^ 32) where
  directory_entry :
      (a e : ℕ)
      → v / 2 ^ 22 ≡ a
      → init_directory layout.page_table_addr s.page_directory a ≡ e
      → (user : Bool)
      → translate layout (paging_init layout s) user v
        ≡ through_directory layout (paging_init layout s) user v e
  unfolding translate paging_init
  directory_entry a e i h user =
      let P = paging_init layout s in
      ap (λ k. through_directory layout P user v (P.page_directory k)) i
      ∙ ap (through_directory layout P user v) h

  low_page :
      v / 2 ^ 22 ≡ 0 → through_table false v (paging_init layout s).page_table ≡ kernel_view v
  unfolding paging_init
  low_page h = elim (Bool-cases (in_range pt_video 5 (v / 2 ^ 12 % 2 ^ 10))) [
    | inl w ↦
        rw (init_table_lem s.page_table (v / 2 ^ 12 % 2 ^ 10), w)
          (video_page v (v / 2 ^ 12 % 2 ^ 10) (omega arith) w ∙ view_video v h w)
    | inr w ↦
        rw (init_table_lem s.page_table (v / 2 ^ 12 % 2 ^ 10), w, low_entry v)
          (absent_page v (v / 2 ^ 12 % 2 ^ 10) ∙ view_absent v h w)
  ]

  -- Once `paging_init` has run, the kernel reaches its own 4 MB and the five pages of video memory, each
  -- at its own address, and every other access faults; a user program reaches nothing.
  pub paging_init_lem :
      (translate layout (paging_init layout s) false v ≡ kernel_view v)
      × (translate layout (paging_init layout s) true v ≡ none)
  paging_init_lem = elim (dec_lt 1 (v / 2 ^ 22)) [
    | yes high ↦
        let d : init_directory layout.page_table_addr s.page_directory (v / 2 ^ 22)
            ≡ set_mb_base (v / 2 ^ 22) mb_entry =
          init_directory_lem layout.page_table_addr s.page_directory (v / 2 ^ 22)
          ∙ high_case _ _ _ _ (v / 2 ^ 22) high (omega arith) in
        (
          directory_entry _ _ refl d false
              ∙ absent_large layout (paging_init layout s) false v (v / 2 ^ 22)
              ∙ view_high v high,
          directory_entry _ _ refl d true
              ∙ absent_large layout (paging_init layout s) true v (v / 2 ^ 22),
        )
    | no low ↦ elim (ℕ_discrete (v / 2 ^ 22) 1) [
      | yes kernel ↦
          let d = init_directory_lem layout.page_table_addr s.page_directory 1 in
          let k = kernel_page layout (paging_init layout s) v in
          (
            directory_entry 1 _ kernel d false ∙ k.0 ∙ view_kernel v kernel,
            directory_entry 1 _ kernel d true ∙ k.1,
          )
      | no first ↦
          let z : v / 2 ^ 22 ≡ 0 = omega arith in
          let d = init_directory_lem layout.page_table_addr s.page_directory 0 in
          let k = low_memory layout (paging_init layout s) v (omega arith) table_word in
          (directory_entry 0 _ z d false ∙ k.0 ∙ low_page z, directory_entry 0 _ z d true ∙ k.1)
    ]
  ]
