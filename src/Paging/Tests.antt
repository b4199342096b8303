-- ===== src/Paging/Tests.antt =====
-- Examples of the page tables.
use os.Prelude.{
  ◌+◌, ◌*◌, ◌/◌, ◌%◌, ◌^◌, ◌≡◌, ◌≢◌, refl, arith, true, false, none, some, ◌==◌, if◌then◌else◌,
}
use os.Paging.{Layout, Paging, program_page_idx, pid_page_map, paging_init}
use os.Paging.Walk.{translate}
use os.Paging.Process.{pid_page_map_lem, pid_page_map_isolates}
use os.Paging.Init.{kernel_view, paging_init_lem}

abbrev linked : Layout
linked = record {
  page_directory_addr = 0x410000;
  page_table_addr = 0x411000;
  vid_mem_table_addr = 0x412000;
}

abbrev blank : Paging
blank = record {
  page_directory = λ _. 0;
  page_table = λ _. 0;
  vid_mem_table = λ _. 0;
  cr3 = 0;
  pse = 0;
  pg = 0;
  flushes = 0;
}

-- The entry point of a program, in process 3.
pid_page_map_lem_example : translate linked (pid_page_map 3 blank) true 0x08048000 ≡ (
    if 0x08048000 / 2 ^ 22 == program_page_idx
    then some ((3 + 2) * 2 ^ 22 + 0x08048000 % 2 ^ 22)
    else translate linked blank true 0x08048000)
pid_page_map_lem_example =
    pid_page_map_lem linked blank 3 true 0x08048000 (omega arith) (omega arith)

pid_page_map_isolates_example :
    translate linked (pid_page_map 3 blank) true 0x08048000
    ≢ translate linked (pid_page_map 4 blank) true 0x08048010
pid_page_map_isolates_example =
    pid_page_map_isolates linked blank blank 3 4 true true 0x08048000 0x08048010 (omega arith)
      (omega arith) (omega arith) (omega arith) (omega arith) refl refl

-- The first cell of the display.
paging_init_lem_example :
    (translate linked (paging_init linked blank) false 0xB8000 ≡ kernel_view 0xB8000)
    × (translate linked (paging_init linked blank) true 0xB8000 ≡ none)
paging_init_lem_example = paging_init_lem linked blank 0xB8000 (omega arith) (omega arith)
