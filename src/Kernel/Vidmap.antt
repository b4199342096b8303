-- ===== src/Kernel/Vidmap.antt =====
-- What a program sees at the address that `vidmap` gives it.
use os.Prelude.{
  ℕ, ◌+◌, ◌*◌, ◌/◌, ◌^◌, ◌<◌, ◌≡◌, ◌≢◌, refl, ap, arith, Bool, false, some, pos, ◌||◌, ◌==◌, ◌∙◌,
  ==-self,
}
use os.Paging.{Layout, mb, pt_video}
use os.Paging.Walk.{translate}
use os.Paging.Process.{vid_mem_page_map_lem}
use os.Kernel.{Kernel, vidmap}

-- `vidmap`, with a pointer that is neither NULL nor 4 MB, gives every program the page of the display,
-- also one whose terminal is not on display: at 132 MB the program reaches the video memory, whichever
-- terminal is running. The two page tables have to be in different pages.
pub vidmap_lem :
    (layout : Layout) (start_screen v : ℕ) (user : Bool) (k : Kernel)
    → start_screen ≢ 0
    → start_screen ≢ 4 * mb
    → layout.vid_mem_table_addr < 2 ^ 32
    → layout.vid_mem_table_addr / 2 ^ 12 ≢ layout.page_table_addr / 2 ^ 12
    → k.system.screen.paging.vid_mem_table 0 < 2 ^ 32
    → v < 2 ^ 12
    → let r = vidmap layout start_screen k in
      (r.0 ≡ pos (132 * mb))
      × (r.1 ≡ some (132 * mb))
      × (translate layout r.2.system.screen.paging user (132 * mb + v)
          ≡ some (pt_video * 2 ^ 12 + v))
unfolding vidmap
vidmap_lem layout start_screen v user k h1 h2 h3 h4 h5 h6 =
    let test : (start_screen == 0 || start_screen == 4 * mb) ≡ false = ground (arith, h1, h2) in
    let screen = k.system.screen in
    rw (test, vidmap)
      (
        refl,
        refl,
        vid_mem_page_map_lem layout screen.paging screen.display_terminal (132 * mb)
              screen.display_terminal user (132 * mb + v) h3 h4 h5 (omega arith) (omega arith)
            ∙ rw (==-self screen.display_terminal) (ap some (omega arith)),
      )
