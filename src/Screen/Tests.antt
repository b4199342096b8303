-- ===== src/Screen/Tests.antt =====
-- Examples of the terminals.
use os.Prelude.{◌≡◌, refl, arith, [], ◌∷◌, update}
use os.Paging.{Paging}
use os.Screen.{Screen, putc_scroll, puts_scroll, set_disiplay_terminal}
use os.Screen.Cursor.{OnScreen, puts_scroll_frame}
use os.Screen.Text.{view, print, putc_scroll_refines}
use os.Screen.Switch.{set_disiplay_terminal_back}

abbrev no_pages : Paging
no_pages = record {
  page_directory = λ _. 0;
  page_table = λ _. 0;
  vid_mem_table = λ _. 0;
  cr3 = 0;
  pse = 0;
  pg = 0;
  flushes = 0;
}

-- Terminal 0 is on display and terminal 1 runs, behind the last cell of its page.
abbrev full : Screen
full = record {
  vmem = λ _. 32;
  screen_x = 0;
  screen_y = 0;
  screen_x_array = λ _. 0;
  screen_y_array = update (λ _. 0) 1 25;
  display_terminal = 0;
  active_terminal = 1;
  crtc = λ _. 0;
  paging = no_pages;
}

behind_last : OnScreen 0 25
behind_last = record { column = omega arith; cell = omega arith }

puts_scroll_frame_example : (puts_scroll (65 ∷ 66 ∷ []) full).vmem 160 ≡ full.vmem 160
puts_scroll_frame_example = puts_scroll_frame (65 ∷ 66 ∷ []) full 160 (omega arith) behind_last refl

putc_scroll_refines_example :
    ((view (putc_scroll 65 full)).char 1920 ≡ (print 65 (view full)).char 1920)
    × ((view (putc_scroll 65 full)).next ≡ (print 65 (view full)).next)
putc_scroll_refines_example =
    putc_scroll_refines 65 full 1920 (omega arith) behind_last (omega arith)

set_disiplay_terminal_back_example :
    (set_disiplay_terminal full.display_terminal (set_disiplay_terminal 2 full)).vmem 12388
    ≡ full.vmem 12388
set_disiplay_terminal_back_example = set_disiplay_terminal_back full 2 12388 refl
