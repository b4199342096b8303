-- ===== src/Screen/Switch.antt =====
-- Switching the terminal on display.
use os.Prelude.{
  ℕ, ◌+◌, ◌-◌, ◌≡◌, arith, false, ltb, ◌==◌, if◌then◌else◌, Bytes, update, count_up, zero, suc,
  in_range, ◌≤◌, ◌⊎◌,
}
use os.Screen.{
  Screen, kb_4, terminal_mem, copy_page, set_disiplay_terminal, set_active_terminal, update_cursor,
}

copy_loop :
    (n start dest src : ℕ) (m : Bytes) (a : ℕ)
    → (dest + start + n ≤ src) ⊎ (src + start + n ≤ dest)
    → count_up n start (λ i m'. update m' (dest + i) (m' (src + i))) m a
      ≡ (if in_range (dest + start) n a then m (src + (a - dest)) else m a)
unfolding count_up
copy_loop zero start dest src m a apart = ground arith
copy_loop (suc n) start dest src m a apart =
    ground (arith, copy_loop n (start + 1) dest src (update m (dest + start) (m (src + start))) a)

copy_page_lem :
    (dest src n : ℕ) (m : Bytes) (a : ℕ)
    → (dest + n ≤ src) ⊎ (src + n ≤ dest)
    → copy_page dest src n m a ≡ (if in_range dest n a then m (src + (a - dest)) else m a)
unfolding copy_page
copy_page_lem dest src n m a apart = ground (arith, copy_loop n 0 dest src m a)

-- What `set_disiplay_terminal` leaves in the video memory: the page of the new terminal on display, the
-- old display in the page of the terminal that left it, and all else as it was.
set_disiplay_terminal_vmem :
    (s : Screen) (t : ℕ) (a : ℕ)
    → (set_disiplay_terminal t s).vmem a ≡ (
        if ltb a kb_4
        then if t == s.display_terminal then s.vmem a else s.vmem (terminal_mem t + a)
        else if in_range (terminal_mem s.display_terminal) kb_4 a
        then s.vmem (a - terminal_mem s.display_terminal)
        else s.vmem a)
unfolding set_disiplay_terminal set_active_terminal update_cursor
set_disiplay_terminal_vmem s t a = ground (
  arith,
  copy_page_lem 0 (terminal_mem t) kb_4 (copy_page (terminal_mem s.display_terminal) 0 kb_4 s.vmem)
      a,
  copy_page_lem (terminal_mem s.display_terminal) 0 kb_4 s.vmem a,
  copy_page_lem (terminal_mem s.display_terminal) 0 kb_4 s.vmem (terminal_mem t + a),
)

set_disiplay_terminal_display :
    (s : Screen) (t : ℕ) → (set_disiplay_terminal t s).display_terminal ≡ t
unfolding set_disiplay_terminal
set_disiplay_terminal_display s t = ground arith

-- Showing another terminal and coming back restores the video memory: the display, the pages of the
-- other terminals, everything but the hidden page of the terminal that is on display.
pub set_disiplay_terminal_back :
    (s : Screen) (t a : ℕ)
    → in_range (terminal_mem s.display_terminal) kb_4 a ≡ false
    → (set_disiplay_terminal s.display_terminal (set_disiplay_terminal t s)).vmem a ≡ s.vmem a
set_disiplay_terminal_back s t a out = ground (
  arith,
  set_disiplay_terminal_display s t,
  set_disiplay_terminal_vmem (set_disiplay_terminal t s) s.display_terminal a,
  set_disiplay_terminal_vmem s t a,
  set_disiplay_terminal_vmem s t (terminal_mem s.display_terminal + a),
  set_disiplay_terminal_vmem s t (a - terminal_mem t),
)
