-- ===== src/Programs/Calls.antt =====
-- What the calls of a program do.
use os.Prelude.{
  ◌+◌, ap, sym, ◌∙◌, zero, suc, arith, ℕ, ◌<◌, ◌≡◌, ◌≢◌, refl, false, some, ◌==◌, Bytes, List, [],
  ◌∷◌, ◌++◌, pos, u32, ==-self,
}
use os.Screen.{Screen, puts_scroll, putc_scroll}
use os.Keyboard.{read_out, terminal_write, print_lim}
use os.Keyboard.Terminal.{terminal_write-screen}
use os.Process.{Handler}
use os.System.{System, write, call_write, running, advance}

-- The descriptor 1 is the terminal.
abbrev pub Prints : System → Type 0
Prints s =
    ((running s).bitmap 1 ≢ 0)
    × (((running s).file_array 1).write_handler ≡ Handler.terminal_write_wrap)

-- The system after a write of a program to the terminal.
abbrev pub printed : Bytes → ℕ → System → System
printed line n s =
    let r = terminal_write line n s.keyboard s.screen in record s { keyboard = r.1; screen = r.2 }

pub printed_lem :
    (line : Bytes) (n : ℕ) (s : System)
    → Prints s
    → n < print_lim
    → (write (pos 1) line n s ≡ some (pos n, printed line n s))
      × ((printed line n s).screen ≡ puts_scroll (read_out n 0 line) s.screen)
unfolding write call_write
printed_lem line n s (taken, handler) low =
    let (count, shown) = terminal_write-screen line n s.keyboard s.screen low in
    let is_open : ((running s).bitmap 1 == 0) ≡ false = ground arith in
    (rw (is_open, handler, count) refl, shown)

-- A write of a program to the terminal.
pub write_line :
    (line : Bytes) (n : ℕ) (s : System)
    → Prints s
    → n < print_lim
    → (s' : System) × (write (pos 1) line n s ≡ some (pos n, s'))
      × (s'.processes ≡ s.processes)
      × (s'.file_sys ≡ s.file_sys)
      × (s'.screen ≡ puts_scroll (read_out n 0 line) s.screen)
write_line line n s prints low =
    let (done, shown) = printed_lem line n s prints low in
    (printed line n s, done, refl, refl, shown)

-- What a read does to the descriptors of the running process: only the position moves.
module _ (fd n i : ℕ) (s : System) where
  pub advance-file :
      let d = (running s).file_array i in
      let d' = (running (advance fd n s)).file_array i in
      (d'.flag ≡ d.flag)
      × (d'.inode ≡ d.inode)
      × (d'.read_handler ≡ d.read_handler)
      × (d'.write_handler ≡ d.write_handler)
  advance-file = rw (==-self s.processes.curr) (ground arith)

  pub advance-bitmap : (running (advance fd n s)).bitmap i ≡ (running s).bitmap i
  advance-bitmap = rw (==-self s.processes.curr) refl

  pub advance-position :
      ((running (advance fd n s)).file_array fd).file_pos
      ≡ u32 (((running s).file_array fd).file_pos + n)
  advance-position = rw (==-self s.processes.curr, ==-self fd) refl

pub puts_scroll-append :
    (cs ds : List ℕ) (s : Screen) → puts_scroll (cs ++ ds) s ≡ puts_scroll ds (puts_scroll cs s)
unfolding puts_scroll
puts_scroll-append [] ds s = refl
puts_scroll-append (c ∷ cs) ds s = puts_scroll-append cs ds (putc_scroll c s)

pub read_out-split :
    (n m i : ℕ) (b : Bytes) → read_out (n + m) i b ≡ read_out n i b ++ read_out m (i + n) b
unfolding read_out
read_out-split zero m i b =
    let e : zero + m ≡ m = omega arith in
    let e' : i + zero ≡ i = omega arith in
    ap (λ k. read_out k i b) e ∙ sym (ap (λ j. read_out m j b) e')
read_out-split (suc n) m i b =
    let e : suc n + m ≡ suc (n + m) = omega arith in
    let e' : i + 1 + n ≡ i + suc n = omega arith in
    ap (λ k. read_out k i b) e
    ∙ ap (λ cs. b i ∷ cs)
        (read_out-split n m (i + 1) b ∙ ap (λ j. read_out n (i + 1) b ++ read_out m j b) e')
