-- ===== src/Keyboard/Terminal.antt =====
-- A line on its way to the program that reads it, and a program's text on its way to the screen.
use os.Prelude.{
  ℕ, zero, suc, ◌+◌, refl, ap, ◌∙◌, pos, ◌*◌, ◌<◌, ◌≤◌, ◌≡◌, arith, ltb, true, if◌then◌else◌, Bytes,
  update, count_up, count_up_writes, none, some, slt,
}
use os.Strings.{strlen}
use os.Screen.{Screen, puts_scroll}
use os.Keyboard.{
  Keyboard, commit_line, line_size, print_lim, terminal_read, terminal_write, read_out,
}
use os.Keyboard.Line.{commit_line_lem, copy_row}

copied_line :
    (t i count : ℕ) (k : Keyboard) (buf : Bytes)
    → i < count
    → i < line_size
    → count_up count 0
        (λ j m. update m j ((commit_line t k).print_buffer (print_lim * t + j)))
        buf
        i
      ≡ k.keyboard_buffer (line_size * t + i)
copied_line t i count k buf h h' = ground (
  arith,
  count_up_writes (λ j _. (commit_line t k).print_buffer (print_lim * t + j)) count 0 buf i,
  commit_line_lem t (print_lim * t + i) k,
)

-- A read by the terminal for which Enter was pressed answers at once, with the length of what it
-- stored: the first characters of the typed line, as many as it asked for and as the line has places.
-- The next read by that terminal finds no line ready.
terminal_read-commit_line :
    (fuel count i : ℕ) (buf : Bytes) (k : Keyboard) (s : Screen)
    → i < count
    → i < line_size
    → let k1 = commit_line s.active_terminal k in
      let k2 = record k1 {
        terminal_read_ready = update k1.terminal_read_ready s.active_terminal 0;
      } in
      (buf' : Bytes) × (terminal_read fuel buf count k1 s ≡ some (strlen fuel buf', buf', k2))
      × (buf' i ≡ k.keyboard_buffer (line_size * s.active_terminal + i))
      × (terminal_read fuel buf count k2 s ≡ none)
unfolding terminal_read
terminal_read-commit_line fuel count i buf k s h h' = (
  count_up count 0
      (λ j m.
        update m j
          ((commit_line s.active_terminal k).print_buffer (print_lim * s.active_terminal + j)))
      buf,
  ground (arith, ready),
  copied_line s.active_terminal i count k buf h h',
  ground arith,
)
  where
    ready : (commit_line s.active_terminal k).terminal_read_ready s.active_terminal ≡ 1
    ready = (commit_line_lem s.active_terminal 0 k).3

pub read_out-same :
    (n i j : ℕ) (m m' : Bytes)
    → ((k : ℕ) → k < n → m (i + k) ≡ m' (j + k))
    → read_out n i m ≡ read_out n j m'
unfolding read_out
read_out-same zero i j m m' same = refl
read_out-same (suc n) i j m m' same =
    let first : m i ≡ m' j = ap m (omega arith) ∙ same 0 (omega arith) ∙ ap m' (omega arith) in
    let rest =
      read_out-same n (i + 1) (j + 1) m m'
        (λ k low. ap m (omega arith) ∙ same (k + 1) (omega arith) ∙ ap m' (omega arith)) in
    rw (first, rest) refl

-- A write that fits the buffer prints the program's characters in turn.
pub terminal_write-screen :
    (buf : Bytes) (count : ℕ) (k : Keyboard) (s : Screen)
    → count < print_lim
    → let r = terminal_write buf count k s in
      (r.0 ≡ pos count) × (r.2 ≡ puts_scroll (read_out count 0 buf) s)
unfolding terminal_write
terminal_write-screen buf count k s low =
    let small : slt count print_lim ≡ true = ground arith in
    let start = print_lim * s.active_terminal in
    let kept =
      update (count_up count 0 (λ i m. update m (start + i) (buf i)) k.print_buffer) (start + count)
        0 in
    let same : read_out count start kept ≡ read_out count 0 buf =
      read_out-same count start 0 kept buf
        (λ j h. ground (arith, copy_row count start 0 buf k.print_buffer (start + j))) in
    (ground arith, rw (small, same) refl)

-- What a write leaves of the place where the next terminal's print buffer begins: a write of 2050
-- characters or more replaces it by NUL, a shorter one leaves it.
pub terminal_write-next_row :
    (buf : Bytes) (count : ℕ) (k : Keyboard) (s : Screen)
    → count < 2147483648
    → let next = print_lim * (s.active_terminal + 1) in
      (terminal_write buf count k s).1.print_buffer next
      ≡ (if ltb count print_lim then k.print_buffer next else 0)
unfolding terminal_write
terminal_write-next_row buf count k s h = ground (
  arith,
  copy_row (if slt count print_lim then count else print_lim) (print_lim * s.active_terminal) 0 buf
      k.print_buffer (print_lim * (s.active_terminal + 1)),
)

-- The characters and the NUL that a write leaves in the buffer of the running terminal.
pub terminal_write-print_buffer :
    (n i : ℕ) (text : Bytes) (k : Keyboard) (s : Screen)
    → n < print_lim
    → i ≤ n
    → (terminal_write text n k s).1.print_buffer (print_lim * s.active_terminal + i)
      ≡ (if ltb i n then text i else 0)
unfolding terminal_write
terminal_write-print_buffer n i text k s small inside =
    let start = print_lim * s.active_terminal in
    let short : slt n print_lim ≡ true = ground arith in
    rw short (ground (arith, copy_row n start 0 text k.print_buffer (start + i)))

-- What a read hands over: the first characters of the terminal's buffer.
pub terminal_read-ready :
    (fuel count : ℕ) (buf : Bytes) (k : Keyboard) (s : Screen)
    → k.terminal_read_ready s.active_terminal ≡ 1
    → (buf' : Bytes) × (terminal_read fuel buf count k s
        ≡ some (
          strlen fuel buf',
          buf',
          record k { terminal_read_ready = update k.terminal_read_ready s.active_terminal 0 },
        ))
      × ((i : ℕ) → i < count → buf' i ≡ k.print_buffer (print_lim * s.active_terminal + i))
unfolding terminal_read
terminal_read-ready fuel count buf k s ready =
    let from : Bytes = λ j. k.print_buffer (print_lim * s.active_terminal + j) in
    (
      count_up count 0 (λ j m. update m j (from j)) buf,
      rw ready refl,
      λ i inside. ground (arith, count_up_writes (λ j _. from j) count 0 buf i),
    )

-- What a program writes goes through the buffer that its terminal's lines wait in: if a line is ready,
-- a read after a write of `n` characters gives back those characters and a NUL behind them, at each
-- place that the read asks for, whatever the line was. A line that was typed ahead is lost. The write
-- is shorter than the buffer, and the same terminal is running.
pub terminal_write-replaces :
    (fuel n count i : ℕ) (text buf : Bytes) (k : Keyboard) (s s' : Screen)
    → s'.active_terminal ≡ s.active_terminal
    → n < print_lim
    → i < count
    → i ≤ n
    → k.terminal_read_ready s.active_terminal ≡ 1
    → let k' = (terminal_write text n k s).1 in
      (buf' : Bytes) × (k'' : Keyboard) × (terminal_read fuel buf count k' s'
        ≡ some (strlen fuel buf', buf', k''))
      × (buf' i ≡ (if ltb i n then text i else 0))
unfolding terminal_write
terminal_write-replaces fuel n count i text buf k s s' same small asked inside ready =
    let k' = (terminal_write text n k s).1 in
    let (buf', answer, chars) =
      terminal_read-ready fuel count buf k' s' (ap k.terminal_read_ready same ∙ ready) in
    (
      buf',
      _,
      answer,
      chars i asked
          ∙ ap (λ t. k'.print_buffer (print_lim * t + i)) same
          ∙ terminal_write-print_buffer n i text k s small inside,
    )
