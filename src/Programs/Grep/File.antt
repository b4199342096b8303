-- ===== src/Programs/Grep/File.antt =====
-- What grep prints for a file.
use os.Prelude.{
  ℕ, zero, suc, ◌+◌, ◌-◌, ◌^◌, ◌<◌, ◌≤◌, ◌≡◌, refl, arith, true, false, Bytes, List, [], ◌∷◌, some,
  Option, ℤ, pos, ap, sym, ◌∙◌, ◌==◌, ==-self, if◌then◌else◌, ltb, inl, inr, ◌||◌, leb,
}
use native.Mathlib.Decide.{ℕ_discrete}
use os.Strings.Chars.{length}
use os.FileSys.{FileSys, Dentry, is_minus_one, inode_length, read_dentry_by_name}
use os.FileSys.Data.{file_byte}
use os.Screen.{Screen, puts_scroll}
use os.Process.{
  Processes, close, fdesc_size, find_slot, open_file, enter_file, set_pcb, clear_bit, clear_flag,
}
use os.Process.Files.{find_slot_lem}
use os.Command.Args.{NoNul}
use os.System.{System, running, advance}
use os.Programs.Calls.{Prints, puts_scroll-append, advance-bitmap}
use os.Programs.Reading.{
  IsReading, IsFile, len, step, read_more, read_over, next-IsReading, opened-IsReading,
}
use os.Programs.Support.Texts.{IsString, strlen-IsString}
use os.Programs.Grep.{Job, after_last, close_file, file_loop, do_one_file, bufsize}
use os.Programs.Grep.Shows.{Shown, Printable}
use os.Programs.Grep.Lines.{
  text_of, NoFeed, AreLines, if_found, found_lines, HoldsChars, length-text_of, found_lines_split,
  AreLines-tail,
}
use os.Programs.Grep.Rounds.{search_lines_lem}

-- From `s` to `s'` the descriptor `fd` of the running process has been freed, and no other one taken or
-- freed.
pub record IsClosed (fd : ℕ) (s s' : System) : Type 0 where
  pub curr : s'.processes.curr ≡ s.processes.curr
  pub slots : (j : ℕ) → (running s').bitmap j ≡ (if j == fd then 0 else (running s).bitmap j)
  pub down : ((running s').file_array fd).flag ≡ 0

close_file_lem :
    (job : Job) (fd inode p : ℕ) (fs : FileSys) (s : System)
    → IsReading fd inode p fs s
    → 2 ≤ fd
    → (q : Processes) × (close_file job (pos fd) s ≡ some (pos 0, record s { processes = q }))
      × IsClosed fd s (record s { processes = q })
unfolding close_file close
close_file_lem job fd inode p fs s at two =
    let b = running s in
    let in_array : (ltb fdesc_size fd || ltb fd 2) ≡ false = ground (arith, at.low) in
    let not_last : (fd == fdesc_size) ≡ false = ground (arith, at.low) in
    let is_open : ((b.file_array fd).flag == 0) ≡ false = ground (arith, at.up) in
    (
      set_pcb s.processes.curr (clear_bit fd (clear_flag fd b)) s.processes,
      rw (in_array, not_last, is_open, close, close_file) refl,
      record {
        curr = refl;
        slots = λ j. rw (not_last, ==-self s.processes.curr) refl;
        down = rw (not_last, ==-self s.processes.curr, ==-self fd) refl;
      },
    )

-- Closed after reads and writes that leave the descriptors taken as they are.
IsClosed-later :
    {fd : ℕ} {s s1 s' : System} (n : ℕ)
    → s1.processes ≡ (advance fd n s).processes
    → IsClosed fd s1 s'
    → IsClosed fd s s'
IsClosed-later {fd} {s} {s1} {s'} n same closed = record {
  curr = closed.curr ∙ ap (λ p. p.curr) same;
  slots = λ j.
      closed.slots j
      ∙ ap (λ b. if j == fd then 0 else b)
          (ap (λ p. (p.pcb p.curr).bitmap j) same ∙ advance-bitmap fd n j s);
  down = closed.down;
}

-- The file has these lines, and no more than the buffer holds.
pub record HasLines (ls : List (List ℕ)) (tail : List ℕ) (inode : ℕ) (fs : FileSys) : Type 0 where
  pub size : inode_length fs inode ≡ length (text_of ls tail)
  pub some_chars : 0 < inode_length fs inode
  pub fits : inode_length fs inode ≤ bufsize
  pub bytes : HoldsChars (text_of ls tail) 0 (file_byte fs inode)

in_parts :
    (name pattern : List ℕ) (ls : List (List ℕ)) (tail : List ℕ) (a b c : Screen)
    → b ≡ puts_scroll (found_lines name pattern ls []) a
    → c ≡ puts_scroll (if_found name pattern tail) b
    → c ≡ puts_scroll (found_lines name pattern ls tail) a
in_parts name pattern ls tail a b c one two =
    two
    ∙ ap (puts_scroll (if_found name pattern tail)) one
    ∙ sym (puts_scroll-append (found_lines name pattern ls []) (if_found name pattern tail) a)
    ∙ ap (λ cs. puts_scroll cs a) (found_lines_split name pattern ls tail)

nothing_more :
    (name pattern text : List ℕ) (a b c : Screen)
    → b ≡ puts_scroll text a
    → c ≡ puts_scroll (if_found name pattern []) b
    → c ≡ puts_scroll text a
unfolding puts_scroll
nothing_more name pattern text a b c one two = two ∙ one

module _ (name : List ℕ) (p : ℕ) (ps : List ℕ) (job : Job) (enough : 2 ≤ job.fuel)
    (n : Printable job.fuel name) (is_name : IsString name job.fname) (clean : NoNul (p ∷ ps))
    (is_pattern : IsString (p ∷ ps) job.pattern) (inode : ℕ) (fs : FileSys)
    (file : IsFile inode fs) where
  -- The last read finds the end, and what was kept of the last line is searched.
  last_read :
      (rounds fd q : ℕ) (tail : List ℕ) (stack : Dentry) (buf : Bytes) (s : System)
      → NoFeed tail
      → Printable job.fuel tail
      → HoldsChars tail 0 buf
      → IsReading fd inode q fs s
      → len inode fs ≤ q
      → q < 2 ^ 32
      → 2 ≤ fd
      → (s' : System) × (file_loop
            (suc rounds)
            job
            (length (p ∷ ps))
            stack
            (pos fd)
            (length tail)
            buf
            s
          ≡ some (pos 0, s'))
        × (s'.screen ≡ puts_scroll (if_found name (p ∷ ps) tail) s.screen)
        × IsClosed fd s s'
  unfolding file_loop
  last_read rounds fd q tail stack buf s plain can chars at over small two =
      let last = length tail in
      let part : Bytes = λ k. buf (last + k) in
      let s1 = advance fd 0 s in
      let here = next-IsReading inode fs file fd q 0 s s1 at (omega arith) refl refl in
      let done = read_over inode fs file job.fuel (bufsize - last) stack fd q part s at over in
      let kept = after_last last buf part in
      let holds : HoldsChars tail 0 kept = λ k low. ground (arith, chars k low) in
      let o =
        search_lines_lem name p ps job enough n is_name clean is_pattern [] tail (last + 0 + 1) 0
          (last + 0) 0 kept s1 (omega arith) (plain, can) holds (omega arith) here.terminal in
      let shown : Shown (if_found name (p ∷ ps) tail) s1 o.after = elim o.either [
        | inl (z, shown) ↦ shown
        | inr (read, _, _, _) ↦ absurd (read refl)
      ] in
      let end =
        next-IsReading inode fs file fd q 0 s o.after at (omega arith) shown.processes
          shown.file_sys in
      let (r, closes, closed) = close_file_lem job fd inode (q + 0) fs o.after end two in
      (
        record o.after { processes = r },
        rw (done, o.done, closes, file_loop) refl,
        shown.screen,
        IsClosed-later 0 shown.processes closed,
      )

  -- The first read finds the whole file.
  first_read :
      (rounds fd : ℕ) (ls : List (List ℕ)) (tail : List ℕ) (stack : Dentry) (buf : Bytes)
      (s : System)
      → AreLines job.fuel ls tail
      → NoFeed tail
      → Printable job.fuel tail
      → HasLines ls tail inode fs
      → IsReading fd inode 0 fs s
      → 2 ≤ fd
      → (s' : System) × (file_loop (suc (suc rounds)) job (length (p ∷ ps)) stack (pos fd) 0 buf s
          ≡ some (pos 0, s'))
        × (s'.screen ≡ puts_scroll (found_lines name (p ∷ ps) ls tail) s.screen)
        × IsClosed fd s s'
  unfolding file_loop
  first_read rounds fd ls tail stack buf s lines plain can has at two =
      let m = step inode fs in
      let count = length-text_of ls tail in
      let whole : m ≡ length (text_of ls tail) = omega (arith, has.size, has.fits) in
      let more : 0 < len inode fs = has.some_chars in
      let (part, done, bytes) =
        read_more inode fs file job.fuel stack fd 0 (λ k. buf (0 + k)) s at more in
      let s1 = advance fd m s in
      let wide : 0 + m < 2 ^ 32 = omega (arith, has.size, has.fits) in
      let here = next-IsReading inode fs file fd 0 m s s1 at wide refl refl in
      let filled = after_last 0 buf part in
      let holds : HoldsChars (text_of ls tail) 0 filled = λ k low.
        let at_once : leb 0 (0 + k) ≡ true = ground arith in
        let e : 0 + k - 0 ≡ k = omega arith in
        rw at_once (ap part e ∙ bytes k (omega arith) ∙ has.bytes k low) in
      let o =
        search_lines_lem name p ps job enough n is_name clean is_pattern ls tail (0 + m + 1) m
          (0 + m) 0 filled s1 (omega arith) lines holds (omega arith) here.terminal in
      let go : (m == 0) ≡ false = ground (arith, whole, has.size, has.some_chars) in
      let loop : ℕ → Option (ℤ × System) =
        λ kept. file_loop (suc rounds) job (length (p ∷ ps)) stack (pos fd) kept o.buf' o.after in
      let step1 : file_loop (suc (suc rounds)) job (length (p ∷ ps)) stack (pos fd) 0 buf s
          ≡ loop o.kept =
        rw (done, o.done, go, file_loop) refl in
      let empty : Printable job.fuel [] = record {
        enough = omega arith;
        short = omega arith;
        clean = tt;
      } in
      elim o.either [
        | inl (z, shown) ↦
            let next =
              next-IsReading inode fs file fd 0 m s o.after at wide shown.processes
                shown.file_sys in
            let (s3, over, same, closed) =
              last_read rounds fd (0 + m) [] stack o.buf' o.after tt empty
                (λ k low. absurd (omega arith)) next (omega (arith, has.size)) wide two in
            (
              s3,
              step1 ∙ ap loop z ∙ over,
              nothing_more name (p ∷ ps) _ _ _ _ shown.screen same,
              IsClosed-later m shown.processes closed,
            )
        | inr (_, z, line, shown) ↦
            let next =
              next-IsReading inode fs file fd 0 m s o.after at wide shown.processes
                shown.file_sys in
            let (s3, over, same, closed) =
              last_read rounds fd (0 + m) tail stack o.buf' o.after plain can
                (λ k low. ap o.buf' (omega arith) ∙ line k (omega arith)) next
                (omega (arith, has.size)) wide two in
            (
              s3,
              step1 ∙ ap loop z ∙ over,
              in_parts name (p ∷ ps) ls tail _ _ _ shown.screen same,
              IsClosed-later m shown.processes closed,
            )
      ]

-- The running process has the descriptors in use that it had before, and the one that `open` gives is
-- down.
pub record IsReleased (s s' : System) : Type 0 where
  pub curr : s'.processes.curr ≡ s.processes.curr
  pub slots : (j : ℕ) → (running s').bitmap j ≡ (running s).bitmap j
  pub down : ((running s').file_array (find_slot (running s))).flag ≡ 0

opened-IsReleased :
    {s s' : System} (d : Dentry)
    → find_slot (running s) < fdesc_size
    → IsClosed
        (find_slot (running s))
        (record s {
          processes =
              set_pcb s.processes.curr
                (enter_file (find_slot (running s)) d (running s))
                s.processes;
        })
        s'
    → IsReleased s s'
unfolding enter_file
opened-IsReleased {s} {s'} d room closed = record {
  curr = closed.curr;
  slots = λ j. closed.slots j ∙ elim (ℕ_discrete j (find_slot (running s))) [
    | yes e ↦ ground (arith, e, ap (running s).bitmap e, (find_slot_lem (running s)).2 room)
    | no ne ↦ rw (==-self s.processes.curr) (ground (arith, ne))
  ];
  down = closed.down;
}

-- grep prints, for a regular file that is not empty and no longer than its buffer, the lines in which
-- the string stands, each once, in their order and with the name of the file, also the last line where
-- no line feed ends it, and closes the file again: the running process has the same descriptors in use as
-- before, and the one that it opened is down. The string is not empty; it and the lines and the
-- name have no NUL, and they are shorter than the fuel, which is 2 or more, and than one write. The
-- name is in the directory, with an inode that is in range and not 0. The running process has the
-- terminal as its descriptor 1 and a free descriptor. Two reads are enough.
pub do_one_file_lem :
    (rounds : ℕ) (job : Job) (stack : Dentry) (buf : Bytes) (s : System) (name : List ℕ) (p : ℕ)
    (ps : List ℕ) (ls : List (List ℕ)) (tail : List ℕ)
    → let found = read_dentry_by_name s.file_sys job.fname stack in
      2 ≤ rounds
      → 2 ≤ job.fuel
      → Printable job.fuel name
      → IsString name job.fname
      → Printable job.fuel (p ∷ ps)
      → IsString (p ∷ ps) job.pattern
      → AreLines job.fuel ls tail
      → is_minus_one found.0 ≡ false
      → found.1.ftype ≡ 2
      → (file : IsFile found.1.inode s.file_sys) → HasLines ls tail found.1.inode s.file_sys
      → find_slot (running s) < fdesc_size
      → Prints s
      → (s' : System) × (do_one_file rounds job stack buf s ≡ some (pos 0, s'))
        × (s'.screen ≡ puts_scroll (found_lines name (p ∷ ps) ls tail) s.screen)
        × IsReleased s s'
unfolding do_one_file open_file
do_one_file_lem zero job stack buf s name p ps ls tail two _ _ _ _ _ _ _ _ _ _ _ _ =
    absurd (omega arith)
do_one_file_lem (suc zero) job stack buf s name p ps ls tail two _ _ _ _ _ _ _ _ _ _ _ _ =
    absurd (omega arith)
do_one_file_lem (suc (suc r)) job stack buf s name p ps ls tail two enough n is_name can is_pattern
      lines there regular file has room prints =
    let d = (read_dentry_by_name s.file_sys job.fname stack).1 in
    let i = find_slot (running s) in
    let free : (i == fdesc_size) ≡ false = ground arith in
    let from = (find_slot_lem (running s)).0 in
    let s1 = record s {
      processes = set_pcb s.processes.curr (enter_file i d (running s)) s.processes;
    } in
    let at = opened-IsReading d i s prints from room regular in
    let measured = strlen-IsString job.fuel (p ∷ ps) job.pattern can.enough can.clean is_pattern in
    let (plain, last) = AreLines-tail job.fuel ls tail lines in
    let (s', runs, screen, closed) =
      first_read name p ps job enough n is_name can.clean is_pattern d.inode s.file_sys file r i ls
        tail stack buf s1 lines plain last has at from in
    (
      s',
      rw (measured, there, free, regular, do_one_file) runs,
      screen,
      opened-IsReleased d room closed,
    )
