-- ===== src/Programs/Cat.antt =====
-- What `cat` prints.
use os.Prelude.{
  ℕ, zero, suc, ◌+◌, ◌*◌, ◌^◌, ◌<◌, ◌≤◌, ◌≡◌, refl, arith, false, some, ◌==◌, Bytes, List, [], ◌++◌,
  pos, ap, ◌∙◌, sym, min,
}
use os.FileSys.{FileSys, Dentry, is_minus_one, inode_length, read_dentry_by_name}
use os.FileSys.Data.{file_byte}
use os.Screen.{puts_scroll}
use os.Keyboard.{read_out, print_lim}
use os.Keyboard.Terminal.{read_out-same}
use os.Process.{fdesc_size, find_slot, open_file, enter_file, set_pcb}
use os.Process.Files.{find_slot_lem}
use os.Command.{Command, getargs}
use os.System.{System, running, advance}
use os.Programs.{cat, cat_loop, cat_size}
use os.Programs.Reading.{
  IsReading, IsFile, len, step, read_more, read_over, next-IsReading, opened-IsReading,
}
use os.Programs.Calls.{read_out-split, Prints, write_line, puts_scroll-append}

zero_mul : (n : ℕ) → zero * n ≡ 0
zero_mul n = omega arith

suc_mul' : (l n : ℕ) → suc l * n ≡ n + l * n
suc_mul' l n = omega arith

-- `l` reads of `n` bytes, from `p` on, come just to the end.
Covers : ℕ → ℕ → ℕ → ℕ → Type 0
Covers zero n p len = len ≤ p
Covers (suc l) n p len = (p < len) × Covers l n (p + n) len

module _ (inode : ℕ) (fs : FileSys) (file : IsFile inode fs) where
  -- The text that `l` reads from `p` on give.
  text : ℕ → ℕ → List ℕ
  text zero p = []
  text (suc l) p = read_out (step inode fs) p (file_byte fs inode) ++ text l (p + (step inode fs))

  text_lem : (l p : ℕ) → text l p ≡ read_out (l * (step inode fs)) p (file_byte fs inode)
  unfolding text read_out
  text_lem zero p = ap (λ k. read_out k p (file_byte fs inode)) (sym (zero_mul (step inode fs)))
  text_lem (suc l) p =
      ap (λ cs. read_out (step inode fs) p (file_byte fs inode) ++ cs)
        (text_lem l (p + (step inode fs)))
      ∙ sym (read_out-split (step inode fs) (l * (step inode fs)) p (file_byte fs inode))
      ∙ ap (λ k. read_out k p (file_byte fs inode)) (sym (suc_mul' l (step inode fs)))

  covers :
      (l p : ℕ)
      → p + l * (step inode fs) < (len inode fs) + (step inode fs)
      → (len inode fs) ≤ p + l * (step inode fs)
      → Covers l (step inode fs) p (len inode fs)
  unfolding Covers
  covers zero p below above = omega (arith, zero_mul (step inode fs))
  covers (suc l) p below above =
      let e = suc_mul' l (step inode fs) in
      (omega (arith, e), covers l (p + (step inode fs)) (omega (arith, e)) (omega (arith, e)))

  step-bounds :
      (p : ℕ)
      → p < (len inode fs)
      → (0 < (step inode fs)) × ((step inode fs) < print_lim) × (p + (step inode fs) < 2 ^ 32)
  step-bounds p more = omega (arith, file.small)

  module _ (fuel : ℕ) (stack : Dentry) (fd : ℕ) where
    cat_loop_lem :
        (l p rounds : ℕ) (buf : Bytes) (s : System)
        → IsReading fd inode p fs s
        → Covers l (step inode fs) p (len inode fs)
        → l < rounds
        → (s' : System) × (cat_loop rounds fuel stack (pos fd) buf s ≡ some (0, s'))
          × (s'.screen ≡ puts_scroll (text l p) s.screen)
    unfolding cat_loop puts_scroll text Covers
    cat_loop_lem l p zero buf s at covered few = absurd (omega arith)
    cat_loop_lem zero p (suc rounds) buf s at covered few = (
      advance fd 0 s,
      rw (read_over inode fs file fuel cat_size stack fd p buf s at covered, cat_loop) refl,
      refl,
    )
    cat_loop_lem (suc l) p (suc rounds) buf s at (more, covered) few =
        let (line, runs, bytes) = read_more inode fs file fuel stack fd p buf s at more in
        let (some_left, room, wide) = step-bounds p more in
        let go : ((step inode fs) == 0) ≡ false = ground arith in
        let s1 = advance fd (step inode fs) s in
        let here = next-IsReading inode fs file fd p (step inode fs) s s1 at wide refl refl in
        let (s2, written, same, files, shown) =
          write_line line (step inode fs) s1 here.terminal room in
        let next = next-IsReading inode fs file fd p (step inode fs) s s2 at wide same files in
        let (s3, rest, screen) =
          cat_loop_lem l (p + (step inode fs)) rounds line s2 next covered (omega arith) in
        let printed : read_out (step inode fs) 0 line
            ≡ read_out (step inode fs) p (file_byte fs inode) =
          read_out-same (step inode fs) 0 p line (file_byte fs inode)
            (λ k low. let e : 0 + k ≡ k = omega arith in ap line e ∙ bytes k low) in
        (
          s3,
          rw (runs, go, written, cat_loop) rest,
          screen
              ∙ ap (puts_scroll (text l (p + (step inode fs))))
                  (shown ∙ ap (λ cs. puts_scroll cs s.screen) printed)
              ∙ sym (
                  puts_scroll-append (read_out (step inode fs) p (file_byte fs inode))
                    (text l (p + (step inode fs))) s.screen),
        )

-- `cat` prints the bytes of the file that its argument names, from the first one on, in reads of `n`
-- bytes, 1024 or as many as the file has, and returns 0. The number `r` of reads is the least that reaches
-- the end, and each prints `n` bytes: where `n` does not divide the length, the last read prints bytes
-- from behind the file's end. The running process has the terminal as its descriptor 1 and a free
-- descriptor; the file is regular, not empty, and has an inode that is in range, not 0, and a length below
-- 2 ^ 31. It is enough to allow for one round more than there are reads.
pub cat_lem :
    (rounds fuel r : ℕ) (stack : Dentry) (c : Command) (buf name : Bytes) (s : System)
    → getargs fuel c (some buf) ≡ some (pos 0, some name)
    → let found = read_dentry_by_name s.file_sys name stack in
      let length = inode_length s.file_sys found.1.inode in
      let n = min cat_size length in
      is_minus_one found.0 ≡ false
      → found.1.ftype ≡ 2
      → IsFile found.1.inode s.file_sys
      → find_slot (running s) < fdesc_size
      → Prints s
      → length ≤ r * n
      → r * n < length + n
      → r < rounds
      → (s' : System) × (cat rounds fuel stack c buf s ≡ some (0, s'))
        × (s'.screen
            ≡ puts_scroll (read_out (r * n) 0 (file_byte s.file_sys found.1.inode)) s.screen)
unfolding cat open_file
cat_lem rounds fuel r stack c buf name s args there regular file room prints above below few =
    let d = (read_dentry_by_name s.file_sys name stack).1 in
    let i = find_slot (running s) in
    let free : (i == fdesc_size) ≡ false = ground arith in
    let s1 = record s {
      processes = set_pcb s.processes.curr (enter_file i d (running s)) s.processes;
    } in
    let at = opened-IsReading d i s prints (find_slot_lem (running s)).0 room regular in
    let (s', runs, screen) =
      cat_loop_lem d.inode s.file_sys file fuel stack i r 0 rounds name s1 at
        (covers d.inode s.file_sys file r 0 (omega arith) (omega arith)) few in
    (
      s',
      rw (args, there, free, regular, cat) runs,
      screen ∙ ap (λ cs. puts_scroll cs s.screen) (text_lem d.inode s.file_sys file r 0),
    )
