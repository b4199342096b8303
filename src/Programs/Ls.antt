-- ===== src/Programs/Ls.antt =====
-- What `ls` prints.
use os.Prelude.{
  ℕ, zero, suc, ◌+◌, ◌-◌, ◌^◌, ◌<◌, ◌≤◌, ◌≡◌, ◌≢◌, refl, arith, true, false, some, ltb, leb, ◌==◌,
  if◌then◌else◌, Bytes, List, [], ◌∷◌, ◌++◌, update, pos, ap, ◌∙◌, sym, ==-self,
}
use os.FileSys.{
  FileSys, Dentry, is_minus_one, fname_size, read_dir, read_dentry_by_name, open_dir, dentry_at,
}
use os.FileSys.Names.{name_at}
use os.FileSys.Directory.{read_dir_step}
use os.Screen.{puts_scroll}
use os.Keyboard.{read_out}
use os.Process.{Handler, fdesc_size, find_slot, open_file, enter_file, handlers_for, set_pcb}
use os.Process.Files.{find_slot_lem}
use os.System.{System, read, call_read, running, advance}
use os.Kernel.{nth}
use os.Programs.{ls, ls_loop, sbufsize}
use os.Programs.Calls.{Prints, write_line, advance-file, advance-bitmap, puts_scroll-append}

-- The directory's names from number `k` on, `n` of them: each name's 32 characters and a line feed.
abbrev pub listing : ℕ → ℕ → FileSys → List ℕ
listing zero k fs = []
listing (suc n) k fs = read_out fname_size 0 (name_at fs k) ++ (b'\n' ∷ listing n (k + 1) fs)

-- The directory is open at `fd`, with the name `k` as the next one.
record IsListing (fd k : ℕ) (fs : FileSys) (s : System) : Type 0 where
  low : fd < fdesc_size
  up : ((running s).file_array fd).flag ≢ 0
  handler : ((running s).file_array fd).read_handler ≡ Handler.read_dir_wrapper
  terminal : Prints s
  files : s.file_sys ≡ record fs { read_dir_index = k }

through_handler :
    (fuel : ℕ) (stack : Dentry) (fd k n : ℕ) (fs fs' : FileSys) (buf buf' : Bytes) (s : System)
    → IsListing fd k fs s
    → read_dir (record fs { read_dir_index = k }) stack buf ≡ (pos n, buf', fs')
    → read fuel stack (pos fd) buf (sbufsize - 1) s
      ≡ some (pos n, buf', advance fd n (record s { file_sys = fs' }))
unfolding read call_read
through_handler fuel stack fd k n fs fs' buf buf' s at listed =
    let in_array : leb fdesc_size fd ≡ false = ground (arith, at.low) in
    let is_open : (((running s).file_array fd).flag == 0) ≡ false = ground (arith, at.up) in
    let d = (running s).file_array fd in
    let called : call_read fuel stack Handler.read_dir_wrapper d.inode d.file_pos buf (sbufsize - 1)
          s
        ≡ some (pos n, buf', record s { file_sys = fs' }) =
      rw (at.files, listed, call_read) refl in
    rw
      (
        in_array,
        is_open,
        ap (λ h. call_read fuel stack h d.inode d.file_pos buf (sbufsize - 1) s) at.handler
            ∙ called,
      )
      refl

read_name :
    (fuel : ℕ) (stack : Dentry) (fd k : ℕ) (fs : FileSys) (buf : Bytes) (s : System)
    → IsListing fd k fs s
    → fs.num_dentry < 2 ^ 31
    → k < fs.num_dentry
    → read fuel stack (pos fd) buf (sbufsize - 1) s
      ≡ some (
        pos fname_size,
        (λ i. if ltb i fname_size then name_at fs k i else buf i),
        advance fd fname_size (record s { file_sys = record fs { read_dir_index = k + 1 } }),
      )
unfolding dentry_at
read_name fuel stack fd k fs buf s at small more =
    let go : ltb k fs.num_dentry ≡ true = ground arith in
    through_handler fuel stack fd k fname_size fs (record fs { read_dir_index = k + 1 }) buf
      (λ i. if ltb i fname_size then name_at fs k i else buf i) s at
      (read_dir_step (record fs { read_dir_index = k }) stack buf small (omega arith) ∙ rw go refl)

read_end :
    (fuel : ℕ) (stack : Dentry) (fd k : ℕ) (fs : FileSys) (buf : Bytes) (s : System)
    → IsListing fd k fs s
    → fs.num_dentry < 2 ^ 31
    → k ≡ fs.num_dentry
    → read fuel stack (pos fd) buf (sbufsize - 1) s
      ≡ some (pos 0, buf, advance fd 0 (record s { file_sys = record fs { read_dir_index = k } }))
read_end fuel stack fd k fs buf s at small last =
    let stop : ltb k fs.num_dentry ≡ false = ground arith in
    through_handler fuel stack fd k 0 fs (record fs { read_dir_index = k }) buf buf s at
      (read_dir_step (record fs { read_dir_index = k }) stack buf small (omega arith)
        ∙ rw stop refl)

-- After a name is read and printed, the next one is next.
next-IsListing :
    (fd k n : ℕ) (fs : FileSys) (s s' : System)
    → IsListing fd k fs s
    → s'.processes ≡ (advance fd n s).processes
    → s'.file_sys ≡ record fs { read_dir_index = k + 1 }
    → IsListing fd (k + 1) fs s'
next-IsListing fd k n fs s s' at e e' =
    let (up, _, handler, _) = advance-file fd n fd s in
    let (_, _, _, writes) = advance-file fd n 1 s in
    record {
      low = at.low;
      up = λ z. at.up (sym up ∙ sym (ap (λ p. ((p.pcb p.curr).file_array fd).flag) e) ∙ z);
      handler = ap (λ p. ((p.pcb p.curr).file_array fd).read_handler) e ∙ handler ∙ at.handler;
      terminal = (
        (λ z.
            at.terminal.0
              (sym (advance-bitmap fd n 1 s) ∙ sym (ap (λ p. (p.pcb p.curr).bitmap 1) e) ∙ z)),
        ap (λ p. ((p.pcb p.curr).file_array 1).write_handler) e ∙ writes ∙ at.terminal.1,
      );
      files = e';
    }

read_out-line :
    (n i : ℕ) (b name : Bytes)
    → ((k : ℕ) → k ≤ n → b (i + k) ≡ (if k == n then b'\n' else name (i + k)))
    → read_out (suc n) i b ≡ read_out n i name ++ (b'\n' ∷ [])
unfolding read_out
read_out-line zero i b name line =
    let last : b i ≡ b'\n' = ap b (omega arith) ∙ line 0 (omega arith) in rw last refl
read_out-line (suc n) i b name line =
    let at_b : b (i + 0) ≡ b i = let e : i + 0 ≡ i = omega arith in ap b e in
    let at_name : name (i + 0) ≡ name i = let e : i + 0 ≡ i = omega arith in ap name e in
    let first : b i ≡ name i = ground (arith, line 0 (omega arith), at_b, at_name) in
    let here = λ (k : ℕ). let e : i + 1 + k ≡ i + (k + 1) = omega arith in ap b e in
    let here' = λ (k : ℕ). let e : i + 1 + k ≡ i + (k + 1) = omega arith in ap name e in
    let rest =
      read_out-line n (i + 1) b name
        (λ k low. ground (arith, line (k + 1) (omega arith), here k, here' k)) in
    rw (first, rest) refl

module _ (fuel : ℕ) (stack : Dentry) (fd : ℕ) (fs : FileSys) (small : fs.num_dentry < 2 ^ 31) where
  ls_loop_lem :
      (n k rounds : ℕ) (buf : Bytes) (s : System)
      → IsListing fd k fs s
      → k + n ≡ fs.num_dentry
      → n < rounds
      → (s' : System) × (ls_loop rounds fuel stack (pos fd) buf s ≡ some (0, s'))
        × (s'.screen ≡ puts_scroll (listing n k fs) s.screen)
  unfolding ls_loop puts_scroll
  ls_loop_lem n k zero buf s at count few = absurd (omega arith)
  ls_loop_lem zero k (suc rounds) buf s at count few = (
    advance fd 0 (record s { file_sys = record fs { read_dir_index = k } }),
    rw (read_end fuel stack fd k fs buf s at small (omega arith), ls_loop) refl,
    refl,
  )
  ls_loop_lem (suc n) k (suc rounds) buf s at count few =
      let named : Bytes = λ i. if ltb i fname_size then name_at fs k i else buf i in
      let line = update named fname_size b'\n' in
      let s1 =
        advance fd fname_size (record s { file_sys = record fs { read_dir_index = k + 1 } }) in
      let prints = (next-IsListing fd k fname_size fs s s1 at refl refl).terminal in
      let (s2, written, same, files, shown) =
        write_line line (fname_size + 1) s1 prints (omega arith) in
      let at' = next-IsListing fd k fname_size fs s s2 at same files in
      let (s3, runs, screen) =
        ls_loop_lem n (k + 1) rounds line s2 at' (omega arith) (omega arith) in
      let text : read_out (fname_size + 1) 0 line
          ≡ read_out fname_size 0 (name_at fs k) ++ (b'\n' ∷ []) =
        read_out-line fname_size 0 line (name_at fs k) (λ i low. ground arith) in
      let names = read_out fname_size 0 (name_at fs k) in
      (
        s3,
        rw (read_name fuel stack fd k fs buf s at small (omega arith), written, ls_loop) runs,
        screen
            ∙ ap (puts_scroll (listing n (k + 1) fs)) (
                shown
                ∙ ap (λ cs. puts_scroll cs s.screen) text
                ∙ puts_scroll-append names (b'\n' ∷ []) s.screen)
            ∙ sym (puts_scroll-append names (b'\n' ∷ listing n (k + 1) fs) s.screen),
      )

-- The directory after `open`.
opened-IsListing :
    (d : Dentry) (i : ℕ) (s : System)
    → Prints s
    → 2 ≤ i
    → i < fdesc_size
    → d.ftype ≡ 1
    → IsListing i 0 s.file_sys (record s {
      processes = set_pcb s.processes.curr (enter_file i d (running s)) s.processes;
      file_sys = (open_dir s.file_sys).1;
    })
unfolding enter_file handlers_for open_dir
opened-IsListing d i s (taken, writes) two low dir = record {
  low = low;
  up = ground arith;
  handler = rw (==-self s.processes.curr, dir, ==-self i) refl;
  terminal = (ground arith, rw (==-self s.processes.curr) (ground arith));
  files = refl;
}

-- `ls` prints the names of the directory in their order, each with all of its 32 characters and a line
-- feed, and returns 0, where the running process has the terminal as its descriptor 1 and a free
-- descriptor, and the file system has the directory ".". The count of names is below 2 ^ 31. It is enough
-- to allow for one round more than there are names.
pub ls_lem :
    (rounds fuel : ℕ) (stack : Dentry) (buf : Bytes) (s : System)
    → let found = read_dentry_by_name s.file_sys (nth (b'.' ∷ [])) stack in
      is_minus_one found.0 ≡ false
      → found.1.ftype ≡ 1
      → find_slot (running s) < fdesc_size
      → Prints s
      → s.file_sys.num_dentry < 2 ^ 31
      → s.file_sys.num_dentry < rounds
      → (s' : System) × (ls rounds fuel stack buf s ≡ some (0, s'))
        × (s'.screen ≡ puts_scroll (listing s.file_sys.num_dentry 0 s.file_sys) s.screen)
unfolding ls open_file
ls_lem rounds fuel stack buf s there dir room prints small few =
    let d = (read_dentry_by_name s.file_sys (nth (b'.' ∷ [])) stack).1 in
    let i = find_slot (running s) in
    let free : (i == fdesc_size) ≡ false = ground arith in
    let s1 = record s {
      processes = set_pcb s.processes.curr (enter_file i d (running s)) s.processes;
      file_sys = (open_dir s.file_sys).1;
    } in
    let at = opened-IsListing d i s prints (find_slot_lem (running s)).0 room dir in
    let (s', runs, screen) =
      ls_loop_lem fuel stack i s.file_sys small s.file_sys.num_dentry 0 rounds buf s1 at
        (omega arith) few in
    (s', rw (there, free, dir, ls) runs, screen)
