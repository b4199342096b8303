-- ===== src/Programs/Reading.antt =====
-- A file that a program has open, and the reads of it.
use os.Prelude.{
  ℕ, ◌+◌, ◌^◌, ◌<◌, ◌≤◌, ◌≡◌, ◌≢◌, refl, arith, true, false, some, ltb, leb, ◌==◌, if◌then◌else◌,
  Bytes, pos, ap, ◌∙◌, sym, u32, ==-self, min,
}
use os.FileSys.{FileSys, Dentry, read_data, inode_length}
use os.FileSys.Data.{file_byte, read_data_lem}
use os.Process.{Handler, fdesc_size, enter_file, handlers_for, set_pcb}
use os.System.{System, read, call_read, running, advance}
use os.System.Reads.{read-regular, call_read_f}
use os.Programs.{cat_size}
use os.Programs.Calls.{Prints, advance-file, advance-bitmap, advance-position}

-- The file `inode` is open at `fd`, and `p` bytes have been read.
pub record IsReading (fd inode p : ℕ) (fs : FileSys) (s : System) : Type 0 where
  pub low : fd < fdesc_size
  pub up : ((running s).file_array fd).flag ≢ 0
  pub handler : ((running s).file_array fd).read_handler ≡ Handler.read_f_wrapper
  pub file : ((running s).file_array fd).inode ≡ inode
  pub position : ((running s).file_array fd).file_pos ≡ p
  pub terminal : Prints s
  pub files : s.file_sys ≡ fs

-- A file that can be read.
pub record IsFile (inode : ℕ) (fs : FileSys) : Type 0 where
  pub not_first : inode ≢ 0
  pub inside : inode < fs.num_inodes
  pub small : inode_length fs inode < 2 ^ 31

abbrev pub len : ℕ → FileSys → ℕ
len inode fs = inode_length fs inode

-- What one read of the whole buffer gives.
abbrev pub step : ℕ → FileSys → ℕ
step inode fs = min cat_size (inode_length fs inode)

module _ (inode : ℕ) (fs : FileSys) (file : IsFile inode fs) where
  pub read_more :
      (fuel : ℕ) (stack : Dentry) (fd p : ℕ) (buf : Bytes) (s : System)
      → IsReading fd inode p fs s
      → p < (len inode fs)
      → (buf' : Bytes) × (read fuel stack (pos fd) buf cat_size s
          ≡ some (pos (step inode fs), buf', advance fd (step inode fs) s))
        × ((k : ℕ) → k < (step inode fs) → buf' k ≡ file_byte fs inode (p + k))
  read_more fuel stack fd p buf s at more =
      let d = (running s).file_array fd in
      let n = min cat_size (inode_length s.file_sys d.inode) in
      let buf' : Bytes =
        λ k. if ltb k n then file_byte s.file_sys d.inode (d.file_pos + k) else buf k in
      let length_same : inode_length s.file_sys d.inode ≡ inode_length fs inode =
        rw (at.files, at.file) refl in
      let same : n ≡ min cat_size (inode_length fs inode) = ap (min cat_size) length_same in
      let nonzero = λ (z : d.inode ≡ 0). file.not_first (sym at.file ∙ z) in
      let inside : d.inode < s.file_sys.num_inodes = rw (at.files, at.file) file.inside in
      (
        buf',
        read-regular fuel stack fd buf cat_size s at.low at.up at.handler nonzero inside
              (omega (arith, at.position, length_same)) (omega (arith, same))
            ∙ ap (λ m. some (pos m, buf', advance fd m s)) same,
        λ k low.
            let in_range : ltb k n ≡ true = ground (arith, same) in
            rw in_range (
              ap (λ f. file_byte f d.inode (d.file_pos + k)) at.files
              ∙ ap (λ i. file_byte fs i (d.file_pos + k)) at.file
              ∙ ap (λ q. file_byte fs inode (q + k)) at.position),
      )

  pub read_over :
      (fuel count : ℕ) (stack : Dentry) (fd p : ℕ) (buf : Bytes) (s : System)
      → IsReading fd inode p fs s
      → (len inode fs) ≤ p
      → read fuel stack (pos fd) buf count s ≡ some (pos 0, buf, advance fd 0 s)
  unfolding read
  read_over fuel count stack fd p buf s at last =
      let d = (running s).file_array fd in
      let in_array : leb fdesc_size fd ≡ false = ground (arith, at.low) in
      let is_open : (d.flag == 0) ≡ false = ground (arith, at.up) in
      let length_same : inode_length s.file_sys d.inode ≡ inode_length fs inode =
        rw (at.files, at.file) refl in
      let nonzero = λ (z : d.inode ≡ 0). file.not_first (sym at.file ∙ z) in
      let inside : d.inode < s.file_sys.num_inodes = rw (at.files, at.file) file.inside in
      let over : read_data s.file_sys d.inode d.file_pos (some buf) count ≡ (pos 0, some buf) =
        read_data_lem s.file_sys d.inode d.file_pos buf count
        ∙ ground (arith, nonzero, inside, at.position, length_same) in
      rw
        (
          in_array,
          is_open,
          ap (λ h. call_read fuel stack h d.inode d.file_pos buf count s) at.handler
              ∙ call_read_f fuel stack d.inode d.file_pos buf buf count 0 s over,
        )
        refl

  pub next-IsReading :
      (fd p n : ℕ) (s s' : System)
      → IsReading fd inode p fs s
      → p + n < 2 ^ 32
      → s'.processes ≡ (advance fd n s).processes
      → s'.file_sys ≡ s.file_sys
      → IsReading fd inode (p + n) fs s'
  next-IsReading fd p n s s' at low e e' =
      let (up, inode', handler, _) = advance-file fd n fd s in
      let (_, _, _, writes) = advance-file fd n 1 s in
      let moved : u32 (((running s).file_array fd).file_pos + n) ≡ p + n =
        ground (arith, at.position) in
      record {
        low = at.low;
        up = λ z. at.up (sym up ∙ sym (ap (λ p. ((p.pcb p.curr).file_array fd).flag) e) ∙ z);
        handler = ap (λ p. ((p.pcb p.curr).file_array fd).read_handler) e ∙ handler ∙ at.handler;
        file = ap (λ p. ((p.pcb p.curr).file_array fd).inode) e ∙ inode' ∙ at.file;
        position =
            ap (λ p. ((p.pcb p.curr).file_array fd).file_pos) e
            ∙ advance-position fd n fd s
            ∙ moved;
        terminal = (
          (λ z.
              at.terminal.0
                (sym (advance-bitmap fd n 1 s) ∙ sym (ap (λ p. (p.pcb p.curr).bitmap 1) e) ∙ z)),
          ap (λ p. ((p.pcb p.curr).file_array 1).write_handler) e ∙ writes ∙ at.terminal.1,
        );
        files = e' ∙ at.files;
      }

-- The file after `open`.
pub opened-IsReading :
    (d : Dentry) (i : ℕ) (s : System)
    → Prints s
    → 2 ≤ i
    → i < fdesc_size
    → d.ftype ≡ 2
    → IsReading i d.inode 0 s.file_sys
        (record s { processes = set_pcb s.processes.curr (enter_file i d (running s)) s.processes })
unfolding enter_file handlers_for
opened-IsReading d i s (taken, writes) two low regular = record {
  low = low;
  up = ground arith;
  handler = rw (==-self s.processes.curr, regular, ==-self i) refl;
  file = rw (==-self s.processes.curr, ==-self i) refl;
  position = rw (==-self s.processes.curr, ==-self i) refl;
  terminal = (ground arith, rw (==-self s.processes.curr) (ground arith));
  files = refl;
}
