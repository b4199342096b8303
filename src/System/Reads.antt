-- ===== src/System/Reads.antt =====
-- Reads of a regular file through its descriptor, and reads that are refused.
use os.Prelude.{
  ℕ, ◌+◌, ◌<◌, ◌≤◌, ◌≡◌, ◌≢◌, ◌⊎◌, refl, arith, Bool, true, false, leb, ltb, min, ◌==◌,
  if◌then◌else◌, Bytes, some, none, ap, ◌∙◌, ℤ, pos, negsuc, minus_one, inl, inr,
}
use os.FileSys.{Dentry, inode_length, read_data}
use os.FileSys.Data.{file_byte, read_data_lem}
use os.Process.{Handler, fdesc_size}
use os.System.{System, read, write, call_read, running, advance}

-- A read that starts inside the file.
inside :
    (s : System) (inode offset : ℕ) (buf : Bytes) (n : ℕ)
    → inode ≢ 0
    → inode < s.file_sys.num_inodes
    → offset < inode_length s.file_sys inode
    → min n (inode_length s.file_sys inode) < 2147483648
    → read_data s.file_sys inode offset (some buf) n ≡ (
      pos (min n (inode_length s.file_sys inode)),
      some (λ k.
          if ltb k (min n (inode_length s.file_sys inode))
          then file_byte s.file_sys inode (offset + k)
          else buf k),
    )
inside s inode offset buf n h1 h2 h3 h4 =
    rw (read_data_lem s.file_sys inode offset buf n) (ground arith)

pub call_read_f :
    (fuel : ℕ) (stack : Dentry) (inode offset : ℕ) (buf buf' : Bytes) (n count : ℕ) (s : System)
    → read_data s.file_sys inode offset (some buf) n ≡ (pos count, some buf')
    → call_read fuel stack Handler.read_f_wrapper inode offset buf n s ≡ some (pos count, buf', s)
unfolding call_read
call_read_f fuel stack inode offset buf buf' n count s e =
    ap (λ r. some (r.0, elim r.1 [ none ↦ buf | some kept ↦ kept ], s)) e

-- Through an open descriptor of a regular file, a read that starts inside the file returns as many
-- bytes as are asked for, and at most as many as the whole file has: those from the descriptor's
-- position on. The position moves on by the count, and nothing else in the kernel changes.
pub read-regular :
    (fuel : ℕ) (stack : Dentry) (fd : ℕ) (buf : Bytes) (nbytes : ℕ) (s : System)
    → let d = (running s).file_array fd in
      let n = min nbytes (inode_length s.file_sys d.inode) in
      fd < fdesc_size
      → d.flag ≢ 0
      → d.read_handler ≡ Handler.read_f_wrapper
      → d.inode ≢ 0
      → d.inode < s.file_sys.num_inodes
      → d.file_pos < inode_length s.file_sys d.inode
      → n < 2147483648
      → read fuel stack (pos fd) buf nbytes s
        ≡ some (
          pos n,
          (λ k. if ltb k n then file_byte s.file_sys d.inode (d.file_pos + k) else buf k),
          advance fd n s,
        )
unfolding read
read-regular fuel stack fd buf nbytes s h1 h2 h3 h4 h5 h6 h7 =
    let d = (running s).file_array fd in
    let in_array : leb fdesc_size fd ≡ false = ground arith in
    let is_open : (d.flag == 0) ≡ false = ground arith in
    let call =
      ap (λ f. call_read fuel stack f d.inode d.file_pos buf nbytes s) h3
      ∙ call_read_f fuel stack d.inode d.file_pos buf _ nbytes _ s
          (inside s d.inode d.file_pos buf nbytes h4 h5 h6 h7) in
    rw (in_array, is_open, call) refl

-- A read of a descriptor that is negative, past the last one or not open returns -1 and changes
-- nothing.
pub read-refused :
    (fuel : ℕ) (stack : Dentry) (fd : ℤ) (buf : Bytes) (nbytes : ℕ) (s : System)
    → ((n : ℕ) → fd ≡ pos n → (fdesc_size ≤ n) ⊎ (((running s).file_array n).flag ≡ 0))
    → read fuel stack fd buf nbytes s ≡ some (minus_one, buf, s)
unfolding read
read-refused fuel stack (negsuc k) buf nbytes s h = refl
read-refused fuel stack (pos n) buf nbytes s h = elim (h n refl) [
  | inl far ↦ let past : leb fdesc_size n ≡ true = ground arith in rw past refl
  | inr shut ↦ closed shut (leb fdesc_size n) refl
]
  where
    closed :
        ((running s).file_array n).flag ≡ 0
        → (b : Bool) → leb fdesc_size n ≡ b
        → read fuel stack (pos n) buf nbytes s ≡ some (minus_one, buf, s)
    closed shut true e = rw e refl
    closed shut false e =
        let down : (((running s).file_array n).flag == 0) ≡ true = ground arith in rw (e, down) refl

-- A write to a descriptor that is past the last one or not taken returns -1 and changes nothing.
pub write-refused :
    (fd : ℕ) (buf : Bytes) (nbytes : ℕ) (s : System)
    → (fdesc_size ≤ fd) ⊎ ((running s).bitmap fd ≡ 0)
    → write (pos fd) buf nbytes s ≡ some (minus_one, s)
unfolding write
write-refused fd buf nbytes s why = at (leb fdesc_size fd) refl
  where
    at : (b : Bool) → leb fdesc_size fd ≡ b → write (pos fd) buf nbytes s ≡ some (minus_one, s)
    at true far = rw far refl
    at false near =
        let free : ((running s).bitmap fd == 0) ≡ true = ground (arith, near, why) in
        rw (near, free) refl
