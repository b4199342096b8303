-- ===== src/Command/Programs.antt =====
-- Which files `verify_file` takes for programs, in terms of the bytes of the file.
use os.Prelude.{
  ℕ, zero, suc, ◌+◌, ◌<◌, ◌≡◌, refl, arith, true, false, Bool, not, ◌&&◌, ◌||◌, ◌==◌, ltb, leb,
  if◌then◌else◌, Bytes, pos, int8, ◌-ℤ◌, minus_one, some, min, word32, ap, ◌∙◌, Bool-cases, inl,
  inr,
}
use os.Strings.{strncmp, strncmp_from}
use os.Strings.Compare.{HoldsBytes}
use os.FileSys.{
  FileSys, read_dentry_by_name, read_f_by_name, read_data, inode_length, block_byte, is_minus_one,
  is_zero,
}
use os.FileSys.Data.{file_byte, read_data_lem}
use os.Command.{Command, Locals, check_program, magic, or_else, byte_len, start_addr}

-- What a buffer holds after a read of `count` bytes from `offset` on: bytes of the file where the inode
-- can be read and the offset is inside, and else what it held before.
abbrev pub copied : FileSys → ℕ → ℕ → ℕ → Bytes → Bytes
copied fs inode offset count old k =
    if not (inode == 0 || leb fs.num_inodes inode)
      && (ltb offset (inode_length fs inode) && ltb k (min count (inode_length fs inode)))
    then file_byte fs inode (offset + k)
    else old k

pub read_data-copied :
    (fs : FileSys) (inode offset count : ℕ) (old : Bytes) (k : ℕ)
    → or_else (read_data fs inode offset (some old) count).1 old k
      ≡ copied fs inode offset count old k
read_data-copied fs inode offset count old k =
    rw (read_data_lem fs inode offset old count)
      (elim (Bool-cases (inode == 0 || leb fs.num_inodes inode)) [
        | inl bad ↦ rw bad refl
        | inr good ↦ elim (Bool-cases (leb (inode_length fs inode) offset)) [
          | inl over ↦
              let at : ltb offset (inode_length fs inode) ≡ false = ground (arith, over) in
              rw (good, over, at) refl
          | inr inside ↦
              let at : ltb offset (inode_length fs inode) ≡ true = ground (arith, inside) in
              rw (good, inside, at) refl
        ]
      ])

pub copied-HoldsBytes :
    (fs : FileSys) (inode offset count : ℕ) (old : Bytes)
    → HoldsBytes fs.mem
    → HoldsBytes old
    → HoldsBytes (copied fs inode offset count old)
unfolding block_byte
copied-HoldsBytes fs inode offset count old mem_bytes old_bytes k =
    ground (arith, old_bytes k, byte (offset + k))
  where
    byte : (p : ℕ) → file_byte fs inode p < 256
    byte p = mem_bytes _

-- The inode of the file `name`.
abbrev pub inode_of : FileSys → Locals → Bytes → ℕ
inode_of fs l name = (read_dentry_by_name fs name l.dentry).1.inode

-- The name is in the directory.
abbrev pub is_there : FileSys → Locals → Bytes → Bool
is_there fs l name = not (is_minus_one (read_dentry_by_name fs name l.dentry).0)

-- 0x7F and "ELF"
abbrev pub has_magic : Bytes → Bool
has_magic h = h 0 == 0x7F && (h 1 == b'E' && (h 2 == b'L' && h 3 == b'F'))

-- The file `name` is there, and its first four bytes are those of a program. Of a file with fewer bytes
-- the others are what the local buffer held.
abbrev pub is_program : FileSys → Locals → Bytes → Bool
is_program fs l name =
    is_there fs l name && has_magic (copied fs (inode_of fs l name) 0 4 l.file_buf)

-- The entry point: the bytes 24 to 27 of the file.
abbrev pub entry_point : FileSys → Locals → Bytes → Bytes → ℕ
entry_point fs l name old = word32 (copied fs (inode_of fs l name) 24 4 old) 0

-- Two bytes whose difference is 0.
differ : (a c : ℕ) → a < 256 → c < 128 → (a == c) ≡ false → is_zero (int8 a -ℤ pos c) ≡ false
unfolding ◌-ℤ◌
differ a c byte low other = ground arith

magic_lem : (h : Bytes) → HoldsBytes h → is_zero (strncmp h magic byte_len) ≡ has_magic h
unfolding strncmp strncmp_from
magic_lem h bytes = elim (Bool-cases (h 0 == 0x7F)) [
  | inr other ↦ rw other (differ (h 0) 0x7F (bytes 0) (omega arith) other)
  | inl e0 ↦ elim (Bool-cases (h 1 == b'E')) [
    | inr other ↦ rw (e0, at (h 0) 0x7E e0, other) (differ (h 1) b'E' (bytes 1) (omega arith) other)
    | inl e1 ↦ elim (Bool-cases (h 2 == b'L')) [
      | inr other ↦
          rw (e0, at (h 0) 0x7E e0, e1, at (h 1) 68 e1, other)
            (differ (h 2) b'L' (bytes 2) (omega arith) other)
      | inl e2 ↦ elim (Bool-cases (h 3 == b'F')) [
        | inr other ↦
            rw (e0, at (h 0) 0x7E e0, e1, at (h 1) 68 e1, e2, at (h 2) 75 e2, other)
              (differ (h 3) b'F' (bytes 3) (omega arith) other)
        | inl e3 ↦
            rw (e0, at (h 0) 0x7E e0, e1, at (h 1) 68 e1, e2, at (h 2) 75 e2, e3, at (h 3) 69 e3)
              refl
      ]
    ]
  ]
]
  where
    at : (a c : ℕ) → (a == suc c) ≡ true → (a == 0) ≡ false
    at a c e = ground (arith, e)

read_f_by_name-copied :
    (fs : FileSys) (l : Locals) (name : Bytes) (offset : ℕ) (old : Bytes) (k : ℕ)
    → is_there fs l name ≡ true
    → or_else (read_f_by_name fs l.dentry name offset (some old) byte_len).1 old k
      ≡ copied fs (inode_of fs l name) offset 4 old k
unfolding read_f_by_name
read_f_by_name-copied fs l name offset old k there =
    let found : is_minus_one (read_dentry_by_name fs name l.dentry).0 ≡ false =
      ground (arith, there) in
    rw found (read_data-copied fs (inode_of fs l name) offset 4 old k)

strncmp_ext :
    (n i : ℕ) (a b c : Bytes) → ((k : ℕ) → a k ≡ b k) → strncmp_from n i a c ≡ strncmp_from n i b c
unfolding strncmp_from
strncmp_ext zero i a b c same = refl
strncmp_ext (suc n) i a b c same = rw (same i, strncmp_ext n (i + 1) a b c same) refl

word32_ext : (a b : Bytes) → ((k : ℕ) → a k ≡ b k) → word32 a 0 ≡ word32 b 0
word32_ext a b same = rw (same 0, same 1, same 2, same 3) refl

-- `verify_file` on a name: it accepts just the programs, and keeps their entry point.
pub check_program-programs :
    (fs : FileSys) (l : Locals) (c : Command)
    → HoldsBytes fs.mem
    → HoldsBytes l.file_buf
    → let (r, c') = check_program fs l c in
      (r ≡ (if is_program fs l c.in_file then pos 0 else minus_one))
      × (is_program fs l c.in_file ≡ true
          → word32 c'.v_addr 0 ≡ entry_point fs l c.in_file c.v_addr)
unfolding check_program strncmp
check_program-programs fs l c mem_bytes buf_bytes =
    let inode = inode_of fs l c.in_file in
    elim (Bool-cases (is_minus_one (read_dentry_by_name fs c.in_file l.dentry).0)) [
      | inl missing ↦ (rw missing refl, λ e. absurd (ground (arith, missing, e)))
      | inr found ↦
          let there : is_there fs l c.in_file ≡ true = rw found refl in
          let head =
            or_else (read_f_by_name fs l.dentry c.in_file 0 (some l.file_buf) byte_len).1
              l.file_buf in
          let first = copied fs inode 0 4 l.file_buf in
          let same : is_zero (strncmp head magic byte_len) ≡ has_magic first =
            ap is_zero (
              strncmp_ext byte_len 0 head first magic
                (λ k. read_f_by_name-copied fs l c.in_file 0 l.file_buf k there))
            ∙ magic_lem first (copied-HoldsBytes fs inode 0 4 l.file_buf mem_bytes buf_bytes) in
          elim (Bool-cases (has_magic first)) [
            | inl elf ↦ (
              rw (found, same, elf) refl,
              λ e.
                  rw (found, same, elf)
                    (word32_ext _ (copied fs inode 24 4 c.v_addr)
                      (λ k. read_f_by_name-copied fs l c.in_file start_addr c.v_addr k there)),
            )
            | inr other ↦ (rw (found, same, other) refl, λ e. absurd (ground (arith, other, e)))
          ]
    ]
