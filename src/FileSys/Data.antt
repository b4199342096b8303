-- ===== src/FileSys/Data.antt =====
-- `read_data`: how many bytes it returns, and which.
use os.Prelude.{
  ℕ, zero, suc, ◌+◌, ◌-◌, ◌*◌, ◌/◌, ◌%◌, ◌<◌, ◌≤◌, ◌≡◌, ◌≢◌, arith, ◌==◌, if◌then◌else◌, Bytes, pos,
  minus_one, int32, ltb, leb, min, some, in_range, update, ◌^◌,
}
use os.Prelude.{◌||◌, fun_ext}
use os.FileSys.{
  FileSys, read_loop, read_data, read_data_into, block_byte, inode_length, datablk_size,
}

-- Byte `p` of the file: in data block number p / 4096 of its inode.
abbrev pub file_byte : FileSys → ℕ → ℕ → ℕ
file_byte fs inode p = block_byte fs inode (p / datablk_size) (p % datablk_size)

block_byte-eq-file_byte :
    (fs : FileSys) (inode j off p : ℕ)
    → off < datablk_size
    → j * datablk_size + off ≡ p
    → block_byte fs inode j off ≡ file_byte fs inode p
block_byte-eq-file_byte fs inode j off p h e =
    let quotient : p / datablk_size ≡ j = omega arith in
    let remainder : p % datablk_size ≡ off = omega arith in rw (quotient, remainder)

-- What is to be read in `n` more rounds from round `i` on.
abbrev left : FileSys → ℕ → ℕ → ℕ → ℕ
left fs inode n i = min n (inode_length fs inode - i)

module _ (fs : FileSys) (inode offset : ℕ) where
  read_loop_count :
      (n i j off : ℕ) (buf : Bytes) → (read_loop n i j off fs inode buf).0 ≡ i + left fs inode n i
  unfolding read_loop
  read_loop_count zero i j off buf = omega arith
  read_loop_count (suc n) i j off buf =
      let j' = if off == datablk_size then j + 1 else j in
      let off' = if off == datablk_size then 0 else off in
      ground (
        arith,
        read_loop_count n (i + 1) j' (off' + 1) (update buf i (block_byte fs inode j' off')),
      )

  round_bytes :
      (n i j off : ℕ) (buf : Bytes) (k : ℕ) (rest : ℕ × Bytes)
      → off < datablk_size
      → j * datablk_size + off ≡ offset + i
      → rest.1 k ≡ (
          if in_range (i + 1) (left fs inode n (i + 1)) k
          then file_byte fs inode (offset + k)
          else update buf i (block_byte fs inode j off) k)
      → (if leb (inode_length fs inode) i then (i, buf) else rest).1 k ≡ (
          if in_range i (left fs inode (suc n) i) k then file_byte fs inode (offset + k) else buf k)
  round_bytes n i j off buf k rest h e ih =
      ground (arith, block_byte-eq-file_byte fs inode j off (offset + i) h e)

  next_off :
      (off : ℕ) → off ≤ datablk_size → (if off == datablk_size then 0 else off) < datablk_size
  next_off off h = ground arith

  next_place :
      (j off p : ℕ)
      → j * datablk_size + off ≡ p
      → (if off == datablk_size then j + 1 else j) * datablk_size
          + (if off == datablk_size then 0 else off)
        ≡ p
  next_place j off p e = ground arith

  read_loop_bytes :
      (n i j off : ℕ) (buf : Bytes) (k : ℕ)
      → off ≤ datablk_size
      → j * datablk_size + off ≡ offset + i
      → (read_loop n i j off fs inode buf).1 k
        ≡ (if in_range i (left fs inode n i) k then file_byte fs inode (offset + k) else buf k)
  unfolding read_loop
  read_loop_bytes zero i j off buf k h e = ground arith
  read_loop_bytes (suc n) i j off buf k h e =
      round_bytes n i _ _ buf k _ (next_off off h) (next_place j off (offset + i) e) (
        read_loop_bytes n (i + 1) (if off == datablk_size then j + 1 else j)
          ((if off == datablk_size then 0 else off) + 1) _ k (omega (arith, next_off off h))
          (omega (arith, next_place j off (offset + i) e)))

read_data_into_lem :
    (fs : FileSys) (inode offset : ℕ) (buf : Bytes) (length : ℕ)
    → read_data_into fs inode offset buf length ≡ (
        if inode == 0 || leb fs.num_inodes inode
        then (minus_one, buf)
        else if leb (inode_length fs inode) offset
        then (pos 0, buf)
        else (
          int32 (min length (inode_length fs inode)),
          λ k.
              if ltb k (min length (inode_length fs inode))
              then file_byte fs inode (offset + k)
              else buf k,
        ))
unfolding read_data_into
read_data_into_lem fs inode offset buf length = ground (arith, count, bytes)
  where
    j : ℕ
    j = offset / datablk_size

    off : ℕ
    off = offset % datablk_size

    count : (read_loop length 0 j off fs inode buf).0 ≡ min length (inode_length fs inode)
    count = omega (arith, read_loop_count fs inode offset length 0 j off buf)

    bytes : (read_loop length 0 j off fs inode buf).1 ≡ λ k.
        if ltb k (min length (inode_length fs inode))
        then file_byte fs inode (offset + k)
        else buf k
    bytes = fun_ext λ k.
        ground
          (arith, read_loop_bytes fs inode offset length 0 j off buf k (omega arith) (omega arith))

-- `read_data` returns -1 for inode 0 and for an inode that is out of range, returns 0 at or past the end
-- of the file, and else copies the bytes from `offset` on: as many as `length` asks for, and at most as
-- many as the whole file has. No other place of the buffer changes.
pub read_data_lem :
    (fs : FileSys) (inode offset : ℕ) (buf : Bytes) (length : ℕ)
    → read_data fs inode offset (some buf) length ≡ (
        if inode == 0 || leb fs.num_inodes inode
        then (minus_one, some buf)
        else if leb (inode_length fs inode) offset
        then (pos 0, some buf)
        else (
          int32 (min length (inode_length fs inode)),
          some (λ k.
              if ltb k (min length (inode_length fs inode))
              then file_byte fs inode (offset + k)
              else buf k),
        ))
unfolding read_data
read_data_lem fs inode offset buf length =
    ground (arith, read_data_into_lem fs inode offset buf length)

-- A read that starts past the first byte and asks for more than is left runs past the end of the file:
-- the count that it returns reaches beyond the file's length.
read_data_past_end :
    (fs : FileSys) (inode offset : ℕ) (buf : Bytes) (length : ℕ)
    → inode ≢ 0
    → inode < fs.num_inodes
    → 0 < offset
    → offset < inode_length fs inode
    → inode_length fs inode < offset + length
    → length < 2 ^ 31
    → (n : ℕ) × ((read_data fs inode offset (some buf) length).0 ≡ pos n)
      × (inode_length fs inode < offset + n)
read_data_past_end fs inode offset buf length h1 h2 h3 h4 h5 h6 = (
  min length (inode_length fs inode),
  ground (arith, read_data_lem fs inode offset buf length),
  ground arith,
)
