-- ===== src/FileSys.antt =====
-- student-distrib/filesys_read.c: the read-only file system that the boot loader leaves in memory,
-- and the file and directory handlers over it.
-- The image is read through the pointers that `read_filesys_bootblock` computes; nothing in the
-- kernel writes to it. A caller's buffer is memory of its own, `none` where the pointer is NULL.
pub mod Names
pub mod Data
pub mod Directory
mod Tests
use os.Prelude.{
  ℕ, zero, suc, ◌+◌, ◌*◌, ◌/◌, ◌%◌, ◌^◌, Bool, true, false, ◌&&◌, ◌||◌, Option, none, some, ltb,
  leb, ◌==◌, if◌then◌else◌, Bytes, update, word32, u32, ℤ, pos, minus_one, int8, int32, rounds,
  ◌-ℤ◌, not, slt,
}
use os.Strings.{copy_bytes, strncmp}

abbrev pub datablk_size : ℕ
datablk_size = 4096

abbrev pub fname_size : ℕ
fname_size = 32

abbrev pub reserved_size : ℕ
reserved_size = 24

abbrev pub program_max_size : ℕ
program_max_size = 0x100000 * 4

-- The module's static variables, and the memory that holds the image. `dentry_start` is a pointer
-- to 64-byte `dentry_t`s, `inode_start` one to 4096-byte `inode_t`s.
pub record FileSys : Type 0 where
  pub mem : Bytes
  pub num_dentry : ℕ
  pub num_inodes : ℕ
  pub num_data_blocks : ℕ
  pub dentry_start : ℕ
  pub inode_start : ℕ
  pub datablk_start : ℕ
  pub read_dir_index : ℕ

-- `dentry_t`
pub record Dentry : Type 0 where
  pub fname : Bytes
  pub ftype : ℕ
  pub inode : ℕ
  pub reserved : Bytes

-- `read_dir_index` keeps what it held: the function does not touch it.
unfoldable pub read_filesys_bootblock : Bytes → ℕ → ℕ → FileSys
read_filesys_bootblock mem boot_blk_addr read_dir_index =
    let inodes = word32 mem (boot_blk_addr + 4) in
    record {
      mem = mem;
      num_dentry = word32 mem boot_blk_addr;
      num_inodes = inodes;
      num_data_blocks = word32 mem (boot_blk_addr + 8);
      dentry_start = boot_blk_addr + 64;
      inode_start = boot_blk_addr + 4096;
      datablk_start = u32 (boot_blk_addr + (inodes + 1) * datablk_size);
      read_dir_index = read_dir_index;
    }

-- dentry_start[i], field by field
unfoldable pub dentry_at : FileSys → ℕ → Dentry
dentry_at fs i =
    let base = fs.dentry_start + 64 * i in
    record {
      fname = λ k. fs.mem (base + k);
      ftype = word32 fs.mem (base + 32);
      inode = word32 fs.mem (base + 36);
      reserved = λ k. fs.mem (base + 40 + k);
    }

-- inode_start[inode].length
unfoldable pub inode_length : FileSys → ℕ → ℕ
inode_length fs inode = word32 fs.mem (fs.inode_start + 4096 * inode)

-- inode_start[inode].data_block[j]
unfoldable pub data_block : FileSys → ℕ → ℕ → ℕ
data_block fs inode j = word32 fs.mem (fs.inode_start + 4096 * inode + 4 + 4 * j)

-- The byte at offset `off` of the data block `data_block[j]`.
unfoldable pub block_byte : FileSys → ℕ → ℕ → ℕ → ℕ
block_byte fs inode j off =
    fs.mem (u32 (fs.datablk_start + data_block fs inode j * datablk_size + off))

abbrev pub is_zero : ℤ → Bool
is_zero (pos zero) = true
is_zero _ = false

-- What both lookups copy into `*dentry`.
unfoldable pub fill_dentry : FileSys → ℕ → Dentry → Dentry
unfolding dentry_at
fill_dentry fs i dentry =
    let d = dentry_at fs i in
    record {
      fname = copy_bytes fname_size d.fname dentry.fname;
      ftype = d.ftype;
      inode = d.inode;
      reserved = copy_bytes reserved_size d.reserved dentry.reserved;
    }

-- The loop of `read_dentry_by_name`, from entry `i` on with `n` left. The result is the return value
-- beside `*dentry`.
unfoldable pub find_dentry : ℕ → ℕ → FileSys → Bytes → Dentry → ℤ × Dentry
unfolding fill_dentry dentry_at
find_dentry zero i fs fname dentry = (minus_one, dentry)
find_dentry (suc n) i fs fname dentry =
    let rest = find_dentry n (i + 1) fs fname dentry in
    if is_zero (strncmp fname (dentry_at fs i).fname fname_size)
    then (pos 0, fill_dentry fs i dentry)
    else rest

unfoldable pub read_dentry_by_name : FileSys → Bytes → Dentry → ℤ × Dentry
unfolding find_dentry
read_dentry_by_name fs fname dentry = find_dentry (rounds fs.num_dentry) 0 fs fname dentry

-- `index` is unsigned, so that `index < 0` never holds and the other test is unsigned.
unfoldable pub read_dentry_by_index : FileSys → ℕ → Dentry → ℤ × Dentry
unfolding fill_dentry
read_dentry_by_index fs index dentry =
    if leb fs.num_dentry index then (minus_one, dentry) else (pos 0, fill_dentry fs index dentry)

-- The loop of `read_data`, at round `i` with `n` left: `j` is `inode_datablk_offset` and `off`
-- `datablk_offset`. The result is the count returned beside the buffer.
unfoldable pub read_loop : ℕ → ℕ → ℕ → ℕ → FileSys → ℕ → Bytes → ℕ × Bytes
read_loop zero i j off fs inode buf = (i, buf)
read_loop (suc n) i j off fs inode buf =
    let wrap = off == datablk_size in
    let j' = if wrap then j + 1 else j in
    let off' = if wrap then 0 else off in
    let rest =
      read_loop n (i + 1) j' (off' + 1) fs inode (update buf i (block_byte fs inode j' off')) in
    if leb (inode_length fs inode) i then (i, buf) else rest

-- What `read_data` does once `buf` is no null pointer.
unfoldable pub read_data_into : FileSys → ℕ → ℕ → Bytes → ℕ → ℤ × Bytes
unfolding read_loop
read_data_into fs inode offset buf length =
    if inode == 0 || leb fs.num_inodes inode
    then (minus_one, buf)
    else if leb (inode_length fs inode) offset
    then (pos 0, buf)
    else let r = read_loop length 0 (offset / datablk_size) (offset % datablk_size) fs inode buf in
      (int32 r.0, r.1)

unfoldable pub read_data : FileSys → ℕ → ℕ → Option Bytes → ℕ → ℤ × Option Bytes
unfolding read_data_into
read_data fs inode offset none length = (minus_one, none)
read_data fs inode offset (some buf) length =
    let r = read_data_into fs inode offset buf length in (r.0, some r.1)

abbrev pub is_minus_one : ℤ → Bool
is_minus_one (pos _) = false
is_minus_one (ℤ.negsuc zero) = true
is_minus_one (ℤ.negsuc (suc _)) = false

-- The local `dentry_t dentry` is an argument: it is not initialised.
unfoldable pub read_f_by_name : FileSys → Dentry → Bytes → ℕ → Option Bytes → ℕ → ℤ × Option Bytes
unfolding read_dentry_by_name read_data
read_f_by_name fs stack fname offset buf length =
    let (r, d) = read_dentry_by_name fs fname stack in
    if is_minus_one r then (minus_one, buf) else read_data fs d.inode offset buf length

unfoldable pub read_f_by_index : FileSys → Dentry → ℕ → ℕ → Option Bytes → ℕ → ℤ × Option Bytes
unfolding read_dentry_by_index read_data
read_f_by_index fs stack index offset buf length =
    let (r, d) = read_dentry_by_index fs index stack in
    if is_minus_one r then (minus_one, buf) else read_data fs d.inode offset buf length

unfoldable pub load_f : FileSys → Dentry → Bytes → Option Bytes → ℤ × Option Bytes
unfolding read_dentry_by_name read_data
load_f fs stack fname buffer =
    let (r, d) = read_dentry_by_name fs fname stack in
    if is_zero r
    then read_data fs d.inode 0 buffer (inode_length fs d.inode)
    else (minus_one, buffer)

unfoldable pub read_f : FileSys → ℕ → Option Bytes → ℤ × Option Bytes
unfolding read_data
read_f fs inode buf = read_data fs inode 0 buf program_max_size

unfoldable pub write_f : ℤ
write_f = minus_one

unfoldable pub open_f : ℤ
open_f = pos 0

unfoldable pub close_f : ℤ
close_f = pos 0

unfoldable pub open_dir : FileSys → ℤ × FileSys
open_dir fs = (pos 0, record fs { read_dir_index = 0 })

unfoldable pub close_dir : FileSys → ℤ × FileSys
close_dir fs = (pos 0, record fs { read_dir_index = 0 })

-- `read_dir_index` and `num_dentry` are compared as signed numbers. The handler writes to `buf`
-- with no test of the pointer: the callers hand over none that is NULL.
unfoldable pub read_dir : FileSys → Dentry → Bytes → ℤ × Bytes × FileSys
unfolding read_dentry_by_index
read_dir fs stack buf =
    if slt fs.num_dentry fs.read_dir_index
    then (minus_one, buf, fs)
    else let (r, d) = read_dentry_by_index fs fs.read_dir_index stack in
      if is_minus_one r then (pos 0, buf, fs) else (
        pos fname_size,
        copy_bytes fname_size d.fname buf,
        record fs { read_dir_index = u32 (fs.read_dir_index + 1) },
      )

unfoldable pub write_dir : ℤ
write_dir = minus_one
