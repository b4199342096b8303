-- ===== src/FileSys/Directory.antt =====
-- Reading a directory entry by entry, from `open_dir` on.
use os.Prelude.{ℕ, zero, suc, ◌+◌, ◌<◌, ◌≤◌, ◌^◌, ◌≡◌, arith, if◌then◌else◌, Bytes, pos, ltb}
use os.Strings.Copying.{copy_bytes_lem}
use os.FileSys.{
  FileSys, Dentry, dentry_at, fname_size, open_dir, fill_dentry, read_dir, read_dentry_by_index,
}
use os.FileSys.Names.{name_at, fill_dentry_fields}
use os.Prelude.{fun_ext, min, ◌&&◌}
use os.Strings.{copy_bytes}

-- The module's state after `n` calls of `read_dir`, each with a buffer and a stack of its own.
pub after_reads : (ℕ → Dentry) → (ℕ → Bytes) → ℕ → FileSys → FileSys
after_reads stack buf zero fs = fs
after_reads stack buf (suc n) fs = (read_dir (after_reads stack buf n fs) (stack n) (buf n)).2

-- One call: the next name, or 0 once all names have been read.
pub read_dir_step :
    (fs : FileSys) (stack : Dentry) (buf : Bytes)
    → fs.num_dentry < 2 ^ 31
    → fs.read_dir_index ≤ fs.num_dentry
    → read_dir fs stack buf ≡ (
        if ltb fs.read_dir_index fs.num_dentry
        then (
          pos fname_size,
          λ k. if ltb k fname_size then name_at fs fs.read_dir_index k else buf k,
          record fs { read_dir_index = fs.read_dir_index + 1 },
        )
        else (pos 0, buf, fs))
unfolding read_dir read_dentry_by_index
read_dir_step fs stack buf small inside = ground (arith, bytes)
  where
    bytes : copy_bytes fname_size (fill_dentry fs fs.read_dir_index stack).fname buf ≡ λ k.
        if ltb k fname_size then name_at fs fs.read_dir_index k else buf k
    bytes = fun_ext λ k. ground (
      arith,
      copy_bytes_lem fname_size (fill_dentry fs fs.read_dir_index stack).fname buf k,
      (fill_dentry_fields fs fs.read_dir_index stack k).0,
    )

after_reads_lem :
    (stack : ℕ → Dentry) (buf : ℕ → Bytes) (n : ℕ) (fs : FileSys)
    → fs.num_dentry < 2 ^ 31
    → after_reads stack buf n (record fs { read_dir_index = 0 })
      ≡ record fs { read_dir_index = min n fs.num_dentry }
unfolding after_reads
after_reads_lem stack buf zero fs small = ground arith
after_reads_lem stack buf (suc n) fs small =
    let k = min n fs.num_dentry in
    rw (after_reads_lem stack buf n fs small, after_reads)
      (ground (
        arith,
        read_dir_step (record fs { read_dir_index = k }) (stack n) (buf n) small (omega arith),
      ))

-- After `open_dir` the calls of `read_dir` list the directory: call number `n` (from 0) returns 32 with
-- the name of entry `n` in the buffer's first 32 bytes, and from the number of entries on each call
-- returns 0 and leaves its buffer alone, if that number is no negative one.
read_dir_lists :
    (stack : ℕ → Dentry) (buf : ℕ → Bytes) (n : ℕ) (fs : FileSys)
    → fs.num_dentry < 2 ^ 31
    → let call = read_dir (after_reads stack buf n (open_dir fs).1) (stack n) (buf n) in
      (call.0 ≡ (if ltb n fs.num_dentry then pos fname_size else pos 0))
      × (call.1 ≡ λ k. if ltb n fs.num_dentry && ltb k fname_size then name_at fs n k else buf n k)
unfolding open_dir dentry_at
read_dir_lists stack buf n fs small = rw (after_reads_lem stack buf n fs small) (
    ground (
      arith,
      read_dir_step (record fs { read_dir_index = min n fs.num_dentry }) (stack n) (buf n) small
          (omega arith),
    ))
