-- ===== src/Process/Tests.antt =====
-- Examples of the process table.
use os.Prelude.{
  ℕ, ◌<◌, ◌≤◌, ◌≡◌, ◌≢◌, ◌⊎◌, refl, arith, true, false, ◌==◌, if◌then◌else◌, update, pos, minus_one,
  some,
}
use os.FileSys.{FileSys, Dentry, is_minus_one, read_dentry_by_name}
use os.Process.{Handler, FileDesc, Processes, open_file, close, fdesc_size}
use os.Process.Files.{InStep, Opened, open_file_lem, close-past_end}

-- An image whose only directory entry has the name "b" and inode 1.
abbrev disk : FileSys
disk = record {
  mem = update (update (update (λ _. 0) 64 98) 96 2) 100 1;
  num_dentry = 1;
  num_inodes = 2;
  num_data_blocks = 0;
  dentry_start = 64;
  inode_start = 4096;
  datablk_start = 12288;
  read_dir_index = 0;
}

abbrev no_dentry : Dentry
no_dentry = record { fname = λ _. 0; ftype = 0; inode = 0; reserved = λ _. 0 }

abbrev desc : ℕ → FileDesc
desc flag = record {
  open_handler = Handler.unknown_handler;
  close_handler = Handler.unknown_handler;
  read_handler = Handler.unknown_handler;
  write_handler = Handler.unknown_handler;
  inode = 0;
  file_pos = 0;
  flag = flag;
}

abbrev is_open : ℕ → ℕ
is_open = update (update (update (update (λ _. 0) 0 1) 1 1) 2 1) 6 1

-- Process 1 has the descriptors 0, 1, 2 and 6 open; its parent is process 0, whose blocks are free.
abbrev running : Processes
running = record {
  curr = 1;
  t_curr = λ t. if t == 0 then pos 1 else minus_one;
  proc_state = update (update (λ _. 0) 0 1) 1 1;
  pcb = λ q. record {
    pid = q;
    p_pid = 0;
    parent_esp = 0;
    parent_ebp = 0;
    current_esp = 0;
    current_ebp = 0;
    terminal = 0;
    file_array = λ i. desc (if q == 1 then is_open i else 0);
    bitmap = λ i. if q == 1 then is_open i else 0;
    behind = 0;
  };
}

running-InStep : InStep (running.pcb running.curr)
unfolding InStep
running-InStep i h h' = ground arith

open_file_lem_example :
    let d = read_dentry_by_name disk (update (λ _. 0) 0 98) no_dentry in
    let r = open_file disk no_dentry (some (update (λ _. 0) 0 98)) running in
    ((r ≡ (minus_one, running, disk))
      × ((is_minus_one d.0 ≡ true)
          ⊎ ((i : ℕ) → 2 ≤ i → i < fdesc_size → (running.pcb 1).bitmap i ≢ 0)))
    ⊎ ((fd : ℕ) × (r.0 ≡ pos fd)
        × (is_minus_one d.0 ≡ false)
        × Opened (running.pcb 1) d.1 fd (r.1.pcb 1)
        × ((q : ℕ) → q ≢ 1 → r.1.pcb q ≡ running.pcb q))
open_file_lem_example = open_file_lem disk no_dentry (update (λ _. 0) 0 98) running

close-past_end_example :
    let after = (close (pos 8) running).1.pcb 1 in
    ((close (pos 8) running).0 ≡ pos 0) × ((after.file_array 6).flag ≡ 1) × (after.bitmap 6 ≡ 0)
close-past_end_example = close-past_end running running-InStep refl
