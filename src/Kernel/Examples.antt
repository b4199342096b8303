-- ===== src/Kernel/Examples.antt =====
-- A kernel with a shell on its disk, for the examples.
use os.Prelude.{
  ℕ, ◌≡◌, refl, arith, List, [], ◌∷◌, true, some, Bytes, ◌==◌, ltb, if◌then◌else◌, pos, minus_one,
}
use os.Strings.{strlen, strlen_from, strncmp, strncmp_from, memset}
use os.FileSys.{
  FileSys, read_dentry_by_name, find_dentry, read_f_by_name, read_data, inode_length, block_byte,
  data_block,
}
use os.Paging.{Layout, Paging}
use os.Process.{Handler, FileDesc, Pcb, Processes}
use os.Process.Files.{InStep}
use os.Command.{Command, Locals, verify_file, parse, check_program, copy_name, copy_args}
use os.Kernel.{Kernel, Frame, shell}
use os.Kernel.Tree.{IsTree}

abbrev pub write_all : List (ℕ × ℕ) → Bytes
write_all [] i = 0
write_all ((a, v) ∷ rest) i = if i == a then v else write_all rest i

-- The directory entry "shell" at 64 with inode 1, which stands at 8192 and has 28 bytes: they begin with
-- the magic number, and end with the entry point 0x08048000.
abbrev pub image : Bytes
image = write_all (
    (64, 115)
    ∷ (65, 104)
    ∷ (66, 101)
    ∷ (67, 108)
    ∷ (68, 108)
    ∷ (96, 2)
    ∷ (100, 1)
    ∷ (8192, 28)
    ∷ (12288, 0x7F)
    ∷ (12289, 0x45)
    ∷ (12290, 0x4C)
    ∷ (12291, 0x46)
    ∷ (12313, 0x80)
    ∷ (12314, 0x04)
    ∷ (12315, 0x08)
    ∷ [])

abbrev pub disk : FileSys
disk = record {
  mem = image;
  num_dentry = 1;
  num_inodes = 2;
  num_data_blocks = 1;
  dentry_start = 64;
  inode_start = 4096;
  datablk_start = 12288;
  read_dir_index = 0;
}

abbrev pub locals : Locals
locals = record {
  dentry = record { fname = λ _. 0; ftype = 0; inode = 0; reserved = λ _. 0 };
  file_buf = λ _. 0;
}

abbrev pub frame : Frame
frame = record { esp = 0x7FFF00; ebp = 0x7FFF80 }

abbrev pub layout : Layout
layout = record {
  page_directory_addr = 0x1000;
  page_table_addr = 0x2000;
  vid_mem_table_addr = 0x3000;
}

abbrev pub desc : ℕ → FileDesc
desc flag = record {
  open_handler = Handler.unknown_handler;
  close_handler = Handler.unknown_handler;
  read_handler = Handler.unknown_handler;
  write_handler = Handler.unknown_handler;
  inode = 0;
  file_pos = 0;
  flag = flag;
}

-- Process `q`, at terminal `t` with the parent `parent`, has its first two descriptors open.
abbrev pub block : ℕ → ℕ → ℕ → Pcb
block q parent t = record {
  pid = q;
  p_pid = parent;
  parent_esp = 0;
  parent_ebp = 0;
  current_esp = 0;
  current_ebp = 0;
  terminal = t;
  file_array = λ i. desc (if ltb i 2 then 1 else 0);
  bitmap = λ i. if ltb i 2 then 1 else 0;
  behind = 0;
}

-- Process `c` alone, the first shell of terminal `t`.
abbrev pub alone : ℕ → ℕ → Processes
alone c t = record {
  curr = c;
  t_curr = λ u. if u == t then pos c else minus_one;
  proc_state = λ q. if q == c then 1 else 0;
  pcb = λ q. block q c t;
}

-- The shell 0 runs the program 1.
abbrev pub nested : Processes
nested = record {
  curr = 1;
  t_curr = λ u. if u == 0 then pos 1 else minus_one;
  proc_state = λ q. if ltb q 2 then 1 else 0;
  pcb = λ q. block q 0 0;
}

pub block-InStep : (q parent t : ℕ) → InStep (block q parent t)
unfolding InStep
block-InStep q parent t i h h' = ground arith

pub alone-IsTree : (c t : ℕ) → IsTree (alone c t)
alone-IsTree c t = record {
  current = ground arith;
  at_top = ground arith;
  own = λ q h. refl;
  shown = λ u q e. ground arith;
  parents = λ q h. ground arith;
  leaf = λ u q r e h ne. ground arith;
  single = λ q q' h h' e ne ne'. ground arith;
  in_step = λ q h. block-InStep q c t;
  clean = λ q i h low high. ground arith;
}

pub nested-IsTree : IsTree nested
nested-IsTree = record {
  current = refl;
  at_top = refl;
  own = λ q h. refl;
  shown = λ u q e. ground arith;
  parents = λ q h. ground arith;
  leaf = λ u q r e h ne. ground arith;
  single = λ q q' h h' e ne ne'. ground arith;
  in_step = λ q h. block-InStep q 0 0;
  clean = λ q i h low high. ground arith;
}

abbrev pub pages : Paging
pages = record {
  page_directory = λ _. 0;
  page_table = λ _. 0;
  vid_mem_table = λ _. 0;
  cr3 = 0;
  pse = 0;
  pg = 0;
  flushes = 0;
}

-- The command before the first one.
abbrev pub no_command : Command
no_command = record { in_file = λ _. 0; v_addr = λ _. 0; arg_size = 0; arg_buf = λ _. 0 }

abbrev pub kernel_with : Processes → Kernel
kernel_with p = record {
  system = record {
    processes = p;
    file_sys = disk;
    screen = record {
      vmem = λ _. 32;
      screen_x = 0;
      screen_y = 0;
      screen_x_array = λ _. 0;
      screen_y_array = λ _. 0;
      display_terminal = 0;
      active_terminal = 0;
      crtc = λ _. 0;
      paging = pages;
    };
    keyboard = record {
      pressed_key = λ _. 0;
      keyboard_buffer = λ _. 0;
      print_buffer = λ _. 0;
      cap_status = 0;
      cursor_ind = λ _. 0;
      terminal_read_ready = λ _. 0;
      terminal_2_running = 0;
      terminal_3_running = 0;
      scan_code = λ _. 0;
      shift_convert = λ _. 0;
    };
    rtc = record { rtc_ctr = 0; rtc_flag = 0; index = 0; reg = λ _. 0 };
  };
  command = no_command;
  tss_ss0 = 0;
  tss_esp0 = 0;
  interrupts = true;
  pic = record { master_mask = 0; slave_mask = 0; written = [] };
  program = λ q i. 0;
}

-- The shell of terminal 0 is running.
abbrev pub booted : Kernel
booted = kernel_with (alone 0 0)

pub shell_verified :
    (c : Command) × (verify_file 200 disk locals (some shell) no_command ≡ some (pos 0, c))
unfolding verify_file parse check_program strlen strlen_from copy_name copy_args memset
    read_dentry_by_name find_dentry read_f_by_name read_data strncmp strncmp_from inode_length
    block_byte data_block
shell_verified = (_, refl)
