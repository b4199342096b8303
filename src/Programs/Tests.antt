-- ===== src/Programs/Tests.antt =====
-- Examples of the programs.
use os.Prelude.{
  ℕ, zero, suc, ◌+◌, ◌≤◌, ◌⊎◌, inl, inr, count_up, ◌≡◌, ◌*◌, refl, Bytes, update, pos, arith, [],
  ◌∷◌, ◌++◌, none, some,
}
use os.Strings.{strncmp, strncmp_from, strlen, strlen_from, copy_bytes, memset}
use os.FileSys.{FileSys, read_dentry_by_name, find_dentry, inode_length}
use os.Screen.{puts_scroll}
use os.Process.{Processes, pcb_init, init_files, find_slot, free_slot}
use os.System.{System}
use os.Kernel.Examples.{write_all, locals, layout, kernel_with}
use os.Timer.Examples.{nobody}
use os.Programs.{ls, cat}
use os.Programs.Syserr.{Run, Env, run_all}
use os.Programs.Syserr.Texts.{overall_pass}
use os.Programs.Syserr.Lots.{IsReady}
use os.Programs.Syserr.Passes.{Passes, transcript, run_all_lem}
use os.Programs.Cat.{cat_lem}
use os.Programs.Reading.{IsFile}
use os.Command.{Command, getargs}
use os.FileSys.Data.{file_byte}
use os.Keyboard.{read_out}
use os.Programs.Calls.{Prints}
use os.Programs.Ls.{listing, ls_lem}
use os.Keyboard.{enter, line_size}
use os.Programs.Shell.{Shell, at_read, at_execute, read_step, prompt_step, shell_prompt}
use os.Programs.Support.Texts.{IsString}
use os.Programs.Shell.Answers.{Answers}
use os.Programs.Shell.Lines.{Reads, line_taken, prompt_step-read_step}
use os.Programs.Shell.Enter.{IsTyped, after_enter, read_step-on_scan_code}
use os.Kernel.{nth}

-- The directory itself, and the file "a" with three bytes.
abbrev two_names : FileSys
two_names = record {
  mem = write_all (
      (64, b'.')
      ∷ (96, 1)
      ∷ (128, b'a')
      ∷ (160, 2)
      ∷ (164, 1)
      ∷ (8192, 3)
      ∷ (12288, b'h')
      ∷ (12289, b'e')
      ∷ (12290, b'y')
      ∷ []);
  num_dentry = 2;
  num_inodes = 2;
  num_data_blocks = 1;
  dentry_start = 64;
  inode_start = 4096;
  datablk_start = 12288;
  read_dir_index = 0;
}

abbrev first_process : Processes
unfolding pcb_init
first_process = pcb_init 0 0 nobody

abbrev system : System
system = record (kernel_with first_process).system { file_sys = two_names }

system-Prints : Prints system
unfolding pcb_init init_files
system-Prints = (omega arith, refl)

ls_lem_example :
    (s' : System) × (ls 3 100 locals.dentry (λ i. 0) system ≡ some (0, s'))
    × (s'.screen ≡ puts_scroll (listing 2 0 two_names) system.screen)
unfolding read_dentry_by_name find_dentry strncmp strncmp_from find_slot free_slot pcb_init
    init_files
ls_lem_example =
    ls_lem 3 100 locals.dentry (λ i. 0) system refl refl (omega arith) system-Prints (omega arith)
      (omega arith)

-- The command "cat a".
abbrev show_a : Command
show_a = record {
  in_file = λ _. 0;
  v_addr = λ _. 0;
  arg_size = 1;
  arg_buf = update (λ i. 0) 0 b'a';
}

abbrev name_a : Bytes
unfolding copy_bytes memset
name_a = update (copy_bytes 1 (update (λ i. 0) 0 b'a') (memset (λ i. 0) 0 0)) 1 0

name_a-getargs : getargs 100 show_a (some (λ i. 0)) ≡ some (pos 0, some name_a)
unfolding getargs strlen strlen_from copy_bytes memset
name_a-getargs = refl

a-IsFile : IsFile 1 two_names
unfolding inode_length
a-IsFile = record { not_first = λ e. omega arith; inside = omega arith; small = omega arith }

cat_lem_example :
    (s' : System) × (cat 2 100 locals.dentry show_a (λ i. 0) system ≡ some (0, s'))
    × (s'.screen ≡ puts_scroll (read_out (1 * 3) 0 (file_byte two_names 1)) system.screen)
unfolding read_dentry_by_name find_dentry strncmp strncmp_from find_slot free_slot pcb_init
    init_files copy_bytes memset inode_length count_up
cat_lem_example =
    cat_lem 2 100 1 locals.dentry show_a (λ i. 0) name_a system name_a-getargs refl refl a-IsFile
      (omega arith) system-Prints (omega arith) (omega arith) (omega arith)

abbrev run : Run
run = record {
  kernel = record (kernel_with first_process) { system = system };
  buf = λ i. 0;
  fail = 0;
}

abbrev env : Env
env = record { fuel = 100; stack = locals.dentry; layout = layout; by_number = λ num r. none }

system-IsReady : IsReady env system
unfolding pcb_init init_files read_dentry_by_name find_dentry strncmp strncmp_from
system-IsReady = record {
  holding = record {
    prints = system-Prints;
    stdin = refl;
    stdout = refl;
    slots = λ i low high. ground arith;
  };
  names = record {
    there = refl;
    directory = refl;
    no_helloo = refl;
    no_shel = refl;
    no_empty = refl;
  };
}

run_all_lem_example : Passes env (run_all env) (transcript env ++ overall_pass) run
run_all_lem_example = run_all_lem env run (omega arith) system-IsReady

-- "ls" stands in the line of terminal 0, and the key Enter has its character.
abbrev with_line : System
with_line = record system {
  keyboard = record system.keyboard {
    keyboard_buffer = update (update (λ _. 0) 0 b'l') 1 b's';
    cursor_ind = update (λ _. 0) 0 2;
    terminal_read_ready = λ _. 0;
    scan_code = update (λ _. 0) enter b'\n';
  };
}

ls-IsTyped : IsTyped (b'l' ∷ b's' ∷ []) 0 with_line.keyboard
ls-IsTyped = record {
  cursor = refl;
  chars = λ j low. elim (ltb_cases j) [
    | inl first ↦ rw first refl
    | inr later ↦ elim later [ inl second ↦ rw second refl | inr past ↦ tail j past ]
  ];
  short = omega arith;
  clean = (λ e. omega arith, (λ e. omega arith, tt));
  no_feed = λ e. omega arith;
}
  where
    ltb_cases : (j : ℕ) → (j ≡ 0) ⊎ ((j ≡ 1) ⊎ (2 ≤ j))
    ltb_cases j = ground arith

    tail :
        (j : ℕ)
        → 2 ≤ j
        → with_line.keyboard.keyboard_buffer (line_size * 0 + j) ≡ nth (b'l' ∷ b's' ∷ []) j
    tail zero h = absurd (omega arith)
    tail (suc zero) h = absurd (omega arith)
    tail (suc (suc j)) h = ground arith

abbrev shell : Shell
shell = record { place = at_read; buf = λ _. 0 }

system-Reads : Reads system
unfolding pcb_init init_files
system-Reads = (omega arith, refl)

read_step-on_scan_code_example :
    (sh' : Shell) × (read_step 1024 locals.dentry shell (after_enter with_line)
      ≡ some (sh', line_taken 3 (after_enter with_line)))
    × IsString (b'l' ∷ b's' ∷ []) sh'.buf
    × Answers (b'l' ∷ b's' ∷ []) sh'.place
read_step-on_scan_code_example =
    read_step-on_scan_code 1024 locals.dentry (b'l' ∷ b's' ∷ []) shell with_line (omega arith)
      system-Reads refl (record { feed = refl; no_alt = λ e. omega arith }) ls-IsTyped

-- A line is ready while the shell is at its prompt.
abbrev ahead : System
ahead = record system {
  keyboard = record system.keyboard { terminal_read_ready = update (λ _. 0) 0 1 };
}

prompt_step-read_step_example :
    (sh1 : Shell) × (s1 : System) × (sh2 : Shell) × (s2 : System) × (prompt_step 1024 shell ahead
      ≡ some (sh1, s1))
    × (read_step 1024 locals.dentry sh1 s1 ≡ some (sh2, s2))
    × (sh2.place ≡ at_execute)
    × IsString shell_prompt sh2.buf
prompt_step-read_step_example =
    prompt_step-read_step 1024 locals.dentry shell ahead (omega arith) system-Prints system-Reads
      refl
