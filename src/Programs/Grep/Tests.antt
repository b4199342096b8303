-- ===== src/Programs/Grep/Tests.antt =====
-- An example of grep.
use os.Prelude.{ℕ, zero, suc, ◌<◌, ◌≡◌, refl, arith, List, [], ◌∷◌, some, pos}
use os.Strings.{strncmp, strncmp_from}
use os.FileSys.{FileSys, read_dentry_by_name, find_dentry, inode_length, block_byte, data_block}
use os.FileSys.Data.{file_byte}
use os.Screen.{puts_scroll}
use os.Process.{Processes, pcb_init, init_files, find_slot, free_slot}
use os.System.{System}
use os.Kernel.{nth}
use os.Kernel.Examples.{write_all, locals, kernel_with}
use os.Timer.Examples.{nobody}
use os.Programs.Calls.{Prints}
use os.Programs.Reading.{IsFile}
use os.Programs.Grep.{Job, do_one_file}
use os.Programs.Grep.Shows.{Printable}
use os.Programs.Grep.Lines.{AreLines, found_lines, text_of, HoldsChars}
use os.Programs.Grep.File.{HasLines, IsReleased, do_one_file_lem}

abbrev line_hey : List ℕ
line_hey = b'h' ∷ b'e' ∷ b'y' ∷ []

abbrev line_ho : List ℕ
line_ho = b'h' ∷ b'o' ∷ []

abbrev line_he : List ℕ
line_he = b'h' ∷ b'e' ∷ []

-- The file "a" with these three lines, the last of them without a line feed.
abbrev three_lines : FileSys
three_lines = record {
  mem = write_all (
      (64, b'a')
      ∷ (96, 2)
      ∷ (100, 1)
      ∷ (8192, 9)
      ∷ (12288, b'h')
      ∷ (12289, b'e')
      ∷ (12290, b'y')
      ∷ (12291, b'\n')
      ∷ (12292, b'h')
      ∷ (12293, b'o')
      ∷ (12294, b'\n')
      ∷ (12295, b'h')
      ∷ (12296, b'e')
      ∷ []);
  num_dentry = 1;
  num_inodes = 2;
  num_data_blocks = 1;
  dentry_start = 64;
  inode_start = 4096;
  datablk_start = 12288;
  read_dir_index = 0;
}

abbrev first_process : Processes
unfolding pcb_init
first_process = pcb_init 0 0 nobody

abbrev system : System
system = record (kernel_with first_process).system { file_sys = three_lines }

system-Prints : Prints system
unfolding pcb_init init_files
system-Prints = (omega arith, refl)

abbrev look_for_e : Job
look_for_e = record { pattern = nth (b'e' ∷ []); fname = nth (b'a' ∷ []); fuel = 100 }

short-Printable : (c : ℕ) → 0 < c → Printable 100 (c ∷ [])
short-Printable c some_char = record {
  enough = omega arith;
  short = omega arith;
  clean = (λ e. omega arith, tt);
}

lines-AreLines : AreLines 100 (line_hey ∷ line_ho ∷ []) line_he
lines-AreLines = (
  (λ e. omega arith, (λ e. omega arith, (λ e. omega arith, tt))),
  record {
    enough = omega arith;
    short = omega arith;
    clean = (λ e. omega arith, (λ e. omega arith, (λ e. omega arith, tt)));
  },
  (
    (λ e. omega arith, (λ e. omega arith, tt)),
    record {
      enough = omega arith;
      short = omega arith;
      clean = (λ e. omega arith, (λ e. omega arith, tt));
    },
    (
      (λ e. omega arith, (λ e. omega arith, tt)),
      record {
        enough = omega arith;
        short = omega arith;
        clean = (λ e. omega arith, (λ e. omega arith, tt));
      },
    ),
  ),
)

a-IsFile : IsFile 1 three_lines
unfolding inode_length
a-IsFile = record { not_first = λ e. omega arith; inside = omega arith; small = omega arith }

three_lines-bytes :
    HoldsChars (text_of (line_hey ∷ line_ho ∷ []) line_he) 0 (file_byte three_lines 1)
unfolding block_byte data_block
three_lines-bytes zero low = refl
three_lines-bytes (suc zero) low = refl
three_lines-bytes (suc (suc zero)) low = refl
three_lines-bytes (suc (suc (suc zero))) low = refl
three_lines-bytes (suc (suc (suc (suc zero)))) low = refl
three_lines-bytes (suc (suc (suc (suc (suc zero))))) low = refl
three_lines-bytes (suc (suc (suc (suc (suc (suc zero)))))) low = refl
three_lines-bytes (suc (suc (suc (suc (suc (suc (suc zero))))))) low = refl
three_lines-bytes (suc (suc (suc (suc (suc (suc (suc (suc zero)))))))) low = refl
three_lines-bytes (suc (suc (suc (suc (suc (suc (suc (suc (suc k))))))))) low = absurd (omega arith)

a-HasLines : HasLines (line_hey ∷ line_ho ∷ []) line_he 1 three_lines
unfolding inode_length
a-HasLines = record {
  size = refl;
  some_chars = omega arith;
  fits = omega arith;
  bytes = three_lines-bytes;
}

do_one_file_lem_example :
    (s' : System) × (do_one_file 2 look_for_e locals.dentry (λ _. 0) system ≡ some (pos 0, s'))
    × (s'.screen
        ≡ puts_scroll
            (found_lines (b'a' ∷ []) (b'e' ∷ []) (line_hey ∷ line_ho ∷ []) line_he)
            system.screen)
    × IsReleased system s'
unfolding read_dentry_by_name find_dentry strncmp strncmp_from find_slot free_slot pcb_init
    init_files
do_one_file_lem_example =
    do_one_file_lem 2 look_for_e locals.dentry (λ _. 0) system (b'a' ∷ []) b'e' []
      (line_hey ∷ line_ho ∷ []) line_he (omega arith) (omega arith)
      (short-Printable b'a' (omega arith)) (λ k low. refl) (short-Printable b'e' (omega arith))
      (λ k low. refl) lines-AreLines refl refl a-IsFile a-HasLines (omega arith) system-Prints
