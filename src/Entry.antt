-- ===== src/Entry.antt =====
-- student-distrib/kernel.c: the start of the kernel.
pub mod Lines
pub mod Report
pub mod Printing
pub mod Ready
pub mod Info
pub mod Boot
pub mod Refusal
mod Tests
use os.Prelude.{
  ℕ, zero, suc, ◌+◌, ◌-◌, ◌*◌, ◌/◌, ◌%◌, ◌^◌, Bool, true, false, ◌&&◌, List, [], ◌∷◌, ◌++◌, Option,
  none, some, ltb, ◌==◌, if◌then◌else◌, Bytes, word32, u32, u16, pos, not,
}
use os.Strings.Chars.{length}
use os.FileSys.{read_filesys_bootblock}
use os.Paging.{Layout, paging_init}
use os.Screen.{Screen, clear}
use os.Printf.{printf, literal}
use os.Printf.Pieces.{Piece, spelling, words}
use os.Pic.{Pic, i8259_init}
use os.Rtc.{rtc_init}
use os.Keyboard.{init_keyboard}
use os.Command.{Locals}
use os.Kernel.{
  Kernel, Frame, Outcome, returned, kernel_ds, set_screen, shell, execute_with_terminal_num, nth,
}
use os.Idt.{Code, Table, idt_init}
use os.Timer.{pit_init}
use os.Entry.Lines.{
  bad_magic, flags_line, mem_line, boot_device_line, cmdline_line, loaded_line, ends_line,
  few_bytes_line, byte_text, new_line, both_set, elf_line, mmap_line, area_line, enabling,
  page_init_ok,
}
use os.Entry.Report.{
  Build, area_lines, args_of, check_flag, early_lines, first_bytes, format_of, line_if, map_lines,
  mbi_flags, module_lines, modules, print, print_all, promoted, section_lines,
}

abbrev pub multiboot_bootloader_magic : ℕ
multiboot_bootloader_magic = 0x2BADB002

abbrev pub kernel_ldt : ℕ
kernel_ldt = 0x38

abbrev pub tss_size : ℕ
tss_size = 104

-- `seg_desc_t`, field by field.
pub record SegDesc : Type 0 where
  pub seg_lim_15_00 : ℕ
  pub base_15_00 : ℕ
  pub base_23_16 : ℕ
  pub kind : ℕ
  pub sys : ℕ
  pub dpl : ℕ
  pub present : ℕ
  pub seg_lim_19_16 : ℕ
  pub avail : ℕ
  pub reserved : ℕ
  pub opsize : ℕ
  pub granularity : ℕ
  pub base_31_24 : ℕ

-- The kernel with the tables of the processor. `ldtr` and `tr` are the selectors that are loaded, `tss_ldt` the one in the task state, and
-- `boot_blk_addr` is the variable of kernel.c.
pub record Machine : Type 0 where
  pub kernel : Kernel
  pub idt : Table
  pub ldt_desc : SegDesc
  pub tss_desc : SegDesc
  pub ldtr : ℕ
  pub tr : ℕ
  pub tss_ldt : ℕ
  pub boot_blk_addr : ℕ

-- SET_LDT_PARAMS and SET_TSS_PARAMS
abbrev pub set_params : ℕ → ℕ → SegDesc → SegDesc
set_params addr lim str = record str {
  base_31_24 = addr / 2 ^ 24 % 2 ^ 8;
  base_23_16 = addr / 2 ^ 16 % 2 ^ 8;
  base_15_00 = addr % 2 ^ 16;
  seg_lim_19_16 = lim / 2 ^ 16 % 2 ^ 4;
  seg_lim_15_00 = lim % 2 ^ 16;
}

-- The descriptors before their parameters are set.
abbrev pub the_ldt_desc : SegDesc
the_ldt_desc = record {
  seg_lim_15_00 = 0;
  base_15_00 = 0;
  base_23_16 = 0;
  kind = 2;
  sys = 0;
  dpl = 0;
  present = 1;
  seg_lim_19_16 = 0;
  avail = 0;
  reserved = 0;
  opsize = 1;
  granularity = 0;
  base_31_24 = 0;
}

abbrev pub the_tss_desc : SegDesc
the_tss_desc = record the_ldt_desc { kind = 9; opsize = 0; seg_lim_15_00 = tss_size }

-- The tables of the processor, the devices, the memory and the file system.
unfoldable pub set_up : Build → Bytes → Machine → Machine
unfolding i8259_init idt_init paging_init read_filesys_bootblock init_keyboard pit_init rtc_init
set_up b mem m =
    let k = m.kernel in
    let sys = k.system in
    let (keyboard, pic) = init_keyboard sys.keyboard (i8259_init k.pic) in
    let (rtc, pic') = rtc_init sys.rtc (pit_init pic) in
    record m {
      ldt_desc = set_params b.ldt_addr b.ldt_size the_ldt_desc;
      ldtr = kernel_ldt;
      tss_desc = set_params b.tss_addr b.tss_limit the_tss_desc;
      tss_ldt = kernel_ldt;
      tr = 0x30;
      idt = idt_init b.code m.idt;
      kernel = record k {
        tss_ss0 = kernel_ds;
        tss_esp0 = 0x800000;
        pic = pic';
        system = record sys {
          screen = record sys.screen { paging = paging_init b.layout sys.screen.paging };
          file_sys = read_filesys_bootblock mem m.boot_blk_addr sys.file_sys.read_dir_index;
          keyboard = keyboard;
          rtc = rtc;
        };
      };
    }

abbrev pub with_screen : Screen → Machine → Machine
with_screen s m = record m { kernel = set_screen s m.kernel }

-- From `sti` on. All calls in `launch_tests` are commented out.
unfoldable pub first_program : Build → Machine → Option (Outcome × Machine)
unfolding execute_with_terminal_num clear
first_program b m =
    let k = record m.kernel { interrupts = true } in
    elim (execute_with_terminal_num b.fuel b.frame b.locals (some shell) 0
      (set_screen (clear k.system.screen) k)) [
        | none ↦ none
        | some (outcome, k') ↦ some (outcome, record m { kernel = k' })
      ]

-- After the lines on the boot information. `paging_init` prints a line, and no call before `enabling` uses
-- the screen but that one.
unfoldable pub start : Build → Bytes → Machine → Option (Outcome × Machine)
unfolding set_up print_all first_program
start b mem m =
    let ready = set_up b mem m in
    elim (print_all b mem (page_init_ok ∷ enabling ∷ []) ready.kernel.system.screen) [
      | none ↦ none
      | some s ↦ first_program b (with_screen s ready)
    ]

-- Printing lines and a return.
abbrev pub give_up : Option Screen → Machine → Option (Outcome × Machine)
give_up none m = none
give_up (some s) m = some (returned (pos 0), with_screen s m)

-- `mem` is the memory with the boot information at `addr`; `n` is the length of the command line in it, by
-- which the results describe what is printed.
unfoldable pub entry : Build → ℕ → ℕ → Bytes → ℕ → Machine → Option (Outcome × Machine)
unfolding clear print_all map_lines start
entry b n magic mem addr m =
    let s = clear m.kernel.system.screen in
    let flags = mbi_flags mem addr in
    let early = early_lines n mem addr m.boot_blk_addr in
    let m' = record m { boot_blk_addr = (modules mem addr m.boot_blk_addr).1 } in
    if not (magic == multiboot_bootloader_magic)
    then give_up (print_all b mem (bad_magic magic ∷ []) s) m
    else if check_flag flags 4 && check_flag flags 5
    then give_up (print_all b mem (early ++ both_set ∷ []) s) m'
    else elim (map_lines b.fuel mem addr) [
      | none ↦ none
      | some maps ↦ elim (print_all b mem (early ++ (section_lines mem addr ++ maps)) s) [
        | none ↦ none
        | some s' ↦ start b mem (with_screen s' m')
      ]
    ]
