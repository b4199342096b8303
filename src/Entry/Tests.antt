-- ===== src/Entry/Tests.antt =====
-- Examples of the start.
use os.Prelude.{inl, ℕ, ◌≡◌, refl, arith, [], ◌∷◌, some, Bytes, pos}
use os.Strings.{strlen, strlen_from, strncmp, strncmp_from, memset}
use os.FileSys.{
  read_filesys_bootblock, read_dentry_by_name, find_dentry, read_f_by_name, read_data, inode_length,
  block_byte, data_block,
}
use os.Command.{Command, verify_file, parse, check_program, copy_name, copy_args}
use os.Kernel.{shell}
use os.Kernel.Examples.{write_all, locals, frame, layout, kernel_with, no_command}
use os.Timer.Examples.{nobody, nobody-IsIdle}
use os.Idt.{IdtDesc}
use os.Entry.{Machine, the_ldt_desc, the_tss_desc, entry, multiboot_bootloader_magic}
use os.Entry.Report.{Build, modules, module_lines}
use os.Entry.Info.{IsBootInfo}
use os.Entry.Boot.{Booted, entry-boot}
use os.Entry.Refusal.{Refused, entry-refuses}

-- The memory after the boot loader: a file system at 0 with the program "shell", the boot information at
-- 32768 with a command line, one module and a map of one area.
abbrev memory : Bytes
memory = write_all (
    (0, 1)
    ∷ (4, 2)
    ∷ (8, 1)
    ∷ (64, b's')
    ∷ (65, b'h')
    ∷ (66, b'e')
    ∷ (67, b'l')
    ∷ (68, b'l')
    ∷ (96, 2)
    ∷ (100, 1)
    ∷ (8192, 28)
    ∷ (12288, 0x7F)
    ∷ (12289, b'E')
    ∷ (12290, b'L')
    ∷ (12291, b'F')
    ∷ (12313, 0x80)
    ∷ (12314, 0x04)
    ∷ (12315, 0x08)
    ∷ (32768, 0x4C)
    ∷ (32785, 0x90)
    ∷ (32788, 1)
    ∷ (32793, 0xA0)
    ∷ (32812, 24)
    ∷ (32817, 0xB0)
    ∷ (36864, b'h')
    ∷ (36865, b'i')
    ∷ (45056, 20)
    ∷ [])

abbrev build : Build
build = record {
  layout = layout;
  code = λ c. 0x400000;
  ldt_addr = 0x5000;
  ldt_size = 31;
  tss_addr = 0x6000;
  tss_limit = 104;
  literal_addr = 65536;
  conv_buf = λ i. 7;
  fuel = 200;
  frame = frame;
  locals = locals;
}

abbrev no_gate : IdtDesc
no_gate = record {
  offset_15_00 = 0;
  seg_selector = 0;
  reserved4 = 0;
  reserved3 = 0;
  reserved2 = 0;
  reserved1 = 0;
  size = 0;
  reserved0 = 0;
  dpl = 0;
  present = 0;
  offset_31_16 = 0;
}

abbrev machine : Machine
machine = record {
  kernel = kernel_with nobody;
  idt = λ v. no_gate;
  ldt_desc = the_ldt_desc;
  tss_desc = the_tss_desc;
  ldtr = 0;
  tr = 0;
  tss_ldt = 0;
  boot_blk_addr = 0x1000;
}

abbrev boot_block : ℕ
boot_block = (modules memory 32768 0x1000).1

verified :
    (c : Command) × (verify_file 200
        (read_filesys_bootblock memory boot_block 0)
        locals
        (some shell)
        no_command
      ≡ some (pos 0, c))
unfolding verify_file parse check_program strlen strlen_from copy_name copy_args memset
    read_dentry_by_name find_dentry read_f_by_name read_data strncmp strncmp_from inode_length
    block_byte data_block read_filesys_bootblock module_lines
verified = (_, refl)

info-IsBootInfo : IsBootInfo build 2 memory 32768
info-IsBootInfo = record {
  bytes = λ i. ground arith;
  cmdline = λ e. (omega arith, omega arith, record { inside = λ k low. ground arith; ends = refl });
  map = λ e. (1, omega arith, (omega arith, omega arith, omega arith));
}

-- The file system is found at 0.
boot_block_0 : boot_block ≡ 0
unfolding module_lines
boot_block_0 = refl

entry-boot_example :
    Booted build memory verified.0 machine boot_block
      (entry build 2 multiboot_bootloader_magic memory 32768 machine)
entry-boot_example =
    entry-boot build 2 multiboot_bootloader_magic memory 32768 machine verified.0 refl
      info-IsBootInfo refl (omega arith) nobody-IsIdle verified.1

-- The magic number 0 is refused.
entry-refuses_example : Refused build 2 0 memory 32768 machine
entry-refuses_example =
    entry-refuses build 2 0 memory 32768 machine (omega arith) info-IsBootInfo (omega arith)
      (inl (λ e. omega arith))
