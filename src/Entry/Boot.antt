-- ===== src/Entry/Boot.antt =====
-- The kernel that `entry` starts.
use os.Prelude.{
  ℕ, ◌-◌, ◌^◌, ◌<◌, ◌≤◌, ◌≡◌, refl, arith, Bool, true, false, ◌&&◌, List, [], ◌∷◌, ◌++◌, Option,
  some, ltb, ◌==◌, if◌then◌else◌, Bytes, word32, ap, ◌∙◌, sym, pos, not, ◌||◌, ◌/◌, ◌%◌,
}
use os.FileSys.{read_filesys_bootblock}
use os.Screen.{Screen, clear}
use mathlib.Core.Path.{subst}
use os.Pic.{Pic, mstr_num_irqs, i8259_init, enable_irq}
use os.Keyboard.{init_keyboard}
use os.Rtc.{rtc_init}
use os.Timer.{pit_init}
use os.Pic.Masks.{is_masked}
use os.Printf.Pieces.{Piece}
use os.Command.{Command, verify_file}
use os.Kernel.{Outcome, entered, processes, shell, set_screen}
use os.Idt.{num_vec, idt_init}
use os.Idt.Gates.{IsRight, idt_init_lem}
use os.Timer.Boot.{IsIdle, first_shell}
use os.KeyboardHandler.Soundness.{IsSound}
use os.Entry.{Machine, set_up, first_program, start, entry, multiboot_bootloader_magic, with_screen}
use os.Entry.Report.{
  print_all, Build, map_lines, check_flag, mbi_flags, modules, early_lines, section_lines,
}
use os.Entry.Lines.{enabling, page_init_ok}
use os.Entry.Printing.{AllReady, AllReady-append, print_all-ends}
use os.Printf.Digits.{put_all}
use os.Entry.Ready.{enabling-Ready, page_init_ok-Ready}
use os.Entry.Info.{IsBootInfo, early_lines-AllReady, section_lines-AllReady, map_lines-ends}
use os.Prelude.{all_pass, all_pass_at}

-- The lines that `set_up` opens: the timer, the keyboard, the slave controller and the clock.
abbrev pub is_opened : ℕ → Bool
is_opened line = ltb line 3 || line == 8

set_up-pic :
    (b : Build) (mem : Bytes) (m : Machine)
    → ((set_up b mem m).kernel.pic.master_mask ≡ 0xF8)
      × ((set_up b mem m).kernel.pic.slave_mask ≡ 0xFE)
unfolding set_up i8259_init init_keyboard enable_irq pit_init rtc_init
set_up-pic b mem m = (refl, refl)

-- Is line `line` masked by these masks, as it should be after `set_up`?
abbrev agrees : ℕ → Bool
agrees line =
    let masked =
      (if ltb line mstr_num_irqs then 0xF8 / 2 ^ line else 0xFE / 2 ^ (line - mstr_num_irqs)) % 2
      == 1 in
    if is_opened line then not masked else masked

is_masked-opened :
    (p : Pic) (line : ℕ)
    → p.master_mask ≡ 0xF8
    → p.slave_mask ≡ 0xFE
    → line < 16
    → is_masked p line ≡ not (is_opened line)
unfolding all_pass
is_masked-opened p line master slave low =
    let checked : agrees line ≡ true = all_pass_at 16 agrees line refl low in
    rw (master, slave) (ground (arith, checked))

set_up-same :
    (b : Build) (mem : Bytes) (m : Machine)
    → (processes (set_up b mem m).kernel ≡ processes m.kernel)
      × ((set_up b mem m).kernel.command ≡ m.kernel.command)
unfolding set_up
set_up-same b mem m = (refl, refl)

set_up-file_sys :
    (b : Build) (mem : Bytes) (m : Machine)
    → (set_up b mem m).kernel.system.file_sys
      ≡ read_filesys_bootblock mem m.boot_blk_addr m.kernel.system.file_sys.read_dir_index
unfolding set_up
set_up-file_sys b mem m = refl

set_up-idt : (b : Build) (mem : Bytes) (m : Machine) → (set_up b mem m).idt ≡ idt_init b.code m.idt
unfolding set_up
set_up-idt b mem m = refl

-- The shell `c` runs in a kernel that is set up, with the files at `boot_blk_addr`.
abbrev pub Booted : Build → Bytes → Command → Machine → ℕ → Option (Outcome × Machine) → Type 0
Booted b mem c m boot_blk_addr result =
    (m' : Machine) × (result ≡ some (entered (word32 c.v_addr 0), m'))
    × IsSound m'.kernel
    × ((processes m'.kernel).curr ≡ 0)
    × ((line : ℕ) → line < 16 → is_masked m'.kernel.pic line ≡ not (is_opened line))
    × ((v : ℕ) → v < num_vec → IsRight b.code v (m'.idt v))
    × (m'.kernel.system.file_sys
        ≡ read_filesys_bootblock mem boot_blk_addr m.kernel.system.file_sys.read_dir_index)

module _ (b : Build) (mem : Bytes) (c : Command) (m : Machine) where
  start_lem :
      100 ≤ b.fuel
      → IsIdle (processes m.kernel)
      → verify_file b.fuel
          (read_filesys_bootblock mem m.boot_blk_addr m.kernel.system.file_sys.read_dir_index)
          b.locals
          (some shell)
          m.kernel.command
        ≡ some (pos 0, c)
      → Booted b mem c m m.boot_blk_addr (start b mem m)
  unfolding start first_program
  start_lem enough idle ok =
      let ready = set_up b mem m in
      let (same, command) = set_up-same b mem m in
      let files = set_up-file_sys b mem m in
      let (text, shows, prints) =
        print_all-ends b mem (page_init_ok ∷ enabling ∷ []) ready.kernel.system.screen enough
          (page_init_ok-Ready b mem, (enabling-Ready b mem, tt)) in
      let s = put_all text ready.kernel.system.screen in
      let k = record (with_screen s ready).kernel { interrupts = true } in
      let (k', runs, curr, shown, sound, (pic, file_sys)) =
        first_shell b.fuel b.frame b.locals c (set_screen (clear k.system.screen) k)
          (subst IsIdle (sym same) idle) (rw (files, command) ok) in
      let (master, slave) = set_up-pic b mem m in
      (
        record ready { kernel = k' },
        rw (prints, runs, start, first_program) refl,
        sound,
        curr,
        λ line low.
            is_masked-opened k'.pic line (ap (λ p. p.master_mask) pic ∙ master)
              (ap (λ p. p.slave_mask) pic ∙ slave) low,
        λ v low.
            subst (λ t. IsRight b.code v (t v)) (sym (set_up-idt b mem m))
              (idt_init_lem b.code m.idt v low),
        file_sys ∙ files,
      )

runs_lines :
    (b : Build) (n magic : ℕ) (mem : Bytes) (addr : ℕ) (m : Machine) (maps : List (List Piece))
    (s' : Screen)
    → magic ≡ multiboot_bootloader_magic
    → (check_flag (mbi_flags mem addr) 4 && check_flag (mbi_flags mem addr) 5) ≡ false
    → map_lines b.fuel mem addr ≡ some maps
    → print_all b mem
        (early_lines n mem addr m.boot_blk_addr ++ (section_lines mem addr ++ maps))
        (clear m.kernel.system.screen)
      ≡ some s'
    → entry b n magic mem addr m
      ≡ start b mem
          (with_screen s' (record m { boot_blk_addr = (modules mem addr m.boot_blk_addr).1 }))
unfolding entry
runs_lines b n magic mem addr m maps s' right one walked printed =
    let right' : (magic == multiboot_bootloader_magic) ≡ true = ground arith in
    rw (right', one, walked, printed, entry) refl

-- With the right magic number, boot information that holds together and does not describe two kinds of
-- kernel, a process table without processes whose control blocks have clear bitmaps from place 2 on, and a
-- program in the file "shell" of the file system that the last module is (the variable's old value if
-- there is none), `entry` comes to an end and begins the shell as process 0: the walk over the memory map
-- stops, the processes are in a sound state, the files are those of the module, just the lines of the
-- timer, the keyboard, the slave and the clock are open, and every vector leads to its code. The fuel has to be 100 or more, and more than the areas
-- of the map and the length of the command line.
pub entry-boot :
    (b : Build) (n magic : ℕ) (mem : Bytes) (addr : ℕ) (m : Machine) (c : Command)
    → magic ≡ multiboot_bootloader_magic
    → IsBootInfo b n mem addr
    → (check_flag (mbi_flags mem addr) 4 && check_flag (mbi_flags mem addr) 5) ≡ false
    → 100 ≤ b.fuel
    → IsIdle (processes m.kernel)
    → let boot = (modules mem addr m.boot_blk_addr).1 in
      verify_file b.fuel
          (read_filesys_bootblock mem boot m.kernel.system.file_sys.read_dir_index)
          b.locals
          (some shell)
          m.kernel.command
        ≡ some (pos 0, c)
      → Booted b mem c m (modules mem addr m.boot_blk_addr).1 (entry b n magic mem addr m)
entry-boot b n magic mem addr m c right info one enough idle ok =
    let boot = (modules mem addr m.boot_blk_addr).1 in
    let (maps, walked, maps_ready) = map_lines-ends b n mem addr info in
    let lines = early_lines n mem addr m.boot_blk_addr ++ (section_lines mem addr ++ maps) in
    let ready : AllReady b mem lines =
      AllReady-append b mem (early_lines n mem addr m.boot_blk_addr)
        (section_lines mem addr ++ maps) (early_lines-AllReady b n mem addr info m.boot_blk_addr)
        (AllReady-append b mem (section_lines mem addr) maps
          (section_lines-AllReady b n mem addr info) maps_ready) in
    let (text, shows, printed) =
      print_all-ends b mem lines (clear m.kernel.system.screen) enough ready in
    let s' = put_all text (clear m.kernel.system.screen) in
    let m1 = with_screen s' (record m { boot_blk_addr = boot }) in
    subst (Booted b mem c m boot)
      (sym (runs_lines b n magic mem addr m maps s' right one walked printed))
      (start_lem b mem c m1 enough idle ok)
