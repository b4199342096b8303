-- ===== src/Entry/Report.antt =====
-- student-distrib/kernel.c: what `entry` prints about the boot information.
use os.Prelude.{
  ℕ, zero, suc, ◌+◌, ◌-◌, ◌/◌, ◌%◌, ◌^◌, Bool, List, [], ◌∷◌, ◌++◌, Option, none, some, ltb, ◌==◌,
  if◌then◌else◌, Bytes, word32, u32,
}
use os.Paging.{Layout}
use os.Screen.{Screen}
use os.Printf.{printf, literal}
use os.Printf.Pieces.{Piece, spelling, words}
use os.Command.{Locals}
use os.Kernel.{Frame, nth}
use os.Idt.{Code}
use os.Entry.Lines.{
  flags_line, mem_line, boot_device_line, cmdline_line, loaded_line, ends_line, few_bytes_line,
  byte_text, new_line, elf_line, mmap_line, area_line,
}

-- Where the linker has put things: the page tables, the code, the LDT, the task state, the literal that is
-- being printed; what the local buffer of `printf` holds; the fuel of the loops over strings; and what the
-- call of `execute_with_terminal_num` meets.
pub record Build : Type 0 where
  pub layout : Layout
  pub code : Code → ℕ
  pub ldt_addr : ℕ
  pub ldt_size : ℕ
  pub tss_addr : ℕ
  pub tss_limit : ℕ
  pub literal_addr : ℕ
  pub conv_buf : Bytes
  pub fuel : ℕ
  pub frame : Frame
  pub locals : Locals

abbrev pub format_of : List Piece → List ℕ
format_of [] = []
format_of (p ∷ ps) = spelling p ++ format_of ps

abbrev pub args_of : List Piece → List ℕ
args_of [] = []
args_of (p ∷ ps) = words p ++ args_of ps

-- One call of `printf`, with the format as a literal in memory.
unfoldable pub print : Build → Bytes → List Piece → Screen → Option Screen
unfolding printf
print b mem ps s =
    elim (printf b.fuel b.conv_buf (literal b.literal_addr (format_of ps) mem) b.literal_addr
      (nth (args_of ps)) s) [ none ↦ none | some (_, s') ↦ some s' ]

unfoldable pub print_all : Build → Bytes → List (List Piece) → Screen → Option Screen
unfolding print
print_all b mem [] s = some s
print_all b mem (line ∷ lines) s = elim (print b mem line s) [
  | none ↦ none
  | some s' ↦ print_all b mem lines s'
]

-- CHECK_FLAG
abbrev pub check_flag : ℕ → ℕ → Bool
check_flag flags bit = flags / 2 ^ bit % 2 == 1

-- A `char` as the word that it is passed as.
abbrev pub promoted : ℕ → ℕ
promoted c = if ltb c 128 then c else 2 ^ 32 - 256 + c

-- for (i = 0; i < 16; i++), with `n` left
abbrev pub first_bytes : ℕ → ℕ → Bytes → List (List Piece)
first_bytes zero at mem = new_line ∷ []
first_bytes (suc n) at mem = byte_text (promoted (mem at)) ∷ first_bytes n (at + 1) mem

-- The loop over the modules, `n` of which are left: the lines, and where the last one starts.
unfoldable pub module_lines : ℕ → ℕ → ℕ → Bytes → ℕ → List (List Piece) × ℕ
module_lines zero mod_count at mem boot_blk_addr = ([], boot_blk_addr)
module_lines (suc n) mod_count at mem boot_blk_addr =
    let mod_start = word32 mem at in
    let (rest, addr) = module_lines n (mod_count + 1) (at + 16) mem mod_start in
    (
      loaded_line mod_count mod_start
          ∷ ends_line mod_count (word32 mem (at + 4))
          ∷ few_bytes_line
          ∷ (first_bytes 16 mod_start mem ++ rest),
      addr,
    )

-- The loop over the memory map, at `mmap`.
unfoldable pub area_lines : ℕ → ℕ → ℕ → Bytes → Option (List (List Piece))
area_lines zero mmap last mem = none
area_lines (suc fuel) mmap last mem =
    let size = word32 mem mmap in
    let line =
      area_line size (word32 mem (mmap + 8)) (word32 mem (mmap + 4)) (word32 mem (mmap + 20))
        (word32 mem (mmap + 16)) (word32 mem (mmap + 12)) in
    let rest : Option (List (List Piece)) =
      elim (area_lines fuel (u32 (mmap + size + 4)) last mem) [
        | none ↦ none
        | some lines ↦ some (line ∷ lines)
      ] in
    if ltb mmap last then rest else some []

-- The fields of the multiboot information at `addr`.
abbrev pub mbi_flags : Bytes → ℕ → ℕ
mbi_flags mem addr = word32 mem addr

-- The modules' lines, and the value of `boot_blk_addr`.
abbrev pub modules : Bytes → ℕ → ℕ → List (List Piece) × ℕ
modules mem addr boot_blk_addr =
    if check_flag (mbi_flags mem addr) 3
    then module_lines (word32 mem (addr + 20)) 0 (word32 mem (addr + 24)) mem boot_blk_addr
    else ([], boot_blk_addr)

-- A line that is printed if a bit of the flags is set.
abbrev pub line_if : Bool → List Piece → List (List Piece)
line_if b line = if b then line ∷ [] else []

-- The lines up to the test of the bits 4 and 5. `n` is the length of the command line.
abbrev pub early_lines : ℕ → Bytes → ℕ → ℕ → List (List Piece)
early_lines n mem addr boot_blk_addr =
    let flags = mbi_flags mem addr in
    flags_line flags
    ∷ (line_if (check_flag flags 0) (mem_line (word32 mem (addr + 4)) (word32 mem (addr + 8)))
        ++ (line_if (check_flag flags 1) (boot_device_line (word32 mem (addr + 12)))
            ++ (line_if (check_flag flags 2) (cmdline_line (word32 mem (addr + 16)) n)
                ++ (modules mem addr boot_blk_addr).0)))

-- The memory map's lines, if it is there.
unfoldable pub map_lines : ℕ → Bytes → ℕ → Option (List (List Piece))
unfolding area_lines
map_lines fuel mem addr =
    let mmap = word32 mem (addr + 48) in
    let length = word32 mem (addr + 44) in
    if check_flag (mbi_flags mem addr) 6
    then elim (area_lines fuel mmap (u32 (mmap + length)) mem)
        as (λ _. Option (List (List Piece))) [
          | none ↦ none
          | some lines ↦ some (mmap_line mmap length ∷ lines)
        ]
    else some []

abbrev pub section_lines : Bytes → ℕ → List (List Piece)
section_lines mem addr = line_if (check_flag (mbi_flags mem addr) 5) (
    elf_line (word32 mem (addr + 28)) (word32 mem (addr + 32)) (word32 mem (addr + 36))
      (word32 mem (addr + 40)))
