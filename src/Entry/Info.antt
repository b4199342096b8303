-- ===== src/Entry/Info.antt =====
-- Boot information that `entry` takes, and that its lines can be printed.
use os.Prelude.{
  ℕ, zero, suc, ◌+◌, ◌^◌, ◌<◌, ◌≤◌, ◌≡◌, refl, arith, Bool, true, false, List, [], ◌∷◌, ◌++◌, some,
  ltb, Bytes, word32, u32, ◌∙◌, sym, Bool-cases, inl, inr,
}
use os.Strings.Compare.{HoldsBytes}
use os.Printf.{literal, at_offset}
use os.Printf.Digits.{IsString}
use os.Printf.Pieces.{Piece, plains, string}
use os.Printf.Formats.{AllFit}
use os.Entry.Report.{
  Build, format_of, area_lines, map_lines, check_flag, mbi_flags, module_lines, modules,
  first_bytes, promoted, line_if, early_lines, section_lines,
}
use os.Entry.Lines.{mem_line, boot_device_line, cmdline_line, elf_line, mmap_line}
use os.Entry.Printing.{Ready, AllReady, AllReady-append}
use os.Entry.Ready.{
  flags_line-Ready, mem_line-Ready, boot_device_line-Ready, loaded_line-Ready, ends_line-Ready,
  few_bytes_line-Ready, byte_text-Ready, new_line-Ready, elf_line-Ready, mmap_line-Ready,
  area_line-Ready,
}

-- The memory map from `mmap` to `last` is made of `n` areas, none of which passes the end of the memory.
abbrev pub IsMap : ℕ → ℕ → ℕ → Bytes → Type 0
IsMap zero mmap last mem = last ≤ mmap
IsMap (suc n) mmap last mem =
    let next = mmap + word32 mem mmap + 4 in (mmap < last) × (next < 2 ^ 32) × IsMap n next last mem

-- Boot information that `entry` takes. The command line has length `n` and lies before the literals of
-- the kernel.
pub record IsBootInfo (b : Build) (n : ℕ) (mem : Bytes) (addr : ℕ) : Type 0 where
  pub bytes : HoldsBytes mem
  pub cmdline :
      check_flag (mbi_flags mem addr) 2 ≡ true
      → let p = word32 mem (addr + 16) in
        (n < b.fuel) × (p + n < b.literal_addr) × IsString n (at_offset p mem)
  pub map :
      check_flag (mbi_flags mem addr) 6 ≡ true
      → let mmap = word32 mem (addr + 48) in
        (areas : ℕ) × (areas < b.fuel) × IsMap areas mmap (u32 (mmap + word32 mem (addr + 44))) mem

word32-low : (mem : Bytes) (a : ℕ) → HoldsBytes mem → word32 mem a < 2 ^ 32
word32-low mem a bytes = omega (arith, bytes a, bytes (a + 1), bytes (a + 2), bytes (a + 3))

promoted-low : (c : ℕ) → c < 256 → promoted c < 2 ^ 32
promoted-low c low = ground arith

literal-before : (cs : List ℕ) (at i : ℕ) (mem : Bytes) → i < at → literal at cs mem i ≡ mem i
literal-before [] at i mem low = ground arith
literal-before (c ∷ cs) at i mem low = ground (arith, literal-before cs (at + 1) i mem)

AllFit-append :
    (fuel : ℕ) (mem : Bytes) (ps qs : List Piece)
    → AllFit fuel mem ps
    → AllFit fuel mem qs
    → AllFit fuel mem (ps ++ qs)
AllFit-append fuel mem [] qs left right = right
AllFit-append fuel mem (p ∷ ps) qs (one, left) right =
    (one, AllFit-append fuel mem ps qs left right)

cmdline_line-AllFit :
    (fuel : ℕ) (mem : Bytes) (p n : ℕ)
    → n < fuel
    → IsString n (at_offset p mem)
    → AllFit fuel mem (cmdline_line p n)
unfolding plains
cmdline_line-AllFit fuel mem p n low there =
    let text : List ℕ = b'c' ∷ b'm' ∷ b'd' ∷ b'l' ∷ b'i' ∷ b'n' ∷ b'e' ∷ b' ' ∷ b'=' ∷ b' ' ∷ [] in
    AllFit-append fuel mem (plains text) (string p n ∷ plains (b'\n' ∷ [])) (omega arith)
      ((low, there), omega arith)

module _ (b : Build) (mem : Bytes) where
  line_if-AllReady :
      (flag : Bool) (line : List Piece)
      → (flag ≡ true → Ready b mem line)
      → AllReady b mem (line_if flag line)
  line_if-AllReady false line ready = tt
  line_if-AllReady true line ready = (ready refl, tt)

module _ (b : Build) (mem : Bytes) (bytes : HoldsBytes mem) where
  word : (a : ℕ) → word32 mem a < 2 ^ 32
  word a = word32-low mem a bytes

  first_bytes-AllReady : (n at : ℕ) → AllReady b mem (first_bytes n at mem)
  first_bytes-AllReady zero at = (new_line-Ready b mem, tt)
  first_bytes-AllReady (suc n) at = (
    byte_text-Ready b mem (promoted (mem at)) (promoted-low (mem at) (bytes at)),
    first_bytes-AllReady n (at + 1),
  )

  module_lines-AllReady :
      (n mod_count at boot : ℕ)
      → mod_count + n < 2 ^ 32
      → AllReady b mem (module_lines n mod_count at mem boot).0
  unfolding module_lines
  module_lines-AllReady zero mod_count at boot low = tt
  module_lines-AllReady (suc n) mod_count at boot low = (
    loaded_line-Ready b mem mod_count (word32 mem at) (omega arith) (word at),
    (
      ends_line-Ready b mem mod_count (word32 mem (at + 4)) (omega arith) (word (at + 4)),
      (
        few_bytes_line-Ready b mem,
        AllReady-append b mem (first_bytes 16 (word32 mem at) mem)
            (module_lines n (mod_count + 1) (at + 16) mem (word32 mem at)).0
            (first_bytes-AllReady 16 (word32 mem at))
            (module_lines-AllReady n (mod_count + 1) (at + 16) (word32 mem at) (omega arith)),
      ),
    ),
  )

  -- The walk over the memory map comes to its end.
  area_lines-ends :
      (n fuel mmap last : ℕ)
      → n < fuel
      → IsMap n mmap last mem
      → (lines : List (List Piece)) × (area_lines fuel mmap last mem ≡ some lines)
        × AllReady b mem lines
  unfolding area_lines
  area_lines-ends n zero mmap last low map = absurd (omega arith)
  area_lines-ends zero (suc fuel) mmap last low map =
      let stop : ltb mmap last ≡ false = ground arith in ([], rw stop refl, tt)
  area_lines-ends (suc n) (suc fuel) mmap last low (more, inside, map) =
      let next = mmap + word32 mem mmap + 4 in
      let same : u32 next ≡ next = omega arith in
      let go : ltb mmap last ≡ true = ground arith in
      let (lines, runs, ready) = area_lines-ends n fuel next last (omega arith) map in
      (
        _ ∷ lines,
        rw (go, same, runs, area_lines) refl,
        (
          area_line-Ready b mem _ _ _ _ _ _ (word mmap) (word (mmap + 8)) (word (mmap + 4))
              (word (mmap + 20)) (word (mmap + 16)) (word (mmap + 12)),
          ready,
        ),
      )

  cmdline_line-Ready :
      (p n : ℕ)
      → n < b.fuel
      → p + n < b.literal_addr
      → IsString n (at_offset p mem)
      → Ready b mem (cmdline_line p n)
  unfolding plains
  cmdline_line-Ready p n low before there =
      let same = λ (k : ℕ) (h : k ≤ n).
        literal-before (format_of (cmdline_line p n)) b.literal_addr (p + k) mem (omega arith) in
      (
        omega arith,
        cmdline_line-AllFit b.fuel (literal b.literal_addr (format_of (cmdline_line p n)) mem) p n
            low
            (record {
              inside = λ k h e. there.inside k h (sym (same k (omega arith)) ∙ e);
              ends = same n (omega arith) ∙ there.ends;
            }),
      )

  modules-AllReady : (addr boot : ℕ) → AllReady b mem (modules mem addr boot).0
  modules-AllReady addr boot = elim (Bool-cases (check_flag (mbi_flags mem addr) 3)) [
    | inl there ↦ rw there (
        module_lines-AllReady (word32 mem (addr + 20)) 0 (word32 mem (addr + 24)) boot
          (omega (arith, word (addr + 20))))
    | inr missing ↦ rw missing tt
  ]

module _ (b : Build) (n : ℕ) (mem : Bytes) (addr : ℕ) (info : IsBootInfo b n mem addr) where
  -- A line that may be printed, and the lines behind it.
  before_lines :
      (flag : Bool) (line : List Piece) (rest : List (List Piece))
      → (flag ≡ true → Ready b mem line)
      → AllReady b mem rest
      → AllReady b mem (line_if flag line ++ rest)
  before_lines flag line rest ready more =
      AllReady-append b mem (line_if flag line) rest (line_if-AllReady b mem flag line ready) more

  pub early_lines-AllReady : (boot : ℕ) → AllReady b mem (early_lines n mem addr boot)
  early_lines-AllReady boot =
      let low = λ (a : ℕ). word32-low mem a info.bytes in
      let flags = mbi_flags mem addr in
      let device = boot_device_line (word32 mem (addr + 12)) in
      let command = cmdline_line (word32 mem (addr + 16)) n in
      let loaded = (modules mem addr boot).0 in
      let from_command =
        before_lines (check_flag flags 2) command loaded
          (λ e.
            let (short, before, there) = info.cmdline e in
            cmdline_line-Ready b mem info.bytes (word32 mem (addr + 16)) n short before there)
          (modules-AllReady b mem info.bytes addr boot) in
      let from_device =
        before_lines (check_flag flags 1) device (line_if (check_flag flags 2) command ++ loaded)
          (λ e. boot_device_line-Ready b mem (word32 mem (addr + 12)) (low (addr + 12)))
          from_command in
      (
        flags_line-Ready b mem flags (low addr),
        before_lines (check_flag flags 0) (mem_line (word32 mem (addr + 4)) (word32 mem (addr + 8)))
            (line_if (check_flag flags 1) device
              ++ (line_if (check_flag flags 2) command ++ loaded))
            (λ e.
              mem_line-Ready b mem (word32 mem (addr + 4)) (word32 mem (addr + 8)) (low (addr + 4))
                (low (addr + 8)))
            from_device,
      )

  pub section_lines-AllReady : AllReady b mem (section_lines mem addr)
  section_lines-AllReady =
      let low = λ (a : ℕ). word32-low mem a info.bytes in
      line_if-AllReady b mem (check_flag (mbi_flags mem addr) 5)
        (elf_line (word32 mem (addr + 28)) (word32 mem (addr + 32)) (word32 mem (addr + 36))
          (word32 mem (addr + 40)))
        (λ e.
          elf_line-Ready b mem _ _ _ _ (low (addr + 28)) (low (addr + 32)) (low (addr + 36))
            (low (addr + 40)))

  pub map_lines-ends :
      (lines : List (List Piece)) × (map_lines b.fuel mem addr ≡ some lines) × AllReady b mem lines
  unfolding map_lines
  map_lines-ends = elim (Bool-cases (check_flag (mbi_flags mem addr) 6)) [
    | inl there ↦
        let (areas, few, map) = info.map there in
        let (lines, runs, ready) = area_lines-ends b mem info.bytes areas b.fuel _ _ few map in
        (
          mmap_line (word32 mem (addr + 48)) (word32 mem (addr + 44)) ∷ lines,
          rw (there, runs, map_lines) refl,
          (
            mmap_line-Ready b mem _ _ (word32-low mem (addr + 48) info.bytes)
                (word32-low mem (addr + 44) info.bytes),
            ready,
          ),
        )
    | inr missing ↦ ([], rw (missing, map_lines) refl, tt)
  ]
