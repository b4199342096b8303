-- ===== src/Entry/Refusal.antt =====
-- `entry` where it starts no kernel.
use os.Prelude.{
  inl, inr, ◌⊎◌, ◌≢◌, Bool-cases, ℕ, ◌^◌, ◌<◌, ◌≤◌, ◌≡◌, refl, arith, true, ◌&&◌, List, [], ◌∷◌,
  ◌++◌, some, ◌==◌, Bytes, ap, ◌∙◌, pos,
}
use os.Screen.{Screen, clear}
use os.Printf.Pieces.{Piece, plains, hex8}
use os.Kernel.{returned}
use os.Entry.{give_up, Machine, entry, multiboot_bootloader_magic, with_screen}
use os.Printf.{literal}
use os.Entry.Report.{format_of, print_all, Build, check_flag, mbi_flags, modules, early_lines}
use os.Entry.Lines.{bad_magic, both_set}
use os.Entry.Printing.{
  AllReady, AllReady-append, print_all-ends, AllShow, AllShow-append, append_none,
}
use os.Strings.Chars.{length}
use os.Printf.Digits.{put_all, Shows}
use os.Entry.Ready.{bad_magic-Ready, both_set-Ready}
use os.Entry.Info.{IsBootInfo, early_lines-AllReady}
use os.Printf.Formats.{plains-AllPrint, plain_line-AllPrint}

-- A kernel that has printed some lines and gives up.
returns :
    (b : Build) (mem : Bytes) (lines : List (List Piece)) (s : Screen) (m : Machine)
    → 100 ≤ b.fuel
    → AllReady b mem lines
    → (text : List ℕ) × AllShow b mem lines text
      × (give_up (print_all b mem lines s) m
          ≡ some (returned (pos 0), with_screen (put_all text s) m))
returns b mem lines s m enough ready =
    let (text, shows, printed) = print_all-ends b mem lines s enough ready in
    (text, shows, rw printed refl)

-- "Invalid magic number: 0x"
abbrev pub invalid_magic : List ℕ
invalid_magic =
    b'I' ∷ b'n' ∷ b'v' ∷ b'a' ∷ b'l' ∷ b'i' ∷ b'd' ∷ b' ' ∷ b'm' ∷ b'a' ∷ b'g' ∷ b'i' ∷ b'c' ∷ b' '
    ∷ b'n' ∷ b'u' ∷ b'm' ∷ b'b' ∷ b'e' ∷ b'r' ∷ b':' ∷ b' ' ∷ b'0' ∷ b'x' ∷ []

-- "Both bits 4 and 5 are set."
abbrev pub both_bits : List ℕ
both_bits =
    b'B' ∷ b'o' ∷ b't' ∷ b'h' ∷ b' ' ∷ b'b' ∷ b'i' ∷ b't' ∷ b's' ∷ b' ' ∷ b'4' ∷ b' ' ∷ b'a' ∷ b'n'
    ∷ b'd' ∷ b' ' ∷ b'5' ∷ b' ' ∷ b'a' ∷ b'r' ∷ b'e' ∷ b' ' ∷ b's' ∷ b'e' ∷ b't' ∷ b'.' ∷ b'\n' ∷ []

bad_magic-AllShow :
    (b : Build) (magic : ℕ) (mem : Bytes) (text : List ℕ)
    → AllShow b mem (bad_magic magic ∷ []) text
    → (digits : List ℕ) × (length digits ≡ 8)
      × Shows 16 magic digits
      × (text ≡ invalid_magic ++ (digits ++ b'\n' ∷ []))
bad_magic-AllShow b magic mem text (line, none_left, prints, nothing, e) =
    let mem' = literal b.literal_addr (format_of (bad_magic magic)) mem in
    let (tail, more, e1) =
      plains-AllPrint invalid_magic (hex8 magic ∷ plains (b'\n' ∷ [])) mem' line prints in
    let (digits, rest, (eight, shows), last, e2) = more in
    let e3 = plain_line-AllPrint (b'\n' ∷ []) mem' rest last in
    (
      digits,
      eight,
      shows,
      e
          ∙ ap (λ r. line ++ r) nothing
          ∙ append_none line
          ∙ e1
          ∙ ap (λ r. invalid_magic ++ r) (e2 ∙ ap (λ r. digits ++ r) e3),
    )

both_set-AllShow :
    (b : Build) (mem : Bytes) (text : List ℕ)
    → AllShow b mem (both_set ∷ []) text
    → text ≡ both_bits
both_set-AllShow b mem text (line, none_left, prints, nothing, e) =
    e
    ∙ ap (λ r. line ++ r) nothing
    ∙ append_none line
    ∙ plain_line-AllPrint both_bits (literal b.literal_addr (format_of both_set) mem) line prints

-- What `entry` does if it starts no kernel.
abbrev pub Refused : Build → ℕ → ℕ → Bytes → ℕ → Machine → Type 0
Refused b n magic mem addr m =
    ((magic ≢ multiboot_bootloader_magic)
      × (digits : List ℕ) × (length digits ≡ 8)
      × Shows 16 magic digits
      × (entry b n magic mem addr m
          ≡ some (
            returned (pos 0),
            with_screen
                (put_all (invalid_magic ++ (digits ++ b'\n' ∷ [])) (clear m.kernel.system.screen))
                m,
          )))
    ⊎ ((magic ≡ multiboot_bootloader_magic)
        × (text : List ℕ) × AllShow b mem (early_lines n mem addr m.boot_blk_addr) text
        × (entry b n magic mem addr m
            ≡ some (
              returned (pos 0),
              with_screen (put_all (text ++ both_bits) (clear m.kernel.system.screen))
                  (record m { boot_blk_addr = (modules mem addr m.boot_blk_addr).1 }),
            )))

-- With another magic number, or with boot information that describes two kinds of kernel, `entry` clears
-- the screen, prints why and returns, and nothing is set up or started. For another magic number it prints
-- "Invalid magic number: 0x", the number in eight digits and a line feed, and only the screen has changed.
-- Else it prints what it finds in the boot information up to there, each line as its format says, and
-- "Both bits 4 and 5 are set." with a line feed, and the address of the boot block may have changed too.
-- The magic number is a word, the boot information holds together, and the fuel is 100 or more, and more
-- than the areas of the map and the length of the command line.
pub entry-refuses :
    (b : Build) (n magic : ℕ) (mem : Bytes) (addr : ℕ) (m : Machine)
    → magic < 2 ^ 32
    → IsBootInfo b n mem addr
    → 100 ≤ b.fuel
    → (magic ≢ multiboot_bootloader_magic)
      ⊎ ((check_flag (mbi_flags mem addr) 4 && check_flag (mbi_flags mem addr) 5) ≡ true)
    → Refused b n magic mem addr m
unfolding entry
entry-refuses b n magic mem addr m small info enough why =
    elim (Bool-cases (magic == multiboot_bootloader_magic)) [
      | inr wrong ↦
          let (text, shows, done) =
            returns b mem (bad_magic magic ∷ []) (clear m.kernel.system.screen) m enough
              (bad_magic-Ready b mem magic small, tt) in
          let (digits, eight, number, e) = bad_magic-AllShow b magic mem text shows in
          let other : magic ≢ multiboot_bootloader_magic = λ same. ground (arith, wrong, same) in
          inl (
            other,
            digits,
            eight,
            number,
            rw (wrong, entry) done
                ∙ ap
                    (λ t.
                      some (
                        returned (pos 0),
                        with_screen (put_all t (clear m.kernel.system.screen)) m,
                      ))
                    e,
          )
      | inl right ↦
          let two : (check_flag (mbi_flags mem addr) 4 && check_flag (mbi_flags mem addr) 5)
              ≡ true =
            elim why [ inl other ↦ absurd (ground (arith, other, right)) | inr both ↦ both ] in
          let m' = record m { boot_blk_addr = (modules mem addr m.boot_blk_addr).1 } in
          let lines = early_lines n mem addr m.boot_blk_addr in
          let (text, shows, done) =
            returns b mem (lines ++ both_set ∷ []) (clear m.kernel.system.screen) m' enough (
              AllReady-append b mem lines (both_set ∷ [])
                (early_lines-AllReady b n mem addr info m.boot_blk_addr)
                (both_set-Ready b mem, tt)) in
          let (first, rest, early, last, e) =
            AllShow-append b mem lines (both_set ∷ []) text shows in
          let e' = e ∙ ap (λ r. first ++ r) (both_set-AllShow b mem rest last) in
          let same : magic ≡ multiboot_bootloader_magic = ground (arith, right) in
          inr (
            same,
            first,
            early,
            rw (right, two, entry) done
                ∙ ap
                    (λ t.
                      some (
                        returned (pos 0),
                        with_screen (put_all t (clear m.kernel.system.screen)) m',
                      ))
                    e',
          )
    ]
