-- ===== src/Entry/Lines.antt =====
-- The lines that `entry` prints, each a call of `printf`. The string of `cmdline_line` is given by its
-- address and its length.
use os.Prelude.{ℕ, List, [], ◌∷◌, ◌++◌}
use os.Printf.Pieces.{Piece, hex, hex8, unsigned, signed, string, plains}

abbrev pub bad_magic : ℕ → List Piece
bad_magic magic =
    plains (
      b'I' ∷ b'n' ∷ b'v' ∷ b'a' ∷ b'l' ∷ b'i' ∷ b'd' ∷ b' ' ∷ b'm' ∷ b'a' ∷ b'g' ∷ b'i' ∷ b'c'
      ∷ b' ' ∷ b'n' ∷ b'u' ∷ b'm' ∷ b'b' ∷ b'e' ∷ b'r' ∷ b':' ∷ b' ' ∷ b'0' ∷ b'x' ∷ [])
    ++ (hex8 (magic) ∷ [] ++ (plains (b'\n' ∷ [])))

abbrev pub flags_line : ℕ → List Piece
flags_line flags =
    plains (b'f' ∷ b'l' ∷ b'a' ∷ b'g' ∷ b's' ∷ b' ' ∷ b'=' ∷ b' ' ∷ b'0' ∷ b'x' ∷ [])
    ++ (hex8 (flags) ∷ [] ++ (plains (b'\n' ∷ [])))

abbrev pub mem_line : ℕ → ℕ → List Piece
mem_line lower upper =
    plains (b'm' ∷ b'e' ∷ b'm' ∷ b'_' ∷ b'l' ∷ b'o' ∷ b'w' ∷ b'e' ∷ b'r' ∷ b' ' ∷ b'=' ∷ b' ' ∷ [])
    ++ (unsigned (lower) ∷ []
        ++ (plains (
              b'K' ∷ b'B' ∷ b',' ∷ b' ' ∷ b'm' ∷ b'e' ∷ b'm' ∷ b'_' ∷ b'u' ∷ b'p' ∷ b'p' ∷ b'e'
              ∷ b'r' ∷ b' ' ∷ b'=' ∷ b' ' ∷ [])
            ++ (unsigned (upper) ∷ [] ++ (plains (b'K' ∷ b'B' ∷ b'\n' ∷ [])))))

abbrev pub boot_device_line : ℕ → List Piece
boot_device_line device =
    plains (
      b'b' ∷ b'o' ∷ b'o' ∷ b't' ∷ b'_' ∷ b'd' ∷ b'e' ∷ b'v' ∷ b'i' ∷ b'c' ∷ b'e' ∷ b' ' ∷ b'='
      ∷ b' ' ∷ b'0' ∷ b'x' ∷ [])
    ++ (hex8 (device) ∷ [] ++ (plains (b'\n' ∷ [])))

abbrev pub cmdline_line : ℕ → ℕ → List Piece
cmdline_line p n =
    plains (b'c' ∷ b'm' ∷ b'd' ∷ b'l' ∷ b'i' ∷ b'n' ∷ b'e' ∷ b' ' ∷ b'=' ∷ b' ' ∷ [])
    ++ (string p n ∷ [] ++ (plains (b'\n' ∷ [])))

abbrev pub loaded_line : ℕ → ℕ → List Piece
loaded_line i start =
    plains (b'M' ∷ b'o' ∷ b'd' ∷ b'u' ∷ b'l' ∷ b'e' ∷ b' ' ∷ [])
    ++ (signed (i) ∷ []
        ++ (plains (
              b' ' ∷ b'l' ∷ b'o' ∷ b'a' ∷ b'd' ∷ b'e' ∷ b'd' ∷ b' ' ∷ b'a' ∷ b't' ∷ b' ' ∷ b'a'
              ∷ b'd' ∷ b'd' ∷ b'r' ∷ b'e' ∷ b's' ∷ b's' ∷ b':' ∷ b' ' ∷ b'0' ∷ b'x' ∷ [])
            ++ (hex8 (start) ∷ [] ++ (plains (b'\n' ∷ [])))))

abbrev pub ends_line : ℕ → ℕ → List Piece
ends_line i last =
    plains (b'M' ∷ b'o' ∷ b'd' ∷ b'u' ∷ b'l' ∷ b'e' ∷ b' ' ∷ [])
    ++ (signed (i) ∷ []
        ++ (plains (
              b' ' ∷ b'e' ∷ b'n' ∷ b'd' ∷ b's' ∷ b' ' ∷ b'a' ∷ b't' ∷ b' ' ∷ b'a' ∷ b'd' ∷ b'd'
              ∷ b'r' ∷ b'e' ∷ b's' ∷ b's' ∷ b':' ∷ b' ' ∷ b'0' ∷ b'x' ∷ [])
            ++ (hex8 (last) ∷ [] ++ (plains (b'\n' ∷ [])))))

abbrev pub few_bytes_line : List Piece
few_bytes_line = plains (
    b'F' ∷ b'i' ∷ b'r' ∷ b's' ∷ b't' ∷ b' ' ∷ b'f' ∷ b'e' ∷ b'w' ∷ b' ' ∷ b'b' ∷ b'y' ∷ b't' ∷ b'e'
    ∷ b's' ∷ b' ' ∷ b'o' ∷ b'f' ∷ b' ' ∷ b'm' ∷ b'o' ∷ b'd' ∷ b'u' ∷ b'l' ∷ b'e' ∷ b':' ∷ b'\n'
    ∷ [])

abbrev pub byte_text : ℕ → List Piece
byte_text c = plains (b'0' ∷ b'x' ∷ []) ++ (hex (c) ∷ [] ++ (plains (b' ' ∷ [])))

abbrev pub new_line : List Piece
new_line = plains (b'\n' ∷ [])

abbrev pub both_set : List Piece
both_set = plains (
    b'B' ∷ b'o' ∷ b't' ∷ b'h' ∷ b' ' ∷ b'b' ∷ b'i' ∷ b't' ∷ b's' ∷ b' ' ∷ b'4' ∷ b' ' ∷ b'a' ∷ b'n'
    ∷ b'd' ∷ b' ' ∷ b'5' ∷ b' ' ∷ b'a' ∷ b'r' ∷ b'e' ∷ b' ' ∷ b's' ∷ b'e' ∷ b't' ∷ b'.' ∷ b'\n'
    ∷ [])

abbrev pub elf_line : ℕ → ℕ → ℕ → ℕ → List Piece
elf_line num size addr shndx =
    plains (
      b'e' ∷ b'l' ∷ b'f' ∷ b'_' ∷ b's' ∷ b'e' ∷ b'c' ∷ b':' ∷ b' ' ∷ b'n' ∷ b'u' ∷ b'm' ∷ b' '
      ∷ b'=' ∷ b' ' ∷ [])
    ++ (unsigned (num) ∷ []
        ++ (plains (b',' ∷ b' ' ∷ b's' ∷ b'i' ∷ b'z' ∷ b'e' ∷ b' ' ∷ b'=' ∷ b' ' ∷ b'0' ∷ b'x' ∷ [])
            ++ (hex8 (size) ∷ []
                ++ (plains (
                      b',' ∷ b' ' ∷ b'a' ∷ b'd' ∷ b'd' ∷ b'r' ∷ b' ' ∷ b'=' ∷ b' ' ∷ b'0' ∷ b'x'
                      ∷ [])
                    ++ (hex8 (addr) ∷ []
                        ++ (plains (
                              b',' ∷ b' ' ∷ b's' ∷ b'h' ∷ b'n' ∷ b'd' ∷ b'x' ∷ b' ' ∷ b'=' ∷ b' '
                              ∷ b'0' ∷ b'x' ∷ [])
                            ++ (hex8 (shndx) ∷ [] ++ (plains (b'\n' ∷ [])))))))))

abbrev pub mmap_line : ℕ → ℕ → List Piece
mmap_line addr length =
    plains (
      b'm' ∷ b'm' ∷ b'a' ∷ b'p' ∷ b'_' ∷ b'a' ∷ b'd' ∷ b'd' ∷ b'r' ∷ b' ' ∷ b'=' ∷ b' ' ∷ b'0'
      ∷ b'x' ∷ [])
    ++ (hex8 (addr) ∷ []
        ++ (plains (
              b',' ∷ b' ' ∷ b'm' ∷ b'm' ∷ b'a' ∷ b'p' ∷ b'_' ∷ b'l' ∷ b'e' ∷ b'n' ∷ b'g' ∷ b't'
              ∷ b'h' ∷ b' ' ∷ b'=' ∷ b' ' ∷ b'0' ∷ b'x' ∷ [])
            ++ (hex (length) ∷ [] ++ (plains (b'\n' ∷ [])))))

abbrev pub area_line : ℕ → ℕ → ℕ → ℕ → ℕ → ℕ → List Piece
area_line size base_high base_low kind length_high length_low =
    plains (
      b' ' ∷ b' ' ∷ b' ' ∷ b' ' ∷ b's' ∷ b'i' ∷ b'z' ∷ b'e' ∷ b' ' ∷ b'=' ∷ b' ' ∷ b'0' ∷ b'x' ∷ [])
    ++ (hex (size) ∷ []
        ++ (plains (
              b',' ∷ b' ' ∷ b'b' ∷ b'a' ∷ b's' ∷ b'e' ∷ b'_' ∷ b'a' ∷ b'd' ∷ b'd' ∷ b'r' ∷ b' '
              ∷ b'=' ∷ b' ' ∷ b'0' ∷ b'x' ∷ [])
            ++ (hex8 (base_high) ∷ []
                ++ (hex8 (base_low) ∷ []
                    ++ (plains (
                          b'\n' ∷ b' ' ∷ b' ' ∷ b' ' ∷ b' ' ∷ b't' ∷ b'y' ∷ b'p' ∷ b'e' ∷ b' '
                          ∷ b'=' ∷ b' ' ∷ b'0' ∷ b'x' ∷ [])
                        ++ (hex (kind) ∷ []
                            ++ (plains (
                                  b',' ∷ b' ' ∷ b' ' ∷ b'l' ∷ b'e' ∷ b'n' ∷ b'g' ∷ b't' ∷ b'h'
                                  ∷ b' ' ∷ b' ' ∷ b' ' ∷ b' ' ∷ b'=' ∷ b' ' ∷ b'0' ∷ b'x' ∷ [])
                                ++ (hex8 (length_high) ∷ []
                                    ++ (hex8 (length_low) ∷ [] ++ (plains (b'\n' ∷ [])))))))))))

abbrev pub enabling : List Piece
enabling = plains (
    b'E' ∷ b'n' ∷ b'a' ∷ b'b' ∷ b'l' ∷ b'i' ∷ b'n' ∷ b'g' ∷ b' ' ∷ b'I' ∷ b'n' ∷ b't' ∷ b'e' ∷ b'r'
    ∷ b'r' ∷ b'u' ∷ b'p' ∷ b't' ∷ b's' ∷ b'\n' ∷ [])

abbrev pub page_init_ok : List Piece
page_init_ok =
    plains (
      b'P' ∷ b'A' ∷ b'G' ∷ b'E' ∷ b'_' ∷ b'I' ∷ b'N' ∷ b'I' ∷ b'T' ∷ b' ' ∷ b'O' ∷ b'K' ∷ b'\n'
      ∷ [])
