-- ===== src/ScanCode.antt =====
-- student-distrib/scan_code.c: the character of each scan code, plain and with a shift key held.
use os.Prelude.{ℕ, List, [], ◌∷◌, Bytes, update, count_up}

abbrev pub num_scan_codes : ℕ
num_scan_codes = 255

abbrev pub num_convert : ℕ
num_convert = 80

-- The assignments of `init_scan_code`, in their order: the scan code and the character.
abbrev pub plain_keys : List (ℕ × ℕ)
plain_keys =
    (16, 113)
    ∷ (17, 119)
    ∷ (18, 101)
    ∷ (19, 114)
    ∷ (20, 116)
    ∷ (21, 121)
    ∷ (22, 117)
    ∷ (23, 105)
    ∷ (24, 111)
    ∷ (25, 112)
    ∷ (30, 97)
    ∷ (31, 115)
    ∷ (32, 100)
    ∷ (33, 102)
    ∷ (34, 103)
    ∷ (35, 104)
    ∷ (36, 106)
    ∷ (37, 107)
    ∷ (38, 108)
    ∷ (44, 122)
    ∷ (45, 120)
    ∷ (46, 99)
    ∷ (47, 118)
    ∷ (48, 98)
    ∷ (49, 110)
    ∷ (50, 109)
    ∷ (41, 96)
    ∷ (2, 49)
    ∷ (3, 50)
    ∷ (4, 51)
    ∷ (5, 52)
    ∷ (6, 53)
    ∷ (7, 54)
    ∷ (8, 55)
    ∷ (9, 56)
    ∷ (10, 57)
    ∷ (11, 48)
    ∷ (82, 48)
    ∷ (79, 49)
    ∷ (80, 50)
    ∷ (81, 51)
    ∷ (75, 52)
    ∷ (76, 53)
    ∷ (77, 54)
    ∷ (71, 55)
    ∷ (72, 56)
    ∷ (73, 57)
    ∷ (96, 10)
    ∷ (78, 43)
    ∷ (74, 45)
    ∷ (55, 42)
    ∷ (12, 45)
    ∷ (13, 61)
    ∷ (26, 91)
    ∷ (27, 93)
    ∷ (43, 92)
    ∷ (39, 59)
    ∷ (40, 39)
    ∷ (51, 44)
    ∷ (52, 46)
    ∷ (53, 47)
    ∷ (15, 9)
    ∷ (28, 10)
    ∷ (57, 32)
    ∷ []

abbrev pub shifted_keys : List (ℕ × ℕ)
shifted_keys =
    (16, 81)
    ∷ (17, 87)
    ∷ (18, 69)
    ∷ (19, 82)
    ∷ (20, 84)
    ∷ (21, 89)
    ∷ (22, 85)
    ∷ (23, 73)
    ∷ (24, 79)
    ∷ (25, 80)
    ∷ (30, 65)
    ∷ (31, 83)
    ∷ (32, 68)
    ∷ (33, 70)
    ∷ (34, 71)
    ∷ (35, 72)
    ∷ (36, 74)
    ∷ (37, 75)
    ∷ (38, 76)
    ∷ (44, 90)
    ∷ (45, 88)
    ∷ (46, 67)
    ∷ (47, 86)
    ∷ (48, 66)
    ∷ (49, 78)
    ∷ (50, 77)
    ∷ (41, 126)
    ∷ (2, 33)
    ∷ (3, 64)
    ∷ (4, 35)
    ∷ (5, 36)
    ∷ (6, 37)
    ∷ (7, 94)
    ∷ (8, 38)
    ∷ (9, 42)
    ∷ (10, 40)
    ∷ (11, 41)
    ∷ (12, 95)
    ∷ (13, 43)
    ∷ (26, 123)
    ∷ (27, 125)
    ∷ (43, 124)
    ∷ (39, 58)
    ∷ (40, 34)
    ∷ (51, 60)
    ∷ (52, 62)
    ∷ (53, 63)
    ∷ []

-- table[code] = character, for each pair in turn
abbrev pub assign : List (ℕ × ℕ) → Bytes → Bytes
assign [] m = m
assign ((i, c) ∷ rest) m = assign rest (update m i c)

-- The two arrays that `init_scan_code` fills, from what they held. They have 255 and 80 entries; what
-- lies behind the second one is not written.
unfoldable pub init_scan_code : Bytes → Bytes
unfolding count_up
init_scan_code scan_code =
    assign plain_keys (count_up num_scan_codes 0 (λ i m. update m i 0) scan_code)

unfoldable pub init_shift_convert : Bytes → Bytes
unfolding count_up
init_shift_convert shift_convert =
    assign shifted_keys (count_up num_convert 0 (λ i m. update m i 0) shift_convert)
