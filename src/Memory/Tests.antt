-- ===== src/Memory/Tests.antt =====
-- Examples of copies, of five bytes at 101, and of filled bytes.
use os.Prelude.{ℕ, ◌+◌, ◌-◌, ◌%◌, ◌^◌, in_range, if◌then◌else◌, ◌≡◌, inl, arith, Bytes, ltb}
use os.Memory.{memcpy, memmove}
use os.Memory.Moving.{moved, memmove_lem}
use os.Memory.Copies.{memcpy-copy_bytes}
use os.Memory.Filling.{memset}
use os.Memory.Memset.{memset-Strings}
use os.Strings
use os.Strings.{copy_bytes}

-- Each byte holds its own address.
abbrev plain : Bytes
plain a = a

memmove_lem_example :
    ((a : ℕ) → (memmove 103 101 5 plain).0 a ≡ moved 103 101 5 plain a)
    × ((memmove 103 101 5 plain).1 ≡ ltb 101 103)
memmove_lem_example = memmove_lem 103 101 5 plain (omega arith) (omega arith)

memcpy-copy_bytes_example :
    memcpy 101 202 9 plain (101 + 4) ≡ copy_bytes 9 (λ i. plain (202 + i)) (λ i. plain (101 + i)) 4
memcpy-copy_bytes_example =
    memcpy-copy_bytes 101 202 9 plain (omega arith) (omega arith) (inl (omega arith)) 4

-- 14 bytes from 101 on: three up to the address of a word, two words, and three bytes.
memset-Strings_example : memset 101 300 14 plain 110 ≡ (
    if in_range 101 14 110
    then Strings.memset (λ i. plain (101 + i)) (300 % 2 ^ 8) 14 (110 - 101)
    else plain 110)
memset-Strings_example = memset-Strings 101 300 14 plain (omega arith) 110
