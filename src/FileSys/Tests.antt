-- ===== src/FileSys/Tests.antt =====
-- Examples of the file system, on an image with the files "a" (empty) and "b" ("hello").
use os.Prelude.{
  ℕ, zero, suc, ◌+◌, ◌≢◌, ◌∙◌, sym, false, ◌<◌, ◌≡◌, refl, arith, List, [], ◌∷◌, Bytes, update, pos,
  minus_one, some, ltb, leb, min, if◌then◌else◌, ◌==◌, ◌||◌, int32,
}
use os.FileSys.{
  FileSys, Dentry, read_data, read_dentry_by_name, fill_dentry, inode_length, fname_size, dentry_at,
}
use os.FileSys.Names.{name_at, read_dentry_by_name-found, read_dentry_by_name-missing}
use os.FileSys.Data.{file_byte, read_data_lem}
use os.Strings.Compare.{HoldsBytes, c_string, c_string_from}

abbrev write_all : List (ℕ × ℕ) → Bytes → Bytes
write_all [] m = m
write_all ((a, v) ∷ rest) m = write_all rest (update m a v)

-- Two directory entries at 64 and 128, inode 1 at 8192, and its data block at 16384.
abbrev image : Bytes
image =
    write_all
      ((64, 97)
        ∷ (96, 2)
        ∷ (100, 2)
        ∷ (128, 98)
        ∷ (160, 2)
        ∷ (164, 1)
        ∷ (8192, 5)
        ∷ (16384, 104)
        ∷ (16385, 101)
        ∷ (16386, 108)
        ∷ (16387, 108)
        ∷ (16388, 111)
        ∷ [])
      (λ _. 0)

abbrev disk : FileSys
disk = record {
  mem = image;
  num_dentry = 2;
  num_inodes = 3;
  num_data_blocks = 1;
  dentry_start = 64;
  inode_start = 4096;
  datablk_start = 16384;
  read_dir_index = 0;
}

abbrev no_dentry : Dentry
no_dentry = record { fname = λ _. 0; ftype = 0; inode = 0; reserved = λ _. 0 }

abbrev named : ℕ → Bytes
named c = update (λ _. 0) 0 c

image-HoldsBytes : HoldsBytes image
image-HoldsBytes i = ground arith

named_b-HoldsBytes : HoldsBytes (named 98)
named_b-HoldsBytes i = ground arith

named_c-HoldsBytes : HoldsBytes (named 99)
named_c-HoldsBytes i = ground arith

read_data_lem_example : read_data disk 1 1 (some (λ _. 7)) 3 ≡ (
    if 1 == 0 || leb 3 1
    then (minus_one, some (λ _. 7))
    else if leb (inode_length disk 1) 1
    then (pos 0, some (λ _. 7))
    else (
      int32 (min 3 (inode_length disk 1)),
      some (λ k. if ltb k (min 3 (inode_length disk 1)) then file_byte disk 1 (1 + k) else 7),
    ))
read_data_lem_example = read_data_lem disk 1 1 (λ _. 7) 3

asked : (c : ℕ) → (c == 0) ≡ false → c_string fname_size (named c) ≡ c ∷ []
unfolding c_string c_string_from
asked c h = rw h refl

first_name : c_string fname_size (name_at disk 0) ≡ 97 ∷ []
unfolding c_string c_string_from dentry_at
first_name = refl

second_name : c_string fname_size (name_at disk 1) ≡ 98 ∷ []
unfolding c_string c_string_from dentry_at
second_name = refl

no_earlier : (j : ℕ) → j < 1 → c_string fname_size (named 98) ≢ c_string fname_size (name_at disk j)
no_earlier zero h = ground (arith, asked 98 refl, first_name)
no_earlier (suc j) h = absurd (omega arith)

no_entry : (j : ℕ) → j < 2 → c_string fname_size (named 99) ≢ c_string fname_size (name_at disk j)
no_entry zero h = ground (arith, asked 99 refl, first_name)
no_entry (suc zero) h = ground (arith, asked 99 refl, second_name)
no_entry (suc (suc j)) h = absurd (omega arith)

read_dentry_by_name-found_example :
    read_dentry_by_name disk (named 98) no_dentry ≡ (pos 0, fill_dentry disk 1 no_dentry)
read_dentry_by_name-found_example =
    read_dentry_by_name-found disk (named 98) no_dentry image-HoldsBytes named_b-HoldsBytes 1
      (omega arith) (asked 98 refl ∙ sym second_name) no_earlier

read_dentry_by_name-missing_example :
    read_dentry_by_name disk (named 99) no_dentry ≡ (minus_one, no_dentry)
read_dentry_by_name-missing_example =
    read_dentry_by_name-missing disk (named 99) no_dentry image-HoldsBytes named_c-HoldsBytes
      no_entry
