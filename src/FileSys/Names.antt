-- ===== src/FileSys/Names.antt =====
-- `read_dentry_by_name` and `read_dentry_by_index` against the names that the directory holds.
use os.Prelude.{
  ℕ, zero, suc, ◌+◌, ◌<◌, ◌≤◌, ◌≡◌, ◌≢◌, refl, arith, ◌==◌, if◌then◌else◌, Bytes, ℤ, pos, negsuc,
  minus_one, rounds, ltb, Bool-cases, inl, inr, true,
}
use os.Strings.{strncmp}
use os.Strings.Compare.{c_string, HoldsBytes, strncmp-eq-zero}
use os.Strings.Copying.{copy_bytes_lem}
use os.FileSys.{
  FileSys, Dentry, dentry_at, fill_dentry, find_dentry, read_dentry_by_name, fname_size,
  reserved_size, is_zero,
}

-- The name in entry `i`: its bytes up to a NUL, all 32 where there is none.
abbrev pub name_at : FileSys → ℕ → Bytes
name_at fs i = (dentry_at fs i).fname

is_zero-eq : (z : ℤ) → is_zero z ≡ true → z ≡ pos 0
is_zero-eq (pos zero) e = refl
is_zero-eq (pos (suc n)) e = cc
is_zero-eq (negsuc n) e = cc

module _ (fs : FileSys) (fname : Bytes) (dentry : Dentry) (mem_bytes : HoldsBytes fs.mem)
    (fname_bytes : HoldsBytes fname) where
  name_test :
      (i : ℕ)
      → is_zero (strncmp fname (name_at fs i) fname_size) ≡ true
      → c_string fname_size fname ≡ c_string fname_size (name_at fs i)
  unfolding dentry_at
  name_test i e =
      (strncmp-eq-zero fname_size fname (name_at fs i) fname_bytes (λ k. mem_bytes _)).0
        (is_zero-eq _ e)

  name_hit :
      (i : ℕ)
      → c_string fname_size fname ≡ c_string fname_size (name_at fs i)
      → is_zero (strncmp fname (name_at fs i) fname_size) ≡ true
  unfolding dentry_at
  name_hit i e =
      rw ((strncmp-eq-zero fname_size fname (name_at fs i) fname_bytes (λ k. mem_bytes _)).1 e)

  find_dentry-found :
      (n start i : ℕ)
      → start ≤ i
      → i < start + n
      → c_string fname_size fname ≡ c_string fname_size (name_at fs i)
      → ((j : ℕ) → j < i → c_string fname_size fname ≢ c_string fname_size (name_at fs j))
      → find_dentry n start fs fname dentry ≡ (pos 0, fill_dentry fs i dentry)
  unfolding find_dentry
  find_dentry-found zero start i lo hi hit earlier = absurd (omega arith)
  find_dentry-found (suc n) start i lo hi hit earlier = elim (Bool-cases (start == i)) [
    | inl here ↦ ground (arith, name_hit i hit)
    | inr later ↦ ground (arith, name_test start, earlier start, find_dentry-found n (start + 1) i)
  ]

  find_dentry-missing :
      (n start : ℕ)
      → ((j : ℕ) → j < start + n → c_string fname_size fname ≢ c_string fname_size (name_at fs j))
      → find_dentry n start fs fname dentry ≡ (minus_one, dentry)
  unfolding find_dentry
  find_dentry-missing zero start none_named = refl
  find_dentry-missing (suc n) start none_named = ground (
    arith,
    name_test start,
    none_named start,
    find_dentry-missing n (start + 1) (λ j h. none_named j (omega arith)),
  )

  -- `read_dentry_by_name` returns 0 and fills `*dentry` from the first entry whose name is the string
  -- asked for, cut to 32 characters, where memory holds bytes.
  pub read_dentry_by_name-found :
      (i : ℕ)
      → i < rounds fs.num_dentry
      → c_string fname_size fname ≡ c_string fname_size (name_at fs i)
      → ((j : ℕ) → j < i → c_string fname_size fname ≢ c_string fname_size (name_at fs j))
      → read_dentry_by_name fs fname dentry ≡ (pos 0, fill_dentry fs i dentry)
  unfolding read_dentry_by_name
  read_dentry_by_name-found i h hit earlier =
      find_dentry-found (rounds fs.num_dentry) 0 i (omega arith) (omega arith) hit earlier

  -- `read_dentry_by_name` returns -1 and leaves `*dentry` alone where no entry has the name
  -- and memory holds bytes.
  pub read_dentry_by_name-missing :
      ((j : ℕ)
        → j < rounds fs.num_dentry
        → c_string fname_size fname ≢ c_string fname_size (name_at fs j))
      → read_dentry_by_name fs fname dentry ≡ (minus_one, dentry)
  unfolding read_dentry_by_name
  read_dentry_by_name-missing none_named =
      find_dentry-missing (rounds fs.num_dentry) 0 (λ j h. none_named j (omega arith))

-- The 32 bytes of the name, the type, the inode and the 24 reserved bytes of entry `i` reach the
-- caller's `dentry_t`.
pub fill_dentry_fields :
    (fs : FileSys) (i : ℕ) (dentry : Dentry) (k : ℕ)
    → ((fill_dentry fs i dentry).fname k
        ≡ (if ltb k fname_size then (dentry_at fs i).fname k else dentry.fname k))
      × ((fill_dentry fs i dentry).reserved k
          ≡ (if ltb k reserved_size then (dentry_at fs i).reserved k else dentry.reserved k))
      × ((fill_dentry fs i dentry).ftype ≡ (dentry_at fs i).ftype)
      × ((fill_dentry fs i dentry).inode ≡ (dentry_at fs i).inode)
unfolding fill_dentry
fill_dentry_fields fs i dentry k =
    (copy_bytes_lem fname_size _ _ k, copy_bytes_lem reserved_size _ _ k, refl, refl)
