-- ===== src/Strings/Copying.antt =====
-- What the copying functions of lib.c leave in memory.
use os.Prelude.{ℕ, ◌≡◌, arith, ltb, if◌then◌else◌, Bytes, count_up_writes}
use os.Strings.{copy_bytes, memset}

pub copy_bytes_lem :
    (n : ℕ) (src dest : Bytes) (k : ℕ)
    → copy_bytes n src dest k ≡ (if ltb k n then src k else dest k)
unfolding copy_bytes
copy_bytes_lem n src dest k = ground (arith, count_up_writes (λ i _. src i) n 0 dest k)

pub memset_lem : (s : Bytes) (c n k : ℕ) → memset s c n k ≡ (if ltb k n then c else s k)
unfolding memset
memset_lem s c n k = ground (arith, count_up_writes (λ _ _. c) n 0 s k)
