-- ===== src/Strings/Tests.antt =====
-- Examples of the string functions.
use os.Prelude.{ℕ, ◌≤◌, ◌<◌, ◌^◌, arith}
use os.Strings.{itoa}
use os.Strings.Numbers.{Reads, itoa_lem}

itoa_lem_example :
    (n : ℕ) × (n ≤ 33)
    × ((k : ℕ) → 0 < k → 48879 < 16 ^ k → n ≤ k)
    × Reads 16 48879 (itoa 48879 (λ _. 7) 16) n
itoa_lem_example = itoa_lem 48879 16 (λ _. 7) (omega arith) (omega arith) (omega arith)
