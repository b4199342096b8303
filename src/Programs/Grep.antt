-- ===== src/Programs/Grep.antt =====
-- syscalls/ece391grep.c: the lines of the files that hold a string.
pub mod Matches
pub mod Shows
pub mod Lines
pub mod Moves
pub mod Rounds
pub mod File
mod Tests
use os.Prelude.{
  ℕ, zero, suc, ◌+◌, ◌-◌, Bool, true, false, not, ◌&&◌, Option, none, some, ◌==◌, leb,
  if◌then◌else◌, Bytes, List, [], ◌∷◌, update, ℤ, pos, negsuc, minus_one,
}
use os.Strings.{strlen}
use os.FileSys.{Dentry, is_minus_one, is_zero}
use os.Process.{close, open_file}
use os.Command.{Command, getargs, or_else}
use os.System.{System, read}
use os.Kernel.{nth}
use os.Programs.{open_call, fail_with, open_failed, read_failed, sbufsize}
use os.Programs.Support.{fdputs, ece391_strncmp, ece391_strcpy}

-- What grep says, and what stands between the parts of a line that it prints.
abbrev pub file_open_failed : List ℕ
file_open_failed =
    b'f' ∷ b'i' ∷ b'l' ∷ b'e' ∷ b' ' ∷ b'o' ∷ b'p' ∷ b'e' ∷ b'n' ∷ b' ' ∷ b'f' ∷ b'a' ∷ b'i' ∷ b'l'
    ∷ b'e' ∷ b'd' ∷ b'\n' ∷ []

abbrev pub file_read_failed : List ℕ
file_read_failed =
    b'f' ∷ b'i' ∷ b'l' ∷ b'e' ∷ b' ' ∷ b'r' ∷ b'e' ∷ b'a' ∷ b'd' ∷ b' ' ∷ b'f' ∷ b'a' ∷ b'i' ∷ b'l'
    ∷ b'e' ∷ b'd' ∷ b'\n' ∷ []

abbrev pub file_close_failed : List ℕ
file_close_failed =
    b'f' ∷ b'i' ∷ b'l' ∷ b'e' ∷ b' ' ∷ b'c' ∷ b'l' ∷ b'o' ∷ b's' ∷ b'e' ∷ b' ' ∷ b'f' ∷ b'a' ∷ b'i'
    ∷ b'l' ∷ b'e' ∷ b'd' ∷ b'\n' ∷ []

abbrev pub no_argument : List ℕ
no_argument =
    b'c' ∷ b'o' ∷ b'u' ∷ b'l' ∷ b'd' ∷ b' ' ∷ b'n' ∷ b'o' ∷ b't' ∷ b' ' ∷ b'r' ∷ b'e' ∷ b'a' ∷ b'd'
    ∷ b' ' ∷ b'a' ∷ b'r' ∷ b'g' ∷ b'u' ∷ b'm' ∷ b'e' ∷ b'n' ∷ b't' ∷ b'\n' ∷ []

abbrev pub colon : List ℕ
colon = b':' ∷ []

abbrev pub line_feed : List ℕ
line_feed = b'\n' ∷ []

abbrev pub bufsize : ℕ
bufsize = 1024

-- The string to look for, the name of the file, and the fuel of the loops over strings.
pub record Job : Type 0 where
  pub pattern : Bytes
  pub fname : Bytes
  pub fuel : ℕ

-- The place of the line feed, or `last`: `left` places from `line_end` on are still to be looked at.
unfoldable pub find_end : ℕ → ℕ → Bytes → ℕ
find_end zero line_end buf = line_end
find_end (suc left) line_end buf =
    let rest = find_end left (line_end + 1) buf in if buf line_end == b'\n' then line_end else rest

-- Four texts in turn.
unfoldable pub print_line : Job → Bytes → System → Option System
unfolding fdputs
print_line job line s = elim (fdputs job.fuel job.fname s) [
  | none ↦ none
  | some s1 ↦ elim (fdputs job.fuel (nth colon) s1) [
    | none ↦ none
    | some s2 ↦ elim (fdputs job.fuel line s2) [
      | none ↦ none
      | some s3 ↦ fdputs job.fuel (nth line_feed) s3
    ]
  ]
]

-- The line from `line_start` on is searched, from `check` on with `left` places to go, and printed where
-- the string is found first.
unfoldable pub search_line : Job → ℕ → ℕ → ℕ → ℕ → Bytes → System → Option System
unfolding ece391_strncmp print_line
search_line job s_len zero check line_start buf s = some s
search_line job s_len (suc left) check line_start buf s =
    let rest = search_line job s_len left (check + 1) line_start buf s in
    if job.pattern 0 == buf check
      && is_zero (ece391_strncmp (λ k. buf (check + k)) job.pattern s_len)
    then print_line job (λ k. buf (line_start + k)) s
    else rest

-- The body of the loop over the lines in the buffer, for the line from `line_start` to `line_end`: the new
-- `last`, the buffer and the system. A last line that has no line feed yet is moved to the front. `next` is
-- the loop from another line on.
unfoldable pub one_line :
    Job
    → ℕ
    → ℕ
    → ℕ
    → ℕ
    → ℕ
    → (ℕ → Bytes → System → Option (ℕ × Bytes × System))
    → Bytes
    → System
    → Option (ℕ × Bytes × System)
unfolding search_line ece391_strcpy
one_line job s_len cnt last line_start line_end next buf s =
    let ended = update buf line_end 0 in
    let moved : Option (ℕ × Bytes × System) = elim (ece391_strcpy job.fuel 0 line_start ended) [
      | none ↦ none
      | some kept ↦ some (last - line_start, kept, s)
    ] in
    let searched : Option (ℕ × Bytes × System) =
      elim (search_line job s_len (line_end - line_start) line_start line_start ended s) [
        | none ↦ none
        | some s' ↦
            let more = next (line_end + 1) ended s' in
            if leb last (line_end + 1) then some (0, ended, s') else more
      ] in
    if not (buf line_end == b'\n') && not (cnt == 0) && not (line_start == 0)
    then moved
    else searched

-- The loop, with `rounds` left. `cnt` is what the read returned.
unfoldable pub search_lines : Job → ℕ → ℕ → ℕ → ℕ → ℕ → Bytes → System → Option (ℕ × Bytes × System)
unfolding find_end one_line
search_lines job s_len zero cnt last line_start buf s = none
search_lines job s_len (suc rounds) cnt last line_start buf s =
    one_line job s_len cnt last line_start (find_end (last - line_start) line_start buf)
      (search_lines job s_len rounds cnt last) buf s

-- What a read puts behind the `last` characters that are there.
abbrev pub after_last : ℕ → Bytes → Bytes → Bytes
after_last last buf part k = if leb last k then part (k - last) else buf k

-- A message, and the result -1.
unfoldable pub fail_file : ℕ → List ℕ → System → Option (ℤ × System)
unfolding fdputs
fail_file fuel text s = elim (fdputs fuel (nth text) s) [
  | none ↦ none
  | some s' ↦ some (minus_one, s')
]

unfoldable pub close_file : Job → ℤ → System → Option (ℤ × System)
unfolding fail_file close
close_file job fd s =
    let (r, p) = close fd s.processes in
    let s' = record s { processes = p } in
    let failed = fail_file job.fuel file_close_failed s' in
    if is_minus_one r then failed else some (pos 0, s')

-- The loop over the reads of a file, with `rounds` left. A buffer of `last'` characters has at most as
-- many lines. A read gives no negative number but -1.
unfoldable pub file_loop : ℕ → Job → ℕ → Dentry → ℤ → ℕ → Bytes → System → Option (ℤ × System)
unfolding read search_lines close_file fail_file
file_loop zero job s_len stack fd last buf s = none
file_loop (suc rounds) job s_len stack fd last buf s =
    elim (read job.fuel stack fd (λ k. buf (last + k)) (bufsize - last) s) [
      | none ↦ none
      | some (cnt, part, s1) ↦ elim cnt [
        | pos n ↦
            let last' = last + n in
            elim (search_lines job s_len (last' + 1) n last' 0 (after_last last buf part) s1) [
              | none ↦ none
              | some (kept, buf', s2) ↦
                  let more = file_loop rounds job s_len stack fd kept buf' s2 in
                  let closed = close_file job fd s2 in if n == 0 then closed else more
            ]
        | negsuc _ ↦ fail_file job.fuel file_read_failed s1
      ]
    ]

unfoldable pub do_one_file : ℕ → Job → Dentry → Bytes → System → Option (ℤ × System)
unfolding strlen file_loop fail_file
do_one_file rounds job stack buf s = elim (strlen job.fuel job.pattern) [
  | none ↦ none
  | some s_len ↦
      let (fd, s') = open_call stack job.fname s in
      let failed = fail_file job.fuel file_open_failed s' in
      let read_it = file_loop rounds job s_len stack fd 0 buf s' in
      if is_minus_one fd then failed else read_it
]

-- The loop over the directory, with `rounds` left, and as many for the reads of a file; `local` is what
-- the buffer of `do_one_file` holds when it is entered.
unfoldable pub grep_loop :
    ℕ → ℕ → ℕ → Dentry → Bytes → ℤ → Bytes → Bytes → System → Option (ℕ × System)
unfolding read do_one_file fail_with
grep_loop zero reads fuel stack local fd search buf s = none
grep_loop (suc rounds) reads fuel stack local fd search buf s =
    elim (read fuel stack fd buf (sbufsize - 1) s) [
      | none ↦ none
      | some (cnt, buf', s1) ↦ elim cnt [
        | pos n ↦
            let name = update buf' n 0 in
            let job : Job = record { pattern = search; fname = name; fuel = fuel } in
            let skipped = grep_loop rounds reads fuel stack local fd search buf' s1 in
            let searched : Option (ℕ × System) = elim (do_one_file reads job stack local s1) [
              | none ↦ none
              | some (r, s2) ↦
                  let more = grep_loop rounds reads fuel stack local fd search name s2 in
                  if is_zero r then more else some (3, s2)
            ] in
            if n == 0 then some (0, s1) else if buf' 0 == b'.' then skipped else searched
        | negsuc _ ↦ fail_with fuel read_failed 3 s1
      ]
    ]

-- `main`; the arguments of the command `c` are those that the program is given.
unfoldable pub grep :
    ℕ → ℕ → ℕ → Dentry → Command → Bytes → Bytes → Bytes → System → Option (ℕ × System)
unfolding grep_loop open_file fail_with getargs
grep rounds reads fuel stack c local search buf s = elim (getargs fuel c (some search)) [
  | none ↦ none
  | some (r, kept) ↦
      let (fd, s') = open_call stack (nth (b'.' ∷ [])) s in
      let opened =
        if is_minus_one fd
        then fail_with fuel open_failed 2 s'
        else grep_loop rounds reads fuel stack local fd (or_else kept search) buf s' in
      if is_zero r then opened else fail_with fuel no_argument 3 s
]
