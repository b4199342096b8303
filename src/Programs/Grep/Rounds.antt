-- ===== src/Programs/Grep/Rounds.antt =====
-- The lines in the buffer of grep, in turn.
use os.Prelude.{
  ℕ, suc, ◌+◌, ◌-◌, ◌<◌, ◌≤◌, ◌≡◌, ◌≢◌, refl, arith, true, false, zero, not, ◌&&◌, ◌⊎◌, Bytes, List,
  [], ◌∷◌, ◌++◌, update, some, Option, ap, ◌∙◌, ◌==◌, if◌then◌else◌, Bool-cases, inl, inr, leb,
}
use os.Strings.Chars.{length}
use os.Screen.{puts_scroll}
use os.Command.Args.{NoNul}
use os.Kernel.{nth}
use os.System.{System}
use os.Programs.Calls.{Prints}
use os.Programs.Support.Texts.{HoldsString, IsString, nth-end}
use os.Programs.Grep.{Job, search_line, search_lines, find_end, one_line}
use os.Programs.Grep.Lines.{
  text_of, NoFeed, AreLines, if_found, found_lines, HoldsChars, length-append, nth-left, nth-right,
  find_end_lem, find_end-NoFeed, nothing_found,
}
use os.Programs.Grep.Moves.{strcpy-Moved, front}
use os.Programs.Grep.Matches.{contains, search_line_lem}
use os.Programs.Grep.Shows.{Shown, Shown-trans, Prints-Shown, Printable, print_line_lem}

-- One line, and the place behind its line feed.
pub record Taken (name pattern l : List ℕ) (job : Job) (start : ℕ) (buf : Bytes) (s : System)
    : Type 0 where
  pub after : System
  pub searched :
      search_line job (length pattern) (length l) start start (update buf (start + length l) 0) s
      ≡ some after
  pub shown : Shown (if_found name pattern l) s after

pub Shown-here : (s : System) → Shown [] s s
unfolding puts_scroll
Shown-here s = record { processes = refl; file_sys = refl; screen = refl }

first_line :
    (l rest : List ℕ) (start : ℕ) (buf : Bytes)
    → HoldsChars (l ++ (b'\n' ∷ rest)) start buf
    → HoldsChars l start buf
first_line l rest start buf holds k low =
    let size = length-append l (b'\n' ∷ rest) in
    holds k (omega arith) ∙ nth-left l (b'\n' ∷ rest) k low

other_lines :
    (l rest : List ℕ) (start : ℕ) (buf : Bytes)
    → HoldsChars (l ++ (b'\n' ∷ rest)) start buf
    → HoldsChars rest (start + length l + 1) (update buf (start + length l) 0)
other_lines l rest start buf holds k low =
    let size = length-append l (b'\n' ∷ rest) in
    let at : start + length l + 1 + k ≡ start + (length l + suc k) = omega arith in
    let there = holds (length l + suc k) (omega arith) ∙ nth-right l (b'\n' ∷ rest) (suc k) in
    ground (arith, at, there)

-- What the loop over the lines leaves: either all lines are searched, or the last one, which has no line
-- feed, is kept for the next read.
pub record Outcome (name pattern : List ℕ) (ls : List (List ℕ)) (tail : List ℕ) (cnt : ℕ)
    (s : System) (result : Option (ℕ × Bytes × System)) : Type 0 where
  pub kept : ℕ
  pub buf' : Bytes
  pub after : System
  pub done : result ≡ some (kept, buf', after)
  pub either :
      ((kept ≡ 0) × Shown (found_lines name pattern ls tail) s after)
      ⊎ ((cnt ≢ 0)
          × (kept ≡ length tail)
          × IsString tail buf'
          × Shown (found_lines name pattern ls []) s after)

module _ (name : List ℕ) (p : ℕ) (ps : List ℕ) (job : Job) (enough : 2 ≤ job.fuel)
    (n : Printable job.fuel name) (is_name : IsString name job.fname) (clean : NoNul (p ∷ ps))
    (is_pattern : IsString (p ∷ ps) job.pattern) where
  take_one :
      (l : List ℕ) (start : ℕ) (buf : Bytes) (s : System)
      → Printable job.fuel l
      → HoldsChars l start buf
      → Prints s
      → Taken name (p ∷ ps) l job start buf s
  take_one l start buf s can holds prints =
      let m = update buf (start + length l) 0 in
      let line : HoldsString l start m = λ k low. ground (arith, holds k, nth-end l) in
      let searched = search_line_lem p ps l job start start m s clean can.clean is_pattern line in
      elim (Bool-cases (contains (p ∷ ps) l)) [
        | inl there ↦
            let (s', done, shown) =
              print_line_lem name l job (λ k. m (start + k)) s enough n can is_name line prints in
            record {
              after = s';
              searched = searched ∙ rw (there, done) refl;
              shown = rw there shown;
            }
        | inr gone ↦ record {
          after = s;
          searched = searched ∙ rw gone refl;
          shown = rw gone (Shown-here s);
        }
      ]

  -- A round of the loop, for a line with its line feed. `rest` is what comes after.
  one_round :
      (l rest : List ℕ) (rounds cnt last start : ℕ) (buf : Bytes) (s : System)
      → NoFeed l
      → HoldsChars (l ++ (b'\n' ∷ rest)) start buf
      → last ≡ start + length (l ++ (b'\n' ∷ rest))
      → (t : Taken name (p ∷ ps) l job start buf s)
      → let next = start + length l + 1 in
        let ended = update buf (start + length l) 0 in
        search_lines job (length (p ∷ ps)) (suc rounds) cnt last start buf s ≡ (
          if leb last next
          then some (0, ended, t.after)
          else search_lines job (length (p ∷ ps)) rounds cnt last next ended t.after)
  unfolding search_lines
  one_round l rest rounds cnt last start buf s plain holds whole t =
      let size = length-append l (b'\n' ∷ rest) in
      let feed : buf (start + length l) ≡ b'\n' =
        holds (length l) (omega arith)
        ∙ ap (nth (l ++ (b'\n' ∷ rest))) (omega arith)
        ∙ nth-right l (b'\n' ∷ rest) 0 in
      let e : find_end (last - start) start buf ≡ start + length l =
        find_end_lem l (last - start) start buf plain (omega arith)
          (first_line l rest start buf holds) feed in
      let is_feed : (buf (start + length l) == b'\n') ≡ true = ground (arith, feed) in
      let all : start + length l - start ≡ length l = omega arith in
      let loop = search_lines job (length (p ∷ ps)) rounds cnt last in
      let body : ℕ → Option (ℕ × Bytes × System) =
        λ line_end. one_line job (length (p ∷ ps)) cnt last start line_end loop buf s in
      let next = start + length l + 1 in
      let ended = update buf (start + length l) 0 in
      let found : body (start + length l)
          ≡ (if leb last next then some (0, ended, t.after) else loop next ended t.after) =
        rw (is_feed, all, t.searched, one_line) refl in
      ap body e ∙ found

  -- The last line, without a line feed.
  tail_round :
      (tail : List ℕ) (rounds cnt last start : ℕ) (buf : Bytes) (s : System)
      → NoFeed tail
      → Printable job.fuel tail
      → HoldsChars tail start buf
      → last ≡ start + length tail
      → Prints s
      → Outcome name
          (p ∷ ps)
          []
          tail
          cnt
          s
          (search_lines job (length (p ∷ ps)) (suc rounds) cnt last start buf s)
  unfolding search_lines
  tail_round tail rounds cnt last start buf s plain can holds whole prints =
      let t = take_one tail start buf s can holds prints in
      let left : last - start ≡ length tail = omega arith in
      let found : find_end (last - start) start buf ≡ start + length tail =
        ap (λ n. find_end n start buf) left ∙ find_end-NoFeed tail start buf plain holds in
      let all : start + length tail - start ≡ length tail = omega arith in
      let over : leb last (start + length tail + 1) ≡ true = ground arith in
      let loop = search_lines job (length (p ∷ ps)) rounds cnt last in
      let body : ℕ → Option (ℕ × Bytes × System) =
        λ line_end. one_line job (length (p ∷ ps)) cnt last start line_end loop buf s in
      let ended = update buf (start + length tail) 0 in
      let line : HoldsString tail start ended = λ k low. ground (arith, holds k, nth-end tail) in
      let moved =
        strcpy-Moved tail job.fuel 0 start ended can.enough (omega arith) can.clean line in
      elim (Bool-cases
        (not (buf (start + length tail) == b'\n') && not (cnt == 0) && not (start == 0))) [
          | inl on ↦
              let kept : body (start + length tail) ≡ some (last - start, moved.kept, s) =
                rw (on, moved.done, one_line) refl in
              record {
                kept = last - start;
                buf' = moved.kept;
                after = s;
                done = ap body found ∙ kept;
                either = inr (
                  (λ z. ground (arith, on, z)),
                  left,
                  front tail moved.kept moved.holds,
                  Shown-here s,
                );
              }
          | inr off ↦
              let searched : body (start + length tail) ≡ some (0, ended, t.after) =
                rw (off, all, t.searched, over, one_line) refl in
              record {
                kept = 0;
                buf' = ended;
                after = t.after;
                done = ap body found ∙ searched;
                either = inl (refl, t.shown);
              }
        ]

  -- Whole lines are searched in turn, whatever the read has returned, and then the last one.
  pub search_lines_lem :
      (ls : List (List ℕ)) (tail : List ℕ) (rounds cnt last start : ℕ) (buf : Bytes) (s : System)
      → length ls < rounds
      → AreLines job.fuel ls tail
      → HoldsChars (text_of ls tail) start buf
      → last ≡ start + length (text_of ls tail)
      → Prints s
      → Outcome name
          (p ∷ ps)
          ls
          tail
          cnt
          s
          (search_lines job (length (p ∷ ps)) rounds cnt last start buf s)
  search_lines_lem ls tail zero cnt last start buf s few lines holds whole prints =
      absurd (omega arith)
  search_lines_lem [] tail (suc rounds) cnt last start buf s few (plain, can) holds whole prints =
      tail_round tail rounds cnt last start buf s plain can holds whole prints
  search_lines_lem (l ∷ ls) tail (suc rounds) cnt last start buf s few (plain, can, more) holds
        whole prints =
      let rest = text_of ls tail in
      let size = length-append l (b'\n' ∷ rest) in
      let t = take_one l start buf s can (first_line l rest start buf holds) prints in
      let round = one_round l rest rounds cnt last start buf s plain holds whole t in
      elim (Bool-cases (length rest == 0)) [
        | inl none_left ↦
            let over : leb last (start + length l + 1) ≡ true = ground (arith, none_left) in
            let nothing = nothing_found name (p ∷ ps) ls tail (ground (arith, none_left)) in
            record {
              kept = 0;
              buf' = update buf (start + length l) 0;
              after = t.after;
              done = rw over at round;
              either = inl (
                refl,
                rw nothing (Shown-trans _ [] s t.after t.after t.shown (Shown-here t.after)),
              );
            }
        | inr some_left ↦
            let on : leb last (start + length l + 1) ≡ false = ground (arith, some_left) in
            let o =
              search_lines_lem ls tail rounds cnt last (start + length l + 1)
                (update buf (start + length l) 0) t.after (omega arith) more
                (other_lines l rest start buf holds) (omega arith)
                (Prints-Shown _ s t.after t.shown prints) in
            record {
              kept = o.kept;
              buf' = o.buf';
              after = o.after;
              done = (rw on at round) ∙ o.done;
              either = elim o.either [
                | inl (z, shown) ↦ inl (z, Shown-trans _ _ s t.after o.after t.shown shown)
                | inr (read, e, line, shown) ↦
                    inr (read, e, line, Shown-trans _ _ s t.after o.after t.shown shown)
              ];
            }
      ]
