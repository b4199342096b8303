-- ===== src/Command/Tests.antt =====
-- Examples of command lines.
use os.Prelude.{ℕ, ◌≤◌, ◌<◌, ◌≡◌, refl, arith, some, Bytes, update}
use os.Strings.{strlen, strlen_from}
use os.Command.{Command, cmd_limit, parse}
use os.Command.Parse.{first_word, after_word, without_spaces, parse_lem}
use os.Strings.Chars.{chars, length}
use os.Command.Args.{Gives, getargs-parse}

-- "a b c"
abbrev line : Bytes
line = update (update (update (update (update (λ _. 0) 0 97) 1 32) 2 98) 3 32) 4 99

abbrev old_command : Command
old_command = record { in_file = λ _. 7; v_addr = λ _. 7; arg_size = 7; arg_buf = λ _. 7 }

line_length : strlen 200 line ≡ some 5
unfolding strlen strlen_from
line_length = refl

buffer_length : strlen 200 (λ _. 0) ≡ some 0
unfolding strlen strlen_from
buffer_length = refl

parse_lem_example :
    let text = chars 5 0 line in
    let args = without_spaces (after_word text) in
    (c' : Command) × (parse 200 line old_command ≡ some c')
    × (chars (length (first_word text)) 0 c'.in_file ≡ first_word text)
    × (c'.in_file (length (first_word text)) ≡ 0)
    × (c'.arg_size ≡ length args)
    × (chars (length args) 0 c'.arg_buf ≡ args)
    × ((k : ℕ) → length args ≤ k → k < cmd_limit → c'.arg_buf k ≡ 0)
parse_lem_example = parse_lem 200 5 line old_command line_length (omega arith)

getargs-parse_example :
    (c' : Command) × (parse 200 line old_command ≡ some c')
    × Gives 200 c' (λ _. 0) (without_spaces (after_word (chars 5 0 line)))
getargs-parse_example =
    getargs-parse 200 5 0 line (λ _. 0) old_command line_length (omega arith) (omega arith)
      buffer_length
