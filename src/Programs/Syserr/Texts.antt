-- ===== src/Programs/Syserr/Texts.antt =====
-- syscalls/ece391syserr.c: what the program says.
use os.Prelude.{ℕ, List, [], ◌∷◌}

abbrev pub prompt_text : List ℕ
prompt_text =
    b'C' ∷ b'h' ∷ b'o' ∷ b'o' ∷ b's' ∷ b'e' ∷ b' ' ∷ b'f' ∷ b'r' ∷ b'o' ∷ b'm' ∷ b' ' ∷ b't' ∷ b'e'
    ∷ b's' ∷ b't' ∷ b's' ∷ b' ' ∷ b'1' ∷ b'-' ∷ b'8' ∷ b'.' ∷ b' ' ∷ b'0' ∷ b' ' ∷ b't' ∷ b'o'
    ∷ b' ' ∷ b'r' ∷ b'u' ∷ b'n' ∷ b' ' ∷ b'a' ∷ b'l' ∷ b'l' ∷ b':' ∷ b' ' ∷ []

abbrev pub cannot_read : List ℕ
cannot_read =
    b'C' ∷ b'a' ∷ b'n' ∷ b'\'' ∷ b't' ∷ b' ' ∷ b'r' ∷ b'e' ∷ b'a' ∷ b'd' ∷ b' ' ∷ b't' ∷ b'e' ∷ b's'
    ∷ b't' ∷ b' ' ∷ b'#' ∷ b'\n' ∷ []

abbrev pub invalid_test : List ℕ
invalid_test =
    b'I' ∷ b'n' ∷ b'v' ∷ b'a' ∷ b'l' ∷ b'i' ∷ b'd' ∷ b' ' ∷ b't' ∷ b'e' ∷ b's' ∷ b't' ∷ b' ' ∷ b'n'
    ∷ b'u' ∷ b'm' ∷ b'b' ∷ b'e' ∷ b'r' ∷ b'.' ∷ b' ' ∷ b'C' ∷ b'h' ∷ b'o' ∷ b'o' ∷ b's' ∷ b'e'
    ∷ b' ' ∷ b'f' ∷ b'r' ∷ b'o' ∷ b'm' ∷ b' ' ∷ b't' ∷ b'e' ∷ b's' ∷ b't' ∷ b's' ∷ b' ' ∷ b'1'
    ∷ b'-' ∷ b'8' ∷ b' ' ∷ b'o' ∷ b'r' ∷ b' ' ∷ b'0' ∷ []

abbrev pub read_fail : List ℕ
read_fail = b'r' ∷ b'e' ∷ b'a' ∷ b'd' ∷ b' ' ∷ b'f' ∷ b'a' ∷ b'i' ∷ b'l' ∷ b'\n' ∷ []

abbrev pub write_fail : List ℕ
write_fail = b'w' ∷ b'r' ∷ b'i' ∷ b't' ∷ b'e' ∷ b' ' ∷ b'f' ∷ b'a' ∷ b'i' ∷ b'l' ∷ b'\n' ∷ []

abbrev pub close_fail : List ℕ
close_fail = b'c' ∷ b'l' ∷ b'o' ∷ b's' ∷ b'e' ∷ b' ' ∷ b'f' ∷ b'a' ∷ b'i' ∷ b'l' ∷ b'\n' ∷ []

abbrev pub neg_fd_fail : List ℕ
neg_fd_fail =
    b'e' ∷ b'r' ∷ b'r' ∷ b'_' ∷ b'n' ∷ b'e' ∷ b'g' ∷ b'_' ∷ b'f' ∷ b'd' ∷ b':' ∷ b' ' ∷ b'F' ∷ b'A'
    ∷ b'I' ∷ b'L' ∷ b'\n' ∷ []

abbrev pub neg_fd_pass : List ℕ
neg_fd_pass =
    b'e' ∷ b'r' ∷ b'r' ∷ b'_' ∷ b'n' ∷ b'e' ∷ b'g' ∷ b'_' ∷ b'f' ∷ b'd' ∷ b':' ∷ b' ' ∷ b'P' ∷ b'A'
    ∷ b'S' ∷ b'S' ∷ b'\n' ∷ []

abbrev pub big_fd_fail : List ℕ
big_fd_fail =
    b'e' ∷ b'r' ∷ b'r' ∷ b'_' ∷ b'b' ∷ b'i' ∷ b'g' ∷ b'_' ∷ b'f' ∷ b'd' ∷ b':' ∷ b' ' ∷ b'F' ∷ b'A'
    ∷ b'I' ∷ b'L' ∷ b'\n' ∷ []

abbrev pub big_fd_pass : List ℕ
big_fd_pass =
    b'e' ∷ b'r' ∷ b'r' ∷ b'_' ∷ b'b' ∷ b'i' ∷ b'g' ∷ b'_' ∷ b'f' ∷ b'd' ∷ b':' ∷ b' ' ∷ b'P' ∷ b'A'
    ∷ b'S' ∷ b'S' ∷ b'\n' ∷ []

abbrev pub open_lots_pass : List ℕ
open_lots_pass =
    b'e' ∷ b'r' ∷ b'r' ∷ b'_' ∷ b'o' ∷ b'p' ∷ b'e' ∷ b'n' ∷ b'_' ∷ b'l' ∷ b'o' ∷ b't' ∷ b's' ∷ b':'
    ∷ b' ' ∷ b'P' ∷ b'A' ∷ b'S' ∷ b'S' ∷ b'\n' ∷ []

abbrev pub open_lots_fail : List ℕ
open_lots_fail =
    b'e' ∷ b'r' ∷ b'r' ∷ b'_' ∷ b'o' ∷ b'p' ∷ b'e' ∷ b'n' ∷ b'_' ∷ b'l' ∷ b'o' ∷ b't' ∷ b's' ∷ b':'
    ∷ b' ' ∷ b'F' ∷ b'A' ∷ b'I' ∷ b'L' ∷ b'\n' ∷ []

abbrev pub helloo_fail : List ℕ
helloo_fail =
    b'\'' ∷ b'h' ∷ b'e' ∷ b'l' ∷ b'l' ∷ b'o' ∷ b'o' ∷ b'\'' ∷ b' ' ∷ b'f' ∷ b'a' ∷ b'i' ∷ b'l'
    ∷ b'\n' ∷ []

abbrev pub shel_fail : List ℕ
shel_fail =
    b'\'' ∷ b's' ∷ b'h' ∷ b'e' ∷ b'l' ∷ b'\'' ∷ b' ' ∷ b'f' ∷ b'a' ∷ b'i' ∷ b'l' ∷ b'\n' ∷ []

abbrev pub empty_fail : List ℕ
empty_fail =
    b'e' ∷ b'm' ∷ b'p' ∷ b't' ∷ b'y' ∷ b' ' ∷ b's' ∷ b't' ∷ b'r' ∷ b'i' ∷ b'n' ∷ b'g' ∷ b' ' ∷ b'f'
    ∷ b'a' ∷ b'i' ∷ b'l' ∷ b'\n' ∷ []

abbrev pub open_fail : List ℕ
open_fail =
    b'e' ∷ b'r' ∷ b'r' ∷ b'_' ∷ b'o' ∷ b'p' ∷ b'e' ∷ b'n' ∷ b':' ∷ b' ' ∷ b'F' ∷ b'A' ∷ b'I' ∷ b'L'
    ∷ b'\n' ∷ []

abbrev pub open_pass : List ℕ
open_pass =
    b'e' ∷ b'r' ∷ b'r' ∷ b'_' ∷ b'o' ∷ b'p' ∷ b'e' ∷ b'n' ∷ b':' ∷ b' ' ∷ b'P' ∷ b'A' ∷ b'S' ∷ b'S'
    ∷ b'\n' ∷ []

abbrev pub close_unopened : List ℕ
close_unopened =
    b'c' ∷ b'l' ∷ b'o' ∷ b's' ∷ b'e' ∷ b' ' ∷ b'u' ∷ b'n' ∷ b'o' ∷ b'p' ∷ b'e' ∷ b'n' ∷ b'e' ∷ b'd'
    ∷ b' ' ∷ b'o' ∷ b'r' ∷ b' ' ∷ b'i' ∷ b'n' ∷ b'v' ∷ b'a' ∷ b'l' ∷ b'i' ∷ b'd' ∷ b' ' ∷ b'f'
    ∷ b'd' ∷ b' ' ∷ b'f' ∷ b'a' ∷ b'i' ∷ b'l' ∷ b'\n' ∷ []

abbrev pub read_unopened : List ℕ
read_unopened =
    b'r' ∷ b'e' ∷ b'a' ∷ b'd' ∷ b' ' ∷ b'f' ∷ b'r' ∷ b'o' ∷ b'm' ∷ b' ' ∷ b'u' ∷ b'n' ∷ b'o' ∷ b'p'
    ∷ b'e' ∷ b'n' ∷ b'e' ∷ b'd' ∷ b' ' ∷ b'f' ∷ b'd' ∷ b' ' ∷ b'f' ∷ b'a' ∷ b'i' ∷ b'l' ∷ b'\n' ∷ []

abbrev pub write_unopened : List ℕ
write_unopened =
    b'w' ∷ b'r' ∷ b'i' ∷ b't' ∷ b'e' ∷ b' ' ∷ b't' ∷ b'o' ∷ b' ' ∷ b'u' ∷ b'n' ∷ b'o' ∷ b'p' ∷ b'e'
    ∷ b'n' ∷ b'e' ∷ b'd' ∷ b' ' ∷ b'f' ∷ b'd' ∷ b' ' ∷ b'f' ∷ b'a' ∷ b'i' ∷ b'l' ∷ b'\n' ∷ []

abbrev pub unopened_fail : List ℕ
unopened_fail =
    b'e' ∷ b'r' ∷ b'r' ∷ b'_' ∷ b'u' ∷ b'n' ∷ b'o' ∷ b'p' ∷ b'e' ∷ b'n' ∷ b'e' ∷ b'd' ∷ b':' ∷ b' '
    ∷ b'F' ∷ b'A' ∷ b'I' ∷ b'L' ∷ b'\n' ∷ []

abbrev pub unopened_pass : List ℕ
unopened_pass =
    b'e' ∷ b'r' ∷ b'r' ∷ b'_' ∷ b'u' ∷ b'n' ∷ b'o' ∷ b'p' ∷ b'e' ∷ b'n' ∷ b'e' ∷ b'd' ∷ b':' ∷ b' '
    ∷ b'P' ∷ b'A' ∷ b'S' ∷ b'S' ∷ b'\n' ∷ []

abbrev pub null_fail : List ℕ
null_fail =
    b'N' ∷ b'u' ∷ b'l' ∷ b'l' ∷ b' ' ∷ b'p' ∷ b'o' ∷ b'i' ∷ b'n' ∷ b't' ∷ b'e' ∷ b'r' ∷ b' ' ∷ b'f'
    ∷ b'a' ∷ b'i' ∷ b'l' ∷ b'\n' ∷ []

abbrev pub kernel_fail : List ℕ
kernel_fail =
    b'K' ∷ b'e' ∷ b'r' ∷ b'n' ∷ b'e' ∷ b'l' ∷ b' ' ∷ b'p' ∷ b'o' ∷ b'i' ∷ b'n' ∷ b't' ∷ b'e' ∷ b'r'
    ∷ b' ' ∷ b'f' ∷ b'a' ∷ b'i' ∷ b'l' ∷ b' ' ∷ b'f' ∷ b'a' ∷ b'i' ∷ b'l' ∷ b'\n' ∷ []

abbrev pub vidmap_fail : List ℕ
vidmap_fail =
    b'e' ∷ b'r' ∷ b'r' ∷ b'_' ∷ b'v' ∷ b'i' ∷ b'd' ∷ b'm' ∷ b'a' ∷ b'p' ∷ b':' ∷ b' ' ∷ b'F' ∷ b'A'
    ∷ b'I' ∷ b'L' ∷ b'\n' ∷ []

abbrev pub vidmap_pass : List ℕ
vidmap_pass =
    b'e' ∷ b'r' ∷ b'r' ∷ b'_' ∷ b'v' ∷ b'i' ∷ b'd' ∷ b'm' ∷ b'a' ∷ b'p' ∷ b':' ∷ b' ' ∷ b'P' ∷ b'A'
    ∷ b'S' ∷ b'S' ∷ b'\n' ∷ []

abbrev pub stdin_fail : List ℕ
stdin_fail =
    b'w' ∷ b'r' ∷ b'i' ∷ b't' ∷ b'e' ∷ b' ' ∷ b't' ∷ b'o' ∷ b' ' ∷ b's' ∷ b't' ∷ b'd' ∷ b'i' ∷ b'n'
    ∷ b' ' ∷ b'f' ∷ b'a' ∷ b'i' ∷ b'l' ∷ b'\n' ∷ []

abbrev pub stdout_fail : List ℕ
stdout_fail =
    b'r' ∷ b'e' ∷ b'a' ∷ b'd' ∷ b' ' ∷ b'f' ∷ b'r' ∷ b'o' ∷ b'm' ∷ b' ' ∷ b's' ∷ b't' ∷ b'd' ∷ b'o'
    ∷ b'u' ∷ b't' ∷ b' ' ∷ b'f' ∷ b'a' ∷ b'i' ∷ b'l' ∷ b'\n' ∷ []

abbrev pub stdin_out_fail : List ℕ
stdin_out_fail =
    b'e' ∷ b'r' ∷ b'r' ∷ b'_' ∷ b's' ∷ b't' ∷ b'd' ∷ b'i' ∷ b'n' ∷ b'_' ∷ b'o' ∷ b'u' ∷ b't' ∷ b':'
    ∷ b' ' ∷ b'F' ∷ b'A' ∷ b'I' ∷ b'L' ∷ b'\n' ∷ []

abbrev pub stdin_out_pass : List ℕ
stdin_out_pass =
    b'e' ∷ b'r' ∷ b'r' ∷ b'_' ∷ b's' ∷ b't' ∷ b'd' ∷ b'i' ∷ b'n' ∷ b'_' ∷ b'o' ∷ b'u' ∷ b't' ∷ b':'
    ∷ b' ' ∷ b'P' ∷ b'A' ∷ b'S' ∷ b'S' ∷ b'\n' ∷ []

abbrev pub number_0_fail : List ℕ
number_0_fail =
    b's' ∷ b'y' ∷ b's' ∷ b'c' ∷ b'a' ∷ b'l' ∷ b'l' ∷ b' ' ∷ b'0' ∷ b' ' ∷ b'f' ∷ b'a' ∷ b'i' ∷ b'l'
    ∷ b'\n' ∷ []

abbrev pub big_number_fail : List ℕ
big_number_fail =
    b'b' ∷ b'i' ∷ b'g' ∷ b' ' ∷ b'n' ∷ b'u' ∷ b'm' ∷ b' ' ∷ b's' ∷ b'y' ∷ b's' ∷ b'c' ∷ b'a' ∷ b'l'
    ∷ b'l' ∷ b' ' ∷ b'f' ∷ b'a' ∷ b'i' ∷ b'l' ∷ b'\n' ∷ []

abbrev pub neg_number_fail : List ℕ
neg_number_fail =
    b'n' ∷ b'e' ∷ b'g' ∷ b' ' ∷ b'n' ∷ b'u' ∷ b'm' ∷ b' ' ∷ b's' ∷ b'y' ∷ b's' ∷ b'c' ∷ b'a' ∷ b'l'
    ∷ b'l' ∷ b' ' ∷ b'f' ∷ b'a' ∷ b'i' ∷ b'l' ∷ b'\n' ∷ []

abbrev pub syscall_num_fail : List ℕ
syscall_num_fail =
    b'e' ∷ b'r' ∷ b'r' ∷ b'_' ∷ b's' ∷ b'y' ∷ b's' ∷ b'c' ∷ b'a' ∷ b'l' ∷ b'l' ∷ b'_' ∷ b'n' ∷ b'u'
    ∷ b'm' ∷ b':' ∷ b' ' ∷ b'F' ∷ b'A' ∷ b'I' ∷ b'L' ∷ b'\n' ∷ []

abbrev pub syscall_num_pass : List ℕ
syscall_num_pass =
    b'e' ∷ b'r' ∷ b'r' ∷ b'_' ∷ b's' ∷ b'y' ∷ b's' ∷ b'c' ∷ b'a' ∷ b'l' ∷ b'l' ∷ b'_' ∷ b'n' ∷ b'u'
    ∷ b'm' ∷ b':' ∷ b' ' ∷ b'P' ∷ b'A' ∷ b'S' ∷ b'S' ∷ b'\n' ∷ []

abbrev pub overall_fail : List ℕ
overall_fail =
    b'\n' ∷ b'O' ∷ b'v' ∷ b'e' ∷ b'r' ∷ b'a' ∷ b'l' ∷ b'l' ∷ b' ' ∷ b'T' ∷ b'e' ∷ b's' ∷ b't' ∷ b's'
    ∷ b':' ∷ b' ' ∷ b'F' ∷ b'A' ∷ b'I' ∷ b'L' ∷ b'\n' ∷ []

abbrev pub overall_pass : List ℕ
overall_pass =
    b'\n' ∷ b'O' ∷ b'v' ∷ b'e' ∷ b'r' ∷ b'a' ∷ b'l' ∷ b'l' ∷ b' ' ∷ b'T' ∷ b'e' ∷ b's' ∷ b't' ∷ b's'
    ∷ b':' ∷ b' ' ∷ b'P' ∷ b'A' ∷ b'S' ∷ b'S' ∷ b'\n' ∷ []
