-- ===== src/Shell.antt =====
-- The command shell, kernel/src/user/shell.c: the line editor of chef_shell_handle_char and the choice
-- of the command in chef_shell_execute_cmd. A `char` is its byte. The first `s_input_len` bytes of the
-- buffer are a list. What the commands do and print is in Shell/Execute.
pub mod Editor
pub mod Listing
pub mod Execute
mod Tests
use chef_os.Prelude.{
  ℕ, suc, ◌==◌, leb, ltb, if◌then◌else◌, ◌&&◌, Bool, List, [], ◌∷◌, ◌++◌, length, drop,
}
use chef_os.Text.Strings.{strcmp, strncmp}
use chef_os.Fs.Tree.{is_zero}

pub data Command : Type 0 where
  nothing help uname clear ls ps services mem date reboot poweroff : Command
  cat echo unknown : List ℕ → Command

-- `while (*cmdline == ' ') cmdline++;`
unfoldable pub skip_spaces : List ℕ → List ℕ
skip_spaces [] = []
skip_spaces (c ∷ cs) = let rest = skip_spaces cs in if c == 32 then rest else c ∷ cs

-- The tests of the command's name, in order.
abbrev pub match_command : List ℕ → Command
match_command [] = nothing
match_command (c ∷ cs) =
    let line = c ∷ cs in
    if is_zero (strcmp line (104 ∷ 101 ∷ 108 ∷ 112 ∷ []))
    then help
    else if is_zero (strcmp line (117 ∷ 110 ∷ 97 ∷ 109 ∷ 101 ∷ []))
    then uname
    else if is_zero (strcmp line (99 ∷ 108 ∷ 101 ∷ 97 ∷ 114 ∷ []))
    then clear
    else if is_zero (strcmp line (108 ∷ 115 ∷ []))
    then ls
    else if is_zero (strncmp 4 line (99 ∷ 97 ∷ 116 ∷ 32 ∷ []))
    then cat (drop 4 line)
    else if is_zero (strcmp line (112 ∷ 115 ∷ []))
    then ps
    else if is_zero (strcmp line (115 ∷ 101 ∷ 114 ∷ 118 ∷ 105 ∷ 99 ∷ 101 ∷ 115 ∷ []))
    then services
    else if is_zero (strcmp line (109 ∷ 101 ∷ 109 ∷ []))
    then mem
    else if is_zero (strcmp line (100 ∷ 97 ∷ 116 ∷ 101 ∷ []))
    then date
    else if is_zero (strncmp 5 line (101 ∷ 99 ∷ 104 ∷ 111 ∷ 32 ∷ []))
    then echo (drop 5 line)
    else if is_zero (strcmp line (114 ∷ 101 ∷ 98 ∷ 111 ∷ 111 ∷ 116 ∷ []))
    then reboot
    else if is_zero (strcmp line (112 ∷ 111 ∷ 119 ∷ 101 ∷ 114 ∷ 111 ∷ 102 ∷ 102 ∷ []))
    then poweroff
    else unknown line

unfoldable pub choose_command : List ℕ → Command
unfolding skip_spaces strcmp strncmp
choose_command line = match_command (skip_spaces line)

-- `s_input_buf` up to `s_input_len`, and the lines that were given to `chef_shell_execute_cmd`.
pub record Shell : Type 0 where
  pub input : List ℕ
  pub executed : List (List ℕ)

-- `if (s_input_len > 0) s_input_len--;`
unfoldable pub drop_last : List ℕ → List ℕ
drop_last [] = []
drop_last (c ∷ []) = []
drop_last (c ∷ d ∷ cs) = c ∷ drop_last (d ∷ cs)

-- `c >= ' ' && c <= '~'` on a signed char.
abbrev pub is_printable : ℕ → Bool
is_printable c = leb 32 c && leb c 126

unfoldable pub handle_char : ℕ → Shell → Shell
unfolding drop_last
handle_char c s =
    if c == 10
    then record { input = []; executed = s.executed ++ (s.input ∷ []) }
    else if c == 8
    then record s { input = drop_last s.input }
    else if ltb (length s.input) 254 && is_printable c
    then record s { input = s.input ++ (c ∷ []) }
    else s
