-- ===== src/Shell/Tests.antt =====
-- The line editor and the choice of a command at concrete lines.
use chef_os.Prelude.{◌≡◌, refl, [], ◌∷◌, ◌++◌, take}
use chef_os.Shell.{Shell, cat, choose_command}
use chef_os.Shell.Execute.Quiet.{Quiet}
use chef_os.Shell.Editor.{handle_all, handle_all-newline}

abbrev prompt : Shell
prompt = record { input = []; executed = [] }

handle_all-newline_example :
    handle_all ((108 ∷ 115 ∷ []) ++ (10 ∷ [])) prompt
    ≡ record { input = []; executed = take 254 (108 ∷ 115 ∷ []) ∷ [] }
handle_all-newline_example = handle_all-newline (108 ∷ 115 ∷ []) prompt (refl, (refl, tt)) refl

-- The line ` cat x`.
choose_runs : choose_command (32 ∷ 99 ∷ 97 ∷ 116 ∷ 32 ∷ 120 ∷ []) ≡ cat (120 ∷ [])
unfolding choose_command
choose_runs = refl

-- A backspace takes back the last byte.
backspace_runs : handle_all (108 ∷ 8 ∷ []) prompt ≡ prompt
unfolding handle_all
backspace_runs = refl
