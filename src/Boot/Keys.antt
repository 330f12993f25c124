-- ===== src/Boot/Keys.antt =====
-- The rounds of the event loop over keys that are pressed, and the lines that the shell executes.
use chef_os.Prelude.{ℕ, ◌≡◌, List, [], ◌∷◌, Option, some}
use chef_os.Shell.{Shell, choose_command}
use chef_os.Shell.Execute.Printing.{Widens}
use chef_os.Shell.Execute.Quiet.{Ends}
use chef_os.Boot.Unreached.{IsPlain}
use chef_os.Boot.Loop.{Machine}
use chef_os.Boot.Unspaced.{IsKept}

module _ (widen cmos : ℕ → ℕ) (w : Widens widen) where
  -- A step that gives a machine with the invariant.
  abbrev Steps : Option Machine → Type 0
  Steps r = (n : Machine) × (r ≡ some n) × IsKept n

-- Each line is no `cat` and no `echo`.
abbrev pub AllPlainLines : List (List ℕ) → Type 0
AllPlainLines [] = Unit
AllPlainLines (l ∷ ls) = IsPlain (choose_command l) × AllPlainLines ls
