-- ===== src/Boot/Unspaced.antt =====
-- Lines without a space, and runs that end.
use chef_os.Prelude.{
  ℕ, ◌≡◌, ◌≢◌, ap, ◌∙◌, ◌==◌, ltb, ◌&&◌, if◌then◌else◌, Bool, true, false, List, [], ◌∷◌, ◌++◌,
  length, Option,
}
use chef_os.Sys.{System, and_then}
use chef_os.Sys.Print.{IsReady}
use chef_os.Shell.{Shell, drop_last, is_printable, handle_char}
use chef_os.Shell.Execute.Quiet.{Quiet, Quiet-IsReady, Ends, Quiet-trans}
use chef_os.Boot.Unreached.{Unspaced}
use chef_os.Boot.Loop.{Machine}

abbrev pub AllUnspaced : List (List ℕ) → Type 0
AllUnspaced [] = Unit
AllUnspaced (l ∷ ls) = Unspaced l × AllUnspaced ls

-- The shell has no space in its buffer and got none to execute, the table has its 64 entries, and the
-- transmitter of the serial port shows itself empty in one of as many reads of its
-- status as a wait may take.
pub record IsKept (m : Machine) : Type 0 where
  pub full : length m.sys.vfs.table ≡ 64
  pub ready : IsReady m.sys
  pub input : Unspaced m.shell.input
  pub executed : AllUnspaced m.shell.executed

Unspaced-append : (s t : List ℕ) → Unspaced s → Unspaced t → Unspaced (s ++ t)
Unspaced-append [] t p q = q
Unspaced-append (c ∷ s) t p q = (p.0, Unspaced-append s t p.1 q)

AllUnspaced-append : (s t : List (List ℕ)) → AllUnspaced s → AllUnspaced t → AllUnspaced (s ++ t)
AllUnspaced-append [] t p q = q
AllUnspaced-append (l ∷ s) t p q = (p.0, AllUnspaced-append s t p.1 q)

drop_last-Unspaced : (s : List ℕ) → Unspaced s → Unspaced (drop_last s)
unfolding drop_last
drop_last-Unspaced [] p = tt
drop_last-Unspaced (c ∷ []) p = tt
drop_last-Unspaced (c ∷ d ∷ s) p = (p.0, drop_last-Unspaced (d ∷ s) p.1)

-- The buffer and the lines after a character that is no space.
pub record IsClean (sh : Shell) : Type 0 where
  pub input : Unspaced sh.input
  pub executed : AllUnspaced sh.executed

choose-IsClean : (b : Bool) (x y : Shell) → IsClean x → IsClean y → IsClean (if b then x else y)
choose-IsClean true x y p q = p
choose-IsClean false x y p q = q

pub handle_char-IsClean : (c : ℕ) (sh : Shell) → c ≢ 32 → IsClean sh → IsClean (handle_char c sh)
unfolding handle_char
handle_char-IsClean c sh ne p =
    choose-IsClean (c == 10) _ _
      (record {
        input = tt;
        executed = AllUnspaced-append sh.executed (sh.input ∷ []) p.executed (p.input, tt);
      })
      (choose-IsClean (c == 8) _ _
        (record { input = drop_last-Unspaced sh.input p.input; executed = p.executed })
        (choose-IsClean (ltb (length sh.input) 254 && is_printable c) _ _
          (record {
            input = Unspaced-append sh.input (c ∷ []) p.input (ne, tt);
            executed = p.executed;
          })
          p))

pub choose-Ends :
    (s : System) (b : Bool) (x y : Option System)
    → Ends s x
    → Ends s y
    → Ends s (if b then x else y)
choose-Ends s true x y p q = p
choose-Ends s false x y p q = q

pub and_then-Ends :
    (s : System) (r : Option System) (f : System → Option System)
    → Ends s r
    → ((t : System) → Quiet s t → Ends t (f t))
    → Ends s (and_then r f)
and_then-Ends s r f pr h ready =
    let (t, e, p) = pr ready in
    let (u, d, q) = h t p (Quiet-IsReady s t p ready) in
    (u, ap (λ o. and_then o f) e ∙ d, Quiet-trans s t u p q)
