-- ===== src/Boot/Unreached.antt =====
-- Which characters and commands the event loop can pass on to the shell.
use chef_os.Prelude.{
  ℕ, zero, suc, ◌-◌, ◌≡◌, ◌≢◌, refl, ap, ◌∙◌, sym, ◌==◌, leb, if◌then◌else◌, Bool, true, false,
  List, [], ◌∷◌, ◌++◌, length, arith, Bool-cases, inl, inr,
}
use chef_os.Text.Signed.{ℤ, pos, negsuc, sub_ℕ}
use chef_os.Text.Strings.{strcmp, strncmp}
use chef_os.Text.Strings.Order.{IsText}
use chef_os.Fs.Tree.{is_zero}
use chef_os.Shell.{
  Command, nothing, help, uname, clear, ls, ps, services, mem, date, reboot, poweroff, cat, echo,
  unknown, skip_spaces, match_command, choose_command,
}

-- No byte is a space.
abbrev pub Unspaced : List ℕ → Type 0
Unspaced [] = Unit
Unspaced (c ∷ cs) = (c ≢ 32) × Unspaced cs

-- The command takes no text.
abbrev pub IsPlain : Command → Type 0
IsPlain (cat path) = ⊥
IsPlain (echo text) = ⊥
IsPlain nothing = Unit
IsPlain help = Unit
IsPlain uname = Unit
IsPlain clear = Unit
IsPlain ls = Unit
IsPlain ps = Unit
IsPlain services = Unit
IsPlain mem = Unit
IsPlain date = Unit
IsPlain reboot = Unit
IsPlain poweroff = Unit
IsPlain (unknown line) = Unit

skip_spaces-Unspaced : (s : List ℕ) → Unspaced s → Unspaced (skip_spaces s)
unfolding skip_spaces
skip_spaces-Unspaced [] u = tt
skip_spaces-Unspaced (c ∷ cs) u = let other : (c == 32) ≡ false = ground (arith, u.0) in rw other u

sub_zero : (a b : ℕ) → is_zero (sub_ℕ a b) ≡ true → a ≡ b
sub_zero a b e = elim (Bool-cases (leb b a)) [
  | inl le ↦
      let none_left = above (a - b) (sym (ap is_zero (at_least le)) ∙ e) in
      ground (arith, none_left)
  | inr lt ↦ absurd (not_true (sym (ap is_zero (below lt)) ∙ e))
]
  where
    not_true : false ≡ true → ⊥
    not_true h = cc

    at_least : leb b a ≡ true → sub_ℕ a b ≡ pos (a - b)
    at_least h = rw h refl

    below : leb b a ≡ false → sub_ℕ a b ≡ negsuc (b - a - 1)
    below h = rw h refl

    above : (n : ℕ) → is_zero (pos n) ≡ true → n ≡ 0
    above zero h = refl
    above (suc n) h = absurd (not_true h)

-- A first byte that `strncmp` passes.
same_first :
    (a b : ℕ) (rest : ℤ)
    → is_zero (if a == b then rest else sub_ℕ a b) ≡ true
    → (a ≡ b) × (is_zero rest ≡ true)
same_first a b rest e = elim (Bool-cases (a == b)) [
  | inl same ↦ (ground arith, sym (ap is_zero (equal same)) ∙ e)
  | inr other ↦ absurd (differ other (sub_zero a b (sym (ap is_zero (unequal other)) ∙ e)))
]
  where
    equal : (a == b) ≡ true → (if a == b then rest else sub_ℕ a b) ≡ rest
    equal h = rw h refl

    unequal : (a == b) ≡ false → (if a == b then rest else sub_ℕ a b) ≡ sub_ℕ a b
    unequal h = rw h refl

    differ : (a == b) ≡ false → a ≡ b → ⊥
    differ h q = ground arith

-- A text without spaces does not begin with a text and a space.
no_prefix :
    (p s : List ℕ)
    → IsText p
    → Unspaced s
    → is_zero (strncmp (suc (length p)) s (p ++ (32 ∷ []))) ≡ true
    → ⊥
unfolding strncmp
no_prefix [] [] t u e = ground (arith, sub_zero 0 32 e)
no_prefix [] (a ∷ s) t u e = u.0 (same_first a 32 (pos 0) e).0
no_prefix (b ∷ p) [] t u e = t.0 (sym (sub_zero 0 b e))
no_prefix (b ∷ p) (a ∷ s) t u e =
    no_prefix p s t.1 u.1 (same_first a b (strncmp (suc (length p)) s (p ++ (32 ∷ []))) e).1

choose-IsPlain :
    (b : Bool) (x y : Command) → (b ≡ true → IsPlain x) → IsPlain y → IsPlain (if b then x else y)
choose-IsPlain true x y p q = p refl
choose-IsPlain false x y p q = q

cat_name-IsText : IsText (99 ∷ 97 ∷ 116 ∷ [])
cat_name-IsText = ((λ e. ground arith), ((λ e. ground arith), ((λ e. ground arith), tt)))

echo_name-IsText : IsText (101 ∷ 99 ∷ 104 ∷ 111 ∷ [])
echo_name-IsText =
    ((λ e. ground arith), ((λ e. ground arith), ((λ e. ground arith), ((λ e. ground arith), tt))))

match_command-IsPlain : (s : List ℕ) → Unspaced s → IsPlain (match_command s)
match_command-IsPlain [] u = tt
match_command-IsPlain (c ∷ cs) u =
    let line = c ∷ cs in
    choose-IsPlain (is_zero (strcmp line (104 ∷ 101 ∷ 108 ∷ 112 ∷ []))) _ _ (λ e. tt)
      (choose-IsPlain (is_zero (strcmp line (117 ∷ 110 ∷ 97 ∷ 109 ∷ 101 ∷ []))) _ _ (λ e. tt)
        (choose-IsPlain (is_zero (strcmp line (99 ∷ 108 ∷ 101 ∷ 97 ∷ 114 ∷ []))) _ _ (λ e. tt)
          (choose-IsPlain (is_zero (strcmp line (108 ∷ 115 ∷ []))) _ _ (λ e. tt)
            (choose-IsPlain (is_zero (strncmp 4 line (99 ∷ 97 ∷ 116 ∷ 32 ∷ []))) _ _
              (no_prefix (99 ∷ 97 ∷ 116 ∷ []) line cat_name-IsText u)
              (choose-IsPlain (is_zero (strcmp line (112 ∷ 115 ∷ []))) _ _ (λ e. tt)
                (choose-IsPlain
                  (is_zero (strcmp line (115 ∷ 101 ∷ 114 ∷ 118 ∷ 105 ∷ 99 ∷ 101 ∷ 115 ∷ []))) _ _
                  (λ e. tt)
                  (choose-IsPlain (is_zero (strcmp line (109 ∷ 101 ∷ 109 ∷ []))) _ _ (λ e. tt)
                    (choose-IsPlain (is_zero (strcmp line (100 ∷ 97 ∷ 116 ∷ 101 ∷ []))) _ _
                      (λ e. tt)
                      (choose-IsPlain (is_zero (strncmp 5 line (101 ∷ 99 ∷ 104 ∷ 111 ∷ 32 ∷ []))) _
                        _ (no_prefix (101 ∷ 99 ∷ 104 ∷ 111 ∷ []) line echo_name-IsText u)
                        (choose-IsPlain
                          (is_zero (strcmp line (114 ∷ 101 ∷ 98 ∷ 111 ∷ 111 ∷ 116 ∷ []))) _ _
                          (λ e. tt)
                          (choose-IsPlain
                            (is_zero
                              (strcmp line (112 ∷ 111 ∷ 119 ∷ 101 ∷ 114 ∷ 111 ∷ 102 ∷ 102 ∷ [])))
                            _ _ (λ e. tt) tt)))))))))))

-- A line without spaces is no `cat` and no `echo`.
pub choose_command-IsPlain : (line : List ℕ) → Unspaced line → IsPlain (choose_command line)
unfolding choose_command
choose_command-IsPlain line u =
    match_command-IsPlain (skip_spaces line) (skip_spaces-Unspaced line u)
