-- ===== src/Text/Kprintf/Total.antt =====
-- When `kvprintf` has an output: the arguments are of the kinds that the format asks for.
use chef_os.Prelude.{
  ℕ, ◌<◌, ◌≤◌, ◌^◌, ◌≡◌, refl, ap, ◌∙◌, sym, ◌==◌, leb, u8, sub64, Bool, true, false, not, ◌&&◌,
  if◌then◌else◌, List, [], ◌∷◌, Option, some, arith, Bool-cases, inl, inr,
}
use chef_os.Text.Kprintf.{
  Output, Arg, int_arg, str_arg, both, number, prepend, then_out, plain_char, plain_letter,
  conversion, kvprintf, after_percent, takes_arg, string_output, int_conversion, signed_number,
  print_num,
}
use chef_os.Text.Kprintf.Digits.{print_num-Printed}

abbrev pub IsSome : Option Output → Type 0
IsSome o = (out : Output) × (o ≡ some out)

abbrev right_kind : (letter : ℕ) → Arg → Bool
right_kind c (int_arg v) = not (c == 115)
right_kind c (str_arg s) = c == 115

-- Whether the arguments fit what is left of the format, `after` a percent sign or not.
unfoldable pub fits : (after : Bool) → List ℕ → List Arg → Bool
fits false [] args = true
fits false (c ∷ fmt) args =
    let escape = fits true fmt args in
    let plain = fits false fmt args in if c == 37 then escape else plain
fits true [] args = false
fits true (c ∷ fmt) [] = let rest = fits false fmt [] in if takes_arg c then false else rest
fits true (c ∷ fmt) (a ∷ args) =
    let used = fits false fmt args in
    let kept = fits false fmt (a ∷ args) in if takes_arg c then right_kind c a && used else kept

-- The integers are 64-bit words.
abbrev pub AllWords : List Arg → Type 0
AllWords [] = Unit
AllWords (int_arg v ∷ args) = (v < 2 ^ 64) × AllWords args
AllWords (str_arg s ∷ args) = AllWords args

abbrev IsWord : Arg → Type 0
IsWord (int_arg v) = v < 2 ^ 64
IsWord (str_arg s) = Unit

AllWords-head : (a : Arg) (args : List Arg) → AllWords (a ∷ args) → IsWord a
AllWords-head (int_arg v) args h = h.0
AllWords-head (str_arg s) args h = tt

AllWords-tail : (a : Arg) (args : List Arg) → AllWords (a ∷ args) → AllWords args
AllWords-tail (int_arg v) args h = h.1
AllWords-tail (str_arg s) args h = h

prepend-IsSome : (a b : Option Output) → IsSome a → IsSome b → IsSome (prepend a b)
prepend-IsSome a b (o, p) (r, q) = (then_out o r, rw (p, q) refl)

choose-IsSome : (b : Bool) (x y : Option Output) → IsSome x → IsSome y → IsSome (if b then x else y)
choose-IsSome true x y p q = p
choose-IsSome false x y p q = q

number-IsSome :
    (v base : ℕ) (upper : Bool)
    → v < 2 ^ 64
    → 2 ≤ base
    → base ≤ 16
    → IsSome (number (print_num v base upper))
number-IsSome v base upper lt two most =
    let (s, p) = print_num-Printed v base upper lt two most in (both s, ap number p.sent)

signed_number-IsSome : (v : ℕ) → v < 2 ^ 64 → IsSome (signed_number v)
signed_number-IsSome v lt =
    choose-IsSome (leb (2 ^ 63) v) _ _
      (prepend-IsSome _ _ (both (45 ∷ []), refl)
        (number-IsSome (sub64 0 v) 10 false (omega arith) (omega arith) (omega arith)))
      (number-IsSome v 10 false lt (omega arith) (omega arith))

test-IsSome :
    (b : Bool) (x y : Option Output)
    → IsSome x
    → (b ≡ false → IsSome y)
    → IsSome (if b then x else y)
test-IsSome true x y p q = p
test-IsSome false x y p q = q refl

-- One of the letters of an integer.
int_conversion-IsSome :
    (c v : ℕ) → v < 2 ^ 64 → takes_arg c ≡ true → (c == 115) ≡ false → IsSome (int_conversion c v)
int_conversion-IsSome c v lt takes other =
    test-IsSome (c == 99) _ _ (both (u8 v ∷ []), refl)
      (λ e1. test-IsSome (c == 100) _ _ (signed_number-IsSome v lt) (λ e2.
        test-IsSome (c == 105) _ _ (signed_number-IsSome v lt) (λ e3.
          test-IsSome (c == 117) _ _ (number-IsSome v 10 false lt (omega arith) (omega arith))
            (λ e4.
              test-IsSome (c == 120) _ _ (number-IsSome v 16 false lt (omega arith) (omega arith))
                (λ e5.
                  test-IsSome (c == 88) _ _ (number-IsSome v 16 true lt (omega arith) (omega arith))
                    (λ e6.
                      test-IsSome (c == 112) _ _
                        (prepend-IsSome _ _ (both (48 ∷ 120 ∷ []), refl)
                          (number-IsSome v 16 false lt (omega arith) (omega arith)))
                        (λ e7. absurd (no_letter e1 e2 e3 e4 e5 e6 e7))))))))
  where
    no_letter :
        (c == 99) ≡ false
        → (c == 100) ≡ false
        → (c == 105) ≡ false
        → (c == 117) ≡ false
        → (c == 120) ≡ false
        → (c == 88) ≡ false
        → (c == 112) ≡ false
        → ⊥
    no_letter e1 e2 e3 e4 e5 e6 e7 = ground arith

conversion-IsSome :
    (c : ℕ) (a : Arg)
    → IsWord a
    → takes_arg c ≡ true
    → right_kind c a ≡ true
    → IsSome (conversion c a)
conversion-IsSome c (int_arg v) lt takes kind = int_conversion-IsSome c v lt takes (ground arith)
conversion-IsSome c (str_arg s) word takes kind = rw kind (string_output s, refl)

not_true : false ≡ true → ⊥
not_true e = cc

if_true : (b x y : Bool) → (if b then x else y) ≡ true → b ≡ true → x ≡ true
if_true b x y h e = sym (rw e refl) ∙ h

if_false : (b x y : Bool) → (if b then x else y) ≡ true → b ≡ false → y ≡ true
if_false b x y h e = sym (rw e refl) ∙ h

and_left : (a b : Bool) → (a && b) ≡ true → a ≡ true
and_left a b h = ground arith

and_right : (a b : Bool) → (a && b) ≡ true → b ≡ true
and_right a b h = ground arith

-- The part of the output that is to come.
abbrev run : (after : Bool) → List ℕ → List Arg → Option Output
run false fmt args = kvprintf fmt args
run true fmt args = after_percent fmt args

run-IsSome :
    (after : Bool) (fmt : List ℕ) (args : List Arg)
    → fits after fmt args ≡ true
    → AllWords args
    → IsSome (run after fmt args)
unfolding fits kvprintf after_percent
run-IsSome false [] args f w = (_, refl)
run-IsSome false (c ∷ fmt) args f w = elim (Bool-cases (c == 37)) [
  | inl escape ↦ rw escape (run-IsSome true fmt args (sym (rw escape refl) ∙ f) w)
  | inr plain ↦ rw plain (
      prepend-IsSome _ _ (plain_char c, refl)
        (run-IsSome false fmt args (sym (rw plain refl) ∙ f) w))
]
run-IsSome true [] args f w = absurd (ground arith)
run-IsSome true (c ∷ fmt) [] f w = elim (Bool-cases (takes_arg c)) [
  | inl takes ↦ absurd (not_true (if_true (takes_arg c) false (fits false fmt []) f takes))
  | inr plain ↦ rw plain (
      prepend-IsSome _ _ (plain_letter c, refl)
        (run-IsSome false fmt [] (if_false (takes_arg c) false (fits false fmt []) f plain) w))
]
run-IsSome true (c ∷ fmt) (a ∷ args) f w =
    let used = fits false fmt args in
    let kept = fits false fmt (a ∷ args) in
    elim (Bool-cases (takes_arg c)) [
      | inl takes ↦
          let both_hold = if_true (takes_arg c) (right_kind c a && used) kept f takes in
          rw takes (
            prepend-IsSome _ _
              (conversion-IsSome c a (AllWords-head a args w) takes
                (and_left (right_kind c a) used both_hold))
              (run-IsSome false fmt args (and_right (right_kind c a) used both_hold)
                (AllWords-tail a args w)))
      | inr plain ↦ rw plain (
          prepend-IsSome _ _ (plain_letter c, refl)
            (run-IsSome false fmt (a ∷ args)
              (if_false (takes_arg c) (right_kind c a && used) kept f plain) w))
    ]

-- `kvprintf` has an output when the arguments are as many as the format asks for at least, of the
-- kinds that it asks for, with integers of 64 bits, and the format does not end in a percent sign.
pub kvprintf-IsSome :
    (fmt : List ℕ) (args : List Arg)
    → fits false fmt args ≡ true
    → AllWords args
    → IsSome (kvprintf fmt args)
kvprintf-IsSome fmt args f w = run-IsSome false fmt args f w
