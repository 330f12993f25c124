-- ===== src/Text/Kprintf/Sinks.antt =====
-- What the serial port and the console get.
use chef_os.Prelude.{
  ℕ, ◌≡◌, refl, ap, sym, ◌^◌, leb, sub64, Bool, ◌∙◌, ◌==◌, if◌then◌else◌, true, false, List, [],
  ◌∷◌, ◌++◌, Option, none, some, arith, Bool-cases, inl, inr,
}
use chef_os.Text.Kprintf.{
  Output, Arg, int_arg, str_arg, serial_puts, both, number, prepend, plain_char, plain_letter,
  conversion, kvprintf, after_percent, takes_arg, string_output, text_of, int_conversion,
  signed_number, pointer, print_num,
}

-- The bytes without the carriage returns.
unfoldable pub strip : List ℕ → List ℕ
strip [] = []
strip (c ∷ cs) = if c == 13 then strip cs else c ∷ strip cs

strip-append : (xs ys : List ℕ) → strip (xs ++ ys) ≡ strip xs ++ strip ys
unfolding strip
strip-append [] ys = refl
strip-append (x ∷ xs) ys = ground (arith, strip-append xs ys)

-- Both ports have the same text.
abbrev pub Same : Option Output → Type 0
Same none = Unit
Same (some o) = strip o.serial ≡ strip o.console

pub strip-serial_puts : (s : List ℕ) → strip (serial_puts s) ≡ strip s
unfolding strip serial_puts
strip-serial_puts [] = refl
strip-serial_puts (c ∷ s) = ground (arith, strip-serial_puts s)

prepend-Same : (a b : Option Output) → Same a → Same b → Same (prepend a b)
prepend-Same none b p q = tt
prepend-Same (some o) none p q = tt
prepend-Same (some o) (some r) p q =
    strip-append o.serial r.serial
    ∙ ap (λ t. t ++ strip r.serial) p
    ∙ ap (λ t. strip o.console ++ t) q
    ∙ sym (strip-append o.console r.console)

number-Same : (s : Option (List ℕ)) → Same (number s)
number-Same none = tt
number-Same (some s) = refl

signed-Same : (sign : List ℕ) (s : Option Output) → Same s → Same (prepend (some (both sign)) s)
signed-Same sign s p = prepend-Same (some (both sign)) s refl p

plain_char-Same : (c : ℕ) → Same (some (plain_char c))
unfolding strip
plain_char-Same c = ground arith

plain_letter-Same : (c : ℕ) → Same (some (plain_letter c))
plain_letter-Same c = elim (Bool-cases (c == 37)) [ inl e ↦ rw e refl | inr e ↦ rw e refl ]

choose-Same : (b : Bool) (x y : Option Output) → Same x → Same y → Same (if b then x else y)
choose-Same true x y p q = p
choose-Same false x y p q = q

int_conversion-Same : (c v : ℕ) → Same (int_conversion c v)
int_conversion-Same c v = choose-Same (c == 99) _ _ refl (
    choose-Same (c == 100) _ _ signed (
      choose-Same (c == 105) _ _ signed (
        choose-Same (c == 117) _ _ (number-Same (print_num v 10 false)) (
          choose-Same (c == 120) _ _ (number-Same (print_num v 16 false)) (
            choose-Same (c == 88) _ _ (number-Same (print_num v 16 true))
              (choose-Same (c == 112) _ _ pointed tt))))))
  where
    signed : Same (signed_number v)
    signed =
        choose-Same (leb (2 ^ 63) v) _ _
          (signed-Same (45 ∷ []) _ (number-Same (print_num (sub64 0 v) 10 false)))
          (number-Same (print_num v 10 false))

    pointed : Same (pointer v)
    pointed = signed-Same (48 ∷ 120 ∷ []) _ (number-Same (print_num v 16 false))

conversion-Same : (c : ℕ) (a : Arg) → Same (conversion c a)
conversion-Same c (int_arg v) = int_conversion-Same c v
conversion-Same c (str_arg s) =
    choose-Same (c == 115) (some (string_output s)) none (strip-serial_puts (text_of s)) tt

mutual
  unfolding kvprintf

  kvprintf-Same : (fmt : List ℕ) (args : List Arg) → Same (kvprintf fmt args)
  kvprintf-Same [] args = refl
  kvprintf-Same (c ∷ fmt) args =
      choose-Same (c == 37) _ _ (after_percent-Same fmt args)
        (prepend-Same (some (plain_char c)) _ (plain_char-Same c) (kvprintf-Same fmt args))

  after_percent-Same : (fmt : List ℕ) (args : List Arg) → Same (after_percent fmt args)
  after_percent-Same [] args = tt
  after_percent-Same (c ∷ fmt) [] =
      choose-Same (takes_arg c) none _ tt
        (prepend-Same (some (plain_letter c)) _ (plain_letter-Same c) (kvprintf-Same fmt []))
  after_percent-Same (c ∷ fmt) (a ∷ args) =
      choose-Same (takes_arg c) _ _
        (prepend-Same _ _ (conversion-Same c a) (kvprintf-Same fmt args))
        (prepend-Same (some (plain_letter c)) _ (plain_letter-Same c)
          (kvprintf-Same fmt (a ∷ args)))

-- For every format and all arguments, if `kvprintf` returns, then what it sent to the serial port and
-- what it sent to the console are the same bytes, carriage returns left out.
pub kvprintf-strip :
    (fmt : List ℕ) (args : List Arg) (o : Output)
    → kvprintf fmt args ≡ some o
    → strip o.serial ≡ strip o.console
kvprintf-strip fmt args o e = rw e at (kvprintf-Same fmt args)
