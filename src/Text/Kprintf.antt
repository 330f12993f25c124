-- ===== src/Text/Kprintf.antt =====
-- The printing of kernel/src/sys/kprintf.c. The output is the bytes sent to the serial port and those
-- sent to the console. A `char` is its byte, an integer argument its 64-bit pattern, and a C string
-- the list of its bytes.
pub mod Digits
pub mod Sinks
pub mod Total
use chef_os.Prelude.{
  ℕ, zero, suc, ◌+◌, ◌-◌, ◌*◌, ◌/◌, ◌%◌, ◌^◌, ◌==◌, leb, if◌then◌else◌, Bool, true, false, List, [],
  ◌∷◌, ◌++◌, Option, none, some, get_or, u8, sub64,
}

-- `0123456789abcdef`, and the same in capitals.
abbrev pub lower_digits : List ℕ
lower_digits = 48 ∷ 49 ∷ 50 ∷ 51 ∷ 52 ∷ 53 ∷ 54 ∷ 55 ∷ 56 ∷ 57 ∷ 97 ∷ 98 ∷ 99 ∷ 100 ∷ 101 ∷ 102 ∷ []

abbrev pub upper_digits : List ℕ
upper_digits = 48 ∷ 49 ∷ 50 ∷ 51 ∷ 52 ∷ 53 ∷ 54 ∷ 55 ∷ 56 ∷ 57 ∷ 65 ∷ 66 ∷ 67 ∷ 68 ∷ 69 ∷ 70 ∷ []

unfoldable pub digit : (uppercase : Bool) → ℕ → ℕ
digit uppercase d = get_or (if uppercase then upper_digits else lower_digits) d 0

abbrev pub push : ℕ → Option (List ℕ) → Option (List ℕ)
push c none = none
push c (some buf) = some (c ∷ buf)

-- `while (num > 0)`, on fuel: the bytes put in `buf`, the lowest digit first.
unfoldable pub digit_loop : (fuel num base : ℕ) (uppercase : Bool) → Option (List ℕ)
unfolding digit
digit_loop fuel zero base uppercase = some []
digit_loop zero (suc n) base uppercase = none
digit_loop (suc fuel) (suc n) base uppercase =
    push (digit uppercase (suc n % base)) (digit_loop fuel (suc n / base) base uppercase)

-- `while (--i >= 0)`
unfoldable pub backwards : List ℕ → List ℕ
backwards [] = []
backwards (c ∷ buf) = backwards buf ++ (c ∷ [])

abbrev pub finish : Option (List ℕ) → Option (List ℕ)
finish none = none
finish (some buf) = some (backwards buf)

-- `buf` has room for 65 bytes.
unfoldable pub print_num : (num base : ℕ) (uppercase : Bool) → Option (List ℕ)
unfolding digit_loop backwards
print_num num base uppercase =
    if num == 0 then some (48 ∷ []) else finish (digit_loop 65 num base uppercase)

-- What the two ports have got.
pub record Output : Type 0 where
  pub serial : List ℕ
  pub console : List ℕ

abbrev pub nothing : Output
nothing = record { serial = []; console = [] }

abbrev pub both : List ℕ → Output
both bytes = record { serial = bytes; console = bytes }

abbrev pub then_out : Output → Output → Output
then_out a b = record { serial = a.serial ++ b.serial; console = a.console ++ b.console }

-- `serial_puts` sends a carriage return before each newline.
unfoldable pub serial_puts : List ℕ → List ℕ
serial_puts [] = []
serial_puts (c ∷ cs) = if c == 10 then 13 ∷ c ∷ serial_puts cs else c ∷ serial_puts cs

-- An argument: an integer, or a string that may be null.
pub data Arg : Type 0 where
  int_arg : ℕ → Arg
  str_arg : Option (List ℕ) → Arg

-- `(null)`
abbrev pub text_of : Option (List ℕ) → List ℕ
text_of none = 40 ∷ 110 ∷ 117 ∷ 108 ∷ 108 ∷ 41 ∷ []
text_of (some s) = s

abbrev pub number : Option (List ℕ) → Option Output
number none = none
number (some bytes) = some (both bytes)

abbrev pub prepend : Option Output → Option Output → Option Output
prepend none rest = none
prepend (some o) none = none
prepend (some o) (some rest) = some (then_out o rest)

abbrev pub signed_number : ℕ → Option Output
signed_number v =
    if leb (2 ^ 63) v
    then prepend (some (both (45 ∷ []))) (number (print_num (sub64 0 v) 10 false))
    else number (print_num v 10 false)

abbrev pub pointer : ℕ → Option Output
pointer v = prepend (some (both (48 ∷ 120 ∷ []))) (number (print_num v 16 false))

-- A conversion that takes an integer; `none` of the other letters does.
abbrev pub int_conversion : (letter : ℕ) → ℕ → Option Output
int_conversion letter v =
    if letter == 99
    then some (both (u8 v ∷ []))
    else if letter == 100
    then signed_number v
    else if letter == 105
    then signed_number v
    else if letter == 117
    then number (print_num v 10 false)
    else if letter == 120
    then number (print_num v 16 false)
    else if letter == 88
    then number (print_num v 16 true)
    else if letter == 112
    then pointer v
    else none

abbrev pub string_output : Option (List ℕ) → Output
string_output s = record { serial = serial_puts (text_of s); console = text_of s }

-- Whether a letter takes an argument.
abbrev pub takes_arg : (letter : ℕ) → Bool
takes_arg c =
    if c == 99
    then true
    else if c == 115
    then true
    else if c == 100
    then true
    else if c == 105
    then true
    else if c == 117
    then true
    else if c == 120
    then true
    else if c == 88
    then true
    else if c == 112
    then true
    else false

-- `none` for an argument of the wrong kind, which C leaves undefined.
abbrev pub conversion : (letter : ℕ) → Arg → Option Output
conversion letter (int_arg v) = int_conversion letter v
conversion letter (str_arg s) = if letter == 115 then some (string_output s) else none

abbrev pub plain_letter : (letter : ℕ) → Output
plain_letter c = if c == 37 then both (37 ∷ []) else both (37 ∷ c ∷ [])

abbrev pub plain_char : ℕ → Output
plain_char c =
    if c == 10 then record { serial = 13 ∷ 10 ∷ []; console = 10 ∷ [] } else both (c ∷ [])

-- `kvprintf`; `none` where the arguments run out, or the format ends after a `%`, so that the code
-- reads past its end.
unfoldable mutual
  pub kvprintf : List ℕ → List Arg → Option Output
  kvprintf [] args = some nothing
  kvprintf (c ∷ fmt) args =
      let escape = after_percent fmt args in
      let plain = kvprintf fmt args in
      if c == 37 then escape else prepend (some (plain_char c)) plain

  pub after_percent : List ℕ → List Arg → Option Output
  after_percent [] args = none
  after_percent (c ∷ fmt) [] =
      let rest = kvprintf fmt [] in
      if takes_arg c then none else prepend (some (plain_letter c)) rest
  after_percent (c ∷ fmt) (a ∷ args) =
      let used = kvprintf fmt args in
      let kept = kvprintf fmt (a ∷ args) in
      if takes_arg c then prepend (conversion c a) used else prepend (some (plain_letter c)) kept
