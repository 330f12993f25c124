-- ===== src/Text/Kprintf/Digits.antt =====
-- The digits that `print_num` prints.
use chef_os.Prelude.{
  ℕ, zero, suc, ◌+◌, ◌-◌, ◌*◌, ◌/◌, ◌%◌, ◌^◌, ◌≤◌, ◌<◌, ◌≡◌, refl, ap, ◌∙◌, ◌==◌, ltb,
  if◌then◌else◌, Bool, true, false, ◌&&◌, List, [], ◌∷◌, ◌++◌, some, length, length-append, arith,
}
use chef_os.Prelude.Bits.{passes, passes_at}
use native.Mathlib.Nat.{div-add-mod', mod-lt, div-mul-le_self, mul-le-mul_left}
use chef_os.Text.Kprintf.{digit, digit_loop, backwards, print_num, push, finish}

-- The value of a digit, in small letters or capitals.
unfoldable pub digit_value : ℕ → ℕ
digit_value c = if ltb c 58 then c - 48 else if ltb c 71 then c - 55 else c - 87

-- The number that a string of digits stands for, with `acc` read before it.
unfoldable pub parse : (base acc : ℕ) → List ℕ → ℕ
parse base acc [] = acc
parse base acc (c ∷ cs) = parse base (acc * base + digit_value c) cs

parse-append :
    (base acc : ℕ) (xs : List ℕ) (c : ℕ)
    → parse base acc (xs ++ (c ∷ [])) ≡ parse base acc xs * base + digit_value c
unfolding parse
parse-append base acc [] c = refl
parse-append base acc (x ∷ xs) c = parse-append base (acc * base + digit_value x) xs c

digit_table :
    passes 16 (λ d. (digit_value (digit true d) == d) && (digit_value (digit false d) == d)) ≡ true
unfolding passes digit digit_value
digit_table = refl

digit_value-digit : (upper : Bool) (d : ℕ) → d < 16 → digit_value (digit upper d) ≡ d
digit_value-digit true d lt = ground (arith, passes_at 16 _ d digit_table lt)
digit_value-digit false d lt = ground (arith, passes_at 16 _ d digit_table lt)

-- The bytes that the loop puts in the buffer for a number.
record Digits (fuel k num base : ℕ) (upper : Bool) (buf : List ℕ) : Type 0 where
  made : digit_loop fuel num base upper ≡ some buf
  value : parse base 0 (backwards buf) ≡ num
  short : length buf ≤ k

module _ (base : ℕ) (upper : Bool) (two : 2 ≤ base) (most : base ≤ 16) where
  half : (n : ℕ) → n / base * 2 ≤ n
  half n = omega (arith, div-mul-le_self n base, mul-le-mul_left (n / base) two)

  digit_loop-Digits :
      (fuel k num : ℕ) → num < 2 ^ k → k ≤ fuel → (buf : List ℕ) × Digits fuel k num base upper buf
  unfolding digit_loop backwards parse
  digit_loop-Digits fuel k zero lt le =
      ([], record { made = refl; value = refl; short = omega arith })
  digit_loop-Digits fuel zero (suc n) lt le = absurd (omega arith)
  digit_loop-Digits zero (suc k) (suc n) lt le = absurd (omega arith)
  digit_loop-Digits (suc fuel) (suc k) (suc n) lt le =
      let (buf, d) =
        digit_loop-Digits fuel k (suc n / base) (omega (arith, half (suc n))) (omega arith) in
      let small : suc n % base < base = mod-lt (suc n) (omega arith) in
      (
        digit upper (suc n % base) ∷ buf,
        record {
          made = ap (push (digit upper (suc n % base))) d.made;
          value =
              parse-append base 0 (backwards buf) (digit upper (suc n % base))
              ∙ ap (λ v. v * base + digit_value (digit upper (suc n % base))) d.value
              ∙ ap (λ v. suc n / base * base + v)
                  (digit_value-digit upper (suc n % base) (omega arith))
              ∙ div-add-mod' (suc n) base;
          short = omega (arith, d.short);
        },
      )

length-backwards : (buf : List ℕ) → length (backwards buf) ≡ length buf
unfolding backwards
length-backwards [] = refl
length-backwards (c ∷ buf) =
    omega (arith, length-backwards buf, length-append (backwards buf) (c ∷ []))

-- What `print_num` sends: at most 64 digits, which stand for the number.
pub record Printed (num base : ℕ) (upper : Bool) (s : List ℕ) : Type 0 where
  pub sent : print_num num base upper ≡ some s
  pub value : parse base 0 s ≡ num
  pub short : length s ≤ 64

-- For a base from 2 to 16, `print_num` of a 64-bit number sends digits that stand for that number,
-- the highest first and 64 at most, which the buffer of 65 bytes holds.
pub print_num-Printed :
    (num base : ℕ) (upper : Bool)
    → num < 2 ^ 64
    → 2 ≤ base
    → base ≤ 16
    → (s : List ℕ) × Printed num base upper s
unfolding print_num
print_num-Printed zero base upper lt two most =
    (48 ∷ [], record { sent = refl; value = zero_value; short = omega arith })
  where
    zero_value : parse base 0 (48 ∷ []) ≡ 0
    zero_value = unfold parse in unfold digit_value in omega arith
print_num-Printed (suc n) base upper lt two most =
    let (buf, d) = digit_loop-Digits base upper two most 65 64 (suc n) lt (omega arith) in
    let some_bits : (suc n == 0) ≡ false = ground arith in
    (
      backwards buf,
      record {
        sent = rw some_bits (ap finish d.made);
        value = d.value;
        short = omega (arith, d.short, length-backwards buf);
      },
    )
