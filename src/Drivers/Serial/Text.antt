-- ===== src/Drivers/Serial/Text.antt =====
-- What `serial_puts` sends of a string, and when.
use chef_os.Prelude.{
  ℕ, ◌+◌, ◌==◌, ◌≡◌, refl, false, if◌then◌else◌, List, [], ◌∷◌, ◌++◌, Option, some, length, arith,
  Bool-cases, inl, inr,
}
use chef_os.Text.Kprintf
use chef_os.Text.Kprintf.Sinks.{strip, strip-serial_puts}
use chef_os.Drivers.Polling.{Ports, Shows}
use chef_os.Drivers.Serial.{is_transmit_empty, serial_puts, sent_bytes, Waits, puts-Sent}

-- Each newline stands right behind a carriage return; `last` is the byte before.
unfoldable pub AllReturned : (last : ℕ) → List ℕ → Type 0
AllReturned last [] = Unit
AllReturned last (c ∷ cs) = (c ≡ 10 → last ≡ 13) × AllReturned c cs

unfoldable pub newlines : List ℕ → ℕ
newlines [] = 0
newlines (c ∷ cs) = let rest = newlines cs in if c == 10 then rest + 1 else rest

serial_puts-AllReturned : (s : List ℕ) (last : ℕ) → AllReturned last (Kprintf.serial_puts s)
unfolding Kprintf.serial_puts AllReturned
serial_puts-AllReturned [] last = tt
serial_puts-AllReturned (c ∷ cs) last = elim (Bool-cases (c == 10)) [
  | inl newline ↦
      rw newline ((λ e. absurd (no_return 13 e refl)), ((λ e. refl), serial_puts-AllReturned cs c))
  | inr other ↦ rw other ((λ e. absurd (differs other e)), serial_puts-AllReturned cs c)
]
  where
    no_return : (a : ℕ) → a ≡ 10 → a ≡ 13 → ⊥
    no_return a e f = omega arith

    differs : (c == 10) ≡ false → c ≡ 10 → ⊥
    differs other e = ground arith

length-serial_puts : (s : List ℕ) → length (Kprintf.serial_puts s) ≡ length s + newlines s
unfolding Kprintf.serial_puts newlines
length-serial_puts [] = refl
length-serial_puts (c ∷ cs) = ground (arith, length-serial_puts cs)

-- The port `after` got the bytes of the text, with one more for each newline, a carriage return right in
-- front of it, and nothing else. Before each byte the status was read until it showed the transmitter
-- empty.
pub record SentText (status : ℕ → ℕ) (s : List ℕ) (p : Ports) (r : Option Ports) : Type 0 where
  pub after : Ports
  pub bytes : List ℕ
  pub result : r ≡ some after
  pub writes : after.writes ≡ p.writes ++ sent_bytes bytes
  pub text : strip bytes ≡ strip s
  pub returned : AllReturned 0 bytes
  pub size : length bytes ≡ length s + newlines s
  pub waits : Waits status p.status_reads bytes after.status_reads

-- With a transmitter that shows itself empty in one of any `fuel` reads of its status: `serial_puts`
-- ends, and writes to the data register of the port the bytes of the string in order, carriage returns left
-- out, with one byte more for each newline and a carriage return right in front of each newline, and
-- nothing else. Before each byte it reads the status until that shows the transmitter empty for the first
-- time.
pub serial_puts-SentText :
    (fuel : ℕ) (status : ℕ → ℕ) (s : List ℕ) (p : Ports)
    → Shows fuel is_transmit_empty status
    → SentText status s p (serial_puts fuel status s p)
serial_puts-SentText fuel status s p shows =
    let (q, e, w, waits) = puts-Sent fuel status shows s p in
    record {
      after = q;
      bytes = Kprintf.serial_puts s;
      result = e;
      writes = w;
      text = strip-serial_puts s;
      returned = serial_puts-AllReturned s 0;
      size = length-serial_puts s;
      waits = waits;
    }
