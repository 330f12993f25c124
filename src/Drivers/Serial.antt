-- ===== src/Drivers/Serial.antt =====
-- The serial port, kernel/src/sys/serial.c, at the level of its registers. `status` gives what each read
-- of the line status register answers, and a `char` is its byte.
pub mod Text
use chef_os.Prelude.{
  ℕ, true, suc, ◌<◌, false, ◌+◌, ◌==◌, ◌≡◌, refl, ap, ◌∙◌, sym, Bool, not, if◌then◌else◌, List, [],
  ◌∷◌, ◌++◌, Option, some, bit_and, Bool-cases, inl, inr,
}
use mathlib.Core.List.{append_assoc, append-nil}
use chef_os.Text.Kprintf
use chef_os.Drivers.Timer.{PortWrite}
use chef_os.Drivers.Polling.{Ports, write_all, and_then, poll, Shows, poll-Finds}

abbrev pub com1 : ℕ
com1 = 0x3F8

-- The writes of `serial_init`.
abbrev pub serial_init : Ports → Ports
serial_init p =
    write_all
      (record { port = com1 + 1; value = 0x00 }
        ∷ record { port = com1 + 3; value = 0x80 }
        ∷ record { port = com1 + 0; value = 0x03 }
        ∷ record { port = com1 + 1; value = 0x00 }
        ∷ record { port = com1 + 3; value = 0x03 }
        ∷ record { port = com1 + 2; value = 0xC7 }
        ∷ record { port = com1 + 4; value = 0x0B }
        ∷ [])
      p

abbrev pub is_transmit_empty : (status : ℕ) → Bool
is_transmit_empty status = not (bit_and status 0x20 == 0)

abbrev pub send : (c : ℕ) → Ports → Ports
send c p = write_all (record { port = com1; value = c } ∷ []) p

unfoldable pub serial_putc : (fuel : ℕ) (status : ℕ → ℕ) (c : ℕ) → Ports → Option Ports
serial_putc fuel status c p = and_then (poll fuel is_transmit_empty status p) (λ q. some (send c q))

unfoldable pub serial_puts : (fuel : ℕ) (status : ℕ → ℕ) (s : List ℕ) → Ports → Option Ports
serial_puts fuel status [] p = some p
serial_puts fuel status (c ∷ cs) p =
    let returned = if c == 10 then serial_putc fuel status 13 p else some p in
    and_then returned (λ q. and_then (serial_putc fuel status c q) (serial_puts fuel status cs))

-- `serial_putc` of each byte.
unfoldable pub putc_all : (fuel : ℕ) (status : ℕ → ℕ) (s : List ℕ) → Ports → Option Ports
unfolding serial_putc
putc_all fuel status [] p = some p
putc_all fuel status (c ∷ cs) p = and_then (serial_putc fuel status c p) (putc_all fuel status cs)

-- Each byte written to the data register.
unfoldable pub sent_bytes : List ℕ → List PortWrite
sent_bytes [] = []
sent_bytes (c ∷ cs) = record { port = com1; value = c } ∷ sent_bytes cs

-- From read `n` of the status to read `m`: before each byte the status is read until it shows the
-- transmitter empty, for the first time.
unfoldable pub Waits : (status : ℕ → ℕ) → (n : ℕ) → List ℕ → (m : ℕ) → Type 0
Waits status n [] m = n ≡ m
Waits status n (c ∷ cs) m =
    (k : ℕ) × (is_transmit_empty (status (n + k)) ≡ true)
    × ((j : ℕ) → j < k → is_transmit_empty (status (n + j)) ≡ false)
    × Waits status (n + suc k) cs m

-- The port to which the bytes were sent, in order, each after a wait, and nothing else.
abbrev pub Sent : (status : ℕ → ℕ) → List ℕ → Ports → Option Ports → Type 0
Sent status bytes p r =
    (q : Ports) × (r ≡ some q)
    × (q.writes ≡ p.writes ++ sent_bytes bytes)
    × Waits status p.status_reads bytes q.status_reads

module _ (fuel : ℕ) (status : ℕ → ℕ) (shows : Shows fuel is_transmit_empty status) where
  putc-Sent : (c : ℕ) (p : Ports) → Sent status (c ∷ []) p (serial_putc fuel status c p)
  unfolding serial_putc sent_bytes Waits
  putc-Sent c p =
      let (q, k, e, f) = poll-Finds fuel is_transmit_empty status p shows in
      (
        send c q,
        ap (λ r. and_then r (λ q. some (send c q))) e,
        ap (λ ws. ws ++ (record { port = com1; value = c } ∷ [])) f.writes,
        (k, f.shown, f.before, sym f.reads),
      )

  Sent-then :
      (c : ℕ) (cs : List ℕ) (p : Ports) (r : Option Ports) (f : Ports → Option Ports)
      → Sent status (c ∷ []) p r
      → ((q : Ports) → Sent status cs q (f q))
      → Sent status (c ∷ cs) p (and_then r f)
  unfolding sent_bytes Waits
  Sent-then c cs p r f (q, e, w, (k, shown, before, reads)) rest =
      let (q2, e2, w2, waits) = rest q in
      (
        q2,
        ap (λ r. and_then r f) e ∙ e2,
        w2
            ∙ ap (λ ws. ws ++ sent_bytes cs) w
            ∙ append_assoc p.writes (record { port = com1; value = c } ∷ []) (sent_bytes cs),
        (k, shown, before, rw reads waits),
      )

  pub puts-Sent :
      (s : List ℕ) (p : Ports) → Sent status (Kprintf.serial_puts s) p (serial_puts fuel status s p)
  unfolding serial_puts Kprintf.serial_puts sent_bytes Waits
  puts-Sent [] p = (p, refl, sym (append-nil p.writes), refl)
  puts-Sent (c ∷ cs) p =
      let byte : (q : Ports)
          → Sent status (c ∷ Kprintf.serial_puts cs) q
              (and_then (serial_putc fuel status c q) (serial_puts fuel status cs)) =
        λ q.
          Sent-then c (Kprintf.serial_puts cs) q (serial_putc fuel status c q)
            (serial_puts fuel status cs) (putc-Sent c q) (puts-Sent cs) in
      elim (Bool-cases (c == 10)) [
        | inl newline ↦ rw newline (
            Sent-then 13 (c ∷ Kprintf.serial_puts cs) p (serial_putc fuel status 13 p)
              (λ q. and_then (serial_putc fuel status c q) (serial_puts fuel status cs))
              (putc-Sent 13 p) byte)
        | inr other ↦ rw other (byte p)
      ]

  pub putc_all-Sent : (s : List ℕ) (p : Ports) → Sent status s p (putc_all fuel status s p)
  unfolding putc_all sent_bytes Waits
  putc_all-Sent [] p = (p, refl, sym (append-nil p.writes), refl)
  putc_all-Sent (c ∷ cs) p =
      Sent-then c cs p (serial_putc fuel status c p) (putc_all fuel status cs) (putc-Sent c p)
        (putc_all-Sent cs)
