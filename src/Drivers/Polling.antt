-- ===== src/Drivers/Polling.antt =====
-- Loops that read a status register until it shows what they wait for, as the drivers in
-- kernel/src/drivers/ata.c and kernel/src/sys/serial.c have them. They are on fuel, and `none` is a loop
-- that does not end within it.
use chef_os.Prelude.{
  ℕ, zero, false, suc, ◌+◌, ◌<◌, ◌≡◌, refl, ap, ◌∙◌, sym, Bool, true, List, ◌++◌, Option, none,
  some, arith, if◌then◌else◌, Bool-cases, inl, inr,
}
use chef_os.Drivers.Timer.{PortWrite}

-- How often the status register and the data port were read, and what was written to the ports.
pub record Ports : Type 0 where
  pub status_reads : ℕ
  pub data_reads : ℕ
  pub writes : List PortWrite

abbrev pub status_read : Ports → Ports
status_read p = record p { status_reads = p.status_reads + 1 }

abbrev pub write_all : List PortWrite → Ports → Ports
write_all ws p = record p { writes = p.writes ++ ws }

abbrev pub and_then : Option Ports → (Ports → Option Ports) → Option Ports
and_then none f = none
and_then (some p) f = f p

unfoldable pub poll : (fuel : ℕ) → (done : ℕ → Bool) → (status : ℕ → ℕ) → Ports → Option Ports
poll zero done status p = none
poll (suc fuel) done status p =
    let rest = poll fuel done status (status_read p) in
    if done (status p.status_reads) then some (status_read p) else rest

-- From each read of the status register on, one of the next `fuel` reads shows what is waited for.
abbrev pub Shows : (fuel : ℕ) (done : ℕ → Bool) (status : ℕ → ℕ) → Type 0
Shows fuel done status = (n : ℕ) → (k : ℕ) × (k < fuel) × (done (status (n + k)) ≡ true)

-- Only more reads of the status register.
abbrev pub Polled : Ports → Option Ports → Type 0
Polled p r = (q : Ports) × (r ≡ some q) × (q.data_reads ≡ p.data_reads) × (q.writes ≡ p.writes)

poll_lem :
    (fuel k : ℕ) (done : ℕ → Bool) (status : ℕ → ℕ) (p : Ports)
    → k < fuel
    → done (status (p.status_reads + k)) ≡ true
    → Polled p (poll fuel done status p)
unfolding poll
poll_lem zero k done status p lt e = absurd (omega arith)
poll_lem (suc fuel) zero done status p lt e =
    let at : p.status_reads + 0 ≡ p.status_reads = omega arith in
    let now : done (status p.status_reads) ≡ true = sym (ap (λ n. done (status n)) at) ∙ e in
    rw now (status_read p, refl, refl, refl)
poll_lem (suc fuel) (suc k) done status p lt e =
    let at : p.status_reads + suc k ≡ p.status_reads + 1 + k = omega arith in
    elim (Bool-cases (done (status p.status_reads))) [
      | inl now ↦ rw now (status_read p, refl, refl, refl)
      | inr later ↦ rw later (
          poll_lem fuel k done status (status_read p) (omega arith)
            (sym (ap (λ n. done (status n)) at) ∙ e))
    ]

pub poll-Polled :
    (fuel : ℕ) (done : ℕ → Bool) (status : ℕ → ℕ) (p : Ports)
    → Shows fuel done status
    → Polled p (poll fuel done status p)
poll-Polled fuel done status p shows =
    let (k, lt, e) = shows p.status_reads in poll_lem fuel k done status p lt e

-- The read `k` places on is the first that shows what is waited for, and the last that was made.
pub record Found (done : ℕ → Bool) (status : ℕ → ℕ) (p q : Ports) (k : ℕ) : Type 0 where
  pub shown : done (status (p.status_reads + k)) ≡ true
  pub before : (j : ℕ) → j < k → done (status (p.status_reads + j)) ≡ false
  pub reads : q.status_reads ≡ p.status_reads + suc k
  pub writes : q.writes ≡ p.writes

abbrev pub Finds : (done : ℕ → Bool) (status : ℕ → ℕ) → Ports → Option Ports → Type 0
Finds done status p r = (q : Ports) × (k : ℕ) × (r ≡ some q) × Found done status p q k

found_now :
    (done : ℕ → Bool) (status : ℕ → ℕ) (p : Ports)
    → done (status p.status_reads) ≡ true
    → Finds done status p (some (status_read p))
found_now done status p now =
    let at : p.status_reads + 0 ≡ p.status_reads = omega arith in
    (
      status_read p,
      0,
      refl,
      record {
        shown = ap (λ n. done (status n)) at ∙ now;
        before = λ j lt. absurd (omega arith);
        reads = refl;
        writes = refl;
      },
    )

found_later :
    (done : ℕ → Bool) (status : ℕ → ℕ) (p : Ports) (r : Option Ports)
    → done (status p.status_reads) ≡ false
    → Finds done status (status_read p) r
    → Finds done status p r
found_later done status p r later (q, k, e, f) = (
  q,
  suc k,
  e,
  record {
    shown = sym (shift k) ∙ f.shown;
    before = before;
    reads = f.reads ∙ omega arith;
    writes = f.writes;
  },
)
  where
    shift :
        (j : ℕ) → done (status (p.status_reads + 1 + j)) ≡ done (status (p.status_reads + suc j))
    shift j =
        let at : p.status_reads + 1 + j ≡ p.status_reads + suc j = omega arith in
        ap (λ n. done (status n)) at

    before : (j : ℕ) → j < suc k → done (status (p.status_reads + j)) ≡ false
    before zero lt =
        let at : p.status_reads + 0 ≡ p.status_reads = omega arith in
        ap (λ n. done (status n)) at ∙ later
    before (suc j) lt = sym (shift j) ∙ f.before j (omega arith)

first_lem :
    (fuel k : ℕ) (done : ℕ → Bool) (status : ℕ → ℕ) (p : Ports)
    → k < fuel
    → done (status (p.status_reads + k)) ≡ true
    → Finds done status p (poll fuel done status p)
unfolding poll
first_lem zero k done status p lt e = absurd (omega arith)
first_lem (suc fuel) zero done status p lt e =
    let at : p.status_reads + 0 ≡ p.status_reads = omega arith in
    let now : done (status p.status_reads) ≡ true = sym (ap (λ n. done (status n)) at) ∙ e in
    rw now (found_now done status p now)
first_lem (suc fuel) (suc k) done status p lt e =
    let at : p.status_reads + suc k ≡ p.status_reads + 1 + k = omega arith in
    elim (Bool-cases (done (status p.status_reads))) [
      | inl now ↦ rw now (found_now done status p now)
      | inr later ↦ rw later (
          found_later done status p _ later (
            first_lem fuel k done status (status_read p) (omega arith)
              (sym (ap (λ n. done (status n)) at) ∙ e)))
    ]

-- A loop that waits for what is shown in time ends at the first read that shows it.
pub poll-Finds :
    (fuel : ℕ) (done : ℕ → Bool) (status : ℕ → ℕ) (p : Ports)
    → Shows fuel done status
    → Finds done status p (poll fuel done status p)
poll-Finds fuel done status p shows =
    let (k, lt, e) = shows p.status_reads in first_lem fuel k done status p lt e
