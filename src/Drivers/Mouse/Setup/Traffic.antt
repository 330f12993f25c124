-- ===== src/Drivers/Mouse/Setup/Traffic.antt =====
-- What the set-up of the mouse does at the ports.
use chef_os.Prelude.{
  ℕ, zero, suc, ◌+◌, ◌*◌, ◌≤◌, ◌≡◌, refl, ap, ◌∙◌, sym, Bool, true, false, List, [], ◌∷◌, ◌++◌,
  bit_or, arith, ◌<◌, Bool-cases, inl, inr,
}
use mathlib.Core.Path.{subst}
use mathlib.Core.List.{append_assoc, append-nil}
use chef_os.Drivers.Timer.{PortWrite}
use chef_os.Drivers.Polling.{Ports, status_read}
use chef_os.Drivers.Mouse.Setup.{
  wait_loop, timeout_reads, output_full, input_empty, wait_outb, mouse_read, mouse_write,
  set_config, command, set_up,
}

-- At most `timeout` reads of the status: all but the last did not show what was waited for, and where
-- there were fewer, the last did.
pub record Waited (timeout : ℕ) (done : ℕ → Bool) (status : ℕ → ℕ) (p q : Ports) : Type 0 where
  pub reads : ℕ
  pub counted : q.status_reads ≡ p.status_reads + reads
  pub bounded : reads ≤ timeout
  pub not_yet : (k : ℕ) → suc k < reads → done (status (p.status_reads + k)) ≡ false
  pub shown :
      reads < timeout → (k : ℕ) × (suc k ≡ reads) × (done (status (p.status_reads + k)) ≡ true)
  pub data_reads : q.data_reads ≡ p.data_reads
  pub writes : q.writes ≡ p.writes

module _ (done : ℕ → Bool) (status : ℕ → ℕ) where
  first_read :
      (timeout : ℕ) (p : Ports)
      → done (status p.status_reads) ≡ true
      → Waited (suc timeout) done status p (status_read p)
  first_read timeout p now =
      let at : p.status_reads + 0 ≡ p.status_reads = omega arith in
      record {
        reads = 1;
        counted = refl;
        bounded = omega arith;
        not_yet = λ k lt. absurd (omega arith);
        shown = λ lt. (0, refl, ap (λ n. done (status n)) at ∙ now);
        data_reads = refl;
        writes = refl;
      }

  later_read :
      (timeout : ℕ) (p q : Ports)
      → done (status p.status_reads) ≡ false
      → Waited timeout done status (status_read p) q
      → Waited (suc timeout) done status p q
  later_read timeout p q later w = record {
    reads = suc w.reads;
    counted = w.counted ∙ omega arith;
    bounded = let b = w.bounded in omega arith;
    not_yet = before;
    shown = λ lt. let (k, e, d) = w.shown (omega arith) in (suc k, ap suc e, sym (shift k) ∙ d);
    data_reads = w.data_reads;
    writes = w.writes;
  }
    where
      shift :
          (k : ℕ) → done (status (p.status_reads + 1 + k)) ≡ done (status (p.status_reads + suc k))
      shift k =
          let at : p.status_reads + 1 + k ≡ p.status_reads + suc k = omega arith in
          ap (λ n. done (status n)) at

      before : (k : ℕ) → suc k < suc w.reads → done (status (p.status_reads + k)) ≡ false
      before zero lt =
          let at : p.status_reads + 0 ≡ p.status_reads = omega arith in
          ap (λ n. done (status n)) at ∙ later
      before (suc k) lt = sym (shift k) ∙ w.not_yet k (omega arith)

  -- A wait reads the status until a read shows what it waits for, or for as often as the timeout says,
  -- and does nothing else.
  pub wait_loop-Waited :
      (timeout : ℕ) (p : Ports) → Waited timeout done status p (wait_loop timeout done status p)
  unfolding wait_loop
  wait_loop-Waited zero p = record {
    reads = 0;
    counted = omega arith;
    bounded = omega arith;
    not_yet = λ k lt. absurd (omega arith);
    shown = λ lt. absurd (omega arith);
    data_reads = refl;
    writes = refl;
  }
  wait_loop-Waited (suc timeout) p = elim (Bool-cases (done (status p.status_reads))) [
    | inl now ↦ rw (wait_loop, now) (first_read timeout p now)
    | inr later ↦
        rw (wait_loop, later)
          (later_read timeout p (wait_loop timeout done status (status_read p)) later
            (wait_loop-Waited timeout (status_read p)))
  ]

-- Traffic with at most `waits` waits, `answers` reads of the data port and exactly these writes.
pub record Traffic (waits answers : ℕ) (ws : List PortWrite) (p q : Ports) : Type 0 where
  pub status_reads : q.status_reads ≤ p.status_reads + waits * timeout_reads
  pub data_reads : q.data_reads ≡ p.data_reads + answers
  pub writes : q.writes ≡ p.writes ++ ws

Traffic-then :
    (m a n b : ℕ) (ws us : List PortWrite) (p q r : Ports)
    → Traffic m a ws p q
    → Traffic n b us q r
    → Traffic (m + n) (a + b) (ws ++ us) p r
Traffic-then m a n b ws us p q r s t = record {
  status_reads = let s1 = s.status_reads in let t1 = t.status_reads in omega arith;
  data_reads = omega (arith, s.data_reads, t.data_reads);
  writes = t.writes ∙ ap (λ l. l ++ us) s.writes ∙ append_assoc p.writes ws us;
}

-- What a command to the mouse writes.
abbrev pub command_writes : (byte : ℕ) → List PortWrite
command_writes byte =
    record { port = 0x64; value = 0xD4 } ∷ record { port = 0x60; value = byte } ∷ []

-- What the change of the configuration writes, where `config` is the one that was read.
abbrev pub config_writes : (config : ℕ) → List PortWrite
config_writes config =
    record { port = 0x64; value = 0x20 }
    ∷ record { port = 0x64; value = 0x60 }
    ∷ record { port = 0x60; value = bit_or config 2 }
    ∷ []

-- What the whole set-up writes.
abbrev pub set_up_writes : (config : ℕ) → List PortWrite
set_up_writes config =
    record { port = 0x64; value = 0xA8 } ∷ config_writes config
    ++ (command_writes 0xF6 ++ command_writes 0xF4)

module _ (status data_port : ℕ → ℕ) where
  wait_outb-Traffic :
      (port value : ℕ) (p : Ports)
      → Traffic 1 0 (record { port = port; value = value } ∷ []) p (wait_outb status port value p)
  unfolding wait_outb
  wait_outb-Traffic port value p =
      let w = wait_loop-Waited input_empty status timeout_reads p in
      record {
        status_reads = let b = w.bounded in let c = w.counted in omega arith;
        data_reads = omega (arith, w.data_reads);
        writes = ap (λ l. l ++ (record { port = port; value = value } ∷ [])) w.writes;
      }

  mouse_read-Traffic : (p : Ports) → Traffic 1 1 [] p (mouse_read status data_port p).1
  unfolding mouse_read
  mouse_read-Traffic p =
      let w = wait_loop-Waited output_full status timeout_reads p in
      record {
        status_reads = let b = w.bounded in let c = w.counted in omega arith;
        data_reads = omega (arith, w.data_reads);
        writes = w.writes ∙ sym (append-nil p.writes);
      }

  mouse_read-byte : (p : Ports) → (mouse_read status data_port p).0 ≡ data_port p.data_reads
  unfolding mouse_read
  mouse_read-byte p = ap data_port (wait_loop-Waited output_full status timeout_reads p).data_reads

  mouse_write-Traffic :
      (byte : ℕ) (p : Ports) → Traffic 2 0 (command_writes byte) p (mouse_write status byte p)
  unfolding mouse_write
  mouse_write-Traffic byte p =
      Traffic-then 1 0 1 0 _ _ p _ _ (wait_outb-Traffic 0x64 0xD4 p)
        (wait_outb-Traffic 0x60 byte (wait_outb status 0x64 0xD4 p))

  command-Traffic :
      (byte : ℕ) (p : Ports) → Traffic 3 1 (command_writes byte) p (command status data_port byte p)
  unfolding command
  command-Traffic byte p =
      Traffic-then 2 0 1 1 _ _ p _ _ (mouse_write-Traffic byte p)
        (mouse_read-Traffic (mouse_write status byte p))

  set_config-Traffic :
      (p : Ports)
      → Traffic 4 1 (config_writes (data_port p.data_reads)) p (set_config status data_port p)
  unfolding set_config
  set_config-Traffic p =
      let asking = wait_outb status 0x64 0x20 p in
      let asked = mouse_read status data_port asking in
      let telling = wait_outb status 0x64 0x60 asked.1 in
      let first = wait_outb-Traffic 0x64 0x20 p in
      let byte : asked.0 ≡ data_port p.data_reads =
        mouse_read-byte asking ∙ ap data_port (first.data_reads ∙ omega arith) in
      let told =
        subst
          (λ b. Traffic 4 1 (config_writes b) p (wait_outb status 0x60 (bit_or asked.0 2) telling))
          byte
          (Traffic-then 3 1 1 0 _ _ p _ _
            (Traffic-then 2 1 1 0 _ _ p _ _
              (Traffic-then 1 0 1 1 _ _ p _ _ first (mouse_read-Traffic asking))
              (wait_outb-Traffic 0x64 0x60 asked.1))
            (wait_outb-Traffic 0x60 (bit_or asked.0 2) telling)) in
      told

  -- The port traffic of `ps2_mouse_init` ends whatever the controller answers, after at most 11 waits of
  -- 100000 reads of the status and 3 reads of the data port. It enables the mouse, sets the interrupt
  -- bit in the configuration that it read, and gives the mouse its defaults and the command to send
  -- packets; nothing else is written.
  pub set_up-Traffic :
      (p : Ports)
      → Traffic 11 3 (set_up_writes (data_port p.data_reads)) p (set_up status data_port p)
  unfolding set_up
  set_up-Traffic p =
      let enabled = wait_outb status 0x64 0xA8 p in
      let first = wait_outb-Traffic 0x64 0xA8 p in
      let same : enabled.data_reads ≡ p.data_reads = first.data_reads ∙ omega arith in
      let configured = set_config status data_port enabled in
      let defaults = command status data_port 0xF6 configured in
      subst
        (λ n. Traffic 11 3 (set_up_writes (data_port n)) p (command status data_port 0xF4 defaults))
        same
        (Traffic-then 1 0 10 3 _ _ p _ _ first (
          Traffic-then 4 1 6 2 _ _ enabled _ _ (set_config-Traffic enabled) (
            Traffic-then 3 1 3 1 _ _ configured _ _ (command-Traffic 0xF6 configured)
              (command-Traffic 0xF4 defaults))))
