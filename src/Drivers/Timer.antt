-- ===== src/Drivers/Timer.antt =====
-- The interval timer, kernel/src/drivers/timer.c. The state is `s_ticks`; the port writes are
-- values in the order in which they are made.
use chef_os.Prelude.{
  ℕ, zero, suc, ◌+◌, ◌/◌, ◌^◌, ◌<◌, ◌≡◌, bit_and, u8, u16, u64, sub64, shr, ltb, true, List, [],
  ◌∷◌, if◌then◌else◌, Option, none, some, arith,
}

pub record PortWrite : Type 0 where
  pub port : ℕ
  pub value : ℕ

abbrev pub base_hz : ℕ
base_hz = 1193180

unfoldable pub timer_callback : ℕ → ℕ
timer_callback ticks = u64 (ticks + 1)

abbrev pub divisor : ℕ → ℕ
divisor frequency_hz = u16 (base_hz / frequency_hz)

unfoldable pub timer_init : (frequency_hz : ℕ) → List PortWrite
timer_init frequency_hz =
    record { port = 0x43; value = 0x36 }
    ∷ record { port = 0x40; value = u8 (bit_and (divisor frequency_hz) 0xFF) }
    ∷ record { port = 0x40; value = u8 (bit_and (shr (divisor frequency_hz) 8) 0xFF) }
    ∷ []

-- The loop of `timer_sleep_ms` where each halt ends with one tick; `none` when the fuel runs out.
unfoldable pub sleep_loop : ℕ → (start ms ticks : ℕ) → Option ℕ
unfolding timer_callback
sleep_loop zero start ms ticks = none
sleep_loop (suc fuel) start ms ticks =
    let rest = sleep_loop fuel start ms (timer_callback ticks) in
    if ltb (sub64 ticks start) ms then rest else some ticks

abbrev pub timer_sleep_ms : ℕ → ℕ → ℕ → Option ℕ
timer_sleep_ms fuel ms ticks = sleep_loop fuel ticks ms ticks

sleep_loop_lem :
    (left start ms done fuel : ℕ)
    → start < 2 ^ 64
    → ms < 2 ^ 64
    → done + left ≡ ms
    → left < fuel
    → sleep_loop fuel start ms (u64 (start + done)) ≡ some (u64 (start + ms))
unfolding sleep_loop
sleep_loop_lem left start ms done zero hs hm e lt = absurd (omega arith)
sleep_loop_lem zero start ms done (suc fuel) hs hm e lt = ground arith
sleep_loop_lem (suc left) start ms done (suc fuel) hs hm e lt =
    let next : timer_callback (u64 (start + done)) ≡ u64 (start + (done + 1)) =
      unfold timer_callback in omega arith in
    let more : ltb (sub64 (u64 (start + done)) start) ms ≡ true = ground arith in
    rw (more, next) (sleep_loop_lem left start ms (done + 1) fuel hs hm (omega arith) (omega arith))

-- `timer_sleep_ms` ends after exactly `ms` ticks, also where the tick counter wraps, when one tick
-- follows each halt.
pub timer_sleep_ms_lem :
    (fuel ms ticks : ℕ)
    → ticks < 2 ^ 64
    → ms < 2 ^ 64
    → ms < fuel
    → timer_sleep_ms fuel ms ticks ≡ some (u64 (ticks + ms))
timer_sleep_ms_lem fuel ms ticks ht hm enough =
    let now : u64 (ticks + 0) ≡ ticks = omega arith in
    rw now at (sleep_loop_lem ms ticks ms 0 fuel ht hm (omega arith) enough)
