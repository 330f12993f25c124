-- ===== src/Drivers/Rtc.antt =====
-- The CMOS clock, kernel/src/drivers/rtc.c. `cmos` gives the value of each register.
use chef_os.Prelude.{
  ℕ, ◌+◌, ◌-◌, ◌*◌, ◌/◌, ◌%◌, ◌≤◌, ◌<◌, ◌≡◌, bit_and, u8, u32, ==_iff, ◌==◌, arith, refl, true,
}
use chef_os.Prelude.Bits.{passes, passes_at}

unfoldable pub bcd_to_bin : ℕ → ℕ
bcd_to_bin bcd = u8 (bcd / 16 * 10 + bit_and bcd 0x0F)

pub record RtcTime : Type 0 where
  pub second : ℕ
  pub minute : ℕ
  pub hour : ℕ
  pub day : ℕ
  pub month : ℕ
  pub year : ℕ

unfoldable pub rtc_get_time : (cmos : ℕ → ℕ) → RtcTime
unfolding bcd_to_bin
rtc_get_time cmos = record {
  second = bcd_to_bin (cmos 0x00);
  minute = bcd_to_bin (cmos 0x02);
  hour = bcd_to_bin (cmos 0x04);
  day = bcd_to_bin (cmos 0x07);
  month = bcd_to_bin (cmos 0x08);
  year = u32 (2000 + bcd_to_bin (cmos 0x09));
}

-- Two decimal digits, a nibble each.
abbrev pub to_bcd : ℕ → ℕ
to_bcd n = n / 10 * 16 + n % 10

bcd_table : passes 100 (λ n. bcd_to_bin (to_bcd n) == n) ≡ true
unfolding passes bcd_to_bin
bcd_table = refl

bcd_to_bin-to_bcd : (n : ℕ) → n < 100 → bcd_to_bin (to_bcd n) ≡ n
bcd_to_bin-to_bcd n lt = (==_iff _ n).0 (passes_at 100 _ n bcd_table lt)

-- Each field is a two digit number, and the year is one of this century.
pub record IsTime (t : RtcTime) : Type 0 where
  pub second : t.second < 100
  pub minute : t.minute < 100
  pub hour : t.hour < 100
  pub day : t.day < 100
  pub month : t.month < 100
  pub since : 2000 ≤ t.year
  pub before : t.year < 2100

-- The registers hold the fields in binary coded decimal.
pub record Holds (cmos : ℕ → ℕ) (t : RtcTime) : Type 0 where
  pub second : cmos 0x00 ≡ to_bcd t.second
  pub minute : cmos 0x02 ≡ to_bcd t.minute
  pub hour : cmos 0x04 ≡ to_bcd t.hour
  pub day : cmos 0x07 ≡ to_bcd t.day
  pub month : cmos 0x08 ≡ to_bcd t.month
  pub year : cmos 0x09 ≡ to_bcd (t.year - 2000)

-- If the registers hold a time between 2000 and 2099 in binary coded decimal, `rtc_get_time`
-- returns that time.
pub rtc_get_time_lem :
    (cmos : ℕ → ℕ) (t : RtcTime) → IsTime t → Holds cmos t → rtc_get_time cmos ≡ t
unfolding rtc_get_time
rtc_get_time_lem cmos t v h = ground (
  arith,
  v.second,
  v.minute,
  v.hour,
  v.day,
  v.month,
  v.since,
  v.before,
  h.second,
  h.minute,
  h.hour,
  h.day,
  h.month,
  h.year,
  bcd_to_bin-to_bcd t.second,
  bcd_to_bin-to_bcd t.minute,
  bcd_to_bin-to_bcd t.hour,
  bcd_to_bin-to_bcd t.day,
  bcd_to_bin-to_bcd t.month,
  bcd_to_bin-to_bcd (t.year - 2000),
)
