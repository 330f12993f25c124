-- ===== src/Arch/Gdt.antt =====
-- Segment descriptors, kernel/src/arch/x86_64/gdt.c. A store in a field of w bits keeps the low w
-- bits, as the masks before it do.
use chef_os.Prelude.{
  ℕ, ◌+◌, ◌-◌, ◌*◌, ◌/◌, ◌%◌, ◌^◌, ◌<◌, ◌≡◌, ◌≢◌, refl, true, ◌==◌, ◌&&◌, if◌then◌else◌, bit_and,
  bit_or, u8, u16, u32, shr, arith,
}
use chef_os.Prelude.Bits.{passes, passes_at}

pub record GdtEntry : Type 0 where
  pub limit_low : ℕ
  pub base_low : ℕ
  pub base_middle : ℕ
  pub access : ℕ
  pub granularity : ℕ
  pub base_high : ℕ

unfoldable pub gate : (base limit access gran : ℕ) → GdtEntry
gate base limit access gran = record {
  limit_low = u16 limit;
  base_low = u16 base;
  base_middle = u8 (shr base 16);
  access = access;
  granularity = bit_or (bit_and (u8 (shr limit 16)) 0x0F) (bit_and gran 0xF0);
  base_high = u8 (shr base 24);
}

-- `s_gdt`; an index names an entry.
unfoldable pub gdt_set_gate : (num base limit access gran : ℕ) → (ℕ → GdtEntry) → ℕ → GdtEntry
unfolding gate
gdt_set_gate num base limit access gran table i =
    if i == num then gate base limit access gran else table i

-- `*tss_high = tss_base >> 32` over the first four bytes of entry 6.
abbrev pub set_tss_high : ℕ → (ℕ → GdtEntry) → ℕ → GdtEntry
set_tss_high v table i =
    if i == 6 then record (table 6) { limit_low = u16 v; base_low = u16 (shr v 16) } else table i

-- `tss_t`: the task state segment.
pub record Tss : Type 0 where
  pub reserved0 : ℕ
  pub rsp0 : ℕ
  pub rsp1 : ℕ
  pub rsp2 : ℕ
  pub reserved1 : ℕ
  pub ist1 : ℕ
  pub ist2 : ℕ
  pub ist3 : ℕ
  pub ist4 : ℕ
  pub ist5 : ℕ
  pub ist6 : ℕ
  pub ist7 : ℕ
  pub reserved2 : ℕ
  pub reserved3 : ℕ
  pub iomap_base : ℕ

-- The bytes of the packed structure, field by field.
abbrev pub tss_size : ℕ
tss_size = 4 + 8 * 3 + 8 + 8 * 7 + 8 + 2 + 2

-- The segment that `gdt_init` leaves: all zero but the base of the map of ports.
abbrev pub tss_init : Tss
tss_init = record {
  reserved0 = 0;
  rsp0 = 0;
  rsp1 = 0;
  rsp2 = 0;
  reserved1 = 0;
  ist1 = 0;
  ist2 = 0;
  ist3 = 0;
  ist4 = 0;
  ist5 = 0;
  ist6 = 0;
  ist7 = 0;
  reserved2 = 0;
  reserved3 = 0;
  iomap_base = tss_size;
}

unfoldable pub tss_set_kernel_stack : (stack : ℕ) → Tss → Tss
tss_set_kernel_stack stack tss = record tss { rsp0 = stack }

-- The table that `gdt_init` fills, with the task state segment at `tss_base`.
unfoldable pub gdt_init : (tss_base : ℕ) → (ℕ → GdtEntry) → ℕ → GdtEntry
unfolding gdt_set_gate
gdt_init tss_base table = set_tss_high (u32 (shr tss_base 32)) (
    gdt_set_gate 5 (u32 tss_base) (tss_size - 1) 0x89 0x00 (
      gdt_set_gate 4 0 0xFFFFF 0xFA 0xA0 (
        gdt_set_gate 3 0 0xFFFFF 0xF2 0xC0 (
          gdt_set_gate 2 0 0xFFFFF 0x92 0xC0
            (gdt_set_gate 1 0 0xFFFFF 0x9A 0xA0 (gdt_set_gate 0 0 0 0 0 table))))))

-- The base and the limit that the processor reads from an entry.
unfoldable pub base_of : GdtEntry → ℕ
base_of e = e.base_low + e.base_middle * 2 ^ 16 + e.base_high * 2 ^ 24

unfoldable pub limit_of : GdtEntry → ℕ
limit_of e = e.limit_low + e.granularity % 16 * 2 ^ 16

nibble_table :
    passes 256 (λ g. passes 256 (λ l.
      (bit_or (bit_and l 0x0F) (bit_and g 0xF0) % 16 == l % 16)
      && (bit_or (bit_and l 0x0F) (bit_and g 0xF0) / 16 == g / 16)))
    ≡ true
unfolding passes
nibble_table = refl

nibbles :
    (l g : ℕ)
    → l < 256
    → g < 256
    → (bit_or (bit_and l 0x0F) (bit_and g 0xF0) % 16 ≡ l % 16)
      × (bit_or (bit_and l 0x0F) (bit_and g 0xF0) / 16 ≡ g / 16)
nibbles l g hl hg = ground (arith, passes_at 256 _ l (passes_at 256 _ g nibble_table hg) hl)

-- A gate of a 32-bit base, a 20-bit limit and a byte of flags holds this base, this limit, the access
-- byte and the high half of the flags; the other gates of the table do not change.
pub gdt_set_gate_lem :
    (num base limit access gran : ℕ) (table : ℕ → GdtEntry)
    → base < 2 ^ 32
    → limit < 2 ^ 20
    → gran < 2 ^ 8
    → (base_of (gdt_set_gate num base limit access gran table num) ≡ base)
      × (limit_of (gdt_set_gate num base limit access gran table num) ≡ limit)
      × ((gdt_set_gate num base limit access gran table num).access ≡ access)
      × ((gdt_set_gate num base limit access gran table num).granularity / 16 ≡ gran / 16)
      × ((i : ℕ) → i ≢ num → gdt_set_gate num base limit access gran table i ≡ table i)
unfolding gdt_set_gate base_of limit_of
gdt_set_gate_lem num base limit access gran table hb hl hg =
    let same : (num == num) ≡ true = ground arith in
    let parts = nibbles (u8 (shr limit 16)) gran (omega arith) hg in
    rw same (omega arith, omega (arith, parts.0), refl, parts.1, λ i ne. ground arith)
