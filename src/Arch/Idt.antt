-- ===== src/Arch/Idt.antt =====
-- Interrupt gates and handlers, kernel/src/arch/x86_64/idt.c, and the interrupt controller of pic.c.
-- A handler is named by its address. The assembly stubs that call `isr_handler` are not modelled.
use chef_os.Prelude.{
  ℕ, zero, suc, ◌+◌, ◌-◌, ◌*◌, ◌^◌, ◌<◌, ◌≡◌, refl, ap, sym, ◌∙◌, Bool-cases, inl, inr, ◌==◌, ◌&&◌,
  leb, ltb, if◌then◌else◌, List, [], ◌∷◌, Option, none, some, u8, u16, u32, shr, arith,
}
use chef_os.Drivers.Timer.{PortWrite}

pub record IdtEntry : Type 0 where
  pub offset_low : ℕ
  pub selector : ℕ
  pub ist : ℕ
  pub type_attributes : ℕ
  pub offset_mid : ℕ
  pub offset_high : ℕ
  pub reserved : ℕ

abbrev pub gate : (base sel flags : ℕ) → IdtEntry
gate base sel flags = record {
  offset_low = u16 base;
  selector = sel;
  ist = 0;
  type_attributes = flags;
  offset_mid = u16 (shr base 16);
  offset_high = u32 (shr base 32);
  reserved = 0;
}

unfoldable pub idt_set_gate : (num base sel flags : ℕ) → (ℕ → IdtEntry) → ℕ → IdtEntry
idt_set_gate num base sel flags table i = if i == num then gate base sel flags else table i

abbrev pub no_gate : IdtEntry
no_gate = record {
  offset_low = 0;
  selector = 0;
  ist = 0;
  type_attributes = 0;
  offset_mid = 0;
  offset_high = 0;
  reserved = 0;
}

-- The stubs of the exceptions 0 to 31 and of the interrupts 0 to 15, with `left` gates to set.
unfoldable pub set_gates : (left num : ℕ) (stub : ℕ → ℕ) → (ℕ → IdtEntry) → ℕ → IdtEntry
unfolding idt_set_gate
set_gates zero num stub table = table
set_gates (suc left) num stub table =
    set_gates left (num + 1) stub (idt_set_gate num (stub num) 0x08 0x8E table)

-- `s_idt` after `idt_init`, where `stub` gives the address of the stub for each vector.
unfoldable pub idt_init : (stub : ℕ → ℕ) → ℕ → IdtEntry
unfolding set_gates
idt_init stub = set_gates 16 32 stub (set_gates 32 0 stub (λ i. no_gate))

unfoldable pub register_interrupt_handler : ℕ → (handler : ℕ) → (ℕ → Option ℕ) → ℕ → Option ℕ
register_interrupt_handler n handler handlers i = if i == n then some handler else handlers i

-- `pic_send_eoi`
unfoldable pub pic_send_eoi : ℕ → List PortWrite
pic_send_eoi irq =
    let first : List PortWrite = record { port = 0x20; value = 0x20 } ∷ [] in
    if leb 8 irq then record { port = 0xA0; value = 0x20 } ∷ first else first

-- The writes of `pic_remap` besides the waits, with the masks that it reads first.
unfoldable pub pic_remap : (offset1 offset2 a1 a2 : ℕ) → List PortWrite
pic_remap offset1 offset2 a1 a2 =
    record { port = 0x20; value = 0x11 }
    ∷ record { port = 0xA0; value = 0x11 }
    ∷ record { port = 0x21; value = u8 offset1 }
    ∷ record { port = 0xA1; value = u8 offset2 }
    ∷ record { port = 0x21; value = 4 }
    ∷ record { port = 0xA1; value = 2 }
    ∷ record { port = 0x21; value = 1 }
    ∷ record { port = 0xA1; value = 1 }
    ∷ record { port = 0x21; value = a1 }
    ∷ record { port = 0xA1; value = a2 }
    ∷ []

unfoldable pub pic_disable : List PortWrite
pic_disable = record { port = 0x21; value = 0xFF } ∷ record { port = 0xA1; value = 0xFF } ∷ []

-- What a call of `isr_handler` does: it halts for good, or calls a handler or none and then sends
-- the end of the interrupt.
pub data Outcome : Type 0 where
  panic : Outcome
  handled : (handler : Option ℕ) → (eoi : List PortWrite) → Outcome

abbrev pub eoi_of : ℕ → List PortWrite
eoi_of int_no = if leb 32 int_no && ltb int_no 48 then pic_send_eoi (int_no - 32) else []

unfoldable pub isr_handler : (handlers : ℕ → Option ℕ) (int_no : ℕ) → Outcome
unfolding pic_send_eoi
isr_handler handlers int_no = elim (handlers int_no) [
  | some h ↦ handled (some h) (eoi_of int_no)
  | none ↦ if ltb int_no 32 then panic else handled none (eoi_of int_no)
]

-- The address that the processor reads from a gate.
unfoldable pub offset_of : IdtEntry → ℕ
offset_of e = e.offset_low + e.offset_mid * 2 ^ 16 + e.offset_high * 2 ^ 32

set_gates_lem :
    (left num : ℕ) (stub : ℕ → ℕ) (table : ℕ → IdtEntry) (i : ℕ)
    → set_gates left num stub table i
      ≡ (if leb num i && ltb i (num + left) then gate (stub i) 0x08 0x8E else table i)
unfolding set_gates
set_gates_lem zero num stub table i = ground arith
set_gates_lem (suc left) num stub table i =
    set_gates_lem left (num + 1) stub (idt_set_gate num (stub num) 0x08 0x8E table) i ∙ first
  where
    same_gate : i ≡ num → gate (stub num) 0x08 0x8E ≡ gate (stub i) 0x08 0x8E
    same_gate e = ap (λ n. gate (stub n) 0x08 0x8E) (sym e)

    first :
        (if leb (num + 1) i && ltb i (num + 1 + left)
          then gate (stub i) 0x08 0x8E
          else (if i == num then gate (stub num) 0x08 0x8E else table i))
        ≡ (if leb num i && ltb i (num + suc left) then gate (stub i) 0x08 0x8E else table i)
    first = ground (arith, same_gate)

gates_below :
    (i : ℕ) (e : IdtEntry)
    → (if leb 32 i && ltb i (32 + 16)
        then e
        else (if leb 0 i && ltb i (0 + 32) then e else no_gate))
      ≡ (if ltb i 48 then e else no_gate)
gates_below i e = ground arith

idt_init-gate :
    (stub : ℕ → ℕ) (i : ℕ)
    → idt_init stub i ≡ (if ltb i 48 then gate (stub i) 0x08 0x8E else no_gate)
unfolding idt_init
idt_init-gate stub i =
    set_gates_lem 16 32 stub (set_gates 32 0 stub (λ i. no_gate)) i
    ∙ rw (set_gates_lem 32 0 stub (λ i. no_gate) i) (gates_below i (gate (stub i) 0x08 0x8E))

-- `idt_init` gives each of the vectors 0 to 47 a gate that leads to its stub of a 64-bit address, in
-- the kernel's code segment and of the type 0x8E, and all other vectors none.
pub idt_init_lem :
    (stub : ℕ → ℕ) (i : ℕ)
    → stub i < 2 ^ 64
    → (offset_of (idt_init stub i) ≡ (if ltb i 48 then stub i else 0))
      × ((idt_init stub i).selector ≡ (if ltb i 48 then 0x08 else 0))
      × ((idt_init stub i).type_attributes ≡ (if ltb i 48 then 0x8E else 0))
unfolding offset_of
idt_init_lem stub i lt = rw (idt_init-gate stub i) (elim (Bool-cases (ltb i 48)) [
  | inl e ↦ rw e (omega arith, refl, refl)
  | inr e ↦ rw e (refl, refl, refl)
])
