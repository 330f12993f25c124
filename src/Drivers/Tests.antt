-- ===== src/Drivers/Tests.antt =====
-- The driver theorems at concrete inputs, and small runs of the code.
use chef_os.Prelude.{
  ◌%◌, ◌+◌, Bool-cases, inl, inr, ℕ, ◌*◌, ◌≡◌, refl, false, true, ◌==◌, List, [], ◌∷◌, ◌++◌, some,
  if◌then◌else◌, arith, length,
}
use chef_os.Drivers.Keyboard.{press_all}
use chef_os.Drivers.Mouse.{Mouse, IsValid, mouse_callback, bit_set, rest_x, rest_y, mouse_packet}
use chef_os.Drivers.Polling.{Ports, Shows}
use chef_os.Drivers.Serial.{is_transmit_empty, serial_puts}
use chef_os.Drivers.Serial.Text.{SentText, serial_puts-SentText}
use chef_os.Drivers.Mouse.Setup.{set_up}
use chef_os.Drivers.Mouse.Setup.Traffic.{Traffic, set_up_writes, set_up-Traffic}
use chef_os.Drivers.Ata.{command_writes, ata_read_sectors, ata_write_sectors}
use chef_os.Drivers.Ata.Sectors.{Answers, ReadSectors, ata_read_sectors-ReadSectors}
use chef_os.Drivers.Ata.Writing.{data_writes, ata_write_sectors-sent}
use chef_os.Drivers.Pci.{dev_loop}

-- The key `a`, its release, and a shift key.
abbrev keys : List ℕ
keys = 30 ∷ 158 ∷ 42 ∷ []

keys_run : press_all keys 0 ≡ 97
unfolding press_all
keys_run = refl

abbrev mouse : Mouse
mouse = record {
  state = record {
    x = 3;
    y = 300;
    left_button = false;
    right_button = false;
    middle_button = true;
  };
  cycle = 0;
  byte0 = 0;
  byte1 = 0;
  byte2 = 0;
  max_x = 1024;
  max_y = 768;
}

mouse-IsValid : IsValid mouse
mouse-IsValid = record {
  on_x = omega arith;
  on_y = omega arith;
  small_x = omega arith;
  small_y = omega arith;
  in_packet = omega arith;
  byte1_fits = omega arith;
  byte2_fits = omega arith;
}

-- Left by 10 to the edge of the screen and up by 5, with the left button down.
mouse_packet_example :
    let after = mouse_callback 0x21 5 (mouse_callback 0x21 246 (mouse_callback 0x21 0x19 mouse)) in
    (after.state.x ≡ rest_x mouse 0x19 246)
    × (after.state.y ≡ rest_y mouse 0x19 5)
    × (after.state.left_button ≡ bit_set 0x19 0x01)
    × (after.state.right_button ≡ bit_set 0x19 0x02)
    × (after.state.middle_button ≡ bit_set 0x19 0x04)
    × (after.cycle ≡ 0)
mouse_packet_example =
    mouse_packet mouse 0x21 0x21 0x21 0x19 246 5 mouse-IsValid refl (omega arith) (omega arith) refl
      refl refl

-- A bus with an Ethernet controller in slot 3 and nothing else.
abbrev slots : ℕ → ℕ
slots a = if a == 0x80001800 then 0x100E8086 else if a == 0x80001808 then 0x02000003 else 0xFFFFFFFF

slots_run : length (dev_loop slots 5 0 0 []) ≡ 1
unfolding dev_loop
slots_run = refl

-- A disk that always has data, and gives the numbers of its words.
abbrev disk_status : ℕ → ℕ
disk_status n = 0x48

disk-Answers : Answers 1 disk_status
disk-Answers = record {
  ready = λ n. (0, omega arith, refl);
  data_there = λ n. (0, omega arith, refl);
}

abbrev idle : Ports
idle = record { status_reads = 0; data_reads = 0; writes = [] }

ata_read_sectors-ReadSectors_example :
    ReadSectors (λ n. n) 0x1234567 2 idle (ata_read_sectors 1 disk_status (λ n. n) 0x1234567 2 idle)
ata_read_sectors-ReadSectors_example =
    ata_read_sectors-ReadSectors 1 disk_status (λ n. n) 0x1234567 2 idle disk-Answers

ata_write_sectors-sent_example :
    (b : Ports) × (ata_write_sectors 1 disk_status (λ n. n) 0x1234567 2 idle ≡ some b)
    × (b.writes ≡ [] ++ (command_writes 0x1234567 2 0x30 ++ data_writes (λ n. n) 0 (256 * 2)))
ata_write_sectors-sent_example =
    ata_write_sectors-sent 1 disk_status (λ n. n) 0x1234567 2 idle disk-Answers

set_up-Traffic_example : Traffic 11 3 (set_up_writes 0x45) idle (set_up (λ n. 1) (λ n. 0x45) idle)
set_up-Traffic_example = set_up-Traffic (λ n. 1) (λ n. 0x45) idle

-- A transmitter that is busy at every second read of its status.
abbrev line_status : ℕ → ℕ
line_status n = if n % 2 == 0 then 0 else 0x20

line-Shows : Shows 2 is_transmit_empty line_status
line-Shows n = elim (Bool-cases (n % 2 == 0)) [
  | inl even ↦ let odd : ((n + 1) % 2 == 0) ≡ false = ground arith in (1, omega arith, rw odd refl)
  | inr odd ↦ let at : n + 0 ≡ n = omega arith in (0, omega arith, rw (at, odd) refl)
]

serial_puts-SentText_example :
    SentText line_status
      (79 ∷ 75 ∷ 10 ∷ [])
      idle
      (serial_puts 2 line_status (79 ∷ 75 ∷ 10 ∷ []) idle)
serial_puts-SentText_example =
    serial_puts-SentText 2 line_status (79 ∷ 75 ∷ 10 ∷ []) idle line-Shows
