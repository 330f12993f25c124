-- ===== src/Drivers/Ata.antt =====
-- The disk driver, kernel/src/drivers/ata.c. The disk is an argument: `status` gives what each read of
-- the status register answers, `data` what each read of the data port does. The loops that poll the
-- status register are on fuel, and `none` is a poll that does not end within it.
pub mod Sectors
pub mod Writing
use chef_os.Prelude.{
  ℕ, Bool, zero, suc, ◌+◌, ◌==◌, not, if◌then◌else◌, List, [], ◌∷◌, ◌++◌, Option, none, some,
  bit_and, bit_or, shr, u8,
}
use chef_os.Drivers.Timer.{PortWrite}
use chef_os.Drivers.Polling.{Ports, write_all, and_then, poll}

abbrev pub ata_primary_data : ℕ
ata_primary_data = 0x1F0

abbrev pub ata_status_bsy : ℕ
ata_status_bsy = 0x80

abbrev pub ata_status_drq : ℕ
ata_status_drq = 0x08

abbrev pub not_busy : (status : ℕ) → Bool
not_busy status = bit_and status ata_status_bsy == 0

abbrev pub has_data : (status : ℕ) → Bool
has_data status = not (bit_and status ata_status_drq == 0)

-- `while (inb(ATA_PRIMARY_COMM_REGSTAT) & ATA_STATUS_BSY);`
abbrev pub ata_wait_ready : (fuel : ℕ) → (status : ℕ → ℕ) → Ports → Option Ports
ata_wait_ready fuel status a = poll fuel not_busy status a

-- `while (!(inb(ATA_PRIMARY_COMM_REGSTAT) & ATA_STATUS_DRQ));`
abbrev pub wait_data : (fuel : ℕ) → (status : ℕ → ℕ) → Ports → Option Ports
wait_data fuel status a = poll fuel has_data status a

-- The writes that set the sectors and give the command.
abbrev pub command_writes : (lba sector_count command : ℕ) → List PortWrite
command_writes lba sector_count command =
    record { port = 0x1F6; value = u8 (bit_or 0xE0 (bit_and (shr lba 24) 0x0F)) }
    ∷ record { port = 0x1F2; value = sector_count }
    ∷ record { port = 0x1F3; value = u8 lba }
    ∷ record { port = 0x1F4; value = u8 (shr lba 8) }
    ∷ record { port = 0x1F5; value = u8 (shr lba 16) }
    ∷ record { port = 0x1F7; value = command }
    ∷ []

-- `*buf++ = inw(ATA_PRIMARY_DATA);`, `left` times.
unfoldable pub read_words : (left : ℕ) → (data_port : ℕ → ℕ) → Ports → List ℕ × Ports
read_words zero data_port a = ([], a)
read_words (suc left) data_port a =
    let rest = read_words left data_port (record a { data_reads = a.data_reads + 1 }) in
    (data_port a.data_reads ∷ rest.0, rest.1)

-- The words read so far, and the disk after; `none` is a poll without end.
abbrev pub Reading : Type 0
Reading = Option (List ℕ × Ports)

abbrev pub joined : List ℕ → Reading → Reading
joined words none = none
joined words (some (more, a)) = some (words ++ more, a)

-- The disk that is ready to move a sector.
abbrev pub wait_sector : (fuel : ℕ) → (status : ℕ → ℕ) → Ports → Option Ports
wait_sector fuel status a = and_then (ata_wait_ready fuel status a) (wait_data fuel status)

-- The loop over the sectors, with `left` to go.
unfoldable pub read_loop : (left fuel : ℕ) (status data_port : ℕ → ℕ) → Ports → Reading
unfolding read_words
read_loop zero fuel status data_port a = some ([], a)
read_loop (suc left) fuel status data_port a = elim (wait_sector fuel status a) [
  | none ↦ none
  | some b ↦
      joined (read_words 256 data_port b).0
        (read_loop left fuel status data_port (read_words 256 data_port b).1)
]

unfoldable pub ata_read_sectors :
    (fuel : ℕ) (status data_port : ℕ → ℕ) (lba sector_count : ℕ) → Ports → Reading
unfolding read_loop
ata_read_sectors fuel status data_port lba sector_count a = elim (ata_wait_ready fuel status a) [
  | none ↦ none
  | some b ↦
      read_loop sector_count fuel status data_port
        (write_all (command_writes lba sector_count 0x20) b)
]

-- `outw(ATA_PRIMARY_DATA, *buf++);`, `left` times from word `i` of the buffer.
unfoldable pub write_words : (left i : ℕ) → (buffer : ℕ → ℕ) → Ports → Ports
write_words zero i buffer a = a
write_words (suc left) i buffer a =
    write_words left (i + 1) buffer
      (write_all (record { port = ata_primary_data; value = buffer i } ∷ []) a)

unfoldable pub write_loop : (left fuel i : ℕ) (status buffer : ℕ → ℕ) → Ports → Option Ports
unfolding write_words
write_loop zero fuel i status buffer a = some a
write_loop (suc left) fuel i status buffer a = elim (wait_sector fuel status a) [
  | none ↦ none
  | some b ↦ write_loop left fuel (i + 256) status buffer (write_words 256 i buffer b)
]

unfoldable pub ata_write_sectors :
    (fuel : ℕ) (status buffer : ℕ → ℕ) (lba sector_count : ℕ) → Ports → Option Ports
unfolding write_loop
ata_write_sectors fuel status buffer lba sector_count a = elim (ata_wait_ready fuel status a) [
  | none ↦ none
  | some b ↦
      write_loop sector_count fuel 0 status buffer
        (write_all (command_writes lba sector_count 0x30) b)
]
