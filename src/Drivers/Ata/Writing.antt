-- ===== src/Drivers/Ata/Writing.antt =====
-- What `ata_write_sectors` sends to a disk that answers.
use chef_os.Prelude.{
  ℕ, zero, suc, ◌+◌, ◌*◌, ◌≡◌, refl, ap, ◌∙◌, sym, List, [], ◌∷◌, ◌++◌, Option, none, some, arith,
}
use mathlib.Core.List.{append_assoc, append-nil}
use chef_os.Drivers.Timer.{PortWrite}
use chef_os.Drivers.Polling.{Ports, write_all, poll-Polled}
use chef_os.Drivers.Ata.{
  not_busy, ata_primary_data, command_writes, wait_sector, write_words, write_loop,
  ata_write_sectors,
}
use chef_os.Drivers.Ata.Sectors.{Answers, wait_sector-Polled}

-- The words `from`, `from` + 1, ... of a buffer, `n` of them, sent to the data port.
unfoldable pub data_writes : (buffer : ℕ → ℕ) → (from n : ℕ) → List PortWrite
data_writes buffer from zero = []
data_writes buffer from (suc n) =
    record { port = ata_primary_data; value = buffer from } ∷ data_writes buffer (from + 1) n

data_writes-append :
    (buffer : ℕ → ℕ) (from n m : ℕ)
    → data_writes buffer from n ++ data_writes buffer (from + n) m ≡ data_writes buffer from (n + m)
unfolding data_writes
data_writes-append buffer from zero m =
    let at : from + 0 ≡ from = omega arith in rw at (ap (data_writes buffer from) (omega arith))
data_writes-append buffer from (suc n) m =
    let at : from + suc n ≡ from + 1 + n = omega arith in
    let more : suc n + m ≡ suc (n + m) = omega arith in
    rw (at, more)
      (ap (λ l. record { port = ata_primary_data; value = buffer from } ∷ l)
        (data_writes-append buffer (from + 1) n m))

write_words_lem :
    (left i : ℕ) (buffer : ℕ → ℕ) (a : Ports)
    → (write_words left i buffer a).writes ≡ a.writes ++ data_writes buffer i left
unfolding write_words data_writes
write_words_lem zero i buffer a = sym (append-nil a.writes)
write_words_lem (suc left) i buffer a =
    write_words_lem left (i + 1) buffer _
    ∙ append_assoc a.writes (record { port = ata_primary_data; value = buffer i } ∷ [])
        (data_writes buffer (i + 1) left)

-- The disk to which the words were sent.
abbrev Sent : List PortWrite → Ports → Option Ports → Type 0
Sent ws a r = (b : Ports) × (r ≡ some b) × (b.writes ≡ a.writes ++ ws)

module _ (fuel : ℕ) (status : ℕ → ℕ) (h : Answers fuel status) where
  write_loop-step :
      (left i : ℕ) (buffer : ℕ → ℕ) (a b : Ports)
      → wait_sector fuel status a ≡ some b
      → write_loop (suc left) fuel i status buffer a
        ≡ write_loop left fuel (i + 256) status buffer (write_words 256 i buffer b)
  unfolding write_loop
  write_loop-step left i buffer a b e =
      ap
        (λ r. elim r as (λ z. Option Ports) [
          | none ↦ none
          | some c ↦ write_loop left fuel (i + 256) status buffer (write_words 256 i buffer c)
        ])
        e

  write_loop-Sent :
      (left i : ℕ) (buffer : ℕ → ℕ) (a : Ports)
      → Sent (data_writes buffer i (256 * left)) a (write_loop left fuel i status buffer a)
  unfolding write_loop data_writes
  write_loop-Sent zero i buffer a = (a, refl, sym (append-nil a.writes))
  write_loop-Sent (suc left) i buffer a =
      let (b, e, d, w) = wait_sector-Polled fuel status a h in
      let sent = write_words_lem 256 i buffer b in
      let (c, f, p) = write_loop-Sent left (i + 256) buffer (write_words 256 i buffer b) in
      let count : 256 + 256 * left ≡ 256 * suc left = omega arith in
      (
        c,
        write_loop-step left i buffer a b e ∙ f,
        p
            ∙ ap (λ l. l ++ data_writes buffer (i + 256) (256 * left)) sent
            ∙ append_assoc b.writes (data_writes buffer i 256)
                (data_writes buffer (i + 256) (256 * left))
            ∙ ap (λ l. b.writes ++ l) (data_writes-append buffer i 256 (256 * left))
            ∙ ap (λ n. b.writes ++ data_writes buffer i n) count
            ∙ ap (λ l. l ++ data_writes buffer i (256 * suc left)) w,
      )

-- With a disk that shows itself not busy, and with data, in one of any `fuel` reads of its status:
-- `ata_write_sectors` ends, and writes the command to the ports and then the first 256 words for each
-- of the sectors to the data port, in the order of the buffer, and nothing else.
pub ata_write_sectors-sent :
    (fuel : ℕ) (status buffer : ℕ → ℕ) (lba sector_count : ℕ) (a : Ports)
    → Answers fuel status
    → (b : Ports) × (ata_write_sectors fuel status buffer lba sector_count a ≡ some b)
      × (b.writes
          ≡ a.writes
            ++ (command_writes lba sector_count 0x30 ++ data_writes buffer 0 (256 * sector_count)))
unfolding ata_write_sectors
ata_write_sectors-sent fuel status buffer lba sector_count a h =
    let (b, e, d, w) = poll-Polled fuel not_busy status a h.ready in
    let started = write_all (command_writes lba sector_count 0x30) b in
    let (c, f, p) = write_loop-Sent fuel status h sector_count 0 buffer started in
    (
      c,
      ap
            (λ r. elim r as (λ z. Option Ports) [
              | none ↦ none
              | some x ↦
                  write_loop sector_count fuel 0 status buffer
                    (write_all (command_writes lba sector_count 0x30) x)
            ])
            e
          ∙ f,
      p
          ∙ append_assoc b.writes (command_writes lba sector_count 0x30)
              (data_writes buffer 0 (256 * sector_count))
          ∙ ap
              (λ l.
                l
                ++ (command_writes lba sector_count 0x30
                    ++ data_writes buffer 0 (256 * sector_count)))
              w,
    )
