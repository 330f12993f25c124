-- ===== src/Drivers/Ata/Sectors.antt =====
-- What a disk that answers gives and gets.
use chef_os.Prelude.{
  ℕ, zero, suc, ◌+◌, ◌*◌, ◌≡◌, refl, ap, ◌∙◌, List, [], ◌∷◌, ◌++◌, none, some, arith,
}
use chef_os.Drivers.Polling.{Ports, Polled, Shows, poll-Polled, and_then, write_all}
use chef_os.Drivers.Ata.{
  not_busy, has_data, wait_data, command_writes, read_words, Reading, joined, wait_sector,
  read_loop, ata_read_sectors,
}

-- In one of any `fuel` reads of the status the disk shows itself not busy, and in one it shows data.
pub record Answers (fuel : ℕ) (status : ℕ → ℕ) : Type 0 where
  pub ready : Shows fuel not_busy status
  pub data_there : Shows fuel has_data status

pub wait_sector-Polled :
    (fuel : ℕ) (status : ℕ → ℕ) (a : Ports)
    → Answers fuel status
    → Polled a (wait_sector fuel status a)
wait_sector-Polled fuel status a h =
    let (b, p, d, w) = poll-Polled fuel not_busy status a h.ready in
    let (c, q, d2, w2) = poll-Polled fuel has_data status b h.data_there in
    (c, ap (λ r. and_then r (wait_data fuel status)) p ∙ q, d2 ∙ d, w2 ∙ w)

-- The words `from`, `from` + 1, ... of a source, `n` of them.
unfoldable pub words_of : (source : ℕ → ℕ) → (from n : ℕ) → List ℕ
words_of source from zero = []
words_of source from (suc n) = source from ∷ words_of source (from + 1) n

words_of-append :
    (source : ℕ → ℕ) (from n m : ℕ)
    → words_of source from n ++ words_of source (from + n) m ≡ words_of source from (n + m)
unfolding words_of
words_of-append source from zero m =
    let at : from + 0 ≡ from = omega arith in rw at (ap (words_of source from) (omega arith))
words_of-append source from (suc n) m =
    let at : from + suc n ≡ from + 1 + n = omega arith in
    let more : suc n + m ≡ suc (n + m) = omega arith in
    rw (at, more) (ap (λ l. source from ∷ l) (words_of-append source (from + 1) n m))

read_words_lem :
    (left : ℕ) (data_port : ℕ → ℕ) (a : Ports)
    → ((read_words left data_port a).0 ≡ words_of data_port a.data_reads left)
      × ((read_words left data_port a).1.data_reads ≡ a.data_reads + left)
      × ((read_words left data_port a).1.writes ≡ a.writes)
unfolding read_words words_of
read_words_lem zero data_port a = (refl, omega arith, refl)
read_words_lem (suc left) data_port a =
    let (w, d, p) = read_words_lem left data_port (record a { data_reads = a.data_reads + 1 }) in
    (ap (λ l. data_port a.data_reads ∷ l) w, d ∙ omega arith, p)

-- What a read of `n` words leaves.
record ReadAll (data_port : ℕ → ℕ) (a : Ports) (n : ℕ) (r : Reading) : Type 0 where
  last : Ports
  result : r ≡ some (words_of data_port a.data_reads n, last)
  data_reads : last.data_reads ≡ a.data_reads + n
  writes : last.writes ≡ a.writes

module _ (fuel : ℕ) (status : ℕ → ℕ) (h : Answers fuel status) where
  read_loop-step :
      (left : ℕ) (data_port : ℕ → ℕ) (a b : Ports)
      → wait_sector fuel status a ≡ some b
      → read_loop (suc left) fuel status data_port a
        ≡ joined
            (read_words 256 data_port b).0
            (read_loop left fuel status data_port (read_words 256 data_port b).1)
  unfolding read_loop
  read_loop-step left data_port a b e =
      ap
        (λ r. elim r as (λ z. Reading) [
          | none ↦ none
          | some c ↦
              joined (read_words 256 data_port c).0
                (read_loop left fuel status data_port (read_words 256 data_port c).1)
        ])
        e

  read_loop-ReadAll :
      (left : ℕ) (data_port : ℕ → ℕ) (a : Ports)
      → ReadAll data_port a (256 * left) (read_loop left fuel status data_port a)
  unfolding read_loop words_of
  read_loop-ReadAll zero data_port a = record {
    last = a;
    result = refl;
    data_reads = omega arith;
    writes = refl;
  }
  read_loop-ReadAll (suc left) data_port a =
      let (b, e, d, w) = wait_sector-Polled fuel status a h in
      let (words, d2, w2) = read_words_lem 256 data_port b in
      let more = read_loop-ReadAll left data_port (read_words 256 data_port b).1 in
      let count : 256 + 256 * left ≡ 256 * suc left = omega arith in
      record {
        last = more.last;
        result =
            read_loop-step left data_port a b e
            ∙ ap (joined (read_words 256 data_port b).0) more.result
            ∙ ap (λ l. some (l, more.last))
                (ap
                    (λ l.
                      l
                      ++ words_of data_port (read_words 256 data_port b).1.data_reads (256 * left))
                    words
                  ∙ ap
                      (λ n.
                        words_of data_port b.data_reads 256 ++ words_of data_port n (256 * left))
                      d2
                  ∙ words_of-append data_port b.data_reads 256 (256 * left)
                  ∙ ap (λ n. words_of data_port n (256 + 256 * left)) d
                  ∙ ap (words_of data_port a.data_reads) count);
        data_reads = omega (arith, more.data_reads, d2, d);
        writes = more.writes ∙ w2 ∙ w;
      }

-- The sectors read: `words` are all words of the data port, in order, and `last` is the disk after.
pub record ReadSectors (data_port : ℕ → ℕ) (lba sector_count : ℕ) (a : Ports) (r : Reading)
    : Type 0 where
  pub last : Ports
  pub result : r ≡ some (words_of data_port a.data_reads (256 * sector_count), last)
  pub data_reads : last.data_reads ≡ a.data_reads + 256 * sector_count
  pub writes : last.writes ≡ a.writes ++ command_writes lba sector_count 0x20

-- With a disk that shows itself not busy, and with data, in one of any `fuel` reads of its status:
-- `ata_read_sectors` ends, and its buffer holds the 256 words that the data port gives for each of the
-- sectors, in their order. It writes the command to the ports, and nothing else.
pub ata_read_sectors-ReadSectors :
    (fuel : ℕ) (status data_port : ℕ → ℕ) (lba sector_count : ℕ) (a : Ports)
    → Answers fuel status
    → ReadSectors data_port lba sector_count a
        (ata_read_sectors fuel status data_port lba sector_count a)
unfolding ata_read_sectors
ata_read_sectors-ReadSectors fuel status data_port lba sector_count a h =
    let (b, e, d, w) = poll-Polled fuel not_busy status a h.ready in
    let started = write_all (command_writes lba sector_count 0x20) b in
    let all = read_loop-ReadAll fuel status h sector_count data_port started in
    record {
      last = all.last;
      result =
          ap
            (λ r. elim r as (λ z. Reading) [
              | none ↦ none
              | some c ↦
                  read_loop sector_count fuel status data_port
                    (write_all (command_writes lba sector_count 0x20) c)
            ])
            e
          ∙ all.result
          ∙ ap (λ n. some (words_of data_port n (256 * sector_count), all.last)) d;
      data_reads = all.data_reads ∙ ap (λ n. n + 256 * sector_count) d;
      writes = all.writes ∙ ap (λ l. l ++ command_writes lba sector_count 0x20) w;
    }
