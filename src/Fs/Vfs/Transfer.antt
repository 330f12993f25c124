-- ===== src/Fs/Vfs/Transfer.antt =====
-- Reading what was written, through the descriptor table.
use chef_os.Prelude.{
  ℕ, ◌+◌, ◌≤◌, ◌<◌, ◌^◌, ◌≡◌, ◌≢◌, refl, ap, ◌∙◌, ◌==◌, true, List, some, length, length-set, u64,
  arith,
}
use chef_os.Text.Signed.{pos}
use chef_os.Fs.File.{ramfs_read, ramfs_write}
use chef_os.Fs.File.ReadWrite.{Fits, ramfs_write-Written}
use chef_os.Fs.Tree.{ramfs_read_op, ramfs_write_op}
use chef_os.Fs.Vfs.{Vfs, entry, advance_fd, write_op_at, write_file, vfs_read, vfs_write}
use chef_os.Fs.Vfs.Table.{live_fd-entry, get_or-set_self, get_or-set_ne}

-- A descriptor of the table that names a node.
pub record Names (v : Vfs) (i n : ℕ) : Type 0 where
  pub in_range : i < 64
  pub in_table : i < length v.table
  pub node : (entry v i).node ≡ some n

-- A node of ramfs that holds a file.
pub record IsRamfsFile (v : Vfs) (n : ℕ) : Type 0 where
  pub reads : (v.store.node n).read ≡ some ramfs_read_op
  pub writes : (v.store.node n).write ≡ some ramfs_write_op
  pub fits : Fits (v.store.node n).file

-- What a write through descriptor `i` of node `n` leaves.
record AfterWrite (fresh : ℕ → ℕ) (v w : Vfs) (i n : ℕ) (bytes : List ℕ) : Type 0 where
  file : (w.store.node n).file ≡ ramfs_write fresh (v.store.node n).file (entry v i).offset bytes
  reads : (w.store.node n).read ≡ some ramfs_read_op
  moved : entry w i ≡ record (entry v i) { offset = u64 ((entry v i).offset + length bytes) }
  others : (j : ℕ) → j ≢ i → entry w j ≡ entry v j
  size : length w.table ≡ length v.table

module _ (fresh : ℕ → ℕ) (v : Vfs) (i n : ℕ) (bytes : List ℕ) (d : Names v i n)
    (f : IsRamfsFile v n) where
  w : Vfs
  w = advance_fd (write_file fresh v n (entry v i).offset bytes) i (length bytes)

  write_runs : vfs_write fresh (pos i) bytes v ≡ (pos (length bytes), w)
  unfolding vfs_write w
  write_runs =
      rw (live_fd-entry v i n d.in_range d.node) (ap (write_op_at fresh v i n bytes) f.writes)

  node_written : w.store.node n ≡ record (v.store.node n) {
    file = ramfs_write fresh (v.store.node n).file (entry v i).offset bytes;
  }
  unfolding w
  node_written = let same : (n == n) ≡ true = ground arith in rw same refl

  after_write : AfterWrite fresh v w i n bytes
  unfolding w
  after_write = record {
    file = ap (λ m. m.file) node_written;
    reads = ap (λ m. m.read) node_written ∙ f.reads;
    moved = get_or-set_self v.table i _ d.in_table;
    others = λ j ne. get_or-set_ne v.table i j _ d.in_table ne;
    size = length-set v.table i _;
  }

-- A read through descriptor `j` of a node of ramfs returns the bytes of the file at the offset of
-- the descriptor.
vfs_read-ramfs_read :
    (v : Vfs) (j n count : ℕ)
    → Names v j n
    → (v.store.node n).read ≡ some ramfs_read_op
    → ((vfs_read (pos j) count v).0
        ≡ pos (length (ramfs_read (v.store.node n).file (entry v j).offset count)))
      × ((vfs_read (pos j) count v).1 ≡ ramfs_read (v.store.node n).file (entry v j).offset count)
unfolding vfs_read
vfs_read-ramfs_read v j n count d reads =
    rw (live_fd-entry v j n d.in_range d.node, reads) (refl, refl)

-- Two descriptors of one file at the same offset: a write of bytes through the first returns their
-- number and moves the first behind them, and a read of as many bytes through the second returns
-- these bytes, if the end of the bytes is 512 or more below 2^64.
pub vfs_read-vfs_write :
    (fresh : ℕ → ℕ) (v : Vfs) (i j n : ℕ) (bytes : List ℕ)
    → Names v i n
    → Names v j n
    → IsRamfsFile v n
    → j ≢ i
    → (entry v j).offset ≡ (entry v i).offset
    → 0 < length bytes
    → (entry v i).offset + length bytes + 512 ≤ 2 ^ 64
    → ((vfs_write fresh (pos i) bytes v).0 ≡ pos (length bytes))
      × ((entry (vfs_write fresh (pos i) bytes v).1 i).offset ≡ (entry v i).offset + length bytes)
      × ((vfs_read (pos j) (length bytes) (vfs_write fresh (pos i) bytes v).1).0
          ≡ pos (length bytes))
      × ((vfs_read (pos j) (length bytes) (vfs_write fresh (pos i) bytes v).1).1 ≡ bytes)
vfs_read-vfs_write fresh v i j n bytes di dj f ne same filled room =
    let a = after_write fresh v i n bytes di f in
    let back =
      (ramfs_write-Written fresh (v.store.node n).file (entry v i).offset bytes f.fits filled
        room).there in
    let dw : Names (w fresh v i n bytes di f) j n = record {
      in_range = dj.in_range;
      in_table = omega (arith, dj.in_table, a.size);
      node = ap (λ d. d.node) (a.others j ne) ∙ dj.node;
    } in
    let r = vfs_read-ramfs_read (w fresh v i n bytes di f) j n (length bytes) dw a.reads in
    let at : (entry (w fresh v i n bytes di f) j).offset ≡ (entry v i).offset =
      ap (λ d. d.offset) (a.others j ne) ∙ same in
    let got : ramfs_read ((w fresh v i n bytes di f).store.node n).file
          (entry (w fresh v i n bytes di f) j).offset (length bytes)
        ≡ bytes =
      rw (a.file, at) back in
    rw (write_runs fresh v i n bytes di f) (
      refl,
      (ap (λ d. d.offset) a.moved ∙ omega arith),
      (r.0 ∙ ap (λ b. pos (length b)) got),
      (r.1 ∙ got),
    )
