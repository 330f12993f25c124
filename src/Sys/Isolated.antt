-- ===== src/Sys/Isolated.antt =====
-- The parts of the system that a call leaves alone.
use chef_os.Prelude.{ℕ, ◌≡◌, refl, if◌then◌else◌, Bool, true, false, some, length}
use chef_os.Text.Signed.{ℤ}
use chef_os.Fs.Vfs.{Vfs}
use chef_os.Video.Fb.Bounded.{Bounded, Bounded-refl}
use chef_os.Sys.{System}
use chef_os.Sys.Syscall.{Outcome}

-- No file, process, service, page or other port differs, no byte at an address of `kernel`, no word of a
-- buffer outside the pixels of the screen, and the descriptor table has its length.
pub record Isolated (kernel : ℕ → Bool) (s t : System) : Type 0 where
  pub store : t.vfs.store ≡ s.vfs.store
  pub root : t.vfs.root ≡ s.vfs.root
  pub table : length t.vfs.table ≡ length s.vfs.table
  pub fb : Bounded s.fb t.fb
  pub memory : (k : ℕ) → kernel k ≡ true → t.memory k ≡ s.memory k
  pub processes : t.processes ≡ s.processes
  pub services : t.services ≡ s.services
  pub pmm : t.pmm ≡ s.pmm
  pub ports : t.ports ≡ s.ports

pub Isolated-refl : (kernel : ℕ → Bool) (s : System) → Isolated kernel s s
Isolated-refl kernel s = record {
  store = refl;
  root = refl;
  table = refl;
  fb = Bounded-refl s.fb;
  memory = λ k ne. refl;
  processes = refl;
  services = refl;
  pmm = refl;
  ports = refl;
}

-- A call that returns, and leaves the rest alone.
abbrev pub Returns : (kernel : ℕ → Bool) → System → Outcome → Type 0
Returns kernel s o = (r : ℤ) × (t : System) × (o ≡ some (r, t)) × Isolated kernel s t

pub returns :
    (kernel : ℕ → Bool) (s : System) (o : ℤ × System)
    → Isolated kernel s o.1
    → Returns kernel s (some o)
returns kernel s o p = (o.0, o.1, refl, p)

pub choose-Returns :
    (kernel : ℕ → Bool) (s : System) (b : Bool) (x y : Outcome)
    → (b ≡ true → Returns kernel s x)
    → Returns kernel s y
    → Returns kernel s (if b then x else y)
choose-Returns kernel s true x y p q = p refl
choose-Returns kernel s false x y p q = q

pub choose-Isolated :
    (kernel : ℕ → Bool) (s : System) (b : Bool) (x y : ℤ × System)
    → Isolated kernel s x.1
    → Isolated kernel s y.1
    → Isolated kernel s (if b then x else y).1
choose-Isolated kernel s true x y p q = p
choose-Isolated kernel s false x y p q = q

-- The descriptors may differ, and the keyboard's character.
pub vfs-Isolated :
    (kernel : ℕ → Bool) (s : System) (v : Vfs)
    → v.store ≡ s.vfs.store
    → v.root ≡ s.vfs.root
    → length v.table ≡ length s.vfs.table
    → Isolated kernel s (record s { vfs = v })
vfs-Isolated kernel s v p q r = record {
  store = p;
  root = q;
  table = r;
  fb = Bounded-refl s.fb;
  memory = λ k ne. refl;
  processes = refl;
  services = refl;
  pmm = refl;
  ports = refl;
}
