-- ===== src/Sys/Calls.antt =====
-- System calls one after another.
use chef_os.Prelude.{ℕ, ◌<◌, ◌≡◌, ◌≢◌, refl, ◌∙◌, sym, List, some, u32, length, arith, inl, inr}
use chef_os.Text.Signed.{pos}
use chef_os.Fs.Tree.{vfs_lookup}
use chef_os.Fs.Vfs.{Vfs, vfs_open, vfs_close, entry}
use chef_os.Fs.Vfs.Table.{vfs_open_lem, vfs_close-vfs_open, same_index}
use chef_os.Drivers.Keyboard.{keyboard_callback}
use chef_os.Sys.{System}
use chef_os.Sys.Syscall.{
  sys_read, sys_open, sys_close, to_int, string_at, Outcome, do_open, do_close, syscall_dispatch,
}

-- `keyboard_callback` for a scancode.
abbrev pub press : ℕ → System → System
press scancode s = record s {
  vfs = record (s.vfs) { last_char = (keyboard_callback scancode s.vfs.last_char).0 };
}

-- SYS_READ of descriptor 0, of at least a byte, at address `a`.
abbrev pub read_key : (fuel : ℕ) (widen : ℕ → ℕ) (a count a4 a5 : ℕ) → System → Outcome
read_key fuel widen a count a4 a5 s = syscall_dispatch fuel widen sys_read 0 a count a4 a5 s

-- A state where the character was delivered to `a`.
pub record Delivered (c a : ℕ) (t : System) (again : Outcome) : Type 0 where
  pub byte : t.memory a ≡ c
  pub empty : again ≡ some (pos 0, t)

-- SYS_OPEN gave `i`, and SYS_CLOSE of it gave the state `u`.
pub record OpenClose (s t u : System) (fuel : ℕ) (widen : ℕ → ℕ) (a1 a2 i : ℕ) : Type 0 where
  pub open_call : syscall_dispatch fuel widen sys_open a1 a2 0 0 0 s ≡ some (pos i, t)
  pub close_call : syscall_dispatch fuel widen sys_close i 0 0 0 0 t ≡ some (pos 0, u)
  pub free : (entry u.vfs i).node ≡ (entry s.vfs i).node
  pub others : (j : ℕ) → j ≢ i → entry u.vfs j ≡ entry s.vfs j

opened_below :
    (v : Vfs) (path : List ℕ) (flags node i : ℕ)
    → vfs_lookup v.store v.root path ≡ some (some node)
    → length v.table ≡ 64
    → (vfs_open v path flags).0 ≡ pos i
    → i < 64
opened_below v path flags node i found size r = elim (vfs_open_lem v path flags node found) [
  | inr f ↦ absurd (ground (arith, r, f.result))
  | inl (k, o) ↦
      let index : k ≡ i = same_index k i (sym o.result ∙ r) in omega (arith, index, size, o.inside)
]

-- When the string at `a1` is the path of a node, and SYS_OPEN gives the descriptor `i` for it, SYS_CLOSE
-- of `i` returns 0 and the entry `i` of the table names the node that it named before, and every
-- other entry is as it was before the two calls.
pub syscall_dispatch-OpenClose :
    (fuel : ℕ) (widen : ℕ → ℕ) (a1 a2 node i : ℕ) (path : List ℕ) (s : System)
    → string_at fuel s.memory a1 ≡ some path
    → vfs_lookup s.vfs.store s.vfs.root path ≡ some (some node)
    → length s.vfs.table ≡ 64
    → (vfs_open s.vfs path (u32 a2)).0 ≡ pos i
    → (t : System) × (u : System) × OpenClose s t u fuel widen a1 a2 i
unfolding syscall_dispatch do_open do_close
syscall_dispatch-OpenClose fuel widen a1 a2 node i path s text found size r =
    let below = opened_below s.vfs path (u32 a2) node i found size r in
    let v = (vfs_open s.vfs path (u32 a2)).1 in
    let int : to_int i ≡ pos i = ground arith in
    let (free, others) = vfs_close-vfs_open s.vfs path (u32 a2) node i found size r in
    (
      record s { vfs = v },
      record s { vfs = vfs_close (pos i) v },
      record {
        open_call = rw (text, r) refl;
        close_call = rw int refl;
        free = free;
        others = others;
      },
    )
