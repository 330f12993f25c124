-- ===== src/Compositor/Desktop/Focus.antt =====
-- Which windows cycling the focus visits.
use chef_os.Prelude.{
  ℕ, zero, suc, ◌<◌, ◌≤◌, ◌≡◌, ◌≢◌, refl, ap, ◌∙◌, ◌==◌, if◌then◌else◌, true, false, List, [], ◌∷◌,
  Option, none, some, length, arith, Bool-cases, inl, inr,
}
use chef_os.Compositor.Window.{Window}
use chef_os.Compositor.Desktop.{
  Desktop, head_id, next_of, focused_next, or_first, cycle_focus, has_windows,
}

-- No window of the list has the id.
unfoldable pub NoId : ℕ → List Window → Type 0
NoId id [] = Unit
NoId id (w ∷ ws) = (w.id ≢ id) × NoId id ws

unfoldable pub AllApart : List Window → Type 0
unfolding NoId
AllApart [] = Unit
AllApart (w ∷ ws) = NoId w.id ws × AllApart ws

-- The id of the k-th window.
unfoldable pub nth_id : List Window → ℕ → Option ℕ
nth_id [] k = none
nth_id (w ∷ ws) zero = some w.id
nth_id (w ∷ ws) (suc k) = nth_id ws k

NoId-nth_id : (id : ℕ) (ws : List Window) (k j : ℕ) → NoId id ws → nth_id ws k ≡ some j → j ≢ id
unfolding NoId nth_id
NoId-nth_id id [] k j h e = absurd (ground arith)
NoId-nth_id id (w ∷ ws) zero j h e = ground (arith, h.0)
NoId-nth_id id (w ∷ ws) (suc k) j h e = NoId-nth_id id ws k j h.1 e

head_id-nth_id : (ws : List Window) → head_id ws ≡ nth_id ws 0
unfolding nth_id
head_id-nth_id [] = refl
head_id-nth_id (w ∷ ws) = refl

-- Behind the k-th window comes the next one, and behind the last one none.
next_of-nth_id :
    (ws : List Window) (k id : ℕ)
    → AllApart ws
    → nth_id ws k ≡ some id
    → next_of ws id ≡ nth_id ws (suc k)
unfolding AllApart nth_id next_of
next_of-nth_id [] k id h e = absurd (ground arith)
next_of-nth_id (w ∷ ws) zero id h e =
    let same : (w.id == id) ≡ true = ground arith in rw same (head_id-nth_id ws)
next_of-nth_id (w ∷ ws) (suc k) id h e =
    let ne = NoId-nth_id w.id ws k id h.0 e in
    let other : (w.id == id) ≡ false = ground arith in rw other (next_of-nth_id ws k id h.1 e)

-- The focus is on the k-th of n windows.
pub record IsFocused (d : Desktop) (k : ℕ) : Type 0 where
  pub apart : AllApart d.windows
  pub inside : k < length d.windows
  pub focus : d.focused ≡ nth_id d.windows k

nth_id-some : (ws : List Window) (k : ℕ) → k < length ws → (id : ℕ) × (nth_id ws k ≡ some id)
unfolding nth_id
nth_id-some [] k lt = absurd (omega arith)
nth_id-some (w ∷ ws) zero lt = (w.id, refl)
nth_id-some (w ∷ ws) (suc k) lt = nth_id-some ws k (omega arith)

nth_id-none : (ws : List Window) (k : ℕ) → length ws ≤ k → nth_id ws k ≡ none
unfolding nth_id
nth_id-none [] k le = refl
nth_id-none (w ∷ ws) zero le = absurd (omega arith)
nth_id-none (w ∷ ws) (suc k) le = nth_id-none ws k (omega arith)

-- The place after the k-th of n.
abbrev pub next_place : (n k : ℕ) → ℕ
next_place n k = if suc k == n then 0 else suc k

or_first-next :
    (ws : List Window) (k : ℕ)
    → k < length ws
    → or_first (nth_id ws (suc k)) ws ≡ nth_id ws (next_place (length ws) k)
or_first-next ws k lt = elim (Bool-cases (suc k == length ws)) [
  | inl last ↦ rw (last, nth_id-none ws (suc k) (ground arith)) (head_id-nth_id ws)
  | inr more ↦ let (id, e) = nth_id-some ws (suc k) (ground arith) in rw (more, e) refl
]

filled : (ws : List Window) (k : ℕ) → k < length ws → has_windows ws ≡ true
filled [] k lt = absurd (omega arith)
filled (w ∷ ws) k lt = refl

-- The state once the window that is to get the focus is known.
cycle_focus-focused :
    (d : Desktop) (k : ℕ)
    → IsFocused d k
    → cycle_focus d ≡ record d {
      focused = nth_id d.windows (next_place (length d.windows) k);
      needs_redraw = true;
    }
unfolding cycle_focus
cycle_focus-focused d k f =
    let (id, e) = nth_id-some d.windows k f.inside in
    let next : focused_next d d.focused ≡ nth_id d.windows (suc k) =
      ap (focused_next d) (f.focus ∙ e) ∙ next_of-nth_id d.windows k id f.apart e in
    let place = ap (λ n. or_first n d.windows) next ∙ or_first-next d.windows k f.inside in
    let full = filled d.windows k f.inside in
    ap
      (λ b.
        if b
        then record d {
          focused = or_first (focused_next d d.focused) d.windows;
          needs_redraw = true;
        }
        else d)
      full
    ∙ ap (λ n. record d { focused = n; needs_redraw = true }) place

-- If the focus is on the k-th of the windows, whose ids differ, then `compositor_cycle_focus` moves it
-- to the next one, and from the last window to the first. The windows stay as they are.
pub cycle_focus-IsFocused :
    (d : Desktop) (k : ℕ)
    → IsFocused d k
    → IsFocused (cycle_focus d) (next_place (length d.windows) k)
      × ((cycle_focus d).windows ≡ d.windows)
cycle_focus-IsFocused d k f = rw (cycle_focus-focused d k f) (
  record {
    apart = f.apart;
    inside = next_place-inside (length d.windows) k f.inside;
    focus = refl;
  },
  refl,
)
  where
    next_place-inside : (n i : ℕ) → i < n → next_place n i < n
    next_place-inside n i lt = ground arith
