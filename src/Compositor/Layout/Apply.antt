-- ===== src/Compositor/Layout/Apply.antt =====
-- What `layout_apply` does to the window list.
use chef_os.Prelude.{
  ℕ, ◌+◌, ◌≤◌, ◌≡◌, refl, false, ◌==◌, List, [], ◌∷◌, arith, sym, if◌then◌else◌, length,
}
use chef_os.Compositor.Window.{Window, resize_surface}
use chef_os.Compositor.Layout.{
  Rect, layout_init, area, place, visible, count_visible, assign, layout_apply,
}
use chef_os.Compositor.Layout.MasterStack.{IsScreen, MasterAndStack, place-MasterAndStack}

-- How many windows the workspace shows, and their rectangles in the order of the list.
unfoldable pub shown : ℕ → List Window → ℕ
shown ws [] = 0
shown ws (w ∷ rest) = (if visible ws w then 1 else 0) + shown ws rest

abbrev pub rect_of : Window → Rect
rect_of w = record { x = w.x; y = w.y; width = w.width; height = w.height }

unfoldable pub shown_rects : ℕ → List Window → List Rect
shown_rects ws [] = []
shown_rects ws (w ∷ rest) =
    if visible ws w then rect_of w ∷ shown_rects ws rest else shown_rects ws rest

-- The windows that the workspace does not show.
unfoldable pub hidden : ℕ → List Window → List Window
hidden ws [] = []
hidden ws (w ∷ rest) = if visible ws w then hidden ws rest else w ∷ hidden ws rest

unfoldable pub ids : List Window → List ℕ
ids [] = []
ids (w ∷ rest) = w.id ∷ ids rest

count_visible-shown :
    (ws : ℕ) (windows : List Window) (count : ℕ)
    → count + shown ws windows ≤ 16
    → count_visible ws windows count ≡ count + shown ws windows
unfolding count_visible shown
count_visible-shown ws [] count h = omega arith
count_visible-shown ws (w ∷ rest) count h =
    ground
      (arith, count_visible-shown ws rest (count + 1), count_visible-shown ws rest count, none_left)
  where
    none_left : 16 ≤ count → shown ws rest ≡ 0
    none_left p = ground arith

shown_rects_none :
    (ws : ℕ) (windows : List Window) → shown ws windows ≡ 0 → shown_rects ws windows ≡ []
unfolding shown shown_rects
shown_rects_none ws [] e = refl
shown_rects_none ws (w ∷ rest) e = ground (arith, shown_rects_none ws rest)

-- The visible windows take the rectangles in order, and the others are not touched.
pub assign-shown_rects :
    (ws : ℕ) (rs : List Rect) (windows : List Window)
    → length rs ≡ shown ws windows
    → (shown_rects ws (assign ws rs windows) ≡ rs)
      × (hidden ws (assign ws rs windows) ≡ hidden ws windows)
      × (ids (assign ws rs windows) ≡ ids windows)
unfolding assign shown_rects hidden ids shown resize_surface
assign-shown_rects ws [] [] e = (refl, refl, refl)
assign-shown_rects ws (r ∷ rs) [] e = ground arith
assign-shown_rects ws [] (w ∷ rest) e = (shown_rects_none ws (w ∷ rest) (sym e), refl, refl)
assign-shown_rects ws (r ∷ rs) (w ∷ rest) e =
    ground (arith, assign-shown_rects ws rs rest, assign-shown_rects ws (r ∷ rs) rest)

-- With the engine's own settings, on a screen of 320 to 65535 by 256 to 65535 pixels, when the
-- workspace shows 2 to 16 windows: `layout_apply` makes the first of them the master and the others
-- its stack, leaves the windows that are not shown alone, and keeps the order of all windows.
pub layout_apply-MasterAndStack :
    (w h ws : ℕ) (windows : List Window)
    → IsScreen w h
    → 2 ≤ shown ws windows
    → shown ws windows ≤ 16
    → MasterAndStack w h (shown_rects ws (layout_apply layout_init windows ws w h))
      × (hidden ws (layout_apply layout_init windows ws w h) ≡ hidden ws windows)
      × (ids (layout_apply layout_init windows ws w h) ≡ ids windows)
unfolding layout_apply
layout_apply-MasterAndStack w h ws windows v two most =
    let n = shown ws windows in
    let counted : count_visible ws windows 0 ≡ n =
      omega (arith, count_visible-shown ws windows 0 (omega arith)) in
    let some_shown : (n == 0) ≡ false = ground arith in
    let placed = place-MasterAndStack w h n v two most in
    let (rects, rest, order) =
      assign-shown_rects ws (place layout_init (area layout_init w h) n) windows placed.1 in
    rw (counted, some_shown) (rw rects placed.0, rest, order)
