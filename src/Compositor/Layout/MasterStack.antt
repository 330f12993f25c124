-- ===== src/Compositor/Layout/MasterStack.antt =====
-- Where the master and stack layout puts the windows.
use chef_os.Prelude.{
  ℕ, zero, suc, ◌+◌, ◌-◌, ◌*◌, ◌/◌, ◌^◌, ◌≤◌, ◌<◌, ◌≡◌, refl, false, ap, ◌==◌, List, [], ◌∷◌, arith,
  u32, sub32, length,
}
use native.Mathlib.Nat.{mul-div-le}
use chef_os.Compositor.Layout.{
  Area, Rect, area, layout_init, master_w, stack_w, stack_h, master_rect, stack_rect, stack_loop,
  place_many, place,
}

-- The rectangles stand below one another from `y` down to `bottom`, `gap` apart, in the columns
-- from `x` to `x + width`.
unfoldable pub Stacked : (x width gap bottom y : ℕ) → List Rect → Type 0
Stacked x width gap bottom y [] = y ≡ bottom + gap
Stacked x width gap bottom y (r ∷ rs) =
    (r.x ≡ x) × (r.width ≡ width) × (r.y ≡ y) × Stacked x width gap bottom (y + r.height + gap) rs

-- A screen on which the gaps between 16 windows fit.
pub record IsScreen (w h : ℕ) : Type 0 where
  pub wide : 320 ≤ w
  pub tall : 256 ≤ h
  pub w_fits : w < 2 ^ 16
  pub h_fits : h < 2 ^ 16

-- The area of the engine's own settings on such a screen.
abbrev pub desk : (w h : ℕ) → Area
desk w h = record { start_x = 84; start_y = 60; avail_w = w - 100; avail_h = h - 76; gap = 12 }

pub area-desk : (w h : ℕ) → IsScreen w h → area layout_init w h ≡ desk w h
unfolding area layout_init
area-desk w h v = ground (arith, v.wide, v.tall, v.w_fits, v.h_fits)

Stacked-cons :
    {x width y : ℕ} (gap bottom y' : ℕ) (r : Rect) (rs : List Rect)
    → r.x ≡ x
    → r.width ≡ width
    → r.y ≡ y
    → y' ≡ y + r.height + gap
    → Stacked x width gap bottom y' rs
    → Stacked x width gap bottom y (r ∷ rs)
unfolding Stacked
Stacked-cons gap bottom y' r rs a b c e s = (a, b, c, rw (← e) s)

module _ (w h : ℕ) (v : IsScreen w h) where
  d : Area
  d = desk w h

  master_fits : master_w (desk w h) 62 + 12 ≤ w - 100
  master_fits = omega (arith, v.wide, v.w_fits)

  stack_w-eq : stack_w (desk w h) 62 + 12 + master_w (desk w h) 62 ≡ w - 100
  stack_w-eq = omega (arith, v.wide, v.w_fits)

  module _ (k sh : ℕ) (hs : stack_h (desk w h) (suc k) ≡ sh) where
    row : (i y : ℕ) → Rect
    row i y = stack_rect (desk w h) 62 (suc k) i y

    row_x : (i y : ℕ) → (row i y).x ≡ 84 + master_w (desk w h) 62 + 12
    unfolding row
    row_x i y = omega (arith, master_fits, v.w_fits, v.wide)

    row_last : (i y : ℕ) → i ≡ k → y ≤ h - 16 → y + (row i y).height ≡ h - 16
    unfolding row
    row_last i y e le = ground (arith, v.h_fits, v.tall)

    row_other : (i y : ℕ) → i < k → (row i y).height ≡ sh
    unfolding row
    row_other i y lt = ground (arith, hs)

    -- The stack loop at `left` rounds from its end.
    stack_loop-Stacked :
        (left i y : ℕ)
        → i + left ≡ k
        → y + suc left * (sh + 12) ≤ h - 16 + 12
        → Stacked
            (84 + master_w (desk w h) 62 + 12)
            (stack_w (desk w h) 62)
            12
            (h - 16)
            y
            (stack_loop (desk w h) 62 (suc k) (suc left) i y)
    unfolding stack_loop row
    stack_loop-Stacked zero i y e fits =
        Stacked-cons 12 (h - 16) (h - 16 + 12) (row i y) [] (row_x i y) refl refl
          (omega (arith, row_last i y (omega arith) (omega arith))) (unfold Stacked in refl)
    stack_loop-Stacked (suc left) i y e fits =
        let next : u32 (y + u32 (stack_h (desk w h) (suc k) + 12)) ≡ y + sh + 12 =
          omega (arith, hs, v.h_fits) in
        Stacked-cons 12 (h - 16) _ (row i y) _ (row_x i y) refl refl
          (omega (arith, next, row_other i y (omega arith)))
          (stack_loop-Stacked left (i + 1) (u32 (y + u32 (stack_h (desk w h) (suc k) + 12)))
            (omega arith) (omega (arith, next)))

  -- The rows and the gaps between them fit the height.
  stack_h_room : (k : ℕ) → 0 < k → k ≤ 15 → k * (stack_h (desk w h) (suc k) + 12) ≤ h - 76 + 12
  stack_h_room k pos most =
      let top : sub32 (h - 76) (u32 (12 * (suc k - 1 - 1))) ≡ h - 76 - 12 * (k - 1) =
        omega (arith, v.tall, v.h_fits) in
      let less : suc k - 1 ≡ k = omega arith in
      let fits : k * ((h - 76 - 12 * (k - 1)) / k) ≤ h - 76 - 12 * (k - 1) =
        mul-div-le (h - 76 - 12 * (k - 1)) k in
      rw (top, less) (omega (arith, fits, v.tall))

  length-stack_loop :
      (pct count left i y : ℕ) → length (stack_loop (desk w h) pct count left i y) ≡ left
  unfolding stack_loop
  length-stack_loop pct count zero i y = refl
  length-stack_loop pct count (suc left) i y = ap suc (length-stack_loop pct count left (i + 1) _)

-- The rectangles are a master at the top left of the area, over its whole height, and a stack in
-- the columns that it leaves, each `gap` away from the next.
unfoldable pub MasterAndStack : (w h : ℕ) → List Rect → Type 0
MasterAndStack w h [] = ⊥
MasterAndStack w h (r ∷ rs) =
    (r.x ≡ 84)
    × (r.y ≡ 60)
    × (r.height ≡ h - 76)
    × (r.width + 12 ≤ w - 100)
    × Stacked (84 + r.width + 12) (w - 100 - 12 - r.width) 12 (h - 16) 60 rs

master_and_stack :
    (w h k : ℕ)
    → IsScreen w h
    → k ≤ 14
    → MasterAndStack w h
        (master_rect (desk w h) 62 ∷ stack_loop (desk w h) 62 (suc (suc k)) (suc k) 1 60)
unfolding MasterAndStack
master_and_stack w h k v most =
    let rest : w - 100 - 12 - master_w (desk w h) 62 ≡ stack_w (desk w h) 62 =
      omega (arith, stack_w-eq w h v) in
    (
      refl,
      refl,
      refl,
      master_fits w h v,
      rw rest (
          stack_loop-Stacked w h v (suc k) (stack_h (desk w h) (suc (suc k))) refl k 1 60
            (omega arith)
            (omega (arith, stack_h_room w h v (suc k) (omega arith) (omega arith), v.tall))),
    )

-- On a screen of 320 to 65535 by 256 to 65535 pixels and for 2 to 16 windows, the first mode puts
-- a master over the whole height of the area and the others below one another in the rest of the
-- width: the rows are 12 pixels apart, start at the top and end exactly at the bottom of the area,
-- 16 pixels above the end of the screen, and every window has a rectangle.
pub place-MasterAndStack :
    (w h count : ℕ)
    → IsScreen w h
    → 2 ≤ count
    → count ≤ 16
    → MasterAndStack w h (place layout_init (area layout_init w h) count)
      × (length (place layout_init (area layout_init w h) count) ≡ count)
unfolding place layout_init place_many
place-MasterAndStack w h zero v two most = absurd (omega arith)
place-MasterAndStack w h (suc zero) v two most = absurd (omega arith)
place-MasterAndStack w h (suc (suc k)) v two most =
    let many : (suc (suc k) == 1) ≡ false = ground arith in
    let less : suc (suc k) - 1 ≡ suc k = omega arith in
    rw (area-desk w h v) (
      rw (many, less)
        (
          master_and_stack w h k v (omega arith),
          ap suc (length-stack_loop w h v 62 (suc (suc k)) (suc k) 1 60),
        ))
