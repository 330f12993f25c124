-- ===== src/Video/Fb/Swap.antt =====
-- What `fb_swap` puts on the screen.
use chef_os.Prelude.{
  ℕ, zero, suc, ◌+◌, ◌-◌, ◌*◌, ◌≤◌, ◌<◌, ◌≡◌, refl, ap, ◌∙◌, ◌==◌, leb, ltb, if◌then◌else◌, Bool,
  ◌&&◌, arith, Bool-cases, ◌⊎◌, inl, inr,
}
use native.Mathlib.Nat.{mul-le-mul_right}
use chef_os.Video.Fb.{FbInfo, copy_row, swap_loop, fb_swap}

module _ (pitch width y r c : ℕ) (wide : width ≤ pitch) (lt : c < pitch) where
  -- Word `c` of row `r` lies in the copied part of row `y` exactly if it is in that row.
  in_copy :
      (leb (y * pitch) (r * pitch + c) && ltb (r * pitch + c) (y * pitch + width))
      ≡ ((r == y) && ltb c width)
  in_copy = elim (order r y) [
    | inl same ↦ rw same (ground arith)
    | inr (inl before) ↦
        let far = mul-le-mul_right {m = suc r} {n = y} pitch before in
        let next : suc r * pitch ≡ r * pitch + pitch = omega arith in ground (arith, far, next)
    | inr (inr after) ↦
        let far = mul-le-mul_right {m = suc y} {n = r} pitch after in
        let next : suc y * pitch ≡ y * pitch + pitch = omega arith in ground (arith, far, next)
  ]
    where
      order : (a b : ℕ) → (a ≡ b) ⊎ ((a < b) ⊎ (b < a))
      order a b = elim (Bool-cases (a == b)) [
        | inl same ↦ inl (ground arith)
        | inr other ↦ elim (Bool-cases (ltb a b)) [
          | inl before ↦ inr (inl (ground arith))
          | inr after ↦ inr (inr (ground arith))
        ]
      ]

module _ (f : FbInfo) (wide : f.width ≤ f.pitch) (r c : ℕ) (lt : c < f.pitch) where
  copy_row_lem :
      (y : ℕ)
      → (copy_row y f).frontbuffer (r * f.pitch + c) ≡ (
          if (r == y) && ltb c f.width
          then f.backbuffer (r * f.width + c)
          else f.frontbuffer (r * f.pitch + c))
  copy_row_lem y =
      rw (in_copy f.pitch f.width y r c wide lt) (elim (Bool-cases ((r == y) && ltb c f.width)) [
        | inl here ↦ rw here (ap f.backbuffer (cell (ground arith)))
        | inr elsewhere ↦ rw elsewhere refl
      ])
    where
      cell : r ≡ y → y * f.width + (r * f.pitch + c - y * f.pitch) ≡ r * f.width + c
      cell e = rw e (omega arith)

swap_loop_lem :
    (left y : ℕ) (f : FbInfo) (r c : ℕ)
    → f.width ≤ f.pitch
    → c < f.pitch
    → (swap_loop left y f).frontbuffer (r * f.pitch + c) ≡ (
        if leb y r && (ltb r (y + left) && ltb c f.width)
        then f.backbuffer (r * f.width + c)
        else f.frontbuffer (r * f.pitch + c))
unfolding swap_loop
swap_loop_lem zero y f r c wide lt = ground arith
swap_loop_lem (suc left) y f r c wide lt =
    swap_loop_lem left (y + 1) (copy_row y f) r c wide lt
    ∙ rw (copy_row_lem f wide r c lt y)
        (next (f.backbuffer (r * f.width + c)) (f.frontbuffer (r * f.pitch + c)) (ltb c f.width))
  where
    next :
        (a b : ℕ) (on : Bool)
        → (if leb (y + 1) r && (ltb r (y + 1 + left) && on)
            then a
            else (if (r == y) && on then a else b))
          ≡ (if leb y r && (ltb r (y + suc left) && on) then a else b)
    next a b on = ground arith

-- Where a row of the screen has room for the width, `fb_swap` shows in column c of row r, for every
-- c below the pitch, the pixel of the back buffer, if there is one, and changes no other word of the front buffer.
pub fb_swap_lem :
    (f : FbInfo) (r c : ℕ)
    → f.width ≤ f.pitch
    → c < f.pitch
    → (fb_swap f).frontbuffer (r * f.pitch + c) ≡ (
        if ltb r f.height && ltb c f.width
        then f.backbuffer (r * f.width + c)
        else f.frontbuffer (r * f.pitch + c))
unfolding fb_swap
fb_swap_lem f r c wide lt = swap_loop_lem f.height 0 f r c wide lt ∙ ground arith
