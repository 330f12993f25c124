-- ===== src/Video/Fb/Cursor.antt =====
-- The mouse cursor of kernel/src/video/fb.c.
use chef_os.Prelude.{ℕ, ◌+◌, ◌==◌, if◌then◌else◌, List, [], ◌∷◌, u32}
use chef_os.Video.Fb.{FbInfo, color_text, color_white, fb_put_pixel}

-- `cursor_bitmap`
unfoldable pub cursor_bitmap : List (List ℕ)
cursor_bitmap =
    (1 ∷ 0 ∷ 0 ∷ 0 ∷ 0 ∷ 0 ∷ 0 ∷ 0 ∷ 0 ∷ 0 ∷ [])
    ∷ (1 ∷ 1 ∷ 0 ∷ 0 ∷ 0 ∷ 0 ∷ 0 ∷ 0 ∷ 0 ∷ 0 ∷ [])
    ∷ (1 ∷ 2 ∷ 1 ∷ 0 ∷ 0 ∷ 0 ∷ 0 ∷ 0 ∷ 0 ∷ 0 ∷ [])
    ∷ (1 ∷ 2 ∷ 2 ∷ 1 ∷ 0 ∷ 0 ∷ 0 ∷ 0 ∷ 0 ∷ 0 ∷ [])
    ∷ (1 ∷ 2 ∷ 2 ∷ 2 ∷ 1 ∷ 0 ∷ 0 ∷ 0 ∷ 0 ∷ 0 ∷ [])
    ∷ (1 ∷ 2 ∷ 2 ∷ 2 ∷ 2 ∷ 1 ∷ 0 ∷ 0 ∷ 0 ∷ 0 ∷ [])
    ∷ (1 ∷ 2 ∷ 2 ∷ 2 ∷ 2 ∷ 2 ∷ 1 ∷ 0 ∷ 0 ∷ 0 ∷ [])
    ∷ (1 ∷ 2 ∷ 2 ∷ 2 ∷ 2 ∷ 2 ∷ 2 ∷ 1 ∷ 0 ∷ 0 ∷ [])
    ∷ (1 ∷ 2 ∷ 2 ∷ 2 ∷ 2 ∷ 1 ∷ 1 ∷ 1 ∷ 1 ∷ 0 ∷ [])
    ∷ (1 ∷ 2 ∷ 2 ∷ 1 ∷ 2 ∷ 1 ∷ 0 ∷ 0 ∷ 0 ∷ 0 ∷ [])
    ∷ (1 ∷ 2 ∷ 1 ∷ 0 ∷ 1 ∷ 2 ∷ 1 ∷ 0 ∷ 0 ∷ 0 ∷ [])
    ∷ (1 ∷ 1 ∷ 0 ∷ 0 ∷ 1 ∷ 2 ∷ 1 ∷ 0 ∷ 0 ∷ 0 ∷ [])
    ∷ (1 ∷ 0 ∷ 0 ∷ 0 ∷ 0 ∷ 1 ∷ 2 ∷ 1 ∷ 0 ∷ 0 ∷ [])
    ∷ (0 ∷ 0 ∷ 0 ∷ 0 ∷ 0 ∷ 1 ∷ 2 ∷ 1 ∷ 0 ∷ 0 ∷ [])
    ∷ (0 ∷ 0 ∷ 0 ∷ 0 ∷ 0 ∷ 0 ∷ 1 ∷ 1 ∷ 0 ∷ 0 ∷ [])
    ∷ []

unfoldable pub cursor_row : List ℕ → (x y : ℕ) → FbInfo → FbInfo
unfolding fb_put_pixel
cursor_row [] x y f = f
cursor_row (v ∷ vs) x y f = cursor_row vs (u32 (x + 1)) y (
    if v == 1
    then fb_put_pixel x y color_text f
    else if v == 2
    then fb_put_pixel x y color_white f
    else f)

unfoldable pub cursor_rows : List (List ℕ) → (x y : ℕ) → FbInfo → FbInfo
unfolding cursor_row
cursor_rows [] x y f = f
cursor_rows (r ∷ rs) x y f = cursor_rows rs x (u32 (y + 1)) (cursor_row r x y f)

-- The coordinates are the bit patterns of the `int32_t` arguments.
unfoldable pub fb_draw_cursor : (x y : ℕ) → FbInfo → FbInfo
unfolding cursor_rows cursor_bitmap
fb_draw_cursor x y f = cursor_rows cursor_bitmap x y f
