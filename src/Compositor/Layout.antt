-- ===== src/Compositor/Layout.antt =====
-- The tiling engine of kernel/src/compositor/layout.c. Coordinates are `uint32_t`. The code keeps
-- pointers to at most 16 visible windows in an array and writes through them; here the geometry of
-- each array slot is computed, and the windows of the list take it in the order of the array.
pub mod MasterStack
pub mod Apply
use chef_os.Prelude.{
  ℕ, zero, suc, ◌+◌, ◌-◌, ◌*◌, ◌/◌, ◌%◌, ◌==◌, ltb, Bool, true, false, not, ◌&&◌, ◌||◌,
  if◌then◌else◌, List, [], ◌∷◌, length, u32, sub32, bytes,
}
use chef_os.Compositor.Window.{Window, resize_surface}

pub data LayoutMode : Type 0 where
  master_stack grid monocle floating : LayoutMode

pub record LayoutEngine : Type 0 where
  pub mode : LayoutMode
  pub master_pct : ℕ
  pub gap_inner : ℕ
  pub gap_outer_x : ℕ
  pub gap_outer_y : ℕ

unfoldable pub layout_init : LayoutEngine
layout_init = record {
  mode = master_stack;
  master_pct = 62;
  gap_inner = 12;
  gap_outer_x = 84;
  gap_outer_y = 60;
}

-- `(mode + 1) % 4`
abbrev pub next_mode : LayoutMode → LayoutMode
next_mode master_stack = grid
next_mode grid = monocle
next_mode monocle = floating
next_mode floating = master_stack

abbrev pub mode_name : LayoutMode → List ℕ
mode_name master_stack = bytes "Master-Stack"
mode_name grid = bytes "Grid"
mode_name monocle = bytes "Monocle"
mode_name floating = bytes "Floating"

abbrev pub layout_get_mode_name : LayoutEngine → List ℕ
layout_get_mode_name e = mode_name e.mode

unfoldable pub layout_cycle_mode : LayoutEngine → LayoutEngine
layout_cycle_mode e = record e { mode = next_mode e.mode }

pub record Rect : Type 0 where
  pub x : ℕ
  pub y : ℕ
  pub width : ℕ
  pub height : ℕ

-- The area that windows may take, and the gap between them.
pub record Area : Type 0 where
  pub start_x : ℕ
  pub start_y : ℕ
  pub avail_w : ℕ
  pub avail_h : ℕ
  pub gap : ℕ

unfoldable pub area : LayoutEngine → (screen_w screen_h : ℕ) → Area
area e screen_w screen_h = record {
  start_x = e.gap_outer_x;
  start_y = e.gap_outer_y;
  avail_w = sub32 (sub32 screen_w e.gap_outer_x) 16;
  avail_h = sub32 (sub32 screen_h e.gap_outer_y) 16;
  gap = e.gap_inner;
}

abbrev pub full : Area → Rect
full a = record { x = a.start_x; y = a.start_y; width = a.avail_w; height = a.avail_h }

-- `LAYOUT_MASTER_STACK` for `count` windows.
abbrev pub master_w : Area → (pct : ℕ) → ℕ
master_w a pct = sub32 (u32 (a.avail_w * pct) / 100) (a.gap / 2)

abbrev pub stack_w : Area → (pct : ℕ) → ℕ
stack_w a pct = sub32 (sub32 a.avail_w (master_w a pct)) a.gap

abbrev pub stack_h : Area → (count : ℕ) → ℕ
stack_h a count = sub32 a.avail_h (u32 (a.gap * (count - 1 - 1))) / (count - 1)

abbrev pub master_rect : Area → (pct : ℕ) → Rect
master_rect a pct = record {
  x = a.start_x;
  y = a.start_y;
  width = master_w a pct;
  height = a.avail_h;
}

abbrev pub stack_rect : Area → (pct count i curr_y : ℕ) → Rect
stack_rect a pct count i curr_y = record {
  x = u32 (u32 (a.start_x + master_w a pct) + a.gap);
  y = curr_y;
  width = stack_w a pct;
  height = if i == count - 1 then sub32 (u32 (a.start_y + a.avail_h)) curr_y else stack_h a count;
}

-- `for (i = 1; i < count; i++)`, with `left` rounds to go.
unfoldable pub stack_loop : Area → (pct count left i curr_y : ℕ) → List Rect
stack_loop a pct count zero i curr_y = []
stack_loop a pct count (suc left) i curr_y =
    stack_rect a pct count i curr_y
    ∷ stack_loop a pct count left (i + 1) (u32 (curr_y + u32 (stack_h a count + a.gap)))

-- `LAYOUT_GRID`.
abbrev pub columns : ℕ → ℕ
columns count = if ltb 2 count then 2 else count

abbrev pub rows : ℕ → ℕ
rows count = (count + columns count - 1) / columns count

abbrev pub cell_w : Area → ℕ → ℕ
cell_w a count = sub32 a.avail_w (u32 (a.gap * (columns count - 1))) / columns count

abbrev pub cell_h : Area → ℕ → ℕ
cell_h a count = sub32 a.avail_h (u32 (a.gap * (rows count - 1))) / rows count

abbrev pub cell_rect : Area → (count i : ℕ) → Rect
cell_rect a count i = record {
  x = u32 (a.start_x + u32 (i % columns count * u32 (cell_w a count + a.gap)));
  y = u32 (a.start_y + u32 (i / columns count * u32 (cell_h a count + a.gap)));
  width = cell_w a count;
  height = cell_h a count;
}

unfoldable pub grid_loop : Area → (count left i : ℕ) → List Rect
grid_loop a count zero i = []
grid_loop a count (suc left) i = cell_rect a count i ∷ grid_loop a count left (i + 1)

abbrev pub is_monocle : LayoutMode → Bool
is_monocle monocle = true
is_monocle m = false

unfoldable pub repeat_rect : ℕ → Rect → List Rect
repeat_rect zero r = []
repeat_rect (suc n) r = r ∷ repeat_rect n r

-- What the mode does with two windows or more; `none` of them moves when they float.
unfoldable pub place_many : LayoutMode → Area → (pct count : ℕ) → List Rect
unfolding stack_loop grid_loop repeat_rect
place_many master_stack a pct count =
    master_rect a pct ∷ stack_loop a pct count (count - 1) 1 a.start_y
place_many grid a pct count = grid_loop a count count 0
place_many monocle a pct count = repeat_rect count (full a)
place_many floating a pct count = []

-- The geometry of the `count` array slots; no slot moves when there is none for it.
unfoldable pub place : LayoutEngine → Area → (count : ℕ) → List Rect
unfolding place_many repeat_rect
place e a count =
    if is_monocle e.mode || (count == 1)
    then repeat_rect count (full a)
    else place_many e.mode a e.master_pct count

abbrev pub visible : ℕ → Window → Bool
visible ws w = (w.workspace_id == ws) && not w.is_minimized

-- The length of the array: the loop stops when it holds 16 windows.
unfoldable pub count_visible : ℕ → List Window → ℕ → ℕ
count_visible ws [] count = count
count_visible ws (w ∷ ws') count =
    let rest = count_visible ws ws' (if visible ws w then count + 1 else count) in
    if ltb count 16 then rest else count

abbrev pub put : Rect → Window → Window
put r w = resize_surface (record w { x = r.x; y = r.y }) r.width r.height

-- The writes through the array: the visible windows take the rectangles in order.
unfoldable pub assign : ℕ → List Rect → List Window → List Window
assign ws rs [] = []
assign ws [] (w ∷ ws') = w ∷ ws'
assign ws (r ∷ rs) (w ∷ ws') =
    let skip = assign ws (r ∷ rs) ws' in
    let take = assign ws rs ws' in if visible ws w then put r w ∷ take else w ∷ skip

unfoldable pub layout_apply : LayoutEngine → List Window → (ws screen_w screen_h : ℕ) → List Window
unfolding count_visible place assign area
layout_apply e windows ws screen_w screen_h =
    let count = count_visible ws windows 0 in
    if count == 0 then windows else assign ws (place e (area e screen_w screen_h) count) windows
