-- ===== src/Video/Fb/Bounded.antt =====
-- Which words drawing and showing what was drawn touch.
use chef_os.Prelude.{
  ℕ, List, arith, ◌+◌, ◌*◌, ◌≤◌, ◌<◌, ◌≡◌, refl, sym, ap, ◌∙◌, ltb, ◌&&◌, false, zero, suc,
}
use chef_os.Video.Fb.{FbInfo, backbuffer_words, swap_loop, fb_swap}
use chef_os.Video.Fb.Inside.{Inside}
use chef_os.Video.Fb.Drawing.{Drawing, draw_all, draw_all-Inside}
use chef_os.Video.Fb.Swap.{fb_swap_lem}

-- `g` has the size of `f`. No word behind the pixels of the back buffer differs, and none of the
-- front buffer next to the pixels of a row or below the last one.
pub record Bounded (f g : FbInfo) : Type 0 where
  pub width : g.width ≡ f.width
  pub height : g.height ≡ f.height
  pub pitch : g.pitch ≡ f.pitch
  pub behind : (k : ℕ) → f.height * f.width ≤ k → g.backbuffer k ≡ f.backbuffer k
  pub edge :
      f.width ≤ f.pitch
      → (r c : ℕ) → c < f.pitch
      → (ltb r f.height && ltb c f.width) ≡ false
      → g.frontbuffer (r * f.pitch + c) ≡ f.frontbuffer (r * f.pitch + c)

-- The pixels of the screen fit the array that is the back buffer.
abbrev pub FitsBuffer : FbInfo → Type 0
FitsBuffer f = f.height * f.width ≤ backbuffer_words

-- No word behind that array differs.
abbrev pub InBuffer : (f g : FbInfo) → Type 0
InBuffer f g = (k : ℕ) → backbuffer_words ≤ k → g.backbuffer k ≡ f.backbuffer k

pub Bounded-InBuffer : (f g : FbInfo) → FitsBuffer f → Bounded f g → InBuffer f g
Bounded-InBuffer f g fit p k le = p.behind k (omega arith)

pub Bounded-refl : (f : FbInfo) → Bounded f f
Bounded-refl f = record {
  width = refl;
  height = refl;
  pitch = refl;
  behind = λ k le. refl;
  edge = λ wide r c lt off. refl;
}

pub Bounded-trans : (f g h : FbInfo) → Bounded f g → Bounded g h → Bounded f h
Bounded-trans f g h p q = record {
  width = q.width ∙ p.width;
  height = q.height ∙ p.height;
  pitch = q.pitch ∙ p.pitch;
  behind = λ k le. q.behind k (rw (p.height, p.width) le) ∙ p.behind k le;
  edge = λ wide r c lt off.
      rw (sym p.pitch)
        (q.edge (rw (p.width, p.pitch) wide) r c (rw p.pitch lt) (rw (p.height, p.width) off))
      ∙ p.edge wide r c lt off;
}

pub Inside-Bounded : (f g : FbInfo) → Inside f g → Bounded f g
Inside-Bounded f g p = record {
  width = p.width;
  height = p.height;
  pitch = p.pitch;
  behind = p.behind;
  edge = λ wide r c lt off. ap (λ b. b (r * f.pitch + c)) p.front;
}

-- `fb_swap` keeps the back buffer and the sizes.
pub swap_loop-keeps :
    (left y : ℕ) (f : FbInfo)
    → ((swap_loop left y f).width ≡ f.width)
      × ((swap_loop left y f).height ≡ f.height)
      × ((swap_loop left y f).pitch ≡ f.pitch)
      × ((swap_loop left y f).backbuffer ≡ f.backbuffer)
unfolding swap_loop
swap_loop-keeps zero y f = (refl, refl, refl, refl)
swap_loop-keeps (suc left) y f = swap_loop-keeps left (y + 1) _

swap_edge :
    (f : FbInfo) (r c : ℕ)
    → f.width ≤ f.pitch
    → c < f.pitch
    → (ltb r f.height && ltb c f.width) ≡ false
    → (fb_swap f).frontbuffer (r * f.pitch + c) ≡ f.frontbuffer (r * f.pitch + c)
swap_edge f r c wide lt off = fb_swap_lem f r c wide lt ∙ rw off refl

pub swap-Bounded : (f : FbInfo) → Bounded f (fb_swap f)
unfolding fb_swap
swap-Bounded f =
    let (w, h, pitch, back) = swap_loop-keeps f.height 0 f in
    record {
      width = w;
      height = h;
      pitch = pitch;
      behind = λ k le. ap (λ b. b k) back;
      edge = λ wide r c lt off. swap_edge f r c wide lt off;
    }

-- On a screen whose pixels fit the array of the back buffer, after any calls of the drawing functions, at
-- any coordinates: the size of the screen and its own words are the same, no word of the back buffer
-- behind its width * height pixels has changed, and none behind the array.
pub draw_all-InBuffer :
    (ds : List Drawing) (f : FbInfo)
    → FitsBuffer f
    → Inside f (draw_all ds f) × InBuffer f (draw_all ds f)
draw_all-InBuffer ds f fit =
    let p = draw_all-Inside ds f in
    (p, Bounded-InBuffer f (draw_all ds f) fit (Inside-Bounded f (draw_all ds f) p))
