-- ===== src/Shell/Editor.antt =====
-- What the line editor gives to the shell.
use chef_os.Prelude.{
  ℕ, zero, suc, ◌+◌, ◌≤◌, ◌<◌, ◌≡◌, refl, ap, ◌∙◌, sym, ◌==◌, ltb, true, false, List, [], ◌∷◌, ◌++◌,
  length, length-append, take, arith,
}
use mathlib.Core.List.{append_assoc, append-nil}
use chef_os.Shell.{Shell, is_printable, handle_char}

-- The bytes typed one after another.
unfoldable pub handle_all : List ℕ → Shell → Shell
unfolding handle_char
handle_all [] s = s
handle_all (c ∷ cs) s = handle_all cs (handle_char c s)

abbrev pub AllPrintable : List ℕ → Type 0
AllPrintable [] = Unit
AllPrintable (c ∷ cs) = (is_printable c ≡ true) × AllPrintable cs

handle_all-append :
    (xs ys : List ℕ) (s : Shell) → handle_all (xs ++ ys) s ≡ handle_all ys (handle_all xs s)
unfolding handle_all
handle_all-append [] ys s = refl
handle_all-append (x ∷ xs) ys s = handle_all-append xs ys (handle_char x s)

handle_char-room :
    (c : ℕ) (s : Shell)
    → is_printable c ≡ true
    → length s.input < 254
    → handle_char c s ≡ record s { input = s.input ++ (c ∷ []) }
unfolding handle_char
handle_char-room c s p lt =
    let line : (c == 10) ≡ false = ground arith in
    let back : (c == 8) ≡ false = ground arith in
    let room : ltb (length s.input) 254 ≡ true = ground arith in rw (line, back, room, p) refl

handle_char-full :
    (c : ℕ) (s : Shell) → is_printable c ≡ true → 254 ≤ length s.input → handle_char c s ≡ s
unfolding handle_char
handle_char-full c s p le =
    let line : (c == 10) ≡ false = ground arith in
    let back : (c == 8) ≡ false = ground arith in
    let full : ltb (length s.input) 254 ≡ false = ground arith in rw (line, back, full) refl

-- Printable bytes go behind the input while it has fewer than 254 bytes.
handle_all-take :
    (text : List ℕ) (s : Shell) (room : ℕ)
    → AllPrintable text
    → length s.input + room ≡ 254
    → handle_all text s ≡ record s { input = s.input ++ take room text }
unfolding handle_all
handle_all-take [] s zero p e = ap (λ i. record s { input = i }) (sym (append-nil s.input))
handle_all-take [] s (suc room) p e = ap (λ i. record s { input = i }) (sym (append-nil s.input))
handle_all-take (c ∷ cs) s zero p e =
    ap (handle_all cs) (handle_char-full c s p.0 (omega arith)) ∙ handle_all-take cs s zero p.1 e
handle_all-take (c ∷ cs) s (suc room) p e =
    let longer = length-append s.input (c ∷ []) in
    ap (handle_all cs) (handle_char-room c s p.0 (omega arith))
    ∙ handle_all-take cs (record s { input = s.input ++ (c ∷ []) }) room p.1 (omega (arith, longer))
    ∙ ap (λ i. record s { input = i }) (append_assoc s.input (c ∷ []) (take room cs))

-- Printable bytes typed at an empty prompt, and then a newline: the shell executes the first 254 of
-- them as one line, and the input is empty again.
pub handle_all-newline :
    (text : List ℕ) (s : Shell)
    → AllPrintable text
    → s.input ≡ []
    → handle_all (text ++ (10 ∷ [])) s
      ≡ record { input = []; executed = s.executed ++ (take 254 text ∷ []) }
handle_all-newline text s p e =
    handle_all-append text (10 ∷ []) s
    ∙ ap (handle_all (10 ∷ [])) (handle_all-take text s 254 p (ap (λ i. length i + 254) e))
    ∙ last (ap (λ i. i ++ take 254 text) e)
  where
    last :
        s.input ++ take 254 text ≡ take 254 text
        → handle_all (10 ∷ []) (record s { input = s.input ++ take 254 text })
          ≡ record { input = []; executed = s.executed ++ (take 254 text ∷ []) }
    last q =
        unfold handle_all in
        unfold handle_char in ap (λ i. record { input = []; executed = s.executed ++ (i ∷ []) }) q
