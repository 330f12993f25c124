-- ===== src/Video/Font.antt =====
-- The glyphs of kernel/src/video/font.c: sixteen rows of eight pixels for each of the 128 characters.
use chef_os.Prelude.{ℕ, List, [], ◌∷◌}

abbrev blank : List ℕ
blank = 0 ∷ 0 ∷ 0 ∷ 0 ∷ 0 ∷ 0 ∷ 0 ∷ 0 ∷ 0 ∷ 0 ∷ 0 ∷ 0 ∷ 0 ∷ 0 ∷ 0 ∷ 0 ∷ []

unfoldable pub font_8x16 : List (List ℕ)
font_8x16 =
    blank
    ∷ blank
    ∷ blank
    ∷ blank
    ∷ blank
    ∷ blank
    ∷ blank
    ∷ blank
    ∷ blank
    ∷ blank
    ∷ blank
    ∷ blank
    ∷ blank
    ∷ blank
    ∷ blank
    ∷ blank
    ∷ blank
    ∷ blank
    ∷ blank
    ∷ blank
    ∷ blank
    ∷ blank
    ∷ blank
    ∷ blank
    ∷ blank
    ∷ blank
    ∷ blank
    ∷ blank
    ∷ blank
    ∷ blank
    ∷ blank
    ∷ blank
    ∷ blank
    ∷ (0 ∷ 0 ∷ 24 ∷ 60 ∷ 60 ∷ 60 ∷ 24 ∷ 24 ∷ 24 ∷ 0 ∷ 24 ∷ 24 ∷ 0 ∷ 0 ∷ 0 ∷ 0 ∷ [])
    ∷ (0 ∷ 102 ∷ 102 ∷ 102 ∷ 36 ∷ 0 ∷ 0 ∷ 0 ∷ 0 ∷ 0 ∷ 0 ∷ 0 ∷ 0 ∷ 0 ∷ 0 ∷ 0 ∷ [])
    ∷ (0 ∷ 0 ∷ 108 ∷ 108 ∷ 254 ∷ 108 ∷ 108 ∷ 108 ∷ 254 ∷ 108 ∷ 108 ∷ 0 ∷ 0 ∷ 0 ∷ 0 ∷ 0 ∷ [])
    ∷ (24 ∷ 24 ∷ 124 ∷ 198 ∷ 194 ∷ 192 ∷ 124 ∷ 6 ∷ 6 ∷ 134 ∷ 198 ∷ 124 ∷ 24 ∷ 24 ∷ 0 ∷ 0 ∷ [])
    ∷ (0 ∷ 0 ∷ 198 ∷ 204 ∷ 24 ∷ 48 ∷ 96 ∷ 198 ∷ 204 ∷ 24 ∷ 48 ∷ 0 ∷ 0 ∷ 0 ∷ 0 ∷ 0 ∷ [])
    ∷ (0 ∷ 56 ∷ 108 ∷ 108 ∷ 56 ∷ 118 ∷ 220 ∷ 204 ∷ 204 ∷ 204 ∷ 118 ∷ 0 ∷ 0 ∷ 0 ∷ 0 ∷ 0 ∷ [])
    ∷ (0 ∷ 48 ∷ 48 ∷ 24 ∷ 0 ∷ 0 ∷ 0 ∷ 0 ∷ 0 ∷ 0 ∷ 0 ∷ 0 ∷ 0 ∷ 0 ∷ 0 ∷ 0 ∷ [])
    ∷ (0 ∷ 12 ∷ 24 ∷ 48 ∷ 48 ∷ 96 ∷ 96 ∷ 96 ∷ 96 ∷ 48 ∷ 48 ∷ 24 ∷ 12 ∷ 0 ∷ 0 ∷ 0 ∷ [])
    ∷ (0 ∷ 48 ∷ 24 ∷ 12 ∷ 12 ∷ 6 ∷ 6 ∷ 6 ∷ 6 ∷ 12 ∷ 12 ∷ 24 ∷ 48 ∷ 0 ∷ 0 ∷ 0 ∷ [])
    ∷ (0 ∷ 0 ∷ 0 ∷ 102 ∷ 60 ∷ 255 ∷ 60 ∷ 102 ∷ 0 ∷ 0 ∷ 0 ∷ 0 ∷ 0 ∷ 0 ∷ 0 ∷ 0 ∷ [])
    ∷ (0 ∷ 0 ∷ 24 ∷ 24 ∷ 24 ∷ 255 ∷ 255 ∷ 24 ∷ 24 ∷ 24 ∷ 0 ∷ 0 ∷ 0 ∷ 0 ∷ 0 ∷ 0 ∷ [])
    ∷ (0 ∷ 0 ∷ 0 ∷ 0 ∷ 0 ∷ 0 ∷ 0 ∷ 0 ∷ 0 ∷ 24 ∷ 24 ∷ 24 ∷ 48 ∷ 0 ∷ 0 ∷ 0 ∷ [])
    ∷ (0 ∷ 0 ∷ 0 ∷ 0 ∷ 0 ∷ 255 ∷ 255 ∷ 0 ∷ 0 ∷ 0 ∷ 0 ∷ 0 ∷ 0 ∷ 0 ∷ 0 ∷ 0 ∷ [])
    ∷ (0 ∷ 0 ∷ 0 ∷ 0 ∷ 0 ∷ 0 ∷ 0 ∷ 0 ∷ 0 ∷ 24 ∷ 24 ∷ 0 ∷ 0 ∷ 0 ∷ 0 ∷ 0 ∷ [])
    ∷ (0 ∷ 0 ∷ 6 ∷ 12 ∷ 24 ∷ 48 ∷ 96 ∷ 192 ∷ 128 ∷ 0 ∷ 0 ∷ 0 ∷ 0 ∷ 0 ∷ 0 ∷ 0 ∷ [])
    ∷ (0 ∷ 0 ∷ 124 ∷ 198 ∷ 206 ∷ 222 ∷ 246 ∷ 230 ∷ 198 ∷ 198 ∷ 124 ∷ 0 ∷ 0 ∷ 0 ∷ 0 ∷ 0 ∷ [])
    ∷ (0 ∷ 0 ∷ 24 ∷ 56 ∷ 120 ∷ 24 ∷ 24 ∷ 24 ∷ 24 ∷ 24 ∷ 126 ∷ 0 ∷ 0 ∷ 0 ∷ 0 ∷ 0 ∷ [])
    ∷ (0 ∷ 0 ∷ 124 ∷ 198 ∷ 6 ∷ 12 ∷ 24 ∷ 48 ∷ 96 ∷ 192 ∷ 254 ∷ 0 ∷ 0 ∷ 0 ∷ 0 ∷ 0 ∷ [])
    ∷ (0 ∷ 0 ∷ 124 ∷ 198 ∷ 6 ∷ 6 ∷ 60 ∷ 6 ∷ 6 ∷ 198 ∷ 124 ∷ 0 ∷ 0 ∷ 0 ∷ 0 ∷ 0 ∷ [])
    ∷ (0 ∷ 0 ∷ 12 ∷ 28 ∷ 60 ∷ 108 ∷ 204 ∷ 254 ∷ 12 ∷ 12 ∷ 30 ∷ 0 ∷ 0 ∷ 0 ∷ 0 ∷ 0 ∷ [])
    ∷ (0 ∷ 0 ∷ 254 ∷ 192 ∷ 192 ∷ 252 ∷ 6 ∷ 6 ∷ 6 ∷ 198 ∷ 124 ∷ 0 ∷ 0 ∷ 0 ∷ 0 ∷ 0 ∷ [])
    ∷ (0 ∷ 0 ∷ 56 ∷ 96 ∷ 192 ∷ 252 ∷ 198 ∷ 198 ∷ 198 ∷ 198 ∷ 124 ∷ 0 ∷ 0 ∷ 0 ∷ 0 ∷ 0 ∷ [])
    ∷ (0 ∷ 0 ∷ 254 ∷ 198 ∷ 6 ∷ 12 ∷ 24 ∷ 48 ∷ 48 ∷ 48 ∷ 48 ∷ 0 ∷ 0 ∷ 0 ∷ 0 ∷ 0 ∷ [])
    ∷ (0 ∷ 0 ∷ 124 ∷ 198 ∷ 198 ∷ 198 ∷ 124 ∷ 198 ∷ 198 ∷ 198 ∷ 124 ∷ 0 ∷ 0 ∷ 0 ∷ 0 ∷ 0 ∷ [])
    ∷ (0 ∷ 0 ∷ 124 ∷ 198 ∷ 198 ∷ 198 ∷ 126 ∷ 6 ∷ 6 ∷ 12 ∷ 120 ∷ 0 ∷ 0 ∷ 0 ∷ 0 ∷ 0 ∷ [])
    ∷ (0 ∷ 0 ∷ 24 ∷ 24 ∷ 0 ∷ 0 ∷ 0 ∷ 24 ∷ 24 ∷ 0 ∷ 0 ∷ 0 ∷ 0 ∷ 0 ∷ 0 ∷ 0 ∷ [])
    ∷ (0 ∷ 0 ∷ 24 ∷ 24 ∷ 0 ∷ 0 ∷ 0 ∷ 24 ∷ 24 ∷ 24 ∷ 48 ∷ 0 ∷ 0 ∷ 0 ∷ 0 ∷ 0 ∷ [])
    ∷ (0 ∷ 6 ∷ 12 ∷ 24 ∷ 48 ∷ 96 ∷ 48 ∷ 24 ∷ 12 ∷ 6 ∷ 0 ∷ 0 ∷ 0 ∷ 0 ∷ 0 ∷ 0 ∷ [])
    ∷ (0 ∷ 0 ∷ 0 ∷ 254 ∷ 254 ∷ 0 ∷ 254 ∷ 254 ∷ 0 ∷ 0 ∷ 0 ∷ 0 ∷ 0 ∷ 0 ∷ 0 ∷ 0 ∷ [])
    ∷ (0 ∷ 96 ∷ 48 ∷ 24 ∷ 12 ∷ 6 ∷ 12 ∷ 24 ∷ 48 ∷ 96 ∷ 0 ∷ 0 ∷ 0 ∷ 0 ∷ 0 ∷ 0 ∷ [])
    ∷ (0 ∷ 0 ∷ 124 ∷ 198 ∷ 6 ∷ 12 ∷ 24 ∷ 24 ∷ 0 ∷ 24 ∷ 24 ∷ 0 ∷ 0 ∷ 0 ∷ 0 ∷ 0 ∷ [])
    ∷ (0 ∷ 0 ∷ 124 ∷ 198 ∷ 222 ∷ 222 ∷ 222 ∷ 220 ∷ 192 ∷ 124 ∷ 0 ∷ 0 ∷ 0 ∷ 0 ∷ 0 ∷ 0 ∷ [])
    ∷ (0 ∷ 0 ∷ 24 ∷ 60 ∷ 102 ∷ 195 ∷ 195 ∷ 255 ∷ 195 ∷ 195 ∷ 195 ∷ 0 ∷ 0 ∷ 0 ∷ 0 ∷ 0 ∷ [])
    ∷ (0 ∷ 0 ∷ 252 ∷ 102 ∷ 102 ∷ 124 ∷ 102 ∷ 102 ∷ 102 ∷ 102 ∷ 252 ∷ 0 ∷ 0 ∷ 0 ∷ 0 ∷ 0 ∷ [])
    ∷ (0 ∷ 0 ∷ 60 ∷ 102 ∷ 195 ∷ 192 ∷ 192 ∷ 192 ∷ 195 ∷ 102 ∷ 60 ∷ 0 ∷ 0 ∷ 0 ∷ 0 ∷ 0 ∷ [])
    ∷ (0 ∷ 0 ∷ 248 ∷ 108 ∷ 102 ∷ 102 ∷ 102 ∷ 102 ∷ 102 ∷ 108 ∷ 248 ∷ 0 ∷ 0 ∷ 0 ∷ 0 ∷ 0 ∷ [])
    ∷ (0 ∷ 0 ∷ 254 ∷ 98 ∷ 96 ∷ 124 ∷ 96 ∷ 96 ∷ 98 ∷ 102 ∷ 254 ∷ 0 ∷ 0 ∷ 0 ∷ 0 ∷ 0 ∷ [])
    ∷ (0 ∷ 0 ∷ 254 ∷ 98 ∷ 96 ∷ 124 ∷ 96 ∷ 96 ∷ 96 ∷ 96 ∷ 240 ∷ 0 ∷ 0 ∷ 0 ∷ 0 ∷ 0 ∷ [])
    ∷ (0 ∷ 0 ∷ 60 ∷ 102 ∷ 195 ∷ 192 ∷ 192 ∷ 207 ∷ 195 ∷ 102 ∷ 62 ∷ 0 ∷ 0 ∷ 0 ∷ 0 ∷ 0 ∷ [])
    ∷ (0 ∷ 0 ∷ 195 ∷ 195 ∷ 195 ∷ 255 ∷ 195 ∷ 195 ∷ 195 ∷ 195 ∷ 195 ∷ 0 ∷ 0 ∷ 0 ∷ 0 ∷ 0 ∷ [])
    ∷ (0 ∷ 0 ∷ 60 ∷ 24 ∷ 24 ∷ 24 ∷ 24 ∷ 24 ∷ 24 ∷ 24 ∷ 60 ∷ 0 ∷ 0 ∷ 0 ∷ 0 ∷ 0 ∷ [])
    ∷ (0 ∷ 0 ∷ 30 ∷ 12 ∷ 12 ∷ 12 ∷ 12 ∷ 12 ∷ 204 ∷ 204 ∷ 120 ∷ 0 ∷ 0 ∷ 0 ∷ 0 ∷ 0 ∷ [])
    ∷ (0 ∷ 0 ∷ 198 ∷ 204 ∷ 216 ∷ 240 ∷ 248 ∷ 220 ∷ 206 ∷ 198 ∷ 195 ∷ 0 ∷ 0 ∷ 0 ∷ 0 ∷ 0 ∷ [])
    ∷ (0 ∷ 0 ∷ 240 ∷ 96 ∷ 96 ∷ 96 ∷ 96 ∷ 96 ∷ 98 ∷ 102 ∷ 254 ∷ 0 ∷ 0 ∷ 0 ∷ 0 ∷ 0 ∷ [])
    ∷ (0 ∷ 0 ∷ 195 ∷ 231 ∷ 255 ∷ 219 ∷ 195 ∷ 195 ∷ 195 ∷ 195 ∷ 195 ∷ 0 ∷ 0 ∷ 0 ∷ 0 ∷ 0 ∷ [])
    ∷ (0 ∷ 0 ∷ 195 ∷ 227 ∷ 243 ∷ 219 ∷ 207 ∷ 199 ∷ 195 ∷ 195 ∷ 195 ∷ 0 ∷ 0 ∷ 0 ∷ 0 ∷ 0 ∷ [])
    ∷ (0 ∷ 0 ∷ 124 ∷ 198 ∷ 195 ∷ 195 ∷ 195 ∷ 195 ∷ 195 ∷ 198 ∷ 124 ∷ 0 ∷ 0 ∷ 0 ∷ 0 ∷ 0 ∷ [])
    ∷ (0 ∷ 0 ∷ 252 ∷ 102 ∷ 102 ∷ 124 ∷ 96 ∷ 96 ∷ 96 ∷ 96 ∷ 240 ∷ 0 ∷ 0 ∷ 0 ∷ 0 ∷ 0 ∷ [])
    ∷ (0 ∷ 0 ∷ 124 ∷ 198 ∷ 195 ∷ 195 ∷ 195 ∷ 195 ∷ 219 ∷ 206 ∷ 124 ∷ 7 ∷ 0 ∷ 0 ∷ 0 ∷ 0 ∷ [])
    ∷ (0 ∷ 0 ∷ 252 ∷ 102 ∷ 102 ∷ 124 ∷ 108 ∷ 102 ∷ 102 ∷ 102 ∷ 227 ∷ 0 ∷ 0 ∷ 0 ∷ 0 ∷ 0 ∷ [])
    ∷ (0 ∷ 0 ∷ 124 ∷ 198 ∷ 192 ∷ 124 ∷ 6 ∷ 6 ∷ 6 ∷ 198 ∷ 124 ∷ 0 ∷ 0 ∷ 0 ∷ 0 ∷ 0 ∷ [])
    ∷ (0 ∷ 0 ∷ 255 ∷ 219 ∷ 24 ∷ 24 ∷ 24 ∷ 24 ∷ 24 ∷ 24 ∷ 60 ∷ 0 ∷ 0 ∷ 0 ∷ 0 ∷ 0 ∷ [])
    ∷ (0 ∷ 0 ∷ 195 ∷ 195 ∷ 195 ∷ 195 ∷ 195 ∷ 195 ∷ 195 ∷ 195 ∷ 126 ∷ 0 ∷ 0 ∷ 0 ∷ 0 ∷ 0 ∷ [])
    ∷ (0 ∷ 0 ∷ 195 ∷ 195 ∷ 195 ∷ 195 ∷ 195 ∷ 102 ∷ 102 ∷ 60 ∷ 24 ∷ 0 ∷ 0 ∷ 0 ∷ 0 ∷ 0 ∷ [])
    ∷ (0 ∷ 0 ∷ 195 ∷ 195 ∷ 195 ∷ 195 ∷ 219 ∷ 219 ∷ 255 ∷ 102 ∷ 102 ∷ 0 ∷ 0 ∷ 0 ∷ 0 ∷ 0 ∷ [])
    ∷ (0 ∷ 0 ∷ 195 ∷ 195 ∷ 102 ∷ 60 ∷ 24 ∷ 60 ∷ 102 ∷ 195 ∷ 195 ∷ 0 ∷ 0 ∷ 0 ∷ 0 ∷ 0 ∷ [])
    ∷ (0 ∷ 0 ∷ 195 ∷ 195 ∷ 102 ∷ 60 ∷ 24 ∷ 24 ∷ 24 ∷ 24 ∷ 60 ∷ 0 ∷ 0 ∷ 0 ∷ 0 ∷ 0 ∷ [])
    ∷ (0 ∷ 0 ∷ 255 ∷ 195 ∷ 6 ∷ 12 ∷ 24 ∷ 48 ∷ 96 ∷ 193 ∷ 255 ∷ 0 ∷ 0 ∷ 0 ∷ 0 ∷ 0 ∷ [])
    ∷ (0 ∷ 60 ∷ 48 ∷ 48 ∷ 48 ∷ 48 ∷ 48 ∷ 48 ∷ 48 ∷ 48 ∷ 60 ∷ 0 ∷ 0 ∷ 0 ∷ 0 ∷ 0 ∷ [])
    ∷ (0 ∷ 0 ∷ 128 ∷ 192 ∷ 96 ∷ 48 ∷ 24 ∷ 12 ∷ 6 ∷ 2 ∷ 0 ∷ 0 ∷ 0 ∷ 0 ∷ 0 ∷ 0 ∷ [])
    ∷ (0 ∷ 60 ∷ 12 ∷ 12 ∷ 12 ∷ 12 ∷ 12 ∷ 12 ∷ 12 ∷ 12 ∷ 60 ∷ 0 ∷ 0 ∷ 0 ∷ 0 ∷ 0 ∷ [])
    ∷ (24 ∷ 60 ∷ 102 ∷ 195 ∷ 0 ∷ 0 ∷ 0 ∷ 0 ∷ 0 ∷ 0 ∷ 0 ∷ 0 ∷ 0 ∷ 0 ∷ 0 ∷ 0 ∷ [])
    ∷ (0 ∷ 0 ∷ 0 ∷ 0 ∷ 0 ∷ 0 ∷ 0 ∷ 0 ∷ 0 ∷ 0 ∷ 0 ∷ 0 ∷ 255 ∷ 255 ∷ 0 ∷ 0 ∷ [])
    ∷ (0 ∷ 24 ∷ 24 ∷ 12 ∷ 0 ∷ 0 ∷ 0 ∷ 0 ∷ 0 ∷ 0 ∷ 0 ∷ 0 ∷ 0 ∷ 0 ∷ 0 ∷ 0 ∷ [])
    ∷ (0 ∷ 0 ∷ 0 ∷ 0 ∷ 120 ∷ 12 ∷ 124 ∷ 204 ∷ 204 ∷ 204 ∷ 118 ∷ 0 ∷ 0 ∷ 0 ∷ 0 ∷ 0 ∷ [])
    ∷ (0 ∷ 224 ∷ 96 ∷ 96 ∷ 124 ∷ 102 ∷ 102 ∷ 102 ∷ 102 ∷ 102 ∷ 252 ∷ 0 ∷ 0 ∷ 0 ∷ 0 ∷ 0 ∷ [])
    ∷ (0 ∷ 0 ∷ 0 ∷ 0 ∷ 124 ∷ 198 ∷ 192 ∷ 192 ∷ 192 ∷ 198 ∷ 124 ∷ 0 ∷ 0 ∷ 0 ∷ 0 ∷ 0 ∷ [])
    ∷ (0 ∷ 28 ∷ 12 ∷ 12 ∷ 124 ∷ 204 ∷ 204 ∷ 204 ∷ 204 ∷ 204 ∷ 118 ∷ 0 ∷ 0 ∷ 0 ∷ 0 ∷ 0 ∷ [])
    ∷ (0 ∷ 0 ∷ 0 ∷ 0 ∷ 124 ∷ 198 ∷ 254 ∷ 192 ∷ 192 ∷ 198 ∷ 124 ∷ 0 ∷ 0 ∷ 0 ∷ 0 ∷ 0 ∷ [])
    ∷ (0 ∷ 28 ∷ 54 ∷ 48 ∷ 120 ∷ 48 ∷ 48 ∷ 48 ∷ 48 ∷ 48 ∷ 120 ∷ 0 ∷ 0 ∷ 0 ∷ 0 ∷ 0 ∷ [])
    ∷ (0 ∷ 0 ∷ 0 ∷ 0 ∷ 118 ∷ 204 ∷ 204 ∷ 204 ∷ 124 ∷ 12 ∷ 204 ∷ 120 ∷ 0 ∷ 0 ∷ 0 ∷ 0 ∷ [])
    ∷ (0 ∷ 224 ∷ 96 ∷ 96 ∷ 108 ∷ 118 ∷ 102 ∷ 102 ∷ 102 ∷ 102 ∷ 231 ∷ 0 ∷ 0 ∷ 0 ∷ 0 ∷ 0 ∷ [])
    ∷ (0 ∷ 24 ∷ 24 ∷ 0 ∷ 56 ∷ 24 ∷ 24 ∷ 24 ∷ 24 ∷ 24 ∷ 60 ∷ 0 ∷ 0 ∷ 0 ∷ 0 ∷ 0 ∷ [])
    ∷ (0 ∷ 6 ∷ 6 ∷ 0 ∷ 14 ∷ 6 ∷ 6 ∷ 6 ∷ 6 ∷ 6 ∷ 102 ∷ 60 ∷ 0 ∷ 0 ∷ 0 ∷ 0 ∷ [])
    ∷ (0 ∷ 224 ∷ 96 ∷ 96 ∷ 102 ∷ 108 ∷ 120 ∷ 120 ∷ 108 ∷ 102 ∷ 231 ∷ 0 ∷ 0 ∷ 0 ∷ 0 ∷ 0 ∷ [])
    ∷ (0 ∷ 56 ∷ 24 ∷ 24 ∷ 24 ∷ 24 ∷ 24 ∷ 24 ∷ 24 ∷ 24 ∷ 60 ∷ 0 ∷ 0 ∷ 0 ∷ 0 ∷ 0 ∷ [])
    ∷ (0 ∷ 0 ∷ 0 ∷ 0 ∷ 230 ∷ 255 ∷ 219 ∷ 219 ∷ 219 ∷ 219 ∷ 231 ∷ 0 ∷ 0 ∷ 0 ∷ 0 ∷ 0 ∷ [])
    ∷ (0 ∷ 0 ∷ 0 ∷ 0 ∷ 220 ∷ 102 ∷ 102 ∷ 102 ∷ 102 ∷ 102 ∷ 231 ∷ 0 ∷ 0 ∷ 0 ∷ 0 ∷ 0 ∷ [])
    ∷ (0 ∷ 0 ∷ 0 ∷ 0 ∷ 124 ∷ 198 ∷ 198 ∷ 198 ∷ 198 ∷ 198 ∷ 124 ∷ 0 ∷ 0 ∷ 0 ∷ 0 ∷ 0 ∷ [])
    ∷ (0 ∷ 0 ∷ 0 ∷ 0 ∷ 220 ∷ 102 ∷ 102 ∷ 102 ∷ 102 ∷ 124 ∷ 96 ∷ 240 ∷ 0 ∷ 0 ∷ 0 ∷ 0 ∷ [])
    ∷ (0 ∷ 0 ∷ 0 ∷ 0 ∷ 118 ∷ 204 ∷ 204 ∷ 204 ∷ 204 ∷ 124 ∷ 12 ∷ 30 ∷ 0 ∷ 0 ∷ 0 ∷ 0 ∷ [])
    ∷ (0 ∷ 0 ∷ 0 ∷ 0 ∷ 220 ∷ 118 ∷ 102 ∷ 96 ∷ 96 ∷ 96 ∷ 240 ∷ 0 ∷ 0 ∷ 0 ∷ 0 ∷ 0 ∷ [])
    ∷ (0 ∷ 0 ∷ 0 ∷ 0 ∷ 124 ∷ 198 ∷ 96 ∷ 56 ∷ 12 ∷ 198 ∷ 124 ∷ 0 ∷ 0 ∷ 0 ∷ 0 ∷ 0 ∷ [])
    ∷ (0 ∷ 16 ∷ 48 ∷ 48 ∷ 252 ∷ 48 ∷ 48 ∷ 48 ∷ 48 ∷ 52 ∷ 24 ∷ 0 ∷ 0 ∷ 0 ∷ 0 ∷ 0 ∷ [])
    ∷ (0 ∷ 0 ∷ 0 ∷ 0 ∷ 204 ∷ 204 ∷ 204 ∷ 204 ∷ 204 ∷ 204 ∷ 118 ∷ 0 ∷ 0 ∷ 0 ∷ 0 ∷ 0 ∷ [])
    ∷ (0 ∷ 0 ∷ 0 ∷ 0 ∷ 195 ∷ 195 ∷ 195 ∷ 195 ∷ 102 ∷ 60 ∷ 24 ∷ 0 ∷ 0 ∷ 0 ∷ 0 ∷ 0 ∷ [])
    ∷ (0 ∷ 0 ∷ 0 ∷ 0 ∷ 195 ∷ 195 ∷ 219 ∷ 219 ∷ 255 ∷ 102 ∷ 102 ∷ 0 ∷ 0 ∷ 0 ∷ 0 ∷ 0 ∷ [])
    ∷ (0 ∷ 0 ∷ 0 ∷ 0 ∷ 195 ∷ 102 ∷ 60 ∷ 24 ∷ 60 ∷ 102 ∷ 195 ∷ 0 ∷ 0 ∷ 0 ∷ 0 ∷ 0 ∷ [])
    ∷ (0 ∷ 0 ∷ 0 ∷ 0 ∷ 198 ∷ 198 ∷ 198 ∷ 198 ∷ 126 ∷ 6 ∷ 12 ∷ 120 ∷ 0 ∷ 0 ∷ 0 ∷ 0 ∷ [])
    ∷ (0 ∷ 0 ∷ 0 ∷ 0 ∷ 254 ∷ 204 ∷ 24 ∷ 48 ∷ 96 ∷ 198 ∷ 254 ∷ 0 ∷ 0 ∷ 0 ∷ 0 ∷ 0 ∷ [])
    ∷ (0 ∷ 14 ∷ 24 ∷ 24 ∷ 24 ∷ 112 ∷ 24 ∷ 24 ∷ 24 ∷ 24 ∷ 14 ∷ 0 ∷ 0 ∷ 0 ∷ 0 ∷ 0 ∷ [])
    ∷ (0 ∷ 24 ∷ 24 ∷ 24 ∷ 24 ∷ 24 ∷ 24 ∷ 24 ∷ 24 ∷ 24 ∷ 24 ∷ 0 ∷ 0 ∷ 0 ∷ 0 ∷ 0 ∷ [])
    ∷ (0 ∷ 112 ∷ 24 ∷ 24 ∷ 24 ∷ 14 ∷ 24 ∷ 24 ∷ 24 ∷ 24 ∷ 112 ∷ 0 ∷ 0 ∷ 0 ∷ 0 ∷ 0 ∷ [])
    ∷ (0 ∷ 118 ∷ 220 ∷ 0 ∷ 0 ∷ 0 ∷ 0 ∷ 0 ∷ 0 ∷ 0 ∷ 0 ∷ 0 ∷ 0 ∷ 0 ∷ 0 ∷ 0 ∷ [])
    ∷ blank
    ∷ []
