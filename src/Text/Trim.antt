-- ===== src/Text/Trim.antt =====
-- strings.TrimSpace leaves a text of graphic characters of ASCII as it is.
use mathlib.Core.List.{reverse, reverse-reverse, reverse-cons}
use pyttechat.Base.{ℕ, Bool, true, ◌&&◌, [], ◌∷◌, ◌≡◌, refl, arith, leb, Bytes, All, All-append}
use pyttechat.Text.{trim_space, strip, space_width, end_width}

abbrev pub is_graphic : ℕ → Bool
is_graphic c = leb 33 c && leb c 126

abbrev pub IsGraphic : ℕ → Type 0
IsGraphic c = is_graphic c ≡ true

space_width-graphic : (c : ℕ) (s : Bytes) → IsGraphic c → space_width (c ∷ s) ≡ 0
unfolding space_width
space_width-graphic c [] h = ground arith
space_width-graphic c (a ∷ []) h = ground arith
space_width-graphic c (a ∷ b ∷ s) h = ground arith

end_width-graphic : (c : ℕ) (s : Bytes) → IsGraphic c → end_width (c ∷ s) ≡ 0
unfolding end_width
end_width-graphic c [] h = ground arith
end_width-graphic c (a ∷ []) h = ground arith
end_width-graphic c (a ∷ b ∷ s) h = ground arith

strip_none :
    (width : Bytes → ℕ) (c : ℕ) (s : Bytes) → width (c ∷ s) ≡ 0 → strip width 0 (c ∷ s) ≡ c ∷ s
unfolding strip
strip_none width c s h = rw (h, strip)

All-reverse : (s : Bytes) → All IsGraphic s → All IsGraphic (reverse s)
All-reverse [] h = tt
All-reverse (c ∷ s) h =
    rw (reverse-cons c s) (All-append IsGraphic (reverse s) (c ∷ []) (All-reverse s h.1) (h.0, tt))

strip_end : (s : Bytes) → All IsGraphic s → strip end_width 0 s ≡ s
unfolding strip
strip_end [] h = refl
strip_end (c ∷ s) h = strip_none end_width c s (end_width-graphic c s h.0)

strip_start : (s : Bytes) → All IsGraphic s → strip space_width 0 s ≡ s
unfolding strip
strip_start [] h = refl
strip_start (c ∷ s) h = strip_none space_width c s (space_width-graphic c s h.0)

pub trim_space_graphic : (s : Bytes) → All IsGraphic s → trim_space s ≡ s
unfolding trim_space
trim_space_graphic s h =
    rw (strip_start s h, strip_end (reverse s) (All-reverse s h)) (reverse-reverse s)
