-- ===== src/Markdown/Streamer/Fences.antt =====
-- No block ends inside a fenced code block, and the loop's fuel suffices.
use pyttechat.Base.{
  ℕ, zero, suc, true, [], ◌∷◌, ◌++◌, Option, none, some, Bytes, length, take, ◌≡◌, refl, sym, ◌⊎◌,
  inl, inr, arith, if◌then◌else◌, Bool-cases, Option-cases, All, All-append,
}
use pyttechat.Text.{is_empty, trim_space, has_prefix}
use pyttechat.Markdown.Streamer.{
  BlockStreamer, Fence, Position, opening_fence, is_closing_fence, is_blank_line_at,
  blank_line_length, cut_line, fenced_line, plain_line, take_line, scan, completed_blocks, add,
}

-- What a line does to the fence that is open before it.
abbrev pub next_fence : Option Fence → Bytes → Option Fence
next_fence none line = opening_fence (trim_space line)
next_fence (some fence) line = if is_closing_fence (trim_space line) fence then none else some fence

abbrev pub IsLine : Bytes → Type 0
IsLine line = cut_line line ≡ some (line, [])

-- A text of whole lines, read from its start with no fence open, leaves this fence open.
pub data Leaves : Bytes → Option Fence → Type 0 where
  start : Leaves [] none
  more :
      {text text' : Bytes} {fence fence' : Option Fence} (line : Bytes)
      → Leaves text fence
      → IsLine line
      → text' ≡ text ++ line
      → fence' ≡ next_fence fence line
      → Leaves text' fence'

-- Whole lines that leave no fence open, and at most a carriage return behind them.
pub data IsBlock (block : Bytes) : Type 0 where
  lines : Leaves block none → IsBlock block
  lines_cr : {text : Bytes} → Leaves text none → block ≡ text ++ b'\r' ∷ [] → IsBlock block

cut_line-IsLine : (s line after : Bytes) → cut_line s ≡ some (line, after) → IsLine line
unfolding cut_line
cut_line-IsLine [] line after h = ground arith
cut_line-IsLine (c ∷ cs) [] after h = ground arith
cut_line-IsLine (c ∷ cs) (l ∷ line) after h = ground (arith, cut_line-IsLine cs line after)

abbrev cr : Bytes
cr = b'\r' ∷ []

abbrev lf : Bytes
lf = b'\n' ∷ []

abbrev crlf : Bytes
crlf = b'\r' ∷ b'\n' ∷ []

-- The blank that is taken into a block behind its closing fence.
blank_piece :
    (after : Bytes)
    → is_blank_line_at after ≡ true
    → let piece = take (blank_line_length after) after in
      (piece ≡ lf) ⊎ ((piece ≡ crlf) ⊎ (piece ≡ cr))
unfolding is_blank_line_at blank_line_length has_prefix
blank_piece [] h = ground arith
blank_piece (c ∷ []) h = ground arith
blank_piece (c ∷ d ∷ cs) h = ground arith

next_fence-lf : next_fence none lf ≡ none
unfolding trim_space opening_fence
next_fence-lf = refl

next_fence-crlf : next_fence none crlf ≡ none
unfolding trim_space opening_fence
next_fence-crlf = refl

IsLine-lf : IsLine lf
unfolding cut_line
IsLine-lf = refl

IsLine-crlf : IsLine crlf
unfolding cut_line
IsLine-crlf = refl

IsBlock-blank :
    (text after : Bytes)
    → Leaves text none
    → is_blank_line_at after ≡ true
    → IsBlock (text ++ take (blank_line_length after) after)
IsBlock-blank text after h b = elim (blank_piece after b) [
  | inl e ↦ rw e (lines (more lf h IsLine-lf refl (sym next_fence-lf)))
  | inr (inl e) ↦ rw e (lines (more crlf h IsLine-crlf refl (sym next_fence-crlf)))
  | inr (inr e) ↦ rw e (lines_cr h refl)
]

-- The blocks found are whole, and the block begun has this fence open.
abbrev IsSound : Position → Type 0
IsSound p = All IsBlock p.found × Leaves p.block p.fence

fenced_line-IsSound :
    (fence : Fence) (block line after : Bytes)
    → Leaves block (some fence)
    → IsLine line
    → IsSound (fenced_line fence block line after)
unfolding fenced_line
fenced_line-IsSound fence block line after h l =
    elim (Bool-cases (is_closing_fence (trim_space line) fence)) [
      | inl closing ↦
          let closed : Leaves (block ++ line) none = more line h l refl (rw closing) in
          elim (Bool-cases (is_blank_line_at after)) [
            | inl b ↦ simp (closing, b) ((IsBlock-blank (block ++ line) after closed b, tt), start)
            | inr b ↦ elim (Bool-cases (is_empty after)) [
              | inl e ↦ simp (closing, b, e) ((lines closed, tt), start)
              | inr e ↦ simp (closing, b, e) (tt, closed)
            ]
          ]
      | inr still ↦ simp still (tt, more line h l refl (rw still))
    ]

plain_line-IsSound :
    (block line after : Bytes)
    → Leaves block none
    → IsLine line
    → IsSound (plain_line block line after)
unfolding plain_line
plain_line-IsSound block line after h l = elim (Option-cases (opening_fence (trim_space line))) [
  | inr (fence, opens) ↦ rw (opens, plain_line) (tt, more line h l refl (sym opens))
  | inl plain ↦
      let text : Leaves (block ++ line) none = more line h l refl (sym plain) in
      elim (Bool-cases (is_empty (trim_space line))) [
        | inl e ↦ rw (plain, plain_line, e) ((lines text, tt), start)
        | inr e ↦ rw (plain, plain_line, e) (tt, text)
      ]
]

take_line-IsSound :
    (fence : Option Fence) (block line after : Bytes)
    → Leaves block fence
    → IsLine line
    → IsSound (take_line fence block line after)
take_line-IsSound none block line after h l = plain_line-IsSound block line after h l
take_line-IsSound (some fence) block line after h l = fenced_line-IsSound fence block line after h l

scan-IsBlock :
    (fuel : ℕ) (fence : Option Fence) (block rest : Bytes)
    → Leaves block fence
    → All IsBlock (scan fuel fence block rest).0
unfolding scan
scan-IsBlock zero fence block rest h = tt
scan-IsBlock (suc fuel) fence block rest h = elim (Option-cases (cut_line rest)) [
  | inl e ↦ rw (e, scan) tt
  | inr ((line, after), e) ↦
      let p = take_line fence block line after in
      let (found, begun) =
        take_line-IsSound fence block line after h (cut_line-IsLine rest line after e) in
      rw (e, scan)
        (All-append IsBlock p.found _ found (scan-IsBlock fuel p.fence p.block p.rest begun))
]

-- Every block that is handed out while text arrives is made of whole lines, and whoever reads it line
-- by line from its start has no fence open at its end; only one carriage return may stand behind.
pub add-IsBlock : (delta : Bytes) (s : BlockStreamer) → All IsBlock (add delta s).1
unfolding add completed_blocks
add-IsBlock [] s = tt
add-IsBlock (c ∷ delta) s =
    scan-IsBlock (length (s.pending ++ (c ∷ delta))) none [] (s.pending ++ (c ∷ delta)) start
