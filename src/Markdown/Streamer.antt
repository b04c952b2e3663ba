-- ===== src/Markdown/Streamer.antt =====
-- internal/markdown/streamer.go: BlockStreamer cuts Markdown that arrives in pieces into blocks, and
-- never inside a fenced code block. The loop of completedBlocks keeps text[blockStart:lineStart] as
-- `block` and text[lineStart:] as the rest; its fuel is the length of the text.
pub mod Lossless
pub mod Fences
use pyttechat.Base.{
  ℕ, zero, suc, ◌+◌, Bool, true, false, ◌&&◌, ◌||◌, not, List, [], ◌∷◌, ◌++◌, Option, none, some,
  Bytes, ltb, ◌==◌, if◌then◌else◌, length, take, drop,
}
use pyttechat.Text.{trim_space, is_empty, has_prefix}

pub record BlockStreamer : Type 0 where
  pub full : Bytes
  pub pending : Bytes
  pub flushed : Bool

abbrev pub new_streamer : BlockStreamer
new_streamer = record { full = []; pending = []; flushed = false }

-- A fence that is open: its marker and its length.
pub record Fence : Type 0 where
  pub marker : ℕ
  pub width : ℕ

-- markerRunLength
unfoldable pub marker_run_length : Bytes → ℕ → ℕ
marker_run_length [] marker = 0
marker_run_length (c ∷ cs) marker =
    let more = marker_run_length cs marker in if c == marker then suc more else 0

-- openingFence
unfoldable pub opening_fence : Bytes → Option Fence
unfolding marker_run_length
opening_fence [] = none
opening_fence (c ∷ cs) =
    let width = marker_run_length (c ∷ cs) c in
    if ltb (length (c ∷ cs)) 3
    then none
    else if not (c == b'`') && not (c == b'~')
    then none
    else if ltb width 3
    then none
    else some (record { marker = c; width = width })

-- isClosingFence
unfoldable pub is_closing_fence : Bytes → Fence → Bool
unfolding marker_run_length
is_closing_fence trimmed fence =
    let width = marker_run_length trimmed fence.marker in
    if ltb (length trimmed) fence.width
    then false
    else if ltb width fence.width
    then false
    else is_empty (trim_space (drop width trimmed))

-- `index < len(text) && isBlankLineAt(text, index)`, on text[index:]
unfoldable pub is_blank_line_at : Bytes → Bool
is_blank_line_at [] = false
is_blank_line_at (c ∷ cs) = c == b'\n' || c == b'\r'

-- blankLineLength
unfoldable pub blank_line_length : Bytes → ℕ
blank_line_length text = if has_prefix text (b'\r' ∷ b'\n' ∷ []) then 2 else 1

-- The first line with its end, and the text behind it; `none` where no line ends.
unfoldable pub cut_line : Bytes → Option (Bytes × Bytes)
cut_line [] = none
cut_line (c ∷ cs) =
    let rest = cut_line cs in
    if c == b'\n'
    then some (c ∷ [], cs)
    else elim rest [ none ↦ none | some (line, after) ↦ some (c ∷ line, after) ]

-- Where the loop goes on: the blocks found, the fence, the block begun and the text left.
pub record Position : Type 0 where
  pub found : List Bytes
  pub fence : Option Fence
  pub block : Bytes
  pub rest : Bytes

-- A line behind an opening fence.
unfoldable pub fenced_line : Fence → Bytes → Bytes → Bytes → Position
unfolding is_blank_line_at blank_line_length
fenced_line fence block line after =
    if not (is_closing_fence (trim_space line) fence)
    then record { found = []; fence = some fence; block = block ++ line; rest = after }
    else if is_blank_line_at after
    then record {
      found = ((block ++ line) ++ take (blank_line_length after) after) ∷ [];
      fence = none;
      block = [];
      rest = drop (blank_line_length after) after;
    }
    else if is_empty after
    then record { found = (block ++ line) ∷ []; fence = none; block = []; rest = after }
    else record { found = []; fence = none; block = block ++ line; rest = after }

-- Any other line.
unfoldable pub plain_line : Bytes → Bytes → Bytes → Position
plain_line block line after = elim (opening_fence (trim_space line)) [
  | some fence ↦ record { found = []; fence = some fence; block = block ++ line; rest = after }
  | none ↦
      if is_empty (trim_space line)
      then record { found = (block ++ line) ∷ []; fence = none; block = []; rest = after }
      else record { found = []; fence = none; block = block ++ line; rest = after }
]

abbrev pub take_line : Option Fence → Bytes → Bytes → Bytes → Position
take_line none block line after = plain_line block line after
take_line (some fence) block line after = fenced_line fence block line after

-- The loop of completedBlocks: the blocks, and text[blockStart:] at its end.
unfoldable pub scan : ℕ → Option Fence → Bytes → Bytes → List Bytes × Bytes
scan zero fence block rest = ([], block ++ rest)
scan (suc fuel) fence block rest = elim (cut_line rest) [
  | none ↦ ([], block ++ rest)
  | some (line, after) ↦
      let p = take_line fence block line after in
      let (blocks, remaining) = scan fuel p.fence p.block p.rest in (p.found ++ blocks, remaining)
]

-- At the end of the stream the remaining text is a block too.
abbrev pub with_last : Bool → List Bytes × Bytes → List Bytes × Bytes
with_last final (blocks, remaining) =
    if final && not (is_empty remaining)
    then (blocks ++ remaining ∷ [], [])
    else (blocks, remaining)

-- completedBlocks
unfoldable pub completed_blocks : Bool → BlockStreamer → BlockStreamer × List Bytes
completed_blocks final s =
    if s.flushed && final
    then (s, [])
    else (let (blocks, remaining) = with_last final (scan (length s.pending) none [] s.pending) in
        (
          record s {
            pending = remaining;
            flushed = if final && is_empty remaining then true else s.flushed;
          },
          blocks,
        ))

-- Add
unfoldable pub add : Bytes → BlockStreamer → BlockStreamer × List Bytes
add [] s = (s, [])
add (c ∷ delta) s =
    completed_blocks false
      (record { full = s.full ++ (c ∷ delta); pending = s.pending ++ (c ∷ delta); flushed = false })

-- Flush
unfoldable pub flush : BlockStreamer → BlockStreamer × List Bytes
flush s = completed_blocks true s

-- FullMarkdown
unfoldable pub full_markdown : BlockStreamer → Bytes
full_markdown s = s.full
