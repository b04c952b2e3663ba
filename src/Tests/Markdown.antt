-- ===== src/Tests/Markdown.antt =====
-- Runs of internal/markdown on small inputs, and the theorems about it at those.
use pyttechat.Base.{List, [], ◌∷◌, ◌++◌, Bytes, concat, ◌≡◌, refl, All}
use pyttechat.Text.{trim_space}
use pyttechat.Text.Laws.{codes}
use pyttechat.Markdown.Streamer.{
  new_streamer, scan, add, flush, full_markdown, completed_blocks, cut_line, fenced_line,
  plain_line, opening_fence, is_closing_fence,
}
use pyttechat.Markdown.Streamer.Lossless.{Op, adds, flushes, feed, flush_complete}
use pyttechat.Markdown.Streamer.Fences.{IsBlock, add-IsBlock}

-- A paragraph, then a code block with an empty line in it.
abbrev piece : Bytes
piece = codes "a\n\n```\nb\n\nc"

abbrev ops : List Op
ops = adds piece ∷ flushes ∷ adds (codes "\n```\nd") ∷ []

-- The empty line inside the fence ends no block.
piece_blocks : (add piece new_streamer).1 ≡ codes "a\n\n" ∷ []
unfolding add completed_blocks scan cut_line fenced_line plain_line opening_fence is_closing_fence
    trim_space
piece_blocks = refl

flush_complete_example :
    let (s, blocks) = feed ops new_streamer in
    let (s', last) = flush s in
    (s'.pending ≡ []) × (concat (blocks ++ last) ≡ full_markdown s) × ((flush s').1 ≡ [])
flush_complete_example = flush_complete ops

add-IsBlock_example : All IsBlock (add piece new_streamer).1
add-IsBlock_example = add-IsBlock piece new_streamer
