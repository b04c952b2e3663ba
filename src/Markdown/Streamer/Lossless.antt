-- ===== src/Markdown/Streamer/Lossless.antt =====
-- No text is lost or doubled: what is handed out and what waits is what was added.
use pyttechat.Base.{
  ℕ, zero, suc, ◌<◌, Bool, true, false, ◌&&◌, not, List, [], ◌∷◌, ◌++◌, Option, none, some, Bytes,
  length, take, drop, concat, ◌≡◌, refl, sym, ap, ◌∙◌, ◌⊎◌, inl, inr, arith, Bool-cases,
  Option-cases, List-cases, append-nil, append_assoc, concat-append, take-append-drop,
}
use pyttechat.Text.{is_empty}
use pyttechat.Markdown.Streamer.{
  BlockStreamer, new_streamer, Fence, Position, cut_line, fenced_line, plain_line, take_line, scan,
  with_last, completed_blocks, add, flush, full_markdown, blank_line_length,
}

pub cut_line-some :
    (s line after : Bytes)
    → cut_line s ≡ some (line, after)
    → (s ≡ line ++ after) × (0 < length line) × (length after < length s)
unfolding cut_line
cut_line-some [] line after h = ground arith
cut_line-some (c ∷ cs) [] after h = ground arith
cut_line-some (c ∷ cs) (l ∷ line) after h = ground (arith, cut_line-some cs line after)

-- A position stands for this text.
abbrev pub text_at : Position → Bytes
text_at p = concat p.found ++ (p.block ++ p.rest)

fenced_line-text :
    (fence : Fence) (block line after : Bytes)
    → text_at (fenced_line fence block line after) ≡ (block ++ line) ++ after
unfolding fenced_line
fenced_line-text fence block line after = ground (
  arith,
  append_assoc block line after,
  append-nil after,
  append-nil (block ++ line),
  append-nil ((block ++ line) ++ take (blank_line_length after) after),
  append_assoc (block ++ line) (take (blank_line_length after) after)
      (drop (blank_line_length after) after),
  take-append-drop (blank_line_length after) after,
)

plain_line-text :
    (block line after : Bytes) → text_at (plain_line block line after) ≡ (block ++ line) ++ after
unfolding plain_line
plain_line-text block line after = ground (arith, append-nil (block ++ line))

take_line-text :
    (fence : Option Fence) (block line after : Bytes)
    → text_at (take_line fence block line after) ≡ (block ++ line) ++ after
take_line-text none block line after = plain_line-text block line after
take_line-text (some fence) block line after = fenced_line-text fence block line after

scan_text :
    (fuel : ℕ) (fence : Option Fence) (block rest : Bytes)
    → let (blocks, remaining) = scan fuel fence block rest in
      concat blocks ++ remaining ≡ block ++ rest
unfolding scan
scan_text zero fence block rest = refl
scan_text (suc fuel) fence block rest = elim (Option-cases (cut_line rest)) [
  | inl e ↦ rw (e, scan)
  | inr ((line, after), e) ↦
      let p = take_line fence block line after in
      let (blocks, remaining) = scan fuel p.fence p.block p.rest in
      rw
        (
          e,
          scan,
          concat-append p.found blocks,
          append_assoc (concat p.found) (concat blocks) remaining,
          scan_text fuel p.fence p.block p.rest,
          take_line-text fence block line after,
          (cut_line-some rest line after e).0,
        )
        (append_assoc block line after)
]

with_last-text :
    (final : Bool) (blocks : List Bytes) (remaining : Bytes)
    → let (blocks', remaining') = with_last final (blocks, remaining) in
      concat blocks' ++ remaining' ≡ concat blocks ++ remaining
with_last-text final blocks remaining = elim (Bool-cases (final && not (is_empty remaining))) [
  | inl e ↦ rw e (simp (concat-append, append-nil))
  | inr e ↦ rw e
]

completed_blocks-text :
    (final : Bool) (s : BlockStreamer)
    → let (s', blocks) = completed_blocks final s in
      (concat blocks ++ s'.pending ≡ s.pending) × (s'.full ≡ s.full)
unfolding completed_blocks
completed_blocks-text final s = elim (Bool-cases (s.flushed && final)) [
  | inl e ↦ simp e (refl, refl)
  | inr e ↦
      let (blocks, remaining) = scan (length s.pending) none [] s.pending in
      simp e (
        with_last-text final blocks remaining ∙ scan_text (length s.pending) none [] s.pending,
        refl,
      )
]

-- What a user of the streamer does: it adds text, or flushes.
pub data Op : Type 0 where
  adds : Bytes → Op
  flushes : Op

unfoldable pub feed : List Op → BlockStreamer → BlockStreamer × List Bytes
feed [] s = (s, [])
feed (adds delta ∷ ops) s =
    let (s', blocks) = add delta s in let (s'', later) = feed ops s' in (s'', blocks ++ later)
feed (flushes ∷ ops) s =
    let (s', blocks) = flush s in let (s'', later) = feed ops s' in (s'', blocks ++ later)

-- The blocks `out` and the text that waits in `s` are all that was added.
abbrev pub Accounts : List Bytes → BlockStreamer → Type 0
Accounts out s = concat out ++ s.pending ≡ full_markdown s

add-Accounts :
    (delta : Bytes) (out : List Bytes) (s : BlockStreamer)
    → Accounts out s
    → let (s', blocks) = add delta s in Accounts (out ++ blocks) s'
unfolding add full_markdown
add-Accounts [] out s h = rw (append-nil out) h
add-Accounts (c ∷ delta) out s h =
    let s₁ : BlockStreamer = record {
      full = s.full ++ (c ∷ delta);
      pending = s.pending ++ (c ∷ delta);
      flushed = false;
    } in
    let (s', blocks) = completed_blocks false s₁ in
    let (text, full) = completed_blocks-text false s₁ in
    rw (concat-append out blocks, append_assoc (concat out) (concat blocks) s'.pending, text, full)
      (rw (← append_assoc (concat out) s.pending (c ∷ delta)) (ap (λ t. t ++ (c ∷ delta)) h))

flush-Accounts :
    (out : List Bytes) (s : BlockStreamer)
    → Accounts out s
    → let (s', blocks) = flush s in Accounts (out ++ blocks) s'
unfolding flush full_markdown
flush-Accounts out s h =
    let (s', blocks) = completed_blocks true s in
    let (text, full) = completed_blocks-text true s in
    rw (concat-append out blocks, append_assoc (concat out) (concat blocks) s'.pending, text, full)
      h

feed-Accounts :
    (ops : List Op) (out : List Bytes) (s : BlockStreamer)
    → Accounts out s
    → let (s', blocks) = feed ops s in Accounts (out ++ blocks) s'
unfolding feed
feed-Accounts [] out s h = rw (append-nil out) h
feed-Accounts (adds delta ∷ ops) out s h =
    let (s', blocks) = add delta s in
    let (s'', later) = feed ops s' in
    rw (← append_assoc out blocks later)
      (feed-Accounts ops (out ++ blocks) s' (add-Accounts delta out s h))
feed-Accounts (flushes ∷ ops) out s h =
    let (s', blocks) = flush s in
    let (s'', later) = feed ops s' in
    rw (← append_assoc out blocks later)
      (feed-Accounts ops (out ++ blocks) s' (flush-Accounts out s h))

pub feed_lossless :
    (ops : List Op)
    → let (s, blocks) = feed ops new_streamer in concat blocks ++ s.pending ≡ full_markdown s
feed_lossless ops = feed-Accounts ops [] new_streamer (unfold full_markdown in refl)

-- Nothing waits once the streamer is marked as flushed.
abbrev Settled : BlockStreamer → Type 0
Settled s = (s.flushed ≡ false) ⊎ (s.pending ≡ [])

flush-Settled :
    (s : BlockStreamer)
    → Settled s
    → let (s', blocks) = flush s in (s'.pending ≡ []) × Settled s' × ((flush s').1 ≡ [])
unfolding flush completed_blocks
flush-Settled s h =
    let (blocks, remaining) = scan (length s.pending) none [] s.pending in
    elim (List-cases remaining) [ inl e ↦ ground arith | inr (c, cs, e) ↦ ground arith ]

add-Settled : (delta : Bytes) (s : BlockStreamer) → Settled s → Settled (add delta s).0
unfolding add completed_blocks
add-Settled [] s h = h
add-Settled (c ∷ delta) s h = inl (ground arith)

feed-Settled : (ops : List Op) (s : BlockStreamer) → Settled s → Settled (feed ops s).0
unfolding feed
feed-Settled [] s h = h
feed-Settled (adds delta ∷ ops) s h = feed-Settled ops (add delta s).0 (add-Settled delta s h)
feed-Settled (flushes ∷ ops) s h = feed-Settled ops (flush s).0 (flush-Settled s h).1

full-flush : (s : BlockStreamer) → full_markdown (flush s).0 ≡ full_markdown s
unfolding full_markdown flush
full-flush s = (completed_blocks-text true s).1

-- A flush at the end, after whatever was done before, leaves nothing waiting: the blocks handed out
-- by then are the whole text, and a second flush hands out no block.
pub flush_complete :
    (ops : List Op)
    → let (s, blocks) = feed ops new_streamer in
      let (s', last) = flush s in
      (s'.pending ≡ []) × (concat (blocks ++ last) ≡ full_markdown s) × ((flush s').1 ≡ [])
flush_complete ops =
    let (s, blocks) = feed ops new_streamer in
    let (s', last) = flush s in
    let (empty, _, again) = flush-Settled s (feed-Settled ops new_streamer (inl refl)) in
    let all : concat (blocks ++ last) ++ s'.pending ≡ full_markdown s' =
      flush-Accounts blocks s (feed_lossless ops) in
    (empty, sym (append-nil (concat (blocks ++ last))) ∙ (rw empty at all) ∙ full-flush s, again)
