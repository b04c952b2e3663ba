-- ===== src/Chat/Parts.antt =====
-- How internal/chat/service.go gathers the parts of an answer while its events arrive:
-- TurnStream.appendDelta and TurnStream.mergeCompletedPart.
pub mod Laws
use pyttechat.Base.{
  Bool, true, false, ◌&&◌, not, List, [], ◌∷◌, ◌++◌, Option, none, some, Bytes, if◌then◌else◌,
}
use pyttechat.Text.{is_empty, has_prefix}
use pyttechat.Llm.{PartType, unset, text, reasoning, same_type, Part, text_part, clone_part}

-- The last part takes the delta if it has its type; else a new part does.
unfoldable pub extend_last : PartType → Bytes → List Part → List Part
extend_last t delta [] = text_part t delta ∷ []
extend_last t delta (p ∷ []) =
    if same_type p.type t
    then record p { text = p.text ++ delta } ∷ []
    else p ∷ text_part t delta ∷ []
extend_last t delta (p ∷ q ∷ ps) = p ∷ extend_last t delta (q ∷ ps)

unfoldable pub append_delta : PartType → Bytes → List Part → List Part
unfolding extend_last
append_delta t delta parts = if is_empty delta then parts else extend_last t delta parts

-- if value != "" { field = value }
abbrev pub or_keep : Bytes → Bytes → Bytes
or_keep [] old = old
or_keep (c ∷ cs) old = c ∷ cs

-- if len(value) > 0 { field = append([]string(nil), value...) }
abbrev pub or_keep_summary : List Bytes → List Bytes → List Bytes
or_keep_summary [] old = old
or_keep_summary (s ∷ ss) old = s ∷ ss

-- What a finished reasoning item writes over the part gathered from its deltas.
unfoldable pub fill_reasoning : Part → Part → Part
fill_reasoning part old = record old {
  text = or_keep part.text old.text;
  id = or_keep part.id old.id;
  summary = or_keep_summary part.summary old.summary;
  encrypted_content = or_keep part.encrypted_content old.encrypted_content;
}

-- The loop from the last part down to the first; `none` where no part is reasoning.
unfoldable pub fill_last_reasoning : Part → List Part → Option (List Part)
unfolding fill_reasoning
fill_last_reasoning part [] = none
fill_last_reasoning part (p ∷ ps) = elim (fill_last_reasoning part ps) [
  | some ps' ↦ some (p ∷ ps')
  | none ↦ if same_type p.type reasoning then some (fill_reasoning part p ∷ ps) else none
]

-- A finished text takes the place of the last part where it continues that part's text.
unfoldable pub complete_last_text : Part → List Part → Option (List Part)
complete_last_text part [] = none
complete_last_text part (p ∷ []) =
    if same_type p.type text && (not (is_empty part.text) && has_prefix part.text p.text)
    then some (record p { text = part.text } ∷ [])
    else none
complete_last_text part (p ∷ q ∷ ps) = elim (complete_last_text part (q ∷ ps)) [
  | none ↦ none
  | some rest ↦ some (p ∷ rest)
]

abbrev pub or_append : Part → List Part → Option (List Part) → List Part
or_append part parts (some parts') = parts'
or_append part parts none = parts ++ clone_part part ∷ []

unfoldable pub merge_as : PartType → Part → List Part → List Part
merge_as unset part parts = parts
merge_as reasoning part parts = or_append part parts (fill_last_reasoning part parts)
merge_as text part parts = or_append part parts (complete_last_text part parts)
merge_as _ part parts = parts ++ clone_part part ∷ []

unfoldable pub merge_completed_part : Part → List Part → List Part
unfolding merge_as fill_last_reasoning complete_last_text clone_part
merge_completed_part part parts = merge_as part.type part parts
