-- ===== src/Web/Run/Parts.antt =====
-- How internal/web gathers parts, beside how internal/chat does, function by function.
use pyttechat.Base.{List, [], ◌∷◌, none, some, Bytes, ◌≡◌, refl, ap, arith, if◌then◌else◌, Option}
use pyttechat.Text.{is_empty}
use pyttechat.Llm.{Part, PartType, unset, text, reasoning}
use pyttechat.Chat.Parts.{
  append_delta, merge_completed_part, merge_as, extend_last, or_keep, or_keep_summary,
  fill_reasoning, fill_last_reasoning, complete_last_text, or_append,
}
use pyttechat.Web.Run.{
  append_output_delta, merge_output_as, merge_completed_output_part, extend_output,
  overwrite_output, overwrite_last_reasoning, overwrite_last_text, or_add_output, has_summary,
}

extend_output-eq :
    (t : PartType) (delta : Bytes) (ps : List Part)
    → extend_output t delta ps ≡ extend_last t delta ps
unfolding extend_output extend_last
extend_output-eq t delta [] = refl
extend_output-eq t delta (p ∷ []) = ground arith
extend_output-eq t delta (p ∷ q ∷ ps) = ap (λ r. p ∷ r) (extend_output-eq t delta (q ∷ ps))

pub append_output_delta-eq :
    (ps : List Part) (t : PartType) (delta : Bytes)
    → append_output_delta ps t delta ≡ append_delta t delta ps
unfolding append_output_delta append_delta
append_output_delta-eq ps t delta = rw (extend_output-eq t delta ps) refl

or_keep-eq : (value old : Bytes) → (if is_empty value then old else value) ≡ or_keep value old
or_keep-eq [] old = refl
or_keep-eq (c ∷ cs) old = refl

or_keep_summary-eq :
    (value old : List Bytes)
    → (if has_summary value then value else old) ≡ or_keep_summary value old
or_keep_summary-eq [] old = refl
or_keep_summary-eq (s ∷ ss) old = refl

overwrite_output-eq : (part p : Part) → overwrite_output part p ≡ fill_reasoning part p
unfolding overwrite_output fill_reasoning
overwrite_output-eq part p = rw (
  or_keep-eq part.text p.text,
  or_keep-eq part.id p.id,
  or_keep_summary-eq part.summary p.summary,
  or_keep-eq part.encrypted_content p.encrypted_content,
)

overwrite_last_reasoning-eq :
    (part : Part) (ps : List Part) → overwrite_last_reasoning part ps ≡ fill_last_reasoning part ps
unfolding overwrite_last_reasoning fill_last_reasoning
overwrite_last_reasoning-eq part [] = refl
overwrite_last_reasoning-eq part (p ∷ ps) =
    ground (arith, overwrite_last_reasoning-eq part ps, overwrite_output-eq part p)

overwrite_last_text-eq :
    (part : Part) (ps : List Part) → overwrite_last_text part ps ≡ complete_last_text part ps
unfolding overwrite_last_text complete_last_text
overwrite_last_text-eq part [] = refl
overwrite_last_text-eq part (p ∷ []) = ground arith
overwrite_last_text-eq part (p ∷ q ∷ ps) = ground (arith, overwrite_last_text-eq part (q ∷ ps))

or_add_output-eq :
    (part : Part) (ps : List Part) (o : Option (List Part))
    → or_add_output part ps o ≡ or_append part ps o
or_add_output-eq part ps none = refl
or_add_output-eq part ps (some ps') = refl

merge_output_as-eq :
    (t : PartType) (ps : List Part) (part : Part) → merge_output_as t ps part ≡ merge_as t part ps
unfolding merge_output_as merge_as
merge_output_as-eq unset ps part = refl
merge_output_as-eq reasoning ps part =
    rw (overwrite_last_reasoning-eq part ps)
      (or_add_output-eq part ps (fill_last_reasoning part ps))
merge_output_as-eq text ps part =
    rw (overwrite_last_text-eq part ps) (or_add_output-eq part ps (complete_last_text part ps))
merge_output_as-eq _ ps part = refl

pub merge_completed_output_part-eq :
    (ps : List Part) (part : Part)
    → merge_completed_output_part ps part ≡ merge_completed_part part ps
unfolding merge_completed_output_part merge_completed_part
merge_completed_output_part-eq ps part = merge_output_as-eq part.type ps part
