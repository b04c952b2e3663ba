-- ===== src/Chat/Parts/Laws.antt =====
-- The texts of the gathered parts.
use pyttechat.Base.{
  false, List, [], ◌∷◌, ◌++◌, Option, none, some, Bytes, if◌then◌else◌, ◌≡◌, refl, arith,
  append-nil, append_assoc,
}
use pyttechat.Llm.{PartType, unset, text, reasoning, same_type, Part, clone_part, texts_of}
use pyttechat.Llm.Laws.{same_type_refl, same_type→eq, texts_of-append, clone_part-eq}
use pyttechat.Chat.Parts.{
  extend_last, append_delta, or_append, fill_last_reasoning, complete_last_text, merge_as,
  merge_completed_part,
}

texts_of-extend_last :
    (t u : PartType) (delta : Bytes) (ps : List Part)
    → texts_of u (extend_last t delta ps)
      ≡ (if same_type t u then texts_of u ps ++ delta else texts_of u ps)
unfolding texts_of extend_last
texts_of-extend_last t u delta [] = ground (arith, append-nil delta)
texts_of-extend_last t u delta (p ∷ []) = ground (
  arith,
  append-nil delta,
  append-nil p.text,
  append-nil (p.text ++ delta),
  same_type→eq p.type t,
  same_type→eq p.type u,
  same_type→eq t u,
  same_type_refl t,
)
texts_of-extend_last t u delta (p ∷ q ∷ ps) = ground (
  arith,
  texts_of-extend_last t u delta (q ∷ ps),
  append_assoc p.text (texts_of u (q ∷ ps)) delta,
)

-- A delta is added at the end of the text of its own type, and leaves the texts of the other types.
pub texts_of-append_delta :
    (t u : PartType) (delta : Bytes) (ps : List Part)
    → texts_of u (append_delta t delta ps)
      ≡ (if same_type t u then texts_of u ps ++ delta else texts_of u ps)
unfolding append_delta
texts_of-append_delta t u [] ps = ground (arith, append-nil (texts_of u ps))
texts_of-append_delta t u (c ∷ cs) ps = texts_of-extend_last t u (c ∷ cs) ps

-- Neighbouring parts have different types.
abbrev pub Alternates : List Part → Type 0
Alternates [] = Unit {0}
Alternates (p ∷ []) = Unit {0}
Alternates (p ∷ q ∷ ps) = (same_type p.type q.type ≡ false) × Alternates (q ∷ ps)

extend_last-Alternates :
    (t : PartType) (delta : Bytes) (ps : List Part)
    → Alternates ps
    → Alternates (extend_last t delta ps)
unfolding extend_last
extend_last-Alternates t delta [] h = tt
extend_last-Alternates t delta (p ∷ []) h = ground arith
extend_last-Alternates t delta (p ∷ q ∷ []) h = ground (arith, same_type→eq q.type t)
extend_last-Alternates t delta (p ∷ q ∷ r ∷ ps) h =
    (h.0, extend_last-Alternates t delta (q ∷ r ∷ ps) h.1)

-- The parts that deltas build are maximal: a delta opens a new part only where the type changes.
pub append_delta-Alternates :
    (t : PartType) (delta : Bytes) (ps : List Part)
    → Alternates ps
    → Alternates (append_delta t delta ps)
unfolding append_delta
append_delta-Alternates t [] ps h = h
append_delta-Alternates t (c ∷ cs) ps h = extend_last-Alternates t (c ∷ cs) ps h

abbrev KeepsText : PartType → List Part → Option (List Part) → Type 0
KeepsText u ps none = Unit {0}
KeepsText u ps (some qs) = texts_of u qs ≡ texts_of u ps

fill_last_reasoning-KeepsText :
    (u : PartType) (part : Part) (ps : List Part)
    → same_type reasoning u ≡ false
    → KeepsText u ps (fill_last_reasoning part ps)
unfolding fill_last_reasoning texts_of
fill_last_reasoning-KeepsText u part [] h = tt
fill_last_reasoning-KeepsText u part (p ∷ ps) h =
    ground (arith, fill_last_reasoning-KeepsText u part ps h, same_type→eq p.type reasoning)

complete_last_text-KeepsText :
    (u : PartType) (part : Part) (ps : List Part)
    → same_type text u ≡ false
    → KeepsText u ps (complete_last_text part ps)
unfolding complete_last_text texts_of
complete_last_text-KeepsText u part [] h = tt
complete_last_text-KeepsText u part (p ∷ []) h = ground (arith, same_type→eq p.type text)
complete_last_text-KeepsText u part (p ∷ q ∷ ps) h =
    ground (arith, complete_last_text-KeepsText u part (q ∷ ps) h)

texts_of-concat :
    (u : PartType) (part : Part) (ps : List Part)
    → same_type part.type u ≡ false
    → texts_of u (ps ++ clone_part part ∷ []) ≡ texts_of u ps
unfolding texts_of
texts_of-concat u part ps h =
    rw (clone_part-eq part, texts_of-append u ps (part ∷ []), h) (append-nil (texts_of u ps))

texts_of-or_append :
    (u : PartType) (part : Part) (ps : List Part) (o : Option (List Part))
    → same_type part.type u ≡ false
    → KeepsText u ps o
    → texts_of u (or_append part ps o) ≡ texts_of u ps
texts_of-or_append u part ps none h k = texts_of-concat u part ps h
texts_of-or_append u part ps (some qs) h k = k

texts_of-merge_as :
    (t u : PartType) (part : Part) (ps : List Part)
    → part.type ≡ t
    → same_type part.type u ≡ false
    → texts_of u (merge_as t part ps) ≡ texts_of u ps
unfolding merge_as
texts_of-merge_as unset u part ps e h = refl
texts_of-merge_as reasoning u part ps e h =
    texts_of-or_append u part ps (fill_last_reasoning part ps) h
      (fill_last_reasoning-KeepsText u part ps (rw e at h))
texts_of-merge_as text u part ps e h =
    texts_of-or_append u part ps (complete_last_text part ps) h
      (complete_last_text-KeepsText u part ps (rw e at h))
texts_of-merge_as _ u part ps e h = texts_of-concat u part ps h

-- A finished item leaves the texts of every other type as they were, whichever way it is merged.
pub texts_of-merge_completed_part :
    (u : PartType) (part : Part) (ps : List Part)
    → same_type part.type u ≡ false
    → texts_of u (merge_completed_part part ps) ≡ texts_of u ps
unfolding merge_completed_part
texts_of-merge_completed_part u part ps h = texts_of-merge_as part.type u part ps refl h
