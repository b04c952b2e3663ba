-- ===== src/Llm/Laws.antt =====
-- Copies of parts and messages are equal to what they copy; part types are told apart.
use pyttechat.Base.{Bytes, true, List, [], ◌∷◌, ◌++◌, ◌≡◌, refl, ap, arith, map, append_assoc}
use pyttechat.Text.Laws.{eq_bytes_refl, eq_bytes→eq}
use pyttechat.Llm.{
  PartType, unset, text, reasoning, summary, error, image, attachment, other_type, same_type, Part,
  Message, copy_summary, clone_part, clone_message, clone_messages, texts_of,
}

copy_summary-eq : (l : List Bytes) → copy_summary l ≡ l
copy_summary-eq [] = refl
copy_summary-eq (s ∷ l) = ap (◌∷◌ s) (copy_summary-eq l)

pub clone_part-eq : (p : Part) → clone_part p ≡ p
unfolding clone_part
clone_part-eq p = ap (λ l. record p { summary = l }) (copy_summary-eq p.summary)

pub clone_parts-eq : (ps : List Part) → map clone_part ps ≡ ps
clone_parts-eq [] = refl
clone_parts-eq (p ∷ ps) = rw (clone_part-eq p, clone_parts-eq ps)

pub clone_message-eq : (m : Message) → clone_message m ≡ m
unfolding clone_message
clone_message-eq m = ap (λ l. record m { parts = l }) (clone_parts-eq m.parts)

pub clone_messages-eq : (ms : List Message) → clone_messages ms ≡ ms
unfolding clone_messages
clone_messages-eq [] = refl
clone_messages-eq (m ∷ ms) = rw (clone_message-eq m, clone_messages-eq ms)

pub ruleset copies = (clone_part-eq, clone_parts-eq, clone_message-eq, clone_messages-eq)

pub same_type_refl : (t : PartType) → same_type t t ≡ true
unfolding same_type
same_type_refl unset = refl
same_type_refl text = refl
same_type_refl reasoning = refl
same_type_refl summary = refl
same_type_refl error = refl
same_type_refl image = refl
same_type_refl attachment = refl
same_type_refl (other_type a) = eq_bytes_refl a

pub same_type→eq : (a b : PartType) → same_type a b ≡ true → a ≡ b
unfolding same_type
same_type→eq (other_type a) (other_type b) h = ap other_type (eq_bytes→eq a b h)
same_type→eq _ _ h = ground arith

pub texts_of-append :
    (t : PartType) (ps qs : List Part) → texts_of t (ps ++ qs) ≡ texts_of t ps ++ texts_of t qs
unfolding texts_of
texts_of-append t [] qs = refl
texts_of-append t (p ∷ ps) qs =
    ground (arith, texts_of-append t ps qs, append_assoc p.text (texts_of t ps) (texts_of t qs))
