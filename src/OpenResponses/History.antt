-- ===== src/OpenResponses/History.antt =====
-- internal/llm/openresponses/client.go: what the client sends back of an answer, and what it shows twice.
use pyttechat.Base.{
  ℕ, suc, true, false, ◌&&◌, List, [], ◌∷◌, none, ℤ, pos, Bytes, ◌≡◌, refl, ap, sym, ◌∙◌, arith,
  All, Bool-cases, inl, inr,
}
use mathlib.Core.Path.{subst}
use pyttechat.Errors.{ok}
use pyttechat.Text.{eq_bytes, is_empty}
use pyttechat.Text.Laws.{codes, eq_bytes_refl}
use pyttechat.Llm.{Part, PartType, same_type, zero_part}
use pyttechat.OpenResponses.Json.{
  null, boolean, number, string, array, object, Values, no_values, value, Map, no_keys, key, get,
  string_field, int_field, as_map, as_values, is_string,
}
use pyttechat.OpenResponses.Payload.{summary_texts, content_text, output_item_part, is_one_of}
use pyttechat.OpenResponses.Input.{reasoning_summary, reasoning_input, set_text}
use pyttechat.OpenResponses.Mapping.{
  skips, item_done, payload_kind, payload_answer, kind_answer, missing_message_text,
  text_content_key, missing_text,
}

summary_texts-reasoning_summary :
    (texts : List Bytes)
    → All (λ t. is_empty t ≡ false) texts
    → summary_texts (reasoning_summary texts) ≡ texts
unfolding summary_texts reasoning_summary string_field get eq_bytes
summary_texts-reasoning_summary [] h = refl
summary_texts-reasoning_summary (t ∷ ts) h =
    rw (h.0) (ap (λ r. t ∷ r) (summary_texts-reasoning_summary ts h.1))

abbrev tail : Bytes → Bytes → Map
tail id encrypted =
    set_text (codes "id") id (set_text (codes "encrypted_content") encrypted no_keys)

tail-id : (id encrypted : Bytes) → string_field (tail id encrypted) (codes "id") ≡ id
unfolding string_field get eq_bytes
tail-id [] [] = refl
tail-id [] (c ∷ cs) = refl
tail-id (c ∷ cs) encrypted = refl

tail-encrypted :
    (id encrypted : Bytes)
    → string_field (tail id encrypted) (codes "encrypted_content") ≡ encrypted
unfolding string_field get eq_bytes
tail-encrypted [] [] = refl
tail-encrypted [] (c ∷ cs) = refl
tail-encrypted (d ∷ ds) [] = refl
tail-encrypted (d ∷ ds) (c ∷ cs) = refl

tail-content : (id encrypted : Bytes) → get (tail id encrypted) (codes "content") ≡ null
unfolding get eq_bytes
tail-content [] [] = refl
tail-content [] (c ∷ cs) = refl
tail-content (d ∷ ds) [] = refl
tail-content (d ∷ ds) (c ∷ cs) = refl

-- A reasoning item that is sent back as input would be read as the part that it was made of: the id, the
-- summary and the encrypted content survive, when no text of the summary is empty, and the text does not.
pub output_item_part-reasoning_input :
    (part : Part)
    → All (λ t. is_empty t ≡ false) part.summary
    → output_item_part (key (codes "item") (object (reasoning_input part)) no_keys)
      ≡ record zero_part {
        type = PartType.reasoning;
        id = part.id;
        summary = part.summary;
        encrypted_content = part.encrypted_content;
      }
unfolding output_item_part reasoning_input get string_field content_text eq_bytes
output_item_part-reasoning_input part h = rw (
  tail-id part.id part.encrypted_content,
  tail-encrypted part.id part.encrypted_content,
  tail-content part.id part.encrypted_content,
  summary_texts-reasoning_summary part.summary h,
)

pub skips_seen :
    (part : Map) (shown : Bytes) (seen : List Bytes)
    → is_one_of shown seen ≡ true
    → skips part shown seen ≡ true
unfolding skips
skips_seen part shown seen h = ground (arith, h)

pub skips_more :
    (part : Map) (shown : Bytes) (seen later : List Bytes)
    → (is_one_of shown seen ≡ true → is_one_of shown later ≡ true)
    → skips part shown seen ≡ true
    → skips part shown later ≡ true
unfolding skips
skips_more part shown seen later more h = elim (Bool-cases (is_one_of shown seen)) [
  | inl e ↦ skips_seen part shown later (more e)
  | inr e ↦ ground (arith, h, e)
]

module _ (decimal : ℤ → Bytes) (id : Bytes) (output : ℤ) where
  -- Keys stay.
  pub missing_text-keeps :
      (i : ℕ) (vs : Values) (seen : List Bytes) (k : Bytes)
      → is_one_of k seen ≡ true
      → is_one_of k (missing_text decimal id output i vs seen).0 ≡ true
  unfolding missing_text is_one_of
  missing_text-keeps i no_values seen k h = h
  missing_text-keeps i (value (object part) vs) seen k h =
      let key = text_content_key decimal id output (pos i) in
      elim (Bool-cases (skips part key seen)) [
        | inl e ↦ rw (missing_text, e) (missing_text-keeps (suc i) vs seen k h)
        | inr e ↦
            rw (missing_text, e) (missing_text-keeps (suc i) vs (key ∷ seen) k (ground (arith, h)))
      ]
  missing_text-keeps i (value null vs) seen k h = missing_text-keeps (suc i) vs seen k h
  missing_text-keeps i (value (boolean b) vs) seen k h = missing_text-keeps (suc i) vs seen k h
  missing_text-keeps i (value (number n) vs) seen k h = missing_text-keeps (suc i) vs seen k h
  missing_text-keeps i (value (string s) vs) seen k h = missing_text-keeps (suc i) vs seen k h
  missing_text-keeps i (value (array a) vs) seen k h = missing_text-keeps (suc i) vs seen k h

  -- Nothing is missing where all the keys have been seen.
  missing_text-seen :
      (i : ℕ) (vs : Values) (seen later : List Bytes)
      → ((k : Bytes)
          → is_one_of k (missing_text decimal id output i vs seen).0 ≡ true
          → is_one_of k later ≡ true)
      → missing_text decimal id output i vs later ≡ (later, [])
  unfolding missing_text is_one_of skips
  missing_text-seen i no_values seen later h = refl
  missing_text-seen i (value (object part) vs) seen later h =
      let key = text_content_key decimal id output (pos i) in
      elim (Bool-cases (skips part key seen)) [
        | inl e ↦
            let kept = missing_text-keeps i (value (object part) vs) seen key in
            let left = skips_more part key seen later (λ m. h key (kept m)) e in
            let same : missing_text decimal id output i (value (object part) vs) seen
                ≡ missing_text decimal id output (suc i) vs seen =
              rw (missing_text, e) in
            rw (missing_text, left)
              (missing_text-seen (suc i) vs seen later
                (λ k m. h k (ap (λ r. is_one_of k r.0) same ∙ m)))
        | inr e ↦
            let same : (missing_text decimal id output i (value (object part) vs) seen).0
                ≡ (missing_text decimal id output (suc i) vs (key ∷ seen)).0 =
              rw (missing_text, e) in
            let marked : is_one_of key (key ∷ seen) ≡ true = ground (arith, eq_bytes_refl key) in
            let kept = missing_text-keeps (suc i) vs (key ∷ seen) key marked in
            let left = skips_seen part key later (h key (ap (λ r. is_one_of key r) same ∙ kept)) in
            rw (missing_text, left)
              (missing_text-seen (suc i) vs (key ∷ seen) later
                (λ k m. h k (ap (λ r. is_one_of k r) same ∙ m)))
      ]
  missing_text-seen i (value null vs) seen later h = missing_text-seen (suc i) vs seen later h
  missing_text-seen i (value (boolean b) vs) seen later h =
      missing_text-seen (suc i) vs seen later h
  missing_text-seen i (value (number n) vs) seen later h = missing_text-seen (suc i) vs seen later h
  missing_text-seen i (value (string s) vs) seen later h = missing_text-seen (suc i) vs seen later h
  missing_text-seen i (value (array a) vs) seen later h = missing_text-seen (suc i) vs seen later h

missing_message_text-once :
    (decimal : ℤ → Bytes) (payload : Map) (seen : List Bytes)
    → let seen' = (missing_message_text decimal payload seen).0 in
      missing_message_text decimal payload seen' ≡ (seen', [])
unfolding missing_message_text
missing_message_text-once decimal payload seen =
    let item = as_map (get payload (codes "item")) in
    let is_answer =
      is_string (get item (codes "type")) (codes "message")
      && is_string (get item (codes "role")) (codes "assistant") in
    let id = string_field item (codes "id") in
    let output = int_field payload (codes "output_index") in
    let content = as_values (get item (codes "content")) in
    elim (Bool-cases is_answer) [
      | inl e ↦ rw (e) (
          missing_text-seen decimal id output 0 content seen
            (missing_text decimal id output 0 content seen).0 (λ k m. m))
      | inr e ↦ rw (e)
    ]

item_done-seen :
    (decimal : ℤ → Bytes) (payload : Map) (seen : List Bytes)
    → same_type (output_item_part payload).type PartType.unset ≡ true
    → (kind_answer decimal item_done payload seen).0 ≡ (missing_message_text decimal payload seen).0
item_done-seen decimal payload seen message = ground (arith, message)

pub item_done-once :
    (decimal : ℤ → Bytes) (payload : Map) (seen : List Bytes)
    → same_type (output_item_part payload).type PartType.unset ≡ true
    → missing_message_text decimal payload seen ≡ (seen, [])
    → kind_answer decimal item_done payload seen ≡ (seen, ok none)
item_done-once decimal payload seen message e = rw (message, e)

-- An item of an answer shows its texts once: whatever was seen before, after one
-- `response.output_item.done` whose item is no reasoning the same payload is answered by no event
-- and changes nothing.
item_done_once :
    (decimal : ℤ → Bytes) (payload : Map) (seen : List Bytes)
    → payload_kind payload ≡ item_done
    → same_type (output_item_part payload).type PartType.unset ≡ true
    → let seen' = (payload_answer decimal payload seen).0 in
      payload_answer decimal payload seen' ≡ (seen', ok none)
unfolding payload_answer
item_done_once decimal payload seen kind message =
    let seen' = (payload_answer decimal payload seen).0 in
    let same : seen' ≡ (missing_message_text decimal payload seen).0 =
      ap (λ k. (kind_answer decimal k payload seen).0) kind
      ∙ item_done-seen decimal payload seen message in
    ap (λ k. kind_answer decimal k payload seen') kind
    ∙ item_done-once decimal payload seen' message (
        subst (λ t. missing_message_text decimal payload t ≡ (t, [])) (sym same)
          (missing_message_text-once decimal payload seen))
