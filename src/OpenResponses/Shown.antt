-- ===== src/OpenResponses/Shown.antt =====
-- internal/llm/openresponses/client.go: textSeen, markTextSeen and missingMessageText keep a text that
-- was shown from being shown again when its item is done.
use pyttechat.Base.{
  ℕ, suc, true, false, List, [], ◌∷◌, none, ℤ, pos, Bytes, ◌≡◌, ◌⊎◌, refl, arith, Bool-cases, inl,
  inr,
}
use mathlib.Core.List.{Memᴰ}
use pyttechat.Errors.{ok}
use pyttechat.Text.{is_empty}
use pyttechat.Text.Laws.{codes, eq_bytes_refl}
use pyttechat.Llm.{PartType, same_type}
use pyttechat.OpenResponses.Json.{
  null, boolean, number, string, array, object, Values, no_values, value, Map, get, string_field,
  int_field, as_map, as_values,
}
use pyttechat.OpenResponses.Payload.{output_item_part, is_one_of}
use pyttechat.OpenResponses.Mapping.{
  Kind, text_delta, text_done, reasoning_delta, item_done, response_completed, failed, ignored,
  skips, payload_kind, payload_answer, kind_answer, content_key, missing_message_text,
  text_content_key, missing_text,
}
use pyttechat.OpenResponses.History.{skips_seen, skips_more, missing_text-keeps, item_done-once}

-- A payload that shows a text, or whose text has been shown.
abbrev pub CarriesText : Map → Type 0
CarriesText d =
    (payload_kind d ≡ text_delta)
    ⊎ ((payload_kind d ≡ text_done) × (is_empty (string_field d (codes "text")) ≡ false))

module _ (decimal : ℤ → Bytes) where
  -- The keys of the texts that were seen behind some payloads.
  unfoldable pub seen_after : List Map → List Bytes → List Bytes
  unfolding payload_answer
  seen_after [] seen = seen
  seen_after (d ∷ ds) seen = seen_after ds (payload_answer decimal d seen).0

  -- One of the payloads carried the text with this key.
  abbrev pub Carried : List Map → Bytes → Type 0
  Carried payloads k = (d : Map) × Memᴰ d payloads × CarriesText d × (content_key decimal d ≡ k)

  -- Each text of a content, from index `i` on, was carried by one of the payloads.
  abbrev pub AllCarried : List Map → Bytes → ℤ → ℕ → Values → Type 0
  AllCarried payloads id output i no_values = Unit {0}
  AllCarried payloads id output i (value (object part) vs) =
      (skips part (text_content_key decimal id output (pos i)) [] ≡ false
        → Carried payloads (text_content_key decimal id output (pos i)))
      × AllCarried payloads id output (suc i) vs
  AllCarried payloads id output i (value _ vs) = AllCarried payloads id output (suc i) vs

  -- Each text of the message that a payload carries was carried by one of the payloads before.
  abbrev pub MessageCarried : List Map → Map → Type 0
  MessageCarried payloads payload =
      let item = as_map (get payload (codes "item")) in
      AllCarried payloads (string_field item (codes "id"))
        (int_field payload (codes "output_index")) 0 (as_values (get item (codes "content")))

  missing_message_text-keeps :
      (payload : Map) (seen : List Bytes) (k : Bytes)
      → is_one_of k seen ≡ true
      → is_one_of k (missing_message_text decimal payload seen).0 ≡ true
  unfolding missing_message_text
  missing_message_text-keeps payload seen k h =
      let item = as_map (get payload (codes "item")) in
      ground (
        arith,
        h,
        missing_text-keeps decimal (string_field item (codes "id"))
            (int_field payload (codes "output_index")) 0 (as_values (get item (codes "content")))
            seen k h,
      )

  -- Keys stay.
  kind_answer-keeps :
      (y : Kind) (payload : Map) (seen : List Bytes) (k : Bytes)
      → is_one_of k seen ≡ true
      → is_one_of k (kind_answer decimal y payload seen).0 ≡ true
  unfolding is_one_of
  kind_answer-keeps text_delta payload seen k h = ground (arith, h)
  kind_answer-keeps text_done payload seen k h = ground (arith, h)
  kind_answer-keeps reasoning_delta payload seen k h = h
  kind_answer-keeps item_done payload seen k h =
      ground (arith, h, missing_message_text-keeps payload seen k h)
  kind_answer-keeps response_completed payload seen k h = h
  kind_answer-keeps failed payload seen k h = h
  kind_answer-keeps ignored payload seen k h = h

  -- A payload that carries a text marks it.
  payload_answer-marks :
      (d : Map) (seen : List Bytes)
      → CarriesText d
      → is_one_of (content_key decimal d) (payload_answer decimal d seen).0 ≡ true
  unfolding payload_answer is_one_of
  payload_answer-marks d seen (inl kind) =
      rw kind (ground (arith, eq_bytes_refl (content_key decimal d)))
  payload_answer-marks d seen (inr (kind, full)) =
      rw kind (ground (arith, full, eq_bytes_refl (content_key decimal d)))

  seen_after-keeps :
      (ds : List Map) (seen : List Bytes) (k : Bytes)
      → is_one_of k seen ≡ true
      → is_one_of k (seen_after ds seen) ≡ true
  unfolding seen_after payload_answer
  seen_after-keeps [] seen k h = h
  seen_after-keeps (d ∷ ds) seen k h =
      seen_after-keeps ds _ k (kind_answer-keeps (payload_kind d) d seen k h)

  seen_after-marks :
      (ds : List Map) (d : Map) (seen : List Bytes)
      → Memᴰ d ds
      → CarriesText d
      → is_one_of (content_key decimal d) (seen_after ds seen) ≡ true
  unfolding seen_after
  seen_after-marks [] d seen m t = elim m [ ]
  seen_after-marks (d' ∷ ds) d seen (Memᴰ.head e) t =
      rw e
        (seen_after-keeps ds _ (content_key decimal d') (payload_answer-marks d' seen (rw e at t)))
  seen_after-marks (d' ∷ ds) d seen (Memᴰ.tail m) t = seen_after-marks ds d _ m t

  -- Nothing is missing where each text was carried and its key seen.
  missing_text-none_left :
      (ds : List Map) (id : Bytes) (output : ℤ) (i : ℕ) (vs : Values) (later : List Bytes)
      → ((k : Bytes) → Carried ds k → is_one_of k later ≡ true)
      → AllCarried ds id output i vs
      → missing_text decimal id output i vs later ≡ (later, [])
  unfolding missing_text skips is_one_of
  missing_text-none_left ds id output i no_values later marked h = refl
  missing_text-none_left ds id output i (value (object part) vs) later marked h =
      let key = text_content_key decimal id output (pos i) in
      let rest = missing_text-none_left ds id output (suc i) vs later marked h.1 in
      elim (Bool-cases (skips part key [])) [
        | inl e ↦
            let left = skips_more part key [] later (λ m. absurd (ground (arith, m))) e in
            rw (missing_text, left) rest
        | inr e ↦
            let left = skips_seen part key later (marked key (h.0 e)) in
            rw (missing_text, left) rest
      ]
  missing_text-none_left ds id output i (value null vs) later marked h =
      missing_text-none_left ds id output (suc i) vs later marked h
  missing_text-none_left ds id output i (value (boolean b) vs) later marked h =
      missing_text-none_left ds id output (suc i) vs later marked h
  missing_text-none_left ds id output i (value (number n) vs) later marked h =
      missing_text-none_left ds id output (suc i) vs later marked h
  missing_text-none_left ds id output i (value (string s) vs) later marked h =
      missing_text-none_left ds id output (suc i) vs later marked h
  missing_text-none_left ds id output i (value (array a) vs) later marked h =
      missing_text-none_left ds id output (suc i) vs later marked h

  Carried-seen :
      (ds : List Map) (seen : List Bytes) (k : Bytes)
      → Carried ds k
      → is_one_of k (seen_after ds seen) ≡ true
  Carried-seen ds seen k (d, member, carries, same) =
      rw same at (seen_after-marks ds d seen member carries)

  missing_message_text-none_left :
      (ds : List Map) (payload : Map) (seen : List Bytes)
      → MessageCarried ds payload
      → let seen' = seen_after ds seen in missing_message_text decimal payload seen' ≡ (seen', [])
  unfolding missing_message_text
  missing_message_text-none_left ds payload seen h =
      let item = as_map (get payload (codes "item")) in
      ground (
        arith,
        missing_text-none_left ds (string_field item (codes "id"))
            (int_field payload (codes "output_index")) 0 (as_values (get item (codes "content")))
            (seen_after ds seen) (Carried-seen ds seen) h,
      )

  -- A text is shown once: whatever payloads came before, in whichever order, if among them each text
  -- of a message had its `response.output_text.delta`, or its `response.output_text.done` with a
  -- text, at the same item and index, then the message's own `response.output_item.done` is answered
  -- by no event and changes nothing.
  pub shown_text_once :
      (ds : List Map) (payload : Map) (seen : List Bytes)
      → payload_kind payload ≡ item_done
      → same_type (output_item_part payload).type PartType.unset ≡ true
      → MessageCarried ds payload
      → let seen' = seen_after ds seen in payload_answer decimal payload seen' ≡ (seen', ok none)
  unfolding payload_answer
  shown_text_once ds payload seen kind message carried = rw kind (
      item_done-once decimal payload (seen_after ds seen) message
        (missing_message_text-none_left ds payload seen carried))
