-- ===== src/OpenResponses/Mapping.antt =====
-- internal/llm/openresponses/client.go: what mapPayload answers to the payload of an event, and which
-- texts it has shown.
use pyttechat.Base.{
  ℕ, suc, Bool, true, false, ◌&&◌, ◌||◌, not, Option, none, some, List, [], ◌∷◌, ◌++◌, ℤ, pos,
  Bytes, if◌then◌else◌,
}
use pyttechat.Errors.{Result, ok, err}
use pyttechat.Text.{eq_bytes, is_empty}
use pyttechat.Text.Laws.{codes}
use pyttechat.Llm.{Part, PartType, same_type, Event, EventType, zero_event}
use pyttechat.OpenResponses.Json.{
  object, Values, no_values, value, Map, get, as_map, as_values, is_string, string_field, int_field,
}
use pyttechat.OpenResponses.Payload.{output_item_part, completed_event, stream_error, is_one_of}

-- The types of events that mapPayload tells apart.
pub data Kind : Type 0 where
  text_delta text_done reasoning_delta item_done response_completed failed ignored : Kind

abbrev pub kind_of : Bytes → Kind
kind_of t =
    if eq_bytes t (codes "response.output_text.delta")
    then text_delta
    else if eq_bytes t (codes "response.output_text.done")
    then text_done
    else if is_one_of t (
        codes "response.reasoning.delta"
        ∷ codes "response.reasoning_summary_text.delta"
        ∷ codes "response.reasoning_text.delta"
        ∷ [])
    then reasoning_delta
    else if eq_bytes t (codes "response.output_item.done")
    then item_done
    else if eq_bytes t (codes "response.completed")
    then response_completed
    else if is_one_of t (codes "response.failed" ∷ codes "error" ∷ [])
    then failed
    else ignored

-- eventType of mapPayload, as one of its cases
unfoldable pub payload_kind : Map → Kind
unfolding string_field is_one_of eq_bytes
payload_kind payload = kind_of (string_field payload (codes "type"))

-- The case that sets s.done.
abbrev pub ends_stream : Kind → Bool
ends_stream response_completed = true
ends_stream _ = false

-- Event{Type: t, Delta: delta}
abbrev pub delta_event : EventType → Bytes → Event
delta_event t delta = record zero_event { type = t; delta = delta }

-- Event{Type: EventOutputItemDone, Part: part}
abbrev pub part_event : Part → Event
part_event part = record zero_event { type = EventType.output_item_done; part = part }

-- What dispatch and mapPayload return: an event, none, or an error.
abbrev pub Answer : Type 0
Answer = Result (Option Event)

-- The three tests by which missingMessageText leaves out an element of the content.
unfoldable pub skips : Map → Bytes → List Bytes → Bool
unfolding string_field get is_one_of eq_bytes
skips part key seen =
    let part_type = get part (codes "type") in
    not (is_string part_type (codes "output_text") || is_string part_type (codes "text"))
    || is_empty (string_field part (codes "text"))
    || is_one_of key seen

module _ (decimal : ℤ → Bytes) where
  -- textContentKey
  unfoldable pub text_content_key : Bytes → ℤ → ℤ → Bytes
  text_content_key item_id output_index content_index =
      item_id ++ (codes "/" ++ (decimal output_index ++ (codes "/" ++ decimal content_index)))

  -- contentKey
  unfoldable pub content_key : Map → Bytes
  unfolding text_content_key string_field int_field
  content_key payload =
      text_content_key (string_field payload (codes "item_id"))
        (int_field payload (codes "output_index")) (int_field payload (codes "content_index"))

  -- The loop of missingMessageText from the element with index `i`: the keys of the texts that were
  -- seen, those of the loop in front, and the text that was not.
  unfoldable pub missing_text : Bytes → ℤ → ℕ → Values → List Bytes → List Bytes × Bytes
  unfolding text_content_key string_field skips
  missing_text id output i no_values seen = (seen, [])
  missing_text id output i (value (object part) vs) seen =
      let key = text_content_key id output (pos i) in
      elim (skips part key seen) [
        | true ↦ missing_text id output (suc i) vs seen
        | false ↦
            let (seen', text) = missing_text id output (suc i) vs (key ∷ seen) in
            (seen', string_field part (codes "text") ++ text)
      ]
  missing_text id output i (value _ vs) seen = missing_text id output (suc i) vs seen

  -- missingMessageText
  unfoldable pub missing_message_text : Map → List Bytes → List Bytes × Bytes
  unfolding missing_text get string_field int_field
  missing_message_text payload seen =
      let item = as_map (get payload (codes "item")) in
      let is_answer =
        is_string (get item (codes "type")) (codes "message")
        && is_string (get item (codes "role")) (codes "assistant") in
      if not is_answer
      then (seen, [])
      else missing_text (string_field item (codes "id")) (int_field payload (codes "output_index"))
          0 (as_values (get item (codes "content"))) seen

  -- The cases of mapPayload. `seen` are the keys of the texts that were shown, to which markTextSeen
  -- adds one.
  abbrev text_done_event : Map → List Bytes → List Bytes × Answer
  text_done_event payload seen =
      let key = content_key payload in
      let text = string_field payload (codes "text") in
      if is_one_of key seen || is_empty text
      then (seen, ok none)
      else (key ∷ seen, ok (some (delta_event EventType.text_delta text)))

  abbrev item_done_event : Map → List Bytes → List Bytes × Answer
  item_done_event payload seen =
      let part = output_item_part payload in
      let (seen', text) = missing_message_text payload seen in
      if not (same_type part.type PartType.unset)
      then (seen, ok (some (part_event part)))
      else if is_empty text
      then (seen', ok none)
      else (seen', ok (some (delta_event EventType.text_delta text)))

  abbrev pub kind_answer : Kind → Map → List Bytes → List Bytes × Answer
  kind_answer text_delta payload seen = (
    content_key payload ∷ seen,
    ok (some (delta_event EventType.text_delta (string_field payload (codes "delta")))),
  )
  kind_answer text_done payload seen = text_done_event payload seen
  kind_answer reasoning_delta payload seen = (
    seen,
    ok (some (delta_event EventType.reasoning_delta (string_field payload (codes "delta")))),
  )
  kind_answer item_done payload seen = item_done_event payload seen
  kind_answer response_completed payload seen = (seen, ok (some (completed_event payload)))
  kind_answer failed payload seen = (seen, err (stream_error payload))
  kind_answer ignored payload seen = (seen, ok none)

  -- The switch of mapPayload.
  unfoldable pub payload_answer : Map → List Bytes → List Bytes × Answer
  unfolding payload_kind content_key missing_message_text output_item_part completed_event
      stream_error string_field is_one_of same_type
  payload_answer payload seen = kind_answer (payload_kind payload) payload seen
