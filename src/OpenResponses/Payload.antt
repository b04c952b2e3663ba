-- ===== src/OpenResponses/Payload.antt =====
-- internal/llm/openresponses/client.go: what the payload of one server-sent event says.
use pyttechat.Base.{
  Bool, false, ◌||◌, not, Option, none, some, List, [], ◌∷◌, ◌++◌, ℤ, pos, Bytes, if◌then◌else◌,
}
use pyttechat.Errors.{Error, stream_failed}
use pyttechat.Text.{eq_bytes, is_empty}
use pyttechat.Text.Laws.{codes}
use pyttechat.Llm.{Part, PartType, zero_part, Usage, Event, EventType, zero_event}
use pyttechat.OpenResponses.Json.{
  object, Values, no_values, value, Map, get, as_map, to_map, as_values, is_string, string_field,
  int_field,
}

-- reasoningSummaryText
unfoldable pub summary_texts : Values → List Bytes
unfolding string_field
summary_texts no_values = []
summary_texts (value (object part) rest) =
    let later = summary_texts rest in
    let text = string_field part (codes "text") in if is_empty text then later else text ∷ later
summary_texts (value _ rest) = summary_texts rest

abbrev pub reasoning_summary_text : Map → List Bytes
reasoning_summary_text item = summary_texts (as_values (get item (codes "summary")))

-- textFromContentArray
unfoldable pub content_text : Values → Bytes
unfolding string_field
content_text no_values = []
content_text (value (object part) rest) = string_field part (codes "text") ++ content_text rest
content_text (value _ rest) = content_text rest

-- reasoningText
abbrev pub reasoning_text : Map → Bytes
reasoning_text item = content_text (as_values (get item (codes "content")))

-- outputItemPart
unfoldable pub output_item_part : Map → Part
unfolding get string_field summary_texts content_text
output_item_part payload =
    let item = as_map (get payload (codes "item")) in
    if not (is_string (get item (codes "type")) (codes "reasoning"))
    then zero_part
    else record zero_part {
      type = PartType.reasoning;
      id = string_field item (codes "id");
      text = reasoning_text item;
      summary = reasoning_summary_text item;
      encrypted_content = string_field item (codes "encrypted_content");
    }

abbrev reasoning_tokens : Option Map → ℤ
reasoning_tokens none = pos 0
reasoning_tokens (some details) = int_field details (codes "reasoning_tokens")

abbrev usage_of : Option Map → Option Usage
usage_of none = none
usage_of (some raw) = some (record {
  input_tokens = int_field raw (codes "input_tokens");
  output_tokens = int_field raw (codes "output_tokens");
  total_tokens = int_field raw (codes "total_tokens");
  reasoning_tokens = reasoning_tokens (to_map (get raw (codes "output_tokens_details")));
})

-- usage
abbrev pub usage : Map → Option Usage
usage response = usage_of (to_map (get response (codes "usage")))

-- completedEvent
unfoldable pub completed_event : Map → Event
unfolding get string_field int_field
completed_event payload =
    let response = as_map (get payload (codes "response")) in
    record zero_event {
      type = EventType.completed;
      response_id = string_field response (codes "id");
      usage = usage response;
    }

-- One `if` of streamError: the message of an error value, if it has one.
abbrev error_message : Option Map → Bytes → Bytes
error_message none before = before
error_message (some error_value) before =
    let text = string_field error_value (codes "message") in if is_empty text then before else text

-- streamError
unfoldable pub stream_error : Map → Error
unfolding get string_field
stream_error payload =
    let message = error_message (to_map (get payload (codes "error"))) (codes "stream failed") in
    let response = as_map (get payload (codes "response")) in
    stream_failed (error_message (to_map (get response (codes "error"))) message)

-- sanitizeOpenResponsesEventType
abbrev pub event_types : List Bytes
event_types =
    codes "response.created"
    ∷ codes "response.in_progress"
    ∷ codes "response.output_item.added"
    ∷ codes "response.output_item.done"
    ∷ codes "response.content_part.added"
    ∷ codes "response.content_part.done"
    ∷ codes "response.output_text.delta"
    ∷ codes "response.output_text.done"
    ∷ codes "response.reasoning.delta"
    ∷ codes "response.reasoning_summary_text.delta"
    ∷ codes "response.reasoning_text.delta"
    ∷ codes "response.completed"
    ∷ codes "response.failed"
    ∷ codes "error"
    ∷ []

unfoldable pub is_one_of : Bytes → List Bytes → Bool
unfolding eq_bytes
is_one_of s [] = false
is_one_of s (t ∷ ts) = eq_bytes s t || is_one_of s ts

unfoldable pub sanitize_event_type : Bytes → Bytes
unfolding is_one_of
sanitize_event_type event_type =
    if is_one_of event_type event_types then event_type else codes "unknown"
