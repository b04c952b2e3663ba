-- ===== src/Tests/OpenResponses.antt =====
-- Runs of internal/llm/openresponses on small inputs, and the theorems about it at those.
use pyttechat.Base.{
  ◌+◌, Bool, true, false, List, [], ◌∷◌, ◌++◌, map, none, ℤ, pos, negsuc, Bytes, ◌≡◌, refl, arith,
  All, leb, ◌&&◌, if◌then◌else◌, inl,
}
use pyttechat.Errors.{eof, Result, ok, err}
use pyttechat.Text.{eq_bytes}
use pyttechat.Text.Laws.{codes}
use pyttechat.Llm.{Request, Part, PartType, zero_part, EventType, same_type}
use pyttechat.OpenResponses.Json.{
  number, string, array, object, no_values, value, Map, no_keys, key, get, string_field, int_field,
}
use pyttechat.OpenResponses.Payload.{output_item_part, completed_event, is_one_of}
use pyttechat.OpenResponses.Input.{reasoning_input}
use pyttechat.OpenResponses.Stream.{ResponseStream}
use pyttechat.OpenResponses.Mapping.{
  payload_kind, payload_answer, text_content_key, content_key, missing_text, missing_message_text,
  skips, delta_event,
}
use pyttechat.OpenResponses.Frames.{IsPlain}
use pyttechat.OpenResponses.Provider.{StreamEvent, write_events}
use pyttechat.OpenResponses.Client.{
  Network, Client, new_client_with_options, responses_url, http_request, stream, reads-stream,
}
use pyttechat.OpenResponses.RoundTrip.{Carries, answers, reads}
use mathlib.Core.List.{Memᴰ}
use pyttechat.OpenResponses.Shown.{seen_after, shown_text_once}
use pyttechat.OpenResponses.History.{output_item_part-reasoning_input}

-- `%d` of a small number that is not negative.
decimal : ℤ → Bytes
decimal (pos n) = (48 + n) ∷ []
decimal (negsuc n) = b'-' ∷ (49 + n) ∷ []

abbrev place : Map
place = key (codes "item_id") (string (codes "msg_1")) (
    key (codes "output_index") (number (pos 1))
      (key (codes "content_index") (number (pos 0)) no_keys))

abbrev delta : Map
delta =
    key (codes "type") (string (codes "response.output_text.delta"))
      (key (codes "delta") (string (codes "Hi")) place)

abbrev text_done : Map
text_done =
    key (codes "type") (string (codes "response.output_text.done"))
      (key (codes "text") (string (codes "Hi")) place)

abbrev message : Map
message = key (codes "type") (string (codes "message")) (
    key (codes "role") (string (codes "assistant")) (
      key (codes "id") (string (codes "msg_1")) (
        key (codes "content")
          (array (
            value
              (object (
                key (codes "type") (string (codes "output_text"))
                  (key (codes "text") (string (codes "Hi")) no_keys)))
              no_values))
          no_keys)))

abbrev item : Map
item =
    key (codes "type") (string (codes "response.output_item.done"))
      (key (codes "output_index") (number (pos 1)) (key (codes "item") (object message) no_keys))

abbrev completed : Map
completed =
    key (codes "type") (string (codes "response.completed"))
      (key (codes "response") (object (key (codes "id") (string (codes "resp_1")) no_keys)) no_keys)

-- The texts of the four payloads.
abbrev marshal : Map → Bytes
marshal m = codes "{" ++ (string_field m (codes "type") ++ codes "}")

abbrev unmarshal : Bytes → Result Map
unmarshal raw =
    if eq_bytes raw (marshal delta)
    then ok delta
    else if eq_bytes raw (marshal text_done)
    then ok text_done
    else if eq_bytes raw (marshal item)
    then ok item
    else if eq_bytes raw (marshal completed)
    then ok completed
    else err eof

abbrev event : Map → StreamEvent
event m = record { type = string_field m (codes "type"); payload = m }

abbrev events : List StreamEvent
events = event delta ∷ event text_done ∷ event item ∷ event completed ∷ []

-- A text that comes three times is shown once.
shown_once :
    answers decimal (map (λ e. e.payload) events) []
    ≡ ok (delta_event EventType.text_delta (codes "Hi"))
      ∷ ok (completed_event completed)
      ∷ err eof
      ∷ []
unfolding answers payload_answer payload_kind decimal skips missing_text missing_message_text
    output_item_part text_content_key content_key string_field int_field get is_one_of eq_bytes
    same_type
shown_once = refl

all_plain : Bytes → Bool
all_plain [] = true
all_plain (c ∷ s) = leb 32 c && all_plain s

all_plain_lem : (s : Bytes) → all_plain s ≡ true → All IsPlain s
unfolding all_plain
all_plain_lem [] h = tt
all_plain_lem (c ∷ s) h = (ground (arith, h), all_plain_lem s (ground (arith, h)))

carried :
    (m : Map)
    → all_plain (string_field m (codes "type")) ≡ true
    → all_plain (marshal m) ≡ true
    → eq_bytes (marshal m) (codes "[DONE]") ≡ false
    → unmarshal (marshal m) ≡ ok m
    → Carries marshal unmarshal (event m)
carried m named plain not_done read_back = record {
  named = all_plain_lem (string_field m (codes "type")) named;
  plain = all_plain_lem (marshal m) plain;
  not_done = not_done;
  read_back = read_back;
}

carries : All (Carries marshal unmarshal) events
unfolding all_plain string_field get eq_bytes
carries = (
  carried delta refl refl refl refl,
  (
    carried text_done refl refl refl refl,
    (carried item refl refl refl refl, (carried completed refl refl refl refl, tt)),
  ),
)

-- A network on which every request is answered by the four events.
abbrev network : Network
network = record {
  marshal = λ m. ok (codes "{}");
  parse_url = λ u. none;
  with_path = λ u path. u ++ path;
  refuses_url = λ u. none;
  send = λ r. ok (record { status = 200; body = write_events marshal events; ends = eof });
  status_text = λ status text. text;
}

abbrev client : Client
client = new_client_with_options (codes "http://localhost:8081//") (pos 0) (codes " token ")

abbrev question : Request
question = record {
  model = codes "m";
  instructions = [];
  messages = [];
  reasoning = record { summary = []; effort = [] };
}

client_made : http_request network client (codes "{}") ≡ record {
  url = codes "http://localhost:8081/v1/responses";
  accept = codes "text/event-stream";
  content_type = codes "application/json";
  authorization = codes "Bearer token";
  body = codes "{}";
}
unfolding new_client_with_options responses_url
client_made = refl

reads-stream_example :
    (s : ResponseStream) × (stream network client question ≡ ok s)
    × (reads decimal unmarshal 5 s ≡ answers decimal (map (λ e. e.payload) events) [])
reads-stream_example =
    reads-stream network decimal marshal unmarshal client question (codes "{}") 200 events 5 refl
      refl refl (omega arith) (omega arith) carries (omega arith)

abbrev thought : Part
thought = record zero_part {
  type = PartType.reasoning;
  id = codes "rs_1";
  text = codes "aside";
  summary = codes "First." ∷ codes "Then." ∷ [];
  encrypted_content = codes "x9";
}

output_item_part-reasoning_input_example :
    output_item_part (key (codes "item") (object (reasoning_input thought)) no_keys)
    ≡ record thought { text = [] }
output_item_part-reasoning_input_example =
    output_item_part-reasoning_input thought (refl, (refl, tt))

shown_text_once_example :
    payload_answer decimal item (seen_after decimal (completed ∷ delta ∷ []) [])
    ≡ (seen_after decimal (completed ∷ delta ∷ []) [], ok none)
unfolding payload_kind string_field int_field get eq_bytes is_one_of output_item_part same_type
    content_key text_content_key
shown_text_once_example =
    shown_text_once decimal (completed ∷ delta ∷ []) item [] refl refl
      (λ h. (delta, Memᴰ.tail (Memᴰ.head refl), inl refl, refl), tt)
