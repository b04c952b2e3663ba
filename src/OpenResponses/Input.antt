-- ===== src/OpenResponses/Input.antt =====
-- internal/llm/openresponses/client.go: the body of the request.
use pyttechat.Base.{true, false, List, [], ◌∷◌, ◌++◌, Bytes, if◌then◌else◌}
use pyttechat.Text.{is_empty, trim_space}
use pyttechat.Text.Laws.{codes}
use pyttechat.Llm.{
  Role, user, assistant, system, other_role, is_assistant, Part, PartType, Message, message_text,
  Request, ReasoningOptions,
}
use pyttechat.OpenResponses.Json.{
  boolean, string, array, object, Values, no_values, value, Map, no_keys, key,
}

-- m[name] = text, if text is not empty; the rest of the map is `m`
abbrev pub set_text : Bytes → Bytes → Map → Map
set_text name [] m = m
set_text name (c ∷ cs) m = key name (string (c ∷ cs)) m

-- string(role)
abbrev pub role_string : Role → Bytes
role_string system = codes "system"
role_string user = codes "user"
role_string assistant = codes "assistant"
role_string (other_role r) = r

-- messageInput
unfoldable pub message_input : Role → Bytes → Map
message_input role text =
    key (codes "type") (string (codes "message"))
      (key (codes "role") (string (role_string role)) (key (codes "content") (string text) no_keys))

-- reasoningSummary
unfoldable pub reasoning_summary : List Bytes → Values
reasoning_summary [] = no_values
reasoning_summary (text ∷ rest) =
    value
      (object (
        key (codes "type") (string (codes "summary_text"))
          (key (codes "text") (string text) no_keys)))
      (reasoning_summary rest)

-- reasoningInput
unfoldable pub reasoning_input : Part → Map
unfolding reasoning_summary
reasoning_input part = key (codes "type") (string (codes "reasoning")) (
    key (codes "summary") (array (reasoning_summary part.summary)) (
      set_text (codes "id") part.id
        (set_text (codes "encrypted_content") part.encrypted_content no_keys)))

-- The items of one part of an answer.
abbrev pub part_input : Role → Part → List Map
part_input role part = elim part.type [
  | PartType.reasoning ↦ reasoning_input part ∷ []
  | PartType.text ↦ if is_empty part.text then [] else message_input role part.text ∷ []
  | _ ↦ []
]

-- The loop over the parts of an answer.
unfoldable pub parts_input : Role → List Part → List Map
unfolding reasoning_input message_input
parts_input role [] = []
parts_input role (part ∷ rest) = part_input role part ++ parts_input role rest

-- openResponsesInput
unfoldable pub open_responses_input : List Message → List Map
unfolding parts_input
open_responses_input [] = []
open_responses_input (message ∷ rest) =
    let later = open_responses_input rest in
    let text = message_text message in
    if is_assistant message.role
    then parts_input message.role message.parts ++ later
    else if is_empty text
    then later
    else message_input message.role text ∷ later

abbrev objects : List Map → Values
objects [] = no_values
objects (m ∷ ms) = value (object m) (objects ms)

abbrev reasoning_options : ReasoningOptions → Map
reasoning_options options =
    set_text (codes "summary") options.summary (set_text (codes "effort") options.effort no_keys)

abbrev set_map : Bytes → Map → Map → Map
set_map name no_keys m = m
set_map name (key k v rest) m = key name (object (key k v rest)) m

-- createRequestBody
unfoldable pub create_request_body : Request → Map
unfolding open_responses_input
create_request_body request = key (codes "stream") (boolean true) (
    key (codes "store") (boolean false) (
      key (codes "include") (array (value (string (codes "reasoning.encrypted_content")) no_values))
        (key (codes "input") (array (objects (open_responses_input request.messages))) (
          set_text (codes "model") request.model (
            set_text (codes "instructions") (trim_space request.instructions)
              (set_map (codes "reasoning") (reasoning_options request.reasoning) no_keys))))))
