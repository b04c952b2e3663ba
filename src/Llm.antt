-- ===== src/Llm.antt =====
-- internal/llm/llm.go: messages, their parts, the events of a response stream.
-- A slice is a list: nil and the empty slice are one value. A time is a number of
-- nanoseconds since Go's zero time, so the zero time is 0.
pub mod Laws
use pyttechat.Base.{
  ℕ, Bool, true, false, List, [], ◌∷◌, ◌++◌, map, Option, none, ℤ, pos, Bytes, if◌then◌else◌,
}
use pyttechat.Errors.{Error}
use pyttechat.Text.{eq_bytes}

pub data Role : Type 0 where
  system user assistant : Role
  other_role : Bytes → Role

-- r == RoleUser
unfoldable pub is_user : Role → Bool
is_user user = true
is_user _ = false

-- r == RoleAssistant
unfoldable pub is_assistant : Role → Bool
is_assistant assistant = true
is_assistant _ = false

-- `unset` is the empty string.
pub data PartType : Type 0 where
  unset text reasoning summary error image attachment : PartType
  other_type : Bytes → PartType

-- a == b on part types
unfoldable pub same_type : PartType → PartType → Bool
same_type unset unset = true
same_type text text = true
same_type reasoning reasoning = true
same_type summary summary = true
same_type error error = true
same_type image image = true
same_type attachment attachment = true
same_type (other_type a) (other_type b) = eq_bytes a b
same_type _ _ = false

pub record Part : Type 0 where
  pub type : PartType
  pub text : Bytes
  pub id : Bytes
  pub summary : List Bytes
  pub encrypted_content : Bytes
  pub url : Bytes
  pub filename : Bytes
  pub mime_type : Bytes
  pub alt : Bytes
  pub width : ℤ
  pub height : ℤ
  pub size : ℤ

-- Part{}
abbrev pub zero_part : Part
zero_part = record {
  type = unset;
  text = [];
  id = [];
  summary = [];
  encrypted_content = [];
  url = [];
  filename = [];
  mime_type = [];
  alt = [];
  width = pos 0;
  height = pos 0;
  size = pos 0;
}

-- Part{Type: t, Text: s}
abbrev pub text_part : PartType → Bytes → Part
text_part t s = record zero_part { type = t; text = s }

-- append([]string(nil), summary...)
abbrev copy_summary : List Bytes → List Bytes
copy_summary [] = []
copy_summary (s ∷ rest) = s ∷ copy_summary rest

-- Part.Clone
unfoldable pub clone_part : Part → Part
clone_part p = record p { summary = copy_summary p.summary }

pub record Message : Type 0 where
  pub role : Role
  pub parts : List Part
  pub completed_at : ℕ

-- NewTextMessage
unfoldable pub new_text_message : Role → Bytes → Message
new_text_message r s = record { role = r; parts = text_part PartType.text s ∷ []; completed_at = 0 }

-- The text of the parts of one type, in order.
unfoldable pub texts_of : PartType → List Part → Bytes
texts_of t [] = []
texts_of t (p ∷ ps) =
    let rest = texts_of t ps in if same_type p.type t then p.text ++ rest else rest

-- Message.Text
unfoldable pub message_text : Message → Bytes
message_text m = texts_of PartType.text m.parts

-- Message.Clone
unfoldable pub clone_message : Message → Message
unfolding clone_part
clone_message m = record {
  role = m.role;
  parts = map clone_part m.parts;
  completed_at = m.completed_at;
}

-- CloneMessages
unfoldable pub clone_messages : List Message → List Message
unfolding clone_message
clone_messages = map clone_message

pub record ReasoningOptions : Type 0 where
  pub summary : Bytes
  pub effort : Bytes

pub record Request : Type 0 where
  pub model : Bytes
  pub instructions : Bytes
  pub messages : List Message
  pub reasoning : ReasoningOptions

-- Request.Clone
unfoldable pub clone_request : Request → Request
unfolding clone_messages
clone_request r = record r { messages = clone_messages r.messages }

pub record Usage : Type 0 where
  pub input_tokens : ℤ
  pub output_tokens : ℤ
  pub total_tokens : ℤ
  pub reasoning_tokens : ℤ

pub data EventType : Type 0 where
  text_delta reasoning_delta output_item_done completed error : EventType
  other_event : EventType

pub record Event : Type 0 where
  pub type : EventType
  pub delta : Bytes
  pub part : Part
  pub response_id : Bytes
  pub usage : Option Usage
  pub err : Option Error

-- Event{}
abbrev pub zero_event : Event
zero_event = record {
  type = EventType.other_event;
  delta = [];
  part = zero_part;
  response_id = [];
  usage = none;
  err = none;
}
