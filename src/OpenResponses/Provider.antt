-- ===== src/OpenResponses/Provider.antt =====
-- internal/llm/openresponses/fakeprovider/provider.go: how a provider writes the events of an answer.
-- json.Marshal is a parameter.
use pyttechat.Base.{List, [], ◌∷◌, ◌++◌, Bytes}
use pyttechat.Text.Laws.{codes}
use pyttechat.OpenResponses.Json.{Map}

-- type streamEvent
pub record StreamEvent : Type 0 where
  pub type : Bytes
  pub payload : Map

module _ (marshal : Map → Bytes) where
  -- writeSSEEvent
  unfoldable pub write_sse_event : StreamEvent → Bytes
  write_sse_event event =
      (codes "event: " ++ (event.type ++ codes "\n"))
      ++ (codes "data: " ++ (marshal event.payload ++ codes "\n\n"))

  -- writeSSEDone
  abbrev pub write_sse_done : Bytes
  write_sse_done = codes "data: [DONE]\n\n"

  -- What writeStreamingResponse writes when no write fails and the request is not cancelled.
  unfoldable pub write_events : List StreamEvent → Bytes
  unfolding write_sse_event
  write_events [] = write_sse_done
  write_events (event ∷ events) = write_sse_event event ++ write_events events
