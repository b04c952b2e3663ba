-- ===== src/OpenResponses/Stream.antt =====
-- internal/llm/openresponses/client.go: reading the answer, one server-sent event after the other.
use pyttechat.Base.{
  ℕ, zero, suc, Bool, true, false, ◌||◌, not, Option, none, some, List, [], ◌∷◌, ◌++◌, ℤ, Bytes,
  if◌then◌else◌, ◌==◌, length,
}
use pyttechat.Errors.{Error, eof, canceled, is_eof, Result, ok, err}
use pyttechat.Text.{eq_bytes, is_empty, cut_byte, cut_prefix, has_prefix, join}
use pyttechat.Text.Laws.{codes}
use pyttechat.Llm.{Event}
use pyttechat.OpenResponses.Json.{Map, string_field}
use pyttechat.OpenResponses.Mapping.{Answer, payload_kind, ends_stream, payload_answer}
use pyttechat.OpenResponses.Payload.{sanitize_event_type}

-- type stream: `rest` is what is left of the body, which ends with the error `ends`; `observed` are the
-- types of events told to telemetry, and `span` is what the span was ended with.
pub record ResponseStream : Type 0 where
  pub rest : Bytes
  pub ends : Error
  pub data_lines : List Bytes
  pub done : Bool
  pub text_seen : List Bytes
  pub observed : List Bytes
  pub span : Option (Option Error)

-- The stream that Client.Stream returns for a body.
abbrev pub new_stream : Bytes → Error → ResponseStream
new_stream body ends = record {
  rest = body;
  ends = ends;
  data_lines = [];
  done = false;
  text_seen = [];
  observed = [];
  span = none;
}

-- What is recorded of the error with which a span ends.
abbrev span_error : Option Error → Option Error
span_error none = none
span_error (some e) = if is_eof e then none else some e

abbrev end_span : Option Error → Option (Option Error) → Option (Option Error)
end_span e none = some (span_error e)
end_span e (some before) = some before

-- finish
unfoldable pub finish : Option Error → ResponseStream → ResponseStream
finish e s = record s { span = end_span e s.span }

-- Close, less the closing of the body.
unfoldable pub close : ResponseStream → ResponseStream
unfolding finish
close s = if s.done then s else finish (some canceled) s

-- strings.TrimSuffix(line, "\r")
unfoldable pub trim_cr : Bytes → Bytes
trim_cr [] = []
trim_cr (c ∷ []) = if c == 13 then [] else c ∷ []
trim_cr (c ∷ d ∷ s) = c ∷ trim_cr (d ∷ s)

abbrev last_line : Error → Bytes → Result Bytes
last_line ends rest = if not (is_eof ends) || is_empty rest then err ends else ok (trim_cr rest)

-- readLine
unfoldable pub read_line : ResponseStream → ResponseStream × Result Bytes
unfolding cut_byte trim_cr
read_line s = elim (cut_byte 10 s.rest) [
  | some (line, rest) ↦ (record s { rest = rest }, ok (trim_cr line))
  | none ↦ (record s { rest = [] }, last_line s.ends s.rest)
]

-- strings.TrimPrefix(after, " ")
abbrev pub trim_prefix : Bytes → Bytes
trim_prefix [] = []
trim_prefix (c ∷ s) = if c == 32 then s else c ∷ s

-- What the loop of Next does with a line that is not empty.
unfoldable pub take_line : Bytes → ResponseStream → ResponseStream
unfolding has_prefix cut_prefix
take_line line s =
    if has_prefix line (codes ":") || has_prefix line (codes "event:")
    then s
    else elim (cut_prefix line (codes "data:")) [
      | none ↦ s
      | some after ↦ record s { data_lines = s.data_lines ++ (trim_prefix after ∷ []) }
    ]

-- recordPayload
unfoldable pub record_payload : Map → ResponseStream → ResponseStream
unfolding sanitize_event_type string_field
record_payload payload s = record s {
  observed = s.observed ++ (sanitize_event_type (string_field payload (codes "type")) ∷ []);
}

module _ (decimal : ℤ → Bytes) where
  -- mapPayload
  unfoldable pub map_payload : Map → ResponseStream → ResponseStream × Answer
  unfolding payload_answer finish payload_kind
  map_payload payload s =
      let (seen, answer) = payload_answer decimal payload s.text_seen in
      let s' = record s { text_seen = seen } in
      (
        if ends_stream (payload_kind payload) then finish none (record s' { done = true }) else s',
        answer,
      )

  module _ (unmarshal : Bytes → Result Map) where
    -- The text of a whole event.
    unfoldable pub dispatch_raw : Bytes → ResponseStream → ResponseStream × Answer
    unfolding map_payload record_payload finish eq_bytes
    dispatch_raw raw s =
        if eq_bytes raw (codes "[DONE]")
        then (finish none (record s { done = true }), err eof)
        else elim (unmarshal raw) [
          | err e ↦ (finish (some e) s, err e)
          | ok payload ↦ map_payload payload (record_payload payload s)
        ]

    -- dispatch
    unfoldable pub dispatch : ResponseStream → ResponseStream × Answer
    unfolding dispatch_raw join
    dispatch s = elim s.data_lines [
      | [] ↦ (s, ok none)
      | d ∷ ds ↦ dispatch_raw (join (d ∷ ds) (codes "\n")) (record s { data_lines = [] })
    ]

    -- Next at the end of the body.
    abbrev at_end : ResponseStream × Answer → ResponseStream × Result Event
    at_end (s, err e) = (finish (some e) s, err e)
    at_end (s, ok (some event)) = (s, ok event)
    at_end (s, ok none) = (finish none (record s { done = true }), err eof)

    -- Next at an empty line; `again` are the turns of the loop that follow.
    abbrev pub at_blank :
        (ResponseStream → ResponseStream × Result Event)
        → ResponseStream × Answer
        → ResponseStream × Result Event
    at_blank again (s, err e) = (finish (some e) s, err e)
    at_blank again (s, ok (some event)) = (s, ok event)
    at_blank again (s, ok none) = again s

    -- A turn of the loop of Next, with what readLine returned.
    abbrev pub turn :
        (ResponseStream → ResponseStream × Result Event)
        → ResponseStream × Result Bytes
        → ResponseStream × Result Event
    turn again (s, err e) = if is_eof e then at_end (dispatch s) else (finish (some e) s, err e)
    turn again (s, ok []) = at_blank again (dispatch s)
    turn again (s, ok (c ∷ line)) = again (take_line (c ∷ line) s)

    -- The loop of Next. `fuel` bounds the number of turns.
    unfoldable pub next_loop : ℕ → ResponseStream → ResponseStream × Result Event
    unfolding read_line take_line dispatch finish
    next_loop zero s = (s, err eof)
    next_loop (suc fuel) s = turn (next_loop fuel) (read_line s)

    -- Next
    unfoldable pub next : ResponseStream → ResponseStream × Result Event
    unfolding next_loop
    next s = if s.done then (s, err eof) else next_loop (suc (length s.rest)) s
