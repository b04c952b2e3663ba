-- ===== src/Chat/Turn/Commit.antt =====
-- What Send claims and asks of the client, and what a completed event commits.
use pyttechat.Base.{
  ℕ, Bool, true, false, List, [], ◌∷◌, ◌++◌, none, some, Bytes, take, ◌≡◌, ◌⊎◌, arith, ◌∙◌, ap,
}
use pyttechat.Errors.{Error, Result, ok, err}
use pyttechat.Text.{trim_space, is_empty}
use pyttechat.Llm.{Message, Event, EventType, user, new_text_message, Request}
use pyttechat.Llm.Laws.{copies}
use pyttechat.Chat.Session.{
  Stream, Client, SendOptions, World, append_or_replace_tail, save_turn, next_messages,
}
use pyttechat.Chat.Session.Indices.{Places, replace_from_index_iff}
use pyttechat.Chat.Turn.{
  TurnStream, make_request, begin_turn, open_turn, send, answer, read_stream, finalize, abort,
  record_outcome, record_error, complete_turn, take_event, next, completion_time,
}

-- The request carries the messages that are kept and the new prompt behind them, and no others.
pub messages-make_request :
    (opts : SendOptions) (ms : List Message) (k : ℕ) (u : Message)
    → (make_request opts ms k u).messages ≡ take k ms ++ (u ∷ [])
unfolding make_request
messages-make_request opts ms k u = simp copies

settings-make_request :
    (opts : SendOptions) (ms : List Message) (k : ℕ) (u : Message)
    → let r = make_request opts ms k u in
      (r.model ≡ opts.model)
      × (r.instructions ≡ trim_space opts.rendering_instructions)
      × (r.reasoning.effort ≡ trim_space opts.reasoning_effort)
unfolding make_request
settings-make_request opts ms k u = ground arith

answer-stream :
    (t : TurnStream) (s : Stream)
    → answer (record t { stream = s; completed = true }) ≡ answer (record t { completed = true })
unfolding answer
answer-stream t s = ground arith

module _ {W : Type 0} where
  -- A call of Send that returns an error leaves the session and the store as they were: the prompt
  -- was empty, another turn holds the session, the index is refused, or the client failed.
  pub send-err :
      (w w' : World W) (client : Client) (prompt : Bytes) (opts : SendOptions) (e : Error)
      → send w client prompt opts ≡ (w', err e)
      → (w'.session ≡ w.session) × (w'.db ≡ w.db)
  unfolding send begin_turn open_turn
  send-err w w' client prompt opts e h = ground arith

  send-claims :
      (w w' : World W) (client : Client) (prompt : Bytes) (opts : SendOptions) (t : TurnStream)
      → send w client prompt opts ≡ (w', ok t)
      → (is_empty (trim_space prompt) ≡ false)
        × (w.session.in_flight ≡ false)
        × (w'.session ≡ record w.session { in_flight = true })
        × (w'.db ≡ w.db)
        × Places w.session.messages opts.replace_from t.keep_messages
        × (t.user_message ≡ new_text_message user (trim_space prompt))
        × (client (make_request opts w.session.messages t.keep_messages t.user_message)
            ≡ ok t.stream)
  unfolding send begin_turn open_turn
  send-claims w w' client prompt opts t h =
      ground
        (arith, (replace_from_index_iff w.session.messages opts.replace_from t.keep_messages).0)

  -- A call of Send that returns a stream: the prompt is not empty, no turn held the session, which
  -- is now claimed and otherwise as before, and the client gave the stream for a request whose
  -- messages are those of the conversation before the place of the turn, unchanged, and the trimmed
  -- prompt of the user behind them, with the model, the instructions and the effort of the options.
  pub send-ok :
      (w w' : World W) (client : Client) (prompt : Bytes) (opts : SendOptions) (t : TurnStream)
      → send w client prompt opts ≡ (w', ok t)
      → (is_empty (trim_space prompt) ≡ false)
        × (w.session.in_flight ≡ false)
        × (w'.session ≡ record w.session { in_flight = true })
        × (w'.db ≡ w.db)
        × Places w.session.messages opts.replace_from t.keep_messages
        × (t.user_message ≡ new_text_message user (trim_space prompt))
        × ((r : Request) × (client r ≡ ok t.stream)
            × (r.messages
                ≡ take t.keep_messages w.session.messages
                  ++ (new_text_message user (trim_space prompt) ∷ []))
            × (r.model ≡ opts.model)
            × (r.instructions ≡ trim_space opts.rendering_instructions)
            × (r.reasoning.effort ≡ trim_space opts.reasoning_effort))
  send-ok w w' client prompt opts t h =
      let (some_text, free, claimed, same, place, said, asked) =
        send-claims w w' client prompt opts t h in
      let k = t.keep_messages in
      let u = t.user_message in
      let r = make_request opts w.session.messages k u in
      let (model, instructions, effort) = settings-make_request opts w.session.messages k u in
      (
        some_text,
        free,
        claimed,
        same,
        place,
        said,
        (
          r,
          asked,
          messages-make_request opts w.session.messages k u
              ∙ ap (λ v. take k w.session.messages ++ (v ∷ [])) said,
          model,
          instructions,
          effort,
        ),
      )

  append_or_replace_tail_cases :
      (w : World W) (b : Bool) (k : ℕ) (u a : Message)
      → let (w', f) = append_or_replace_tail w b k u a in
        ((f ≡ none)
          × (w'.session.messages ≡ next_messages w.session.messages b k u a)
          × (w'.session.in_flight ≡ false))
        ⊎ ((e : Error) × (f ≡ some e)
            × (w'.session ≡ w.session)
            × ((save_turn w b k u a).1 ≡ some e))
  unfolding append_or_replace_tail
  append_or_replace_tail_cases w b k u a = ground arith

  -- A completed event of a turn that still holds the session gives the session back, and either
  -- the whole turn is in the conversation, the prompt and the answer behind the messages that are
  -- kept, and Next returns no error; or the store refused it, the conversation is as it was, and Next
  -- returns the store's error.
  pub next-completed :
      (t : TurnStream) (w : World W) (event : Event) (rest : List (Result Event))
      → t.stream.reads ≡ ok event ∷ rest
      → event.type ≡ EventType.completed
      → t.finalized ≡ false
      → let (t', w', event', failure) = next t w in
        (t'.finalized ≡ true)
        × (w'.session.in_flight ≡ false)
        × (event' ≡ event)
        × (((failure ≡ none)
              × (w'.session.messages
                  ≡ next_messages w.session.messages t.replace_tail t.keep_messages t.user_message
                      (answer (record t { completed = true }))))
            ⊎ ((e : Error) × (failure ≡ some e)
                × (w'.session.messages ≡ w.session.messages)
                × ((save_turn w t.replace_tail t.keep_messages t.user_message
                      (answer (record t { completed = true }))).1
                    ≡ some e)))
  unfolding next read_stream take_event complete_turn finalize completion_time record_error
      record_outcome abort
  next-completed t w event rest r y h =
      let past : Stream = record t.stream { reads = rest } in
      ground (
        arith,
        answer-stream t past,
        append_or_replace_tail_cases w t.replace_tail t.keep_messages t.user_message
            (answer (record t { stream = past; completed = true })),
      )
