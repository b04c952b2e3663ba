-- ===== src/Chat/Session.antt =====
-- internal/chat/service.go: Service, Session and the sections that run under the session's mutex.
-- A store is what the Store interface says, over a state `W` of its own. A world is the session,
-- the store's state, and the outcomes that were counted for the turns.
pub mod Indices
use pyttechat.Base.{
  ℕ, Bool, true, false, List, [], ◌∷◌, ◌++◌, Option, none, some, ℤ, pos, negsuc, Bytes, ltb,
  if◌then◌else◌, length, get_elem?, take,
}
use pyttechat.Errors.{Error, empty_prompt, invalid_replace_from, Result, ok, err, ◌>>=◌}
use pyttechat.Text.{trim_space, is_empty}
use pyttechat.Llm.{
  user, assistant, is_user, Message, new_text_message, clone_message, clone_messages, Request,
  Event,
}

-- type Store interface
pub record Store (W : Type 0) : Type 0 where
  pub messages : W → ℤ → Result (List Message)
  pub append_turn : W → ℤ → Message → Message → W × Option Error
  pub replace_tail_and_append_turn : W → ℤ → ℕ → Message → Message → W × Option Error

-- A response stream: what its calls of Next return, one after the other, and io.EOF for good
-- after the last of them; and what Close returns.
pub record Stream : Type 0 where
  pub reads : List (Result Event)
  pub close_error : Option Error

-- type Client interface: what the client answers to a request.
abbrev pub Client : Type 0
Client = Request → Result Stream

pub record Session (W : Type 0) : Type 0 where
  pub store : Option (Store W)
  pub conversation_id : ℤ
  pub messages : List Message
  pub in_flight : Bool

-- What observability counts for a turn.
pub data Outcome : Type 0 where
  started completed cancelled : Outcome
  failed : Error → Outcome

pub record World (W : Type 0) : Type 0 where
  pub session : Session W
  pub db : W
  pub telemetry : List Outcome

-- `now` is the reading of the clock when the turn completes.
pub record SendOptions : Type 0 where
  pub model : Bytes
  pub reasoning_effort : Bytes
  pub rendering_instructions : Bytes
  pub replace_from : Option ℤ
  pub now : ℕ

-- opts.ReplaceFrom != nil
abbrev pub replaces : Option ℤ → Bool
replaces none = false
replaces (some k) = true

-- replaceFromIndex
unfoldable pub replace_from_index : List Message → Option ℤ → Result ℕ
replace_from_index messages none = ok (length messages)
replace_from_index messages (some (negsuc k)) = err invalid_replace_from
replace_from_index messages (some (pos k)) =
    if ltb (length messages) k then err invalid_replace_from else elim (get_elem? messages k) [
      | none ↦ ok k
      | some m ↦ if is_user m.role then ok k else err invalid_replace_from
    ]

-- The messages that appendOrReplaceTailLocked leaves in memory. A slice messages[:keep] is `take keep`.
unfoldable pub next_messages : List Message → Bool → ℕ → Message → Message → List Message
unfolding clone_message clone_messages
next_messages messages replace_tail keep user_message answer =
    (if replace_tail then clone_messages (take keep messages) else clone_messages messages)
    ++ (clone_message user_message ∷ clone_message answer ∷ [])

module _ {W : Type 0} where
  -- Service.NewSession
  unfoldable pub new_session : Session W
  new_session = record { store = none; conversation_id = pos 0; messages = []; in_flight = false }

  -- Service.NewPersistedSession
  unfoldable pub new_persisted_session : Option (Store W) → W → ℤ → Result (Session W)
  unfolding new_session clone_messages
  new_persisted_session none db id = ok new_session
  new_persisted_session (some store) db id = do
    messages ← store.messages db id
    ok (record {
      store = some store;
      conversation_id = id;
      messages = clone_messages messages;
      in_flight = false;
    })

  abbrev set_session : World W → Session W → World W
  set_session w s = record w { session = s }

  -- Session.releaseTurn
  unfoldable pub release_turn : World W → World W
  release_turn w = set_session w (record w.session { in_flight = false })

  -- Session.Messages
  unfoldable pub session_messages : Session W → List Message
  unfolding clone_messages
  session_messages s = clone_messages s.messages

  -- Session.ValidateReplaceFrom
  unfoldable pub validate_replace_from : Session W → Option ℤ → Option Error
  unfolding replace_from_index
  validate_replace_from s replace_from = elim (replace_from_index s.messages replace_from) [
    | ok k ↦ none
    | err e ↦ some e
  ]

  -- The store's half of appendOrReplaceTailLocked.
  unfoldable pub save_turn : World W → Bool → ℕ → Message → Message → W × Option Error
  save_turn w replace_tail keep user_message answer = elim w.session.store [
    | none ↦ (w.db, none)
    | some store ↦
        if replace_tail
        then store.replace_tail_and_append_turn w.db w.session.conversation_id keep
            (clone_message user_message) (clone_message answer)
        else store.append_turn w.db w.session.conversation_id (clone_message user_message)
            (clone_message answer)
  ]

  -- Session.appendOrReplaceTailLocked
  unfoldable pub append_or_replace_tail :
      World W → Bool → ℕ → Message → Message → World W × Option Error
  append_or_replace_tail w replace_tail keep user_message answer =
      let (db', failure) = save_turn w replace_tail keep user_message answer in
      elim failure [
        | some e ↦ (record w { db = db' }, some e)
        | none ↦ (
          record {
            session = record w.session {
              messages = next_messages w.session.messages replace_tail keep user_message answer;
              in_flight = false;
            };
            db = db';
            telemetry = w.telemetry;
          },
          none,
        )
      ]

  -- Session.CommitStopped
  unfoldable pub commit_stopped : World W → Bytes → SendOptions → World W × Option Error
  commit_stopped w prompt opts =
      let prompt' = trim_space prompt in
      if is_empty prompt'
      then (w, some empty_prompt)
      else elim (replace_from_index w.session.messages opts.replace_from) [
        | err e ↦ (w, some e)
        | ok keep ↦
            append_or_replace_tail w (replaces opts.replace_from) keep
              (new_text_message user prompt')
              (record { role = assistant; parts = []; completed_at = 0 })
      ]
