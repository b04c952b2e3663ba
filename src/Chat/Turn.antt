-- ===== src/Chat/Turn.antt =====
-- internal/chat/service.go: Session.Send and TurnStream, one turn of a session.
pub mod Claims
pub mod Commit
pub mod Outcomes
pub mod Promises
pub mod Agreement
pub mod Steps
pub mod Exclusive
use pyttechat.Base.{
  ℕ, Bool, true, false, ◌&&◌, ◌||◌, not, List, [], ◌∷◌, ◌++◌, map, Option, none, some, Bytes, ◌==◌,
  if◌then◌else◌, take,
}
use pyttechat.Errors.{Error, empty_prompt, turn_in_progress, eof, is_canceled, Result, ok, err}
use pyttechat.Text.{trim_space, is_empty}
use pyttechat.Text.Laws.{codes}
use pyttechat.Llm.{
  text, reasoning, user, assistant, Part, clone_part, Message, new_text_message, clone_message,
  clone_messages, Request, ReasoningOptions, EventType, text_delta, reasoning_delta,
  output_item_done, Event, zero_event, other_event,
}
use pyttechat.Chat.Parts.{append_delta, merge_completed_part}
use pyttechat.Chat.Session.{
  Stream, Client, Outcome, started, World, SendOptions, replace_from_index, replaces, release_turn,
  append_or_replace_tail,
}

pub record TurnStream : Type 0 where
  pub stream : Stream
  pub user_message : Message
  pub keep_messages : ℕ
  pub replace_tail : Bool
  pub now : ℕ
  pub assistant_parts : List Part
  pub completed_at : ℕ
  pub completed : Bool
  pub finalized : Bool
  pub recorded : Bool

-- The request that Send builds from the messages kept and the new prompt.
unfoldable pub make_request : SendOptions → List Message → ℕ → Message → Request
make_request opts messages keep user_message = record {
  model = opts.model;
  instructions = trim_space opts.rendering_instructions;
  messages = clone_messages (take keep messages) ++ (clone_message user_message ∷ []);
  reasoning = reasoning_options (trim_space opts.reasoning_effort);
}
  where
    reasoning_options : Bytes → ReasoningOptions
    reasoning_options effort =
        if is_empty effort
        then record { summary = []; effort = [] }
        else record { summary = codes "auto"; effort = effort }

-- TurnStream.completionTime, with the field that it fills.
unfoldable pub completion_time : TurnStream → TurnStream × ℕ
completion_time t =
    if not t.completed
    then (t, 0)
    else if t.completed_at == 0
    then (record t { completed_at = t.now }, t.now)
    else (t, t.completed_at)

abbrev pub outcome_of : Error → Outcome
outcome_of e = if is_canceled e then Outcome.cancelled else Outcome.failed e

-- The message that finalize commits.
unfoldable pub answer : TurnStream → Message
unfolding completion_time
answer t = record {
  role = assistant;
  parts = map clone_part t.assistant_parts;
  completed_at = (completion_time t).1;
}

-- What the stream's next call of Next returns, and the turn with the stream past it.
unfoldable pub read_stream : TurnStream → TurnStream × Result Event
read_stream t = elim t.stream.reads [
  | [] ↦ (t, err eof)
  | r ∷ rest ↦ (record t { stream = record t.stream { reads = rest } }, r)
]

module _ {W : Type 0} where
  -- The section of Send under the mutex: claims the session, or says why not.
  unfoldable pub begin_turn : World W → SendOptions → World W × Result ℕ
  begin_turn w opts =
      if w.session.in_flight
      then (w, err turn_in_progress)
      else elim (replace_from_index w.session.messages opts.replace_from) [
        | err e ↦ (w, err e)
        | ok keep ↦ (record w { session = record w.session { in_flight = true } }, ok keep)
      ]

  abbrev count_outcome : World W → Outcome → World W
  count_outcome w o = record w { telemetry = w.telemetry ++ o ∷ [] }

  -- The rest of Send: the request goes out with the session claimed and the mutex free.
  unfoldable pub open_turn :
      World W → Client → Message → ℕ → Request → SendOptions → World W × Result TurnStream
  unfolding release_turn
  open_turn w client user_message keep request opts = elim (client request) [
    | err e ↦ (count_outcome (release_turn (count_outcome w started)) (Outcome.failed e), err e)
    | ok stream ↦ (
      count_outcome w started,
      ok (record {
        stream = stream;
        user_message = user_message;
        keep_messages = keep;
        replace_tail = replaces opts.replace_from;
        now = opts.now;
        assistant_parts = [];
        completed_at = 0;
        completed = false;
        finalized = false;
        recorded = false;
      }),
    )
  ]

  -- Session.Send
  unfoldable pub send : World W → Client → Bytes → SendOptions → World W × Result TurnStream
  send w client prompt opts =
      let prompt' = trim_space prompt in
      if is_empty prompt'
      then (w, err empty_prompt)
      else (let (w', claim) = begin_turn w opts in
          let user_message = new_text_message user prompt' in
          elim claim [
            | err e ↦ (w', err e)
            | ok keep ↦
                open_turn w' client user_message keep
                  (make_request opts w.session.messages keep user_message) opts
          ])

  -- TurnStream.finalize
  unfoldable pub finalize : TurnStream → World W → Bool → TurnStream × World W × Option Error
  unfolding completion_time
  finalize t w allow_incomplete =
      if (not t.completed && not allow_incomplete) || t.finalized
      then (t, w, none)
      else (let t' = (completion_time t).0 in
          let (w', failure) =
            append_or_replace_tail w t.replace_tail t.keep_messages t.user_message (answer t) in
          elim failure [
            | some e ↦ (t', w', some e)
            | none ↦ (record t' { finalized = true }, w', none)
          ])

  -- TurnStream.CommitPartial
  unfoldable pub commit_partial : TurnStream → World W → TurnStream × World W × Option Error
  commit_partial t w = finalize t w true

  -- TurnStream.abort
  unfoldable pub abort : TurnStream → World W → TurnStream × World W
  unfolding release_turn
  abort t w = if t.finalized then (t, w) else (record t { finalized = true }, release_turn w)

  -- recordCompleted, recordCancelled, recordFailed
  unfoldable pub record_outcome : Outcome → TurnStream → World W → TurnStream × World W
  record_outcome o t w =
      if t.recorded then (t, w) else (record t { recorded = true }, count_outcome w o)

  -- TurnStream.recordError
  unfoldable pub record_error : Error → TurnStream → World W → TurnStream × World W
  record_error e t w = record_outcome (outcome_of e) t w

  -- The completed event: commit, then count the turn.
  unfoldable pub complete_turn :
      Event → TurnStream → World W → TurnStream × World W × Event × Option Error
  complete_turn event t w =
      let (t₁, w₁, failure) = finalize (record t { completed = true }) w false in
      elim failure [
        | some e ↦
            let (t₂, w₂) = record_error e t₁ w₁ in
            let (t₃, w₃) = abort t₂ w₂ in (t₃, w₃, event, some e)
        | none ↦ let (t₂, w₂) = record_outcome Outcome.completed t₁ w₁ in (t₂, w₂, event, none)
      ]

  -- The error event: with an error in it the turn ends.
  unfoldable pub fail_turn :
      Option Error → Event → TurnStream → World W → TurnStream × World W × Event × Option Error
  fail_turn none event t w = (t, w, event, none)
  fail_turn (some e) event t w =
      let (t₁, w₁) = record_outcome (Outcome.failed e) t w in
      let (t₂, w₂) = abort t₁ w₁ in (t₂, w₂, event, some e)

  -- The switch of TurnStream.Next.
  unfoldable pub take_event :
      EventType → Event → TurnStream → World W → TurnStream × World W × Event × Option Error
  take_event reasoning_delta event t w = (
    record t { assistant_parts = append_delta reasoning event.delta t.assistant_parts },
    w,
    event,
    none,
  )
  take_event text_delta event t w = (
    record t { assistant_parts = append_delta text event.delta t.assistant_parts },
    w,
    event,
    none,
  )
  take_event output_item_done event t w = (
    record t { assistant_parts = merge_completed_part event.part t.assistant_parts },
    w,
    event,
    none,
  )
  take_event EventType.completed event t w = complete_turn event t w
  take_event EventType.error event t w = fail_turn event.err event t w
  take_event other_event event t w = (t, w, event, none)

  -- TurnStream.Next
  unfoldable pub next : TurnStream → World W → TurnStream × World W × Event × Option Error
  next t w =
      let (t₁, read) = read_stream t in
      elim read [
        | ok event ↦ take_event event.type event t₁ w
        | err e ↦
            let (t₂, w₂) = record_error e t₁ w in
            let (t₃, w₃) = if is_canceled e then (t₂, w₂) else abort t₂ w₂ in
            (t₃, w₃, zero_event, some e)
      ]

  -- TurnStream.Close
  unfoldable pub close : TurnStream → World W → TurnStream × World W × Option Error
  close t w =
      let (t₁, w₁) = (if not t.completed then record_outcome Outcome.cancelled t w else (t, w)) in
      let (t₂, w₂) = abort t₁ w₁ in (t₂, w₂, t.stream.close_error)
