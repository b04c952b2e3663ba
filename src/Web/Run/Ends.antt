-- ===== src/Web/Run/Ends.antt =====
-- The terminal event of a run: each of its steps sends one, or leaves the turn running.
use pyttechat.Base.{
  Bool, true, false, List, [], ◌∷◌, ◌++◌, Option, none, some, Bytes, ◌≡◌, refl, ◌∙◌, arith, inl,
  inr, Bool-cases, All, All-append,
}
use pyttechat.Errors.{Error}
use pyttechat.Text.{is_empty}
use pyttechat.Llm.{Event, EventType, text_delta, reasoning_delta, output_item_done, other_event}
use pyttechat.Chat.Turn.{TurnStream}
use pyttechat.Web.Job.{
  Payload, EventName, preview, reasoning, done, aborted, stream_error, StreamEvent, Job, emit,
  emit_terminal, encode_stream_event, subscribe, unsubscribe, receive, abort,
}
use pyttechat.Web.Job.Schedule.{IsValid, act-IsValid, Action, act}
use pyttechat.Web.Run.{
  Visit, subscribes, unsubscribes, receives, aborts, visit, visits, should_abort, Shown, Setting,
  emit_aborted, emit_stream_error, emit_error, emit_after_commit, show_event,
}

-- The names of the events that end a turn, and of those that do not.
abbrev pub is_end : EventName → Bool
is_end done = true
is_end aborted = true
is_end stream_error = true
is_end _ = false

abbrev IsUpdate : StreamEvent → Type 0
IsUpdate e = is_end e.name ≡ false

-- No terminal event has been sent.
pub record IsRunning (j : Job) : Type 0 where
  pub valid : IsValid j
  pub going : j.terminal ≡ false
  pub updates : All IsUpdate j.events

-- One terminal event has been sent, and it is the last event.
pub record IsEnded (j : Job) : Type 0 where
  pub valid : IsValid j
  pub over : j.terminal ≡ true
  pub before : List StreamEvent
  pub last : StreamEvent
  pub split : j.events ≡ before ++ last ∷ []
  pub updates : All IsUpdate before
  pub is_last : is_end last.name ≡ true

-- json.Marshal has a result for every payload.
abbrev pub Encodes : (Payload → Option Bytes) → Type 0
Encodes marshal = (p : Payload) → (body : Bytes) × (marshal p ≡ some body)

name-encode_stream_event :
    (marshal : Payload → Option Bytes) (name : EventName) (p : Payload)
    → Encodes marshal
    → (encode_stream_event marshal name p).0 ≡ name
unfolding encode_stream_event
name-encode_stream_event marshal name p h = let (body, e) = h p in rw (e, encode_stream_event)

emit-events :
    (marshal : Payload → Option Bytes) (name : EventName) (p : Payload) (j : Job)
    → Encodes marshal
    → j.terminal ≡ false
    → let j' = emit marshal name p j in
      (e : StreamEvent) × (j'.events ≡ j.events ++ e ∷ []) × (e.name ≡ name) × (j'.terminal ≡ false)
unfolding emit
emit-events marshal name p j h r = simp r (_, refl, name-encode_stream_event marshal name p h, refl)

emit_terminal-events :
    (marshal : Payload → Option Bytes) (name : EventName) (p : Payload) (j : Job)
    → Encodes marshal
    → j.terminal ≡ false
    → let j' = emit_terminal marshal name p j in
      (e : StreamEvent) × (j'.events ≡ j.events ++ e ∷ []) × (e.name ≡ name) × (j'.terminal ≡ true)
unfolding emit_terminal
emit_terminal-events marshal name p j h r =
    simp r (_, refl, name-encode_stream_event marshal name p h, refl)

emit-IsRunning :
    (marshal : Payload → Option Bytes) (name : EventName) (p : Payload) (j : Job)
    → Encodes marshal
    → is_end name ≡ false
    → IsRunning j
    → IsRunning (emit marshal name p j)
emit-IsRunning marshal name p j h update r =
    let (e, events, named, going) = emit-events marshal name p j h r.going in
    record {
      valid = unfold act in act-IsValid marshal (Action.emits name p) j r.valid;
      going = going;
      updates = rw events (All-append IsUpdate j.events (e ∷ []) r.updates (rw named update, tt));
    }

emit_terminal-IsEnded :
    (marshal : Payload → Option Bytes) (name : EventName) (p : Payload) (j : Job)
    → Encodes marshal
    → is_end name ≡ true
    → IsRunning j
    → IsEnded (emit_terminal marshal name p j)
emit_terminal-IsEnded marshal name p j h final r =
    let (e, events, named, over) = emit_terminal-events marshal name p j h r.going in
    record {
      valid = unfold act in act-IsValid marshal (Action.ends name p) j r.valid;
      over = over;
      before = j.events;
      last = e;
      split = events;
      updates = r.updates;
      is_last = rw named final;
    }

visit_keeps :
    (v : Visit) (j : Job) → ((visit v j).terminal ≡ j.terminal) × ((visit v j).events ≡ j.events)
unfolding visit subscribe unsubscribe receive abort
visit_keeps v j = ground arith

visit-IsValid : (v : Visit) (j : Job) → IsValid j → IsValid (visit v j)
unfolding visit act
visit-IsValid (subscribes last) j h = act-IsValid (λ p. none) (Action.subscribes last) j h
visit-IsValid (unsubscribes i) j h = act-IsValid (λ p. none) (Action.unsubscribes i) j h
visit-IsValid (receives i) j h = act-IsValid (λ p. none) (Action.receives i) j h
visit-IsValid aborts j h = act-IsValid (λ p. none) Action.aborts j h

pub visits-IsRunning : (vs : List Visit) (j : Job) → IsRunning j → IsRunning (visits vs j)
unfolding visits
visits-IsRunning [] j r = r
visits-IsRunning (v ∷ vs) j r =
    let (going, events) = visit_keeps v j in
    visits-IsRunning vs (visit v j) (record {
      valid = visit-IsValid v j r.valid;
      going = going ∙ r.going;
      updates = rw events r.updates;
    })

module _ (g : Setting) (encodes : Encodes g.marshal) where
  emit_aborted-IsEnded : (j : Job) → IsRunning j → IsEnded (emit_aborted g j)
  unfolding emit_aborted
  emit_aborted-IsEnded j r = emit_terminal-IsEnded g.marshal aborted _ j encodes refl r

  emit_stream_error-IsEnded : (j : Job) → IsRunning j → IsEnded (emit_stream_error g j)
  unfolding emit_stream_error
  emit_stream_error-IsEnded j r = emit_terminal-IsEnded g.marshal stream_error _ j encodes refl r

  pub emit_error-IsEnded : (e : Error) (j : Job) → IsRunning j → IsEnded (emit_error g e j)
  unfolding emit_error
  emit_error-IsEnded e j r = elim (Bool-cases (should_abort e j)) [
    | inl e' ↦ simp e' (emit_aborted-IsEnded j r)
    | inr e' ↦ simp e' (emit_stream_error-IsEnded j r)
  ]

  pub emit_after_commit-IsEnded :
      (f : Option Error) (j : Job) → IsRunning j → IsEnded (emit_after_commit g f j)
  unfolding emit_after_commit
  emit_after_commit-IsEnded none j r = emit_aborted-IsEnded j r
  emit_after_commit-IsEnded (some e) j r = emit_stream_error-IsEnded j r

  -- After the switch the turn has ended if `run` returns, and is running if it does not.
  abbrev pub Goes : Bool → Job → Type 0
  Goes true j = IsEnded j
  Goes false j = IsRunning j

  pub show_event-Goes :
      (y : EventType) (event : Event) (t : TurnStream) (s : Shown) (j : Job)
      → IsRunning j
      → let (s', j', returns) = show_event g y event t s j in Goes returns j'
  unfolding show_event
  show_event-Goes text_delta event t s j r = elim (Bool-cases (is_empty event.delta)) [
    | inl e ↦ simp e r
    | inr e ↦ simp e (emit-IsRunning g.marshal preview _ j encodes refl r)
  ]
  show_event-Goes reasoning_delta event t s j r =
      emit-IsRunning g.marshal reasoning _ j encodes refl r
  show_event-Goes output_item_done event t s j r = r
  show_event-Goes EventType.completed event t s j r =
      emit_terminal-IsEnded g.marshal done _ j encodes refl r
  show_event-Goes EventType.error event t s j r = r
  show_event-Goes other_event event t s j r = r
