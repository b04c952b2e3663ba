-- ===== src/Web/Job.antt =====
-- internal/web/server.go: turnJob, the events of a turn and the channels that carry them to the
-- browsers. Each function here is one section under the job's mutex, so that an interleaving of
-- goroutines is a sequence of calls. nextEventID is a number that does not wrap.
pub mod Numbers
pub mod Schedule
pub mod Viewers
use pyttechat.Base.{
  ℕ, zero, suc, ◌+◌, ◌-◌, Bool, true, false, List, [], ◌∷◌, ◌++◌, map, Option, none, some, Bytes,
  ltb, leb, if◌then◌else◌, length,
}
use pyttechat.Text.Laws.{codes}
use pyttechat.Llm.{Usage}

pub data EventName : Type 0 where
  preview reasoning done aborted stream_error : EventName

pub record ViewStatus : Type 0 where
  pub kind : Bytes
  pub label : Bytes
  pub text : Bytes
  pub content_id : Bytes

-- What the events carry beside the ids of the turn and of its answer, which never change.
pub data Payload : Type 0 where
  html_event : Bytes → Payload
  delta_event : Bytes → Payload
  done_event : Bytes → Option Usage → Bytes → List ViewStatus → ℕ → Payload
  aborted_event : Payload
  error_event : Bytes → Payload

pub record StreamEvent : Type 0 where
  pub id : ℕ
  pub name : EventName
  pub body : Bytes

-- A channel of capacity 128 with the handler that reads it. `sent` is what the handler has taken:
-- the replay, then the events that it received. `subscribed` is membership in job.subscribers;
-- `closings` counts the calls of close. `from` is the number of events before the replay.
pub record Viewer : Type 0 where
  pub from : ℕ
  pub sent : List StreamEvent
  pub queue : List StreamEvent
  pub subscribed : Bool
  pub closings : ℕ

pub record Job : Type 0 where
  pub events : List StreamEvent
  pub next_event_id : ℕ
  pub viewers : List Viewer
  pub terminal : Bool
  pub abort_requested : Bool
  pub canceled : Bool
  pub done_closed : Bool
  pub done_closings : ℕ

-- newTurnJobWithContext
abbrev pub new_job : Job
new_job = record {
  events = [];
  next_event_id = 0;
  viewers = [];
  terminal = false;
  abort_requested = false;
  canceled = false;
  done_closed = false;
  done_closings = 0;
}

abbrev pub capacity : ℕ
capacity = 128

-- encodeStreamEvent; json.Marshal is a parameter, `none` is its error.
unfoldable pub encode_stream_event :
    (Payload → Option Bytes) → EventName → Payload → EventName × Bytes
encode_stream_event marshal name payload = elim (marshal payload) [
  | none ↦ (stream_error, codes "{\"message\":\"could not encode stream event\"}")
  | some body ↦ (name, body)
]

-- close(subscriber); delete(j.subscribers, subscriber)
abbrev pub drop_viewer : Viewer → Viewer
drop_viewer v = record v { subscribed = false; closings = v.closings + 1 }

-- The body of emit's loop over the subscribers.
unfoldable pub offer : StreamEvent → Viewer → Viewer
offer event v =
    if v.subscribed
    then (if ltb (length v.queue) capacity
        then record v { queue = v.queue ++ event ∷ [] }
        else drop_viewer v)
    else v

-- The body of emitTerminal's loop: the event if there is room, and the channel is closed.
unfoldable pub offer_last : StreamEvent → Viewer → Viewer
offer_last event v =
    if v.subscribed
    then (if ltb (length v.queue) capacity
        then drop_viewer (record v { queue = v.queue ++ event ∷ [] })
        else drop_viewer v)
    else v

-- The body of finish's loop.
unfoldable pub shut : Viewer → Viewer
shut v = if v.subscribed then drop_viewer v else v

abbrev next_event : Job → EventName × Bytes → StreamEvent
next_event j (name, body) = record { id = j.next_event_id + 1; name = name; body = body }

module _ (marshal : Payload → Option Bytes) where
  -- turnJob.emit
  unfoldable pub emit : EventName → Payload → Job → Job
  emit name payload j =
      if j.terminal
      then j
      else (let event = next_event j (encode_stream_event marshal name payload) in
          record j {
            next_event_id = j.next_event_id + 1;
            events = j.events ++ event ∷ [];
            viewers = map (offer event) j.viewers;
          })

  -- turnJob.emitTerminal
  unfoldable pub emit_terminal : EventName → Payload → Job → Job
  emit_terminal name payload j =
      if j.terminal
      then j
      else (let event = next_event j (encode_stream_event marshal name payload) in
          record j {
            next_event_id = j.next_event_id + 1;
            events = j.events ++ event ∷ [];
            terminal = true;
            viewers = map (offer_last event) j.viewers;
          })

-- The loop of subscribe: the events behind those that were seen.
unfoldable pub unseen : ℕ → List StreamEvent → List StreamEvent
unseen last [] = []
unseen last (e ∷ es) = let rest = unseen last es in if leb e.id last then rest else e ∷ es

-- turnJob.subscribe: the replay, and whether the turn is over. If it is not, the viewer is the new
-- one at the end of the list.
unfoldable pub subscribe : ℕ → Job → Job × List StreamEvent × Bool
subscribe last j =
    let replay = unseen last j.events in
    if j.terminal then (j, replay, true) else (
      record j {
        viewers =
            j.viewers
            ++ record {
              from = length j.events - length replay;
              sent = replay;
              queue = [];
              subscribed = true;
              closings = 0;
            }
              ∷ [];
      },
      replay,
      false,
    )

-- Changes one viewer.
abbrev pub at_viewer : (Viewer → Viewer) → ℕ → List Viewer → List Viewer
at_viewer f i [] = []
at_viewer f zero (v ∷ vs) = f v ∷ vs
at_viewer f (suc i) (v ∷ vs) = v ∷ at_viewer f i vs

-- turnJob.unsubscribe
unfoldable pub unsubscribe : ℕ → Job → Job
unfolding shut
unsubscribe i j = record j { viewers = at_viewer shut i j.viewers }

-- `event, ok := <-updates` in handleTurnEvents, and the event is written out.
abbrev pub take_queued : Viewer → Viewer
take_queued v = elim v.queue [
  | [] ↦ v
  | e ∷ rest ↦ record v { sent = v.sent ++ e ∷ []; queue = rest }
]

unfoldable pub receive : ℕ → Job → Job
receive i j = record j { viewers = at_viewer take_queued i j.viewers }

-- The first half of turnJob.finish: without a terminal event the turn ends here.
unfoldable pub end_turn : Job → Job
end_turn j = if j.terminal then j else record j { terminal = true; viewers = map shut j.viewers }

-- The second half: close(j.done), once.
unfoldable pub close_done : Job → Job
close_done j =
    if j.done_closed
    then j
    else record j { done_closings = j.done_closings + 1; done_closed = true }

-- turnJob.finish
unfoldable pub finish : Job → Job
unfolding end_turn close_done
finish j = close_done (end_turn j)

-- turnJob.abort, up to its wait for the turn's end, which changes nothing.
unfoldable pub abort : Job → Job × Bool
abort j =
    if j.terminal then (j, false) else (record j { abort_requested = true; canceled = true }, true)
