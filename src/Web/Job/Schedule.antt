-- ===== src/Web/Job/Schedule.antt =====
-- A turn under any schedule of its goroutines: the run that emits, the handlers that come, read and
-- go, the aborts, and the end of the run.
use pyttechat.Base.{
  ℕ, zero, suc, ◌+◌, ◌-◌, true, false, List, [], ◌∷◌, ◌++◌, map, Option, Bytes, length, drop, ◌≡◌,
  refl, ◌∙◌, ◌⊎◌, inl, inr, arith, if◌then◌else◌, Bool-cases, append_assoc, All, All-imp, drop-drop,
  drop-append_length,
}
use pyttechat.Web.Job.{
  Payload, EventName, StreamEvent, Viewer, Job, new_job, emit, emit_terminal, offer_last, shut,
  unseen, subscribe, unsubscribe, receive, take_queued, end_turn, close_done, finish, abort,
}
use pyttechat.Web.Job.Numbers.{
  NumberedFrom, IsNumbered, unseen-drop, emit-IsNumbered, emit_terminal-IsNumbered,
}
use pyttechat.Web.Job.Viewers.{
  Follows, AllFollow, at_viewer-All, emit-AllFollow, emit_terminal-AllFollow, unsubscribe-AllFollow,
  receive-AllFollow, finish-AllFollow, subscribe-AllFollow,
}

pub data Action : Type 0 where
  emits ends : EventName → Payload → Action
  subscribes unsubscribes receives : ℕ → Action
  aborts finishes : Action

unfoldable pub act : (Payload → Option Bytes) → Action → Job → Job
act marshal (emits name p) j = emit marshal name p j
act marshal (ends name p) j = emit_terminal marshal name p j
act marshal (subscribes last) j = (subscribe last j).0
act marshal (unsubscribes i) j = unsubscribe i j
act marshal (receives i) j = receive i j
act marshal aborts j = (abort j).0
act marshal finishes j = finish j

unfoldable pub acts : (Payload → Option Bytes) → List Action → Job → Job
acts marshal [] j = j
acts marshal (a ∷ rest) j = acts marshal rest (act marshal a j)

abbrev pub IsGone : Viewer → Type 0
IsGone v = v.subscribed ≡ false

-- Nobody is subscribed to a turn that is over.
abbrev EndsSubscriptions : Job → Type 0
EndsSubscriptions j = (j.terminal ≡ false) ⊎ All IsGone j.viewers

-- job.done is closed as often as it is marked closed.
abbrev ClosesDone : Job → Type 0
ClosesDone j = j.done_closings ≡ (if j.done_closed then 1 else 0)

pub record IsValid (j : Job) : Type 0 where
  pub numbered : IsNumbered j
  pub follow : AllFollow j
  pub over : EndsSubscriptions j
  pub done_once : ClosesDone j

abort_keeps :
    (j : Job)
    → let j' = (abort j).0 in
      (j'.events ≡ j.events)
      × (j'.viewers ≡ j.viewers)
      × (j'.terminal ≡ j.terminal)
      × (j'.next_event_id ≡ j.next_event_id)
unfolding abort
abort_keeps j = ground arith

subscribe_keeps :
    (last : ℕ) (j : Job)
    → let j' = (subscribe last j).0 in
      (j'.events ≡ j.events) × (j'.terminal ≡ j.terminal) × (j'.next_event_id ≡ j.next_event_id)
unfolding subscribe
subscribe_keeps last j = ground arith

finish_keeps :
    (j : Job) → let j' = finish j in (j'.events ≡ j.events) × (j'.next_event_id ≡ j.next_event_id)
unfolding finish end_turn close_done
finish_keeps j = ground arith

IsNumbered-act :
    (marshal : Payload → Option Bytes) (a : Action) (j : Job)
    → IsNumbered j
    → IsNumbered (act marshal a j)
unfolding act unsubscribe receive
IsNumbered-act marshal (emits name p) j h = emit-IsNumbered marshal name p j h
IsNumbered-act marshal (ends name p) j h = emit_terminal-IsNumbered marshal name p j h
IsNumbered-act marshal (subscribes last) j h =
    let (es, _, next) = subscribe_keeps last j in rw (es, next) h
IsNumbered-act marshal aborts j h = let (es, _, _, next) = abort_keeps j in rw (es, next) h
IsNumbered-act marshal finishes j h = let (es, next) = finish_keeps j in rw (es, next) h
IsNumbered-act marshal _ j h = h

AllFollow-act :
    (marshal : Payload → Option Bytes) (a : Action) (j : Job)
    → IsNumbered j
    → AllFollow j
    → AllFollow (act marshal a j)
unfolding act abort
AllFollow-act marshal (emits name p) j n h = emit-AllFollow marshal name p j h
AllFollow-act marshal (ends name p) j n h = emit_terminal-AllFollow marshal name p j h
AllFollow-act marshal (subscribes last) j n h = subscribe-AllFollow last j n.1 h
AllFollow-act marshal (unsubscribes i) j n h = unsubscribe-AllFollow i j h
AllFollow-act marshal (receives i) j n h = receive-AllFollow i j h
AllFollow-act marshal aborts j n h = let (es, vs, _, _) = abort_keeps j in rw (es, vs) h
AllFollow-act marshal finishes j n h = finish-AllFollow j h

ClosesDone-act :
    (marshal : Payload → Option Bytes) (a : Action) (j : Job)
    → ClosesDone j
    → ClosesDone (act marshal a j)
unfolding act emit emit_terminal subscribe unsubscribe receive abort finish
ClosesDone-act marshal (emits name p) j h = ground arith
ClosesDone-act marshal _ j h = ground arith

offer_last-IsGone : (e : StreamEvent) (v : Viewer) → IsGone (offer_last e v)
unfolding offer_last
offer_last-IsGone e v = ground arith

shut-IsGone : (v : Viewer) → IsGone (shut v)
unfolding shut
shut-IsGone v = ground arith

All-IsGone :
    (f : Viewer → Viewer)
    → ((v : Viewer) → IsGone (f v))
    → (vs : List Viewer) → All IsGone (map f vs)
All-IsGone f h [] = tt
All-IsGone f h (v ∷ vs) = (h v, All-IsGone f h vs)

take_queued-IsGone : (v : Viewer) → IsGone v → IsGone (take_queued v)
take_queued-IsGone v h = ground arith

close_done_keeps :
    (j : Job) → ((close_done j).terminal ≡ j.terminal) × ((close_done j).viewers ≡ j.viewers)
unfolding close_done
close_done_keeps j = ground arith

end_turn_over :
    (j : Job) → EndsSubscriptions j → (end_turn j).terminal ≡ true × All IsGone (end_turn j).viewers
unfolding end_turn
end_turn_over j h = elim (Bool-cases j.terminal) [
  | inl e ↦ simp e (refl, gone_if e h)
  | inr e ↦ simp e (refl, All-IsGone shut shut-IsGone j.viewers)
]
  where
    gone_if : j.terminal ≡ true → EndsSubscriptions j → All IsGone j.viewers
    gone_if e (inl running) = absurd (ground arith)
    gone_if e (inr gone) = gone

finish_over :
    (j : Job) → EndsSubscriptions j → (finish j).terminal ≡ true × All IsGone (finish j).viewers
unfolding finish
finish_over j h =
    let (same_end, same_viewers) = close_done_keeps (end_turn j) in
    rw (same_end, same_viewers) (end_turn_over j h)

subscribe-EndsSubscriptions :
    (last : ℕ) (j : Job) → EndsSubscriptions j → EndsSubscriptions (subscribe last j).0
unfolding subscribe
subscribe-EndsSubscriptions last j h = elim (Bool-cases j.terminal) [
  | inl e ↦ simp e (simp e at h)
  | inr e ↦ simp e (inl refl)
]

EndsSubscriptions-act :
    (marshal : Payload → Option Bytes) (a : Action) (j : Job)
    → EndsSubscriptions j
    → EndsSubscriptions (act marshal a j)
unfolding act emit emit_terminal unsubscribe receive
EndsSubscriptions-act marshal (emits name p) j h = elim (Bool-cases j.terminal) [
  | inl e ↦ simp e (simp e at h)
  | inr e ↦ simp e (inl refl)
]
EndsSubscriptions-act marshal (ends name p) j h = elim (Bool-cases j.terminal) [
  | inl e ↦ simp e (simp e at h)
  | inr e ↦ simp e (inr (All-IsGone (offer_last _) (offer_last-IsGone _) j.viewers))
]
EndsSubscriptions-act marshal (subscribes last) j h = subscribe-EndsSubscriptions last j h
EndsSubscriptions-act marshal (unsubscribes i) j (inl running) = inl running
EndsSubscriptions-act marshal (unsubscribes i) j (inr gone) =
    inr (at_viewer-All IsGone shut (λ v _. shut-IsGone v) i j.viewers gone)
EndsSubscriptions-act marshal (receives i) j (inl running) = inl running
EndsSubscriptions-act marshal (receives i) j (inr gone) =
    inr (at_viewer-All IsGone take_queued take_queued-IsGone i j.viewers gone)
EndsSubscriptions-act marshal aborts j h = let (_, vs, over, _) = abort_keeps j in rw (vs, over) h
EndsSubscriptions-act marshal finishes j h = inr (finish_over j h).1

-- Every action, on every branch, keeps the ids counting up, every viewer's stream without gaps, the
-- channels closed once, the end of the turn final for its subscribers, and `done` closed once.
pub act-IsValid :
    (marshal : Payload → Option Bytes) (a : Action) (j : Job)
    → IsValid j
    → IsValid (act marshal a j)
act-IsValid marshal a j h = record {
  numbered = IsNumbered-act marshal a j h.numbered;
  follow = AllFollow-act marshal a j h.numbered h.follow;
  over = EndsSubscriptions-act marshal a j h.over;
  done_once = ClosesDone-act marshal a j h.done_once;
}

acts_from-IsValid :
    (marshal : Payload → Option Bytes) (schedule : List Action) (j : Job)
    → IsValid j
    → IsValid (acts marshal schedule j)
unfolding acts
acts_from-IsValid marshal [] j h = h
acts_from-IsValid marshal (a ∷ rest) j h =
    acts_from-IsValid marshal rest (act marshal a j) (act-IsValid marshal a j h)

-- A new turn under every schedule: its event ids count up, no viewer's stream has a gap, no channel
-- is closed twice, nobody is subscribed when it is over, and `done` is closed at most once.
pub acts-IsValid :
    (marshal : Payload → Option Bytes) (schedule : List Action)
    → IsValid (acts marshal schedule new_job)
acts-IsValid marshal schedule =
    acts_from-IsValid marshal schedule new_job
      (record { numbered = (refl, tt); follow = tt; over = inl refl; done_once = refl })

-- A turn that is over stays over, with the events that it has, whatever is done to it.
pub act_over :
    (marshal : Payload → Option Bytes) (a : Action) (j : Job)
    → j.terminal ≡ true
    → ((act marshal a j).terminal ≡ true) × ((act marshal a j).events ≡ j.events)
unfolding act emit emit_terminal subscribe unsubscribe receive abort finish end_turn close_done
act_over marshal (emits name p) j h = ground arith
act_over marshal _ j h = ground arith

close_done_once : (j : Job) → ClosesDone j → (close_done j).done_closings ≡ 1
unfolding close_done
close_done_once j h = ground arith

end_turn-ClosesDone : (j : Job) → ClosesDone j → ClosesDone (end_turn j)
unfolding end_turn
end_turn-ClosesDone j h = ground arith

-- The run's end, whether an event ended the turn before it or not: the turn is over, nobody is
-- subscribed, and `done` has been closed exactly once.
pub finish-ends :
    (j : Job)
    → IsValid j
    → let j' = finish j in
      (j'.terminal ≡ true) × All IsGone j'.viewers × (j'.done_closings ≡ 1) × (j'.events ≡ j.events)
finish-ends j h =
    let (over, gone) = finish_over j h.over in (over, gone, closed_once, (finish_keeps j).0)
  where
    closed_once : (finish j).done_closings ≡ 1
    closed_once = unfold finish in close_done_once (end_turn j) (end_turn-ClosesDone j h.done_once)

-- The id of the last event of a list, or `last` if there is none.
abbrev pub last_id : ℕ → List StreamEvent → ℕ
last_id last [] = last
last_id last (e ∷ es) = last_id e.id es

last_id-append :
    (k : ℕ) (xs ys : List StreamEvent)
    → NumberedFrom (suc k) (xs ++ ys)
    → last_id k xs ≡ k + length xs
last_id-append k [] ys h = omega arith
last_id-append k (x ∷ xs) ys h = rw h.0 (omega (arith, last_id-append (suc k) xs ys h.1))

NumberedFrom-drop :
    (k n : ℕ) (es : List StreamEvent)
    → NumberedFrom (suc k) es
    → NumberedFrom (suc (k + n)) (drop n es)
NumberedFrom-drop k zero es h = let same : k + 0 ≡ k = omega arith in rw same h
NumberedFrom-drop k (suc n) [] h = tt
NumberedFrom-drop k (suc n) (e ∷ es) h =
    let more : k + suc n ≡ suc k + n = omega arith in rw more (NumberedFrom-drop (suc k) n es h.1)

replay-subscribe : (last : ℕ) (j : Job) → (subscribe last j).1 ≡ unseen last j.events
unfolding subscribe
replay-subscribe last j = ground arith

resume_one :
    (j : Job) (v : Viewer)
    → IsNumbered j
    → Follows j.events v
    → v.sent ++ (subscribe (last_id v.from v.sent) j).1 ≡ drop v.from j.events
resume_one j v n f =
    let rest = v.queue ++ f.missed in
    let split : drop v.from j.events ≡ v.sent ++ rest = f.split ∙ simp append_assoc in
    let place : NumberedFrom (suc (0 + v.from)) (drop v.from j.events) =
      NumberedFrom-drop 0 v.from j.events n.1 in
    let none_before : 0 + v.from ≡ v.from = omega arith in
    let last : last_id v.from v.sent ≡ v.from + length v.sent =
      last_id-append v.from v.sent rest (rw (none_before, split) at place) in
    let all : v.from + length v.sent - 0 ≡ v.from + length v.sent = omega arith in
    rw (
      last,
      replay-subscribe (v.from + length v.sent) j,
      unseen-drop 0 (v.from + length v.sent) j.events n.1,
      all,
      ← drop-drop v.from (length v.sent) j.events,
      split,
      drop-append_length v.sent rest,
    )

-- In a turn whose state is valid, a browser that comes back with the id of the last event that it
-- was sent is sent the rest of them and nothing twice: all that it was sent and the replay
-- together are the turn's events from its place on.
pub resume :
    (j : Job)
    → IsValid j
    → All (λ v. v.sent ++ (subscribe (last_id v.from v.sent) j).1 ≡ drop v.from j.events) j.viewers
resume j h = All-imp (Follows j.events) _ (λ v. resume_one j v h.numbered) j.viewers h.follow
