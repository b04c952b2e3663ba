-- ===== src/Tests/Web.antt =====
-- Runs of internal/web on small inputs, and the theorems about it at those.
use pyttechat.Base.{true, List, [], ◌∷◌, ◌++◌, map, Option, none, some, Bytes, drop, ◌≡◌, refl, All}
use pyttechat.Text.Laws.{codes}
use pyttechat.Web.Job.{
  Payload, delta_event, preview, reasoning, StreamEvent, Viewer, Job, new_job, emit,
  encode_stream_event, offer, unseen, subscribe, receive, finish, abort,
}
use pyttechat.Web.Job.Schedule.{
  Action, emits, subscribes, receives, aborts, act, acts, IsValid, acts-IsValid, finish-ends,
  act_over, resume, last_id,
}

abbrev marshal : Payload → Option Bytes
marshal (delta_event d) = some d
marshal _ = none

-- A browser comes behind the first event, reads one of the next two, and the user stops the turn.
abbrev schedule : List Action
schedule =
    emits preview (delta_event (codes "a"))
    ∷ subscribes 1
    ∷ emits preview (delta_event (codes "b"))
    ∷ receives 0
    ∷ emits reasoning (delta_event (codes "c"))
    ∷ aborts
    ∷ []

abbrev running : Job
running = acts marshal schedule new_job

-- The browser has event 2, and event 3 waits for it.
running_ids :
    (map (λ (v : Viewer). map (λ (e : StreamEvent). e.id) v.sent) running.viewers ≡ (2 ∷ []) ∷ [])
    × (map (λ (v : Viewer). map (λ (e : StreamEvent). e.id) v.queue) running.viewers
        ≡ (3 ∷ []) ∷ [])
unfolding acts act emit encode_stream_event offer subscribe unseen receive abort
running_ids = (refl, refl)

acts-IsValid_example : IsValid running
acts-IsValid_example = acts-IsValid marshal schedule

resume_example :
    All
      (λ v. v.sent ++ (subscribe (last_id v.from v.sent) running).1 ≡ drop v.from running.events)
      running.viewers
resume_example = resume running acts-IsValid_example

over : Job
over = finish running

act_over_example : (act marshal (emits preview (delta_event [])) over).terminal ≡ true
act_over_example =
    (act_over marshal (emits preview (delta_event [])) over
      (unfold over in (finish-ends running acts-IsValid_example).0)).0
