-- ===== src/Web/Run/Over.antt =====
-- How a run ends: with one terminal event behind all others, and with the job finished.
use pyttechat.Base.{
  ℕ, zero, suc, ◌<◌, none, Bytes, if◌then◌else◌, length, ◌≡◌, refl, ◌∙◌, arith, inl, inr,
  Option-cases, List-cases, Bool-cases, All,
}
use pyttechat.Errors.{Error, is_eof, unexpected_eof, ok, Result-cases}
use pyttechat.Llm.{Event, EventType}
use pyttechat.Chat.Session.{Client, World, SendOptions, commit_stopped}
use pyttechat.Chat.Turn.{
  TurnStream, send, next, read_stream, take_event, complete_turn, fail_turn, finalize,
  abort as abort_turn, record_outcome, record_error, commit_partial, completion_time,
}
use pyttechat.Web.Job.{Job, finish}
use pyttechat.Web.Job.Schedule.{IsGone, act-IsValid, finish-ends, Action, act}
use pyttechat.Web.Run.{
  visits, should_abort, Shown, Setting, show_event, end_with, run_loop, run_stream, refuse, run,
  nothing_shown,
}
use pyttechat.Web.Run.Ends.{
  Encodes, IsRunning, IsEnded, visits-IsRunning, emit_error-IsEnded, emit_after_commit-IsEnded,
  show_event-Goes,
}

module _ (g : Setting) (encodes : Encodes g.marshal) where
  end_with-IsEnded :
      {W : Type 0} (e : Error) (t : TurnStream) (w : World W) (j : Job)
      → IsRunning j
      → IsEnded (end_with g e t w j).2
  unfolding end_with
  end_with-IsEnded e t w j r =
      elim (Bool-cases (if is_eof e then j.abort_requested else should_abort e j)) [
        | inl e' ↦ rw e' (emit_after_commit-IsEnded g encodes (commit_partial t w).2 j r)
        | inr e' ↦ rw e' (
            emit_error-IsEnded g encodes (if is_eof e then unexpected_eof else e) (visits g.late j)
              (visits-IsRunning g.late j r))
      ]

  refuse-IsEnded :
      {W : Type 0} (e : Error) (prompt : Bytes) (opts : SendOptions) (w : World W) (j : Job)
      → IsRunning j
      → IsEnded (refuse g e prompt opts w j).1
  unfolding refuse
  refuse-IsEnded e prompt opts w j r = elim (Bool-cases (should_abort e j)) [
    | inl e' ↦ rw e' (emit_after_commit-IsEnded g encodes (commit_stopped w prompt opts).1 j r)
    | inr e' ↦
        rw e' (emit_error-IsEnded g encodes e (visits g.late j) (visits-IsRunning g.late j r))
  ]

read_stream-ok :
    (t : TurnStream) (event : Event)
    → let (t', read) = read_stream t in
      read ≡ ok event → length t.stream.reads ≡ suc (length t'.stream.reads)
unfolding read_stream
read_stream-ok t event h = elim (List-cases t.stream.reads) [
  | inl e ↦ ground arith
  | inr (r, rest, e) ↦ ground arith
]

module _ {W : Type 0} where
  take_event_keeps :
      (y : EventType) (event : Event) (t : TurnStream) (w : World W)
      → let (t', w', _, _) = take_event y event t w in t'.stream ≡ t.stream
  unfolding take_event complete_turn fail_turn finalize completion_time record_error record_outcome
      abort_turn
  take_event_keeps EventType.completed event t w = ground arith
  take_event_keeps EventType.error event t w = ground arith
  take_event_keeps _ event t w = refl

  -- Where Next returns no error it has taken one of the reads.
  next-reads :
      (t : TurnStream) (w : World W)
      → let (t', w', event, failure) = next t w in
        failure ≡ none → length t.stream.reads ≡ suc (length t'.stream.reads)
  unfolding next
  next-reads t w h = elim (Result-cases (read_stream t).1) [
    | inl (event, e) ↦
        ground
          (arith, take_event_keeps event.type event (read_stream t).0 w, read_stream-ok t event e)
    | inr (f, e) ↦ ground arith
  ]

finish-IsEnded :
    (j : Job)
    → IsEnded j
    → IsEnded (finish j) × All IsGone (finish j).viewers × ((finish j).done_closings ≡ 1)
finish-IsEnded j h =
    let (over, gone, closed, events) = finish-ends j h.valid in
    (
      record {
        valid = unfold act in act-IsValid (λ p. none) Action.finishes j h.valid;
        over = over;
        before = h.before;
        last = h.last;
        split = events ∙ h.split;
        updates = h.updates;
        is_last = h.is_last;
      },
      gone,
      closed,
    )

module _ (g : Setting) (encodes : Encodes g.marshal) {W : Type 0} where
  run_loop-IsEnded :
      (n : ℕ) (t : TurnStream) (s : Shown) (w : World W) (j : Job)
      → length t.stream.reads < n
      → IsRunning j
      → IsEnded (run_loop g n t s w j).3
  unfolding run_loop
  run_loop-IsEnded zero t s w j h r = absurd (omega arith)
  run_loop-IsEnded (suc n) t s w j h r =
      let j₁ = visits (g.others n) j in
      let r₁ : IsRunning j₁ = visits-IsRunning (g.others n) j r in
      let (t₁, w₁, event, failure) = next t w in
      elim (Option-cases failure) [
        | inr (e, failed) ↦ rw (failed, run_loop) (end_with-IsEnded g encodes e t₁ w₁ j₁ r₁)
        | inl fine ↦
            let (s₂, j₂, returns) = show_event g event.type event t₁ s j₁ in
            let goes = show_event-Goes g encodes event.type event t₁ s j₁ r₁ in
            elim (Bool-cases returns) [
              | inl e ↦ rw (fine, run_loop, e) (rw e at goes)
              | inr e ↦
                  rw (fine, run_loop, e)
                    (run_loop-IsEnded n t₁ s₂ w₁ j₂ (omega (arith, next-reads t w fine))
                      (rw e at goes))
            ]
      ]

  -- If every payload can be encoded, a run on a job that is running ends it, whatever the client,
  -- the stream, the store and the handlers of other requests do: one terminal event has been sent
  -- and it is the last event, the subscribers' channels are closed, and `done` has been closed
  -- once.
  pub run-IsEnded :
      (w : World W) (client : Client) (prompt : Bytes) (opts : SendOptions) (j : Job)
      → IsRunning j
      → let (w', j') = run g w client prompt opts j in
        IsEnded j' × All IsGone j'.viewers × (j'.done_closings ≡ 1)
  unfolding run run_stream
  run-IsEnded w client prompt opts j r = elim (Result-cases (send w client prompt opts).1) [
    | inl (t, e) ↦
        rw (e, run, run_stream)
          (finish-IsEnded (run_loop g _ t nothing_shown _ j).3
            (run_loop-IsEnded _ t nothing_shown _ j (omega arith) r))
    | inr (e, e') ↦
        rw (e', run)
          (finish-IsEnded (refuse g e prompt opts _ (visits (g.others 0) j)).1
            (refuse-IsEnded g encodes e prompt opts _ _ (visits-IsRunning (g.others 0) j r)))
  ]
