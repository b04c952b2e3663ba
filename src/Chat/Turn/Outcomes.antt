-- ===== src/Chat/Turn/Outcomes.antt =====
-- Every turn that was opened is counted once: completed, cancelled or failed.
use pyttechat.Base.{
  ℕ, ◌+◌, Bool, true, false, List, [], ◌∷◌, ◌++◌, Option, none, some, ◌≡◌, refl, ◌⊎◌, inl, inr,
  arith, if◌then◌else◌, Option-cases,
}
use pyttechat.Errors.{Error, Result-cases}
use pyttechat.Llm.{Message, Event, EventType}
use pyttechat.Chat.Session.{World, append_or_replace_tail, Outcome, started, cancelled, failed}
use pyttechat.Chat.Turn.{
  TurnStream, outcome_of, answer, read_stream, finalize, commit_partial, abort, record_outcome,
  record_error, complete_turn, fail_turn, take_event, next, close, completion_time,
}

abbrev is_end : Outcome → Bool
is_end started = false
is_end _ = true

-- How many turns have been counted as ended.
unfoldable pub ends : List Outcome → ℕ
ends [] = 0
ends (o ∷ os) = (if is_end o then 1 else 0) + ends os

ends-append : (xs ys : List Outcome) → ends (xs ++ ys) ≡ ends xs + ends ys
unfolding ends
ends-append [] ys = omega arith
ends-append (x ∷ xs) ys = omega (arith, ends-append xs ys)

abbrev pub counted : TurnStream → ℕ
counted t = if t.recorded then 1 else 0

-- What a client of the turn may call before it closes it.
pub data Call : Type 0 where
  nexts commits_partial : Call

module _ {W : Type 0} where
  -- Beside `n` turns this one is counted if it is marked so, and it is marked once it is completed.
  abbrev pub IsCounted : ℕ → TurnStream → World W → Type 0
  IsCounted n t w =
      (ends w.telemetry ≡ n + counted t) × ((t.completed ≡ false) ⊎ (t.recorded ≡ true))

  -- Nothing that is counted changes.
  abbrev SameCount : TurnStream → World W → TurnStream → World W → Type 0
  SameCount t w t' w' =
      (w'.telemetry ≡ w.telemetry) × (t'.recorded ≡ t.recorded) × (t'.completed ≡ t.completed)

  append_or_replace_tail_telemetry :
      (w : World W) (b : Bool) (k : ℕ) (u a : Message)
      → (append_or_replace_tail w b k u a).0.telemetry ≡ w.telemetry
  unfolding append_or_replace_tail
  append_or_replace_tail_telemetry w b k u a = ground arith

  finalize-SameCount :
      (t : TurnStream) (w : World W) (b : Bool)
      → let (t', w', _) = finalize t w b in SameCount t w t' w'
  unfolding finalize completion_time
  finalize-SameCount t w b = ground (
    arith,
    append_or_replace_tail_telemetry w t.replace_tail t.keep_messages t.user_message (answer t),
  )

  abort-SameCount : (t : TurnStream) (w : World W) → let (t', w') = abort t w in SameCount t w t' w'
  unfolding abort
  abort-SameCount t w = ground arith

  record_outcome_counts :
      (n : ℕ) (o : Outcome) (t : TurnStream) (w : World W)
      → is_end o ≡ true
      → ends w.telemetry ≡ n + counted t
      → let (t', w') = record_outcome o t w in
        (ends w'.telemetry ≡ n + 1) × (t'.recorded ≡ true) × (t'.completed ≡ t.completed)
  unfolding record_outcome ends
  record_outcome_counts n o t w i h = ground (arith, ends-append w.telemetry (o ∷ []))

  record_error_counts :
      (n : ℕ) (e : Error) (t : TurnStream) (w : World W)
      → ends w.telemetry ≡ n + counted t
      → let (t', w') = record_error e t w in
        (ends w'.telemetry ≡ n + 1) × (t'.recorded ≡ true) × (t'.completed ≡ t.completed)
  unfolding record_error
  record_error_counts n e t w h = record_outcome_counts n (outcome_of e) t w (ground arith) h

  complete_turn-IsCounted :
      (n : ℕ) (event : Event) (t : TurnStream) (w : World W)
      → IsCounted n t w
      → let (t', w', _, _) = complete_turn event t w in IsCounted n t' w'
  unfolding complete_turn
  complete_turn-IsCounted n event t w h =
      let t₀ : TurnStream = record t { completed = true } in
      let (t₁, w₁, failure) = finalize t₀ w false in
      elim (Option-cases failure) [
        | inl none_failed ↦
            ground (
              arith,
              finalize-SameCount t₀ w false,
              record_outcome_counts n Outcome.completed t₁ w₁,
            )
        | inr (e, reason) ↦
            let (t₂, w₂) = record_error e t₁ w₁ in
            ground (
              arith,
              finalize-SameCount t₀ w false,
              record_error_counts n e t₁ w₁,
              abort-SameCount t₂ w₂,
            )
      ]

  fail_turn-IsCounted :
      (n : ℕ) (o : Option Error) (event : Event) (t : TurnStream) (w : World W)
      → IsCounted n t w
      → let (t', w', _, _) = fail_turn o event t w in IsCounted n t' w'
  unfolding fail_turn
  fail_turn-IsCounted n none event t w h = h
  fail_turn-IsCounted n (some e) event t w h =
      let (t₁, w₁) = record_outcome (failed e) t w in
      ground (arith, record_outcome_counts n (failed e) t w refl h.0, abort-SameCount t₁ w₁)

  take_event-IsCounted :
      (n : ℕ) (y : EventType) (event : Event) (t : TurnStream) (w : World W)
      → IsCounted n t w
      → let (t', w', _, _) = take_event y event t w in IsCounted n t' w'
  unfolding take_event
  take_event-IsCounted n EventType.completed event t w h = complete_turn-IsCounted n event t w h
  take_event-IsCounted n EventType.error event t w h = fail_turn-IsCounted n event.err event t w h
  take_event-IsCounted n _ event t w h = h

  read_stream-IsCounted :
      (n : ℕ) (t : TurnStream) (w : World W) → IsCounted n t w → IsCounted n (read_stream t).0 w
  unfolding read_stream
  read_stream-IsCounted n t w h = ground arith

  next-IsCounted :
      (n : ℕ) (t : TurnStream) (w : World W)
      → IsCounted n t w
      → let (t', w', _, _) = next t w in IsCounted n t' w'
  unfolding next
  next-IsCounted n t w h =
      let (t₁, read) = read_stream t in
      let h₁ = read_stream-IsCounted n t w h in
      elim (Result-cases read) [
        | inl (event, e) ↦ rw (e, next) (take_event-IsCounted n event.type event t₁ w h₁)
        | inr (f, e) ↦
            let (t₂, w₂) = record_error f t₁ w in
            ground (arith, h₁, record_error_counts n f t₁ w, abort-SameCount t₂ w₂)
      ]

  unfoldable pub after_calls : List Call → TurnStream → World W → TurnStream × World W
  after_calls [] t w = (t, w)
  after_calls (nexts ∷ calls) t w = let (t', w', _, _) = next t w in after_calls calls t' w'
  after_calls (commits_partial ∷ calls) t w =
      let (t', w', _) = commit_partial t w in after_calls calls t' w'

  after_calls-IsCounted :
      (n : ℕ) (calls : List Call) (t : TurnStream) (w : World W)
      → IsCounted n t w
      → let (t', w') = after_calls calls t w in IsCounted n t' w'
  unfolding after_calls commit_partial
  after_calls-IsCounted n [] t w h = h
  after_calls-IsCounted n (nexts ∷ calls) t w h =
      let (t', w', _, _) = next t w in after_calls-IsCounted n calls t' w' (next-IsCounted n t w h)
  after_calls-IsCounted n (commits_partial ∷ calls) t w h =
      let (t', w', _) = finalize t w true in
      after_calls-IsCounted n calls t' w' (ground (arith, finalize-SameCount t w true))

  close_counts :
      (n : ℕ) (t : TurnStream) (w : World W)
      → IsCounted n t w
      → ends (close t w).1.telemetry ≡ n + 1
  unfolding close
  close_counts n t w h =
      let (t₁, w₁) = record_outcome cancelled t w in
      ground (
        arith,
        record_outcome_counts n cancelled t w refl h.0,
        abort-SameCount t₁ w₁,
        abort-SameCount t w,
      )

  -- A turn that nobody has counted yet, used in whatever way and then closed, is counted as ended
  -- exactly once.
  pub counted_once :
      (calls : List Call) (t : TurnStream) (w : World W)
      → t.recorded ≡ false
      → t.completed ≡ false
      → let (t', w') = after_calls calls t w in
        ends (close t' w').1.telemetry ≡ ends w.telemetry + 1
  counted_once calls t w r c =
      let (t', w') = after_calls calls t w in
      close_counts (ends w.telemetry) t' w'
        (after_calls-IsCounted (ends w.telemetry) calls t w (ground arith))
