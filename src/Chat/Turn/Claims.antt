-- ===== src/Chat/Turn/Claims.antt =====
-- What each operation of a turn does to the session's claim: inFlight, and who holds it.
use pyttechat.Base.{
  ℕ, Bool, true, false, Option, none, some, ◌≡◌, ◌⊎◌, inl, inr, arith, Option-cases,
}
use pyttechat.Errors.{Error, ok, err, Result-cases}
use pyttechat.Llm.{Message, Event, EventType, Request}
use pyttechat.Chat.Session.{World, Client, SendOptions, append_or_replace_tail, Outcome}
use pyttechat.Chat.Session.Indices.{replace_from_index_iff, Places}
use pyttechat.Chat.Turn.{
  TurnStream, outcome_of, answer, read_stream, begin_turn, open_turn, finalize, commit_partial,
  abort, record_outcome, record_error, complete_turn, fail_turn, take_event, next, close,
}

-- The stream's reads are no part of the claim.
read_stream_keeps :
    (t : TurnStream)
    → let t₁ = (read_stream t).0 in
      (t₁.keep_messages ≡ t.keep_messages) × (t₁.finalized ≡ t.finalized)
unfolding read_stream
read_stream_keeps t = ground arith

module _ {W : Type 0} where
  -- The claim is as it was.
  abbrev pub SameClaim : World W → World W → Type 0
  SameClaim w w' =
      (w'.session.in_flight ≡ w.session.in_flight) × (w'.session.messages ≡ w.session.messages)

  -- An operation keeps the turn's state and the claim, or ends the turn and gives the claim back.
  abbrev pub Effect : TurnStream → World W → TurnStream → World W → Type 0
  Effect t w t' w' =
      (t'.keep_messages ≡ t.keep_messages)
      × (((t'.finalized ≡ t.finalized) × SameClaim w w')
          ⊎ ((t.finalized ≡ false) × (t'.finalized ≡ true) × (w'.session.in_flight ≡ false)))

  append_or_replace_tail_claim :
      (w : World W) (b : Bool) (k : ℕ) (u a : Message)
      → let (w', failure) = append_or_replace_tail w b k u a in
        ((failure ≡ none) × (w'.session.in_flight ≡ false))
        ⊎ ((e : Error) × (failure ≡ some e) × (w'.session ≡ w.session))
  unfolding append_or_replace_tail
  append_or_replace_tail_claim w b k u a = ground arith

  finalize-Effect :
      (t : TurnStream) (w : World W) (b : Bool)
      → let (t', w', _) = finalize t w b in Effect t w t' w'
  unfolding finalize
  finalize-Effect t w b = ground (
    arith,
    append_or_replace_tail_claim w t.replace_tail t.keep_messages t.user_message (answer t),
  )

  abort-Effect : (t : TurnStream) (w : World W) → let (t', w') = abort t w in Effect t w t' w'
  unfolding abort
  abort-Effect t w = ground arith

  record_outcome-Effect :
      (o : Outcome) (t : TurnStream) (w : World W)
      → let (t', w') = record_outcome o t w in Effect t w t' w'
  unfolding record_outcome
  record_outcome-Effect o t w = ground arith

  record_error-Effect :
      (e : Error) (t : TurnStream) (w : World W)
      → let (t', w') = record_error e t w in Effect t w t' w'
  unfolding record_error
  record_error-Effect e t w = record_outcome-Effect (outcome_of e) t w

  fail_turn-Effect :
      (o : Option Error) (event : Event) (t : TurnStream) (w : World W)
      → let (t', w', _, _) = fail_turn o event t w in Effect t w t' w'
  unfolding fail_turn
  fail_turn-Effect none event t w = ground arith
  fail_turn-Effect (some e) event t w =
      let (t₁, w₁) = record_outcome (Outcome.failed e) t w in
      ground (arith, record_outcome-Effect (Outcome.failed e) t w, abort-Effect t₁ w₁)

  complete_turn-Effect :
      (event : Event) (t : TurnStream) (w : World W)
      → let (t', w', _, _) = complete_turn event t w in Effect t w t' w'
  unfolding complete_turn
  complete_turn-Effect event t w =
      let t₀ : TurnStream = record t { completed = true } in
      let (t₁, w₁, failure) = finalize t₀ w false in
      elim (Option-cases failure) [
        | inl none_failed ↦
            ground
              (arith, finalize-Effect t₀ w false, record_outcome-Effect Outcome.completed t₁ w₁)
        | inr (e, failed) ↦
            let (t₂, w₂) = record_error e t₁ w₁ in
            ground
              (arith, finalize-Effect t₀ w false, record_error-Effect e t₁ w₁, abort-Effect t₂ w₂)
      ]

  take_event-Effect :
      (y : EventType) (event : Event) (t : TurnStream) (w : World W)
      → let (t', w', _, _) = take_event y event t w in Effect t w t' w'
  unfolding take_event
  take_event-Effect EventType.completed event t w = complete_turn-Effect event t w
  take_event-Effect EventType.error event t w = fail_turn-Effect event.err event t w
  take_event-Effect _ event t w = ground arith

  pub next-Effect :
      (t : TurnStream) (w : World W) → let (t', w', _, _) = next t w in Effect t w t' w'
  unfolding next
  next-Effect t w =
      let (t₁, read) = read_stream t in
      elim (Result-cases read) [
        | inl (event, e) ↦
            ground (arith, read_stream_keeps t, take_event-Effect event.type event t₁ w)
        | inr (failure, e) ↦
            let (t₂, w₂) = record_error failure t₁ w in
            ground
              (arith, read_stream_keeps t, record_error-Effect failure t₁ w, abort-Effect t₂ w₂)
      ]

  pub commit_partial-Effect :
      (t : TurnStream) (w : World W) → let (t', w', _) = commit_partial t w in Effect t w t' w'
  unfolding commit_partial
  commit_partial-Effect t w = finalize-Effect t w true

  pub close-Effect :
      (t : TurnStream) (w : World W) → let (t', w', _) = close t w in Effect t w t' w'
  unfolding close
  close-Effect t w =
      let (t₁, w₁) = record_outcome Outcome.cancelled t w in
      ground
        (arith, record_outcome-Effect Outcome.cancelled t w, abort-Effect t₁ w₁, abort-Effect t w)

  -- What a claim is: the session was free, the index is a place for a turn, and only the flag moved.
  pub begin_turn-claims :
      (w w' : World W) (opts : SendOptions) (k : ℕ)
      → begin_turn w opts ≡ (w', ok k)
      → (w.session.in_flight ≡ false)
        × Places w.session.messages opts.replace_from k
        × (w' ≡ record w { session = record w.session { in_flight = true } })
  unfolding begin_turn
  begin_turn-claims w w' opts k h =
      ground (arith, (replace_from_index_iff w.session.messages opts.replace_from k).0)

  pub begin_turn-refuses :
      (w w' : World W) (opts : SendOptions) (e : Error) → begin_turn w opts ≡ (w', err e) → w' ≡ w
  unfolding begin_turn
  begin_turn-refuses w w' opts e h = ground arith

  pub open_turn-opens :
      (w w' : World W) (client : Client) (u : Message) (k : ℕ) (r : Request) (opts : SendOptions)
      (t : TurnStream)
      → open_turn w client u k r opts ≡ (w', ok t)
      → (w'.session ≡ w.session)
        × (w'.db ≡ w.db)
        × (t.keep_messages ≡ k)
        × (t.finalized ≡ false)
        × (t.recorded ≡ false)
        × (t.completed ≡ false)
        × (t.user_message ≡ u)
  unfolding open_turn
  open_turn-opens w w' client u k r opts t h = ground arith

  pub open_turn-fails :
      (w w' : World W) (client : Client) (u : Message) (k : ℕ) (r : Request) (opts : SendOptions)
      (e : Error)
      → open_turn w client u k r opts ≡ (w', err e)
      → (w'.session ≡ record w.session { in_flight = false }) × (w'.db ≡ w.db)
  unfolding open_turn
  open_turn-fails w w' client u k r opts e h = ground arith
