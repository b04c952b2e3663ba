-- ===== src/Chat/Turn/Agreement.antt =====
-- The conversation in memory and the one in the store: they stay the same through every turn.
use pyttechat.Base.{
  ℕ, Bool, true, false, ◌&&◌, ◌||◌, not, List, [], ◌∷◌, ◌++◌, Option, none, some, ℤ, Bytes, take,
  ◌≡◌, refl, ◌∙◌, inl, inr, arith, if◌then◌else◌, Bool-cases, Option-cases,
}
use pyttechat.Errors.{Error, Result, ok, Result-cases, is_canceled}
use pyttechat.Llm.{user, assistant, Message, Event, EventType, new_text_message, clone_messages}
use pyttechat.Llm.Laws.{copies, clone_message-eq}
use pyttechat.Text.{trim_space, is_empty}
use pyttechat.Chat.Session.{
  World, Store, SendOptions, append_or_replace_tail, save_turn, next_messages, commit_stopped,
  Outcome, replace_from_index, replaces, Session, new_persisted_session,
}
use pyttechat.Chat.Turn.{
  TurnStream, outcome_of, answer, read_stream, finalize, commit_partial, abort, record_outcome,
  record_error, complete_turn, fail_turn, take_event, next, close, completion_time,
}
use pyttechat.Chat.Turn.Promises.{IsUserMessage, StoreLaws, Agrees, IsSound}

next_messages-eq :
    (ms : List Message) (b : Bool) (k : ℕ) (u a : Message)
    → next_messages ms b k u a ≡ (if b then take k ms else ms) ++ (u ∷ a ∷ [])
unfolding next_messages
next_messages-eq ms true k u a = simp copies
next_messages-eq ms false k u a = simp copies

answer-read_stream :
    (t : TurnStream)
    → answer (record (read_stream t).0 { completed = true })
      ≡ answer (record t { completed = true })
unfolding answer read_stream completion_time
answer-read_stream t = ground arith

prompt-completion_time : (t : TurnStream) → (completion_time t).0.user_message ≡ t.user_message
unfolding completion_time
prompt-completion_time t = ground arith

module _ {W : Type 0} (store : Store W) (content : W → ℤ → Result (List Message))
    (Storable : Message → Type 0) (laws : StoreLaws store content Storable) where
  -- A session that is made from its conversation in the store agrees with it.
  new_persisted_session-Agrees :
      (db : W) (id : ℤ) (s : Session W)
      → new_persisted_session (some store) db id ≡ ok s
      → Agrees store content Storable (record { session = s; db = db; telemetry = [] })
  unfolding new_persisted_session
  new_persisted_session-Agrees db id s h = elim (Result-cases (store.messages db id)) [
    | inl (ms, e) ↦
        let same : clone_messages ms ≡ ms = simp copies in
        let made : s ≡ record {
          store = some store;
          conversation_id = id;
          messages = ms;
          in_flight = false;
        } =
          ground (arith, h, e, same) in
        rw made (record { uses = refl; same = laws.messages_ok db id ms e })
    | inr (f, e) ↦ absurd (ground (arith, h, e))
  ]

  save_turn-eq :
      (w : World W) (b : Bool) (k : ℕ) (u a : Message)
      → w.session.store ≡ some store
      → save_turn w b k u a ≡ (
          if b
          then store.replace_tail_and_append_turn w.db w.session.conversation_id k u a
          else store.append_turn w.db w.session.conversation_id u a)
  unfolding save_turn
  save_turn-eq w b k u a h = rw (h, save_turn, clone_message-eq u, clone_message-eq a)

  -- What the session's messages are behind a save that ended so.
  abbrev after_save : Option Error → World W → Bool → ℕ → Message → Message → List Message
  after_save none w b k u a = next_messages w.session.messages b k u a
  after_save (some e) w b k u a = w.session.messages

  save_turn-same :
      (w : World W) (b : Bool) (k : ℕ) (u a : Message) (db : W) (f : Option Error)
      → Agrees store content Storable w
      → IsUserMessage u
      → a.role ≡ assistant
      → Storable u
      → Storable a
      → save_turn w b k u a ≡ (db, f)
      → content db w.session.conversation_id ≡ ok (after_save f w b k u a)
  save_turn-same w true k u a db none h hu ha su sa e =
      rw (next_messages-eq w.session.messages true k u a) (
        laws.replace_ok w.db db w.session.conversation_id k w.session.messages u a hu ha su sa
          h.same (rw (save_turn-eq w true k u a h.uses) at e))
  save_turn-same w true k u a db (some x) h hu ha su sa e =
      laws.replace_err w.db db w.session.conversation_id k u a x
        (rw (save_turn-eq w true k u a h.uses) at e)
      ∙ h.same
  save_turn-same w false k u a db none h hu ha su sa e =
      rw (next_messages-eq w.session.messages false k u a) (
        laws.append_ok w.db db w.session.conversation_id w.session.messages u a hu ha su sa h.same
          (rw (save_turn-eq w false k u a h.uses) at e))
  save_turn-same w false k u a db (some x) h hu ha su sa e =
      laws.append_err w.db db w.session.conversation_id u a x
        (rw (save_turn-eq w false k u a h.uses) at e)
      ∙ h.same

  append_or_replace_tail-Agrees :
      (w : World W) (b : Bool) (k : ℕ) (u a : Message)
      → IsUserMessage u
      → a.role ≡ assistant
      → Storable u
      → Storable a
      → Agrees store content Storable w
      → Agrees store content Storable (append_or_replace_tail w b k u a).0
  unfolding append_or_replace_tail
  append_or_replace_tail-Agrees w b k u a hu ha su sa h =
      let (db, f) = save_turn w b k u a in
      elim (Option-cases f) [
        | inl e ↦
            rw (e, append_or_replace_tail)
              (record {
                uses = h.uses;
                same = rw e at (save_turn-same w b k u a db f h hu ha su sa refl);
              })
        | inr (x, e) ↦
            rw (e, append_or_replace_tail)
              (record {
                uses = h.uses;
                same = rw e at (save_turn-same w b k u a db f h hu ha su sa refl);
              })
      ]

  finalize-IsSound :
      (t : TurnStream) (w : World W) (b : Bool)
      → Storable (answer t)
      → IsSound store content Storable t w
      → let (t', w', _) = finalize t w b in IsSound store content Storable t' w'
  unfolding finalize
  finalize-IsSound t w b sa h = elim (Bool-cases (not t.completed && not b || t.finalized)) [
    | inl e ↦ rw (e, finalize) h
    | inr e ↦
        let (w', f) =
          append_or_replace_tail w t.replace_tail t.keep_messages t.user_message (answer t) in
        let kept =
          append_or_replace_tail-Agrees w t.replace_tail t.keep_messages t.user_message (answer t)
            h.prompt (unfold answer in refl) h.prompt_storable sa h.agrees in
        elim (Option-cases f) [
          | inl x ↦
              rw (e, x, finalize)
                (record {
                  agrees = kept;
                  prompt = rw (prompt-completion_time t) h.prompt;
                  prompt_storable = rw (prompt-completion_time t) h.prompt_storable;
                })
          | inr (y, x) ↦
              rw (e, x, finalize)
                (record {
                  agrees = kept;
                  prompt = rw (prompt-completion_time t) h.prompt;
                  prompt_storable = rw (prompt-completion_time t) h.prompt_storable;
                })
        ]
  ]

  abort-IsSound :
      (t : TurnStream) (w : World W)
      → IsSound store content Storable t w
      → let (t', w') = abort t w in IsSound store content Storable t' w'
  unfolding abort
  abort-IsSound t w h = ground arith

  record_outcome-IsSound :
      (o : Outcome) (t : TurnStream) (w : World W)
      → IsSound store content Storable t w
      → let (t', w') = record_outcome o t w in IsSound store content Storable t' w'
  unfolding record_outcome
  record_outcome-IsSound o t w h = ground arith

  record_error-IsSound :
      (e : Error) (t : TurnStream) (w : World W)
      → IsSound store content Storable t w
      → let (t', w') = record_error e t w in IsSound store content Storable t' w'
  unfolding record_error
  record_error-IsSound e t w h = record_outcome-IsSound (outcome_of e) t w h

  complete_turn-IsSound :
      (event : Event) (t : TurnStream) (w : World W)
      → Storable (answer (record t { completed = true }))
      → IsSound store content Storable t w
      → let (t', w', _, _) = complete_turn event t w in IsSound store content Storable t' w'
  unfolding complete_turn
  complete_turn-IsSound event t w sa h =
      let t₀ : TurnStream = record t { completed = true } in
      let (t₁, w₁, failure) = finalize t₀ w false in
      let h₁ =
        finalize-IsSound t₀ w false sa
          (record { agrees = h.agrees; prompt = h.prompt; prompt_storable = h.prompt_storable }) in
      elim (Option-cases failure) [
        | inl e ↦ rw (e, complete_turn) (record_outcome-IsSound Outcome.completed t₁ w₁ h₁)
        | inr (f, e) ↦
            rw (e, complete_turn)
              (let (t₂, w₂) = record_error f t₁ w₁ in
                abort-IsSound t₂ w₂ (record_error-IsSound f t₁ w₁ h₁))
      ]

  fail_turn-IsSound :
      (o : Option Error) (event : Event) (t : TurnStream) (w : World W)
      → IsSound store content Storable t w
      → let (t', w', _, _) = fail_turn o event t w in IsSound store content Storable t' w'
  unfolding fail_turn
  fail_turn-IsSound none event t w h = h
  fail_turn-IsSound (some e) event t w h =
      let (t₁, w₁) = record_outcome (Outcome.failed e) t w in
      abort-IsSound t₁ w₁ (record_outcome-IsSound (Outcome.failed e) t w h)

  take_event-IsSound :
      (y : EventType) (event : Event) (t : TurnStream) (w : World W)
      → Storable (answer (record t { completed = true }))
      → IsSound store content Storable t w
      → let (t', w', _, _) = take_event y event t w in IsSound store content Storable t' w'
  unfolding take_event
  take_event-IsSound EventType.completed event t w sa h = complete_turn-IsSound event t w sa h
  take_event-IsSound EventType.error event t w sa h = fail_turn-IsSound event.err event t w h
  take_event-IsSound _ event t w sa h = record {
    agrees = h.agrees;
    prompt = h.prompt;
    prompt_storable = h.prompt_storable;
  }

  read_stream-IsSound :
      (t : TurnStream) (w : World W)
      → IsSound store content Storable t w
      → IsSound store content Storable (read_stream t).0 w
  unfolding read_stream
  read_stream-IsSound t w h = ground arith

  -- A call of Next leaves the conversation in memory equal to the stored one where they were equal
  -- before, whatever the stream returns and whether the store takes the turn or refuses it, for
  -- every store that keeps its promises, if the prompt and the answer can be stored.
  pub next-IsSound :
      (t : TurnStream) (w : World W)
      → Storable (answer (record t { completed = true }))
      → IsSound store content Storable t w
      → let (t', w', _, _) = next t w in IsSound store content Storable t' w'
  unfolding next
  next-IsSound t w sa h =
      let (t₁, read) = read_stream t in
      let h₁ = read_stream-IsSound t w h in
      elim (Result-cases read) [
        | inl (event, e) ↦
            rw (e, next)
              (take_event-IsSound event.type event t₁ w (rw (answer-read_stream t) sa) h₁)
        | inr (f, e) ↦ rw (e, next) (failed_read f t₁ (record_error-IsSound f t₁ w h₁))
      ]
    where
      failed_read :
          (f : Error) (t₁ : TurnStream)
          → (let (t₂, w₂) = record_error f t₁ w in IsSound store content Storable t₂ w₂)
          → let (t₂, w₂) = record_error f t₁ w in
            let (t₃, w₃) = if is_canceled f then (t₂, w₂) else abort t₂ w₂ in
            IsSound store content Storable t₃ w₃
      failed_read f t₁ h₂ = elim (Bool-cases (is_canceled f)) [
        | inl e ↦ rw e h₂
        | inr e ↦ rw e (let (t₂, w₂) = record_error f t₁ w in abort-IsSound t₂ w₂ h₂)
      ]

  pub commit_partial-IsSound :
      (t : TurnStream) (w : World W)
      → Storable (answer t)
      → IsSound store content Storable t w
      → let (t', w', _) = commit_partial t w in IsSound store content Storable t' w'
  unfolding commit_partial
  commit_partial-IsSound t w sa h = finalize-IsSound t w true sa h

  pub close-IsSound :
      (t : TurnStream) (w : World W)
      → IsSound store content Storable t w
      → let (t', w', _) = close t w in IsSound store content Storable t' w'
  unfolding close
  close-IsSound t w h = elim (Bool-cases (not t.completed)) [
    | inl e ↦
        let (t₁, w₁) = record_outcome Outcome.cancelled t w in
        simp e (abort-IsSound t₁ w₁ (record_outcome-IsSound Outcome.cancelled t w h))
    | inr e ↦ simp e (abort-IsSound t w h)
  ]

  -- CommitStopped keeps the conversation in memory and the one in the store the same, whether the
  -- store takes the turn or refuses it, for every store that keeps its promises, if the prompt and
  -- an empty answer can be stored.
  pub commit_stopped-Agrees :
      (w : World W) (prompt : Bytes) (opts : SendOptions)
      → Storable (new_text_message user (trim_space prompt))
      → Storable (record { role = assistant; parts = []; completed_at = 0 })
      → Agrees store content Storable w
      → Agrees store content Storable (commit_stopped w prompt opts).0
  unfolding commit_stopped
  commit_stopped-Agrees w prompt opts su sa h =
      let said = new_text_message user (trim_space prompt) in
      let from = opts.replace_from in
      elim (Bool-cases (is_empty (trim_space prompt))) [
        | inl e ↦ simp e h
        | inr e ↦ simp e (elim (Result-cases (replace_from_index w.session.messages from)) [
          | inl (k, i) ↦ rw i (
              append_or_replace_tail-Agrees w (replaces from) k said
                (record { role = assistant; parts = []; completed_at = 0 })
                (unfold new_text_message in (refl, refl)) refl su sa h)
          | inr (f, i) ↦ rw i h
        ])
      ]
