-- ===== src/Web/Run/Mirror.antt =====
-- The parts that a turn shows are the parts that it commits: run and TurnStream gather them apart.
use pyttechat.Base.{
  ℕ, zero, suc, true, false, List, [], ◌∷◌, map, none, some, pos, negsuc, Bytes, length, ◌≡◌, refl,
  sym, ap, arith, inl, inr, Option-cases, Bool-cases,
}
use pyttechat.Errors.{Error, Result, ok, Result-cases}
use pyttechat.Llm.{
  Part, PartType, text, reasoning, summary, Event, EventType, text_delta, reasoning_delta,
  output_item_done, is_assistant,
}
use pyttechat.Llm.Laws.{clone_parts-eq}
use pyttechat.Chat.Parts.{append_delta}
use pyttechat.Chat.Session.{World, next_messages}
use pyttechat.Chat.Turn.{
  TurnStream, next, read_stream, take_event, complete_turn, fail_turn, finalize, abort,
  record_outcome, record_error, commit_partial, answer, completion_time,
}
use pyttechat.Chat.Turn.Commit.{next-completed}
use pyttechat.Web.Job.{ViewStatus, Job, done_event, done, emit_terminal}
use mathlib.Core.List.{map-append}
use pyttechat.Web.View.{
  Formats, Renderer, status_of, part_statuses, statuses_from, assistant_statuses, status_content_id,
}
use pyttechat.Web.View.Pages.{render_assistant_body, body_or, view_message}
use pyttechat.Web.Run.{
  visits, Shown, Setting, done_payload, time_of, show_event, end_with, run_loop, run_stream,
  nothing_shown,
}
use pyttechat.Web.Run.Parts.{append_output_delta-eq, merge_completed_output_part-eq}

module _ (g : Setting) {W : Type 0} where
  -- After an event that is no error both have gathered the same parts.
  show_event-parts :
      (y : EventType) (event : Event) (t : TurnStream) (s : Shown) (w : World W) (j : Job)
      → s.parts ≡ t.assistant_parts
      → let (t', w', event', failure) = take_event y event t w in
        failure ≡ none
        → (event' ≡ event) × ((show_event g y event t' s j).0.parts ≡ t'.assistant_parts)
  unfolding take_event show_event append_delta complete_turn fail_turn finalize completion_time
      record_outcome
  show_event-parts text_delta event t s w j h f =
      ground (arith, append_output_delta-eq s.parts text event.delta)
  show_event-parts reasoning_delta event t s w j h f =
      ground (arith, append_output_delta-eq s.parts reasoning event.delta)
  show_event-parts output_item_done event t s w j h f =
      ground (arith, merge_completed_output_part-eq s.parts event.part)
  show_event-parts _ event t s w j h f = ground arith

  next-parts :
      (t : TurnStream) (s : Shown) (w : World W) (j : Job)
      → s.parts ≡ t.assistant_parts
      → let (t', w', event, failure) = next t w in
        failure ≡ none → (show_event g event.type event t' s j).0.parts ≡ t'.assistant_parts
  unfolding next read_stream
  next-parts t s w j h = elim (Result-cases (read_stream t).1) [
    | inl (event, e) ↦ ground (arith, show_event-parts event.type event (read_stream t).0 s w j)
    | inr (f, e) ↦ ground arith
  ]

  end_with-parts :
      (e : Error) (t : TurnStream) (w : World W) (j : Job)
      → (end_with g e t w j).0.assistant_parts ≡ t.assistant_parts
  unfolding end_with commit_partial finalize completion_time
  end_with-parts e t w j = ground arith

  -- Next keeps the parts where it returns an error.
  next-parts_failed :
      (t : TurnStream) (w : World W) (e : Error)
      → let (t', w', event, failure) = next t w in
        failure ≡ some e → t'.assistant_parts ≡ t.assistant_parts
  unfolding next read_stream take_event complete_turn fail_turn finalize completion_time
      record_outcome record_error abort
  next-parts_failed t w e h = ground arith

  run_loop-parts :
      (n : ℕ) (t : TurnStream) (s : Shown) (w : World W) (j : Job)
      → s.parts ≡ t.assistant_parts
      → let (t', s', w', j') = run_loop g n t s w j in s'.parts ≡ t'.assistant_parts
  unfolding run_loop
  run_loop-parts zero t s w j h = h
  run_loop-parts (suc n) t s w j h =
      let j₁ = visits (g.others n) j in
      let (t₁, w₁, event, failure) = next t w in
      elim (Option-cases failure) [
        | inr (e, failed) ↦
            rw (failed, run_loop, end_with-parts e t₁ w₁ j₁, next-parts_failed t w e failed) h
        | inl fine ↦
            let (s₂, j₂, returns) = show_event g event.type event t₁ s j₁ in
            let same = next-parts t s w j₁ h fine in
            elim (Bool-cases returns) [
              | inl e ↦ rw (fine, run_loop, e) same
              | inr e ↦ rw (fine, run_loop, e) (run_loop-parts n t₁ s₂ w₁ j₂ same)
            ]
      ]

-- The same status without its place on a page.
abbrev pub unplaced : ViewStatus → ViewStatus
unplaced s = record s { content_id = [] }

module _ (f : Formats) where
  status_of-unplaced :
      (kind : Bytes) (i j : ℕ) (shown : Bytes)
      → status_of f kind (negsuc 0) j shown ≡ map unplaced (status_of f kind (pos i) j shown)
  unfolding status_of status_content_id
  status_of-unplaced kind i j [] = refl
  status_of-unplaced kind i j (c ∷ cs) = refl

  part_statuses-unplaced :
      (i j : ℕ) (y : PartType) (part : Part)
      → part_statuses f (negsuc 0) j y part ≡ map unplaced (part_statuses f (pos i) j y part)
  unfolding part_statuses
  part_statuses-unplaced i j reasoning part = status_of-unplaced _ i j _
  part_statuses-unplaced i j summary part = status_of-unplaced _ i j _
  part_statuses-unplaced i j _ part = refl

  statuses_from-unplaced :
      (i j : ℕ) (ps : List Part)
      → statuses_from f (negsuc 0) j ps ≡ map unplaced (statuses_from f (pos i) j ps)
  unfolding statuses_from
  statuses_from-unplaced i j [] = refl
  statuses_from-unplaced i j (p ∷ ps) = rw (
    part_statuses-unplaced i j p.type p,
    statuses_from-unplaced i (suc j) ps,
    map-append unplaced (part_statuses f (pos i) j p.type p) (statuses_from f (pos i) (suc j) ps),
  )

  -- The view of an answer has the statuses and the HTML of its parts.
  view_message-answer :
      (render : Renderer) (i : ℕ) (t : TurnStream) (html : Bytes)
      → render_assistant_body f render t.assistant_parts ≡ ok html
      → let page = view_message f render i (answer t) in
        (page.html ≡ html) × (page.statuses ≡ assistant_statuses f t.assistant_parts (pos i))
  unfolding view_message answer is_assistant
  view_message-answer render i t html h =
      rw (clone_parts-eq t.assistant_parts, h, body_or) (refl, refl)

-- The payload of `done` for the parts gathered.
done_payload-eq :
    (g : Setting) (i : ℕ) (event : Event) (t : TurnStream) (s : Shown) (parts : List Part)
    (html : Bytes)
    → s.parts ≡ parts
    → render_assistant_body g.formats g.render parts ≡ ok html
    → done_payload g event t s
      ≡ done_event event.response_id event.usage html
          (map unplaced (assistant_statuses g.formats parts (pos i)))
          (time_of g t)
unfolding done_payload assistant_statuses
done_payload-eq g i event t s parts html h shown =
    rw (h, shown, body_or, statuses_from-unplaced g.formats i 0 parts)

module _ (g : Setting) {W : Type 0} where
  -- A turn that completes, where the parts shown are those gathered, the store takes the turn and
  -- the renderer does not fail: the loop commits the answer to the conversation, and the event
  -- `done` that it sends carries what a page that shows the stored answer will show, at whatever
  -- index: the same HTML and the same statuses, which only lack their ids on that page.
  pub done_shows_page :
      (n i : ℕ) (t : TurnStream) (s : Shown) (w : World W) (j : Job) (event : Event)
      (rest : List (Result Event)) (html : Bytes)
      → s.parts ≡ t.assistant_parts
      → t.stream.reads ≡ ok event ∷ rest
      → event.type ≡ EventType.completed
      → t.finalized ≡ false
      → (next t w).3 ≡ none
      → render_assistant_body g.formats g.render t.assistant_parts ≡ ok html
      → let (t', _, w', j') = run_loop g (suc n) t s w j in
        let m = answer (record t { completed = true }) in
        let page = view_message g.formats g.render i m in
        (w'.session.messages
          ≡ next_messages w.session.messages t.replace_tail t.keep_messages t.user_message m)
        × (j'
            ≡ emit_terminal g.marshal done
                (done_event event.response_id event.usage page.html
                  (map unplaced page.statuses)
                  (time_of g t'))
                (visits (g.others n) j))
  unfolding run_loop show_event done_payload assistant_statuses
  done_shows_page n i t s w j event rest html h r y live fine shown =
      let (_, _, same_event, commits) = next-completed t w event rest r y live in
      let (page_html, page_statuses) =
        view_message-answer g.formats g.render i (record t { completed = true }) html shown in
      rw (fine, run_loop, same_event, y, show_event, page_html, page_statuses)
        (
          ground (arith, commits),
          rw (same_event, y, show_event)
              (ap (λ p. emit_terminal g.marshal done p (visits (g.others n) j))
                (done_payload-eq g i event (next t w).0 s t.assistant_parts html h shown)),
        )

-- Whatever a stream sends, the parts from which `run` draws the answer are, at every end of its
-- loop, the parts that the turn has gathered to commit, if the turn starts with none.
pub run_stream-parts :
    {W : Type 0} (g : Setting) (t : TurnStream) (w : World W) (j : Job)
    → t.assistant_parts ≡ []
    → let (t', s', _, _) = run_stream g t w j in s'.parts ≡ t'.assistant_parts
unfolding run_stream
run_stream-parts g t w j h =
    run_loop-parts g (suc (length t.stream.reads)) t nothing_shown w j (sym h)
