-- ===== src/Web/Run.antt =====
-- internal/web/server.go: turnJob.run, one turn from Send to its end, with what other goroutines do
-- to the job between its steps. Its fuel is one more than the number of reads that the stream holds.
pub mod Parts
pub mod Mirror
pub mod Ends
pub mod Over
pub mod Release
pub mod Stop
use pyttechat.Base.{
  ℕ, zero, suc, ◌+◌, Bool, true, false, ◌&&◌, ◌||◌, not, List, [], ◌∷◌, ◌++◌, Option, none, some, ℤ,
  pos, negsuc, Bytes, ◌==◌, if◌then◌else◌, length,
}
use pyttechat.Errors.{Error, unexpected_eof, is_canceled, is_eof, Result, ok, err}
use pyttechat.Text.{is_empty, has_prefix}
use pyttechat.Text.Laws.{codes}
use pyttechat.Llm.{
  Part, PartType, unset, text, reasoning, clone_part, Event, EventType, text_delta, reasoning_delta,
  output_item_done, other_event, same_type, text_part,
}
use pyttechat.Chat.Session.{Client, World, SendOptions, commit_stopped}
use pyttechat.Chat.Turn.{TurnStream, send, next, commit_partial, close}
use pyttechat.Web.Job.{
  Payload, html_event, delta_event, done_event, aborted_event, error_event, EventName, preview,
  reasoning, done, aborted, stream_error, Job, emit, emit_terminal, subscribe, unsubscribe, receive,
  abort, finish,
}
use pyttechat.Web.View.{Renderer, Formats, assistant_statuses, escaped_plain_text_html}
use pyttechat.Web.View.Pages.{body_or}

-- The last part shown takes the delta if it has its type; else a new part does.
unfoldable pub extend_output : PartType → Bytes → List Part → List Part
extend_output t delta [] = text_part t delta ∷ []
extend_output t delta (p ∷ []) = elim (same_type p.type t) [
  | true ↦ record p { text = p.text ++ delta } ∷ []
  | false ↦ p ∷ text_part t delta ∷ []
]
extend_output t delta (p ∷ q ∷ ps) = p ∷ extend_output t delta (q ∷ ps)

-- appendOutputDelta
unfoldable pub append_output_delta : List Part → PartType → Bytes → List Part
unfolding extend_output
append_output_delta parts t delta = if is_empty delta then parts else extend_output t delta parts

-- len(part.Summary) > 0
abbrev pub has_summary : List Bytes → Bool
has_summary [] = false
has_summary (s ∷ ss) = true

-- What mergeCompletedOutputPart writes over a reasoning part that is shown.
unfoldable pub overwrite_output : Part → Part → Part
overwrite_output part shown = record shown {
  text = if is_empty part.text then shown.text else part.text;
  id = if is_empty part.id then shown.id else part.id;
  summary = if has_summary part.summary then part.summary else shown.summary;
  encrypted_content =
      if is_empty part.encrypted_content then shown.encrypted_content else part.encrypted_content;
}

-- Its loop from the last part down to the first; `none` where no part is reasoning.
unfoldable pub overwrite_last_reasoning : Part → List Part → Option (List Part)
unfolding overwrite_output
overwrite_last_reasoning part [] = none
overwrite_last_reasoning part (p ∷ ps) = elim (overwrite_last_reasoning part ps) [
  | some ps' ↦ some (p ∷ ps')
  | none ↦ if same_type p.type PartType.reasoning then some (overwrite_output part p ∷ ps) else none
]

-- Its test on the last part, and what it writes there; `none` where the part is to be added.
unfoldable pub overwrite_last_text : Part → List Part → Option (List Part)
overwrite_last_text part [] = none
overwrite_last_text part (p ∷ []) =
    if (same_type p.type PartType.text && not (is_empty part.text)) && has_prefix part.text p.text
    then some (record p { text = part.text } ∷ [])
    else none
overwrite_last_text part (p ∷ q ∷ ps) = elim (overwrite_last_text part (q ∷ ps)) [
  | none ↦ none
  | some rest ↦ some (p ∷ rest)
]

-- if no return has come before: *parts = append(*parts, part.Clone())
abbrev pub or_add_output : Part → List Part → Option (List Part) → List Part
or_add_output part parts (some parts') = parts'
or_add_output part parts none = parts ++ clone_part part ∷ []

-- mergeCompletedOutputPart, by the type of the part
unfoldable pub merge_output_as : PartType → List Part → Part → List Part
merge_output_as unset parts part = parts
merge_output_as PartType.reasoning parts part =
    or_add_output part parts (overwrite_last_reasoning part parts)
merge_output_as PartType.text parts part = or_add_output part parts (overwrite_last_text part parts)
merge_output_as _ parts part = parts ++ clone_part part ∷ []

unfoldable pub merge_completed_output_part : List Part → Part → List Part
merge_completed_output_part parts part = merge_output_as part.type parts part

-- What the handlers of other requests do to the job while the turn runs.
pub data Visit : Type 0 where
  subscribes unsubscribes receives : ℕ → Visit
  aborts : Visit

unfoldable pub visit : Visit → Job → Job
visit (subscribes last) j = (subscribe last j).0
visit (unsubscribes i) j = unsubscribe i j
visit (receives i) j = receive i j
visit aborts j = (abort j).0

unfoldable pub visits : List Visit → Job → Job
visits [] j = j
visits (v ∷ vs) j = visits vs (visit v j)

-- turnJob.shouldAbort
unfoldable pub should_abort : Error → Job → Bool
should_abort e j = j.abort_requested || is_canceled e

-- What `run` keeps of the answer: assistantParts and fullMarkdown.
pub record Shown : Type 0 where
  pub parts : List Part
  pub full_markdown : Bytes

abbrev nothing_shown : Shown
nothing_shown = record { parts = []; full_markdown = [] }

-- What runs while the turn does: the encoder of JSON, the formats and the renderer of the page, the
-- clock, the visits before the step with a number, and those between the two checks of an error.
pub record Setting : Type 0 where
  pub marshal : Payload → Option Bytes
  pub formats : Formats
  pub render : Renderer
  pub clock : ℕ
  pub others : ℕ → List Visit
  pub late : List Visit

module _ (g : Setting) where
  -- turnJob.emitAborted
  unfoldable pub emit_aborted : Job → Job
  emit_aborted j = emit_terminal g.marshal aborted aborted_event j

  -- turnJob.emitStreamError
  unfoldable pub emit_stream_error : Job → Job
  emit_stream_error j =
      emit_terminal g.marshal stream_error (error_event (codes "The response stream failed.")) j

  -- turnJob.emitError
  unfoldable pub emit_error : Error → Job → Job
  emit_error e j = if should_abort e j then emit_aborted j else emit_stream_error j

  -- The end of turnJob.emitAbortedAfterCommit.
  unfoldable pub emit_after_commit : Option Error → Job → Job
  emit_after_commit (some e) j = emit_stream_error j
  emit_after_commit none j = emit_aborted j

  -- The preview of the text so far, or that text escaped where the renderer fails.
  unfoldable pub preview_html : Bytes → Bytes
  preview_html markdown = elim (g.render markdown) [
    | ok html ↦ html
    | err e ↦ escaped_plain_text_html g.formats markdown
  ]

  -- completedAt, or the clock where the stream has no time
  abbrev pub time_of : TurnStream → ℕ
  time_of t = if t.completed_at == 0 then g.clock else t.completed_at

  -- The answer as the event `done` carries it.
  unfoldable pub done_payload : Event → TurnStream → Shown → Payload
  done_payload event t s =
      done_event event.response_id event.usage (body_or g.formats g.render s.full_markdown s.parts)
        (assistant_statuses g.formats s.parts (negsuc 0)) (time_of t)

  -- The switch of turnJob.run on an event that Next returned without an error; true: run returns.
  unfoldable pub show_event : EventType → Event → TurnStream → Shown → Job → Shown × Job × Bool
  show_event text_delta event t s j =
      if is_empty event.delta
      then (s, j, false)
      else (let s' : Shown = record {
        parts = append_output_delta s.parts PartType.text event.delta;
        full_markdown = s.full_markdown ++ event.delta;
      } in
          (s', emit g.marshal preview (html_event (preview_html s'.full_markdown)) j, false))
  show_event reasoning_delta event t s j = (
    record s { parts = append_output_delta s.parts PartType.reasoning event.delta },
    emit g.marshal EventName.reasoning (delta_event event.delta) j,
    false,
  )
  show_event output_item_done event t s j =
      (record s { parts = merge_completed_output_part s.parts event.part }, j, false)
  show_event EventType.completed event t s j =
      (s, emit_terminal g.marshal done (done_payload event t s) j, true)
  show_event EventType.error event t s j = (s, j, false)
  show_event other_event event t s j = (s, j, false)

  module _ {W : Type 0} where
    -- What turnJob.run does with an error of Next, after which it returns.
    unfoldable pub end_with : Error → TurnStream → World W → Job → TurnStream × World W × Job
    end_with e t w j =
        if (if is_eof e then j.abort_requested else should_abort e j)
        then (let (t', w', failure) = commit_partial t w in (t', w', emit_after_commit failure j))
        else (t, w, emit_error (if is_eof e then unexpected_eof else e) (visits g.late j))

    -- The loop of turnJob.run.
    unfoldable pub run_loop :
        ℕ → TurnStream → Shown → World W → Job → TurnStream × Shown × World W × Job
    run_loop zero t s w j = (t, s, w, j)
    run_loop (suc n) t s w j =
        let j₁ = visits (g.others n) j in
        let (t₁, w₁, event, failure) = next t w in
        elim failure [
          | some e ↦ let (t₂, w₂, j₂) = end_with e t₁ w₁ j₁ in (t₂, s, w₂, j₂)
          | none ↦
              let (s₂, j₂, returns) = show_event event.type event t₁ s j₁ in
              elim returns [ true ↦ (t₁, s₂, w₁, j₂) | false ↦ run_loop n t₁ s₂ w₁ j₂ ]
        ]

    -- turnJob.run with a stream from Send, up to the deferred calls.
    unfoldable pub run_stream : TurnStream → World W → Job → TurnStream × Shown × World W × Job
    run_stream t w j = run_loop (suc (length t.stream.reads)) t nothing_shown w j

    -- turnJob.run with an error from Send.
    unfoldable pub refuse : Error → Bytes → SendOptions → World W → Job → World W × Job
    refuse e prompt opts w j =
        if should_abort e j
        then (let (w', failure) = commit_stopped w prompt opts in (w', emit_after_commit failure j))
        else (w, emit_error e (visits g.late j))

    -- turnJob.run; the stream is closed, then the job is finished.
    unfoldable pub run : World W → Client → Bytes → SendOptions → Job → World W × Job
    run w client prompt opts j =
        let (w₁, r) = send w client prompt opts in
        elim r [
          | err e ↦
              let (w₂, j₂) = refuse e prompt opts w₁ (visits (g.others 0) j) in (w₂, finish j₂)
          | ok t ↦
              let (t₂, _, w₂, j₂) = run_stream t w₁ j in
              let (_, w₃, _) = close t₂ w₂ in (w₃, finish j₂)
        ]
