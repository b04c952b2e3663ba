-- ===== src/OpenResponses/RoundTrip.antt =====
-- internal/llm/openresponses: what a provider writes is what the client reads.
use pyttechat.Base.{
  ℕ, zero, suc, ◌<◌, ◌≤◌, Bool, true, false, none, some, List, [], ◌∷◌, ◌++◌, length, ℤ, Bytes, ◌≡◌,
  refl, ap, ◌∙◌, arith, All, if◌then◌else◌, append_assoc, map,
}
use pyttechat.Errors.{eof, Result, ok, err}
use pyttechat.Text.{eq_bytes}
use pyttechat.Text.Laws.{codes}
use pyttechat.Llm.{Event}
use pyttechat.OpenResponses.Json.{Map}
use pyttechat.OpenResponses.Stream.{
  ResponseStream, at_blank, map_payload, record_payload, dispatch_raw, finish, next,
}
use pyttechat.OpenResponses.Mapping.{Answer, ends_stream, payload_kind, payload_answer}
use pyttechat.OpenResponses.Frames.{IsPlain, kind_quiet, next-data, next-frame}
use pyttechat.OpenResponses.Provider.{StreamEvent, write_sse_event, write_events}

-- What the client relies on of an event and of encoding/json: the payload is read back from its text,
-- which is not that of the last event, and neither that text nor the type has a control character.
pub record Carries (marshal : Map → Bytes) (unmarshal : Bytes → Result Map) (event : StreamEvent)
    : Type 0 where
  pub named : All IsPlain event.type
  pub plain : All IsPlain (marshal event.payload)
  pub not_done : eq_bytes (marshal event.payload) (codes "[DONE]") ≡ false
  pub read_back : unmarshal (marshal event.payload) ≡ ok event.payload

write_sse_event-append :
    (marshal : Map → Bytes) (event : StreamEvent) (more : Bytes)
    → write_sse_event marshal event ++ more
      ≡ (codes "event: " ++ event.type)
        ++ (10 ∷ ((codes "data: " ++ marshal event.payload) ++ (10 ∷ 10 ∷ more)))
unfolding write_sse_event
write_sse_event-append marshal event more = simp append_assoc

-- What follows an event.
abbrev answer_then :
    (List Bytes → List (Result Event)) → Bool → List Bytes × Answer → List (Result Event)
answer_then later ends (seen, err e) = err e ∷ []
answer_then later ends (seen, ok none) = later seen
answer_then later ends (seen, ok (some event)) =
    ok event ∷ (if ends then err eof ∷ [] else later seen)

module _ (decimal : ℤ → Bytes) where
  -- What mapPayload makes of one payload after the other, up to the first error or the completed event.
  unfoldable pub answers : List Map → List Bytes → List (Result Event)
  answers [] seen = err eof ∷ []
  answers (payload ∷ payloads) seen =
      answer_then (answers payloads) (ends_stream (payload_kind payload))
        (payload_answer decimal payload seen)

  module _ (unmarshal : Bytes → Result Map) where
    abbrev follow :
        (ResponseStream → List (Result Event)) → ResponseStream × Result Event → List (Result Event)
    follow again (s, ok event) = ok event ∷ again s
    follow again (s, err e) = err e ∷ []

    -- What the first calls of Next return, up to the first error.
    unfoldable pub reads : ℕ → ResponseStream → List (Result Event)
    reads zero s = []
    reads (suc n) s = follow (reads n) (next decimal unmarshal s)

    reads_answer :
        (n : ℕ) (s : ResponseStream) (later : List Bytes → List (Result Event)) (ends : Bool)
        (q : List Bytes × Answer)
        → (q.1 ≡ ok none → ends ≡ false)
        → 0 < n
        → ((k : ℕ) (seen : List Bytes)
            → n ≤ k
            → reads k (record s { text_seen = seen }) ≡ later seen)
        → let s' = record s { text_seen = q.0 } in
          follow (reads n) (
            at_blank decimal unmarshal
              (next decimal unmarshal)
              ((if ends then finish none (record s' { done = true }) else s'), q.1))
          ≡ answer_then later ends q
    unfolding reads next finish
    reads_answer n s later ends (seen, err e) quiet h again = refl
    reads_answer n s later true (seen, ok none) quiet h again = absurd (ground (arith, quiet refl))
    reads_answer n s later false (seen, ok none) quiet h again = again (suc n) seen (omega arith)
    reads_answer zero s later true (seen, ok (some event)) quiet h again = absurd (omega (arith, h))
    reads_answer (suc n) s later true (seen, ok (some event)) quiet h again = refl
    reads_answer n s later false (seen, ok (some event)) quiet h again =
        ap (λ r. ok event ∷ r) (again n seen (omega arith))

    module _ (marshal : Map → Bytes) where
      -- The client reads from a stream of server-sent events what mapPayload makes of the payloads.
      pub reads-write_events :
          (events : List StreamEvent) (n : ℕ) (s : ResponseStream)
          → All (Carries marshal unmarshal) events
          → length events < n
          → s.done ≡ false
          → s.data_lines ≡ []
          → s.rest ≡ write_events marshal events
          → reads n s ≡ answers (map (λ e. e.payload) events) s.text_seen
      unfolding reads answers write_events dispatch_raw map_payload record_payload
      reads-write_events events zero s carries h open_ empty e = absurd (omega (arith, h))
      reads-write_events [] (suc n) s carries h open_ empty e = ap (follow (reads n)) (
          next-data decimal unmarshal s (codes "[DONE]") []
            (refl, (refl, (refl, (refl, (refl, (refl, tt)))))) open_ empty e)
      reads-write_events (event ∷ events) (suc n) s carries h open_ empty e =
          let raw = marshal event.payload in
          let more = write_events marshal events in
          let s₁ = record_payload event.payload (record s { rest = more; data_lines = [] }) in
          let read =
            next-frame decimal unmarshal s event.type raw more event.payload carries.0.named
              carries.0.plain carries.0.not_done carries.0.read_back open_ empty
              (e ∙ write_sse_event-append marshal event more) in
          ap (follow (reads n)) read
          ∙ reads_answer n s₁ (answers (map (λ e. e.payload) events))
              (ends_stream (payload_kind event.payload))
              (payload_answer decimal event.payload s.text_seen)
              (kind_quiet decimal unmarshal (payload_kind event.payload) event.payload s.text_seen)
              (omega arith)
              (λ k seen few.
                reads-write_events events k (record s₁ { text_seen = seen }) carries.1 (omega arith)
                  open_ refl refl)
