-- ===== src/OpenResponses/Frames.antt =====
-- internal/llm/openresponses/client.go: the frames of server-sent events, as a provider writes them
-- (writeSSEEvent and writeSSEDone of fakeprovider/provider.go) and as Next reads them.
use pyttechat.Base.{
  ℕ, suc, ◌<◌, true, false, none, some, List, [], ◌∷◌, ◌++◌, leb, length, length-append, ℤ, Bytes,
  Bool-cases, List-cases, ◌≡◌, refl, ap, sym, ◌∙◌, inl, inr, arith, All,
}
use pyttechat.Errors.{Result, ok, err, Result-cases}
use pyttechat.Text.{cut_byte, join, eq_bytes}
use pyttechat.Text.Laws.{codes}
use pyttechat.OpenResponses.Json.{Map}
use pyttechat.OpenResponses.Stream.{
  ResponseStream, trim_cr, read_line, take_line, dispatch, dispatch_raw, map_payload,
  record_payload, at_blank, turn, next_loop, next,
}
use pyttechat.OpenResponses.Mapping.{
  Answer, Kind, text_delta, text_done, reasoning_delta, item_done, response_completed, failed,
  ignored, kind_answer, ends_stream, payload_kind, payload_answer,
}
use pyttechat.OpenResponses.Fuel.{next_loop-enough, dispatch-rest, take_line-rest}

abbrev pub IsPlain : ℕ → Type 0
IsPlain c = leb 32 c ≡ true

cut_byte-line :
    (line more : Bytes) → All IsPlain line → cut_byte 10 (line ++ 10 ∷ more) ≡ some (line, more)
unfolding cut_byte
cut_byte-line [] more h = ground arith
cut_byte-line (c ∷ cs) more h = ground (arith, h.0, cut_byte-line cs more h.1)

trim_cr-line : (line : Bytes) → All IsPlain line → trim_cr line ≡ line
unfolding trim_cr
trim_cr-line [] h = refl
trim_cr-line (c ∷ []) h = ground (arith, h.0)
trim_cr-line (c ∷ d ∷ s) h = ap (λ t. c ∷ t) (trim_cr-line (d ∷ s) h.1)

read_line-line :
    (s : ResponseStream) (line more : Bytes)
    → All IsPlain line
    → s.rest ≡ line ++ 10 ∷ more
    → read_line s ≡ (record s { rest = more }, ok line)
unfolding read_line
read_line-line s line more h e = rw (e, cut_byte-line line more h, trim_cr-line line h, read_line)

take_line-done : (line : Bytes) (s : ResponseStream) → (take_line line s).done ≡ s.done
unfolding take_line
take_line-done line s = ground arith

module _ (decimal : ℤ → Bytes) (unmarshal : Bytes → Result Map) where
  next_unfold :
      (n : ℕ) (s : ResponseStream)
      → s.done ≡ false
      → length s.rest < n
      → next decimal unmarshal s ≡ next_loop decimal unmarshal n s
  unfolding next
  next_unfold n s open_ h =
      let enough = next_loop-enough decimal unmarshal (suc (length s.rest)) n s (omega arith) h in
      ground (arith, enough)

  -- A line that is not empty is one turn of the loop.
  next_line :
      (s : ResponseStream) (c : ℕ) (line more : Bytes)
      → All IsPlain (c ∷ line)
      → s.done ≡ false
      → s.rest ≡ (c ∷ line) ++ 10 ∷ more
      → next decimal unmarshal s
        ≡ next decimal unmarshal (take_line (c ∷ line) (record s { rest = more }))
  unfolding next_loop
  next_line s c line more plain open_ e =
      let s' = take_line (c ∷ line) (record s { rest = more }) in
      let kept = take_line-rest (c ∷ line) (record s { rest = more }) in
      let shorter : length s'.rest < length s.rest =
        rw (kept) (ground (arith, ap length e, length-append line (10 ∷ more))) in
      let fresh : s'.done ≡ false = take_line-done (c ∷ line) (record s { rest = more }) ∙ open_ in
      let turned : next_loop decimal unmarshal (suc (length s.rest)) s
          ≡ next_loop decimal unmarshal (length s.rest) s' =
        ap (turn decimal unmarshal (next_loop decimal unmarshal (length s.rest)))
          (read_line-line s (c ∷ line) more plain e) in
      next_unfold (suc (length s.rest)) s open_ (omega arith)
      ∙ (turned ∙ sym (next_unfold (length s.rest) s' fresh shorter))

  blank_again :
      (n : ℕ) (p : ResponseStream × Answer)
      → length p.0.rest < n
      → (p.1 ≡ ok none → p.0.done ≡ false)
      → at_blank decimal unmarshal (next_loop decimal unmarshal n) p
        ≡ at_blank decimal unmarshal (next decimal unmarshal) p
  blank_again n (s, err e) h open_ = refl
  blank_again n (s, ok (some event)) h open_ = refl
  blank_again n (s, ok none) h open_ = sym (next_unfold n s (open_ refl) h)

  pub kind_quiet :
      (k : Kind) (payload : Map) (seen : List Bytes)
      → (kind_answer decimal k payload seen).1 ≡ ok none
      → ends_stream k ≡ false
  kind_quiet response_completed payload seen h = absurd (ground (arith, h))
  kind_quiet text_delta payload seen h = refl
  kind_quiet text_done payload seen h = refl
  kind_quiet reasoning_delta payload seen h = refl
  kind_quiet item_done payload seen h = refl
  kind_quiet failed payload seen h = refl
  kind_quiet ignored payload seen h = refl

  -- An event that shows nothing does not end the stream.
  map_payload-quiet :
      (payload : Map) (s : ResponseStream)
      → (map_payload decimal payload s).1 ≡ ok none
      → (map_payload decimal payload s).0.done ≡ s.done
  unfolding map_payload payload_answer
  map_payload-quiet payload s h = rw (kind_quiet (payload_kind payload) payload s.text_seen h)

  dispatch_raw-payload :
      (raw : Bytes) (payload : Map) (s : ResponseStream)
      → eq_bytes raw (codes "[DONE]") ≡ false
      → unmarshal raw ≡ ok payload
      → dispatch_raw decimal unmarshal raw s
        ≡ map_payload decimal payload (record_payload payload s)
  unfolding dispatch_raw
  dispatch_raw-payload raw payload s e e' = rw (dispatch_raw, e, e')

  dispatch-data :
      (s : ResponseStream) (d : Bytes) (ds : List Bytes)
      → s.data_lines ≡ d ∷ ds
      → dispatch decimal unmarshal s
        ≡ dispatch_raw decimal unmarshal (join (d ∷ ds) (codes "\n")) (record s { data_lines = [] })
  unfolding dispatch
  dispatch-data s d ds e = rw (dispatch, e)

  dispatch_raw-quiet :
      (raw : Bytes) (s : ResponseStream)
      → (dispatch_raw decimal unmarshal raw s).1 ≡ ok none
      → (dispatch_raw decimal unmarshal raw s).0.done ≡ s.done
  unfolding dispatch_raw record_payload
  dispatch_raw-quiet raw s h = elim (Bool-cases (eq_bytes raw (codes "[DONE]"))) [
    | inl e ↦ absurd (ground (arith, h, e))
    | inr e ↦ elim (Result-cases (unmarshal raw)) [
      | inl (payload, e') ↦
          let same = dispatch_raw-payload raw payload s e e' in
          ap (λ p. p.0.done) same
          ∙ map_payload-quiet payload (record_payload payload s) (sym (ap (λ p. p.1) same) ∙ h)
      | inr (x, e') ↦ absurd (ground (arith, h, e, e'))
    ]
  ]

  quiet :
      (s : ResponseStream)
      → (dispatch decimal unmarshal s).1 ≡ ok none
      → (dispatch decimal unmarshal s).0.done ≡ s.done
  unfolding dispatch
  quiet s h = elim (List-cases s.data_lines) [
    | inl e ↦ rw (dispatch, e)
    | inr (d, ds, e) ↦
        let same = dispatch-data s d ds e in
        ap (λ p. p.0.done) same
        ∙ dispatch_raw-quiet (join (d ∷ ds) (codes "\n")) (record s { data_lines = [] })
            (sym (ap (λ p. p.1) same) ∙ h)
  ]

  -- An empty line ends an event.
  next_blank :
      (s : ResponseStream) (more : Bytes)
      → s.done ≡ false
      → s.rest ≡ 10 ∷ more
      → next decimal unmarshal s
        ≡ at_blank decimal unmarshal
            (next decimal unmarshal)
            (dispatch decimal unmarshal (record s { rest = more }))
  unfolding next_loop
  next_blank s more open_ e =
      let s₁ = record s { rest = more } in
      let answered = dispatch decimal unmarshal s₁ in
      let first = next_unfold (suc (length s.rest)) s open_ (omega arith) in
      let again = next_loop decimal unmarshal (length s.rest) in
      let turned : next_loop decimal unmarshal (suc (length s.rest)) s
          ≡ at_blank decimal unmarshal again answered =
        ap (turn decimal unmarshal again) (read_line-line s [] more tt e) in
      let shorter : length answered.0.rest < length s.rest =
        rw (dispatch-rest decimal unmarshal s₁) (ground (arith, ap length e)) in
      first
      ∙ (turned
          ∙ blank_again (length s.rest) answered shorter
              (λ none_shown. quiet s₁ none_shown ∙ open_))

  take_line-data :
      (s : ResponseStream) (raw : Bytes)
      → s.data_lines ≡ []
      → take_line (codes "data: " ++ raw) s ≡ record s { data_lines = raw ∷ [] }
  unfolding take_line
  take_line-data s raw empty = ap (λ d. record s { data_lines = d ++ (raw ∷ []) }) empty

  -- A line `data: raw` and an empty line are read as the event with the text `raw`.
  pub next-data :
      (s : ResponseStream) (raw more : Bytes)
      → All IsPlain raw
      → s.done ≡ false
      → s.data_lines ≡ []
      → s.rest ≡ (codes "data: " ++ raw) ++ (10 ∷ 10 ∷ more)
      → next decimal unmarshal s
        ≡ at_blank decimal unmarshal
            (next decimal unmarshal)
            (dispatch_raw decimal unmarshal raw (record s { rest = more; data_lines = [] }))
  unfolding join
  next-data s raw more plain open_ empty e =
      let s₁ = record s { rest = 10 ∷ more; data_lines = raw ∷ [] } in
      next_line s 100 (codes "ata: " ++ raw) (10 ∷ more)
        (refl, (refl, (refl, (refl, (refl, (refl, plain)))))) open_ e
      ∙ (ap (next decimal unmarshal) (take_line-data (record s { rest = 10 ∷ more }) raw empty)
          ∙ (next_blank s₁ more open_ refl
              ∙ ap (at_blank decimal unmarshal (next decimal unmarshal))
                  (dispatch-data (record s₁ { rest = more }) raw [] refl)))

  -- The frame of an event as writeSSEEvent writes it is read as that event.
  pub next-frame :
      (s : ResponseStream) (name raw more : Bytes) (payload : Map)
      → All IsPlain name
      → All IsPlain raw
      → eq_bytes raw (codes "[DONE]") ≡ false
      → unmarshal raw ≡ ok payload
      → s.done ≡ false
      → s.data_lines ≡ []
      → s.rest ≡ (codes "event: " ++ name) ++ (10 ∷ ((codes "data: " ++ raw) ++ (10 ∷ 10 ∷ more)))
      → next decimal unmarshal s
        ≡ at_blank decimal unmarshal (next decimal unmarshal) (
            map_payload decimal payload
              (record_payload payload (record s { rest = more; data_lines = [] })))
  unfolding take_line
  next-frame s name raw more payload hn hr go read open_ empty e =
      let after = (codes "data: " ++ raw) ++ (10 ∷ 10 ∷ more) in
      next_line s 101 (codes "vent: " ++ name) after
        (refl, (refl, (refl, (refl, (refl, (refl, (refl, hn))))))) open_ e
      ∙ (next-data (record s { rest = after }) raw more hr open_ empty refl
          ∙ ap (at_blank decimal unmarshal (next decimal unmarshal)) (
              dispatch_raw-payload raw payload (record s { rest = more; data_lines = [] }) go read))
