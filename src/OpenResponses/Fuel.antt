-- ===== src/OpenResponses/Fuel.antt =====
-- The loop of Next reads a line of the body in every turn, so that it ends.
use pyttechat.Base.{
  ℕ, zero, suc, ◌<◌, none, some, [], ◌∷◌, length, length-append, ℤ, Bytes, Bool-cases, Option-cases,
  List-cases, ◌≡◌, refl, ap, inl, inr, arith,
}
use pyttechat.Errors.{Result, ok, err, Result-cases}
use pyttechat.Text.{cut_byte, join, eq_bytes}
use pyttechat.Text.Laws.{cut_byte-some, codes}
use pyttechat.Llm.{Event}
use pyttechat.OpenResponses.Json.{Map}
use pyttechat.OpenResponses.Stream.{
  ResponseStream, read_line, take_line, dispatch, dispatch_raw, map_payload, record_payload, finish,
  at_blank, turn, next_loop,
}
use pyttechat.OpenResponses.Mapping.{Answer}

read_line-consumes :
    (s s₁ : ResponseStream) (line : Bytes)
    → read_line s ≡ (s₁, ok line)
    → length s₁.rest < length s.rest
unfolding read_line
read_line-consumes s s₁ line h = elim (Option-cases (cut_byte 10 s.rest)) [
  | inr ((before, after), e) ↦
      let split = ap length (cut_byte-some 10 s.rest before after e) in
      let left : s₁.rest ≡ after = ground (arith, h, e) in
      rw (left) (ground (arith, split, length-append before (10 ∷ after)))
  | inl e ↦ elim (List-cases s.rest) [
    | inl none_left ↦ absurd (ground (arith, h, e, none_left))
    | inr (c, cs, some_left) ↦
        let gone : s₁.rest ≡ [] = ground (arith, h, e) in rw (gone, some_left) (omega arith)
  ]
]

pub take_line-rest : (line : Bytes) (s : ResponseStream) → (take_line line s).rest ≡ s.rest
unfolding take_line
take_line-rest line s = ground arith

module _ (decimal : ℤ → Bytes) where
  map_payload-rest :
      (payload : Map) (s : ResponseStream) → (map_payload decimal payload s).0.rest ≡ s.rest
  unfolding map_payload finish
  map_payload-rest payload s = ground arith

  module _ (unmarshal : Bytes → Result Map) where
    dispatch_raw-rest :
        (raw : Bytes) (s : ResponseStream) → (dispatch_raw decimal unmarshal raw s).0.rest ≡ s.rest
    unfolding dispatch_raw finish record_payload
    dispatch_raw-rest raw s = elim (Bool-cases (eq_bytes raw (codes "[DONE]"))) [
      | inl e ↦ rw (dispatch_raw, e)
      | inr e ↦ elim (Result-cases (unmarshal raw)) [
        | inl (payload, e') ↦
            rw (dispatch_raw, e, e') (map_payload-rest payload (record_payload payload s))
        | inr (x, e') ↦ rw (dispatch_raw, e, e')
      ]
    ]

    pub dispatch-rest : (s : ResponseStream) → (dispatch decimal unmarshal s).0.rest ≡ s.rest
    unfolding dispatch
    dispatch-rest s = elim (List-cases s.data_lines) [
      | inl e ↦ rw (dispatch, e)
      | inr (d, ds, e) ↦
          rw (dispatch, e)
            (dispatch_raw-rest (join (d ∷ ds) (codes "\n")) (record s { data_lines = [] }))
    ]

    blank_agree :
        (f g : ResponseStream → ResponseStream × Result Event) (p : ResponseStream × Answer)
        → f p.0 ≡ g p.0
        → at_blank decimal unmarshal f p ≡ at_blank decimal unmarshal g p
    blank_agree f g (s, err e) h = refl
    blank_agree f g (s, ok (some event)) h = refl
    blank_agree f g (s, ok none) h = h

    turn_agree :
        (f g : ResponseStream → ResponseStream × Result Event) (m : ℕ)
        (p : ResponseStream × Result Bytes)
        → ((line : Bytes) → p.1 ≡ ok line → length p.0.rest < m)
        → ((s : ResponseStream) → length s.rest < m → f s ≡ g s)
        → turn decimal unmarshal f p ≡ turn decimal unmarshal g p
    turn_agree f g m (s, err e) shorter agree = refl
    turn_agree f g m (s, ok []) shorter agree =
        let s' = (dispatch decimal unmarshal s).0 in
        blank_agree f g (dispatch decimal unmarshal s)
          (agree s' (rw (dispatch-rest s) (shorter [] refl)))
    turn_agree f g m (s, ok (c ∷ line)) shorter agree =
        agree (take_line (c ∷ line) s) (rw (take_line-rest (c ∷ line) s) (shorter (c ∷ line) refl))

    pub next_loop-enough :
        (n k : ℕ) (s : ResponseStream)
        → length s.rest < n
        → length s.rest < k
        → next_loop decimal unmarshal n s ≡ next_loop decimal unmarshal k s
    unfolding next_loop
    next_loop-enough zero k s hn hk = absurd (omega (arith, hn))
    next_loop-enough (suc n) zero s hn hk = absurd (omega (arith, hk))
    next_loop-enough (suc n) (suc k) s hn hk =
        turn_agree (next_loop decimal unmarshal n) (next_loop decimal unmarshal k) (length s.rest)
          (read_line s)
          (λ line e. read_line-consumes s (read_line s).0 line (ap (λ r. ((read_line s).0, r)) e))
          (λ s' h. next_loop-enough n k s' (omega arith) (omega arith))
