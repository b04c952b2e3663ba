-- ===== src/Chat/Turn/Exclusive.antt =====
-- Turns of one session, interleaved as their goroutines run: one turn at most holds the session.
use pyttechat.Base.{
  ℕ, ◌≤◌, Bool, true, false, List, [], ◌∷◌, ◌++◌, Option, length, ◌≡◌, refl, ap, inl, inr, arith,
  append_assoc, Bytes, none,
}
use pyttechat.Errors.{Error, ok}
use pyttechat.Llm.{Message}
use pyttechat.Chat.Session.{
  World, SendOptions, commit_stopped, append_or_replace_tail, replace_from_index,
}
use pyttechat.Chat.Session.Indices.{Places-le}
use pyttechat.Chat.Turn.{TurnStream, begin_turn}
use pyttechat.Chat.Turn.Claims.{
  Effect, next-Effect, commit_partial-Effect, close-Effect, begin_turn-claims, begin_turn-refuses,
  open_turn-opens, open_turn-fails,
}
use pyttechat.Chat.Turn.Steps.{
  System, Step, begins, refuses, opens, fails, nexts, commits, closes, stops, Reach, here, more,
  held, holders_of, holders, StopsFree, AllStopFree, Claimed, IsExclusive,
}

append-eq-nil : (xs ys : List ℕ) → xs ++ ys ≡ [] → (xs ≡ []) × (ys ≡ [])
append-eq-nil [] ys h = (refl, h)
append-eq-nil (x ∷ xs) ys h = ground arith

holders_of-append :
    (xs ys : List TurnStream) → holders_of (xs ++ ys) ≡ holders_of xs ++ holders_of ys
holders_of-append [] ys = refl
holders_of-append (x ∷ xs) ys = rw (holders_of-append xs ys, append_assoc)

-- A holder among others is the only one.
Claimed-alone :
    (b : Bool) (ms : List Message) (xs ys : List ℕ) (k : ℕ)
    → Claimed b ms (xs ++ k ∷ ys)
    → (xs ≡ []) × (ys ≡ []) × (b ≡ true) × (k ≤ length ms)
Claimed-alone b ms [] [] k h = (refl, refl, h.0, h.1)
Claimed-alone b ms [] (y ∷ ys) k h = absurd h
Claimed-alone b ms (x ∷ []) ys k h = absurd h
Claimed-alone b ms (x ∷ z ∷ xs) ys k h = absurd h

Claimed-free : (b : Bool) (ms : List Message) (ks : List ℕ) → Claimed b ms ks → b ≡ false → ks ≡ []
Claimed-free b ms [] h e = refl
Claimed-free b ms (k ∷ []) h e = ground arith
Claimed-free b ms (k ∷ j ∷ ks) h e = absurd h

split_holders :
    (opening : List ℕ) (before after : List TurnStream) (t : TurnStream)
    → opening ++ holders_of (before ++ t ∷ after)
      ≡ (opening ++ holders_of before) ++ (held t ++ holders_of after)
split_holders opening before after t =
    rw (holders_of-append before (t ∷ after), append_assoc opening (holders_of before))

module _ {W : Type 0} where
  -- An operation on one turn among others.
  Claimed-Effect :
      (xs ys : List ℕ) (t t' : TurnStream) (w w' : World W)
      → Effect t w t' w'
      → Claimed w.session.in_flight w.session.messages (xs ++ (held t ++ ys))
      → Claimed w'.session.in_flight w'.session.messages (xs ++ (held t' ++ ys))
  Claimed-Effect xs ys t t' w w' (k, inl (f, same)) h = rw (f, k, same.0, same.1) h
  Claimed-Effect xs ys t t' w w' (k, inr (f, f', b)) h =
      let alone =
        Claimed-alone w.session.in_flight w.session.messages xs ys t.keep_messages (rw f at h) in
      rw (f', alone.0, alone.1) b

  turn-IsExclusive :
      (s u : System W) (before after : List TurnStream) (t t' : TurnStream) (w : World W)
      → Effect t s.world t' w
      → s.streams ≡ before ++ t ∷ after
      → u ≡ record { world = w; opening = s.opening; streams = before ++ t' ∷ after }
      → IsExclusive s
      → IsExclusive u
  turn-IsExclusive s u before after t t' w f split e h =
      rw (e, split_holders s.opening before after t')
        (Claimed-Effect (s.opening ++ holders_of before) (holders_of after) t t' s.world w f
          (rw (split, split_holders s.opening before after t) at h))

  begins-IsExclusive :
      (s u : System W) (opts : SendOptions) (k : ℕ) (w : World W)
      → begin_turn s.world opts ≡ (w, ok k)
      → u ≡ record { world = w; opening = k ∷ s.opening; streams = s.streams }
      → IsExclusive s
      → IsExclusive u
  begins-IsExclusive s u opts k w b e h =
      let (free, place, claimed) = begin_turn-claims s.world w opts k b in
      let nobody =
        Claimed-free s.world.session.in_flight s.world.session.messages (holders s) h free in
      rw (e, nobody, ap (λ v. v.session.in_flight) claimed, ap (λ v. v.session.messages) claimed)
        (refl, Places-le s.world.session.messages opts.replace_from k place)

  opening_alone :
      (s : System W) (before after : List ℕ) (k : ℕ)
      → s.opening ≡ before ++ k ∷ after
      → IsExclusive s
      → (before ≡ [])
        × (after ≡ [])
        × (holders_of s.streams ≡ [])
        × (s.world.session.in_flight ≡ true)
        × (k ≤ length s.world.session.messages)
  opening_alone s before after k split h =
      let (no_before, nobody, taken, bound) =
        Claimed-alone s.world.session.in_flight s.world.session.messages before
          (after ++ holders_of s.streams) k
          (rw (split, append_assoc before (k ∷ after) (holders_of s.streams)) at h) in
      let (no_after, no_stream) = append-eq-nil after (holders_of s.streams) nobody in
      (no_before, no_after, no_stream, taken, bound)

  -- CommitStopped leaves a free session free.
  commit_stopped-free :
      (w w' : World W) (prompt : Bytes) (opts : SendOptions) (e : Option Error)
      → commit_stopped w prompt opts ≡ (w', e)
      → w.session.in_flight ≡ false
      → w'.session.in_flight ≡ false
  unfolding commit_stopped append_or_replace_tail
  commit_stopped-free w w' prompt opts e h free = ground (arith, h, free)

  -- A call of CommitStopped that succeeds marks the session as free.
  commit_stopped-frees :
      (w w' : World W) (prompt : Bytes) (opts : SendOptions)
      → commit_stopped w prompt opts ≡ (w', none)
      → w'.session.in_flight ≡ false
  unfolding commit_stopped append_or_replace_tail
  commit_stopped-frees w w' prompt opts h = ground (arith, h)

  stops-IsExclusive :
      (s u : System W) (prompt : Bytes) (opts : SendOptions) (w : World W) (f : Option Error)
      → commit_stopped s.world prompt opts ≡ (w, f)
      → u ≡ record s { world = w }
      → holders s ≡ []
      → IsExclusive s
      → IsExclusive u
  stops-IsExclusive s u prompt opts w f c e nobody h =
      rw (e, nobody) (commit_stopped-free s.world w prompt opts f c (rw nobody at h))

  begin_turn-free :
      (w : World W) (opts : SendOptions)
      → w.session.in_flight ≡ false
      → opts.replace_from ≡ none
      → begin_turn w opts ≡ (
        record w { session = record w.session { in_flight = true } },
        ok (length w.session.messages),
      )
  unfolding begin_turn replace_from_index
  begin_turn-free w opts free at_end = rw (free, at_end) refl

  -- A call of CommitStopped that succeeds while a turn holds the session breaks it: the turn still
  -- holds it, but the session is marked as free, and the claim of another Send without an index is
  -- admitted behind all its messages.
  pub commit_stopped_admits :
      (s : System W) (prompt : Bytes) (opts : SendOptions) (w : World W) (k : ℕ)
      → holders s ≡ k ∷ []
      → commit_stopped s.world prompt opts ≡ (w, none)
      → ¬ IsExclusive (record s { world = w })
        × ((next : SendOptions)
            → next.replace_from ≡ none
            → (w' : World W) × (begin_turn w next ≡ (w', ok (length w.session.messages))))
  commit_stopped_admits s prompt opts w k held c =
      let freed = commit_stopped-frees s.world w prompt opts c in
      (
        λ h. let taken = (rw held at h).0 in cc,
        λ next at_end. (
          record w { session = record w.session { in_flight = true } },
          begin_turn-free w next freed at_end,
        ),
      )

  -- Each step keeps it so, CommitStopped where no turn holds the session.
  pub Step-IsExclusive :
      (s u : System W) (st : Step s u) → StopsFree st → IsExclusive s → IsExclusive u
  Step-IsExclusive s u (begins opts k w b e) free h = begins-IsExclusive s u opts k w b e h
  Step-IsExclusive s u (refuses opts f w b e) free h =
      rw (e, begin_turn-refuses s.world w opts f b) h
  Step-IsExclusive s u (opens before after k client m r opts t w split o e) free h =
      let (no_before, no_after, no_stream, taken, bound) = opening_alone s before after k split h in
      let (same, _, keeps, live, _, _, _) = open_turn-opens s.world w client m k r opts t o in
      rw
        (
          e,
          no_before,
          no_after,
          no_stream,
          live,
          keeps,
          ap (λ v. v.in_flight) same,
          ap (λ v. v.messages) same,
        )
        (taken, bound)
  Step-IsExclusive s u (fails before after k client m r opts f w split o e) free h =
      let (no_before, no_after, no_stream, taken, bound) = opening_alone s before after k split h in
      let (freed, _) = open_turn-fails s.world w client m k r opts f o in
      rw (e, no_before, no_after, no_stream, ap (λ v. v.in_flight) freed) refl
  Step-IsExclusive s u (nexts before after t t' w event f split o e) free h =
      turn-IsExclusive s u before after t t' w (rw o at (next-Effect t s.world)) split e h
  Step-IsExclusive s u (commits before after t t' w f split o e) free h =
      turn-IsExclusive s u before after t t' w (rw o at (commit_partial-Effect t s.world)) split e h
  Step-IsExclusive s u (closes before after t t' w f split o e) free h =
      turn-IsExclusive s u before after t t' w (rw o at (close-Effect t s.world)) split e h
  Step-IsExclusive s u (stops prompt opts w f c e) free h =
      stops-IsExclusive s u prompt opts w f c e free h

  -- However the calls of Send, Next, CommitPartial, Close and CommitStopped of several goroutines
  -- interleave, if CommitStopped is only called while no turn holds the session, a session has at
  -- most one turn that holds it, it is marked as in flight exactly while there is one, and the
  -- messages which that turn keeps are in the conversation: so it stays if it is so before the first
  -- of them.
  pub Reach-IsExclusive :
      {s u : System W} → IsExclusive s → (r : Reach s u) → AllStopFree r → IsExclusive u
  Reach-IsExclusive h here free = h
  Reach-IsExclusive h (more {t = t} {u = u} r st) free =
      Step-IsExclusive t u st free.1 (Reach-IsExclusive h r free.0)
