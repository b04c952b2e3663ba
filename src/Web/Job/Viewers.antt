-- ===== src/Web/Job/Viewers.antt =====
-- What each browser gets: the events from its place on, in order, with none left out.
use pyttechat.Base.{
  ℕ, zero, suc, ◌+◌, ◌-◌, ◌≤◌, Bool, true, false, List, [], ◌∷◌, ◌++◌, Option, Bytes, length, drop,
  ◌≡◌, refl, sym, ◌∙◌, ◌⊎◌, inl, inr, arith, ltb, if◌then◌else◌, Bool-cases, length-append,
  append-nil, append_assoc, drop-append_le, drop-length_le, length-drop, All, All-append, All-map,
}
use pyttechat.Web.Job.{
  Payload, capacity, EventName, StreamEvent, Viewer, Job, emit, emit_terminal, offer, offer_last,
  shut, unseen, subscribe, unsubscribe, receive, take_queued, at_viewer, end_turn, close_done,
  finish,
}
use pyttechat.Web.Job.Numbers.{NumberedFrom, unseen-drop}

-- What a handler has taken and what waits in its channel are the events from its place on, up to
-- `missed` ones, of which there are none while it is subscribed. Its channel is closed once, when
-- it is taken off the subscribers.
pub record Follows (events : List StreamEvent) (v : Viewer) : Type 0 where
  pub missed : List StreamEvent
  pub split : drop v.from events ≡ (v.sent ++ v.queue) ++ missed
  pub whole : (v.subscribed ≡ false) ⊎ (missed ≡ [])
  pub place : v.from ≤ length events
  pub closed_once : v.closings + (if v.subscribed then 1 else 0) ≡ 1

abbrev pub AllFollow : Job → Type 0
AllFollow j = All (Follows j.events) j.viewers

module _ (events : List StreamEvent) (e : StreamEvent) where
  longer_split :
      (v : Viewer) (f : Follows events v)
      → drop v.from (events ++ e ∷ []) ≡ (v.sent ++ v.queue) ++ (f.missed ++ e ∷ [])
  longer_split v f =
      rw (drop-append_le v.from events (e ∷ []) f.place, f.split)
        (append_assoc (v.sent ++ v.queue) f.missed (e ∷ []))

  longer : (v : Viewer) → Follows events v → v.from ≤ length (events ++ e ∷ [])
  longer v f = omega (arith, f.place, length-append events (e ∷ []))

  -- A subscribed viewer had everything, and has the new event if it is put into the channel.
  all_got :
      (v : Viewer) (f : Follows events v)
      → v.subscribed ≡ true
      → drop v.from (events ++ e ∷ []) ≡ (v.sent ++ (v.queue ++ e ∷ [])) ++ []
  all_got v f live =
      let none_missed : f.missed ≡ [] = ground (arith, f.whole) in
      rw (longer_split v f, none_missed) (simp (append-nil, append_assoc))

  -- A viewer that is no longer subscribed misses it.
  left_out-Follows :
      (v : Viewer) (f : Follows events v) (n : ℕ)
      → n ≡ 1
      → Follows (events ++ e ∷ []) (record v { subscribed = false; closings = n })
  left_out-Follows v f n h = record {
    missed = f.missed ++ e ∷ [];
    split = longer_split v f;
    whole = inl refl;
    place = longer v f;
    closed_once = omega (arith, h);
  }

  given-Follows :
      (v : Viewer) (f : Follows events v) (b : Bool) (n : ℕ)
      → v.subscribed ≡ true
      → n + (if b then 1 else 0) ≡ 1
      → Follows
          (events ++ e ∷ [])
          (record v { queue = v.queue ++ e ∷ []; subscribed = b; closings = n })
  given-Follows v f b n live h = record {
    missed = [];
    split = all_got v f live;
    whole = inr refl;
    place = longer v f;
    closed_once = h;
  }

  still_out-Follows :
      (v : Viewer) → Follows events v → v.subscribed ≡ false → Follows (events ++ e ∷ []) v
  still_out-Follows v f gone = record {
    missed = f.missed ++ e ∷ [];
    split = longer_split v f;
    whole = inl gone;
    place = longer v f;
    closed_once = f.closed_once;
  }

  never_closed : (v : Viewer) → Follows events v → v.subscribed ≡ true → v.closings ≡ 0
  never_closed v f live = ground (arith, f.closed_once)

  offer-Follows : (v : Viewer) → Follows events v → Follows (events ++ e ∷ []) (offer e v)
  unfolding offer
  offer-Follows v f = elim (Bool-cases v.subscribed) [
    | inl live ↦
        let unclosed = never_closed v f live in
        elim (Bool-cases (ltb (length v.queue) capacity)) [
          | inl room ↦
              simp (live, room)
                (given-Follows v f true v.closings live (omega (arith, rw live at f.closed_once)))
          | inr full ↦ simp (live, full) (left_out-Follows v f (v.closings + 1) (omega arith))
        ]
    | inr gone ↦ simp gone (still_out-Follows v f gone)
  ]

  offer_last-Follows : (v : Viewer) → Follows events v → Follows (events ++ e ∷ []) (offer_last e v)
  unfolding offer_last
  offer_last-Follows v f = elim (Bool-cases v.subscribed) [
    | inl live ↦
        let unclosed = never_closed v f live in
        elim (Bool-cases (ltb (length v.queue) capacity)) [
          | inl room ↦
              simp (live, room) (given-Follows v f false (v.closings + 1) live (omega arith))
          | inr full ↦ simp (live, full) (left_out-Follows v f (v.closings + 1) (omega arith))
        ]
    | inr gone ↦ simp gone (still_out-Follows v f gone)
  ]

shut-Follows : (events : List StreamEvent) (v : Viewer) → Follows events v → Follows events (shut v)
unfolding shut
shut-Follows events v f = record {
  missed = f.missed;
  split = ground (arith, f.split);
  whole = ground (arith, f.whole);
  place = ground (arith, f.place);
  closed_once = ground (arith, f.closed_once);
}

take_queued-Follows :
    (events sent queue : List StreamEvent) (from closings : ℕ) (b : Bool)
    → let v : Viewer = record {
      from = from;
      sent = sent;
      queue = queue;
      subscribed = b;
      closings = closings;
    } in
      Follows events v → Follows events (take_queued v)
take_queued-Follows events sent [] from closings b f = f
take_queued-Follows events sent (x ∷ rest) from closings b f = record {
  missed = f.missed;
  split = f.split ∙ simp append_assoc;
  whole = f.whole;
  place = f.place;
  closed_once = f.closed_once;
}

pub at_viewer-All :
    (P : Viewer → Type 0) (f : Viewer → Viewer)
    → ((v : Viewer) → P v → P (f v))
    → (i : ℕ) (vs : List Viewer) → All P vs
    → All P (at_viewer f i vs)
at_viewer-All P f h i [] a = tt
at_viewer-All P f h zero (v ∷ vs) a = (h v a.0, a.1)
at_viewer-All P f h (suc i) (v ∷ vs) a = (a.0, at_viewer-All P f h i vs a.1)

module _ (marshal : Payload → Option Bytes) (name : EventName) (p : Payload) (j : Job) where
  pub emit-AllFollow : AllFollow j → AllFollow (emit marshal name p j)
  unfolding emit
  emit-AllFollow h = elim (Bool-cases j.terminal) [
    | inl e ↦ simp e h
    | inr e ↦
        simp e (All-map (Follows j.events) _ _ (λ v f. offer-Follows j.events _ v f) j.viewers h)
  ]

  pub emit_terminal-AllFollow : AllFollow j → AllFollow (emit_terminal marshal name p j)
  unfolding emit_terminal
  emit_terminal-AllFollow h = elim (Bool-cases j.terminal) [
    | inl e ↦ simp e h
    | inr e ↦
        simp e
          (All-map (Follows j.events) _ _ (λ v f. offer_last-Follows j.events _ v f) j.viewers h)
  ]

pub unsubscribe-AllFollow : (i : ℕ) (j : Job) → AllFollow j → AllFollow (unsubscribe i j)
unfolding unsubscribe
unsubscribe-AllFollow i j h =
    at_viewer-All (Follows j.events) shut (shut-Follows j.events) i j.viewers h

pub receive-AllFollow : (i : ℕ) (j : Job) → AllFollow j → AllFollow (receive i j)
unfolding receive
receive-AllFollow i j h =
    at_viewer-All (Follows j.events) take_queued
      (λ v f. take_queued-Follows j.events v.sent v.queue v.from v.closings v.subscribed f) i
      j.viewers h

close_done-AllFollow : (j : Job) → AllFollow j → AllFollow (close_done j)
unfolding close_done
close_done-AllFollow j h = elim (Bool-cases j.done_closed) [ inl e ↦ simp e h | inr e ↦ simp e h ]

pub finish-AllFollow : (j : Job) → AllFollow j → AllFollow (finish j)
unfolding finish end_turn
finish-AllFollow j h = elim (Bool-cases j.terminal) [
  | inl e ↦ close_done-AllFollow (end_turn j) (simp e h)
  | inr e ↦
      close_done-AllFollow (end_turn j)
        (simp e (All-map (Follows j.events) _ shut (shut-Follows j.events) j.viewers h))
]

drop_back : (n : ℕ) (xs : List StreamEvent) → drop (length xs - length (drop n xs)) xs ≡ drop n xs
drop_back n [] =
    let none_left : drop n [] ≡ [] = drop-length_le {A = StreamEvent} n [] (omega arith) in
    drop-length_le {A = StreamEvent} (0 - length (drop {A = StreamEvent} n [])) [] (omega arith)
    ∙ sym none_left
drop_back zero (x ∷ xs) = let all : suc (length xs) - suc (length xs) ≡ 0 = omega arith in rw all
drop_back (suc n) (x ∷ xs) =
    let further : suc (length xs) - length (drop n xs) ≡ suc (length xs - length (drop n xs)) =
      omega (arith, length-drop n xs) in
    rw further (drop_back n xs)

pub subscribe-AllFollow :
    (last : ℕ) (j : Job) → NumberedFrom 1 j.events → AllFollow j → AllFollow (subscribe last j).0
unfolding subscribe
subscribe-AllFollow last j n h = elim (Bool-cases j.terminal) [
  | inl e ↦ simp e h
  | inr e ↦ simp e (All-append (Follows j.events) j.viewers _ h (new_viewer, tt))
]
  where
    new_viewer : Follows j.events (record {
      from = length j.events - length (unseen last j.events);
      sent = unseen last j.events;
      queue = [];
      subscribed = true;
      closings = 0;
    })
    new_viewer =
        let behind : unseen last j.events ≡ drop last j.events =
          (let none_before : last - 0 ≡ last = omega arith in
            rw none_before at (unseen-drop 0 last j.events n)) in
        record {
          missed = [];
          split = rw behind (drop_back last j.events ∙ simp append-nil);
          whole = inr refl;
          place = omega arith;
          closed_once = refl;
        }
