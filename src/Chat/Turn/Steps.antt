-- ===== src/Chat/Turn/Steps.antt =====
-- The calls of Send, Next, CommitPartial, Close and CommitStopped on one session, as steps of a system.
use pyttechat.Base.{
  ℕ, ◌≤◌, Bool, true, false, List, [], ◌∷◌, ◌++◌, Option, length, ◌≡◌, if◌then◌else◌, Bytes,
}
use pyttechat.Errors.{Error, ok, err}
use pyttechat.Llm.{Message, Event, Request}
use pyttechat.Chat.Session.{World, Client, SendOptions, commit_stopped}
use pyttechat.Chat.Turn.{TurnStream, begin_turn, open_turn, commit_partial, next, close}

-- A session with its turns: the calls of Send between their two halves, by the number of messages
-- that each keeps, and the streams that Send has returned.
pub record System (W : Type 0) : Type 0 where
  pub world : World W
  pub opening : List ℕ
  pub streams : List TurnStream

-- One call, or one half of a call of Send, on some turn. A half that fails after the claim gives
-- the claim back.
pub data Step {W : Type 0} (s u : System W) : Type 0 where
  begins :
      (opts : SendOptions) (k : ℕ) (w : World W)
      → begin_turn s.world opts ≡ (w, ok k)
      → u ≡ record { world = w; opening = k ∷ s.opening; streams = s.streams }
      → Step s u
  refuses :
      (opts : SendOptions) (e : Error) (w : World W)
      → begin_turn s.world opts ≡ (w, err e)
      → u ≡ record s { world = w }
      → Step s u
  opens :
      (before after : List ℕ) (k : ℕ) (client : Client) (m : Message) (r : Request)
      (opts : SendOptions) (t : TurnStream) (w : World W)
      → s.opening ≡ before ++ k ∷ after
      → open_turn s.world client m k r opts ≡ (w, ok t)
      → u ≡ record { world = w; opening = before ++ after; streams = t ∷ s.streams }
      → Step s u
  fails :
      (before after : List ℕ) (k : ℕ) (client : Client) (m : Message) (r : Request)
      (opts : SendOptions) (e : Error) (w : World W)
      → s.opening ≡ before ++ k ∷ after
      → open_turn s.world client m k r opts ≡ (w, err e)
      → u ≡ record { world = w; opening = before ++ after; streams = s.streams }
      → Step s u
  nexts :
      (before after : List TurnStream) (t t' : TurnStream) (w : World W) (event : Event)
      (e : Option Error)
      → s.streams ≡ before ++ t ∷ after
      → next t s.world ≡ (t', w, event, e)
      → u ≡ record { world = w; opening = s.opening; streams = before ++ t' ∷ after }
      → Step s u
  commits :
      (before after : List TurnStream) (t t' : TurnStream) (w : World W) (e : Option Error)
      → s.streams ≡ before ++ t ∷ after
      → commit_partial t s.world ≡ (t', w, e)
      → u ≡ record { world = w; opening = s.opening; streams = before ++ t' ∷ after }
      → Step s u
  closes :
      (before after : List TurnStream) (t t' : TurnStream) (w : World W) (e : Option Error)
      → s.streams ≡ before ++ t ∷ after
      → close t s.world ≡ (t', w, e)
      → u ≡ record { world = w; opening = s.opening; streams = before ++ t' ∷ after }
      → Step s u
  stops :
      (prompt : Bytes) (opts : SendOptions) (w : World W) (e : Option Error)
      → commit_stopped s.world prompt opts ≡ (w, e)
      → u ≡ record s { world = w }
      → Step s u

pub data Reach {W : Type 0} (s : System W) : System W → Type 0 where
  here : Reach s s
  more : {t u : System W} → Reach s t → Step t u → Reach s u

-- The messages kept by the turns that hold the session.
abbrev pub held : TurnStream → List ℕ
held t = if t.finalized then [] else t.keep_messages ∷ []

abbrev pub holders_of : List TurnStream → List ℕ
holders_of [] = []
holders_of (t ∷ ts) = held t ++ holders_of ts

abbrev pub holders : {W : Type 0} → System W → List ℕ
holders s = s.opening ++ holders_of s.streams

-- No turn holds the session where CommitStopped is called.
abbrev pub StopsFree : {W : Type 0} {s u : System W} → Step s u → Type 0
StopsFree {s = s} (Step.stops prompt opts w e h same) = holders s ≡ []
StopsFree _ = Unit {0}

abbrev pub AllStopFree : {W : Type 0} {s u : System W} → Reach s u → Type 0
AllStopFree Reach.here = Unit {0}
AllStopFree (Reach.more r st) = AllStopFree r × StopsFree st

-- Nobody holds the session and it is free; or one turn holds it, keeps messages that are there,
-- and the session is taken.
abbrev pub Claimed : Bool → List Message → List ℕ → Type 0
Claimed in_flight messages [] = in_flight ≡ false
Claimed in_flight messages (k ∷ []) = (in_flight ≡ true) × (k ≤ length messages)
Claimed in_flight messages (k ∷ j ∷ ks) = ⊥

abbrev pub IsExclusive : {W : Type 0} → System W → Type 0
IsExclusive s = Claimed s.world.session.in_flight s.world.session.messages (holders s)
