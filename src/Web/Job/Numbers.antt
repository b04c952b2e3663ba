-- ===== src/Web/Job/Numbers.antt =====
-- The ids of a turn's events count up from 1, so a browser resumes by the last id that it saw.
use pyttechat.Base.{
  ℕ, suc, ◌+◌, ◌-◌, List, [], ◌∷◌, ◌++◌, Option, Bytes, length, drop, ◌≡◌, sym, inl, inr, arith,
  leb, Bool-cases, length-append, drop-length_le,
}
use pyttechat.Web.Job.{Payload, EventName, StreamEvent, Job, emit, emit_terminal, unseen}

abbrev pub NumberedFrom : ℕ → List StreamEvent → Type 0
NumberedFrom n [] = Unit {0}
NumberedFrom n (e ∷ es) = (e.id ≡ n) × NumberedFrom (suc n) es

-- The events have the ids 1, 2, 3 and so on, and the next id follows.
abbrev pub IsNumbered : Job → Type 0
IsNumbered j = (j.next_event_id ≡ length j.events) × NumberedFrom 1 j.events

NumberedFrom-concat :
    (n : ℕ) (es : List StreamEvent) (e : StreamEvent)
    → NumberedFrom n es
    → e.id ≡ n + length es
    → NumberedFrom n (es ++ e ∷ [])
NumberedFrom-concat n [] e h i = (omega arith, tt)
NumberedFrom-concat n (x ∷ es) e h i = (h.0, NumberedFrom-concat (suc n) es e h.1 (omega arith))

pub emit-IsNumbered :
    (marshal : Payload → Option Bytes) (name : EventName) (p : Payload) (j : Job)
    → IsNumbered j
    → IsNumbered (emit marshal name p j)
unfolding emit
emit-IsNumbered marshal name p j h = elim (Bool-cases j.terminal) [
  | inl e ↦ simp e h
  | inr e ↦
      simp e (simp length-append (omega arith), NumberedFrom-concat 1 j.events _ h.1 (omega arith))
]

pub emit_terminal-IsNumbered :
    (marshal : Payload → Option Bytes) (name : EventName) (p : Payload) (j : Job)
    → IsNumbered j
    → IsNumbered (emit_terminal marshal name p j)
unfolding emit_terminal
emit_terminal-IsNumbered marshal name p j h = elim (Bool-cases j.terminal) [
  | inl e ↦ simp e h
  | inr e ↦
      simp e (simp length-append (omega arith), NumberedFrom-concat 1 j.events _ h.1 (omega arith))
]

pub unseen-drop :
    (k last : ℕ) (es : List StreamEvent)
    → NumberedFrom (suc k) es
    → unseen last es ≡ drop (last - k) es
unfolding unseen
unseen-drop k last [] h = sym (drop-length_le (last - k) [] (omega arith))
unseen-drop k last (e ∷ es) h = elim (Bool-cases (leb e.id last)) [
  | inl seen ↦
      let more : last - k ≡ suc (last - suc k) = ground arith in
      rw (seen, more) (unseen-drop (suc k) last es h.1)
  | inr fresh ↦ let nothing : last - k ≡ 0 = ground arith in rw (fresh, nothing)
]
