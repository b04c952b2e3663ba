-- ===== src/Chat/Session/Indices.antt =====
-- Which indices replaceFromIndex takes, and what appendOrReplaceTailLocked leaves.
use pyttechat.Base.{
  ℕ, zero, suc, ◌≤◌, true, List, [], ◌∷◌, Option, none, some, ℤ, pos, negsuc, length, get_elem?,
  ◌≡◌, refl, ◌↔◌, inl, inr, arith, Option-cases,
}
use pyttechat.Errors.{ok}
use pyttechat.Llm.{Message, is_user}
use pyttechat.Chat.Session.{replace_from_index}

-- `k` is a place where a turn may be put: the end, or where a user's message stands.
abbrev pub IsTurnStart : List Message → ℕ → Type 0
IsTurnStart [] k = k ≡ 0
IsTurnStart (m ∷ ms) zero = is_user m.role ≡ true
IsTurnStart (m ∷ ms) (suc k) = IsTurnStart ms k

IsTurnStart-at :
    (ms : List Message) (k : ℕ) (m : Message)
    → get_elem? ms k ≡ some m
    → is_user m.role ≡ true
    → IsTurnStart ms k
IsTurnStart-at [] k m e h = ground arith
IsTurnStart-at (x ∷ ms) zero m e h = ground arith
IsTurnStart-at (x ∷ ms) (suc k) m e h = IsTurnStart-at ms k m e h

IsTurnStart-end :
    (ms : List Message) (k : ℕ) → get_elem? ms k ≡ none → k ≤ length ms → IsTurnStart ms k
IsTurnStart-end [] k e h = omega arith
IsTurnStart-end (x ∷ ms) zero e h = ground arith
IsTurnStart-end (x ∷ ms) (suc k) e h = IsTurnStart-end ms k e (omega arith)

IsTurnStart-length : (ms : List Message) → IsTurnStart ms (length ms)
IsTurnStart-length [] = refl
IsTurnStart-length (m ∷ ms) = IsTurnStart-length ms

IsTurnStart-role :
    (ms : List Message) (k : ℕ) (m : Message)
    → get_elem? ms k ≡ some m
    → IsTurnStart ms k
    → is_user m.role ≡ true
IsTurnStart-role [] k m e h = ground arith
IsTurnStart-role (x ∷ ms) zero m e h = ground arith
IsTurnStart-role (x ∷ ms) (suc k) m e h = IsTurnStart-role ms k m e h

index_sound :
    (ms : List Message) (i k : ℕ)
    → replace_from_index ms (some (pos i)) ≡ ok k
    → (k ≡ i) × (i ≤ length ms) × IsTurnStart ms i
unfolding replace_from_index
index_sound ms i k h = elim (Option-cases (get_elem? ms i)) [
  | inl e ↦ ground (arith, IsTurnStart-end ms i e)
  | inr (m, e) ↦ ground (arith, IsTurnStart-at ms i m e)
]

index_complete :
    (ms : List Message) (i : ℕ)
    → i ≤ length ms
    → IsTurnStart ms i
    → replace_from_index ms (some (pos i)) ≡ ok i
unfolding replace_from_index
index_complete ms i b h = elim (Option-cases (get_elem? ms i)) [
  | inl e ↦ ground (arith)
  | inr (m, e) ↦ ground (arith, IsTurnStart-role ms i m e)
]

-- Where a turn goes: behind the conversation if no index is given; else at the index, if that lies
-- in the conversation and a message of the user stands there, or it is the end.
abbrev pub Places : List Message → Option ℤ → ℕ → Type 0
Places ms none k = k ≡ length ms
Places ms (some (negsuc i)) k = ⊥
Places ms (some (pos i)) k = (k ≡ i) × (i ≤ length ms) × IsTurnStart ms i

-- An index is accepted exactly where it places a turn, and every other one is refused.
pub replace_from_index_iff :
    (ms : List Message) (from : Option ℤ) (k : ℕ)
    → (replace_from_index ms from ≡ ok k) ↔ Places ms from k
unfolding replace_from_index
replace_from_index_iff ms none k = (λ h. ground arith, λ h. ground arith)
replace_from_index_iff ms (some (negsuc i)) k = (λ h. ground arith, λ h. absurd h)
replace_from_index_iff ms (some (pos i)) k =
    (index_sound ms i k, λ h. rw h.0 (index_complete ms i h.1 h.2))

pub Places-le : (ms : List Message) (from : Option ℤ) (k : ℕ) → Places ms from k → k ≤ length ms
Places-le ms none k h = omega arith
Places-le ms (some (negsuc i)) k h = absurd h
Places-le ms (some (pos i)) k h = omega arith
