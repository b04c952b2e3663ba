-- ===== src/Storage/Messages/Rows.antt =====
-- The rows of a conversation: numbered from 1 in the order of the table, and what the statements of
-- internal/storage/sqlite.go do to such rows.
use pyttechat.Base.{
  ℕ, zero, suc, ◌+◌, ◌<◌, true, false, List, [], ◌∷◌, ◌++◌, ℤ, pos, negsuc, if◌then◌else◌, length,
  take, ◌≡◌, refl, ap, ◌∙◌, inl, inr, arith, Bool-cases, All, append-nil,
}
use pyttechat.Storage.Messages.{
  same_id, Row, rows_of, insert_row, by_sequence, max_sequence, delete_behind,
}

pub same_id_refl : (id : ℤ) → same_id id id ≡ true
same_id_refl (pos n) = ground arith
same_id_refl (negsuc n) = ground arith

pub same_id→eq : (a b : ℤ) → same_id a b ≡ true → a ≡ b
same_id→eq (pos a) (pos b) h = let same : a ≡ b = ground (arith, h) in ap pos same
same_id→eq (negsuc a) (negsuc b) h = let same : a ≡ b = ground (arith, h) in ap negsuc same
same_id→eq (pos a) (negsuc b) h = ground arith
same_id→eq (negsuc a) (pos b) h = ground arith

-- The sequences count up from `k`.
abbrev pub Numbered : ℕ → List Row → Type 0
Numbered k [] = Unit {0}
Numbered k (r ∷ rs) = (r.sequence ≡ k) × Numbered (suc k) rs

pub Numbered-append :
    (k : ℕ) (xs ys : List Row) → Numbered k xs → Numbered (k + length xs) ys → Numbered k (xs ++ ys)
Numbered-append k [] ys hx hy = let same : k + 0 ≡ k = omega arith in rw same at hy
Numbered-append k (x ∷ xs) ys hx hy =
    let same : k + suc (length xs) ≡ suc k + length xs = omega arith in
    (hx.0, Numbered-append (suc k) xs ys hx.1 (rw same at hy))

pub Numbered-take : (k n : ℕ) (xs : List Row) → Numbered k xs → Numbered k (take n xs)
Numbered-take k zero xs h = tt
Numbered-take k (suc n) [] h = tt
Numbered-take k (suc n) (x ∷ xs) h = (h.0, Numbered-take (suc k) n xs h.1)

insert_row-first :
    (k : ℕ) (r : Row) (rs : List Row) → Numbered k (r ∷ rs) → insert_row r rs ≡ r ∷ rs
unfolding insert_row
insert_row-first k r [] h = refl
insert_row-first k r (s ∷ rs) h = ground arith

-- Numbered rows are in their order already.
pub by_sequence-Numbered : (k : ℕ) (rs : List Row) → Numbered k rs → by_sequence rs ≡ rs
unfolding by_sequence
by_sequence-Numbered k [] h = refl
by_sequence-Numbered k (r ∷ rs) h =
    rw (by_sequence-Numbered (suc k) rs h.1) (insert_row-first k r rs h)

max_sequence-from :
    (k : ℕ) (r : Row) (rs : List Row)
    → Numbered (suc k) (r ∷ rs)
    → max_sequence (r ∷ rs) ≡ suc k + length rs
unfolding max_sequence
max_sequence-from k r [] h = ground arith
max_sequence-from k r (s ∷ rs) h = ground (arith, max_sequence-from (suc k) s rs h.1)

-- The greatest sequence is the number of the rows.
pub max_sequence-Numbered : (rs : List Row) → Numbered 1 rs → max_sequence rs ≡ length rs
unfolding max_sequence
max_sequence-Numbered [] h = refl
max_sequence-Numbered (r ∷ rs) h = max_sequence-from 0 r rs h ∙ omega arith

pub rows_of-append :
    (id : ℤ) (xs ys : List Row) → rows_of id (xs ++ ys) ≡ rows_of id xs ++ rows_of id ys
unfolding rows_of
rows_of-append id [] ys = refl
rows_of-append id (x ∷ xs) ys = ground (arith, rows_of-append id xs ys)

pub rows_of-delete_behind :
    (id : ℤ) (keep : ℕ) (rs : List Row)
    → rows_of id (delete_behind id keep rs) ≡ delete_behind id keep (rows_of id rs)
unfolding rows_of delete_behind
rows_of-delete_behind id keep [] = refl
rows_of-delete_behind id keep (r ∷ rs) = ground (arith, rows_of-delete_behind id keep rs)

-- The rows of other conversations stay.
pub rows_of-delete_other :
    (id other : ℤ) (keep : ℕ) (rs : List Row)
    → same_id id other ≡ false
    → rows_of other (delete_behind id keep rs) ≡ rows_of other rs
unfolding rows_of delete_behind
rows_of-delete_other id other keep [] h = refl
rows_of-delete_other id other keep (r ∷ rs) h = ground (
  arith,
  rows_of-delete_other id other keep rs h,
  same_id→eq r.conversation_id id,
  same_id→eq r.conversation_id other,
)

abbrev pub IsOf : ℤ → Row → Type 0
IsOf id r = same_id r.conversation_id id ≡ true

pub rows_of-IsOf : (id : ℤ) (rs : List Row) → All (IsOf id) (rows_of id rs)
unfolding rows_of
rows_of-IsOf id [] = tt
rows_of-IsOf id (r ∷ rs) = elim (Bool-cases (same_id r.conversation_id id)) [
  | inl e ↦ rw (e, rows_of) (e, rows_of-IsOf id rs)
  | inr e ↦ rw (e, rows_of) (rows_of-IsOf id rs)
]

delete_behind_rest :
    (id : ℤ) (keep j : ℕ) (rs : List Row)
    → keep < j
    → All (IsOf id) rs
    → Numbered j rs
    → delete_behind id keep rs ≡ []
unfolding delete_behind
delete_behind_rest id keep j [] l a h = refl
delete_behind_rest id keep j (r ∷ rs) l a h =
    ground (arith, delete_behind_rest id keep (suc j) rs (omega arith) a.1 h.1)

delete_behind-from :
    (id : ℤ) (k n : ℕ) (rs : List Row)
    → All (IsOf id) rs
    → Numbered (suc k) rs
    → delete_behind id (k + n) rs ≡ take n rs
unfolding delete_behind
delete_behind-from id k zero [] a h = refl
delete_behind-from id k (suc n) [] a h = refl
delete_behind-from id k zero (r ∷ rs) a h =
    delete_behind_rest id (k + 0) (suc k) (r ∷ rs) (omega arith) a h
delete_behind-from id k (suc n) (r ∷ rs) a h =
    let more : k + suc n ≡ suc k + n = omega arith in
    let rest : delete_behind id (k + suc n) rs ≡ take n rs =
      rw more (delete_behind-from id (suc k) n rs a.1 h.1) in
    ground (arith, rest)

-- Behind the deletion the conversation has its first rows.
pub delete_behind-take :
    (id : ℤ) (n : ℕ) (rs : List Row)
    → Numbered 1 (rows_of id rs)
    → rows_of id (delete_behind id n rs) ≡ take n (rows_of id rs)
delete_behind-take id n rs h =
    let same : 0 + n ≡ n = omega arith in
    rows_of-delete_behind id n rs
    ∙ (rw same at (delete_behind-from id 0 n (rows_of id rs) (rows_of-IsOf id rs) h))

-- Two rows of one conversation at the end of the table.
pub rows_of-two :
    (id other : ℤ) (rs : List Row) (r s : Row)
    → r.conversation_id ≡ id
    → s.conversation_id ≡ id
    → rows_of other (rs ++ r ∷ s ∷ [])
      ≡ rows_of other rs ++ (if same_id id other then r ∷ s ∷ [] else [])
unfolding rows_of
rows_of-two id other rs r s hr hs = ground (arith, rows_of-append other rs (r ∷ s ∷ []))

pub Numbered-two :
    (id other : ℤ) (rs : List Row) (r s : Row)
    → Numbered 1 (rows_of other rs)
    → r.conversation_id ≡ id
    → s.conversation_id ≡ id
    → r.sequence ≡ suc (length (rows_of id rs))
    → s.sequence ≡ suc (suc (length (rows_of id rs)))
    → Numbered 1 (rows_of other (rs ++ r ∷ s ∷ []))
Numbered-two id other rs r s h hr hs nr ns = elim (Bool-cases (same_id id other)) [
  | inl e ↦
      let same : id ≡ other = same_id→eq id other e in
      rw (rows_of-two id other rs r s hr hs, e)
        (Numbered-append 1 (rows_of other rs) (r ∷ s ∷ []) h
          ((rw same at nr) ∙ omega arith, ((rw same at ns) ∙ omega arith, tt)))
  | inr e ↦ rw (rows_of-two id other rs r s hr hs, e, append-nil (rows_of other rs)) h
]
