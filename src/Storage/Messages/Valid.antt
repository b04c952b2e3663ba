-- ===== src/Storage/Messages/Valid.antt =====
-- The transactions of internal/storage/sqlite.go keep the numbering of every conversation.
use pyttechat.Base.{
  ℕ, suc, ◌≤◌, List, ℤ, length, ◌≡◌, refl, inl, inr, arith, Bool-cases, length-take_le, pos, negsuc,
}
use pyttechat.Llm.{Message}
use pyttechat.Storage.Messages.{
  same_id, Row, Tables, Codec, rows_of, delete_behind, append_turn, replace_tail_and_append_turn,
}
use pyttechat.Storage.Messages.Rows.{
  same_id→eq, Numbered, Numbered-take, Numbered-two, max_sequence-Numbered, delete_behind-take,
  rows_of-delete_other,
}
use pyttechat.Storage.Messages.Turns.{TurnRows, append_turn-rows, replace_turn-rows}

-- The rows of every conversation are numbered from 1 without gaps, in the order of the table.
abbrev pub AreNumbered : List Row → Type 0
AreNumbered rs = (id : ℤ) → Numbered 1 (rows_of id rs)

pub record IsValid (db : Tables) : Type 0 where
  pub numbered : AreNumbered db.rows

delete_behind-AreNumbered :
    (id : ℤ) (keep : ℕ) (rs : List Row) → AreNumbered rs → AreNumbered (delete_behind id keep rs)
delete_behind-AreNumbered id keep rs h other = elim (Bool-cases (same_id id other)) [
  | inl e ↦
      rw (← same_id→eq id other e, delete_behind-take id keep rs (h id))
        (Numbered-take 1 keep (rows_of id rs) (h id))
  | inr e ↦ rw (rows_of-delete_other id other keep rs e) (h other)
]

module _ (c : Codec) where
  TurnRows-AreNumbered :
      (id : ℤ) (n : ℕ) (u a : Message) (before after : List Row)
      → AreNumbered before
      → n ≡ suc (length (rows_of id before))
      → TurnRows c id n u a before after
      → AreNumbered after
  TurnRows-AreNumbered id n u a before after h place t other =
      rw t.rows (Numbered-two id other before _ _ (h other) refl refl place (omega (arith, place)))

  -- AppendTurn, whether it commits or fails at whichever statement, keeps every conversation numbered
  -- from 1 without gaps.
  pub append_turn-IsValid :
      (db : Tables) (id : ℤ) (u a : Message) → IsValid db → IsValid (append_turn c db id u a).0
  append_turn-IsValid db id u a h = elim (append_turn-rows c db id u a) [
    | inr (e, failed, kept) ↦ record { numbered = rw kept h.numbered }
    | inl (fine, fit, t) ↦ record {
      numbered =
          TurnRows-AreNumbered id _ u a db.rows _ h.numbered
            (omega (arith, max_sequence-Numbered (rows_of id db.rows) (h.numbered id))) t;
    }
  ]

  -- The conversation's rows behind a deletion, counted.
  length-delete_behind :
      (id : ℤ) (keep : ℕ) (rs : List Row)
      → AreNumbered rs
      → keep ≤ length (rows_of id rs)
      → length (rows_of id (delete_behind id keep rs)) ≡ keep
  length-delete_behind id keep rs h fits =
      rw (delete_behind-take id keep rs (h id)) (length-take_le keep (rows_of id rs) fits)

  -- ReplaceTailAndAppendTurn, whether it commits or fails at whichever statement, and however much
  -- it keeps, leaves every conversation numbered from 1 without gaps.
  pub replace_turn-IsValid :
      (db : Tables) (id keep : ℤ) (u a : Message)
      → IsValid db
      → IsValid (replace_tail_and_append_turn c db id keep u a).0
  unfolding replace_tail_and_append_turn
  replace_turn-IsValid db id (negsuc k) u a h = h
  replace_turn-IsValid db id (pos keep) u a h = elim (replace_turn-rows c db id keep u a) [
    | inr (e, failed, kept) ↦ record { numbered = rw kept h.numbered }
    | inl (fine, fit, fits, t) ↦ record {
      numbered =
          TurnRows-AreNumbered id _ u a (delete_behind id keep db.rows) _
            (delete_behind-AreNumbered id keep db.rows h.numbered)
            (omega (arith, length-delete_behind id keep db.rows h.numbered fits)) t;
    }
  ]
