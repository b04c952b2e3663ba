-- ===== src/Storage/Messages/Turns.antt =====
-- What the transactions of internal/storage/sqlite.go do to the table of messages.
use pyttechat.Base.{
  ℕ, ◌+◌, ◌≤◌, false, List, [], ◌∷◌, ◌++◌, none, some, ℤ, Bytes, ltb, if◌then◌else◌, length, ◌≡◌,
  refl, ◌⊎◌, inl, inr, arith, Bool-cases, Option-cases, append_assoc, pos,
}
use pyttechat.Errors.{Error, invalid_argument, Result, ok, err, Result-cases}
use pyttechat.Llm.{Message}
use pyttechat.Storage.Messages.{
  Row, Tables, Codec, rows_of, max_sequence, delete_behind, exec, next_trouble, and_next,
  transaction, insert_message, nothing, row_of, completed_at_value, insert_turn_at_sequence,
  append_turn, replace_tail_and_append_turn, append_in, replace_in, is_refused, select_max,
  select_count, delete_tail,
}

module _ (c : Codec) where
  -- The two rows of a turn, from sequence `n` on.
  pub record TurnRows (id : ℤ) (n : ℕ) (u a : Message) (before after : List Row) : Type 0 where
    pub user_parts : Bytes
    pub assistant_parts : Bytes
    pub user_ok : c.marshal u.parts ≡ ok user_parts
    pub assistant_ok : c.marshal a.parts ≡ ok assistant_parts
    pub rows :
        after
        ≡ before
          ++ row_of c id n u user_parts none
            ∷ row_of c id (n + 1) a assistant_parts (completed_at_value c a.completed_at)
            ∷ []

  insert_message-rows :
      (row : Row) (db : Tables) (x : ℕ)
      → (exec (insert_message row) db).1 ≡ ok x
      → (exec (insert_message row) db).0.rows ≡ db.rows ++ row ∷ []
  unfolding exec insert_message
  insert_message-rows row db x h = ground arith

  insert_turn-rows :
      (id : ℤ) (n x : ℕ) (u a : Message) (db db' : Tables)
      → insert_turn_at_sequence c id n u a db ≡ (db', ok x)
      → TurnRows id n u a db.rows db'.rows
  unfolding insert_turn_at_sequence and_next
  insert_turn-rows id n x u a db db' h = elim (Result-cases (c.marshal u.parts)) [
    | inr (e, eu) ↦ absurd (ground arith)
    | inl (ju, eu) ↦ elim (Result-cases (c.marshal a.parts)) [
      | inr (e, ea) ↦ absurd (ground arith)
      | inl (ja, ea) ↦
          let ru = row_of c id n u ju none in
          let ra = row_of c id (n + 1) a ja (completed_at_value c a.completed_at) in
          let (db₁, _) = exec (insert_message ru) db in
          record {
            user_parts = ju;
            assistant_parts = ja;
            user_ok = eu;
            assistant_ok = ea;
            rows = ground (
              arith,
              insert_message-rows ru db,
              insert_message-rows ra db₁ x,
              append_assoc db.rows (ru ∷ []) (ra ∷ []),
            );
          }
    ]
  ]

-- A transaction that committed ran its body on the tables, and its rows are those of the body.
pub record Committed (body : Tables → Tables × Result ℕ) (db db' : Tables) : Type 0 where
  pub value : ℕ
  pub begun : Tables
  pub ended : Tables
  pub begun_rows : begun.rows ≡ db.rows
  pub ran : body begun ≡ (ended, ok value)
  pub ended_rows : db'.rows ≡ ended.rows

rows-exec : (db : Tables) → (exec nothing db).0.rows ≡ db.rows
unfolding exec nothing
rows-exec db = ground arith

pub transaction_cases :
    (body : Tables → Tables × Result ℕ) (db : Tables)
    → let (db', failure) = transaction body db in
      ((failure ≡ none) × Committed body db db')
      ⊎ ((e : Error) × (failure ≡ some e) × (db'.rows ≡ db.rows))
unfolding transaction and_next
transaction_cases body db = elim (Result-cases (exec nothing db).1) [
  | inr (e, failed) ↦ inr (e, ground arith, ground arith)
  | inl (x, began) ↦
      let tx = (exec nothing db).0 in
      elim (Result-cases (body tx).1) [
        | inr (e, failed) ↦ inr (e, ground arith, ground arith)
        | inl (y, ran) ↦
            let after = (body tx).0 in
            elim (Result-cases (exec nothing after).1) [
              | inr (e, failed) ↦ inr (e, ground arith, ground arith)
              | inl (z, ended) ↦ inl (
                ground arith,
                record {
                  value = y;
                  begun = tx;
                  ended = after;
                  begun_rows = rows-exec db;
                  ran = ground arith;
                  ended_rows = ground (arith, rows-exec after);
                },
              )
            ]
      ]
]

-- A statement that succeeds has done its work, on the rows as they were.
exec-ok :
    (work : Tables → Tables × Result ℕ) (db : Tables) (x : ℕ)
    → (exec work db).1 ≡ ok x
    → (started : Tables) × (started.rows ≡ db.rows) × (exec work db ≡ work started)
unfolding exec
exec-ok work db x h = elim (Option-cases (next_trouble db.troubles).0) [
  | inl e ↦ (record db { troubles = (next_trouble db.troubles).1 }, refl, rw (e, exec))
  | inr (f, e) ↦ absurd (ground arith)
]

module _ (c : Codec) where
  append_in-rows :
      (id : ℤ) (x : ℕ) (u a : Message) (tx after : Tables)
      → append_in c id u a tx ≡ (after, ok x)
      → TurnRows c id (max_sequence (rows_of id tx.rows) + 1) u a tx.rows after.rows
  unfolding append_in and_next
  append_in-rows id x u a tx after h = elim (Result-cases (exec (select_max id) tx).1) [
    | inr (e, failed) ↦ absurd (ground arith)
    | inl (m, e) ↦
        let (d, rows, done) = exec-ok (select_max id) tx m e in
        let run : insert_turn_at_sequence c id (max_sequence (rows_of id d.rows) + 1) u a d
            ≡ (after, ok x) =
          rw done at h in
        rw rows at (insert_turn-rows c id (max_sequence (rows_of id d.rows) + 1) x u a d after run)
  ]

  replace_rest-rows :
      (id : ℤ) (keep x : ℕ) (u a : Message) (d after : Tables)
      → (if ltb (length (rows_of id d.rows)) keep
          then (d, err invalid_argument)
          else and_next
              (exec (delete_tail id keep) d)
              (λ y. insert_turn_at_sequence c id (keep + 1) u a))
        ≡ (after, ok x)
      → (keep ≤ length (rows_of id d.rows))
        × TurnRows c id (keep + 1) u a (delete_behind id keep d.rows) after.rows
  unfolding and_next
  replace_rest-rows id keep x u a d after h =
      elim (Bool-cases (ltb (length (rows_of id d.rows)) keep)) [
        | inl e ↦ absurd (ground arith)
        | inr fits ↦ elim (Result-cases (exec (delete_tail id keep) d).1) [
          | inr (e, failed) ↦ absurd (ground arith)
          | inl (y, e) ↦
              let (d', rows, done) = exec-ok (delete_tail id keep) d y e in
              let d'' : Tables = record d' { rows = delete_behind id keep d'.rows } in
              let run : insert_turn_at_sequence c id (keep + 1) u a d'' ≡ (after, ok x) =
                rw done at (rw fits at h) in
              (
                ground (arith, fits),
                rw rows at (insert_turn-rows c id (keep + 1) x u a d'' after run),
              )
        ]
      ]

  replace_in-rows :
      (id : ℤ) (keep x : ℕ) (u a : Message) (tx after : Tables)
      → replace_in c id keep u a tx ≡ (after, ok x)
      → (keep ≤ length (rows_of id tx.rows))
        × TurnRows c id (keep + 1) u a (delete_behind id keep tx.rows) after.rows
  unfolding replace_in and_next
  replace_in-rows id keep x u a tx after h = elim (Result-cases (exec (select_count id) tx).1) [
    | inr (e, failed) ↦ absurd (ground arith)
    | inl (m, e) ↦
        let (d, rows, done) = exec-ok (select_count id) tx m e in
        rw rows at (replace_rest-rows id keep x u a d after (rw done at h))
  ]

  -- AppendTurn puts the two rows of the turn behind those of the conversation, or changes no row.
  pub append_turn-rows :
      (db : Tables) (id : ℤ) (u a : Message)
      → let (db', failure) = append_turn c db id u a in
        ((failure ≡ none)
          × (is_refused c id u a ≡ false)
          × TurnRows c id (max_sequence (rows_of id db.rows) + 1) u a db.rows db'.rows)
        ⊎ ((e : Error) × (failure ≡ some e) × (db'.rows ≡ db.rows))
  unfolding append_turn
  append_turn-rows db id u a = elim (Bool-cases (is_refused c id u a)) [
    | inl e ↦ rw (e, append_turn) (inr (invalid_argument, refl, refl))
    | inr e ↦ elim (transaction_cases (append_in c id u a) db) [
      | inr (f, failed, kept) ↦ rw (e, append_turn) (inr (f, failed, kept))
      | inl (fine, done) ↦
          let t = append_in-rows id done.value u a done.begun done.ended done.ran in
          rw (e, append_turn) (inl (fine, refl, rw (done.begun_rows, ← done.ended_rows) at t))
    ]
  ]

  -- ReplaceTailAndAppendTurn does so behind the rows that it keeps, or changes no row.
  pub replace_turn-rows :
      (db : Tables) (id : ℤ) (keep : ℕ) (u a : Message)
      → let (db', failure) = replace_tail_and_append_turn c db id (pos keep) u a in
        ((failure ≡ none)
          × (is_refused c id u a ≡ false)
          × (keep ≤ length (rows_of id db.rows))
          × TurnRows c id (keep + 1) u a (delete_behind id keep db.rows) db'.rows)
        ⊎ ((e : Error) × (failure ≡ some e) × (db'.rows ≡ db.rows))
  unfolding replace_tail_and_append_turn
  replace_turn-rows db id keep u a = elim (Bool-cases (is_refused c id u a)) [
    | inl e ↦ rw (e, replace_tail_and_append_turn) (inr (invalid_argument, refl, refl))
    | inr e ↦ elim (transaction_cases (replace_in c id keep u a) db) [
      | inr (f, failed, kept) ↦ rw (e, replace_tail_and_append_turn) (inr (f, failed, kept))
      | inl (fine, done) ↦
          let (fits, t) = replace_in-rows id keep done.value u a done.begun done.ended done.ran in
          rw (e, replace_tail_and_append_turn)
            (inl (
              fine,
              refl,
              rw done.begun_rows at fits,
              rw (done.begun_rows, ← done.ended_rows) at t,
            ))
    ]
  ]
