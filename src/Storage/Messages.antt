-- ===== src/Storage/Messages.antt =====
-- internal/storage/sqlite.go: Messages, AppendTurn and ReplaceTailAndAppendTurn over the table of
-- messages. A table is its rows in the order of their ids. A transaction works on a copy of the
-- tables, which takes their place when it commits. `troubles` says which of the statements to come
-- fail, and how; a statement that has no entry succeeds.
pub mod Rows
pub mod Turns
pub mod Valid
pub mod Promises
use pyttechat.Base.{
  ℕ, zero, suc, ◌+◌, ◌-◌, Bool, true, false, ◌&&◌, ◌||◌, not, List, [], ◌∷◌, ◌++◌, Option, none,
  some, ℤ, pos, negsuc, is_not_positive, Bytes, ltb, leb, ◌==◌, if◌then◌else◌, length,
}
use pyttechat.Errors.{Error, invalid_argument, Result, ok, err, ◌>>=◌}
use pyttechat.Text.{trim_space, is_empty}
use pyttechat.Llm.{Part, Role, is_user, is_assistant, Message, clone_message}

-- a == b on int64
abbrev pub same_id : ℤ → ℤ → Bool
same_id (pos a) (pos b) = a == b
same_id (negsuc a) (negsuc b) = a == b
same_id _ _ = false

-- CREATE TABLE messages, without its keys and the time of creation, which nothing reads.
pub record Row : Type 0 where
  pub conversation_id : ℤ
  pub sequence : ℕ
  pub role : Role
  pub parts_json : Bytes
  pub completed_at : Option Bytes

pub record Tables : Type 0 where
  pub conversations : List ℤ
  pub rows : List Row
  pub troubles : List (Option Error)

-- encoding/json on []llm.Part, and the format of time.RFC3339Nano in UTC.
pub record Codec : Type 0 where
  pub marshal : List Part → Result Bytes
  pub unmarshal : Bytes → Result (List Part)
  pub format_time : ℕ → Bytes
  pub parse_time : Bytes → Result ℕ

-- How one reading of the messages fails, where it does: the query, the call of Next for the row
-- with an index, which ends the loop and is what rows.Err returns, and the scan of that row.
pub record Reading : Type 0 where
  pub query_error : Option Error
  pub next_error : ℕ → Option Error
  pub scan_error : ℕ → Option Error

-- if err != nil { return nil, err }
abbrev pub fails_or : {A : Type 0} → Option Error → Result A → Result A
fails_or none r = r
fails_or (some e) r = err e

-- WHERE conversation_id = ?
unfoldable pub rows_of : ℤ → List Row → List Row
rows_of id [] = []
rows_of id (r ∷ rs) =
    let rest = rows_of id rs in if same_id r.conversation_id id then r ∷ rest else rest

-- ORDER BY sequence ASC
unfoldable pub insert_row : Row → List Row → List Row
insert_row r [] = r ∷ []
insert_row r (s ∷ rest) =
    let later = insert_row r rest in if leb r.sequence s.sequence then r ∷ s ∷ rest else s ∷ later

unfoldable pub by_sequence : List Row → List Row
unfolding insert_row
by_sequence [] = []
by_sequence (r ∷ rs) = insert_row r (by_sequence rs)

-- COALESCE(MAX(sequence), 0), of the rows of a conversation
unfoldable pub max_sequence : List Row → ℕ
max_sequence [] = 0
max_sequence (r ∷ rs) =
    let rest = max_sequence rs in if ltb rest r.sequence then r.sequence else rest

-- DELETE FROM messages WHERE conversation_id = ? AND sequence > ?
unfoldable pub delete_behind : ℤ → ℕ → List Row → List Row
delete_behind id keep [] = []
delete_behind id keep (r ∷ rs) =
    let rest = delete_behind id keep rs in
    if same_id r.conversation_id id && ltb keep r.sequence then rest else r ∷ rest

abbrev pub select_max : ℤ → Tables → Tables × Result ℕ
select_max id db = (db, ok (max_sequence (rows_of id db.rows)))

-- SELECT COUNT(*)
abbrev pub select_count : ℤ → Tables → Tables × Result ℕ
select_count id db = (db, ok (length (rows_of id db.rows)))

abbrev pub delete_tail : ℤ → ℕ → Tables → Tables × Result ℕ
delete_tail id keep db = (record db { rows = delete_behind id keep db.rows }, ok 0)

-- The key (conversation_id, sequence) is taken.
unfoldable pub is_taken : ℤ → ℕ → List Row → Bool
is_taken id n [] = false
is_taken id n (r ∷ rs) = (same_id r.conversation_id id && r.sequence == n) || is_taken id n rs

abbrev is_known : ℤ → List ℤ → Bool
is_known id [] = false
is_known id (c ∷ cs) = same_id c id || is_known id cs

-- How the next statement fails, if it does.
abbrev pub next_trouble : List (Option Error) → Option Error × List (Option Error)
next_trouble [] = (none, [])
next_trouble (t ∷ ts) = (t, ts)

module _ {A : Type 0} where
  -- A statement: it fails as it is told, or does its work on the tables.
  unfoldable pub exec : (Tables → Tables × Result A) → Tables → Tables × Result A
  exec work db =
      let (trouble, rest) = next_trouble db.troubles in
      elim trouble [
        | some e ↦ (record db { troubles = rest }, err e)
        | none ↦ work (record db { troubles = rest })
      ]

  -- One step behind another, while none fails.
  unfoldable pub and_next {κ} :
      {B : Type κ} → Tables × Result A → (A → Tables → Tables × Result B) → Tables × Result B
  and_next (db, ok a) work = work a db
  and_next (db, err e) work = (db, err e)

-- BEGIN and COMMIT
unfoldable pub nothing : Tables → Tables × Result ℕ
nothing db = (db, ok 0)

-- BeginTx, the body, Commit; behind a failure Rollback leaves the tables of before.
unfoldable pub transaction : (Tables → Tables × Result ℕ) → Tables → Tables × Option Error
unfolding exec and_next nothing
transaction body db =
    let (db', r) = and_next (and_next (exec nothing db) (λ x. body)) (λ x. exec nothing) in
    elim r [ ok x ↦ (db', none) | err e ↦ (record db { troubles = db'.troubles }, some e) ]

-- INSERT INTO messages; a violated constraint is ErrInvalidArgument.
unfoldable pub insert_message : Row → Tables → Tables × Result ℕ
insert_message row db =
    if is_known row.conversation_id db.conversations
      && not (is_taken row.conversation_id row.sequence db.rows)
    then (record db { rows = db.rows ++ row ∷ [] }, ok 0)
    else (db, err invalid_argument)

module _ (c : Codec) where
  -- completedAtValue
  abbrev pub completed_at_value : ℕ → Option Bytes
  completed_at_value t = if t == 0 then none else some (c.format_time t)

  abbrev pub row_of : ℤ → ℕ → Message → Bytes → Option Bytes → Row
  row_of id n m json completed = record {
    conversation_id = id;
    sequence = n;
    role = m.role;
    parts_json = json;
    completed_at = completed;
  }

  -- insertTurnAtSequence
  unfoldable pub insert_turn_at_sequence : ℤ → ℕ → Message → Message → Tables → Tables × Result ℕ
  unfolding exec and_next insert_message
  insert_turn_at_sequence id first u a db = elim (c.marshal u.parts) [
    | err e ↦ (db, err e)
    | ok user_parts ↦ elim (c.marshal a.parts) [
      | err e ↦ (db, err e)
      | ok assistant_parts ↦
          and_next (exec (insert_message (row_of id first u user_parts none)) db) (λ x. exec (
            insert_message
              (row_of id (first + 1) a assistant_parts (completed_at_value a.completed_at))))
    ]
  ]

  -- The transaction of AppendTurn.
  unfoldable pub append_in : ℤ → Message → Message → Tables → Tables × Result ℕ
  append_in id u a tx =
      and_next (exec (select_max id) tx) (λ max. insert_turn_at_sequence id (max + 1) u a)

  -- The transaction of ReplaceTailAndAppendTurn.
  unfoldable pub replace_in : ℤ → ℕ → Message → Message → Tables → Tables × Result ℕ
  replace_in id keep u a tx = and_next (exec (select_count id) tx) (λ count d.
      if ltb count keep
      then (d, err invalid_argument)
      else and_next (exec (delete_tail id keep) d) (λ x. insert_turn_at_sequence id (keep + 1) u a))

  -- conversationID <= 0 || userMessage.Role != RoleUser || assistantMessage.Role != RoleAssistant
  abbrev pub is_refused : ℤ → Message → Message → Bool
  is_refused id u a = is_not_positive id || (not (is_user u.role) || not (is_assistant a.role))

  -- AppendTurn
  unfoldable pub append_turn : Tables → ℤ → Message → Message → Tables × Option Error
  append_turn db id u a =
      if is_refused id u a then (db, some invalid_argument) else transaction (append_in id u a) db

  -- ReplaceTailAndAppendTurn
  unfoldable pub replace_tail_and_append_turn :
      Tables → ℤ → ℤ → Message → Message → Tables × Option Error
  replace_tail_and_append_turn db id (negsuc k) u a = (db, some invalid_argument)
  replace_tail_and_append_turn db id (pos keep) u a =
      if is_refused id u a
      then (db, some invalid_argument)
      else transaction (replace_in id keep u a) db

  -- The scan of `completed_at` in Messages.
  abbrev read_time : Option Bytes → Result ℕ
  read_time none = ok 0
  read_time (some t) = if is_empty (trim_space t) then ok 0 else c.parse_time t

  -- The body of the loop of Messages.
  unfoldable pub read_row : Row → Result Message
  read_row r = c.unmarshal r.parts_json >>= λ parts. read_time r.completed_at >>= λ t.
      ok (clone_message (record { role = r.role; parts = parts; completed_at = t }))

  -- The loop of Messages from the row with index `i`, and rows.Err behind it.
  unfoldable pub read_rows : Reading → ℕ → List Row → Result (List Message)
  read_rows f i [] = fails_or (f.next_error i) (ok [])
  read_rows f i (r ∷ rs) =
      let rest = read_rows f (suc i) rs in
      fails_or (f.next_error i)
        (fails_or (f.scan_error i) (read_row r >>= λ m. rest >>= λ ms. ok (m ∷ ms)))

  -- Messages
  unfoldable pub messages : Reading → Tables → ℤ → Result (List Message)
  unfolding read_rows
  messages f db id =
      if is_not_positive id
      then err invalid_argument
      else fails_or f.query_error (read_rows f 0 (by_sequence (rows_of id db.rows)))
