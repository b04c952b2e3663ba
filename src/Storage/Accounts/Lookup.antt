-- ===== src/Storage/Accounts/Lookup.antt =====
-- What a lookup finds behind the changes of internal/storage/sqlite.go to the web sessions.
use pyttechat.Base.{
  ℕ, false, List, [], ◌∷◌, ◌++◌, none, some, pos, Bytes, ◌≡◌, refl, arith, if◌then◌else◌,
}
use pyttechat.Errors.{not_found, ok, err}
use pyttechat.Text.{eq_bytes}
use pyttechat.Text.Laws.{eq_bytes_refl, eq_bytes→eq}
use pyttechat.Storage.Messages.{Codec}
use pyttechat.Storage.Accounts.{
  non_zero_utc, Session, SessionRow, Accounts, find_session, remove_session, session_by_id,
  delete_session, session_row, create_session, user_column, user_field,
}

pub find_session-remove_session :
    (id : Bytes) (ss : List SessionRow) → find_session id (remove_session id ss) ≡ none
unfolding find_session remove_session
find_session-remove_session id [] = refl
find_session-remove_session id (s ∷ ss) = ground (arith, find_session-remove_session id ss)

find_session-other :
    (id other : Bytes) (ss : List SessionRow)
    → eq_bytes id other ≡ false
    → find_session other (remove_session id ss) ≡ find_session other ss
unfolding find_session remove_session
find_session-other id other [] h = refl
find_session-other id other (s ∷ ss) h =
    ground (arith, find_session-other id other ss h, eq_bytes→eq s.id id, eq_bytes→eq s.id other)

-- A session that was deleted is not found any more, and every other session is found as before.
pub delete_session_removes :
    (c : Codec) (now : ℕ) (id : Bytes) (db : Accounts)
    → let (db', failure) = delete_session none id db in
      (session_by_id c now none id db' ≡ err not_found)
      × ((other : Bytes)
          → eq_bytes id other ≡ false
          → session_by_id c now none other db' ≡ session_by_id c now none other db)
unfolding delete_session session_by_id
delete_session_removes c now id db = (
  rw (find_session-remove_session id db.sessions, session_by_id),
  λ other h. rw (find_session-other id other db.sessions h, session_by_id),
)

pub find_session-append :
    (id : Bytes) (ss : List SessionRow) (s : SessionRow)
    → find_session id ss ≡ none
    → find_session id (ss ++ s ∷ []) ≡ (if eq_bytes s.id id then some s else none)
unfolding find_session
find_session-append id [] s h = ground arith
find_session-append id (r ∷ ss) s h = ground (arith, find_session-append id ss s)

user_field-user_column : (n : ℕ) → user_field (user_column (pos n)) ≡ pos n
user_field-user_column n = ground arith

module _ (c : Codec) (now : ℕ) where
  pub create_session-row :
      (p s : Session) (db db' : Accounts)
      → create_session c now none p db ≡ (db', ok s)
      → (find_session p.id db.sessions ≡ none)
        × (db'.sessions ≡ db.sessions ++ session_row c now p ∷ [])
        × (s ≡ record p {
          expires_at = non_zero_utc now p.expires_at;
          created_at = non_zero_utc now p.created_at;
        })
  unfolding create_session
  create_session-row p s db db' h = ground arith

  -- A session that was created is found under its id, with the fields that the call returned, if the
  -- times in the table can be read again.
  pub create_session_finds :
      (p s : Session) (n : ℕ) (db db' : Accounts)
      → ((t : ℕ) → c.parse_time (c.format_time t) ≡ ok t)
      → p.user_id ≡ pos n
      → create_session c now none p db ≡ (db', ok s)
      → session_by_id c now none p.id db' ≡ ok s
  unfolding session_by_id
  create_session_finds p s n db db' reads user h =
      let (free, rows, same) = create_session-row p s db db' h in
      rw (
        rows,
        find_session-append p.id db.sessions (session_row c now p) free,
        eq_bytes_refl p.id,
        session_by_id,
        reads (non_zero_utc now p.expires_at),
        reads (non_zero_utc now p.created_at),
        same,
        user,
        user_field-user_column n,
      )
