-- ===== src/Storage/Accounts.antt =====
-- internal/storage/sqlite.go: the users and the web sessions. `fault` is how the statement of a call
-- fails by itself, and `now` is the clock.
pub mod Lookup
use pyttechat.Base.{
  ℕ, zero, suc, ◌+◌, Bool, true, false, ◌||◌, List, [], ◌∷◌, ◌++◌, Option, none, some, ℤ, pos,
  negsuc, is_not_positive, Bytes, ◌==◌, if◌then◌else◌,
}
use pyttechat.Errors.{Error, invalid_argument, conflict, not_found, Result, ok, err, ◌>>=◌}
use pyttechat.Text.{trim_space, is_empty, eq_bytes}
use pyttechat.Storage.Messages.{Codec}

pub record User : Type 0 where
  pub id : ℕ
  pub username : Bytes
  pub password_hash : Bytes
  pub created_at : ℕ

-- CREATE TABLE users
pub record UserRow : Type 0 where
  pub id : ℕ
  pub username : Bytes
  pub password_hash : Bytes
  pub created_at : Bytes

-- type Session, and CreateSessionParams, which has the same fields
pub record Session : Type 0 where
  pub id : Bytes
  pub user_id : ℤ
  pub secret_hash : Bytes
  pub csrf_token : Bytes
  pub expires_at : ℕ
  pub created_at : ℕ

-- CREATE TABLE web_sessions
pub record SessionRow : Type 0 where
  pub id : Bytes
  pub user_id : Option ℕ
  pub secret_hash : Bytes
  pub csrf_token : Bytes
  pub expires_at : Bytes
  pub created_at : Bytes

pub record Accounts : Type 0 where
  pub users : List UserRow
  pub sessions : List SessionRow
  pub last_user_id : ℕ

-- SELECT ... FROM users WHERE username = ?
unfoldable pub find_user : Bytes → List UserRow → Option UserRow
find_user name [] = none
find_user name (u ∷ us) =
    let rest = find_user name us in if eq_bytes u.username name then some u else rest

-- SELECT ... FROM web_sessions WHERE id = ?
unfoldable pub find_session : Bytes → List SessionRow → Option SessionRow
find_session id [] = none
find_session id (s ∷ ss) =
    let rest = find_session id ss in if eq_bytes s.id id then some s else rest

-- DELETE FROM web_sessions WHERE id = ?
unfoldable pub remove_session : Bytes → List SessionRow → List SessionRow
remove_session id [] = []
remove_session id (s ∷ ss) =
    let rest = remove_session id ss in if eq_bytes s.id id then rest else s ∷ rest

-- The key of a user is there.
abbrev pub is_user_id : ℕ → List UserRow → Bool
is_user_id n [] = false
is_user_id n (u ∷ us) = u.id == n || is_user_id n us

-- REFERENCES users(id), where the column is not NULL
abbrev refers : Option ℕ → List UserRow → Bool
refers none us = true
refers (some n) us = is_user_id n us

-- nonZeroUTC
abbrev pub non_zero_utc : ℕ → ℕ → ℕ
non_zero_utc now t = if t == 0 then now else t

-- if params.UserID > 0 { userID = params.UserID }
abbrev pub user_column : ℤ → Option ℕ
user_column (pos zero) = none
user_column (pos (suc n)) = some (suc n)
user_column (negsuc n) = none

-- if userID.Valid { session.UserID = userID.Int64 }
abbrev pub user_field : Option ℕ → ℤ
user_field none = pos 0
user_field (some n) = pos n

module _ (c : Codec) (now : ℕ) where
  -- CreateUser
  unfoldable pub create_user : Option Error → Bytes → Bytes → ℕ → Accounts → Accounts × Result User
  create_user fault username hash created db =
      if is_empty (trim_space username) || is_empty hash
      then (db, err invalid_argument)
      else elim fault [
        | some e ↦ (db, err e)
        | none ↦ elim (find_user username db.users) [
          | some u ↦ (db, err conflict)
          | none ↦
              let id = db.last_user_id + 1 in
              let at = non_zero_utc now created in
              (
                record db {
                  users =
                      db.users
                      ++ record {
                        id = id;
                        username = username;
                        password_hash = hash;
                        created_at = c.format_time at;
                      }
                        ∷ [];
                  last_user_id = id;
                },
                ok (record { id = id; username = username; password_hash = hash; created_at = at }),
              )
        ]
      ]

  -- UserByUsername
  unfoldable pub user_by_username : Option Error → Bytes → Accounts → Result User
  user_by_username (some e) username db = err e
  user_by_username none username db = elim (find_user username db.users) [
    | none ↦ err not_found
    | some u ↦ c.parse_time u.created_at >>= λ t. ok (record {
      id = u.id;
      username = u.username;
      password_hash = u.password_hash;
      created_at = t;
    })
  ]

  abbrev pub session_row : Session → SessionRow
  session_row p = record {
    id = p.id;
    user_id = user_column p.user_id;
    secret_hash = p.secret_hash;
    csrf_token = p.csrf_token;
    expires_at = c.format_time (non_zero_utc now p.expires_at);
    created_at = c.format_time (non_zero_utc now p.created_at);
  }

  -- createSession
  unfoldable pub create_session : Option Error → Session → Accounts → Accounts × Result Session
  create_session fault p db =
      if is_empty (trim_space p.id)
        || (is_empty p.secret_hash || is_empty (trim_space p.csrf_token))
      then (db, err invalid_argument)
      else elim fault [
        | some e ↦ (db, err e)
        | none ↦ elim (find_session p.id db.sessions) [
          | some s ↦ (db, err conflict)
          | none ↦
              if refers (user_column p.user_id) db.users
              then (
                record db { sessions = db.sessions ++ session_row p ∷ [] },
                ok (record p {
                  expires_at = non_zero_utc now p.expires_at;
                  created_at = non_zero_utc now p.created_at;
                }),
              )
              else (db, err conflict)
        ]
      ]

  -- The deletion in RotateSession.
  abbrev pub without_old : Bytes → Accounts → Accounts
  without_old old db =
      if is_empty (trim_space old)
      then db
      else record db { sessions = remove_session old db.sessions }

  -- RotateSession; `fault` is the failure of BeginTx or of the deletion, `late` that of the insertion,
  -- `last` that of Commit.
  unfoldable pub rotate_session :
      Option Error
      → Option Error
      → Option Error
      → Bytes
      → Session
      → Accounts
      → Accounts × Result Session
  rotate_session (some e) late last old p db = (db, err e)
  rotate_session none late last old p db =
      let (db', r) = create_session late p (without_old old db) in
      elim r [
        | err e ↦ (db, err e)
        | ok s ↦ elim last [ some e ↦ (db, err e) | none ↦ (db', ok s) ]
      ]

  -- SessionByID
  unfoldable pub session_by_id : Option Error → Bytes → Accounts → Result Session
  session_by_id (some e) id db = err e
  session_by_id none id db = elim (find_session id db.sessions) [
    | none ↦ err not_found
    | some s ↦ c.parse_time s.expires_at >>= λ expires. c.parse_time s.created_at >>= λ created.
        ok (record {
          id = s.id;
          user_id = user_field s.user_id;
          secret_hash = s.secret_hash;
          csrf_token = s.csrf_token;
          expires_at = expires;
          created_at = created;
        })
  ]

-- DeleteSession
unfoldable pub delete_session : Option Error → Bytes → Accounts → Accounts × Option Error
delete_session (some e) id db = (db, some e)
delete_session none id db = (record db { sessions = remove_session id db.sessions }, none)
