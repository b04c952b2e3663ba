-- ===== src/Auth/Sqlite.antt =====
-- internal/auth over the store of internal/storage/sqlite.go.
use pyttechat.Base.{ℕ, ◌<◌, false, Option, none, some, pos, Bytes, ◌≡◌, ap, ◌∙◌, inl, inr, arith}
use pyttechat.Errors.{Error, not_found, ok, err, Result-cases}
use pyttechat.Text.{trim_space, is_empty, eq_bytes}
use pyttechat.Storage.Messages.{Codec}
use pyttechat.Storage.Accounts.{
  Session, Accounts, non_zero_utc, create_user, user_by_username, create_session, rotate_session,
  session_by_id, delete_session, session_row, without_old, remove_session,
}
use pyttechat.Storage.Accounts.Lookup.{
  find_session-remove_session, find_session-append, create_session-row, create_session_finds,
  delete_session_removes,
}
use pyttechat.Auth.{UserStore}
use pyttechat.Auth.Cookies.{SessionLaws}

module _ (c : Codec) (clock : ℕ) where
  -- The store of SQLite; the statements that write fail with `fault` or not at all.
  abbrev pub sqlite_users : Option Error → UserStore Accounts
  sqlite_users fault = record {
    create_user = λ name hash created db. create_user c clock fault name hash created db;
    user_by_username = λ name db. user_by_username c clock none name db;
    create_session = λ p db. create_session c clock fault p db;
    rotate_session = λ old p db. rotate_session c clock fault fault fault old p db;
    session_by_id = λ id db. session_by_id c clock none id db;
    delete_session = λ id db. delete_session fault id db;
  }

  -- The times of the table can be read again.
  abbrev pub ReadsTimes : Type 0
  ReadsTimes = (t : ℕ) → c.parse_time (c.format_time t) ≡ ok t

  non_zero : (t : ℕ) → 0 < t → non_zero_utc clock t ≡ t
  non_zero t h = ground (arith, h)

  create_session_fault :
      (e : Error) (p s : Session) (db db' : Accounts)
      → create_session c clock (some e) p db ≡ (db', ok s)
      → ⊥
  unfolding create_session
  create_session_fault e p s db db' h = ground (arith, h)

  created :
      ReadsTimes
      → (fault : Option Error) (p s : Session) (n : ℕ) (db db' : Accounts) → p.user_id ≡ pos n
      → create_session c clock fault p db ≡ (db', ok s)
      → (session_by_id c clock none p.id db' ≡ ok s)
        × (s.secret_hash ≡ p.secret_hash)
        × ((0 < p.expires_at) → s.expires_at ≡ p.expires_at)
  created reads (some e) p s n db db' user h = absurd (create_session_fault e p s db db' h)
  created reads none p s n db db' user h =
      let (_, _, same) = create_session-row c clock p s db db' h in
      (
        create_session_finds c clock p s n db db' reads user h,
        ap (λ x. x.secret_hash) same,
        λ positive. ap (λ x. x.expires_at) same ∙ non_zero p.expires_at positive,
      )

  -- A rotation that succeeded is a creation behind the deletion.
  rotate_session-ok :
      (fault : Option Error) (old : Bytes) (p s : Session) (db db' : Accounts)
      → rotate_session c clock fault fault fault old p db ≡ (db', ok s)
      → create_session c clock none p (without_old c clock old db) ≡ (db', ok s)
  unfolding rotate_session
  rotate_session-ok (some e) old p s db db' h = absurd (ground (arith, h))
  rotate_session-ok none old p s db db' h =
      elim (Result-cases (create_session c clock none p (without_old c clock old db)).1) [
        | inr (x, failed) ↦ absurd (ground arith)
        | inl (made, e) ↦ ground arith
      ]

  revoked :
      (fault : Option Error) (old : Bytes) (p s : Session) (db db' : Accounts)
      → is_empty (trim_space old) ≡ false
      → eq_bytes s.id old ≡ false
      → rotate_session c clock fault fault fault old p db ≡ (db', ok s)
      → session_by_id c clock none old db' ≡ err not_found
  unfolding session_by_id
  revoked fault old p s db db' shown other h =
      let (_, rows, same) =
        create_session-row c clock p s (without_old c clock old db) db'
          (rotate_session-ok fault old p s db db' h) in
      let id : s.id ≡ p.id = ap (λ x. x.id) same in
      rw (
        rows,
        shown,
        find_session-append old (remove_session old db.sessions) (session_row c clock p)
            (find_session-remove_session old db.sessions),
        ← id,
        other,
        session_by_id,
      )

  deleted :
      (fault : Option Error) (id : Bytes) (db db' : Accounts)
      → delete_session fault id db ≡ (db', none)
      → session_by_id c clock none id db' ≡ err not_found
  unfolding delete_session
  deleted (some e) id db db' h = absurd (ground (arith, h))
  deleted none id db db' h =
      let same : (delete_session none id db).0 ≡ db' = ap (λ p. p.0) h in
      rw (← same) (delete_session_removes c clock id db).0

  -- The store of SQLite keeps what the package relies on for its cookies, whether the statements that write fail or not, if the times
  -- it writes can be read again.
  pub sqlite_users-SessionLaws :
      ReadsTimes → (fault : Option Error) → SessionLaws (sqlite_users fault)
  sqlite_users-SessionLaws reads fault = record {
    created = created reads fault;
    rotated = λ old p s n db db' user h.
        created reads none p s n (without_old c clock old db) db' user
          (rotate_session-ok fault old p s db db' h);
    revoked = revoked fault;
    deleted = deleted fault;
  }
