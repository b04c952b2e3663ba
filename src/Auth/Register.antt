-- ===== src/Auth/Register.antt =====
-- Who registered can sign in: internal/auth over the store of internal/storage/sqlite.go.
use pyttechat.Base.{
  ℕ, ◌+◌, true, List, [], ◌∷◌, ◌++◌, Option, none, some, Bytes, if◌then◌else◌, ◌≡◌, ap, ◌∙◌, inl,
  inr, arith,
}
use pyttechat.Errors.{Error, invalid_credentials, ok, err, Result-cases}
use pyttechat.Text.{eq_bytes}
use pyttechat.Text.Laws.{eq_bytes_refl}
use pyttechat.Storage.Messages.{Codec}
use pyttechat.Storage.Accounts.{
  User, UserRow, Accounts, non_zero_utc, find_user, create_user, user_by_username,
}
use pyttechat.Auth.{Crypto, Service, normalize_username, register, authenticate}
use pyttechat.Auth.Sqlite.{sqlite_users, ReadsTimes}

find_user-append :
    (name : Bytes) (us : List UserRow) (u : UserRow)
    → find_user name us ≡ none
    → find_user name (us ++ u ∷ []) ≡ (if eq_bytes u.username name then some u else none)
unfolding find_user
find_user-append name [] u h = ground arith
find_user-append name (r ∷ us) u h = ground (arith, find_user-append name us u)

-- The row of a new user.
abbrev user_row : Codec → Bytes → Bytes → ℕ → ℕ → UserRow
user_row c name hash at id = record {
  id = id;
  username = name;
  password_hash = hash;
  created_at = c.format_time at;
}

module _ (c : Codec) (clock : ℕ) where
  create_user-row :
      (fault : Option Error) (name hash : Bytes) (at : ℕ) (u : User) (db db' : Accounts)
      → create_user c clock fault name hash at db ≡ (db', ok u)
      → let at' = non_zero_utc clock at in
        let id = db.last_user_id + 1 in
        (find_user name db.users ≡ none)
        × (db'.users ≡ db.users ++ user_row c name hash at' id ∷ [])
        × (u ≡ record { id = id; username = name; password_hash = hash; created_at = at' })
  unfolding create_user
  create_user-row (some e) name hash at u db db' h = absurd (ground (arith, h))
  create_user-row none name hash at u db db' h = ground arith

  create_user_finds :
      (fault : Option Error) (name hash : Bytes) (at : ℕ) (u : User) (db db' : Accounts)
      → ReadsTimes c clock
      → create_user c clock fault name hash at db ≡ (db', ok u)
      → (user_by_username c clock none name db' ≡ ok u) × (u.password_hash ≡ hash)
  unfolding user_by_username
  create_user_finds fault name hash at u db db' reads h =
      let (free, rows, same) = create_user-row fault name hash at u db db' h in
      let row = user_row c name hash (non_zero_utc clock at) (db.last_user_id + 1) in
      (
        rw (
          rows,
          find_user-append name db.users row free,
          eq_bytes_refl name,
          user_by_username,
          reads (non_zero_utc clock at),
          same,
        ),
        ap (λ x. x.password_hash) same,
      )

  -- bcrypt: the hash of a password matches it.
  abbrev pub MatchesHash : Crypto → Type 0
  MatchesHash crypto = (p h : Bytes) → crypto.hash_password p ≡ ok h → crypto.matches h p ≡ true

  record Registered (s : Service Accounts) (username password : Bytes) (db db' : Accounts)
      (u : User) : Type 0 where
    pub name : Bytes
    pub hash : Bytes
    pub normal : normalize_username s.crypto username ≡ ok name
    pub hashed : s.crypto.hash_password password ≡ ok hash
    pub added : s.store.create_user name hash s.now db ≡ (db', ok u)

  register-Registered :
      (s : Service Accounts) (username password : Bytes) (db db' : Accounts) (u : User)
      → register s username password db ≡ (db', ok u)
      → Registered s username password db db' u
  unfolding register
  register-Registered s username password db db' u h =
      elim (Result-cases (normalize_username s.crypto username)) [
        | inr (x, failed) ↦ absurd (ground arith)
        | inl (name, normal) ↦ elim (Result-cases (s.crypto.hash_password password)) [
          | inr (x, failed) ↦ absurd (ground arith)
          | inl (hash, hashed) ↦ elim (Result-cases (s.store.create_user name hash s.now db).1) [
            | inr (x, failed) ↦ absurd (ground arith)
            | inl (made, e) ↦ record {
              name = name;
              hash = hash;
              normal = normal;
              hashed = hashed;
              added = ground arith;
            }
          ]
        ]
      ]

  -- Who has registered with the store of SQLite signs in with the same password under every
  -- spelling of the name that has the same normal form, and gets the account that was made; any
  -- other password is judged by bcrypt on the stored hash alone. This holds where the times that
  -- are written can be read again and bcrypt takes a password for the hash that it made of it.
  pub authenticate-register :
      (crypto : Crypto) (now ttl : ℕ) (fault : Option Error) (username again password : Bytes)
      (db db' : Accounts) (u : User)
      → let s : Service Accounts = record {
        store = sqlite_users c clock fault;
        crypto = crypto;
        now = now;
        session_ttl = ttl;
      } in
        ReadsTimes c clock
        → MatchesHash crypto
        → normalize_username crypto again ≡ normalize_username crypto username
        → register s username password db ≡ (db', ok u)
        → (authenticate s again password db' ≡ ok u)
          × ((other : Bytes)
              → authenticate s again other db'
                ≡ (if crypto.matches u.password_hash other then ok u else err invalid_credentials))
  unfolding authenticate
  authenticate-register crypto now ttl fault username again password db db' u reads hashes same h =
      let s : Service Accounts = record {
        store = sqlite_users c clock fault;
        crypto = crypto;
        now = now;
        session_ttl = ttl;
      } in
      let made = register-Registered s username password db db' u h in
      let (found, hash) =
        create_user_finds fault made.name made.hash now u db db' reads made.added in
      let judged : (other : Bytes)
          → authenticate s again other db'
            ≡ (if crypto.matches u.password_hash other then ok u else err invalid_credentials) =
        λ other. rw (same, made.normal, found, authenticate) in
      (judged password ∙ rw (hash, hashes password made.hash made.hashed), judged)
