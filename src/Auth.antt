-- ===== src/Auth.antt =====
-- internal/auth/auth.go: accounts and the cookies of browser sessions. What the package asks of the
-- store is the interface UserStore, over a state `W` of the store's own. bcrypt, sha256, base64 and
-- strings.ToLower are parameters.
pub mod Names
pub mod Alphabet
pub mod Cookies
pub mod Sqlite
pub mod Register
use pyttechat.Base.{
  ℕ, zero, suc, ◌+◌, Bool, true, false, ◌&&◌, ◌||◌, not, List, [], ◌∷◌, ◌++◌, Option, none, some, ℤ,
  pos, negsuc, is_not_positive, Bytes, ltb, leb, ◌==◌, if◌then◌else◌, length,
}
use pyttechat.Errors.{
  Error, conflict, invalid_argument, invalid_credentials, invalid_session, invalid_username,
  session_expired, username_taken, weak_password, eof, is_conflict, is_not_found, Result, ok, err,
}
use pyttechat.Text.{trim_space, is_empty, eq_bytes, cut_byte}
use pyttechat.Text.Laws.{codes}
use pyttechat.Storage.Accounts.{User, Session}

-- What the package calls of storage.Store.
pub record UserStore (W : Type 0) : Type 0 where
  pub create_user : Bytes → Bytes → ℕ → W → W × Result User
  pub user_by_username : Bytes → W → Result User
  pub create_session : Session → W → W × Result Session
  pub rotate_session : Bytes → Session → W → W × Result Session
  pub session_by_id : Bytes → W → Result Session
  pub delete_session : Bytes → W → W × Option Error

-- bcrypt.GenerateFromPassword, bcrypt.CompareHashAndPassword, sha256.Sum256,
-- base64.RawURLEncoding.EncodeToString, strings.ToLower.
pub record Crypto : Type 0 where
  pub hash_password : Bytes → Result Bytes
  pub matches : Bytes → Bytes → Bool
  pub sha256 : Bytes → Bytes
  pub base64 : Bytes → Bytes
  pub to_lower : Bytes → Bytes

-- `random` is what the reads of 32 bytes from the random source return, one after the other.
pub record World (W : Type 0) : Type 0 where
  pub db : W
  pub random : List (Result Bytes)

-- type Service, with the reading of its clock
pub record Service (W : Type 0) : Type 0 where
  pub store : UserStore W
  pub crypto : Crypto
  pub now : ℕ
  pub session_ttl : ℕ

pub record BrowserSession : Type 0 where
  pub cookie_value : Bytes
  pub session : Session

-- 720 hours in nanoseconds
abbrev pub default_session_ttl : ℕ
default_session_ttl = 2592000000000000

abbrev pub minimum_password_length : ℕ
minimum_password_length = 8

-- if sessionTTL <= 0 { sessionTTL = DefaultSessionTTL }
unfoldable pub ttl_or_default : ℤ → ℕ
ttl_or_default (pos zero) = default_session_ttl
ttl_or_default (pos (suc n)) = suc n
ttl_or_default (negsuc n) = default_session_ttl

-- NewService
unfoldable pub new_service : {W : Type 0} → UserStore W → Crypto → ℕ → ℤ → Service W
unfolding ttl_or_default
new_service store crypto now ttl = record {
  store = store;
  crypto = crypto;
  now = now;
  session_ttl = ttl_or_default ttl;
}

-- char == '.' || char == '_' || char == '-'
abbrev pub is_mark : ℕ → Bool
is_mark c = c == b'.' || (c == b'_' || c == b'-')

abbrev pub is_name_byte : ℕ → Bool
is_name_byte c = (leb b'a' c && leb c b'z') || ((leb b'0' c && leb c b'9') || is_mark c)

-- The loop of NormalizeUsername, at the byte with index `i` of `size`; a character beyond ASCII is
-- refused at its first byte.
unfoldable pub check_name : ℕ → ℕ → Bytes → Bool
check_name i size [] = true
check_name i size (c ∷ cs) =
    let rest = check_name (suc i) size cs in
    if not (is_name_byte c)
    then false
    else if (i == 0 || suc i == size) && is_mark c
    then false
    else rest

-- NormalizeUsername
unfoldable pub normalize_username : Crypto → Bytes → Result Bytes
unfolding check_name
normalize_username crypto username =
    let normalized = crypto.to_lower (trim_space username) in
    if ltb (length normalized) 3 || ltb 32 (length normalized)
    then err invalid_username
    else if check_name 0 (length normalized) normalized
    then ok normalized
    else err invalid_username

-- randomToken, with the random source behind it
unfoldable pub random_token :
    Crypto → Bytes → List (Result Bytes) → List (Result Bytes) × Result Bytes
random_token crypto kind [] = ([], err eof)
random_token crypto kind (err e ∷ rest) = (rest, err e)
random_token crypto kind (ok raw ∷ rest) = (rest, ok (kind ++ (codes "_" ++ crypto.base64 raw)))

-- The three tokens of createBrowserSession.
pub record Tokens : Type 0 where
  pub id : Bytes
  pub secret : Bytes
  pub csrf : Bytes

unfoldable pub draw_tokens : Crypto → List (Result Bytes) → List (Result Bytes) × Result Tokens
unfolding random_token
draw_tokens crypto random =
    let (random₁, id) = random_token crypto (codes "sess") random in
    elim id [
      | err e ↦ (random₁, err e)
      | ok id' ↦
          let (random₂, secret) = random_token crypto (codes "secret") random₁ in
          elim secret [
            | err e ↦ (random₂, err e)
            | ok secret' ↦
                let (random₃, csrf) = random_token crypto (codes "csrf") random₂ in
                elim csrf [
                  | err e ↦ (random₃, err e)
                  | ok csrf' ↦ (random₃, ok (record { id = id'; secret = secret'; csrf = csrf' }))
                ]
          ]
    ]

module _ {W : Type 0} (s : Service W) where
  -- What Register makes of the store's answer.
  abbrev register_result : Result User → Result User
  register_result (ok user) = ok user
  register_result (err e) = if is_conflict e then err username_taken else err e

  -- Register
  unfoldable pub register : Bytes → Bytes → W → W × Result User
  register username password db = elim (normalize_username s.crypto username) [
    | err e ↦ (db, err e)
    | ok normalized ↦
        if ltb (length password) minimum_password_length
        then (db, err weak_password)
        else elim (s.crypto.hash_password password) [
          | err e ↦ (db, err e)
          | ok hash ↦
              let (db', r) = s.store.create_user normalized hash s.now db in
              (db', register_result r)
        ]
  ]

  -- Authenticate
  unfoldable pub authenticate : Bytes → Bytes → W → Result User
  authenticate username password db = elim (normalize_username s.crypto username) [
    | err e ↦ err invalid_credentials
    | ok normalized ↦ elim (s.store.user_by_username normalized db) [
      | err e ↦ if is_not_found e then err invalid_credentials else err e
      | ok user ↦
          if s.crypto.matches user.password_hash password then ok user else err invalid_credentials
    ]
  ]

  -- The parameters of the new session.
  abbrev pub session_params : Tokens → ℤ → Session
  session_params t user_id = record {
    id = t.id;
    user_id = user_id;
    secret_hash = s.crypto.sha256 t.secret;
    csrf_token = t.csrf;
    expires_at = s.now + s.session_ttl;
    created_at = s.now;
  }

  -- CreateSession, or RotateSession of a session before.
  abbrev pub store_session : Bytes → Session → W → W × Result Session
  store_session [] p db = s.store.create_session p db
  store_session (c ∷ cs) p db = s.store.rotate_session (c ∷ cs) p db

  -- createBrowserSession
  unfoldable pub create_browser_session : ℤ → Bytes → World W → World W × Result BrowserSession
  create_browser_session user_id old w =
      let (random, tokens) = draw_tokens s.crypto w.random in
      elim tokens [
        | err e ↦ (record w { random = random }, err e)
        | ok t ↦
            let (db, r) = store_session old (session_params t user_id) w.db in
            elim r [
              | err e ↦ (record { db = db; random = random }, err e)
              | ok session ↦ (
                record { db = db; random = random },
                ok (record { cookie_value = t.id ++ b'.' ∷ t.secret; session = session }),
              )
            ]
      ]

  -- CreateAnonymousBrowserSession
  unfoldable pub create_anonymous_browser_session : World W → World W × Result BrowserSession
  unfolding create_browser_session
  create_anonymous_browser_session w = create_browser_session (pos 0) [] w

  -- CreateAuthenticatedBrowserSession
  unfoldable pub create_authenticated_browser_session :
      ℤ → World W → World W × Result BrowserSession
  unfolding create_browser_session
  create_authenticated_browser_session user_id w =
      if is_not_positive user_id
      then (w, err invalid_argument)
      else create_browser_session user_id [] w

  -- RotateBrowserSession
  unfoldable pub rotate_browser_session : Bytes → ℤ → World W → World W × Result BrowserSession
  unfolding create_browser_session
  rotate_browser_session old user_id w =
      if is_not_positive user_id
      then (w, err invalid_argument)
      else create_browser_session user_id old w

  -- The tests of VerifyBrowserSession on the stored session.
  abbrev check_session : Bytes → Session → Result Session
  check_session secret session =
      if not (ltb s.now session.expires_at)
      then err session_expired
      else if eq_bytes (s.crypto.sha256 secret) session.secret_hash
      then ok session
      else err invalid_session

  -- VerifyBrowserSession
  unfoldable pub verify_browser_session : Bytes → W → Result Session
  verify_browser_session cookie db = elim (cut_byte b'.' (trim_space cookie)) [
    | none ↦ err invalid_session
    | some (id, secret) ↦
        if is_empty id || is_empty secret
        then err invalid_session
        else elim (s.store.session_by_id id db) [
          | err e ↦ if is_not_found e then err invalid_session else err e
          | ok session ↦ check_session secret session
        ]
  ]

  -- Logout
  unfoldable pub logout : Bytes → W → W × Option Error
  logout id db = s.store.delete_session id db
