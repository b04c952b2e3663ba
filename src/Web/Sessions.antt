-- ===== src/Web/Sessions.antt =====
-- internal/web/server.go: the registry of browser sessions, and how a request finds its own. What the
-- server asks of internal/auth is the interface WebService, over a state `D` that is also that of the
-- store. A handler is one function: the model runs the handlers one after the other.
use pyttechat.Base.{
  ℕ, Bool, ◌&&◌, ◌||◌, not, List, [], ◌∷◌, ◌++◌, Option, none, some, ℤ, pos, is_not_positive, Bytes,
  if◌then◌else◌,
}
use pyttechat.Errors.{
  Error, invalid_session, eof, is_invalid_session, is_session_expired, Result, ok, err,
}
use pyttechat.Text.{is_empty, eq_bytes}
use pyttechat.Text.Laws.{codes}
use pyttechat.Storage.Accounts.{User, Session}
use pyttechat.Auth.{BrowserSession}
use pyttechat.Chat.Session.{
  Session as ChatSession, Store, new_session, new_persisted_session, SendOptions,
}
use pyttechat.Web.Job.{Job}

-- type WebService of internal/auth
pub record WebService (D : Type 0) : Type 0 where
  pub register : Bytes → Bytes → D → D × Result User
  pub authenticate : Bytes → Bytes → D → Result User
  pub create_anonymous_browser_session : D → D × Result BrowserSession
  pub rotate_browser_session : Bytes → ℤ → D → D × Result BrowserSession
  pub verify_browser_session : Bytes → D → Result Session
  pub logout : Bytes → D → D × Option Error

-- What identifies a turn, and its job.
pub record Turn : Type 0 where
  pub id : Bytes
  pub user_message_id : Bytes
  pub assistant_message_id : Bytes
  pub prompt : Bytes
  pub job : Job
  pub options : Option (ℕ → SendOptions)

-- type browserSession; it is kept under its id.
pub record WebSession (D : Type 0) : Type 0 where
  pub id : Bytes
  pub csrf : Bytes
  pub user_id : ℤ
  pub username : Bytes
  pub conversation_id : ℤ
  pub chat : ChatSession D
  pub turns : List Turn

-- s.auth and s.store, where neither is nil
pub record Backend (D : Type 0) : Type 0 where
  pub auth : WebService D
  pub store : Store D
  pub default_conversation : ℤ → D → D × Result ℤ

-- type Server, less what changes: `base64` is base64.RawURLEncoding.EncodeToString.
pub record Server (D : Type 0) : Type 0 where
  pub backend : Option (Backend D)
  pub registration : Bool
  pub base64 : Bytes → Bytes
  pub model : Bytes
  pub reasoning_effort : Bytes
  pub web_rendering_instructions : Bytes

-- What changes: the registry, the state of auth and store, and what the reads of 24 bytes of the
-- random source return.
pub record ServerState (D : Type 0) : Type 0 where
  pub sessions : List (WebSession D)
  pub db : D
  pub random : List (Result Bytes)

-- What a handler does to the cookie of the browser, the last one where it sets several.
pub data SetCookie : Type 0 where
  untouched cleared : SetCookie
  set_cookie : Bytes → SetCookie
  set_cookie_until : Bytes → ℕ → SetCookie

-- What a request carries: `form` is what ParseForm finds of the user name and the password.
pub data TurnBody : Type 0 where
  invalid_json trailing_json : TurnBody
  turn_request : Bytes → Option ℤ → TurnBody

pub record HttpRequest : Type 0 where
  pub method : Bytes
  pub path : Bytes
  pub cookie : Option Bytes
  pub csrf_header : Bytes
  pub csrf_form : Bytes
  pub form : Option (Bytes × Bytes)
  pub body : TurnBody
  pub last_event_id : ℕ

-- randomID
unfoldable pub random_id :
    (Bytes → Bytes) → Bytes → List (Result Bytes) → List (Result Bytes) × Result Bytes
random_id base64 kind [] = ([], err eof)
random_id base64 kind (err e ∷ rest) = (rest, err e)
random_id base64 kind (ok raw ∷ rest) = (rest, ok (kind ++ (codes "_" ++ base64 raw)))

-- validCSRF
unfoldable pub valid_csrf : HttpRequest → Bytes → Bool
unfolding eq_bytes
valid_csrf r token =
    not (is_empty token) && (eq_bytes r.csrf_header token || eq_bytes r.csrf_form token)

-- The cookie's value, if there is one that is not empty.
abbrev pub cookie_value_of : Option Bytes → Option Bytes
cookie_value_of none = none
cookie_value_of (some []) = none
cookie_value_of (some (c ∷ cs)) = some (c ∷ cs)

-- What a function that looks for the session of a request returns.
abbrev pub Found : Type 0 → Type 0
Found D = ServerState D × SetCookie × Result (WebSession D)

module _ {D : Type 0} where
  -- s.sessions[id]
  unfoldable pub find_web_session : Bytes → List (WebSession D) → Option (WebSession D)
  unfolding eq_bytes
  find_web_session id [] = none
  find_web_session id (s ∷ rest) =
      let later = find_web_session id rest in if eq_bytes s.id id then some s else later

  -- delete(s.sessions, id)
  unfoldable pub delete_web_session : Bytes → List (WebSession D) → List (WebSession D)
  unfolding eq_bytes
  delete_web_session id [] = []
  delete_web_session id (s ∷ rest) =
      let later = delete_web_session id rest in if eq_bytes s.id id then later else s ∷ later

  -- s.sessions[session.id] = session
  unfoldable pub put_web_session : WebSession D → ServerState D → ServerState D
  unfolding delete_web_session
  put_web_session s st = record st { sessions = s ∷ delete_web_session s.id st.sessions }

  -- removeBrowserSession
  unfoldable pub remove_browser_session : Bytes → ServerState D → ServerState D
  unfolding delete_web_session
  remove_browser_session id st = record st { sessions = delete_web_session id st.sessions }

  -- A session with no conversation in the store.
  abbrev pub fresh_session : Bytes → Bytes → WebSession D
  fresh_session id csrf = record {
    id = id;
    csrf = csrf;
    user_id = pos 0;
    username = [];
    conversation_id = pos 0;
    chat = new_session;
    turns = [];
  }

  -- The chat of a session of a user, and the id of its conversation.
  unfoldable pub user_chat : Backend D → ℤ → D → D × Result (ℤ × ChatSession D)
  unfolding new_persisted_session
  user_chat b user_id db =
      let (db', conversation) = b.default_conversation user_id db in
      elim conversation [
        | err e ↦ (db', err e)
        | ok id ↦ elim (new_persisted_session (some b.store) db' id) [
          | err e ↦ (db', err e)
          | ok chat ↦ (db', ok (id, chat))
        ]
      ]

  -- The browser session that is made of a stored one.
  abbrev pub stored_session : Session → Bytes → ℤ → ChatSession D → WebSession D
  stored_session stored username conversation_id chat = record {
    id = stored.id;
    csrf = stored.csrf_token;
    user_id = stored.user_id;
    username = username;
    conversation_id = conversation_id;
    chat = chat;
    turns = [];
  }

  -- browserSessionForStoredSession
  unfoldable pub browser_session_for_stored_session :
      Backend D → Session → SetCookie → ServerState D → Found D
  unfolding find_web_session put_web_session user_chat new_session
  browser_session_for_stored_session b stored cookie st =
      elim (find_web_session stored.id st.sessions) [
        | some session ↦ (st, cookie, ok session)
        | none ↦
            if is_not_positive stored.user_id
            then (
              put_web_session (stored_session stored [] (pos 0) new_session) st,
              cookie,
              ok (stored_session stored [] (pos 0) new_session),
            )
            else (let (db, r) = user_chat b stored.user_id st.db in
                elim r [
                  | err e ↦ (record st { db = db }, cookie, err e)
                  | ok (id, chat) ↦ (
                    put_web_session (stored_session stored (codes "Account") id chat)
                        (record st { db = db }),
                    cookie,
                    ok (stored_session stored (codes "Account") id chat),
                  )
                ])
      ]

  -- The second half of publicSession.
  unfoldable pub create_public_session : Backend D → ServerState D → Found D
  unfolding browser_session_for_stored_session
  create_public_session b st =
      let (db, made) = b.auth.create_anonymous_browser_session st.db in
      let st' = record st { db = db } in
      elim made [
        | err e ↦ (st', untouched, err e)
        | ok issued ↦
            browser_session_for_stored_session b issued.session
              (set_cookie_until issued.cookie_value issued.session.expires_at) st'
      ]

  -- authenticatedSession
  unfoldable pub authenticated_session : Backend D → HttpRequest → ServerState D → Found D
  unfolding browser_session_for_stored_session is_session_expired
  authenticated_session b r st = elim (cookie_value_of r.cookie) [
    | none ↦ (st, untouched, err invalid_session)
    | some value ↦ elim (b.auth.verify_browser_session value st.db) [
      | err e ↦
          if is_session_expired e
          then (st, cleared, err invalid_session)
          else (st, untouched, err e)
      | ok stored ↦
          if is_not_positive stored.user_id
          then (st, untouched, err invalid_session)
          else browser_session_for_stored_session b stored untouched st
    ]
  ]

  module _ (srv : Server D) where
    -- The second half of legacySession.
    unfoldable pub create_legacy_session : ServerState D → Found D
    unfolding random_id put_web_session new_session
    create_legacy_session st =
        let (random, id) = random_id srv.base64 (codes "sess") st.random in
        elim id [
          | err e ↦ (record st { random = random }, untouched, err e)
          | ok id' ↦
              let (random', csrf) = random_id srv.base64 (codes "csrf") random in
              let st' = record st { random = random' } in
              elim csrf [
                | err e ↦ (st', untouched, err e)
                | ok csrf' ↦
                    let session = fresh_session id' csrf' in
                    (put_web_session session st', set_cookie id', ok session)
              ]
        ]

    -- legacySession
    unfoldable pub legacy_session : HttpRequest → ServerState D → Found D
    unfolding create_legacy_session find_web_session
    legacy_session r st = elim (cookie_value_of r.cookie) [
      | none ↦ create_legacy_session st
      | some value ↦ elim (find_web_session value st.sessions) [
        | none ↦ create_legacy_session st
        | some session ↦ (st, untouched, ok session)
      ]
    ]

    -- publicSession
    unfoldable pub public_session : HttpRequest → ServerState D → Found D
    unfolding legacy_session create_public_session browser_session_for_stored_session
        is_invalid_session is_session_expired
    public_session r st = elim srv.backend [
      | none ↦ legacy_session r st
      | some b ↦ elim (cookie_value_of r.cookie) [
        | none ↦ create_public_session b st
        | some value ↦ elim (b.auth.verify_browser_session value st.db) [
          | ok stored ↦ browser_session_for_stored_session b stored untouched st
          | err e ↦
              if is_invalid_session e || is_session_expired e
              then create_public_session b st
              else (st, untouched, err e)
        ]
      ]
    ]

    -- session
    unfoldable pub session : HttpRequest → ServerState D → Found D
    unfolding authenticated_session legacy_session
    session r st = elim srv.backend [
      | none ↦ legacy_session r st
      | some b ↦ authenticated_session b r st
    ]
