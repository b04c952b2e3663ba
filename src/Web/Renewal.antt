-- ===== src/Web/Renewal.antt =====
-- internal/web/server.go with internal/auth: who signs in leaves the session of before behind.
use pyttechat.Base.{true, false, [], ◌∷◌, ◌++◌, some, ℤ, pos, Bytes, ◌≡◌, refl, ap, ◌∙◌}
use pyttechat.Errors.{invalid_session, is_invalid_session, Result, ok, err}
use pyttechat.Text.{eq_bytes}
use pyttechat.Text.Laws.{codes}
use pyttechat.Storage.Accounts.{User}
use pyttechat.Auth.{
  World, Service, BrowserSession, register, authenticate, create_anonymous_browser_session,
  rotate_browser_session, verify_browser_session, logout,
}
use pyttechat.Auth.Alphabet.{WritesTokens, IsToken}
use pyttechat.Auth.Cookies.{SessionLaws, rotate_browser_session_revokes}
use pyttechat.Chat.Session.{Store}
use pyttechat.Web.Sessions.{
  WebService, WebSession, Backend, Server, ServerState, SetCookie, set_cookie_until, HttpRequest,
  cookie_value_of, remove_browser_session,
}
use pyttechat.Web.Server.{redirect}
use pyttechat.Web.Signing.{sign_in}
use pyttechat.Web.Routes.{route, serve_http}
use pyttechat.Web.Locked.{is_chat, is_stranger, Refuses, serve_http_locked}

-- var _ WebService = (*Service)(nil)
abbrev pub auth_service : {W : Type 0} → Service W → WebService (World W)
auth_service s = record {
  register = λ username password w.
      let (db, r) = register s username password w.db in (record w { db = db }, r);
  authenticate = λ username password w. authenticate s username password w.db;
  create_anonymous_browser_session = create_anonymous_browser_session s;
  rotate_browser_session = rotate_browser_session s;
  verify_browser_session = λ cookie w. verify_browser_session s cookie w.db;
  logout = λ id w. let (db, failure) = logout s id w.db in (record w { db = db }, failure);
}

cookie_sent :
    (id secret : Bytes) → cookie_value_of (some (id ++ b'.' ∷ secret)) ≡ some (id ++ b'.' ∷ secret)
cookie_sent [] secret = refl
cookie_sent (c ∷ cs) secret = refl

abbrev pub backend_of :
    {W : Type 0}
    → Service W
    → Store (World W)
    → (ℤ → World W → World W × Result ℤ)
    → Backend (World W)
backend_of s store conversation = record {
  auth = auth_service s;
  store = store;
  default_conversation = conversation;
}

module _ {W : Type 0} (s : Service W) (laws : SessionLaws s.store)
    (writes : WritesTokens s.crypto) where
  refused_is_stranger :
      (srv : Server (World W)) (b : Backend (World W)) (id secret : Bytes) (r : HttpRequest)
      (st : ServerState (World W))
      → r.cookie ≡ some (id ++ b'.' ∷ secret)
      → b.auth.verify_browser_session (id ++ b'.' ∷ secret) st.db ≡ err invalid_session
      → is_stranger srv b r st ≡ true
  unfolding is_stranger is_invalid_session
  refused_is_stranger srv b id secret r st sent refused =
      let value : cookie_value_of r.cookie ≡ some (id ++ b'.' ∷ secret) =
        ap cookie_value_of sent ∙ cookie_sent id secret in
      rw (is_stranger, value, refused)

  -- After a sign-in or a registration that succeeded the browser is sent to its conversation, and
  -- the cookie of the session of before opens it no more: whatever request for the conversation
  -- or its turns comes with the old id and any secret is refused and changes nothing. This holds
  -- where internal/auth stands on a store that keeps the promises of SessionLaws, base64 writes
  -- letters, digits, dashes and underscores, the old id and the secret are of those characters,
  -- and the id of the new session is not that of the old one.
  pub sign_in_locks_old :
      (srv : Server (World W)) (store : Store (World W))
      (conversation : ℤ → World W → World W × Result ℤ) (old : WebSession (World W)) (user : User)
      (cookie : SetCookie) (st : ServerState (World W)) (w : World W) (issued : BrowserSession)
      → let b = backend_of s store conversation in
        srv.backend ≡ some b
        → rotate_browser_session s old.id (pos user.id) st.db ≡ (w, ok issued)
        → IsToken old.id
        → eq_bytes issued.session.id old.id ≡ false
        → let (st', cookie', response) = sign_in srv b old user cookie st in
          (response ≡ redirect (codes "/"))
          × (cookie' ≡ set_cookie_until issued.cookie_value issued.session.expires_at)
          × ((secret : Bytes) (r : HttpRequest)
              → IsToken secret
              → r.cookie ≡ some (old.id ++ b'.' ∷ secret)
              → is_chat (route r) ≡ true
              → Refuses srv st' (serve_http srv r st'))
  unfolding sign_in remove_browser_session
  sign_in_locks_old srv store conversation old user cookie st w issued on rotated token fresh =
      let b = backend_of s store conversation in
      let end = remove_browser_session old.id (record st { db = w }) in
      let given = set_cookie_until issued.cookie_value issued.session.expires_at in
      let replied : sign_in srv b old user cookie st ≡ (end, given, redirect (codes "/")) =
        rw (sign_in, rotated)
          (ap
            (λ p.
              (remove_browser_session old.id (record st { db = p.0 }), given, redirect (codes "/")))
            rotated) in
      (
        ap (λ p. p.2) replied,
        ap (λ p. p.1) replied,
        λ secret r shown sent chat.
            let st' = (sign_in srv b old user cookie st).0 in
            let refused : verify_browser_session s (old.id ++ b'.' ∷ secret) st'.db.db
                ≡ err invalid_session =
              ap (λ p. verify_browser_session s (old.id ++ b'.' ∷ secret) p.0.db.db) replied
              ∙ rotate_browser_session_revokes s laws writes (pos user.id) old.id secret st.db w
                  issued token shown fresh rotated in
            let stranger = refused_is_stranger srv b old.id secret r st' sent refused in
            serve_http_locked srv b r st' on stranger chat,
      )
