-- ===== src/Web/Signing.antt =====
-- internal/web/server.go: the handlers of the pages to sign in, to register and to sign out.
use pyttechat.Base.{not, [], none, some, pos, is_not_positive, Bytes, if◌then◌else◌}
use pyttechat.Errors.{Error, invalid_username, weak_password, username_taken, ok, err}
use pyttechat.Text.{is_empty}
use pyttechat.Text.Laws.{codes}
use pyttechat.Storage.Accounts.{User}
use pyttechat.Web.Sessions.{
  WebSession, Backend, Server, ServerState, SetCookie, untouched, cleared, set_cookie_until,
  HttpRequest, valid_csrf, remove_browser_session, public_session,
}
use pyttechat.Web.Server.{not_found, redirect, json_error, http_error, auth_page, Reply}

-- The text that handleRegister shows of an error.
abbrev register_message : Error → Bytes
register_message invalid_username = codes "Use 3-32 letters, numbers, dots, dashes, or underscores."
register_message weak_password = codes "Password must be at least 8 characters."
register_message username_taken = codes "Username is already taken."
register_message _ = codes "Could not create account."

module _ {D : Type 0} (srv : Server D) where
  -- The common part of handleLoginForm and handleRegisterForm: the page with this name, for a browser that
  -- is not signed in.
  abbrev pub show_form : Bytes → HttpRequest → ServerState D → Reply D
  show_form title r st =
      let (st', cookie, found) = public_session srv r st in
      elim found [
        | err e ↦ (st', cookie, json_error 500 (codes "session_error"))
        | ok s ↦ (
          st',
          cookie,
          (if is_not_positive s.user_id
              then auth_page 200 title s.csrf []
              else redirect (codes "/")),
        )
      ]

  -- handleLoginForm
  unfoldable pub handle_login_form : HttpRequest → ServerState D → Reply D
  unfolding public_session
  handle_login_form r st = elim srv.backend [
    | none ↦ (st, untouched, not_found)
    | some b ↦ show_form (codes "Sign in") r st
  ]

  -- handleRegisterForm
  unfoldable pub handle_register_form : HttpRequest → ServerState D → Reply D
  unfolding public_session
  handle_register_form r st = elim srv.backend [
    | none ↦ (st, untouched, not_found)
    | some b ↦
        if not srv.registration
        then (st, untouched, not_found)
        else show_form (codes "Create account") r st
  ]

  -- The end of handleLogin and handleRegister: a session for the user in the place of the one before.
  unfoldable pub sign_in : Backend D → WebSession D → User → SetCookie → ServerState D → Reply D
  unfolding remove_browser_session
  sign_in b s user cookie st =
      let (db, rotated) = b.auth.rotate_browser_session s.id (pos user.id) st.db in
      let st' = record st { db = db } in
      elim rotated [
        | err e ↦ (st', cookie, json_error 500 (codes "session_error"))
        | ok issued ↦ (
          remove_browser_session s.id st',
          set_cookie_until issued.cookie_value issued.session.expires_at,
          redirect (codes "/"),
        )
      ]

  -- The tests of handleLogin, handleRegister and handleLogout on the token of the request.
  abbrev pub guarded :
      (WebSession D → SetCookie → ServerState D → Reply D) → HttpRequest → ServerState D → Reply D
  guarded inner r st =
      let (st', cookie, found) = public_session srv r st in
      elim found [
        | err e ↦ (st', cookie, json_error 500 (codes "session_error"))
        | ok s ↦
            if not (valid_csrf r s.csrf) then (st', cookie, http_error 403) else inner s cookie st'
      ]

  -- handleLogin behind its tests
  unfoldable pub log_in :
      Backend D → HttpRequest → WebSession D → SetCookie → ServerState D → Reply D
  unfolding sign_in
  log_in b r s cookie st = elim r.form [
    | none ↦ (st, cookie, http_error 400)
    | some (username, password) ↦ elim (b.auth.authenticate username password st.db) [
      | err e ↦ (
        st,
        cookie,
        auth_page 401 (codes "Sign in") s.csrf (codes "Invalid username or password."),
      )
      | ok user ↦ sign_in b s user cookie st
    ]
  ]

  -- handleRegister behind its tests
  unfoldable pub create_account :
      Backend D → HttpRequest → WebSession D → SetCookie → ServerState D → Reply D
  unfolding sign_in
  create_account b r s cookie st = elim r.form [
    | none ↦ (st, cookie, http_error 400)
    | some (username, password) ↦
        let (db, registered) = b.auth.register username password st.db in
        let st' = record st { db = db } in
        elim registered [
          | err e ↦
              (st', cookie, auth_page 400 (codes "Create account") s.csrf (register_message e))
          | ok user ↦ sign_in b s user cookie st'
        ]
  ]

  -- handleLogout behind its tests
  unfoldable pub log_out : Backend D → WebSession D → SetCookie → ServerState D → Reply D
  unfolding remove_browser_session
  log_out b s cookie st =
      if is_empty s.id
      then (st, cleared, redirect (codes "/login"))
      else (let (db, failure) = b.auth.logout s.id st.db in
          let st' = record st { db = db } in
          elim failure [
            | some e ↦ (st', cookie, json_error 500 (codes "session_error"))
            | none ↦ (remove_browser_session s.id st', cleared, redirect (codes "/login"))
          ])

  -- handleLogin
  unfoldable pub handle_login : HttpRequest → ServerState D → Reply D
  unfolding public_session valid_csrf log_in
  handle_login r st = elim srv.backend [
    | none ↦ (st, untouched, not_found)
    | some b ↦ guarded (log_in b r) r st
  ]

  -- handleRegister
  unfoldable pub handle_register : HttpRequest → ServerState D → Reply D
  unfolding public_session valid_csrf create_account
  handle_register r st = elim srv.backend [
    | none ↦ (st, untouched, not_found)
    | some b ↦
        if not srv.registration
        then (st, untouched, not_found)
        else guarded (create_account b r) r st
  ]

  -- handleLogout
  unfoldable pub handle_logout : HttpRequest → ServerState D → Reply D
  unfolding public_session valid_csrf log_out
  handle_logout r st = elim srv.backend [
    | none ↦ (st, untouched, not_found)
    | some b ↦ guarded (log_out b) r st
  ]
