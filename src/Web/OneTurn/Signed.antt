-- ===== src/Web/OneTurn/Signed.antt =====
-- internal/web/server.go: signing in and out starts no turn.
use pyttechat.Base.{not, pos, Bytes, arith, inl, inr, Bool-cases, Option-cases}
use pyttechat.Errors.{Result-cases}
use pyttechat.Text.{is_empty}
use pyttechat.Text.Laws.{codes}
use pyttechat.Storage.Accounts.{User}
use pyttechat.Web.Sessions.{
  WebSession, Backend, Server, ServerState, SetCookie, HttpRequest, valid_csrf,
  remove_browser_session, public_session,
}
use pyttechat.Web.Server.{Reply}
use pyttechat.Web.Signing.{
  sign_in, log_in, create_account, log_out, handle_login_form, handle_login, handle_register_form,
  handle_register, handle_logout,
}
use pyttechat.Web.Registry.{remove-AllHold, public_session-Good}
use pyttechat.Web.OneTurn.{IsSingle, Keeps, if-IsSingle}
use pyttechat.Web.Signing.{guarded, show_form}
use pyttechat.Web.Sessions.{untouched}
use pyttechat.Web.Server.{not_found}

module _ {D : Type 0} (srv : Server D) where
  remove-IsSingle : (id : Bytes) → Keeps srv (remove_browser_session id)
  remove-IsSingle id st h = remove-AllHold IsSingle id st h

  show_form-IsSingle :
      (title : Bytes) (r : HttpRequest) → Keeps srv (λ st. (show_form srv title r st).0)
  show_form-IsSingle title r st h =
      let g = public_session-Good IsSingle srv (omega arith) r st h in
      let (st', cookie, found) = public_session srv r st in
      elim (Result-cases found) [
        | inr (e, failed) ↦ rw (show_form, failed) g.0
        | inl (s, given) ↦ rw (show_form, given) g.0
      ]

  guarded-IsSingle :
      (inner : WebSession D → SetCookie → ServerState D → Reply D) (r : HttpRequest)
      → ((s : WebSession D) (cookie : SetCookie) → Keeps srv (λ st. (inner s cookie st).0))
      → Keeps srv (λ st. (guarded srv inner r st).0)
  guarded-IsSingle inner r keeps st h =
      let g = public_session-Good IsSingle srv (omega arith) r st h in
      let (st', cookie, found) = public_session srv r st in
      elim (Result-cases found) [
        | inr (e, failed) ↦ rw (guarded, failed) g.0
        | inl (s, given) ↦ elim (Bool-cases (valid_csrf r s.csrf)) [
          | inr forged ↦ rw (guarded, given, forged) g.0
          | inl meant ↦ rw (guarded, given, meant) (keeps s cookie st' g.0)
        ]
      ]

  sign_in-IsSingle :
      (b : Backend D) (s : WebSession D) (user : User) (cookie : SetCookie)
      → Keeps srv (λ st. (sign_in srv b s user cookie st).0)
  unfolding sign_in
  sign_in-IsSingle b s user cookie st h =
      let (db, rotated) = b.auth.rotate_browser_session s.id (pos user.id) st.db in
      elim (Result-cases rotated) [
        | inr (e, failed) ↦ rw (sign_in, failed) h
        | inl (issued, given) ↦ rw (sign_in, given) (remove-IsSingle s.id (record st { db = db }) h)
      ]

  log_in-IsSingle :
      (b : Backend D) (r : HttpRequest) (s : WebSession D) (cookie : SetCookie)
      → Keeps srv (λ st. (log_in srv b r s cookie st).0)
  unfolding log_in
  log_in-IsSingle b r s cookie st h = elim (Option-cases r.form) [
    | inl e ↦ rw (log_in, e) h
    | inr ((username, password), e) ↦
        elim (Result-cases (b.auth.authenticate username password st.db)) [
          | inr (x, failed) ↦ rw (log_in, e, failed) h
          | inl (user, known) ↦ rw (log_in, e, known) (sign_in-IsSingle b s user cookie st h)
        ]
  ]

  create_account-IsSingle :
      (b : Backend D) (r : HttpRequest) (s : WebSession D) (cookie : SetCookie)
      → Keeps srv (λ st. (create_account srv b r s cookie st).0)
  unfolding create_account
  create_account-IsSingle b r s cookie st h = elim (Option-cases r.form) [
    | inl e ↦ rw (create_account, e) h
    | inr ((username, password), e) ↦
        let (db, registered) = b.auth.register username password st.db in
        elim (Result-cases registered) [
          | inr (x, failed) ↦ rw (create_account, e, failed) h
          | inl (user, known) ↦
              rw (create_account, e, known)
                (sign_in-IsSingle b s user cookie (record st { db = db }) h)
        ]
  ]

  log_out-IsSingle :
      (b : Backend D) (s : WebSession D) (cookie : SetCookie)
      → Keeps srv (λ st. (log_out srv b s cookie st).0)
  unfolding log_out
  log_out-IsSingle b s cookie st h = elim (Bool-cases (is_empty s.id)) [
    | inl e ↦ rw (log_out, e) h
    | inr e ↦
        let (db, failure) = b.auth.logout s.id st.db in
        elim (Option-cases failure) [
          | inr (x, failed) ↦ rw (log_out, e, failed) h
          | inl done ↦ rw (log_out, e, done) (remove-IsSingle s.id (record st { db = db }) h)
        ]
  ]

  pub handle_login_form-IsSingle :
      (r : HttpRequest) → Keeps srv (λ st. (handle_login_form srv r st).0)
  unfolding handle_login_form
  handle_login_form-IsSingle r st h = elim (Option-cases srv.backend) [
    | inl off ↦ rw (handle_login_form, off) h
    | inr (b, on) ↦ rw (handle_login_form, on) (show_form-IsSingle (codes "Sign in") r st h)
  ]

  pub handle_register_form-IsSingle :
      (r : HttpRequest) → Keeps srv (λ st. (handle_register_form srv r st).0)
  unfolding handle_register_form
  handle_register_form-IsSingle r st h = elim (Option-cases srv.backend) [
    | inl off ↦ rw (handle_register_form, off) h
    | inr (b, on) ↦
        rw (handle_register_form, on)
          (if-IsSingle srv (not srv.registration) (st, untouched, not_found)
            (show_form srv (codes "Create account") r st) h
            (show_form-IsSingle (codes "Create account") r st h))
  ]

  pub handle_login-IsSingle : (r : HttpRequest) → Keeps srv (λ st. (handle_login srv r st).0)
  unfolding handle_login
  handle_login-IsSingle r st h = elim (Option-cases srv.backend) [
    | inl off ↦ rw (handle_login, off) h
    | inr (b, on) ↦
        rw (handle_login, on) (guarded-IsSingle (log_in srv b r) r (log_in-IsSingle b r) st h)
  ]

  pub handle_register-IsSingle : (r : HttpRequest) → Keeps srv (λ st. (handle_register srv r st).0)
  unfolding handle_register
  handle_register-IsSingle r st h = elim (Option-cases srv.backend) [
    | inl off ↦ rw (handle_register, off) h
    | inr (b, on) ↦
        rw (handle_register, on)
          (if-IsSingle srv (not srv.registration) (st, untouched, not_found)
            (guarded srv (create_account srv b r) r st) h
            (guarded-IsSingle (create_account srv b r) r (create_account-IsSingle b r) st h))
  ]

  pub handle_logout-IsSingle : (r : HttpRequest) → Keeps srv (λ st. (handle_logout srv r st).0)
  unfolding handle_logout
  handle_logout-IsSingle r st h = elim (Option-cases srv.backend) [
    | inl off ↦ rw (handle_logout, off) h
    | inr (b, on) ↦
        rw (handle_logout, on) (guarded-IsSingle (log_out srv b) r (log_out-IsSingle b) st h)
  ]
