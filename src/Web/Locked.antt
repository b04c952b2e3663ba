-- ===== src/Web/Locked.antt =====
-- internal/web/server.go: the chat is closed to a browser that is not signed in.
use pyttechat.Base.{
  Bool, true, false, ◌||◌, ◌&&◌, none, some, is_not_positive, Bytes, ◌≡◌, refl, ap, arith, inl, inr,
  Bool-cases, Option-cases,
}
use pyttechat.Errors.{
  Error, invalid_session, is_invalid_session, is_session_expired, ok, err, Result-cases,
}
use pyttechat.Text.{eq_bytes, is_empty, cut_byte}
use pyttechat.Text.Laws.{codes}
use pyttechat.Web.Sessions.{
  Backend, Server, ServerState, SetCookie, cleared, HttpRequest, Found, cookie_value_of,
  authenticated_session, session, untouched,
}
use pyttechat.Web.Server.{
  Response, redirect, json_error, not_found, Reply, session_failed, handle_index,
  handle_create_turn, handle_turn_events, handle_abort_turn, handle_turn_route,
}
use pyttechat.Web.Routes.{
  Route, to_asset, to_favicon, to_login_form, to_login, to_register_form, to_register, to_logout,
  to_index, to_create_turn, unknown, to_turn, route, serve_route, serve_http,
}

-- The parts of the server that show or change a conversation.
unfoldable pub is_chat : Route → Bool
is_chat to_index = true
is_chat to_create_turn = true
is_chat (to_turn path) = true
is_chat _ = false

-- To sign in, to say so, or not to be found.
abbrev pub is_refusal : Response → Bool
is_refusal (redirect path) = eq_bytes path (codes "/login")
is_refusal (json_error status message) = eq_bytes message (codes "authentication_required")
is_refusal not_found = true
is_refusal _ = false

module _ {D : Type 0} (srv : Server D) where
  -- No cookie, one that internal/auth refuses, or one of a browser that is not signed in.
  unfoldable pub is_stranger : Backend D → HttpRequest → ServerState D → Bool
  is_stranger b r st = elim (cookie_value_of r.cookie) [
    | none ↦ true
    | some value ↦ elim (b.auth.verify_browser_session value st.db) [
      | err e ↦ is_invalid_session e || is_session_expired e
      | ok stored ↦ is_not_positive stored.user_id
    ]
  ]

  -- What finding the session of a stranger ends with.
  record Turned (p : Found D) (st : ServerState D) : Type 0 where
    pub cookie : SetCookie
    pub error : Error
    pub same : p ≡ (st, cookie, err error)
    pub known : is_invalid_session error ≡ true

  stranger-Turned :
      (b : Backend D) (r : HttpRequest) (st : ServerState D)
      → srv.backend ≡ some b
      → is_stranger b r st ≡ true
      → Turned (session srv r st) st
  unfolding session authenticated_session is_stranger is_invalid_session
  stranger-Turned b r st on h =
      let turned : (c : SetCookie) (e : Error)
          → authenticated_session b r st ≡ (st, c, err e)
          → is_invalid_session e ≡ true
          → Turned (session srv r st) st =
        λ c e same known. record {
          cookie = c;
          error = e;
          same = rw (session, on) same;
          known = known;
        } in
      elim (Option-cases (cookie_value_of r.cookie)) [
        | inl bare ↦ turned untouched invalid_session (rw (authenticated_session, bare)) refl
        | inr (value, sent) ↦ elim (Result-cases (b.auth.verify_browser_session value st.db)) [
          | inr (e, failed) ↦ elim (Bool-cases (is_session_expired e)) [
            | inl expired ↦
                turned cleared invalid_session (rw (authenticated_session, sent, failed, expired))
                  refl
            | inr other ↦
                turned untouched e (rw (authenticated_session, sent, failed, other))
                  (ground (arith, h, sent, failed, other))
          ]
          | inl (stored, verified) ↦
              let anonymous : is_not_positive stored.user_id ≡ true =
                ground (arith, h, sent, verified) in
              turned untouched invalid_session
                (rw (authenticated_session, sent, verified, anonymous)) refl
        ]
      ]

  -- A reply that changes nothing and lets nobody in.
  abbrev pub Refuses : ServerState D → Reply D → Type 0
  Refuses st p = (p.0 ≡ st) × (is_refusal p.2 ≡ true)

  failed_refuses :
      (e : Error) → is_invalid_session e ≡ true → is_refusal (session_failed srv e) ≡ true
  unfolding eq_bytes
  failed_refuses e known = rw (known)

  handle_index-Refuses :
      (r : HttpRequest) (st : ServerState D)
      → Turned (session srv r st) st
      → Refuses st (handle_index srv r st)
  unfolding handle_index
  handle_index-Refuses r st t =
      rw (handle_index, t.same) (ap (λ p. p.0) t.same, unfold eq_bytes in rw (t.known))

  handle_create_turn-Refuses :
      (r : HttpRequest) (st : ServerState D)
      → Turned (session srv r st) st
      → Refuses st (handle_create_turn srv r st)
  unfolding handle_create_turn
  handle_create_turn-Refuses r st t =
      rw (handle_create_turn, t.same) (ap (λ p. p.0) t.same, failed_refuses t.error t.known)

  handle_turn_events-Refuses :
      (r : HttpRequest) (id : Bytes) (st : ServerState D)
      → Turned (session srv r st) st
      → Refuses st (handle_turn_events srv r id st)
  unfolding handle_turn_events
  handle_turn_events-Refuses r id st t =
      rw (handle_turn_events, t.same) (ap (λ p. p.0) t.same, failed_refuses t.error t.known)

  handle_abort_turn-Refuses :
      (r : HttpRequest) (id : Bytes) (st : ServerState D)
      → Turned (session srv r st) st
      → Refuses st (handle_abort_turn srv r id st)
  unfolding handle_abort_turn
  handle_abort_turn-Refuses r id st t =
      rw (handle_abort_turn, t.same) (ap (λ p. p.0) t.same, failed_refuses t.error t.known)

  handle_turn_route-Refuses :
      (r : HttpRequest) (path : Bytes) (st : ServerState D)
      → Turned (session srv r st) st
      → Refuses st (handle_turn_route srv r path st)
  unfolding handle_turn_route
  handle_turn_route-Refuses r path st t = elim (Option-cases (cut_byte b'/' path)) [
    | inl e ↦ rw (handle_turn_route, e) (refl, refl)
    | inr ((id, action), e) ↦ elim (Bool-cases (is_empty id)) [
      | inl blank ↦ rw (handle_turn_route, e, blank) (refl, refl)
      | inr named ↦
          elim (Bool-cases (eq_bytes action (codes "events") && eq_bytes r.method (codes "GET"))) [
            | inl asked ↦
                rw (handle_turn_route, e, named, asked) (handle_turn_events-Refuses r id st t)
            | inr other ↦
                elim (Bool-cases
                  (eq_bytes action (codes "abort") && eq_bytes r.method (codes "POST"))) [
                    | inl asked ↦
                        rw (handle_turn_route, e, named, other, asked)
                          (handle_abort_turn-Refuses r id st t)
                    | inr never ↦ rw (handle_turn_route, e, named, other, never) (refl, refl)
                  ]
          ]
    ]
  ]

  serve_route-Refuses :
      (t : Route) (r : HttpRequest) (st : ServerState D)
      → is_chat t ≡ true
      → Turned (session srv r st) st
      → Refuses st (serve_route srv t r st)
  unfolding is_chat
  serve_route-Refuses to_index r st chat t = handle_index-Refuses r st t
  serve_route-Refuses to_create_turn r st chat t = handle_create_turn-Refuses r st t
  serve_route-Refuses (to_turn path) r st chat t = handle_turn_route-Refuses r path st t
  serve_route-Refuses to_asset r st chat t = absurd (ground (arith, chat))
  serve_route-Refuses to_favicon r st chat t = absurd (ground (arith, chat))
  serve_route-Refuses to_login_form r st chat t = absurd (ground (arith, chat))
  serve_route-Refuses to_login r st chat t = absurd (ground (arith, chat))
  serve_route-Refuses to_register_form r st chat t = absurd (ground (arith, chat))
  serve_route-Refuses to_register r st chat t = absurd (ground (arith, chat))
  serve_route-Refuses to_logout r st chat t = absurd (ground (arith, chat))
  serve_route-Refuses unknown r st chat t = absurd (ground (arith, chat))

  -- Where accounts are on, a request for the page of the conversation, for a new turn or for one of the
  -- turns that comes with no cookie, with one that internal/auth refuses or with that of a browser that is not
  -- signed in changes nothing of the server, and is sent to the page to sign in, told that it has to, or
  -- not found.
  pub serve_http_locked :
      (b : Backend D) (r : HttpRequest) (st : ServerState D)
      → srv.backend ≡ some b
      → is_stranger b r st ≡ true
      → is_chat (route r) ≡ true
      → Refuses st (serve_http srv r st)
  unfolding serve_http
  serve_http_locked b r st on stranger chat =
      serve_route-Refuses (route r) r st chat (stranger-Turned b r st on stranger)
