-- ===== src/Web/OneTurn/Steps.antt =====
-- internal/web/server.go: one turn at a time, whatever requests come and whatever the turns do.
use pyttechat.Base.{
  true, ◌&&◌, List, [], ◌∷◌, Option, Bytes, ◌≡◌, arith, inl, inr, Bool-cases, Option-cases, All,
}
use pyttechat.Errors.{Result-cases}
use pyttechat.Text.{eq_bytes, is_empty, cut_byte}
use pyttechat.Text.Laws.{codes}
use pyttechat.Web.Job.{Job, Payload, subscribe, abort}
use pyttechat.Web.Job.Schedule.{act, act_over}
use pyttechat.Web.Sessions.{
  WebSession, Server, ServerState, HttpRequest, valid_csrf, put_web_session, session,
}
use pyttechat.Web.Server.{
  find_turn, change_turn, handle_turn_events, handle_abort_turn, handle_turn_route,
}
use pyttechat.Web.Routes.{
  Route, to_asset, to_favicon, to_login_form, to_login, to_register_form, to_register, to_logout,
  to_index, to_create_turn, unknown, to_turn, route, serve_route, serve_http, Happening, request,
  turn_acts, chat_moves, change_session, happen, happens,
}
use pyttechat.Web.Registry.{Holds, AllHold, put-AllHold, session-Good}
use pyttechat.Web.OneTurn.{
  IsSingle, Keeps, change_turn_few, subscribe_over, abort_over, handle_index-IsSingle,
  handle_create_turn-IsSingle,
}
use pyttechat.Web.OneTurn.Signed.{
  handle_login_form-IsSingle, handle_register_form-IsSingle, handle_login-IsSingle,
  handle_register-IsSingle, handle_logout-IsSingle,
}

module _ {D : Type 0} (srv : Server D) where
  put_changed-IsSingle :
      (s : WebSession D) (id : Bytes) (f : Job → Job)
      → IsSingle s.turns
      → ((j : Job) → j.terminal ≡ true → (f j).terminal ≡ true)
      → Keeps srv (put_web_session (record s { turns = change_turn id f s.turns }))
  put_changed-IsSingle s id f hs stays st h =
      let few = change_turn_few id f s.turns stays in
      put-AllHold IsSingle (record s { turns = change_turn id f s.turns }) st (omega arith) h

  handle_turn_events-IsSingle :
      (r : HttpRequest) (id : Bytes) → Keeps srv (λ st. (handle_turn_events srv r id st).0)
  unfolding handle_turn_events
  handle_turn_events-IsSingle r id st h =
      let g = session-Good IsSingle srv (omega arith) r st h in
      let (st', cookie, found) = session srv r st in
      elim (Result-cases found) [
        | inr (e, failed) ↦ rw (handle_turn_events, failed) g.0
        | inl (s, given) ↦ elim (Option-cases (find_turn id s.turns)) [
          | inl missing ↦ rw (handle_turn_events, given, missing) g.0
          | inr (t, there) ↦
              let f : Job → Job = λ j. (subscribe r.last_event_id j).0 in
              let own : IsSingle s.turns = rw (given) at g.1 in
              rw (handle_turn_events, given, there)
                (put_changed-IsSingle s id f own (subscribe_over r.last_event_id) st' g.0)
        ]
      ]

  handle_abort_turn-IsSingle :
      (r : HttpRequest) (id : Bytes) → Keeps srv (λ st. (handle_abort_turn srv r id st).0)
  unfolding handle_abort_turn
  handle_abort_turn-IsSingle r id st h =
      let g = session-Good IsSingle srv (omega arith) r st h in
      let (st', cookie, found) = session srv r st in
      elim (Result-cases found) [
        | inr (e, failed) ↦ rw (handle_abort_turn, failed) g.0
        | inl (s, given) ↦ elim (Bool-cases (valid_csrf r s.csrf)) [
          | inr forged ↦ rw (handle_abort_turn, given, forged) g.0
          | inl meant ↦ elim (Option-cases (find_turn id s.turns)) [
            | inl missing ↦ rw (handle_abort_turn, given, meant, missing) g.0
            | inr (t, there) ↦
                let own : IsSingle s.turns = rw (given) at g.1 in
                rw (handle_abort_turn, given, meant, there)
                  (put_changed-IsSingle s id (λ j. (abort j).0) own abort_over st' g.0)
          ]
        ]
      ]

  handle_turn_route-IsSingle :
      (r : HttpRequest) (path : Bytes) → Keeps srv (λ st. (handle_turn_route srv r path st).0)
  unfolding handle_turn_route
  handle_turn_route-IsSingle r path st h = elim (Option-cases (cut_byte b'/' path)) [
    | inl e ↦ rw (handle_turn_route, e) h
    | inr ((id, action), e) ↦ elim (Bool-cases (is_empty id)) [
      | inl blank ↦ rw (handle_turn_route, e, blank) h
      | inr named ↦
          elim (Bool-cases (eq_bytes action (codes "events") && eq_bytes r.method (codes "GET"))) [
            | inl asked ↦
                rw (handle_turn_route, e, named, asked) (handle_turn_events-IsSingle r id st h)
            | inr other ↦
                elim (Bool-cases
                  (eq_bytes action (codes "abort") && eq_bytes r.method (codes "POST"))) [
                    | inl asked ↦
                        rw (handle_turn_route, e, named, other, asked)
                          (handle_abort_turn-IsSingle r id st h)
                    | inr never ↦ rw (handle_turn_route, e, named, other, never) h
                  ]
          ]
    ]
  ]

  serve_route-IsSingle :
      (t : Route) (r : HttpRequest) → Keeps srv (λ st. (serve_route srv t r st).0)
  serve_route-IsSingle to_asset r st h = h
  serve_route-IsSingle to_favicon r st h = h
  serve_route-IsSingle to_login_form r st h = handle_login_form-IsSingle srv r st h
  serve_route-IsSingle to_login r st h = handle_login-IsSingle srv r st h
  serve_route-IsSingle to_register_form r st h = handle_register_form-IsSingle srv r st h
  serve_route-IsSingle to_register r st h = handle_register-IsSingle srv r st h
  serve_route-IsSingle to_logout r st h = handle_logout-IsSingle srv r st h
  serve_route-IsSingle to_index r st h = handle_index-IsSingle srv r st h
  serve_route-IsSingle to_create_turn r st h = handle_create_turn-IsSingle srv r st h
  serve_route-IsSingle (to_turn path) r st h = handle_turn_route-IsSingle r path st h
  serve_route-IsSingle unknown r st h = h

  change_session-IsSingle :
      (id : Bytes) (f : WebSession D → WebSession D) (ss : List (WebSession D))
      → ((s : WebSession D) → IsSingle s.turns → IsSingle (f s).turns)
      → All (Holds IsSingle) ss
      → All (Holds IsSingle) (change_session srv id f ss)
  unfolding change_session
  change_session-IsSingle id f [] keeps h = tt
  change_session-IsSingle id f (s ∷ ss) keeps h = elim (Bool-cases (eq_bytes s.id id)) [
    | inl hit ↦ (rw (hit) (keeps s h.0), change_session-IsSingle id f ss keeps h.1)
    | inr miss ↦ (rw (miss) h.0, change_session-IsSingle id f ss keeps h.1)
  ]

  happen-IsSingle :
      (marshal : Payload → Option Bytes) (x : Happening srv) → Keeps srv (happen srv marshal x)
  unfolding happen serve_http
  happen-IsSingle marshal (request r) st h = serve_route-IsSingle (route r) r st h
  happen-IsSingle marshal (turn_acts id turn_id action) st h =
      change_session-IsSingle id
        (λ s. record s { turns = change_turn turn_id (act marshal action) s.turns }) st.sessions
        (λ s one.
          let few =
            change_turn_few turn_id (act marshal action) s.turns
              (λ j over. (act_over marshal action j over).0) in
          omega arith)
        h
  happen-IsSingle marshal (chat_moves id f g) st h =
      change_session-IsSingle id (λ s. record s { chat = f s.chat }) st.sessions (λ s one. one) h

  -- However requests that are handled one after the other, the goroutines of the turns and their runs
  -- follow one another, no browser session has more than one turn that is not over, if none has at the
  -- start.
  pub happens-IsSingle :
      (marshal : Payload → Option Bytes) (xs : List (Happening srv)) (st : ServerState D)
      → AllHold IsSingle st
      → AllHold IsSingle (happens srv marshal xs st)
  unfolding happens
  happens-IsSingle marshal [] st h = h
  happens-IsSingle marshal (x ∷ xs) st h =
      happens-IsSingle marshal xs (happen srv marshal x st) (happen-IsSingle marshal x st h)
