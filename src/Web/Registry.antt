-- ===== src/Web/Registry.antt =====
-- internal/web/server.go: what finding the session of a request keeps true of all sessions, for a
-- predicate on the turns of a session that holds where there are none.
use pyttechat.Base.{
  ◌||◌, List, [], ◌∷◌, some, pos, is_not_positive, Bytes, ◌≡◌, arith, inl, inr, Bool-cases,
  Option-cases, All,
}
use pyttechat.Errors.{is_invalid_session, is_session_expired, Result, ok, err, Result-cases}
use pyttechat.Text.{eq_bytes}
use pyttechat.Text.Laws.{codes}
use pyttechat.Chat.Session.{new_session}
use pyttechat.Storage.Accounts.{Session}
use pyttechat.Web.Sessions.{
  fresh_session, stored_session, Turn, WebSession, Backend, Server, ServerState, SetCookie,
  untouched, set_cookie_until, HttpRequest, random_id, find_web_session, delete_web_session,
  put_web_session, remove_browser_session, Found, create_legacy_session, legacy_session, user_chat,
  browser_session_for_stored_session, create_public_session, public_session, authenticated_session,
  session, cookie_value_of,
}

module _ {D : Type 0} (P : List Turn → Type 0) where
  abbrev pub Holds : WebSession D → Type 0
  Holds s = P s.turns

  abbrev pub AllHold : ServerState D → Type 0
  AllHold st = All Holds st.sessions

  pub find-Holds :
      (id : Bytes) (ss : List (WebSession D)) (s : WebSession D)
      → find_web_session id ss ≡ some s
      → All Holds ss
      → Holds s
  unfolding find_web_session
  find-Holds id [] s e h = absurd (ground (arith, e))
  find-Holds id (x ∷ ss) s e h = elim (Bool-cases (eq_bytes x.id id)) [
    | inl hit ↦ let same : x ≡ s = ground (arith, e, hit) in rw (← same) h.0
    | inr miss ↦ find-Holds id ss s (ground (arith, e, miss)) h.1
  ]

  delete-Holds :
      (id : Bytes) (ss : List (WebSession D)) → All Holds ss → All Holds (delete_web_session id ss)
  unfolding delete_web_session
  delete-Holds id [] h = tt
  delete-Holds id (x ∷ ss) h = elim (Bool-cases (eq_bytes x.id id)) [
    | inl hit ↦ rw (delete_web_session, hit) (delete-Holds id ss h.1)
    | inr miss ↦ rw (delete_web_session, miss) (h.0, delete-Holds id ss h.1)
  ]

  pub remove-AllHold :
      (id : Bytes) (st : ServerState D) → AllHold st → AllHold (remove_browser_session id st)
  unfolding remove_browser_session
  remove-AllHold id st h = delete-Holds id st.sessions h

  pub put-AllHold :
      (s : WebSession D) (st : ServerState D)
      → Holds s
      → AllHold st
      → AllHold (put_web_session s st)
  unfolding put_web_session
  put-AllHold s st hs h = (hs, delete-Holds s.id st.sessions h)

  -- The registry and the session that was found in it.
  abbrev pub Owns : Result (WebSession D) → Type 0
  Owns (ok s) = Holds s
  Owns (err e) = Unit

  abbrev pub Good : Found D → Type 0
  Good (st, cookie, found) = AllHold st × Owns found

  module _ (start : P []) where
    stored-Good :
        (b : Backend D) (stored : Session) (cookie : SetCookie) (st : ServerState D)
        → AllHold st
        → Good (browser_session_for_stored_session b stored cookie st)
    unfolding browser_session_for_stored_session
    stored-Good b stored cookie st h =
        elim (Option-cases (find_web_session stored.id st.sessions)) [
          | inr (s, e) ↦
              rw (browser_session_for_stored_session, e) (h, find-Holds stored.id st.sessions s e h)
          | inl e ↦ elim (Bool-cases (is_not_positive stored.user_id)) [
            | inl anonymous ↦
                rw (browser_session_for_stored_session, e, anonymous)
                  (put-AllHold (stored_session stored [] (pos 0) new_session) st start h, start)
            | inr known ↦
                let (db, r) = user_chat b stored.user_id st.db in
                elim (Result-cases r) [
                  | inr (x, failed) ↦
                      rw (browser_session_for_stored_session, e, known, failed) (h, tt)
                  | inl ((id, chat), made) ↦
                      rw (browser_session_for_stored_session, e, known, made)
                        (
                          put-AllHold (stored_session stored (codes "Account") id chat)
                              (record st { db = db }) start h,
                          start,
                        )
                ]
          ]
        ]

    create_public_session-Good :
        (b : Backend D) (st : ServerState D) → AllHold st → Good (create_public_session b st)
    unfolding create_public_session
    create_public_session-Good b st h =
        let (db, made) = b.auth.create_anonymous_browser_session st.db in
        elim (Result-cases made) [
          | inr (e, failed) ↦ rw (create_public_session, failed) (h, tt)
          | inl (issued, given) ↦
              rw (create_public_session, given)
                (stored-Good b issued.session
                  (set_cookie_until issued.cookie_value issued.session.expires_at)
                  (record st { db = db }) h)
        ]

    authenticated_session-Good :
        (b : Backend D) (r : HttpRequest) (st : ServerState D)
        → AllHold st
        → Good (authenticated_session b r st)
    unfolding authenticated_session
    authenticated_session-Good b r st h = elim (Option-cases (cookie_value_of r.cookie)) [
      | inl e ↦ rw (authenticated_session, e) (h, tt)
      | inr (value, e) ↦ elim (Result-cases (b.auth.verify_browser_session value st.db)) [
        | inr (x, failed) ↦ elim (Bool-cases (is_session_expired x)) [
          | inl expired ↦ rw (authenticated_session, e, failed, expired) (h, tt)
          | inr refused ↦ rw (authenticated_session, e, failed, refused) (h, tt)
        ]
        | inl (stored, verified) ↦ elim (Bool-cases (is_not_positive stored.user_id)) [
          | inl anonymous ↦ rw (authenticated_session, e, verified, anonymous) (h, tt)
          | inr known ↦
              rw (authenticated_session, e, verified, known) (stored-Good b stored untouched st h)
        ]
      ]
    ]

  module _ (srv : Server D) (start : P []) where
    create_legacy_session-Good :
        (st : ServerState D) → AllHold st → Good (create_legacy_session srv st)
    unfolding create_legacy_session
    create_legacy_session-Good st h =
        let (random, id) = random_id srv.base64 (codes "sess") st.random in
        elim (Result-cases id) [
          | inr (e, failed) ↦ rw (create_legacy_session, failed) (h, tt)
          | inl (id', made) ↦
              let (random', csrf) = random_id srv.base64 (codes "csrf") random in
              elim (Result-cases csrf) [
                | inr (e, failed) ↦ rw (create_legacy_session, made, failed) (h, tt)
                | inl (csrf', made') ↦
                    rw (create_legacy_session, made, made')
                      (
                        put-AllHold (fresh_session id' csrf') (record st { random = random' }) start
                            h,
                        start,
                      )
              ]
        ]

    legacy_session-Good :
        (r : HttpRequest) (st : ServerState D) → AllHold st → Good (legacy_session srv r st)
    unfolding legacy_session
    legacy_session-Good r st h = elim (Option-cases (cookie_value_of r.cookie)) [
      | inl e ↦ rw (legacy_session, e) (create_legacy_session-Good st h)
      | inr (value, e) ↦ elim (Option-cases (find_web_session value st.sessions)) [
        | inl e' ↦ rw (legacy_session, e, e') (create_legacy_session-Good st h)
        | inr (s, e') ↦ rw (legacy_session, e, e') (h, find-Holds value st.sessions s e' h)
      ]
    ]

    pub public_session-Good :
        (r : HttpRequest) (st : ServerState D) → AllHold st → Good (public_session srv r st)
    unfolding public_session
    public_session-Good r st h = elim (Option-cases srv.backend) [
      | inl none_set ↦ rw (public_session, none_set) (legacy_session-Good r st h)
      | inr (b, given) ↦ elim (Option-cases (cookie_value_of r.cookie)) [
        | inl e ↦ rw (public_session, given, e) (create_public_session-Good start b st h)
        | inr (value, e) ↦ elim (Result-cases (b.auth.verify_browser_session value st.db)) [
          | inl (stored, verified) ↦
              rw (public_session, given, e, verified) (stored-Good start b stored untouched st h)
          | inr (x, failed) ↦ elim (Bool-cases (is_invalid_session x || is_session_expired x)) [
            | inl refused ↦
                rw (public_session, given, e, failed, refused)
                  (create_public_session-Good start b st h)
            | inr broken ↦ rw (public_session, given, e, failed, broken) (h, tt)
          ]
        ]
      ]
    ]

    pub session-Good : (r : HttpRequest) (st : ServerState D) → AllHold st → Good (session srv r st)
    unfolding session
    session-Good r st h = elim (Option-cases srv.backend) [
      | inl none_set ↦ rw (session, none_set) (legacy_session-Good r st h)
      | inr (b, given) ↦ rw (session, given) (authenticated_session-Good start b r st h)
    ]
