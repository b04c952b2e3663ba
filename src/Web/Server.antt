-- ===== src/Web/Server.antt =====
-- internal/web/server.go: ServeHTTP and the handlers.
use pyttechat.Base.{
  ℕ, Bool, false, ◌&&◌, ◌||◌, not, List, [], ◌∷◌, Option, none, some, Bytes, if◌then◌else◌, length,
  ℤ,
}
use pyttechat.Errors.{Error, is_invalid_session, Result, ok, err}
use pyttechat.Text.{is_empty, eq_bytes, trim_space, cut_byte}
use pyttechat.Text.Laws.{codes}
use pyttechat.Llm.{Message}
use pyttechat.Chat.Session.{session_messages, validate_replace_from, SendOptions}
use pyttechat.Web.Job.{Job, new_job, StreamEvent, subscribe, abort}
use pyttechat.Web.Sessions.{
  Turn, WebSession, Server, ServerState, SetCookie, untouched, TurnBody, invalid_json,
  trailing_json, turn_request, HttpRequest, random_id, valid_csrf, put_web_session, session,
}

-- What a handler answers. The pages are what their templates are filled with.
pub data Response : Type 0 where
  asset no_content not_found : Response
  redirect : Bytes → Response
  json_error : ℕ → Bytes → Response
  http_error : ℕ → Response
  auth_page : ℕ → Bytes → Bytes → Bytes → Response
  index_page : Bytes → Bytes → List Message → ℕ → Response
  turn_created : Bytes → Bytes → Bytes → Response
  event_stream : List StreamEvent → Bool → Response
  turn_aborted : Bytes → Response

abbrev pub Reply : Type 0 → Type 0
Reply D = ServerState D × SetCookie × Response

-- The loop of handleCreateTurn over the turns of the session.
unfoldable pub any_running : List Turn → Bool
any_running [] = false
any_running (t ∷ ts) = not t.job.terminal || any_running ts

-- s.turns[id]
unfoldable pub find_turn : Bytes → List Turn → Option Turn
unfolding eq_bytes
find_turn id [] = none
find_turn id (t ∷ ts) = let later = find_turn id ts in if eq_bytes t.id id then some t else later

-- A change of the job of a turn.
unfoldable pub change_turn : Bytes → (Job → Job) → List Turn → List Turn
unfolding eq_bytes
change_turn id f [] = []
change_turn id f (t ∷ ts) =
    let later = change_turn id f ts in
    if eq_bytes t.id id then record t { job = f t.job } ∷ later else t ∷ later

-- newTurnJobWithContext
unfoldable pub new_turn :
    (Bytes → Bytes) → Bytes → List (Result Bytes) → List (Result Bytes) × Result Turn
unfolding random_id
new_turn base64 prompt random =
    let (random₁, id) = random_id base64 (codes "turn") random in
    elim id [
      | err e ↦ (random₁, err e)
      | ok id' ↦
          let (random₂, user) = random_id base64 (codes "msg") random₁ in
          elim user [
            | err e ↦ (random₂, err e)
            | ok user' ↦
                let (random₃, assistant) = random_id base64 (codes "msg") random₂ in
                elim assistant [
                  | err e ↦ (random₃, err e)
                  | ok assistant' ↦ (
                    random₃,
                    ok (record {
                      id = id';
                      user_message_id = user';
                      assistant_message_id = assistant';
                      prompt = prompt;
                      job = new_job;
                      options = none;
                    }),
                  )
                ]
          ]
    ]

module _ {D : Type 0} (srv : Server D) where
  -- An error of session, in the handlers that answer in JSON.
  abbrev pub session_failed : Error → Response
  session_failed e =
      if is_invalid_session e
      then json_error 401 (codes "authentication_required")
      else json_error 500 (codes "session_error")

  -- handleIndex
  unfoldable pub handle_index : HttpRequest → ServerState D → Reply D
  unfolding session session_messages is_invalid_session
  handle_index r st =
      let (st', cookie, found) = session srv r st in
      elim found [
        | err e ↦ (
          st',
          cookie,
          (if is_invalid_session e
              then redirect (codes "/login")
              else json_error 500 (codes "session_error")),
        )
        | ok s ↦
            let messages = session_messages s.chat in
            (st', cookie, index_page s.csrf s.username messages (length messages))
      ]

  -- The options with which handleCreateTurn calls `go turn.run`, by the clock's reading when the turn
  -- completes.
  abbrev pub run_options : Option ℤ → ℕ → SendOptions
  run_options replace_from now = record {
    model = srv.model;
    reasoning_effort = srv.reasoning_effort;
    rendering_instructions = srv.web_rendering_instructions;
    replace_from = replace_from;
    now = now;
  }

  -- s.turns[turn.id] = turn under the session's mutex, if no turn of the session is running,
  -- and `go turn.run`, whose goroutine has its options from here
  unfoldable pub add_turn :
      WebSession D → Turn → Option ℤ → ServerState D → ServerState D × Response
  unfolding any_running put_web_session
  add_turn s turn replace_from st =
      if any_running s.turns then (st, json_error 409 (codes "turn_in_progress")) else (
        put_web_session
            (record s {
              turns = record turn { options = some (run_options replace_from) } ∷ s.turns;
            })
            st,
        turn_created turn.id turn.user_message_id turn.assistant_message_id,
      )

  -- handleCreateTurn for a prompt and an index that were accepted
  unfoldable pub start_turn :
      WebSession D → Bytes → Option ℤ → ServerState D → ServerState D × Response
  unfolding new_turn add_turn
  start_turn s prompt replace_from st =
      let (random, made) = new_turn srv.base64 prompt st.random in
      let st' = record st { random = random } in
      elim made [
        | err e ↦ (st', json_error 500 (codes "turn_error"))
        | ok turn ↦ add_turn s turn replace_from st'
      ]

  -- handleCreateTurn behind its test of the token
  unfoldable pub take_turn_request :
      WebSession D → TurnBody → ServerState D → ServerState D × Response
  unfolding start_turn trim_space validate_replace_from
  take_turn_request s invalid_json st = (st, json_error 400 (codes "invalid_json"))
  take_turn_request s trailing_json st = (st, json_error 400 (codes "invalid_json"))
  take_turn_request s (turn_request prompt replace_from) st =
      if is_empty (trim_space prompt)
      then (st, json_error 400 (codes "empty_prompt"))
      else elim (validate_replace_from s.chat replace_from) [
        | some e ↦ (st, json_error 400 (codes "invalid_replace_from"))
        | none ↦ start_turn s (trim_space prompt) replace_from st
      ]

  -- handleCreateTurn
  unfoldable pub handle_create_turn : HttpRequest → ServerState D → Reply D
  unfolding session valid_csrf take_turn_request is_invalid_session
  handle_create_turn r st =
      let (st', cookie, found) = session srv r st in
      elim found [
        | err e ↦ (st', cookie, session_failed e)
        | ok s ↦
            if not (valid_csrf r s.csrf)
            then (st', cookie, json_error 403 (codes "invalid_csrf"))
            else (let (st'', response) = take_turn_request s r.body st' in (st'', cookie, response))
      ]

  -- handleTurnEvents up to the replay, with a writer that can flush; what comes after it is receive and
  -- unsubscribe of Web.Job.
  unfoldable pub handle_turn_events : HttpRequest → Bytes → ServerState D → Reply D
  unfolding session find_turn change_turn put_web_session subscribe is_invalid_session
  handle_turn_events r turn_id st =
      let (st', cookie, found) = session srv r st in
      elim found [
        | err e ↦ (st', cookie, session_failed e)
        | ok s ↦ elim (find_turn turn_id s.turns) [
          | none ↦ (st', cookie, json_error 404 (codes "turn_not_found"))
          | some turn ↦
              let (job, replay, terminal) = subscribe r.last_event_id turn.job in
              let turns = change_turn turn_id (λ j. (subscribe r.last_event_id j).0) s.turns in
              (
                put_web_session (record s { turns = turns }) st',
                cookie,
                event_stream replay terminal,
              )
        ]
      ]

  -- handleAbortTurn
  unfoldable pub handle_abort_turn : HttpRequest → Bytes → ServerState D → Reply D
  unfolding session valid_csrf find_turn change_turn put_web_session abort is_invalid_session
  handle_abort_turn r turn_id st =
      let (st', cookie, found) = session srv r st in
      elim found [
        | err e ↦ (st', cookie, session_failed e)
        | ok s ↦
            if not (valid_csrf r s.csrf)
            then (st', cookie, json_error 403 (codes "invalid_csrf"))
            else elim (find_turn turn_id s.turns) [
              | none ↦ (st', cookie, json_error 404 (codes "turn_not_found"))
              | some turn ↦
                  let turns = change_turn turn_id (λ j. (abort j).0) s.turns in
                  (
                    put_web_session (record s { turns = turns }) st',
                    cookie,
                    (if (abort turn.job).1
                        then turn_aborted turn_id
                        else json_error 409 (codes "turn_finished")),
                  )
            ]
      ]

  -- handleTurnRoute
  unfoldable pub handle_turn_route : HttpRequest → Bytes → ServerState D → Reply D
  unfolding handle_turn_events handle_abort_turn cut_byte eq_bytes
  handle_turn_route r path st = elim (cut_byte b'/' path) [
    | none ↦ (st, untouched, not_found)
    | some (turn_id, action) ↦
        if is_empty turn_id
        then (st, untouched, not_found)
        else if eq_bytes action (codes "events") && eq_bytes r.method (codes "GET")
        then handle_turn_events r turn_id st
        else if eq_bytes action (codes "abort") && eq_bytes r.method (codes "POST")
        then handle_abort_turn r turn_id st
        else (st, untouched, not_found)
  ]
