-- ===== src/Web/OneTurn.antt =====
-- internal/web/server.go: a browser session runs one turn at a time.
pub mod Signed
pub mod Steps
use pyttechat.Base.{
  ℕ, zero, suc, ◌≤◌, Bool, true, false, ◌||◌, ◌&&◌, not, List, [], ◌∷◌, Option, none, some, ℤ, pos,
  is_not_positive, Bytes, ◌≡◌, refl, ap, arith, inl, inr, Bool-cases, Option-cases, All,
  if◌then◌else◌,
}
use pyttechat.Errors.{Error, is_invalid_session, Result, ok, err, Result-cases}
use pyttechat.Text.{eq_bytes, is_empty, trim_space, has_prefix, cut_prefix, cut_byte}
use pyttechat.Text.Laws.{codes}
use pyttechat.Storage.Accounts.{User}
use pyttechat.Chat.Session.{validate_replace_from}
use pyttechat.Web.Job.{Job, Payload, new_job, subscribe, abort}
use pyttechat.Web.Job.Schedule.{Action, act, act_over}
use pyttechat.Web.Sessions.{
  Turn, WebSession, Backend, Server, ServerState, SetCookie, HttpRequest, TurnBody, invalid_json,
  trailing_json, turn_request, random_id, valid_csrf, remove_browser_session, put_web_session,
  public_session, session,
}
use pyttechat.Web.Server.{
  Reply, any_running, find_turn, change_turn, new_turn, add_turn, start_turn, take_turn_request,
  handle_index, handle_create_turn, handle_turn_events, handle_abort_turn, handle_turn_route,
  run_options,
}
use pyttechat.Web.Signing.{
  sign_in, log_in, create_account, log_out, handle_login_form, handle_login, handle_register_form,
  handle_register, handle_logout,
}
use pyttechat.Web.Routes.{
  serve_http, Happening, request, turn_acts, chat_moves, change_session, happen, happens,
}
use pyttechat.Web.Registry.{
  Holds, AllHold, Good, put-AllHold, remove-AllHold, public_session-Good, session-Good,
}

-- The number of turns that are not over.
abbrev pub running : List Turn → ℕ
running [] = 0
running (t ∷ ts) = if t.job.terminal then running ts else suc (running ts)

abbrev pub IsSingle : List Turn → Type 0
IsSingle ts = running ts ≤ 1

any_running_none : (ts : List Turn) → any_running ts ≡ false → running ts ≡ 0
unfolding any_running
any_running_none [] h = refl
any_running_none (t ∷ ts) h = ground (arith, h, any_running_none ts)

-- What ends no turn's end leaves no more turns running.
pub change_turn_few :
    (id : Bytes) (f : Job → Job) (ts : List Turn)
    → ((j : Job) → j.terminal ≡ true → (f j).terminal ≡ true)
    → running (change_turn id f ts) ≤ running ts
unfolding change_turn
change_turn_few id f [] stays = omega arith
change_turn_few id f (t ∷ ts) stays =
    let less = change_turn_few id f ts stays in
    elim (Bool-cases (eq_bytes t.id id)) [
      | inl hit ↦ elim (Bool-cases t.job.terminal) [
        | inl over ↦ let over' = stays t.job over in ground (arith, less, hit, over, over')
        | inr open_ ↦ ground (arith, less, hit, open_)
      ]
      | inr miss ↦ ground (arith, less, miss)
    ]

pub subscribe_over : (last : ℕ) (j : Job) → j.terminal ≡ true → (subscribe last j).0.terminal ≡ true
unfolding subscribe
subscribe_over last j h = ground (arith, h)

pub abort_over : (j : Job) → j.terminal ≡ true → (abort j).0.terminal ≡ true
unfolding abort
abort_over j h = ground (arith, h)

module _ {D : Type 0} (srv : Server D) where
  abbrev pub Keeps : (ServerState D → ServerState D) → Type 0
  Keeps f = (st : ServerState D) → AllHold IsSingle st → AllHold IsSingle (f st)

  -- Both branches of a test.
  pub if-IsSingle :
      (c : Bool) (p q : Reply D)
      → AllHold IsSingle p.0
      → AllHold IsSingle q.0
      → AllHold IsSingle (if c then p else q).0
  if-IsSingle true p q hp hq = hp
  if-IsSingle false p q hp hq = hq

  add_turn-IsSingle :
      (s : WebSession D) (t : Turn) (k : Option ℤ) (st : ServerState D)
      → AllHold IsSingle st
      → AllHold IsSingle (add_turn srv s t k st).0
  unfolding add_turn
  add_turn-IsSingle s t k st h = elim (Bool-cases (any_running s.turns)) [
    | inl busy ↦ rw (add_turn, busy) h
    | inr idle ↦
        let zero_running = any_running_none s.turns idle in
        rw (add_turn, idle)
          (put-AllHold IsSingle
            (record s { turns = record t { options = some (run_options srv k) } ∷ s.turns }) st
            (ground (arith, zero_running)) h)
  ]

  start_turn-IsSingle :
      (s : WebSession D) (prompt : Bytes) (k : Option ℤ) (st : ServerState D)
      → AllHold IsSingle st
      → AllHold IsSingle (start_turn srv s prompt k st).0
  unfolding start_turn
  start_turn-IsSingle s prompt k st h =
      let (random, made) = new_turn srv.base64 prompt st.random in
      elim (Result-cases made) [
        | inr (e, failed) ↦ rw (start_turn, failed) h
        | inl (t, given) ↦
            rw (start_turn, given) (add_turn-IsSingle s t k (record st { random = random }) h)
      ]

  take_turn_request-IsSingle :
      (s : WebSession D) (body : TurnBody) (st : ServerState D)
      → AllHold IsSingle st
      → AllHold IsSingle (take_turn_request srv s body st).0
  unfolding take_turn_request
  take_turn_request-IsSingle s invalid_json st h = h
  take_turn_request-IsSingle s trailing_json st h = h
  take_turn_request-IsSingle s (turn_request prompt replace_from) st h =
      elim (Bool-cases (is_empty (trim_space prompt))) [
        | inl blank ↦ rw (take_turn_request, blank) h
        | inr text ↦ elim (Option-cases (validate_replace_from s.chat replace_from)) [
          | inr (e, wrong) ↦ rw (take_turn_request, text, wrong) h
          | inl right ↦
              rw (take_turn_request, text, right)
                (start_turn-IsSingle s (trim_space prompt) replace_from st h)
        ]
      ]

  pub handle_index-IsSingle : (r : HttpRequest) → Keeps (λ st. (handle_index srv r st).0)
  unfolding handle_index
  handle_index-IsSingle r st h =
      let g = session-Good IsSingle srv (omega arith) r st h in
      let (st', cookie, found) = session srv r st in
      elim (Result-cases found) [
        | inr (e, failed) ↦ rw (handle_index, failed) g.0
        | inl (s, given) ↦ rw (handle_index, given) g.0
      ]

  pub handle_create_turn-IsSingle :
      (r : HttpRequest) → Keeps (λ st. (handle_create_turn srv r st).0)
  unfolding handle_create_turn
  handle_create_turn-IsSingle r st h =
      let g = session-Good IsSingle srv (omega arith) r st h in
      let (st', cookie, found) = session srv r st in
      elim (Result-cases found) [
        | inr (e, failed) ↦ rw (handle_create_turn, failed) g.0
        | inl (s, given) ↦ elim (Bool-cases (valid_csrf r s.csrf)) [
          | inr forged ↦ rw (handle_create_turn, given, forged) g.0
          | inl meant ↦
              rw (handle_create_turn, given, meant) (take_turn_request-IsSingle s r.body st' g.0)
        ]
      ]
