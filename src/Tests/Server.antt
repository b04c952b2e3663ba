-- ===== src/Tests/Server.antt =====
-- Runs of the handlers of internal/web on small inputs, and the theorems about them at those.
use pyttechat.Base.{true, false, [], ◌∷◌, ◌++◌, map, Option, none, some, ℤ, pos, Bytes, ◌≡◌, refl}
use pyttechat.Errors.{Result, ok}
use pyttechat.Text.{eq_bytes, has_prefix, cut_prefix}
use pyttechat.Text.Laws.{codes}
use pyttechat.Storage.Accounts.{Accounts}
use pyttechat.Auth.{World}
use pyttechat.Chat.Session.{Store, new_session}
use pyttechat.Auth.Alphabet.{IsToken}
use pyttechat.Web.Sessions.{
  WebSession, valid_csrf, session, Server, ServerState, untouched, set_cookie_until, turn_request,
  HttpRequest,
}
use pyttechat.Web.Server.{turn_created, handle_create_turn, redirect, json_error}
use pyttechat.Web.Signing.{sign_in}
use pyttechat.Web.Routes.{request, happens, route, serve_http}
use pyttechat.Web.Registry.{AllHold}
use pyttechat.Web.OneTurn.{IsSingle}
use pyttechat.Web.OneTurn.Steps.{happens-IsSingle}
use pyttechat.Web.Locked.{is_chat, is_stranger, Refuses, serve_http_locked}
use pyttechat.Web.Renewal.{backend_of, sign_in_locks_old}
use pyttechat.Web.Granted.{Accepted, handle_create_turn_granted}
use pyttechat.Tests.Auth.{
  letter, service, laws, crypto-WritesTokens, sess_a-IsToken, ann_enters, ann_user, visited,
  signed_in, entered,
}

-- A store that keeps nothing.
abbrev store : Store (World Accounts)
store = record {
  messages = λ w id. ok [];
  append_turn = λ w id u a. (w, none);
  replace_tail_and_append_turn = λ w id keep u a. (w, none);
}

abbrev conversation : ℤ → World Accounts → World Accounts × Result ℤ
conversation user_id w = (w, ok (pos 7))

abbrev with_accounts : Server (World Accounts)
with_accounts = record {
  backend = some (backend_of service store conversation);
  registration = true;
  base64 = map letter;
  model = codes "m";
  reasoning_effort = [];
  web_rendering_instructions = [];
}

abbrev without_accounts : Server (World Accounts)
without_accounts = record {
  backend = none;
  registration = false;
  base64 = map letter;
  model = [];
  reasoning_effort = [];
  web_rendering_instructions = [];
}

abbrev asks : Option Bytes → Bytes → HttpRequest
asks cookie csrf = record {
  method = codes "POST";
  path = codes "/chat/turns";
  cookie = cookie;
  csrf_header = csrf;
  csrf_form = [];
  form = none;
  body = turn_request (codes "Hello") none;
  last_event_id = 0;
}

-- A server that has seen nobody, with random bytes for two sessions and their turns.
abbrev empty : ServerState (World Accounts)
empty = record {
  sessions = [];
  db = visited;
  random =
      ok (0 ∷ [])
      ∷ ok (1 ∷ [])
      ∷ ok (2 ∷ [])
      ∷ ok (3 ∷ [])
      ∷ ok (4 ∷ [])
      ∷ ok (5 ∷ [])
      ∷ ok (6 ∷ [])
      ∷ ok (7 ∷ [])
      ∷ [];
}

-- A first visit, a prompt, and another one while the first is being answered.
abbrev first : HttpRequest
first = asks none []

abbrev prompts : HttpRequest
prompts = asks (some (codes "sess_a")) (codes "csrf_b")

second_turn_refused :
    (serve_http without_accounts prompts
      (serve_http without_accounts prompts (serve_http without_accounts first empty).0).0).2
    ≡ json_error 409 (codes "turn_in_progress")
unfolding serve_http letter
second_turn_refused = refl

abbrev visited_once : ServerState (World Accounts)
visited_once = (serve_http without_accounts first empty).0

turn_starts :
    (handle_create_turn without_accounts prompts visited_once).2
    ≡ turn_created (codes "turn_c") (codes "msg_d") (codes "msg_e")
unfolding serve_http letter handle_create_turn
turn_starts = refl

handle_create_turn_granted_example :
    (s : WebSession (World Accounts)) × ((session without_accounts prompts visited_once).2 ≡ ok s)
    × (valid_csrf prompts s.csrf ≡ true)
    × Accepted without_accounts s prompts.body
handle_create_turn_granted_example =
    handle_create_turn_granted without_accounts prompts visited_once (codes "turn_c")
      (codes "msg_d") (codes "msg_e") turn_starts

happens-IsSingle_example : AllHold IsSingle (
    happens without_accounts
      (λ p. some [])
      (request first ∷ request prompts ∷ request prompts ∷ [])
      empty)
happens-IsSingle_example =
    happens-IsSingle without_accounts (λ p. some [])
      (request first ∷ request prompts ∷ request prompts ∷ []) empty tt

serve_http_locked_example : Refuses with_accounts empty (serve_http with_accounts first empty)
unfolding is_stranger is_chat route eq_bytes has_prefix cut_prefix
serve_http_locked_example =
    serve_http_locked with_accounts (backend_of service store conversation) first empty refl refl
      refl

abbrev old : WebSession (World Accounts)
old = record {
  id = codes "sess_a";
  csrf = codes "csrf_c";
  user_id = pos 0;
  username = [];
  conversation_id = pos 0;
  chat = new_session;
  turns = [];
}

sign_in_locks_old_example :
    let b = backend_of service store conversation in
    let (st', cookie', response) = sign_in with_accounts b old ann_user untouched empty in
    (response ≡ redirect (codes "/"))
    × (cookie' ≡ set_cookie_until signed_in.cookie_value signed_in.session.expires_at)
    × ((secret : Bytes) (r : HttpRequest)
        → IsToken secret
        → r.cookie ≡ some (codes "sess_a" ++ b'.' ∷ secret)
        → is_chat (route r) ≡ true
        → Refuses with_accounts st' (serve_http with_accounts r st'))
unfolding eq_bytes
sign_in_locks_old_example =
    sign_in_locks_old service laws crypto-WritesTokens with_accounts store conversation old ann_user
      untouched empty entered signed_in refl ann_enters sess_a-IsToken refl
