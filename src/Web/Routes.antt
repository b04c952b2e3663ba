-- ===== src/Web/Routes.antt =====
-- internal/web/server.go: ServeHTTP, and what happens to the server from one request to the next.
use pyttechat.Base.{Bool, ◌&&◌, List, [], ◌∷◌, Option, none, some, Bytes, if◌then◌else◌, map}
use pyttechat.Text.{eq_bytes, has_prefix, cut_prefix}
use pyttechat.Text.Laws.{codes}
use pyttechat.Chat.Session.{Session}
use pyttechat.Web.Job.{Payload}
use pyttechat.Web.Job.Schedule.{Action, act}
use pyttechat.Web.Sessions.{WebSession, Server, ServerState, untouched, HttpRequest}
use pyttechat.Web.Server.{
  asset, no_content, not_found, Reply, change_turn, handle_index, handle_create_turn,
  handle_turn_route,
}
use pyttechat.Web.Signing.{
  handle_login_form, handle_login, handle_register_form, handle_register, handle_logout,
}

abbrev pub gets : HttpRequest → Bool
gets r = eq_bytes r.method (codes "GET")

abbrev pub posts : HttpRequest → Bool
posts r = eq_bytes r.method (codes "POST")

-- The cases of ServeHTTP.
pub data Route : Type 0 where
  to_asset to_favicon to_login_form to_login to_register_form to_register : Route
  to_logout to_index to_create_turn unknown : Route
  to_turn : Bytes → Route

-- strings.HasPrefix(r.URL.Path, "/chat/turns/"), and what handleTurnRoute cuts off
abbrev turn_or_unknown : Option Bytes → Route
turn_or_unknown none = unknown
turn_or_unknown (some path) = to_turn path

-- The switch of ServeHTTP.
unfoldable pub route : HttpRequest → Route
unfolding eq_bytes has_prefix cut_prefix
route r =
    if has_prefix r.path (codes "/assets/") && gets r
    then to_asset
    else if eq_bytes r.path (codes "/favicon.ico") && gets r
    then to_favicon
    else if eq_bytes r.path (codes "/login") && gets r
    then to_login_form
    else if eq_bytes r.path (codes "/login") && posts r
    then to_login
    else if eq_bytes r.path (codes "/register") && gets r
    then to_register_form
    else if eq_bytes r.path (codes "/register") && posts r
    then to_register
    else if eq_bytes r.path (codes "/logout") && posts r
    then to_logout
    else if eq_bytes r.path (codes "/") && gets r
    then to_index
    else if eq_bytes r.path (codes "/chat/turns") && posts r
    then to_create_turn
    else turn_or_unknown (cut_prefix r.path (codes "/chat/turns/"))

module _ {D : Type 0} (srv : Server D) where
  abbrev pub serve_route : Route → HttpRequest → ServerState D → Reply D
  serve_route to_asset r st = (st, untouched, asset)
  serve_route to_favicon r st = (st, untouched, no_content)
  serve_route to_login_form r st = handle_login_form srv r st
  serve_route to_login r st = handle_login srv r st
  serve_route to_register_form r st = handle_register_form srv r st
  serve_route to_register r st = handle_register srv r st
  serve_route to_logout r st = handle_logout srv r st
  serve_route to_index r st = handle_index srv r st
  serve_route to_create_turn r st = handle_create_turn srv r st
  serve_route (to_turn path) r st = handle_turn_route srv r path st
  serve_route unknown r st = (st, untouched, not_found)

  -- ServeHTTP
  unfoldable pub serve_http : HttpRequest → ServerState D → Reply D
  unfolding route handle_index handle_create_turn handle_turn_route handle_login_form handle_login
      handle_register_form handle_register handle_logout
  serve_http r st = serve_route (route r) r st

  -- What happens to a server: a request, a step of the goroutines of a turn, and what a run does to
  -- the chat of its session and to the store.
  pub data Happening : Type 0 where
    request : HttpRequest → Happening
    turn_acts : Bytes → Bytes → Action → Happening
    chat_moves : Bytes → (Session D → Session D) → (D → D) → Happening

  -- A change of the session with an id.
  unfoldable pub change_session :
      Bytes → (WebSession D → WebSession D) → List (WebSession D) → List (WebSession D)
  unfolding eq_bytes
  change_session id f = map (λ s. if eq_bytes s.id id then f s else s)

  unfoldable pub happen : (Payload → Option Bytes) → Happening → ServerState D → ServerState D
  unfolding serve_http change_session change_turn act
  happen marshal (request r) st = (serve_http r st).0
  happen marshal (turn_acts id turn_id action) st = record st {
    sessions =
        change_session id
          (λ s. record s { turns = change_turn turn_id (act marshal action) s.turns }) st.sessions;
  }
  happen marshal (chat_moves id f g) st = record st {
    sessions = change_session id (λ s. record s { chat = f s.chat }) st.sessions;
    db = g st.db;
  }

  unfoldable pub happens : (Payload → Option Bytes) → List Happening → ServerState D → ServerState D
  unfolding happen
  happens marshal [] st = st
  happens marshal (h ∷ hs) st = happens marshal hs (happen marshal h st)
