-- ===== src/Web/Granted.antt =====
-- internal/web/server.go: what a request for a new turn has to bring.
use pyttechat.Base.{
  true, false, Option, none, ℤ, Bytes, ◌≡◌, refl, arith, inl, inr, Bool-cases, Option-cases,
}
use pyttechat.Errors.{ok, Result-cases}
use pyttechat.Text.{is_empty, trim_space}
use pyttechat.Chat.Session.{validate_replace_from}
use pyttechat.Web.Sessions.{
  WebSession, Server, ServerState, TurnBody, invalid_json, trailing_json, turn_request, HttpRequest,
  valid_csrf, session,
}
use pyttechat.Web.Server.{
  turn_created, any_running, new_turn, add_turn, start_turn, take_turn_request, handle_create_turn,
}

module _ {D : Type 0} (srv : Server D) where
  -- The body of a request that was granted, for its session.
  pub record Accepted (s : WebSession D) (body : TurnBody) : Type 0 where
    pub prompt : Bytes
    pub replace_from : Option ℤ
    pub read : body ≡ turn_request prompt replace_from
    pub not_blank : is_empty (trim_space prompt) ≡ false
    pub in_range : validate_replace_from s.chat replace_from ≡ none
    pub idle : any_running s.turns ≡ false

  start_turn-created :
      (s : WebSession D) (prompt : Bytes) (k : Option ℤ) (st : ServerState D) (a u m : Bytes)
      → (start_turn srv s prompt k st).1 ≡ turn_created a u m
      → any_running s.turns ≡ false
  unfolding start_turn add_turn
  start_turn-created s prompt k st a u m h =
      elim (Result-cases (new_turn srv.base64 prompt st.random).1) [
        | inr (e, failed) ↦ absurd (ground (arith, h, failed))
        | inl (t, made) ↦ elim (Bool-cases (any_running s.turns)) [
          | inl busy ↦ absurd (ground (arith, h, made, busy))
          | inr idle ↦ idle
        ]
      ]

  take_turn_request-created :
      (s : WebSession D) (body : TurnBody) (st : ServerState D) (a u m : Bytes)
      → (take_turn_request srv s body st).1 ≡ turn_created a u m
      → Accepted s body
  unfolding take_turn_request
  take_turn_request-created s invalid_json st a u m h = absurd (ground (arith, h))
  take_turn_request-created s trailing_json st a u m h = absurd (ground (arith, h))
  take_turn_request-created s (turn_request prompt replace_from) st a u m h =
      elim (Bool-cases (is_empty (trim_space prompt))) [
        | inl blank ↦ absurd (ground (arith, h, blank))
        | inr text ↦ elim (Option-cases (validate_replace_from s.chat replace_from)) [
          | inr (e, wrong) ↦ absurd (ground (arith, h, text, wrong))
          | inl right ↦ record {
            prompt = prompt;
            replace_from = replace_from;
            read = refl;
            not_blank = text;
            in_range = right;
            idle =
                start_turn-created s (trim_space prompt) replace_from st a u m
                  (ground (arith, h, text, right));
          }
        ]
      ]

  -- A turn is created only for a request whose session was found, that bears the token of that session
  -- and a body that could be read, with a prompt that is not blank and an index that ValidateReplaceFrom
  -- takes, and only while no turn of the session is running.
  pub handle_create_turn_granted :
      (r : HttpRequest) (st : ServerState D) (a u m : Bytes)
      → (handle_create_turn srv r st).2 ≡ turn_created a u m
      → (s : WebSession D) × ((session srv r st).2 ≡ ok s)
        × (valid_csrf r s.csrf ≡ true)
        × Accepted s r.body
  unfolding handle_create_turn
  handle_create_turn_granted r st a u m h =
      let (st', cookie, found) = session srv r st in
      elim (Result-cases found) [
        | inr (e, failed) ↦ absurd (ground (arith, h, failed))
        | inl (s, given) ↦ elim (Bool-cases (valid_csrf r s.csrf)) [
          | inr forged ↦ absurd (ground (arith, h, given, forged))
          | inl meant ↦ (
            s,
            given,
            meant,
            take_turn_request-created s r.body st' a u m (ground (arith, h, given, meant)),
          )
        ]
      ]
