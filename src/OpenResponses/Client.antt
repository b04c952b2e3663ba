-- ===== src/OpenResponses/Client.antt =====
-- internal/llm/openresponses/client.go: the client and its HTTP request. net/http, net/url and
-- json.Marshal are parameters, and what a response carries is its status, its body and the error with
-- which that ends.
use pyttechat.Base.{
  ℕ, zero, suc, ◌&&◌, ◌||◌, List, [], ◌∷◌, ◌++◌, Option, none, some, ℤ, pos, is_not_positive, Bytes,
  ltb, leb, ◌==◌, if◌then◌else◌, ◌≡◌, refl, arith, All, map, length, ◌<◌, ◌≤◌,
}
use pyttechat.Errors.{Error, eof, stream_failed, Result, ok, err}
use pyttechat.Text.{is_empty, trim_space}
use pyttechat.Text.Laws.{codes}
use pyttechat.Llm.{Request}
use pyttechat.OpenResponses.Json.{Map}
use pyttechat.OpenResponses.Input.{create_request_body}
use pyttechat.OpenResponses.Stream.{ResponseStream, new_stream}
use pyttechat.OpenResponses.Provider.{StreamEvent, write_events}
use pyttechat.OpenResponses.RoundTrip.{Carries, answers, reads, reads-write_events}

-- strings.TrimRight(s, "/")
unfoldable pub trim_slashes : Bytes → Bytes
trim_slashes [] = []
trim_slashes (c ∷ s) =
    let rest = trim_slashes s in if is_empty rest && c == b'/' then [] else c ∷ rest

-- type Client
pub record Client : Type 0 where
  pub base_url : Bytes
  pub timeout : ℤ
  pub bearer_token : Bytes

-- 5 minutes in nanoseconds
abbrev default_timeout : ℤ
default_timeout = pos 300000000000

-- NewClientWithOptions
unfoldable pub new_client_with_options : Bytes → ℤ → Bytes → Client
unfolding trim_slashes trim_space
new_client_with_options base_url timeout bearer_token = record {
  base_url = trim_slashes base_url;
  timeout = if is_not_positive timeout then default_timeout else timeout;
  bearer_token = trim_space bearer_token;
}

-- url.URL, less what responsesURL leaves as it is
pub record Url : Type 0 where
  pub scheme : Bytes
  pub host : Bytes
  pub path : Bytes

pub record HttpRequest : Type 0 where
  pub url : Bytes
  pub accept : Bytes
  pub content_type : Bytes
  pub authorization : Bytes
  pub body : Bytes

pub record HttpResponse : Type 0 where
  pub status : ℕ
  pub body : Bytes
  pub ends : Error

-- json.Marshal, url.Parse and URL.String with another path, http.NewRequestWithContext, Client.Do,
-- and the text of an error of a status with what the body says.
pub record Network : Type 0 where
  pub marshal : Map → Result Bytes
  pub parse_url : Bytes → Option Url
  pub with_path : Bytes → Bytes → Bytes
  pub refuses_url : Bytes → Option Error
  pub send : HttpRequest → Result HttpResponse
  pub status_text : ℕ → Bytes → Bytes

module _ (net : Network) where
  -- responsesURL
  unfoldable pub responses_url : Client → Bytes
  unfolding trim_slashes
  responses_url c = elim (net.parse_url c.base_url) [
    | none ↦ c.base_url ++ codes "/v1/responses"
    | some parsed ↦
        if is_empty parsed.scheme || is_empty parsed.host
        then c.base_url ++ codes "/v1/responses"
        else net.with_path c.base_url (trim_slashes parsed.path ++ codes "/v1/responses")
  ]

  abbrev authorization : Bytes → Bytes
  authorization [] = []
  authorization (c ∷ token) = codes "Bearer " ++ c ∷ token

  abbrev pub http_request : Client → Bytes → HttpRequest
  http_request c body = record {
    url = responses_url c;
    accept = codes "text/event-stream";
    content_type = codes "application/json";
    authorization = authorization c.bearer_token;
    body = body;
  }

  -- At most the first `n` bytes of the body.
  abbrev limited : ℕ → Bytes → Bytes
  limited n [] = []
  limited zero (c ∷ s) = []
  limited (suc n) (c ∷ s) = c ∷ limited n s

  -- What Stream makes of a response.
  unfoldable pub open_stream : HttpResponse → Result ResponseStream
  unfolding trim_space
  open_stream response =
      if ltb response.status 200 || leb 300 response.status
      then err (
          stream_failed (net.status_text response.status (trim_space (limited 4096 response.body))))
      else ok (new_stream response.body response.ends)

  -- Client.Stream
  unfoldable pub stream : Client → Request → Result ResponseStream
  unfolding responses_url create_request_body open_stream
  stream c request = elim (net.marshal (create_request_body request)) [
    | err e ↦ err e
    | ok body ↦ elim (net.refuses_url (responses_url c)) [
      | some e ↦ err e
      | none ↦ elim (net.send (http_request c body)) [
        | err e ↦ err e
        | ok response ↦ open_stream response
      ]
    ]
  ]

  -- A call of Stream that is answered with a status from 200 to 299 and the server-sent events of some
  -- payloads gives a stream, and the client reads from it what mapPayload makes of these payloads, in
  -- their order, up to the first error or the completed event. This holds where the request can be made
  -- and sent, and every payload is read back from its text, which has no control characters.
  pub reads-stream :
      (decimal : ℤ → Bytes) (write : Map → Bytes) (unmarshal : Bytes → Result Map) (c : Client)
      (request : Request) (body : Bytes) (status : ℕ) (events : List StreamEvent) (n : ℕ)
      → net.marshal (create_request_body request) ≡ ok body
      → net.refuses_url (responses_url c) ≡ none
      → net.send (http_request c body)
        ≡ ok (record { status = status; body = write_events write events; ends = eof })
      → 200 ≤ status
      → status < 300
      → All (Carries write unmarshal) events
      → length events < n
      → (s : ResponseStream) × (stream c request ≡ ok s)
        × (reads decimal unmarshal n s ≡ answers decimal (map (λ e. e.payload) events) [])
  unfolding stream open_stream
  reads-stream decimal write unmarshal c request body status events n encoded made sent low high
        carries enough =
      let s = new_stream (write_events write events) eof in
      (
        s,
        rw (stream, encoded, made, sent) (ground (arith, low, high)),
        reads-write_events decimal unmarshal write events n s carries enough refl refl refl,
      )
