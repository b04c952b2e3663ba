-- ===== src/Lib.antt =====
-- Verification of pyttechat, a chat server that streams the answers of a language model.
--
-- The parts of the program. A browser posts a prompt; internal/web makes a turn job and runs it in a
-- goroutine (turnJob.run). The run calls Session.Send of internal/chat, which claims the session and
-- asks the client of internal/llm for a response stream, and then reads the stream event by event
-- through TurnStream.Next. Next gathers the parts of the answer and commits the turn to the
-- conversation in memory and to the store of internal/storage; the run gathers the same parts once
-- more to show them, and puts events into the job. Handlers of other requests subscribe to the job's
-- events, go away, come back with the id of the last event they saw, and abort the turn.
-- internal/markdown renders the text and cuts text that arrives in pieces into blocks.
--
-- What models what:
--   Base           shared names, lists measured by native numbers, signed integers
--   Text           what the code uses of Go's package strings, on bytes (TrimSpace is exact)
--   Errors         errors, told apart as errors.Is does, and results
--   Llm            internal/llm/llm.go: messages, parts, events, copies
--   OpenResponses  internal/llm/openresponses/client.go: the client and its call over HTTP (Client),
--                  the body of a request (Input), what the payload of an event says (Payload,
--                  Mapping) and the stream (Stream); `rest` is what is left of the body, which ends with
--                  the error `ends`. Provider is the writing half of
--                  internal/llm/openresponses/fakeprovider/provider.go
--   Chat.Parts     internal/chat/service.go: appendDelta, mergeCompletedPart
--   Chat.Session   internal/chat/service.go: Session, Store, replaceFromIndex, CommitStopped,
--                  appendOrReplaceTailLocked
--   Chat.Turn      internal/chat/service.go: Send, Next, CommitPartial, Close and what they call. Send
--                  is in two halves, begin_turn under the mutex and open_turn without it, since
--                  another goroutine may run between them
--   Web.Job        internal/web/server.go: turnJob, emit, emitTerminal, subscribe, unsubscribe,
--                  finish, abort
--   Web.Run        internal/web/server.go: turnJob.run and what it calls; `visits` are what other
--                  goroutines do to the job between two steps of the run
--   Web.Sessions   internal/web/server.go: the registry of browser sessions and how a request finds its
--                  own; Web.Server, Web.Signing and Web.Routes are the handlers and ServeHTTP. A
--                  handler is one function of the state of the server, and `happen` is what comes
--                  between two requests. Web.Renewal joins them with internal/auth
--   Web.Wire       internal/web/server.go: writeSSE, lastEventID
--   Web.View       internal/web/server.go: viewMessages, assistantStatuses, renderAssistantBody and
--                  the HTML of the parts
--   Storage        internal/storage/sqlite.go: the table of messages, Messages, AppendTurn and
--                  ReplaceTailAndAppendTurn; `troubles` are the statements that fail, and a
--                  Reading says how one call of Messages fails
--                  Storage.Accounts: the users and the web sessions; `fault` is a statement
--                  that fails. Storage.Conversations: the table of conversations
--   Auth           internal/auth/auth.go: NormalizeUsername, Register, Authenticate, the sessions of
--                  browsers and their cookies; `now` is what the clock reads
--   Markdown       internal/markdown/streamer.go: BlockStreamer
--   Tests          runs on small inputs
--
-- How state and operations correspond. A method that changes its receiver is a function that takes
-- the state and returns it; an `error` result is an Option or a Result. A section of code under a
-- mutex is one function, so that an interleaving of goroutines is a sequence of calls: Step and
-- Reach in Chat.Turn.Steps, Action and acts in Web.Job.Schedule, Visit in Web.Run. A slice is a
-- list, nil being the empty one; a time is a number of nanoseconds, 0 being Go's zero time; a string
-- is its bytes. A response stream is the list of what its calls of Next return, and io.EOF for good
-- after it. A context is not modelled: a stream that is cancelled is one whose next read is
-- context.Canceled. Next in Chat.Turn does not wait, and neither does abort.
--
-- Parameters: bcrypt, sha256, base64 and strings.ToLower are the record Crypto, net/http, net/url and
-- json.Marshal of the client the record Network, and a random source is the list of what its reads
-- return. A Store, a Client and a Renderer are records or functions of the kind that the Go interfaces
-- name; encoding/json, the escaping of HTML, and the formatting of numbers and times are functions
-- too. The counters of internal/observability are the list `telemetry`.
--
-- Bounds and fuel. A subscriber's channel holds 128 events, as in the code. The loop of
-- completedBlocks has the length of the text as fuel, and every turn of it takes a line. The loop of
-- Next in OpenResponses.Stream has one more than the bytes that are left, and every turn reads a line
-- or ends. The loop of turnJob.run has one more than the number of reads as fuel, and every turn of it
-- takes a read or returns. Event ids do not wrap at 2 ^ 63.
--
-- Not modelled: the opening and the migrations of internal/storage, the templates, the assets and the
-- waiting of handleTurnEvents in internal/web, and two requests whose handlers run at the same time;
-- internal/observability, internal/cli, internal/llm/dummy, the answers that the fake provider makes
-- up, the Markdown renderer with its extension, the front end in internal/web/assets and templates,
-- and the commands in cmd.
pub mod Base
pub mod Text
pub mod Errors
pub mod Llm
pub mod Chat
pub mod Web
pub mod Storage
pub mod Auth
pub mod Markdown
pub mod Tests
pub mod OpenResponses
