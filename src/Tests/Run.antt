-- ===== src/Tests/Run.antt =====
-- Runs of turnJob.run and of the views on small inputs, and the theorems about them at those.
use pyttechat.Base.{
  ℕ, true, false, List, [], ◌∷◌, ◌++◌, map, none, some, pos, Bytes, get_elem?, ◌≡◌, refl, All,
}
use mathlib.Core.List.{Memᴰ}
use pyttechat.Errors.{stream_failed, ok, err}
use pyttechat.Text.{has_prefix, contains_any, trim_space}
use pyttechat.Text.Laws.{codes}
use pyttechat.Llm.{
  user, assistant, text, Message, Event, EventType, zero_event, text_delta, new_text_message,
  text_part, is_assistant, message_text, texts_of, same_type,
}
use pyttechat.Chat.Session.{
  Client, World, SendOptions, next_messages, append_or_replace_tail, save_turn,
}
use pyttechat.Chat.Turn.{
  TurnStream, next, answer, read_stream, take_event, complete_turn, finalize, completion_time,
  record_outcome,
}
use pyttechat.Web.Job.{new_job, emit_terminal, done_event, done}
use pyttechat.Web.Job.Schedule.{acts-IsValid, acts, IsGone}
use pyttechat.Web.Run.Stop.{stop_without_commit}
use pyttechat.Web.Job.{abort}
use pyttechat.Web.Run.{emit_aborted, visit}
use pyttechat.Errors.{is_canceled, eof}
use pyttechat.Web.View.{
  Formats, ViewMessage, safe_bff_url, assistant_statuses, statuses_from, part_statuses,
}
use pyttechat.Web.View.Pages.{
  view_message, view_messages, views_from, render_assistant_body, render_part,
}
use pyttechat.Web.View.Places.{view_messages_places, Ascends, ShowsSomething}
use pyttechat.Web.Run.{
  Setting, Shown, run_loop, run_stream, run, visits, subscribes, aborts, time_of,
}
use pyttechat.Web.Run.Ends.{IsRunning, IsEnded, Encodes}
use pyttechat.Web.Run.Over.{run-IsEnded}
use pyttechat.Web.Run.Release.{run_free}
use pyttechat.Web.Run.Mirror.{done_shows_page, run_stream-parts, unplaced}

abbrev formats : Formats
formats = record {
  escape_string = λ s. s;
  html_escape_string = λ s. s;
  itoa = λ z. codes "7";
  one_decimal = λ n d. codes "1.0";
  rfc3339 = λ n. codes "now";
}

-- A browser comes before the second read, and another one stops the turn at an error.
abbrev setting : Setting
setting = record {
  marshal = λ p. some [];
  formats = formats;
  render = λ s. ok (codes "<p>" ++ s);
  clock = 5;
  others = λ n. subscribes 0 ∷ [];
  late = aborts ∷ [];
}

abbrev delta : Event
delta = record zero_event { type = text_delta; delta = codes "hi" }

abbrev finished : Event
finished = record zero_event { type = EventType.completed }

abbrev world : World ℕ
world = record {
  session = record { store = none; conversation_id = pos 1; messages = []; in_flight = false };
  db = 0;
  telemetry = [];
}

abbrev opts : SendOptions
opts = record {
  model = [];
  reasoning_effort = [];
  rendering_instructions = [];
  replace_from = none;
  now = 9;
}

abbrev answers : Client
answers request = ok (record { reads = ok delta ∷ ok finished ∷ []; close_error = none })

abbrev breaks : Client
breaks request = ok (record { reads = ok delta ∷ err (stream_failed []) ∷ []; close_error = none })

-- A turn that has one text and whose next event is its last.
abbrev turn : TurnStream
turn = record {
  stream = record { reads = ok finished ∷ []; close_error = none };
  user_message = new_text_message user (codes "hello");
  keep_messages = 0;
  replace_tail = false;
  now = 9;
  assistant_parts = text_part text (codes "hi") ∷ [];
  completed_at = 0;
  completed = false;
  finalized = false;
  recorded = false;
}

abbrev shown : Shown
shown = record { parts = text_part text (codes "hi") ∷ []; full_markdown = codes "hi" }

encodes : Encodes setting.marshal
encodes p = ([], refl)

new_job-IsRunning : IsRunning new_job
unfolding acts
new_job-IsRunning = record { valid = acts-IsValid setting.marshal []; going = refl; updates = tt }

run-IsEnded_example :
    let (w', j') = run setting world answers (codes "hello") opts new_job in
    IsEnded j' × All IsGone j'.viewers × (j'.done_closings ≡ 1)
run-IsEnded_example =
    run-IsEnded setting encodes world answers (codes "hello") opts new_job new_job-IsRunning

run_free_example :
    (run setting world breaks (codes "hello") opts new_job).0.session.in_flight ≡ false
run_free_example = run_free setting world breaks (codes "hello") opts new_job refl

abbrev fresh : TurnStream
fresh = record turn {
  assistant_parts = [];
  stream = record { reads = ok delta ∷ ok finished ∷ []; close_error = none };
}

run_stream-parts_example :
    let (t', s', _, _) = run_stream setting fresh world new_job in s'.parts ≡ t'.assistant_parts
run_stream-parts_example = run_stream-parts setting fresh world new_job refl

-- A picture of the program's own passes, one of another site does not.
urls :
    (safe_bff_url (codes " /assets/a.png ") ≡ codes "/assets/a.png")
    × (safe_bff_url (codes "https://x/a.png") ≡ [])
unfolding safe_bff_url trim_space has_prefix contains_any
urls = (refl, refl)

turn_commits : (next turn world).3 ≡ none
unfolding next read_stream take_event complete_turn finalize completion_time record_outcome
    append_or_replace_tail save_turn
turn_commits = refl

abbrev page_html : Bytes
page_html = codes "<p>hi"

turn_renders : render_assistant_body formats setting.render turn.assistant_parts ≡ ok page_html
unfolding render_assistant_body render_part trim_space
turn_renders = refl

abbrev answer_of_turn : Message
answer_of_turn = answer (record turn { completed = true })

done_shows_page_example :
    let (t', _, w', j') = run_loop setting 2 turn shown world new_job in
    let page = view_message formats setting.render 1 answer_of_turn in
    (w'.session.messages ≡ next_messages [] false 0 turn.user_message answer_of_turn)
    × (j'
        ≡ emit_terminal setting.marshal done
            (done_event [] none page.html (map unplaced page.statuses) (time_of setting t'))
            (visits (setting.others 1) new_job))
done_shows_page_example =
    done_shows_page setting 1 1 turn shown world new_job finished [] page_html refl refl refl refl
      turn_commits turn_renders

abbrev talk : List Message
talk =
    new_text_message user (codes "hello")
    ∷ record { role = assistant; parts = []; completed_at = 0 }
    ∷ record { role = assistant; parts = text_part text (codes "hi") ∷ []; completed_at = 3 }
    ∷ []

-- The empty answer in the middle is left out, and the last one keeps its index.
talk_indices :
    map (λ (v : ViewMessage). v.index) (view_messages formats setting.render talk) ≡ 0 ∷ 2 ∷ []
unfolding view_messages views_from view_message render_assistant_body render_part trim_space
    new_text_message message_text texts_of same_type is_assistant assistant_statuses statuses_from
    part_statuses
talk_indices = refl

view_messages_places_example :
    let vs = view_messages formats setting.render talk in
    All
      (λ v.
        (m : Message) × (get_elem? talk v.index ≡ some m)
        × (v ≡ view_message formats setting.render v.index m)
        × ShowsSomething v)
      vs
    × Ascends 0 vs
    × ((i : ℕ) (m : Message)
        → get_elem? talk i ≡ some m
        → ShowsSomething (view_message formats setting.render i m)
        → Memᴰ (view_message formats setting.render i m) vs)
view_messages_places_example = view_messages_places formats setting.render talk

-- Somebody stops the turn before every read.
abbrev stopping : Setting
stopping = record setting { others = λ n. aborts ∷ [] }

abbrev cut_off : TurnStream
cut_off = record turn { stream = record { reads = err eof ∷ []; close_error = none } }

stop_asked : (visits (stopping.others 1) new_job).abort_requested ≡ true
unfolding visits visit abort
stop_asked = refl

eof_not_canceled : is_canceled eof ≡ false
unfolding is_canceled
eof_not_canceled = refl

stop_without_commit_example :
    let (_, _, w', j') = run_loop stopping 2 cut_off shown world new_job in
    (w'.session.messages ≡ []) × (j' ≡ emit_aborted stopping (visits (stopping.others 1) new_job))
stop_without_commit_example =
    stop_without_commit stopping 1 cut_off shown world new_job eof [] refl refl stop_asked
      eof_not_canceled
