-- ===== src/Tests/Chat.antt =====
-- Runs of internal/chat on small inputs, and the theorems about it at those.
use pyttechat.Base.{
  ℕ, true, false, List, [], ◌∷◌, ◌++◌, none, some, pos, take, ◌≡◌, refl, ◌↔◌, arith,
}
use pyttechat.Errors.{Result, ok, err, turn_in_progress}
use pyttechat.Text.{trim_space}
use pyttechat.Text.Laws.{codes}
use Prim.Native.String.{String}
use pyttechat.Llm.{
  user, assistant, PartType, reasoning, same_type, Part, zero_part, text_part, clone_part, Message,
  clone_message, clone_messages, new_text_message, Event, zero_event, EventType, text_delta,
  reasoning_delta,
}
use pyttechat.Chat.Parts.{append_delta}
use pyttechat.Chat.Session.{
  Client, Store, SendOptions, World, replace_from_index, append_or_replace_tail, save_turn,
  next_messages, commit_stopped, started,
}
use pyttechat.Chat.Session.Indices.{replace_from_index_iff}
use pyttechat.Chat.Turn.{
  TurnStream, answer, begin_turn, open_turn, send, read_stream, completion_time, finalize,
  record_outcome, complete_turn, take_event, next, close,
}
use pyttechat.Chat.Turn.Promises.{StoreLaws, Agrees}
use pyttechat.Chat.Turn.Agreement.{next-IsSound, commit_stopped-Agrees}
use pyttechat.Chat.Turn.Commit.{send-ok, send-err, next-completed}
use pyttechat.Chat.Turn.Steps.{Step, Reach, IsExclusive}
use pyttechat.Chat.Turn.Exclusive.{Reach-IsExclusive, commit_stopped_admits}
use pyttechat.Chat.Turn.Outcomes.{Call, ends, after_calls, counted_once}

-- A store of one conversation that takes every turn.
abbrev list_store : Store (List Message)
list_store = record {
  messages = λ db id. ok db;
  append_turn = λ db id u a. (db ++ (u ∷ a ∷ []), none);
  replace_tail_and_append_turn = λ db id k u a. (take k db ++ (u ∷ a ∷ []), none);
}

list_store-StoreLaws : StoreLaws list_store (λ db id. ok db) (λ m. Unit {0})
list_store-StoreLaws = record {
  messages_ok = λ db id ms e. e;
  append_ok = λ db db' id ms u a hu ha su sa h e. ground arith;
  append_err = λ db db' id u a x e. cc;
  replace_ok = λ db db' id k ms u a hu ha su sa h e. ground arith;
  replace_err = λ db db' id k u a x e. cc;
}

abbrev opts : SendOptions
opts = record {
  model = codes "m";
  reasoning_effort = codes " low ";
  rendering_instructions = [];
  replace_from = none;
  now = 7;
}

abbrev said : EventType → String → Event
said t s = record zero_event { type = t; delta = codes s }

abbrev reads : List (Result Event)
reads =
    ok (said reasoning_delta "hm")
    ∷ ok (said text_delta "Hel")
    ∷ ok (said text_delta "lo")
    ∷ ok (said EventType.completed "")
    ∷ []

abbrev client : Client
client r = ok (record { reads = reads; close_error = none })

abbrev fresh : World (List Message)
fresh = record {
  session = record {
    store = some list_store;
    conversation_id = pos 1;
    messages = [];
    in_flight = false;
  };
  db = [];
  telemetry = [];
}

abbrev hi : Message
hi = record { role = user; parts = text_part PartType.text (codes "hi") ∷ []; completed_at = 0 }

-- The turn that Send opens on the prompt " hi ".
abbrev turn : TurnStream
turn = record {
  stream = record { reads = reads; close_error = none };
  user_message = hi;
  keep_messages = 0;
  replace_tail = false;
  now = 7;
  assistant_parts = [];
  completed_at = 0;
  completed = false;
  finalized = false;
  recorded = false;
}

abbrev claimed : World (List Message)
claimed = record fresh {
  session = record fresh.session { in_flight = true };
  telemetry = started ∷ [];
}

send-hi : send fresh client (codes " hi ") opts ≡ (claimed, ok turn)
unfolding send begin_turn open_turn trim_space replace_from_index new_text_message
send-hi = refl

send_twice : send claimed client (codes "again") opts ≡ (claimed, err turn_in_progress)
unfolding send begin_turn trim_space
send_twice = refl

abbrev parts : List Part
parts = text_part reasoning (codes "hm") ∷ text_part PartType.text (codes "Hello") ∷ []

abbrev hello : Message
hello = record { role = assistant; parts = parts; completed_at = 7 }

-- The four reads of the turn, up to the completed event.
four_reads :
    (after_calls
      (Call.nexts ∷ Call.nexts ∷ Call.nexts ∷ Call.nexts ∷ [])
      turn
      claimed).1.session.messages
    ≡ hi ∷ hello ∷ []
unfolding after_calls next read_stream take_event complete_turn finalize append_delta answer
    append_or_replace_tail save_turn next_messages clone_messages clone_message clone_part same_type
    completion_time record_outcome
four_reads = refl

-- The turn at its last read.
abbrev ending : TurnStream
ending = record turn {
  stream = record { reads = ok (said EventType.completed "") ∷ []; close_error = none };
  assistant_parts = parts;
}

-- Between the two halves of Send.
abbrev claiming : World (List Message)
claiming = record fresh { session = record fresh.session { in_flight = true } }

begin_hi : begin_turn fresh opts ≡ (claiming, ok 0)
unfolding begin_turn replace_from_index
begin_hi = refl

-- A prompt that is stopped before its turn, and the claim of the next one.
abbrev rested : World (List Message)
rested = (commit_stopped fresh (codes "stop") opts).0

rested_lem : commit_stopped fresh (codes "stop") opts ≡ (rested, none)
unfolding commit_stopped append_or_replace_tail save_turn replace_from_index trim_space
rested_lem = refl

abbrev claiming_rested : World (List Message)
claiming_rested = (begin_turn rested opts).0

begin_rested : begin_turn rested opts ≡ (claiming_rested, ok 2)
unfolding begin_turn commit_stopped append_or_replace_tail save_turn replace_from_index trim_space
    next_messages
begin_rested = refl

Reach-IsExclusive_example :
    IsExclusive (record { world = claiming_rested; opening = 2 ∷ []; streams = [] })
Reach-IsExclusive_example =
    Reach-IsExclusive {s = record { world = fresh; opening = []; streams = [] }} refl
      (Reach.more
        (Reach.more Reach.here (Step.stops (codes "stop") opts rested none rested_lem refl))
        (Step.begins opts 2 claiming_rested begin_rested refl))
      ((tt, refl), tt)

-- A stopped prompt behind the claim of another turn.
abbrev stopped_world : World (List Message)
stopped_world = (commit_stopped claiming (codes "stop") opts).0

stopped_claim : commit_stopped claiming (codes "stop") opts ≡ (stopped_world, none)
unfolding commit_stopped append_or_replace_tail save_turn replace_from_index trim_space
stopped_claim = refl

commit_stopped_admits_example :
    ¬ IsExclusive (record { world = stopped_world; opening = 0 ∷ []; streams = [] })
commit_stopped_admits_example =
    (commit_stopped_admits (record { world = claiming; opening = 0 ∷ []; streams = [] })
      (codes "stop") opts stopped_world 0 refl stopped_claim).0

next-IsSound_example : Agrees list_store (λ db id. ok db) (λ m. Unit {0}) (next ending claimed).1
next-IsSound_example =
    (next-IsSound list_store (λ db id. ok db) (λ m. Unit {0}) list_store-StoreLaws ending claimed tt
      (record {
        agrees = record { uses = refl; same = refl };
        prompt = (refl, refl);
        prompt_storable = tt;
      })).agrees

commit_stopped-Agrees_example :
    Agrees list_store (λ db id. ok db) (λ m. Unit {0}) (commit_stopped fresh (codes "hi") opts).0
commit_stopped-Agrees_example =
    commit_stopped-Agrees list_store (λ db id. ok db) (λ m. Unit {0}) list_store-StoreLaws fresh
      (codes "hi") opts tt tt (record { uses = refl; same = refl })

next-completed_example : (next ending claimed).1.session.in_flight ≡ false
next-completed_example =
    (next-completed ending claimed (said EventType.completed "") [] refl refl refl).1

send-ok_example : fresh.session.in_flight ≡ false
send-ok_example = (send-ok fresh claimed client (codes " hi ") opts turn send-hi).1

send-err_example : claimed.session ≡ claimed.session
send-err_example =
    (send-err claimed claimed client (codes "again") opts turn_in_progress send_twice).0

counted_once_example : ends (close (next ending claimed).0 (next ending claimed).1).1.telemetry ≡ 1
unfolding after_calls ends
counted_once_example = counted_once (Call.nexts ∷ []) ending claimed refl refl

abbrev thought : Part
thought = record zero_part { type = reasoning; text = codes "hmm"; id = codes "r1" }

replace_from_index_iff_example :
    (replace_from_index (hi ∷ hello ∷ []) none ≡ ok 2) ↔ ◌≡◌ {A = ℕ} 2 2
replace_from_index_iff_example = replace_from_index_iff (hi ∷ hello ∷ []) none 2
