-- ===== src/Tests/Storage.antt =====
-- Runs of internal/storage on small tables, and the theorems about it at those.
use pyttechat.Storage.Conversations.{
  Conversation, Conversations, no_faults, default_conversation_for_user,
  default_conversation_for_user_stable,
}
use pyttechat.Base.{
  none, true, false, Bool, ◌&&◌, List, [], ◌∷◌, ℤ, pos, negsuc, Bytes, ◌==◌, if◌then◌else◌, ◌≡◌,
  refl, arith, some,
}
use pyttechat.Errors.{other, ok, err}
use pyttechat.Text.{is_empty, trim_space}
use pyttechat.Text.Laws.{codes}
use pyttechat.Llm.{
  user, assistant, text, same_type, Part, text_part, Message, new_text_message, is_user,
  is_assistant,
}
use pyttechat.Llm.Laws.{same_type→eq}
use pyttechat.Storage.Accounts.{Accounts, Session, create_session, find_session}
use pyttechat.Storage.Messages.{
  Tables, Codec, append_turn, replace_tail_and_append_turn, rows_of, Reading, transaction,
  append_in, insert_turn_at_sequence, is_taken, max_sequence, by_sequence,
}
use pyttechat.Storage.Messages.Valid.{IsValid, append_turn-IsValid, replace_turn-IsValid}
use pyttechat.Storage.Messages.Promises.{
  sqlite_store, sqlite_store-StoreLaws, IsStorable, held, content,
}

abbrev no_summary : List Bytes → Bool
no_summary [] = true
no_summary (s ∷ ss) = false

abbrev is_zero : ℤ → Bool
is_zero (pos n) = n == 0
is_zero (negsuc n) = false

-- The part is a text and nothing else.
abbrev is_plain : Part → Bool
is_plain p =
    same_type p.type text
    && (is_empty p.id
        && (no_summary p.summary
            && (is_empty p.encrypted_content
                && (is_empty p.url
                    && (is_empty p.filename
                        && (is_empty p.mime_type
                            && (is_empty p.alt
                                && (is_zero p.width && (is_zero p.height && is_zero p.size)))))))))

is_plain-eq : (p : Part) → is_plain p ≡ true → p ≡ text_part text p.text
is_plain-eq p h = ground (arith, same_type→eq p.type text)

-- An encoder of single texts, which refuses all else.
abbrev codec : Codec
codec = record {
  marshal = λ ps. elim ps [
    | [] ↦ err (other [])
    | p ∷ rest ↦ elim rest [
      | [] ↦ if is_plain p then ok p.text else err (other [])
      | q ∷ qs ↦ err (other [])
    ]
  ];
  unmarshal = λ s. ok (text_part text s ∷ []);
  format_time = λ t. 65 ∷ 65 ∷ 65 ∷ t ∷ 65 ∷ 65 ∷ 65 ∷ [];
  parse_time = λ s. elim s [ a ∷ b ∷ c ∷ t ∷ rest ↦ ok t | _ ↦ err (other []) ];
}

codec_back : (ps : List Part) (j : Bytes) → codec.marshal ps ≡ ok j → codec.unmarshal j ≡ ok ps
codec_back [] j h = ground (arith, h)
codec_back (p ∷ q ∷ ps) j h = ground (arith, h)
codec_back (p ∷ []) j h = ground (arith, h, is_plain-eq p)

-- Each message is storable with this encoder.
codec-IsStorable : (m : Message) → IsStorable codec m
unfolding trim_space
codec-IsStorable m = record {
  parts_back = codec_back m.parts;
  time_back = λ h. refl;
  time_shown = λ h. refl;
}

-- Readings of which each fails at the third row.
abbrev broken : Tables → ℤ → Reading
broken db id = record {
  query_error = none;
  next_error = λ i. none;
  scan_error = λ i. if i == 2 then some (other []) else none;
}

abbrev empty : Tables
empty = record { conversations = pos 1 ∷ []; rows = []; troubles = [] }

empty-IsValid : IsValid empty
unfolding rows_of
empty-IsValid = record { numbered = λ id. tt }

abbrev ask : Message
ask = new_text_message user (codes "hi")

abbrev reply : Message
reply = record { role = assistant; parts = text_part text (codes "ho") ∷ []; completed_at = 4 }

abbrev one_turn : Tables
one_turn = (append_turn codec empty (pos 1) ask reply).0

replace_turn-IsValid_example :
    IsValid (replace_tail_and_append_turn codec one_turn (pos 1) (pos 0) ask reply).0
replace_turn-IsValid_example =
    replace_turn-IsValid codec one_turn (pos 1) (pos 0) ask reply
      (append_turn-IsValid codec empty (pos 1) ask reply empty-IsValid)

-- A store on which the readings of the third row fail takes its first turn.
abbrev first_saved : (db : Tables) × IsValid db
first_saved = ((sqlite_store codec broken).append_turn (empty, empty-IsValid) (pos 1) ask reply).0

first_saves :
    (sqlite_store codec broken).append_turn (empty, empty-IsValid) (pos 1) ask reply
    ≡ (first_saved, none)
unfolding append_turn is_user is_assistant new_text_message transaction append_in
    insert_turn_at_sequence same_type is_taken max_sequence rows_of
first_saves = refl

sqlite_store-StoreLaws_example : held codec first_saved (pos 1) ≡ ok (ask ∷ reply ∷ [])
unfolding content rows_of new_text_message by_sequence
sqlite_store-StoreLaws_example =
    (sqlite_store-StoreLaws codec broken).append_ok (empty, empty-IsValid) first_saved (pos 1) []
      ask reply (refl, refl) refl (codec-IsStorable ask) (codec-IsStorable reply) refl first_saves

abbrev nobody : Accounts
nobody = record { users = []; sessions = []; last_user_id = 0 }

abbrev visitor : Session
visitor = record {
  id = codes "s";
  user_id = pos 0;
  secret_hash = codes "h";
  csrf_token = codes "c";
  expires_at = 9;
  created_at = 0;
}

abbrev with_visitor : Accounts
with_visitor = (create_session codec 3 none visitor nobody).0

visitor_created :
    create_session codec 3 none visitor nobody
    ≡ (with_visitor, ok (record visitor { created_at = 3 }))
unfolding create_session find_session trim_space
visitor_created = refl

-- A user without a conversation, who gets one.
abbrev with_nothing : Conversations
with_nothing = record {
  users =
      record { id = 1; username = codes "ann"; password_hash = codes "#"; created_at = [] } ∷ [];
  rows = [];
  last_id = 4;
}

abbrev first_conversation : Conversation
first_conversation = record {
  id = 5;
  user_id = 1;
  title = codes "Default";
  is_default = true;
  created_at = 3;
}

abbrev with_one : Conversations
with_one = (default_conversation_for_user codec 3 no_faults (pos 1) with_nothing).0

conversation_made :
    default_conversation_for_user codec 3 no_faults (pos 1) with_nothing
    ≡ (with_one, ok first_conversation)
unfolding default_conversation_for_user
conversation_made = refl

default_conversation_for_user_stable_example :
    default_conversation_for_user codec 3 no_faults (pos 1) with_one
    ≡ (with_one, ok first_conversation)
default_conversation_for_user_stable_example =
    default_conversation_for_user_stable codec 3 no_faults (pos 1) with_nothing with_one
      first_conversation refl conversation_made
