-- ===== src/Chat/Turn/Promises.antt =====
-- internal/chat/service.go: what a session relies on in its store, and its agreement with it.
use pyttechat.Base.{ℕ, List, [], ◌∷◌, ◌++◌, none, some, ℤ, take, ◌≡◌}
use pyttechat.Errors.{Error, Result, ok}
use pyttechat.Llm.{user, assistant, Message}
use pyttechat.Chat.Session.{World, Store}
use pyttechat.Chat.Turn.{TurnStream}

-- What a message of the user is in this package: NewTextMessage makes it.
abbrev pub IsUserMessage : Message → Type 0
IsUserMessage m = (m.role ≡ user) × (m.completed_at ≡ 0)

-- What the package relies on in a store that holds conversations, `content`: what it reads it
-- holds; a turn of messages that can be stored, where it is saved, stands behind the messages that it
-- keeps; and a turn that is refused leaves the conversation as it was.
pub record StoreLaws {W : Type 0} (store : Store W) (content : W → ℤ → Result (List Message))
    (Storable : Message → Type 0) : Type 0 where
  pub messages_ok :
      (db : W) (id : ℤ) (ms : List Message) → store.messages db id ≡ ok ms → content db id ≡ ok ms
  pub append_ok :
      (db db' : W) (id : ℤ) (ms : List Message) (u a : Message)
      → IsUserMessage u
      → a.role ≡ assistant
      → Storable u
      → Storable a
      → content db id ≡ ok ms
      → store.append_turn db id u a ≡ (db', none)
      → content db' id ≡ ok (ms ++ (u ∷ a ∷ []))
  pub append_err :
      (db db' : W) (id : ℤ) (u a : Message) (e : Error)
      → store.append_turn db id u a ≡ (db', some e)
      → content db' id ≡ content db id
  pub replace_ok :
      (db db' : W) (id : ℤ) (k : ℕ) (ms : List Message) (u a : Message)
      → IsUserMessage u
      → a.role ≡ assistant
      → Storable u
      → Storable a
      → content db id ≡ ok ms
      → store.replace_tail_and_append_turn db id k u a ≡ (db', none)
      → content db' id ≡ ok (take k ms ++ (u ∷ a ∷ []))
  pub replace_err :
      (db db' : W) (id : ℤ) (k : ℕ) (u a : Message) (e : Error)
      → store.replace_tail_and_append_turn db id k u a ≡ (db', some e)
      → content db' id ≡ content db id

module _ {W : Type 0} (store : Store W) (content : W → ℤ → Result (List Message))
    (Storable : Message → Type 0) where
  -- The session writes to this store, and holds in memory what the store holds.
  pub record Agrees (w : World W) : Type 0 where
    pub uses : w.session.store ≡ some store
    pub same : content w.db w.session.conversation_id ≡ ok w.session.messages

  -- A turn with its prompt, in a session that agrees with its store.
  pub record IsSound (t : TurnStream) (w : World W) : Type 0 where
    pub agrees : Agrees w
    pub prompt : IsUserMessage t.user_message
    pub prompt_storable : Storable t.user_message
