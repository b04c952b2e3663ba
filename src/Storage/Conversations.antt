-- ===== src/Storage/Conversations.antt =====
-- internal/storage/sqlite.go: the table of conversations and DefaultConversationForUser.
use pyttechat.Base.{
  ℕ, zero, suc, ◌+◌, Bool, true, false, ◌&&◌, ◌||◌, not, List, [], ◌∷◌, ◌++◌, Option, none, some, ℤ,
  pos, negsuc, Bytes, ◌==◌, if◌then◌else◌, ◌≡◌, refl, arith, inl, inr, Bool-cases, Option-cases,
}
use pyttechat.Errors.{
  Error, invalid_argument, conflict, not_found, is_not_found, Result, ok, err, ◌>>=◌, Result-cases,
}
use pyttechat.Text.Laws.{codes}
use pyttechat.Storage.Messages.{Codec}
use pyttechat.Storage.Accounts.{UserRow, is_user_id}

-- type Conversation
pub record Conversation : Type 0 where
  pub id : ℕ
  pub user_id : ℕ
  pub title : Bytes
  pub is_default : Bool
  pub created_at : ℕ

-- CREATE TABLE conversations
pub record ConversationRow : Type 0 where
  pub id : ℕ
  pub user_id : ℕ
  pub title : Bytes
  pub is_default : Bool
  pub created_at : Bytes

pub record Conversations : Type 0 where
  pub users : List UserRow
  pub rows : List ConversationRow
  pub last_id : ℕ

-- SELECT ... FROM conversations WHERE user_id = ? AND is_default = 1
unfoldable pub find_default : ℕ → List ConversationRow → Option ConversationRow
find_default user [] = none
find_default user (r ∷ rest) =
    let later = find_default user rest in
    if r.user_id == user && r.is_default then some r else later

-- The unique index conversations_one_default_per_user_idx holds a row already.
abbrev has_default : Option ConversationRow → Bool
has_default none = false
has_default (some r) = true

-- How the statements of a call fail by themselves.
pub record Faults : Type 0 where
  pub begin : Option Error
  pub insert : Option Error
  pub commit : Option Error

abbrev pub no_faults : Faults
no_faults = record { begin = none; insert = none; commit = none }

-- What Commit makes of what a transaction returned; a transaction that is not committed is rolled back.
abbrev committed :
    {A : Type 0} → Option Error → Conversations → Conversations → A → Conversations × Result A
committed (some e) before after a = (before, err e)
committed none before after a = (after, ok a)

module _ (c : Codec) (now : ℕ) where
  -- The scan of conversationByDefault.
  abbrev read_conversation : ConversationRow → Result Conversation
  read_conversation r = c.parse_time r.created_at >>= λ t. ok (record {
    id = r.id;
    user_id = r.user_id;
    title = r.title;
    is_default = r.is_default;
    created_at = t;
  })

  -- conversationByDefault
  unfoldable pub conversation_by_default : ℕ → Conversations → Result Conversation
  unfolding find_default
  conversation_by_default user db = elim (find_default user db.rows) [
    | none ↦ err not_found
    | some r ↦ read_conversation r
  ]

  abbrev default_row : ℕ → ℕ → ConversationRow
  default_row id user = record {
    id = id;
    user_id = user;
    title = codes "Default";
    is_default = true;
    created_at = c.format_time now;
  }

  abbrev default_of : ℕ → ℕ → Conversation
  default_of id user = record {
    id = id;
    user_id = user;
    title = codes "Default";
    is_default = true;
    created_at = now;
  }

  -- The second half of DefaultConversationForUser, where the user has no default conversation.
  unfoldable pub insert_default : Faults → ℕ → Conversations → Conversations × Result Conversation
  unfolding find_default
  insert_default faults user db = elim faults.insert [
    | some e ↦ (db, err e)
    | none ↦
        let id = db.last_id + 1 in
        if not (is_user_id user db.users) || has_default (find_default user db.rows)
        then (db, err conflict)
        else committed faults.commit db
            (record db { rows = db.rows ++ default_row id user ∷ []; last_id = id })
            (default_of id user)
  ]

  -- DefaultConversationForUser
  unfoldable pub default_conversation_for_user :
      Faults → ℤ → Conversations → Conversations × Result Conversation
  unfolding conversation_by_default insert_default is_not_found
  default_conversation_for_user faults (negsuc n) db = (db, err invalid_argument)
  default_conversation_for_user faults (pos zero) db = (db, err invalid_argument)
  default_conversation_for_user faults (pos (suc n)) db = elim faults.begin [
    | some e ↦ (db, err e)
    | none ↦ elim (conversation_by_default (suc n) db) [
      | ok conversation ↦ committed faults.commit db db conversation
      | err e ↦ if is_not_found e then insert_default faults (suc n) db else (db, err e)
    ]
  ]

  find_default-append :
      (user : ℕ) (rows : List ConversationRow) (r : ConversationRow)
      → find_default user rows ≡ none
      → r.user_id ≡ user
      → r.is_default ≡ true
      → find_default user (rows ++ r ∷ []) ≡ some r
  unfolding find_default
  find_default-append user [] r h owner chosen = ground (arith, owner, chosen)
  find_default-append user (x ∷ rows) r h owner chosen =
      ground (arith, h, find_default-append user rows r, owner, chosen)

  -- A default conversation that was found or made is found by every later call, which changes nothing.
  again_found :
      (user : ℕ) (db : Conversations) (v : Conversation)
      → conversation_by_default (suc user) db ≡ ok v
      → default_conversation_for_user no_faults (pos (suc user)) db ≡ (db, ok v)
  unfolding default_conversation_for_user
  again_found user db v h = rw (default_conversation_for_user, h)

  insert_default-found :
      (faults : Faults) (user : ℕ) (db db' : Conversations) (v : Conversation)
      → c.parse_time (c.format_time now) ≡ ok now
      → insert_default faults (suc user) db ≡ (db', ok v)
      → conversation_by_default (suc user) db' ≡ ok v
  unfolding insert_default conversation_by_default
  insert_default-found faults user db db' v reads h = elim (Option-cases faults.insert) [
    | inr (e, failed) ↦ absurd (ground (arith, h, failed))
    | inl sound ↦
        let refused =
          not (is_user_id (suc user) db.users) || has_default (find_default (suc user) db.rows) in
        elim (Bool-cases refused) [
          | inl clash ↦ absurd (ground (arith, h, sound, clash))
          | inr free ↦ elim (Option-cases faults.commit) [
            | inr (e, failed) ↦ absurd (ground (arith, h, sound, free, failed))
            | inl kept ↦ elim (Option-cases (find_default (suc user) db.rows)) [
              | inr (r, there) ↦ absurd (ground (arith, free, there))
              | inl missing ↦
                  let row = default_row (db.last_id + 1) (suc user) in
                  let made : record db { rows = db.rows ++ row ∷ []; last_id = db.last_id + 1 }
                      ≡ db' =
                    ground (arith, h, sound, free, kept) in
                  let same : default_of (db.last_id + 1) (suc user) ≡ v =
                    ground (arith, h, sound, free, kept) in
                  let found = find_default-append (suc user) db.rows row missing refl refl in
                  rw (← made, ← same) (rw (conversation_by_default, found, reads))
            ]
          ]
        ]
  ]

  -- The default conversation of a user stays the same: once a call returned one, whichever statements
  -- failed before, a call on the store that it left, in which none fails, returns the same one and changes nothing. It holds
  -- where a time that was written is read back.
  pub default_conversation_for_user_stable :
      (faults : Faults) (user : ℤ) (db db' : Conversations) (v : Conversation)
      → c.parse_time (c.format_time now) ≡ ok now
      → default_conversation_for_user faults user db ≡ (db', ok v)
      → default_conversation_for_user no_faults user db' ≡ (db', ok v)
  unfolding default_conversation_for_user
  default_conversation_for_user_stable faults (negsuc n) db db' v reads h =
      absurd (ground (arith, h))
  default_conversation_for_user_stable faults (pos zero) db db' v reads h =
      absurd (ground (arith, h))
  default_conversation_for_user_stable faults (pos (suc n)) db db' v reads h =
      again_found n db' v (elim (Option-cases faults.begin) [
        | inr (e, failed) ↦ absurd (ground (arith, h, failed))
        | inl begun ↦ elim (Result-cases (conversation_by_default (suc n) db)) [
          | inl (w, found) ↦ elim (Option-cases faults.commit) [
            | inr (e, failed) ↦ absurd (ground (arith, h, begun, found, failed))
            | inl kept ↦
                let same_db : db ≡ db' = ground (arith, h, begun, found, kept) in
                let same : w ≡ v = ground (arith, h, begun, found, kept) in
                rw (← same_db, ← same) found
          ]
          | inr (e, failed) ↦ elim (Bool-cases (is_not_found e)) [
            | inr broken ↦ absurd (ground (arith, h, begun, failed, broken))
            | inl missing ↦
                insert_default-found faults n db db' v reads
                  (ground (arith, h, begun, failed, missing))
          ]
        ]
      ])
