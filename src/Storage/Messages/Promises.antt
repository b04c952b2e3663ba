-- ===== src/Storage/Messages/Promises.antt =====
-- The store of internal/storage/sqlite.go keeps the promises on which internal/chat relies.
use pyttechat.Base.{
  ℕ, zero, suc, ◌+◌, false, List, [], ◌∷◌, ◌++◌, Option, none, some, ℤ, is_not_positive, Bytes,
  ◌==◌, if◌then◌else◌, take, ◌≡◌, refl, sym, ap, inl, inr, arith, Bool-cases, pos,
}
use pyttechat.Errors.{Error, invalid_argument, ok, err, Result-cases, Result, ◌>>=◌}
use pyttechat.Text.{trim_space, is_empty}
use pyttechat.Llm.{Message}
use pyttechat.Llm.Laws.{clone_message-eq}
use pyttechat.Chat.Session.{Store}
use pyttechat.Chat.Turn.Promises.{IsUserMessage, StoreLaws}
use pyttechat.Storage.Messages.{
  Row, Tables, Codec, rows_of, delete_behind, row_of, completed_at_value, is_refused, append_turn,
  replace_tail_and_append_turn, read_time, read_row, read_rows, messages, Reading, by_sequence,
}
use pyttechat.Storage.Messages.Rows.{
  same_id_refl, by_sequence-Numbered, delete_behind-take, rows_of-two,
}
use pyttechat.Storage.Messages.Turns.{TurnRows, append_turn-rows, replace_turn-rows}
use pyttechat.Storage.Messages.Valid.{IsValid, append_turn-IsValid, replace_turn-IsValid}

-- What is written of the message can be read again: so encoding/json does with texts of valid UTF-8,
-- and the format of times with the years up to 9999.
pub record IsStorable (c : Codec) (m : Message) : Type 0 where
  pub parts_back : (j : Bytes) → c.marshal m.parts ≡ ok j → c.unmarshal j ≡ ok m.parts
  pub time_back :
      (m.completed_at == 0) ≡ false
      → c.parse_time (c.format_time m.completed_at) ≡ ok m.completed_at
  pub time_shown :
      (m.completed_at == 0) ≡ false → is_empty (trim_space (c.format_time m.completed_at)) ≡ false

module _ (c : Codec) where
  -- What a reading of the rows gives if it does not fail by itself.
  unfoldable pub read_all : List Row → Result (List Message)
  read_all [] = ok []
  read_all (r ∷ rs) = read_row c r >>= λ m. read_all rs >>= λ ms. ok (m ∷ ms)

  -- The conversation that the tables hold.
  unfoldable pub content : Tables → ℤ → Result (List Message)
  unfolding read_all
  content db id =
      if is_not_positive id
      then err invalid_argument
      else read_all (by_sequence (rows_of id db.rows))

  read_rows-read_all :
      (f : Reading) (i : ℕ) (rs : List Row) (ms : List Message)
      → read_rows c f i rs ≡ ok ms
      → read_all rs ≡ ok ms
  unfolding read_rows read_all
  read_rows-read_all f i [] ms h = ground (arith, h)
  read_rows-read_all f i (r ∷ rs) ms h = elim (Result-cases (read_row c r)) [
    | inr (e, er) ↦ absurd (ground (arith, h))
    | inl (m, er) ↦ elim (Result-cases (read_rows c f (suc i) rs)) [
      | inr (e, ers) ↦ absurd (ground (arith, h))
      | inl (rest, ers) ↦ ground (arith, h, read_rows-read_all f (suc i) rs rest ers)
    ]
  ]

  -- What Messages returns is what the tables hold.
  messages-content :
      (f : Reading) (db : Tables) (id : ℤ) (ms : List Message)
      → messages c f db id ≡ ok ms
      → content db id ≡ ok ms
  unfolding messages content
  messages-content f db id ms h =
      ground (arith, h, read_rows-read_all f 0 (by_sequence (rows_of id db.rows)) ms)

  read_all-append :
      (xs ys : List Row) (ms ns : List Message)
      → read_all xs ≡ ok ms
      → read_all ys ≡ ok ns
      → read_all (xs ++ ys) ≡ ok (ms ++ ns)
  unfolding read_all
  read_all-append [] ys ms ns hx hy = ground (arith, hx, hy)
  read_all-append (x ∷ xs) ys ms ns hx hy = elim (Result-cases (read_row c x)) [
    | inr (e, ex) ↦ absurd (ground arith)
    | inl (m, ex) ↦ elim (Result-cases (read_all xs)) [
      | inr (e, er) ↦ absurd (ground arith)
      | inl (rest, er) ↦ ground (arith, read_all-append xs ys rest ns er hy)
    ]
  ]

  read_all-take :
      (n : ℕ) (xs : List Row) (ms : List Message)
      → read_all xs ≡ ok ms
      → read_all (take n xs) ≡ ok (take n ms)
  unfolding read_all
  read_all-take zero xs ms h = refl
  read_all-take (suc n) [] ms h = ground (arith, h)
  read_all-take (suc n) (x ∷ xs) ms h = elim (Result-cases (read_row c x)) [
    | inr (e, ex) ↦ absurd (ground arith)
    | inl (m, ex) ↦ elim (Result-cases (read_all xs)) [
      | inr (e, er) ↦ absurd (ground arith)
      | inl (rest, er) ↦ ground (arith, read_all-take n xs rest er)
    ]
  ]

  -- In valid tables the rows need no sorting.
  content-IsValid :
      (db : Tables) (id : ℤ)
      → IsValid db
      → content db id
        ≡ (if is_not_positive id then err invalid_argument else read_all (rows_of id db.rows))
  unfolding content
  content-IsValid db id h = rw (by_sequence-Numbered 1 (rows_of id db.rows) (h.numbered id))

  is_refused-positive :
      (id : ℤ) (u a : Message) → is_refused c id u a ≡ false → is_not_positive id ≡ false
  is_refused-positive id u a h = ground (arith, h)

  read_time-back :
      (m : Message)
      → IsStorable c m
      → read_time c (completed_at_value c m.completed_at) ≡ ok m.completed_at
  read_time-back m r = elim (Bool-cases (m.completed_at == 0)) [
    | inl e ↦ rw (e, completed_at_value, read_time) (ground (arith, e))
    | inr e ↦ rw (e, completed_at_value, read_time, r.time_shown e, r.time_back e)
  ]

  read_row-back :
      (id : ℤ) (n : ℕ) (m : Message) (j : Bytes) (completed : Option Bytes)
      → IsStorable c m
      → c.marshal m.parts ≡ ok j
      → read_time c completed ≡ ok m.completed_at
      → read_row c (row_of c id n m j completed) ≡ ok m
  unfolding read_row
  read_row-back id n m j completed r e time = rw (r.parts_back j e, time, clone_message-eq m)

  read_all-turn :
      (id : ℤ) (n : ℕ) (u a : Message) (before after : List Row) (ms : List Message)
      → IsStorable c u
      → IsStorable c a
      → IsUserMessage u
      → TurnRows c id n u a before after
      → read_all (rows_of id before) ≡ ok ms
      → read_all (rows_of id after) ≡ ok (ms ++ (u ∷ a ∷ []))
  unfolding read_all
  read_all-turn id n u a before after ms su sa user_message t h =
      let ru = row_of c id n u t.user_parts none in
      let ra = row_of c id (n + 1) a t.assistant_parts (completed_at_value c a.completed_at) in
      rw (t.rows, rows_of-two id id before ru ra refl refl, same_id_refl id)
        (read_all-append (rows_of id before) _ ms (u ∷ a ∷ []) h (
          rw (
            read_row-back id n u t.user_parts none su t.user_ok (ap ok (sym user_message.1)),
            read_row-back id (n + 1) a t.assistant_parts _ sa t.assistant_ok (read_time-back a sa),
          )))

  append_turn-reads :
      (db : Tables) (id : ℤ) (ms : List Message) (u a : Message)
      → IsStorable c u
      → IsStorable c a
      → IsValid db
      → IsUserMessage u
      → content db id ≡ ok ms
      → (append_turn c db id u a).1 ≡ none
      → content (append_turn c db id u a).0 id ≡ ok (ms ++ (u ∷ a ∷ []))
  append_turn-reads db id ms u a su sa v user_message h fine = elim (append_turn-rows c db id u a) [
    | inr (e, failed, kept) ↦ absurd (ground arith)
    | inl (_, fit, t) ↦
        let positive = is_refused-positive id u a fit in
        rw (content-IsValid _ id (append_turn-IsValid c db id u a v), positive)
          (read_all-turn id _ u a db.rows _ ms su sa user_message t
            (rw (content-IsValid db id v, positive) at h))
  ]

  replace_turn-reads :
      (db : Tables) (id : ℤ) (keep : ℕ) (ms : List Message) (u a : Message)
      → IsStorable c u
      → IsStorable c a
      → IsValid db
      → IsUserMessage u
      → content db id ≡ ok ms
      → (replace_tail_and_append_turn c db id (pos keep) u a).1 ≡ none
      → content (replace_tail_and_append_turn c db id (pos keep) u a).0 id
        ≡ ok (take keep ms ++ (u ∷ a ∷ []))
  replace_turn-reads db id keep ms u a su sa v user_message h fine =
      elim (replace_turn-rows c db id keep u a) [
        | inr (e, failed, kept) ↦ absurd (ground arith)
        | inl (_, fit, fits, t) ↦
            let positive = is_refused-positive id u a fit in
            rw (content-IsValid _ id (replace_turn-IsValid c db id (pos keep) u a v), positive)
              (read_all-turn id _ u a (delete_behind id keep db.rows) _ (take keep ms) su sa
                user_message t
                (rw (delete_behind-take id keep db.rows (v.numbered id)) (
                  read_all-take keep (rows_of id db.rows) ms
                    (rw (content-IsValid db id v, positive) at h))))
      ]

  content-rows : (db db' : Tables) (id : ℤ) → db'.rows ≡ db.rows → content db' id ≡ content db id
  unfolding content
  content-rows db db' id h = rw h

  append_turn-keeps :
      (db : Tables) (id : ℤ) (u a : Message) (e : Error)
      → (append_turn c db id u a).1 ≡ some e
      → content (append_turn c db id u a).0 id ≡ content db id
  append_turn-keeps db id u a e h = elim (append_turn-rows c db id u a) [
    | inr (f, failed, kept) ↦ content-rows db _ id kept
    | inl (fine, _, _) ↦ absurd (ground arith)
  ]

  replace_turn-keeps :
      (db : Tables) (id : ℤ) (keep : ℕ) (u a : Message) (e : Error)
      → (replace_tail_and_append_turn c db id (pos keep) u a).1 ≡ some e
      → content (replace_tail_and_append_turn c db id (pos keep) u a).0 id ≡ content db id
  replace_turn-keeps db id keep u a e h = elim (replace_turn-rows c db id keep u a) [
    | inr (f, failed, kept) ↦ content-rows db _ id kept
    | inl (fine, _, _, _) ↦ absurd (ground arith)
  ]

  -- internal/chat gets a store over tables that are valid, as new tables are. `reads` says how a
  -- reading of a conversation fails, if it does.
  abbrev pub sqlite_store : (Tables → ℤ → Reading) → Store ((db : Tables) × IsValid db)
  sqlite_store reads = record {
    messages = λ (db, v) id. messages c (reads db id) db id;
    append_turn = λ (db, v) id u a.
        let r = append_turn c db id u a in ((r.0, append_turn-IsValid c db id u a v), r.1);
    replace_tail_and_append_turn = λ (db, v) id keep u a.
        let r = replace_tail_and_append_turn c db id (pos keep) u a in
        ((r.0, replace_turn-IsValid c db id (pos keep) u a v), r.1);
  }

  abbrev pub held : (db : Tables) × IsValid db → ℤ → Result (List Message)
  held (db, v) id = content db id

  -- The store of SQLite keeps every promise on which a session relies, whichever of its statements
  -- and readings fail, for messages whose parts and time can be read again as they were written:
  -- what Messages returns is what the tables hold, a turn that is saved stands behind the messages
  -- it keeps, and one that is refused leaves the conversation as it was.
  pub sqlite_store-StoreLaws :
      (reads : Tables → ℤ → Reading) → StoreLaws (sqlite_store reads) held (IsStorable c)
  sqlite_store-StoreLaws reads = record {
    messages_ok = λ (db, v) id ms e. messages-content (reads db id) db id ms e;
    append_ok = λ (db, v) (db', v') id ms u a hu ha su sa h e.
        let saved : db' ≡ (append_turn c db id u a).0 = ap (λ p. p.0.0) (sym e) in
        rw saved (append_turn-reads db id ms u a su sa v hu h (ap (λ p. p.1) e));
    append_err = λ (db, v) (db', v') id u a x e.
        let saved : db' ≡ (append_turn c db id u a).0 = ap (λ p. p.0.0) (sym e) in
        rw saved (append_turn-keeps db id u a x (ap (λ p. p.1) e));
    replace_ok = λ (db, v) (db', v') id k ms u a hu ha su sa h e.
        let saved : db' ≡ (replace_tail_and_append_turn c db id (pos k) u a).0 =
          ap (λ p. p.0.0) (sym e) in
        rw saved (replace_turn-reads db id k ms u a su sa v hu h (ap (λ p. p.1) e));
    replace_err = λ (db, v) (db', v') id k u a x e.
        let saved : db' ≡ (replace_tail_and_append_turn c db id (pos k) u a).0 =
          ap (λ p. p.0.0) (sym e) in
        rw saved (replace_turn-keeps db id k u a x (ap (λ p. p.1) e));
  }
