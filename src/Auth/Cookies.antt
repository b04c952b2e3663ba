-- ===== src/Auth/Cookies.antt =====
-- The life of a cookie: what VerifyBrowserSession accepts, and what a rotation and Logout end.
use pyttechat.Base.{
  ◌+◌, ℕ, ◌<◌, false, [], ◌∷◌, ◌++◌, none, some, ℤ, pos, Bytes, ◌≡◌, refl, sym, inl, inr, arith,
  Option-cases, All-imp,
}
use pyttechat.Errors.{not_found, invalid_session, is_not_found, ok, err, Result-cases}
use pyttechat.Text.{trim_space, is_empty, eq_bytes, cut_byte}
use pyttechat.Text.Laws.{eq_bytes_refl, eq_bytes→eq}
use pyttechat.Text.Trim.{IsGraphic, trim_space_graphic}
use pyttechat.Storage.Accounts.{Session}
use pyttechat.Auth.{
  UserStore, World, Service, BrowserSession, Tokens, draw_tokens, session_params, store_session,
  create_browser_session, rotate_browser_session, verify_browser_session, logout,
}
use pyttechat.Auth.Alphabet.{
  IsTokenByte, IsTokenByte-IsGraphic, WritesTokens, IsToken, cookie_parts, draw_tokens-IsToken,
}

-- What the package relies on in a store of sessions.
pub record SessionLaws {W : Type 0} (store : UserStore W) : Type 0 where
  pub created :
      (p s : Session) (n : ℕ) (w w' : W)
      → p.user_id ≡ pos n
      → store.create_session p w ≡ (w', ok s)
      → (store.session_by_id p.id w' ≡ ok s)
        × (s.secret_hash ≡ p.secret_hash)
        × ((0 < p.expires_at) → s.expires_at ≡ p.expires_at)
  pub rotated :
      (old : Bytes) (p s : Session) (n : ℕ) (w w' : W)
      → p.user_id ≡ pos n
      → store.rotate_session old p w ≡ (w', ok s)
      → (store.session_by_id p.id w' ≡ ok s)
        × (s.secret_hash ≡ p.secret_hash)
        × ((0 < p.expires_at) → s.expires_at ≡ p.expires_at)
  pub revoked :
      (old : Bytes) (p s : Session) (w w' : W)
      → is_empty (trim_space old) ≡ false
      → eq_bytes s.id old ≡ false
      → store.rotate_session old p w ≡ (w', ok s)
      → store.session_by_id old w' ≡ err not_found
  pub deleted :
      (id : Bytes) (w w' : W)
      → store.delete_session id w ≡ (w', none)
      → store.session_by_id id w' ≡ err not_found

module _ {W : Type 0} (s : Service W) where
  -- A cookie whose session is found and fits is accepted.
  verify_found :
      (id secret : Bytes) (db : W) (session : Session)
      → IsToken id
      → IsToken secret
      → s.store.session_by_id id db ≡ ok session
      → s.now < session.expires_at
      → s.crypto.sha256 secret ≡ session.secret_hash
      → verify_browser_session s (id ++ b'.' ∷ secret) db ≡ ok session
  unfolding verify_browser_session
  verify_found id secret db session hi hs found fresh fits =
      rw (cookie_parts id secret hi.0 hs.0, verify_browser_session, hi.1, hs.1, found, fits)
        (ground (arith, fresh, eq_bytes_refl session.secret_hash))

module _ {W : Type 0} (s : Service W) where
  -- What a call that returned a browser session drew and stored.
  record Created (user_id : ℤ) (old : Bytes) (w w' : World W) (b : BrowserSession) : Type 0 where
    pub tokens : Tokens
    pub drawn : draw_tokens s.crypto w.random ≡ (w'.random, ok tokens)
    pub stored : store_session s old (session_params s tokens user_id) w.db ≡ (w'.db, ok b.session)
    pub cookie : b.cookie_value ≡ tokens.id ++ b'.' ∷ tokens.secret

  create_browser_session-Created :
      (user_id : ℤ) (old : Bytes) (w w' : World W) (b : BrowserSession)
      → create_browser_session s user_id old w ≡ (w', ok b)
      → Created user_id old w w' b
  unfolding create_browser_session
  create_browser_session-Created user_id old w w' b h =
      let (random, drawn) = draw_tokens s.crypto w.random in
      elim (Result-cases drawn) [
        | inr (x, failed) ↦ absurd (ground arith)
        | inl (t, made) ↦
            let (db, r) = store_session s old (session_params s t user_id) w.db in
            elim (Result-cases r) [
              | inr (x, failed) ↦ absurd (ground arith)
              | inl (session, kept) ↦ record {
                tokens = t;
                drawn = ground arith;
                stored = ground arith;
                cookie = ground arith;
              }
            ]
      ]

  -- A cookie whose session is not found is refused.
  verify_missing :
      (id secret : Bytes) (db : W)
      → IsToken id
      → IsToken secret
      → s.store.session_by_id id db ≡ err not_found
      → verify_browser_session s (id ++ b'.' ∷ secret) db ≡ err invalid_session
  unfolding verify_browser_session is_not_found
  verify_missing id secret db hi hs missing =
      rw (cookie_parts id secret hi.0 hs.0, verify_browser_session, hi.1, hs.1, missing)

  -- Whatever cookie comes, an accepted one names a session of the store that has not expired, and its
  -- secret has the hash that is stored with that session.
  pub verify_browser_session_sound :
      (cookie : Bytes) (db : W) (session : Session)
      → verify_browser_session s cookie db ≡ ok session
      → (id : Bytes) × (secret : Bytes) × (cut_byte b'.' (trim_space cookie) ≡ some (id, secret))
        × (s.store.session_by_id id db ≡ ok session)
        × (s.now < session.expires_at)
        × (s.crypto.sha256 secret ≡ session.secret_hash)
  unfolding verify_browser_session
  verify_browser_session_sound cookie db session h =
      elim (Option-cases (cut_byte b'.' (trim_space cookie))) [
        | inl e ↦ absurd (ground arith)
        | inr ((id, secret), e) ↦ elim (Result-cases (s.store.session_by_id id db)) [
          | inr (x, failed) ↦ absurd (ground arith)
          | inl (found, e') ↦ (
            id,
            secret,
            e,
            ground arith,
            ground arith,
            ground (arith, eq_bytes→eq (s.crypto.sha256 secret) found.secret_hash),
          )
        ]
      ]

  store_session-old :
      (old : Bytes) (p : Session) (db : W)
      → is_empty old ≡ false
      → store_session s old p db ≡ s.store.rotate_session old p db
  store_session-old [] p db h = absurd (ground (arith, h))
  store_session-old (c ∷ cs) p db h = refl

  module _ (laws : SessionLaws s.store) (writes : WritesTokens s.crypto) where
    -- The stored session is found under the id of its cookie, with the hash of its secret and the time
    -- that it lasts.
    created_found :
        (n : ℕ) (old : Bytes) (p session : Session) (db db' : W)
        → p.user_id ≡ pos n
        → store_session s old p db ≡ (db', ok session)
        → (s.store.session_by_id p.id db' ≡ ok session)
          × (session.secret_hash ≡ p.secret_hash)
          × ((0 < p.expires_at) → session.expires_at ≡ p.expires_at)
    created_found n [] p session db db' user h = laws.created p session n db db' user h
    created_found n (c ∷ cs) p session db db' user h =
        laws.rotated (c ∷ cs) p session n db db' user h

    -- A browser that sends back the cookie it was given, whether for a new session or for one in the
    -- place of an old one, is let in with that session as long as it lasts, which is the service's time
    -- to live from the moment at which it was made. The store keeps the promises of SessionLaws and is
    -- as the call left it, and base64 writes letters, digits, dashes and underscores.
    pub verify-create_browser_session :
        (later n : ℕ) (old : Bytes) (w w' : World W) (b : BrowserSession)
        → create_browser_session s (pos n) old w ≡ (w', ok b)
        → later < s.now + s.session_ttl
        → verify_browser_session (record s { now = later }) b.cookie_value w'.db ≡ ok b.session
    verify-create_browser_session later n old w w' b h soon =
        let made = create_browser_session-Created (pos n) old w w' b h in
        let t = made.tokens in
        let (id, secret) = draw_tokens-IsToken s.crypto t w.random w'.random writes made.drawn in
        let (found, hash, expires) =
          created_found n old (session_params s t (pos n)) b.session w.db w'.db refl made.stored in
        rw made.cookie (
          verify_found (record s { now = later }) t.id t.secret w'.db b.session id secret found
            (rw (expires (omega arith)) soon) (sym hash))

    -- A rotation, at a sign in, ends the session before it: in the store that it leaves a cookie
    -- with the old id is refused, whatever its secret. The store keeps the promises of
    -- SessionLaws, base64 writes letters, digits, dashes and underscores, the old id and the
    -- secret are of those characters, and the new id is another than the old one.
    pub rotate_browser_session_revokes :
        (user_id : ℤ) (old secret : Bytes) (w w' : World W) (b : BrowserSession)
        → IsToken old
        → IsToken secret
        → eq_bytes b.session.id old ≡ false
        → rotate_browser_session s old user_id w ≡ (w', ok b)
        → verify_browser_session s (old ++ b'.' ∷ secret) w'.db ≡ err invalid_session
    unfolding rotate_browser_session
    rotate_browser_session_revokes user_id old secret w w' b ho hs fresh h =
        let asked : create_browser_session s user_id old w ≡ (w', ok b) = ground (arith, h) in
        let made = create_browser_session-Created user_id old w w' b asked in
        let p = session_params s made.tokens user_id in
        let shown : is_empty (trim_space old) ≡ false =
          rw (trim_space_graphic old (All-imp IsTokenByte IsGraphic IsTokenByte-IsGraphic old ho.0))
            ho.1 in
        verify_missing old secret w'.db ho hs (
          laws.revoked old p b.session w.db w'.db shown fresh
            (rw (store_session-old old p w.db ho.1) at made.stored))

    -- Logout ends a session: in the store that it leaves a cookie with its id is refused,
    -- whatever its secret. The store keeps the promises of SessionLaws, base64 writes letters,
    -- digits, dashes and underscores, and the id and the secret are of those characters.
    pub logout_revokes :
        (id secret : Bytes) (db db' : W)
        → IsToken id
        → IsToken secret
        → logout s id db ≡ (db', none)
        → verify_browser_session s (id ++ b'.' ∷ secret) db' ≡ err invalid_session
    unfolding logout
    logout_revokes id secret db db' hi hs h =
        verify_missing id secret db' hi hs (laws.deleted id db db' h)
