-- ===== src/Tests/Auth.antt =====
-- Runs of internal/auth on small inputs, and the theorems about it at those.
use pyttechat.Base.{
  ℕ, ◌+◌, ◌%◌, ◌<◌, ◌&&◌, [], ◌∷◌, map, none, some, pos, Bytes, leb, if◌then◌else◌, ◌≡◌, refl,
  arith,
}
use pyttechat.Errors.{invalid_session, invalid_credentials, invalid_username, eof, ok, err}
use pyttechat.Text.{eq_bytes, trim_space, cut_byte}
use pyttechat.Text.Laws.{codes, eq_bytes_refl}
use pyttechat.Storage.Accounts.{
  User, Accounts, create_user, create_session, rotate_session, find_user, find_session,
  remove_session, delete_session,
}
use pyttechat.Storage.Messages.{Codec}
use pyttechat.Auth.{
  Crypto, World, Service, BrowserSession, normalize_username, check_name, register, authenticate,
  draw_tokens, random_token, create_browser_session, rotate_browser_session, verify_browser_session,
  logout,
}
use pyttechat.Auth.Names.{IsName, KeepsNames, normalize_username-IsName}
use pyttechat.Auth.Alphabet.{IsTokenByte, WritesTokens, IsToken}
use pyttechat.Auth.Cookies.{
  SessionLaws, verify_browser_session_sound, verify-create_browser_session,
  rotate_browser_session_revokes, logout_revokes,
}
use pyttechat.Auth.Sqlite.{sqlite_users, ReadsTimes, sqlite_users-SessionLaws}
use pyttechat.Auth.Register.{MatchesHash, authenticate-register}

abbrev pub codec : Codec
codec = record {
  marshal = λ ps. err eof;
  unmarshal = λ s. err eof;
  format_time = λ t. t ∷ [];
  parse_time = λ s. elim s [ [] ↦ err eof | t ∷ rest ↦ ok t ];
}

codec_times : ReadsTimes codec 1
codec_times t = refl

-- One letter for every byte.
unfoldable pub letter : ℕ → ℕ
letter c = b'a' + c % 26

unfoldable pub small : ℕ → ℕ
small c = if leb b'A' c && leb c b'Z' then c + 32 else c

abbrev pub crypto : Crypto
crypto = record {
  hash_password = λ p. ok (b'#' ∷ p);
  matches = λ h p. eq_bytes h (b'#' ∷ p);
  sha256 = λ s. b'!' ∷ s;
  base64 = map letter;
  to_lower = map small;
}

letter-IsTokenByte : (c : ℕ) → IsTokenByte (letter c)
unfolding letter
letter-IsTokenByte c = ground arith

pub crypto-WritesTokens : WritesTokens crypto
crypto-WritesTokens [] = tt
crypto-WritesTokens (c ∷ cs) = (letter-IsTokenByte c, crypto-WritesTokens cs)

crypto-KeepsNames : KeepsNames crypto
unfolding small
crypto-KeepsNames [] h = refl
crypto-KeepsNames (c ∷ cs) h = ground (arith, h.0, crypto-KeepsNames cs h.1)

crypto-MatchesHash : MatchesHash codec 1 crypto
crypto-MatchesHash p h e =
    let same : h ≡ b'#' ∷ p = ground (arith, e) in rw same (eq_bytes_refl (b'#' ∷ p))

abbrev pub service : Service Accounts
service = record { store = sqlite_users codec 1 none; crypto = crypto; now = 10; session_ttl = 20 }

ann : normalize_username crypto (codes " Ann.B ") ≡ ok (codes "ann.b")
unfolding normalize_username check_name trim_space small
ann = refl

marked : normalize_username crypto (codes "ann.") ≡ err invalid_username
unfolding normalize_username check_name trim_space small
marked = refl

normalize_username-IsName_example : IsName (codes "ann.b")
normalize_username-IsName_example =
    normalize_username-IsName crypto (codes " Ann.B ") (codes "ann.b") ann

abbrev nobody : Accounts
nobody = record { users = []; sessions = []; last_user_id = 0 }

abbrev pub ann_user : User
ann_user = record {
  id = 1;
  username = codes "ann.b";
  password_hash = codes "#password";
  created_at = 10;
}

abbrev pub with_ann : Accounts
with_ann = record {
  users =
      record {
        id = 1;
        username = codes "ann.b";
        password_hash = codes "#password";
        created_at = 10 ∷ [];
      }
      ∷ [];
  sessions = [];
  last_user_id = 1;
}

ann_registers :
    register service (codes " Ann.B ") (codes "password") nobody ≡ (with_ann, ok ann_user)
unfolding register normalize_username check_name trim_space small create_user find_user
ann_registers = refl

authenticate-register_example :
    (authenticate service (codes " Ann.B ") (codes "password") with_ann ≡ ok ann_user)
    × ((other : Bytes)
        → authenticate service (codes " Ann.B ") other with_ann ≡ (
            if eq_bytes (codes "#password") (b'#' ∷ other)
            then ok ann_user
            else err invalid_credentials))
authenticate-register_example =
    authenticate-register codec 1 crypto 10 20 none (codes " Ann.B ") (codes " Ann.B ")
      (codes "password") nobody with_ann ann_user codec_times crypto-MatchesHash refl ann_registers

pub laws : SessionLaws service.store
laws = sqlite_users-SessionLaws codec 1 codec_times none

sqlite_users-SessionLaws_example : SessionLaws (sqlite_users codec 1 (some eof))
sqlite_users-SessionLaws_example = sqlite_users-SessionLaws codec 1 codec_times (some eof)

-- Three tokens for each of two sessions.
abbrev pub start : World Accounts
start = record {
  db = with_ann;
  random = ok (0 ∷ []) ∷ ok (1 ∷ []) ∷ ok (2 ∷ []) ∷ ok (3 ∷ []) ∷ ok (4 ∷ []) ∷ ok (5 ∷ []) ∷ [];
}

abbrev visitor : BrowserSession
visitor = record {
  cookie_value = codes "sess_a.secret_b";
  session = record {
    id = codes "sess_a";
    user_id = pos 0;
    secret_hash = codes "!secret_b";
    csrf_token = codes "csrf_c";
    expires_at = 30;
    created_at = 10;
  };
}

abbrev pub visited : World Accounts
visited = (create_browser_session service (pos 0) [] start).0

visitor_comes : create_browser_session service (pos 0) [] start ≡ (visited, ok visitor)
unfolding create_browser_session draw_tokens random_token letter create_session find_session
    trim_space
visitor_comes = refl

verify-create_browser_session_example :
    verify_browser_session (record service { now = 29 }) (codes "sess_a.secret_b") visited.db
    ≡ ok visitor.session
verify-create_browser_session_example =
    verify-create_browser_session service laws crypto-WritesTokens 29 0 [] start visited visitor
      visitor_comes (omega arith)

verify_browser_session_sound_example :
    (id : Bytes) × (secret : Bytes) × (cut_byte b'.' (trim_space (codes "sess_a.secret_b"))
      ≡ some (id, secret))
    × (service.store.session_by_id id visited.db ≡ ok visitor.session)
    × (29 < visitor.session.expires_at)
    × (service.crypto.sha256 secret ≡ visitor.session.secret_hash)
verify_browser_session_sound_example =
    verify_browser_session_sound (record service { now = 29 }) (codes "sess_a.secret_b") visited.db
      visitor.session verify-create_browser_session_example

pub sess_a-IsToken : IsToken (codes "sess_a")
sess_a-IsToken = ((refl, (refl, (refl, (refl, (refl, (refl, tt)))))), refl)

pub secret_b-IsToken : IsToken (codes "secret_b")
secret_b-IsToken = ((refl, (refl, (refl, (refl, (refl, (refl, (refl, (refl, tt)))))))), refl)

abbrev pub signed_in : BrowserSession
signed_in = record {
  cookie_value = codes "sess_d.secret_e";
  session = record {
    id = codes "sess_d";
    user_id = pos 1;
    secret_hash = codes "!secret_e";
    csrf_token = codes "csrf_f";
    expires_at = 30;
    created_at = 10;
  };
}

abbrev pub entered : World Accounts
entered = (rotate_browser_session service (codes "sess_a") (pos 1) visited).0

pub ann_enters :
    rotate_browser_session service (codes "sess_a") (pos 1) visited ≡ (entered, ok signed_in)
unfolding rotate_browser_session create_browser_session draw_tokens random_token letter
    create_session rotate_session find_session remove_session trim_space eq_bytes
ann_enters = refl

rotate_browser_session_revokes_example :
    verify_browser_session service (codes "sess_a.secret_b") entered.db ≡ err invalid_session
rotate_browser_session_revokes_example =
    rotate_browser_session_revokes service laws crypto-WritesTokens (pos 1) (codes "sess_a")
      (codes "secret_b") visited entered signed_in sess_a-IsToken secret_b-IsToken
      (unfold eq_bytes in refl) ann_enters

visitor_leaves :
    logout service (codes "sess_a") visited.db
    ≡ ((logout service (codes "sess_a") visited.db).0, none)
unfolding logout delete_session
visitor_leaves = refl

logout_revokes_example :
    verify_browser_session service
      (codes "sess_a.secret_b")
      (logout service (codes "sess_a") visited.db).0
    ≡ err invalid_session
logout_revokes_example =
    logout_revokes service laws crypto-WritesTokens (codes "sess_a") (codes "secret_b") visited.db
      (logout service (codes "sess_a") visited.db).0 sess_a-IsToken secret_b-IsToken visitor_leaves
