-- ===== src/Errors.antt =====
-- Go's `error` values, told apart as errors.Is does, and results that may be one.
use pyttechat.Base.{Bool, true, false, Bytes, ◌≡◌, refl, ◌⊎◌, inl, inr}

-- The sentinels of internal/chat, internal/storage and internal/auth, those of the standard
-- library that the code asks for, and `other` for every error without a sentinel.
pub data Error : Type 0 where
  empty_prompt invalid_replace_from turn_in_progress : Error
  conflict invalid_argument not_found : Error
  invalid_credentials invalid_session invalid_username : Error
  session_expired username_taken weak_password : Error
  canceled eof unexpected_eof : Error
  stream_failed : Bytes → Error
  other : Bytes → Error

-- errors.Is(err, context.Canceled)
unfoldable pub is_canceled : Error → Bool
is_canceled canceled = true
is_canceled _ = false

-- errors.Is(err, io.EOF)
unfoldable pub is_eof : Error → Bool
is_eof eof = true
is_eof _ = false

-- errors.Is with the sentinels of internal/storage and internal/auth
unfoldable pub is_conflict : Error → Bool
is_conflict conflict = true
is_conflict _ = false

unfoldable pub is_not_found : Error → Bool
is_not_found not_found = true
is_not_found _ = false

unfoldable pub is_invalid_session : Error → Bool
is_invalid_session invalid_session = true
is_invalid_session _ = false

unfoldable pub is_session_expired : Error → Bool
is_session_expired session_expired = true
is_session_expired _ = false

-- (A, error)
pub data Result {ℓ} (A : Type ℓ) : Type ℓ where
  ok : A → Result A
  err : Error → Result A

pub Result-cases {ℓ} :
    {A : Type ℓ} (r : Result A) → ((a : A) × (r ≡ ok a)) ⊎ ((e : Error) × (r ≡ err e))
Result-cases (ok a) = inl (a, refl)
Result-cases (err e) = inr (e, refl)

infixl 5 ◌>>=◌
abbrev pub ◌>>=◌ {ℓ κ} : {A : Type ℓ} {B : Type κ} → Result A → (A → Result B) → Result B
ok a >>= f = f a
err e >>= f = err e
