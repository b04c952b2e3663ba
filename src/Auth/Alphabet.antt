-- ===== src/Auth/Alphabet.antt =====
-- The random tokens of cookies, and how a cookie is cut into its id and its secret.
use pyttechat.Base.{
  ℕ, true, false, ◌&&◌, not, List, [], ◌∷◌, ◌++◌, some, Bytes, ◌==◌, ◌≡◌, refl, inl, inr, arith,
  All, All-append, All-imp,
}
use pyttechat.Errors.{Result, ok, err, Result-cases}
use pyttechat.Text.{trim_space, is_empty, cut_byte}
use pyttechat.Text.Laws.{codes}
use pyttechat.Text.Trim.{is_graphic, IsGraphic, trim_space_graphic}
use pyttechat.Auth.{Crypto, Tokens, random_token, draw_tokens}

-- The bytes of a token: graphic, and no dot.
abbrev pub IsTokenByte : ℕ → Type 0
IsTokenByte c = (is_graphic c && not (c == b'.')) ≡ true

-- base64.RawURLEncoding writes letters, digits, dashes and underscores.
abbrev pub WritesTokens : Crypto → Type 0
WritesTokens crypto = (raw : Bytes) → All IsTokenByte (crypto.base64 raw)

pub IsTokenByte-IsGraphic : (c : ℕ) → IsTokenByte c → IsGraphic c
IsTokenByte-IsGraphic c h = ground (arith, h)

-- A cookie is cut into the id and the secret that it was made of.
cut_byte-cookie :
    (id secret : Bytes)
    → All IsTokenByte id
    → cut_byte b'.' (id ++ b'.' ∷ secret) ≡ some (id, secret)
unfolding cut_byte
cut_byte-cookie [] secret h = ground arith
cut_byte-cookie (c ∷ cs) secret h = ground (arith, h.0, cut_byte-cookie cs secret h.1)

pub cookie_parts :
    (id secret : Bytes)
    → All IsTokenByte id
    → All IsTokenByte secret
    → cut_byte b'.' (trim_space (id ++ b'.' ∷ secret)) ≡ some (id, secret)
cookie_parts id secret hi hs =
    let graphic : All IsGraphic (id ++ b'.' ∷ secret) =
      All-append IsGraphic id (b'.' ∷ secret)
        (All-imp IsTokenByte IsGraphic IsTokenByte-IsGraphic id hi)
        (refl, All-imp IsTokenByte IsGraphic IsTokenByte-IsGraphic secret hs) in
    rw (trim_space_graphic (id ++ b'.' ∷ secret) graphic) (cut_byte-cookie id secret hi)

-- A token that can stand in a cookie.
abbrev pub IsToken : Bytes → Type 0
IsToken t = All IsTokenByte t × (is_empty t ≡ false)

pub random_token-IsToken :
    (crypto : Crypto) (kind token : Bytes) (random rest : List (Result Bytes))
    → WritesTokens crypto
    → IsToken kind
    → random_token crypto kind random ≡ (rest, ok token)
    → IsToken token
unfolding random_token
random_token-IsToken crypto kind token [] rest h k e = absurd (ground (arith, e))
random_token-IsToken crypto kind token (err x ∷ random) rest h k e = absurd (ground (arith, e))
random_token-IsToken crypto [] token (ok raw ∷ random) rest h k e = absurd (ground (arith, k.1))
random_token-IsToken crypto (c ∷ cs) token (ok raw ∷ random) rest h k e =
    let made : (c ∷ cs) ++ (codes "_" ++ crypto.base64 raw) ≡ token = ground (arith, e) in
    rw (← made)
      (All-append IsTokenByte (c ∷ cs) (codes "_" ++ crypto.base64 raw) k.0 (refl, h raw), refl)

pub draw_tokens-IsToken :
    (crypto : Crypto) (t : Tokens) (random rest : List (Result Bytes))
    → WritesTokens crypto
    → draw_tokens crypto random ≡ (rest, ok t)
    → IsToken t.id × IsToken t.secret
unfolding draw_tokens
draw_tokens-IsToken crypto t random rest h e =
    let (random₁, id) = random_token crypto (codes "sess") random in
    elim (Result-cases id) [
      | inr (x, failed) ↦ absurd (ground arith)
      | inl (id', made) ↦
          let (random₂, secret) = random_token crypto (codes "secret") random₁ in
          elim (Result-cases secret) [
            | inr (x, failed) ↦ absurd (ground arith)
            | inl (secret', made') ↦
                let (random₃, csrf) = random_token crypto (codes "csrf") random₂ in
                elim (Result-cases csrf) [
                  | inr (x, failed) ↦ absurd (ground arith)
                  | inl (csrf', made'') ↦
                      let same : record { id = id'; secret = secret'; csrf = csrf' } ≡ t =
                        ground arith in
                      rw (← same) (
                        random_token-IsToken crypto (codes "sess") id' random random₁ h
                            ((refl, (refl, (refl, (refl, tt)))), refl) (ground (arith, made)),
                        random_token-IsToken crypto (codes "secret") secret' random₁ random₂ h
                            ((refl, (refl, (refl, (refl, (refl, (refl, tt)))))), refl)
                            (ground (arith, made')),
                      )
                ]
          ]
    ]
