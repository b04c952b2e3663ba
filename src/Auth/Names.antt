-- ===== src/Auth/Names.antt =====
-- What a user name is behind NormalizeUsername.
use pyttechat.Base.{
  ℕ, zero, suc, ◌+◌, ◌-◌, ◌≤◌, true, false, [], ◌∷◌, some, Bytes, length, get_elem?, ◌≡◌, refl, ◌⊎◌,
  inl, inr, arith, All, All-imp,
}
use pyttechat.Errors.{ok}
use pyttechat.Text.Trim.{IsGraphic, trim_space_graphic}
use pyttechat.Auth.{Crypto, is_mark, is_name_byte, check_name, normalize_username}

abbrev pub IsNameByte : ℕ → Type 0
IsNameByte c = is_name_byte c ≡ true

check_name-IsNameByte : (i size : ℕ) (cs : Bytes) → check_name i size cs ≡ true → All IsNameByte cs
unfolding check_name
check_name-IsNameByte i size [] h = tt
check_name-IsNameByte i size (c ∷ cs) h =
    (ground (arith, h), check_name-IsNameByte (suc i) size cs (ground (arith, h)))

check_name_edges :
    (i size : ℕ) (cs : Bytes) (k c : ℕ)
    → check_name i size cs ≡ true
    → get_elem? cs k ≡ some c
    → (i + k ≡ 0) ⊎ (suc (i + k) ≡ size)
    → is_mark c ≡ false
unfolding check_name
check_name_edges i size [] k c h at edge = ground (arith, at)
check_name_edges i size (d ∷ cs) zero c h at edge = ground (arith, at, edge)
check_name_edges i size (d ∷ cs) (suc k) c h at edge =
    check_name_edges (suc i) size cs k c (ground (arith, h)) at (ground (arith, edge))

-- A name: 3 to 32 bytes, each a small letter, a digit or a mark, and no mark at either end.
pub record IsName (name : Bytes) : Type 0 where
  pub long : 3 ≤ length name
  pub short : length name ≤ 32
  pub bytes : All IsNameByte name
  pub first : (c : ℕ) → get_elem? name 0 ≡ some c → is_mark c ≡ false
  pub last : (c : ℕ) → get_elem? name (length name - 1) ≡ some c → is_mark c ≡ false

normalize_username-ok :
    (crypto : Crypto) (username name : Bytes)
    → normalize_username crypto username ≡ ok name
    → (3 ≤ length name) × (length name ≤ 32) × (check_name 0 (length name) name ≡ true)
unfolding normalize_username
normalize_username-ok crypto username name h = ground arith

-- Whatever was typed, a user name that is accepted has 3 to 32 bytes, each a small letter, a digit, a
-- dot, an underscore or a dash, and it begins and ends with a letter or a digit.
pub normalize_username-IsName :
    (crypto : Crypto) (username name : Bytes)
    → normalize_username crypto username ≡ ok name
    → IsName name
normalize_username-IsName crypto username name h =
    let (long, short, checked) = normalize_username-ok crypto username name h in
    record {
      long = long;
      short = short;
      bytes = check_name-IsNameByte 0 (length name) name checked;
      first = λ c at. check_name_edges 0 (length name) name 0 c checked at (inl refl);
      last = λ c at.
          check_name_edges 0 (length name) name (length name - 1) c checked at (inr (omega arith));
    }

IsNameByte-IsGraphic : (c : ℕ) → IsNameByte c → IsGraphic c
IsNameByte-IsGraphic c h = ground (arith, h)

-- strings.ToLower keeps a text without capitals.
abbrev pub KeepsNames : Crypto → Type 0
KeepsNames crypto = (s : Bytes) → All IsNameByte s → crypto.to_lower s ≡ s

-- A name that was accepted is its own normal form, so that it names the same account again.
pub normalize_username_idem :
    (crypto : Crypto) (username name : Bytes)
    → KeepsNames crypto
    → normalize_username crypto username ≡ ok name
    → normalize_username crypto name ≡ ok name
unfolding normalize_username
normalize_username_idem crypto username name keeps h =
    let (long, short, checked) = normalize_username-ok crypto username name h in
    let bytes = check_name-IsNameByte 0 (length name) name checked in
    rw
      (
        trim_space_graphic name (All-imp IsNameByte IsGraphic IsNameByte-IsGraphic name bytes),
        keeps name bytes,
      )
      (ground (arith, long, short, checked))
