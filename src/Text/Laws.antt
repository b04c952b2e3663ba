-- ===== src/Text/Laws.antt =====
-- The laws of the string operations that the components use.
use Prim.Native.Char.{code}
use Prim.Native.String.{String}
use pyttechat.Base.{ℕ, true, some, [], ◌∷◌, ◌++◌, ◌≡◌, refl, arith, Bytes}
use pyttechat.Text.{eq_bytes, cut_byte, trim_space}

-- The bytes of a literal in ASCII.
abbrev pub codes : String → Bytes
codes String.[] = []
codes (String.◌∷◌ c s) = code c ∷ codes s

pub eq_bytes_refl : (a : Bytes) → eq_bytes a a ≡ true
unfolding eq_bytes
eq_bytes_refl [] = refl
eq_bytes_refl (c ∷ cs) = ground (arith, eq_bytes_refl cs)

pub eq_bytes→eq : (a b : Bytes) → eq_bytes a b ≡ true → a ≡ b
unfolding eq_bytes
eq_bytes→eq [] [] h = refl
eq_bytes→eq [] (b ∷ t) h = ground arith
eq_bytes→eq (a ∷ s) [] h = ground arith
eq_bytes→eq (a ∷ s) (b ∷ t) h = ground (arith, eq_bytes→eq s t)

-- What is cut off is the text before the first separator and the text behind it.
pub cut_byte-some :
    (sep : ℕ) (s before after : Bytes)
    → cut_byte sep s ≡ some (before, after)
    → s ≡ before ++ sep ∷ after
unfolding cut_byte
cut_byte-some sep [] before after h = ground arith
cut_byte-some sep (c ∷ cs) [] after h = ground arith
cut_byte-some sep (c ∷ cs) (b ∷ before) after h = ground (arith, cut_byte-some sep cs before after)

trim_words : trim_space (codes " \t two words \n") ≡ codes "two words"
unfolding trim_space
trim_words = refl

trim_wide : trim_space (0xc2 ∷ 0xa0 ∷ 65 ∷ 0xe2 ∷ 0x80 ∷ 0x83 ∷ []) ≡ 65 ∷ []
unfolding trim_space
trim_wide = refl
