-- ===== src/Encoding/Detect/Utf8.antt =====
-- UTF-8 as `detect_encoding` of src/skk/encoding_simple.rs recognises it.
use yaskkserv.Prelude.{ℕ, ◌+◌, ◌≡◌, true, ◌&&◌, List, [], ◌∷◌, ◌++◌, Bytes, within}

-- A character of UTF-8 as the loop takes it.
pub data Character : Type 0 where
  one : ℕ → Character
  pair : ℕ → ℕ → Character
  triple : ℕ → ℕ → ℕ → Character
  quadruple : ℕ → ℕ → ℕ → ℕ → Character

abbrev pub spell : Character → Bytes
spell (one a) = a ∷ []
spell (pair a b) = a ∷ b ∷ []
spell (triple a b c) = a ∷ b ∷ c ∷ []
spell (quadruple a b c d) = a ∷ b ∷ c ∷ d ∷ []

abbrev pub IsUtf8 : Character → Type 0
IsUtf8 (one a) = within 0x01 0x7f a ≡ true
IsUtf8 (pair a b) = (within 0xc2 0xdf a && within 0x80 0xbf b) ≡ true
IsUtf8 (triple a b c) = (within 0xe0 0xef a && within 0x80 0xbf b && within 0x80 0xbf c) ≡ true
IsUtf8 (quadruple a b c d) =
    (within 0xf0 0xf7 a && within 0x80 0xbf b && within 0x80 0xbf c && within 0x80 0xbf d) ≡ true

-- One for a character of several bytes.
abbrev pub several : Character → ℕ
several (one a) = 0
several _ = 1

abbrev pub severals : List Character → ℕ
severals [] = 0
severals (c ∷ cs) = several c + severals cs

abbrev pub spells : List Character → Bytes → Bytes
spells [] rest = rest
spells (c ∷ cs) rest = spell c ++ spells cs rest

abbrev pub AllUtf8 : List Character → Type 0
AllUtf8 [] = Unit {0}
AllUtf8 (c ∷ cs) = IsUtf8 c × AllUtf8 cs
