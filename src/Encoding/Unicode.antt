-- ===== src/Encoding/Unicode.antt =====
-- `convert_unicode_to_utf8` of src/skk/encoding_simple/encoding_table.rs. The bytes written are the
-- result, whose number the function returns. A mask of n bits is `% 2 ^ n`, a shift `/ 2 ^ n`.
use yaskkserv.Prelude.{
  ℕ, ◌+◌, ◌-◌, ◌*◌, ◌/◌, ◌%◌, ◌^◌, ◌≤◌, ◌<◌, ◌≡◌, refl, ◌∙◌, inl, inr, Bool, true, not, ◌&&◌,
  Option, none, some, [], ◌∷◌, arith, leb, if◌then◌else◌, leb→le, le→leb, leb→gt, Bool-cases, Bytes,
  within,
}

unfoldable pub convert_unicode_to_utf8 : ℕ → Bytes
convert_unicode_to_utf8 unicode =
    if leb unicode 0x7f
    then unicode ∷ []
    else if leb unicode 0x7ff
    then (unicode / 2 ^ 6 % 2 ^ 5 + 0xc0) ∷ (unicode % 2 ^ 6 + 0x80) ∷ []
    else if leb unicode 0xffff
    then (unicode / 2 ^ 12 % 2 ^ 4 + 0xe0)
      ∷ (unicode / 2 ^ 6 % 2 ^ 6 + 0x80)
      ∷ (unicode % 2 ^ 6 + 0x80)
      ∷ []
    else if leb unicode 0x1fffff
    then (unicode / 2 ^ 18 % 2 ^ 3 + 0xf0)
      ∷ (unicode / 2 ^ 12 % 2 ^ 6 + 0x80)
      ∷ (unicode / 2 ^ 6 % 2 ^ 6 + 0x80)
      ∷ (unicode % 2 ^ 6 + 0x80)
      ∷ []
    else []

-- A code point that is not half of a surrogate pair.
abbrev pub is_scalar : ℕ → Bool
is_scalar u = not (within 0xd800 0xdfff u) && leb u 0x10ffff

-- The number, where it is one that needs so many bytes.
abbrev pub shortest : ℕ → ℕ → Option ℕ
shortest least u = if leb least u && is_scalar u then some u else none

-- UTF-8 by its definition: the number whose bits the bytes of one character carry, in as few bytes
-- as it fits.
abbrev pub scalar_of_utf8 : Bytes → Option ℕ
scalar_of_utf8 (a ∷ []) = if leb a 0x7f then some a else none
scalar_of_utf8 (a ∷ b ∷ []) =
    if within 0xc0 0xdf a && within 0x80 0xbf b
    then shortest 0x80 ((a - 0xc0) * 64 + (b - 0x80))
    else none
scalar_of_utf8 (a ∷ b ∷ c ∷ []) =
    if within 0xe0 0xef a && within 0x80 0xbf b && within 0x80 0xbf c
    then shortest 0x800 ((a - 0xe0) * 4096 + (b - 0x80) * 64 + (c - 0x80))
    else none
scalar_of_utf8 (a ∷ b ∷ c ∷ d ∷ []) =
    if within 0xf0 0xf7 a && within 0x80 0xbf b && within 0x80 0xbf c && within 0x80 0xbf d
    then shortest 0x10000 ((a - 0xf0) * 262144 + (b - 0x80) * 4096 + (c - 0x80) * 64 + (d - 0x80))
    else none
scalar_of_utf8 _ = none

within-le : (lo hi c : ℕ) → lo ≤ c → c ≤ hi → within lo hi c ≡ true
within-le lo hi c h k = rw (le→leb lo c h, le→leb c hi k) refl

low : (x : ℕ) → within 0x80 0xbf (x % 2 ^ 6 + 0x80) ≡ true
low x = within-le 0x80 0xbf (x % 2 ^ 6 + 0x80) (omega arith) (omega arith)

two :
    (u : ℕ)
    → u ≤ 0x7ff
    → scalar_of_utf8 ((u / 2 ^ 6 % 2 ^ 5 + 0xc0) ∷ (u % 2 ^ 6 + 0x80) ∷ []) ≡ shortest 0x80 u
two u h =
    let value : (u / 2 ^ 6 % 2 ^ 5 + 0xc0 - 0xc0) * 64 + (u % 2 ^ 6 + 0x80 - 0x80) ≡ u =
      omega (arith, h) in
    rw
      (
        scalar_of_utf8,
        within-le 0xc0 0xdf (u / 2 ^ 6 % 2 ^ 5 + 0xc0) (omega arith) (omega arith),
        low u,
        value,
      )
      refl

three :
    (u : ℕ)
    → u ≤ 0xffff
    → scalar_of_utf8
        ((u / 2 ^ 12 % 2 ^ 4 + 0xe0) ∷ (u / 2 ^ 6 % 2 ^ 6 + 0x80) ∷ (u % 2 ^ 6 + 0x80) ∷ [])
      ≡ shortest 0x800 u
three u h =
    let value : (u / 2 ^ 12 % 2 ^ 4 + 0xe0 - 0xe0) * 4096
          + (u / 2 ^ 6 % 2 ^ 6 + 0x80 - 0x80) * 64
          + (u % 2 ^ 6 + 0x80 - 0x80)
        ≡ u =
      omega (arith, h) in
    rw
      (
        scalar_of_utf8,
        within-le 0xe0 0xef (u / 2 ^ 12 % 2 ^ 4 + 0xe0) (omega arith) (omega arith),
        low (u / 2 ^ 6),
        low u,
        value,
      )
      refl

four :
    (u : ℕ)
    → u < 2 ^ 21
    → scalar_of_utf8 (
        (u / 2 ^ 18 % 2 ^ 3 + 0xf0)
        ∷ (u / 2 ^ 12 % 2 ^ 6 + 0x80)
        ∷ (u / 2 ^ 6 % 2 ^ 6 + 0x80)
        ∷ (u % 2 ^ 6 + 0x80)
        ∷ [])
      ≡ shortest 0x10000 u
four u h =
    let value : (u / 2 ^ 18 % 2 ^ 3 + 0xf0 - 0xf0) * 262144
          + (u / 2 ^ 12 % 2 ^ 6 + 0x80 - 0x80) * 4096
          + (u / 2 ^ 6 % 2 ^ 6 + 0x80 - 0x80) * 64
          + (u % 2 ^ 6 + 0x80 - 0x80)
        ≡ u =
      omega (arith, h) in
    rw
      (
        scalar_of_utf8,
        within-le 0xf0 0xf7 (u / 2 ^ 18 % 2 ^ 3 + 0xf0) (omega arith) (omega arith),
        low (u / 2 ^ 12),
        low (u / 2 ^ 6),
        low u,
        value,
      )
      refl

needs_all : (least u : ℕ) → least ≤ u → shortest least u ≡ (if is_scalar u then some u else none)
needs_all least u h = rw (le→leb least u h) refl

-- Every number below 2 ^ 21 that is a code point, and not half of a surrogate pair, is converted to
-- its UTF-8, in as few bytes as it fits. The others are converted to what is not UTF-8.
pub scalar_of_utf8-convert_unicode_to_utf8 :
    (unicode : ℕ)
    → unicode < 2 ^ 21
    → scalar_of_utf8 (convert_unicode_to_utf8 unicode)
      ≡ (if is_scalar unicode then some unicode else none)
unfolding convert_unicode_to_utf8
scalar_of_utf8-convert_unicode_to_utf8 unicode h = elim (Bool-cases (leb unicode 0x7f)) [
  | inl e ↦ rw (convert_unicode_to_utf8, e, scalar_of_utf8, e) (ground (arith, e))
  | inr e ↦ elim (Bool-cases (leb unicode 0x7ff)) [
    | inl f ↦
        rw (convert_unicode_to_utf8, e, f)
          (two unicode (leb→le _ _ f) ∙ needs_all 0x80 unicode (leb→gt unicode 0x7f e))
    | inr f ↦ elim (Bool-cases (leb unicode 0xffff)) [
      | inl g ↦
          rw (convert_unicode_to_utf8, e, f, g)
            (three unicode (leb→le _ _ g) ∙ needs_all 0x800 unicode (leb→gt unicode 0x7ff f))
      | inr g ↦
          rw (convert_unicode_to_utf8, e, f, g, le→leb unicode 0x1fffff (omega (arith, h)))
            (four unicode h ∙ needs_all 0x10000 unicode (leb→gt unicode 0xffff g))
    ]
  ]
]
