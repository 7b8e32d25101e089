-- ===== src/Encoding/Detect.antt =====
-- `detect_encoding` of src/skk/encoding_simple.rs. An `i32` is the number below 2 ^ 32 of its bits,
-- and its arithmetic wraps, as it does where overflow is not checked. Below three bytes
-- `buffer.len() - 3` overflows: the subtraction panics where it is checked, and the reads after it
-- do where it wraps.
pub mod Utf8
use yaskkserv.Prelude.{
  ℕ, ◌+◌, ◌-◌, ◌/◌, ◌%◌, ◌^◌, Bool, true, false, not, ◌&&◌, Option, none, some, ◌∷◌, ltb, ◌==◌,
  if◌then◌else◌, Bytes, codes, within, length, Result, encoding, ok, err, panic,
}
use yaskkserv.Substrings.{TwoWay}
use yaskkserv.Midashi.{Encoding, euc, utf8}

pub data EncodingOptions : Type 0 where
  bom no_options : EncodingOptions

-- What the bytes at the index are: the branches of the loop.
pub data Kind : Type 0 where
  two three four ascii invalid : Kind

abbrev pub is_continuation : ℕ → Bool
is_continuation c = within 0x80 0xbf c

abbrev pub kind : ℕ → ℕ → ℕ → ℕ → Kind
kind buffer_0 buffer_1 buffer_2 buffer_3 =
    if within 0xc2 0xdf buffer_0 && is_continuation buffer_1
    then two
    else if within 0xe0 0xef buffer_0 && is_continuation buffer_1 && is_continuation buffer_2
    then three
    else if within 0xf0 0xf7 buffer_0
        && is_continuation buffer_1
        && is_continuation buffer_2
        && is_continuation buffer_3
    then four
    else if within 0x01 0x7f buffer_0
    then ascii
    else invalid

-- The bits of a number as an `i32`: `as i32`, and the wrap of a sum.
abbrev pub i32 : ℕ → ℕ
i32 n = n % 2 ^ 32

-- `a < b`: the numbers of 2 ^ 31 and more are the negative ones.
abbrev pub i32_lt : ℕ → ℕ → Bool
i32_lt a b = ltb (i32 (a + 2 ^ 31)) (i32 (b + 2 ^ 31))

-- `-a`, `a - b` and `a.abs()`.
abbrev pub i32_neg : ℕ → ℕ
i32_neg a = i32 (2 ^ 32 - a)

abbrev pub i32_sub : ℕ → ℕ → ℕ
i32_sub a b = i32 (a + (2 ^ 32 - b))

abbrev pub i32_abs : ℕ → ℕ
i32_abs a = if ltb a (2 ^ 31) then a else i32_neg a

-- `a / n` for a small positive n, which rounds towards zero.
abbrev pub i32_div : ℕ → ℕ → ℕ
i32_div a n = if ltb a (2 ^ 31) then a / n else i32_neg (i32_neg a / n)

-- The loop over what is left from the index: the counts of what is UTF-8 and of what is not. It
-- goes on while more than three bytes are left.
unfoldable pub count_valid : Bytes → ℕ → ℕ → ℕ × ℕ
count_valid (b0 ∷ b1 ∷ b2 ∷ b3 ∷ rest) valid invalid' = elim (kind b0 b1 b2 b3) [
  | two ↦ count_valid (b2 ∷ b3 ∷ rest) (i32 (valid + 1)) invalid'
  | three ↦ count_valid (b3 ∷ rest) (i32 (valid + 1)) invalid'
  | four ↦ count_valid rest (i32 (valid + 1)) invalid'
  | ascii ↦ count_valid (b1 ∷ b2 ∷ b3 ∷ rest) valid invalid'
  | invalid ↦ count_valid (b1 ∷ b2 ∷ b3 ∷ rest) valid (i32 (invalid' + 1))
]
count_valid _ valid invalid' = (valid, invalid')

abbrev pub has_bom : Bytes → Bool
has_bom (b0 ∷ b1 ∷ b2 ∷ _ ∷ _) = b0 == 0xef && b1 == 0xbb && b2 == 0xbf
has_bom _ = false

abbrev is_some : Option ℕ → Bool
is_some (some _) = true
is_some none = false

-- The choice where the counts are near each other.
abbrev ambiguous : TwoWay → Bytes → ℕ → ℕ → Result (Encoding × EncodingOptions)
ambiguous w buffer valid invalid' =
    if is_some (w.find_bytes buffer (codes "coding: euc-"))
    then ok (euc, no_options)
    else if is_some (w.find_bytes buffer (codes "coding: utf-8"))
    then ok (utf8, no_options)
    else let thousandth = i32_div (i32 (length buffer)) 1000 in
      let near_zero_threshold = if i32_lt thousandth 1000 then thousandth else 1000 in
      if not (i32_lt near_zero_threshold valid) && not (i32_lt near_zero_threshold invalid')
      then ok (euc, no_options)
      else err encoding

unfoldable pub detect_encoding : TwoWay → Bytes → Result (Encoding × EncodingOptions)
detect_encoding w buffer =
    if has_bom buffer
    then ok (utf8, bom)
    else if ltb (length buffer) 3
    then panic
    else let (valid, invalid') = count_valid buffer 0 0 in
      if i32_lt (i32_abs (i32_sub valid invalid')) (i32_div (i32 (length buffer)) 100)
      then ambiguous w buffer valid invalid'
      else if i32_lt invalid' valid
      then ok (utf8, no_options)
      else ok (euc, no_options)
