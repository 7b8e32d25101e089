-- ===== src/Suggestions.antt =====
-- What src/skk/yaskkserv2/request.rs takes from an answer of Google: the tests on letters, and the
-- candidates of the parsed JSON. The crate json is an interface. `letter[i..i + 3]` is read three
-- bytes at a time, behind the test that the length is a multiple of three.
pub mod Letters
pub mod Kinds
pub mod Limits
mod Tests
use yaskkserv.Prelude.{
  ℕ, ◌%◌, Bool, true, false, not, ◌&&◌, ◌||◌, Option, none, some, List, [], ◌∷◌, ◌++◌, ltb, ◌==◌,
  if◌then◌else◌, Bytes, within, length, take,
}

unfoldable pub is_utf8_hiragana : ℕ → ℕ → ℕ → Bool
is_utf8_hiragana l0 l1 l2 =
    if not (l0 == 0xe3)
    then false
    else if l1 == 0x81
    then within 0x81 0xbf l2
    else if l1 == 0x82
    then if within 0x9b 0x9e l2 then true else if not (within 0x80 0x93 l2) then false else true
    else false

unfoldable pub is_utf8_katakana : ℕ → ℕ → ℕ → Bool
is_utf8_katakana l0 l1 l2 =
    if not (l0 == 0xe3)
    then false
    else if l1 == 0x82
    then within 0xa1 0xbf l2
    else if l1 == 0x83
    then if within 0xbb 0xbe l2 then true else if not (within 0x80 0xb6 l2) then false else true
    else false

unfoldable pub is_utf8_hankaku_katakana : ℕ → ℕ → ℕ → Bool
is_utf8_hankaku_katakana l0 l1 l2 =
    if not (l0 == 0xef)
    then false
    else if l1 == 0xbd
    then within 0xa1 0xbf l2
    else if l1 == 0xbe
    then if not (within 0x80 0x9f l2) then false else true
    else false

-- The loop over the letters. Fewer than three bytes are not left behind the test of the length.
unfoldable pub all_letters : (ℕ → ℕ → ℕ → Bool) → Bytes → Bool
all_letters test (l0 ∷ l1 ∷ l2 ∷ rest) =
    let later = all_letters test rest in if not (test l0 l1 l2) then false else later
all_letters test _ = true

unfoldable pub letters_only : (ℕ → ℕ → ℕ → Bool) → Bytes → Bool
letters_only test candidate =
    if not (length candidate % 3 == 0) || ltb (length candidate) 3
    then false
    else all_letters test candidate

abbrev pub is_utf8_hiragana_only : Bytes → Bool
is_utf8_hiragana_only = letters_only is_utf8_hiragana

abbrev pub is_utf8_katakana_only : Bytes → Bool
is_utf8_katakana_only = letters_only is_utf8_katakana

abbrev pub is_utf8_hankaku_katakana_only : Bytes → Bool
is_utf8_hankaku_katakana_only = letters_only is_utf8_hankaku_katakana

-- Whether the last byte is no letter a to z; not for an empty midashi.
unfoldable pub should_add_tail_candidates : Bytes → Bool
should_add_tail_candidates [] = false
should_add_tail_candidates (b ∷ []) = not (within b'a' b'z' b)
should_add_tail_candidates (b ∷ c ∷ rest) = should_add_tail_candidates (c ∷ rest)

-- `is_insert_hiragana_only_candidate` and its two kin.
pub record Inserts : Type 0 where
  pub hiragana : Bool
  pub katakana : Bool
  pub hankaku_katakana : Bool

unfoldable pub should_add : List Bytes → Inserts → Bool
should_add [] inserts = true
should_add (candidate ∷ candidates) inserts =
    let later = should_add candidates inserts in
    if not inserts.hiragana && is_utf8_hiragana_only candidate
    then false
    else if not inserts.katakana && is_utf8_katakana_only candidate
    then false
    else if not inserts.hankaku_katakana && is_utf8_hankaku_katakana_only candidate
    then false
    else later

-- `JsonValue`: `json[i]`, `members()`, `len()`, and the bytes of `as_str()`.
pub record Json (J : Type 0) : Type 0 where
  pub at : J → ℕ → J
  pub members : J → List J
  pub len : J → ℕ
  pub as_str : J → Option Bytes

abbrev for_each {ℓ κ} : {A : Type ℓ} {B : Type κ} → List A → (A → List B) → List B
for_each [] body = []
for_each (a ∷ rest) body = body a ++ for_each rest body

module _ {J : Type 0} (json_crate : Json J) where
  -- The members that are strings.
  abbrev strings : List J → List Bytes
  strings [] = []
  strings (u ∷ us) = elim (json_crate.as_str u) [ none ↦ strings us | some b ↦ b ∷ strings us ]

  abbrev candidates_of : J → ℕ → List Bytes
  candidates_of value i = strings (json_crate.members (json_crate.at (json_crate.at value i) 1))

  abbrev midashi_of : J → ℕ → Option Bytes
  midashi_of value i = json_crate.as_str (json_crate.at (json_crate.at value i) 0)

  -- One combination, added unless a part of it is refused; `tail` is the last part.
  abbrev add : List Bytes → Bytes → Bytes → Bytes → Inserts → List Bytes
  add parts front tail midashi_tail inserts =
      if should_add parts inserts
      then (if should_add_tail_candidates midashi_tail then front ++ tail else front) ∷ []
      else []

  unfoldable pub get_google_japanese_input_result_2 : J → Inserts → List Bytes
  get_google_japanese_input_result_2 value inserts = elim (midashi_of value 1) [
    | none ↦ []
    | some midashi_tail ↦ for_each (candidates_of value 0) (λ b0.
        for_each (candidates_of value 1) (λ b1. add (b0 ∷ b1 ∷ []) b0 b1 midashi_tail inserts))
  ]

  unfoldable pub get_google_japanese_input_result_3 : J → Inserts → List Bytes
  get_google_japanese_input_result_3 value inserts = elim (midashi_of value 2) [
    | none ↦ []
    | some midashi_tail ↦ for_each (candidates_of value 0) (λ b0.
        for_each (candidates_of value 1) (λ b1.
          for_each (candidates_of value 2)
            (λ b2. add (b0 ∷ b1 ∷ b2 ∷ []) (b0 ++ b1) b2 midashi_tail inserts)))
  ]

  unfoldable pub get_google_japanese_input_result_4 : J → Inserts → List Bytes
  get_google_japanese_input_result_4 value inserts = elim (midashi_of value 3) [
    | none ↦ []
    | some midashi_tail ↦ for_each (candidates_of value 0) (λ b0.
        for_each (candidates_of value 1) (λ b1. for_each (candidates_of value 2) (λ b2.
          for_each (candidates_of value 3)
            (λ b3. add (b0 ∷ b1 ∷ b2 ∷ b3 ∷ []) (b0 ++ b1 ++ b2) b3 midashi_tail inserts))))
  ]

  unfoldable pub all_results : J → Inserts → List Bytes
  all_results value inserts =
      if json_crate.len value == 2
      then get_google_japanese_input_result_2 value inserts
      else if json_crate.len value == 3
      then get_google_japanese_input_result_3 value inserts
      else if json_crate.len value == 4
      then get_google_japanese_input_result_4 value inserts
      else for_each (candidates_of value 0)
          (λ bytes. if should_add (bytes ∷ []) inserts then bytes ∷ [] else [])

  unfoldable pub get_google_japanese_input_result : J → ℕ → Inserts → List Bytes
  get_google_japanese_input_result value max_candidates_length inserts =
      let result = all_results value inserts in
      if ltb max_candidates_length (length result)
      then take max_candidates_length result
      else result
