-- ===== src/Suggestions/Letters.antt =====
-- The tests on letters of src/skk/yaskkserv2/request.rs against code points.
use yaskkserv.Prelude.{
  ℕ, ◌+◌, ◌-◌, ◌*◌, ◌%◌, ◌≤◌, ◌≡◌, refl, ap, ◌↔◌, inl, inr, Bool, true, ◌||◌, List, [], ◌∷◌, arith,
  Bool-cases, Bytes, within, length, All,
}
use yaskkserv.Suggestions.{
  is_utf8_hiragana, is_utf8_katakana, is_utf8_hankaku_katakana, all_letters, letters_only,
}

-- The code point of three bytes of UTF-8.
abbrev pub code_point : ℕ → ℕ → ℕ → ℕ
code_point l0 l1 l2 = (l0 - 0xe0) * 4096 + (l1 - 0x80) * 64 + (l2 - 0x80)

abbrev pub IsThreeBytes : ℕ → ℕ → ℕ → Type 0
IsThreeBytes l0 l1 l2 =
    (0xe0 ≤ l0) × (l0 ≤ 0xef) × (0x80 ≤ l1) × (l1 ≤ 0xbf) × (0x80 ≤ l2) × (l2 ≤ 0xbf)

-- For three bytes of UTF-8 the tests accept exactly these ranges: U+3041 to U+3093 and U+309B to
-- U+309E for hiragana, U+30A1 to U+30F6 and U+30FB to U+30FE for katakana, and U+FF61 to U+FF9F for
-- half-width katakana.
pub letters-code_point :
    (l0 l1 l2 : ℕ)
    → IsThreeBytes l0 l1 l2
    → (is_utf8_hiragana l0 l1 l2 ≡ (
        within 0x3041 0x3093 (code_point l0 l1 l2) || within 0x309b 0x309e (code_point l0 l1 l2)))
      × (is_utf8_katakana l0 l1 l2 ≡ (
          within 0x30a1 0x30f6 (code_point l0 l1 l2) || within 0x30fb 0x30fe (code_point l0 l1 l2)))
      × (is_utf8_hankaku_katakana l0 l1 l2 ≡ within 0xff61 0xff9f (code_point l0 l1 l2))
unfolding is_utf8_hiragana is_utf8_katakana is_utf8_hankaku_katakana
letters-code_point l0 l1 l2 h = (ground (arith, h), ground (arith, h), ground (arith, h))

-- Letters written one after the other.
abbrev pub spelled : List (ℕ × ℕ × ℕ) → Bytes
spelled [] = []
spelled ((l0, l1, l2) ∷ rest) = l0 ∷ l1 ∷ l2 ∷ spelled rest

abbrev pub IsLetterOf : (ℕ → ℕ → ℕ → Bool) → ℕ × ℕ × ℕ → Type 0
IsLetterOf test (l0, l1, l2) = test l0 l1 l2 ≡ true

abbrev pub IsSpelledBy : (ℕ → ℕ → ℕ → Bool) → Bytes → Type 0
IsSpelledBy test candidate =
    (letters : List (ℕ × ℕ × ℕ)) × (candidate ≡ spelled letters) × All (IsLetterOf test) letters

spelled_forth :
    (test : ℕ → ℕ → ℕ → Bool) (candidate : Bytes)
    → length candidate % 3 ≡ 0
    → all_letters test candidate ≡ true
    → IsSpelledBy test candidate
unfolding all_letters
spelled_forth test [] h k = ([], refl, tt)
spelled_forth test (a ∷ []) h k = absurd (omega (arith, h))
spelled_forth test (a ∷ b ∷ []) h k = absurd (omega (arith, h))
spelled_forth test (a ∷ b ∷ c ∷ rest) h k = elim (Bool-cases (test a b c)) [
  | inl e ↦
      let (letters, same, all) = spelled_forth test rest (omega (arith, h)) (rw e at k) in
      ((a, b, c) ∷ letters, ap (λ t. a ∷ b ∷ c ∷ t) same, (e, all))
  | inr e ↦ cc (rw e at k)
]

spelled_back :
    (test : ℕ → ℕ → ℕ → Bool) (letters : List (ℕ × ℕ × ℕ))
    → All (IsLetterOf test) letters
    → (length (spelled letters) % 3 ≡ 0) × (all_letters test (spelled letters) ≡ true)
unfolding all_letters
spelled_back test [] h = (omega arith, refl)
spelled_back test ((a, b, c) ∷ rest) h =
    let (l, k) = spelled_back test rest h.1 in (omega (arith, l), rw h.0 k)

-- A candidate is of one kind of letters only exactly where it is not empty and is spelled by such
-- letters.
pub letters_only_iff :
    (test : ℕ → ℕ → ℕ → Bool) (candidate : Bytes)
    → (letters_only test candidate ≡ true) ↔ ((1 ≤ length candidate) × IsSpelledBy test candidate)
unfolding letters_only
letters_only_iff test candidate = (forth, back)
  where
    forth : letters_only test candidate ≡ true → (1 ≤ length candidate) × IsSpelledBy test candidate
    forth h =
        (ground (arith, h), spelled_forth test candidate (ground (arith, h)) (ground (arith, h)))

    back : (1 ≤ length candidate) × IsSpelledBy test candidate → letters_only test candidate ≡ true
    back (long, (letters, same, all)) =
        let (l, k) = spelled_back test letters all in
        let whole : length candidate % 3 ≡ 0 = rw same l in
        let accepted : all_letters test candidate ≡ true = rw same k in
        ground (arith, long, whole, accepted)
