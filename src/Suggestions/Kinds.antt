-- ===== src/Suggestions/Kinds.antt =====
-- What a candidate of one kind of letters is, by its code points: the tests of
-- src/skk/yaskkserv2/request.rs that refuse such candidates.
use yaskkserv.Prelude.{
  ℕ, ◌≤◌, ◌≡◌, sym, ◌∙◌, ◌↔◌, Bool, true, ◌||◌, List, [], ◌∷◌, arith, Bytes, within, length, All,
}
use yaskkserv.Suggestions.{
  is_utf8_hiragana, is_utf8_katakana, is_utf8_hankaku_katakana, letters_only,
}
use yaskkserv.Suggestions.Letters.{
  IsThreeBytes, code_point, letters-code_point, spelled, IsLetterOf, letters_only_iff,
}

abbrev pub hiragana : ℕ → Bool
hiragana c = within 0x3041 0x3093 c || within 0x309b 0x309e c

abbrev pub katakana : ℕ → Bool
katakana c = within 0x30a1 0x30f6 c || within 0x30fb 0x30fe c

abbrev pub hankaku_katakana : ℕ → Bool
hankaku_katakana c = within 0xff61 0xff9f c

-- Three bytes of UTF-8 with a code point of some kind.
abbrev pub IsLetterIn : (ℕ → Bool) → ℕ × ℕ × ℕ → Type 0
IsLetterIn kind (l0, l1, l2) = IsThreeBytes l0 l1 l2 × (kind (code_point l0 l1 l2) ≡ true)

-- One letter or more, all of them of the kind.
abbrev pub IsWrittenIn : (ℕ → Bool) → Bytes → Type 0
IsWrittenIn kind candidate =
    (1 ≤ length candidate)
    × (letters : List (ℕ × ℕ × ℕ)) × (candidate ≡ spelled letters)
    × All (IsLetterIn kind) letters

-- The test accepts exactly the letters of the kind.
abbrev IsTestOf : (ℕ → ℕ → ℕ → Bool) → (ℕ → Bool) → Type 0
IsTestOf test kind = (letter : ℕ × ℕ × ℕ) → IsLetterOf test letter ↔ IsLetterIn kind letter

hiragana-IsThreeBytes : (l0 l1 l2 : ℕ) → is_utf8_hiragana l0 l1 l2 ≡ true → IsThreeBytes l0 l1 l2
unfolding is_utf8_hiragana
hiragana-IsThreeBytes l0 l1 l2 h = (
  ground (arith, h),
  ground (arith, h),
  ground (arith, h),
  ground (arith, h),
  ground (arith, h),
  ground (arith, h),
)

pub is_utf8_hiragana-IsTestOf : IsTestOf is_utf8_hiragana hiragana
is_utf8_hiragana-IsTestOf (l0, l1, l2) = (
  λ h.
      let three = hiragana-IsThreeBytes l0 l1 l2 h in
      (three, sym (letters-code_point l0 l1 l2 three).0 ∙ h),
  λ h. (letters-code_point l0 l1 l2 h.0).0 ∙ h.1,
)

katakana-IsThreeBytes : (l0 l1 l2 : ℕ) → is_utf8_katakana l0 l1 l2 ≡ true → IsThreeBytes l0 l1 l2
unfolding is_utf8_katakana
katakana-IsThreeBytes l0 l1 l2 h = (
  ground (arith, h),
  ground (arith, h),
  ground (arith, h),
  ground (arith, h),
  ground (arith, h),
  ground (arith, h),
)

pub is_utf8_katakana-IsTestOf : IsTestOf is_utf8_katakana katakana
is_utf8_katakana-IsTestOf (l0, l1, l2) = (
  λ h.
      let three = katakana-IsThreeBytes l0 l1 l2 h in
      (three, sym (letters-code_point l0 l1 l2 three).1 ∙ h),
  λ h. (letters-code_point l0 l1 l2 h.0).1 ∙ h.1,
)

hankaku_katakana-IsThreeBytes :
    (l0 l1 l2 : ℕ) → is_utf8_hankaku_katakana l0 l1 l2 ≡ true → IsThreeBytes l0 l1 l2
unfolding is_utf8_hankaku_katakana
hankaku_katakana-IsThreeBytes l0 l1 l2 h = (
  ground (arith, h),
  ground (arith, h),
  ground (arith, h),
  ground (arith, h),
  ground (arith, h),
  ground (arith, h),
)

pub is_utf8_hankaku_katakana-IsTestOf : IsTestOf is_utf8_hankaku_katakana hankaku_katakana
is_utf8_hankaku_katakana-IsTestOf (l0, l1, l2) = (
  λ h.
      let three = hankaku_katakana-IsThreeBytes l0 l1 l2 h in
      (three, sym (letters-code_point l0 l1 l2 three).2 ∙ h),
  λ h. (letters-code_point l0 l1 l2 h.0).2 ∙ h.1,
)

All-same :
    {P Q : ℕ × ℕ × ℕ → Type 0} (letters : List (ℕ × ℕ × ℕ))
    → ((letter : ℕ × ℕ × ℕ) → P letter → Q letter)
    → All P letters
    → All Q letters
All-same [] f h = tt
All-same (l ∷ ls) f h = (f l h.0, All-same ls f h.1)

pub letters_only-IsWrittenIn :
    (test : ℕ → ℕ → ℕ → Bool) (kind : ℕ → Bool)
    → IsTestOf test kind
    → (candidate : Bytes) → (letters_only test candidate ≡ true) ↔ IsWrittenIn kind candidate
letters_only-IsWrittenIn test kind tests candidate = (forth, back)
  where
    forth : letters_only test candidate ≡ true → IsWrittenIn kind candidate
    forth h =
        let (long, (letters, same, all)) = (letters_only_iff test candidate).0 h in
        (long, letters, same, All-same letters (λ l. (tests l).0) all)

    back : IsWrittenIn kind candidate → letters_only test candidate ≡ true
    back (long, letters, same, all) =
        (letters_only_iff test candidate).1
          (long, (letters, same, All-same letters (λ l. (tests l).1) all))
