-- ===== src/Suggestions/Tests.antt =====
-- Runs on letters and on a small answer, and the theorems at them.
use yaskkserv.Prelude.{
  ℕ, ◌≡◌, refl, ◌↔◌, true, false, ◌||◌, some, List, [], ◌∷◌, arith, codes, within, take, All,
}
use yaskkserv.Suggestions.{
  Json, Inserts, is_utf8_hiragana, is_utf8_katakana, is_utf8_hankaku_katakana, letters_only,
  should_add, all_results, get_google_japanese_input_result_2, should_add_tail_candidates,
}
use yaskkserv.Suggestions.Letters.{letters-code_point, code_point}
use yaskkserv.Suggestions.Limits.{IsWanted, should_add_iff}

-- A value is its path: the strings are the members of lists, one letter each.
abbrev answer : Json (List ℕ)
answer = record {
  at = λ v i. i ∷ v;
  members = λ v. (b'a' ∷ v) ∷ (b'b' ∷ v) ∷ [];
  len = λ v. 2;
  as_str = λ v. some (take 1 v);
}

abbrev all_kinds : Inserts
all_kinds = record { hiragana = true; katakana = true; hankaku_katakana = true }

abbrev no_hiragana : Inserts
no_hiragana = record { hiragana = false; katakana = true; hankaku_katakana = true }

combines : all_results answer [] all_kinds ≡ codes "aa" ∷ codes "ab" ∷ codes "ba" ∷ codes "bb" ∷ []
unfolding all_results get_google_japanese_input_result_2 should_add should_add_tail_candidates
    letters_only
combines = refl

letters-code_point_example :
    (is_utf8_hiragana 0xe3 0x81 0x82 ≡ (
      within 0x3041 0x3093 (code_point 0xe3 0x81 0x82)
      || within 0x309b 0x309e (code_point 0xe3 0x81 0x82)))
    × (is_utf8_katakana 0xe3 0x81 0x82 ≡ (
        within 0x30a1 0x30f6 (code_point 0xe3 0x81 0x82)
        || within 0x30fb 0x30fe (code_point 0xe3 0x81 0x82)))
    × (is_utf8_hankaku_katakana 0xe3 0x81 0x82 ≡ within 0xff61 0xff9f (code_point 0xe3 0x81 0x82))
letters-code_point_example = letters-code_point 0xe3 0x81 0x82 (omega arith)

should_add_iff_example :
    (should_add ((0xe3 ∷ 0x81 ∷ 0x82 ∷ []) ∷ []) no_hiragana ≡ true)
    ↔ All (IsWanted no_hiragana) ((0xe3 ∷ 0x81 ∷ 0x82 ∷ []) ∷ [])
should_add_iff_example = should_add_iff ((0xe3 ∷ 0x81 ∷ 0x82 ∷ []) ∷ []) no_hiragana
