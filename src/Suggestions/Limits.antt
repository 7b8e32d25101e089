-- ===== src/Suggestions/Limits.antt =====
-- How many candidates src/skk/yaskkserv2/request.rs takes, and which it refuses.
use yaskkserv.Prelude.{
  ℕ, zero, suc, ◌≤◌, min, ◌≡◌, refl, sym, ap, ◌↔◌, ◌⊎◌, inl, inr, Bool, true, false, not, ◌||◌,
  List, [], ◌∷◌, arith, ltb, Bool-cases, Bytes, length, take, length-take, All,
}
use yaskkserv.Suggestions.Kinds.{
  IsWrittenIn, hiragana, katakana, hankaku_katakana, is_utf8_hiragana-IsTestOf,
  is_utf8_katakana-IsTestOf, is_utf8_hankaku_katakana-IsTestOf, letters_only-IsWrittenIn,
}
use yaskkserv.Suggestions.{
  is_utf8_hiragana, is_utf8_katakana, is_utf8_hankaku_katakana, Json, Inserts, should_add,
  all_results, get_google_japanese_input_result, is_utf8_hiragana_only, is_utf8_katakana_only,
  is_utf8_hankaku_katakana_only,
}

take_all : (n : ℕ) (xs : List Bytes) → length xs ≤ n → take n xs ≡ xs
take_all zero [] h = refl
take_all zero (x ∷ xs) h = absurd (omega (arith, h))
take_all (suc n) [] h = refl
take_all (suc n) (x ∷ xs) h = ap (◌∷◌ x) (take_all n xs (omega (arith, h)))

module _ {J : Type 0} (json_crate : Json J) where
  -- The result is a front of all the candidates, of the length asked for where there are as many,
  -- and all of them otherwise.
  pub get_google_japanese_input_result_lem :
      (value : J) (max_candidates_length : ℕ) (inserts : Inserts)
      → (get_google_japanese_input_result json_crate value max_candidates_length inserts
          ≡ take max_candidates_length (all_results json_crate value inserts))
        × (length (get_google_japanese_input_result json_crate value max_candidates_length inserts)
            ≡ min max_candidates_length (length (all_results json_crate value inserts)))
  unfolding get_google_japanese_input_result
  get_google_japanese_input_result_lem value n inserts =
      let result : List Bytes = all_results json_crate value inserts in
      elim (Bool-cases (ltb n (length result))) [
        | inl e ↦ rw e (refl, length-take n result)
        | inr e ↦ rw e (sym (take_all n result (ground (arith, e))), ground (arith, e))
      ]

-- The kind is inserted, or the candidate is not written in it.
abbrev pub IsLeft : Bool → (ℕ → Bool) → Bytes → Type 0
IsLeft inserted kind candidate = (inserted ≡ true) ⊎ ¬ IsWrittenIn kind candidate

abbrev pub IsWanted : Inserts → Bytes → Type 0
IsWanted inserts candidate =
    IsLeft inserts.hiragana hiragana candidate
    × IsLeft inserts.katakana katakana candidate
    × IsLeft inserts.hankaku_katakana hankaku_katakana candidate

guard-IsLeft :
    (inserted only : Bool) (kind : ℕ → Bool) (candidate : Bytes)
    → (only ≡ true) ↔ IsWrittenIn kind candidate
    → ((inserted || not only) ≡ true) ↔ IsLeft inserted kind candidate
guard-IsLeft true only kind candidate (forth, back) = (λ _. inl refl, λ _. refl)
guard-IsLeft false true kind candidate (forth, back) =
    (λ h. cc, λ h. elim h [ inl k ↦ cc k | inr k ↦ absurd (k (forth refl)) ])
guard-IsLeft false false kind candidate (forth, back) = (λ _. inr (λ h. cc (back h)), λ _. refl)

-- Candidates are added exactly where none of them is written only in a kind of letters that is left
-- out: in hiragana, in katakana, or in half-width katakana, by the code points of its letters.
pub should_add_iff :
    (candidates : List Bytes) (inserts : Inserts)
    → (should_add candidates inserts ≡ true) ↔ All (IsWanted inserts) candidates
unfolding should_add
should_add_iff [] inserts = (λ _. tt, λ _. refl)
should_add_iff (candidate ∷ candidates) inserts =
    let (forth, back) = should_add_iff candidates inserts in
    let a =
      guard-IsLeft inserts.hiragana (is_utf8_hiragana_only candidate) hiragana candidate
        (letters_only-IsWrittenIn is_utf8_hiragana hiragana is_utf8_hiragana-IsTestOf candidate) in
    let b =
      guard-IsLeft inserts.katakana (is_utf8_katakana_only candidate) katakana candidate
        (letters_only-IsWrittenIn is_utf8_katakana katakana is_utf8_katakana-IsTestOf candidate) in
    let c =
      guard-IsLeft inserts.hankaku_katakana (is_utf8_hankaku_katakana_only candidate)
        hankaku_katakana candidate
        (letters_only-IsWrittenIn is_utf8_hankaku_katakana hankaku_katakana
          is_utf8_hankaku_katakana-IsTestOf candidate) in
    (
      λ h. (
        (a.0 (ground (arith, h)), b.0 (ground (arith, h)), c.0 (ground (arith, h))),
        forth (ground (arith, h)),
      ),
      λ h. ground (arith, a.1 h.0.0, b.1 h.0.1, c.1 h.0.2, back h.1),
    )
