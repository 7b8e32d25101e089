-- ===== src/Reader/Google.antt =====
-- `read_google_candidates` of src/skk/yaskkserv2/dictionary_reader.rs. What it calls of `Request`
-- and of `GoogleCache` is an interface.
use yaskkserv.Prelude.{
  ℕ, ◌⊎◌, inl, inr, Bool, true, false, not, some, List, [], ◌∷◌, ◌++◌, if◌then◌else◌, Bytes,
  SkkError, Result, ◌>>=◌, ok, err, panic, out_of_fuel,
}
use yaskkserv.Candidates.{
  quote_and_add_prefix, slash, trim_one_slash, merge_trimmed_slash_candidates, remove_duplicates,
}
use yaskkserv.Substrings.{slice_from}
use yaskkserv.Midashi.{euc, utf8, from_u32}
use yaskkserv.Encoding.{Tables}
use yaskkserv.Encoding.Decode.{decode}
use yaskkserv.Encoding.Encode.{encode}

-- The requests give an error or candidates; the cache gives candidates, and may fail to be written.
pub record Services : Type 0 where
  pub request_google_japanese_input : Bytes → SkkError ⊎ List Bytes
  pub request_google_suggest : Bytes → SkkError ⊎ List Bytes
  pub get_candidates : Bytes → List Bytes
  pub write_candidates : Bytes → List Bytes → SkkError ⊎ Unit {0}

-- The fields of `Config` that `read_google_candidates` reads, and the encoding of the header.
pub record Settings : Type 0 where
  pub is_google_cache_enabled : Bool
  pub is_google_suggest_enabled : Bool
  pub encoding : ℕ

abbrev unwrap_or_default : SkkError ⊎ List Bytes → List Bytes
unwrap_or_default (inl e) = []
unwrap_or_default (inr candidates) = candidates

-- `?`.
abbrev try {ℓ} : {A : Type ℓ} → SkkError ⊎ A → Result A
try (inl e) = err e
try (inr a) = ok a

abbrev is_empty : List Bytes → Bool
is_empty [] = true
is_empty (u ∷ us) = false

module _ (tables : Tables) (settings : Settings) (services : Services) where
  -- `google_utf8_candidates`.
  unfoldable pub find_candidates : Bytes → Result (List Bytes)
  find_candidates utf8_midashi =
      let cached =
        if settings.is_google_cache_enabled then services.get_candidates utf8_midashi else [] in
      if not (is_empty cached)
      then ok cached
      else if settings.is_google_suggest_enabled
      then ok (
          remove_duplicates (
            unwrap_or_default (services.request_google_japanese_input utf8_midashi)
            ++ unwrap_or_default (services.request_google_suggest utf8_midashi)))
      else try (services.request_google_japanese_input utf8_midashi)
        >>= (λ candidates. ok (remove_duplicates candidates))

  abbrev pub quote_all : List Bytes → Bytes
  quote_all [] = []
  quote_all (u ∷ us) = quote_and_add_prefix u (some slash) ++ quote_all us

  -- `new_result`.
  unfoldable pub merge_result : List Bytes → Bytes → Result Bytes
  merge_result candidates result = do
    base ← slice_from result 1
    let new_candidates_bytes = trim_one_slash (quote_all candidates)
    coding ← from_u32 settings.encoding
    elim coding [
      | euc ↦ elim (encode tables new_candidates_bytes) [
        | ok encoded ↦ ok (b'1' ∷ merge_trimmed_slash_candidates (trim_one_slash base) encoded)
        | err e ↦ err SkkError.request
        | panic ↦ panic
        | out_of_fuel ↦ out_of_fuel
      ]
      | utf8 ↦ ok (b'1' ∷ merge_trimmed_slash_candidates (trim_one_slash base) new_candidates_bytes)
    ]

  -- What it returns, and the result that it leaves.
  unfoldable pub read_google_candidates : Bytes → Bytes → Result (Unit {0}) × Bytes
  read_google_candidates midashi result = elim (decode tables midashi) [
    | err e ↦ (err e, result)
    | panic ↦ (panic, result)
    | out_of_fuel ↦ (out_of_fuel, result)
    | ok utf8_midashi ↦ elim (find_candidates utf8_midashi) [
      | err e ↦ (err e, result)
      | panic ↦ (panic, result)
      | out_of_fuel ↦ (out_of_fuel, result)
      | ok candidates ↦
          if is_empty candidates
          then (err SkkError.request, result)
          else elim (merge_result candidates result) [
            | err e ↦ (err e, result)
            | panic ↦ (panic, result)
            | out_of_fuel ↦ (out_of_fuel, result)
            | ok new_result ↦ (
              if settings.is_google_cache_enabled
                  then try (services.write_candidates utf8_midashi candidates)
                  else ok tt,
              new_result,
            )
          ]
    ]
  ]
