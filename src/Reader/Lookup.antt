-- ===== src/Reader/Lookup.antt =====
-- `read_candidates` and `read_abbrev` of src/skk/yaskkserv2/dictionary_reader.rs.
use yaskkserv.Prelude.{
  ℕ, Bool, true, false, ◌&&◌, ◌||◌, Option, none, some, [], ◌∷◌, ◌++◌, ltb, if◌then◌else◌, Bytes,
  length, Result, ◌>>=◌, ◌>>◌, ok, err, panic, out_of_fuel,
}
use yaskkserv.Substrings.{TwoWay, slice_from}
use yaskkserv.DictionaryFiles.{File, DictionaryFile}
use yaskkserv.Midashi.{
  OnMemory, from_u32, get_midashi, get_dictionary_midashi_key, get_block_information_vectors,
}
use yaskkserv.Encoding.{Tables}
use yaskkserv.BlockSearch.{Informations}
use yaskkserv.Reader.{is_empty_candidates, read_dictionary_for_read_candidates}
use yaskkserv.Reader.Google.{Services, Settings, read_google_candidates}
use yaskkserv.Reader.Completions.{read_dictionary_for_read_abbrev}

pub data GoogleTiming : Type 0 where
  not_found disable first last : GoogleTiming

abbrev pub is_first : GoogleTiming → Bool
is_first first = true
is_first _ = false

abbrev pub is_last : GoogleTiming → Bool
is_last last = true
is_last _ = false

abbrev pub is_not_found : GoogleTiming → Bool
is_not_found not_found = true
is_not_found _ = false

-- What a `DictionaryReader` reads: its fields, the conversion tables, and what it calls.
pub record Environment : Type 0 where
  pub two_way : TwoWay
  pub file : File
  pub tables : Tables
  pub services : Services
  pub on_memory : OnMemory
  pub google_timing : GoogleTiming
  pub is_google_cache_enabled : Bool
  pub is_google_suggest_enabled : Bool
  pub max_server_completions : ℕ

abbrev settings : Environment → Settings
settings env = record {
  is_google_cache_enabled = env.is_google_cache_enabled;
  is_google_suggest_enabled = env.is_google_suggest_enabled;
  encoding = env.on_memory.encoding;
}

-- `let _ignore_error_and_continue = …`.
abbrev ignore_error : Result (Unit {0}) → Result (Unit {0})
ignore_error (ok u) = ok u
ignore_error (err e) = ok tt
ignore_error panic = panic
ignore_error out_of_fuel = out_of_fuel

module _ (env : Environment) where
  abbrev google_if : Bool → Bytes → Bytes → Result Bytes
  google_if false midashi result = ok result
  google_if true midashi result =
      let (outcome, result') =
        read_google_candidates env.tables (settings env) env.services midashi result in
      ignore_error outcome >> ok result'

  -- The part that reads the dictionary.
  unfoldable pub look_up :
      Bytes → Option Informations → DictionaryFile → Bytes → Result Bytes × DictionaryFile
  look_up midashi none d result = (ok result, d)
  look_up midashi (some informations) d result =
      read_dictionary_for_read_candidates env.two_way env.file midashi informations
        env.on_memory.blocks_offset d result

  -- What stands before the reading of the dictionary: the midashi, the blocks, the result so far.
  unfoldable pub prepare : Bool → Bytes → Result (Bytes × Option Informations × Bytes)
  prepare google midashi_buffer = do
    midashi ← get_midashi midashi_buffer
    unprefixed ← slice_from midashi_buffer 1
    key ← get_dictionary_midashi_key unprefixed
    result ← google_if google midashi (b'1' ∷ [])
    informations ← get_block_information_vectors env.on_memory key
    ok (midashi, informations, result)

  unfoldable pub read_candidates : Bytes → DictionaryFile → Result Bytes × DictionaryFile
  read_candidates midashi_buffer d = elim (prepare (is_first env.google_timing) midashi_buffer) [
    | err e ↦ (err e, d)
    | panic ↦ (panic, d)
    | out_of_fuel ↦ (out_of_fuel, d)
    | ok (midashi, informations, result) ↦
        let (looked_up, d') = look_up midashi informations d result in
        (
          looked_up >>= (λ result'.
              google_if
                (is_last env.google_timing
                  || (is_not_found env.google_timing && is_empty_candidates result'))
                midashi result'),
          d',
        )
  ]

  abbrev close : Bytes → Bytes
  close result = if ltb 1 (length result) then result ++ b'/' ∷ [] else result

  unfoldable pub complete :
      Bytes → Option Informations → DictionaryFile → Bytes → Result Bytes × DictionaryFile
  complete midashi none d result = (ok result, d)
  complete midashi (some informations) d result = elim (from_u32 env.on_memory.encoding) [
    | ok coding ↦
        read_dictionary_for_read_abbrev env.two_way env.tables env.file midashi informations
          env.on_memory.blocks_offset d result env.max_server_completions coding
    | err e ↦ (err e, d)
    | panic ↦ (panic, d)
    | out_of_fuel ↦ (out_of_fuel, d)
  ]

  unfoldable pub read_abbrev : Bytes → DictionaryFile → Result Bytes × DictionaryFile
  read_abbrev midashi_buffer d = elim (prepare false midashi_buffer) [
    | err e ↦ (err e, d)
    | panic ↦ (panic, d)
    | out_of_fuel ↦ (out_of_fuel, d)
    | ok (midashi, informations, result) ↦
        let (completed, d') = complete midashi informations d result in
        (completed >>= (λ result'. ok (close result')), d')
  ]
