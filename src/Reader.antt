-- ===== src/Reader.antt =====
-- `DictionaryReader` of src/skk/yaskkserv2/dictionary_reader.rs: the lookup of a midashi and of the
-- midashis that begin with it. `Request` and `GoogleCache` are an interface here, and the log is
-- left out. A `?` that returns early leaves the result as it was.
pub mod Google
pub mod Completions
pub mod Lookup
pub mod Blocks
pub mod Answers
pub mod Tests
use yaskkserv.Prelude.{
  ℕ, ◌+◌, Bool, none, some, [], ◌∷◌, ◌++◌, ◌==◌, if◌then◌else◌, Bytes, length, get_elem?, Result,
  ◌>>=◌, ◌>>◌, broken_dictionary, ok, err, panic, out_of_fuel,
}
use yaskkserv.Candidates.{trim_one_slash, merge_trimmed_slash_candidates, slash}
use yaskkserv.BlockSearch.{Informations, DictionaryBlockInformation, get_block_informations_index}
use yaskkserv.Substrings.{TwoWay, slice, slice_from}
use yaskkserv.DictionaryFiles.{File, DictionaryFile, read}

-- `Yaskkserv2::is_empty_candidates`.
unfoldable pub is_empty_candidates : Bytes → Bool
is_empty_candidates candidates = length candidates == 1

-- The candidates found are put before or merged into the result, whose first byte is `b'1'`.
unfoldable pub add_candidates : Bytes → Bytes → Result Bytes
add_candidates found result =
    if is_empty_candidates result then ok (result ++ slash ∷ found) else (do
      base ← slice_from result 1
      ok (b'1' ∷ merge_trimmed_slash_candidates (trim_one_slash base) (trim_one_slash found)))

-- What is done with a block of the dictionary.
unfoldable pub search_block : TwoWay → Bytes → Bytes → Bytes → Result Bytes
search_block w midashi buffer result =
    let midashi_search_bytes = b'\n' ∷ midashi ++ b' ' ∷ b'/' ∷ [] in
    elim (w.find_bytes buffer midashi_search_bytes) [
      | none ↦ ok result
      | some midashi_find ↦ do
        let candidates_start = midashi_find + length midashi_search_bytes
        rest ← slice_from buffer candidates_start
        elim (w.find_bytes rest (b'\n' ∷ [])) [
          | none ↦ err broken_dictionary
          | some lf_find ↦ do
            found ← slice buffer candidates_start (candidates_start + lf_find)
            add_candidates found result
        ]
    ]

unfoldable pub read_dictionary_for_read_candidates :
    TwoWay
    → File
    → Bytes
    → Informations
    → ℕ
    → DictionaryFile
    → Bytes
    → Result Bytes × DictionaryFile
read_dictionary_for_read_candidates w file midashi informations blocks_offset d result =
    elim (get_block_informations_index midashi informations) [
      | err e ↦ (err e, d)
      | panic ↦ (panic, d)
      | out_of_fuel ↦ (out_of_fuel, d)
      | ok index ↦ elim (get_elem? informations index) [
        | none ↦ (ok result, d)
        | some unit ↦
            let (block, d') = read file (blocks_offset + unit.offset) unit.length d in
            (block >>= (λ buffer. search_block w midashi buffer result), d')
      ]
    ]
