-- ===== src/Reader/Completions.antt =====
-- `read_dictionary_for_read_abbrev` of src/skk/yaskkserv2/dictionary_reader.rs. The inner loop is
-- on fuel, one more than the length of the block; the outer one is by recursion on its index.
pub mod Fuel
use yaskkserv.Prelude.{
  ℕ, zero, suc, ◌+◌, ◌-◌, Bool, true, false, not, ◌&&◌, none, some, [], ◌∷◌, ◌++◌, ltb, leb, ◌==◌,
  if◌then◌else◌, Bytes, length, get_elem?, Result, ◌>>=◌, ◌>>◌, broken_dictionary, ok, err, panic,
  out_of_fuel,
}
use yaskkserv.Candidates.{quote_and_add_prefix, slash}
use yaskkserv.BlockSearch.{Informations, get_block_informations_index}
use yaskkserv.Substrings.{TwoWay, slice, slice_from, starts_with}
use yaskkserv.DictionaryFiles.{File, DictionaryFile, read}
use yaskkserv.Midashi.{Encoding, euc, utf8, is_okuri_ari}
use yaskkserv.Encoding.{Tables}
use yaskkserv.Encoding.Decode.{decode}

-- `break 'outer` and `break 'inner`.
pub data Break : Type 0 where
  outer_loop inner_loop : Break

-- How a loop is left, `found_count` and `result`.
abbrev pub Found : Type 0
Found = Break × ℕ × Bytes

-- After a round: leave the loop, or go on with `found_count` and `result`.
abbrev pub resume :
    Result Found
    → DictionaryFile
    → (ℕ → Bytes → Result Bytes × DictionaryFile)
    → Result Bytes × DictionaryFile
resume (ok (outer_loop, _, result)) d go_on = (ok result, d)
resume (ok (inner_loop, found_count, result)) d go_on = go_on found_count result
resume (err e) d go_on = (err e, d)
resume panic d go_on = (panic, d)
resume out_of_fuel d go_on = (out_of_fuel, d)

-- What is done with a midashi that is found: whether the maximum is reached, `found_count` and
-- `result`.
unfoldable pub judge : Bytes → ℕ → ℕ → Bytes → Bool × ℕ × Bytes
judge midashi maximum found_count result =
    if not (is_okuri_ari midashi)
    then (
      leb maximum (found_count + 1),
      found_count + 1,
      result ++ quote_and_add_prefix midashi (some slash),
    )
    else (false, found_count, result)

module _ (w : TwoWay) where
  unfoldable pub inner : ℕ → Bytes → Bytes → ℕ → ℕ → ℕ → Bytes → Result Found
  inner zero buffer midashi_search_bytes maximum offset found_count result = out_of_fuel
  inner (suc fuel) buffer midashi_search_bytes maximum offset found_count result = do
    unread ← slice_from buffer offset
    elim (w.find_bytes unread midashi_search_bytes) [
      | none ↦ ok (if found_count == 0 then outer_loop else inner_loop, found_count, result)
      | some midashi_find ↦ do
        let midashi_start = offset + midashi_find + 1
        let space_start = offset + midashi_find + length midashi_search_bytes
        tail ← slice_from buffer space_start
        elim (w.find_bytes tail (b' ' ∷ [])) [
          | none ↦ err broken_dictionary
          | some space_find ↦ do
            midashi ← slice buffer midashi_start (space_start + space_find)
            let judged = judge midashi maximum found_count result
            elim judged.0 [
              | true ↦ ok (outer_loop, judged.1, judged.2)
              | false ↦
                  inner fuel buffer midashi_search_bytes maximum (space_start + space_find) judged.1
                    judged.2
            ]
        ]
    ]

  -- A round of the outer loop up to its step to the block before.
  unfoldable pub visit :
      File
      → Bytes
      → Informations
      → ℕ
      → ℕ
      → ℕ
      → DictionaryFile
      → ℕ
      → Bytes
      → Result Found × DictionaryFile
  visit file midashi informations blocks_offset maximum index d found_count result =
      elim (get_elem? informations index) [
        | none ↦ (panic, d)
        | some unit ↦ elim (ltb 0 found_count && not (starts_with midashi unit.midashi)) [
          | true ↦ (ok (outer_loop, found_count, result), d)
          | false ↦
              let (block, d') = read file (blocks_offset + unit.offset) unit.length d in
              (
                block >>= (λ buffer.
                    inner (length buffer + 1) buffer (b'\n' ∷ midashi) maximum 0 found_count
                      result),
                d',
              )
        ]
      ]

  unfoldable pub outer :
      File
      → Bytes
      → Informations
      → ℕ
      → ℕ
      → ℕ
      → DictionaryFile
      → ℕ
      → Bytes
      → Result Bytes × DictionaryFile
  outer file midashi informations blocks_offset maximum zero d found_count result =
      let (visited, d') =
        visit file midashi informations blocks_offset maximum 0 d found_count result in
      (visited >>= (λ v. ok v.2), d')
  outer file midashi informations blocks_offset maximum (suc index) d found_count result =
      let (visited, d') =
        visit file midashi informations blocks_offset maximum (suc index) d found_count result in
      resume visited d' (λ found_count' result'.
        outer file midashi informations blocks_offset maximum index d' found_count' result')

  -- What is found, in UTF-8 where the dictionary is.
  abbrev decode_result : Tables → Encoding → Bytes → Result Bytes
  decode_result tables euc bytes = ok bytes
  decode_result tables utf8 bytes = decode tables bytes

  unfoldable pub read_dictionary_for_read_abbrev :
      Tables
      → File
      → Bytes
      → Informations
      → ℕ
      → DictionaryFile
      → Bytes
      → ℕ
      → Encoding
      → Result Bytes × DictionaryFile
  read_dictionary_for_read_abbrev tables file midashi informations blocks_offset d result maximum
        coding =
      elim (get_block_informations_index midashi informations) [
        | err e ↦ (err e, d)
        | panic ↦ (panic, d)
        | out_of_fuel ↦ (out_of_fuel, d)
        | ok index ↦
            if leb (length informations) index && index == 0
            then (panic, d)
            else let last = if leb (length informations) index then index - 1 else index in
              let (found, d') =
                outer file midashi informations blocks_offset maximum last d 0 result in
              (found >>= (λ bytes. decode_result tables coding bytes), d')
      ]
