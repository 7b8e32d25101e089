-- ===== src/Creation/Blocks.antt =====
-- Splitting the entries of a key into blocks: `get_max_entry_length` and
-- `get_dictionary_block_informations` of
-- src/skk/yaskkserv2_make_dictionary/dictionary_creator.rs. Each round of either loop moves
-- `offset`, so that the length of the buffer is fuel enough. The searches of the `twoway` crate are
-- arguments.
pub mod Entries
pub mod Longest
pub mod Runs
pub mod Sorted
pub mod Found
pub mod Placed
mod Tests
use yaskkserv.Prelude.{
  ℕ, zero, suc, ◌+◌, ◌-◌, ◌*◌, Bool, false, ◌&&◌, ◌||◌, Option, none, some, [], ◌∷◌, ◌++◌, reverse,
  ltb, leb, ◌==◌, if◌then◌else◌, Bytes, length, replicate, Result, ◌>>=◌, ◌>>◌, ok_or, jisyo_read,
  ok, err, out_of_fuel,
}
use yaskkserv.Substrings.{TwoWay, TwoWayBack, slice, slice_from}
use yaskkserv.BlockSearch.{DictionaryBlockInformation, Informations}
use yaskkserv.Creation.IndexData.{u32}
use yaskkserv.Creation.Layout.{get_block_aligned_length}

abbrev pub dictionary_block_unit_length : ℕ
dictionary_block_unit_length = 2 * 1024

-- The loop, with the rest of the buffer behind the line feed at `offset`.
unfoldable pub max_entry_length_loop : TwoWay → ℕ → Bytes → ℕ → ℕ → Result ℕ
max_entry_length_loop w zero buffer offset max_entry_length = out_of_fuel
max_entry_length_loop w (suc fuel) buffer offset max_entry_length = do
  rest ← slice_from buffer (offset + 1)
  elim (w.find_bytes rest (b'\n' ∷ [])) [
    | none ↦ err jisyo_read
    | some find ↦
        let length' = 1 + find + 1 in
        let max_entry_length' =
          if ltb max_entry_length length' then length' else max_entry_length in
        let rest' = max_entry_length_loop w fuel buffer (offset + find + 1) max_entry_length' in
        if 1 + offset + find + 1 == length buffer then ok max_entry_length' else rest'
  ]

unfoldable pub get_max_entry_length : TwoWay → Bytes → Result ℕ
get_max_entry_length w buffer = max_entry_length_loop w (length buffer) buffer 0 0

abbrev is_found_at : Option ℕ → ℕ → Bool
is_found_at none offset = false
is_found_at (some rfind) offset = rfind == offset

-- `push(b'\n')`, then `b'X'` up to the aligned length.
unfoldable pub padded : Bytes → Bytes
padded aligned_block =
    let block = aligned_block ++ b'\n' ∷ [] in
    block ++ replicate (get_block_aligned_length (u32 (length block)) - length block) b'X'

-- The loop. What it ends with is the aligned block and the informations, which are then reversed.
unfoldable pub informations_loop :
    TwoWay
    → TwoWayBack
    → ℕ
    → Bytes
    → ℕ
    → ℕ
    → ℕ
    → Informations
    → Bytes
    → Result (Bytes × Informations)
informations_loop w wb zero block_buffer blocks_len max_entry_length offset informations
      aligned_block =
    out_of_fuel
informations_loop w wb (suc fuel) block_buffer blocks_len max_entry_length offset informations
      aligned_block =
    do
      tail ← slice_from block_buffer offset
      find ← ok_or (w.find_bytes tail (b' ' ∷ [])) jisyo_read
      let is_end = leb (length block_buffer) (offset + dictionary_block_unit_length)
      let unit = if is_end then length block_buffer - offset else dictionary_block_unit_length
      head ← slice block_buffer 0 (offset + unit)
      let is_long = is_found_at (wb.rfind_bytes head (b'\n' ∷ [])) offset
      let unit_length = if is_long then max_entry_length else unit
      let should_break = is_end || (is_long && length block_buffer == max_entry_length)
      head' ← slice block_buffer 0 (offset + unit_length)
      rfind ← ok_or (wb.rfind_bytes head' (b'\n' ∷ [])) jisyo_read
      part ← slice block_buffer offset rfind
      midashi ← slice block_buffer (offset + 1) (offset + find)
      let informations' =
          informations
          ++ record {
            midashi = midashi;
            offset = u32 (blocks_len + offset);
            length = u32 (rfind + 1 - offset);
          }
            ∷ []
      let rest =
          informations_loop w wb fuel block_buffer blocks_len max_entry_length rfind informations'
            (aligned_block ++ part)
      (if should_break then ok (padded (aligned_block ++ part), informations') else rest)

-- The vector is reversed, so that the search goes from its front.
unfoldable pub get_dictionary_block_informations :
    TwoWay → TwoWayBack → Bytes → ℕ → Bytes → Result (Bytes × Informations)
get_dictionary_block_informations w wb block_buffer blocks_len aligned_block = do
  max_entry_length ← get_max_entry_length w block_buffer
  (aligned_block', informations) ←
      informations_loop w wb (length block_buffer) block_buffer blocks_len max_entry_length 0 []
        aligned_block
  ok (aligned_block', reverse informations)
