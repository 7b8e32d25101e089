-- ===== src/Loading.antt =====
-- The index of a dictionary file: src/skk/dictionary.rs, `get_joined_midashi`,
-- `update_index_map_and_index_ascii_hiragana_vec` and
-- `create_index_map_and_index_ascii_hiragana_vec`. The file's `seek` and `read_exact` are one
-- argument, as for `DictionaryFile`; a seek beyond the end is allowed, so only `read_exact` fails.
pub mod Units
pub mod Blocks
pub mod Rounds
pub mod Setup
pub mod Validated
pub mod Created
pub mod Complete
pub mod Lookups
mod Tests
use yaskkserv.Prelude.{
  ℕ, zero, suc, ◌+◌, ◌*◌, ◌%◌, ◌^◌, none, some, List, [], ◌∷◌, ltb, leb, ◌==◌, if◌then◌else◌, Bytes,
  split, length, set, replicate, Result, ◌>>=◌, ◌>>◌, assert, io, ok, err, panic,
}
use yaskkserv.Substrings.{slice_from, slice}
use yaskkserv.Midashi.{DictionaryMidashiKey, get_ascii_hiragana_vec_index}
use yaskkserv.BlockSearch.{Informations}
use yaskkserv.DictionaryFiles.{File, Exactly, filled, failed, overwrite}
use yaskkserv.OnDisk.{
  Endian, IndexDataHeaderBlockHeader, heads_from_ne_bytes, offset_length_from_ne_bytes,
  index_header_from_ne_bytes, block_header_from_ne_bytes, dictionary_block_heads_size,
  block_information_offset_length_size, index_data_header_size, index_data_header_block_header_size,
}

-- The two maps that are filled. An insertion into `index_map` stands before what it replaces.
pub record Index : Type 0 where
  pub index_map : List (DictionaryMidashiKey × Informations)
  pub index_ascii_hiragana_vec : List Informations

abbrev pub index_ascii_hiragana_vec_length : ℕ
index_ascii_hiragana_vec_length = 256

abbrev pub empty_index : Index
empty_index = record {
  index_map = [];
  index_ascii_hiragana_vec = replicate index_ascii_hiragana_vec_length [];
}

unfoldable pub insert : DictionaryMidashiKey → Informations → Index → Result Index
insert k informations index = elim (get_ascii_hiragana_vec_index k) [
  | some i ↦
      if ltb i (length index.index_ascii_hiragana_vec)
      then ok (record {
        index_map = index.index_map;
        index_ascii_hiragana_vec = set index.index_ascii_hiragana_vec i informations;
      })
      else panic
  | none ↦ ok (record {
    index_map = (k, informations) ∷ index.index_map;
    index_ascii_hiragana_vec = index.index_ascii_hiragana_vec;
  })
]

unfoldable pub get_joined_midashi : Bytes → ℕ → ℕ → ℕ → Result (List Bytes)
get_joined_midashi buffer buffer_offset informations_length joined_midashi_length =
    let joined_midashi_offset =
      buffer_offset
      + dictionary_block_heads_size
      + informations_length * block_information_offset_length_size in
    slice buffer joined_midashi_offset (joined_midashi_offset + joined_midashi_length) >>= λ joined.
    ok (split b' ' joined)

module _ (e : Endian) where
  -- The loop over the midashis, which are numbered from `i`.
  unfoldable pub read_informations : Bytes → ℕ → ℕ → List Bytes → Result Informations
  read_informations buffer buffer_offset i [] = ok []
  read_informations buffer buffer_offset i (midashi ∷ midashis) = do
    bytes ←
        slice_from buffer
          (buffer_offset + dictionary_block_heads_size + i * block_information_offset_length_size)
    b ← offset_length_from_ne_bytes e bytes
    informations ← read_informations buffer buffer_offset (i + 1) midashis
    ok (record { midashi = midashi; offset = b.offset; length = b.length } ∷ informations)

  -- A round of the loop over the units: the next `buffer_offset`, and the maps.
  unfoldable pub read_unit : Bytes → ℕ → Index → Result (ℕ × Index)
  read_unit buffer buffer_offset index = do
    bytes ← slice_from buffer buffer_offset
    heads ← heads_from_ne_bytes e bytes
    joined_midashi ←
        get_joined_midashi buffer buffer_offset heads.information_length
          heads.information_midashi_length
    assert (length joined_midashi == heads.information_length)
    informations ← read_informations buffer buffer_offset 0 joined_midashi
    index' ← insert heads.dictionary_midashi_key informations index
    ok (
      buffer_offset
          + (dictionary_block_heads_size
              + heads.information_length * block_information_offset_length_size
              + heads.information_midashi_length),
      index',
    )

  unfoldable pub read_units : ℕ → Bytes → ℕ → Index → Result Index
  read_units zero buffer buffer_offset index = ok index
  read_units (suc rest) buffer buffer_offset index = do
    (buffer_offset', index') ← read_unit buffer buffer_offset index
    read_units rest buffer buffer_offset' index'

  unfoldable pub update_index_map_and_index_ascii_hiragana_vec :
      IndexDataHeaderBlockHeader → Bytes → Index → Result Index
  update_index_map_and_index_ascii_hiragana_vec header buffer index =
      read_units header.unit_length buffer 0 index

  -- `read_exact` into the front of the buffer.
  unfoldable pub refilled : Exactly → Bytes → Result Bytes
  refilled (filled bytes) buffer = ok (overwrite bytes buffer)
  refilled (failed bytes) buffer = err io

  -- The loop over the block headers, of which `i` are done. The buffer is kept from block to block.
  unfoldable pub read_blocks : File → ℕ → Bytes → ℕ → ℕ → Bytes → Index → Result Index
  read_blocks read_exact index_data_offset header_buffer i zero buffer index = ok index
  read_blocks read_exact index_data_offset header_buffer i (suc rest) buffer index = do
    bytes ←
        slice_from header_buffer (index_data_header_size + i * index_data_header_block_header_size)
    header ← block_header_from_ne_bytes e bytes
    assert (leb header.length (length buffer))
    buffer' ←
        refilled (read_exact ((index_data_offset + header.offset) % 2 ^ 32) header.length) buffer
    index' ← update_index_map_and_index_ascii_hiragana_vec header buffer' index
    read_blocks read_exact index_data_offset header_buffer (i + 1) rest buffer' index'

  abbrev block_buffer_length_limit : ℕ
  block_buffer_length_limit = 2 * 1024 * 1024

  unfoldable pub create_index_map_and_index_ascii_hiragana_vec : ℕ → File → Bytes → Result Index
  create_index_map_and_index_ascii_hiragana_vec index_data_offset read_exact header_buffer = do
    header ← index_header_from_ne_bytes e header_buffer
    assert (ltb header.block_buffer_length block_buffer_length_limit)
    read_blocks read_exact index_data_offset header_buffer 0 header.block_header_length
        (replicate header.block_buffer_length 0) empty_index
