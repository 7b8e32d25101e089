-- ===== src/Creation/Keys.antt =====
-- `create_temporary_block_map` and `create_index_data` of
-- src/skk/yaskkserv2_make_dictionary/dictionary_creator.rs, from the merged entries of the jisyos on,
-- which come in the order of their midashis. A `BTreeMap` is a list in the order of its keys.
pub mod Indexed
use yaskkserv.Prelude.{
  List, [], ◌∷◌, ◌++◌, if◌then◌else◌, Bytes, less, length, Result, ◌>>=◌, ◌>>◌, ok,
}
use yaskkserv.Substrings.{TwoWay, TwoWayBack}
use yaskkserv.Midashi.{DictionaryMidashiKey, get_dictionary_midashi_key, same_key}
use yaskkserv.OnDisk.{Endian}
use yaskkserv.Creation.IndexData.{CreateIndexData, CreateIndexDataResult, start, push, finish}
use yaskkserv.Creation.Blocks.{get_dictionary_block_informations}

abbrev pub TemporaryBlockMap : Type 0
TemporaryBlockMap = List (DictionaryMidashiKey × Bytes)

abbrev key_bytes : DictionaryMidashiKey → Bytes
key_bytes k = k.k0 ∷ k.k1 ∷ k.k2 ∷ k.k3 ∷ []

-- `entry(key).or_insert_with(|| vec![b'\n'])`, extended by the entry.
unfoldable pub extend_entry : DictionaryMidashiKey → Bytes → TemporaryBlockMap → TemporaryBlockMap
extend_entry k entry [] = (k, b'\n' ∷ entry) ∷ []
extend_entry k entry ((k', buffer) ∷ rest) =
    let rest' = extend_entry k entry rest in
    if same_key k k'
    then (k', buffer ++ entry) ∷ rest
    else if less (key_bytes k) (key_bytes k')
    then (k, b'\n' ∷ entry) ∷ (k', buffer) ∷ rest
    else (k', buffer) ∷ rest'

unfoldable pub create_temporary_block_map :
    List (Bytes × Bytes) → TemporaryBlockMap → Result TemporaryBlockMap
create_temporary_block_map [] temporary_block_map = ok temporary_block_map
create_temporary_block_map ((midashi, candidates) ∷ rest) temporary_block_map = do
  k ← get_dictionary_midashi_key midashi
  create_temporary_block_map rest
      (extend_entry k (midashi ++ b' ' ∷ (candidates ++ b'\n' ∷ [])) temporary_block_map)

-- The loop over the map.
unfoldable pub index_loop :
    Endian → TwoWay → TwoWayBack → TemporaryBlockMap → CreateIndexData → Result CreateIndexData
index_loop e w wb [] s = ok s
index_loop e w wb ((k, block_buffer) ∷ rest) s = do
  (aligned_block, informations) ←
      get_dictionary_block_informations w wb block_buffer (length s.blocks) []
  index_loop e w wb rest
      (push e (record { unit_key = k; informations = informations }) aligned_block s)

unfoldable pub create_index_data :
    Endian → TwoWay → TwoWayBack → List (Bytes × Bytes) → Result CreateIndexDataResult
create_index_data e w wb jisyo_entries_map = do
  temporary_block_map ← create_temporary_block_map jisyo_entries_map []
  s ← index_loop e w wb temporary_block_map (start e)
  ok (finish e s)
