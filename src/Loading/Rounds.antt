-- ===== src/Loading/Rounds.antt =====
-- The maps that src/skk/dictionary.rs loads are those that `create_index_data` of
-- src/skk/yaskkserv2_make_dictionary/dictionary_creator.rs wrote.
use yaskkserv.Loading.Lookups.{
  lookup-empty_index, empty_index-IsIndex, insert_all-last_unit, last_unit, lookup, IsKey,
  IsIndexUnit,
}
use yaskkserv.Prelude.{
  ℕ, ◌+◌, ◌≤◌, ◌<◌, ◌≡◌, sym, ap, ◌∙◌, subst, none, List, [], ◌∷◌, ◌++◌, map, arith, Bytes, length,
  replicate, length-append, length-replicate, All, ok,
}
use yaskkserv.DictionaryFiles.{File}
use yaskkserv.OnDisk.{
  Endian, U32, IndexDataHeader, index_header_to_ne_bytes, index_header_from_ne_bytes,
}
use yaskkserv.OnDisk.Rounds.{
  index_header_from_ne_bytes-index_header_to_ne_bytes, length-index_header,
}
use yaskkserv.Creation.IndexData.{
  IndexUnit, CreateIndexDataResult, unit_to_ne_bytes, index_data_block_length, start, push_all,
  finish,
}
use yaskkserv.Creation.Groups.{
  Groups, flat, units_to_ne_bytes, headers, IsBlock, start-IsGrouped, units-append,
}
use yaskkserv.Creation.Pushed.{IsFinished, push_all-IsGrouped, finish-IsFinished}
use yaskkserv.Loading.{
  DictionaryMidashiKey, Index, empty_index, create_index_map_and_index_ascii_hiragana_vec,
}
use yaskkserv.Loading.Units.{FitsUnit, u32-U32}
use yaskkserv.Loading.Blocks.{Holds, insert_all, read_blocks-headers, length-units}

-- There are no more blocks than bytes.
length-groups :
    (e : Endian) (gs : Groups)
    → All (IsBlock e) gs
    → length gs ≤ length (units_to_ne_bytes e (flat gs))
length-groups e [] bs = omega arith
length-groups e (g ∷ gs) bs = omega (
  arith,
  length-groups e gs bs.1,
  bs.0.0,
  length-units e g,
  ap length (units-append e g (flat gs)),
  length-append (units_to_ne_bytes e g) (units_to_ne_bytes e (flat gs)),
)

finished-insert_all :
    (e : Endian) (us : List IndexUnit) (r : CreateIndexDataResult) (content fpre fpost : Bytes)
    (read_exact : File)
    → IsFinished e us r
    → Holds content read_exact
    → content ≡ fpre ++ (r.index_data ++ fpost)
    → U32 (length fpre + length r.index_data)
    → All FitsUnit us
    → create_index_map_and_index_ascii_hiragana_vec e (length fpre) read_exact r.index_data_header
      ≡ insert_all us empty_index
unfolding create_index_map_and_index_ascii_hiragana_vec
finished-insert_all e us r content fpre fpost read_exact f holds place bound fits =
    let held : r.index_data ≡ units_to_ne_bytes e (flat f.groups) =
      rw (f.units-flat) f.data-units in
    let few : U32 (length f.groups) =
      omega (arith, bound, ap length held, length-groups e f.groups f.groups-IsBlock) in
    let h : IndexDataHeader = record {
      block_buffer_length = index_data_block_length;
      block_header_length = length f.groups;
    } in
    let written : r.index_data_header ≡ index_header_to_ne_bytes e h ++ headers e 0 f.groups =
      rw (u32-U32 (length f.groups) few) at f.header-headers in
    let heads : index_header_from_ne_bytes e r.index_data_header ≡ ok h = rw written (
      index_header_from_ne_bytes-index_header_to_ne_bytes e h (headers e 0 f.groups) (omega arith)
        few) in
    let blocks =
      read_blocks-headers e content r.index_data_header fpost (length fpre) read_exact f.groups 0 0
        (index_header_to_ne_bytes e h) fpre (replicate index_data_block_length 0) empty_index holds
        written (omega (arith, length-index_header e h)) (rw (sym held) place) (omega arith)
        (rw (sym held) bound) f.groups-IsBlock (subst (All FitsUnit) (sym f.units-flat) fits)
        (omega (arith, length-replicate {A = ℕ} index_data_block_length 0)) in
    rw heads (blocks ∙ ap (λ vs. insert_all vs empty_index) f.units-flat)

-- The maps that are loaded from the index data of a dictionary are the units of the dictionary,
-- inserted in their order: where every unit fits its heads and, alone, a block, where the file
-- holds the index data at its offset, and where the offsets of the index data fit a `u32`.
pub create_index_map-finish :
    (e : Endian) (units : List (IndexUnit × Bytes)) (content fpre fpost : Bytes) (read_exact : File)
    → Holds content read_exact
    → content ≡ fpre ++ ((finish e (push_all e units (start e))).index_data ++ fpost)
    → U32 (length fpre + length (finish e (push_all e units (start e))).index_data)
    → All FitsUnit (map (λ p. p.0) units)
    → All (λ u. length (unit_to_ne_bytes e u) < index_data_block_length) (map (λ p. p.0) units)
    → create_index_map_and_index_ascii_hiragana_vec e
        (length fpre)
        read_exact
        (finish e (push_all e units (start e))).index_data_header
      ≡ insert_all (map (λ p. p.0) units) empty_index
create_index_map-finish e units content fpre fpost read_exact holds place bound fits small =
    finished-insert_all e (map (λ p. p.0) units) (finish e (push_all e units (start e))) content
      fpre fpost read_exact
      (finish-IsFinished e (map (λ p. p.0) units) (push_all e units (start e))
        (push_all-IsGrouped e units [] (start e) (start-IsGrouped e) small))
      holds place bound fits

-- Loading the index data of a dictionary succeeds, and every key then has the informations of the
-- last unit in its place, or none where no unit is: where every unit has a key of bytes and fits
-- its heads and, alone, a block, where the file holds the index data at its offset, and where the
-- offsets of the index data fit a `u32`.
pub create_index_map-lookup :
    (e : Endian) (units : List (IndexUnit × Bytes)) (content fpre fpost : Bytes) (read_exact : File)
    → Holds content read_exact
    → content ≡ fpre ++ ((finish e (push_all e units (start e))).index_data ++ fpost)
    → U32 (length fpre + length (finish e (push_all e units (start e))).index_data)
    → All FitsUnit (map (λ p. p.0) units)
    → All IsIndexUnit (map (λ p. p.0) units)
    → All (λ u. length (unit_to_ne_bytes e u) < index_data_block_length) (map (λ p. p.0) units)
    → (index : Index) × (create_index_map_and_index_ascii_hiragana_vec e
          (length fpre)
          read_exact
          (finish e (push_all e units (start e))).index_data_header
        ≡ ok index)
      × ((k : DictionaryMidashiKey)
          → IsKey k
          → lookup k index ≡ last_unit k (map (λ p. p.0) units) (ok none))
create_index_map-lookup e units content fpre fpost read_exact holds place bound fits keys small =
    let us = map (λ p. p.0) units in
    let (index, inserted, looked) = insert_all-last_unit us empty_index empty_index-IsIndex keys in
    (
      index,
      create_index_map-finish e units content fpre fpost read_exact holds place bound fits small
          ∙ inserted,
      λ k range. looked k ∙ ap (last_unit k us) (lookup-empty_index k range),
    )
