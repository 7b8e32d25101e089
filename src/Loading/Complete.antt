-- ===== src/Loading/Complete.antt =====
-- From `DictionaryCreator::create` of src/skk/yaskkserv2_make_dictionary/dictionary_creator.rs to
-- `Dictionary::setup` of src/skk/dictionary.rs: the index that is loaded is the one that was made.
use yaskkserv.Loading.Rounds.{create_index_map-finish}
use yaskkserv.Creation.Layout.{to_u32}
use yaskkserv.Loading.{empty_index, DictionaryMidashiKey, Index}
use yaskkserv.Loading.Lookups.{
  lookup-empty_index, empty_index-IsIndex, insert_all-last_unit, last_unit, lookup, IsKey,
  IsIndexUnit,
}
use yaskkserv.Loading.Units.{FitsUnit}
use yaskkserv.Loading.Validated.{Reads}
use yaskkserv.Creation.Written.{create}
use yaskkserv.Loading.Setup.{setup, Read}
use yaskkserv.DictionaryFiles.{read, File}
use yaskkserv.Creation.IndexData.{
  index_data_block_length, unit_to_ne_bytes, start, push_all, finish, IndexUnit,
}
use yaskkserv.Midashi.{Encoding}
use yaskkserv.OnDisk.{sha1sum_length, Endian}
use yaskkserv.Prelude.{ℕ, ◌<◌, ◌≡◌, ap, ◌∙◌, none, List, map, arith, Bytes, length, All, ok}
use yaskkserv.Loading.Blocks.{Holds}
use yaskkserv.Loading.Created.{setup-loads, blank, Fits}

-- A dictionary that was made from any units is set up without error: the encoding table that is
-- handed over is the one written, and every key has the informations of the last unit in its
-- place, or none where no unit is. The digests have 20 bytes, the dictionary is shorter than 4
-- gigabytes, every unit has a key of bytes and fits its heads and, alone, a block, and the file is
-- read as it was written, in pieces of any length.
pub setup-create :
    (e : Endian) (sha1 : Bytes → Bytes) (encoding' : Encoding) (table : Bytes)
    (units : List (IndexUnit × Bytes)) (read_exact : File) (read : Read)
    (sha1_read_buffer_length : ℕ)
    → Holds (create e sha1 encoding' table (finish e (push_all e units (start e)))) read_exact
    → Reads (create e sha1 encoding' table (finish e (push_all e units (start e)))) read
    → 0 < sha1_read_buffer_length
    → ((b : Bytes) → length (sha1 b) ≡ sha1sum_length)
    → Fits e sha1 encoding' table (finish e (push_all e units (start e)))
    → All FitsUnit (map (λ p. p.0) units)
    → All IsIndexUnit (map (λ p. p.0) units)
    → All (λ u. length (unit_to_ne_bytes e u) < index_data_block_length) (map (λ p. p.0) units)
    → (index : Index) × (setup e sha1 sha1_read_buffer_length read_exact read
        ≡ ok (
          table,
          record {
            blocks_offset =
                (blank e sha1 encoding' table
                  (finish e (push_all e units (start e)))).blocks_offset;
            encoding = to_u32 encoding';
            index_map = index.index_map;
            index_ascii_hiragana_vec = index.index_ascii_hiragana_vec;
          },
        ))
      × ((k : DictionaryMidashiKey)
          → IsKey k
          → lookup k index ≡ last_unit k (map (λ p. p.0) units) (ok none))
setup-create e sha1 encoding' table units read_exact read bl holds reads pos digest fits heads keys
      small =
    let us = map (λ p. p.0) units in
    let r = finish e (push_all e units (start e)) in
    let (index, inserted, looked) = insert_all-last_unit us empty_index empty_index-IsIndex keys in
    (
      index,
      setup-loads e sha1 encoding' table r read_exact read bl index holds reads pos digest fits
          (λ fpre fpost place at.
            create_index_map-finish e units (create e sha1 encoding' table r) fpre fpost read_exact
              holds place (omega (arith, at, fits)) heads small
            ∙ inserted),
      λ k range. looked k ∙ ap (last_unit k us) (lookup-empty_index k range),
    )
