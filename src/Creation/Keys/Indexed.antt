-- ===== src/Creation/Keys/Indexed.antt =====
-- The loop of `create_index_data` of src/skk/yaskkserv2_make_dictionary/dictionary_creator.rs, on
-- keys whose entries each fit the unit length.
use yaskkserv.Prelude.{
  ℕ, ◌+◌, ◌-◌, ◌≡◌, refl, ap, ◌∙◌, subst, inl, inr, List, [], ◌∷◌, ◌++◌, reverse, leb, Bool-cases,
  Bytes, length, length-append, All, ◌>>=◌, ok,
}
use yaskkserv.Midashi.{DictionaryMidashiKey}
use yaskkserv.Creation.IndexData.{
  unit_to_ne_bytes, index_data_block_length, IndexUnit, CreateIndexData, push, push_all,
}
use yaskkserv.Creation.Blocks.{padded}
use yaskkserv.Creation.Blocks.Entries.{Entry, IsEntry, lines, end}
use yaskkserv.Creation.Blocks.Runs.{IsShort}
use yaskkserv.Creation.Blocks.Runs.Whole.{
  Runs, flat_entries, IsRun, described, get_dictionary_block_informations-runs,
}
use yaskkserv.Creation.Keys.{TwoWayBack, TwoWay, Endian, TemporaryBlockMap, index_loop}

-- A key with its entries, of which there is at least one.
pub record KeyEntries : Type 0 where
  pub entries_key : DictionaryMidashiKey
  pub first_entry : Entry
  pub more_entries : List Entry

abbrev pub entries_of : KeyEntries → List Entry
entries_of ke = ke.first_entry ∷ ke.more_entries

abbrev pub buffers : List KeyEntries → TemporaryBlockMap
buffers [] = []
buffers (ke ∷ kes) = (ke.entries_key, lines (entries_of ke) ++ end) ∷ buffers kes

abbrev pub IsKeyEntries : KeyEntries → Type 0
IsKeyEntries ke = All IsEntry (entries_of ke) × All IsShort (entries_of ke)

-- The units and aligned blocks of some keys, where the blocks before them have a length.
pub data IsIndexed : ℕ → List KeyEntries → List (IndexUnit × Bytes) → Type 0 where
  all_indexed : (blocks_len : ℕ) → IsIndexed blocks_len [] []
  key_indexed :
      (blocks_len : ℕ) (ke : KeyEntries) (kes : List KeyEntries) (gs : Runs)
      (units : List (IndexUnit × Bytes))
      → flat_entries gs ≡ entries_of ke
      → All IsRun gs
      → IsIndexed (blocks_len + length (padded (lines (entries_of ke)))) kes units
      → IsIndexed blocks_len (ke ∷ kes) (
          (
            record {
              unit_key = ke.entries_key;
              informations = reverse (described blocks_len 0 gs);
            },
            padded (lines (entries_of ke)),
          )
          ∷ units)

blocks-push :
    (e : Endian) (u : IndexUnit) (aligned_block : Bytes) (s : CreateIndexData)
    → (push e u aligned_block s).blocks ≡ s.blocks ++ aligned_block
unfolding push
blocks-push e u aligned_block s =
    elim (Bool-cases (
      leb index_data_block_length
        (s.block_length + (length (s.index_data ++ unit_to_ne_bytes e u) - s.previous_length)))) [
          | inl full ↦ rw full refl
          | inr more ↦ rw more refl
        ]

-- Where every entry of every key is well-formed and has at most 2048 bytes, the loop over the keys
-- succeeds: each key adds one unit, whose informations are of runs of its entries, at the offset
-- where its block is put.
pub index_loop-IsIndexed :
    (e : Endian) (w : TwoWay) (wb : TwoWayBack) (kes : List KeyEntries) (s : CreateIndexData)
    → All IsKeyEntries kes
    → (units : List (IndexUnit × Bytes)) × IsIndexed (length s.blocks) kes units
      × (index_loop e w wb (buffers kes) s ≡ ok (push_all e units s))
unfolding index_loop push_all
index_loop-IsIndexed e w wb [] s good = ([], all_indexed (length s.blocks), refl)
index_loop-IsIndexed e w wb (ke ∷ kes) s good =
    let (gs, flat, runs, split') =
      get_dictionary_block_informations-runs w wb ke.first_entry ke.more_entries (length s.blocks)
        good.0.0 good.0.1 in
    let block = padded (lines (entries_of ke)) in
    let u : IndexUnit = record {
      unit_key = ke.entries_key;
      informations = reverse (described (length s.blocks) 0 gs);
    } in
    let (units, indexed, looped) = index_loop-IsIndexed e w wb kes (push e u block s) good.1 in
    let moved : length (push e u block s).blocks ≡ length s.blocks + length block =
      ap length (blocks-push e u block s) ∙ length-append s.blocks block in
    (
      (u, block) ∷ units,
      key_indexed (length s.blocks) ke kes gs units flat runs
          (subst (λ n. IsIndexed n kes units) moved indexed),
      rw (split', ◌>>=◌) looped,
    )
