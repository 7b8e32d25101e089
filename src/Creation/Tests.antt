-- ===== src/Creation/Tests.antt =====
-- Witnesses for the blocks and units of
-- src/skk/yaskkserv2_make_dictionary/dictionary_creator.rs.
use yaskkserv.Prelude.{
  ◌≡◌, refl, some, List, [], ◌∷◌, ◌++◌, reverse, arith, Bytes, codes, less, get_elem?, All, ok,
}
use yaskkserv.Substrings.Positions.{two_way}
use yaskkserv.Substrings.Last.{two_way_back}
use yaskkserv.Midashi.{key}
use yaskkserv.BlockSearch.{get_block_informations_index}
use yaskkserv.OnDisk.{little}
use yaskkserv.Creation.IndexData.{IndexUnit, start, push_all}
use yaskkserv.Creation.Blocks.{padded, get_dictionary_block_informations}
use yaskkserv.Creation.Blocks.Entries.{Entry, IsEntry, lines}
use yaskkserv.Creation.Blocks.Runs.{IsShort, information}
use yaskkserv.Creation.Blocks.Runs.Whole.{
  Runs, flat_entries, IsRun, described, get_dictionary_block_informations-runs,
}
use yaskkserv.Creation.Blocks.Found.{get_block_informations_index-run}
use yaskkserv.BlockSearch.{Informations}
use yaskkserv.Creation.Layout.{get_block_aligned_length}
use yaskkserv.Creation.Blocks.Placed.{ArePlaced, get_dictionary_block_informations-ArePlaced}
use yaskkserv.Creation.Keys.{index_loop}
use yaskkserv.Creation.Keys.Indexed.{KeyEntries, buffers, IsIndexed, index_loop-IsIndexed}

abbrev entry_a : Entry
entry_a = record { midashi = codes "a"; candidates = codes "/b/" }

abbrev entry_ab : Entry
entry_ab = record { midashi = codes "ab"; candidates = codes "/cd/" }

entries : All IsEntry (entry_a ∷ entry_ab ∷ [])
entries = (
  ((ground arith, tt), (ground arith, tt), (ground arith, (ground arith, (ground arith, tt)))),
  (
    (
      (ground arith, (ground arith, tt)),
      (ground arith, (ground arith, tt)),
      (ground arith, (ground arith, (ground arith, (ground arith, tt)))),
    ),
    tt,
  ),
)

short : All IsShort (entry_a ∷ entry_ab ∷ [])
short = (omega arith, (omega arith, tt))

get_dictionary_block_informations-runs_example :
    (gs : Runs) × (flat_entries gs ≡ entry_a ∷ entry_ab ∷ [])
    × All IsRun gs
    × (get_dictionary_block_informations two_way two_way_back (codes "\na /b/\nab /cd/\n") 0 []
        ≡ ok (padded (lines (entry_a ∷ entry_ab ∷ [])), reverse (described 0 0 gs)))
get_dictionary_block_informations-runs_example =
    get_dictionary_block_informations-runs two_way two_way_back entry_a (entry_ab ∷ []) 0 entries
      short

get_block_informations_index-run_example :
    (get_block_informations_index
        (codes "ab")
        (reverse (described 0 0 ((entry_a ∷ []) ∷ (entry_ab ∷ []) ∷ [])))
      ≡ ok 0)
    × (get_elem? (reverse (described 0 0 ((entry_a ∷ []) ∷ (entry_ab ∷ []) ∷ []))) 0
        ≡ some (information 0 6 (entry_ab ∷ [])))
unfolding less
get_block_informations_index-run_example =
    get_block_informations_index-run 0 ((entry_a ∷ []) ∷ []) [] entry_ab [] []
      ((omega arith, omega arith), ((omega arith, omega arith), tt)) ((refl, tt), (tt, tt))

get_dictionary_block_informations-ArePlaced_example :
    (block : Bytes) × (infos : Informations) × (gs : Runs) × (get_dictionary_block_informations
        two_way two_way_back
        (codes "\na /b/\nab /cd/\n")
        2
        []
      ≡ ok (block, reverse infos))
    × (flat_entries gs ≡ entry_a ∷ entry_ab ∷ [])
    × All IsRun gs
    × ArePlaced (1 ∷ 2 ∷ (block ++ 3 ∷ [])) infos gs
unfolding padded get_block_aligned_length
get_dictionary_block_informations-ArePlaced_example =
    get_dictionary_block_informations-ArePlaced two_way two_way_back entry_a (entry_ab ∷ [])
      (1 ∷ 2 ∷ []) (3 ∷ []) entries short (omega arith)

abbrev key_entries : List KeyEntries
key_entries =
    record { entries_key = key b'a' 0 0 0; first_entry = entry_a; more_entries = entry_ab ∷ [] }
    ∷ []

index_loop-IsIndexed_example :
    (units : List (IndexUnit × Bytes)) × IsIndexed 0 key_entries units
    × (index_loop little two_way two_way_back (buffers key_entries) (start little)
        ≡ ok (push_all little units (start little)))
unfolding start
index_loop-IsIndexed_example =
    index_loop-IsIndexed little two_way two_way_back key_entries (start little)
      ((entries, short), tt)
