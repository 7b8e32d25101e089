-- ===== src/BlockSearch.antt =====
-- The search for the block of a midashi: src/skk/yaskkserv2/dictionary_reader.rs,
-- `get_block_informations_loop_start_hint_index` and `get_block_informations_index`, and
-- `DictionaryBlockInformation` of src/skk.rs. The lengths fit an `i32`: the signed `index` is a ℕ
-- here, and its test against zero is made before the subtraction.
pub mod Order
pub mod Hint
pub mod Index
mod Tests
use yaskkserv.Prelude.{
  ℕ, zero, suc, ◌+◌, ◌-◌, ◌*◌, ◌/◌, true, false, not, ◌&&◌, List, [], ◌∷◌, ltb, leb, ◌==◌,
  if◌then◌else◌, Bytes, less, length, get_elem?, drop, Result, ◌>>=◌, ◌>>◌, unwrap, assert, ok,
  out_of_fuel,
}

pub record DictionaryBlockInformation : Type 0 where
  pub midashi : Bytes
  pub offset : ℕ
  pub length : ℕ

abbrev pub Informations : Type 0
Informations = List DictionaryBlockInformation

abbrev return_zero_threshold : ℕ
return_zero_threshold = 10

abbrev binary_search_threshold : ℕ
binary_search_threshold = 30

-- The end of a round of the hint loop; `again` is the next round.
settle : (ℕ → ℕ → ℕ → ℕ → Result ℕ) → ℕ → ℕ → ℕ → ℕ → ℕ → Result ℕ
settle again index diff direction previous_direction diff_zero_count =
    let diff' = diff / 2 in
    if diff' == 0
    then if leb 1 diff_zero_count && not (direction == previous_direction)
      then ok (index - 1)
      else again index 1 direction (diff_zero_count + 1)
    else again index diff' direction diff_zero_count

-- The loop of the binary search: `index`, `diff`, `previous_direction`, `diff_zero_count`.
hint_loop : ℕ → Bytes → Informations → ℕ → ℕ → ℕ → ℕ → Result ℕ
unfolding settle
hint_loop zero midashi informations index diff previous_direction diff_zero_count = out_of_fuel
hint_loop (suc fuel) midashi informations index diff previous_direction diff_zero_count = do
  information ← unwrap (get_elem? informations index)
  elim (less information.midashi midashi) [
    | true ↦
        if ltb index diff
        then ok 0
        else settle (hint_loop fuel midashi informations) (index - diff) diff 0 previous_direction
            diff_zero_count
    | false ↦
        if leb (length informations) (index + diff)
        then ok (length informations - 1)
        else settle (hint_loop fuel midashi informations) (index + diff) diff 1 previous_direction
            diff_zero_count
  ]

-- The rounds of `index += 1` until a midashi that is not above the one searched for, or the end.
unfoldable pub skip : Bytes → Informations → ℕ
skip midashi [] = 0
skip midashi (information ∷ rest) =
    let later = skip midashi rest in if less midashi information.midashi then suc later else 0

-- The hint loop has fuel for as many rounds as it can make.
pub binary_search : Bytes → Informations → Result ℕ
unfolding hint_loop
binary_search midashi informations =
    let half = length informations / 2 in
    hint_loop (2 * length informations + 1) midashi informations half (half / 2) 0 0

pub get_block_informations_loop_start_hint_index : Bytes → Informations → Result ℕ
unfolding binary_search skip
get_block_informations_loop_start_hint_index midashi informations =
    let len = length informations in
    if ltb len return_zero_threshold
    then ok 0
    else if ltb len binary_search_threshold
    then (do
      information ← unwrap (get_elem? informations (len / 2))
      ok (if less information.midashi midashi then 0 else len / 2))
    else (do
      index ← binary_search midashi informations
      ok (index + skip midashi (drop index informations)))

-- `&informations[hint..]` panics behind the end.
unfoldable pub get_block_informations_index : Bytes → Informations → Result ℕ
unfolding get_block_informations_loop_start_hint_index
get_block_informations_index midashi informations = do
  hint ← get_block_informations_loop_start_hint_index midashi informations
  assert (leb hint (length informations))
  ok (hint + skip midashi (drop hint informations))
