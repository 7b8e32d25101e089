-- ===== src/BlockSearch/Tests.antt =====
-- Runs of the block search, and the theorems at them.
use yaskkserv.Prelude.{ℕ, zero, suc, ◌*◌, ◌≡◌, refl, [], ◌∷◌, arith, less, ok}
use yaskkserv.BlockSearch.{
  DictionaryBlockInformation, Informations, skip, binary_search, get_block_informations_index,
}
use yaskkserv.BlockSearch.Order.{IsDescending}
use yaskkserv.BlockSearch.Hint.{IsNear, binary_search-IsNear}
use yaskkserv.BlockSearch.Index.{get_block_informations_index-skip}

abbrev block : ℕ → DictionaryBlockInformation
block m = record { midashi = m ∷ []; offset = 0; length = 0 }

-- Blocks with the midashis 2 n, 2 (n - 1), …, 2.
abbrev blocks : ℕ → Informations
blocks zero = []
blocks (suc n) = block (2 * suc n) ∷ blocks n

finds_few : get_block_informations_index (7 ∷ []) (blocks 12) ≡ ok 9
unfolding get_block_informations_index less
finds_few = refl

finds_many : get_block_informations_index (7 ∷ []) (blocks 40) ≡ ok 37
unfolding get_block_informations_index less
finds_many = refl

finds_none : get_block_informations_index (1 ∷ []) (blocks 40) ≡ ok 40
unfolding get_block_informations_index less
finds_none = refl

blocks-IsDescending : IsDescending (blocks 6)
unfolding less
blocks-IsDescending = (refl, (refl, (refl, (refl, (refl, tt)))))

binary_search-IsNear_example : IsNear (skip (7 ∷ []) (blocks 6)) (binary_search (7 ∷ []) (blocks 6))
binary_search-IsNear_example =
    binary_search-IsNear (7 ∷ []) (blocks 6) blocks-IsDescending (omega arith)

get_block_informations_index-skip_example :
    get_block_informations_index (7 ∷ []) (blocks 6) ≡ ok (skip (7 ∷ []) (blocks 6))
get_block_informations_index-skip_example =
    get_block_informations_index-skip (7 ∷ []) (blocks 6) blocks-IsDescending
