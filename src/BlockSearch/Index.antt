-- ===== src/BlockSearch/Index.antt =====
-- The block search finds what a linear search finds: src/skk/yaskkserv2/dictionary_reader.rs,
-- `get_block_informations_index`.
use yaskkserv.Prelude.{
  ℕ, ◌+◌, ◌/◌, ◌≤◌, ◌≡◌, refl, ap, inl, inr, arith, ltb, ltb→ge, le→leb, Bool-cases, Bytes, less,
  length, drop, get_elem?_total, Result, ok,
}
use yaskkserv.BlockSearch.{
  Informations, skip, return_zero_threshold, binary_search_threshold,
  get_block_informations_loop_start_hint_index, get_block_informations_index,
}
use yaskkserv.BlockSearch.Order.{IsDescending, skip-le, skip-drop, ge_of_not_less}
use yaskkserv.BlockSearch.Hint.{binary_search-IsNear}

-- A start from which the linear search cannot miss its place.
abbrev IsEarly : ℕ → Result ℕ → Type 0
IsEarly k r = (h : ℕ) × (r ≡ ok h) × (h ≤ k)

hint-IsEarly :
    (m : Bytes) (xs : Informations)
    → IsDescending xs
    → IsEarly (skip m xs) (get_block_informations_loop_start_hint_index m xs)
unfolding get_block_informations_loop_start_hint_index
hint-IsEarly m xs d = elim (Bool-cases (ltb (length xs) return_zero_threshold)) [
  | inl few ↦ rw few (0, refl, omega arith)
  | inr more ↦ rw more (elim (Bool-cases (ltb (length xs) binary_search_threshold)) [
    | inl some' ↦
        let (x, at) =
          get_elem?_total xs (length xs / 2) (omega (arith, ltb→ge (length xs) 10 more)) in
        rw some' (
          rw at (elim (Bool-cases (less x.midashi m)) [
            | inl below ↦ rw below (0, refl, omega arith)
            | inr above ↦ rw above (_, refl, ge_of_not_less m xs (length xs / 2) d at above)
          ]))
    | inr many ↦
        let (h, found, lo, hi) =
          binary_search-IsNear m xs d (omega (arith, ltb→ge (length xs) 10 more)) in
        rw many (rw found (h + skip m (drop h xs), refl, omega (arith, skip-drop m xs h lo)))
  ])
]

-- For descending blocks the search never panics or runs on, and returns the first block whose
-- midashi is not above the one searched for, or the number of blocks if there is none: what a linear
-- search from the start finds.
pub get_block_informations_index-skip :
    (m : Bytes) (xs : Informations)
    → IsDescending xs
    → get_block_informations_index m xs ≡ ok (skip m xs)
unfolding get_block_informations_index
get_block_informations_index-skip m xs d =
    let (h, found, early) = hint-IsEarly m xs d in
    rw found (
      rw (le→leb h (length xs) (omega (arith, early, skip-le m xs)))
        (ap ok (skip-drop m xs h early)))
