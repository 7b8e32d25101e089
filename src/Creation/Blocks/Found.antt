-- ===== src/Creation/Blocks/Found.antt =====
-- The search of src/skk/yaskkserv2/dictionary_reader.rs in the informations that
-- src/skk/yaskkserv2_make_dictionary/dictionary_creator.rs makes.
use yaskkserv.BlockSearch.Index.{get_block_informations_index-skip}
use yaskkserv.BlockSearch.{skip, get_block_informations_index, Informations}
use yaskkserv.Creation.Blocks.Runs.{information}
use yaskkserv.Creation.Blocks.Entries.{lines, Entry}
use yaskkserv.Creation.Blocks.Runs.Whole.{described, flat_entries, IsRun, Runs}
use yaskkserv.Prelude.{
  ℕ, ◌+◌, ◌≡◌, sym, ap, ◌∙◌, subst, true, some, List, [], ◌∷◌, ◌++◌, reverse, append_assoc, arith,
  less, length, get_elem?, All, All-back, ok,
}
use yaskkserv.BlockSearch.Order.{IsDescending}
use yaskkserv.Creation.Blocks.Sorted.{
  get_elem?-place, first-not_above, All-reverse, skip-place, Above-described, Above,
  flat_entries-append, described-IsAscending, reverse-split, described-append, reverse-IsDescending,
  IsSorted-back, length-described, length-reverse, IsSorted,
}

pub described-IsDescending :
    (blocks_len : ℕ) (gs : Runs)
    → All IsRun gs
    → IsSorted (flat_entries gs)
    → IsDescending (reverse (described blocks_len 0 gs))
described-IsDescending blocks_len gs runs sorted =
    reverse-IsDescending (described blocks_len 0 gs)
      (described-IsAscending blocks_len 0 gs runs sorted)

module _ (blocks_len : ℕ) (before after : Runs) (x : Entry) (left right : List Entry) where
  abbrev run : List Entry
  run = left ++ x ∷ right

  abbrev infos : Informations
  infos = reverse (described blocks_len 0 (before ++ run ∷ after))

  abbrev behind : Informations
  behind = described blocks_len (length (lines (flat_entries before)) + length (lines run)) after

  ordered :
      infos
      ≡ reverse behind
        ++ information blocks_len (length (lines (flat_entries before))) run
          ∷ reverse (described blocks_len 0 before)
  ordered =
      let start : 0 + length (lines (flat_entries before)) ≡ length (lines (flat_entries before)) =
        omega arith in
      ap reverse (
        described-append blocks_len 0 before (run ∷ after)
        ∙ ap (λ n. described blocks_len 0 before ++ described blocks_len n (run ∷ after)) start)
      ∙ reverse-split (described blocks_len 0 before) _ behind

  place : length (reverse behind) ≡ length after
  place = length-reverse behind ∙ length-described blocks_len _ after

  -- The search for the midashi of an entry ends at the block whose run holds the entry: in the
  -- informations of any runs, of entries in the order of their midashis.
  pub get_block_informations_index-run :
      All IsRun (before ++ run ∷ after)
      → IsSorted (flat_entries (before ++ run ∷ after))
      → (get_block_informations_index x.midashi infos ≡ ok (length after))
        × (get_elem? infos (length after)
            ≡ some (information blocks_len (length (lines (flat_entries before))) run))
  get_block_informations_index-run runs sorted =
      let grouped : IsSorted (left ++ x ∷ right ++ flat_entries after) =
        IsSorted-back (flat_entries before) (run ++ flat_entries after)
          (subst IsSorted (flat_entries-append before (run ∷ after)) sorted) in
      let regrouped : IsSorted (left ++ (x ∷ (right ++ flat_entries after))) =
        subst IsSorted (append_assoc left (x ∷ right) (flat_entries after)) grouped in
      let above : Above x.midashi behind =
        Above-described x.midashi blocks_len _ after
          (All-back IsRun (before ++ run ∷ []) after
            (subst (All IsRun) (sym (append_assoc before (run ∷ []) after)) runs))
          (All-back (λ f. less x.midashi f.midashi ≡ true) right (flat_entries after)
            (IsSorted-back left (x ∷ (right ++ flat_entries after)) regrouped).0) in
      let there : skip x.midashi infos ≡ length after =
        ap (skip x.midashi) ordered
        ∙ (skip-place x.midashi (reverse behind) (reverse (described blocks_len 0 before)) _
              (All-reverse (λ v. less x.midashi v.midashi ≡ true) behind above)
              (first-not_above left right (flat_entries after) x grouped)
            ∙ place) in
      (
        get_block_informations_index-skip x.midashi infos
              (described-IsDescending blocks_len (before ++ run ∷ after) runs sorted)
            ∙ ap ok there,
        subst
            (λ n.
              get_elem? infos n
              ≡ some (information blocks_len (length (lines (flat_entries before))) run))
            place
            (rw ordered
              (get_elem?-place (reverse behind) (reverse (described blocks_len 0 before)) _)),
      )
