-- ===== src/Creation/Blocks/Runs/Whole.antt =====
-- `get_dictionary_block_informations` of
-- src/skk/yaskkserv2_make_dictionary/dictionary_creator.rs on the entries of a key.
use yaskkserv.Prelude.{
  ℕ, zero, suc, ◌+◌, ◌≤◌, ◌<◌, ◌≡◌, refl, sym, ap, ◌∙◌, subst, inl, inr, List, [], ◌∷◌, ◌++◌,
  reverse, append_assoc, append-nil, arith, leb→le, leb→gt, Bool-cases, Bytes, length,
  length-append, All, All-back, ◌>>=◌, ok,
}
use yaskkserv.Substrings.{TwoWay, TwoWayBack}
use yaskkserv.BlockSearch.{Informations}
use yaskkserv.Creation.Blocks.{
  informations_loop, padded, get_dictionary_block_informations, dictionary_block_unit_length,
}
use yaskkserv.Creation.Blocks.Entries.{
  lines-append, Entry, IsEntry, lines, end, front-back, front_all, front-le, front-IsCut,
}
use yaskkserv.Creation.Blocks.Longest.{get_max_entry_length-longest, longest, length-lines}
use yaskkserv.Creation.Blocks.Runs.{
  IsShort, information, first-front, run, later, buffer, is_end, regrouped, size, round,
}

abbrev pub Runs : Type 0
Runs = List (List Entry)

abbrev pub flat_entries : Runs → List Entry
flat_entries [] = []
flat_entries (g ∷ gs) = g ++ flat_entries gs

-- Some entries that are read in one piece.
abbrev pub IsRun : List Entry → Type 0
IsRun g = (0 < length g) × (length (lines g) + 1 ≤ dictionary_block_unit_length)

-- The informations of runs that follow each other from an offset on.
abbrev pub described : ℕ → ℕ → Runs → Informations
described blocks_len o [] = []
described blocks_len o (g ∷ gs) =
    information blocks_len o g ∷ described blocks_len (o + length (lines g)) gs

-- How the loop ends: the entries are split into runs, and the block holds them all.
abbrev Splits : TwoWay → TwoWayBack → ℕ → ℕ → ℕ → Bytes → List Entry → Informations → Bytes → Type 0
Splits w wb fuel blocks_len max_entry_length pre rest informations aligned_block =
    (gs : Runs) × (flat_entries gs ≡ rest)
    × All IsRun gs
    × (informations_loop w wb fuel (pre ++ (lines rest ++ end)) blocks_len max_entry_length
          (length pre) informations aligned_block
        ≡ ok (
          padded (aligned_block ++ lines rest),
          informations ++ described blocks_len (length pre) gs,
        ))

module _ (w : TwoWay) (wb : TwoWayBack) (blocks_len max_entry_length : ℕ) where
  loop-Splits :
      (fuel : ℕ) (rest : List Entry) (pre : Bytes) (informations : Informations)
      (aligned_block : Bytes)
      → 0 < length rest
      → length rest ≤ fuel
      → All IsEntry rest
      → All IsShort rest
      → Splits w wb fuel blocks_len max_entry_length pre rest informations aligned_block
  loop-Splits fuel [] pre informations aligned_block some' enough entries short =
      absurd (omega (arith, some'))
  loop-Splits zero (e ∷ es) pre informations aligned_block some' enough entries short =
      absurd (omega (arith, enough))
  loop-Splits (suc fuel) (e ∷ es) pre informations aligned_block some' enough entries short =
      let (first, starts) = first-front e es short.0 in
      let begun : 0 < length (run e es pre entries) = omega (arith, ap length starts) in
      let is_run : IsRun (run e es pre entries) =
        (begun, front-le dictionary_block_unit_length (e ∷ es) (omega arith)) in
      let step =
        round e es pre entries w wb fuel blocks_len max_entry_length informations aligned_block
          short.0 in
      elim (Bool-cases (is_end e es pre entries)) [
        | inl at ↦
            let whole : run e es pre entries ≡ e ∷ es =
              front_all dictionary_block_unit_length (e ∷ es)
                (omega (arith, leb→le _ _ at, size e es pre entries)) in
            (
              run e es pre entries ∷ [],
              append-nil _ ∙ whole,
              (is_run, tt),
              step
                  ∙ rw at (
                      ap
                        (λ b. ok (
                          padded (aligned_block ++ b),
                          informations
                              ++ described blocks_len (length pre) (run e es pre entries ∷ []),
                        ))
                        (ap lines whole)),
            )
        | inr before ↦
            let R = run e es pre entries in
            let B = later e es pre entries in
            let (ys, lacks, cut, more) =
              front-IsCut dictionary_block_unit_length (e ∷ es) end (omega arith)
                (omega (arith, leb→gt _ _ before, size e es pre entries)) entries in
            let both : R ++ B ≡ e ∷ es = front-back dictionary_block_unit_length (e ∷ es) in
            let here = information blocks_len (length pre) R in
            let (gs, flat, runs, rest) =
              loop-Splits fuel B (pre ++ lines R) (informations ++ here ∷ [])
                (aligned_block ++ lines R) more
                (omega (arith, enough, ap length both, length-append R B, begun))
                (All-back IsEntry R B (subst (All IsEntry) (sym both) entries))
                (All-back IsShort R B (subst (All IsShort) (sym both) short)) in
            let place : pre ++ lines R ++ (lines B ++ end) ≡ buffer e es pre entries =
              append_assoc pre (lines R) _ ∙ sym (regrouped e es pre entries) in
            let blocks : aligned_block ++ lines R ++ lines B ≡ aligned_block ++ lines (e ∷ es) =
              append_assoc aligned_block (lines R) (lines B)
              ∙ ap (λ b. aligned_block ++ b) (sym (lines-append R B) ∙ ap lines both) in
            let all : informations ++ here ∷ [] ++ described blocks_len (length (pre ++ lines R)) gs
                ≡ informations ++ described blocks_len (length pre) (R ∷ gs) =
              append_assoc informations (here ∷ []) _
              ∙ ap (λ n. informations ++ here ∷ described blocks_len n gs)
                  (length-append pre (lines R)) in
            (
              R ∷ gs,
              ap (λ es. R ++ es) flat ∙ both,
              (is_run, runs),
              step
                  ∙ rw before (
                      subst
                        (λ b.
                          informations_loop w wb fuel b blocks_len max_entry_length
                            (length (pre ++ lines R)) (informations ++ here ∷ [])
                            (aligned_block ++ lines R)
                          ≡ ok (
                            padded (aligned_block ++ lines R ++ lines B),
                            informations
                                ++ here ∷ []
                                ++ described blocks_len (length (pre ++ lines R)) gs,
                          ))
                        place rest
                      ∙ rw (blocks, all) refl),
            )
      ]

-- The entries of a key, each within the unit length, are split into runs that are read in one
-- piece. The informations describe the runs, the last one first, and the block holds the text of
-- the entries in their order.
pub get_dictionary_block_informations-runs :
    (w : TwoWay) (wb : TwoWayBack) (e : Entry) (es : List Entry) (blocks_len : ℕ)
    → All IsEntry (e ∷ es)
    → All IsShort (e ∷ es)
    → (gs : Runs) × (flat_entries gs ≡ e ∷ es)
      × All IsRun gs
      × (get_dictionary_block_informations w wb (lines (e ∷ es) ++ end) blocks_len []
          ≡ ok (padded (lines (e ∷ es)), reverse (described blocks_len 0 gs)))
unfolding get_dictionary_block_informations
get_dictionary_block_informations-runs w wb e es blocks_len entries short =
    let (gs, flat, runs, done) =
      loop-Splits w wb blocks_len (longest 0 (e ∷ es)) (length (lines (e ∷ es) ++ end)) (e ∷ es) []
        [] [] (omega arith)
        (omega (arith, length-append (lines (e ∷ es)) end, length-lines (e ∷ es))) entries short in
    (gs, flat, runs, rw (get_max_entry_length-longest w e es entries, ◌>>=◌, done) refl)
