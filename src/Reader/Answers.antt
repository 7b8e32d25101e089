-- ===== src/Reader/Answers.antt =====
-- The answer of src/skk/yaskkserv2/dictionary_reader.rs to a request, from the index, the file and
-- the block together.
use yaskkserv.Prelude.{
  ℕ, ◌+◌, ◌≡◌, refl, ap, false, none, some, [], ◌∷◌, ◌++◌, Bytes, Lacks, get_elem?, ok,
}
use yaskkserv.BlockSearch.{
  Informations, DictionaryBlockInformation, get_block_informations_index, skip,
}
use yaskkserv.BlockSearch.Order.{IsDescending}
use yaskkserv.BlockSearch.Index.{get_block_informations_index-skip}
use yaskkserv.DictionaryFiles.{File, DictionaryFile}
use yaskkserv.DictionaryFiles.Cache.{AnswersExactly, Holds, IsCached, read-IsCached}
use yaskkserv.Substrings.{TwoWay}
use yaskkserv.Substrings.Positions.{slice_from-suc}
use yaskkserv.Midashi.{
  DictionaryMidashiKey, get_dictionary_midashi_key, get_block_information_vectors,
}
use yaskkserv.Midashi.Keys.{get_midashi-request}
use yaskkserv.Candidates.{slash}
use yaskkserv.Reader.{read_dictionary_for_read_candidates, add_candidates, is_empty_candidates}
use yaskkserv.Reader.Blocks.{IsBlockOf, search_block-entry}
use yaskkserv.Reader.Lookup.{
  Environment, disable, is_first, is_last, is_not_found, prepare, look_up, read_candidates,
}

-- The block that the index gives for the midashi holds its line.
pub record IsListed (file : File) (blocks_offset : ℕ) (informations : Informations)
    (midashi candidates : Bytes) : Type 0 where
  pub unit : DictionaryBlockInformation
  pub block : Bytes
  pub before : Bytes
  pub after : Bytes
  pub ordered : IsDescending informations
  pub indexed : get_elem? informations (skip midashi informations) ≡ some unit
  pub held : Holds file (blocks_offset + unit.offset) unit.length block
  pub line : IsBlockOf block midashi before candidates after
  pub one_line : Lacks b'\n' candidates

-- A listed midashi is found: its candidates are added to the result, and the buffer stays in step
-- with the file, which fills what it is asked for.
pub read_dictionary_for_read_candidates-found :
    (w : TwoWay) (file : File) (midashi candidates : Bytes) (informations : Informations)
    (blocks_offset : ℕ) (d : DictionaryFile) (result : Bytes)
    → AnswersExactly file
    → IsCached file d
    → IsListed file blocks_offset informations midashi candidates
    → (d' : DictionaryFile) × (read_dictionary_for_read_candidates w file midashi informations
          blocks_offset d result
        ≡ (add_candidates candidates result, d'))
      × IsCached file d'
unfolding read_dictionary_for_read_candidates
read_dictionary_for_read_candidates-found w file midashi candidates informations blocks_offset d
      result exact cached listed =
    let (d', reads, cached') =
      read-IsCached file (blocks_offset + listed.unit.offset) listed.unit.length listed.block d
        exact cached listed.held in
    let index : get_block_informations_index midashi informations ≡ ok (skip midashi informations) =
      get_block_informations_index-skip midashi informations listed.ordered in
    (
      d',
      rw
          (
            index,
            listed.indexed,
            reads,
            search_block-entry w midashi listed.block listed.before candidates listed.after result
                listed.line listed.one_line,
            read_dictionary_for_read_candidates,
          )
          refl,
      cached',
    )

module _ (env : Environment) where
  -- Without Google, the answer to a request for a listed midashi is `b'1'`, a slash and its
  -- candidates, and the buffer stays in step with the file, which fills what it is asked for.
  pub read_candidates-found :
      (midashi candidates : Bytes) (key : DictionaryMidashiKey) (informations : Informations)
      (d : DictionaryFile)
      → env.google_timing ≡ disable
      → get_dictionary_midashi_key (midashi ++ b' ' ∷ []) ≡ ok key
      → get_block_information_vectors env.on_memory key ≡ ok (some informations)
      → AnswersExactly env.file
      → IsCached env.file d
      → IsListed env.file env.on_memory.blocks_offset informations midashi candidates
      → (d' : DictionaryFile) × (read_candidates env (b'1' ∷ midashi ++ b' ' ∷ []) d
          ≡ (ok (b'1' ∷ slash ∷ candidates), d'))
        × IsCached env.file d'
  unfolding prepare look_up add_candidates is_empty_candidates read_candidates
  read_candidates-found midashi candidates key informations d off keyed informed exact cached
        listed =
      let (d', found, cached') =
        read_dictionary_for_read_candidates-found env.two_way env.file midashi candidates
          informations env.on_memory.blocks_offset d (b'1' ∷ []) exact cached listed in
      let prepared : prepare env false (b'1' ∷ midashi ++ b' ' ∷ [])
          ≡ ok (midashi, some informations, b'1' ∷ []) =
        rw
          (
            get_midashi-request b'1' b' ' midashi,
            slice_from-suc b'1' (midashi ++ b' ' ∷ []),
            keyed,
            informed,
            prepare,
          )
          refl in
      let not_first : is_first env.google_timing ≡ false = ap is_first off in
      let not_last : is_last env.google_timing ≡ false = ap is_last off in
      let not_after : is_not_found env.google_timing ≡ false = ap is_not_found off in
      let added : add_candidates candidates (b'1' ∷ []) ≡ ok (b'1' ∷ slash ∷ candidates) = refl in
      (
        d',
        rw (not_first, prepared, found, added, not_last, not_after, read_candidates) refl,
        cached',
      )

  -- Without Google and without blocks for its key, the answer for a midashi is `b'1'` alone.
  pub read_candidates-absent :
      (midashi : Bytes) (key : DictionaryMidashiKey) (d : DictionaryFile)
      → env.google_timing ≡ disable
      → get_dictionary_midashi_key (midashi ++ b' ' ∷ []) ≡ ok key
      → get_block_information_vectors env.on_memory key ≡ ok none
      → read_candidates env (b'1' ∷ midashi ++ b' ' ∷ []) d ≡ (ok (b'1' ∷ []), d)
  unfolding prepare look_up is_empty_candidates read_candidates
  read_candidates-absent midashi key d off keyed uninformed =
      let prepared : prepare env false (b'1' ∷ midashi ++ b' ' ∷ [])
          ≡ ok (midashi, none, b'1' ∷ []) =
        rw
          (
            get_midashi-request b'1' b' ' midashi,
            slice_from-suc b'1' (midashi ++ b' ' ∷ []),
            keyed,
            uninformed,
            prepare,
          )
          refl in
      let not_first : is_first env.google_timing ≡ false = ap is_first off in
      let not_last : is_last env.google_timing ≡ false = ap is_last off in
      let not_after : is_not_found env.google_timing ≡ false = ap is_not_found off in
      rw (not_first, prepared, not_last, not_after, read_candidates) refl
