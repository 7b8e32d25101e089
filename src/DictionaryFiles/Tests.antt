-- ===== src/DictionaryFiles/Tests.antt =====
-- Runs of the cached block, and the theorems at them.
use yaskkserv.Prelude.{
  ◌≡◌, refl, inl, inr, [], ◌∷◌, arith, ◌==◌, if◌then◌else◌, Bool-cases, Bytes, replicate,
  length-replicate, io, ok, err,
}
use yaskkserv.DictionaryFiles.{filled, failed, DictionaryFile, File, new, read}
use yaskkserv.DictionaryFiles.Cache.{AnswersExactly, IsCached, read-IsCached, read-failed_again}

-- A file that reads as zeros, but fails at position 9.
abbrev zeros : File
zeros seek n = if seek == 9 then failed [] else filled (replicate n 0)

zeros-AnswersExactly : AnswersExactly zeros
zeros-AnswersExactly seek n = elim (Bool-cases (seek == 9)) [
  | inl e ↦ rw e (omega arith)
  | inr e ↦ rw e (length-replicate n 0)
]

new-IsCached : IsCached zeros (new 4)
unfolding new
new-IsCached = record { bytes = []; there = refl; kept = refl }

read-IsCached_example :
    (after : DictionaryFile) × (read zeros 3 2 (new 4) ≡ (ok (0 ∷ 0 ∷ []), after))
    × IsCached zeros after
read-IsCached_example =
    read-IsCached zeros 3 2 (0 ∷ 0 ∷ []) (new 4) zeros-AnswersExactly new-IsCached refl

read-failed_again_example :
    ((read zeros 9 2 (new 4)).0 ≡ err io)
    × ((stale : Bytes) × ((read zeros 9 2 (read zeros 9 2 (new 4)).1).0 ≡ ok stale))
unfolding new
read-failed_again_example = read-failed_again zeros 9 2 [] (new 4) refl refl
