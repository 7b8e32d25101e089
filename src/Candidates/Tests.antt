-- ===== src/Candidates/Tests.antt =====
-- Runs of the functions on candidates, and the theorems at them.
use yaskkserv.Prelude.{
  ◌+◌, ◌≡◌, refl, true, ◌&&◌, ◌||◌, none, some, List, [], ◌∷◌, ◌++◌, arith, if◌then◌else◌, Bytes,
  codes, equal, contains, has_byte, split, join, All,
}
use yaskkserv.Candidates.{
  quote_and_add_prefix, merge_trimmed_slash_candidates, base_units, remove_duplicates,
  remove_duplicates_bytes, slash, semicolon,
}
use yaskkserv.Candidates.Quote.{IsPlain, quote_and_add_prefix-IsPlain}
use yaskkserv.Candidates.Merge.{count, merge_trimmed_slash_candidates-render}
use yaskkserv.Candidates.Units.{words}
use yaskkserv.Candidates.Annotated.{merge_trimmed_slash_candidates-words}
use yaskkserv.Candidates.Duplicates.{
  render, IsDistinct, remove_duplicates-IsDistinct, remove_duplicates_bytes-render,
}

merge_runs :
    (merge_trimmed_slash_candidates (codes "ab/cd") (codes "cd/e") ≡ codes "/ab/cd/e/")
    × (merge_trimmed_slash_candidates [] (codes "cd/e") ≡ codes "/cd/e/")
    × (merge_trimmed_slash_candidates (codes "ab/cd") (codes "cd;x/e") ≡ codes "/ab/cd;x/e/")
    × (merge_trimmed_slash_candidates (codes "ab/cd;y") (codes "cd;x/e") ≡ codes "/ab/cd;y/e/")
unfolding merge_trimmed_slash_candidates split has_byte equal
merge_runs = (refl, refl, refl, refl)

duplicates_run : remove_duplicates_bytes (codes "/abc/d/abc/") ≡ codes "/abc/d/"
unfolding remove_duplicates_bytes split join contains equal
duplicates_run = refl

quote_run : quote_and_add_prefix (codes "a;b") (some b'/') ≡ codes "/a(concat \"\\073\")b"
unfolding quote_and_add_prefix
quote_run = refl

quote_and_add_prefix-IsPlain_example : All IsPlain (quote_and_add_prefix (codes "a;b/") none)
quote_and_add_prefix-IsPlain_example = quote_and_add_prefix-IsPlain (codes "a;b/")

merge_trimmed_slash_candidates-render_example :
    (added : List Bytes) × (merge_trimmed_slash_candidates (codes "ab/cd") (codes "cd/e")
      ≡ slash ∷ render (base_units (codes "ab/cd") ++ added))
    × ((u : Bytes)
        → contains u (base_units (codes "ab/cd") ++ added)
          ≡ (contains u (base_units (codes "ab/cd")) || contains u (split slash (codes "cd/e"))))
    × ((u : Bytes)
        → count u added
            + (if contains u (base_units (codes "ab/cd")) && contains u (split slash (codes "cd/e"))
                then 1
                else 0)
          ≡ count u (split slash (codes "cd/e")))
unfolding has_byte
merge_trimmed_slash_candidates-render_example =
    merge_trimmed_slash_candidates-render (codes "ab/cd") (codes "cd/e") refl refl

merge_trimmed_slash_candidates-words_example :
    (kept added : List Bytes) × (merge_trimmed_slash_candidates (codes "ab/cd") (codes "cd;x/e")
      ≡ slash ∷ render (kept ++ added))
    × (words kept ≡ words (base_units (codes "ab/cd")))
    × ((w : Bytes)
        → (contains w (words kept) || contains w (words added)) ≡ (
            contains w (words (base_units (codes "ab/cd")))
            || contains w (words (split slash (codes "cd;x/e")))))
    × ((b : Bytes)
        → has_byte semicolon b ≡ true
        → contains b (base_units (codes "ab/cd")) ≡ true
        → contains b kept ≡ true)
    × ((n : Bytes) → contains n added ≡ true → contains n (split slash (codes "cd;x/e")) ≡ true)
    × ((w : Bytes)
        → count w (words added)
            + (if contains w (words (base_units (codes "ab/cd")))
                  && contains w (words (split slash (codes "cd;x/e")))
                then 1
                else 0)
          ≡ count w (words (split slash (codes "cd;x/e"))))
unfolding has_byte
merge_trimmed_slash_candidates-words_example =
    merge_trimmed_slash_candidates-words (codes "ab/cd") (codes "cd;x/e") refl

remove_duplicates-IsDistinct_example :
    IsDistinct (remove_duplicates (codes "a" ∷ codes "b" ∷ codes "a" ∷ []))
    × ((u : Bytes)
        → contains u (remove_duplicates (codes "a" ∷ codes "b" ∷ codes "a" ∷ []))
          ≡ contains u (codes "a" ∷ codes "b" ∷ codes "a" ∷ []))
remove_duplicates-IsDistinct_example =
    remove_duplicates-IsDistinct (codes "a" ∷ codes "b" ∷ codes "a" ∷ [])

remove_duplicates_bytes-render_example :
    remove_duplicates_bytes (codes "/ab/c/ab/")
    ≡ slash ∷ render (remove_duplicates (codes "ab" ∷ codes "c" ∷ codes "ab" ∷ []))
remove_duplicates_bytes-render_example =
    remove_duplicates_bytes-render (codes "ab" ∷ codes "c" ∷ codes "ab" ∷ []) (
      (cc, (omega arith, (omega arith, tt))),
      ((cc, (omega arith, tt)), ((cc, (omega arith, (omega arith, tt))), tt)),
    )
