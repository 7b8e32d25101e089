-- ===== src/Candidates/Annotated.antt =====
-- The merge of candidates with annotations: src/skk/candidates.rs,
-- `merge_annotated_trimmed_slash_candidates`.
use yaskkserv.Prelude.{
  ◌+◌, ◌≡◌, refl, sym, ap, ◌∙◌, inl, inr, true, ◌&&◌, ◌||◌, Option, none, some, List, [], ◌∷◌, ◌++◌,
  map, append_assoc, append-nil, arith, if◌then◌else◌, Bool-cases, Bytes, equal, equal_iff,
  contains, has_byte, split, All,
}
use yaskkserv.Candidates.{
  slash, semicolon, NewUnit, new_unit, remove_annotate, find_unit, clear_unit, choose,
  merge_annotated_base, add_new_units, merge_annotated_trimmed_slash_candidates, base_units,
  merge_trimmed_slash_candidates,
}
use yaskkserv.Candidates.Duplicates.{render}
use yaskkserv.Candidates.Units.{
  flagged_units, clear_units, words, IsCut, clear_unit-IsCut, new_unit-IsCut, raws-clear_units,
  raws-new_unit, contains-flagged, added_words,
}
use yaskkserv.Candidates.Merge.{render-append, count, count-added}

-- What the base candidates contribute, one piece for each.
abbrev chosen : List Bytes → List NewUnit → List Bytes
chosen [] us = []
chosen (b ∷ bs) us =
    choose b (find_unit (remove_annotate b) us) ∷ chosen bs (clear_unit (remove_annotate b) us)

merge_annotated_base_lem :
    (bs : List Bytes) (r : Bytes) (us : List NewUnit)
    → merge_annotated_base bs r us ≡ (r ++ render (chosen bs us), clear_units bs us)
unfolding merge_annotated_base
merge_annotated_base_lem [] r us = rw append-nil
merge_annotated_base_lem (b ∷ bs) r us = simp (merge_annotated_base_lem bs, append_assoc)

add_new_units_lem :
    (us : List NewUnit) (r : Bytes) → add_new_units us r ≡ r ++ render (flagged_units us)
unfolding add_new_units
add_new_units_lem [] r = sym (append-nil r)
add_new_units_lem (u ∷ us) r = elim (Bool-cases u.add_flag) [
  | inl e ↦ rw e (rw (add_new_units_lem us) (simp append_assoc))
  | inr e ↦ rw e (add_new_units_lem us r)
]

merge_annotated-render :
    (base new : Bytes)
    → merge_annotated_trimmed_slash_candidates base new
      ≡ slash
        ∷ render (
            chosen (base_units base) (map new_unit (split slash new))
            ++ flagged_units (clear_units (base_units base) (map new_unit (split slash new))))
unfolding merge_annotated_trimmed_slash_candidates
merge_annotated-render base new =
    rw merge_annotated_base_lem
      (rw add_new_units_lem (ap (◌∷◌ slash) (sym (render-append (chosen (base_units base) _) _))))

choose-some :
    (b : Bytes) (u : NewUnit)
    → IsCut u
    → u.annotate_removed ≡ remove_annotate b
    → remove_annotate (choose b (some u)) ≡ remove_annotate b
unfolding choose
choose-some b u cut same = ground arith

choose_annotated : (b : Bytes) (o : Option NewUnit) → has_byte semicolon b ≡ true → choose b o ≡ b
unfolding choose
choose_annotated b none h = refl
choose_annotated b (some u) h = rw h

choose_word :
    (b : Bytes) (us : List NewUnit)
    → All IsCut us
    → remove_annotate (choose b (find_unit (remove_annotate b) us)) ≡ remove_annotate b
unfolding choose find_unit
choose_word b [] h = refl
choose_word b (u ∷ us) h = elim (Bool-cases (equal u.annotate_removed (remove_annotate b))) [
  | inl e ↦ rw e (choose-some b u h.0 ((equal_iff _ _).0 e))
  | inr e ↦ rw e (choose_word b us h.1)
]

-- The base words come out in their order.
chosen-words :
    (bs : List Bytes) (us : List NewUnit) → All IsCut us → words (chosen bs us) ≡ words bs
chosen-words [] us h = refl
chosen-words (b ∷ bs) us h = λ i.
    choose_word b us h i
    ∷ chosen-words bs (clear_unit (remove_annotate b) us) (clear_unit-IsCut _ us h) i

chosen_annotated :
    (b : Bytes) (bs : List Bytes) (us : List NewUnit)
    → has_byte semicolon b ≡ true
    → contains b bs ≡ true
    → contains b (chosen bs us) ≡ true
unfolding contains
chosen_annotated b [] us h m = cc
chosen_annotated b (c ∷ bs) us h m = elim (Bool-cases (equal b c)) [
  | inl e ↦
      let same = (equal_iff b c).0 e in
      let stays = choose_annotated c (find_unit (remove_annotate c) us) (rw same at h) in
      rw stays (rw e)
  | inr e ↦ ground (arith, chosen_annotated b bs (clear_unit (remove_annotate c) us) h (rw e at m))
]

flagged_units-clear_unit :
    (w b : Bytes) (us : List NewUnit)
    → All IsCut us
    → (contains w (words (flagged_units (clear_unit b us))) || equal w b)
      ≡ (contains w (words (flagged_units us)) || equal w b)
unfolding contains clear_unit
flagged_units-clear_unit w b [] h = refl
flagged_units-clear_unit w b (u ∷ us) h = ground (
  arith,
  flagged_units-clear_unit w b us h.1,
  equal_iff u.annotate_removed b,
  equal_iff w b,
  equal_iff w (remove_annotate u.raw),
  h.0,
)

flagged_units-clear_units :
    (w : Bytes) (bs : List Bytes) (us : List NewUnit)
    → All IsCut us
    → (contains w (words bs) || contains w (words (flagged_units (clear_units bs us))))
      ≡ (contains w (words bs) || contains w (words (flagged_units us)))
unfolding contains
flagged_units-clear_units w [] us h = refl
flagged_units-clear_units w (b ∷ bs) us h = ground (
  arith,
  flagged_units-clear_units w bs (clear_unit (remove_annotate b) us) (clear_unit-IsCut _ us h),
  flagged_units-clear_unit w (remove_annotate b) us h,
)

flagged_units-new_unit : (ns : List Bytes) → flagged_units (map new_unit ns) ≡ ns
flagged_units-new_unit [] = refl
flagged_units-new_unit (n ∷ ns) = ap (◌∷◌ n) (flagged_units-new_unit ns)

-- With an annotation on either side the merge writes a slash-separated list whose words, annotations
-- removed, begin with those of the base in their order, and are exactly those of the two lists. A
-- base candidate that has an annotation is kept with it. What is added are new candidates as they
-- are, and of those with a word that the base has, exactly one is left out for each such word.
pub merge_trimmed_slash_candidates-words :
    (base new : Bytes)
    → (has_byte semicolon base || has_byte semicolon new) ≡ true
    → (kept added : List Bytes) × (merge_trimmed_slash_candidates base new
        ≡ slash ∷ render (kept ++ added))
      × (words kept ≡ words (base_units base))
      × ((w : Bytes)
          → (contains w (words kept) || contains w (words added))
            ≡ (contains w (words (base_units base)) || contains w (words (split slash new))))
      × ((b : Bytes)
          → has_byte semicolon b ≡ true
          → contains b (base_units base) ≡ true
          → contains b kept ≡ true)
      × ((n : Bytes) → contains n added ≡ true → contains n (split slash new) ≡ true)
      × ((w : Bytes)
          → count w (words added)
              + (if contains w (words (base_units base)) && contains w (words (split slash new))
                  then 1
                  else 0)
            ≡ count w (words (split slash new)))
unfolding merge_trimmed_slash_candidates
merge_trimmed_slash_candidates-words base new h =
    let us = map new_unit (split slash new) in
    let cut = new_unit-IsCut (split slash new) in
    let order = chosen-words (base_units base) us cut in
    (
      chosen (base_units base) us,
      flagged_units (clear_units (base_units base) us),
      rw h (merge_annotated-render base new),
      order,
      λ w.
          rw order
            (flagged_units-clear_units w (base_units base) us cut ∙ rw flagged_units-new_unit),
      λ b. chosen_annotated b (base_units base) us,
      λ n h.
          rw (raws-clear_units (base_units base) us ∙ raws-new_unit (split slash new)) at
            (contains-flagged n (clear_units (base_units base) us) h),
      λ w.
          rw (added_words (base_units base) (split slash new))
            (count-added w (words (base_units base)) (words (split slash new))),
    )
