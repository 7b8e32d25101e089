-- ===== src/Candidates/Units.antt =====
-- The candidates that a merge with annotations may add, and their flags: src/skk/candidates.rs,
-- `merge_annotated_trimmed_slash_candidates`.
use yaskkserv.Prelude.{
  ◌≡◌, refl, sym, ap, ◌∙◌, inl, inr, Bool, true, List, [], ◌∷◌, map, arith, if◌then◌else◌,
  Bool-cases, Bytes, equal, contains, All,
}
use yaskkserv.Candidates.{NewUnit, new_unit, remove_annotate, clear_unit, clear_flag}
use yaskkserv.Candidates.Merge.{flagged, clear_flags}

abbrev pub flagged_units : List NewUnit → List Bytes
flagged_units [] = []
flagged_units (u ∷ us) = if u.add_flag then u.raw ∷ flagged_units us else flagged_units us

abbrev pub clear_units : List Bytes → List NewUnit → List NewUnit
clear_units [] us = us
clear_units (b ∷ bs) us = clear_units bs (clear_unit (remove_annotate b) us)

abbrev pub words : List Bytes → List Bytes
words = map remove_annotate

-- The unit keeps its annotation-free word, and its word is that of its raw bytes.
abbrev pub IsCut : NewUnit → Type 0
IsCut u = u.annotate_removed ≡ remove_annotate u.raw

pub clear_unit-IsCut : (b : Bytes) (us : List NewUnit) → All IsCut us → All IsCut (clear_unit b us)
unfolding clear_unit
clear_unit-IsCut b [] h = tt
clear_unit-IsCut b (u ∷ us) h = elim (Bool-cases (equal u.annotate_removed b)) [
  | inl e ↦ rw e h
  | inr e ↦ rw e (h.0, clear_unit-IsCut b us h.1)
]

pub new_unit-IsCut : (ns : List Bytes) → All IsCut (map new_unit ns)
new_unit-IsCut [] = tt
new_unit-IsCut (n ∷ ns) = (refl, new_unit-IsCut ns)

abbrev pub raws : List NewUnit → List Bytes
raws = map (λ u. u.raw)

raws-clear_unit : (b : Bytes) (us : List NewUnit) → raws (clear_unit b us) ≡ raws us
unfolding clear_unit
raws-clear_unit b [] = refl
raws-clear_unit b (u ∷ us) = elim (Bool-cases (equal u.annotate_removed b)) [
  | inl e ↦ rw e refl
  | inr e ↦ rw e (ap (◌∷◌ u.raw) (raws-clear_unit b us))
]

pub raws-clear_units : (bs : List Bytes) (us : List NewUnit) → raws (clear_units bs us) ≡ raws us
raws-clear_units [] us = refl
raws-clear_units (b ∷ bs) us =
    raws-clear_units bs (clear_unit (remove_annotate b) us) ∙ raws-clear_unit (remove_annotate b) us

pub raws-new_unit : (ns : List Bytes) → raws (map new_unit ns) ≡ ns
raws-new_unit [] = refl
raws-new_unit (n ∷ ns) = ap (◌∷◌ n) (raws-new_unit ns)

pub contains-flagged :
    (n : Bytes) (us : List NewUnit)
    → contains n (flagged_units us) ≡ true
    → contains n (raws us) ≡ true
unfolding contains
contains-flagged n [] h = h
contains-flagged n (u ∷ us) h = ground (arith, contains-flagged n us)

-- The words of the units with their flags, which the merge without annotations reads.
abbrev flags : List NewUnit → List (Bytes × Bool)
flags = map (λ u. (u.annotate_removed, u.add_flag))

flags-clear_unit :
    (b : Bytes) (us : List NewUnit) → flags (clear_unit b us) ≡ clear_flag b (flags us)
unfolding clear_unit clear_flag
flags-clear_unit b [] = refl
flags-clear_unit b (u ∷ us) = elim (Bool-cases (equal u.annotate_removed b)) [
  | inl e ↦ rw e refl
  | inr e ↦ rw e (ap (◌∷◌ (u.annotate_removed, u.add_flag)) (flags-clear_unit b us))
]

flags-clear_units :
    (bs : List Bytes) (us : List NewUnit)
    → flags (clear_units bs us) ≡ clear_flags (words bs) (flags us)
flags-clear_units [] us = refl
flags-clear_units (b ∷ bs) us =
    flags-clear_units bs (clear_unit (remove_annotate b) us)
    ∙ ap (clear_flags (words bs)) (flags-clear_unit (remove_annotate b) us)

clear_units-IsCut :
    (bs : List Bytes) (us : List NewUnit) → All IsCut us → All IsCut (clear_units bs us)
clear_units-IsCut [] us h = h
clear_units-IsCut (b ∷ bs) us h =
    clear_units-IsCut bs (clear_unit (remove_annotate b) us) (clear_unit-IsCut _ us h)

words-flagged : (us : List NewUnit) → All IsCut us → words (flagged_units us) ≡ flagged (flags us)
words-flagged [] h = refl
words-flagged (u ∷ us) h = elim (Bool-cases u.add_flag) [
  | inl e ↦ rw e (λ i. sym h.0 i ∷ words-flagged us h.1 i)
  | inr e ↦ rw e (words-flagged us h.1)
]

flags-new_unit : (ns : List Bytes) → flags (map new_unit ns) ≡ map (λ w. (w, true)) (words ns)
flags-new_unit [] = refl
flags-new_unit (n ∷ ns) = ap (◌∷◌ (remove_annotate n, true)) (flags-new_unit ns)

-- The words added are those that the merge without annotations would add to the words.
pub added_words :
    (bs ns : List Bytes)
    → words (flagged_units (clear_units bs (map new_unit ns)))
      ≡ flagged (clear_flags (words bs) (map (λ w. (w, true)) (words ns)))
added_words bs ns =
    words-flagged (clear_units bs (map new_unit ns)) (clear_units-IsCut bs _ (new_unit-IsCut ns))
    ∙ ap flagged
        (flags-clear_units bs (map new_unit ns) ∙ ap (clear_flags (words bs)) (flags-new_unit ns))
