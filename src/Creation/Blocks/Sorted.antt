-- ===== src/Creation/Blocks/Sorted.antt =====
-- The order of the informations that src/skk/yaskkserv2_make_dictionary/dictionary_creator.rs
-- makes, where the entries come in the order of a `BTreeMap`: by midashi, each once. It is what the
-- search of src/skk/yaskkserv2/dictionary_reader.rs relies on.
use yaskkserv.Prelude.{
  ℕ, suc, ◌+◌, ◌≡◌, refl, sym, ap, ◌∙◌, subst, true, false, some, List, [], ◌∷◌, ◌++◌, reverse,
  reverse-cons, append_assoc, arith, Bytes, less, less_irrefl, less_asymm, length, get_elem?,
  length-append, All, All-append, All-back,
}
use yaskkserv.BlockSearch.{DictionaryBlockInformation, Informations, skip}
use yaskkserv.BlockSearch.Order.{IsDescending}
use yaskkserv.Creation.Blocks.Entries.{lines-append, Entry, lines}
use yaskkserv.Creation.Blocks.Runs.{information, first_midashi}
use yaskkserv.Creation.Blocks.Runs.Whole.{Runs, flat_entries, IsRun, described}

abbrev pub Above : Bytes → Informations → Type 0
Above m = All (λ v. less m v.midashi ≡ true)

-- Each midashi is below all that follow.
abbrev pub IsSorted : List Entry → Type 0
IsSorted [] = Unit
IsSorted (e ∷ es) = All (λ f. less e.midashi f.midashi ≡ true) es × IsSorted es

abbrev pub IsAscending : Informations → Type 0
IsAscending [] = Unit
IsAscending (v ∷ vs) = Above v.midashi vs × IsAscending vs

pub IsSorted-back : (es fs : List Entry) → IsSorted (es ++ fs) → IsSorted fs
IsSorted-back [] fs h = h
IsSorted-back (e ∷ es) fs h = IsSorted-back es fs h.1

-- What is below all entries of some runs is below their informations.
pub Above-described :
    (m : Bytes) (blocks_len o : ℕ) (gs : Runs)
    → All IsRun gs
    → All (λ f. less m f.midashi ≡ true) (flat_entries gs)
    → Above m (described blocks_len o gs)
Above-described m blocks_len o [] runs h = tt
Above-described m blocks_len o ([] ∷ gs) runs h = absurd (omega (arith, runs.0.0))
Above-described m blocks_len o ((e ∷ es) ∷ gs) runs h = (
  h.0,
  Above-described m blocks_len (o + length (lines (e ∷ es))) gs runs.1
      (All-back (λ f. less m f.midashi ≡ true) es (flat_entries gs) h.1),
)

pub described-IsAscending :
    (blocks_len o : ℕ) (gs : Runs)
    → All IsRun gs
    → IsSorted (flat_entries gs)
    → IsAscending (described blocks_len o gs)
described-IsAscending blocks_len o [] runs h = tt
described-IsAscending blocks_len o ([] ∷ gs) runs h = absurd (omega (arith, runs.0.0))
described-IsAscending blocks_len o ((e ∷ es) ∷ gs) runs h = (
  Above-described e.midashi blocks_len (o + length (lines (e ∷ es))) gs runs.1
      (All-back (λ f. less e.midashi f.midashi ≡ true) es (flat_entries gs) h.0),
  described-IsAscending blocks_len (o + length (lines (e ∷ es))) gs runs.1
      (IsSorted-back es (flat_entries gs) h.1),
)

IsDescending-snoc :
    (vs : Informations) (v : DictionaryBlockInformation)
    → IsDescending vs
    → Above v.midashi vs
    → IsDescending (vs ++ v ∷ [])
IsDescending-snoc [] v h above = tt
IsDescending-snoc (x ∷ []) v h above = (above.0, tt)
IsDescending-snoc (x ∷ y ∷ vs) v h above = (h.0, IsDescending-snoc (y ∷ vs) v h.1 above.1)

pub All-reverse :
    (P : DictionaryBlockInformation → Type 0) (vs : Informations) → All P vs → All P (reverse vs)
All-reverse P [] h = tt
All-reverse P (v ∷ vs) h =
    subst (All P) (sym (reverse-cons v vs))
      (All-append P (reverse vs) (v ∷ []) (All-reverse P vs h.1) (h.0, tt))

pub reverse-IsDescending : (vs : Informations) → IsAscending vs → IsDescending (reverse vs)
reverse-IsDescending [] h = tt
reverse-IsDescending (v ∷ vs) h = subst IsDescending (sym (reverse-cons v vs)) (
    IsDescending-snoc (reverse vs) v (reverse-IsDescending vs h.1)
      (All-reverse (λ x. less v.midashi x.midashi ≡ true) vs h.0))

pub reverse-split :
    (vs : Informations) (v : DictionaryBlockInformation) (ws : Informations)
    → reverse (vs ++ v ∷ ws) ≡ reverse ws ++ v ∷ reverse vs
reverse-split [] v ws = reverse-cons v ws
reverse-split (u ∷ vs) v ws =
    reverse-cons u (vs ++ v ∷ ws)
    ∙ (ap (λ xs. xs ++ u ∷ []) (reverse-split vs v ws)
        ∙ (append_assoc (reverse ws) (v ∷ reverse vs) (u ∷ [])
            ∙ ap (λ xs. reverse ws ++ v ∷ xs) (sym (reverse-cons u vs))))

pub skip-place :
    (m : Bytes) (xs zs : Informations) (v : DictionaryBlockInformation)
    → Above m xs
    → less m v.midashi ≡ false
    → skip m (xs ++ v ∷ zs) ≡ length xs
unfolding skip
skip-place m [] zs v above at = rw at refl
skip-place m (x ∷ xs) zs v above at = rw (above.0) (ap suc (skip-place m xs zs v above.1 at))

pub get_elem?-place :
    (xs zs : Informations) (v : DictionaryBlockInformation)
    → get_elem? (xs ++ v ∷ zs) (length xs) ≡ some v
get_elem?-place [] zs v = refl
get_elem?-place (x ∷ xs) zs v = get_elem?-place xs zs v

pub length-reverse : (vs : Informations) → length (reverse vs) ≡ length vs
length-reverse [] = refl
length-reverse (v ∷ vs) =
    omega
      (arith, ap length (reverse-cons v vs), length-append (reverse vs) (v ∷ []), length-reverse vs)

pub length-described :
    (blocks_len o : ℕ) (gs : Runs) → length (described blocks_len o gs) ≡ length gs
length-described blocks_len o [] = refl
length-described blocks_len o (g ∷ gs) =
    ap suc (length-described blocks_len (o + length (lines g)) gs)

pub described-append :
    (blocks_len o : ℕ) (fs gs : Runs)
    → described blocks_len o (fs ++ gs)
      ≡ described blocks_len o fs ++ described blocks_len (o + length (lines (flat_entries fs))) gs
described-append blocks_len o [] gs = ap (λ n. described blocks_len n gs) (omega arith)
described-append blocks_len o (f ∷ fs) gs =
    let next : o + length (lines f) + length (lines (flat_entries fs))
        ≡ o + length (lines (f ++ flat_entries fs)) =
      omega (
        arith,
        ap length (lines-append f (flat_entries fs)),
        length-append (lines f) (lines (flat_entries fs)),
      ) in
    ap (λ vs. information blocks_len o f ∷ vs)
      (described-append blocks_len (o + length (lines f)) fs gs
        ∙ ap (λ n. described blocks_len (o + length (lines f)) fs ++ described blocks_len n gs)
            next)

pub flat_entries-append :
    (fs gs : Runs) → flat_entries (fs ++ gs) ≡ flat_entries fs ++ flat_entries gs
flat_entries-append [] gs = refl
flat_entries-append (f ∷ fs) gs =
    ap (λ es. f ++ es) (flat_entries-append fs gs) ∙ sym (append_assoc f (flat_entries fs) _)

-- The first midashi of a run is not above one in the run.
pub first-not_above :
    (before after rest : List Entry) (x : Entry)
    → IsSorted (before ++ x ∷ after ++ rest)
    → less x.midashi (first_midashi (before ++ x ∷ after)) ≡ false
first-not_above [] after rest x h = less_irrefl x.midashi
first-not_above (e ∷ before) after rest x h = less_asymm e.midashi x.midashi (reach before h.0)
  where
    reach :
        (before : List Entry)
        → All (λ f. less e.midashi f.midashi ≡ true) (before ++ x ∷ after ++ rest)
        → less e.midashi x.midashi ≡ true
    reach [] h = h.0
    reach (f ∷ before) h = reach before h.1
