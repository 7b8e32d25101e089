-- ===== src/Loading/Lookups.antt =====
-- What src/skk/yaskkserv2/dictionary_reader.rs finds in the maps of src/skk/dictionary.rs.
use yaskkserv.Prelude.{
  ℕ, zero, suc, ◌<◌, ◌≡◌, refl, ap, ◌∙◌, ◌≢◌, inl, inr, Bool, false, Option, none, some, List, [],
  ◌∷◌, arith, ◌==◌, if◌then◌else◌, lt→ltb, ==_iff, Bool-cases, Option-cases, length, get_elem?, set,
  replicate, length-replicate, length-set, get_elem?-set_self, get_elem?-set_ne, All, Result, ok,
}
use yaskkserv.BlockSearch.{Informations}
use yaskkserv.Midashi.{
  DictionaryMidashiKey, get_ascii_hiragana_vec_index, get_block_information_vectors, same_key,
  nonempty,
}
use yaskkserv.Creation.IndexData.{IndexUnit}
use yaskkserv.Loading.{empty_index, Index, insert, index_ascii_hiragana_vec_length}
use yaskkserv.Loading.Blocks.{insert_all}

abbrev pub lookup : DictionaryMidashiKey → Index → Result (Option Informations)
lookup k index =
    get_block_information_vectors
      (record {
        blocks_offset = 0;
        encoding = 0;
        index_map = index.index_map;
        index_ascii_hiragana_vec = index.index_ascii_hiragana_vec;
      })
      k

-- Whether two keys are kept in the same place.
abbrev pub same_slot : DictionaryMidashiKey → DictionaryMidashiKey → Bool
same_slot k k' = elim (get_ascii_hiragana_vec_index k) [
  | some i ↦ elim (get_ascii_hiragana_vec_index k') [ some j ↦ i == j | none ↦ false ]
  | none ↦ elim (get_ascii_hiragana_vec_index k') [ some j ↦ false | none ↦ same_key k k' ]
]

-- The first two bytes of a key are bytes.
abbrev pub IsKey : DictionaryMidashiKey → Type 0
IsKey k = (k.k0 < 256) × (k.k1 < 256)

abbrev pub IsIndex : Index → Type 0
IsIndex index = length index.index_ascii_hiragana_vec ≡ index_ascii_hiragana_vec_length

in_range :
    (k : DictionaryMidashiKey) (i : ℕ)
    → IsKey k
    → get_ascii_hiragana_vec_index k ≡ some i
    → i < index_ascii_hiragana_vec_length
unfolding get_ascii_hiragana_vec_index
in_range k i h found = ground (arith, h.0, h.1, found)

==_ne : (i j : ℕ) → (j == i) ≡ false → i ≢ j
==_ne i j other same = ground (arith, same, other)

nonempty-some : (v : Informations) → 0 < length v → nonempty v ≡ some v
nonempty-some [] h = absurd (omega (arith, h))
nonempty-some (x ∷ v) h = refl

module _ (index : Index) (k : DictionaryMidashiKey) (v : Informations) where
  abbrev kept : Index
  kept = record {
    index_map = (k, v) ∷ index.index_map;
    index_ascii_hiragana_vec = index.index_ascii_hiragana_vec;
  }

  abbrev placed : ℕ → Index
  placed i = record {
    index_map = index.index_map;
    index_ascii_hiragana_vec = set index.index_ascii_hiragana_vec i v;
  }

  lookup-kept :
      (k' : DictionaryMidashiKey)
      → get_ascii_hiragana_vec_index k ≡ none
      → lookup k' kept ≡ (if same_slot k' k then ok (some v) else lookup k' index)
  unfolding get_block_information_vectors
  lookup-kept k' at = elim (Option-cases (get_ascii_hiragana_vec_index k')) [
    | inl e ↦
        rw (e, at, lookup, get_block_information_vectors, same_slot)
          (elim (Bool-cases (same_key k' k)) [
            | inl same ↦ rw same refl
            | inr other ↦ rw other refl
          ])
    | inr (j, e) ↦ rw (e, at, lookup, get_block_information_vectors, same_slot) refl
  ]

  lookup-placed :
      (i : ℕ) (k' : DictionaryMidashiKey)
      → get_ascii_hiragana_vec_index k ≡ some i
      → i < length index.index_ascii_hiragana_vec
      → 0 < length v
      → lookup k' (placed i) ≡ (if same_slot k' k then ok (some v) else lookup k' index)
  unfolding get_block_information_vectors
  lookup-placed i k' at small full = elim (Option-cases (get_ascii_hiragana_vec_index k')) [
    | inl e ↦ rw (e, at, lookup, get_block_information_vectors, same_slot) refl
    | inr (j, e) ↦
        rw (e, at, lookup, get_block_information_vectors, same_slot)
          (elim (Bool-cases (j == i)) [
            | inl same ↦
                rw
                  (
                    same,
                    (==_iff j i).0 same,
                    get_elem?-set_self index.index_ascii_hiragana_vec i v small,
                  )
                  (ap ok (nonempty-some v full))
            | inr other ↦
                rw (other, get_elem?-set_ne index.index_ascii_hiragana_vec v (==_ne i j other)) refl
          ])
  ]

-- What an insertion gives: maps of the same shape, in which the key's place has the informations
-- and no other place is changed.
abbrev pub Places : Index → DictionaryMidashiKey → Informations → Result Index → Type 0
Places index k v r =
    (index' : Index) × (r ≡ ok index')
    × IsIndex index'
    × ((k' : DictionaryMidashiKey)
        → lookup k' index' ≡ (if same_slot k' k then ok (some v) else lookup k' index))

pub insert-Places :
    (index : Index) (k : DictionaryMidashiKey) (v : Informations)
    → IsIndex index
    → IsKey k
    → 0 < length v
    → Places index k v (insert k v index)
unfolding insert
insert-Places index k v shape range full = elim (Option-cases (get_ascii_hiragana_vec_index k)) [
  | inl e ↦
      let done : insert k v index ≡ ok (kept index k v) = rw (insert, e) refl in
      (kept index k v, done, shape, λ k'. lookup-kept index k v k' e)
  | inr (i, e) ↦
      let small : i < length index.index_ascii_hiragana_vec =
        omega (arith, shape, in_range k i range e) in
      let done : insert k v index ≡ ok (placed index k v i) =
        rw (insert, e, lt→ltb _ _ small) refl in
      (
        placed index k v i,
        done,
        length-set index.index_ascii_hiragana_vec i v ∙ shape,
        λ k'. lookup-placed index k v i k' e small full,
      )
]

-- The informations of the last unit in a key's place, and before any unit what was there.
unfoldable pub last_unit :
    DictionaryMidashiKey
    → List IndexUnit
    → Result (Option Informations)
    → Result (Option Informations)
last_unit k [] before = before
last_unit k (u ∷ us) before =
    last_unit k us (if same_slot k u.unit_key then ok (some u.informations) else before)

abbrev pub IsIndexUnit : IndexUnit → Type 0
IsIndexUnit u = IsKey u.unit_key × (0 < length u.informations)

pub insert_all-last_unit :
    (us : List IndexUnit) (index : Index)
    → IsIndex index
    → All IsIndexUnit us
    → (index' : Index) × (insert_all us index ≡ ok index')
      × ((k : DictionaryMidashiKey) → lookup k index' ≡ last_unit k us (lookup k index))
unfolding insert_all last_unit
insert_all-last_unit [] index shape units = (index, refl, λ k. refl)
insert_all-last_unit (u ∷ us) index shape units =
    let (first, inserted, shape', looked) =
      insert-Places index u.unit_key u.informations shape units.0.0 units.0.1 in
    let (index', done, rest) = insert_all-last_unit us first shape' units.1 in
    rw inserted (index', done, λ k. rest k ∙ ap (last_unit k us) (looked k))

get_elem?-replicate : {A : Type 0} (n i : ℕ) (a : A) → i < n → get_elem? (replicate n a) i ≡ some a
get_elem?-replicate zero i a h = absurd (omega (arith, h))
get_elem?-replicate (suc n) zero a h = refl
get_elem?-replicate (suc n) (suc i) a h = get_elem?-replicate n i a (omega (arith, h))

pub empty_index-IsIndex : IsIndex empty_index
empty_index-IsIndex = length-replicate {A = Informations} index_ascii_hiragana_vec_length []

-- There is nothing in the maps before the first insertion.
pub lookup-empty_index : (k : DictionaryMidashiKey) → IsKey k → lookup k empty_index ≡ ok none
unfolding get_block_information_vectors
lookup-empty_index k range = elim (Option-cases (get_ascii_hiragana_vec_index k)) [
  | inl e ↦ rw (lookup, get_block_information_vectors, e) refl
  | inr (i, e) ↦
      rw
        (
          lookup,
          get_block_information_vectors,
          e,
          get_elem?-replicate {A = Informations} index_ascii_hiragana_vec_length i []
              (in_range k i range e),
        )
        refl
]
