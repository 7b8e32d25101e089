-- ===== src/Candidates/Duplicates.antt =====
-- Removal of duplicates: src/skk/candidates.rs, `remove_duplicates` and `remove_duplicates_bytes`.
use yaskkserv.Prelude.{
  ◌≡◌, refl, ap, ◌∙◌, ◌≢◌, inl, inr, Bool, true, false, not, ◌&&◌, List, [], ◌∷◌, ◌++◌,
  append_assoc, arith, Bool-cases, Bytes, Lacks, equal, equal_iff, equal_self, contains, split,
  join, split-append, All,
}
use yaskkserv.Candidates.{slash, filter_inserted, remove_duplicates, remove_duplicates_bytes}

-- No candidate occurs twice.
abbrev pub IsDistinct : List Bytes → Type 0
IsDistinct [] = Unit
IsDistinct (v ∷ vs) = (contains v vs ≡ false) × IsDistinct vs

-- The candidates of a list, each with a slash behind it.
abbrev pub render : List Bytes → Bytes
render [] = []
render (u ∷ us) = u ++ slash ∷ render us

-- A candidate that a slash-separated list can hold.
abbrev pub IsCandidate : Bytes → Type 0
IsCandidate u = (u ≢ []) × Lacks slash u

and_true : (b : Bool) → (b && true) ≡ b
and_true b = ground arith

fresh_cons :
    (v : Bytes) (hash vs : List Bytes)
    → contains v vs ≡ false
    → All (λ u. contains u hash ≡ false) vs
    → All (λ u. contains u (v ∷ hash) ≡ false) vs
unfolding contains
fresh_cons v hash [] ne f = tt
fresh_cons v hash (u ∷ us) ne f = (
  ground (arith, equal_iff u v, equal_iff v u, ne, f.0),
  fresh_cons v hash us (ground (arith, ne)) f.1,
)

fresh_nil : (vs : List Bytes) → All (λ u. contains u [] ≡ false) vs
unfolding contains
fresh_nil [] = tt
fresh_nil (v ∷ vs) = (refl, fresh_nil vs)

contains-filter_inserted :
    (u : Bytes) (hash vs : List Bytes)
    → contains u (filter_inserted hash vs) ≡ (contains u vs && not (contains u hash))
unfolding contains filter_inserted
contains-filter_inserted u hash [] = refl
contains-filter_inserted u hash (v ∷ vs) = elim (Bool-cases (contains v hash)) [
  | inl old ↦ ground (arith, contains-filter_inserted u hash vs, equal_iff u v, old)
  | inr new ↦ ground (arith, contains-filter_inserted u (v ∷ hash) vs, equal_iff u v, new)
]

filter_inserted-IsDistinct : (hash vs : List Bytes) → IsDistinct (filter_inserted hash vs)
unfolding filter_inserted
filter_inserted-IsDistinct hash [] = tt
filter_inserted-IsDistinct hash (v ∷ vs) = elim (Bool-cases (contains v hash)) [
  | inl old ↦ rw old (filter_inserted-IsDistinct hash vs)
  | inr new ↦ rw new (
    contains-filter_inserted v (v ∷ hash) vs ∙ seen v hash (contains v vs),
    filter_inserted-IsDistinct (v ∷ hash) vs,
  )
]
  where
    seen : (v : Bytes) (hash : List Bytes) (b : Bool) → (b && not (contains v (v ∷ hash))) ≡ false
    seen v hash b = unfold contains in ground (arith, equal_self v)

-- `remove_duplicates` gives a list of the same candidates, each of them once.
pub remove_duplicates-IsDistinct :
    (vs : List Bytes)
    → IsDistinct (remove_duplicates vs)
      × ((u : Bytes) → contains u (remove_duplicates vs) ≡ contains u vs)
unfolding remove_duplicates contains
remove_duplicates-IsDistinct vs = (
  filter_inserted-IsDistinct [] vs,
  λ u. contains-filter_inserted u [] vs ∙ and_true (contains u vs),
)

filter_inserted_id :
    (hash vs : List Bytes)
    → IsDistinct vs
    → All (λ v. contains v hash ≡ false) vs
    → filter_inserted hash vs ≡ vs
unfolding filter_inserted
filter_inserted_id hash [] d f = refl
filter_inserted_id hash (v ∷ vs) d f =
    rw f.0 (ap (◌∷◌ v) (filter_inserted_id (v ∷ hash) vs d.1 (fresh_cons v hash vs d.0 f.1)))

-- Removing the duplicates a second time changes nothing.
pub remove_duplicates-remove_duplicates :
    (vs : List Bytes) → remove_duplicates (remove_duplicates vs) ≡ remove_duplicates vs
unfolding remove_duplicates
remove_duplicates-remove_duplicates vs =
    filter_inserted_id [] _ (filter_inserted-IsDistinct [] vs) (fresh_nil (filter_inserted [] vs))

split-render : (us : List Bytes) → All IsCandidate us → split slash (render us) ≡ us ++ [] ∷ []
split-render [] h = unfold split in refl
split-render (u ∷ us) h = split-append slash u (render us) h.0.1 ∙ ap (◌∷◌ u) (split-render us h.1)

join-render : (us : List Bytes) → join slash ([] ∷ us) ++ slash ∷ [] ≡ slash ∷ render us
unfolding join
join-render [] = refl
join-render (u ∷ us) = ap (◌∷◌ slash) (go u us)
  where
    go : (u : Bytes) (us : List Bytes) → join slash (u ∷ us) ++ slash ∷ [] ≡ u ++ slash ∷ render us
    go u [] = refl
    go u (v ∷ vs) = append_assoc u _ _ ∙ ap (λ t. u ++ slash ∷ t) (go v vs)

-- Two hashes that agree on what is not empty let the same candidates through.
filter_inserted-agree :
    (hash hash' us : List Bytes)
    → contains [] hash ≡ true
    → ((u : Bytes) → u ≢ [] → contains u hash ≡ contains u hash')
    → All IsCandidate us
    → filter_inserted hash (us ++ [] ∷ []) ≡ filter_inserted hash' us
unfolding filter_inserted
filter_inserted-agree hash hash' [] e agree h = rw e
filter_inserted-agree hash hash' (u ∷ us) e agree h = rw (agree u h.0.0) (
    rw (
      filter_inserted-agree hash hash' us e agree h.1,
      filter_inserted-agree (u ∷ hash) (u ∷ hash') us (unfold contains in ground (arith, e))
          (λ w ne. unfold contains in rw (agree w ne)) h.1,
    ))

-- A list of candidates between slashes loses its repeated candidates, and is otherwise unchanged.
pub remove_duplicates_bytes-render :
    (us : List Bytes)
    → All IsCandidate us
    → remove_duplicates_bytes (slash ∷ render us) ≡ slash ∷ render (remove_duplicates us)
unfolding remove_duplicates_bytes remove_duplicates filter_inserted equal contains
remove_duplicates_bytes-render us h =
    rw
      (
        split-append slash [] (render us) tt,
        split-render us h,
        filter_inserted-agree ([] ∷ []) [] us (unfold contains in refl)
            (λ w ne. unfold contains in ground (arith, equal_iff w [], ne)) h,
      )
      (join-render (filter_inserted [] us))
