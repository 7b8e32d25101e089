-- ===== src/Candidates/Merge.antt =====
-- The merge of candidates that carry no annotation: src/skk/candidates.rs,
-- `merge_trimmed_slash_candidates`.
use yaskkserv.Prelude.{
  ℕ, suc, ◌+◌, ◌≡◌, refl, sym, ap, ◌∙◌, Bool, true, false, not, ◌&&◌, ◌||◌, List, [], ◌∷◌, ◌++◌,
  map, append_assoc, append-nil, arith, if◌then◌else◌, Bytes, equal, equal_iff, contains, has_byte,
  split,
}
use yaskkserv.Candidates.{
  slash, semicolon, clear_flag, merge_base, add_new, base_units, merge_plain,
  merge_trimmed_slash_candidates,
}
use yaskkserv.Candidates.Duplicates.{render}

-- The candidates whose flag is set.
abbrev pub flagged : List (Bytes × Bool) → List Bytes
flagged [] = []
flagged ((raw, true) ∷ rest) = raw ∷ flagged rest
flagged ((raw, false) ∷ rest) = flagged rest

abbrev raws : List (Bytes × Bool) → List Bytes
raws [] = []
raws ((raw, _) ∷ rest) = raw ∷ raws rest

abbrev pub clear_flags : List Bytes → List (Bytes × Bool) → List (Bytes × Bool)
clear_flags [] flags = flags
clear_flags (b ∷ bs) flags = clear_flags bs (clear_flag b flags)

-- The candidates of a merge: the base, and the new ones whose flag has stayed.
pub merged : List Bytes → List Bytes → List Bytes
merged bs ns = bs ++ flagged (clear_flags bs (map (λ v. (v, true)) ns))

pub render-append : (us vs : List Bytes) → render (us ++ vs) ≡ render us ++ render vs
render-append [] vs = refl
render-append (u ∷ us) vs = simp (render-append us vs, append_assoc)

merge_base_lem :
    (bs : List Bytes) (r : Bytes) (flags : List (Bytes × Bool))
    → merge_base bs r flags ≡ (r ++ render bs, clear_flags bs flags)
unfolding merge_base
merge_base_lem [] r flags = rw append-nil
merge_base_lem (b ∷ bs) r flags = simp (merge_base_lem bs, append_assoc)

add_new_lem :
    (flags : List (Bytes × Bool)) (r : Bytes) → add_new flags r ≡ r ++ render (flagged flags)
unfolding add_new
add_new_lem [] r = sym (append-nil r)
add_new_lem ((raw, true) ∷ rest) r = simp (add_new_lem rest, append_assoc)
add_new_lem ((raw, false) ∷ rest) r = add_new_lem rest r

merge_plain-render :
    (base new : Bytes)
    → merge_plain base new ≡ slash ∷ render (merged (base_units base) (split slash new))
unfolding merge_plain merged
merge_plain-render base new =
    rw merge_base_lem (rw add_new_lem (ap (◌∷◌ slash) (sym (render-append (base_units base) _))))

pub contains-append :
    (u : Bytes) (us vs : List Bytes) → contains u (us ++ vs) ≡ (contains u us || contains u vs)
unfolding contains
contains-append u [] vs = refl
contains-append u (v ∷ us) vs = ground (arith, contains-append u us vs)

flagged-clear_flag :
    (u b : Bytes) (flags : List (Bytes × Bool))
    → (contains u (flagged (clear_flag b flags)) || equal u b)
      ≡ (contains u (flagged flags) || equal u b)
unfolding contains clear_flag
flagged-clear_flag u b [] = refl
flagged-clear_flag u b ((raw, true) ∷ rest) =
    ground (arith, flagged-clear_flag u b rest, equal_iff raw b, equal_iff u b, equal_iff u raw)
flagged-clear_flag u b ((raw, false) ∷ rest) =
    ground (arith, flagged-clear_flag u b rest, equal_iff raw b)

flagged-clear_flags :
    (u : Bytes) (bs : List Bytes) (flags : List (Bytes × Bool))
    → (contains u bs || contains u (flagged (clear_flags bs flags)))
      ≡ (contains u bs || contains u (flagged flags))
unfolding contains
flagged-clear_flags u [] flags = refl
flagged-clear_flags u (b ∷ bs) flags =
    ground (arith, flagged-clear_flags u bs (clear_flag b flags), flagged-clear_flag u b flags)

flagged-map : (ns : List Bytes) → flagged (map (λ v. (v, true)) ns) ≡ ns
flagged-map [] = refl
flagged-map (n ∷ ns) = ap (◌∷◌ n) (flagged-map ns)

contains-merged :
    (u : Bytes) (bs ns : List Bytes) → contains u (merged bs ns) ≡ (contains u bs || contains u ns)
unfolding merged
contains-merged u bs ns =
    contains-append u bs _ ∙ flagged-clear_flags u bs (map (λ v. (v, true)) ns) ∙ rw flagged-map

-- How often a candidate occurs, and the flag of its first occurrence.
abbrev pub count : Bytes → List Bytes → ℕ
count u [] = 0
count u (v ∷ vs) = if equal u v then suc (count u vs) else count u vs

abbrev first_flag : Bytes → List (Bytes × Bool) → Bool
first_flag u [] = false
first_flag u ((raw, flag) ∷ rest) = if equal u raw then flag else first_flag u rest

abbrev as_one : Bool → ℕ
as_one b = if b then 1 else 0

first_flag-clear_flag :
    (u b : Bytes) (flags : List (Bytes × Bool))
    → first_flag u (clear_flag b flags) ≡ (first_flag u flags && not (equal u b))
unfolding clear_flag
first_flag-clear_flag u b [] = refl
first_flag-clear_flag u b ((raw, flag) ∷ rest) =
    ground (arith, first_flag-clear_flag u b rest, equal_iff raw b, equal_iff u b, equal_iff u raw)

count-clear_flag :
    (u b : Bytes) (flags : List (Bytes × Bool))
    → count u (flagged (clear_flag b flags)) + as_one (equal u b && first_flag u flags)
      ≡ count u (flagged flags)
unfolding clear_flag
count-clear_flag u b [] = ground arith
count-clear_flag u b ((raw, true) ∷ rest) =
    ground (arith, count-clear_flag u b rest, equal_iff raw b, equal_iff u b, equal_iff u raw)
count-clear_flag u b ((raw, false) ∷ rest) =
    ground (arith, count-clear_flag u b rest, equal_iff raw b, equal_iff u b, equal_iff u raw)

count-clear_flags :
    (u : Bytes) (bs : List Bytes) (flags : List (Bytes × Bool))
    → count u (flagged (clear_flags bs flags)) + as_one (contains u bs && first_flag u flags)
      ≡ count u (flagged flags)
unfolding contains
count-clear_flags u [] flags = omega arith
count-clear_flags u (b ∷ bs) flags = ground (
  arith,
  count-clear_flags u bs (clear_flag b flags),
  count-clear_flag u b flags,
  first_flag-clear_flag u b flags,
)

first_flag-map :
    (u : Bytes) (ns : List Bytes) → first_flag u (map (λ v. (v, true)) ns) ≡ contains u ns
unfolding contains
first_flag-map u [] = refl
first_flag-map u (n ∷ ns) = ground (arith, first_flag-map u ns)

pub count-added :
    (u : Bytes) (bs ns : List Bytes)
    → count u (flagged (clear_flags bs (map (λ v. (v, true)) ns)))
        + (if contains u bs && contains u ns then 1 else 0)
      ≡ count u ns
count-added u bs ns =
    ap
      (λ c.
        count u (flagged (clear_flags bs (map (λ v. (v, true)) ns))) + as_one (contains u bs && c))
      (sym (first_flag-map u ns))
    ∙ count-clear_flags u bs (map (λ v. (v, true)) ns)
    ∙ ap (count u) (flagged-map ns)

-- Without annotations the merge writes a slash-separated list that begins with the base candidates
-- in their order. It holds exactly the candidates of the two lists, and of each new candidate that
-- the base has, one occurrence is left out.
pub merge_trimmed_slash_candidates-render :
    (base new : Bytes)
    → has_byte semicolon base ≡ false
    → has_byte semicolon new ≡ false
    → (added : List Bytes) × (merge_trimmed_slash_candidates base new
        ≡ slash ∷ render (base_units base ++ added))
      × ((u : Bytes)
          → contains u (base_units base ++ added)
            ≡ (contains u (base_units base) || contains u (split slash new)))
      × ((u : Bytes)
          → count u added
              + (if contains u (base_units base) && contains u (split slash new) then 1 else 0)
            ≡ count u (split slash new))
unfolding merge_trimmed_slash_candidates
merge_trimmed_slash_candidates-render base new hb hn = (
  flagged (clear_flags (base_units base) (map (λ v. (v, true)) (split slash new))),
  rw (hb, hn) (unfold merged in merge_plain-render base new),
  λ u. unfold merged in contains-merged u (base_units base) (split slash new),
  λ u. count-added u (base_units base) (split slash new),
)
