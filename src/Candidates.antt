-- ===== src/Candidates.antt =====
-- src/skk/candidates.rs. A candidate list is `/candidate/candidate/`; a candidate may carry an
-- annotation behind `;`. The checks under the feature `assert_paranoia` are left out.
pub mod Quote
pub mod Merge
pub mod Units
pub mod Annotated
pub mod Duplicates
mod Tests
use yaskkserv.Prelude.{
  ℕ, ◌-◌, Bool, true, false, not, ◌&&◌, ◌||◌, Option, none, some, List, [], ◌∷◌, ◌++◌, map, ltb,
  ◌==◌, if◌then◌else◌, Bytes, codes, equal, contains, has_byte, split, join, length, get_elem?,
  take, drop,
}

abbrev pub slash : ℕ
slash = b'/'

abbrev pub semicolon : ℕ
semicolon = b';'

-- `need_quote`: the bytes that `quote_and_add_prefix` does not copy.
is_special : ℕ → Bool
is_special c = c == b'\r' || c == b'\n' || c == b'\\' || c == b'"' || c == semicolon || c == slash

pub need_quote : Bytes → Bool
unfolding is_special
need_quote [] = false
need_quote (c ∷ cs) = is_special c || need_quote cs

-- What one round of the loop of `quote_and_add_prefix` appends.
pub quote_byte : ℕ → Bytes
quote_byte c =
    if c == b'\r' || c == b'\n'
    then []
    else if c == b'\\'
    then codes "\\\\"
    else if c == b'"'
    then codes "\\\""
    else if c == semicolon
    then codes "(concat \"\\073\")"
    else if c == slash
    then codes "(concat \"\\057\")"
    else c ∷ []

quote_onto : Bytes → Bytes → Bytes
quote_onto result [] = result
quote_onto result (c ∷ cs) = quote_onto (result ++ quote_byte c) cs

unfoldable pub quote_and_add_prefix : Bytes → Option ℕ → Bytes
unfolding quote_onto quote_byte
quote_and_add_prefix source none = quote_onto [] source
quote_and_add_prefix source (some prefix) = quote_onto (prefix ∷ []) source

-- `source[i] == b`, at an index that the code has checked.
byte_is : Bytes → ℕ → ℕ → Bool
byte_is source i b = elim (get_elem? source i) [ none ↦ false | some c ↦ c == b ]

unfoldable pub trim_one_slash : Bytes → Bytes
unfolding byte_is
trim_one_slash source =
    let end = length source in
    let end' = if ltb 1 end && byte_is source (end - 1) slash then end - 1 else end in
    if end == 0 then source else drop (if byte_is source 0 slash then 1 else 0) (take end' source)

-- `add_flag` is cleared at the first new candidate that equals the base candidate.
pub clear_flag : Bytes → List (Bytes × Bool) → List (Bytes × Bool)
clear_flag base_unit [] = []
clear_flag base_unit ((raw, add_flag) ∷ rest) =
    let later = clear_flag base_unit rest in
    if equal raw base_unit then (raw, false) ∷ rest else (raw, add_flag) ∷ later

-- The loop over the base candidates, and the loop over the new ones.
merge_base : List Bytes → Bytes → List (Bytes × Bool) → Bytes × List (Bytes × Bool)
merge_base [] result_vec new_units = (result_vec, new_units)
merge_base (base_unit ∷ base_units) result_vec new_units =
    merge_base base_units (result_vec ++ base_unit ++ slash ∷ []) (clear_flag base_unit new_units)

add_new : List (Bytes × Bool) → Bytes → Bytes
add_new [] result_vec = result_vec
add_new ((raw, add_flag) ∷ rest) result_vec =
    add_new rest (if add_flag then result_vec ++ raw ++ slash ∷ [] else result_vec)

-- `split` of the base candidates, which are skipped if they are empty.
abbrev base_units : Bytes → List Bytes
base_units [] = []
base_units (c ∷ cs) = split slash (c ∷ cs)

merge_plain : Bytes → Bytes → Bytes
unfolding merge_base add_new clear_flag
merge_plain base new =
    let flags = map (λ v. (v, true)) (split slash new) in
    let (result_vec, new_units) = merge_base (base_units base) (slash ∷ []) flags in
    add_new new_units result_vec

-- `(raw, annotate_removed, add_flag)`.
pub record NewUnit : Type 0 where
  pub raw : Bytes
  pub annotate_removed : Bytes
  pub add_flag : Bool

-- `v[..find]` for the first `;`, or all of `v`.
unfoldable pub remove_annotate : Bytes → Bytes
remove_annotate [] = []
remove_annotate (c ∷ cs) = let rest = remove_annotate cs in if c == semicolon then [] else c ∷ rest

abbrev pub new_unit : Bytes → NewUnit
new_unit v = record { raw = v; annotate_removed = remove_annotate v; add_flag = true }

-- The first new candidate that is the base candidate, annotations removed.
unfoldable pub find_unit : Bytes → List NewUnit → Option NewUnit
find_unit bare [] = none
find_unit bare (u ∷ us) =
    let later = find_unit bare us in if equal u.annotate_removed bare then some u else later

pub clear_unit : Bytes → List NewUnit → List NewUnit
clear_unit bare [] = []
clear_unit bare (u ∷ us) =
    let later = clear_unit bare us in
    if equal u.annotate_removed bare then record u { add_flag = false } ∷ us else u ∷ later

-- The bytes that a base candidate contributes: a new annotation only where the base has none.
unfoldable pub choose : Bytes → Option NewUnit → Bytes
choose base_unit none = base_unit
choose base_unit (some u) =
    if not (has_byte semicolon base_unit) && has_byte semicolon u.raw then u.raw else base_unit

merge_annotated_base : List Bytes → Bytes → List NewUnit → Bytes × List NewUnit
merge_annotated_base [] result_vec new_units = (result_vec, new_units)
merge_annotated_base (base_unit ∷ rest) result_vec new_units =
    let bare = remove_annotate base_unit in
    merge_annotated_base rest
      (result_vec ++ choose base_unit (find_unit bare new_units) ++ slash ∷ [])
      (clear_unit bare new_units)

add_new_units : List NewUnit → Bytes → Bytes
add_new_units [] result_vec = result_vec
add_new_units (u ∷ us) result_vec =
    add_new_units us (if u.add_flag then result_vec ++ u.raw ++ slash ∷ [] else result_vec)

merge_annotated_trimmed_slash_candidates : Bytes → Bytes → Bytes
unfolding merge_annotated_base add_new_units clear_unit find_unit choose remove_annotate
merge_annotated_trimmed_slash_candidates base new =
    let (result_vec, new_units) =
      merge_annotated_base (base_units base) (slash ∷ []) (map new_unit (split slash new)) in
    add_new_units new_units result_vec

unfoldable pub merge_trimmed_slash_candidates : Bytes → Bytes → Bytes
unfolding merge_plain merge_annotated_trimmed_slash_candidates
merge_trimmed_slash_candidates base new =
    if has_byte semicolon base || has_byte semicolon new
    then merge_annotated_trimmed_slash_candidates base new
    else merge_plain base new

-- `duplicates_hash` is the list of what was inserted.
filter_inserted : List Bytes → List Bytes → List Bytes
filter_inserted duplicates_hash [] = []
filter_inserted duplicates_hash (v ∷ vs) =
    let fresh = filter_inserted (v ∷ duplicates_hash) vs in
    let later = filter_inserted duplicates_hash vs in
    if contains v duplicates_hash then later else v ∷ fresh

unfoldable pub remove_duplicates : List Bytes → List Bytes
unfolding filter_inserted
remove_duplicates candidates = filter_inserted [] candidates

unfoldable pub remove_duplicates_bytes : Bytes → Bytes
unfolding remove_duplicates
remove_duplicates_bytes candidates_bytes =
    join slash (remove_duplicates (split slash candidates_bytes)) ++ slash ∷ []
