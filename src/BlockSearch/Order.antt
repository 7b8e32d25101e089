-- ===== src/BlockSearch/Order.antt =====
-- What one comparison says about the place searched for, in a list of descending midashis.
use yaskkserv.Prelude.{
  ℕ, zero, suc, ◌+◌, ◌≤◌, ◌≡◌, true, false, some, [], ◌∷◌, arith, Bytes, less, less_trans,
  less_asymm, less_of_ge_less, length, get_elem?, drop,
}
use yaskkserv.BlockSearch.{DictionaryBlockInformation, Informations, skip}

-- Each midashi is above the next one: the dictionary holds them in reverse order, each once.
abbrev pub IsDescending : Informations → Type 0
IsDescending [] = Unit
IsDescending (a ∷ []) = Unit
IsDescending (a ∷ b ∷ rest) = (less b.midashi a.midashi ≡ true) × IsDescending (b ∷ rest)

pub skip-le : (m : Bytes) (xs : Informations) → skip m xs ≤ length xs
unfolding skip
skip-le m [] = omega arith
skip-le m (x ∷ xs) = ground (arith, skip-le m xs)

-- A start that is not too late leads to the same place.
pub skip-drop :
    (m : Bytes) (xs : Informations) (h : ℕ) → h ≤ skip m xs → h + skip m (drop h xs) ≡ skip m xs
unfolding skip
skip-drop m xs zero h = omega arith
skip-drop m [] (suc i) h = absurd (omega arith)
skip-drop m (x ∷ xs) (suc i) h = ground (arith, skip-drop m xs i)

-- At a midashi below the one searched for, the place is not behind.
pub le_of_less :
    (m : Bytes) (xs : Informations) (i : ℕ) {x : DictionaryBlockInformation}
    → get_elem? xs i ≡ some x
    → less x.midashi m ≡ true
    → skip m xs ≤ i
unfolding skip
le_of_less m [] i at h = cc
le_of_less m (y ∷ xs) zero {x} at h =
    let below : less y.midashi m ≡ true = cc in rw (less_asymm y.midashi m below) (omega arith)
le_of_less m (y ∷ xs) (suc i) at h = ground (arith, le_of_less m xs i at h)

above_head :
    (x : DictionaryBlockInformation) (xs : Informations) (i : ℕ) {y : DictionaryBlockInformation}
    → IsDescending (x ∷ xs)
    → get_elem? xs i ≡ some y
    → less y.midashi x.midashi ≡ true
above_head x [] i d at = cc
above_head x (z ∷ xs) zero d at = cc (d.0)
above_head x (z ∷ xs) (suc i) d at = less_trans _ z.midashi _ (above_head z xs i d.1 at) d.0

IsDescending-tail :
    (x : DictionaryBlockInformation) (xs : Informations) → IsDescending (x ∷ xs) → IsDescending xs
IsDescending-tail x [] d = tt
IsDescending-tail x (y ∷ xs) d = d.1

-- At a midashi that is not below it, all before it are above the one searched for.
pub ge_of_not_less :
    (m : Bytes) (xs : Informations) (i : ℕ) {x : DictionaryBlockInformation}
    → IsDescending xs
    → get_elem? xs i ≡ some x
    → less x.midashi m ≡ false
    → i ≤ skip m xs
unfolding skip
ge_of_not_less m xs zero d at h = omega arith
ge_of_not_less m [] (suc i) d at h = cc
ge_of_not_less m (y ∷ xs) (suc i) {x} d at h =
    let over : less m y.midashi ≡ true =
      less_of_ge_less x.midashi m y.midashi h (above_head y xs i d at) in
    rw over (omega (arith, ge_of_not_less m xs i (IsDescending-tail y xs d) at h))
