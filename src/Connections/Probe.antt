-- ===== src/Connections/Probe.antt =====
-- The search for a free slot: src/skk/yaskkserv2.rs, `get_empty_sockets_index`.
use yaskkserv.Prelude.{
  ℕ, zero, suc, ◌+◌, ◌-◌, ◌≤◌, ◌<◌, ◌≡◌, refl, ap, ◌≢◌, Option, none, some, List, [], ◌∷◌, arith,
  ltb, leb, if◌then◌else◌, length, get_elem?, set, get_elem?_total, Result, ok,
}
use yaskkserv.Connections.{is_none, probe, get_empty_sockets_index}

-- The slots in use.
abbrev pub count_some {ℓ} : {A : Type ℓ} → List (Option A) → ℕ
count_some [] = 0
count_some (none ∷ xs) = count_some xs
count_some (some _ ∷ xs) = suc (count_some xs)

-- Steps from `index` forward to `j`, round the end of the table.
abbrev distance : ℕ → ℕ → ℕ → ℕ
distance len index j = if ltb index j then j - index else len - index + j

abbrev pub IsFreeSlot {ℓ} : {A : Type ℓ} → List (Option A) → Result ℕ → Type ℓ
IsFreeSlot xs r = (i : ℕ) × (r ≡ ok i) × (get_elem? xs i ≡ some none)

distance_step :
    (len index j : ℕ)
    → index < len
    → j < len
    → (if leb len (index + 1) then 0 else index + 1) ≢ j
    → distance len (if leb len (index + 1) then 0 else index + 1) j + 1 ≤ distance len index j
distance_step len index j hi hj ne = ground arith

module _ {ℓ} {A : Type ℓ} where
  pub count_some-le : (xs : List (Option A)) → count_some xs ≤ length xs
  count_some-le [] = omega arith
  count_some-le (none ∷ xs) = omega (arith, count_some-le xs)
  count_some-le (some _ ∷ xs) = omega (arith, count_some-le xs)

  pub count_some-set-some :
      (xs : List (Option A)) (i : ℕ) (a : A)
      → get_elem? xs i ≡ some none
      → count_some (set xs i (some a)) ≡ suc (count_some xs)
  count_some-set-some [] i a h = cc
  count_some-set-some (none ∷ xs) zero a h = refl
  count_some-set-some (some b ∷ xs) zero a h = cc
  count_some-set-some (none ∷ xs) (suc i) a h = count_some-set-some xs i a h
  count_some-set-some (some b ∷ xs) (suc i) a h = ap suc (count_some-set-some xs i a h)

  pub count_some-set-none :
      (xs : List (Option A)) (i : ℕ) {a : A}
      → get_elem? xs i ≡ some (some a)
      → suc (count_some (set xs i none)) ≡ count_some xs
  count_some-set-none [] i h = cc
  count_some-set-none (none ∷ xs) zero h = cc
  count_some-set-none (some b ∷ xs) zero h = refl
  count_some-set-none (none ∷ xs) (suc i) h = count_some-set-none xs i h
  count_some-set-none (some b ∷ xs) (suc i) h = ap suc (count_some-set-none xs i h)

  pub count_some-keep :
      (xs : List (Option A)) (i : ℕ) {a : A} (b : A)
      → get_elem? xs i ≡ some (some a)
      → count_some (set xs i (some b)) ≡ count_some xs
  count_some-keep [] i b h = cc
  count_some-keep (none ∷ xs) zero b h = cc
  count_some-keep (some _ ∷ xs) zero b h = refl
  count_some-keep (none ∷ xs) (suc i) b h = count_some-keep xs i b h
  count_some-keep (some _ ∷ xs) (suc i) b h = ap suc (count_some-keep xs i b h)

  -- A table that is not full has a free slot.
  pub free_slot :
      (xs : List (Option A))
      → count_some xs < length xs
      → (j : ℕ) × (j < length xs) × (get_elem? xs j ≡ some none)
  free_slot [] h = absurd (omega arith)
  free_slot (none ∷ xs) h = (0, omega arith, refl)
  free_slot (some _ ∷ xs) h = let (j, lt, e) = free_slot xs (omega arith) in (suc j, omega arith, e)

  slot-IsFreeSlot :
      (xs : List (Option A)) (i : ℕ) (rest : Result ℕ) (slot : Option A)
      → get_elem? xs i ≡ some slot
      → (slot ≢ none → IsFreeSlot xs rest)
      → IsFreeSlot xs (if is_none slot then ok i else rest)
  slot-IsFreeSlot xs i rest none e later = (i, refl, e)
  slot-IsFreeSlot xs i rest (some a) e later = later (λ h. cc)

  used_ne_free :
      (xs : List (Option A)) (i j : ℕ) (slot : Option A)
      → get_elem? xs i ≡ some slot
      → get_elem? xs j ≡ some none
      → slot ≢ none
      → i ≢ j
  used_ne_free xs i j slot at e used same = used (cc)

  -- Enough rounds reach a free slot `j`.
  probe-IsFreeSlot :
      (n : ℕ) (xs : List (Option A)) (index j : ℕ)
      → index < length xs
      → j < length xs
      → get_elem? xs j ≡ some none
      → distance (length xs) index j ≤ n
      → IsFreeSlot xs (probe n xs (length xs) index)
  unfolding probe
  probe-IsFreeSlot zero xs index j hi hj e d = absurd (ground arith)
  probe-IsFreeSlot (suc n) xs index j hi hj e d =
      let index' = if leb (length xs) (index + 1) then 0 else index + 1 in
      let inside : index' < length xs = ground arith in
      let (slot, at) = get_elem?_total xs index' inside in
      rw at (
        slot-IsFreeSlot xs index' _ slot at (λ used.
          let other = used_ne_free xs index' j slot at e used in
          probe-IsFreeSlot n xs index' j inside hj e
            (omega (arith, distance_step (length xs) index j hi hj other, d))))

  -- With a free slot the search finds one, and does not panic.
  pub get_empty_sockets_index-IsFreeSlot :
      (xs : List (Option A)) (index : ℕ)
      → index < length xs
      → count_some xs < length xs
      → IsFreeSlot xs (get_empty_sockets_index xs (length xs) index)
  unfolding get_empty_sockets_index probe
  get_empty_sockets_index-IsFreeSlot xs index hi room =
      let (j, hj, e) = free_slot xs room in
      probe-IsFreeSlot (suc (length xs)) xs index j hi hj e (ground arith)
