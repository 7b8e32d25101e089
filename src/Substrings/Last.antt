-- ===== src/Substrings/Last.antt =====
-- What the interface of src/skk's backward substring search settles.
use yaskkserv.Prelude.{
  ℕ, zero, suc, ◌≤◌, ◌<◌, ◌≡◌, refl, ap, ◌∙◌, inl, inr, Bool, false, Option, none, some, [], ◌∷◌,
  ◌++◌, arith, ltb, if◌then◌else◌, Bool-cases, Bytes, Lacks, length, drop, drop_nil,
}
use yaskkserv.Substrings.{starts_with, IsLast, TwoWayBack}
use yaskkserv.Substrings.Positions.{byte_absent}

IsLast-unique : (text p : Bytes) (r s : Option ℕ) → IsLast text p r → IsLast text p s → r ≡ s
IsLast-unique text p none none h k = refl
IsLast-unique text p none (some j) h k = cc (h j, k.0)
IsLast-unique text p (some i) none h k = cc (k i, h.0)
IsLast-unique text p (some i) (some j) h k = elim (Bool-cases (ltb i j)) [
  | inl below ↦ cc (h.2 j (ground (arith, below)) k.1, k.0)
  | inr above ↦ elim (Bool-cases (ltb j i)) [
    | inl below ↦ cc (k.2 i (ground (arith, below)) h.1, h.0)
    | inr same ↦ ap some (ground (arith, above, same))
  ]
]

pub found_last :
    (w : TwoWayBack) (text p : Bytes) (r : Option ℕ) → IsLast text p r → w.rfind_bytes text p ≡ r
found_last w text p r h =
    IsLast-unique text p (w.rfind_bytes text p) r (w.rfind_bytes-IsLast text p) h

-- A byte that the rest of the text lacks is last found before it.
pub byte-IsLast :
    (b : ℕ) (xs ys : Bytes) → Lacks b ys → IsLast (xs ++ b ∷ ys) (b ∷ []) (some (length xs))
byte-IsLast b [] ys h = (ground arith, omega arith, after)
  where
    after : (j : ℕ) → 0 < j → j ≤ length (b ∷ ys) → starts_with (b ∷ []) (drop j (b ∷ ys)) ≡ false
    after zero lt le = absurd (omega (arith, lt))
    after (suc j) lt le = byte_absent b ys h j
byte-IsLast b (x ∷ xs) ys h =
    let later : IsLast (xs ++ b ∷ ys) (b ∷ []) (some (length xs)) = byte-IsLast b xs ys h in
    (later.0, omega (arith, later.1), after later.2)
  where
    after :
        ((j : ℕ)
          → length xs < j
          → j ≤ length (xs ++ b ∷ ys)
          → starts_with (b ∷ []) (drop j (xs ++ b ∷ ys)) ≡ false)
        → (j : ℕ) → suc (length xs) < j
        → j ≤ suc (length (xs ++ b ∷ ys))
        → starts_with (b ∷ []) (drop j (x ∷ (xs ++ b ∷ ys))) ≡ false
    after h zero lt le = absurd (omega (arith, lt))
    after h (suc j) lt le = h j (omega (arith, lt)) (omega (arith, le))

-- The reference search, which the interface is filled with.
abbrev last_or : Bool → Option ℕ → Option ℕ
last_or here (some i) = some (suc i)
last_or here none = if here then some 0 else none

abbrev pub rposition : Bytes → Bytes → Option ℕ
rposition [] p = if starts_with p [] then some 0 else none
rposition (c ∷ cs) p = last_or (starts_with p (c ∷ cs)) (rposition cs p)

last_or-IsLast :
    (c : ℕ) (cs p : Bytes) (r : Option ℕ)
    → IsLast cs p r
    → IsLast (c ∷ cs) p (last_or (starts_with p (c ∷ cs)) r)
last_or-IsLast c cs p (some i) h = (h.0, omega (arith, h.1), after)
  where
    after : (j : ℕ) → suc i < j → j ≤ suc (length cs) → starts_with p (drop j (c ∷ cs)) ≡ false
    after zero lt le = absurd (omega (arith, lt))
    after (suc j) lt le = h.2 j (omega (arith, lt)) (omega (arith, le))
last_or-IsLast c cs p none h = elim (Bool-cases (starts_with p (c ∷ cs))) [
  | inl e ↦ rw e (e, omega arith, after)
  | inr e ↦ rw e (absent e)
]
  where
    after : (j : ℕ) → 0 < j → j ≤ suc (length cs) → starts_with p (drop j (c ∷ cs)) ≡ false
    after zero lt le = absurd (omega (arith, lt))
    after (suc j) lt le = h j

    absent : starts_with p (c ∷ cs) ≡ false → (j : ℕ) → starts_with p (drop j (c ∷ cs)) ≡ false
    absent e zero = e
    absent e (suc j) = h j

pub rposition-IsLast : (text p : Bytes) → IsLast text p (rposition text p)
rposition-IsLast [] p = elim (Bool-cases (starts_with p [])) [
  | inl e ↦ rw e (e, omega arith, λ j lt le. absurd (omega (arith, lt, le)))
  | inr e ↦ rw e (λ j. ap (starts_with p) (drop_nil j) ∙ e)
]
rposition-IsLast (c ∷ cs) p = last_or-IsLast c cs p (rposition cs p) (rposition-IsLast cs p)

abbrev pub two_way_back : TwoWayBack
two_way_back = record { rfind_bytes = rposition; rfind_bytes-IsLast = rposition-IsLast }
