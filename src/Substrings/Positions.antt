-- ===== src/Substrings/Positions.antt =====
-- What the interface of src/skk's substring search settles: an occurrence is unique, lies inside
-- the text, and is found between what precedes and follows it.
use yaskkserv.Prelude.{
  ℕ, zero, suc, ◌≤◌, ◌<◌, ◌≡◌, refl, ap, ◌∙◌, ◌≢◌, inl, inr, true, false, Option, none, some, [],
  ◌∷◌, ◌++◌, arith, ltb, leb, if◌then◌else◌, Bool-cases, Bytes, Lacks, length, drop, ok,
}
use yaskkserv.Substrings.{starts_with, IsFirst, TwoWay, slice_from}

pub starts_with-append : (p rest : Bytes) → starts_with p (p ++ rest) ≡ true
starts_with-append [] rest = refl
starts_with-append (c ∷ p) rest = ground (arith, starts_with-append p rest)

pub IsFirst-unique : (text p : Bytes) (r s : Option ℕ) → IsFirst text p r → IsFirst text p s → r ≡ s
IsFirst-unique text p none none h k = refl
IsFirst-unique text p none (some j) h k = cc (h j, k.0)
IsFirst-unique text p (some i) none h k = cc (k i, h.0)
IsFirst-unique text p (some i) (some j) h k = elim (Bool-cases (ltb i j)) [
  | inl below ↦ cc (k.1 i (ground (arith, below)), h.0)
  | inr above ↦ elim (Bool-cases (ltb j i)) [
    | inl below ↦ cc (h.1 j (ground (arith, below)), k.0)
    | inr same ↦ ap some (ground (arith, above, same))
  ]
]

pub found :
    (w : TwoWay) (text p : Bytes) (r : Option ℕ) → IsFirst text p r → w.find_bytes text p ≡ r
found w text p r h = IsFirst-unique text p (w.find_bytes text p) r (w.find_bytes-IsFirst text p) h

-- An occurrence lies inside the text.
pub starts_with-length : (p text : Bytes) → starts_with p text ≡ true → length p ≤ length text
starts_with-length [] text h = omega arith
starts_with-length (c ∷ p) [] h = cc
starts_with-length (c ∷ p) (d ∷ text) h = ground (arith, starts_with-length p text)

-- The reference search, which the interface is filled with.
abbrev pub shift : Option ℕ → Option ℕ
shift none = none
shift (some i) = some (suc i)

abbrev pub position : Bytes → Bytes → Option ℕ
position [] p = if starts_with p [] then some 0 else none
position (c ∷ cs) p =
    let rest = position cs p in if starts_with p (c ∷ cs) then some 0 else shift rest

drop-[] : (j : ℕ) → drop {A = ℕ} j [] ≡ []
drop-[] zero = refl
drop-[] (suc j) = refl

shift-IsFirst :
    (c : ℕ) (cs p : Bytes) (r : Option ℕ)
    → starts_with p (c ∷ cs) ≡ false
    → IsFirst cs p r
    → IsFirst (c ∷ cs) p (shift r)
shift-IsFirst c cs p none ne h = after
  where
    after : (j : ℕ) → starts_with p (drop j (c ∷ cs)) ≡ false
    after zero = ne
    after (suc j) = h j
shift-IsFirst c cs p (some i) ne h = (h.0, below)
  where
    below : (j : ℕ) → j < suc i → starts_with p (drop j (c ∷ cs)) ≡ false
    below zero lt = ne
    below (suc j) lt = h.1 j (omega (arith, lt))

pub position-IsFirst : (text p : Bytes) → IsFirst text p (position text p)
position-IsFirst [] p = elim (Bool-cases (starts_with p [])) [
  | inl e ↦ rw e (e, λ j lt. elim lt [ ])
  | inr e ↦ rw e (λ j. ap (starts_with p) (drop-[] j) ∙ e)
]
position-IsFirst (c ∷ cs) p = elim (Bool-cases (starts_with p (c ∷ cs))) [
  | inl e ↦ rw e (e, λ j lt. elim lt [ ])
  | inr e ↦ rw e (shift-IsFirst c cs p (position cs p) e (position-IsFirst cs p))
]

abbrev pub two_way : TwoWay
two_way = record { find_bytes = position; find_bytes-IsFirst = position-IsFirst }

-- `&bytes[1..]` of a string that has a first byte.
pub slice_from-suc : (b : ℕ) (bytes : Bytes) → slice_from (b ∷ bytes) 1 ≡ ok bytes
slice_from-suc b bytes =
    let inside : leb 1 (length (b ∷ bytes)) ≡ true = ground arith in rw inside refl

byte-before :
    (b x : ℕ) (xs ys : Bytes)
    → x ≢ b
    → ((j : ℕ) → j < length xs → starts_with (b ∷ []) (drop j (xs ++ b ∷ ys)) ≡ false)
    → (j : ℕ) → j < suc (length xs)
    → starts_with (b ∷ []) (drop j (x ∷ (xs ++ b ∷ ys))) ≡ false
byte-before b x xs ys ne earlier zero lt = ground (arith, ne)
byte-before b x xs ys ne earlier (suc j) lt = earlier j (omega (arith, lt))

-- A byte that the front of the text lacks is first found behind it.
pub byte-IsFirst :
    (b : ℕ) (xs ys : Bytes) → Lacks b xs → IsFirst (xs ++ b ∷ ys) (b ∷ []) (some (length xs))
byte-IsFirst b [] ys h = (ground arith, λ j lt. elim lt [ ])
byte-IsFirst b (x ∷ xs) ys h =
    let earlier : IsFirst (xs ++ b ∷ ys) (b ∷ []) (some (length xs)) = byte-IsFirst b xs ys h.1 in
    (earlier.0, byte-before b x xs ys h.0 earlier.1)

-- A byte that the text lacks is not found.
pub byte_absent : (b : ℕ) (xs : Bytes) → Lacks b xs → IsFirst xs (b ∷ []) none
byte_absent b [] h j = ap (starts_with (b ∷ [])) (drop-[] j)
byte_absent b (x ∷ xs) h zero = ground (arith, h.0)
byte_absent b (x ∷ xs) h (suc j) = byte_absent b xs h.1 j
