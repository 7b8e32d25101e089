-- ===== src/Prelude/ByteStrings.antt =====
-- Byte strings: literals, equality, order, and the standard library's `split` and `join`.
use Prim.Native.Nat.{ℕ}
use Prim.Native.Char.{code}
use Prim.Native.String.{String}
use mathlib.Core.Path.{◌≡◌, refl, ap, ◌∙◌}
use mathlib.Core.Logic.{◌≢◌, ◌↔◌, inl, inr}
use mathlib.Core.Bool.{Bool, true, false, ◌&&◌, ◌||◌}
use mathlib.Core.List.{List, [], ◌∷◌, ◌++◌}
use native.Mathlib.Omega.{arith}
use yaskkserv.Prelude.Tests.{◌==◌, ltb, leb, if◌then◌else◌, Bool-cases}
use yaskkserv.Prelude.Lists.{All}

abbrev pub Bytes : Type 0
Bytes = List ℕ

-- The code points of a literal: its bytes, where it is ASCII.
abbrev pub codes : String → Bytes
codes String.[] = []
codes (String.◌∷◌ c s) = code c ∷ codes s

abbrev pub Lacks : ℕ → Bytes → Type 0
Lacks b = All (λ c. c ≢ b)

-- `(lo..=hi).contains(&c)`.
abbrev pub within : ℕ → ℕ → ℕ → Bool
within lo hi c = leb lo c && leb c hi

-- `a == b` on slices.
unfoldable pub equal : Bytes → Bytes → Bool
equal (a ∷ left) (b ∷ right) = a == b && equal left right
equal [] [] = true
equal _ _ = false

pub equal_iff : (left right : Bytes) → (equal left right ≡ true) ↔ (left ≡ right)
unfolding equal
equal_iff [] right = ground arith
equal_iff (a ∷ left) [] = ground arith
equal_iff (a ∷ left) (b ∷ right) = ground (equal_iff left right, arith)

pub equal_self : (a : Bytes) → equal a a ≡ true
equal_self a = (equal_iff a a).1 refl

-- `a < b` on slices: the lexicographic order.
unfoldable pub less : Bytes → Bytes → Bool
less [] [] = false
less [] (y ∷ ys) = true
less (x ∷ xs) [] = false
less (x ∷ xs) (y ∷ ys) = ltb x y || (x == y && less xs ys)

pub less_irrefl : (a : Bytes) → less a a ≡ false
unfolding less
less_irrefl [] = refl
less_irrefl (x ∷ xs) = ground (arith, less_irrefl xs)

pub less_trans : (a b c : Bytes) → less a b ≡ true → less b c ≡ true → less a c ≡ true
unfolding less
less_trans [] [] c p q = cc
less_trans [] (y ∷ b) [] p q = cc
less_trans [] (y ∷ b) (z ∷ c) p q = refl
less_trans (x ∷ a) [] c p q = cc
less_trans (x ∷ a) (y ∷ b) [] p q = cc
less_trans (x ∷ a) (y ∷ b) (z ∷ c) p q = ground (arith, less_trans a b c)

pub less_total : (a b : Bytes) → less a b ≡ false → less b a ≡ false → a ≡ b
unfolding less
less_total [] [] p q = refl
less_total [] (y ∷ b) p q = cc
less_total (x ∷ a) [] p q = cc
less_total (x ∷ a) (y ∷ b) p q = ground (arith, less_total a b)

pub less_asymm : (a b : Bytes) → less a b ≡ true → less b a ≡ false
less_asymm a b h = elim (Bool-cases (less b a)) [
  | inl back ↦ cc (less_trans a b a h back, less_irrefl a)
  | inr done ↦ done
]

pub less_of_ge_less : (a b c : Bytes) → less a b ≡ false → less a c ≡ true → less b c ≡ true
less_of_ge_less a b c h k = elim (Bool-cases (less b a)) [
  | inl below ↦ less_trans b a c below k
  | inr same ↦ rw (less_total a b h same) at k
]

unfoldable pub contains : Bytes → List Bytes → Bool
contains u [] = false
contains u (v ∷ vs) = equal u v || contains u vs

-- `bytes.iter().any(|&v| v == b)`.
unfoldable pub has_byte : ℕ → Bytes → Bool
has_byte b [] = false
has_byte b (c ∷ cs) = c == b || has_byte b cs

pub Lacks-has_byte : (b : ℕ) (s : Bytes) → Lacks b s → has_byte b s ≡ false
unfolding has_byte
Lacks-has_byte b [] h = refl
Lacks-has_byte b (c ∷ cs) h = ground (arith, Lacks-has_byte b cs h.1, h.0)

-- `slice::split`: one part more than there are separators.
abbrev grow : ℕ → List Bytes → List Bytes
grow c [] = (c ∷ []) ∷ []
grow c (p ∷ ps) = (c ∷ p) ∷ ps

unfoldable pub split : ℕ → Bytes → List Bytes
split sep [] = [] ∷ []
split sep (c ∷ cs) = let parts = split sep cs in if c == sep then [] ∷ parts else grow c parts

-- `join(&sep)`.
unfoldable pub join : ℕ → List Bytes → Bytes
join sep [] = []
join sep (p ∷ []) = p
join sep (p ∷ q ∷ ps) = p ++ sep ∷ join sep (q ∷ ps)

pub split-append :
    (sep : ℕ) (u rest : Bytes) → Lacks sep u → split sep (u ++ sep ∷ rest) ≡ u ∷ split sep rest
unfolding split
split-append sep [] rest h = ground arith
split-append sep (c ∷ u) rest h = ground (arith, split-append sep u rest h.1, h.0)

pub split-Lacks : (sep : ℕ) (u : Bytes) → Lacks sep u → split sep u ≡ u ∷ []
unfolding split
split-Lacks sep [] h = refl
split-Lacks sep (c ∷ u) h = ground (arith, split-Lacks sep u h.1, h.0)

grow-Lacks :
    (sep c : ℕ) (ps : List Bytes) → c ≢ sep → All (Lacks sep) ps → All (Lacks sep) (grow c ps)
grow-Lacks sep c [] ne h = ((ne, tt), tt)
grow-Lacks sep c (p ∷ ps) ne h = ((ne, h.0), h.1)

-- No part of a split holds the separator.
pub split_parts : (sep : ℕ) (s : Bytes) → All (Lacks sep) (split sep s)
unfolding split
split_parts sep [] = (tt, tt)
split_parts sep (c ∷ cs) = elim (Bool-cases (c == sep)) [
  | inl e ↦ rw e (tt, split_parts sep cs)
  | inr e ↦ rw e (grow-Lacks sep c (split sep cs) (ground arith) (split_parts sep cs))
]

-- Splitting gives back the parts that were joined.
pub split-join :
    (sep : ℕ) (p : Bytes) (ps : List Bytes)
    → All (Lacks sep) (p ∷ ps)
    → split sep (join sep (p ∷ ps)) ≡ p ∷ ps
unfolding join
split-join sep p [] h = split-Lacks sep p h.0
split-join sep p (q ∷ ps) h =
    split-append sep p (join sep (q ∷ ps)) h.0 ∙ ap (◌∷◌ p) (split-join sep q ps h.1)
