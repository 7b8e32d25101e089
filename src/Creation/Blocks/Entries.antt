-- ===== src/Creation/Blocks/Entries.antt =====
-- The entries of a key, "\nmidashi candidates" one after the other and a last line feed, which
-- src/skk/yaskkserv2_make_dictionary/dictionary_creator.rs splits into blocks, and the runs of
-- entries that fit a length.
use yaskkserv.Prelude.{
  ℕ, zero, suc, ◌+◌, ◌-◌, ◌≤◌, ◌<◌, ◌≡◌, refl, sym, ap, ◌∙◌, ◌≢◌, inl, inr, true, List, [], ◌∷◌,
  ◌++◌, append_assoc, arith, leb, if◌then◌else◌, leb→le, le→leb, leb→gt, Bool-cases, Bytes, Lacks,
  length, take, length-append, take-append, drop-append, take-split, All, All-append,
}

pub record Entry : Type 0 where
  pub midashi : Bytes
  pub candidates : Bytes

abbrev pub line : Entry → Bytes
line e = b'\n' ∷ (e.midashi ++ b' ' ∷ e.candidates)

abbrev pub lines : List Entry → Bytes
lines [] = []
lines (e ∷ es) = line e ++ lines es

abbrev pub end : Bytes
end = b'\n' ∷ []

abbrev pub IsEntry : Entry → Type 0
IsEntry e = Lacks b' ' e.midashi × Lacks b'\n' e.midashi × Lacks b'\n' e.candidates

-- The entries that fit a length with the line feed behind them, and the others.
unfoldable pub front : ℕ → List Entry → List Entry
front n [] = []
front n (e ∷ es) =
    let rest = front (n - length (line e)) es in
    if leb (length (line e) + 1) n then e ∷ rest else []

unfoldable pub back : ℕ → List Entry → List Entry
back n [] = []
back n (e ∷ es) =
    let rest = back (n - length (line e)) es in if leb (length (line e) + 1) n then rest else e ∷ es

pub lines-append : (es fs : List Entry) → lines (es ++ fs) ≡ lines es ++ lines fs
lines-append [] fs = refl
lines-append (e ∷ es) fs =
    ap (λ b. line e ++ b) (lines-append es fs) ∙ sym (append_assoc (line e) (lines es) (lines fs))

pub front-back : (n : ℕ) (es : List Entry) → front n es ++ back n es ≡ es
unfolding front back
front-back n [] = refl
front-back n (e ∷ es) = elim (Bool-cases (leb (length (line e) + 1) n)) [
  | inl h ↦ rw h (ap (◌∷◌ e) (front-back (n - length (line e)) es))
  | inr h ↦ rw h refl
]

-- Where all entries fit, they are the front.
pub front_all : (n : ℕ) (es : List Entry) → length (lines es) + 1 ≤ n → front n es ≡ es
unfolding front
front_all n [] h = refl
front_all n (e ∷ es) h =
    let size : length (line e ++ lines es) ≡ length (line e) + length (lines es) =
      length-append (line e) (lines es) in
    let fits : leb (length (line e) + 1) n ≡ true = le→leb _ _ (omega (arith, h, size)) in
    rw fits (ap (◌∷◌ e) (front_all (n - length (line e)) es (omega (arith, h, size))))

pub front-le : (n : ℕ) (es : List Entry) → 1 ≤ n → length (lines (front n es)) + 1 ≤ n
unfolding front
front-le n [] h = omega (arith, h)
front-le n (e ∷ es) h = elim (Bool-cases (leb (length (line e) + 1) n)) [
  | inl fits ↦ rw fits (
      omega (
        arith,
        leb→le _ _ fits,
        length-append (line e) (lines (front (n - length (line e)) es)),
        front-le (n - length (line e)) es (omega (arith, leb→le _ _ fits)),
      ))
  | inr long ↦ rw long (omega (arith, h))
]

Lacks-take : (b n : ℕ) (xs : Bytes) → Lacks b xs → Lacks b (take n xs)
Lacks-take b zero xs h = tt
Lacks-take b (suc n) [] h = tt
Lacks-take b (suc n) (x ∷ xs) h = (h.0, Lacks-take b n xs h.1)

pub Lacks-append : (b : ℕ) (xs ys : Bytes) → Lacks b xs → Lacks b ys → Lacks b (xs ++ ys)
Lacks-append b xs ys h k = All-append (λ c. c ≢ b) xs ys h k

take-within : (n : ℕ) (xs ys : Bytes) → n ≤ length xs → take n (xs ++ ys) ≡ take n xs
take-within zero xs ys h = refl
take-within (suc n) [] ys h = absurd (omega (arith, h))
take-within (suc n) (x ∷ xs) ys h = ap (◌∷◌ x) (take-within n xs ys (omega (arith, h)))

pub take-past : (n m : ℕ) (xs ys : Bytes) → n ≡ length xs + m → take n (xs ++ ys) ≡ xs ++ take m ys
take-past n m xs ys h =
    ap (λ k. take k (xs ++ ys)) h
    ∙ (take-split (length xs) m (xs ++ ys) ∙ rw (take-append xs ys, drop-append xs ys) refl)

-- What a length cuts off a longer text: its front, a line feed, and a part of one entry.
abbrev pub IsCut : ℕ → List Entry → Bytes → Type 0
IsCut n es rest =
    (ys : Bytes) × Lacks b'\n' ys
    × (take n (lines es ++ rest) ≡ lines (front n es) ++ b'\n' ∷ ys)
    × (0 < length (back n es))

pub front-IsCut :
    (n : ℕ) (es : List Entry) (rest : Bytes)
    → 1 ≤ n
    → n < length (lines es) + 1
    → All IsEntry es
    → IsCut n es rest
unfolding front back
front-IsCut n [] rest pos h all = absurd (omega (arith, pos, h))
front-IsCut n (e ∷ es) rest pos h all = elim (Bool-cases (leb (length (line e) + 1) n)) [
  | inl fits ↦
      let within' : length (line e) + 1 ≤ n = leb→le _ _ fits in
      let (ys, lacks, cut, more) =
        front-IsCut (n - length (line e)) es rest (omega (arith, within'))
          (omega (arith, h, within', length-append (line e) (lines es))) all.1 in
      rw fits (
        ys,
        lacks,
        ap (take n) (append_assoc (line e) (lines es) rest)
            ∙ (take-past n (n - length (line e)) (line e) (lines es ++ rest)
                  (omega (arith, within'))
                ∙ (ap (λ b. line e ++ b) cut
                    ∙ sym (
                        append_assoc (line e) (lines (front (n - length (line e)) es))
                          (b'\n' ∷ ys)))),
        more,
      )
  | inr long ↦ rw long (first e es rest n pos (leb→gt _ _ long) all.0)
]
  where
    first :
        (e : Entry) (es : List Entry) (rest : Bytes) (n : ℕ)
        → 1 ≤ n
        → n < length (line e) + 1
        → IsEntry e
        → (ys : Bytes) × Lacks b'\n' ys
          × (take n (line e ++ lines es ++ rest) ≡ b'\n' ∷ ys)
          × (0 < length (e ∷ es))
    first e es rest zero pos long is = absurd (omega (arith, pos))
    first e es rest (suc n) pos long is = (
      take n (e.midashi ++ b' ' ∷ e.candidates),
      Lacks-take b'\n' n _
          (Lacks-append b'\n' e.midashi (b' ' ∷ e.candidates) is.1 (ground arith, is.2)),
      ap (take (suc n)) (append_assoc (line e) (lines es) rest)
          ∙ ap (◌∷◌ b'\n') (
              take-within n (e.midashi ++ b' ' ∷ e.candidates) (lines es ++ rest)
                (omega (arith, long))),
      omega arith,
    )
