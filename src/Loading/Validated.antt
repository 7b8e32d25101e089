-- ===== src/Loading/Validated.antt =====
-- What `validate_except_dictionary_fixed_header` of src/skk/dictionary.rs accepts.
use yaskkserv.Prelude.{
  ℕ, zero, suc, ◌+◌, ◌-◌, ◌%◌, ◌^◌, ◌≤◌, ◌<◌, min, ◌≡◌, refl, sym, ap, ◌∙◌, inl, inr, List, [], ◌∷◌,
  ◌++◌, append_assoc, append-nil, arith, leb, ◌==◌, if◌then◌else◌, leb→le, leb→gt, ==_iff,
  Bool-cases, Bytes, equal, length, take, drop, length-append, length-drop, length-take, drop-drop,
  take-split, ◌>>=◌, broken_dictionary, ok, err,
}
use yaskkserv.Creation.Layout.{dictionary_fixed_header_area_length}
use yaskkserv.Loading.Setup.{Read, scan, validate_except_dictionary_fixed_header}

-- `read` gives the bytes at a position, as many as it likes of those asked for, and at least one
-- unless none is asked for or the file has ended.
abbrev pub Reads : Bytes → Read → Type 0
Reads content read =
    (pos most : ℕ)
    → (n : ℕ) × (read pos most ≡ ok (take n (drop pos content)))
      × (n ≤ most)
      × (n ≤ length content - pos)
      × (0 < most → 0 < length content - pos → 0 < n)

stopped :
    (n bl limit left : ℕ)
    → (0 < min bl limit → 0 < left → 0 < n)
    → 0 < bl
    → n ≡ 0
    → min limit left ≡ 0
stopped n bl zero left h pos e = omega arith
stopped n bl (suc limit) zero h pos e = omega arith
stopped n bl (suc limit) (suc left) h pos e =
    absurd (omega (arith, e, h (omega (arith, pos)) (omega arith)))

nil_of {ℓ} : {A : Type ℓ} (xs : List A) → length xs ≡ 0 → xs ≡ []
nil_of [] h = refl
nil_of (x ∷ xs) h = absurd (omega (arith, h))

-- The loop gives what is left of the file, up to the limit, to the hasher, however it is read.
pub scan-take :
    (fuel : ℕ) (content : Bytes) (read : Read) (sha1_read_buffer_length total limit : ℕ)
    (hashed : Bytes)
    → Reads content read
    → 0 < sha1_read_buffer_length
    → limit < fuel
    → scan fuel read sha1_read_buffer_length total limit hashed
      ≡ ok (
        total + length (take limit (drop total content)),
        hashed ++ take limit (drop total content),
      )
unfolding scan
scan-take zero content read bl total limit hashed reads pos enough = absurd (omega (arith, enough))
scan-take (suc fuel) content read bl total limit hashed reads pos enough =
    let (n, got, few, inside, some') = reads total (min bl limit) in
    let W = take n (drop total content) in
    let size : length W ≡ n =
      omega (arith, length-take n (drop total content), length-drop total content, inside) in
    rw (got, ◌>>=◌, size)
      (elim (Bool-cases (n == 0)) [
        | inl e ↦
            let over : take limit (drop total content) ≡ [] = nil_of _ (
              length-take limit (drop total content)
              ∙ (ap (min limit) (length-drop total content)
                  ∙ stopped n bl limit (length content - total) some' pos ((==_iff n 0).0 e))) in
            let count : total + 0 ≡ total = omega arith in
            rw (e, over, append-nil hashed, count) refl
        | inr e ↦
            let R = take (limit - n) (drop (total + n) content) in
            let several : 0 < n = ground (arith, e) in
            let split : take limit (drop total content) ≡ W ++ R =
              ap (λ k. take k (drop total content)) (omega (arith, few))
              ∙ (take-split n (limit - n) (drop total content)
                  ∙ ap (λ xs. W ++ take (limit - n) xs) (drop-drop total n content)) in
            let count : total + n + length R ≡ total + length (take limit (drop total content)) =
              omega (arith, ap length split, length-append W R, size) in
            let bytes : hashed ++ W ++ R ≡ hashed ++ take limit (drop total content) =
              append_assoc hashed W R ∙ ap (λ b. hashed ++ b) (sym split) in
            rw (e, size)
              (scan-take fuel content read bl (total + n) (limit - n) (hashed ++ W) reads pos
                  (omega (arith, enough, several, few))
                ∙ rw (count, bytes) refl)
      ])

whole :
    (dl total w : ℕ)
    → dictionary_fixed_header_area_length ≤ dl
    → dictionary_fixed_header_area_length ≤ total
    → w
      ≡ min (dl - dictionary_fixed_header_area_length) (total - dictionary_fixed_header_area_length)
    → (dictionary_fixed_header_area_length + w == dl) ≡ leb dl total
whole dl total w lo long size = elim (Bool-cases (leb dl total)) [
  | inl e ↦
      let inside : dl ≤ total = leb→le dl total e in
      (==_iff (dictionary_fixed_header_area_length + w) dl).1
        (omega (arith, lo, long, size, inside))
      ∙ sym e
  | inr e ↦ elim (Bool-cases (dictionary_fixed_header_area_length + w == dl)) [
    | inl same ↦ absurd (
        omega (
          arith,
          lo,
          long,
          size,
          leb→gt dl total e,
          (==_iff (dictionary_fixed_header_area_length + w) dl).0 same,
        ))
    | inr other ↦ other ∙ sym e
  ]
]

-- A dictionary is accepted when the file holds its whole length and the digest of its bytes, as
-- they were before the digest was written, is the one in the header; it is a broken dictionary in
-- every other case. The file holds a header area, and the length is not below one.
pub validate-equal :
    (sha1 : Bytes → Bytes) (content : Bytes) (read : Read)
    (sha1_read_buffer_length dictionary_length : ℕ) (hashed sha1sum : Bytes)
    → Reads content read
    → 0 < sha1_read_buffer_length
    → dictionary_fixed_header_area_length ≤ dictionary_length
    → dictionary_length < 2 ^ 64
    → dictionary_fixed_header_area_length ≤ length content
    → validate_except_dictionary_fixed_header sha1 sha1_read_buffer_length read hashed
        dictionary_length sha1sum
      ≡ (if leb dictionary_length (length content)
          then (if equal sha1sum (
                sha1 (
                  hashed
                  ++ take
                      (dictionary_length - dictionary_fixed_header_area_length)
                      (drop dictionary_fixed_header_area_length content)))
              then ok tt
              else err broken_dictionary)
          else err broken_dictionary)
unfolding validate_except_dictionary_fixed_header
validate-equal sha1 content read bl dl hashed sha1sum reads pos lo hi long =
    let D = drop dictionary_fixed_header_area_length content in
    let limit : (dl + 2 ^ 64 - dictionary_fixed_header_area_length) % 2 ^ 64
        ≡ dl - dictionary_fixed_header_area_length =
      omega (arith, lo, hi) in
    let W = take (dl - dictionary_fixed_header_area_length) D in
    let size : length W
        ≡ min (dl - dictionary_fixed_header_area_length)
            (length content - dictionary_fixed_header_area_length) =
      omega (
        arith,
        length-take (dl - dictionary_fixed_header_area_length) D,
        length-drop dictionary_fixed_header_area_length content,
      ) in
    let same : (dictionary_fixed_header_area_length + length W == dl) ≡ leb dl (length content) =
      whole dl (length content) (length W) lo long size in
    rw
      (
        limit,
        scan-take (dl - dictionary_fixed_header_area_length + 1) content read bl
            dictionary_fixed_header_area_length (dl - dictionary_fixed_header_area_length) hashed
            reads pos (omega arith),
        ◌>>=◌,
        same,
      )
      refl
