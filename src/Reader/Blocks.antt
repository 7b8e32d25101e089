-- ===== src/Reader/Blocks.antt =====
-- The search of one dictionary block of src/skk/yaskkserv2/dictionary_reader.rs, against the
-- lines that a block is made of: "\nmidashi /candidates/", one after the other.
use yaskkserv.Prelude.{
  ℕ, ◌+◌, ◌-◌, ◌<◌, ◌≡◌, refl, sym, ap, ◌∙◌, true, false, ◌&&◌, none, some, [], ◌∷◌, ◌++◌,
  append_assoc, arith, leb, Bytes, Lacks, length, drop, length-append, take-append, drop-append, ok,
}
use yaskkserv.Substrings.{TwoWay, starts_with, slice, slice_from}
use yaskkserv.Substrings.Positions.{found, starts_with-append, byte-IsFirst}
use yaskkserv.Reader.{search_block, add_candidates}

abbrev pub line_start : Bytes → Bytes
line_start midashi = b'\n' ∷ midashi ++ b' ' ∷ b'/' ∷ []

-- The first line of the midashi stands between `before` and `after`.
abbrev pub IsBlockOf : Bytes → Bytes → Bytes → Bytes → Bytes → Type 0
IsBlockOf block midashi before candidates after =
    (block ≡ before ++ (line_start midashi ++ (candidates ++ b'\n' ∷ after)))
    × ((j : ℕ) → j < length before → starts_with (line_start midashi) (drop j block) ≡ false)

slice_from-append : (xs ys : Bytes) → slice_from (xs ++ ys) (length xs) ≡ ok ys
slice_from-append xs ys =
    let inside : leb (length xs) (length (xs ++ ys)) ≡ true = ground (arith, length-append xs ys) in
    rw inside (ap ok (drop-append xs ys))

slice-append :
    (xs ys zs : Bytes) → slice (xs ++ (ys ++ zs)) (length xs) (length xs + length ys) ≡ ok ys
slice-append xs ys zs =
    let size : length (xs ++ (ys ++ zs)) ≡ length xs + (length ys + length zs) =
      omega (arith, length-append xs (ys ++ zs), length-append ys zs) in
    let inside : (leb (length xs) (length xs + length ys)
          && leb (length xs + length ys) (length (xs ++ (ys ++ zs))))
        ≡ true =
      ground (arith, size) in
    let width : length xs + length ys - length xs ≡ length ys = omega arith in
    rw (inside, width, drop-append xs (ys ++ zs)) (ap ok (take-append ys zs))

module _ (w : TwoWay) where
  -- Where the block has a line for the midashi, the candidates of the first one are added to the
  -- result, the slash that the search skips left out.
  pub search_block-entry :
      (midashi block before candidates after result : Bytes)
      → IsBlockOf block midashi before candidates after
      → Lacks b'\n' candidates
      → search_block w midashi block result ≡ add_candidates candidates result
  unfolding search_block
  search_block-entry midashi block before candidates after result (e, first) lacks =
      let pattern : Bytes = line_start midashi in
      let rest : Bytes = candidates ++ b'\n' ∷ after in
      let there : starts_with pattern (drop (length before) block) ≡ true =
        ap (λ t. starts_with pattern (drop (length before) t)) e
        ∙ ap (starts_with pattern) (drop-append before (pattern ++ rest))
        ∙ starts_with-append pattern rest in
      let regrouped : block ≡ (before ++ pattern) ++ rest =
        e ∙ sym (append_assoc before pattern rest) in
      let size : length (before ++ pattern) ≡ length before + length pattern =
        length-append before pattern in
      let f1 : w.find_bytes block pattern ≡ some (length before) =
        found w block pattern (some (length before)) (there, first) in
      let f2 : slice_from block (length before + length pattern) ≡ ok rest =
        ap (λ t. slice_from t (length before + length pattern)) regrouped
        ∙ ap (slice_from ((before ++ pattern) ++ rest)) (sym size)
        ∙ slice_from-append (before ++ pattern) rest in
      let f3 : w.find_bytes rest (b'\n' ∷ []) ≡ some (length candidates) =
        found w rest (b'\n' ∷ []) (some (length candidates))
          (byte-IsFirst b'\n' candidates after lacks) in
      let f4 : slice block (length before + length pattern)
            (length before + length pattern + length candidates)
          ≡ ok candidates =
        ap
          (λ t.
            slice t (length before + length pattern)
              (length before + length pattern + length candidates))
          regrouped
        ∙ ap (λ k. slice ((before ++ pattern) ++ rest) k (k + length candidates)) (sym size)
        ∙ slice-append (before ++ pattern) candidates (b'\n' ∷ after) in
      rw (f1, f2, f3, f4, search_block) refl

  -- A block without a line for the midashi leaves the result as it is.
  pub search_block-absent :
      (midashi block result : Bytes)
      → ((j : ℕ) → starts_with (line_start midashi) (drop j block) ≡ false)
      → search_block w midashi block result ≡ ok result
  unfolding search_block
  search_block-absent midashi block result absent =
      let none_found : w.find_bytes block (line_start midashi) ≡ none =
        found w block (line_start midashi) none absent in
      rw (none_found, search_block) refl
