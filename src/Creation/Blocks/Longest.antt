-- ===== src/Creation/Blocks/Longest.antt =====
-- `get_max_entry_length` of src/skk/yaskkserv2_make_dictionary/dictionary_creator.rs on entries.
use yaskkserv.Prelude.{
  ℕ, zero, suc, ◌+◌, ◌≤◌, ◌<◌, max, ◌≡◌, refl, sym, ap, ◌∙◌, true, false, some, List, [], ◌∷◌, ◌++◌,
  append_assoc, append-nil, arith, ltb, ◌==◌, if◌then◌else◌, ==_iff, lt→==, Bytes, Lacks, length,
  length-append, All, ◌>>=◌, ok,
}
use yaskkserv.Substrings.{TwoWay, slice_from}
use yaskkserv.Substrings.Positions.{found, byte-IsFirst}
use yaskkserv.Substrings.Slices.{slice_from-append}
use yaskkserv.Creation.Blocks.{max_entry_length_loop, get_max_entry_length}
use yaskkserv.Creation.Blocks.Entries.{Entry, IsEntry, line, lines, end, Lacks-append}

-- The longest entry, with the line feeds around it.
unfoldable pub longest : ℕ → List Entry → ℕ
longest m [] = m
longest m (e ∷ es) = longest (max m (length (line e) + 1)) es

-- What follows an entry starts with a line feed.
pub lines-end : (es : List Entry) → (ys : Bytes) × (lines es ++ end ≡ b'\n' ∷ ys)
lines-end [] = ([], refl)
lines-end (e ∷ es) = (_, refl)

pub length-lines : (es : List Entry) → length es ≤ length (lines es)
length-lines [] = omega arith
length-lines (e ∷ es) = omega (arith, length-append (line e) (lines es), length-lines es)

larger : (m l : ℕ) → (if ltb m l then l else m) ≡ max m l
larger m l = ground arith

module _ (w : TwoWay) where
  -- A round at an entry: it is measured, and the round goes on behind it unless it is the last.
  round :
      (es : List Entry) (e : Entry) (fuel m : ℕ) (pre : Bytes)
      → IsEntry e
      → max_entry_length_loop w (suc fuel) (pre ++ (lines (e ∷ es) ++ end)) (length pre) m ≡ (
          if 1 + length pre + length (e.midashi ++ b' ' ∷ e.candidates) + 1
            == length (pre ++ (lines (e ∷ es) ++ end))
          then ok (max m (length (line e) + 1))
          else max_entry_length_loop w fuel
              (pre ++ (lines (e ∷ es) ++ end))
              (length pre + length (e.midashi ++ b' ' ∷ e.candidates) + 1)
              (max m (length (line e) + 1)))
  unfolding max_entry_length_loop
  round es e fuel m pre is =
      let text = e.midashi ++ b' ' ∷ e.candidates in
      let (ys, ends) = lines-end es in
      let lacks : Lacks b'\n' text =
        Lacks-append b'\n' e.midashi (b' ' ∷ e.candidates) is.1 (ground arith, is.2) in
      let place : pre ++ (lines (e ∷ es) ++ end) ≡ pre ++ end ++ (text ++ b'\n' ∷ ys) =
        ap (λ b. pre ++ b'\n' ∷ b) (append_assoc text (lines es) end ∙ ap (λ b. text ++ b) ends)
        ∙ sym (append_assoc pre end _) in
      let here : slice_from (pre ++ (lines (e ∷ es) ++ end)) (length pre + 1)
          ≡ ok (text ++ b'\n' ∷ ys) =
        rw place (
          slice_from-append (pre ++ end) (text ++ b'\n' ∷ ys)
            (omega (arith, length-append pre end))) in
      let find : w.find_bytes (text ++ b'\n' ∷ ys) end ≡ some (length text) =
        found w _ end (some (length text)) (byte-IsFirst b'\n' text ys lacks) in
      let size : 1 + length text + 1 ≡ length (line e) + 1 = omega arith in
      rw (here, ◌>>=◌, find, larger m (1 + length text + 1), size) refl

  loop-longest :
      (es : List Entry) (e : Entry) (fuel m : ℕ) (pre : Bytes)
      → length es < fuel
      → All IsEntry (e ∷ es)
      → max_entry_length_loop w fuel (pre ++ (lines (e ∷ es) ++ end)) (length pre) m
        ≡ ok (longest m (e ∷ es))
  unfolding longest
  loop-longest es e zero m pre enough all = absurd (omega (arith, enough))
  loop-longest [] e (suc fuel) m pre enough all =
      let last : (1 + length pre + length (e.midashi ++ b' ' ∷ e.candidates) + 1
            == length (pre ++ (lines (e ∷ []) ++ end)))
          ≡ true =
        (==_iff _ _).1 (
          omega (
            arith,
            length-append pre (line e ++ [] ++ end),
            length-append (line e ++ []) end,
            ap length (append-nil (line e)),
          )) in
      round [] e fuel m pre all.0 ∙ rw last refl
  loop-longest (f ∷ es) e (suc fuel) m pre enough all =
      let place : pre ++ (lines (e ∷ f ∷ es) ++ end) ≡ pre ++ line e ++ (lines (f ∷ es) ++ end) =
        simp append_assoc refl in
      let more : (1 + length pre + length (e.midashi ++ b' ' ∷ e.candidates) + 1
            == length (pre ++ (lines (e ∷ f ∷ es) ++ end)))
          ≡ false =
        lt→== _ _ (
          omega (
            arith,
            ap length place,
            length-append (pre ++ line e) (lines (f ∷ es) ++ end),
            length-append pre (line e),
            length-append (lines (f ∷ es)) end,
          )) in
      let behind : length pre + length (e.midashi ++ b' ' ∷ e.candidates) + 1
          ≡ length (pre ++ line e) =
        omega (arith, length-append pre (line e)) in
      round (f ∷ es) e fuel m pre all.0
      ∙ rw (more, place, behind)
          (loop-longest es f fuel (max m (length (line e) + 1)) (pre ++ line e)
            (omega (arith, enough)) all.1)

  -- The buffer of a key has its longest entry found, in as many rounds as there are entries.
  pub get_max_entry_length-longest :
      (e : Entry) (es : List Entry)
      → All IsEntry (e ∷ es)
      → get_max_entry_length w (lines (e ∷ es) ++ end) ≡ ok (longest 0 (e ∷ es))
  unfolding get_max_entry_length
  get_max_entry_length-longest e es all =
      loop-longest es e _ 0 []
        (omega (
          arith,
          length-append (lines (e ∷ es)) end,
          length-append (line e) (lines es),
          length-lines es,
        ))
        all
