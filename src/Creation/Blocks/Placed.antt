-- ===== src/Creation/Blocks/Placed.antt =====
-- The text that an information of src/skk/yaskkserv2_make_dictionary/dictionary_creator.rs stands
-- for: what src/skk/yaskkserv2/dictionary_reader.rs reads at its offset.
use yaskkserv.Creation.Blocks.Runs.{IsShort}
use yaskkserv.Prelude.{
  ℕ, ◌+◌, ◌^◌, ◌≤◌, ◌<◌, ◌≡◌, refl, sym, ap, ◌∙◌, List, [], ◌∷◌, ◌++◌, reverse, append_assoc, arith,
  Bytes, length, length-append, All, ok,
}
use yaskkserv.Substrings.{slice}
use yaskkserv.Substrings.Slices.{slice-append}
use yaskkserv.Creation.Blocks.{
  get_dictionary_block_informations, TwoWayBack, u32, TwoWay, Informations, padded,
}
use yaskkserv.Creation.Blocks.Entries.{IsEntry, Entry, lines, lines-append, end}
use yaskkserv.Creation.Blocks.Longest.{lines-end}
use yaskkserv.Creation.Blocks.Runs.Whole.{
  IsRun, get_dictionary_block_informations-runs, described, Runs, flat_entries,
}
use yaskkserv.Creation.Blocks.Sorted.{flat_entries-append}

-- The line feed behind a run is the next entry's or the block's last one, and the padding follows.
padded-lines : (es : List Entry) → (xs : Bytes) × (padded (lines es) ≡ lines es ++ b'\n' ∷ xs)
unfolding padded
padded-lines es = (_, append_assoc (lines es) end _)

moved :
    (l r a xs ys rest : Bytes)
    → a ++ end ≡ b'\n' ∷ ys
    → l ++ (r ++ a) ++ b'\n' ∷ xs ++ rest ≡ l ++ (r ++ end ++ (ys ++ (xs ++ rest)))
moved l r a xs ys rest ends =
    let left : l ++ (r ++ a) ++ b'\n' ∷ xs ++ rest ≡ l ++ (r ++ (a ++ end ++ (xs ++ rest))) =
      simp append_assoc refl in
    let right : l ++ (r ++ (b'\n' ∷ ys ++ (xs ++ rest))) ≡ l ++ (r ++ end ++ (ys ++ (xs ++ rest))) =
      simp append_assoc refl in
    left ∙ (ap (λ b. l ++ (r ++ (b ++ (xs ++ rest)))) ends ∙ right)

grouped :
    (before after : Runs) (run : List Entry)
    → lines (flat_entries (before ++ run ∷ after))
      ≡ lines (flat_entries before) ++ (lines run ++ lines (flat_entries after))
grouped before after run =
    ap lines (flat_entries-append before (run ∷ after))
    ∙ (lines-append (flat_entries before) (run ++ flat_entries after)
        ∙ ap (λ b. lines (flat_entries before) ++ b) (lines-append run (flat_entries after)))

length-grouped :
    (before after : Runs) (run : List Entry)
    → length (lines (flat_entries (before ++ run ∷ after)))
      ≡ length (lines (flat_entries before))
        + (length (lines run) + length (lines (flat_entries after)))
length-grouped before after run =
    ap length (grouped before after run)
    ∙ length-append (lines (flat_entries before)) (lines run ++ lines (flat_entries after))
    ∙ ap (λ n. length (lines (flat_entries before)) + n)
        (length-append (lines run) (lines (flat_entries after)))

-- In the blocks of a dictionary, the text of a run, with the line feeds around it, stands behind the
-- runs before it.
slice-run :
    (blocks rest : Bytes) (before after : Runs) (run : List Entry)
    → slice
        (blocks ++ (padded (lines (flat_entries (before ++ run ∷ after))) ++ rest))
        (length blocks + length (lines (flat_entries before)))
        (length blocks + length (lines (flat_entries before)) + (length (lines run) + 1))
      ≡ ok (lines run ++ end)
slice-run blocks rest before after run =
    let L = lines (flat_entries before) in
    let (xs, pads) = padded-lines (flat_entries (before ++ run ∷ after)) in
    let (ys, ends) = lines-end (flat_entries after) in
    let text : padded (lines (flat_entries (before ++ run ∷ after))) ++ rest
        ≡ L ++ (lines run ++ end ++ (ys ++ (xs ++ rest))) =
      ap (λ b. b ++ rest) (pads ∙ ap (λ b. b ++ b'\n' ∷ xs) (grouped before after run))
      ∙ moved L (lines run) (lines (flat_entries after)) xs ys rest ends in
    let place : blocks ++ (padded (lines (flat_entries (before ++ run ∷ after))) ++ rest)
        ≡ blocks ++ L ++ (lines run ++ end ++ (ys ++ (xs ++ rest))) =
      ap (λ b. blocks ++ b) text ∙ sym (append_assoc blocks L _) in
    rw place (
      slice-append (blocks ++ L) (lines run ++ end) (ys ++ (xs ++ rest))
        (sym (length-append blocks L)) (omega (arith, length-append (lines run) end)))

-- The bytes that an information stands for are the text of a run, and so on for all of them.
abbrev pub ArePlaced : Bytes → Informations → Runs → Type 0
ArePlaced file [] [] = Unit {0}
ArePlaced file (i ∷ infos) (g ∷ gs) =
    (slice file i.offset (i.offset + i.length) ≡ ok (lines g ++ end)) × ArePlaced file infos gs
ArePlaced file _ _ = ⊥

module _ (blocks rest : Bytes) where
  described-ArePlaced :
      (before gs : Runs) (file : Bytes) (o : ℕ)
      → file ≡ blocks ++ (padded (lines (flat_entries (before ++ gs))) ++ rest)
      → o ≡ length (lines (flat_entries before))
      → length blocks + length (lines (flat_entries (before ++ gs))) + 1 < 2 ^ 32
      → ArePlaced file (described (length blocks) o gs) gs
  described-ArePlaced before [] file o whole place fits = tt
  described-ArePlaced before (g ∷ gs) file o whole place fits =
      let size = length-grouped before gs g in
      let start : length blocks + o ≡ length blocks + length (lines (flat_entries before)) =
        ap (λ n. length blocks + n) place in
      let offset' : u32 (length blocks + o) ≡ length blocks + length (lines (flat_entries before)) =
        omega (arith, start, size, fits) in
      let length' : u32 (length (lines g) + 1) ≡ length (lines g) + 1 = omega (arith, size, fits) in
      let again : before ++ g ∷ gs ≡ before ++ g ∷ [] ++ gs =
        sym (append_assoc before (g ∷ []) gs) in
      (
        rw (offset', length', whole) (slice-run blocks rest before gs g),
        described-ArePlaced (before ++ g ∷ []) gs file (o + length (lines g))
            (whole ∙ ap (λ b. blocks ++ (padded (lines (flat_entries b)) ++ rest)) again)
            (omega (arith, place, length-grouped before [] g))
            (omega (arith, fits, ap (λ b. length (lines (flat_entries b))) again)),
      )

-- The informations of the entries of a key, each well-formed and of at most 2048 bytes, stand for
-- runs of the entries, the last one first. Where the blocks up to these entries have fewer than
-- 2 ^ 32 bytes, each offset and length cut the text of its run, with the line feeds around it, out
-- of the blocks, whatever blocks follow.
pub get_dictionary_block_informations-ArePlaced :
    (w : TwoWay) (wb : TwoWayBack) (e : Entry) (es : List Entry) (blocks rest : Bytes)
    → All IsEntry (e ∷ es)
    → All IsShort (e ∷ es)
    → length blocks + length (padded (lines (e ∷ es))) < 2 ^ 32
    → (block : Bytes) × (infos : Informations) × (gs : Runs) × (get_dictionary_block_informations w
          wb
          (lines (e ∷ es) ++ end)
          (length blocks)
          []
        ≡ ok (block, reverse infos))
      × (flat_entries gs ≡ e ∷ es)
      × All IsRun gs
      × ArePlaced (blocks ++ (block ++ rest)) infos gs
get_dictionary_block_informations-ArePlaced w wb e es blocks rest entries short fits =
    let (gs, flat, runs, done) =
      get_dictionary_block_informations-runs w wb e es (length blocks) entries short in
    let (xs, pads) = padded-lines (e ∷ es) in
    let inside : length (lines (e ∷ es)) + 1 ≤ length (padded (lines (e ∷ es))) =
      omega (arith, ap length pads, length-append (lines (e ∷ es)) (b'\n' ∷ xs)) in
    (
      padded (lines (e ∷ es)),
      described (length blocks) 0 gs,
      gs,
      done,
      flat,
      runs,
      described-ArePlaced blocks rest [] gs (blocks ++ (padded (lines (e ∷ es)) ++ rest)) 0
          (ap (λ b. blocks ++ (padded (lines b) ++ rest)) (sym flat)) refl
          (omega (arith, fits, inside, ap (λ b. length (lines b)) flat)),
    )
