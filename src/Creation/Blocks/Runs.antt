-- ===== src/Creation/Blocks/Runs.antt =====
-- One round of `get_dictionary_block_informations` of
-- src/skk/yaskkserv2_make_dictionary/dictionary_creator.rs, where entries are left and each fits
-- the unit length.
pub mod Whole
use yaskkserv.Prelude.{
  ℕ, suc, ◌+◌, ◌-◌, ◌≤◌, max, ◌≡◌, refl, sym, ap, ◌∙◌, inl, inr, Bool, false, some, List, [], ◌∷◌,
  ◌++◌, append_assoc, arith, leb, ◌==◌, if◌then◌else◌, leb→le, le→leb, leb→gt, gt→==, Bool-cases,
  Bytes, Lacks, length, length-append, take_all, All, ◌>>=◌, ok_or, ok,
}
use yaskkserv.Substrings.{TwoWay, TwoWayBack, slice, slice_from}
use yaskkserv.Substrings.Positions.{found, byte-IsFirst}
use yaskkserv.Substrings.Last.{found_last, byte-IsLast}
use yaskkserv.Substrings.Slices.{slice-take, slice_from-append, slice-append}
use yaskkserv.BlockSearch.{DictionaryBlockInformation, Informations}
use yaskkserv.Creation.IndexData.{u32}
use yaskkserv.Creation.Blocks.{is_found_at, informations_loop, padded, dictionary_block_unit_length}
use yaskkserv.Creation.Blocks.Entries.{
  Entry, IsEntry, line, lines, end, front, back, front-back, front_all, front-le, front-IsCut,
  lines-append, take-past,
}

abbrev pub first_midashi : List Entry → Bytes
first_midashi [] = []
first_midashi (e ∷ es) = e.midashi

-- An entry that fits the unit length with the line feeds around it.
abbrev pub IsShort : Entry → Type 0
IsShort e = length (line e) + 1 ≤ dictionary_block_unit_length

-- The information of a block of entries at an offset.
abbrev pub information : ℕ → ℕ → List Entry → DictionaryBlockInformation
information blocks_len offset' g = record {
  midashi = first_midashi g;
  offset = u32 (blocks_len + offset');
  length = u32 (length (lines g) + 1);
}

pub first-front :
    (e : Entry) (es : List Entry)
    → IsShort e
    → (rest : List Entry) × (front dictionary_block_unit_length (e ∷ es) ≡ e ∷ rest)
unfolding front
first-front e es short =
    rw (le→leb (length (line e) + 1) dictionary_block_unit_length short) (_, refl)

module _ (e : Entry) (es : List Entry) (pre : Bytes) (entries : All IsEntry (e ∷ es)) where
  abbrev pub run : List Entry
  run = front dictionary_block_unit_length (e ∷ es)

  abbrev pub later : List Entry
  later = back dictionary_block_unit_length (e ∷ es)

  abbrev pub buffer : Bytes
  buffer = pre ++ (lines (e ∷ es) ++ end)

  abbrev pub is_end : Bool
  is_end = leb (length buffer) (length pre + dictionary_block_unit_length)

  abbrev unit : ℕ
  unit = if is_end then length buffer - length pre else dictionary_block_unit_length

  pub size : length buffer ≡ length pre + (length (lines (e ∷ es)) + 1)
  size =
      omega (arith, length-append pre (lines (e ∷ es) ++ end), length-append (lines (e ∷ es)) end)

  -- The bytes up to the unit length are the run, a line feed, and no other line feed.
  head :
      (ys : Bytes) × Lacks b'\n' ys
      × (slice buffer 0 (length pre + unit) ≡ ok (pre ++ lines run ++ b'\n' ∷ ys))
  head = elim (Bool-cases is_end) [
    | inl at ↦
        let few : length (lines (e ∷ es)) + 1 ≤ dictionary_block_unit_length =
          omega (arith, leb→le _ _ at, size) in
        let all : lines (e ∷ es) ≡ lines run =
          ap lines (sym (front_all dictionary_block_unit_length (e ∷ es) few)) in
        (
          [],
          tt,
          rw at (
              slice-take buffer (omega (arith, size)) (omega arith)
              ∙ ap ok (
                  take_all (length buffer) buffer (omega arith)
                  ∙ (sym (append_assoc pre (lines (e ∷ es)) end) ∙ ap (λ b. pre ++ b ++ end) all))),
        )
    | inr before ↦
        let (ys, lacks, cut, more) =
          front-IsCut dictionary_block_unit_length (e ∷ es) end (omega arith)
            (omega (arith, leb→gt _ _ before, size)) entries in
        (
          ys,
          lacks,
          rw before (
              slice-take buffer refl (omega (arith, leb→gt _ _ before))
              ∙ ap ok (
                  take-past (length pre + dictionary_block_unit_length) dictionary_block_unit_length
                    pre (lines (e ∷ es) ++ end) refl
                  ∙ (ap (λ b. pre ++ b) cut ∙ sym (append_assoc pre (lines run) (b'\n' ∷ ys))))),
        )
  ]

  pub regrouped : buffer ≡ pre ++ (lines run ++ (lines later ++ end))
  regrouped =
      ap (λ es. pre ++ (lines es ++ end)) (sym (front-back dictionary_block_unit_length (e ∷ es)))
      ∙ ap (λ b. pre ++ b)
          (ap (λ b. b ++ end) (lines-append run later) ∙ append_assoc (lines run) (lines later) end)

  part : slice buffer (length pre) (length (pre ++ lines run)) ≡ ok (lines run)
  part =
      rw regrouped
        (slice-append pre (lines run) (lines later ++ end) refl (length-append pre (lines run)))

  spaced : lines (e ∷ es) ++ end ≡ b'\n' ∷ e.midashi ++ b' ' ∷ (e.candidates ++ (lines es ++ end))
  spaced =
      append_assoc (line e) (lines es) end
      ∙ append_assoc (b'\n' ∷ e.midashi) (b' ' ∷ e.candidates) _

  name : slice buffer (length pre + 1) (length pre + length (b'\n' ∷ e.midashi)) ≡ ok e.midashi
  name =
      let place : buffer ≡ pre ++ end ++ (e.midashi ++ b' ' ∷ (e.candidates ++ (lines es ++ end))) =
        ap (λ b. pre ++ b) spaced ∙ sym (append_assoc pre end _) in
      rw place
        (slice-append (pre ++ end) e.midashi _ (omega (arith, length-append pre end)) (omega arith))

  -- A round makes an information of the run, and goes on behind it unless the end is near.
  pub round :
      (w : TwoWay) (wb : TwoWayBack) (fuel blocks_len max_entry_length : ℕ)
      (informations : Informations) (aligned_block : Bytes)
      → IsShort e
      → informations_loop w wb
          (suc fuel)
          buffer
          blocks_len
          max_entry_length
          (length pre)
          informations
          aligned_block
        ≡ (if is_end
            then ok (
              padded (aligned_block ++ lines run),
              informations ++ information blocks_len (length pre) run ∷ [],
            )
            else informations_loop w wb fuel buffer blocks_len max_entry_length
                (length (pre ++ lines run))
                (informations ++ information blocks_len (length pre) run ∷ [])
                (aligned_block ++ lines run))
  unfolding informations_loop
  round w wb fuel blocks_len max informations aligned_block short =
      let (ys, lacks, cut) = head in
      let (rest, starts) = first-front e es short in
      let tail : slice_from buffer (length pre)
          ≡ ok (b'\n' ∷ e.midashi ++ b' ' ∷ (e.candidates ++ (lines es ++ end))) =
        slice_from-append pre (lines (e ∷ es) ++ end) refl ∙ ap ok spaced in
      let space : w.find_bytes (b'\n' ∷ e.midashi ++ b' ' ∷ (e.candidates ++ (lines es ++ end)))
            (b' ' ∷ [])
          ≡ some (length (b'\n' ∷ e.midashi)) =
        found w _ (b' ' ∷ []) (some (length (b'\n' ∷ e.midashi)))
          (byte-IsFirst b' ' (b'\n' ∷ e.midashi) _ (ground arith, entries.0.0)) in
      let line_feed : wb.rfind_bytes (pre ++ lines run ++ b'\n' ∷ ys) (b'\n' ∷ [])
          ≡ some (length (pre ++ lines run)) =
        found_last wb _ (b'\n' ∷ []) (some (length (pre ++ lines run)))
          (byte-IsLast b'\n' (pre ++ lines run) ys lacks) in
      let behind : (length (pre ++ lines run) == length pre) ≡ false =
        gt→== _ _
          (omega (arith, length-append pre (lines run), ap (λ es. length (lines es)) starts)) in
      let width : length (pre ++ lines run) + 1 - length pre ≡ length (lines run) + 1 =
        omega (arith, length-append pre (lines run)) in
      let named : first_midashi run ≡ e.midashi = ap first_midashi starts in
      rw
        (
          tail, ◌>>=◌, space, ok_or, cut, line_feed, is_found_at, behind, cut, line_feed, part,
          name, width, named,
        )
        (elim (Bool-cases is_end) [ inl at ↦ rw at refl | inr before ↦ rw before refl ])
