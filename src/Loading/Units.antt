-- ===== src/Loading/Units.antt =====
-- What src/skk/dictionary.rs reads of the units that src/skk/yaskkserv2_make_dictionary writes.
use yaskkserv.Prelude.{
  ℕ, suc, ◌+◌, ◌*◌, ◌<◌, ◌≡◌, refl, ap, ◌∙◌, subst, true, [], ◌∷◌, ◌++◌, append_assoc, arith, ◌==◌,
  Bytes, Lacks, split, split-join, length, length-append, All, ◌>>=◌, ok,
}
use yaskkserv.Substrings.{slice_from}
use yaskkserv.Substrings.Slices.{slice-append, slice_from-append}
use yaskkserv.BlockSearch.{DictionaryBlockInformation, Informations}
use yaskkserv.OnDisk.{
  heads_to_ne_bytes, heads_from_ne_bytes, Endian, U32, offset_length_to_ne_bytes,
  block_information_offset_length_size, dictionary_block_heads_size,
}
use yaskkserv.OnDisk.Rounds.{
  heads_from_ne_bytes-heads_to_ne_bytes, length-heads,
  offset_length_from_ne_bytes-offset_length_to_ne_bytes, length-offset_length,
}
use yaskkserv.Creation.IndexData.{
  unit_to_ne_bytes, heads, u32, offset_length, IndexUnit, midashis, joined_midashi, offset_lengths,
}
use yaskkserv.Loading.{slice, insert, Index, get_joined_midashi, read_unit, read_informations}

-- An information that a unit can hold: its midashi has no space, its numbers are `u32`.
abbrev pub FitsInformation : DictionaryBlockInformation → Type 0
FitsInformation v = Lacks b' ' v.midashi × U32 v.offset × U32 v.length

-- A unit that its heads can describe.
abbrev pub FitsUnit : IndexUnit → Type 0
FitsUnit u =
    (0 < length u.informations)
    × All FitsInformation u.informations
    × U32 (length u.informations)
    × U32 (length (joined_midashi u.informations))

pub u32-U32 : (x : ℕ) → U32 x → u32 x ≡ x
u32-U32 x h = omega (arith, h)

pub length-offset_lengths :
    (e : Endian) (vs : Informations)
    → length (offset_lengths e vs) ≡ length vs * block_information_offset_length_size
length-offset_lengths e [] = refl
length-offset_lengths e (v ∷ vs) =
    let b = offset_length v in
    omega (
      arith,
      length-append (offset_length_to_ne_bytes e b) (offset_lengths e vs),
      length-offset_length e b,
      length-offset_lengths e vs,
    )

length-midashis : (vs : Informations) → length (midashis vs) ≡ length vs
length-midashis [] = refl
length-midashis (v ∷ vs) = ap suc (length-midashis vs)

split-midashis :
    (vs : Informations)
    → 0 < length vs
    → All FitsInformation vs
    → split b' ' (joined_midashi vs) ≡ midashis vs
split-midashis [] h all = absurd (omega (arith, h))
split-midashis (v ∷ vs) h all = split-join b' ' v.midashi (midashis vs) (all.0.0, lacks vs all.1)
  where
    lacks : (vs : Informations) → All FitsInformation vs → All (Lacks b' ') (midashis vs)
    lacks [] all = tt
    lacks (v ∷ vs) all = (all.0.0, lacks vs all.1)

module _ (e : Endian) (buffer : Bytes) (buffer_offset : ℕ) where
  read_informations-offset_lengths :
      (vs : Informations) (i : ℕ) (pre rest : Bytes)
      → buffer_offset + dictionary_block_heads_size + i * block_information_offset_length_size
        ≡ length pre
      → buffer ≡ pre ++ (offset_lengths e vs ++ rest)
      → All FitsInformation vs
      → read_informations e buffer buffer_offset i (midashis vs) ≡ ok vs
  unfolding read_informations
  read_informations-offset_lengths [] i pre rest at holds all = refl
  read_informations-offset_lengths (v ∷ vs) i pre rest at holds all =
      let b = offset_length v in
      let bytes = offset_length_to_ne_bytes e b in
      let here : slice_from buffer
            (buffer_offset + dictionary_block_heads_size + i * block_information_offset_length_size)
          ≡ ok (bytes ++ (offset_lengths e vs ++ rest)) =
        rw (holds, append_assoc bytes (offset_lengths e vs) rest) (slice_from-append pre _ at) in
      let more : read_informations e buffer buffer_offset (i + 1) (midashis vs) ≡ ok vs =
        read_informations-offset_lengths vs (i + 1) (pre ++ bytes) rest
          (omega (arith, at, length-append pre bytes, length-offset_length e b))
          (rw (holds) (simp append_assoc refl)) all.1 in
      rw
        (
          here,
          offset_length_from_ne_bytes-offset_length_to_ne_bytes e b (offset_lengths e vs ++ rest)
              all.0.1 all.0.2,
          more,
        )
        refl

pub length-unit :
    (e : Endian) (u : IndexUnit)
    → length (unit_to_ne_bytes e u)
      ≡ dictionary_block_heads_size
        + length u.informations * block_information_offset_length_size
        + length (joined_midashi u.informations)
unfolding unit_to_ne_bytes
length-unit e u = omega (
  arith,
  length-append (heads_to_ne_bytes e (heads u))
      (offset_lengths e u.informations ++ joined_midashi u.informations),
  length-append (offset_lengths e u.informations) (joined_midashi u.informations),
  length-heads e (heads u),
  length-offset_lengths e u.informations,
)

module _ (e : Endian) (pre : Bytes) (u : IndexUnit) (rest : Bytes) (fits : FitsUnit u) where
  abbrev buffer : Bytes
  buffer = pre ++ (unit_to_ne_bytes e u ++ rest)

  heads-u32 : heads u ≡ record {
    information_length = length u.informations;
    information_midashi_length = length (joined_midashi u.informations);
    dictionary_midashi_key = u.unit_key;
  }
  heads-u32 = rw (u32-U32 _ fits.2, u32-U32 _ fits.3) refl

  read-heads : heads_from_ne_bytes e (unit_to_ne_bytes e u ++ rest) ≡ ok (heads u)
  unfolding unit_to_ne_bytes
  read-heads =
      rw
        (append_assoc (heads_to_ne_bytes e (heads u))
          (offset_lengths e u.informations ++ joined_midashi u.informations) rest)
        (heads_from_ne_bytes-heads_to_ne_bytes e (heads u) _ (omega (arith, fits.2))
          (omega (arith, fits.3)))

  read-joined :
      get_joined_midashi buffer
        (length pre)
        (length u.informations)
        (length (joined_midashi u.informations))
      ≡ ok (midashis u.informations)
  unfolding unit_to_ne_bytes get_joined_midashi
  read-joined =
      let front = pre ++ heads_to_ne_bytes e (heads u) ++ offset_lengths e u.informations in
      let start : length pre
            + dictionary_block_heads_size
            + length u.informations * block_information_offset_length_size
          ≡ length front =
        omega (
          arith,
          length-append (pre ++ heads_to_ne_bytes e (heads u)) (offset_lengths e u.informations),
          length-append pre (heads_to_ne_bytes e (heads u)),
          length-heads e (heads u),
          length-offset_lengths e u.informations,
        ) in
      let place : front ++ (joined_midashi u.informations ++ rest) ≡ buffer =
        simp append_assoc refl in
      let cut =
        subst
          (λ b.
            slice b
              (length pre
                + dictionary_block_heads_size
                + length u.informations * block_information_offset_length_size)
              (length pre
                + dictionary_block_heads_size
                + length u.informations * block_information_offset_length_size
                + length (joined_midashi u.informations))
            ≡ ok (joined_midashi u.informations))
          place (slice-append front (joined_midashi u.informations) rest start refl) in
      rw (cut, split-midashis u.informations fits.0 fits.1) refl

  read-informations :
      read_informations e buffer (length pre) 0 (midashis u.informations) ≡ ok u.informations
  unfolding unit_to_ne_bytes
  read-informations =
      read_informations-offset_lengths e buffer (length pre) u.informations 0
        (pre ++ heads_to_ne_bytes e (heads u)) (joined_midashi u.informations ++ rest)
        (omega (arith, length-append pre (heads_to_ne_bytes e (heads u)), length-heads e (heads u)))
        (simp append_assoc refl) fits.1

  -- A unit is read from where it stands: its informations go to its key, and the next unit
  -- starts behind it.
  pub read_unit-unit_to_ne_bytes :
      (index : Index)
      → read_unit e buffer (length pre) index ≡ (
          insert u.unit_key u.informations index >>= λ index'.
          ok (length (pre ++ unit_to_ne_bytes e u), index'))
  unfolding read_unit
  read_unit-unit_to_ne_bytes index =
      let counted : (length (midashis u.informations) == length u.informations) ≡ true =
        ground (arith, length-midashis u.informations) in
      let next : length (pre ++ unit_to_ne_bytes e u)
          ≡ length pre
            + (dictionary_block_heads_size
                + length u.informations * block_information_offset_length_size
                + length (joined_midashi u.informations)) =
        omega (arith, length-append pre (unit_to_ne_bytes e u), length-unit e u) in
      rw
        (
          next,
          slice_from-append pre (unit_to_ne_bytes e u ++ rest) refl,
          read-heads ∙ ap ok heads-u32,
          read-joined,
          counted,
          read-informations,
        )
        refl
