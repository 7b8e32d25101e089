-- ===== src/OnDisk/Rounds.antt =====
-- What src/skk.rs writes of a structure of the dictionary file, it reads back.
use yaskkserv.Prelude.{
  ℕ, ◌≡◌, refl, sym, ap, ◌∙◌, List, [], ◌∷◌, ◌++◌, append_assoc, arith, le→leb, Bytes, length, take,
  length-append, take-append, All, ok,
}
use yaskkserv.OnDisk.{
  dictionary_block_heads_size, block_information_offset_length_size, index_data_header_size,
  index_data_header_block_header_size, dictionary_fixed_header_size, sha1sum_length,
  fixed_header_from_ne_bytes, DictionaryFixedHeader, fixed_header_to_ne_bytes, slice, Endian,
  little, big, U32, u32_to_ne_bytes, to_ne_u32, u32_from_ne_bytes, DictionaryBlockHeads,
  BlockInformationOffsetLength, IndexDataHeader, IndexDataHeaderBlockHeader, heads_to_ne_bytes,
  heads_from_ne_bytes, offset_length_to_ne_bytes, offset_length_from_ne_bytes,
  index_header_to_ne_bytes, index_header_from_ne_bytes, block_header_to_ne_bytes,
  block_header_from_ne_bytes, key_from_ne_bytes,
}

pub u32_from_ne_bytes-u32_to_ne_bytes :
    (e : Endian) (x : ℕ)
    → U32 x
    → (rest : Bytes) → u32_from_ne_bytes e (u32_to_ne_bytes e x ++ rest) ≡ ok (x, rest)
unfolding u32_from_ne_bytes u32_to_ne_bytes to_ne_u32
u32_from_ne_bytes-u32_to_ne_bytes little x h rest = ap (λ y. ok (y, rest)) (omega (arith, h))
u32_from_ne_bytes-u32_to_ne_bytes big x h rest = ap (λ y. ok (y, rest)) (omega (arith, h))

abbrev pub fixed_header_words : DictionaryFixedHeader → List ℕ
fixed_header_words h =
    h.dictionary_version ∷ h.encoding_table_offset ∷ h.encoding_table_length
    ∷ h.index_data_header_offset ∷ h.index_data_header_length ∷ h.index_data_offset
    ∷ h.index_data_length ∷ h.blocks_offset ∷ h.blocks_length ∷ h.dictionary_length ∷ h.encoding
    ∷ []

slice_front : (front rest : Bytes) {n : ℕ} → length front ≡ n → slice (front ++ rest) 0 n ≡ ok front
slice_front front rest {n = n} h = rw (sym h) (
    rw (le→leb 0 (length front) (omega arith)) (
      rw (le→leb (length front) (length (front ++ rest)) (omega (arith, length-append front rest)))
        (ap ok (ap (λ n. take n (front ++ rest)) (omega arith) ∙ take-append front rest))))

module _ (e : Endian) where
  pub heads_from_ne_bytes-heads_to_ne_bytes :
      (h : DictionaryBlockHeads) (rest : Bytes)
      → U32 h.information_length
      → U32 h.information_midashi_length
      → heads_from_ne_bytes e (heads_to_ne_bytes e h ++ rest) ≡ ok h
  unfolding heads_to_ne_bytes heads_from_ne_bytes key_from_ne_bytes
  heads_from_ne_bytes-heads_to_ne_bytes h rest n m =
      simp
        (
          append_assoc,
          u32_from_ne_bytes-u32_to_ne_bytes e h.information_length n,
          u32_from_ne_bytes-u32_to_ne_bytes e h.information_midashi_length m,
        )
        refl

  pub offset_length_from_ne_bytes-offset_length_to_ne_bytes :
      (b : BlockInformationOffsetLength) (rest : Bytes)
      → U32 b.offset
      → U32 b.length
      → offset_length_from_ne_bytes e (offset_length_to_ne_bytes e b ++ rest) ≡ ok b
  unfolding offset_length_to_ne_bytes offset_length_from_ne_bytes
  offset_length_from_ne_bytes-offset_length_to_ne_bytes b rest o l =
      simp
        (
          append_assoc,
          u32_from_ne_bytes-u32_to_ne_bytes e b.offset o,
          u32_from_ne_bytes-u32_to_ne_bytes e b.length l,
        )
        refl

  pub index_header_from_ne_bytes-index_header_to_ne_bytes :
      (h : IndexDataHeader) (rest : Bytes)
      → U32 h.block_buffer_length
      → U32 h.block_header_length
      → index_header_from_ne_bytes e (index_header_to_ne_bytes e h ++ rest) ≡ ok h
  unfolding index_header_to_ne_bytes index_header_from_ne_bytes
  index_header_from_ne_bytes-index_header_to_ne_bytes h rest b l =
      simp
        (
          append_assoc,
          u32_from_ne_bytes-u32_to_ne_bytes e h.block_buffer_length b,
          u32_from_ne_bytes-u32_to_ne_bytes e h.block_header_length l,
        )
        refl

  pub block_header_from_ne_bytes-block_header_to_ne_bytes :
      (h : IndexDataHeaderBlockHeader) (rest : Bytes)
      → U32 h.offset
      → U32 h.length
      → U32 h.unit_length
      → block_header_from_ne_bytes e (block_header_to_ne_bytes e h ++ rest) ≡ ok h
  unfolding block_header_to_ne_bytes block_header_from_ne_bytes
  block_header_from_ne_bytes-block_header_to_ne_bytes h rest o l u =
      simp
        (
          append_assoc,
          u32_from_ne_bytes-u32_to_ne_bytes e h.offset o,
          u32_from_ne_bytes-u32_to_ne_bytes e h.length l,
          u32_from_ne_bytes-u32_to_ne_bytes e h.unit_length u,
        )
        refl

  -- The fixed header is read back as it was written, whatever follows it and in either order of
  -- bytes, where its numbers fit a `u32` and its digest has 20 bytes.
  pub fixed_header_from_ne_bytes-fixed_header_to_ne_bytes :
      (h : DictionaryFixedHeader) (rest : Bytes)
      → All U32 (fixed_header_words h)
      → length h.sha1sum ≡ sha1sum_length
      → fixed_header_from_ne_bytes e (fixed_header_to_ne_bytes e h ++ rest) ≡ ok h
  unfolding fixed_header_to_ne_bytes fixed_header_from_ne_bytes
  fixed_header_from_ne_bytes-fixed_header_to_ne_bytes h rest w l = simp (
    append_assoc,
    u32_from_ne_bytes-u32_to_ne_bytes e h.dictionary_version w.0,
    u32_from_ne_bytes-u32_to_ne_bytes e h.encoding_table_offset w.1.0,
    u32_from_ne_bytes-u32_to_ne_bytes e h.encoding_table_length w.1.1.0,
    u32_from_ne_bytes-u32_to_ne_bytes e h.index_data_header_offset w.1.1.1.0,
    u32_from_ne_bytes-u32_to_ne_bytes e h.index_data_header_length w.1.1.1.1.0,
    u32_from_ne_bytes-u32_to_ne_bytes e h.index_data_offset w.1.1.1.1.1.0,
    u32_from_ne_bytes-u32_to_ne_bytes e h.index_data_length w.1.1.1.1.1.1.0,
    u32_from_ne_bytes-u32_to_ne_bytes e h.blocks_offset w.1.1.1.1.1.1.1.0,
    u32_from_ne_bytes-u32_to_ne_bytes e h.blocks_length w.1.1.1.1.1.1.1.1.0,
    u32_from_ne_bytes-u32_to_ne_bytes e h.dictionary_length w.1.1.1.1.1.1.1.1.1.0,
    u32_from_ne_bytes-u32_to_ne_bytes e h.encoding w.1.1.1.1.1.1.1.1.1.1.0,
    slice_front h.sha1sum rest l,
  )

-- The sizes.
pub length-u32 : (e : Endian) (x : ℕ) → length (u32_to_ne_bytes e x) ≡ 4
unfolding u32_to_ne_bytes
length-u32 little x = refl
length-u32 big x = refl

module _ (e : Endian) where
  pub length-heads :
      (h : DictionaryBlockHeads) → length (heads_to_ne_bytes e h) ≡ dictionary_block_heads_size
  unfolding heads_to_ne_bytes
  length-heads h = simp (length-append, length-u32 e) refl

  pub length-offset_length :
      (b : BlockInformationOffsetLength)
      → length (offset_length_to_ne_bytes e b) ≡ block_information_offset_length_size
  unfolding offset_length_to_ne_bytes
  length-offset_length b = simp (length-append, length-u32 e) refl

  pub length-index_header :
      (h : IndexDataHeader) → length (index_header_to_ne_bytes e h) ≡ index_data_header_size
  unfolding index_header_to_ne_bytes
  length-index_header h = simp (length-append, length-u32 e) refl

  pub length-block_header :
      (h : IndexDataHeaderBlockHeader)
      → length (block_header_to_ne_bytes e h) ≡ index_data_header_block_header_size
  unfolding block_header_to_ne_bytes
  length-block_header h = simp (length-append, length-u32 e) refl

  pub length-fixed_header :
      (h : DictionaryFixedHeader)
      → length h.sha1sum ≡ sha1sum_length
      → length (fixed_header_to_ne_bytes e h) ≡ dictionary_fixed_header_size
  unfolding fixed_header_to_ne_bytes
  length-fixed_header h l = simp (length-append, length-u32 e, l) refl
