-- ===== src/Loading/Created.antt =====
-- `Dictionary::setup` of src/skk/dictionary.rs on the file that `DictionaryCreator::create` of
-- src/skk/yaskkserv2_make_dictionary/dictionary_creator.rs writes.
use yaskkserv.Prelude.{
  ℕ, ◌+◌, ◌-◌, ◌<◌, ◌≡◌, refl, sym, ap, ◌∙◌, subst, true, [], ◌++◌, append_assoc, arith, leb,
  le→leb, Bytes, equal_self, length, take, drop, replicate, length-append, length-replicate,
  drop-append, take_all, ◌>>=◌, ok,
}
use yaskkserv.DictionaryFiles.{File, overwrite}
use yaskkserv.Midashi.{Encoding}
use yaskkserv.OnDisk.{
  Endian, DictionaryFixedHeader, fixed_header_to_ne_bytes, fixed_header_from_ne_bytes,
  sha1sum_length, dictionary_fixed_header_size,
}
use yaskkserv.OnDisk.Rounds.{
  fixed_header_from_ne_bytes-fixed_header_to_ne_bytes, length-fixed_header,
}
use yaskkserv.Creation.Layout.{
  to_u32-lt, dictionary_fixed_header_area_length, layout, FitsFile, padding_length,
  create_dictionary_fixed_header-layout, to_u32,
}
use yaskkserv.Creation.Written.{
  create, write_hash, write_and_calculate_hash, header_area, with_sha1sum,
}
use yaskkserv.Creation.IndexData.{CreateIndexDataResult}
use yaskkserv.Loading.{Index, create_index_map_and_index_ascii_hiragana_vec}
use yaskkserv.Loading.Setup.{Read, setup, validate_except_dictionary_fixed_header, read_part}
use yaskkserv.Loading.Validated.{Reads, validate-equal}
use yaskkserv.Loading.Blocks.{Holds}

read_part-Holds :
    (content : Bytes) (read_exact : File) (pre mid post : Bytes) {at l : ℕ}
    → Holds content read_exact
    → content ≡ pre ++ (mid ++ post)
    → at ≡ length pre
    → l ≡ length mid
    → read_part read_exact at l ≡ ok mid
read_part-Holds content read_exact pre mid post holds place here size =
    rw (here, size, read_part, holds pre mid post place) refl

module _ (e : Endian) (sha1 : Bytes → Bytes) (encoding' : Encoding) (table : Bytes)
    (r : CreateIndexDataResult) where
  -- The header without and with the digest, the zeros behind it, and the rest of the file.
  abbrev pub blank : DictionaryFixedHeader
  blank =
      layout (length table) (length r.index_data_header) (length r.index_data) (length r.blocks)
        encoding'

  abbrev padding : Bytes
  padding =
      replicate (padding_length (length table) (length r.index_data_header) (length r.index_data)) 0

  abbrev body : Bytes
  body = table ++ (r.index_data_header ++ (r.index_data ++ (padding ++ r.blocks)))

  abbrev zeros : Bytes
  zeros = replicate (dictionary_fixed_header_area_length - dictionary_fixed_header_size) 0

  abbrev hashed : Bytes
  hashed = fixed_header_to_ne_bytes e blank ++ zeros ++ body

  abbrev final : DictionaryFixedHeader
  final = with_sha1sum (sha1 hashed) blank

  abbrev front : Bytes
  front = fixed_header_to_ne_bytes e final ++ zeros

  abbrev pub IsDigest : Type 0
  IsDigest = (b : Bytes) → length (sha1 b) ≡ sha1sum_length

  abbrev pub Fits : Type 0
  Fits =
      FitsFile (length table) (length r.index_data_header) (length r.index_data) (length r.blocks)

  blank-length : length (fixed_header_to_ne_bytes e blank) ≡ dictionary_fixed_header_size
  blank-length = length-fixed_header e blank (length-replicate {A = ℕ} sha1sum_length 0)

  area : header_area e blank ≡ fixed_header_to_ne_bytes e blank ++ zeros
  area = rw blank-length refl

  -- The file is the final header, the zeros up to the header area's length, and the parts.
  create-front : IsDigest → Fits → create e sha1 encoding' table r ≡ front ++ body
  unfolding create write_hash write_and_calculate_hash
  create-front digest fits =
      let final-length : length (fixed_header_to_ne_bytes e final)
          ≡ length (fixed_header_to_ne_bytes e blank) =
        length-fixed_header e final (digest hashed) ∙ sym blank-length in
      rw
        (
          create_dictionary_fixed_header-layout (length table) (length r.index_data_header)
              (length r.index_data) (length r.blocks) encoding' fits,
          area,
          final-length,
        )
        (ap (λ b. fixed_header_to_ne_bytes e final ++ b)
            (ap (drop (length (fixed_header_to_ne_bytes e blank)))
                (append_assoc (fixed_header_to_ne_bytes e blank) zeros body)
              ∙ drop-append (fixed_header_to_ne_bytes e blank) (zeros ++ body))
          ∙ sym (append_assoc (fixed_header_to_ne_bytes e final) zeros body))

  length-front : IsDigest → length front ≡ dictionary_fixed_header_area_length
  length-front digest = omega (
    arith,
    length-append (fixed_header_to_ne_bytes e final) zeros,
    length-fixed_header e final (digest hashed),
    length-replicate {A = ℕ} (dictionary_fixed_header_area_length - dictionary_fixed_header_size) 0,
  )

  length-body : length body + dictionary_fixed_header_area_length ≡ blank.dictionary_length
  length-body = omega (
    arith,
    length-append table (r.index_data_header ++ (r.index_data ++ (padding ++ r.blocks))),
    length-append r.index_data_header (r.index_data ++ (padding ++ r.blocks)),
    length-append r.index_data (padding ++ r.blocks),
    length-append padding r.blocks,
    length-replicate {A = ℕ}
        (padding_length (length table) (length r.index_data_header) (length r.index_data)) 0,
  )

  header-final : IsDigest → Fits → fixed_header_from_ne_bytes e front ≡ ok final
  header-final digest fits =
      fixed_header_from_ne_bytes-fixed_header_to_ne_bytes e final zeros
        (
          omega (arith, fits),
          (
            omega (arith, fits),
            (
              omega (arith, fits),
              (
                omega (arith, fits),
                (
                  omega (arith, fits),
                  (
                    omega (arith, fits),
                    (
                      omega (arith, fits),
                      (
                        omega (arith, fits),
                        (omega (arith, fits), (omega (arith, fits), (to_u32-lt encoding', tt))),
                      ),
                    ),
                  ),
                ),
              ),
            ),
          ),
        )
        (digest hashed)

  -- The digest in the header is that of the file as it was hashed.
  validate-final :
      (read : Read) (sha1_read_buffer_length : ℕ)
      → Reads (front ++ body) read
      → 0 < sha1_read_buffer_length
      → IsDigest
      → Fits
      → validate_except_dictionary_fixed_header sha1 sha1_read_buffer_length read
          (overwrite (fixed_header_to_ne_bytes e blank) front)
          final.dictionary_length
          final.sha1sum
        ≡ ok tt
  validate-final read bl reads pos digest fits =
      let whole : leb final.dictionary_length (length (front ++ body)) ≡ true =
        le→leb _ _ (omega (arith, length-body, length-front digest, length-append front body)) in
      let rest : drop dictionary_fixed_header_area_length (front ++ body) ≡ body =
        ap (λ n. drop n (front ++ body)) (sym (length-front digest)) ∙ drop-append front body in
      let all : take (final.dictionary_length - dictionary_fixed_header_area_length) body ≡ body =
        take_all _ body (omega (arith, length-body)) in
      let again : overwrite (fixed_header_to_ne_bytes e blank) front
          ≡ fixed_header_to_ne_bytes e blank ++ zeros =
        rw (blank-length ∙ sym (length-fixed_header e final (digest hashed))) (
          ap (λ b. fixed_header_to_ne_bytes e blank ++ b)
            (drop-append (fixed_header_to_ne_bytes e final) zeros)) in
      validate-equal sha1 (front ++ body) read bl final.dictionary_length
        (overwrite (fixed_header_to_ne_bytes e blank) front) final.sha1sum reads pos
        (omega (arith, length-body)) (omega (arith, fits))
        (omega (arith, length-front digest, length-append front body))
      ∙ rw (whole, rest, all, again, equal_self (sha1 hashed)) refl

  -- Every check passes, and the parts are read from where they stand.
  pub setup-loads :
      (read_exact : File) (read : Read) (sha1_read_buffer_length : ℕ) (index : Index)
      → Holds (create e sha1 encoding' table r) read_exact
      → Reads (create e sha1 encoding' table r) read
      → 0 < sha1_read_buffer_length
      → IsDigest
      → Fits
      → ((fpre fpost : Bytes)
          → create e sha1 encoding' table r ≡ fpre ++ (r.index_data ++ fpost)
          → length fpre ≡ final.index_data_offset
          → create_index_map_and_index_ascii_hiragana_vec e
              (length fpre)
              read_exact
              r.index_data_header
            ≡ ok index)
      → setup e sha1 sha1_read_buffer_length read_exact read
        ≡ ok (
          table,
          record {
            blocks_offset = final.blocks_offset;
            encoding = to_u32 encoding';
            index_map = index.index_map;
            index_ascii_hiragana_vec = index.index_ascii_hiragana_vec;
          },
        )
  unfolding setup
  setup-loads read_exact read bl index holds reads pos digest fits loads =
      let content = create e sha1 encoding' table r in
      let made : content ≡ front ++ body = create-front digest fits in
      let rest = r.index_data ++ (padding ++ r.blocks) in
      let first : read_part read_exact 0 dictionary_fixed_header_area_length ≡ ok front =
        read_part-Holds content read_exact [] front body holds made refl
          (sym (length-front digest)) in
      let tables : read_part read_exact final.encoding_table_offset final.encoding_table_length
          ≡ ok table =
        read_part-Holds content read_exact front table (r.index_data_header ++ rest) holds made
          (sym (length-front digest)) refl in
      let headers : read_part read_exact final.index_data_header_offset
            final.index_data_header_length
          ≡ ok r.index_data_header =
        read_part-Holds content read_exact (front ++ table) r.index_data_header rest holds
          (made ∙ sym (append_assoc front table (r.index_data_header ++ rest)))
          (omega (arith, length-front digest, length-append front table)) refl in
      let before : length (front ++ table ++ r.index_data_header) ≡ final.index_data_offset =
        omega (
          arith,
          length-front digest,
          length-append front table,
          length-append (front ++ table) r.index_data_header,
        ) in
      let loaded : create_index_map_and_index_ascii_hiragana_vec e final.index_data_offset
            read_exact r.index_data_header
          ≡ ok index =
        subst
          (λ n.
            create_index_map_and_index_ascii_hiragana_vec e n read_exact r.index_data_header
            ≡ ok index)
          before
          (loads (front ++ table ++ r.index_data_header) (padding ++ r.blocks)
            (made ∙ simp append_assoc refl) before) in
      rw
        (
          first,
          ◌>>=◌,
          header-final digest fits,
          validate-final read bl (subst (λ b. Reads b read) made reads) pos digest fits,
          tables,
          headers,
          loaded,
        )
        refl
