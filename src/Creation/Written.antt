-- ===== src/Creation/Written.antt =====
-- The file that `DictionaryCreator::create` of
-- src/skk/yaskkserv2_make_dictionary/dictionary_creator.rs leaves once every write has succeeded:
-- `write_and_calculate_hash`, then `write_hash`. The digest of the `sha1` crate is an argument, of
-- all the bytes that the hasher was given.
use yaskkserv.Prelude.{ℕ, ◌++◌, Bytes, length, replicate}
use yaskkserv.DictionaryFiles.{overwrite}
use yaskkserv.OnDisk.{Endian, DictionaryFixedHeader, fixed_header_to_ne_bytes}
use yaskkserv.Creation.IndexData.{CreateIndexDataResult}
use yaskkserv.Creation.Layout.{dictionary_fixed_header_area_length, create_dictionary_fixed_header}
use yaskkserv.Midashi.{Encoding}

abbrev pub with_sha1sum : Bytes → DictionaryFixedHeader → DictionaryFixedHeader
with_sha1sum digest h = record {
  dictionary_version = h.dictionary_version;
  encoding_table_offset = h.encoding_table_offset;
  encoding_table_length = h.encoding_table_length;
  index_data_header_offset = h.index_data_header_offset;
  index_data_header_length = h.index_data_header_length;
  index_data_offset = h.index_data_offset;
  index_data_length = h.index_data_length;
  blocks_offset = h.blocks_offset;
  blocks_length = h.blocks_length;
  dictionary_length = h.dictionary_length;
  encoding = h.encoding;
  sha1sum = digest;
}

-- The header in the front of an area of zeros.
abbrev pub header_area : Endian → DictionaryFixedHeader → Bytes
header_area e h =
    overwrite (fixed_header_to_ne_bytes e h) (replicate dictionary_fixed_header_area_length 0)

-- The bytes that are written, each part also given to the hasher.
unfoldable pub write_and_calculate_hash : Bytes → Bytes → CreateIndexDataResult → ℕ → Bytes
write_and_calculate_hash dictionary_fixed_header_area encoding_table created blocks_padding_length =
    dictionary_fixed_header_area
    ++ (encoding_table
        ++ (created.index_data_header
            ++ (created.index_data ++ (replicate blocks_padding_length 0 ++ created.blocks))))

-- The header, which now holds the digest, is written over the first one.
unfoldable pub write_hash : Endian → (Bytes → Bytes) → DictionaryFixedHeader → Bytes → Bytes
write_hash e sha1 h written =
    overwrite (fixed_header_to_ne_bytes e (with_sha1sum (sha1 written) h)) written

unfoldable pub create : Endian → (Bytes → Bytes) → Encoding → Bytes → CreateIndexDataResult → Bytes
create e sha1 encoding' encoding_table created =
    let (dictionary_fixed_header, blocks_padding_length) =
      create_dictionary_fixed_header (length encoding_table) (length created.index_data_header)
        (length created.index_data) (length created.blocks) encoding' in
    write_hash e sha1 dictionary_fixed_header (
      write_and_calculate_hash (header_area e dictionary_fixed_header) encoding_table created
        blocks_padding_length)
