-- ===== src/Loading/Setup.antt =====
-- `Dictionary::setup` and `validate_except_dictionary_fixed_header` of src/skk/dictionary.rs. The
-- digest of the `sha1` crate is an argument, of all the bytes that the hasher was given, and so is
-- the reading of the file: `read_exact` at a position, and `read` of at most so many bytes there.
use yaskkserv.Prelude.{
  ℕ, zero, suc, ◌+◌, ◌-◌, ◌%◌, ◌^◌, min, true, false, ◌++◌, ◌==◌, if◌then◌else◌, Bytes, equal,
  length, Result, ◌>>=◌, ◌>>◌, io, broken_dictionary, ok, err, out_of_fuel,
}
use yaskkserv.DictionaryFiles.{File, filled, failed, overwrite}
use yaskkserv.Midashi.{OnMemory}
use yaskkserv.OnDisk.{Endian, fixed_header_to_ne_bytes, fixed_header_from_ne_bytes, sha1sum_zero}
use yaskkserv.Creation.Layout.{dictionary_fixed_header_area_length}
use yaskkserv.Creation.Written.{with_sha1sum}
use yaskkserv.Loading.{create_index_map_and_index_ascii_hiragana_vec}

abbrev pub Read : Type 0
Read = ℕ → ℕ → Result Bytes

-- The loop, with the length that `take` leaves: the length scanned and the bytes hashed.
unfoldable pub scan : ℕ → Read → ℕ → ℕ → ℕ → Bytes → Result (ℕ × Bytes)
scan zero read sha1_read_buffer_length total_scan_length limit hashed = out_of_fuel
scan (suc fuel) read sha1_read_buffer_length total_scan_length limit hashed = do
  bytes ← read total_scan_length (min sha1_read_buffer_length limit)
  elim (length bytes == 0) [
    | true ↦ ok (total_scan_length, hashed)
    | false ↦
        scan fuel read sha1_read_buffer_length (total_scan_length + length bytes)
          (limit - length bytes) (hashed ++ bytes)
  ]

-- `dictionary_length - total_scan_length` is a subtraction of `u64`, which wraps.
unfoldable pub validate_except_dictionary_fixed_header :
    (Bytes → Bytes) → ℕ → Read → Bytes → ℕ → Bytes → Result (Unit {0})
validate_except_dictionary_fixed_header sha1 sha1_read_buffer_length read hashed dictionary_length
      sha1sum =
    let limit = (dictionary_length + 2 ^ 64 - dictionary_fixed_header_area_length) % 2 ^ 64 in
    do
      (total_scan_length, hashed') ←
          scan (limit + 1) read sha1_read_buffer_length dictionary_fixed_header_area_length limit
            hashed
      (if total_scan_length == dictionary_length
          then (if equal sha1sum (sha1 hashed') then ok tt else err broken_dictionary)
          else err broken_dictionary)

-- `vec![0; length]`, filled from the file.
abbrev pub read_part : File → ℕ → ℕ → Result Bytes
read_part read_exact position length' = elim (read_exact position length') [
  | filled bytes ↦ ok bytes
  | failed bytes ↦ err io
]

-- The encoding table that is handed to `once_init_encoding_table`, and what is kept in memory.
unfoldable pub setup : Endian → (Bytes → Bytes) → ℕ → File → Read → Result (Bytes × OnMemory)
setup e sha1 sha1_read_buffer_length read_exact read = do
  buffer ← read_part read_exact 0 dictionary_fixed_header_area_length
  h ← fixed_header_from_ne_bytes e buffer
  validate_except_dictionary_fixed_header sha1 sha1_read_buffer_length read
      (overwrite (fixed_header_to_ne_bytes e (with_sha1sum sha1sum_zero h)) buffer)
      h.dictionary_length h.sha1sum
  encoding_table ← read_part read_exact h.encoding_table_offset h.encoding_table_length
  index_data_header ← read_part read_exact h.index_data_header_offset h.index_data_header_length
  index ←
      create_index_map_and_index_ascii_hiragana_vec e h.index_data_offset read_exact
        index_data_header
  ok (
    encoding_table,
    record {
      blocks_offset = h.blocks_offset;
      encoding = h.encoding;
      index_map = index.index_map;
      index_ascii_hiragana_vec = index.index_ascii_hiragana_vec;
    },
  )
