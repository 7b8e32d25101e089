-- ===== src/OnDisk/Tests.antt =====
-- Tests of the structures of src/skk.rs.
use yaskkserv.Prelude.{◌≡◌, refl, [], ◌∷◌, ◌++◌, arith, ok}
use yaskkserv.OnDisk.{
  little, big, DictionaryFixedHeader, sha1sum_zero, u32_to_ne_bytes, fixed_header_to_ne_bytes,
  fixed_header_from_ne_bytes,
}
use yaskkserv.OnDisk.Rounds.{fixed_header_from_ne_bytes-fixed_header_to_ne_bytes}

u32_to_ne_bytes-little : u32_to_ne_bytes little 0x1020304 ≡ 4 ∷ 3 ∷ 2 ∷ 1 ∷ []
unfolding u32_to_ne_bytes
u32_to_ne_bytes-little = refl

abbrev header : DictionaryFixedHeader
header = record {
  dictionary_version = 1;
  encoding_table_offset = 256;
  encoding_table_length = 1000;
  index_data_header_offset = 1256;
  index_data_header_length = 20;
  index_data_offset = 1276;
  index_data_length = 100;
  blocks_offset = 4096;
  blocks_length = 4000000000;
  dictionary_length = 4000004096;
  encoding = 1;
  sha1sum = sha1sum_zero;
}

fixed_header_from_ne_bytes-fixed_header_to_ne_bytes_example :
    fixed_header_from_ne_bytes big (fixed_header_to_ne_bytes big header ++ 7 ∷ []) ≡ ok header
fixed_header_from_ne_bytes-fixed_header_to_ne_bytes_example =
    fixed_header_from_ne_bytes-fixed_header_to_ne_bytes big header (7 ∷ [])
      (
        omega arith,
        (
          omega arith,
          (
            omega arith,
            (
              omega arith,
              (
                omega arith,
                (
                  omega arith,
                  (omega arith, (omega arith, (omega arith, (omega arith, (omega arith, tt))))),
                ),
              ),
            ),
          ),
        ),
      )
      refl
