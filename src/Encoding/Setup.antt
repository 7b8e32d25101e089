-- ===== src/Encoding/Setup.antt =====
-- The filling of the conversion tables: `EncodingTable::setup`, `setup_combine_map` and `setup_map`
-- of src/skk/encoding_simple/encoding_table.rs. The static tables are a state that is empty before;
-- an insertion into a map stands before what it replaces.
pub mod Filled
pub mod Combined
use yaskkserv.Prelude.{
  ℕ, zero, suc, ◌+◌, ◌*◌, ◌||◌, List, [], ◌∷◌, ltb, leb, ◌==◌, if◌then◌else◌, Bytes, within, length,
  set, replicate, Result, ◌>>=◌, ◌>>◌, encoding, ok, err, panic,
}
use yaskkserv.Substrings.{slice}
use yaskkserv.OnDisk.{Endian, u32_from_ne_bytes}
use yaskkserv.Encoding.{
  Tables, ByteMap, get_euc_2_to_utf8_vec_index, get_utf8_3_to_euc_vec_index,
  euc_2_to_utf8_vec_index_maximum, utf8_3_to_euc_vec_index_maximum,
}

abbrev pub euc_utf8_combine_unit_length : ℕ
euc_utf8_combine_unit_length = 11

abbrev pub euc_utf8_unit_length : ℕ
euc_utf8_unit_length = 7

abbrev pub no_tables : Tables
no_tables = record {
  euc_2_to_utf8_vec = [];
  utf8_3_to_euc_vec = [];
  euc_3_to_utf8_map = [];
  utf8_2_4_to_euc_map = [];
  combine_euc_to_utf8_map = [];
  combine_utf8_4_to_euc_map = [];
  combine_utf8_6_to_euc_map = [];
}

-- The key of a combination in UTF-8: of two bytes each, of three, or of none.
abbrev pub insert_combine : Bytes → Bytes → Tables → Result Tables
insert_combine euc_3 (a0 ∷ a1 ∷ a2 ∷ _ ∷ b0 ∷ b1 ∷ b2 ∷ _) t =
    if within 0xc2 0xdf a0
    then ok (record t {
      combine_utf8_4_to_euc_map = (a0 ∷ a1 ∷ b0 ∷ b1 ∷ [], euc_3) ∷ t.combine_utf8_4_to_euc_map;
    })
    else if within 0xe0 0xef a0
    then ok (record t {
      combine_utf8_6_to_euc_map =
          (a0 ∷ a1 ∷ a2 ∷ b0 ∷ b1 ∷ b2 ∷ [], euc_3) ∷ t.combine_utf8_6_to_euc_map;
    })
    else err encoding
insert_combine euc_3 _ t = panic

unfoldable pub setup_combine_map : ℕ → Bytes → ℕ → Tables → Result Tables
setup_combine_map zero encoding_table offset t = ok t
setup_combine_map (suc rest) encoding_table offset t = do
  euc_3 ← slice encoding_table offset (offset + 3)
  utf8_value ← slice encoding_table (offset + 3) (offset + 3 + 8)
  t' ←
      insert_combine euc_3 utf8_value
        (record t { combine_euc_to_utf8_map = (euc_3, utf8_value) ∷ t.combine_euc_to_utf8_map })
  setup_combine_map rest encoding_table (offset + euc_utf8_combine_unit_length) t'

-- A write at an index of the vector, which panics out of range.
abbrev set_at : List Bytes → ℕ → Bytes → Result (List Bytes)
set_at xs i v = if ltb i (length xs) then ok (set xs i v) else panic

-- The table that the first byte in EUC chooses, and the one that the first in UTF-8 chooses.
abbrev insert_euc : Bytes → Bytes → Tables → Result Tables
insert_euc (c0 ∷ c1 ∷ c2 ∷ []) utf8 t =
    if c0 == 0x8f
    then ok (record t { euc_3_to_utf8_map = (c0 ∷ c1 ∷ c2 ∷ [], utf8) ∷ t.euc_3_to_utf8_map })
    else if c0 == 0x8e || within 0xa0 0xff c0
    then (do
      vec ← set_at t.euc_2_to_utf8_vec (get_euc_2_to_utf8_vec_index c0 c1) utf8
      ok (record t { euc_2_to_utf8_vec = vec }))
    else ok t
insert_euc _ utf8 t = panic

abbrev insert_utf8 : Bytes → Bytes → Tables → Result Tables
insert_utf8 euc_3 (u0 ∷ u1 ∷ u2 ∷ u3 ∷ []) t =
    if leb u0 0x7f
    then ok t
    else if within 0xe0 0xef u0
    then (do
      vec ← set_at t.utf8_3_to_euc_vec (get_utf8_3_to_euc_vec_index u0 u1 u2) euc_3
      ok (record t { utf8_3_to_euc_vec = vec }))
    else ok
        (record t { utf8_2_4_to_euc_map = (u0 ∷ u1 ∷ u2 ∷ u3 ∷ [], euc_3) ∷ t.utf8_2_4_to_euc_map })
insert_utf8 euc_3 _ t = panic

unfoldable pub setup_map : ℕ → Bytes → ℕ → Tables → Result Tables
setup_map zero encoding_table offset t = ok t
setup_map (suc rest) encoding_table offset t = do
  euc_3 ← slice encoding_table offset (offset + 3)
  utf8 ← slice encoding_table (offset + 3) (offset + 3 + 4)
  t' ← insert_euc euc_3 utf8 t
  t'' ← insert_utf8 euc_3 utf8 t'
  setup_map rest encoding_table (offset + euc_utf8_unit_length) t''

-- The vectors of empty entries that `setup_map` begins with.
abbrev pub emptied : Tables → Tables
emptied t = record t {
  euc_2_to_utf8_vec = replicate (euc_2_to_utf8_vec_index_maximum + 1) (replicate 4 0);
  utf8_3_to_euc_vec = replicate (utf8_3_to_euc_vec_index_maximum + 1) (replicate 3 0);
}

-- A `u32` of the header, at its offset.
abbrev pub header_u32 : Endian → Bytes → ℕ → Result ℕ
header_u32 e encoding_table offset = do
  array_u32 ← slice encoding_table offset (offset + 4)
  (value, _) ← u32_from_ne_bytes e array_u32
  ok value

unfoldable pub setup : Endian → Bytes → Result Tables
setup e encoding_table = do
  header_length ← header_u32 e encoding_table 4
  combine_length ← header_u32 e encoding_table 8
  map_length ← header_u32 e encoding_table 12
  t ← setup_combine_map combine_length encoding_table header_length no_tables
  setup_map map_length encoding_table
      (header_length + combine_length * euc_utf8_combine_unit_length) (emptied t)
