-- ===== src/OnDisk.antt =====
-- The structures of a dictionary file: `ToFromNeBytes` and the `repr(C)` structs of src/skk.rs.
-- Every field is a `u32` or an array of bytes, so a struct has no padding and its fields follow
-- each other. The order of the bytes in a `u32` is the machine's, which is an argument. Reading
-- past the end of the bytes, which the source leaves undefined, is a panic here.
pub mod Rounds
mod Tests
use yaskkserv.Prelude.{
  ℕ, ◌+◌, ◌*◌, ◌/◌, ◌%◌, ◌^◌, ◌<◌, [], ◌∷◌, ◌++◌, Bytes, length, replicate, Result, ◌>>=◌, ◌>>◌, ok,
  panic,
}
use yaskkserv.Midashi.{DictionaryMidashiKey, key}
use yaskkserv.Substrings.{slice}

pub data Endian : Type 0 where
  little big : Endian

-- `u32::to_ne_bytes` and `u32::from_ne_bytes`, which leaves the bytes behind the number.
unfoldable pub u32_to_ne_bytes : Endian → ℕ → Bytes
u32_to_ne_bytes little x = x % 256 ∷ x / 256 % 256 ∷ x / 65536 % 256 ∷ x / 16777216 % 256 ∷ []
u32_to_ne_bytes big x = x / 16777216 % 256 ∷ x / 65536 % 256 ∷ x / 256 % 256 ∷ x % 256 ∷ []

unfoldable pub to_ne_u32 : Endian → ℕ → ℕ → ℕ → ℕ → ℕ
to_ne_u32 little a b c d = a + 256 * b + 65536 * c + 16777216 * d
to_ne_u32 big a b c d = d + 256 * c + 65536 * b + 16777216 * a

unfoldable pub u32_from_ne_bytes : Endian → Bytes → Result (ℕ × Bytes)
u32_from_ne_bytes e (a ∷ b ∷ c ∷ d ∷ rest) = ok (to_ne_u32 e a b c d, rest)
u32_from_ne_bytes e _ = panic

abbrev pub U32 : ℕ → Type 0
U32 x = x < 2 ^ 32

pub record DictionaryBlockHeads : Type 0 where
  pub information_length : ℕ
  pub information_midashi_length : ℕ
  pub dictionary_midashi_key : DictionaryMidashiKey

pub record BlockInformationOffsetLength : Type 0 where
  pub offset : ℕ
  pub length : ℕ

pub record IndexDataHeader : Type 0 where
  pub block_buffer_length : ℕ
  pub block_header_length : ℕ

pub record IndexDataHeaderBlockHeader : Type 0 where
  pub offset : ℕ
  pub length : ℕ
  pub unit_length : ℕ

pub record DictionaryFixedHeader : Type 0 where
  pub dictionary_version : ℕ
  pub encoding_table_offset : ℕ
  pub encoding_table_length : ℕ
  pub index_data_header_offset : ℕ
  pub index_data_header_length : ℕ
  pub index_data_offset : ℕ
  pub index_data_length : ℕ
  pub blocks_offset : ℕ
  pub blocks_length : ℕ
  pub dictionary_length : ℕ
  pub encoding : ℕ
  pub sha1sum : Bytes

-- `std::mem::size_of`.
abbrev pub dictionary_block_heads_size : ℕ
dictionary_block_heads_size = 12

abbrev pub block_information_offset_length_size : ℕ
block_information_offset_length_size = 8

abbrev pub index_data_header_size : ℕ
index_data_header_size = 8

abbrev pub index_data_header_block_header_size : ℕ
index_data_header_block_header_size = 12

abbrev pub dictionary_fixed_header_size : ℕ
dictionary_fixed_header_size = 64

abbrev pub sha1sum_length : ℕ
sha1sum_length = 20

abbrev pub sha1sum_zero : Bytes
sha1sum_zero = replicate sha1sum_length 0

module _ (e : Endian) where
  unfoldable pub heads_to_ne_bytes : DictionaryBlockHeads → Bytes
  heads_to_ne_bytes h =
      u32_to_ne_bytes e h.information_length
      ++ u32_to_ne_bytes e h.information_midashi_length
      ++ h.dictionary_midashi_key.k0 ∷ h.dictionary_midashi_key.k1 ∷ h.dictionary_midashi_key.k2
        ∷ h.dictionary_midashi_key.k3 ∷ []

  -- `to_array_4`.
  unfoldable pub key_from_ne_bytes : Bytes → Result DictionaryMidashiKey
  key_from_ne_bytes (a ∷ b ∷ c ∷ d ∷ _) = ok (key a b c d)
  key_from_ne_bytes _ = panic

  unfoldable pub heads_from_ne_bytes : Bytes → Result DictionaryBlockHeads
  heads_from_ne_bytes bytes = do
    (n, bytes1) ← u32_from_ne_bytes e bytes
    (m, bytes2) ← u32_from_ne_bytes e bytes1
    k ← key_from_ne_bytes bytes2
    ok (record {
      information_length = n;
      information_midashi_length = m;
      dictionary_midashi_key = k;
    })

  unfoldable pub offset_length_to_ne_bytes : BlockInformationOffsetLength → Bytes
  offset_length_to_ne_bytes b = u32_to_ne_bytes e b.offset ++ u32_to_ne_bytes e b.length

  unfoldable pub offset_length_from_ne_bytes : Bytes → Result BlockInformationOffsetLength
  offset_length_from_ne_bytes bytes = do
    (o, bytes1) ← u32_from_ne_bytes e bytes
    (l, _) ← u32_from_ne_bytes e bytes1
    ok (record { offset = o; length = l })

  unfoldable pub index_header_to_ne_bytes : IndexDataHeader → Bytes
  index_header_to_ne_bytes h =
      u32_to_ne_bytes e h.block_buffer_length ++ u32_to_ne_bytes e h.block_header_length

  unfoldable pub index_header_from_ne_bytes : Bytes → Result IndexDataHeader
  index_header_from_ne_bytes bytes = do
    (b, bytes1) ← u32_from_ne_bytes e bytes
    (h, _) ← u32_from_ne_bytes e bytes1
    ok (record { block_buffer_length = b; block_header_length = h })

  unfoldable pub block_header_to_ne_bytes : IndexDataHeaderBlockHeader → Bytes
  block_header_to_ne_bytes h =
      u32_to_ne_bytes e h.offset ++ u32_to_ne_bytes e h.length ++ u32_to_ne_bytes e h.unit_length

  unfoldable pub block_header_from_ne_bytes : Bytes → Result IndexDataHeaderBlockHeader
  block_header_from_ne_bytes bytes = do
    (o, bytes1) ← u32_from_ne_bytes e bytes
    (l, bytes2) ← u32_from_ne_bytes e bytes1
    (u, _) ← u32_from_ne_bytes e bytes2
    ok (record { offset = o; length = l; unit_length = u })

  unfoldable pub fixed_header_to_ne_bytes : DictionaryFixedHeader → Bytes
  fixed_header_to_ne_bytes h =
      u32_to_ne_bytes e h.dictionary_version
      ++ u32_to_ne_bytes e h.encoding_table_offset
      ++ u32_to_ne_bytes e h.encoding_table_length
      ++ u32_to_ne_bytes e h.index_data_header_offset
      ++ u32_to_ne_bytes e h.index_data_header_length
      ++ u32_to_ne_bytes e h.index_data_offset
      ++ u32_to_ne_bytes e h.index_data_length
      ++ u32_to_ne_bytes e h.blocks_offset
      ++ u32_to_ne_bytes e h.blocks_length
      ++ u32_to_ne_bytes e h.dictionary_length
      ++ u32_to_ne_bytes e h.encoding
      ++ h.sha1sum

  unfoldable pub fixed_header_from_ne_bytes : Bytes → Result DictionaryFixedHeader
  fixed_header_from_ne_bytes bytes = do
    (w0, bytes1) ← u32_from_ne_bytes e bytes
    (w1, bytes2) ← u32_from_ne_bytes e bytes1
    (w2, bytes3) ← u32_from_ne_bytes e bytes2
    (w3, bytes4) ← u32_from_ne_bytes e bytes3
    (w4, bytes5) ← u32_from_ne_bytes e bytes4
    (w5, bytes6) ← u32_from_ne_bytes e bytes5
    (w6, bytes7) ← u32_from_ne_bytes e bytes6
    (w7, bytes8) ← u32_from_ne_bytes e bytes7
    (w8, bytes9) ← u32_from_ne_bytes e bytes8
    (w9, bytes10) ← u32_from_ne_bytes e bytes9
    (w10, bytes11) ← u32_from_ne_bytes e bytes10
    sha1sum ← slice bytes11 0 sha1sum_length
    ok (record {
      dictionary_version = w0;
      encoding_table_offset = w1;
      encoding_table_length = w2;
      index_data_header_offset = w3;
      index_data_header_length = w4;
      index_data_offset = w5;
      index_data_length = w6;
      blocks_offset = w7;
      blocks_length = w8;
      dictionary_length = w9;
      encoding = w10;
      sha1sum = sha1sum;
    })
