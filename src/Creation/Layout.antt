-- ===== src/Creation/Layout.antt =====
-- Where the parts of a dictionary file stand: `create_dictionary_fixed_header`,
-- `get_header_aligned_length` and `get_block_aligned_length` of
-- src/skk/yaskkserv2_make_dictionary/dictionary_creator.rs. The lengths are `usize`, cast `as u32`.
use yaskkserv.Prelude.{ℕ, ◌+◌, ◌-◌, ◌*◌, ◌%◌, ◌^◌, ◌≤◌, ◌<◌, ◌≡◌, refl, arith}
use yaskkserv.OnDisk.{DictionaryFixedHeader, sha1sum_zero}
use yaskkserv.Creation.IndexData.{u32}
use yaskkserv.Midashi.{Encoding, euc, utf8}

abbrev pub dictionary_version : ℕ
dictionary_version = 1

abbrev pub dictionary_fixed_header_area_length : ℕ
dictionary_fixed_header_area_length = 256

abbrev pub header_alignment_length : ℕ
header_alignment_length = 4 * 1024

abbrev pub block_alignment_length : ℕ
block_alignment_length = 16

-- `encoding as u32`.
unfoldable pub to_u32 : Encoding → ℕ
to_u32 euc = 0
to_u32 utf8 = 1

unfoldable pub get_block_aligned_length : ℕ → ℕ
get_block_aligned_length length' =
    u32 (length' + (block_alignment_length - length' % block_alignment_length))

unfoldable pub get_header_aligned_length : ℕ → ℕ
get_header_aligned_length length' =
    u32 (length' + (header_alignment_length - length' % header_alignment_length))

-- The header, and the length of the padding before the blocks. The `u32` subtraction wraps.
unfoldable pub create_dictionary_fixed_header : ℕ → ℕ → ℕ → ℕ → Encoding → DictionaryFixedHeader × ℕ
create_dictionary_fixed_header encoding_table_length index_data_header_length index_data_length
      blocks_length encoding' =
    let raw_blocks_offset = u32 (
      dictionary_fixed_header_area_length + encoding_table_length + index_data_header_length
      + index_data_length) in
    let aligned_blocks_offset = get_header_aligned_length raw_blocks_offset in
    let blocks_padding_length = u32 (aligned_blocks_offset + 2 ^ 32 - raw_blocks_offset) in
    let encoding_table_offset = dictionary_fixed_header_area_length in
    let index_data_header_offset = encoding_table_offset + encoding_table_length in
    let index_data_offset = index_data_header_offset + index_data_header_length in
    let dictionary_length = aligned_blocks_offset + blocks_length in
    (
      record {
        dictionary_version = dictionary_version;
        encoding_table_offset = u32 encoding_table_offset;
        encoding_table_length = u32 encoding_table_length;
        index_data_header_offset = u32 index_data_header_offset;
        index_data_header_length = u32 index_data_header_length;
        index_data_offset = u32 index_data_offset;
        index_data_length = u32 index_data_length;
        blocks_offset = aligned_blocks_offset;
        blocks_length = u32 blocks_length;
        dictionary_length = u32 dictionary_length;
        encoding = to_u32 encoding';
        sha1sum = sha1sum_zero;
      },
      blocks_padding_length,
    )

pub to_u32-lt : (encoding' : Encoding) → to_u32 encoding' < 2 ^ 32
unfolding to_u32
to_u32-lt euc = omega arith
to_u32-lt utf8 = omega arith

-- The layout that the header describes: the parts follow each other, and the blocks start at a
-- multiple of the alignment.
abbrev pub raw_length : ℕ → ℕ → ℕ → ℕ
raw_length t i d = dictionary_fixed_header_area_length + t + i + d

abbrev pub padding_length : ℕ → ℕ → ℕ → ℕ
padding_length t i d = header_alignment_length - raw_length t i d % header_alignment_length

abbrev pub layout : ℕ → ℕ → ℕ → ℕ → Encoding → DictionaryFixedHeader
layout t i d b encoding' = record {
  dictionary_version = dictionary_version;
  encoding_table_offset = dictionary_fixed_header_area_length;
  encoding_table_length = t;
  index_data_header_offset = dictionary_fixed_header_area_length + t;
  index_data_header_length = i;
  index_data_offset = dictionary_fixed_header_area_length + t + i;
  index_data_length = d;
  blocks_offset = raw_length t i d + padding_length t i d;
  blocks_length = b;
  dictionary_length = raw_length t i d + padding_length t i d + b;
  encoding = to_u32 encoding';
  sha1sum = sha1sum_zero;
}

-- The whole dictionary is shorter than 4 gigabytes.
abbrev pub FitsFile : ℕ → ℕ → ℕ → ℕ → Type 0
FitsFile t i d b = raw_length t i d + header_alignment_length + b < 2 ^ 32

u32-lt : (x : ℕ) → x < 2 ^ 32 → u32 x ≡ x
u32-lt x h = omega (arith, h)

-- Aligning adds at least one byte and at most the alignment, and gives a multiple of it.
pub get_header_aligned_length-aligned :
    (n : ℕ)
    → n + header_alignment_length < 2 ^ 32
    → (get_header_aligned_length n % header_alignment_length ≡ 0)
      × (n < get_header_aligned_length n)
      × (get_header_aligned_length n ≤ n + header_alignment_length)
unfolding get_header_aligned_length
get_header_aligned_length-aligned n h = omega (arith, h)

pub create_dictionary_fixed_header-layout :
    (t i d b : ℕ) (encoding' : Encoding)
    → FitsFile t i d b
    → create_dictionary_fixed_header t i d b encoding'
      ≡ (layout t i d b encoding', padding_length t i d)
unfolding create_dictionary_fixed_header get_header_aligned_length
create_dictionary_fixed_header-layout t i d b encoding' h =
    let raw : u32 (raw_length t i d) ≡ raw_length t i d = u32-lt _ (omega (arith, h)) in
    let aligned : u32 (raw_length t i d + padding_length t i d)
        ≡ raw_length t i d + padding_length t i d =
      u32-lt _ (omega (arith, h)) in
    let padded : u32 (raw_length t i d + padding_length t i d + 2 ^ 32 - raw_length t i d)
        ≡ padding_length t i d =
      omega (arith, h) in
    rw
      (
        raw,
        aligned,
        padded,
        u32-lt t (omega (arith, h)),
        u32-lt (dictionary_fixed_header_area_length + t) (omega (arith, h)),
        u32-lt i (omega (arith, h)),
        u32-lt (dictionary_fixed_header_area_length + t + i) (omega (arith, h)),
        u32-lt d (omega (arith, h)),
        u32-lt b (omega (arith, h)),
        u32-lt (raw_length t i d + padding_length t i d + b) (omega (arith, h)),
      )
      refl
