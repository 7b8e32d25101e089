-- ===== src/Creation/IndexData.antt =====
-- The index data of a dictionary: the loop of `create_index_data` of
-- src/skk/yaskkserv2_make_dictionary/dictionary_creator.rs, once a block is split into its
-- informations. A cast `as u32` is `% 2 ^ 32`, and so is a `u32` that the release build counts up.
use yaskkserv.Prelude.{
  ℕ, ◌+◌, ◌-◌, ◌*◌, ◌%◌, ◌^◌, List, [], ◌∷◌, ◌++◌, map, ltb, leb, if◌then◌else◌, Bytes, join,
  length,
}
use yaskkserv.Midashi.{DictionaryMidashiKey}
use yaskkserv.BlockSearch.{DictionaryBlockInformation, Informations}
use yaskkserv.DictionaryFiles.{overwrite}
use yaskkserv.OnDisk.{
  DictionaryBlockHeads, BlockInformationOffsetLength, Endian, heads_to_ne_bytes,
  offset_length_to_ne_bytes, index_header_to_ne_bytes, block_header_to_ne_bytes,
}

abbrev pub u32 : ℕ → ℕ
u32 x = x % 2 ^ 32

abbrev pub index_data_block_length : ℕ
index_data_block_length = 64 * 1024

abbrev pub midashis : Informations → List Bytes
midashis informations = map (λ v. v.midashi) informations

abbrev pub joined_midashi : Informations → Bytes
joined_midashi informations = join b' ' (midashis informations)

-- What one block adds to the index data.
pub record IndexUnit : Type 0 where
  pub unit_key : DictionaryMidashiKey
  pub informations : Informations

pub record CreateIndexData : Type 0 where
  pub index_data_header : Bytes
  pub block_header_length : ℕ
  pub block_offset : ℕ
  pub block_length : ℕ
  pub block_unit_length : ℕ
  pub previous_length : ℕ
  pub index_data : Bytes
  pub blocks : Bytes

pub record CreateIndexDataResult : Type 0 where
  pub index_data_header : Bytes
  pub index_data : Bytes
  pub blocks : Bytes

abbrev pub offset_length : DictionaryBlockInformation → BlockInformationOffsetLength
offset_length v = record { offset = v.offset; length = v.length }

abbrev pub heads : IndexUnit → DictionaryBlockHeads
heads u = record {
  information_length = u32 (length u.informations);
  information_midashi_length = u32 (length (joined_midashi u.informations));
  dictionary_midashi_key = u.unit_key;
}

module _ (e : Endian) where
  abbrev pub offset_lengths : Informations → Bytes
  offset_lengths [] = []
  offset_lengths (v ∷ vs) = offset_length_to_ne_bytes e (offset_length v) ++ offset_lengths vs

  unfoldable pub unit_to_ne_bytes : IndexUnit → Bytes
  unit_to_ne_bytes u =
      heads_to_ne_bytes e (heads u)
      ++ (offset_lengths u.informations ++ joined_midashi u.informations)

  -- The state before the loop: a default header, and nothing else.
  unfoldable pub start : CreateIndexData
  start = record {
    index_data_header =
        index_header_to_ne_bytes e (record { block_buffer_length = 0; block_header_length = 0 });
    block_header_length = 0;
    block_offset = 0;
    block_length = 0;
    block_unit_length = 0;
    previous_length = 0;
    index_data = [];
    blocks = [];
  }

  unfoldable pub block_header : ℕ → ℕ → ℕ → Bytes
  block_header offset' length' unit_length' =
      block_header_to_ne_bytes e
        (record { offset = u32 offset'; length = u32 length'; unit_length = unit_length' })

  -- A round of the loop.
  unfoldable pub push : IndexUnit → Bytes → CreateIndexData → CreateIndexData
  push u aligned_block s =
      let index_data' = s.index_data ++ unit_to_ne_bytes u in
      let blocks' = s.blocks ++ aligned_block in
      let current_index_data_length = length index_data' - s.previous_length in
      if leb index_data_block_length (s.block_length + current_index_data_length)
      then record {
        index_data_header =
            s.index_data_header ++ block_header s.block_offset s.block_length s.block_unit_length;
        block_header_length = u32 (s.block_header_length + 1);
        block_offset = length index_data' - current_index_data_length;
        block_length = current_index_data_length;
        block_unit_length = 1;
        previous_length = length index_data';
        index_data = index_data';
        blocks = blocks';
      }
      else record {
        index_data_header = s.index_data_header;
        block_header_length = s.block_header_length;
        block_offset = s.block_offset;
        block_length = s.block_length + current_index_data_length;
        block_unit_length = u32 (s.block_unit_length + 1);
        previous_length = length index_data';
        index_data = index_data';
        blocks = blocks';
      }

  -- The last block header, if a block is begun.
  unfoldable pub close : CreateIndexData → CreateIndexData
  close s =
      if ltb 0 s.block_length
      then record {
        index_data_header =
            s.index_data_header ++ block_header s.block_offset s.block_length s.block_unit_length;
        block_header_length = u32 (s.block_header_length + 1);
        block_offset = s.block_offset;
        block_length = s.block_length;
        block_unit_length = s.block_unit_length;
        previous_length = s.previous_length;
        index_data = s.index_data;
        blocks = s.blocks;
      }
      else s

  -- The header is written over the default one.
  unfoldable pub finish : CreateIndexData → CreateIndexDataResult
  finish s = record {
    index_data_header =
        overwrite
          (index_header_to_ne_bytes e (record {
            block_buffer_length = index_data_block_length;
            block_header_length = (close s).block_header_length;
          }))
          (close s).index_data_header;
    index_data = (close s).index_data;
    blocks = (close s).blocks;
  }

  -- The loop over the blocks, each with its aligned text.
  unfoldable pub push_all : List (IndexUnit × Bytes) → CreateIndexData → CreateIndexData
  push_all [] s = s
  push_all ((u, aligned_block) ∷ rest) s = push_all rest (push u aligned_block s)
