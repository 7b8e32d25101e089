-- ===== src/Encoding.antt =====
-- The conversion tables of src/skk/encoding_simple.rs, and the reading of them: `Decoder` of
-- encoding_simple/decoder.rs and `Encoder` of encoding_simple/encoder.rs. A byte is a number below
-- 256, a fixed array the list of its bytes, and a hash map an association list.
pub mod Bounds
pub mod Decode
pub mod Encode
pub mod Rounds
pub mod Unicode
pub mod Setup
pub mod Detect
mod Tests
use yaskkserv.Prelude.{
  ℕ, ◌+◌, ◌-◌, ◌*◌, ◌/◌, ◌%◌, Bool, ◌||◌, Option, none, some, List, [], ◌∷◌, ◌++◌, ltb, leb, ◌==◌,
  if◌then◌else◌, Bytes, codes, equal, take,
}

-- A map with byte strings for keys; the first entry for a key is its value.
abbrev pub ByteMap : Type 0
ByteMap = List (Bytes × Bytes)

unfoldable pub map_get : Bytes → ByteMap → Option Bytes
map_get key [] = none
map_get key ((k, v) ∷ rest) = if equal k key then some v else map_get key rest

-- The seven static tables.
pub record Tables : Type 0 where
  pub euc_2_to_utf8_vec : List Bytes
  pub utf8_3_to_euc_vec : List Bytes
  pub euc_3_to_utf8_map : ByteMap
  pub utf8_2_4_to_euc_map : ByteMap
  pub combine_euc_to_utf8_map : ByteMap
  pub combine_utf8_4_to_euc_map : ByteMap
  pub combine_utf8_6_to_euc_map : ByteMap

abbrev pub euc_2_to_utf8_vec_index_maximum : ℕ
euc_2_to_utf8_vec_index_maximum = 0x5d70

abbrev euc_2_to_utf8_vec_index_empty : ℕ
euc_2_to_utf8_vec_index_empty = 1

-- `((low as usize) << 8) | high as usize`, where `high` is below 256.
pub get_euc_2_to_utf8_vec_index : ℕ → ℕ → ℕ
get_euc_2_to_utf8_vec_index high low =
    if ltb low 0xa1 || ltb high 0x8e
    then euc_2_to_utf8_vec_index_empty
    else let result = (low - 0xa1) * 256 + (high - 0x8e) in
      if ltb euc_2_to_utf8_vec_index_maximum result then euc_2_to_utf8_vec_index_empty else result

abbrev utf8_3_to_euc_vec_index_raw_minimum : ℕ
utf8_3_to_euc_vec_index_raw_minimum = 0x1e3e

abbrev pub utf8_3_to_euc_vec_index_maximum : ℕ
utf8_3_to_euc_vec_index_maximum = 0xff9f - 0x1e3e - (0xdade - 0x8165)

abbrev utf8_3_to_euc_vec_index_empty : ℕ
utf8_3_to_euc_vec_index_empty = 2

-- `x | carry`, for a carry of one bit.
abbrev or_carry : ℕ → ℕ → ℕ
or_carry x carry = if carry == 0 then x else x + (1 - x % 2)

-- `(utf8_a << 12) | (utf8_b << 6) | utf8_c`, for numbers below 128: the seventh bit of one of the
-- last two meets the first bit of the number before it.
pub or_shifted : ℕ → ℕ → ℕ → ℕ
or_shifted utf8_a utf8_b utf8_c =
    or_carry utf8_a (utf8_b / 64) * 4096 + or_carry (utf8_b % 64) (utf8_c / 64) * 64 + utf8_c % 64

pub get_utf8_3_to_euc_vec_index : ℕ → ℕ → ℕ → ℕ
get_utf8_3_to_euc_vec_index b0 b1 b2 =
    if ltb b0 0xe0 || ltb b1 0x80 || ltb b2 0x80
    then utf8_3_to_euc_vec_index_empty
    else let shifted = or_shifted (b0 - 0xe0) (b1 - 0x80) (b2 - 0x80) in
      let raw_index = if ltb 0xdade shifted then shifted - (0xdade - 0x8165) else shifted in
      if ltb raw_index utf8_3_to_euc_vec_index_raw_minimum
      then utf8_3_to_euc_vec_index_empty
      else let result = raw_index - utf8_3_to_euc_vec_index_raw_minimum in
        if ltb utf8_3_to_euc_vec_index_maximum result then utf8_3_to_euc_vec_index_empty else result

-- The first byte of an array.
abbrev first_byte : Bytes → ℕ
first_byte [] = 0
first_byte (b ∷ _) = b

-- What `push_to_buffer_utf8` appends for an array of four bytes.
pub push_to_buffer_utf8 : Bytes → Bytes
push_to_buffer_utf8 utf8 =
    if leb 0xf0 (first_byte utf8)
    then take 4 utf8
    else if leb 0xe0 (first_byte utf8)
    then take 3 utf8
    else if leb 0xc2 (first_byte utf8)
    then take 2 utf8
    else take 1 utf8

-- What `push_to_buffer_euc` appends for an array of three bytes.
pub push_to_buffer_euc : Bytes → Bytes
push_to_buffer_euc euc =
    if first_byte euc == 0x8f
    then take 3 euc
    else if leb 0x80 (first_byte euc)
    then take 2 euc
    else take 1 euc

hex_digit : ℕ → ℕ
hex_digit d = if ltb d 10 then b'0' + d else b'a' + (d - 10)

-- `{:>02x}`: two digits.
hex_2 : ℕ → Bytes
hex_2 b = hex_digit (b / 16) ∷ hex_digit (b % 16) ∷ []

hex_all : Bytes → Bytes
hex_all [] = []
hex_all (b ∷ bs) = hex_2 b ++ hex_all bs

-- `format!("&#x{:>02x}…", …)`: what stands for bytes that have no counterpart.
pub unknown : Bytes → Bytes
unfolding hex_all hex_2 hex_digit
unknown bs = codes "&#x" ++ hex_all bs

-- The outcome of one step of a conversion: `EucResult`, with what is appended to the result and by
-- how much the index grows.
pub data EucResult : Type 0 where
  nop break error_exit : EucResult

pub record Progress : Type 0 where
  pub result : EucResult
  pub pushed : Bytes
  pub advance : ℕ

-- A step that found no counterpart, under the flag `is_error_exit`.
abbrev pub give_up : Bool → Bytes → ℕ → Progress
give_up is_error_exit bytes n = record {
  result = if is_error_exit then error_exit else nop;
  pushed = unknown bytes;
  advance = n;
}
