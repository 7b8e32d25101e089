-- ===== src/Midashi.antt =====
-- Midashis: `Dictionary::get_dictionary_midashi_key` of src/skk/dictionary.rs,
-- `OnMemory::get_ascii_hiragana_vec_index` of src/skk.rs, and `get_midashi`, `is_okuri_ari` and
-- `get_block_information_vectors` of src/skk/yaskkserv2/dictionary_reader.rs.
pub mod Keys
mod Tests
use yaskkserv.Prelude.{
  ℕ, zero, suc, ◌-◌, Bool, false, not, ◌&&◌, ◌||◌, Option, none, some, List, [], ◌∷◌, ltb, leb,
  ◌==◌, if◌then◌else◌, Bytes, within, length, get_elem?, Result, ◌>>=◌, ◌>>◌, unwrap, encoding, ok,
  err, panic,
}
use yaskkserv.BlockSearch.{Informations}
use yaskkserv.Substrings.{slice}

-- A midashi key: an array of four bytes.
pub record DictionaryMidashiKey : Type 0 where
  pub k0 : ℕ
  pub k1 : ℕ
  pub k2 : ℕ
  pub k3 : ℕ

abbrev pub key : ℕ → ℕ → ℕ → ℕ → DictionaryMidashiKey
key a b c d = record { k0 = a; k1 = b; k2 = c; k3 = d }

abbrev pub same_key : DictionaryMidashiKey → DictionaryMidashiKey → Bool
same_key a b = a.k0 == b.k0 && a.k1 == b.k1 && a.k2 == b.k2 && a.k3 == b.k3

unfoldable pub get_dictionary_midashi_key : Bytes → Result DictionaryMidashiKey
get_dictionary_midashi_key euc_buffer = do
  b0 ← unwrap (get_elem? euc_buffer 0)
  (if within 0xa1 0xfe b0 || b0 == 0x8e
      then (do b1 ← unwrap (get_elem? euc_buffer 1); ok (key b0 b1 0 0))
      else if leb b0 0x7f
      then ok (key b0 0 0 0)
      else if b0 == 0x8f
      then (do
        b1 ← unwrap (get_elem? euc_buffer 1)
        b2 ← unwrap (get_elem? euc_buffer 2)
        ok (key b0 b1 b2 0))
      else err encoding)

unfoldable pub get_ascii_hiragana_vec_index : DictionaryMidashiKey → Option ℕ
get_ascii_hiragana_vec_index k =
    if leb k.k0 0x7f then some k.k0 else if k.k0 == 0xa4 then some k.k1 else none

-- `Encoding`, and `Encoding::from_u32`, which panics on other numbers.
pub data Encoding : Type 0 where
  euc utf8 : Encoding

unfoldable pub from_u32 : ℕ → Result Encoding
from_u32 value = if value == 0 then ok euc else if value == 1 then ok utf8 else panic

pub record OnMemory : Type 0 where
  pub blocks_offset : ℕ
  pub encoding : ℕ
  pub index_map : List (DictionaryMidashiKey × Informations)
  pub index_ascii_hiragana_vec : List Informations

abbrev pub index_map_get :
    DictionaryMidashiKey → List (DictionaryMidashiKey × Informations) → Option Informations
index_map_get k [] = none
index_map_get k ((k', v) ∷ rest) = if same_key k k' then some v else index_map_get k rest

abbrev pub nonempty : Informations → Option Informations
nonempty [] = none
nonempty (i ∷ is) = some (i ∷ is)

unfoldable pub get_block_information_vectors :
    OnMemory → DictionaryMidashiKey → Result (Option Informations)
get_block_information_vectors on_memory k = elim (get_ascii_hiragana_vec_index k) [
  | none ↦ ok (index_map_get k on_memory.index_map)
  | some index ↦ do
    informations ← unwrap (get_elem? on_memory.index_ascii_hiragana_vec index)
    ok (nonempty informations)
]

-- `&buffer[1..buffer.len() - 1]`, which panics below two bytes.
unfoldable pub get_midashi : Bytes → Result Bytes
get_midashi buffer = if length buffer == 0 then panic else slice buffer 1 (length buffer - 1)

-- The last byte a to z, the one before it and the one before that a hiragana.
abbrev byte_at : Bytes → ℕ → ℕ
byte_at [] i = 0
byte_at (b ∷ bs) zero = b
byte_at (b ∷ bs) (suc i) = byte_at bs i

-- A byte is read only where the length allows it.
unfoldable pub is_okuri_ari : Bytes → Bool
is_okuri_ari midashi =
    if ltb (length midashi) 3
    then false
    else let last_character_index = length midashi - 1 in
      if not (within b'a' b'z' (byte_at midashi last_character_index))
      then false
      else if not (within 0xa1 0xf3 (byte_at midashi (last_character_index - 1)))
      then false
      else byte_at midashi (last_character_index - 2) == 0xa4
