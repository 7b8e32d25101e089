-- ===== src/Encoding/Encode.antt =====
-- From UTF-8 to EUC: src/skk/encoding_simple/euc.rs, `Euc::encode` and its handlers, and the tests
-- of encoding_simple/encoder.rs. The unread bytes `utf8_buffer[utf8_i..]` are the argument.
pub mod Total
use yaskkserv.Prelude.{
  ℕ, zero, suc, Bool, false, not, ◌&&◌, ◌||◌, Option, none, some, [], ◌∷◌, leb, ◌==◌, if◌then◌else◌,
  Bytes, within, equal, length, get_elem?, Result, ◌>>=◌, ◌>>◌, unwrap, assert, ok, panic,
  out_of_fuel,
}
use yaskkserv.Encoding.{
  Tables, map_get, get_utf8_3_to_euc_vec_index, push_to_buffer_euc, unknown, nop, Progress, give_up,
}
use yaskkserv.Encoding.Decode.{finish_round}

abbrev is_tail : ℕ → Bool
is_tail b = within 0x80 0xbf b

pub is_utf8_2_bytes : Bytes → Bool
is_utf8_2_bytes (b0 ∷ b1 ∷ _) = is_tail b1
is_utf8_2_bytes _ = false

pub is_utf8_3_bytes : Bytes → Bool
is_utf8_3_bytes (b0 ∷ b1 ∷ b2 ∷ _) = is_tail b1 && is_tail b2
is_utf8_3_bytes _ = false

pub is_utf8_4_bytes : Bytes → Bool
is_utf8_4_bytes (b0 ∷ b1 ∷ b2 ∷ b3 ∷ _) = is_tail b1 && is_tail b2 && is_tail b3
is_utf8_4_bytes _ = false

-- `is_enough_4_bytes` and `is_candidate_combine_utf8_4`, and the entry of the four bytes.
find_combine_4 : Tables → Bytes → Option Bytes
find_combine_4 t (b0 ∷ b1 ∷ b2 ∷ b3 ∷ _) =
    if b2 == 0xcc || b2 == 0xcb
    then map_get (b0 ∷ b1 ∷ b2 ∷ b3 ∷ []) t.combine_utf8_4_to_euc_map
    else none
find_combine_4 t _ = none

-- `is_enough_6_bytes` and `is_candidate_combine_utf8_6`, and the entry of the six bytes.
find_combine_6 : Tables → Bytes → Option Bytes
find_combine_6 t (b0 ∷ b1 ∷ b2 ∷ b3 ∷ b4 ∷ b5 ∷ _) =
    if b4 == 0x82 && b5 == 0x9a
    then map_get (b0 ∷ b1 ∷ b2 ∷ b3 ∷ b4 ∷ b5 ∷ []) t.combine_utf8_6_to_euc_map
    else none
find_combine_6 t _ = none

abbrev no_entry : Bytes
no_entry = 0 ∷ 0 ∷ 0 ∷ []

encode_e0_ef_encode_3 : Bool → Tables → Bytes → Result Progress
encode_e0_ef_encode_3 is_error_exit t (b0 ∷ b1 ∷ b2 ∷ _) = do
  euc ← unwrap (get_elem? t.utf8_3_to_euc_vec (get_utf8_3_to_euc_vec_index b0 b1 b2))
  ok (
      if not (equal euc no_entry)
      then record { result = nop; pushed = push_to_buffer_euc euc; advance = 3 }
      else give_up is_error_exit (b0 ∷ b1 ∷ b2 ∷ []) 3)
encode_e0_ef_encode_3 is_error_exit t _ = panic

pub encode_e0_ef : Bool → Tables → Bytes → Result Progress
unfolding find_combine_6 encode_e0_ef_encode_3
encode_e0_ef is_error_exit t rest = elim (find_combine_6 t rest) [
  | some euc ↦ ok (record { result = nop; pushed = push_to_buffer_euc euc; advance = 6 })
  | none ↦ encode_e0_ef_encode_3 is_error_exit t rest
]

-- The single character of two bytes, with two zeros behind its key.
encode_c2_df_encode_2 : Bool → Tables → Bytes → Result Progress
encode_c2_df_encode_2 is_error_exit t (b0 ∷ b1 ∷ _) =
    ok (elim (map_get (b0 ∷ b1 ∷ 0 ∷ 0 ∷ []) t.utf8_2_4_to_euc_map) [
      | some euc ↦ record { result = nop; pushed = push_to_buffer_euc euc; advance = 2 }
      | none ↦ give_up is_error_exit (b0 ∷ b1 ∷ []) 2
    ])
encode_c2_df_encode_2 is_error_exit t _ = panic

pub encode_c2_df : Bool → Tables → Bytes → Result Progress
unfolding find_combine_4 encode_c2_df_encode_2
encode_c2_df is_error_exit t rest = elim (find_combine_4 t rest) [
  | some euc ↦ ok (record { result = nop; pushed = push_to_buffer_euc euc; advance = 4 })
  | none ↦ encode_c2_df_encode_2 is_error_exit t rest
]

pub encode_f0_f7 : Bool → Tables → Bytes → Result Progress
encode_f0_f7 is_error_exit t (b0 ∷ b1 ∷ b2 ∷ b3 ∷ _) =
    ok (elim (map_get (b0 ∷ b1 ∷ b2 ∷ b3 ∷ []) t.utf8_2_4_to_euc_map) [
      | some euc ↦ record { result = nop; pushed = push_to_buffer_euc euc; advance = 4 }
      | none ↦ give_up is_error_exit (b0 ∷ b1 ∷ b2 ∷ b3 ∷ []) 4
    ])
encode_f0_f7 is_error_exit t _ = panic

-- One round of the loop, at the first unread byte `b`; `is_error_exit` is `false`.
pub encode_round : Tables → ℕ → Bytes → Result Progress
unfolding encode_e0_ef encode_c2_df encode_f0_f7 is_utf8_2_bytes is_utf8_3_bytes is_utf8_4_bytes
encode_round t b rest =
    if within 0xe0 0xef b && is_utf8_3_bytes (b ∷ rest)
    then encode_e0_ef false t (b ∷ rest)
    else if leb b 0x7f
    then ok (record { result = nop; pushed = b ∷ []; advance = 1 })
    else if within 0xc2 0xdf b && is_utf8_2_bytes (b ∷ rest)
    then encode_c2_df false t (b ∷ rest)
    else if within 0xf0 0xf7 b && is_utf8_4_bytes (b ∷ rest)
    then encode_f0_f7 false t (b ∷ rest)
    else ok (record { result = nop; pushed = unknown (b ∷ []); advance = 1 })

-- A round that read behind the end would fail the assertion `utf8_i <= utf8_buffer_length`.
pub encode_loop : ℕ → Tables → Bytes → Bytes → Result Bytes
unfolding finish_round
encode_loop zero t unread result_euc = out_of_fuel
encode_loop (suc fuel) t [] result_euc = panic
encode_loop (suc fuel) t (b ∷ rest) result_euc = do
  p ← encode_round t b rest
  assert (leb p.advance (length (b ∷ rest)))
  finish_round (encode_loop fuel t) (b ∷ rest) result_euc p

unfoldable pub encode : Tables → Bytes → Result Bytes
unfolding encode_loop encode_round
encode t [] = ok []
encode t (b ∷ rest) = encode_loop (length (b ∷ rest)) t (b ∷ rest) []
