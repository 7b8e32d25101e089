-- ===== src/Encoding/Decode.antt =====
-- From EUC to UTF-8: src/skk/encoding_simple/euc.rs, `Euc::decode` and its two handlers. The unread
-- bytes `euc_buffer[euc_i..]` are the argument; a read behind the end panics.
pub mod Total
pub mod Characters
use yaskkserv.Prelude.{
  ℕ, zero, suc, Bool, false, not, ◌||◌, none, some, [], ◌∷◌, ◌++◌, leb, ◌==◌, if◌then◌else◌, Bytes,
  within, equal, length, get_elem?, take, drop, Result, ◌>>=◌, ◌>>◌, unwrap, encoding, ok, err,
  panic, out_of_fuel,
}
use yaskkserv.Encoding.{
  Tables, map_get, get_euc_2_to_utf8_vec_index, push_to_buffer_utf8, unknown, nop, break,
  error_exit, Progress, give_up,
}

-- Both for one byte, and for the bytes that are left, if there are too few.
abbrev too_short : Bool → Bytes → Progress
too_short is_error_exit rest = record {
  result = if is_error_exit then error_exit else break;
  pushed = unknown rest;
  advance = 0;
}

-- No entry in the vector: the combining characters, with a zero behind the key.
decode_combine : Bool → Tables → ℕ → ℕ → Progress
decode_combine is_error_exit t b0 b1 = elim (map_get (b0 ∷ b1 ∷ 0 ∷ []) t.combine_euc_to_utf8_map) [
  | some v ↦ record {
    result = nop;
    pushed = push_to_buffer_utf8 (take 4 v) ++ push_to_buffer_utf8 (drop 4 v);
    advance = 2;
  }
  | none ↦ give_up is_error_exit (b0 ∷ b1 ∷ []) 2
]

abbrev no_entry : Bytes
no_entry = 0 ∷ 0 ∷ 0 ∷ 0 ∷ []

pub decode_a1_fe_8e : Bool → Tables → Bytes → Result Progress
unfolding decode_combine
decode_a1_fe_8e is_error_exit t [] = panic
decode_a1_fe_8e is_error_exit t (b0 ∷ []) = ok (too_short is_error_exit (b0 ∷ []))
decode_a1_fe_8e is_error_exit t (b0 ∷ b1 ∷ rest) = do
  utf8 ← unwrap (get_elem? t.euc_2_to_utf8_vec (get_euc_2_to_utf8_vec_index b0 b1))
  ok (
      if not (equal utf8 no_entry)
      then record { result = nop; pushed = push_to_buffer_utf8 utf8; advance = 2 }
      else decode_combine is_error_exit t b0 b1)

decode_8f : Bool → Tables → Bytes → Result Progress
decode_8f is_error_exit t [] = panic
decode_8f is_error_exit t (b0 ∷ []) = ok (too_short is_error_exit (b0 ∷ []))
decode_8f is_error_exit t (b0 ∷ b1 ∷ []) = ok (too_short is_error_exit (b0 ∷ b1 ∷ []))
decode_8f is_error_exit t (b0 ∷ b1 ∷ b2 ∷ rest) =
    ok (elim (map_get (b0 ∷ b1 ∷ b2 ∷ []) t.euc_3_to_utf8_map) [
      | some utf8 ↦ record { result = nop; pushed = push_to_buffer_utf8 utf8; advance = 3 }
      | none ↦ give_up is_error_exit (b0 ∷ b1 ∷ b2 ∷ []) 3
    ])

-- One round of the loop, at the first unread byte `b`; `is_error_exit` is `false`.
pub decode_round : Tables → ℕ → Bytes → Result Progress
unfolding decode_a1_fe_8e decode_8f
decode_round t b rest =
    if within 0xa1 0xfe b || b == 0x8e
    then decode_a1_fe_8e false t (b ∷ rest)
    else if leb b 0x7f
    then ok (record { result = nop; pushed = b ∷ []; advance = 1 })
    else if b == 0x8f
    then decode_8f false t (b ∷ rest)
    else ok (record { result = nop; pushed = unknown (b ∷ []); advance = 1 })

-- The end of a round: `again` is the next round, on the bytes that are left.
unfoldable pub finish_round :
    (Bytes → Bytes → Result Bytes) → Bytes → Bytes → Progress → Result Bytes
finish_round again unread result_utf8 p =
    let pushed = result_utf8 ++ p.pushed in
    let left = drop p.advance unread in
    let next = again left pushed in
    elim p.result [
      | break ↦ ok pushed
      | error_exit ↦ err encoding
      | nop ↦ if length left == 0 then ok pushed else next
    ]

-- Each round reads a byte at least: the length of the text is fuel enough.
pub decode_loop : ℕ → Tables → Bytes → Bytes → Result Bytes
unfolding finish_round
decode_loop zero t unread result_utf8 = out_of_fuel
decode_loop (suc fuel) t [] result_utf8 = panic
decode_loop (suc fuel) t (b ∷ rest) result_utf8 = do
  p ← decode_round t b rest
  finish_round (decode_loop fuel t) (b ∷ rest) result_utf8 p

unfoldable pub decode : Tables → Bytes → Result Bytes
unfolding decode_loop decode_round
decode t [] = ok []
decode t (b ∷ rest) = decode_loop (length (b ∷ rest)) t (b ∷ rest) []
