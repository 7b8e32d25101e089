-- ===== src/Encoding/Decode/Total.antt =====
-- `Euc::decode` always returns a text: src/skk/encoding_simple/euc.rs.
use yaskkserv.Prelude.{
  ℕ, zero, suc, ◌≤◌, ◌<◌, refl, inl, inr, false, ◌||◌, [], ◌∷◌, arith, leb, ◌==◌, Bool-cases,
  Option-cases, Bytes, within, equal, length, get_elem?_total, ok,
}
use yaskkserv.Encoding.{Tables, map_get, get_euc_2_to_utf8_vec_index}
use yaskkserv.Encoding.Bounds.{get_euc_2_to_utf8_vec_index-le}
use yaskkserv.Encoding.Decode.{
  no_entry, decode_combine, decode_a1_fe_8e, decode_8f, decode_round, decode_loop, decode,
}
use yaskkserv.Encoding.Rounds.{IsSetUp, Returns, Proceeds, goes_on, stops, finish_round-Returns}

decode_combine-Proceeds :
    (t : Tables) (b0 b1 : ℕ) (rest : Bytes)
    → Proceeds (b0 ∷ b1 ∷ rest) (ok (decode_combine false t b0 b1))
unfolding decode_combine
decode_combine-Proceeds t b0 b1 rest =
    elim (Option-cases (map_get (b0 ∷ b1 ∷ 0 ∷ []) t.combine_euc_to_utf8_map)) [
      | inl e ↦ rw (e, decode_combine) (goes_on _ _ 2 (omega arith) (omega arith))
      | inr (v, e) ↦ rw (e, decode_combine) (goes_on _ _ 2 (omega arith) (omega arith))
    ]

decode_a1_fe_8e-Proceeds :
    (t : Tables) (b : ℕ) (rest : Bytes)
    → IsSetUp t
    → Proceeds (b ∷ rest) (decode_a1_fe_8e false t (b ∷ rest))
unfolding decode_a1_fe_8e
decode_a1_fe_8e-Proceeds t b [] s = stops _ _
decode_a1_fe_8e-Proceeds t b (b1 ∷ rest) s =
    let (utf8, at) =
      get_elem?_total t.euc_2_to_utf8_vec (get_euc_2_to_utf8_vec_index b b1)
        (omega (arith, get_euc_2_to_utf8_vec_index-le b b1, s.euc_2)) in
    rw at (elim (Bool-cases (equal utf8 no_entry)) [
      | inl e ↦ rw e (decode_combine-Proceeds t b b1 rest)
      | inr e ↦ rw e (goes_on _ _ 2 (omega arith) (omega arith))
    ])

decode_8f-Proceeds :
    (t : Tables) (b : ℕ) (rest : Bytes) → Proceeds (b ∷ rest) (decode_8f false t (b ∷ rest))
unfolding decode_8f
decode_8f-Proceeds t b [] = stops _ _
decode_8f-Proceeds t b (b1 ∷ []) = stops _ _
decode_8f-Proceeds t b (b1 ∷ b2 ∷ rest) =
    elim (Option-cases (map_get (b ∷ b1 ∷ b2 ∷ []) t.euc_3_to_utf8_map)) [
      | inl e ↦ rw e (goes_on _ _ 3 (omega arith) (omega arith))
      | inr (v, e) ↦ rw e (goes_on _ _ 3 (omega arith) (omega arith))
    ]

decode_round-Proceeds :
    (t : Tables) (b : ℕ) (rest : Bytes) → IsSetUp t → Proceeds (b ∷ rest) (decode_round t b rest)
unfolding decode_round
decode_round-Proceeds t b rest s = elim (Bool-cases (within 0xa1 0xfe b || b == 0x8e)) [
  | inl e ↦ rw e (decode_a1_fe_8e-Proceeds t b rest s)
  | inr e ↦ rw e (elim (Bool-cases (leb b 0x7f)) [
    | inl ascii ↦ rw ascii (goes_on _ _ 1 (omega arith) (omega arith))
    | inr high ↦ rw high (elim (Bool-cases (b == 0x8f)) [
      | inl three ↦ rw three (decode_8f-Proceeds t b rest)
      | inr other ↦ rw other (goes_on _ _ 1 (omega arith) (omega arith))
    ])
  ])
]

decode_loop-Returns :
    (fuel : ℕ) (t : Tables) (unread result : Bytes)
    → IsSetUp t
    → 0 < length unread
    → length unread ≤ fuel
    → Returns (decode_loop fuel t unread result)
unfolding decode_loop
decode_loop-Returns zero t unread result s pos f = absurd (omega arith)
decode_loop-Returns (suc fuel) t [] result s pos f = absurd (omega arith)
decode_loop-Returns (suc fuel) t (b ∷ rest) result s pos f =
    let (p, e, h) = decode_round-Proceeds t b rest s in
    rw e (
      finish_round-Returns (decode_loop fuel t) (b ∷ rest) result p h (omega arith)
        (λ left pushed shorter more. decode_loop-Returns fuel t left pushed s more (omega arith)))

-- With the vectors set up, `decode` returns a text for every input, well-formed or not: it gives no
-- error, never reads outside a vector or behind the end of the input, and ends.
pub decode-Returns : (t : Tables) (euc_buffer : Bytes) → IsSetUp t → Returns (decode t euc_buffer)
unfolding decode
decode-Returns t [] s = ([], refl)
decode-Returns t (b ∷ rest) s =
    decode_loop-Returns (length (b ∷ rest)) t (b ∷ rest) [] s (omega arith) (omega arith)
