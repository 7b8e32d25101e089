-- ===== src/Encoding/Encode/Total.antt =====
-- `Euc::encode` always returns a text: src/skk/encoding_simple/euc.rs.
use yaskkserv.Prelude.{
  ℕ, zero, suc, ◌≤◌, ◌<◌, ◌≡◌, refl, inl, inr, Bool, true, false, ◌&&◌, some, [], ◌∷◌, arith, leb,
  le→leb, Bool-cases, Option-cases, Bytes, within, equal, length, get_elem?_total,
}
use yaskkserv.Encoding.{Tables, map_get, get_utf8_3_to_euc_vec_index}
use yaskkserv.Encoding.Bounds.{get_utf8_3_to_euc_vec_index-le}
use yaskkserv.Encoding.Encode.{
  no_entry, is_utf8_2_bytes, is_utf8_3_bytes, is_utf8_4_bytes, find_combine_4, find_combine_6,
  encode_e0_ef_encode_3, encode_e0_ef, encode_c2_df_encode_2, encode_c2_df, encode_f0_f7,
  encode_round, encode_loop, encode,
}
use yaskkserv.Encoding.Rounds.{IsSetUp, Returns, Proceeds, goes_on, finish_round-Returns}

-- An entry for two characters is used only where the bytes of both are there.
find_combine_6-enough :
    (t : Tables) (rest : Bytes) {euc : Bytes} → find_combine_6 t rest ≡ some euc → 6 ≤ length rest
unfolding find_combine_6
find_combine_6-enough t [] h = cc
find_combine_6-enough t (a ∷ []) h = cc
find_combine_6-enough t (a ∷ b ∷ []) h = cc
find_combine_6-enough t (a ∷ b ∷ c ∷ []) h = cc
find_combine_6-enough t (a ∷ b ∷ c ∷ d ∷ []) h = cc
find_combine_6-enough t (a ∷ b ∷ c ∷ d ∷ e ∷ []) h = cc
find_combine_6-enough t (a ∷ b ∷ c ∷ d ∷ e ∷ f ∷ rest) h = omega arith

find_combine_4-enough :
    (t : Tables) (rest : Bytes) {euc : Bytes} → find_combine_4 t rest ≡ some euc → 4 ≤ length rest
unfolding find_combine_4
find_combine_4-enough t [] h = cc
find_combine_4-enough t (a ∷ []) h = cc
find_combine_4-enough t (a ∷ b ∷ []) h = cc
find_combine_4-enough t (a ∷ b ∷ c ∷ []) h = cc
find_combine_4-enough t (a ∷ b ∷ c ∷ d ∷ rest) h = omega arith

encode_3-Proceeds :
    (t : Tables) (rest : Bytes)
    → IsSetUp t
    → is_utf8_3_bytes rest ≡ true
    → Proceeds rest (encode_e0_ef_encode_3 false t rest)
unfolding encode_e0_ef_encode_3 is_utf8_3_bytes
encode_3-Proceeds t [] s h = absurd (cc)
encode_3-Proceeds t (a ∷ []) s h = absurd (cc)
encode_3-Proceeds t (a ∷ b ∷ []) s h = absurd (cc)
encode_3-Proceeds t (a ∷ b ∷ c ∷ rest) s h =
    let (euc, at) =
      get_elem?_total t.utf8_3_to_euc_vec (get_utf8_3_to_euc_vec_index a b c)
        (omega (arith, get_utf8_3_to_euc_vec_index-le a b c, s.utf8_3)) in
    rw at (elim (Bool-cases (equal euc no_entry)) [
      | inl e ↦ rw e (goes_on _ _ 3 (omega arith) (omega arith))
      | inr e ↦ rw e (goes_on _ _ 3 (omega arith) (omega arith))
    ])

encode_e0_ef-Proceeds :
    (t : Tables) (rest : Bytes)
    → IsSetUp t
    → is_utf8_3_bytes rest ≡ true
    → Proceeds rest (encode_e0_ef false t rest)
unfolding encode_e0_ef
encode_e0_ef-Proceeds t rest s h = elim (Option-cases (find_combine_6 t rest)) [
  | inl e ↦ rw (e, encode_e0_ef) (encode_3-Proceeds t rest s h)
  | inr (v, e) ↦
      rw (e, encode_e0_ef) (goes_on rest _ 6 (omega arith) (find_combine_6-enough t rest e))
]

encode_2-Proceeds :
    (t : Tables) (rest : Bytes)
    → is_utf8_2_bytes rest ≡ true
    → Proceeds rest (encode_c2_df_encode_2 false t rest)
unfolding encode_c2_df_encode_2 is_utf8_2_bytes
encode_2-Proceeds t [] h = absurd (cc)
encode_2-Proceeds t (a ∷ []) h = absurd (cc)
encode_2-Proceeds t (a ∷ b ∷ rest) h =
    elim (Option-cases (map_get (a ∷ b ∷ 0 ∷ 0 ∷ []) t.utf8_2_4_to_euc_map)) [
      | inl e ↦ rw e (goes_on _ _ 2 (omega arith) (omega arith))
      | inr (v, e) ↦ rw e (goes_on _ _ 2 (omega arith) (omega arith))
    ]

encode_c2_df-Proceeds :
    (t : Tables) (rest : Bytes)
    → is_utf8_2_bytes rest ≡ true
    → Proceeds rest (encode_c2_df false t rest)
unfolding encode_c2_df
encode_c2_df-Proceeds t rest h = elim (Option-cases (find_combine_4 t rest)) [
  | inl e ↦ rw (e, encode_c2_df) (encode_2-Proceeds t rest h)
  | inr (v, e) ↦
      rw (e, encode_c2_df) (goes_on rest _ 4 (omega arith) (find_combine_4-enough t rest e))
]

encode_f0_f7-Proceeds :
    (t : Tables) (rest : Bytes)
    → is_utf8_4_bytes rest ≡ true
    → Proceeds rest (encode_f0_f7 false t rest)
unfolding encode_f0_f7 is_utf8_4_bytes
encode_f0_f7-Proceeds t [] h = absurd (cc)
encode_f0_f7-Proceeds t (a ∷ []) h = absurd (cc)
encode_f0_f7-Proceeds t (a ∷ b ∷ []) h = absurd (cc)
encode_f0_f7-Proceeds t (a ∷ b ∷ c ∷ []) h = absurd (cc)
encode_f0_f7-Proceeds t (a ∷ b ∷ c ∷ d ∷ rest) h =
    elim (Option-cases (map_get (a ∷ b ∷ c ∷ d ∷ []) t.utf8_2_4_to_euc_map)) [
      | inl e ↦ rw e (goes_on _ _ 4 (omega arith) (omega arith))
      | inr (v, e) ↦ rw e (goes_on _ _ 4 (omega arith) (omega arith))
    ]

second : (a b : Bool) → (a && b) ≡ true → b ≡ true
second a b h = ground arith

encode_round-Proceeds :
    (t : Tables) (b : ℕ) (rest : Bytes) → IsSetUp t → Proceeds (b ∷ rest) (encode_round t b rest)
unfolding encode_round
encode_round-Proceeds t b rest s =
    elim (Bool-cases (within 0xe0 0xef b && is_utf8_3_bytes (b ∷ rest))) [
      | inl e ↦ rw e (encode_e0_ef-Proceeds t (b ∷ rest) s (second _ _ e))
      | inr e ↦ rw e (elim (Bool-cases (leb b 0x7f)) [
        | inl ascii ↦ rw ascii (goes_on _ _ 1 (omega arith) (omega arith))
        | inr high ↦ rw high (elim (Bool-cases (within 0xc2 0xdf b && is_utf8_2_bytes (b ∷ rest))) [
          | inl two ↦ rw two (encode_c2_df-Proceeds t (b ∷ rest) (second _ _ two))
          | inr not_two ↦
              rw not_two (elim (Bool-cases (within 0xf0 0xf7 b && is_utf8_4_bytes (b ∷ rest))) [
                | inl four ↦ rw four (encode_f0_f7-Proceeds t (b ∷ rest) (second _ _ four))
                | inr other ↦ rw other (goes_on _ _ 1 (omega arith) (omega arith))
              ])
        ])
      ])
    ]

encode_loop-Returns :
    (fuel : ℕ) (t : Tables) (unread result : Bytes)
    → IsSetUp t
    → 0 < length unread
    → length unread ≤ fuel
    → Returns (encode_loop fuel t unread result)
unfolding encode_loop
encode_loop-Returns zero t unread result s pos f = absurd (omega arith)
encode_loop-Returns (suc fuel) t [] result s pos f = absurd (omega arith)
encode_loop-Returns (suc fuel) t (b ∷ rest) result s pos f =
    let (p, e, h) = encode_round-Proceeds t b rest s in
    rw e (
      rw (le→leb p.advance (length (b ∷ rest)) h.inside) (
        finish_round-Returns (encode_loop fuel t) (b ∷ rest) result p h (omega arith)
          (λ left pushed shorter more.
            encode_loop-Returns fuel t left pushed s more (omega arith))))

-- With the vectors set up, `encode` returns a text for every input, well-formed or not: it gives no
-- error, its assertion holds, it never reads outside a vector or behind the end of the input, and it
-- ends.
pub encode-Returns : (t : Tables) (utf8_buffer : Bytes) → IsSetUp t → Returns (encode t utf8_buffer)
unfolding encode
encode-Returns t [] s = ([], refl)
encode-Returns t (b ∷ rest) s =
    encode_loop-Returns (length (b ∷ rest)) t (b ∷ rest) [] s (omega arith) (omega arith)
