-- ===== src/Encoding/Bounds.antt =====
-- The indexes computed for the two vectors stay inside them: src/skk/encoding_simple/decoder.rs
-- and encoder.rs.
use yaskkserv.Prelude.{ℕ, ◌+◌, ◌-◌, ◌/◌, ◌%◌, ◌≤◌, ◌≡◌, ◌⊎◌, arith, ltb, if◌then◌else◌}
use yaskkserv.Encoding.{
  or_shifted, euc_2_to_utf8_vec_index_maximum, utf8_3_to_euc_vec_index_maximum,
  get_euc_2_to_utf8_vec_index, get_utf8_3_to_euc_vec_index,
}

-- For any two bytes, the index for EUC lies in the vector.
pub get_euc_2_to_utf8_vec_index-le :
    (high low : ℕ) → get_euc_2_to_utf8_vec_index high low ≤ euc_2_to_utf8_vec_index_maximum
unfolding get_euc_2_to_utf8_vec_index
get_euc_2_to_utf8_vec_index-le high low = ground arith

-- For any three bytes, the index for UTF-8 lies in the vector.
pub get_utf8_3_to_euc_vec_index-le :
    (b0 b1 b2 : ℕ) → get_utf8_3_to_euc_vec_index b0 b1 b2 ≤ utf8_3_to_euc_vec_index_maximum
unfolding get_utf8_3_to_euc_vec_index
get_utf8_3_to_euc_vec_index-le b0 b1 b2 = ground arith

-- A pair of bytes that EUC allows: the first from 0x8e to 0xfe, the second from 0xa1 to 0xfe.
abbrev pub IsEucPair : ℕ → ℕ → Type 0
IsEucPair high low = (0x8e ≤ high) × (high ≤ 0xfe) × (0xa1 ≤ low) × (low ≤ 0xfe)

-- Two pairs of EUC share an index of the vector only if they are equal.
pub get_euc_2_to_utf8_vec_index-injective :
    (h l h' l' : ℕ)
    → IsEucPair h l
    → IsEucPair h' l'
    → get_euc_2_to_utf8_vec_index h l ≡ get_euc_2_to_utf8_vec_index h' l'
    → (h ≡ h') × (l ≡ l')
unfolding get_euc_2_to_utf8_vec_index
get_euc_2_to_utf8_vec_index-injective h l h' l' p q e = ground arith

-- The bytes of a code point from U+0800 to U+FFFF.
abbrev pub utf8_index : ℕ → ℕ
utf8_index r = get_utf8_3_to_euc_vec_index (0xe0 + r / 4096) (0x80 + r / 64 % 64) (0x80 + r % 64)

-- A code point that has a place of its own in the vector for UTF-8.
abbrev pub IsMapped : ℕ → Type 0
IsMapped r = ((0x1e3e ≤ r) × (r ≤ 0x9fa3)) ⊎ ((0xf91d ≤ r) × (r ≤ 0xff9f))

code_point_lem :
    (r : ℕ)
    → or_shifted (0xe0 + r / 4096 - 0xe0) (0x80 + r / 64 % 64 - 0x80) (0x80 + r % 64 - 0x80) ≡ r
unfolding or_shifted
code_point_lem r =
    let b : (0x80 + r / 64 % 64 - 0x80) / 64 ≡ 0 = omega arith in
    let c : (0x80 + r % 64 - 0x80) / 64 ≡ 0 = omega arith in rw (b, c) (omega arith)

-- The index of a code point, as a difference.
utf8_index_mapped :
    (r : ℕ) → IsMapped r → utf8_index r + 0x1e3e + (if ltb 0xdade r then 0x5979 else 0) ≡ r
unfolding get_utf8_3_to_euc_vec_index
utf8_index_mapped r m = rw code_point_lem (ground arith)

-- Two code points of the mapped range share an index only if they are equal.
pub utf8_index-injective :
    (r r' : ℕ) → IsMapped r → IsMapped r' → utf8_index r ≡ utf8_index r' → r ≡ r'
utf8_index-injective r r' m m' e =
    let p = utf8_index_mapped r m in let q = utf8_index_mapped r' m' in ground arith

-- The code points from U+9FA4 to U+A626 are not sent to the place that stands for those out of
-- range: each has the index of the code point 0x5979 above it.
pub utf8_index_collides : (r : ℕ) → 0x9fa4 ≤ r → r ≤ 0xa626 → utf8_index r ≡ utf8_index (r + 0x5979)
unfolding get_utf8_3_to_euc_vec_index
utf8_index_collides r lo hi =
    rw (code_point_lem r) (rw (code_point_lem (r + 0x5979)) (ground arith))
