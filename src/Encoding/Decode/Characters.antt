-- ===== src/Encoding/Decode/Characters.antt =====
-- `Euc::decode` converts a text character by character: src/skk/encoding_simple/euc.rs.
use yaskkserv.Prelude.{
  ℕ, zero, suc, ◌≤◌, ◌<◌, ◌≡◌, refl, ◌∙◌, ◌⊎◌, true, false, not, ◌||◌, none, some, List, [], ◌∷◌,
  ◌++◌, append_assoc, append-nil, arith, ◌==◌, if◌then◌else◌, Bytes, within, equal, length,
  get_elem?, take, drop, get_elem?_total, All, ok,
}
use yaskkserv.Encoding.{
  Tables, map_get, get_euc_2_to_utf8_vec_index, push_to_buffer_utf8, unknown, nop,
}
use yaskkserv.Encoding.Bounds.{get_euc_2_to_utf8_vec_index-le}
use yaskkserv.Encoding.Decode.{
  no_entry, decode_combine, decode_a1_fe_8e, decode_round, finish_round, decode_loop, decode,
}
use yaskkserv.Encoding.Rounds.{IsSetUp}

-- A character of EUC: ASCII, two bytes, or 0x8f and two bytes.
pub data Character : Type 0 where
  single : ℕ → Character
  double : ℕ → ℕ → Character
  triple : ℕ → ℕ → Character

abbrev pub IsEuc : Character → Type 0
IsEuc (single b) = b ≤ 0x7f
IsEuc (double b0 _) = (b0 ≡ 0x8e) ⊎ ((0xa1 ≤ b0) × (b0 ≤ 0xfe))
IsEuc (triple _ _) = Unit

abbrev pub spell : Character → Bytes
spell (single b) = b ∷ []
spell (double b0 b1) = b0 ∷ b1 ∷ []
spell (triple b1 b2) = 0x8f ∷ b1 ∷ b2 ∷ []

-- What the tables give for a character: the entry of the vector, or of a map, or the bytes in
-- hexadecimal.
abbrev pub meaning : Tables → Character → Bytes
meaning t (single b) = b ∷ []
meaning t (double b0 b1) =
    elim (get_elem? t.euc_2_to_utf8_vec (get_euc_2_to_utf8_vec_index b0 b1)) [
      | none ↦ []
      | some utf8 ↦
          if not (equal utf8 no_entry)
          then push_to_buffer_utf8 utf8
          else elim (map_get (b0 ∷ b1 ∷ 0 ∷ []) t.combine_euc_to_utf8_map) [
            | some v ↦ push_to_buffer_utf8 (take 4 v) ++ push_to_buffer_utf8 (drop 4 v)
            | none ↦ unknown (b0 ∷ b1 ∷ [])
          ]
    ]
meaning t (triple b1 b2) = elim (map_get (0x8f ∷ b1 ∷ b2 ∷ []) t.euc_3_to_utf8_map) [
  | some utf8 ↦ push_to_buffer_utf8 utf8
  | none ↦ unknown (0x8f ∷ b1 ∷ b2 ∷ [])
]

abbrev pub spell_all : List Character → Bytes
spell_all [] = []
spell_all (c ∷ cs) = spell c ++ spell_all cs

abbrev pub meaning_all : Tables → List Character → Bytes
meaning_all t [] = []
meaning_all t (c ∷ cs) = meaning t c ++ meaning_all t cs

abbrev Reads : Tables → Character → ℕ → Bytes → Type 0
Reads t c b rest =
    decode_round t b rest
    ≡ ok (record { result = nop; pushed = meaning t c; advance = length (spell c) })

combine-eq :
    (t : Tables) (b0 b1 : ℕ) (utf8 : Bytes)
    → get_elem? t.euc_2_to_utf8_vec (get_euc_2_to_utf8_vec_index b0 b1) ≡ some utf8
    → (if not (equal utf8 no_entry)
        then record { result = nop; pushed = push_to_buffer_utf8 utf8; advance = 2 }
        else decode_combine false t b0 b1)
      ≡ record { result = nop; pushed = meaning t (double b0 b1); advance = 2 }
unfolding decode_combine
combine-eq t b0 b1 utf8 at = ground (arith, at)

round_double :
    (t : Tables) (b0 b1 : ℕ) (rest : Bytes)
    → IsSetUp t
    → IsEuc (double b0 b1)
    → Reads t (double b0 b1) b0 (b1 ∷ rest)
unfolding decode_round decode_a1_fe_8e
round_double t b0 b1 rest s h =
    let (utf8, at) =
      get_elem?_total t.euc_2_to_utf8_vec (get_euc_2_to_utf8_vec_index b0 b1)
        (omega (arith, get_euc_2_to_utf8_vec_index-le b0 b1, s.euc_2)) in
    let wide : (within 0xa1 0xfe b0 || b0 == 0x8e) ≡ true = ground arith in
    rw wide (ground (arith, at, combine-eq t b0 b1 utf8 at))

round_single : (t : Tables) (b : ℕ) (rest : Bytes) → b ≤ 0x7f → Reads t (single b) b rest
unfolding decode_round
round_single t b rest h = ground arith

round_triple :
    (t : Tables) (b1 b2 : ℕ) (rest : Bytes) → Reads t (triple b1 b2) 0x8f (b1 ∷ b2 ∷ rest)
unfolding decode_round
round_triple t b1 b2 rest = ground arith

-- One character and what follows it.
step :
    (fuel : ℕ) (t : Tables) (c : Character) (rest result : Bytes)
    → IsSetUp t
    → IsEuc c
    → decode_loop (suc fuel) t (spell c ++ rest) result ≡ (
        if length rest == 0
        then ok (result ++ meaning t c)
        else decode_loop fuel t rest (result ++ meaning t c))
unfolding decode_loop finish_round
step fuel t (single b) rest result s h = rw (round_single t b rest h)
step fuel t (double b0 b1) rest result s h = rw (round_double t b0 b1 rest s h)
step fuel t (triple b1 b2) rest result s h = rw (round_triple t b1 b2 rest)

spell_all_more : (c : Character) (cs : List Character) → (length (spell_all (c ∷ cs)) == 0) ≡ false
spell_all_more (single b) cs = ground arith
spell_all_more (double b0 b1) cs = ground arith
spell_all_more (triple b1 b2) cs = ground arith

length-spell_all : (cs : List Character) → length cs ≤ length (spell_all cs)
length-spell_all [] = omega arith
length-spell_all (single b ∷ cs) = omega (arith, length-spell_all cs)
length-spell_all (double b0 b1 ∷ cs) = omega (arith, length-spell_all cs)
length-spell_all (triple b1 b2 ∷ cs) = omega (arith, length-spell_all cs)

decode_loop-spell_all :
    (fuel : ℕ) (t : Tables) (c : Character) (cs : List Character) (result : Bytes)
    → IsSetUp t
    → All IsEuc (c ∷ cs)
    → length cs < fuel
    → decode_loop fuel t (spell_all (c ∷ cs)) result ≡ ok (result ++ meaning_all t (c ∷ cs))
decode_loop-spell_all zero t c cs result s h f = absurd (omega arith)
decode_loop-spell_all (suc fuel) t c [] result s h f = step fuel t c [] result s h.0 ∙ rw append-nil
decode_loop-spell_all (suc fuel) t c (d ∷ ds) result s h f =
    step fuel t c (spell_all (d ∷ ds)) result s h.0
    ∙ rw (spell_all_more d ds) (
        decode_loop-spell_all fuel t d ds (result ++ meaning t c) s h.1 (omega arith)
        ∙ rw append_assoc)

decode_cons :
    (t : Tables) (c : Character) (cs : List Character)
    → decode t (spell_all (c ∷ cs))
      ≡ decode_loop (length (spell_all (c ∷ cs))) t (spell_all (c ∷ cs)) []
unfolding decode
decode_cons t (single b) cs = refl
decode_cons t (double b0 b1) cs = refl
decode_cons t (triple b1 b2) cs = refl

-- With the vectors set up, a text that consists of characters of EUC is converted one character
-- after the other, each as the tables say, whatever stands beside it.
pub decode-spell_all :
    (t : Tables) (cs : List Character)
    → IsSetUp t
    → All IsEuc cs
    → decode t (spell_all cs) ≡ ok (meaning_all t cs)
decode-spell_all t [] s h = unfold decode in refl
decode-spell_all t (c ∷ cs) s h =
    decode_cons t c cs
    ∙ decode_loop-spell_all (length (spell_all (c ∷ cs))) t c cs [] s h
        (omega (arith, length-spell_all (c ∷ cs)))
