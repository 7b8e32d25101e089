-- ===== src/Encoding/Setup/Filled.antt =====
-- The vectors after `setup_map` of src/skk/encoding_simple/encoding_table.rs: every write is inside
-- them, and their lengths stay.
use yaskkserv.Prelude.{
  ℕ, zero, suc, ◌+◌, ◌-◌, ◌*◌, ◌≤◌, ◌<◌, ◌≡◌, refl, ◌∙◌, Bool, true, false, ◌||◌, List, [], ◌∷◌,
  arith, leb, ◌==◌, if◌then◌else◌, lt→ltb, le→leb, Bytes, within, length, set, take, drop,
  replicate, length-replicate, length-drop, length-take, length-set, Result, ◌>>=◌, ok,
}
use yaskkserv.Substrings.{slice}
use yaskkserv.Encoding.{
  get_euc_2_to_utf8_vec_index, get_utf8_3_to_euc_vec_index, utf8_3_to_euc_vec_index_maximum,
  euc_2_to_utf8_vec_index_maximum, Tables,
}
use yaskkserv.Encoding.Bounds.{get_euc_2_to_utf8_vec_index-le, get_utf8_3_to_euc_vec_index-le}
use yaskkserv.Encoding.Rounds.{IsSetUp}
use yaskkserv.Encoding.Setup.{
  euc_utf8_unit_length, setup_map, insert_euc, insert_utf8, set_at, emptied,
}

-- A result that is tables with vectors of their lengths.
abbrev pub Fills : Result Tables → Type 0
Fills r = (t : Tables) × (r ≡ ok t) × IsSetUp t

pub emptied-IsSetUp : (t : Tables) → IsSetUp (emptied t)
emptied-IsSetUp t = record {
  euc_2 = length-replicate (euc_2_to_utf8_vec_index_maximum + 1) (replicate {A = ℕ} 4 0);
  utf8_3 = length-replicate (utf8_3_to_euc_vec_index_maximum + 1) (replicate {A = ℕ} 3 0);
}

pub slice-inside :
    (xs : Bytes) (from n : ℕ)
    → from + n ≤ length xs
    → slice xs from (from + n) ≡ ok (take n (drop from xs))
slice-inside xs from n h =
    let width : from + n - from ≡ n = omega arith in
    rw (le→leb from (from + n) (omega arith), le→leb (from + n) (length xs) h, width) refl

pub length-part :
    (xs : Bytes) (from n : ℕ) → from + n ≤ length xs → length (take n (drop from xs)) ≡ n
length-part xs from n h = omega (arith, length-take n (drop from xs), length-drop from xs, h)

set_at-inside :
    (xs : List Bytes) (i : ℕ) (v : Bytes) → i < length xs → set_at xs i v ≡ ok (set xs i v)
set_at-inside xs i v h = rw (lt→ltb i (length xs) h) refl

Fills-if : (b : Bool) {x y : Result Tables} → Fills x → Fills y → Fills (if b then x else y)
Fills-if true p q = p
Fills-if false p q = q

euc_2-Fills :
    (t : Tables) (c0 c1 : ℕ) (utf8 : Bytes)
    → IsSetUp t
    → Fills (do
      vec ← set_at t.euc_2_to_utf8_vec (get_euc_2_to_utf8_vec_index c0 c1) utf8
      ok (record t { euc_2_to_utf8_vec = vec }))
euc_2-Fills t c0 c1 utf8 h =
    let inside : get_euc_2_to_utf8_vec_index c0 c1 < length t.euc_2_to_utf8_vec =
      omega (arith, get_euc_2_to_utf8_vec_index-le c0 c1, h.euc_2) in
    (
      record t {
        euc_2_to_utf8_vec = set t.euc_2_to_utf8_vec (get_euc_2_to_utf8_vec_index c0 c1) utf8;
      },
      rw (set_at-inside t.euc_2_to_utf8_vec (get_euc_2_to_utf8_vec_index c0 c1) utf8 inside) refl,
      record {
        euc_2 = length-set t.euc_2_to_utf8_vec (get_euc_2_to_utf8_vec_index c0 c1) utf8 ∙ h.euc_2;
        utf8_3 = h.utf8_3;
      },
    )

utf8_3-Fills :
    (t : Tables) (u0 u1 u2 : ℕ) (euc_3 : Bytes)
    → IsSetUp t
    → Fills (do
      vec ← set_at t.utf8_3_to_euc_vec (get_utf8_3_to_euc_vec_index u0 u1 u2) euc_3
      ok (record t { utf8_3_to_euc_vec = vec }))
utf8_3-Fills t u0 u1 u2 euc_3 h =
    let inside : get_utf8_3_to_euc_vec_index u0 u1 u2 < length t.utf8_3_to_euc_vec =
      omega (arith, get_utf8_3_to_euc_vec_index-le u0 u1 u2, h.utf8_3) in
    (
      record t {
        utf8_3_to_euc_vec = set t.utf8_3_to_euc_vec (get_utf8_3_to_euc_vec_index u0 u1 u2) euc_3;
      },
      rw (set_at-inside t.utf8_3_to_euc_vec (get_utf8_3_to_euc_vec_index u0 u1 u2) euc_3 inside)
          refl,
      record {
        euc_2 = h.euc_2;
        utf8_3 =
            length-set t.utf8_3_to_euc_vec (get_utf8_3_to_euc_vec_index u0 u1 u2) euc_3 ∙ h.utf8_3;
      },
    )

insert_euc-Fills :
    (euc_3 utf8 : Bytes) (t : Tables)
    → length euc_3 ≡ 3
    → IsSetUp t
    → Fills (insert_euc euc_3 utf8 t)
insert_euc-Fills (c0 ∷ c1 ∷ c2 ∷ []) utf8 t n h =
    Fills-if (c0 == 0x8f) (_, refl, record { euc_2 = h.euc_2; utf8_3 = h.utf8_3 })
      (Fills-if (c0 == 0x8e || within 0xa0 0xff c0) (euc_2-Fills t c0 c1 utf8 h) (t, refl, h))
insert_euc-Fills [] utf8 t n h = absurd (omega (arith, n))
insert_euc-Fills (_ ∷ []) utf8 t n h = absurd (omega (arith, n))
insert_euc-Fills (_ ∷ _ ∷ []) utf8 t n h = absurd (omega (arith, n))
insert_euc-Fills (_ ∷ _ ∷ _ ∷ _ ∷ _) utf8 t n h = absurd (omega (arith, n))

insert_utf8-Fills :
    (euc_3 utf8 : Bytes) (t : Tables)
    → length utf8 ≡ 4
    → IsSetUp t
    → Fills (insert_utf8 euc_3 utf8 t)
insert_utf8-Fills euc_3 (u0 ∷ u1 ∷ u2 ∷ u3 ∷ []) t n h =
    Fills-if (leb u0 0x7f) (t, refl, h)
      (Fills-if (within 0xe0 0xef u0) (utf8_3-Fills t u0 u1 u2 euc_3 h)
        (_, refl, record { euc_2 = h.euc_2; utf8_3 = h.utf8_3 }))
insert_utf8-Fills euc_3 [] t n h = absurd (omega (arith, n))
insert_utf8-Fills euc_3 (_ ∷ []) t n h = absurd (omega (arith, n))
insert_utf8-Fills euc_3 (_ ∷ _ ∷ []) t n h = absurd (omega (arith, n))
insert_utf8-Fills euc_3 (_ ∷ _ ∷ _ ∷ []) t n h = absurd (omega (arith, n))
insert_utf8-Fills euc_3 (_ ∷ _ ∷ _ ∷ _ ∷ _ ∷ _) t n h = absurd (omega (arith, n))

-- Where the bytes hold so many units from the offset, `setup_map` returns, and the two vectors keep
-- the lengths that the conversions count on, whatever the bytes are.
pub setup_map-Fills :
    (count : ℕ) (encoding_table : Bytes) (offset : ℕ) (t : Tables)
    → offset + count * euc_utf8_unit_length ≤ length encoding_table
    → IsSetUp t
    → Fills (setup_map count encoding_table offset t)
unfolding setup_map
setup_map-Fills zero encoding_table offset t room h = (t, refl, h)
setup_map-Fills (suc rest) encoding_table offset t room h =
    let euc_3 = take 3 (drop offset encoding_table) in
    let utf8 = take 4 (drop (offset + 3) encoding_table) in
    let (t', e, h') =
      insert_euc-Fills euc_3 utf8 t (length-part encoding_table offset 3 (omega (arith, room))) h in
    let (t'', e', h'') =
      insert_utf8-Fills euc_3 utf8 t'
        (length-part encoding_table (offset + 3) 4 (omega (arith, room))) h' in
    let (out, e'', last) =
      setup_map-Fills rest encoding_table (offset + euc_utf8_unit_length) t'' (omega (arith, room))
        h'' in
    (
      out,
      rw
          (
            slice-inside encoding_table offset 3 (omega (arith, room)),
            slice-inside encoding_table (offset + 3) 4 (omega (arith, room)),
            e,
            e',
          )
          e'',
      last,
    )
