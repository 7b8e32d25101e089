-- ===== src/Encoding/Setup/Combined.antt =====
-- The setting up of all the conversion tables: `setup` and `setup_combine_map` of
-- src/skk/encoding_simple/encoding_table.rs.
use yaskkserv.Prelude.{
  ℕ, zero, suc, ◌+◌, ◌*◌, ◌≤◌, ◌≡◌, refl, ◌∙◌, Bool, true, false, ◌||◌, [], ◌∷◌, arith,
  if◌then◌else◌, Bytes, within, length, take, drop, Result, ok,
}
use yaskkserv.OnDisk.{Endian}
use yaskkserv.Encoding.{Tables}
use yaskkserv.Encoding.Setup.{
  no_tables, euc_utf8_unit_length, euc_utf8_combine_unit_length, insert_combine, setup_combine_map,
  emptied, setup, header_u32,
}
use yaskkserv.Encoding.Setup.Filled.{
  Fills, slice-inside, length-part, setup_map-Fills, emptied-IsSetUp,
}

abbrev pub combine_key : Bytes → Bool
combine_key [] = false
combine_key (b ∷ _) = within 0xc2 0xdf b || within 0xe0 0xef b

-- Every unit of a combination begins, in UTF-8, with a byte of a character of two or three bytes.
abbrev pub HasCombineKeys : ℕ → Bytes → ℕ → Type 0
HasCombineKeys zero encoding_table offset = Unit {0}
HasCombineKeys (suc rest) encoding_table offset =
    (combine_key (drop (offset + 3) encoding_table) ≡ true)
    × HasCombineKeys rest encoding_table (offset + euc_utf8_combine_unit_length)

combine_key-take : (xs : Bytes) (n : ℕ) → combine_key (take (suc n) xs) ≡ combine_key xs
combine_key-take [] n = refl
combine_key-take (x ∷ xs) n = refl

if-ok :
    (b c : Bool) (x y : Tables) (z : Result Tables)
    → (b || c) ≡ true
    → (t : Tables) × ((if b then ok x else if c then ok y else z) ≡ ok t)
if-ok true c x y z h = (x, refl)
if-ok false true x y z h = (y, refl)
if-ok false false x y z h = absurd (cc h)

insert_combine-ok :
    (euc_3 utf8_value : Bytes) (t : Tables)
    → length utf8_value ≡ 8
    → combine_key utf8_value ≡ true
    → (t' : Tables) × (insert_combine euc_3 utf8_value t ≡ ok t')
insert_combine-ok euc_3 (a0 ∷ a1 ∷ a2 ∷ a3 ∷ b0 ∷ b1 ∷ b2 ∷ b3) t n h =
    if-ok (within 0xc2 0xdf a0) (within 0xe0 0xef a0) _ _ _ h
insert_combine-ok euc_3 [] t n h = absurd (omega (arith, n))
insert_combine-ok euc_3 (_ ∷ []) t n h = absurd (omega (arith, n))
insert_combine-ok euc_3 (_ ∷ _ ∷ []) t n h = absurd (omega (arith, n))
insert_combine-ok euc_3 (_ ∷ _ ∷ _ ∷ []) t n h = absurd (omega (arith, n))
insert_combine-ok euc_3 (_ ∷ _ ∷ _ ∷ _ ∷ []) t n h = absurd (omega (arith, n))
insert_combine-ok euc_3 (_ ∷ _ ∷ _ ∷ _ ∷ _ ∷ []) t n h = absurd (omega (arith, n))
insert_combine-ok euc_3 (_ ∷ _ ∷ _ ∷ _ ∷ _ ∷ _ ∷ []) t n h = absurd (omega (arith, n))

setup_combine_map-ok :
    (count : ℕ) (encoding_table : Bytes) (offset : ℕ) (t : Tables)
    → offset + count * euc_utf8_combine_unit_length ≤ length encoding_table
    → HasCombineKeys count encoding_table offset
    → (t' : Tables) × (setup_combine_map count encoding_table offset t ≡ ok t')
unfolding setup_combine_map
setup_combine_map-ok zero encoding_table offset t room keys = (t, refl)
setup_combine_map-ok (suc rest) encoding_table offset t room keys =
    let euc_3 = take 3 (drop offset encoding_table) in
    let utf8_value = take 8 (drop (offset + 3) encoding_table) in
    let (t', e) =
      insert_combine-ok euc_3 utf8_value
        (record t { combine_euc_to_utf8_map = (euc_3, utf8_value) ∷ t.combine_euc_to_utf8_map })
        (length-part encoding_table (offset + 3) 8 (omega (arith, room)))
        (combine_key-take (drop (offset + 3) encoding_table) 7 ∙ keys.0) in
    let (out, e') =
      setup_combine_map-ok rest encoding_table (offset + euc_utf8_combine_unit_length) t'
        (omega (arith, room)) keys.1 in
    (
      out,
      rw
          (
            slice-inside encoding_table offset 3 (omega (arith, room)),
            slice-inside encoding_table (offset + 3) 8 (omega (arith, room)),
            e,
          )
          e',
    )

-- Where the header gives lengths that the bytes hold, and every combination begins with a byte of
-- two or three bytes, the tables are set up, with vectors of the lengths the conversions count on.
pub setup-Fills :
    (e : Endian) (encoding_table : Bytes) (header_length combine_length map_length : ℕ)
    → header_u32 e encoding_table 4 ≡ ok header_length
    → header_u32 e encoding_table 8 ≡ ok combine_length
    → header_u32 e encoding_table 12 ≡ ok map_length
    → header_length
        + combine_length * euc_utf8_combine_unit_length
        + map_length * euc_utf8_unit_length
      ≤ length encoding_table
    → HasCombineKeys combine_length encoding_table header_length
    → Fills (setup e encoding_table)
unfolding setup
setup-Fills e encoding_table header_length combine_length map_length h c m room keys =
    let (t, r) =
      setup_combine_map-ok combine_length encoding_table header_length no_tables
        (omega (arith, room)) keys in
    let (out, r', done) =
      setup_map-Fills map_length encoding_table
        (header_length + combine_length * euc_utf8_combine_unit_length) (emptied t) room
        (emptied-IsSetUp t) in
    (out, rw (h, c, m, r) r', done)
