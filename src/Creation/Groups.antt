-- ===== src/Creation/Groups.antt =====
-- The blocks that `create_index_data` of src/skk/yaskkserv2_make_dictionary/dictionary_creator.rs
-- groups the index data into, and the headers that describe them.
use yaskkserv.Prelude.{
  ℕ, ◌+◌, ◌<◌, ◌≡◌, refl, sym, ap, ◌∙◌, List, [], ◌∷◌, ◌++◌, append_assoc, append-nil, arith, Bytes,
  length, length-append, All,
}
use yaskkserv.Creation.IndexData.{
  IndexUnit, CreateIndexData, index_data_block_length, u32, unit_to_ne_bytes, start, block_header,
}
use yaskkserv.OnDisk.{Endian, index_header_to_ne_bytes}

abbrev pub Groups : Type 0
Groups = List (List IndexUnit)

abbrev pub flat : Groups → List IndexUnit
flat [] = []
flat (g ∷ gs) = g ++ flat gs

pub flat-snoc : (gs : Groups) (g : List IndexUnit) → flat (gs ++ g ∷ []) ≡ flat gs ++ g
flat-snoc [] g = append-nil g
flat-snoc (h ∷ gs) g = ap (λ us. h ++ us) (flat-snoc gs g) ∙ sym (append_assoc h (flat gs) g)

module _ (e : Endian) where
  abbrev pub units_to_ne_bytes : List IndexUnit → Bytes
  units_to_ne_bytes [] = []
  units_to_ne_bytes (u ∷ us) = unit_to_ne_bytes e u ++ units_to_ne_bytes us

  pub units-append :
      (us vs : List IndexUnit)
      → units_to_ne_bytes (us ++ vs) ≡ units_to_ne_bytes us ++ units_to_ne_bytes vs
  units-append [] vs = refl
  units-append (u ∷ us) vs =
      ap (λ b. unit_to_ne_bytes e u ++ b) (units-append us vs)
      ∙ sym (append_assoc (unit_to_ne_bytes e u) (units_to_ne_bytes us) (units_to_ne_bytes vs))

  -- The headers of groups that stand one behind the other, from an offset on.
  abbrev pub headers : ℕ → Groups → Bytes
  headers o [] = []
  headers o (g ∷ gs) =
      block_header e o (length (units_to_ne_bytes g)) (u32 (length g))
      ++ headers (o + length (units_to_ne_bytes g)) gs

  pub headers-snoc :
      (o : ℕ) (gs : Groups) (g : List IndexUnit)
      → headers o (gs ++ g ∷ [])
        ≡ headers o gs
          ++ block_header e
              (o + length (units_to_ne_bytes (flat gs)))
              (length (units_to_ne_bytes g))
              (u32 (length g))
  headers-snoc o [] g =
      append-nil _
      ∙ ap (λ n. block_header e n (length (units_to_ne_bytes g)) (u32 (length g))) (omega arith)
  headers-snoc o (h ∷ gs) g =
      let next : o + length (units_to_ne_bytes h) + length (units_to_ne_bytes (flat gs))
          ≡ o + length (units_to_ne_bytes (h ++ flat gs)) =
        omega (
          arith,
          ap length (units-append h (flat gs)),
          length-append (units_to_ne_bytes h) (units_to_ne_bytes (flat gs)),
        ) in
      let front = block_header e o (length (units_to_ne_bytes h)) (u32 (length h)) in
      ap (λ b. front ++ b) (headers-snoc (o + length (units_to_ne_bytes h)) gs g)
      ∙ (sym (append_assoc front _ _)
          ∙ ap
              (λ n.
                (front ++ headers (o + length (units_to_ne_bytes h)) gs)
                ++ block_header e n (length (units_to_ne_bytes g)) (u32 (length g)))
              next)

  -- A block of the index data: some units that fit the buffer they are read into.
  abbrev pub IsBlock : List IndexUnit → Type 0
  IsBlock g = (0 < length g) × (length (units_to_ne_bytes g) < index_data_block_length)

  -- The state of the loop describes the units pushed so far: closed blocks, then the one begun.
  pub record IsGrouped (us : List IndexUnit) (s : CreateIndexData) : Type 0 where
    pub closed : Groups
    pub current : List IndexUnit
    pub units-flat : flat closed ++ current ≡ us
    pub data-units : s.index_data ≡ units_to_ne_bytes us
    pub header-headers :
        s.index_data_header
        ≡ index_header_to_ne_bytes e (record { block_buffer_length = 0; block_header_length = 0 })
          ++ headers 0 closed
    pub count-closed : s.block_header_length ≡ u32 (length closed)
    pub offset-closed : s.block_offset ≡ length (units_to_ne_bytes (flat closed))
    pub length-current : s.block_length ≡ length (units_to_ne_bytes current)
    pub count-current : s.block_unit_length ≡ u32 (length current)
    pub previous-data : s.previous_length ≡ length s.index_data
    pub closed-IsBlock : All IsBlock closed
    pub current-lt : length (units_to_ne_bytes current) < index_data_block_length

  pub start-IsGrouped : IsGrouped [] (start e)
  unfolding start
  start-IsGrouped = record {
    closed = [];
    current = [];
    units-flat = refl;
    data-units = refl;
    header-headers = sym (append-nil _);
    count-closed = refl;
    offset-closed = refl;
    length-current = refl;
    count-current = refl;
    previous-data = refl;
    closed-IsBlock = tt;
    current-lt = omega arith;
  }
