-- ===== src/Creation/Pushed.antt =====
-- Every round of `create_index_data` of src/skk/yaskkserv2_make_dictionary/dictionary_creator.rs
-- keeps the blocks of the index data and their headers in step.
use yaskkserv.OnDisk.Rounds.{length-heads, length-index_header}
use yaskkserv.DictionaryFiles.{overwrite}
use yaskkserv.Prelude.{
  ◌+◌, ◌-◌, ◌≤◌, ◌<◌, ◌≡◌, refl, sym, ap, ◌∙◌, subst, inl, inr, List, [], ◌∷◌, ◌++◌, map,
  append_assoc, append-nil, arith, ltb, leb, ltb→lt, ltb→ge, leb→le, leb→gt, Bool-cases, Bytes,
  length, length-append, drop-append, All, All-append,
}
use yaskkserv.Creation.IndexData.{
  joined_midashi, offset_lengths, heads, close, finish, CreateIndexDataResult, push_all, IndexUnit,
  CreateIndexData, index_data_block_length, u32, unit_to_ne_bytes, block_header, push,
}
use yaskkserv.Creation.Groups.{
  Groups, IsGrouped, IsBlock, units_to_ne_bytes, units-append, headers-snoc, flat-snoc, flat,
  headers,
}
use yaskkserv.OnDisk.{
  heads_to_ne_bytes, dictionary_block_heads_size, IndexDataHeader, index_header_to_ne_bytes, Endian,
}

pushed_some :
    (e : Endian) (us : List IndexUnit) → 0 < length (units_to_ne_bytes e us) → 0 < length us
pushed_some e [] h = h
pushed_some e (u ∷ us) h = omega arith

-- Each unit writes its heads, at least.
pub unit-pos :
    (e : Endian) (u : IndexUnit) → dictionary_block_heads_size ≤ length (unit_to_ne_bytes e u)
unfolding unit_to_ne_bytes
unit-pos e u = omega (
  arith,
  length-append (heads_to_ne_bytes e (heads u))
      (offset_lengths e u.informations ++ joined_midashi u.informations),
  length-heads e (heads u),
)

empty_of : (e : Endian) (us : List IndexUnit) → length (units_to_ne_bytes e us) ≡ 0 → us ≡ []
empty_of e [] h = refl
empty_of e (u ∷ us) h =
    absurd (
      omega (arith, h, unit-pos e u, length-append (unit_to_ne_bytes e u) (units_to_ne_bytes e us)))

module _ (e : Endian) (us : List IndexUnit) (s : CreateIndexData) (g : IsGrouped e us s) where
  header_of_current :
      block_header e s.block_offset s.block_length s.block_unit_length
      ≡ block_header e
          (0 + length (units_to_ne_bytes e (flat g.closed)))
          (length (units_to_ne_bytes e g.current))
          (u32 (length g.current))
  header_of_current =
      rw (g.offset-closed, g.length-current, g.count-current)
        (ap
          (λ n. block_header e n (length (units_to_ne_bytes e g.current)) (u32 (length g.current)))
          (omega arith))

  closed_header :
      s.index_data_header ++ block_header e s.block_offset s.block_length s.block_unit_length
      ≡ index_header_to_ne_bytes e (record { block_buffer_length = 0; block_header_length = 0 })
        ++ headers e 0 (g.closed ++ g.current ∷ [])
  closed_header =
      rw (g.header-headers, header_of_current, headers-snoc e 0 g.closed g.current)
        (append_assoc _ (headers e 0 g.closed) _)

  closed_count : u32 (s.block_header_length + 1) ≡ u32 (length (g.closed ++ g.current ∷ []))
  closed_count = omega (arith, g.count-closed, length-append g.closed (g.current ∷ []))

  module _ (u : IndexUnit) (aligned_block : Bytes) where
    pushed : s.index_data ++ unit_to_ne_bytes e u ≡ units_to_ne_bytes e (us ++ u ∷ [])
    pushed = rw (g.data-units, units-append e us (u ∷ []), append-nil (unit_to_ne_bytes e u)) refl

    added :
        length (s.index_data ++ unit_to_ne_bytes e u) - s.previous_length
        ≡ length (unit_to_ne_bytes e u)
    added = omega (arith, g.previous-data, length-append s.index_data (unit_to_ne_bytes e u))

    units-u : length (units_to_ne_bytes e (u ∷ [])) ≡ length (unit_to_ne_bytes e u)
    units-u = ap length (append-nil (unit_to_ne_bytes e u))

    longer :
        length (units_to_ne_bytes e (g.current ++ u ∷ []))
        ≡ length (units_to_ne_bytes e g.current) + length (unit_to_ne_bytes e u)
    longer = omega (
      arith,
      ap length (units-append e g.current (u ∷ [])),
      length-append (units_to_ne_bytes e g.current) (units_to_ne_bytes e (u ∷ [])),
      units-u,
    )

    -- The units of the closed blocks and of the one begun are all that are written.
    length-flat :
        length (units_to_ne_bytes e (flat (g.closed ++ g.current ∷ []))) ≡ length s.index_data
    length-flat = rw (flat-snoc g.closed g.current, g.units-flat, g.data-units) refl

    -- A unit that alone fits a block keeps the blocks in step.
    pub push-IsGrouped :
        length (unit_to_ne_bytes e u) < index_data_block_length
        → IsGrouped e (us ++ u ∷ []) (push e u aligned_block s)
    unfolding push
    push-IsGrouped small =
        elim (Bool-cases (
          leb index_data_block_length (
            s.block_length
            + (length (s.index_data ++ unit_to_ne_bytes e u) - s.previous_length)))) [
              | inl full ↦ rw full (record {
                closed = g.closed ++ g.current ∷ [];
                current = u ∷ [];
                units-flat = rw (flat-snoc g.closed g.current, g.units-flat) refl;
                data-units = pushed;
                header-headers = closed_header;
                count-closed = closed_count;
                offset-closed = omega (
                  arith,
                  length-flat,
                  ap length g.data-units,
                  added,
                  length-append s.index_data (unit_to_ne_bytes e u),
                );
                length-current = added ∙ sym units-u;
                count-current = refl;
                previous-data = refl;
                closed-IsBlock = All-append (IsBlock e) g.closed (g.current ∷ []) g.closed-IsBlock (
                  (
                    pushed_some e g.current
                        (omega (arith, g.length-current, added, small, leb→le _ _ full)),
                    g.current-lt,
                  ),
                  tt,
                );
                current-lt = omega (arith, units-u, small);
              })
              | inr more ↦ rw more (record {
                closed = g.closed;
                current = g.current ++ u ∷ [];
                units-flat =
                    sym (append_assoc (flat g.closed) g.current (u ∷ []))
                    ∙ ap (λ vs. vs ++ u ∷ []) g.units-flat;
                data-units = pushed;
                header-headers = g.header-headers;
                count-closed = g.count-closed;
                offset-closed = g.offset-closed;
                length-current = omega (arith, longer, g.length-current, added);
                count-current = omega (arith, g.count-current, length-append g.current (u ∷ []));
                previous-data = refl;
                closed-IsBlock = g.closed-IsBlock;
                current-lt = omega (arith, longer, g.length-current, added, leb→gt _ _ more);
              })
            ]

-- The result describes the units: blocks that hold them in order, and a header for each.
pub record IsFinished (e : Endian) (us : List IndexUnit) (r : CreateIndexDataResult) : Type 0 where
  pub groups : Groups
  pub units-flat : flat groups ≡ us
  pub data-units : r.index_data ≡ units_to_ne_bytes e us
  pub header-headers :
      r.index_data_header
      ≡ index_header_to_ne_bytes e (record {
        block_buffer_length = index_data_block_length;
        block_header_length = u32 (length groups);
      })
        ++ headers e 0 groups
  pub groups-IsBlock : All (IsBlock e) groups

module _ (e : Endian) where
  pub push_all-IsGrouped :
      (units : List (IndexUnit × Bytes)) (us : List IndexUnit) (s : CreateIndexData)
      → IsGrouped e us s
      → All (λ u. length (unit_to_ne_bytes e u) < index_data_block_length) (map (λ p. p.0) units)
      → IsGrouped e (us ++ map (λ p. p.0) units) (push_all e units s)
  unfolding push_all
  push_all-IsGrouped [] us s g small = subst (λ vs. IsGrouped e vs s) (sym (append-nil us)) g
  push_all-IsGrouped ((u, aligned_block) ∷ units) us s g small =
      subst (λ vs. IsGrouped e vs (push_all e units (push e u aligned_block s)))
        (append_assoc us (u ∷ []) (map (λ p. p.0) units))
        (push_all-IsGrouped units (us ++ u ∷ []) (push e u aligned_block s)
          (push-IsGrouped e us s g u aligned_block small.0) small.1)

  overwritten :
      (h h' : IndexDataHeader) (rest header : Bytes)
      → header ≡ index_header_to_ne_bytes e h' ++ rest
      → overwrite (index_header_to_ne_bytes e h) header ≡ index_header_to_ne_bytes e h ++ rest
  overwritten h h' rest header same =
      rw
        (
          same,
          length-index_header e h ∙ sym (length-index_header e h'),
          drop-append (index_header_to_ne_bytes e h') rest,
        )
        refl

  -- Once closed, every unit is in a block that has a header.
  pub finish-IsFinished :
      (us : List IndexUnit) (s : CreateIndexData) → IsGrouped e us s → IsFinished e us (finish e s)
  unfolding finish close
  finish-IsFinished us s g = elim (Bool-cases (ltb 0 s.block_length)) [
    | inl begun ↦ rw begun (record {
      groups = g.closed ++ g.current ∷ [];
      units-flat = flat-snoc g.closed g.current ∙ g.units-flat;
      data-units = g.data-units;
      header-headers =
          overwritten _ _ _ _ (closed_header e us s g) ∙ rw (closed_count e us s g) refl;
      groups-IsBlock = All-append (IsBlock e) g.closed (g.current ∷ []) g.closed-IsBlock (
        (pushed_some e g.current (omega (arith, g.length-current, ltb→lt _ _ begun)), g.current-lt),
        tt,
      );
    })
    | inr none' ↦ rw none' (record {
      groups = g.closed;
      units-flat =
          sym (append-nil (flat g.closed))
          ∙ (ap (λ vs. flat g.closed ++ vs)
                (sym (empty_of e g.current (omega (arith, g.length-current, ltb→ge _ _ none'))))
              ∙ g.units-flat);
      data-units = g.data-units;
      header-headers = overwritten _ _ _ _ g.header-headers ∙ rw (g.count-closed) refl;
      groups-IsBlock = g.closed-IsBlock;
    })
  ]
