-- ===== src/Loading/Blocks.antt =====
-- What src/skk/dictionary.rs reads of index data that src/skk/yaskkserv2_make_dictionary writes.
use yaskkserv.Prelude.{
  ℕ, ◌+◌, ◌*◌, ◌%◌, ◌^◌, ◌≤◌, ◌≡◌, refl, sym, ap, ◌∙◌, true, List, [], ◌∷◌, ◌++◌, append_assoc,
  arith, leb, le→leb, Bytes, length, drop, length-append, length-drop, All, All-front, All-back,
  Result, ◌>>=◌, ok, err, panic, out_of_fuel,
}
use yaskkserv.Substrings.{slice_from}
use yaskkserv.Substrings.Slices.{slice_from-append}
use yaskkserv.DictionaryFiles.{File, filled, overwrite}
use yaskkserv.OnDisk.{
  Endian, IndexDataHeaderBlockHeader, U32, block_header_from_ne_bytes, index_data_header_size,
  index_data_header_block_header_size,
}
use yaskkserv.OnDisk.Rounds.{
  block_header_from_ne_bytes-block_header_to_ne_bytes, length-block_header,
}
use yaskkserv.Creation.IndexData.{
  IndexUnit, unit_to_ne_bytes, block_header, u32, index_data_block_length,
}
use yaskkserv.Creation.Groups.{Groups, flat, units_to_ne_bytes, units-append, headers, IsBlock}
use yaskkserv.Creation.Pushed.{unit-pos}
use yaskkserv.Loading.{
  Index, insert, read_units, read_blocks, refilled, update_index_map_and_index_ascii_hiragana_vec,
}
use yaskkserv.Loading.Units.{FitsUnit, read_unit-unit_to_ne_bytes, u32-U32}

-- The units one after another go into the maps.
unfoldable pub insert_all : List IndexUnit → Index → Result Index
insert_all [] index = ok index
insert_all (u ∷ us) index =
    insert u.unit_key u.informations index >>= λ index'. insert_all us index'

numbered {ℓ κ} :
    {A : Type ℓ} {B : Type κ} {n : ℕ} (f : ℕ × A → Result B) (g : A → Result B) (r : Result A)
    → ((a : A) → f (n, a) ≡ g a)
    → ((r >>= λ a. ok (n, a)) >>= f) ≡ (r >>= g)
numbered f g (ok a) h = h a
numbered f g (err x) h = refl
numbered f g panic h = refl
numbered f g out_of_fuel h = refl

pub read_units-units :
    (e : Endian) (us : List IndexUnit) (pre rest : Bytes) (index : Index)
    → All FitsUnit us
    → read_units e (length us) (pre ++ (units_to_ne_bytes e us ++ rest)) (length pre) index
      ≡ insert_all us index
unfolding read_units insert_all
read_units-units e [] pre rest index fits = refl
read_units-units e (u ∷ us) pre rest index fits =
    let place : pre ++ (units_to_ne_bytes e (u ∷ us) ++ rest)
        ≡ pre ++ (unit_to_ne_bytes e u ++ (units_to_ne_bytes e us ++ rest)) =
      simp append_assoc refl in
    let next : pre ++ (unit_to_ne_bytes e u ++ (units_to_ne_bytes e us ++ rest))
        ≡ pre ++ unit_to_ne_bytes e u ++ (units_to_ne_bytes e us ++ rest) =
      simp append_assoc refl in
    rw (place, read_unit-unit_to_ne_bytes e pre u (units_to_ne_bytes e us ++ rest) fits.0 index)
      (numbered _ _ (insert u.unit_key u.informations index) (λ index'.
        rw (next) (read_units-units e us (pre ++ unit_to_ne_bytes e u) rest index' fits.1)))

then_same {ℓ κ} :
    {A : Type ℓ} {B : Type κ} (f g : A → Result B) (r : Result A)
    → ((a : A) → f a ≡ g a)
    → (r >>= f) ≡ (r >>= g)
then_same f g (ok a) h = h a
then_same f g (err x) h = refl
then_same f g panic h = refl
then_same f g out_of_fuel h = refl

then_then {ℓ κ μ} :
    {A : Type ℓ} {B : Type κ} {C : Type μ} (f : A → Result B) (g : B → Result C) (r : Result A)
    → ((r >>= f) >>= g) ≡ (r >>= λ a. f a >>= g)
then_then f g (ok a) = refl
then_then f g (err x) = refl
then_then f g panic = refl
then_then f g out_of_fuel = refl

pub insert_all-append :
    (us vs : List IndexUnit) (index : Index)
    → insert_all (us ++ vs) index ≡ (insert_all us index >>= λ index'. insert_all vs index')
unfolding insert_all
insert_all-append [] vs index = refl
insert_all-append (u ∷ us) vs index =
    then_same _ _ (insert u.unit_key u.informations index)
      (λ index'. insert_all-append us vs index')
    ∙ sym (then_then _ _ (insert u.unit_key u.informations index))

pub length-units : (e : Endian) (us : List IndexUnit) → length us ≤ length (units_to_ne_bytes e us)
length-units e [] = omega arith
length-units e (u ∷ us) = omega (
  arith,
  length-units e us,
  unit-pos e u,
  length-append (unit_to_ne_bytes e u) (units_to_ne_bytes e us),
)

-- `read_exact` fills the buffer with what the file holds.
abbrev pub Holds : Bytes → File → Type 0
Holds content read_exact =
    (pre mid post : Bytes)
    → content ≡ pre ++ (mid ++ post)
    → read_exact (length pre) (length mid) ≡ filled mid

length-header :
    (e : Endian) (o l n : ℕ) → length (block_header e o l n) ≡ index_data_header_block_header_size
unfolding block_header
length-header e o l n =
    length-block_header e (record { offset = u32 o; length = u32 l; unit_length = n })

module _ (e : Endian) (o : ℕ) (g : List IndexUnit) (rest : Bytes) where
  abbrev described : IndexDataHeaderBlockHeader
  described = record { offset = o; length = length (units_to_ne_bytes e g); unit_length = length g }

  read-block_header :
      U32 (o + length (units_to_ne_bytes e g))
      → block_header_from_ne_bytes e
          (block_header e o (length (units_to_ne_bytes e g)) (u32 (length g)) ++ rest)
        ≡ ok described
  unfolding block_header
  read-block_header h =
      rw
        (
          u32-U32 o (omega (arith, h)),
          u32-U32 (length (units_to_ne_bytes e g)) (omega (arith, h)),
          u32-U32 (length g) (omega (arith, h, length-units e g)),
        )
        (block_header_from_ne_bytes-block_header_to_ne_bytes e described rest (omega (arith, h))
          (omega (arith, h)) (omega (arith, h, length-units e g)))

  -- A block whose units stand in the front of the buffer.
  read-block :
      (index : Index)
      → All FitsUnit g
      → update_index_map_and_index_ascii_hiragana_vec e described
          (overwrite (units_to_ne_bytes e g) rest)
          index
        ≡ insert_all g index
  unfolding update_index_map_and_index_ascii_hiragana_vec
  read-block index fits = read_units-units e g [] _ index fits

module _ (e : Endian) (content header_buffer fpost : Bytes) (index_data_offset : ℕ) where
  -- Each block header sends the reader to its block, and all units go into the maps in order.
  pub read_blocks-headers :
      (read_exact : File) (gs : Groups) (o i : ℕ) (hpre dpre buffer : Bytes) (index : Index)
      → Holds content read_exact
      → header_buffer ≡ hpre ++ headers e o gs
      → index_data_header_size + i * index_data_header_block_header_size ≡ length hpre
      → content ≡ dpre ++ (units_to_ne_bytes e (flat gs) ++ fpost)
      → index_data_offset + o ≡ length dpre
      → U32 (length dpre + length (units_to_ne_bytes e (flat gs)))
      → All (IsBlock e) gs
      → All FitsUnit (flat gs)
      → index_data_block_length ≤ length buffer
      → read_blocks e read_exact index_data_offset header_buffer i (length gs) buffer index
        ≡ insert_all (flat gs) index
  unfolding read_blocks insert_all refilled
  read_blocks-headers read_exact [] o i hpre dpre buffer index holds hh hi hc ho bound bs fits
        large =
      refl
  read_blocks-headers read_exact (g ∷ gs) o i hpre dpre buffer index holds hh hi hc ho bound bs fits
        large =
      let G = units_to_ne_bytes e g in
      let F = units_to_ne_bytes e (flat gs) in
      let sizes : length (units_to_ne_bytes e (g ++ flat gs)) ≡ length G + length F =
        omega (arith, ap length (units-append e g (flat gs)), length-append G F) in
      let head = block_header e o (length G) (u32 (length g)) in
      let here : slice_from header_buffer
            (index_data_header_size + i * index_data_header_block_header_size)
          ≡ ok (head ++ headers e (o + length G) gs) =
        rw hh (slice_from-append hpre (head ++ headers e (o + length G) gs) hi) in
      let inside : leb (length G) (length buffer) ≡ true =
        le→leb _ _ (omega (arith, large, bs.0)) in
      let place : content ≡ dpre ++ (G ++ (F ++ fpost)) =
        hc ∙ rw (units-append e g (flat gs)) (simp append_assoc refl) in
      let seek : (index_data_offset + o) % 2 ^ 32 ≡ length dpre = omega (arith, ho, bound, sizes) in
      let filling : read_exact (length dpre) (length G) ≡ filled G =
        holds dpre G (F ++ fpost) place in
      rw
        (
          here,
          read-block_header e o g (headers e (o + length G) gs) (omega (arith, ho, bound, sizes)),
          inside,
          seek,
          filling,
          read-block e o g buffer index (All-front FitsUnit g (flat gs) fits),
          insert_all-append g (flat gs) index,
        )
        (then_same _ _ (insert_all g index) (λ index'.
          read_blocks-headers read_exact gs (o + length G) (i + 1) (hpre ++ head) (dpre ++ G)
            (overwrite G buffer) index' holds (rw hh (simp append_assoc refl))
            (omega
              (arith, hi, length-append hpre head, length-header e o (length G) (u32 (length g))))
            (rw place (simp append_assoc refl)) (omega (arith, ho, length-append dpre G))
            (omega (arith, bound, sizes, length-append dpre G)) bs.1
            (All-back FitsUnit g (flat gs) fits)
            (omega (
              arith,
              large,
              length-append G (drop (length G) buffer),
              length-drop (length G) buffer,
            ))))
