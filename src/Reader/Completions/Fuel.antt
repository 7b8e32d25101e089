-- ===== src/Reader/Completions/Fuel.antt =====
-- The loops of `read_dictionary_for_read_abbrev` in src/skk/yaskkserv2/dictionary_reader.rs end:
-- the fuel that the inner one is given is enough, and no slice is out of range.
use yaskkserv.Prelude.{
  ℕ, zero, suc, ◌+◌, ◌-◌, ◌≤◌, ◌<◌, ◌≡◌, refl, subst, ◌⊎◌, inl, inr, Bool, true, false, not, ◌&&◌,
  some, [], ◌∷◌, arith, ltb, leb, Bool-cases, Option-cases, Bytes, length, take, drop, length-drop,
  get_elem?_total, Result, ◌>>=◌, io, ok, err, panic, out_of_fuel,
}
use yaskkserv.Substrings.{TwoWay, IsFirst, starts_with, slice, slice_from}
use yaskkserv.Substrings.Positions.{starts_with-length}
use yaskkserv.BlockSearch.{Informations}
use yaskkserv.DictionaryFiles.{File, DictionaryFile, read}
use yaskkserv.DictionaryFiles.Cache.{read_ok-or-io}
use yaskkserv.Reader.Completions.{Found, inner, visit, outer, judge, resume, outer_loop, inner_loop}

-- A return or an error, never a panic or an exhausted fuel.
abbrev pub Ends {ℓ} : {A : Type ℓ} → Result A → Type 0
Ends (ok a) = Unit {0}
Ends (err e) = Unit {0}
Ends panic = ⊥
Ends out_of_fuel = ⊥

-- What is found lies inside the text.
found-inside :
    (w : TwoWay) (text p : Bytes) (i : ℕ)
    → w.find_bytes text p ≡ some i
    → 1 ≤ length p
    → i + length p ≤ length text
found-inside w text p i e long =
    let there : starts_with p (drop i text) ≡ true =
      (subst (IsFirst text p) e (w.find_bytes-IsFirst text p)).0 in
    omega (arith, starts_with-length p (drop i text) there, length-drop i text, long)

settled :
    (stop : Bool) (left : Found) (r : Result Found)
    → Ends r
    → Ends (elim stop as (λ _. Result Found) [ true ↦ ok left | false ↦ r ])
settled true left r h = tt
settled false left r h = h

leave-Ends : (r : Result Found) → Ends r → Ends (r >>= (λ v. ok v.2))
leave-Ends (ok v) h = tt
leave-Ends (err e) h = tt
leave-Ends panic h = elim h [ ]
leave-Ends out_of_fuel h = elim h [ ]

resume-Ends :
    (r : Result Found) (d : DictionaryFile) (go_on : ℕ → Bytes → Result Bytes × DictionaryFile)
    → Ends r
    → ((f : ℕ) (b : Bytes) → Ends (go_on f b).0)
    → Ends (resume r d go_on).0
resume-Ends (ok (outer_loop, f, b)) d go_on h k = tt
resume-Ends (ok (inner_loop, f, b)) d go_on h k = k f b
resume-Ends (err e) d go_on h k = tt
resume-Ends panic d go_on h k = elim h [ ]
resume-Ends out_of_fuel d go_on h k = elim h [ ]

slice_from-inside :
    (bytes : Bytes) (from : ℕ) → from ≤ length bytes → slice_from bytes from ≡ ok (drop from bytes)
slice_from-inside bytes from h =
    let inside : leb from (length bytes) ≡ true = ground (arith, h) in rw inside refl

slice-inside :
    (bytes : Bytes) (from to : ℕ)
    → from ≤ to
    → to ≤ length bytes
    → slice bytes from to ≡ ok (take (to - from) (drop from bytes))
slice-inside bytes from to h k =
    let inside : (leb from to && leb to (length bytes)) ≡ true = ground (arith, h, k) in
    rw inside refl

module _ (w : TwoWay) where
  -- The inner loop ends whenever the fuel exceeds what is unread of the block.
  pub inner-Ends :
      (fuel : ℕ) (buffer p : Bytes) (maximum offset found_count : ℕ) (result : Bytes)
      → 1 ≤ length p
      → offset ≤ length buffer
      → length buffer - offset < fuel
      → Ends (inner w fuel buffer p maximum offset found_count result)
  unfolding inner
  inner-Ends zero buffer p maximum offset found_count result long inside enough =
      absurd (omega (arith, enough))
  inner-Ends (suc fuel) buffer p maximum offset found_count result long inside enough =
      let ih : (offset' found_count' : ℕ) (result' : Bytes)
          → offset' ≤ length buffer
          → length buffer - offset' < fuel
          → Ends (inner w fuel buffer p maximum offset' found_count' result') =
        λ o f r. inner-Ends fuel buffer p maximum o f r long in
      let opened : slice_from buffer offset ≡ ok (drop offset buffer) =
        slice_from-inside buffer offset inside in
      elim (Option-cases (w.find_bytes (drop offset buffer) p)) [
        | inl e ↦ rw (opened, e, inner) tt
        | inr (i, e) ↦
            let b : i + length p ≤ length (drop offset buffer) =
              found-inside w (drop offset buffer) p i e long in
            let start : ℕ = offset + i + length p in
            let inside' : start ≤ length buffer =
              omega (arith, b, length-drop offset buffer, inside, long) in
            let opened' : slice_from buffer start ≡ ok (drop start buffer) =
              slice_from-inside buffer start inside' in
            elim (Option-cases (w.find_bytes (drop start buffer) (b' ' ∷ []))) [
              | inl e' ↦ rw (opened, e, opened', e', inner) tt
              | inr (j, e') ↦
                  let b' : j + 1 ≤ length (drop start buffer) =
                    found-inside w (drop start buffer) (b' ' ∷ []) j e' (omega arith) in
                  let bound : start + j ≤ length buffer =
                    omega (arith, b', length-drop start buffer, inside') in
                  let midashi : Bytes =
                    take (start + j - (offset + i + 1)) (drop (offset + i + 1) buffer) in
                  let cut : slice buffer (offset + i + 1) (start + j) ≡ ok midashi =
                    slice-inside buffer (offset + i + 1) (start + j) (omega (arith, long)) bound in
                  let less_left : length buffer - (start + j) < fuel =
                    omega (arith, enough, long, bound, inside) in
                  let judged : Bool × ℕ × Bytes = judge midashi maximum found_count result in
                  rw (opened, e, opened', e', cut, inner)
                    (settled judged.0 (outer_loop, judged.1, judged.2)
                      (inner w fuel buffer p maximum (start + j) judged.1 judged.2)
                      (ih (start + j) judged.1 judged.2 bound less_left))
            ]
      ]

  Ends-block :
      (block : Result Bytes) (f : Bytes → Result Found)
      → ((bytes : Bytes) × (block ≡ ok bytes)) ⊎ (block ≡ err io)
      → ((bytes : Bytes) → Ends (f bytes))
      → Ends (block >>= f)
  Ends-block block f (inl (bytes, e)) h = rw e (h bytes)
  Ends-block block f (inr e) h = rw e tt

  visit-Ends :
      (file : File) (midashi : Bytes) (informations : Informations)
      (blocks_offset maximum index : ℕ) (d : DictionaryFile) (found_count : ℕ) (result : Bytes)
      → index < length informations
      → Ends (visit w file midashi informations blocks_offset maximum index d found_count result).0
  unfolding visit
  visit-Ends file midashi informations blocks_offset maximum index d found_count result lt =
      let (unit, e) = get_elem?_total informations index lt in
      elim (Bool-cases (ltb 0 found_count && not (starts_with midashi unit.midashi))) [
        | inl stop ↦ rw (e, stop, visit) tt
        | inr on ↦
            rw (e, on, visit)
              (Ends-block (read file (blocks_offset + unit.offset) unit.length d).0
                (λ buffer.
                  inner w (length buffer + 1) buffer (b'\n' ∷ midashi) maximum 0 found_count result)
                (read_ok-or-io file (blocks_offset + unit.offset) unit.length d)
                (λ buffer.
                  inner-Ends (length buffer + 1) buffer (b'\n' ∷ midashi) maximum 0 found_count
                    result (omega arith) (omega arith) (omega arith)))
      ]

  -- From a block of the index, the search for completions returns or gives an error: the inner
  -- loop has fuel enough, and no block and no slice is out of range.
  pub outer-Ends :
      (file : File) (midashi : Bytes) (informations : Informations)
      (blocks_offset maximum index : ℕ) (d : DictionaryFile) (found_count : ℕ) (result : Bytes)
      → index < length informations
      → Ends (outer w file midashi informations blocks_offset maximum index d found_count result).0
  unfolding outer
  outer-Ends file midashi informations blocks_offset maximum zero d found_count result lt =
      leave-Ends (visit w file midashi informations blocks_offset maximum 0 d found_count result).0
        (visit-Ends file midashi informations blocks_offset maximum 0 d found_count result lt)
  outer-Ends file midashi informations blocks_offset maximum (suc index) d found_count result lt =
      let visited : Result Found × DictionaryFile =
        visit w file midashi informations blocks_offset maximum (suc index) d found_count result in
      resume-Ends visited.0 visited.1
        (outer w file midashi informations blocks_offset maximum index visited.1)
        (visit-Ends file midashi informations blocks_offset maximum (suc index) d found_count result
          lt)
        (λ f r.
          outer-Ends file midashi informations blocks_offset maximum index visited.1 f r
            (omega (arith, lt)))
