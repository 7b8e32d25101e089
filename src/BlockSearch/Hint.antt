-- ===== src/BlockSearch/Hint.antt =====
-- The binary search ends, reads only inside the list, and its result is at most two places before
-- the place searched for, and never behind it: src/skk/yaskkserv2/dictionary_reader.rs.
use yaskkserv.Prelude.{
  ℕ, zero, suc, ◌+◌, ◌-◌, ◌*◌, ◌/◌, ◌≤◌, ◌<◌, ◌≡◌, refl, ◌≢◌, inl, inr, true, false, some, arith,
  ltb, leb, if◌then◌else◌, ltb→lt, ltb→ge, ge→ltb, leb→le, leb→gt, gt→leb, Bool-cases, Bytes, less,
  length, get_elem?, get_elem?_total, Result, ok,
}
use yaskkserv.BlockSearch.{
  binary_search, DictionaryBlockInformation, Informations, settle, hint_loop, skip,
}
use yaskkserv.BlockSearch.Order.{IsDescending, skip-le, le_of_less, ge_of_not_less}

-- The loop returns a place from which at most two steps lead to `k`.
abbrev pub IsNear : ℕ → Result ℕ → Type 0
IsNear k r = (h : ℕ) × (r ≡ ok h) × (h ≤ k) × (k ≤ h + 2)

-- After the first round with `diff` 1, the rounds go on in one direction. Going back, each round
-- has the place behind it.
data Direction (m : Bytes) (xs : Informations) (index : ℕ) : ℕ → ℕ → Type 0 where
  backward : (fuel : ℕ) → index + 1 ≤ fuel → skip m xs ≤ index + 1 → Direction m xs index fuel 0
  forward :
      (fuel : ℕ)
      → length xs ≤ index + fuel
      → 0 < index
      → index ≤ skip m xs + 1
      → Direction m xs index fuel 1

module _ (m : Bytes) (xs : Informations) (sorted : IsDescending xs) where
  near : (h : ℕ) → h ≤ skip m xs → skip m xs ≤ h + 2 → IsNear (skip m xs) (ok h)
  near h lo hi = (h, refl, lo, hi)

  round_below :
      (fuel index diff previous count : ℕ) {x : DictionaryBlockInformation}
      → get_elem? xs index ≡ some x
      → less x.midashi m ≡ true
      → hint_loop (suc fuel) m xs index diff previous count ≡ (
          if ltb index diff
          then ok 0
          else settle (hint_loop fuel m xs) (index - diff) diff 0 previous count)
  unfolding hint_loop
  round_below fuel index diff previous count at h = ground arith

  round_above :
      (fuel index diff previous count : ℕ) {x : DictionaryBlockInformation}
      → get_elem? xs index ≡ some x
      → less x.midashi m ≡ false
      → hint_loop (suc fuel) m xs index diff previous count ≡ (
          if leb (length xs) (index + diff)
          then ok (length xs - 1)
          else settle (hint_loop fuel m xs) (index + diff) diff 1 previous count)
  unfolding hint_loop
  round_above fuel index diff previous count at h = ground arith

  settle_stop :
      (again : ℕ → ℕ → ℕ → ℕ → Result ℕ) (index direction previous count : ℕ)
      → 0 < count
      → direction ≢ previous
      → settle again index 1 direction previous count ≡ ok (index - 1)
  unfolding settle
  settle_stop again index direction previous count c ne = ground arith

  settle_again :
      (again : ℕ → ℕ → ℕ → ℕ → Result ℕ) (index direction count : ℕ)
      → settle again index 1 direction direction count ≡ again index 1 direction (count + 1)
  unfolding settle
  settle_again again index direction count = ground arith

  -- The rounds with `diff` 1.
  hint_loop_one :
      (fuel index direction count : ℕ)
      → index < length xs
      → 0 < count
      → Direction m xs index fuel direction
      → IsNear (skip m xs) (hint_loop fuel m xs index 1 direction count)
  hint_loop_one zero index direction count inside c (backward _ f k) = absurd (omega arith)
  hint_loop_one zero index direction count inside c (forward _ f p k) = absurd (omega arith)
  hint_loop_one (suc fuel) index direction count inside c (backward _ f k) =
      let (x, at) = get_elem?_total xs index inside in
      elim (Bool-cases (less x.midashi m)) [
        | inl below ↦
            let k' = le_of_less m xs index at below in
            rw (round_below fuel index 1 0 count at below) (elim (Bool-cases (ltb index 1)) [
              | inl out ↦ rw out (near 0 (omega arith) (omega (arith, ltb→lt index 1 out)))
              | inr stay ↦
                  let pos = ltb→ge index 1 stay in
                  rw stay (
                    rw settle_again (
                      hint_loop_one fuel (index - 1) 0 (count + 1) (omega arith) (omega arith)
                        (backward fuel (omega arith) (omega arith))))
            ])
        | inr above ↦
            let k' = ge_of_not_less m xs index sorted at above in
            rw (round_above fuel index 1 0 count at above)
              (elim (Bool-cases (leb (length xs) (index + 1))) [
                | inl out ↦
                    let far = leb→le (length xs) (index + 1) out in
                    rw out (near _ (omega arith) (omega (arith, skip-le m xs)))
                | inr stay ↦ rw stay (
                    rw (settle_stop _ (index + 1) 1 0 count c (omega arith))
                      (near _ (omega arith) (omega arith)))
              ])
      ]
  hint_loop_one (suc fuel) index direction count inside c (forward _ f p k) =
      let (x, at) = get_elem?_total xs index inside in
      elim (Bool-cases (less x.midashi m)) [
        | inl below ↦
            let k' = le_of_less m xs index at below in
            rw (round_below fuel index 1 1 count at below) (
              rw (ge→ltb index 1 p) (
                rw (settle_stop _ (index - 1) 0 1 count c (omega arith))
                  (near _ (omega arith) (omega arith))))
        | inr above ↦
            let k' = ge_of_not_less m xs index sorted at above in
            rw (round_above fuel index 1 1 count at above)
              (elim (Bool-cases (leb (length xs) (index + 1))) [
                | inl out ↦
                    let far = leb→le (length xs) (index + 1) out in
                    rw out (near _ (omega arith) (omega (arith, skip-le m xs)))
                | inr stay ↦
                    let room = leb→gt (length xs) (index + 1) stay in
                    rw stay (
                      rw settle_again (
                        hint_loop_one fuel (index + 1) 1 (count + 1) (omega arith) (omega arith)
                          (forward fuel (omega arith) (omega arith) (omega arith))))
              ])
      ]

  settle_first :
      (again : ℕ → ℕ → ℕ → ℕ → Result ℕ) (index diff direction previous : ℕ)
      → diff < 2
      → settle again index diff direction previous 0 ≡ again index 1 direction 1
  settle_first again index diff direction previous h =
      let e : diff / 2 ≡ 0 = omega arith in unfold settle in rw e

  settle_half :
      (again : ℕ → ℕ → ℕ → ℕ → Result ℕ) (index diff direction previous : ℕ)
      → 2 ≤ diff
      → settle again index diff direction previous 0 ≡ again index (diff / 2) direction 0
  unfolding settle
  settle_half again index diff direction previous h = ground arith

  -- The rounds in which `diff` is halved: the list reaches on both sides.
  hint_loop_wide :
      (fuel index diff previous : ℕ)
      → 0 < diff
      → 2 * diff ≤ index
      → index + 2 * diff ≤ length xs
      → diff + length xs < fuel
      → IsNear (skip m xs) (hint_loop fuel m xs index diff previous 0)
  hint_loop_wide zero index diff previous p lo hi f = absurd (omega arith)
  hint_loop_wide (suc fuel) index diff previous p lo hi f =
      let (x, at) = get_elem?_total xs index (omega arith) in
      elim (Bool-cases (less x.midashi m)) [
        | inl below ↦
            let k' = le_of_less m xs index at below in
            rw (round_below fuel index diff previous 0 at below) (
              rw (ge→ltb index diff (omega arith)) (elim (Bool-cases (ltb diff 2)) [
                | inl one ↦
                    let last = ltb→lt diff 2 one in
                    rw (settle_first _ (index - diff) diff 0 previous last) (
                      hint_loop_one fuel (index - diff) 0 1 (omega arith) (omega arith)
                        (backward fuel (omega arith) (omega arith)))
                | inr more ↦
                    let wide = ltb→ge diff 2 more in
                    rw (settle_half _ (index - diff) diff 0 previous wide) (
                      hint_loop_wide fuel (index - diff) (diff / 2) 0 (omega arith) (omega arith)
                        (omega arith) (omega arith))
              ]))
        | inr above ↦
            let k' = ge_of_not_less m xs index sorted at above in
            rw (round_above fuel index diff previous 0 at above) (
              rw (gt→leb (length xs) (index + diff) (omega arith)) (elim (Bool-cases (ltb diff 2)) [
                | inl one ↦
                    let last = ltb→lt diff 2 one in
                    rw (settle_first _ (index + diff) diff 1 previous last) (
                      hint_loop_one fuel (index + diff) 1 1 (omega arith) (omega arith)
                        (forward fuel (omega arith) (omega arith) (omega arith)))
                | inr more ↦
                    let wide = ltb→ge diff 2 more in
                    rw (settle_half _ (index + diff) diff 1 previous wide) (
                      hint_loop_wide fuel (index + diff) (diff / 2) 1 (omega arith) (omega arith)
                        (omega arith) (omega arith))
              ]))
      ]

  -- The binary search of four or more blocks, in descending order, ends and reads only inside the
  -- list, and returns an index at most two before the first block whose midashi is not above the one
  -- searched for, and never behind that block.
  pub binary_search-IsNear : 4 ≤ length xs → IsNear (skip m xs) (binary_search m xs)
  unfolding binary_search
  binary_search-IsNear h =
      hint_loop_wide _ (length xs / 2) (length xs / 2 / 2) 0 (omega arith) (omega arith)
        (omega arith) (omega arith)
