-- ===== src/Substrings/Slices.antt =====
-- The slices of src/skk around a part of a buffer whose place is known.
use yaskkserv.Prelude.{
  ℕ, ◌+◌, ◌-◌, ◌≤◌, ◌≡◌, refl, ap, ◌++◌, arith, le→leb, Bytes, length, take, length-append,
  take-append, drop-append, ok,
}
use yaskkserv.Substrings.{slice_from, slice}

pub slice_from-append :
    (pre rest : Bytes) {n : ℕ} → n ≡ length pre → slice_from (pre ++ rest) n ≡ ok rest
slice_from-append pre rest h = rw h (
    rw (le→leb (length pre) (length (pre ++ rest)) (omega (arith, length-append pre rest)))
      (ap ok (drop-append pre rest)))

pub slice-append :
    (pre mid post : Bytes) {from to : ℕ}
    → from ≡ length pre
    → to ≡ from + length mid
    → slice (pre ++ (mid ++ post)) from to ≡ ok mid
slice-append pre mid post {from = from} {to = to} h k =
    let inside : to ≤ length (pre ++ (mid ++ post)) =
      omega (arith, length-append pre (mid ++ post), length-append mid post, h, k) in
    let width : to - from ≡ length mid = omega (arith, k) in
    rw
      (
        le→leb from to (omega (arith, k)),
        le→leb to (length (pre ++ (mid ++ post))) inside,
        width,
        h,
        drop-append pre (mid ++ post),
        take-append mid post,
      )
      refl

pub slice-take : (xs : Bytes) {n m : ℕ} → n ≡ m → m ≤ length xs → slice xs 0 n ≡ ok (take m xs)
slice-take xs {n = n} {m = m} same h =
    let width : n - 0 ≡ m = omega (arith, same) in
    rw (le→leb 0 n (omega arith), le→leb n (length xs) (omega (arith, same, h)), width) refl
