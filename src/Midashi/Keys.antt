-- ===== src/Midashi/Keys.antt =====
-- The key of a midashi and the okuri-ari test of src/skk, against what a midashi looks like.
use yaskkserv.Prelude.{
  ℕ, ◌+◌, ◌-◌, ◌≤◌, ◌≡◌, ap, Bool, true, false, ◌&&◌, [], ◌∷◌, ◌++◌, arith, leb, ◌==◌, Bytes,
  within, length, length-append, take-append, ok,
}
use yaskkserv.Midashi.{get_midashi}

-- The midashi of a request is what stands between the protocol byte and the last byte.
pub get_midashi-request :
    (protocol last : ℕ) (midashi : Bytes)
    → get_midashi (protocol ∷ midashi ++ last ∷ []) ≡ ok midashi
unfolding get_midashi
get_midashi-request protocol last midashi =
    let buffer : Bytes = protocol ∷ midashi ++ last ∷ [] in
    let size : length buffer ≡ length midashi + 2 =
      omega (arith, length-append midashi (last ∷ [])) in
    let some_bytes : (length buffer == 0) ≡ false = ground (arith, size) in
    let inside : (leb 1 (length buffer - 1) && leb (length buffer - 1) (length buffer)) ≡ true =
      ground (arith, size) in
    let inner : length buffer - 1 - 1 ≡ length midashi = omega (arith, size) in
    rw (some_bytes, inside, inner) (ap ok (take-append midashi (last ∷ [])))

abbrev ends_okuri_ari : ℕ → ℕ → ℕ → Bool
ends_okuri_ari first kana letter = within b'a' b'z' letter && within 0xa1 0xf3 kana && first == 0xa4

abbrev pub IsOkuriAri : Bytes → Type 0
IsOkuriAri m =
    (stem : Bytes) × (kana letter : ℕ) × (m ≡ stem ++ 0xa4 ∷ kana ∷ letter ∷ [])
    × (0xa1 ≤ kana)
    × (kana ≤ 0xf3)
    × (b'a' ≤ letter)
    × (letter ≤ b'z')
