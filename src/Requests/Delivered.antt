-- ===== src/Requests/Delivered.antt =====
-- The requests of src/skk/yaskkserv2.rs against the bytes that the socket delivers.
use yaskkserv.Prelude.{
  ℕ, zero, suc, ◌+◌, ◌≤◌, ◌<◌, ◌≡◌, refl, sym, ap, ◌∙◌, subst, inl, inr, Bool, true, false, not,
  ◌&&◌, ◌||◌, Option, none, some, List, [], ◌∷◌, ◌++◌, append_assoc, append-nil, arith, ◌==◌,
  if◌then◌else◌, Option-cases, Bytes, length, take, drop, length-append, length-drop, length-take,
}
use yaskkserv.Substrings.{starts_with, IsFirst, TwoWay}
use yaskkserv.Substrings.Positions.{starts_with-length, shift}
use yaskkserv.Requests.{
  find_one_character_protocol, TwoWay, Arrival, chunk, interrupted, would_block, failed, Stream,
  Outcome, rounds, read_until, find_end,
}

-- The bytes of the reads to come, and of a socket.
abbrev pub bytes_of : List Arrival → Bytes
bytes_of [] = []
bytes_of (chunk c ∷ arrivals) = c ++ bytes_of arrivals
bytes_of (interrupted ∷ arrivals) = bytes_of arrivals
bytes_of (would_block ∷ arrivals) = bytes_of arrivals
bytes_of (failed ∷ arrivals) = bytes_of arrivals

abbrev pub delivers : Stream → Bytes
delivers s = s.buffered ++ bytes_of s.arrivals

abbrev pub Counts : ℕ → Bytes → Outcome → Type 0
Counts n got (inl e) = Unit {0}
Counts n got (inr read) = read ≡ n + length got

-- What was read stands at the end of the buffer, and was taken from the front of the socket.
abbrev pub Takes : ℕ → Bytes → Bytes → Outcome × Bytes × Stream → Type 0
Takes n buffer bytes (outcome, buffer', after) =
    (got : Bytes) × (buffer' ≡ buffer ++ got)
    × (bytes ≡ got ++ delivers after)
    × Counts n got outcome

take-drop : (n : ℕ) (xs : Bytes) → take n xs ++ drop n xs ≡ xs
take-drop zero xs = refl
take-drop (suc n) [] = refl
take-drop (suc n) (x ∷ xs) = ap (◌∷◌ x) (take-drop n xs)

choose-lt :
    (t u : Bool) (o : Option ℕ) (n i : ℕ)
    → ((j : ℕ) → o ≡ some j → j < n)
    → (if t then some 0 else if u then none else shift o) ≡ some i
    → i < suc n
choose-lt true u o n i h e = grind (arith, e)
choose-lt false true o n i h e = cc
choose-lt false false none n i h e = cc
choose-lt false false (some j) n i h e = grind (arith, e, h j refl)

find_one_character_protocol-lt :
    (c : Bytes) (i : ℕ) → find_one_character_protocol c ≡ some i → i < length c
unfolding find_one_character_protocol
find_one_character_protocol-lt [] i e = cc
find_one_character_protocol-lt (b ∷ c) i e =
    choose-lt (b == b'0' || b == b'2' || b == b'3') (not (b == b'\n') && not (b == b'\r'))
      (find_one_character_protocol c) (length c) i (find_one_character_protocol-lt c) e

module _ (w : TwoWay) where
  Takes-later :
      (n : ℕ) (buffer c bytes : Bytes) (r : Outcome × Bytes × Stream)
      → Takes (n + length c) (buffer ++ c) bytes r
      → Takes n buffer (c ++ bytes) r
  Takes-later n buffer c bytes (inl e, buffer', after) (got, e1, e2, e3) = (
    c ++ got,
    e1 ∙ append_assoc buffer c got,
    ap (◌++◌ c) e2 ∙ sym (append_assoc c got (delivers after)),
    tt,
  )
  Takes-later n buffer c bytes (inr k, buffer', after) (got, e1, e2, e3) = (
    c ++ got,
    e1 ∙ append_assoc buffer c got,
    ap (◌++◌ c) e2 ∙ sym (append_assoc c got (delivers after)),
    omega (arith, e3, length-append c got),
  )

  pub rounds-found :
      (n i : ℕ) (buffer c : Bytes) (arrivals : List Arrival)
      → find_end w c ≡ some i
      → rounds w n buffer (chunk c ∷ arrivals) ≡ (
        inr (n + (i + 1)),
        buffer ++ take (i + 1) c,
        record { buffered = drop (i + 1) c; arrivals = arrivals },
      )
  unfolding rounds
  rounds-found n i buffer c arrivals e = rw (e, rounds) refl

  rounds-closed :
      (n : ℕ) (buffer : Bytes) (arrivals : List Arrival)
      → find_end w [] ≡ none
      → rounds w n buffer (chunk [] ∷ arrivals)
        ≡ (inr n, buffer, record { buffered = []; arrivals = arrivals })
  unfolding rounds
  rounds-closed n buffer arrivals e = rw (e, rounds) refl

  pub rounds-more :
      (n b : ℕ) (buffer c : Bytes) (arrivals : List Arrival)
      → find_end w (b ∷ c) ≡ none
      → rounds w n buffer (chunk (b ∷ c) ∷ arrivals)
        ≡ rounds w (n + length (b ∷ c)) (buffer ++ (b ∷ c)) arrivals
  unfolding rounds
  rounds-more n b buffer c arrivals e =
      let long : (length (b ∷ c) == 0) ≡ false = ground arith in rw (e, long, rounds) refl

  find_end-lt : (c : Bytes) (i : ℕ) → find_end w c ≡ some i → i < length c
  unfolding find_end
  find_end-lt c i e = elim (Option-cases (w.find_bytes c (b' ' ∷ []))) [
    | inl none_found ↦ find_one_character_protocol-lt c i (rw (none_found, find_end) at e)
    | inr (j, e') ↦
        let same : some j ≡ some i = rw (e', find_end) at e in
        let first : starts_with (b' ' ∷ []) (drop j c) ≡ true =
          (subst (IsFirst c (b' ' ∷ [])) e' (w.find_bytes-IsFirst c (b' ' ∷ []))).0 in
        let there : 1 ≤ length (drop j c) = starts_with-length (b' ' ∷ []) (drop j c) first in
        grind (arith, length-drop j c, there, same)
  ]

  Takes-found :
      (n i : ℕ) (buffer c : Bytes) (arrivals : List Arrival)
      → i < length c
      → Takes n buffer (c ++ bytes_of arrivals) (
        inr (n + (i + 1)),
        buffer ++ take (i + 1) c,
        record { buffered = drop (i + 1) c; arrivals = arrivals },
      )
  Takes-found n i buffer c arrivals lt = (
    take (i + 1) c,
    refl,
    ap (λ s. s ++ bytes_of arrivals) (sym (take-drop (i + 1) c))
        ∙ append_assoc (take (i + 1) c) (drop (i + 1) c) (bytes_of arrivals),
    omega (arith, length-take (i + 1) c, lt),
  )

  rounds-Takes :
      (n : ℕ) (buffer : Bytes) (arrivals : List Arrival)
      → Takes n buffer (bytes_of arrivals) (rounds w n buffer arrivals)
  unfolding rounds
  rounds-Takes n buffer [] = ([], sym (append-nil buffer), refl, tt)
  rounds-Takes n buffer (chunk [] ∷ arrivals) = elim (Option-cases (find_end w [])) [
    | inl e ↦
        subst (Takes n buffer (bytes_of arrivals)) (sym (rounds-closed n buffer arrivals e))
          ([], sym (append-nil buffer), refl, omega arith)
    | inr (i, e) ↦ absurd (omega (arith, find_end-lt [] i e))
  ]
  rounds-Takes n buffer (chunk (b ∷ c) ∷ arrivals) = elim (Option-cases (find_end w (b ∷ c))) [
    | inl e ↦
        subst (Takes n buffer (b ∷ c ++ bytes_of arrivals))
          (sym (rounds-more n b buffer c arrivals e))
          (Takes-later n buffer (b ∷ c) (bytes_of arrivals)
            (rounds w (n + length (b ∷ c)) (buffer ++ (b ∷ c)) arrivals)
            (rounds-Takes (n + length (b ∷ c)) (buffer ++ (b ∷ c)) arrivals))
    | inr (i, e) ↦
        subst (Takes n buffer (b ∷ c ++ bytes_of arrivals))
          (sym (rounds-found n i buffer (b ∷ c) arrivals e))
          (Takes-found n i buffer (b ∷ c) arrivals (find_end-lt (b ∷ c) i e))
  ]
  rounds-Takes n buffer (interrupted ∷ arrivals) = rounds-Takes n buffer arrivals
  rounds-Takes n buffer (would_block ∷ arrivals) = ([], sym (append-nil buffer), refl, tt)
  rounds-Takes n buffer (failed ∷ arrivals) = ([], sym (append-nil buffer), refl, tt)

  -- Whatever the outcome, the bytes that a call reads are appended to the buffer as they were
  -- delivered, the others stay with the socket, and a count that is returned is theirs.
  pub read_until-Takes :
      (s : Stream) (buffer : Bytes) → Takes 0 buffer (delivers s) (read_until w s buffer)
  unfolding read_until
  read_until-Takes s buffer = go s.buffered s.arrivals
    where
      go :
          (buffered : Bytes) (arrivals : List Arrival)
          → Takes 0 buffer (buffered ++ bytes_of arrivals) (
              if length buffered == 0
              then rounds w 0 buffer arrivals
              else rounds w 0 buffer (chunk buffered ∷ arrivals))
      go [] arrivals = rounds-Takes 0 buffer arrivals
      go (b ∷ c) arrivals =
          let long : (length (b ∷ c) == 0) ≡ false = ground arith in
          rw long (rounds-Takes 0 buffer (chunk (b ∷ c) ∷ arrivals))
