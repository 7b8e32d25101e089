-- ===== src/DictionaryFiles/Cache.antt =====
-- The cached block of src/skk/yaskkserv2.rs against the file it was read from.
use yaskkserv.Prelude.{
  ℕ, ◌≤◌, ◌≡◌, refl, sym, ap, ◌∙◌, ◌⊎◌, inl, inr, true, false, ◌&&◌, arith, ◌==◌, Bool-cases, Bytes,
  length, take, drop, take-append, io, ok, err,
}
use yaskkserv.DictionaryFiles.{
  Exactly, filled, failed, DictionaryFile, File, read, refill, overwrite, grown,
}

-- `read_exact` fills the slice it is given, or fails within it.
abbrev pub IsExact : ℕ → Exactly → Type 0
IsExact n (filled bytes) = length bytes ≡ n
IsExact n (failed bytes) = length bytes ≤ n

abbrev pub AnswersExactly : File → Type 0
AnswersExactly file = (seek n : ℕ) → IsExact n (file seek n)

-- The bytes a sound file holds there.
abbrev pub Holds : File → ℕ → ℕ → Bytes → Type 0
Holds file seek n bytes = file seek n ≡ filled bytes

-- The buffer holds what the file holds at the position that is noted.
pub record IsCached (file : File) (d : DictionaryFile) : Type 0 where
  pub bytes : Bytes
  pub there : Holds file d.seek_position d.read_length bytes
  pub kept : take d.read_length d.buffer ≡ bytes

refill-filled :
    (file : File) (seek n : ℕ) (bytes : Bytes) (d : DictionaryFile)
    → AnswersExactly file
    → Holds file seek n bytes
    → (after : DictionaryFile) × (refill (file seek n) seek n d ≡ (ok bytes, after))
      × IsCached file after
unfolding refill
refill-filled file seek n bytes d exact there = rw there (
  record { seek_position = seek; read_length = n; buffer = overwrite bytes (grown n d.buffer) },
  ap
      (λ kept. (
        ok kept,
        record {
          seek_position = seek;
          read_length = n;
          buffer = overwrite bytes (grown n d.buffer);
        },
      ))
      kept,
  record { bytes = bytes; there = there; kept = kept },
)
  where
    long : length bytes ≡ n
    long = rw there at (exact seek n)

    kept : take n (overwrite bytes (grown n d.buffer)) ≡ bytes
    kept =
        ap (λ k. take k (overwrite bytes (grown n d.buffer))) (sym long)
        ∙ take-append bytes (drop (length bytes) (grown n d.buffer))

-- A read of a range that the file holds gives the bytes there, from the buffer or from the file,
-- and leaves the buffer in step with the file.
pub read-IsCached :
    (file : File) (seek n : ℕ) (bytes : Bytes) (d : DictionaryFile)
    → AnswersExactly file
    → IsCached file d
    → Holds file seek n bytes
    → (after : DictionaryFile) × (read file seek n d ≡ (ok bytes, after)) × IsCached file after
unfolding read
read-IsCached file seek n bytes d exact cached there =
    elim (Bool-cases (d.seek_position == seek && d.read_length == n)) [
      | inl e ↦ rw e (d, ap (λ kept. (ok kept, d)) (hit e), cached)
      | inr e ↦ rw e (refill-filled file seek n bytes d exact there)
    ]
  where
    hit : (d.seek_position == seek && d.read_length == n) ≡ true → take n d.buffer ≡ bytes
    hit e =
        let s : d.seek_position ≡ seek = ground (arith, e) in
        let l : d.read_length ≡ n = ground (arith, e) in cc (cached.kept, cached.there, there, s, l)

-- A read of a range other than the cached one, which the file refuses, gives an error; made again,
-- the same read succeeds although the file would refuse it again.
pub read-failed_again :
    (file : File) (seek n : ℕ) (left : Bytes) (d : DictionaryFile)
    → (d.seek_position == seek && d.read_length == n) ≡ false
    → file seek n ≡ failed left
    → ((read file seek n d).0 ≡ err io)
      × ((stale : Bytes) × ((read file seek n (read file seek n d).1).0 ≡ ok stale))
unfolding read refill
read-failed_again file seek n left d other refused =
    let again : (seek == seek && n == n) ≡ true = ground arith in
    rw (other, refused, again) (refl, (_, refl))

-- A read never panics: it gives bytes or the error of the file.
pub read_ok-or-io :
    (file : File) (seek n : ℕ) (d : DictionaryFile)
    → ((bytes : Bytes) × ((read file seek n d).0 ≡ ok bytes)) ⊎ ((read file seek n d).0 ≡ err io)
unfolding read refill
read_ok-or-io file seek n d = elim (Bool-cases (d.seek_position == seek && d.read_length == n)) [
  | inl e ↦ rw e (inl (take n d.buffer, refl))
  | inr e ↦ rw e (go (file seek n))
]
  where
    go :
        (x : Exactly)
        → ((bytes : Bytes) × ((refill x seek n d).0 ≡ ok bytes)) ⊎ ((refill x seek n d).0 ≡ err io)
    go (filled bytes) = inl (_, refl)
    go (failed bytes) = inr refl
