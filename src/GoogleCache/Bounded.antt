-- ===== src/GoogleCache/Bounded.antt =====
-- The size of the cache of src/skk/yaskkserv2/google_cache.rs.
use yaskkserv.Prelude.{
  ℕ, ◌+◌, ◌-◌, ◌%◌, ◌^◌, ◌≤◌, ◌<◌, ◌≡◌, refl, ◌⊎◌, inl, inr, some, List, [], ◌∷◌, arith, ltb,
  ltb→lt, ltb→ge, Bool-cases, Bytes, equal, equal_self, less, length, All, ◌>>=◌, ok,
}
use yaskkserv.GoogleCache.{
  should_write, write_candidates, expired, remove_oldest, Cache, Libraries, cache_get, cache_insert,
  cache_remove, time_of, after_limit, oldest,
}

abbrev pub Present : Bytes → Cache → Type 0
Present midashi cache = (v : List Bytes) × (cache_get midashi cache ≡ some v)

Present-cons :
    (midashi k : Bytes) (v : List Bytes) (rest : Cache)
    → Present midashi rest
    → Present midashi ((k, v) ∷ rest)
unfolding cache_get
Present-cons midashi k v rest (u, at) = elim (Bool-cases (equal midashi k)) [
  | inl same ↦ rw same (v, refl)
  | inr other ↦ rw other (u, at)
]

pub length-cache_insert :
    (midashi : Bytes) (v : List Bytes) (cache : Cache)
    → length (cache_insert midashi v cache) ≤ length cache + 1
unfolding cache_insert
length-cache_insert midashi v [] = omega arith
length-cache_insert midashi v ((k, u) ∷ rest) = elim (Bool-cases (equal midashi k)) [
  | inl same ↦ rw same (omega arith)
  | inr other ↦ elim (Bool-cases (less midashi k)) [
    | inl below ↦ rw (other, below) (omega arith)
    | inr above ↦ rw (other, above) (omega (arith, length-cache_insert midashi v rest))
  ]
]

length-cache_remove :
    (midashi : Bytes) (cache : Cache)
    → Present midashi cache
    → length (cache_remove midashi cache) + 1 ≡ length cache
unfolding cache_remove cache_get
length-cache_remove midashi [] (v, at) = cc
length-cache_remove midashi ((k, u) ∷ rest) (v, at) = elim (Bool-cases (equal midashi k)) [
  | inl same ↦ rw same (omega arith)
  | inr other ↦
      let later : cache_get midashi rest ≡ some v = rw other at at in
      rw other (omega (arith, length-cache_remove midashi rest (v, later)))
]

module _ (l : Libraries) where
  -- Every value starts with a time that can be read.
  abbrev pub HasTime : Bytes × List Bytes → Type 0
  HasTime (k, v) = (t : ℕ) × (time_of l v ≡ ok t)

  pub after_limit-All :
      (limit : ℕ) (cache : Cache)
      → All HasTime cache
      → (kept : Cache) × (after_limit l limit cache ≡ ok kept)
        × (length kept ≤ length cache)
        × All HasTime kept
  unfolding after_limit
  after_limit-All limit [] times = ([], refl, omega arith, tt)
  after_limit-All limit ((k, v) ∷ rest) ((t, at), times) =
      let (kept, done, few, good) = after_limit-All limit rest times in
      elim (Bool-cases (ltb limit t)) [
        | inl young ↦
            ((k, v) ∷ kept, rw (at, ◌>>=◌, done, young) refl, omega (arith, few), ((t, at), good))
        | inr old ↦ (kept, rw (at, ◌>>=◌, done, old) refl, omega (arith, few), good)
      ]

  oldest-Present :
      (midashi : Bytes) (time : ℕ) (rest : Cache)
      → All HasTime rest
      → (found : Bytes) × (t : ℕ) × (oldest l (midashi, time) rest ≡ ok (found, t))
        × ((found ≡ midashi) ⊎ Present found rest)
  unfolding oldest cache_get
  oldest-Present midashi time [] times = (midashi, time, refl, inl refl)
  oldest-Present midashi time ((k, v) ∷ rest) ((t, at), times) = elim (Bool-cases (ltb t time)) [
    | inl older ↦
        let (found, t', done, where') = oldest-Present k t rest times in
        (
          found,
          t',
          rw (at, ◌>>=◌, older) done,
          elim where' [
            | inl same ↦ inr (v, rw (same, equal_self k) refl)
            | inr later ↦ inr (Present-cons found k v rest later)
          ],
        )
    | inr newer ↦
        let (found, t', done, where') = oldest-Present midashi time rest times in
        (
          found,
          t',
          rw (at, ◌>>=◌, newer) done,
          elim where' [ inl same ↦ inl same | inr later ↦ inr (Present-cons found k v rest later) ],
        )
  ]

  remove_oldest-shorter :
      (cache : Cache)
      → All HasTime cache
      → 0 < length cache
      → (kept : Cache) × (remove_oldest l cache ≡ ok kept) × (length kept + 1 ≡ length cache)
  unfolding remove_oldest cache_get
  remove_oldest-shorter [] times some' = absurd (omega (arith, some'))
  remove_oldest-shorter ((k, v) ∷ rest) ((t, at), times) some' =
      let (found, t', done, where') = oldest-Present k t rest times in
      let here : Present found ((k, v) ∷ rest) = elim where' [
        | inl same ↦ (v, rw (same, equal_self k) refl)
        | inr later ↦ Present-cons found k v rest later
      ] in
      (
        cache_remove found ((k, v) ∷ rest),
        rw (at, ◌>>=◌, done) refl,
        length-cache_remove found ((k, v) ∷ rest) here,
      )

  -- What is kept of a cache that is one entry too long is not.
  expired-bounded :
      (now cache_entries seconds : ℕ) (cache : Cache)
      → All HasTime cache
      → length cache ≤ cache_entries + 1
      → (kept : Cache) × (expired l now cache_entries seconds cache ≡ ok kept)
        × (length kept ≤ cache_entries)
  unfolding expired
  expired-bounded now cache_entries seconds cache times few =
      let (kept, done, fewer, good) =
        after_limit-All ((now + 2 ^ 64 - seconds) % 2 ^ 64) cache times in
      elim (Bool-cases (ltb cache_entries (length kept))) [
        | inl many ↦
            let (rest, removed, shorter) =
              remove_oldest-shorter kept good (omega (arith, ltb→lt _ _ many)) in
            (rest, rw (done, ◌>>=◌, many) removed, omega (arith, shorter, few, fewer))
        | inr enough ↦ (kept, rw (done, ◌>>=◌, enough) refl, ltb→ge _ _ enough)
      ]

  pub cache_insert-All :
      (midashi : Bytes) (v : List Bytes) (cache : Cache)
      → HasTime (midashi, v)
      → All HasTime cache
      → All HasTime (cache_insert midashi v cache)
  unfolding cache_insert
  cache_insert-All midashi v [] time times = (time, tt)
  cache_insert-All midashi v ((k, u) ∷ rest) time times = elim (Bool-cases (equal midashi k)) [
    | inl same ↦ rw same (time, times.1)
    | inr other ↦ elim (Bool-cases (less midashi k)) [
      | inl below ↦ rw (other, below) (time, times)
      | inr above ↦ rw (other, above) (times.0, cache_insert-All midashi v rest time times.1)
    ]
  ]

  -- The cache never grows past its number of entries: where it has not before a write and its
  -- times can be read, it has not after it, whatever the file does.
  pub write_candidates-bounded :
      (midashi : Bytes) (candidates : List Bytes) (cache_entries seconds now : ℕ) (cache : Cache)
      → l.parse_or_zero_u64 (l.to_string now) ≡ ok now
      → All HasTime cache
      → length cache ≤ cache_entries
      → length (write_candidates l midashi candidates cache_entries seconds now cache).1
        ≤ cache_entries
  unfolding write_candidates
  write_candidates-bounded midashi candidates cache_entries seconds now cache digits times few =
      let inserted = cache_insert midashi (l.to_string now ∷ candidates) cache in
      let (kept, done, bounded) =
        expired-bounded now cache_entries seconds inserted
          (cache_insert-All midashi (l.to_string now ∷ candidates) cache (now, digits) times)
          (omega (arith, few, length-cache_insert midashi (l.to_string now ∷ candidates) cache)) in
      elim (Bool-cases (should_write midashi candidates cache)) [
        | inl needed ↦ rw (needed, done) bounded
        | inr same ↦ rw same few
      ]
