-- ===== src/GoogleCache/Stored.antt =====
-- What the cache of src/skk/yaskkserv2/google_cache.rs gives back.
use yaskkserv.Prelude.{
  ℕ, suc, ◌+◌, ◌-◌, ◌%◌, ◌^◌, ◌≤◌, ◌<◌, ◌≡◌, refl, sym, ap, ◌∙◌, inl, inr, true, false, some, List,
  [], ◌∷◌, ◌++◌, arith, ltb, leb, lt→ltb, ge→ltb, le→leb, Bool-cases, Bytes, equal, equal_self,
  less, length, take, drop, length-append, take-append, drop-append, All, ◌>>=◌, ok,
}
use yaskkserv.GoogleCache.{
  same_candidates, Cache, Libraries, digest_length, cache_get, cache_insert, get_candidates,
  should_write, time_of, after_limit, expired, write, read, write_candidates,
}
use yaskkserv.GoogleCache.Bounded.{length-cache_insert, cache_insert-All, after_limit-All, HasTime}

cache_get-insert :
    (midashi : Bytes) (v : List Bytes) (cache : Cache)
    → cache_get midashi (cache_insert midashi v cache) ≡ some v
unfolding cache_get cache_insert
cache_get-insert midashi v [] = rw (equal_self midashi) refl
cache_get-insert midashi v ((k, u) ∷ rest) = elim (Bool-cases (equal midashi k)) [
  | inl same ↦ rw same (rw same refl)
  | inr other ↦ elim (Bool-cases (less midashi k)) [
    | inl below ↦ rw (other, below, equal_self midashi) refl
    | inr above ↦ rw (other, above) (rw other (cache_get-insert midashi v rest))
  ]
]

module _ (l : Libraries) where
  after_limit-get :
      (limit : ℕ) (midashi : Bytes) (v : List Bytes) (t : ℕ) (cache : Cache)
      → All (HasTime l) cache
      → cache_get midashi cache ≡ some v
      → time_of l v ≡ ok t
      → limit < t
      → (kept : Cache) × (after_limit l limit cache ≡ ok kept)
        × (length kept ≤ length cache)
        × (cache_get midashi kept ≡ some v)
  unfolding cache_get after_limit
  after_limit-get limit midashi v t [] times at time young = cc
  after_limit-get limit midashi v t ((k, u) ∷ rest) ((t', at'), times) at time young =
      elim (Bool-cases (equal midashi k)) [
        | inl same ↦
            let (kept, done, few, good) = after_limit-All l limit rest times in
            let here : some u ≡ some v = rw same at at in
            let now' : t' ≡ t = cc (at', time, here) in
            let later : ltb limit t' ≡ true = lt→ltb limit t' (omega (arith, young, now')) in
            ((k, u) ∷ kept, rw (at', ◌>>=◌, done, later) refl, omega (arith, few), rw same here)
        | inr other ↦
            let there : cache_get midashi rest ≡ some v = rw other at at in
            let (kept, done, few, found) =
              after_limit-get limit midashi v t rest times there time young in
            elim (Bool-cases (ltb limit t')) [
              | inl young' ↦ (
                (k, u) ∷ kept,
                rw (at', ◌>>=◌, done, young') refl,
                omega (arith, few),
                rw other found,
              )
              | inr old ↦ (kept, rw (at', ◌>>=◌, done, old) refl, omega (arith, few), found)
            ]
      ]

  -- What is written is found: where the cache has room, its times can be read and candidates are
  -- not at once expired, the candidates of a write that is needed are those that the cache gives.
  pub get_candidates-write_candidates :
      (midashi candidate : Bytes) (candidates : List Bytes) (cache_entries seconds now : ℕ)
      (cache : Cache)
      → l.parse_or_zero_u64 (l.to_string now) ≡ ok now
      → All (HasTime l) cache
      → length cache < cache_entries
      → 0 < seconds
      → seconds ≤ now
      → now < 2 ^ 64
      → should_write midashi (candidate ∷ candidates) cache ≡ true
      → get_candidates midashi
          (write_candidates l midashi (candidate ∷ candidates) cache_entries seconds now cache).1
        ≡ candidate ∷ candidates
  unfolding write_candidates get_candidates expired
  get_candidates-write_candidates midashi candidate candidates cache_entries seconds now cache
        digits times room pos past now' needed =
      let v = l.to_string now ∷ candidate ∷ candidates in
      let inserted = cache_insert midashi v cache in
      let limit : (now + 2 ^ 64 - seconds) % 2 ^ 64 < now = omega (arith, pos, past, now') in
      let (kept, done, few, found) =
        after_limit-get ((now + 2 ^ 64 - seconds) % 2 ^ 64) midashi v now inserted
          (cache_insert-All l midashi v cache (now, digits) times)
          (cache_get-insert midashi v cache) digits limit in
      let roomy : ltb cache_entries (length kept) ≡ false =
        ge→ltb _ _ (omega (arith, few, room, length-cache_insert midashi v cache)) in
      rw (needed, done, ◌>>=◌, roomy, found) refl

  -- What `write` puts into a file, `read` gives back, where `bincode` gives back what it was given
  -- and makes nothing shorter than an empty map, and a digest has 20 bytes.
  pub read-write :
      (cache : Cache) (s empty : Bytes)
      → l.serialize cache ≡ ok s
      → l.serialize [] ≡ ok empty
      → length empty ≤ length s
      → l.deserialize s ≡ ok cache
      → length (l.sha1 s) ≡ digest_length
      → (write l cache >>= read l) ≡ ok cache
  unfolding read write
  read-write cache s empty made nothing more back digest =
      let long : leb (digest_length + length empty) (length (l.sha1 s ++ s)) ≡ true =
        le→leb _ _ (omega (arith, length-append (l.sha1 s) s, digest, more)) in
      let rest : drop digest_length (l.sha1 s ++ s) ≡ s =
        ap (λ n. drop n (l.sha1 s ++ s)) (sym digest) ∙ drop-append (l.sha1 s) s in
      let first : take digest_length (l.sha1 s ++ s) ≡ l.sha1 s =
        ap (λ n. take n (l.sha1 s ++ s)) (sym digest) ∙ take-append (l.sha1 s) s in
      rw (made, ◌>>=◌, nothing, long, rest, first, equal_self (l.sha1 s)) back

same_candidates-length : (us vs : List Bytes) → same_candidates us vs ≡ true → length us ≡ length vs
same_candidates-length [] [] h = refl
same_candidates-length [] (v ∷ vs) h = cc
same_candidates-length (u ∷ us) [] h = cc
same_candidates-length (u ∷ us) (v ∷ vs) h = elim (Bool-cases (equal u v)) [
  | inl same ↦ ap suc (same_candidates-length us vs (rw same at h))
  | inr other ↦ absurd (ground (arith, h, other))
]

-- Candidates that are in the cache are still written again, whatever time they have: they are
-- compared with the vector that has the time in front.
pub should_write-insert :
    (midashi time : Bytes) (candidates : List Bytes) (cache : Cache)
    → should_write midashi candidates (cache_insert midashi (time ∷ candidates) cache) ≡ true
unfolding should_write
should_write-insert midashi time candidates cache =
    rw (should_write, cache_get-insert midashi (time ∷ candidates) cache)
      (elim (Bool-cases (same_candidates candidates (time ∷ candidates))) [
        | inl same ↦
            absurd (omega (arith, same_candidates-length candidates (time ∷ candidates) same))
        | inr other ↦ rw other refl
      ])
