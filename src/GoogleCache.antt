-- ===== src/GoogleCache.antt =====
-- The cache of the candidates of Google: src/skk/yaskkserv2/google_cache.rs. The `BTreeMap` is a
-- list in the order of its keys. A value is the time of its writing, in digits, and the candidates.
-- The time, the digits of a `u64`, `bincode` and the digest of the `sha1` crate are arguments.
pub mod Bounded
pub mod Stored
mod Tests
use yaskkserv.Prelude.{
  ℕ, ◌+◌, ◌-◌, ◌%◌, ◌^◌, Bool, true, false, not, ◌&&◌, Option, none, some, List, [], ◌∷◌, ◌++◌, ltb,
  leb, if◌then◌else◌, Bytes, equal, less, length, get_elem?, take, drop, Result, ◌>>=◌, ◌>>◌,
  unwrap, broken_cache, ok, err, panic, out_of_fuel,
}

abbrev pub Cache : Type 0
Cache = List (Bytes × List Bytes)

-- The libraries: `to_string`, `String::from_utf8(...).unwrap().parse::<u64>().unwrap_or(0)`,
-- `bincode::serialize` and `deserialize` on the map, and the digest of SHA-1.
pub record Libraries : Type 0 where
  pub to_string : ℕ → Bytes
  pub parse_or_zero_u64 : Bytes → Result ℕ
  pub serialize : Cache → Result Bytes
  pub deserialize : Bytes → Result Cache
  pub sha1 : Bytes → Bytes

abbrev pub digest_length : ℕ
digest_length = 20

unfoldable pub cache_get : Bytes → Cache → Option (List Bytes)
cache_get midashi [] = none
cache_get midashi ((k, v) ∷ rest) =
    let later = cache_get midashi rest in if equal midashi k then some v else later

unfoldable pub cache_insert : Bytes → List Bytes → Cache → Cache
cache_insert midashi v [] = (midashi, v) ∷ []
cache_insert midashi v ((k, u) ∷ rest) =
    let later = cache_insert midashi v rest in
    if equal midashi k
    then (k, v) ∷ rest
    else if less midashi k
    then (midashi, v) ∷ (k, u) ∷ rest
    else (k, u) ∷ later

unfoldable pub cache_remove : Bytes → Cache → Cache
cache_remove midashi [] = []
cache_remove midashi ((k, v) ∷ rest) =
    let later = cache_remove midashi rest in if equal midashi k then rest else (k, v) ∷ later

-- The time is left out; without candidates behind it there is nothing.
abbrev without_time : Option (List Bytes) → List Bytes
without_time (some (time ∷ candidate ∷ candidates)) = candidate ∷ candidates
without_time _ = []

unfoldable pub get_candidates : Bytes → Cache → List Bytes
get_candidates midashi cache = without_time (cache_get midashi cache)

-- `==` on vectors of byte strings.
abbrev pub same_candidates : List Bytes → List Bytes → Bool
same_candidates [] [] = true
same_candidates (u ∷ us) (v ∷ vs) = equal u v && same_candidates us vs
same_candidates _ _ = false

-- The vector in the cache has the time in front.
unfoldable pub should_write : Bytes → List Bytes → Cache → Bool
should_write midashi candidates cache = elim (cache_get midashi cache) [
  | some cached ↦ not (same_candidates candidates cached)
  | none ↦ true
]

module _ (l : Libraries) where
  -- `parse_or_zero_u64(&v[0])`.
  abbrev pub time_of : List Bytes → Result ℕ
  time_of v = unwrap (get_elem? v 0) >>= λ time. l.parse_or_zero_u64 time

  -- The filter: what was written after the limit stays.
  unfoldable pub after_limit : ℕ → Cache → Result Cache
  after_limit limit [] = ok []
  after_limit limit ((k, v) ∷ rest) = do
    time ← time_of v
    kept ← after_limit limit rest
    ok (if ltb limit time then (k, v) ∷ kept else kept)

  -- `min_by`: the first of the oldest.
  unfoldable pub oldest : Bytes × ℕ → Cache → Result (Bytes × ℕ)
  oldest (midashi, time) [] = ok (midashi, time)
  oldest (midashi, time) ((k, v) ∷ rest) = do
    time' ← time_of v
    oldest (if ltb time' time then (k, time') else (midashi, time)) rest

  unfoldable pub remove_oldest : Cache → Result Cache
  remove_oldest [] = ok []
  remove_oldest ((k, v) ∷ rest) = do
    time ← time_of v
    (midashi, _) ← oldest (k, time) rest
    ok (cache_remove midashi ((k, v) ∷ rest))

  -- `unix_time_now - cache_expire_seconds` is a subtraction of `u64`, which wraps.
  unfoldable pub expired : ℕ → ℕ → ℕ → Cache → Result Cache
  expired unix_time_now cache_entries cache_expire_seconds cache = do
    expired_map ← after_limit ((unix_time_now + 2 ^ 64 - cache_expire_seconds) % 2 ^ 64) cache
    (if ltb cache_entries (length expired_map) then remove_oldest expired_map else ok expired_map)

  -- The bytes that `write` puts into the file.
  unfoldable pub write : Cache → Result Bytes
  write map' = do serialized_map ← l.serialize map'; ok (l.sha1 serialized_map ++ serialized_map)

  -- `read`, on the bytes of the file.
  unfoldable pub read : Bytes → Result Cache
  read buffer = do
    serialized_empty_map ← l.serialize []
    (if leb (digest_length + length serialized_empty_map) (length buffer)
          && equal (l.sha1 (drop digest_length buffer)) (take digest_length buffer)
        then l.deserialize (drop digest_length buffer)
        else err broken_cache)

  -- `setup_use_rwlock_internally`: a file that cannot be opened or read gives an empty map.
  unfoldable pub setup : Option Bytes → Cache
  setup none = []
  setup (some buffer) = elim (read buffer) [ ok map' ↦ map' | _ ↦ [] ]

  -- What the call ends with, the bytes written if any, and the cache it leaves.
  unfoldable pub write_candidates :
      Bytes → List Bytes → ℕ → ℕ → ℕ → Cache → Result (Option Bytes) × Cache
  write_candidates midashi candidates cache_entries cache_expire_seconds unix_time_now cache =
      let inserted = cache_insert midashi (l.to_string unix_time_now ∷ candidates) cache in
      if should_write midashi candidates cache
      then elim (expired unix_time_now cache_entries cache_expire_seconds inserted) [
        | ok expired_map ↦ ((write expired_map >>= λ bytes. ok (some bytes)), expired_map)
        | err reason ↦ (err reason, inserted)
        | panic ↦ (panic, inserted)
        | out_of_fuel ↦ (out_of_fuel, inserted)
      ]
      else (ok none, cache)
