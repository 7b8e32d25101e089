-- ===== src/GoogleCache/Tests.antt =====
-- Tests of the cache of src/skk/yaskkserv2/google_cache.rs, with numbers for the digits of times
-- and an empty map for `bincode`.
use yaskkserv.Prelude.{
  ℕ, ◌≤◌, ◌≡◌, refl, true, List, [], ◌∷◌, ◌++◌, arith, Bytes, codes, equal, length, replicate,
  Result, ◌>>=◌, ok,
}
use yaskkserv.GoogleCache.{
  cache_get, Cache, Libraries, get_candidates, should_write, cache_insert, write_candidates, write,
  read, digest_length,
}
use yaskkserv.GoogleCache.Bounded.{write_candidates-bounded}
use yaskkserv.GoogleCache.Stored.{get_candidates-write_candidates, read-write, should_write-insert}

abbrev number : Bytes → Result ℕ
number [] = ok 0
number (n ∷ _) = ok n

-- The lengths of keys and values tell how to take them apart again.
abbrev put : Bytes → Bytes
put b = length b ∷ b

abbrev put_all : List Bytes → Bytes
put_all [] = []
put_all (v ∷ vs) = put v ++ put_all vs

abbrev serialize : Cache → Bytes
serialize [] = []
serialize ((k, v) ∷ rest) = put k ++ (length v ∷ put_all v ++ serialize rest)

-- Enough of an inverse for maps of one entry of one time and one candidate.
abbrev deserialize : Bytes → Result Cache
deserialize (_ ∷ k ∷ _ ∷ _ ∷ t ∷ _ ∷ c ∷ []) = ok ((k ∷ [], (t ∷ []) ∷ (c ∷ []) ∷ []) ∷ [])
deserialize _ = ok []

abbrev libraries : Libraries
libraries = record {
  to_string = λ n. n ∷ [];
  parse_or_zero_u64 = number;
  serialize = λ cache. ok (serialize cache);
  deserialize = deserialize;
  sha1 = λ b. replicate digest_length (length b);
}

abbrev cache : Cache
cache = (codes "b", (100 ∷ []) ∷ codes "c" ∷ []) ∷ []

-- Two entries are one too many: the older goes.
write_candidates-bounded_example :
    length (write_candidates libraries (codes "a") (codes "d" ∷ []) 1 50 120 cache).1 ≤ 1
write_candidates-bounded_example =
    write_candidates-bounded libraries (codes "a") (codes "d" ∷ []) 1 50 120 cache refl
      ((100, refl), tt) (omega arith)

get_candidates-write_candidates_example :
    get_candidates
      (codes "a")
      (write_candidates libraries (codes "a") (codes "d" ∷ []) 2 50 120 cache).1
    ≡ codes "d" ∷ []
unfolding should_write cache_get equal
get_candidates-write_candidates_example =
    get_candidates-write_candidates libraries (codes "a") (codes "d") [] 2 50 120 cache refl
      ((100, refl), tt) (omega arith) (omega arith) (omega arith) (omega arith) refl

read-write_example : (write libraries cache >>= read libraries) ≡ ok cache
read-write_example =
    read-write libraries cache (serialize cache) [] refl refl (omega arith) refl refl

should_write-insert_example :
    should_write
      (codes "a")
      (codes "d" ∷ [])
      (cache_insert (codes "a") ((120 ∷ []) ∷ codes "d" ∷ []) cache)
    ≡ true
should_write-insert_example = should_write-insert (codes "a") (120 ∷ []) (codes "d" ∷ []) cache
