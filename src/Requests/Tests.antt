-- ===== src/Requests/Tests.antt =====
-- Runs of the reading of requests, and the theorems at them.
use yaskkserv.Prelude.{◌+◌, ◌≡◌, refl, inl, inr, [], ◌∷◌, ◌++◌, arith, codes, length}
use yaskkserv.Substrings.Positions.{two_way}
use yaskkserv.Requests.{
  chunk, interrupted, would_block, Stream, blocked, rounds, read_until, find_end,
  find_one_character_protocol,
}
use yaskkserv.Requests.Delivered.{Takes, delivers, read_until-Takes}
use yaskkserv.Requests.Chunks.{chunks, joined, rounds-chunks}

abbrev two_reads : Stream
two_reads = record {
  buffered = [];
  arrivals = chunk (codes "1ab") ∷ interrupted ∷ chunk (codes "cd 4x ") ∷ [];
}

reads_request :
    read_until two_way two_reads []
    ≡ (inr 6, codes "1abcd ", record { buffered = codes "4x "; arrivals = [] })
unfolding read_until rounds find_end find_one_character_protocol
reads_request = refl

-- A chunk that begins with a digit of a one-byte protocol ends the request before its space.
ends_early :
    read_until two_way
      (record {
        buffered = [];
        arrivals = chunk (codes "1a") ∷ chunk (codes "2b") ∷ chunk (codes "c ") ∷ [];
      })
      []
    ≡ (inr 3, codes "1a2", record { buffered = codes "b"; arrivals = chunk (codes "c ") ∷ [] })
unfolding read_until rounds find_end find_one_character_protocol
ends_early = refl

-- What was read stays in the buffer when a read would block.
blocks_midway :
    read_until two_way
      (record {
        buffered = [];
        arrivals = chunk (codes "1a") ∷ would_block ∷ chunk (codes "b ") ∷ [];
      })
      []
    ≡ (inl blocked, codes "1a", record { buffered = []; arrivals = chunk (codes "b ") ∷ [] })
unfolding read_until rounds find_end find_one_character_protocol
blocks_midway = refl

read_until-Takes_example : Takes 0 [] (delivers two_reads) (read_until two_way two_reads [])
read_until-Takes_example = read_until-Takes two_way two_reads []

rounds-chunks_example :
    rounds two_way 0 [] (chunks (codes "1ab" ∷ []) (chunk (codes "cd" ++ b' ' ∷ codes "4x ") ∷ []))
    ≡ (
      inr (0 + length (joined (codes "1ab" ∷ [])) + length (codes "cd") + 1),
      joined (codes "1ab" ∷ []) ++ (codes "cd" ++ b' ' ∷ []),
      record { buffered = codes "4x "; arrivals = [] },
    )
unfolding find_one_character_protocol
rounds-chunks_example =
    rounds-chunks two_way (codes "1ab" ∷ []) (codes "cd") (codes "4x ") [] 0 []
      ((omega arith, (omega arith, (omega arith, (omega arith, tt))), refl), tt)
      (omega arith, (omega arith, tt))
