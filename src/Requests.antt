-- ===== src/Requests.antt =====
-- The reading of a request: `BufReaderSkk::read_until_skk_server` for a socket, and
-- `Yaskkserv2::read_until_skk_server` with `get_buffer_skip_count`, of src/skk/yaskkserv2.rs.
-- `interrupted` is retried, as in the source. The socket is what `BufReader` holds and the reads
-- still to come; where there are none left, a read would block. The loop is by recursion on the
-- reads, since each round but the first makes one.
pub mod Delivered
pub mod Chunks
mod Tests
use yaskkserv.Prelude.{
  ℕ, zero, suc, ◌+◌, ◌-◌, ◌⊎◌, inl, inr, Bool, true, false, not, ◌&&◌, ◌||◌, Option, none, some,
  List, [], ◌∷◌, ◌++◌, ltb, leb, ◌==◌, if◌then◌else◌, Bytes, length, get_elem?, take, drop, Result,
  ◌>>=◌, ◌>>◌, unwrap, ok,
}
use yaskkserv.Substrings.{TwoWay, slice_from}
use yaskkserv.Substrings.Positions.{shift}
use yaskkserv.Connections.{HandleClientResult, continue, exit}

-- What one `read()` of the socket gives. The empty chunk is the end of the stream.
pub data Arrival : Type 0 where
  chunk : Bytes → Arrival
  interrupted would_block failed : Arrival

pub data ErrorKind : Type 0 where
  blocked other : ErrorKind

pub record Stream : Type 0 where
  pub buffered : Bytes
  pub arrivals : List Arrival

abbrev pub Outcome : Type 0
Outcome = ErrorKind ⊎ ℕ

-- The index of the protocol byte, past the line ends before it.
unfoldable pub find_one_character_protocol : Bytes → Option ℕ
find_one_character_protocol [] = none
find_one_character_protocol (c ∷ cs) =
    let rest = shift (find_one_character_protocol cs) in
    if c == b'0' || c == b'2' || c == b'3'
    then some 0
    else if not (c == b'\n') && not (c == b'\r')
    then none
    else rest

module _ (w : TwoWay) where
  -- The index of the last byte to take from what is available.
  unfoldable pub find_end : Bytes → Option ℕ
  find_end available = elim (w.find_bytes available (b' ' ∷ [])) [
    | some i ↦ some i
    | none ↦ find_one_character_protocol available
  ]

  -- The outcome, the buffer of the request, and the socket after it. `n` bytes are read already.
  unfoldable pub rounds : ℕ → Bytes → List Arrival → Outcome × Bytes × Stream
  rounds n buffer [] = (inl blocked, buffer, record { buffered = []; arrivals = [] })
  rounds n buffer (chunk available ∷ arrivals) =
      let rest = rounds (n + length available) (buffer ++ available) arrivals in
      elim (find_end available) [
        | some i ↦ (
          inr (n + (i + 1)),
          buffer ++ take (i + 1) available,
          record { buffered = drop (i + 1) available; arrivals = arrivals },
        )
        | none ↦
            if length available == 0
            then (inr n, buffer, record { buffered = []; arrivals = arrivals })
            else rest
      ]
  rounds n buffer (interrupted ∷ arrivals) = rounds n buffer arrivals
  rounds n buffer (would_block ∷ arrivals) =
      (inl blocked, buffer, record { buffered = []; arrivals = arrivals })
  rounds n buffer (failed ∷ arrivals) =
      (inl other, buffer, record { buffered = []; arrivals = arrivals })

  -- What is buffered is available before the first read of the socket.
  unfoldable pub read_until : Stream → Bytes → Outcome × Bytes × Stream
  read_until s buffer =
      if length s.buffered == 0
      then rounds 0 buffer s.arrivals
      else rounds 0 buffer (chunk s.buffered ∷ s.arrivals)

abbrev pub is_line_end : ℕ → Bool
is_line_end c = c == b'\n' || c == b'\r'

unfoldable pub get_buffer_skip_count : Bytes → ℕ → Result ℕ
get_buffer_skip_count buffer size =
    if leb 2 size
    then (do
      b1 ← unwrap (get_elem? buffer 1)
      b0 ← unwrap (get_elem? buffer 0)
      (if is_line_end b1 && is_line_end b0 then ok 2 else if is_line_end b0 then ok 1 else ok 0))
    else if leb 1 size
    then (do b0 ← unwrap (get_elem? buffer 0); (if is_line_end b0 then ok 1 else ok 0))
    else ok 0

-- `handle` is `Server::handle_client`, with the state it changes. The Boolean is `is_shutdown`.
unfoldable pub answer_request {ℓ} :
    {D : Type ℓ}
    → (Bytes → D → Result (HandleClientResult × D))
    → Outcome
    → Bytes
    → D
    → Result (HandleClientResult × Bool × D)
answer_request handle (inr zero) buffer d = ok (exit, false, d)
answer_request handle (inr (suc n)) buffer d = do
  skip ← get_buffer_skip_count buffer (suc n)
  (if suc n == skip
      then ok (exit, false, d)
      else if ltb 0 (suc n - skip)
      then (do
        unskipped ← slice_from buffer skip
        (handled, d') ← handle unskipped d
        ok (handled, false, d'))
      else ok (continue, false, d))
answer_request handle (inl blocked) buffer d = ok (continue, false, d)
answer_request handle (inl other) buffer d = ok (exit, true, d)

-- The whole of `Yaskkserv2::read_until_skk_server`; the buffer is the one that it leaves.
unfoldable pub read_until_skk_server {ℓ} :
    {D : Type ℓ}
    → TwoWay
    → (Bytes → D → Result (HandleClientResult × D))
    → Stream
    → Bytes
    → D
    → Result (HandleClientResult × Bool × D) × Bytes × Stream
read_until_skk_server w handle s buffer d =
    let (outcome, buffer', s') = read_until w s buffer in
    (answer_request handle outcome buffer' d, buffer', s')
