-- ===== src/Connections.antt =====
-- The connection table of the server loop: src/skk/yaskkserv2.rs, `get_empty_sockets_index`,
-- `run_loop_listener` and `run_loop_token`. The poller, the listener and the sockets are mio's:
-- what they answer is an argument. `max_connections` is a positive `i32`, so it is a ℕ here.
mod Probe
pub mod Invariant
pub mod Release
pub mod Reachable
mod Tests
use yaskkserv.Prelude.{
  ℕ, zero, suc, ◌+◌, ◌-◌, Bool, true, false, Option, none, some, List, [], ltb, leb, ◌==◌,
  if◌then◌else◌, Bytes, length, get_elem?, set, replicate, Result, ◌>>=◌, ◌>>◌, unwrap, io, ok, err,
  panic,
}

pub data HandleClientResult : Type 0 where
  continue exit : HandleClientResult

pub data RunLoopListenerResult : Type 0 where
  nop break : RunLoopListenerResult

pub data RunLoopTokenResult : Type 0 where
  nop return : RunLoopTokenResult

-- What `listener.accept()` gives.
pub data Accepted (S : Type 0) : Type 0 where
  socket : S → Accepted S
  would_block : Accepted S
  failed : Accepted S

abbrev is_none {ℓ} : {A : Type ℓ} → Option A → Bool
is_none none = true
is_none (some _) = false

-- The variables of `run_loop` that its two handlers change.
pub record Loop (S : Type 0) : Type 0 where
  pub next_socket_index : ℕ
  pub sockets : List (Option S)
  pub sockets_some_count : ℕ
  pub buffer : Bytes

-- `for _ in 0..sockets_length`: the first argument counts the rounds left.
probe {ℓ} : {A : Type ℓ} → ℕ → List (Option A) → ℕ → ℕ → Result ℕ
probe zero sockets sockets_length index = panic
probe (suc n) sockets sockets_length index = do
  let index' = if leb sockets_length (index + 1) then 0 else index + 1
  slot ← unwrap (get_elem? sockets index')
  let rest = probe n sockets sockets_length index'
  if is_none slot then ok index' else rest

pub get_empty_sockets_index {ℓ} : {A : Type ℓ} → List (Option A) → ℕ → ℕ → Result ℕ
get_empty_sockets_index sockets sockets_length next_socket_index = do
  let index = if leb sockets_length (next_socket_index + 1) then 0 else next_socket_index + 1
  slot ← unwrap (get_elem? sockets index)
  if is_none slot then ok index else probe sockets_length sockets sockets_length index

-- `sockets[index] = v`, which panics out of range.
pub store {ℓ} : {A : Type ℓ} → List A → ℕ → A → Result (List A)
store xs index v = if ltb index (length xs) then ok (set xs index v) else panic

module _ {S : Type 0} where
  -- The accepted socket enters the table at `next_socket_index`.
  insert_socket : ℕ → S → Loop S → Result (Loop S × RunLoopListenerResult)
  unfolding store
  insert_socket max_connections s l = do
    sockets ← store l.sockets l.next_socket_index (some s)
    let sockets_some_count = l.sockets_some_count + 1
    next_socket_index ←
        (if ltb sockets_some_count max_connections
          then get_empty_sockets_index sockets (length sockets) l.next_socket_index
          else ok l.next_socket_index)
    ok (
      record {
        next_socket_index = next_socket_index;
        sockets = sockets;
        sockets_some_count = sockets_some_count;
        buffer = l.buffer;
      },
      RunLoopListenerResult.nop,
    )

  -- `registered` is what `register()` answers. A socket beyond the limit is dropped.
  pub run_loop_listener : ℕ → Accepted S → Bool → Loop S → Result (Loop S × RunLoopListenerResult)
  unfolding insert_socket
  run_loop_listener max_connections (socket s) registered l =
      if leb max_connections l.sockets_some_count
      then ok (l, RunLoopListenerResult.break)
      else if registered
      then insert_socket max_connections s l
      else err io
  run_loop_listener max_connections would_block registered l = ok (l, RunLoopListenerResult.break)
  run_loop_listener max_connections failed registered l = err io

  -- `sockets_some_count` is a `usize`: below zero it panics.
  remove_socket : ℕ → Loop S → Result (Loop S × RunLoopTokenResult)
  unfolding store
  remove_socket token l = do
    sockets ← store l.sockets token none
    sockets_some_count ←
        (if l.sockets_some_count == 0 then panic else ok (l.sockets_some_count - 1))
    ok (
      record {
        next_socket_index = token;
        sockets = sockets;
        sockets_some_count = sockets_some_count;
        buffer = [];
      },
      RunLoopTokenResult.nop,
    )

  -- What follows the reading of the request: `s` is the socket after it, `deregistered` what
  -- `deregister()` answers.
  close_or_keep : HandleClientResult → ℕ → S → Bool → Loop S → Result (Loop S × RunLoopTokenResult)
  unfolding store remove_socket
  close_or_keep continue token s deregistered l = do
    sockets ← store l.sockets token (some s)
    ok (record l { sockets = sockets; buffer = [] }, RunLoopTokenResult.nop)
  close_or_keep exit token s deregistered l = if deregistered then remove_socket token l else err io

  -- `read` is `Yaskkserv2::read_until_skk_server` on the socket and the shared buffer, which answers
  -- the request, and may panic.
  pub run_loop_token :
      (S → Bytes → Result (HandleClientResult × S))
      → ℕ
      → Bool
      → Loop S
      → Result (Loop S × RunLoopTokenResult)
  unfolding close_or_keep
  run_loop_token read token deregistered l = do
    slot ← unwrap (get_elem? l.sockets token)
    elim slot [
      | none ↦ ok (l, RunLoopTokenResult.return)
      | some s ↦ do (handled, s') ← read s l.buffer; close_or_keep handled token s' deregistered l
    ]

  -- The variables before the first event.
  pub initial : ℕ → Loop S
  initial max_connections = record {
    next_socket_index = 0;
    sockets = replicate max_connections none;
    sockets_some_count = 0;
    buffer = [];
  }
