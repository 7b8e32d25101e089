-- ===== src/Connections/Reachable.antt =====
-- The states that the server loop passes through: src/skk/yaskkserv2.rs, `run_loop`.
use yaskkserv.Prelude.{
  ℕ, ◌≤◌, ◌≡◌, refl, ◌≢◌, Bool, Option, none, some, arith, Bytes, get_elem?, Result, ok, err, panic,
  out_of_fuel,
}
use yaskkserv.Connections.{
  Loop, Accepted, HandleClientResult, RunLoopListenerResult, RunLoopTokenResult, run_loop_listener,
  run_loop_token, initial,
}
use yaskkserv.Connections.Probe.{count_some-le}
use yaskkserv.Connections.Invariant.{IsConsistent, initial-IsConsistent, run_loop_listener-Accepts}
use yaskkserv.Connections.Release.{run_loop_token-Serves}

module _ {S : Type 0} where
  -- One event of `run_loop`, after which the loop goes on: an accept, or a connection that is ready.
  pub data Step (m : ℕ) (l l' : Loop S) : Type 0 where
    accepts :
        (a : Accepted S) (registered : Bool) (r : RunLoopListenerResult)
        → run_loop_listener m a registered l ≡ ok (l', r)
        → Step m l l'
    serves :
        (read : S → Bytes → Result (HandleClientResult × S)) (token : ℕ) (deregistered : Bool)
        → run_loop_token read token deregistered l ≡ ok (l', RunLoopTokenResult.nop)
        → Step m l l'

  pub data Reach (m : ℕ) : Loop S → Type 0 where
    start : Reach m (initial m)
    next : {l l' : Loop S} → Reach m l → Step m l l' → Reach m l'

  no_slot :
      (read : S → Bytes → Result (HandleClientResult × S)) (token : ℕ) (d : Bool) (l l' : Loop S)
      → get_elem? l.sockets token ≡ none
      → run_loop_token read token d l ≢ ok (l', RunLoopTokenResult.nop)
  unfolding run_loop_token
  no_slot read token d l l' at e = ground arith

  vacant :
      (read : S → Bytes → Result (HandleClientResult × S)) (token : ℕ) (d : Bool) (l l' : Loop S)
      → get_elem? l.sockets token ≡ some none
      → run_loop_token read token d l ≢ ok (l', RunLoopTokenResult.nop)
  unfolding run_loop_token
  vacant read token d l l' at e = ground arith

  answer-IsConsistent :
      (m : ℕ) (read : S → Bytes → Result (HandleClientResult × S)) (token : ℕ) (deregistered : Bool)
      (l l' : Loop S) (s : S) (answer : Result (HandleClientResult × S))
      → IsConsistent m l
      → get_elem? l.sockets token ≡ some (some s)
      → read s l.buffer ≡ answer
      → run_loop_token read token deregistered l ≡ ok (l', RunLoopTokenResult.nop)
      → IsConsistent m l'
  unfolding run_loop_token
  answer-IsConsistent m read token d l l' s (ok (handled, s')) c at r e =
      let served = run_loop_token-Serves read m token d l s c at r in (rw e at served).consistent
  answer-IsConsistent m read token d l l' s (err _) c at r e = cc (rw (at, r) at e)
  answer-IsConsistent m read token d l l' s panic c at r e = cc (rw (at, r) at e)
  answer-IsConsistent m read token d l l' s out_of_fuel c at r e = cc (rw (at, r) at e)

  slot-IsConsistent :
      (m : ℕ) (read : S → Bytes → Result (HandleClientResult × S)) (token : ℕ) (deregistered : Bool)
      (l l' : Loop S) (slot : Option (Option S))
      → IsConsistent m l
      → get_elem? l.sockets token ≡ slot
      → run_loop_token read token deregistered l ≡ ok (l', RunLoopTokenResult.nop)
      → IsConsistent m l'
  slot-IsConsistent m read token d l l' none c at e = absurd (no_slot read token d l l' at e)
  slot-IsConsistent m read token d l l' (some none) c at e = absurd (vacant read token d l l' at e)
  slot-IsConsistent m read token d l l' (some (some s)) c at e =
      answer-IsConsistent m read token d l l' s (read s l.buffer) c at refl e

  Step-IsConsistent : {m : ℕ} {l l' : Loop S} → Step m l l' → IsConsistent m l → IsConsistent m l'
  Step-IsConsistent {m} {l} (accepts a registered r e) c =
      let end = run_loop_listener-Accepts m a registered l c in (rw e at end).consistent
  Step-IsConsistent {m} {l} {l'} (serves read token d e) c =
      slot-IsConsistent m read token d l l' (get_elem? l.sockets token) c refl e

  reachable-IsConsistent : {m : ℕ} {l : Loop S} → Reach m l → IsConsistent m l
  reachable-IsConsistent start = initial-IsConsistent _
  reachable-IsConsistent (next r s) = Step-IsConsistent s (reachable-IsConsistent r)

  -- In every state that the loop reaches from the empty table, the table is consistent, and no more
  -- than `max_connections` connections are open.
  pub Reach-IsConsistent :
      {m : ℕ} {l : Loop S} → Reach m l → IsConsistent m l × (l.sockets_some_count ≤ m)
  Reach-IsConsistent {l} r =
      let c = reachable-IsConsistent r in
      (c, omega (arith, c.counted, c.sized, count_some-le l.sockets))
