-- ===== src/Connections/Invariant.antt =====
-- The table stays consistent under both handlers of the loop, and neither panics.
use yaskkserv.Prelude.{
  ℕ, zero, suc, ◌+◌, ◌<◌, ◌≡◌, refl, sym, ◌∙◌, ◌≢◌, inl, inr, Bool, true, false, Option, none, some,
  List, arith, ltb, leb, if◌then◌else◌, ltb→lt, lt→ltb, ltb→ge, Bool-cases, length, get_elem?, set,
  replicate, length-replicate, length-set, get_elem?-set_ne, get_elem?-lt, Result, io, ok, err,
  panic, out_of_fuel,
}
use yaskkserv.Connections.{
  Loop, Accepted, socket, would_block, failed, RunLoopListenerResult, store, insert_socket,
  run_loop_listener, initial,
}
use yaskkserv.Connections.Probe.{
  count_some, count_some-set-some, get_empty_sockets_index-IsFreeSlot,
}

module _ {S : Type 0} where
  -- The table has `max_connections` slots, the counter counts those in use, and as long as one is
  -- free, `next_socket_index` is free.
  pub record IsConsistent (max_connections : ℕ) (l : Loop S) : Type 0 where
    pub sized : length l.sockets ≡ max_connections
    pub counted : l.sockets_some_count ≡ count_some l.sockets
    pub next_free :
        l.sockets_some_count < max_connections → get_elem? l.sockets l.next_socket_index ≡ some none

-- What a handler may end with: an error of the poller, or a state and an answer that satisfy `P`.
-- A panic satisfies nothing.
abbrev pub Ends : {S R : Type 0} → (Loop S × R → Type 0) → Result (Loop S × R) → Type 0
Ends P (ok x) = P x
Ends P (err _) = Unit
Ends P panic = ⊥
Ends P out_of_fuel = ⊥

pub store_lem {ℓ} :
    {A : Type ℓ} (xs : List A) (i : ℕ) (v : A) → i < length xs → store xs i v ≡ ok (set xs i v)
unfolding store
store_lem xs i v h = rw (lt→ltb _ _ h)

count_some-initial {ℓ} : (A : Type ℓ) (n : ℕ) → count_some (replicate {A = Option A} n none) ≡ 0
count_some-initial A zero = refl
count_some-initial A (suc n) = count_some-initial A n

get_elem?-initial {ℓ} :
    (A : Type ℓ) (n : ℕ) → 0 < n → get_elem? (replicate {A = Option A} n none) 0 ≡ some none
get_elem?-initial A zero h = absurd (omega arith)
get_elem?-initial A (suc n) h = refl

free_ne_used {ℓ} :
    {A : Type ℓ} (xs : List (Option A)) (i j : ℕ) {a : A}
    → get_elem? xs i ≡ some none
    → get_elem? xs j ≡ some (some a)
    → i ≢ j
free_ne_used xs i j at e same = cc

module _ {S : Type 0} where
  pub initial-IsConsistent :
      (max_connections : ℕ) → IsConsistent max_connections (initial {S = S} max_connections)
  unfolding initial
  initial-IsConsistent m = record {
    sized = length-replicate m none;
    counted = sym (count_some-initial S m);
    next_free = get_elem?-initial S m;
  }

  -- What the listener guarantees from a consistent state: a consistent state again, in which no
  -- slot in use has changed.
  pub record Accepts (m : ℕ) (l : Loop S) (x : Loop S × RunLoopListenerResult) : Type 0 where
    pub consistent : IsConsistent m x.0
    pub kept :
        (i : ℕ) (s : S)
        → get_elem? l.sockets i ≡ some (some s)
        → get_elem? x.0.sockets i ≡ some (some s)
    pub buffer_kept : x.0.buffer ≡ l.buffer

  inserted-Accepts :
      (m : ℕ) (s : S) (l : Loop S) (next : ℕ)
      → IsConsistent m l
      → get_elem? l.sockets l.next_socket_index ≡ some none
      → (l.sockets_some_count + 1 < m
          → get_elem? (set l.sockets l.next_socket_index (some s)) next ≡ some none)
      → Accepts m l (
        record {
          next_socket_index = next;
          sockets = set l.sockets l.next_socket_index (some s);
          sockets_some_count = l.sockets_some_count + 1;
          buffer = l.buffer;
        },
        RunLoopListenerResult.nop,
      )
  inserted-Accepts m s l next c at free = record {
    consistent = record {
      sized = length-set l.sockets _ _ ∙ c.sized;
      counted = omega (arith, count_some-set-some l.sockets l.next_socket_index s at, c.counted);
      next_free = free;
    };
    kept = λ i s' e.
        get_elem?-set_ne l.sockets (some s) (free_ne_used l.sockets l.next_socket_index i at e) ∙ e;
    buffer_kept = refl;
  }

  unchanged-Accepts :
      (m : ℕ) (l : Loop S) → IsConsistent m l → Accepts m l (l, RunLoopListenerResult.break)
  unchanged-Accepts m l c = record { consistent = c; kept = λ i s e. e; buffer_kept = refl }

  registered-Accepts :
      (m : ℕ) (l : Loop S) (r : Result (Loop S × RunLoopListenerResult)) (registered : Bool)
      → Ends (Accepts m l) r
      → Ends (Accepts m l) (if registered then r else err io)
  registered-Accepts m l r true h = h
  registered-Accepts m l r false h = tt

  insert_socket-Accepts :
      (m : ℕ) (s : S) (l : Loop S)
      → IsConsistent m l
      → l.sockets_some_count < m
      → Ends (Accepts m l) (insert_socket m s l)
  unfolding insert_socket
  insert_socket-Accepts m s l c room =
      let at = c.next_free room in
      let inside = get_elem?-lt l.sockets l.next_socket_index at in
      let table = set l.sockets l.next_socket_index (some s) in
      let size : length table ≡ length l.sockets = length-set l.sockets _ _ in
      let used = count_some-set-some l.sockets l.next_socket_index s at in
      rw (store_lem l.sockets l.next_socket_index (some s) inside)
        (elim (Bool-cases (ltb (l.sockets_some_count + 1) m)) [
          | inl more ↦
              let below = ltb→lt (l.sockets_some_count + 1) m more in
              let (next, found, free) =
                get_empty_sockets_index-IsFreeSlot table l.next_socket_index (omega arith)
                  (omega (arith, c.counted, c.sized)) in
              rw more (rw found (inserted-Accepts m s l next c at (λ _. free)))
          | inr full ↦ rw full (
              inserted-Accepts m s l l.next_socket_index c at
                (λ below. absurd (omega (arith, ltb→ge (l.sockets_some_count + 1) m full))))
        ])

  -- From a consistent state the listener neither panics nor runs out of fuel: it ends with an error
  -- of the poller or the accept call, or leaves a consistent state in which every slot in use holds
  -- the socket it held.
  pub run_loop_listener-Accepts :
      (m : ℕ) (a : Accepted S) (registered : Bool) (l : Loop S)
      → IsConsistent m l
      → Ends (Accepts m l) (run_loop_listener m a registered l)
  unfolding run_loop_listener
  run_loop_listener-Accepts m (socket s) registered l c =
      elim (Bool-cases (leb m l.sockets_some_count)) [
        | inl full ↦ rw full (unchanged-Accepts m l c)
        | inr room ↦
            rw room
              (registered-Accepts m l _ registered (insert_socket-Accepts m s l c (ground arith)))
      ]
  run_loop_listener-Accepts m would_block registered l c = unchanged-Accepts m l c
  run_loop_listener-Accepts m failed registered l c = tt
