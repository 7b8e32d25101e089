-- ===== src/Connections/Release.antt =====
-- An event on a connection: src/skk/yaskkserv2.rs, `run_loop_token`.
use yaskkserv.Prelude.{
  ℕ, ◌-◌, ◌≡◌, refl, sym, ◌∙◌, ◌≢◌, Bool, true, false, Option, none, some, List, [], arith, ◌==◌,
  Bytes, get_elem?, set, length-set, get_elem?-set_self, get_elem?-set_ne, get_elem?-lt, Result, ok,
}
use yaskkserv.Connections.{
  Loop, HandleClientResult, continue, exit, RunLoopTokenResult, close_or_keep, run_loop_token,
}
use yaskkserv.Connections.Probe.{count_some, count_some-set-none, count_some-keep}
use yaskkserv.Connections.Invariant.{IsConsistent, Ends, store_lem}

module _ {S : Type 0} where
  -- A served connection: the state is consistent, the shared buffer is empty for the next event,
  -- no other slot has changed, and after `exit` the slot is free.
  pub record Serves (m token : ℕ) (l : Loop S) (x : Loop S × RunLoopTokenResult) : Type 0 where
    pub consistent : IsConsistent m x.0
    pub others : (i : ℕ) → token ≢ i → get_elem? x.0.sockets i ≡ get_elem? l.sockets i
    pub buffer_cleared : x.0.buffer ≡ []
    pub goes_on : x.1 ≡ RunLoopTokenResult.nop

  count_some_pos :
      (xs : List (Option S)) (i : ℕ) {s : S}
      → get_elem? xs i ≡ some (some s)
      → (count_some xs == 0) ≡ false
  count_some_pos xs i h = let e = count_some-set-none xs i h in ground arith

  removed-Serves :
      (m token : ℕ) (l : Loop S) {s : S}
      → IsConsistent m l
      → get_elem? l.sockets token ≡ some (some s)
      → Serves m token l (
        record {
          next_socket_index = token;
          sockets = set l.sockets token none;
          sockets_some_count = l.sockets_some_count - 1;
          buffer = [];
        },
        RunLoopTokenResult.nop,
      )
  removed-Serves m token l c at = record {
    consistent = record {
      sized = length-set l.sockets _ _ ∙ c.sized;
      counted = omega (arith, count_some-set-none l.sockets token at, c.counted);
      next_free = λ _. get_elem?-set_self l.sockets token none (get_elem?-lt l.sockets token at);
    };
    others = λ i ne. get_elem?-set_ne l.sockets none ne;
    buffer_cleared = refl;
    goes_on = refl;
  }

  kept_free :
      (xs : List (Option S)) (token next : ℕ) (s s' : S)
      → get_elem? xs token ≡ some (some s)
      → get_elem? xs next ≡ some none
      → get_elem? (set xs token (some s')) next ≡ some none
  kept_free xs token next s s' at free = get_elem?-set_ne xs (some s') (λ same. cc) ∙ free

  close_or_keep-Serves :
      (m token : ℕ) (h : HandleClientResult) (s s' : S) (deregistered : Bool) (l : Loop S)
      → IsConsistent m l
      → get_elem? l.sockets token ≡ some (some s)
      → Ends (Serves m token l) (close_or_keep h token s' deregistered l)
  unfolding close_or_keep
  close_or_keep-Serves m token continue s s' deregistered l c at =
      rw (store_lem l.sockets token (some s') (get_elem?-lt l.sockets token at)) (record {
        consistent = record {
          sized = length-set l.sockets _ _ ∙ c.sized;
          counted = c.counted ∙ sym (count_some-keep l.sockets token s' at);
          next_free =
              λ below. kept_free l.sockets token l.next_socket_index s s' at (c.next_free below);
        };
        others = λ i ne. get_elem?-set_ne l.sockets (some s') ne;
        buffer_cleared = refl;
        goes_on = refl;
      })
  close_or_keep-Serves m token exit s s' false l c at = tt
  close_or_keep-Serves m token exit s s' true l c at =
      rw (store_lem l.sockets token none (get_elem?-lt l.sockets token at)) (
        rw (c.counted, count_some_pos l.sockets token at)
          (rw (← c.counted) (removed-Serves m token l c at)))

  pub run_loop_token-Serves :
      (read : S → Bytes → Result (HandleClientResult × S)) (m token : ℕ) (deregistered : Bool)
      (l : Loop S) (s : S) {handled : HandleClientResult} {s' : S}
      → IsConsistent m l
      → get_elem? l.sockets token ≡ some (some s)
      → read s l.buffer ≡ ok (handled, s')
      → Ends (Serves m token l) (run_loop_token read token deregistered l)
  unfolding run_loop_token
  run_loop_token-Serves read m token deregistered l s {handled = h} {s' = s'} c at answered =
      rw (at, answered) (close_or_keep-Serves m token h s s' deregistered l c at)
