-- ===== src/Connections/Tests.antt =====
-- Runs of the connection table, and the theorems at them.
use yaskkserv.Prelude.{ℕ, ◌≤◌, ◌≡◌, refl, true, none, some, [], ◌∷◌, Bytes, Result, ok}
use yaskkserv.Connections.{
  Loop, socket, HandleClientResult, exit, RunLoopListenerResult, RunLoopTokenResult,
  get_empty_sockets_index, probe, run_loop_listener, run_loop_token, initial,
}
use yaskkserv.Connections.Invariant.{IsConsistent, Ends, Accepts, run_loop_listener-Accepts}
use yaskkserv.Connections.Reachable.{start, next, accepts, Reach-IsConsistent}

-- Two slots, the first in use.
abbrev one_open : Loop ℕ
one_open = record {
  next_socket_index = 1;
  sockets = some 7 ∷ none ∷ [];
  sockets_some_count = 1;
  buffer = [];
}

abbrev hang_up : ℕ → Bytes → Result (HandleClientResult × ℕ)
hang_up s buffer = ok (exit, s)

one_open-IsConsistent : IsConsistent 2 one_open
one_open-IsConsistent = record { sized = refl; counted = refl; next_free = λ _. refl }

first_accept :
    run_loop_listener 2 (socket 7) true (initial 2) ≡ ok (one_open, RunLoopListenerResult.nop)
unfolding run_loop_listener get_empty_sockets_index initial
first_accept = refl

hang_up_first :
    run_loop_token hang_up 0 true one_open
    ≡ ok (
      record {
        next_socket_index = 0;
        sockets = none ∷ none ∷ [];
        sockets_some_count = 0;
        buffer = [];
      },
      RunLoopTokenResult.nop,
    )
unfolding run_loop_token
hang_up_first = refl

-- The search goes round the end of the table.
search_round : get_empty_sockets_index {A = ℕ} (none ∷ some 1 ∷ some 2 ∷ []) 3 1 ≡ ok 0
unfolding get_empty_sockets_index probe
search_round = refl

run_loop_listener-Accepts_example :
    Ends (Accepts 2 one_open) (run_loop_listener 2 (socket 8) true one_open)
run_loop_listener-Accepts_example =
    run_loop_listener-Accepts 2 (socket 8) true one_open one_open-IsConsistent

Reach-IsConsistent_example : IsConsistent 2 one_open × (one_open.sockets_some_count ≤ 2)
Reach-IsConsistent_example =
    Reach-IsConsistent (next start (accepts (socket 7) true RunLoopListenerResult.nop first_accept))
