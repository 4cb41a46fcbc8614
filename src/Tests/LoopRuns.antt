-- ===== src/Tests/LoopRuns.antt =====
-- The event loop of server_epollout_handle.cpp, run on a scripted kernel.
use linux_programming.Prelude.{
  update, ℕ, ◌⊎◌, ◌≡◌, ◌≤◌, refl, Option, none, some, List, [], ◌∷◌, arith, replicate,
}
use linux_programming.Kernel.{ret, again}
use linux_programming.Kernel.Scripted.{Script, scripted}
use linux_programming.Loop.{
  Session, Acceptor, Handler, acceptor, connection, Server, accepted, accept_handle, handle_object,
  delete_handler, delete_failed, on_event, on_events,
}
use linux_programming.Loop.Safety.{IsServing, Stops, on_events-IsServing}

abbrev blocks : ℕ → List ℕ
blocks a = replicate 64 0

abbrev listener : Acceptor
listener = record { fd = 4; epfd = 3 }

-- There is only the acceptor of `main`, at address 0.
abbrev heap : ℕ → Option Handler
heap = update (λ p. none) 0 (some (acceptor listener))

abbrev server : Script → Server Script
server w = record { objects = heap; next = 1; world = w }

heap-unused : (p : ℕ) → 1 ≤ p → heap p ≡ none
heap-unused p h = ground arith

heap-no_connection : (p : ℕ) (c : Session) → ¬ (heap p ≡ some (connection c))
heap-no_connection p c e = ground arith

server-IsServing : (w : Script) → IsServing (server w)
server-IsServing w = record {
  works = λ p c e. absurd (heap-no_connection p c e);
  unused = heap-unused;
}

-- One batch: a connection comes in on descriptor 7.
abbrev coming : Script
coming = ret (7 ∷ []) ∷ []

on_events-IsServing_example :
    ((t : Server Script) × (on_events scripted blocks ((0, 1) ∷ []) (server coming) ≡ some t)
      × IsServing t)
    ⊎ Stops scripted blocks (λ a. refl) ((0, 1) ∷ []) (server coming)
on_events-IsServing_example =
    on_events-IsServing scripted blocks (λ a. refl) ((0, 1) ∷ []) (server coming)
      (server-IsServing coming) (tt, tt) (refl, tt)

-- `accept4` answers EAGAIN: the acceptor is deleted, which is undefined behaviour.
accept_again : on_events scripted blocks ((0, 1) ∷ []) (server (again ∷ [])) ≡ none
unfolding on_events on_event handle_object accept_handle accepted delete_failed delete_handler
accept_again = refl
