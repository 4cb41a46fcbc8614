-- ===== src/Tests/HandlesRuns.antt =====
-- network/tcp_echo/server_epoll_handle.cpp on a scripted kernel.
use linux_programming.Prelude.{◌≡◌, refl, none, some, [], ◌∷◌}
use linux_programming.Kernel.{ret}
use linux_programming.Kernel.Scripted.{Script, scripted}
use linux_programming.Handles.{Server, on_events}
use linux_programming.Handles.Batches.{Conserves, on_events-Conserves}

-- One connection is there; in a batch, its stream ends and another client connects on descriptor 9.
abbrev serving : Server Script
serving = record {
  objects = some (record { fd = 7; epoll_fd = 3 }) ∷ [];
  world = ret [] ∷ ret (9 ∷ []) ∷ [];
  accepted = 7 ∷ [];
  closed = [];
}

on_events-Conserves_example :
    (t : Server Script) × (on_events scripted 4 3 ((some 0, 1) ∷ (none, 1) ∷ []) serving ≡ some t)
    × Conserves (λ fd. fd) serving t
on_events-Conserves_example =
    on_events-Conserves scripted (λ fd. fd) 4 3 ((some 0, 1) ∷ (none, 1) ∷ []) serving
      ((record { fd = 7; epoll_fd = 3 }, refl), tt, tt)
