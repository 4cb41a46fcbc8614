-- ===== src/Tests/PerThreadRuns.antt =====
-- network/tcp_echo/server_epoll_bench.cpp with one loop, on a scripted kernel.
use linux_programming.Prelude.{ℕ, ◌-◌, ◌≡◌, refl, Option, none, some, [], ◌∷◌, inl, arith, get_or}
use linux_programming.Threads.{total}
use linux_programming.Kernel.{ret}
use linux_programming.Kernel.Scripted.{Script, scripted}
use linux_programming.PerThread.{
  EventLoop, new_loop, on_events, Server, accepts, dumps, Reach, here, next, start, accept,
  add_conn, loop_of, dump_conn, dump_loop, added, ctl, new_loops, accept,
}
use linux_programming.PerThread.Watched.{IsWatching, reached_served}
use linux_programming.PerThread.Owned.{held, descriptors_conserved}

-- A client connects on descriptor 7, and sends two bytes.
abbrev script : Script
script = ret (7 ∷ []) ∷ ret (1 ∷ 2 ∷ []) ∷ ret (0 ∷ 0 ∷ []) ∷ []

-- Its connection stands in `conns`.
abbrev ready : Server scripted
ready = record {
  loops =
      record {
        epfd = 3;
        conns = some (record { fd = some 7; pkt_size = 1024 }) ∷ [];
        buf_conns = [];
        watched = 0 ∷ [];
        closed = [];
      }
      ∷ [];
  world = ret (1 ∷ 2 ∷ []) ∷ ret (0 ∷ 0 ∷ []) ∷ [];
  accepted = some 7 ∷ [];
}

ready-Reach : Reach scripted (start scripted 3 1 script) ready
unfolding start new_loops new_loop accept add_conn loop_of dump_conn dump_loop added ctl
ready-Reach = next (next here (accepts 4)) (dumps 0 (omega arith))

reached_served_example :
    (t : EventLoop × Script) × (on_events scripted
        ((0, 1) ∷ [])
        (get_or ready.loops 0 (new_loop 0), ready.world)
      ≡ some t)
    × IsWatching t.0
reached_served_example =
    reached_served scripted 3 1 script ready-Reach 0 ((0, 1) ∷ []) (inl refl, tt, tt)

-- A weight of the descriptors.
abbrev large : Option ℕ → ℕ
large none = 0
large (some fd) = fd - 4

descriptors_conserved_example : total (held large) ready.loops ≡ total large ready.accepted
descriptors_conserved_example =
    descriptors_conserved large scripted 3 1 script (omega arith) ready-Reach
