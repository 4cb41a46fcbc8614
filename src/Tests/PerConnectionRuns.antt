-- ===== src/Tests/PerConnectionRuns.antt =====
-- network/tcp_echo/server.cpp and client.cpp on a scripted kernel whose `send` takes at least one byte.
use linux_programming.Prelude.{
  ℕ, ◌+◌, ◌≤◌, ◌<◌, ◌≡◌, ◌%◌, none, some, List, [], ◌∷◌, arith, length, replicate, get_or,
}
use linux_programming.Kernel.{ret, again, fail, IsFinite}
use linux_programming.Kernel.Scripted.{
  Script, recv_reply-uses, recv_reply-keeps, accept_reply-keeps,
}
use linux_programming.Threads.{upto}
use linux_programming.Transfer.{Link}
use linux_programming.PerConnection.{worker, client, Table, accept_many, new_table}
use linux_programming.PerConnection.Echoes.{Ends, worker-Ends}
use linux_programming.PerConnection.Requests.{Asked, client-Asked}
use linux_programming.PerConnection.Accepts.{room_for_max_conns}
use linux_programming.Tests.TransferRuns.{eager_reply, eager, eager-IsEager}

eager_reply-keeps : (msg : List ℕ) (w : Script) → length (eager_reply msg w).1 ≤ length w
eager_reply-keeps msg [] = omega arith
eager_reply-keeps msg (ret bs ∷ w) = omega arith
eager_reply-keeps msg (again ∷ w) = omega arith
eager_reply-keeps msg (fail ∷ w) = omega arith

abbrev eager-IsFinite : IsFinite eager
eager-IsFinite = record {
  supply = λ w. length w;
  recv_uses = λ fd count w b bs. recv_reply-uses count w b bs;
  recv_keeps = λ fd count w. recv_reply-keeps count w;
  send_keeps = λ fd bs w. eager_reply-keeps bs w;
  ctl_keeps = λ epfd op fd events w. omega arith;
  accept_keeps = λ fd w. accept_reply-keeps w;
  close_keeps = λ fd w. omega arith;
}

-- Three bytes come in and go out in two parts, and the stream ends.
abbrev connection : Link Script
connection = record {
  world = ret (1 ∷ 2 ∷ 3 ∷ []) ∷ ret [] ∷ ret (0 ∷ []) ∷ ret [] ∷ [];
  rx = [];
  tx = [];
  stops = 0;
}

worker-Ends_example : Ends eager eager-IsFinite connection (worker eager 5 7 connection)
worker-Ends_example = worker-Ends eager eager-IsFinite eager-IsEager 5 7 connection (omega arith)

-- A packet of two bytes goes out, and comes back.
abbrev asking : Link Script
asking = record { world = ret (0 ∷ 0 ∷ []) ∷ ret (7 ∷ 7 ∷ []) ∷ []; rx = []; tx = []; stops = 0 }

client-Asked_example :
    (t : Link Script) × (client eager 1 2 7 asking ≡ some t)
    × Asked 1 (replicate 2 (7 % 256)) asking t
client-Asked_example = client-Asked eager eager-IsEager 1 2 7 asking

-- Two connections, where there is room for two.
abbrev coming : Script
coming = ret (5 ∷ []) ∷ ret (6 ∷ []) ∷ []

room_for_max_conns_example :
    (1 + 1 ≤ 2
      → (u : Table eager) × (t : Table eager) × (accept_many eager 1 4 (new_table eager 2 coming)
          ≡ some u)
        × (accept_many eager (1 + 1) 4 (new_table eager 2 coming) ≡ some t)
        × (t.sock_num ≡ 1 + 1)
        × (t.threads ≡ upto (1 + 1))
        × ((j : ℕ) → j < 1 → get_or t.sock_fds j none ≡ get_or u.sock_fds j none))
    × (2 < 1 + 1 → accept_many eager (1 + 1) 4 (new_table eager 2 coming) ≡ none)
room_for_max_conns_example = room_for_max_conns eager 2 1 1 4 coming
