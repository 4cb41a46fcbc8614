-- ===== src/Tests/BenchRuns.antt =====
-- client_epoll_bench.cpp, run on a scripted kernel, with a clock that goes on with each call.
use linux_programming.Prelude.{ℕ, ◌-◌, ◌^◌, ◌≡◌, refl, some, List, [], ◌∷◌, arith, length}
use linux_programming.Kernel.{ret}
use linux_programming.Kernel.Scripted.{Script}
use linux_programming.Ring.Memory.{write_at}
use linux_programming.Transfer.{sent, send_loop, send_full}
use linux_programming.Tests.TransferRuns.{eager, eager-IsEager}
use linux_programming.Client.{bytes_of}
use linux_programming.Latency as Latency
use linux_programming.Bench.{Connection, timeval, rtt, stamp, count_sent, send, received}
use linux_programming.Bench.Echo.{IsSized, echo_time}

abbrev clock : Script → (ℕ × ℕ) × Script
clock w = ((3, 300 - length w), w)

abbrev blank : List ℕ
blank = 0 ∷ 0 ∷ 0 ∷ 0 ∷ 0 ∷ 0 ∷ 0 ∷ 0 ∷ 0 ∷ 0 ∷ 0 ∷ 0 ∷ 0 ∷ 0 ∷ 0 ∷ 0 ∷ []

-- 3 s and 298 us
abbrev stamped : List ℕ
stamped = 3 ∷ 0 ∷ 0 ∷ 0 ∷ 0 ∷ 0 ∷ 0 ∷ 0 ∷ 42 ∷ 1 ∷ 0 ∷ 0 ∷ 0 ∷ 0 ∷ 0 ∷ 0 ∷ []

abbrev samples : Latency.Tracer
samples = record { data_at = λ i. 0; f = 0; p = 0 }

-- The kernel takes three bytes, and then the other thirteen.
abbrev fresh : Connection Script
fresh = record {
  fd = 6;
  pkt_size = 16;
  tx_buf = blank;
  rx_buf = blank;
  tracer = record { tx_pkt = 0; rx_pkt = 0; tx_byte = 0; rx_byte = 0 };
  latency_tracer = samples;
  link = record { world = ret (0 ∷ 0 ∷ []) ∷ ret blank ∷ []; rx = []; tx = []; stops = 0 };
}

abbrev sent_all : Connection Script
sent_all = record {
  fd = 6;
  pkt_size = 16;
  tx_buf = stamped;
  rx_buf = blank;
  tracer = record { tx_pkt = 1; rx_pkt = 0; tx_byte = 16; rx_byte = 0 };
  latency_tracer = samples;
  link = record { world = []; rx = []; tx = stamped; stops = 0 };
}

ran : send eager clock fresh ≡ some sent_all
unfolding send stamp timeval bytes_of write_at count_sent send_full send_loop sent
ran = refl

fresh-IsSized : IsSized fresh
fresh-IsSized = record { stamped = omega arith; tx_room = omega arith; rx_room = omega arith }

-- A clock that is set back by 5 us between the two gives the word of -5.
rtt_back : rtt (3, 10) (3, 15) ≡ 2 ^ 64 - 5
unfolding rtt
rtt_back = refl

-- 2 us have gone by.
echo_time_example :
    let (a, e) = received eager clock (ret stamped) sent_all in
    (a ≡ some 16) × (e.latency_tracer ≡ Latency.push 2 samples)
echo_time_example =
    echo_time eager clock eager-IsEager fresh fresh-IsSized (omega arith) (omega arith) sent_all
      stamped ran refl refl (omega arith) (omega arith)
