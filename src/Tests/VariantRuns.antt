-- ===== src/Tests/VariantRuns.antt =====
-- server_epollout_simple.cpp and server_epoll_et.cpp, run on a scripted kernel with a response of
-- five bytes.
use linux_programming.Prelude.{ℕ, refl, false, true, List, [], ◌∷◌, arith}
use linux_programming.Kernel.{ret, again, epollout}
use linux_programming.Kernel.Scripted.{Script, scripted, scripted-IsFinite}
use linux_programming.Response.Calls.{done}
use linux_programming.Push.{Session, State, sent}
use linux_programming.Push.Send.{IsPushing}
use linux_programming.Push.Single.{
  sent_once, send_once, send_stopped, send_end, send_buf, handle, handle_send,
}
use linux_programming.Push.Single.Serves.{Handled, handle-Handled}
use linux_programming.Push.Edge.{edge}
use linux_programming.Push.Edge as Edge
use linux_programming.Push.Edge.Drains as Drains
use linux_programming.Push.Edge.Handles.{Drained, handle-Drained}

abbrev answer : List ℕ
answer = 1 ∷ 2 ∷ 3 ∷ 4 ∷ 5 ∷ []

abbrev busy : Session
busy = record {
  conn = record { fd = 7; epoll_fd = 3; recv_len = 0; send_len = 2; enable_epollout = true };
  tx = 1 ∷ 2 ∷ [];
  interest = 5;
  ctl_ok = true;
}

abbrev busy_in : Script → State Script
busy_in w = record { session = busy; world = w }

busy-IsPushing : IsPushing answer busy
busy-IsPushing = record { within = omega arith; front = refl }

-- The socket takes two bytes more.
abbrev two_more : Script
two_more = ret (0 ∷ 0 ∷ []) ∷ []

abbrev waiting : State Script
waiting = record {
  session = record {
    conn = record { fd = 7; epoll_fd = 3; recv_len = 0; send_len = 4; enable_epollout = true };
    tx = 1 ∷ 2 ∷ 3 ∷ 4 ∷ [];
    interest = 5;
    ctl_ok = true;
  };
  world = [];
}

handle-Handled_example :
    Handled scripted scripted-IsFinite answer (busy_in two_more) (done 0) waiting
unfolding handle handle_send send_buf send_once sent_once sent send_end send_stopped
handle-Handled_example =
    handle-Handled scripted scripted-IsFinite answer 9 epollout (busy_in two_more) busy-IsPushing
      (omega arith)

-- The same of the edge-triggered class.
abbrev sharp : Edge.Session
sharp = record { fd = 7; recv_len = 0; send_len = 2; tx = 1 ∷ 2 ∷ [] }

abbrev sharp_in : Script → Edge.State Script
sharp_in w = record { session = sharp; world = w }

sharp-IsPushing : Drains.IsPushing answer sharp
sharp-IsPushing = record { within = omega arith; front = refl }

-- The socket takes two bytes more and is full; then three bytes come in.
abbrev full_then_empty : Script
full_then_empty = ret (0 ∷ 0 ∷ []) ∷ again ∷ ret (6 ∷ 6 ∷ 6 ∷ []) ∷ again ∷ []

abbrev drained : Edge.State Script
drained = record {
  session = record { fd = 7; recv_len = 3; send_len = 4; tx = 1 ∷ 2 ∷ 3 ∷ 4 ∷ [] };
  world = [];
}

handle-Drained_example :
    Drained scripted scripted-IsFinite answer 9 false false
      (sharp_in full_then_empty)
      (done 0)
      drained
unfolding Edge.handle Edge.handle_send Edge.send_buf Edge.send_loop Edge.send_step Edge.sent
    Edge.send_end Edge.send_stopped Edge.handle_recv Edge.recv_step
handle-Drained_example =
    handle-Drained scripted scripted-IsFinite answer 9 5 (sharp_in full_then_empty) sharp-IsPushing
      (omega arith)
