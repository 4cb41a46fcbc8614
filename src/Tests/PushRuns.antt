-- ===== src/Tests/PushRuns.antt =====
-- server_epollout.cpp, run on a scripted kernel with a response of five bytes.
use linux_programming.Prelude.{
  ℕ, ◌≡◌, ◌≢◌, ◌≤◌, ◌==◌, refl, update, Bool-cases, inl, inr, true, none, some, List, [], ◌∷◌,
  arith, length,
}
use linux_programming.Kernel.{Reply, ret, again, epollout}
use linux_programming.Kernel.Scripted.{Script, scripted, scripted-IsFinite}
use linux_programming.Response.Calls.{done, error, exhausted}
use linux_programming.Push.{
  Session, State, sent, send_loop, send_step, send_stopped, send_end, send_buf, handle, handle_send,
}
use linux_programming.Push.Server.{Server, on_events}
use linux_programming.Push.Pushing.{pusher, pusher-IsWorking, pushing_serves}
use linux_programming.Push.Send.{IsPushing, Keeps, IsWaiting, IsRegistered, send_buf-Sent}
use linux_programming.Push.Handle.{handle-Written}
use linux_programming.Push.Events.{IsServing}
use mathlib.Core.Path.{subst}

abbrev answer : List ℕ
answer = 1 ∷ 2 ∷ 3 ∷ 4 ∷ 5 ∷ []

-- Two bytes are sent, and the socket is full.
abbrev busy : Session
busy = record {
  conn = record { fd = 7; epoll_fd = 3; recv_len = 0; send_len = 2; enable_epollout = true };
  tx = 1 ∷ 2 ∷ [];
  interest = 5;
  ctl_ok = true;
}

abbrev busy_in : Script → State Script
busy_in w = record { session = busy; world = w }

busy-IsPushing : IsPushing answer busy
busy-IsPushing = record { within = omega arith; front = refl }

-- The socket takes two bytes more, and is full again.
abbrev two_more : Script
two_more = ret (0 ∷ 0 ∷ []) ∷ again ∷ []

-- The socket takes the rest.
abbrev the_rest : Script
the_rest = ret (0 ∷ 0 ∷ 0 ∷ []) ∷ []

send_buf_waits : (send_buf scripted answer (busy_in two_more)).0 ≡ done 0
unfolding send_buf send_loop send_step sent send_end send_stopped
send_buf_waits = refl

send_buf_finishes : (send_buf scripted answer (busy_in the_rest)).0 ≡ done 1
unfolding send_buf send_loop send_step sent send_end send_stopped
send_buf_finishes = refl

-- The event with which the last byte goes out closes the connection.
last_byte_closes : (handle scripted answer 9 epollout (busy_in the_rest)).0 ≡ error
unfolding handle handle_send send_buf send_loop send_step sent send_end send_stopped
last_byte_closes = refl

abbrev waiting : State Script
waiting = record {
  session = record {
    conn = record { fd = 7; epoll_fd = 3; recv_len = 0; send_len = 4; enable_epollout = true };
    tx = 1 ∷ 2 ∷ 3 ∷ 4 ∷ [];
    interest = 5;
    ctl_ok = true;
  };
  world = [];
}

send_buf-Sent_example :
    (Keeps answer (busy_in two_more) waiting × IsWaiting answer waiting.session)
    × IsRegistered waiting.session
    × ((tmp : Reply ℕ) × (some again ≡ some tmp) × (tmp ≡ again))
unfolding send_buf send_loop send_step sent send_end send_stopped
send_buf-Sent_example = send_buf-Sent scripted answer (busy_in two_more) busy-IsPushing (inr refl)

handle-Written_example :
    ((Keeps answer (busy_in two_more) waiting × (0 ≤ 2) × (done 0 ≢ exhausted))
      × ((n : ℕ) → done 0 ≡ done n → true ≡ true → IsWaiting answer waiting.session))
    × IsRegistered waiting.session
unfolding handle handle_send send_buf send_loop send_step sent send_end send_stopped
handle-Written_example =
    handle-Written scripted scripted-IsFinite answer 9 epollout (busy_in two_more) busy-IsPushing
      (inr refl) (omega arith)

-- The connection gets an EPOLLOUT, and a new client comes in on descriptor 8.
abbrev crowd : Server scripted (pusher scripted answer)
crowd = record {
  conns = update (λ q. none) 7 (some busy);
  world = ret (0 ∷ 0 ∷ 0 ∷ []) ∷ ret (8 ∷ []) ∷ [];
}

crowd-IsServing :
    (fd : ℕ) (c : Session) → crowd.conns fd ≡ some c → (c.fd ≡ fd) × IsPushing answer c
crowd-IsServing fd c e = elim (Bool-cases (7 == fd)) [
  | inl same ↦
      let e' : some busy ≡ some c = ground arith in
      let b : busy ≡ c = cc e' in
      let own : 7 ≡ fd = ground arith in
      subst (λ x. (x.fd ≡ fd) × IsPushing answer x) b (own, busy-IsPushing)
  | inr other ↦ absurd (ground arith)
]

abbrev batch : List (ℕ × ℕ)
batch = (7, epollout) ∷ (4, 1) ∷ []

pushing_serves_example :
    (t : Server scripted (pusher scripted answer)) × (on_events scripted
        (pusher scripted answer)
        9
        4
        3
        batch
        crowd
      ≡ some t)
    × IsServing scripted
        (pusher scripted answer)
        scripted-IsFinite
        (IsPushing answer)
        (pusher-IsWorking scripted answer scripted-IsFinite)
        t
    × (length t.world ≤ 2)
pushing_serves_example =
    pushing_serves scripted answer scripted-IsFinite 9 4 3 batch crowd crowd-IsServing (omega arith)
