-- ===== src/Push/Edge/Handles.antt =====
-- What one event does to a connection of server_epoll_et.cpp, and to its server.
use linux_programming.Prelude.{
  ℕ, zero, suc, ◌≤◌, ◌<◌, ◌≡◌, ◌≢◌, refl, ◌∙◌, ap, Bool, true, false, not, some, List, arith,
  length, bit_and, ◌==◌, if◌then◌else◌, if_lem,
}
use linux_programming.Kernel.{Kernel, IsFinite, epollin, epollout}
use linux_programming.Response.Calls.{Exit, done, error, exhausted}
use linux_programming.Push.Server.{Server, IsWorking, on_events}
use linux_programming.Push.Events.{IsServing, on_events-Serves}
use linux_programming.Push.Edge.{
  State, zero_or_error, and_then, edge, send_buf, construct, handle_recv, handle_send, handle,
}
use linux_programming.Push.Edge.Drains.{IsPushing, Keeps, IsFull, Sent, send_buf-drains}
use linux_programming.Push.Edge.Receive.{IsEmpty, Received, handle_recv-Received}

module _ (K : Kernel) (finite : IsFinite K) (reponse : List ℕ) where
  open K use {World}
  open finite use {supply}

  abbrev IsWaiting : State World → Type 0
  IsWaiting t = (t.send_len < length reponse) × IsFull K finite reponse t

  -- From the end of sending to the end of `handle`.
  abbrev Then : (rounds : ℕ) (no_in : Bool) → State World → State World → Type 0
  Then rounds true m t = m ≡ t
  Then rounds false m t = (handle_recv K reponse rounds m).1 ≡ t

  -- What `handle` leaves, on an event that asks to send unless `no_out` and to receive unless
  -- `no_in`: what a connection that stays open was asked to do, it has done until EAGAIN; `full` names
  -- the state between sending and receiving.
  pub record Drained (rounds : ℕ) (no_out no_in : Bool) (s : State World) (x : Exit)
      (t : State World) : Type 0 where
    pub keeps : Keeps K finite reponse s t
    pub ends : x ≢ exhausted
    pub full :
        (n : ℕ)
        → x ≡ done n
        → no_out ≡ false
        → (m : State World) × IsWaiting m × Then rounds no_in m t
    pub empty : (n : ℕ) → x ≡ done n → no_in ≡ false → IsEmpty K finite reponse t

  here : (s : State World) → IsPushing reponse s.session → Keeps K finite reponse s s
  here s v = record { pushing = v; same_fd = refl; supplies = omega arith }

  zero_or_error-Drained :
      (rounds : ℕ) (s : State World) (x : Exit) (t : State World)
      → Sent K finite reponse s x t
      → let (y, u) = zero_or_error (x, t) in Drained rounds false true s y u
  zero_or_error-Drained rounds s (done zero) t e = record {
    keeps = e.keeps;
    ends = e.ends;
    full = λ n q o. (t, e.full refl, refl);
    empty = λ n q i. absurd (cc i);
  }
  zero_or_error-Drained rounds s (done (suc n)) t e = record {
    keeps = e.keeps;
    ends = λ q. cc q;
    full = λ n q o. absurd (cc q);
    empty = λ n q i. absurd (cc q);
  }
  zero_or_error-Drained rounds s error t e = record {
    keeps = e.keeps;
    ends = λ q. cc q;
    full = λ n q o. absurd (cc q);
    empty = λ n q i. absurd (cc q);
  }
  zero_or_error-Drained rounds s exhausted t e = absurd (e.ends refl)

  sending-Drained :
      (rounds : ℕ) (no_out : Bool) (s : State World)
      → IsPushing reponse s.session
      → let (x, t) = if no_out then (done 0, s) else handle_send K reponse s in
        Drained rounds no_out true s x t
  unfolding handle_send
  sending-Drained rounds true s v = record {
    keeps = here s v;
    ends = λ q. cc q;
    full = λ n q o. absurd (cc o);
    empty = λ n q i. absurd (cc i);
  }
  sending-Drained rounds false s v =
      let r = send_buf K reponse s in
      zero_or_error-Drained rounds s r.0 r.1 (send_buf-drains K finite reponse s v)

  joined :
      (rounds : ℕ) (no_out : Bool) (s t : State World) (x y : Exit) (u : State World) (k : ℕ)
      → x ≡ done k
      → (handle_recv K reponse rounds t).1 ≡ u
      → Drained rounds no_out true s x t
      → Received K finite reponse t y u
      → let (z, w) = and_then (y, u) (λ u. (done 0, u)) in Drained rounds no_out false s z w
  joined rounds no_out s t x (done n) u k p c e r = record {
    keeps = record {
      pushing = r.keeps.pushing;
      same_fd = r.keeps.same_fd ∙ e.keeps.same_fd;
      supplies = omega (arith, e.keeps.supplies, r.keeps.supplies);
    };
    ends = λ q. cc q;
    full = λ n q o.
        let (m, waiting, same) = e.full k p o in
        (m, waiting, ap (λ z. (handle_recv K reponse rounds z).1) same ∙ c);
    empty = λ j q i. r.empty n refl;
  }
  joined rounds no_out s t x error u k p c e r = record {
    keeps = record {
      pushing = r.keeps.pushing;
      same_fd = r.keeps.same_fd ∙ e.keeps.same_fd;
      supplies = omega (arith, e.keeps.supplies, r.keeps.supplies);
    };
    ends = λ q. cc q;
    full = λ n q o. absurd (cc q);
    empty = λ n q i. absurd (cc q);
  }
  joined rounds no_out s t x exhausted u k p c e r = absurd (r.ends refl)

  receiving-Drained :
      (rounds : ℕ) (no_out no_in : Bool) (s : State World) (x : Exit) (t : State World)
      → Drained rounds no_out true s x t
      → supply t.world < rounds
      → let (y, u) =
          and_then
            (x, t)
            (λ t.
              and_then
                (if no_in then (done 0, t) else handle_recv K reponse rounds t)
                (λ u. (done 0, u))) in
        Drained rounds no_out no_in s y u
  receiving-Drained rounds no_out true s (done n) t e h = record {
    keeps = e.keeps;
    ends = λ q. cc q;
    full = λ m q o. e.full n refl o;
    empty = λ m q i. absurd (cc i);
  }
  receiving-Drained rounds no_out false s (done n) t e h =
      let r = handle_recv K reponse rounds t in
      joined rounds no_out s t (done n) r.0 r.1 n refl refl e
        (handle_recv-Received K finite reponse rounds t e.keeps.pushing h)
  receiving-Drained rounds no_out no_in s error t e h = record {
    keeps = e.keeps;
    ends = e.ends;
    full = λ n q o. absurd (cc q);
    empty = λ n q i. absurd (cc q);
  }
  receiving-Drained rounds no_out no_in s exhausted t e h = absurd (e.ends refl)

  -- When the client sends finitely many times, `handle` of server_epoll_et.cpp ends on every event.
  -- The socket has accepted the front of the response. If it does not return -1, then after EPOLLOUT
  -- more is to send and the last `send` answered EAGAIN to all of it, and after EPOLLIN the last call
  -- was a `recv` that answered EAGAIN.
  pub handle-Drained :
      (rounds ev : ℕ) (s : State World)
      → IsPushing reponse s.session
      → supply s.world < rounds
      → let (x, t) = handle K reponse rounds ev s in
        Drained rounds (bit_and ev epollout == 0) (bit_and ev epollin == 0) s x t
  unfolding handle
  handle-Drained rounds ev s v h =
      let no_out = bit_and ev epollout == 0 in
      let no_in = bit_and ev epollin == 0 in
      if_lem (λ (r : Exit × State World). Drained rounds no_out no_in s r.0 r.1)
        (not (bit_and ev 0xffff_fffa == 0)) (error, s) _
        (λ e. record {
          keeps = here s v;
          ends = λ q. cc q;
          full = λ n q o. absurd (cc q);
          empty = λ n q i. absurd (cc q);
        })
        (λ e.
          let first = sending-Drained rounds no_out s v in
          receiving-Drained rounds no_out no_in s _ _ first
            (omega (arith, first.keeps.supplies, h)))

  pub edge-IsWorking : IsWorking K (edge K reponse) finite (IsPushing reponse)
  unfolding construct
  edge-IsWorking = record {
    construct_works = λ fd epoll_fd interest w.
        let e =
          send_buf-drains K finite reponse _ (record { within = omega arith; front = refl }) in
        (e.keeps.pushing, e.keeps.same_fd, e.ends, e.keeps.supplies);
    handle_works = λ rounds ev c w p h.
        let e = handle-Drained rounds ev (record { session = c; world = w }) p h in
        (e.keeps.pushing, e.keeps.same_fd, e.ends, e.keeps.supplies);
  }

  -- When the clients send finitely many times, every batch of events of server_epoll_et.cpp is
  -- handled to its end, and afterwards still every connection is found under its own descriptor, and
  -- its socket has accepted the front of the response.
  pub edge_serves :
      (rounds listen_fd epoll_fd : ℕ) (es : List (ℕ × ℕ)) (s : Server K (edge K reponse))
      → IsServing K (edge K reponse) finite (IsPushing reponse) edge-IsWorking s
      → supply s.world < rounds
      → (t : Server K (edge K reponse)) × (on_events K
            (edge K reponse)
            rounds
            listen_fd
            epoll_fd
            es
            s
          ≡ some t)
        × IsServing K (edge K reponse) finite (IsPushing reponse) edge-IsWorking t
        × (supply t.world ≤ supply s.world)
  edge_serves = on_events-Serves K (edge K reponse) finite (IsPushing reponse) edge-IsWorking
