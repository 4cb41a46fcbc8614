-- ===== src/Push/Single/Serves.antt =====
-- What one event does to a connection of server_epollout_simple.cpp, and to its server.
use linux_programming.Prelude.{
  ℕ, zero, suc, ◌≤◌, ◌<◌, ◌≡◌, ◌≢◌, refl, ◌∙◌, Bool, true, false, not, some, List, [], ◌∷◌, arith,
  bit_and, ◌==◌, if◌then◌else◌, if_lem,
}
use linux_programming.Kernel.{Reply, ret, again, fail, Kernel, IsFinite, epollin, epollout}
use linux_programming.Response.Calls.{Exit, done, error, exhausted}
use linux_programming.Push.{State, buf_size, recv_step, handle_recv, zero_or_error, and_then}
use linux_programming.Echo.Control.{Turns-trans}
use linux_programming.Push.Send.{control, IsPushing, Keeps, stays}
use linux_programming.Push.Receive.{handle_recv-Received}
use linux_programming.Push.Server.{Server, IsWorking, on_events}
use linux_programming.Push.Events.{IsServing, on_events-Serves}
use linux_programming.Push.Single.{both, single, send_buf, construct, handle_send, handle}
use linux_programming.Push.Single.Send.{Stays, send_buf-Stays}

module _ (K : Kernel) (finite : IsFinite K) (reponse : List ℕ) where
  open K use {World, send, recv, send_bound}
  open finite use {supply, send_keeps}

  -- The same of a method whose results are 0 and -1.
  pub record Handled (s : State World) (x : Exit) (t : State World) : Type 0 where
    pub keeps : Keeps reponse s t
    pub supplies : supply t.world ≤ supply s.world
    pub ends : x ≢ exhausted
    pub listens : s.interest ≡ both → (n : ℕ) → x ≡ done n → t.interest ≡ both

  zero_or_error-Handled :
      (s : State World) (x : Exit) (t : State World)
      → Stays K finite reponse s x t
      → let (y, u) = zero_or_error (x, t) in Handled s y u
  zero_or_error-Handled s (done zero) t e = record {
    keeps = e.keeps;
    supplies = e.supplies;
    ends = e.ends;
    listens = λ i n q. e.listens i refl;
  }
  zero_or_error-Handled s (done (suc n)) t e = record {
    keeps = e.keeps;
    supplies = e.supplies;
    ends = λ q. cc q;
    listens = λ i n q. absurd (cc q);
  }
  zero_or_error-Handled s error t e = record {
    keeps = e.keeps;
    supplies = e.supplies;
    ends = e.ends;
    listens = λ i n q. absurd (cc q);
  }
  zero_or_error-Handled s exhausted t e = absurd (e.ends refl)

  recv_step-interest :
      (continue : State World → Exit × State World) (r : Reply (List ℕ)) (w : World)
      (s : State World)
      → ((t : State World) → (continue t).1.interest ≡ t.interest)
      → (recv_step K reponse continue r w s).1.interest ≡ s.interest
  unfolding recv_step
  recv_step-interest continue (ret []) w s f = refl
  recv_step-interest continue (ret (b ∷ bs)) w s f = f _
  recv_step-interest continue again w s f = refl
  recv_step-interest continue fail w s f = refl

  handle_recv-interest :
      (rounds : ℕ) (s : State World) → (handle_recv K reponse rounds s).1.interest ≡ s.interest
  unfolding handle_recv
  handle_recv-interest zero s = refl
  handle_recv-interest (suc rounds) s =
      recv_step-interest (handle_recv K reponse rounds) ((recv s.fd buf_size s.world).0)
        ((recv s.fd buf_size s.world).1) s (handle_recv-interest rounds)

  untouched :
      (x : Exit) (s : State World) → IsPushing reponse s.session → x ≢ exhausted → Handled s x s
  untouched x s v e = record {
    keeps = stays K reponse s v;
    supplies = omega arith;
    ends = e;
    listens = λ i n q. i;
  }

  handle_recv-Handled :
      (rounds : ℕ) (s : State World)
      → IsPushing reponse s.session
      → supply s.world < rounds
      → let (x, t) = handle_recv K reponse rounds s in Handled s x t
  handle_recv-Handled rounds s v h =
      let (k, len, on, l, e) = handle_recv-Received K finite reponse rounds s v h in
      record {
        keeps = k;
        supplies = l;
        ends = e;
        listens = λ i n q. handle_recv-interest rounds s ∙ i;
      }

  -- One method after another.
  and_then-Handled :
      (s : State World) (x : Exit) (t : State World) (k : State World → Exit × State World)
      → Handled s x t
      → ((n : ℕ) → x ≡ done n → let (y, u) = k t in Handled t y u)
      → let (y, u) = and_then (x, t) k in Handled s y u
  and_then-Handled s (done n) t k e f =
      let g = f n refl in
      record {
        keeps = record {
          pushing = g.keeps.pushing;
          onward = omega (arith, e.keeps.onward, g.keeps.onward);
          same_fd = g.keeps.same_fd ∙ e.keeps.same_fd;
          turns =
              Turns-trans (control s.session) (control t.session) (control (k t).1.session)
                e.keeps.turns g.keeps.turns;
        };
        supplies = omega (arith, e.supplies, g.supplies);
        ends = g.ends;
        listens = λ i m q. g.listens (e.listens i n refl) m q;
      }
  and_then-Handled s error t k e f = e
  and_then-Handled s exhausted t k e f = e

  receiving-Handled :
      (rounds ev : ℕ) (t : State World)
      → IsPushing reponse t.session
      → supply t.world < rounds
      → let (x, u) =
          and_then
            (if bit_and ev epollin == 0 then (done 0, t) else handle_recv K reponse rounds t)
            (λ u. (done 0, u)) in
        Handled t x u
  receiving-Handled rounds ev t v h =
      if_lem
        (λ (r : Exit × State World). let (x, u) = and_then r (λ u. (done 0, u)) in Handled t x u)
        (bit_and ev epollin == 0) (done 0, t) (handle_recv K reponse rounds t)
        (λ e. untouched (done 0) t v (λ q. cc q))
        (λ e.
          let r = handle_recv K reponse rounds t in
          let first = handle_recv-Handled rounds t v h in
          and_then-Handled t r.0 r.1 (λ u. (done 0, u)) first
            (λ n q. untouched (done 0) r.1 first.keeps.pushing (λ z. cc z)))

  sending-Handled :
      (skip : Bool) (s : State World)
      → IsPushing reponse s.session
      → let (x, t) = if skip then (done 0, s) else handle_send K reponse s in Handled s x t
  unfolding handle_send
  sending-Handled true s v = untouched (done 0) s v (λ q. cc q)
  sending-Handled false s v =
      let r = send_buf K reponse s in
      zero_or_error-Handled s r.0 r.1 (send_buf-Stays K finite reponse s v)

  -- When the client sends finitely many times, `handle` of server_epollout_simple.cpp ends on every
  -- event. What the socket has accepted stays the front of the response, and a connection that stays
  -- open is asked for EPOLLIN and EPOLLOUT if it was before.
  pub handle-Handled :
      (rounds ev : ℕ) (s : State World)
      → IsPushing reponse s.session
      → supply s.world < rounds
      → let (x, t) = handle K reponse rounds ev s in Handled s x t
  unfolding handle
  handle-Handled rounds ev s v h =
      if_lem (λ (r : Exit × State World). Handled s r.0 r.1) (not (bit_and ev 0xffff_fffa == 0))
        (error, s) _ (λ e. untouched error s v (λ q. cc q))
        (λ e.
          let first = sending-Handled (bit_and ev epollout == 0) s v in
          and_then-Handled s _ _ _ first (λ n q.
            receiving-Handled rounds ev _ first.keeps.pushing (omega (arith, first.supplies, h))))

  pub single-IsWorking : IsWorking K (single K reponse) finite (IsPushing reponse)
  unfolding construct
  single-IsWorking = record {
    construct_works = λ fd epoll_fd interest w.
        let e = send_buf-Stays K finite reponse _ (record { within = omega arith; front = refl }) in
        (e.keeps.pushing, e.keeps.same_fd, e.ends, e.supplies);
    handle_works = λ rounds ev c w p h.
        let e = handle-Handled rounds ev (record { session = c; world = w }) p h in
        (e.keeps.pushing, e.keeps.same_fd, e.ends, e.supplies);
  }

  -- When the clients send finitely many times, every batch of events of server_epollout_simple.cpp is
  -- handled to its end, and afterwards still every connection is found under its own descriptor, and
  -- its socket has accepted the front of the response.
  pub single_serves :
      (rounds listen_fd epoll_fd : ℕ) (es : List (ℕ × ℕ)) (s : Server K (single K reponse))
      → IsServing K (single K reponse) finite (IsPushing reponse) single-IsWorking s
      → supply s.world < rounds
      → (t : Server K (single K reponse)) × (on_events K
            (single K reponse)
            rounds
            listen_fd
            epoll_fd
            es
            s
          ≡ some t)
        × IsServing K (single K reponse) finite (IsPushing reponse) single-IsWorking t
        × (supply t.world ≤ supply s.world)
  single_serves = on_events-Serves K (single K reponse) finite (IsPushing reponse) single-IsWorking
