-- ===== src/Push/Edge/Receive.antt =====
-- `handle_recv` of server_epoll_et.cpp: when it stops.
use linux_programming.Prelude.{ℕ, zero, suc, ◌≤◌, ◌<◌, ◌≡◌, ◌≢◌, refl, List, [], ◌∷◌, arith}
use linux_programming.Kernel.{Reply, ret, again, fail, Kernel, IsFinite}
use linux_programming.Response.Calls.{Exit, done, exhausted}
use linux_programming.Push.{buf_size}
use linux_programming.Push.Edge.{State, recv_step, handle_recv}
use linux_programming.Push.Edge.Drains.{IsPushing, Keeps}

module _ (K : Kernel) (finite : IsFinite K) (reponse : List ℕ) where
  open K use {World, send, recv, send_bound}
  open finite use {supply, send_keeps, recv_keeps, recv_uses}

  -- The socket has answered EAGAIN to the last `recv`.
  abbrev pub IsEmpty : State World → Type 0
  IsEmpty t =
      (w : World) × ((recv t.fd buf_size w).0 ≡ again) × ((recv t.fd buf_size w).1 ≡ t.world)

  -- What receiving leaves: after 0 the socket is empty.
  pub record Received (s : State World) (x : Exit) (t : State World) : Type 0 where
    pub keeps : Keeps K finite reponse s t
    pub same_len : t.send_len ≡ s.send_len
    pub ends : x ≢ exhausted
    pub empty : (n : ℕ) → x ≡ done n → IsEmpty t

  recv_step-Received :
      (rounds : ℕ) (continue : State World → Exit × State World) (old : World) (r : Reply (List ℕ))
      (w : World) (s : State World)
      → IsPushing reponse s.session
      → supply s.world < suc rounds
      → supply w ≤ supply s.world
      → (recv s.fd buf_size old).0 ≡ r
      → (recv s.fd buf_size old).1 ≡ w
      → ((b : ℕ) (bs : List ℕ) → r ≡ ret (b ∷ bs) → supply w < supply s.world)
      → ((t : State World)
          → IsPushing reponse t.session
          → supply t.world < rounds
          → let (x, u) = continue t in Received t x u)
      → let (x, t) = recv_step K reponse continue r w s in Received s x t
  unfolding recv_step
  recv_step-Received rounds continue old (ret []) w s v h l e e' u f = record {
    keeps = record { pushing = v; same_fd = refl; supplies = l };
    same_len = refl;
    ends = λ q. cc q;
    empty = λ n q. absurd (cc q);
  }
  recv_step-Received rounds continue old (ret (b ∷ bs)) w s v h l e e' u f =
      let less : supply w < supply s.world = u b bs refl in
      let g = f _ (record { within = v.within; front = v.front }) (omega (arith, less, h)) in
      record {
        keeps = record {
          pushing = g.keeps.pushing;
          same_fd = g.keeps.same_fd;
          supplies = omega (arith, less, g.keeps.supplies);
        };
        same_len = g.same_len;
        ends = g.ends;
        empty = g.empty;
      }
  recv_step-Received rounds continue old again w s v h l e e' u f = record {
    keeps = record { pushing = v; same_fd = refl; supplies = l };
    same_len = refl;
    ends = λ q. cc q;
    empty = λ n q. (old, e, e');
  }
  recv_step-Received rounds continue old fail w s v h l e e' u f = record {
    keeps = record { pushing = v; same_fd = refl; supplies = l };
    same_len = refl;
    ends = λ q. cc q;
    empty = λ n q. absurd (cc q);
  }

  pub handle_recv-Received :
      (rounds : ℕ) (s : State World)
      → IsPushing reponse s.session
      → supply s.world < rounds
      → let (x, t) = handle_recv K reponse rounds s in Received s x t
  unfolding handle_recv
  handle_recv-Received zero s v h = absurd (omega arith)
  handle_recv-Received (suc rounds) s v h =
      recv_step-Received rounds (handle_recv K reponse rounds) s.world
        ((recv s.fd buf_size s.world).0) ((recv s.fd buf_size s.world).1) s v h
        (recv_keeps s.fd buf_size s.world) refl refl (recv_uses s.fd buf_size s.world)
        (handle_recv-Received rounds)
