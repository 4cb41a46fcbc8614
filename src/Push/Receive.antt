-- ===== src/Push/Receive.antt =====
-- `handle_recv` of network/tcp_echo/server_epollout.cpp, for clients that send finitely
-- many times.
use linux_programming.Prelude.{
  ℕ, zero, suc, ◌+◌, ◌-◌, ◌%◌, ◌^◌, ◌≤◌, ◌<◌, ◌≡◌, ◌≢◌, refl, Bool, true, false, Option, List, [],
  ◌∷◌, inl, inr, arith, length, drop, Bool-cases, Option-cases, ltb, ◌==◌, if_lem,
}
use linux_programming.Kernel.{Reply, ret, again, fail, Kernel, IsFinite, modify}
use linux_programming.Response.Calls.{Exit, exhausted}
use linux_programming.Push.{
  State, buf_size, set_epollout, sent, send_step, send_loop, send_stopped, send_end, send_buf,
  recv_step, handle_recv,
}
use linux_programming.Push.Send.{IsPushing, Keeps}

module _ (K : Kernel) (finite : IsFinite K) (reponse : List ℕ) where
  open K use {World, recv, send}
  open finite use {supply, recv_uses, recv_keeps, send_keeps, ctl_keeps}

  pub set_epollout-supply :
      (flag : Bool) (s : State World)
      → supply (set_epollout K reponse flag s).world ≤ supply s.world
  unfolding set_epollout
  set_epollout-supply flag s = ctl_keeps s.epoll_fd modify s.fd _ s.world

  send_step-supply :
      (continue : Reply ℕ → State World → Option (Reply ℕ) × State World) (bs : List ℕ)
      (r : Reply ℕ) (w : World) (s : State World)
      → ((tmp : Reply ℕ) (t : State World) → supply (continue tmp t).1.world ≤ supply t.world)
      → supply (send_step K reponse continue bs r w s).1.world ≤ supply w
  unfolding send_step sent
  send_step-supply continue bs (ret zero) w s k = omega arith
  send_step-supply continue bs (ret (suc n)) w s k = k (ret (suc n)) _
  send_step-supply continue bs again w s k = omega arith
  send_step-supply continue bs fail w s k = omega arith

  send_loop-supply :
      (fuel : ℕ) (tmp : Reply ℕ) (s : State World)
      → supply (send_loop K reponse fuel tmp s).1.world ≤ supply s.world
  unfolding send_loop
  send_loop-supply zero tmp s = omega arith
  send_loop-supply (suc fuel) tmp s = elim (Bool-cases (ltb s.send_len (length reponse))) [
    | inl more ↦
        rw (more, send_loop)
          (omega (
            arith,
            send_step-supply (send_loop K reponse fuel) (drop s.send_len reponse)
                ((send s.fd (drop s.send_len reponse) s.world).0)
                ((send s.fd (drop s.send_len reponse) s.world).1) s (send_loop-supply fuel),
            send_keeps s.fd (drop s.send_len reponse) s.world,
          ))
    | inr all ↦ rw (all, send_loop) (omega arith)
  ]

  send_stopped-supply :
      (tmp : Reply ℕ) (s : State World)
      → supply (send_stopped K reponse tmp s).1.world ≤ supply s.world
  unfolding send_stopped
  send_stopped-supply again s =
      if_lem (λ t. supply t.world ≤ supply s.world) s.enable_epollout s
        (set_epollout K reponse true s) (λ e. omega arith) (λ e. set_epollout-supply true s)
  send_stopped-supply (ret n) s = omega arith
  send_stopped-supply fail s = omega arith

  send_end-supply :
      (tmp : Reply ℕ) (s : State World) → supply (send_end K reponse tmp s).1.world ≤ supply s.world
  unfolding send_end
  send_end-supply tmp s =
      if_lem (λ r. supply r.1.world ≤ supply s.world) (s.send_len == length reponse) _
        (send_stopped K reponse tmp s)
        (λ e.
          if_lem (λ t. supply t.world ≤ supply s.world) s.enable_epollout
            (set_epollout K reponse false s) s (λ e. set_epollout-supply false s)
            (λ e. omega arith))
        (λ e. send_stopped-supply tmp s)

  pub send_buf-supply : (s : State World) → supply (send_buf K reponse s).1.world ≤ supply s.world
  unfolding send_buf
  send_buf-supply s =
      let fuel = length reponse - s.send_len + 1 in
      let looped = send_loop-supply fuel (ret 0) s in
      elim (Option-cases ((send_loop K reponse fuel (ret 0) s).0)) [
        | inl out ↦ rw (out, send_buf) looped
        | inr (tmp, e) ↦
            rw (e, send_buf)
              (omega (arith, looped, send_end-supply tmp ((send_loop K reponse fuel (ret 0) s).1)))
      ]

  -- What receiving keeps: everything but `recv_len`.
  abbrev pub Received : State World → Exit × State World → Type 0
  Received s (x, t) =
      Keeps reponse s t
      × (t.send_len ≡ s.send_len)
      × (t.enable_epollout ≡ s.enable_epollout)
      × (supply t.world ≤ supply s.world)
      × (x ≢ exhausted)

  pub stays :
      (s : State World) (w : World)
      → IsPushing reponse s.session
      → Keeps reponse s (record s { world = w })
  stays s w v = record {
    pushing = v;
    onward = omega arith;
    same_fd = refl;
    turns = inr (refl, refl, refl);
  }

  recv_step-Received :
      (rounds : ℕ) (continue : State World → Exit × State World) (r : Reply (List ℕ)) (w : World)
      (s : State World)
      → IsPushing reponse s.session
      → supply s.world < suc rounds
      → supply w ≤ supply s.world
      → ((b : ℕ) (bs : List ℕ) → r ≡ ret (b ∷ bs) → supply w < supply s.world)
      → ((t : State World)
          → IsPushing reponse t.session
          → supply t.world < rounds
          → Received t (continue t))
      → Received s (recv_step K reponse continue r w s)
  unfolding recv_step
  recv_step-Received rounds continue (ret []) w s v h k u f =
      (stays s w v, refl, refl, k, λ e. cc e)
  recv_step-Received rounds continue (ret (b ∷ bs)) w s v h k u f =
      let less : supply w < supply s.world = u b bs refl in
      let n = (s.recv_len + length (b ∷ bs)) % 2 ^ 32 in
      let after : State World = record s {
        session = record (s.session) { conn = record (s.conn) { recv_len = n } };
        world = w;
      } in
      let (keeps, same, armed, keeps_supply, ends) =
        f after (record { within = v.within; front = v.front }) (omega (arith, less, h)) in
      (
        record {
          pushing = keeps.pushing;
          onward = keeps.onward;
          same_fd = keeps.same_fd;
          turns = keeps.turns;
        },
        same,
        armed,
        omega (arith, less, keeps_supply),
        ends,
      )
  recv_step-Received rounds continue again w s v h k u f = (stays s w v, refl, refl, k, λ e. cc e)
  recv_step-Received rounds continue fail w s v h k u f = (stays s w v, refl, refl, k, λ e. cc e)

  pub handle_recv-Received :
      (rounds : ℕ) (s : State World)
      → IsPushing reponse s.session
      → supply s.world < rounds
      → Received s (handle_recv K reponse rounds s)
  unfolding handle_recv
  handle_recv-Received zero s v h = absurd (omega arith)
  handle_recv-Received (suc rounds) s v h =
      recv_step-Received rounds (handle_recv K reponse rounds) ((recv s.fd buf_size s.world).0)
        ((recv s.fd buf_size s.world).1) s v h (recv_keeps s.fd buf_size s.world)
        (recv_uses s.fd buf_size s.world) (handle_recv-Received rounds)
