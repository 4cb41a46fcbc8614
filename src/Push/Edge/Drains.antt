-- ===== src/Push/Edge/Drains.antt =====
-- `send_buf` of server_epoll_et.cpp: when it stops.
use linux_programming.Prelude.{
  ℕ, zero, suc, ◌+◌, ◌-◌, ◌≤◌, ◌<◌, ◌≡◌, ◌≢◌, refl, ◌∙◌, ap, sym, Option, none, some, List, ◌++◌,
  inl, inr, arith, length, take, drop, ltb, ◌==◌, if_lem, Bool-cases, Option-cases, length-take,
  length-drop, take-add,
}
use linux_programming.Kernel.{Reply, ret, again, fail, Kernel, IsFinite}
use linux_programming.Response.Calls.{Exit, done, exhausted}
use linux_programming.Push.Edge.{
  Session, State, sent, send_step, send_loop, send_stopped, send_end, send_buf,
}

-- What the socket of a connection has accepted is the front of the response.
pub record IsPushing (reponse : List ℕ) (c : Session) : Type 0 where
  pub within : c.send_len ≤ length reponse
  pub front : c.tx ≡ take c.send_len reponse

module _ (K : Kernel) (finite : IsFinite K) (reponse : List ℕ) where
  open K use {World, send, recv, send_bound}
  open finite use {supply, send_keeps, recv_keeps, recv_uses}

  pub record Keeps (s t : State World) : Type 0 where
    pub pushing : IsPushing reponse t.session
    pub same_fd : t.fd ≡ s.fd
    pub supplies : supply t.world ≤ supply s.world

  -- The last call was a `send` of all that is left, and the socket answered EAGAIN.
  abbrev pub IsFull : State World → Type 0
  IsFull t =
      (w : World) × ((send t.fd (drop t.send_len reponse) w).0 ≡ again)
      × ((send t.fd (drop t.send_len reponse) w).1 ≡ t.world)

  abbrev Loops : State World → Option (Reply ℕ) × State World → Type 0
  Loops s (o, t) = Keeps s t × (o ≢ none) × (o ≡ some again → IsFull t)

  sent-IsPushing :
      (n : ℕ) (w : World) (s : State World)
      → IsPushing reponse s.session
      → suc n ≤ length reponse - s.send_len
      → let t = sent K reponse (take (suc n) (drop s.send_len reponse)) w s in
        IsPushing reponse t.session × (t.send_len ≡ s.send_len + suc n)
  unfolding sent
  sent-IsPushing n w s v h =
      let bs = drop s.send_len reponse in
      let e : length (take (suc n) bs) ≡ suc n =
        omega (arith, length-take (suc n) bs, length-drop s.send_len reponse) in
      rw e (
        record {
          within = omega (arith, v.within);
          front =
              ap (λ l. l ++ take (suc n) bs) v.front ∙ sym (take-add s.send_len (suc n) reponse);
        },
        refl,
      )

  moved :
      (n : ℕ) (w : World) (s : State World) {u : State World}
      → supply w ≤ supply s.world
      → Keeps (sent K reponse (take (suc n) (drop s.send_len reponse)) w s) u
      → Keeps s u
  unfolding sent
  moved n w s l q = record {
    pushing = q.pushing;
    same_fd = q.same_fd;
    supplies = omega (arith, l, q.supplies);
  }

  some_reply : {a b : Reply ℕ} → ◌≡◌ {A = Option (Reply ℕ)} (some a) (some b) → a ≡ b
  some_reply e = cc

  send_step-Loops :
      (continue : Reply ℕ → State World → Option (Reply ℕ) × State World) (fuel : ℕ) (old : World)
      (r : Reply ℕ) (w : World) (s : State World)
      → IsPushing reponse s.session
      → length reponse - s.send_len < suc fuel
      → (send s.fd (drop s.send_len reponse) old).0 ≡ r
      → (send s.fd (drop s.send_len reponse) old).1 ≡ w
      → supply w ≤ supply s.world
      → ((n : ℕ) → r ≡ ret n → n ≤ length reponse - s.send_len)
      → ((tmp : Reply ℕ) (t : State World)
          → tmp ≢ again
          → IsPushing reponse t.session
          → length reponse - t.send_len < fuel
          → Loops t (continue tmp t))
      → Loops s (send_step K reponse continue (drop s.send_len reponse) r w s)
  unfolding send_step
  send_step-Loops continue fuel old (ret zero) w s v f e e' l b k =
      (record { pushing = v; same_fd = refl; supplies = l }, λ q. cc q, λ q. absurd (cc q))
  send_step-Loops continue fuel old (ret (suc n)) w s v f e e' l b k =
      let t = sent K reponse (take (suc n) (drop s.send_len reponse)) w s in
      let (p, len) = sent-IsPushing n w s v (b (suc n) refl) in
      let (q, some_tmp, full) =
        k (ret (suc n)) t (λ z. cc z) p (omega (arith, len, b (suc n) refl)) in
      (moved n w s l q, some_tmp, full)
  send_step-Loops continue fuel old again w s v f e e' l b k =
      (record { pushing = v; same_fd = refl; supplies = l }, λ q. cc q, λ q. (old, e, e'))
  send_step-Loops continue fuel old fail w s v f e e' l b k =
      (record { pushing = v; same_fd = refl; supplies = l }, λ q. cc q, λ q. absurd (cc q))

  send_loop-Loops :
      (fuel : ℕ) (tmp : Reply ℕ) (s : State World)
      → tmp ≢ again
      → IsPushing reponse s.session
      → length reponse - s.send_len < fuel
      → Loops s (send_loop K reponse fuel tmp s)
  unfolding send_loop
  send_loop-Loops zero tmp s a v f = absurd (omega arith)
  send_loop-Loops (suc fuel) tmp s a v f = elim (Bool-cases (ltb s.send_len (length reponse))) [
    | inl more ↦
        let bs = drop s.send_len reponse in
        rw (more, send_loop)
          (send_step-Loops (send_loop K reponse fuel) fuel s.world ((send s.fd bs s.world).0)
            ((send s.fd bs s.world).1) s v f refl refl (send_keeps s.fd bs s.world)
            (λ n e. omega (arith, send_bound s.fd bs s.world n e, length-drop s.send_len reponse))
            (send_loop-Loops fuel))
    | inr all ↦
        rw (all, send_loop)
          (
            record { pushing = v; same_fd = refl; supplies = omega arith },
            λ q. cc q,
            λ q. absurd (a (some_reply q)),
          )
  ]

  -- What a sending method leaves: after 0 the socket is full, and after 1 the response is complete.
  pub record Sent (s : State World) (x : Exit) (t : State World) : Type 0 where
    pub keeps : Keeps s t
    pub ends : x ≢ exhausted
    pub full : x ≡ done 0 → (t.send_len < length reponse) × IsFull t

  send_stopped-Sent :
      (tmp : Reply ℕ) (s t : State World)
      → Keeps s t
      → (tmp ≡ again → IsFull t)
      → t.send_len < length reponse
      → let (x, u) = send_stopped K reponse tmp t in Sent s x u
  unfolding send_stopped
  send_stopped-Sent again s t k f l = record {
    keeps = k;
    ends = λ q. cc q;
    full = λ q. (l, f refl);
  }
  send_stopped-Sent (ret n) s t k f l = record {
    keeps = k;
    ends = λ q. cc q;
    full = λ q. absurd (cc q);
  }
  send_stopped-Sent fail s t k f l = record {
    keeps = k;
    ends = λ q. cc q;
    full = λ q. absurd (cc q);
  }

  send_end-Sent :
      (tmp : Reply ℕ) (s t : State World)
      → Keeps s t
      → (tmp ≡ again → IsFull t)
      → let (x, u) = send_end K reponse tmp t in Sent s x u
  unfolding send_end
  send_end-Sent tmp s t k f =
      if_lem (λ (r : Exit × State World). Sent s r.0 r.1) (t.send_len == length reponse) (done 1, t)
        (send_stopped K reponse tmp t)
        (λ all. record { keeps = k; ends = λ q. cc q; full = λ q. absurd (cc q) })
        (λ more. send_stopped-Sent tmp s t k f (ground (arith, k.pushing.within)))

  -- `send_buf` ends, the socket has accepted the front of the response, and it returns 0 only if more
  -- is to send and the socket has answered EAGAIN to it, as edge-triggered events require.
  pub send_buf-drains :
      (s : State World)
      → IsPushing reponse s.session
      → let (x, t) = send_buf K reponse s in Sent s x t
  unfolding send_buf
  send_buf-drains s v =
      let fuel = length reponse - s.send_len + 1 in
      let (k, ends, full) = send_loop-Loops fuel (ret 0) s (λ q. cc q) v (omega arith) in
      elim (Option-cases ((send_loop K reponse fuel (ret 0) s).0)) [
        | inl out ↦ absurd (ends out)
        | inr (tmp, e) ↦
            rw (e, send_buf)
              (send_end-Sent tmp s ((send_loop K reponse fuel (ret 0) s).1) k
                (λ q. full (e ∙ ap (λ r. some r) q)))
      ]
