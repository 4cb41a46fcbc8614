-- ===== src/Push/Send.antt =====
-- `send_buf` and the constructor of network/tcp_echo/server_epollout.cpp.
use linux_programming.Prelude.{
  take-add, ℕ, zero, suc, ◌+◌, ◌-◌, ◌≤◌, ◌<◌, ◌≡◌, ◌≢◌, refl, ◌∙◌, ap, sym, Bool, true, false,
  Option, none, some, ◌⊎◌, List, ◌++◌, inl, inr, arith, length, take, drop, if_lem, Option-cases,
  Bool-cases, ltb, ◌==◌, length-take, length-drop,
}
use linux_programming.Kernel.{Reply, ret, again, fail, Kernel, modify}
use linux_programming.Echo.{events_of}
use linux_programming.Echo.Control.{Registers, Turns, called, Turns-trans, Turns-Registers}
use linux_programming.Response.Calls.{Exit, done, error, exhausted}
use linux_programming.Push.{
  Session, State, set_epollout, sent, send_step, send_loop, send_stopped, send_end, send_buf,
  construct,
}

-- What the socket of a connection has accepted is the front of the response.
pub record IsPushing (reponse : List ℕ) (c : Session) : Type 0 where
  pub within : c.send_len ≤ length reponse
  pub front : c.tx ≡ take c.send_len reponse

-- Whether the last control call succeeded, what the last successful one registered, and the member.
abbrev pub control : Session → Bool × ℕ × Bool
control c = (c.ctl_ok, c.interest, c.enable_epollout)

-- The events registered are those that `enable_epollout` tells of, unless the last control call failed.
abbrev pub IsRegistered : Session → Type 0
IsRegistered c = Registers c.ctl_ok c.interest c.enable_epollout

-- What a method keeps.
pub record Keeps {W : Type 0} (reponse : List ℕ) (s t : State W) : Type 0 where
  pub pushing : IsPushing reponse t.session
  pub onward : s.send_len ≤ t.send_len
  pub same_fd : t.fd ≡ s.fd
  pub turns : Turns (control s.session) (control t.session)

-- `enable_epollout` is on and there is more to send, or it is off and there is not.
abbrev pub IsWaiting : List ℕ → Session → Type 0
IsWaiting reponse c = (c.send_len < length reponse) × (c.enable_epollout ≡ true)

abbrev pub IsFinished : List ℕ → Session → Type 0
IsFinished reponse c = (c.send_len ≡ length reponse) × (c.enable_epollout ≡ false)

-- How `send_buf` ends: with 0 if it has to wait, with 1 if everything is sent, with -1 on an error.
abbrev pub Sends : {W : Type 0} → List ℕ → Exit × State W → Type 0
Sends reponse (done zero, t) = IsWaiting reponse t.session
Sends reponse (done (suc zero), t) = IsFinished reponse t.session
Sends reponse (error, t) = t.send_len < length reponse
Sends reponse (x, t) = ⊥

-- The result of `send_buf` by what the last `send` answered.
abbrev pub Answers : Exit → Reply ℕ → Type 0
Answers (done zero) r = r ≡ again
Answers (done (suc n)) r = Unit
Answers error r = (r ≡ fail) ⊎ (r ≡ ret 0)
Answers exhausted r = ⊥

module _ (K : Kernel) (reponse : List ℕ) where
  open K use {World, send, send_bound, epoll_ctl}

  -- The loop ends before its fuel is used up, after a `send` that took something only if all is sent.
  abbrev Loops : State World → Option (Reply ℕ) × State World → Type 0
  Loops s (tmp, t) =
      Keeps reponse s t
      × (tmp ≢ none)
      × ((n : ℕ) → tmp ≡ some (ret (suc n)) → length reponse ≤ t.send_len)

  -- What the last `send` of `send_buf` answered; 0 if there was none.
  abbrev pub last_send : State World → Option (Reply ℕ)
  last_send s = (send_loop K reponse (length reponse - s.send_len + 1) (ret 0) s).0

  abbrev Continues : ℕ → (Reply ℕ → State World → Option (Reply ℕ) × State World) → Type 0
  Continues fuel continue =
      (tmp : Reply ℕ) (t : State World)
      → IsPushing reponse t.session
      → length reponse - t.send_len < fuel
      → Loops t (continue tmp t)

  -- A `send` that took `suc n` bytes.
  pub sent-IsPushing :
      (n : ℕ) (w : World) (s : State World)
      → IsPushing reponse s.session
      → suc n ≤ length reponse - s.send_len
      → let t = sent K reponse (take (suc n) (drop s.send_len reponse)) w s in
        IsPushing reponse t.session × (t.send_len ≡ s.send_len + suc n) × (t.fd ≡ s.fd)
  unfolding sent
  sent-IsPushing n w s v h =
      let bs = drop s.send_len reponse in
      let e : length (take (suc n) bs) ≡ suc n =
        omega (arith, length-take (suc n) bs, length-drop s.send_len reponse) in
      rw e (
        record {
          within = omega (arith, v.within);
          front =
              ap (λ l. l ++ take (suc n) bs) v.front ∙ sym (take-add s.send_len (suc n) reponse);
        },
        refl,
        refl,
      )

  send_step-Loops :
      (continue : Reply ℕ → State World → Option (Reply ℕ) × State World) (fuel : ℕ) (r : Reply ℕ)
      (w : World) (s : State World)
      → IsPushing reponse s.session
      → length reponse - s.send_len < suc fuel
      → ((n : ℕ) → r ≡ ret n → n ≤ length reponse - s.send_len)
      → Continues fuel continue
      → Loops s (send_step K reponse continue (drop s.send_len reponse) r w s)
  unfolding send_step sent
  send_step-Loops continue fuel (ret zero) w s v f b k = (
    record { pushing = v; onward = omega arith; same_fd = refl; turns = inr (refl, refl, refl) },
    (λ e. cc e),
    λ m e. absurd (cc e),
  )
  send_step-Loops continue fuel (ret (suc n)) w s v f b k =
      let (p, l, d) = sent-IsPushing n w s v (b (suc n) refl) in
      let t = sent K reponse (take (suc n) (drop s.send_len reponse)) w s in
      let (q, e, l') = k (ret (suc n)) t p (omega (arith, l, b (suc n) refl)) in
      (
        record {
          pushing = q.pushing;
          onward = omega (arith, l, q.onward);
          same_fd = q.same_fd ∙ d;
          turns = q.turns;
        },
        e,
        l',
      )
  send_step-Loops continue fuel again w s v f b k = (
    record { pushing = v; onward = omega arith; same_fd = refl; turns = inr (refl, refl, refl) },
    (λ e. cc e),
    λ m e. absurd (cc e),
  )
  send_step-Loops continue fuel fail w s v f b k = (
    record { pushing = v; onward = omega arith; same_fd = refl; turns = inr (refl, refl, refl) },
    (λ e. cc e),
    λ m e. absurd (cc e),
  )

  send_loop-Loops :
      (fuel : ℕ) (tmp : Reply ℕ) (s : State World)
      → IsPushing reponse s.session
      → length reponse - s.send_len < fuel
      → Loops s (send_loop K reponse fuel tmp s)
  unfolding send_loop
  send_loop-Loops zero tmp s v f = absurd (omega arith)
  send_loop-Loops (suc fuel) tmp s v f = elim (Bool-cases (ltb s.send_len (length reponse))) [
    | inl more ↦
        let bs = drop s.send_len reponse in
        let (r, w) = send s.fd bs s.world in
        rw (more, send_loop)
          (send_step-Loops (send_loop K reponse fuel) fuel ((send s.fd bs s.world).0)
            ((send s.fd bs s.world).1) s v f
            (λ n e. omega (arith, send_bound s.fd bs s.world n e, length-drop s.send_len reponse))
            (send_loop-Loops fuel))
    | inr all ↦
        rw (all, send_loop)
          (
            record {
              pushing = v;
              onward = omega arith;
              same_fd = refl;
              turns = inr (refl, refl, refl);
            },
            (λ e. cc e),
            λ m e. ground (arith, all),
          )
  ]

  -- What `send_buf` leaves.
  abbrev pub Sent : State World → Exit × State World → Type 0
  Sent s (x, t) = Keeps reponse s t × Sends reponse (x, t)

  pub stays : (s : State World) → IsPushing reponse s.session → Keeps reponse s s
  stays s v = record {
    pushing = v;
    onward = omega arith;
    same_fd = refl;
    turns = inr (refl, refl, refl);
  }

  pub turned :
      (flag : Bool) (s : State World)
      → IsPushing reponse s.session
      → Keeps reponse s (set_epollout K reponse flag s)
        × ((set_epollout K reponse flag s).send_len ≡ s.send_len)
        × ((set_epollout K reponse flag s).enable_epollout ≡ flag)
  unfolding set_epollout
  turned flag s v = (
    record {
      pushing = record { within = v.within; front = v.front };
      onward = omega arith;
      same_fd = refl;
      turns =
          inl
            (called (epoll_ctl s.epoll_fd modify s.fd (events_of flag) s.world).0 flag s.interest);
    },
    refl,
    refl,
  )

  send_stopped-Sent :
      (tmp : Reply ℕ) (s : State World)
      → IsPushing reponse s.session
      → s.send_len < length reponse
      → Sent s (send_stopped K reponse tmp s)
  unfolding send_stopped
  send_stopped-Sent again s v less =
      if_lem (λ t. Keeps reponse s t × IsWaiting reponse t.session) s.enable_epollout s
        (set_epollout K reponse true s) (λ on. (stays s v, (less, on)))
        (λ off. let (k, l, f) = turned true s v in (k, (omega (arith, less, l), f)))
  send_stopped-Sent (ret n) s v less = (stays s v, less)
  send_stopped-Sent fail s v less = (stays s v, less)

  send_end-Sent :
      (tmp : Reply ℕ) (s : State World)
      → IsPushing reponse s.session
      → Sent s (send_end K reponse tmp s)
  unfolding send_end set_epollout
  send_end-Sent tmp s v = elim (Bool-cases (s.send_len == length reponse)) [
    | inl all ↦
        let full : s.send_len ≡ length reponse = ground arith in
        rw all (
          if_lem (λ t. Keeps reponse s t × IsFinished reponse t.session) s.enable_epollout
            (set_epollout K reponse false s) s
            (λ on. let (k, l, f) = turned false s v in (k, (l ∙ full, f)))
            (λ off. (stays s v, (full, off))))
    | inr more ↦
        let less : s.send_len < length reponse = ground (arith, v.within) in
        rw more (send_stopped-Sent tmp s v less)
  ]

  pub send_buf_lem : (s : State World) → IsPushing reponse s.session → Sent s (send_buf K reponse s)
  unfolding send_buf
  send_buf_lem s v =
      let fuel = length reponse - s.send_len + 1 in
      let looped = send_loop-Loops fuel (ret 0) s v (omega arith) in
      elim (Option-cases ((send_loop K reponse fuel (ret 0) s).0)) [
        | inl out ↦ absurd (looped.1 out)
        | inr (tmp, e) ↦
            let t = (send_loop K reponse fuel (ret 0) s).1 in
            let (k, ends) = send_end-Sent tmp t looped.0.pushing in
            let u = (send_end K reponse tmp t).1 in
            rw (e, send_buf)
              (
                record {
                  pushing = k.pushing;
                  onward = omega (arith, k.onward, looped.0.onward);
                  same_fd = k.same_fd ∙ looped.0.same_fd;
                  turns =
                      Turns-trans (control s.session) (control t.session) (control u.session)
                        looped.0.turns k.turns;
                },
                ends,
              )
      ]

  -- The loop stops short of the whole response only where `send` fails or takes nothing.
  send_end-Answers :
      (tmp : Reply ℕ) (s : State World)
      → ((n : ℕ) → tmp ≡ ret (suc n) → length reponse ≤ s.send_len)
      → IsPushing reponse s.session
      → Answers (send_end K reponse tmp s).0 tmp
  unfolding send_end send_stopped
  send_end-Answers tmp s stops v = elim (Bool-cases (s.send_len == length reponse)) [
    | inl all ↦ rw all tt
    | inr more ↦ rw more (stopped tmp stops (ground (arith, v.within)))
  ]
    where
      stopped :
          (tmp : Reply ℕ)
          → ((n : ℕ) → tmp ≡ ret (suc n) → length reponse ≤ s.send_len)
          → s.send_len < length reponse
          → Answers (send_stopped K reponse tmp s).0 tmp
      stopped (ret zero) f less = inr refl
      stopped (ret (suc n)) f less = absurd (omega (arith, f n refl, less))
      stopped again f less = refl
      stopped fail f less = inl refl

  -- `send_buf` ends. What the socket has accepted is always the front of the response. The result is 1
  -- with `enable_epollout` off if the whole response is sent. Otherwise it is 0 with `enable_epollout`
  -- on if the last `send` said EAGAIN, and -1 if it failed otherwise or took nothing. If the events
  -- registered were EPOLLIN, and EPOLLOUT exactly if `enable_epollout` is on, then they are again,
  -- unless the last control call failed.
  pub send_buf-Sent :
      (s : State World)
      → IsPushing reponse s.session
      → IsRegistered s.session
      → let (x, t) = send_buf K reponse s in
        Sent s (x, t)
        × IsRegistered t.session
        × ((tmp : Reply ℕ) × (last_send s ≡ some tmp) × Answers x tmp)
  unfolding send_buf
  send_buf-Sent s v r =
      let sends = send_buf_lem s v in
      let fuel = length reponse - s.send_len + 1 in
      let looped = send_loop-Loops fuel (ret 0) s v (omega arith) in
      elim (Option-cases ((send_loop K reponse fuel (ret 0) s).0)) [
        | inl out ↦ absurd (looped.1 out)
        | inr (tmp, e) ↦
            let t = (send_loop K reponse fuel (ret 0) s).1 in
            (
              sends,
              Turns-Registers _ _ _ _ _ _ sends.0.turns r,
              (
                tmp,
                e,
                rw (e, send_buf)
                    (send_end-Answers tmp t (λ n q. looped.2 n (e ∙ ap (λ o. some o) q))
                      looped.0.pushing),
              ),
            )
      ]

  -- The constructor does the same from nothing.
  pub construct_lem :
      (fd epoll_fd interest : ℕ) (w : World)
      → let (x, t) = construct K reponse fd epoll_fd interest w in
        IsPushing reponse t.session × (t.fd ≡ fd) × Sends reponse (x, t)
  unfolding construct
  construct_lem fd epoll_fd interest w =
      let (k, ends) = send_buf_lem _ (record { within = omega arith; front = refl }) in
      (k.pushing, k.same_fd, ends)
