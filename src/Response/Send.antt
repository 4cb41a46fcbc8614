-- ===== src/Response/Send.antt =====
-- `send_response` of network/tcp_echo/server_epollout_response.cpp: what goes out,
-- and when `enable_epollout` is left on.
use linux_programming.Prelude.{
  ℕ, zero, suc, ◌+◌, ◌-◌, ◌*◌, ◌≤◌, ◌<◌, ◌≡◌, ◌≢◌, refl, ◌∙◌, ap, sym, Bool, true, false, List,
  ◌++◌, ◌⊎◌, arith, length, take, drop, append_assoc, Bool-cases, inl, inr, ltb, ◌==◌, ◌&&◌, ◌||◌,
  take-append-drop, length-drop, drop_all, drop-drop, if_lem,
}
use linux_programming.Kernel.{Reply, ret, again, fail, Kernel, modify}
use linux_programming.Echo.{events_of}
use linux_programming.Echo.Control.{Registers, called, Turns-trans, Turns-Registers}
use linux_programming.Response.{
  response_buf, set_epollout, turn, next_response, advance, after_send, send_step, send_round,
  send_loop, pending, send_response,
}
use linux_programming.Response.Calls.{State, Exit, M}
use linux_programming.Response.Stream.{
  length-response_buf, copies, copies_pred, mul_pred, owed, control, IsArmed, Pays, Ends,
}

module _ (K : Kernel) (size : ℕ) (nonempty : 0 < size) where
  open K use {World, send, send_bound, epoll_ctl}

  Pays-trans : (s t u : State World) → Pays size s t → Pays size t u → Pays size s u
  Pays-trans s t u a b = record {
    stream = b.stream ∙ a.stream;
    within = b.within;
    same_rx = b.same_rx ∙ a.same_rx;
    same_buf = b.same_buf ∙ a.same_buf;
    turns = Turns-trans (control s) (control t) (control u) a.turns b.turns;
  }

  abbrev Turned : Bool → State World → State World → Type 0
  Turned flag s t =
      Pays size s t
      × (t.response_pos ≡ s.response_pos)
      × (pending size t.conn ≡ pending size s.conn)
      × (t.enable_epollout ≡ flag)

  unturned :
      (flag : Bool) (s : State World)
      → s.response_pos ≤ size
      → s.enable_epollout ≡ flag
      → Turned flag s s
  unturned flag s h e = (
    record {
      stream = refl;
      within = h;
      same_rx = refl;
      same_buf = refl;
      turns = inr (refl, refl, refl);
    },
    refl,
    refl,
    e,
  )

  set_epollout-Turned :
      (flag : Bool) (s : State World)
      → s.response_pos ≤ size
      → Turned flag s (set_epollout K size flag s)
  unfolding set_epollout owed
  set_epollout-Turned flag s h = (
    record {
      stream = refl;
      within = h;
      same_rx = refl;
      same_buf = refl;
      turns =
          inl (called (epoll_ctl s.epfd modify s.fd (events_of flag) s.world).0 flag s.interest);
    },
    refl,
    refl,
    refl,
  )

  turn-Pays :
      (flag : Bool) (s : State World) → s.response_pos ≤ size → Turned flag s (turn K size flag s)
  unfolding turn
  turn-Pays true s h =
      if_lem (Turned true s) s.enable_epollout s (set_epollout K size true s)
        (λ on. unturned true s h on) (λ off. set_epollout-Turned true s h)
  turn-Pays false s h =
      if_lem (Turned false s) s.enable_epollout (set_epollout K size false s) s
        (λ on. set_epollout-Turned false s h) (λ off. unturned false s h off)

  positive_cnt : (k : ℕ) → 0 < k * size + 0 → 0 < k
  positive_cnt zero h = absurd (omega arith)
  positive_cnt (suc k) h = omega arith

  -- Beginning a response moves it from the requests to the response under way.
  next_response-Pays :
      (s : State World)
      → s.response_pos ≤ size
      → 0 < pending size s.conn
      → let t = next_response K size s in
        Pays size s t × (t.response_pos < size) × (pending size t.conn ≡ pending size s.conn)
  unfolding next_response owed
  next_response-Pays s h p = elim (Bool-cases (s.response_pos == size)) [
    | inl finished ↦
        let full : s.response_pos ≡ size = ground arith in
        let some_left : 0 < s.response_cnt = positive_cnt s.response_cnt (ground arith) in
        let positive : ltb 0 s.response_cnt ≡ true = ground arith in
        rw (finished, positive)
          (
            record {
              stream =
                  ap (λ l. s.tx ++ l)
                    (sym (copies_pred size s.response_cnt some_left)
                      ∙ sym (
                          ap (λ l. l ++ copies size s.response_cnt)
                            (drop_all s.response_pos (response_buf size)
                              (full ∙ sym (length-response_buf size)))));
              within = omega arith;
              same_rx = refl;
              same_buf = refl;
              turns = inr (refl, refl, refl);
            },
            nonempty,
            omega (arith, mul_pred s.response_cnt size some_left),
          )
    | inr under_way ↦ rw under_way (
      record {
        stream = refl;
        within = h;
        same_rx = refl;
        same_buf = refl;
        turns = inr (refl, refl, refl);
      },
      ground arith,
      refl,
    )
  ]

  -- What a round does after it has begun a response, when the rest of the loop is `continue`.
  abbrev Continues : ℕ → M World → Type 0
  Continues bound continue =
      (t : State World)
      → t.response_pos ≤ size
      → pending size t.conn < bound
      → IsArmed size t ⊎ (0 < pending size t.conn)
      → Ends size t (continue t)

  -- `s` after a `send` of `bs` that took `n` bytes, in the world `w`.
  moved : List ℕ → ℕ → World → State World → State World
  moved bs n w s = record s {
    conn = record (s.conn) { response_pos = s.response_pos + n };
    world = w;
    tx = s.tx ++ take n bs;
  }

  moved-Pays :
      (n : ℕ) (w : World) (s : State World)
      → s.response_pos + n ≤ size
      → Pays size s (moved (drop s.response_pos (response_buf size)) n w s)
  unfolding moved owed
  moved-Pays n w s h =
      let rest = drop s.response_pos (response_buf size) in
      let q : rest ≡ take n rest ++ drop (s.response_pos + n) (response_buf size) =
        sym (take-append-drop n rest)
        ∙ ap (λ l. take n rest ++ l) (drop-drop s.response_pos n (response_buf size)) in
      record {
        stream =
            append_assoc s.tx (take n rest) _
            ∙ ap (λ l. s.tx ++ l)
                (sym (append_assoc (take n rest) _ (copies size s.response_cnt))
                  ∙ ap (λ l. l ++ copies size s.response_cnt) (sym q));
        within = h;
        same_rx = refl;
        same_buf = refl;
        turns = inr (refl, refl, refl);
      }

  ended :
      (s t : State World) (o : Exit × State World) → Pays size s t → Ends size t o → Ends size s o
  ended s t o p h = (Pays-trans s t o.1 p h.0, h.1, h.2)

  positive : (n : ℕ) → n ≢ 0 → 0 < n
  positive zero h = absurd (h refl)
  positive (suc n) h = omega arith

  ltb_eq_false : (k : ℕ) → k ≡ 0 → ltb 0 k ≡ false
  ltb_eq_false k h = ground arith

  ltb_eq_true : (k : ℕ) → 0 < k → ltb 0 k ≡ true
  ltb_eq_true k h = ground arith

  unpaid :
      (cnt at_pos : ℕ)
      → (cnt == 0 && at_pos == size) ≡ false
      → at_pos ≤ size
      → 0 < cnt * size + (size - at_pos)
  unpaid zero at_pos h le = ground arith
  unpaid (suc k) at_pos h le = omega arith

  after_send-Ends :
      (continue : M World) (bound n : ℕ) (t : State World)
      → Continues bound continue
      → t.response_pos ≤ size
      → (n ≡ 0 → t.response_pos < size)
      → pending size t.conn + n < suc bound
      → Ends size t (after_send K size continue n t)
  unfolding after_send
  after_send-Ends continue bound n t rest hp hz hb =
      elim (Bool-cases (t.response_cnt == 0 && t.response_pos == size)) [
        | inl all ↦
            let u = turn K size false t in
            let (p, same_pos, same, off) = turn-Pays false t hp in
            let paid : pending size t.conn ≡ 0 = ground arith in
            let some_sent : 0 < n = positive n (λ z. ground (arith, hz z)) in
            rw all (
              ended t u (continue u) p (
                rest u p.within (omega (arith, same, paid))
                  (inl (off ∙ sym (ltb_eq_false (pending size u.conn) (same ∙ paid))))))
        | inr not_all ↦ elim (Bool-cases (n == 0)) [
          | inl stuck ↦
              let (p, same_pos, same, on) = turn-Pays true t hp in
              rw (not_all, stuck)
                (
                  p,
                  (λ z. cc),
                  λ m z.
                      on
                      ∙ sym (
                          ltb_eq_true (pending size (turn K size true t).conn)
                            (omega (arith, same, hz (ground arith)))),
                )
          | inr some_sent ↦
              rw (not_all, some_sent)
                (rest t hp (ground arith) (inr (unpaid t.response_cnt t.response_pos not_all hp)))
        ]
      ]

  send_step-Ends :
      (continue : M World) (bound : ℕ) (s : State World) (r : Reply ℕ) (w : World)
      → ((n : ℕ) → r ≡ ret n → n ≤ length (drop s.response_pos (response_buf size)))
      → Continues bound continue
      → s.response_pos < size
      → pending size s.conn < suc bound
      → Ends size s (send_step K size continue (drop s.response_pos (response_buf size)) r w s)
  unfolding send_step advance moved owed
  send_step-Ends continue bound s (ret n) w law rest hp hb =
      let le : n ≤ size - s.response_pos = omega (
        arith,
        law n refl,
        length-drop s.response_pos (response_buf size),
        length-response_buf size,
      ) in
      let p = moved-Pays n w s (omega arith) in
      ended s _ _ p (
        after_send-Ends continue bound n (moved _ n w s) rest p.within (λ z. omega arith)
          (omega arith))
  send_step-Ends continue bound s again w law rest hp hb =
      let t = advance K size 0 (record s { world = w }) in
      let z : s.response_pos + 0 ≡ s.response_pos = omega arith in
      let p : Pays size s t = record {
        stream = ap (λ k. s.tx ++ (drop k (response_buf size) ++ copies size s.response_cnt)) z;
        within = omega arith;
        same_rx = refl;
        same_buf = refl;
        turns = inr (refl, refl, refl);
      } in
      ended s t (after_send K size continue 0 t) p
        (after_send-Ends continue bound 0 t rest p.within (λ _. omega arith) (omega arith))
  send_step-Ends continue bound s fail w law rest hp hb = (
    record {
      stream = refl;
      within = omega arith;
      same_rx = refl;
      same_buf = refl;
      turns = inr (refl, refl, refl);
    },
    (λ z. cc),
    λ n z. cc,
  )

  armed :
      (s : State World)
      → pending size s.conn ≡ 0
      → IsArmed size s ⊎ (0 < pending size s.conn)
      → IsArmed size s
  armed s z (inl a) = a
  armed s z (inr h) = absurd (omega arith)

  send_round-Ends :
      (continue : M World) (bound : ℕ) (s : State World)
      → Continues bound continue
      → s.response_pos ≤ size
      → 0 < pending size s.conn
      → pending size s.conn < suc bound
      → Ends size s (send_round K size continue s)
  unfolding send_round
  send_round-Ends continue bound s rest hp hz hb =
      let t = next_response K size s in
      let (p, below, same) = next_response-Pays s hp hz in
      let bs = drop t.response_pos (response_buf size) in
      let (r, w) = send t.fd bs t.world in
      ended s t (send_step K size continue bs r w t) p (
        send_step-Ends continue bound t r w (send_bound t.fd bs t.world) rest below
          (omega (arith, same)))

  more : (cnt at_pos : ℕ) → (ltb 0 cnt || ltb at_pos size) ≡ true → 0 < cnt * size + (size - at_pos)
  more zero at_pos h = ground arith
  more (suc k) at_pos h = omega arith

  no_more :
      (cnt at_pos : ℕ) → (ltb 0 cnt || ltb at_pos size) ≡ false → cnt * size + (size - at_pos) ≡ 0
  no_more zero at_pos h = ground arith
  no_more (suc k) at_pos h = absurd (ground arith)

  send_loop-Ends : (fuel : ℕ) → Continues fuel (send_loop K size fuel)
  unfolding send_loop
  send_loop-Ends zero s hp hb a = absurd (omega arith)
  send_loop-Ends (suc fuel) s hp hb a =
      elim (Bool-cases (ltb 0 s.response_cnt || ltb s.response_pos size)) [
        | inl go_on ↦
            rw (go_on, send_loop)
              (send_round-Ends (send_loop K size fuel) fuel s (send_loop-Ends fuel) hp
                (more s.response_cnt s.response_pos go_on) hb)
        | inr finished ↦
            let z = no_more s.response_cnt s.response_pos finished in
            rw (finished, send_loop)
              (
                record {
                  stream = refl;
                  within = hp;
                  same_rx = refl;
                  same_buf = refl;
                  turns = inr (refl, refl, refl);
                },
                (λ e. cc),
                λ n e. armed s z a,
              )
      ]

  pub send_response_lem :
      (s : State World)
      → s.response_pos ≤ size
      → IsArmed size s ⊎ (0 < pending size s.conn)
      → Ends size s (send_response K size s)
  unfolding send_response
  send_response_lem s hp a = send_loop-Ends (pending size s.conn + 1) s hp (omega arith) a

  -- `send_response` ends, however the calls of `send` answer. What it sends is the front of what was
  -- owed, in order; it touches nothing of the input; and unless it fails, `enable_epollout` is on
  -- afterwards exactly if something is still owed. If the events registered were EPOLLIN, and EPOLLOUT
  -- exactly if `enable_epollout` is on, then they are again, unless the last control call failed.
  pub send_response-Ends :
      (s : State World)
      → s.response_pos ≤ size
      → IsArmed size s ⊎ (0 < pending size s.conn)
      → Registers s.ctl_ok s.interest s.enable_epollout
      → let o = send_response K size s in
        Ends size s o × Registers o.1.ctl_ok o.1.interest o.1.enable_epollout
  send_response-Ends s hp a r =
      let e = send_response_lem s hp a in (e, Turns-Registers _ _ _ _ _ _ e.0.turns r)
