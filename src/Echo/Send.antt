-- ===== src/Echo/Send.antt =====
-- Sending, in Connection of server_epollout_handle.cpp: what `send_buf` and `send_buf_native` do to
-- the ring, and when they leave `enable_epollout` on.
use linux_programming.Prelude.{
  ℕ, ◌+◌, ◌%◌, ◌≤◌, ◌<◌, ◌≡◌, refl, ◌∙◌, ap, sym, Bool, true, false, not, Option, some, List, [],
  ◌∷◌, ◌++◌, arith, length, take, drop, append_assoc, append-nil, Bool-cases, inl, inr, ltb, ◌==◌,
  ◌^◌, if_lem, if◌then◌else◌, take-append-drop, take-append, length-take, length-drop, ◌⊎◌,
}
use linux_programming.Prelude.Int.{pos, nonpositive}
use linux_programming.Kernel.{Reply, ret, again, fail, Kernel, modify}
use linux_programming.Ring.{Iovec, distance, get_exist_size, get_exist_iovec, add_blank}
use linux_programming.Ring.Memory.{total_len, gather, slice}
use linux_programming.Ring.Bounds.{
  Covers, sizes, exist_iovec-Covers, add_blank-IsValid, distance-add_blank,
}
use linux_programming.Ring.Fifo.{
  contents, contents-add_blank, gather_exist, Covers-mod, contents-Covers, length-contents,
}
use linux_programming.Echo.{
  events_of, set_epollout, update_epollout, send_done, send_buf, count_sent, send_step, send_iovs,
  send_buf_native,
}
use linux_programming.Echo.Control.{Registers, called}
use linux_programming.Echo.Calls.{State, M, with_buf, sent}
use linux_programming.Echo.Receive.{IsEcho}

-- `enable_epollout` is on exactly when bytes wait in the ring.
abbrev pub IsArmed : {W : Type 0} → State W → Type 0
IsArmed s = s.enable_epollout ≡ ltb 0 (distance s.buf)

-- How a sending method may end.
abbrev pub Ends : {W : Type 0} → State W → Option ℕ × State W → Type 0
Ends s (o, t) = IsEcho t × (t.rx ≡ s.rx) × ((n : ℕ) → o ≡ some n → IsArmed t)

module _ {W : Type 0} where
  -- A state like `s`, but for the world, and `n` bytes of `bs` that went out.
  gave : List ℕ → ℕ → W → State W → State W
  gave bs n w s = record s {
    conn = record (s.conn) { buf = add_blank n s.buf };
    world = w;
    tx = s.tx ++ take n bs;
  }

  sent-gave :
      (bs : List ℕ) (n : ℕ) (w : W) (s : State W)
      → let t = sent bs (ret n) w s in with_buf (add_blank n t.buf) t ≡ gave bs n w s
  unfolding gave sent with_buf
  sent-gave bs n w s = refl

  sent-gave_again :
      (bs : List ℕ) (w : W) (s : State W)
      → let t = sent bs again w s in with_buf (add_blank 0 t.buf) t ≡ gave bs 0 w s
  unfolding gave sent with_buf
  sent-gave_again bs w s = ap (λ l. record (gave bs 0 w s) { tx = l }) (sym (append-nil s.tx))

  gave-IsEcho :
      (bs rest : List ℕ) (n : ℕ) (w : W) (s : State W)
      → IsEcho s
      → contents s.buf ≡ bs ++ rest
      → n ≤ length bs
      → n ≤ distance s.buf
      → IsEcho (gave bs n w s)
  unfolding gave
  gave-IsEcho bs rest n w s e q hb hn = record {
    valid = add_blank-IsValid s.buf n e.valid hn;
    balance =
        rw
          (
            contents-add_blank s.buf n e.valid hn,
            append_assoc s.tx (take n bs) (drop n (contents s.buf)),
            ← take-append n bs rest hb,
            ← q,
            take-append-drop n (contents s.buf),
          )
          e.balance;
    registers = e.registers;
  }

  distance-gave :
      (bs : List ℕ) (n : ℕ) (w : W) (s : State W)
      → IsEcho s
      → n ≤ distance s.buf
      → distance (gave bs n w s).buf + n ≡ distance s.buf
  unfolding gave
  distance-gave bs n w s e h = omega (arith, distance-add_blank s.buf n e.valid h)

  f-gave :
      (bs : List ℕ) (n : ℕ) (w : W) (s : State W) → (gave bs n w s).buf.f ≡ (s.buf.f + n) % 2 ^ 64
  unfolding gave add_blank
  f-gave bs n w s = refl

module _ (K : Kernel) where
  open K use {World, send, send_bound, sendmsg, sendmsg_bound, epoll_ctl}

  set_epollout-Registers :
      (flag : Bool) (s : State World)
      → let t = set_epollout K flag s in Registers t.ctl_ok t.interest t.enable_epollout
  unfolding set_epollout
  set_epollout-Registers flag s =
      called (epoll_ctl s.epfd modify s.fd (events_of flag) s.world).0 flag s.interest

  -- Turning EPOLLOUT on or off changes nothing else of the connection.
  module _ (all_sent : Bool) (s : State World) where
    update_epollout-same :
        let t = update_epollout K all_sent s in
        (t.buf ≡ s.buf) × (t.rx ≡ s.rx) × (t.tx ≡ s.tx) × (t.enable_epollout ≡ not all_sent)
    unfolding update_epollout set_epollout
    update_epollout-same = ground arith

    update_epollout-Registers :
        Registers s.ctl_ok s.interest s.enable_epollout
        → let t = update_epollout K all_sent s in Registers t.ctl_ok t.interest t.enable_epollout
    unfolding update_epollout
    update_epollout-Registers r =
        if_lem (λ t. Registers t.ctl_ok t.interest t.enable_epollout) all_sent
          (if s.enable_epollout then set_epollout K false s else s)
          (if s.enable_epollout then s else set_epollout K true s)
          (λ _.
            if_lem (λ t. Registers t.ctl_ok t.interest t.enable_epollout) s.enable_epollout
              (set_epollout K false s) s (λ _. set_epollout-Registers false s) (λ _. r))
          (λ _.
            if_lem (λ t. Registers t.ctl_ok t.interest t.enable_epollout) s.enable_epollout s
              (set_epollout K true s) (λ _. r) (λ _. set_epollout-Registers true s))

    update_epollout-IsEcho : IsEcho s → IsEcho (update_epollout K all_sent s)
    update_epollout-IsEcho e =
        let (b, x, y, z) = update_epollout-same in
        record {
          valid = rw b e.valid;
          balance = rw (b, x, y) e.balance;
          registers = update_epollout-Registers e.registers;
        }

  -- What the loop does from `vs` on, when `vs` names what is left.
  abbrev Rest : ℕ → List Iovec → (ℕ → M World ℕ) → Type 0
  Rest goal vs next =
      (have : ℕ) (t : State World)
      → IsEcho t
      → Covers t.buf.f vs
      → total_len vs ≡ distance t.buf
      → have + distance t.buf ≡ goal
      → (distance t.buf ≡ 0 → t.enable_epollout ≡ false)
      → Ends t (next have t)

  module _ (goal : ℕ) (v : Iovec) (vs : List Iovec) (next : ℕ → M World ℕ) (have n : ℕ) where
    count_sent-Ends :
        (s t : State World)
        → with_buf (add_blank n s.buf) s ≡ t
        → Rest goal vs next
        → IsEcho t
        → (n ≡ v.len → Covers t.buf.f vs)
        → n ≤ v.len
        → v.len + total_len vs ≡ distance t.buf + n
        → have + n + distance t.buf ≡ goal
        → Ends t (count_sent K (pos goal) v next have n s)
    unfolding count_sent
    count_sent-Ends s t q rest e c hn ht hg = elim (Bool-cases ((have + n) == goal)) [
      | inl all ↦
          let u = update_epollout K true t in
          let (b, x, y, z) = update_epollout-same true t in
          let d : distance u.buf ≡ distance t.buf = ap distance b in
          let zero_left : distance t.buf ≡ 0 = ground arith in
          let o : Ends u (next (have + n) u) =
            rest (have + n) u (update_epollout-IsEcho true t e) (rw b (c (ground arith)))
              (omega (arith, d)) (omega (arith, d)) (λ _. z) in
          rw (q, all) (o.0, o.1 ∙ x, o.2)
      | inr some_left ↦ elim (Bool-cases (ltb n v.len)) [
        | inl short ↦
            let (b, x, y, z) = update_epollout-same false t in
            let waiting : ltb 0 (distance t.buf) ≡ true = ground arith in
            rw (q, some_left, short) (update_epollout-IsEcho false t e, x, λ m h. rw (b, waiting) z)
        | inr full ↦
            rw (q, some_left, full)
              (rest (have + n) t e (c (ground arith)) (ground arith) hg
                (λ h. absurd (ground arith)))
      ]
    ]

  gave-Ends :
      (goal : ℕ) (v : Iovec) (vs : List Iovec) (next : ℕ → M World ℕ) (have n : ℕ) (w : World)
      (s : State World)
      → Rest goal vs next
      → IsEcho s
      → Covers s.buf.f (v ∷ vs)
      → total_len (v ∷ vs) ≡ distance s.buf
      → have + distance s.buf ≡ goal
      → n ≤ length (slice s.buf.buf v)
      → (s' : State World) → with_buf (add_blank n s'.buf) s' ≡ gave (slice s.buf.buf v) n w s
      → Ends s (count_sent K (pos goal) v next have n s')
  unfolding total_len gather gave
  gave-Ends goal v vs next have n w s rest e c ht hg hn s' q =
      let bs = slice s.buf.buf v in
      let t = gave bs n w s in
      let len : length bs ≡ v.len = omega (
        arith,
        length-take v.len (drop v.base s.buf.buf),
        length-drop v.base s.buf.buf,
        e.valid.block,
      ) in
      let named : contents s.buf ≡ bs ++ gather s.buf.buf vs =
        contents-Covers s.buf (v ∷ vs) e.valid c ht in
      let d : distance t.buf + n ≡ distance s.buf = distance-gave bs n w s e (omega arith) in
      count_sent-Ends goal v vs next have n s' t q rest
        (gave-IsEcho bs (gather s.buf.buf vs) n w s e named hn (omega arith))
        (λ m. Covers-mod (s.buf.f + v.len) t.buf.f vs (omega (arith, f-gave bs n w s)) c.2)
        (omega arith) (omega (arith, d)) (omega (arith, d))

  send_step-Ends :
      (goal : ℕ) (v : Iovec) (vs : List Iovec) (next : ℕ → M World ℕ) (have : ℕ) (w : World)
      (s : State World) (r : Reply ℕ)
      → ((n : ℕ) → r ≡ ret n → n ≤ length (slice s.buf.buf v))
      → Rest goal vs next
      → IsEcho s
      → Covers s.buf.f (v ∷ vs)
      → total_len (v ∷ vs) ≡ distance s.buf
      → have + distance s.buf ≡ goal
      → Ends s (send_step K (pos goal) v next have r (sent (slice s.buf.buf v) r w s))
  unfolding send_step sent
  send_step-Ends goal v vs next have w s (ret n) law rest e c ht hg =
      gave-Ends goal v vs next have n w s rest e c ht hg (law n refl)
        (sent (slice s.buf.buf v) (ret n) w s) (sent-gave (slice s.buf.buf v) n w s)
  send_step-Ends goal v vs next have w s again law rest e c ht hg =
      gave-Ends goal v vs next have 0 w s rest e c ht hg (omega arith)
        (sent (slice s.buf.buf v) again w s) (sent-gave_again (slice s.buf.buf v) w s)
  send_step-Ends goal v vs next have w s fail law rest e c ht hg =
      (record { valid = e.valid; balance = e.balance; registers = e.registers }, refl, λ n h. cc)

  send_iovs-Ends : (goal : ℕ) (vs : List Iovec) → Rest goal vs (send_iovs K (pos goal) vs)
  unfolding send_iovs total_len
  send_iovs-Ends goal [] have s e c ht hg quiet = (
    e,
    refl,
    λ n h. let z : ltb 0 (distance s.buf) ≡ false = ground arith in rw z (quiet (omega arith)),
  )
  send_iovs-Ends goal (v ∷ vs) have s e c ht hg quiet =
      let (r, w) = send s.fd (slice s.buf.buf v) s.world in
      send_step-Ends goal v vs (send_iovs K (pos goal) vs) have w s r
        (send_bound s.fd (slice s.buf.buf v) s.world) (send_iovs-Ends goal vs) e c ht hg

  -- With bytes to send, `send_buf_native` keeps the echo, receives nothing, and unless it fails
  -- leaves `enable_epollout` on exactly if bytes are left.
  pub send_buf_native-Ends :
      (s : State World) → IsEcho s → IsArmed s ⊎ (0 < distance s.buf) → Ends s (send_buf_native K s)
  unfolding send_buf_native
  send_buf_native-Ends s e a =
      let (size, _) = sizes s.buf e.valid in
      elim (Bool-cases (nonpositive (get_exist_size s.buf))) [
        | inl none_left ↦ rw none_left (e, refl, λ n h. ground (arith, size))
        | inr some_left ↦
            let (c, t) = exist_iovec-Covers s.buf e.valid in
            let many : 0 < distance s.buf = ground (arith, size) in
            rw (some_left, size)
              (send_iovs-Ends (distance s.buf) (get_exist_iovec s.buf) 0 s e c t (omega arith)
                (λ z. absurd (omega arith)))
      ]

  gave_all-Ends :
      (n : ℕ) (w : World) (s : State World)
      → IsEcho s
      → n ≤ distance s.buf
      → Ends s (some n, update_epollout K (n == distance s.buf) (gave (contents s.buf) n w s))
  unfolding gave
  gave_all-Ends n w s e h =
      let t = gave (contents s.buf) n w s in
      let echo : IsEcho t =
        gave-IsEcho (contents s.buf) [] n w s e (sym (append-nil (contents s.buf)))
          (omega (arith, length-contents s.buf)) h in
      let d : distance t.buf + n ≡ distance s.buf = distance-gave (contents s.buf) n w s e h in
      let (b, x, y, z) = update_epollout-same (n == distance s.buf) t in
      (update_epollout-IsEcho (n == distance s.buf) t echo, x, λ m q. rw b (z ∙ ground (arith, d)))

  send_done-Ends :
      (w : World) (s : State World) (r : Reply ℕ)
      → ((n : ℕ) → r ≡ ret n → n ≤ length (contents s.buf))
      → IsEcho s
      → Ends s (send_done K (pos (distance s.buf)) r (sent (contents s.buf) r w s))
  unfolding send_done sent
  send_done-Ends w s (ret n) law e =
      rw (sent-gave (contents s.buf) n w s)
        (gave_all-Ends n w s e (omega (arith, law n refl, length-contents s.buf)))
  send_done-Ends w s again law e =
      rw (sent-gave_again (contents s.buf) w s) (gave_all-Ends 0 w s e (omega arith))
  send_done-Ends w s fail law e =
      (record { valid = e.valid; balance = e.balance; registers = e.registers }, refl, λ n h. cc)

  -- The same of `send_buf`.
  pub send_buf-Ends :
      (s : State World) → IsEcho s → IsArmed s ⊎ (0 < distance s.buf) → Ends s (send_buf K s)
  unfolding send_buf
  send_buf-Ends s e a =
      let (size, _) = sizes s.buf e.valid in
      elim (Bool-cases (nonpositive (get_exist_size s.buf))) [
        | inl none_left ↦ rw none_left (e, refl, λ n h. ground (arith, size))
        | inr some_left ↦
            let (r, w) = sendmsg s.fd (contents s.buf) s.world in
            rw (some_left, size, gather_exist s.buf e.valid)
              (send_done-Ends w s r (sendmsg_bound s.fd (contents s.buf) s.world) e)
      ]
