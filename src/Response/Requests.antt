-- ===== src/Response/Requests.antt =====
-- The requests of network/tcp_echo/server_epollout_response.cpp: each 8 bytes that leave the ring
-- are one more response owed.
use linux_programming.Prelude.{
  ℕ, zero, suc, ◌+◌, ◌*◌, ◌/◌, ◌≤◌, ◌<◌, ◌≡◌, ◌∙◌, ap, sym, ◌++◌, ◌⊎◌, arith, length, append_assoc,
  append-nil, Bool-cases, inl, inr, drop,
}
use linux_programming.Prelude.Int.{at_least}
use linux_programming.Ring.{distance, get_exist_size, add_blank}
use linux_programming.Ring.Bounds.{IsValid, sizes, add_blank-IsValid, distance-add_blank}
use linux_programming.Echo.Control.{Registers, Turns-Registers}
use linux_programming.Response.{response_buf, pending, take_requests}
use linux_programming.Response.Calls.{State}
use linux_programming.Response.Stream.{copies, owed, IsArmed, Pays}

-- Between two receptions: what was sent and what is owed are `k` responses, for the `k` requests
-- that have been taken out of the ring; and the events registered are those that `enable_epollout`
-- tells of, unless the last control call failed.
pub record HasTaken {W : Type 0} (size k : ℕ) (s : State W) : Type 0 where
  pub valid : IsValid s.buf
  pub within : s.response_pos ≤ size
  pub counted : length s.rx ≡ 8 * k + distance s.buf
  pub stream : s.tx ++ owed size s.conn ≡ copies size k
  pub registers : Registers s.ctl_ok s.interest s.enable_epollout

-- At rest: one response for each 8 bytes received, and no request left in the ring.
abbrev pub IsResponding : {W : Type 0} → ℕ → State W → Type 0
IsResponding size s = HasTaken size (length s.rx / 8) s

copies_end : (size k : ℕ) → response_buf size ++ copies size k ≡ copies size k ++ response_buf size
unfolding copies
copies_end size zero = append-nil (response_buf size)
copies_end size (suc k) =
    ap (λ l. response_buf size ++ l) (copies_end size k)
    ∙ sym (append_assoc (response_buf size) (copies size k) (response_buf size))

copies_suc : (size k : ℕ) → copies size (k + 1) ≡ copies size k ++ response_buf size
unfolding copies
copies_suc size k = let e : k + 1 ≡ suc k = omega arith in rw e (copies_end size k)

module _ {W : Type 0} (size : ℕ) (nonempty : 0 < size) where
  -- One request counted: one more response is owed, behind the others.
  one_more :
      (k : ℕ) (s : State W)
      → HasTaken size k s
      → 8 ≤ distance s.buf
      → HasTaken size (k + 1) (record s {
        conn = record (s.conn) { response_cnt = s.response_cnt + 1; buf = add_blank 8 s.buf };
      })
  unfolding owed
  one_more k s h d = record {
    valid = add_blank-IsValid s.buf 8 h.valid d;
    within = h.within;
    counted = omega (arith, h.counted, distance-add_blank s.buf 8 h.valid d);
    stream =
        ap (λ l. s.tx ++ (drop s.response_pos (response_buf size) ++ l))
          (copies_suc size s.response_cnt)
        ∙ ap (λ l. s.tx ++ l)
            (sym (append_assoc _ (copies size s.response_cnt) (response_buf size)))
        ∙ sym (append_assoc s.tx _ (response_buf size))
        ∙ ap (λ l. l ++ response_buf size) h.stream
        ∙ sym (copies_suc size k);
    registers = h.registers;
  }

  abbrev pub WillArm : State W → Type 0
  WillArm s = IsArmed size s ⊎ (0 < pending size s.conn)

  pub take_requests-HasTaken :
      (fuel k : ℕ) (s : State W)
      → HasTaken size k s
      → distance s.buf < 8 * fuel + 8
      → WillArm s
      → (m : ℕ) × HasTaken size m (take_requests fuel s)
        × (distance (take_requests fuel s).buf < 8)
        × WillArm (take_requests fuel s)
  unfolding take_requests
  take_requests-HasTaken zero k s h d a = (k, h, omega arith, a)
  take_requests-HasTaken (suc fuel) k s h d a =
      let (size_eq, _) = sizes s.buf h.valid in
      elim (Bool-cases (at_least 8 (get_exist_size s.buf))) [
        | inl enough ↦
            let many : 8 ≤ distance s.buf = ground (arith, size_eq) in
            rw (enough, take_requests)
              (take_requests-HasTaken fuel (k + 1) _ (one_more k s h many)
                (omega (arith, distance-add_blank s.buf 8 h.valid many)) (inr (omega arith)))
        | inr few ↦ rw (few, take_requests) (k, h, ground (arith, size_eq), a)
      ]

  -- A request that has not been counted stays in the ring.
  pub counted-div :
      (k : ℕ) (s : State W) → HasTaken size k s → distance s.buf < 8 → IsResponding size s
  counted-div k s h d = let e : k ≡ length s.rx / 8 = omega (arith, h.counted) in rw e at h

  pub paid : (k : ℕ) (s t : State W) → HasTaken size k s → Pays size s t → HasTaken size k t
  paid k s t h p = record {
    valid = rw p.same_buf h.valid;
    within = p.within;
    counted = rw (p.same_rx, p.same_buf) h.counted;
    stream = p.stream ∙ h.stream;
    registers = Turns-Registers _ _ _ _ _ _ p.turns h.registers;
  }
