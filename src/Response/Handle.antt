-- ===== src/Response/Handle.antt =====
-- The handler of a responding connection (network/tcp_echo/server_epollout_response.cpp).
use linux_programming.Prelude.{
  ℕ, ◌+◌, ◌/◌, ◌≤◌, ◌<◌, ◌≡◌, ◌≢◌, refl, ◌∙◌, sym, Bool, true, false, not, List, [], ◌∷◌, arith,
  length, append-nil, Bool-cases, inl, inr, ◌==◌, if◌then◌else◌, bit_and, length-append, drop,
  drop_all,
}
use linux_programming.Prelude.Int.{nonpositive}
use linux_programming.Kernel.{Reply, ret, again, fail, Kernel, add, epollin, epollout}
use linux_programming.Ring.{
  Iovec, max_pkt_size, distance, get_blank_size, get_blank_iovec, add_exist,
}
use linux_programming.Ring.Memory.{total_len, scatter, length-scatter}
use linux_programming.Ring.Bounds.{blank_iovec-Covers, init-IsValid}
use linux_programming.Ring.Fifo.{pushed-IsValid}
use linux_programming.Echo.Control.{Registers}
use linux_programming.Response.{
  response_buf, pending, construct, received, recv_done, recv_buf, take_requests, send_response,
  serve_requests, recv_request, handle_read, handle_write, handle,
}
use linux_programming.Response.Calls.{State, Exit, done, error, exhausted, M, ◌>>◌, return}
use linux_programming.Response.Stream.{copies, owed, IsArmed, Ends, length-response_buf}
use linux_programming.Response.Send.{send_response_lem}
use linux_programming.Response.Requests.{
  HasTaken, IsResponding, WillArm, counted-div, paid, take_requests-HasTaken,
}

-- How a method ends: not for want of fuel, with every request taken so far paid or owed, and if it
-- does not fail, at rest, with `enable_epollout` on exactly if something is owed.
abbrev pub Responds : {W : Type 0} → ℕ → Exit × State W → Type 0
Responds size (x, t) =
    ((k : ℕ) × HasTaken size k t)
    × (x ≢ exhausted)
    × ((n : ℕ) → x ≡ done n → IsResponding size t × IsArmed size t)

module _ {W : Type 0} (size : ℕ) (nonempty : 0 < size) where
  -- What `recv_buf` keeps, also where it fails.
  record Receives (k : ℕ) (s t : State W) : Type 0 where
    taken : HasTaken size k t
    same : pending size t.conn ≡ pending size s.conn
    epollout_same : t.enable_epollout ≡ s.enable_epollout

  recv_done-Receives :
      (k : ℕ) (vs : List Iovec) (r : Reply (List ℕ)) (w : W) (s : State W)
      → ((bs : List ℕ) → r ≡ ret bs → length bs ≤ total_len vs)
      → HasTaken size k s
      → distance s.buf + total_len vs < max_pkt_size
      → Receives k s (recv_done r (received vs r w s)).1
  unfolding recv_done received owed add_exist scatter
  recv_done-Receives k vs (ret []) w s law h d = record {
    taken = record {
      valid = record {
        block = length-scatter s.buf.buf vs [] ∙ h.valid.block;
        f_word = h.valid.f_word;
        p_word = h.valid.p_word;
        fits = h.valid.fits;
      };
      within = h.within;
      counted = omega (arith, h.counted, length-append s.rx []);
      stream = h.stream;
      registers = h.registers;
    };
    same = refl;
    epollout_same = refl;
  }
  recv_done-Receives k vs (ret (b ∷ bs)) w s law h d =
      let le : length (b ∷ bs) ≤ total_len vs = law (b ∷ bs) refl in
      let (v, e) = pushed-IsValid s.buf vs (b ∷ bs) h.valid (omega arith) in
      record {
        taken = record {
          valid = v;
          within = h.within;
          counted = omega (arith, h.counted, e, length-append s.rx (b ∷ bs));
          stream = h.stream;
          registers = h.registers;
        };
        same = refl;
        epollout_same = refl;
      }
  recv_done-Receives k vs again w s law h d =
      let (v, e) = pushed-IsValid s.buf [] [] h.valid (omega arith) in
      record {
        taken = record {
          valid = v;
          within = h.within;
          counted = omega (arith, h.counted, e);
          stream = h.stream;
          registers = h.registers;
        };
        same = refl;
        epollout_same = refl;
      }
  recv_done-Receives k vs fail w s law h d = record {
    taken = record {
      valid = h.valid;
      within = h.within;
      counted = h.counted;
      stream = h.stream;
      registers = h.registers;
    };
    same = refl;
    epollout_same = refl;
  }

  recv_done-ne-exhausted : (r : Reply (List ℕ)) (s : State W) → (recv_done r s).0 ≢ exhausted
  unfolding recv_done
  recv_done-ne-exhausted (ret []) s e = cc
  recv_done-ne-exhausted (ret (b ∷ bs)) s e = cc
  recv_done-ne-exhausted again s e = cc
  recv_done-ne-exhausted fail s e = cc

  Responds->> :
      (m k : M W) (s : State W)
      → Responds size (m s)
      → ((t : State W) → IsResponding size t → IsArmed size t → Responds size (k t))
      → Responds size ((m >> k) s)
  Responds->> m k s h next = go (m s) h
    where
      go : (o : Exit × State W) → Responds size o → Responds size (◌>>◌ (λ _. o) k s)
      go (done n, t) h = let (r, a) = h.2 n refl in next t r a
      go (error, t) h = (h.0, (λ e. cc), λ n e. cc)
      go (exhausted, t) h = absurd (h.1 refl)

  return-Responds :
      (n : ℕ) (s : State W) → IsResponding size s → IsArmed size s → Responds size (return n s)
  return-Responds n s h a = ((length s.rx / 8, h), (λ e. cc), λ _ _. (h, a))

module _ (K : Kernel) (size : ℕ) (nonempty : 0 < size) where
  open K use {World, recvmsg, recvmsg_bound}

  recv_buf-Receives :
      (k : ℕ) (s : State World)
      → HasTaken size k s
      → Receives size nonempty k s (recv_buf K size s).1
  unfolding recv_buf
  recv_buf-Receives k s h = elim (Bool-cases (nonpositive (get_blank_size s.buf))) [
    | inl full ↦ rw full (record { taken = h; same = refl; epollout_same = refl })
    | inr room ↦
        let vs = get_blank_iovec s.buf in
        let (r, w) = recvmsg s.fd (total_len vs) s.world in
        let (_, t) = blank_iovec-Covers s.buf h.valid in
        rw room (
          recv_done-Receives size nonempty k vs r w s (recvmsg_bound s.fd (total_len vs) s.world) h
            (omega (arith, t, h.valid.fits)))
  ]

  paying-Responds :
      (k : ℕ) (s : State World)
      → HasTaken size k s
      → distance s.buf < 8
      → (o : Exit × State World) → Ends size s o
      → Responds size o
  paying-Responds k s h d (x, t) (p, e, a) =
      let h' : HasTaken size k t = paid size nonempty k s t h p in
      let d' : distance t.buf < 8 = rw p.same_buf d in
      ((k, h'), e, λ n q. (counted-div size nonempty k t h' d', a n q))

  serve_requests-Responds :
      (k : ℕ) (s : State World)
      → HasTaken size k s
      → WillArm size nonempty s
      → Responds size (serve_requests K size s)
  unfolding serve_requests
  serve_requests-Responds k s h a =
      let (m, h', d, a') =
        take_requests-HasTaken size nonempty (max_pkt_size / 8) k s h (omega (arith, h.valid.fits))
          a in
      let t = take_requests (max_pkt_size / 8) s in
      Responds->> size nonempty (send_response K size) (return 0) t
        (paying-Responds m t h' d (send_response K size t)
          (send_response_lem K size nonempty t h'.within a'))
        (return-Responds size nonempty 0)

  received-Responds :
      (k : ℕ) (s : State World) (o : Exit × State World)
      → o.0 ≢ exhausted
      → IsArmed size s
      → Receives size nonempty k s o.1
      → Responds size (◌>>◌ (λ _. o) (serve_requests K size) s)
  received-Responds k s (done n, t) ne a r =
      serve_requests-Responds k t r.taken (inl (rw r.same (r.epollout_same ∙ a)))
  received-Responds k s (error, t) ne a r = ((k, r.taken), (λ e. cc), λ n e. cc)
  received-Responds k s (exhausted, t) ne a r = absurd (ne refl)

  recv_buf-ne-exhausted : (s : State World) → (recv_buf K size s).0 ≢ exhausted
  unfolding recv_buf
  recv_buf-ne-exhausted s = elim (Bool-cases (nonpositive (get_blank_size s.buf))) [
    | inl full ↦ rw full (λ e. cc)
    | inr room ↦
        let vs = get_blank_iovec s.buf in
        let (r, w) = recvmsg s.fd (total_len vs) s.world in
        rw room (recv_done-ne-exhausted size nonempty r (received vs r w s))
  ]

  recv_request-Responds :
      (s : State World)
      → IsResponding size s
      → IsArmed size s
      → Responds size (recv_request K size s)
  unfolding recv_request
  recv_request-Responds s h a =
      received-Responds (length s.rx / 8) s (recv_buf K size s) (recv_buf-ne-exhausted s) a
        (recv_buf-Receives (length s.rx / 8) s h)

  handle_read-Responds :
      (s : State World)
      → IsResponding size s
      → IsArmed size s
      → Responds size (handle_read K size s)
  unfolding handle_read
  handle_read-Responds s h a =
      Responds->> size nonempty (recv_request K size) (return 0) s (recv_request-Responds s h a)
        (return-Responds size nonempty 0)

  at_rest : (s : State World) → IsResponding size s → distance s.buf < 8
  at_rest s h = omega (arith, h.counted)

  handle_write-Responds :
      (s : State World)
      → IsResponding size s
      → IsArmed size s
      → Responds size (handle_write K size s)
  unfolding handle_write
  handle_write-Responds s h a =
      Responds->> size nonempty (send_response K size) (return 0) s
        (paying-Responds (length s.rx / 8) s h (at_rest s h) (send_response K size s)
          (send_response_lem K size nonempty s h.within (inl a)))
        (return-Responds size nonempty 0)

  chosen-Responds :
      (off : Bool) (m : M World) (s : State World)
      → (off ≡ false → Responds size (m s))
      → IsResponding size s
      → IsArmed size s
      → Responds size ((if off then return 0 else m) s)
  chosen-Responds true m s h r a = return-Responds size nonempty 0 s r a
  chosen-Responds false m s h r a = h refl

  -- Whatever events `handle` is called for and whatever the system calls answer, it ends, and the
  -- bytes sent with those still owed are whole responses, one for each request taken; if it does not
  -- fail, that is one for each 8 bytes received, and `enable_epollout` is on exactly if something is
  -- owed. The events registered are EPOLLIN, and EPOLLOUT exactly if `enable_epollout` is on, unless
  -- the last control call failed.
  pub handle-Responds :
      (ev : ℕ) (s : State World)
      → IsResponding size s
      → IsArmed size s
      → Responds size (handle K size ev s)
  unfolding handle
  handle-Responds ev s h a = elim (Bool-cases (not (bit_and ev 0xffff_fffa == 0))) [
    | inl bad ↦ rw bad ((length s.rx / 8, h), (λ e. cc), λ n e. cc)
    | inr good ↦ rw good (
        Responds->> size nonempty
          ((if bit_and ev epollout == 0 then return 0 else handle_write K size)
            >> (if bit_and ev epollin == 0 then return 0 else handle_read K size))
          (return 0) s
          (Responds->> size nonempty
            (if bit_and ev epollout == 0 then return 0 else handle_write K size)
            (if bit_and ev epollin == 0 then return 0 else handle_read K size) s
            (chosen-Responds (bit_and ev epollout == 0) (handle_write K size) s
              (λ _. handle_write-Responds s h a) h a)
            (λ t r b.
              chosen-Responds (bit_and ev epollin == 0) (handle_read K size) t
                (λ _. handle_read-Responds t r b) r b))
          (return-Responds size nonempty 0))
  ]

  -- A new connection is at rest: nothing received, nothing owed, `enable_epollout` off.
  pub construct-Responds :
      (fd epfd : ℕ) (fresh : List ℕ) (w : World)
      → length fresh ≡ max_pkt_size
      → let s = construct K size fd epfd fresh w in IsResponding size s × IsArmed size s
  unfolding construct owed copies
  construct-Responds fd epfd fresh w h =
      let (v, d) = init-IsValid fresh h in
      (
        record {
          valid = v;
          within = omega arith;
          counted = omega (arith, d);
          stream =
              append-nil (drop size (response_buf size))
              ∙ drop_all size (response_buf size) (sym (length-response_buf size));
          registers = added (K.epoll_ctl epfd add fd epollin w).0;
        },
        ground arith,
      )
    where
      added : (ok : Bool) → Registers ok (if ok then epollin else 0) false
      added true = inr refl
      added false = inl refl
