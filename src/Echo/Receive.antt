-- ===== src/Echo/Receive.antt =====
-- Receiving, in Connection of server_epollout_handle.cpp: the invariant of an echo connection, and
-- what `recv_buf` and `recv_buf_native` do to it.
use linux_programming.Prelude.{
  ℕ, ◌+◌, ◌-◌, ◌%◌, ◌≤◌, ◌<◌, ◌≡◌, refl, ◌∙◌, ap, ap₂, sym, some, List, [], ◌∷◌, ◌++◌, arith,
  length, append_assoc, append-nil, Bool-cases, inl, inr, ltb, if◌then◌else◌, ◌^◌,
}
use linux_programming.Prelude.Int.{nonpositive}
use linux_programming.Kernel.{Reply, ret, again, fail, Kernel}
use linux_programming.Ring.{
  Iovec, max_pkt_size, distance, get_blank_size, get_blank_iovec, add_exist,
}
use linux_programming.Ring.Memory.{total_len, scatter}
use linux_programming.Ring.Bounds.{IsValid, Covers, blank_iovec-Covers}
use linux_programming.Ring.Fifo.{
  contents, contents-add_exist, Covers-mod, scatter_nil, pushed, pushed-IsValid,
}
use linux_programming.Echo.{
  recv_step, count_received, recv_done, recv_iovs, recv_buf_native, recv_buf,
}
use linux_programming.Echo.Control.{Registers}
use linux_programming.Echo.Calls.{State, M, with_buf, received}

-- The ring is valid, every byte that was received has been sent or waits in the ring, in order, and
-- the events registered are those that `enable_epollout` tells of, unless the last control call failed.
pub record IsEcho {W : Type 0} (s : State W) : Type 0 where
  pub valid : IsValid s.buf
  pub balance : s.rx ≡ s.tx ++ contents s.buf
  pub registers : Registers s.ctl_ok s.interest s.enable_epollout

-- What receiving keeps: nothing is sent, and no byte leaves the ring.
pub record Kept {W : Type 0} (s t : State W) : Type 0 where
  pub echo : IsEcho t
  pub same : t.enable_epollout ≡ s.enable_epollout
  pub nothing_sent : t.tx ≡ s.tx
  pub grows : distance s.buf ≤ distance t.buf

module _ {W : Type 0} where
  Kept-refl : (s : State W) → IsEcho s → Kept s s
  Kept-refl s e = record { echo = e; same = refl; nothing_sent = refl; grows = omega arith }

  Kept-trans : (s t u : State W) → Kept s t → Kept t u → Kept s u
  Kept-trans s t u a b = record {
    echo = b.echo;
    same = b.same ∙ a.same;
    nothing_sent = b.nothing_sent ∙ a.nothing_sent;
    grows = omega (arith, a.grows, b.grows);
  }

  -- A state like `s`, but for the world and the bytes `bs` that came in through `vs`.
  took : List Iovec → List ℕ → W → State W → State W
  took vs bs w s = record s {
    conn = record (s.conn) { buf = pushed s.buf vs bs };
    world = w;
    rx = s.rx ++ bs;
  }

  p-took :
      (vs : List Iovec) (bs : List ℕ) (w : W) (s : State W)
      → (took vs bs w s).buf.p ≡ (s.buf.p + length bs) % 2 ^ 64
  unfolding took add_exist
  p-took vs bs w s = refl

  distance-took :
      (vs : List Iovec) (bs : List ℕ) (w : W) (s : State W)
      → IsEcho s
      → distance s.buf + length bs < max_pkt_size
      → distance (took vs bs w s).buf ≡ distance s.buf + length bs
  unfolding took
  distance-took vs bs w s e h = (pushed-IsValid s.buf vs bs e.valid h).1

  took-Kept :
      (s : State W) (vs : List Iovec) (bs : List ℕ) (w : W)
      → IsEcho s
      → Covers s.buf.p vs
      → length bs ≤ total_len vs
      → distance s.buf + length bs < max_pkt_size
      → Kept s (took vs bs w s)
  unfolding took
  took-Kept s vs bs w e c hb hn =
      let (valid, grown) = pushed-IsValid s.buf vs bs e.valid hn in
      record {
        echo = record {
          valid = valid;
          balance =
              rw (contents-add_exist s.buf vs bs e.valid c hb hn, e.balance)
                (append_assoc s.tx (contents s.buf) bs);
          registers = e.registers;
        };
        same = refl;
        nothing_sent = refl;
        grows = omega (arith, grown);
      }

  -- The three ways in which a round goes on or ends.
  counted-took :
      (s : State W) (vs : List Iovec) (b : ℕ) (bs : List ℕ) (w : W)
      → let t = received vs (ret (b ∷ bs)) w s in
        with_buf (add_exist (length (b ∷ bs)) t.buf) t ≡ took vs (b ∷ bs) w s
  unfolding received took
  counted-took s vs b bs w = refl

  counted-took_again :
      (s : State W) (v : Iovec) (w : W)
      → let t = received (v ∷ []) again w s in with_buf (add_exist 0 t.buf) t ≡ took [] [] w s
  unfolding received took with_buf scatter
  counted-took_again s v w = ap (λ l. record (took [] [] w s) { rx = l }) (sym (append-nil s.rx))

  received_nil :
      (vs : List Iovec) (w : W) (s : State W) → received vs (ret []) w s ≡ record s { world = w }
  unfolding received with_buf
  received_nil vs w s =
      ap₂
        (λ b l. record s {
          conn = record (s.conn) { buf = record (s.buf) { buf = b } };
          world = w;
          rx = l;
        })
        (scatter_nil s.buf.buf vs) (append-nil s.rx)

  world-Kept : (w : W) (s : State W) → IsEcho s → Kept s (record s { world = w })
  world-Kept w s e = record {
    echo = record { valid = e.valid; balance = e.balance; registers = e.registers };
    same = refl;
    nothing_sent = refl;
    grows = omega arith;
  }

  recv_done-Kept :
      (vs : List Iovec) (r : Reply (List ℕ)) (w : W) (s : State W)
      → ((bs : List ℕ) → r ≡ ret bs → length bs ≤ total_len vs)
      → IsEcho s
      → Covers s.buf.p vs × (total_len vs ≡ max_pkt_size - 1 - distance s.buf)
      → Kept s (recv_done r (received vs r w s)).1
  unfolding recv_done received
  recv_done-Kept vs (ret []) w s law e c = rw (received_nil vs w s) (world-Kept w s e)
  recv_done-Kept vs (ret (b ∷ bs)) w s law e c =
      let le : length (b ∷ bs) ≤ total_len vs = law (b ∷ bs) refl in
      rw (counted-took s vs b bs w)
        (took-Kept s vs (b ∷ bs) w e c.0 le (omega (arith, le, c.1, e.valid.fits)))
  recv_done-Kept vs again w s law e c = world-Kept w s e
  recv_done-Kept vs fail w s law e c = world-Kept w s e

  -- What the rest of the loop keeps, when it starts with the ring's blank part at `vs`.
  abbrev Rest : List Iovec → (ℕ → M W ℕ) → Type 0
  Rest vs next =
      (total : ℕ) (t : State W)
      → IsEcho t
      → Covers t.buf.p vs
      → distance t.buf + total_len vs < max_pkt_size
      → Kept t (next total t).1

  module _ (v : Iovec) (vs : List Iovec) (next : ℕ → M W ℕ) (total : ℕ) (w : W) (s : State W) where
    round-Kept :
        (us : List Iovec) (bs : List ℕ)
        → Rest vs next
        → Kept s (took us bs w s)
        → distance (took us bs w s).buf ≡ distance s.buf + length bs
        → length bs ≤ v.len
        → Covers s.buf.p (v ∷ vs)
        → distance s.buf + total_len (v ∷ vs) < max_pkt_size
        → Kept s
            (if ltb (length bs) v.len
              then (some (total + length bs), took us bs w s)
              else next (total + length bs) (took us bs w s)).1
    unfolding total_len
    round-Kept us bs rest k d hb c hn = elim (Bool-cases (ltb (length bs) v.len)) [
      | inl short ↦ rw short k
      | inr full ↦ rw full (
          Kept-trans s (took us bs w s) _ k (
            rest (total + length bs) (took us bs w s) k.echo
              (Covers-mod (s.buf.p + v.len) (took us bs w s).buf.p vs
                (ground (arith, p-took us bs w s)) c.2)
              (ground (arith, d))))
    ]

    recv_step-Kept :
        (r : Reply (List ℕ))
        → ((bs : List ℕ) → r ≡ ret bs → length bs ≤ v.len)
        → Rest vs next
        → IsEcho s
        → Covers s.buf.p (v ∷ vs)
        → distance s.buf + total_len (v ∷ vs) < max_pkt_size
        → Kept s (recv_step v next total r (received (v ∷ []) r w s)).1
    unfolding recv_step count_received received total_len
    recv_step-Kept (ret []) law rest e c hn = rw (received_nil (v ∷ []) w s) (world-Kept w s e)
    recv_step-Kept (ret (b ∷ bs)) law rest e c hn =
        let le : length (b ∷ bs) ≤ v.len = law (b ∷ bs) refl in
        rw (counted-took s (v ∷ []) b bs w) (
          round-Kept (v ∷ []) (b ∷ bs) rest
            (took-Kept s (v ∷ []) (b ∷ bs) w e (c.0, c.1, tt) (omega arith) (omega arith))
            (distance-took (v ∷ []) (b ∷ bs) w s e (omega arith)) le c hn)
    recv_step-Kept again law rest e c hn = rw (counted-took_again s v w) (
        round-Kept [] [] rest (took-Kept s [] [] w e tt (omega arith) (omega arith))
          (distance-took [] [] w s e (omega arith)) (omega arith) c hn)
    recv_step-Kept fail law rest e c hn = world-Kept w s e

module _ (K : Kernel) where
  open K use {World, recv, recv_bound, recvmsg, recvmsg_bound}

  recv_iovs-Kept :
      (vs : List Iovec) (total : ℕ) (s : State World)
      → IsEcho s
      → Covers s.buf.p vs
      → distance s.buf + total_len vs < max_pkt_size
      → Kept s (recv_iovs K vs total s).1
  unfolding recv_iovs
  recv_iovs-Kept [] total s e c hn = Kept-refl s e
  recv_iovs-Kept (v ∷ vs) total s e c hn =
      let (r, w) = recv s.fd v.len s.world in
      recv_step-Kept v vs (recv_iovs K vs) total w s r (recv_bound s.fd v.len s.world)
        (recv_iovs-Kept vs) e c hn

  -- On every branch `recv_buf_native` keeps the connection an echo of what came in, sends nothing
  -- and takes no byte out of the ring.
  pub recv_buf_native-Kept : (s : State World) → IsEcho s → Kept s (recv_buf_native K s).1
  unfolding recv_buf_native
  recv_buf_native-Kept s e = elim (Bool-cases (nonpositive (get_blank_size s.buf))) [
    | inl full ↦ rw full (Kept-refl s e)
    | inr room ↦
        let (c, t) = blank_iovec-Covers s.buf e.valid in
        rw room (recv_iovs-Kept (get_blank_iovec s.buf) 0 s e c (omega (arith, t, e.valid.fits)))
  ]

  pub recv_buf-Kept : (s : State World) → IsEcho s → Kept s (recv_buf K s).1
  unfolding recv_buf
  recv_buf-Kept s e = elim (Bool-cases (nonpositive (get_blank_size s.buf))) [
    | inl full ↦ rw full (Kept-refl s e)
    | inr room ↦
        let vs = get_blank_iovec s.buf in
        let (r, w) = recvmsg s.fd (total_len vs) s.world in
        rw room (
          recv_done-Kept vs r w s (recvmsg_bound s.fd (total_len vs) s.world) e
            (blank_iovec-Covers s.buf e.valid))
  ]
