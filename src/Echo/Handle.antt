-- ===== src/Echo/Handle.antt =====
-- The handler of an echo connection (network/tcp_echo/server_epollout_handle.cpp).
use linux_programming.Prelude.{
  ℕ, ◌<◌, ◌≡◌, refl, Bool, true, false, not, Option, none, some, List, [], arith, length,
  Bool-cases, inl, inr, ltb, ◌==◌, if◌then◌else◌, bit_and, sym, ◌∙◌, ◌⊎◌, eq_nil,
}
use linux_programming.Kernel.{Kernel, add, epollin, epollout}
use linux_programming.Ring.{RingBuffer, max_pkt_size, distance}
use linux_programming.Ring.Bounds.{init-IsValid}
use linux_programming.Ring.Fifo.{contents, length-contents}
use linux_programming.Ring
use linux_programming.Echo.{
  construct, recv_buf_native, send_buf, send_buf_native, handle_read, handle_write, handle,
}
use linux_programming.Echo.Control.{Registers}
use linux_programming.Echo.Calls.{State, M, ◌>>◌, return}
use linux_programming.Echo.Receive.{IsEcho, Kept, recv_buf_native-Kept}
use linux_programming.Echo.Send.{IsArmed, Ends, send_buf-Ends, send_buf_native-Ends}

-- What a call leaves: an echo, whose `enable_epollout` is as it must be, unless the call fails.
abbrev pub Serves : {W : Type 0} → Option ℕ × State W → Type 0
Serves (o, t) = IsEcho t × ((n : ℕ) → o ≡ some n → IsArmed t)

module _ {W : Type 0} where
  Serves->> :
      (m k : M W ℕ) (s : State W)
      → Serves (m s)
      → ((t : State W) → IsEcho t → IsArmed t → Serves (k t))
      → Serves ((m >> k) s)
  Serves->> m k s h next = go (m s) h
    where
      go : (o : Option ℕ × State W) → Serves o → Serves (◌>>◌ {A = ℕ} (λ _. o) k s)
      go (none, t) h = h
      go (some n, t) h = next t h.0 (h.1 n refl)

  return-Serves : (n : ℕ) (s : State W) → IsEcho s → IsArmed s → Serves (return {A = ℕ} n s)
  return-Serves n s e a = (e, λ _ _. a)

module _ (K : Kernel) where
  open K use {World}

  sending : (s : State World) (o : Option ℕ × State World) → Ends s o → Serves o
  sending s o h = (h.0, h.2)

  -- Receiving keeps an armed connection fit for sending.
  Kept-can_send : (s t : State World) → IsArmed s → Kept s t → IsArmed t ⊎ (0 < distance t.buf)
  Kept-can_send s t a k = elim (Bool-cases (ltb 0 (distance t.buf))) [
    | inl many ↦ inr (ground arith)
    | inr zero_left ↦ inl (ground (arith, k.same, k.grows))
  ]

  handle_write-Serves : (s : State World) → IsEcho s → IsArmed s → Serves (handle_write K s)
  unfolding handle_write
  handle_write-Serves s e a =
      Serves->> (send_buf K) (return 0) s (sending s (send_buf K s) (send_buf-Ends K s e (inl a)))
        (return-Serves 0)

  handle_read-Serves : (s : State World) → IsEcho s → IsArmed s → Serves (handle_read K s)
  unfolding handle_read
  handle_read-Serves s e a = go (recv_buf_native K s) (recv_buf_native-Kept K s e)
    where
      go :
          (o : Option ℕ × State World)
          → Kept s o.1
          → Serves (◌>>◌ {A = ℕ} (λ _. o) (send_buf_native K >> return {A = ℕ} 0) s)
      go (none, t) k = (k.echo, λ n h. cc)
      go (some n, t) k =
          Serves->> (send_buf_native K) (return 0) t
            (sending t (send_buf_native K t)
              (send_buf_native-Ends K t k.echo (Kept-can_send s t a k)))
            (return-Serves 0)

  -- Whatever events `handle` is called for and whatever the system calls return, all bytes received
  -- from the peer are either sent back, in order, or wait in the ring, which stays valid. If the call
  -- succeeds, `enable_epollout` is on exactly if bytes wait. And always the events that are registered
  -- are EPOLLIN, and EPOLLOUT exactly if `enable_epollout` is on, unless the last control call failed.
  pub handle-Serves : (ev : ℕ) (s : State World) → IsEcho s → IsArmed s → Serves (handle K ev s)
  unfolding handle
  handle-Serves ev s e a = elim (Bool-cases (not (bit_and ev 0xffff_fffa == 0))) [
    | inl bad ↦ rw bad (e, λ n h. cc)
    | inr good ↦ rw good (
        Serves->> (if bit_and ev epollout == 0 then return 0 else handle_write K) _ s
          (write_part s e a)
          (λ t et at'.
            Serves->> (if bit_and ev epollin == 0 then return 0 else handle_read K) (return 0) t
              (read_part t et at') (return-Serves 0)))
  ]
    where
      write_part :
          (t : State World)
          → IsEcho t
          → IsArmed t
          → Serves ((if bit_and ev epollout == 0 then return 0 else handle_write K) t)
      write_part t et at' = elim (Bool-cases (bit_and ev epollout == 0)) [
        | inl off ↦ rw off (return-Serves 0 t et at')
        | inr on ↦ rw on (handle_write-Serves t et at')
      ]

      read_part :
          (t : State World)
          → IsEcho t
          → IsArmed t
          → Serves ((if bit_and ev epollin == 0 then return 0 else handle_read K) t)
      read_part t et at' = elim (Bool-cases (bit_and ev epollin == 0)) [
        | inl off ↦ rw off (return-Serves 0 t et at')
        | inr on ↦ rw on (handle_read-Serves t et at')
      ]

  -- A new connection over a block of the right size is an empty echo, with `enable_epollout` off.
  pub construct-Serves :
      (fd epfd : ℕ) (fresh : List ℕ) (w : World)
      → length fresh ≡ max_pkt_size
      → Serves (some 0, construct K fd epfd fresh w)
  unfolding construct
  construct-Serves fd epfd fresh w h =
      let (v, d) = init-IsValid fresh h in
      (
        record {
          valid = v;
          balance = sym (nil_contents d);
          registers = added (K.epoll_ctl epfd add fd epollin w).0;
        },
        λ n q. ground (arith, d),
      )
    where
      added : (ok : Bool) → Registers ok (if ok then epollin else 0) false
      added true = inr refl
      added false = inl refl

      nil_contents : distance (Ring.init fresh) ≡ 0 → contents (Ring.init fresh) ≡ []
      nil_contents d = eq_nil (contents (Ring.init fresh)) (length-contents (Ring.init fresh) ∙ d)
