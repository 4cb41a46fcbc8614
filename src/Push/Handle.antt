-- ===== src/Push/Handle.antt =====
-- `handle` of network/tcp_echo/server_epollout.cpp: which events close a connection.
use linux_programming.Prelude.{
  ℕ, zero, suc, ◌≤◌, ◌<◌, ◌≡◌, ◌≢◌, refl, ◌∙◌, Bool, true, false, List, arith, ◌==◌, if◌then◌else◌,
  if_lem, bit_and, not,
}
use linux_programming.Kernel.{Kernel, IsFinite, epollin, epollout}
use linux_programming.Response.Calls.{Exit, done, error, exhausted}
use linux_programming.Push.{
  State, send_buf, handle_recv, handle_send, handle, zero_or_error, and_then,
}
use linux_programming.Echo.Control.{Turns-trans, Turns-Registers}
use linux_programming.Push.Send.{
  control, IsRegistered, IsPushing, Keeps, IsWaiting, Sends, send_buf_lem,
}
use linux_programming.Push.Receive.{send_buf-supply, Received, handle_recv-Received, stays}

module _ (K : Kernel) (finite : IsFinite K) (reponse : List ℕ) where
  open K use {World}
  open finite use {supply}

  abbrev Calm : State World → Exit × State World → Type 0
  Calm s (x, t) = Keeps reponse s t × (supply t.world ≤ supply s.world) × (x ≢ exhausted)

  -- After an EPOLLOUT that did not fail, the connection waits with more to send.
  abbrev Written : Bool → State World → Exit × State World → Type 0
  Written out s (x, t) =
      Calm s (x, t) × ((n : ℕ) → x ≡ done n → out ≡ true → IsWaiting reponse t.session)

  zero_or_error-Written :
      (s : State World) (x : Exit) (t : State World)
      → Keeps reponse s t
      → Sends reponse (x, t)
      → supply t.world ≤ supply s.world
      → Written true s (zero_or_error (x, t))
  zero_or_error-Written s (done zero) t k e l = ((k, l, λ q. cc q), λ n q o. e)
  zero_or_error-Written s (done (suc zero)) t k e l = ((k, l, λ q. cc q), λ n q o. absurd (cc q))
  zero_or_error-Written s (done (suc (suc n))) t k e l = absurd e
  zero_or_error-Written s error t k e l = ((k, l, λ q. cc q), λ n q o. absurd (cc q))
  zero_or_error-Written s exhausted t k e l = absurd e

  handle_send-Written :
      (s : State World) → IsPushing reponse s.session → Written true s (handle_send K reponse s)
  unfolding handle_send
  handle_send-Written s v =
      let (k, e) = send_buf_lem K reponse s v in
      zero_or_error-Written s ((send_buf K reponse s).0) ((send_buf K reponse s).1) k e
        (send_buf-supply K finite reponse s)

  sending-Written :
      (skip : Bool) (s : State World)
      → IsPushing reponse s.session
      → Written (not skip) s (if skip then (done 0, s) else handle_send K reponse s)
  sending-Written true s v =
      ((stays K finite reponse s s.world v, omega arith, λ q. cc q), λ n q o. absurd (cc o))
  sending-Written false s v = handle_send-Written s v

  -- The part of `handle` for EPOLLIN.
  abbrev receiving : ℕ → ℕ → State World → Exit × State World
  receiving rounds ev t =
      and_then (if bit_and ev epollin == 0 then (done 0, t) else handle_recv K reponse rounds t)
        (λ u. (done 0, u))

  ended-Received :
      (t : State World) (x : Exit) (u : State World)
      → Received K finite reponse t (x, u)
      → Received K finite reponse t (and_then (x, u) (λ u. (done 0, u)))
  ended-Received t (done n) u r = (r.0, r.1, r.2, r.3, λ q. cc q)
  ended-Received t error u r = r
  ended-Received t exhausted u r = r

  receiving-Received :
      (rounds ev : ℕ) (t : State World)
      → IsPushing reponse t.session
      → supply t.world < rounds
      → Received K finite reponse t (receiving rounds ev t)
  receiving-Received rounds ev t v h =
      if_lem (λ r. Received K finite reponse t (and_then r (λ u. (done 0, u))))
        (bit_and ev epollin == 0) (done 0, t) (handle_recv K reponse rounds t)
        (λ e. (stays K finite reponse t t.world v, refl, refl, omega arith, λ q. cc q))
        (λ e.
          ended-Received t ((handle_recv K reponse rounds t).0) ((handle_recv K reponse rounds t).1)
            (handle_recv-Received K finite reponse rounds t v h))

  -- Both parts, one after the other.
  both-Written :
      (rounds ev : ℕ) (out : Bool) (s : State World) (x : Exit) (t : State World)
      → supply s.world < rounds
      → Written out s (x, t)
      → Written out s (and_then (x, t) (receiving rounds ev))
  both-Written rounds ev out s (done n) t h ((k, l, q), w) =
      let u = (receiving rounds ev t).1 in
      let (k', same, armed, l', q') =
        receiving-Received rounds ev t k.pushing (omega (arith, l, h)) in
      (
        (
          record {
            pushing = k'.pushing;
            onward = omega (arith, k.onward, k'.onward);
            same_fd = k'.same_fd ∙ k.same_fd;
            turns =
                Turns-trans (control s.session) (control t.session) (control u.session) k.turns
                  k'.turns;
          },
          omega (arith, l, l'),
          q',
        ),
        λ m e o. let (less, on) = w n refl o in (omega (arith, less, same), armed ∙ on),
      )
  both-Written rounds ev out s error t h w = w
  both-Written rounds ev out s exhausted t h w = w

  pub handle_lem :
      (rounds ev : ℕ) (s : State World)
      → IsPushing reponse s.session
      → supply s.world < rounds
      → Written (not (bit_and ev epollout == 0)) s (handle K reponse rounds ev s)
  unfolding handle
  handle_lem rounds ev s v h =
      if_lem (Written (not (bit_and ev epollout == 0)) s) (not (bit_and ev 0xffff_fffa == 0))
        (error, s) _
        (λ e.
          ((stays K finite reponse s s.world v, omega arith, λ q. cc q), λ n q o. absurd (cc q)))
        (λ e. both-Written rounds ev _ s _ _ h (sending-Written (bit_and ev epollout == 0) s v))

  -- When the client sends finitely many times, `handle` ends on every event. What the socket has
  -- accepted stays the front of the response. After an event with EPOLLOUT that does not close the
  -- connection, some of the response is still to send and `enable_epollout` is on: so the event with
  -- which the last byte goes out is one that closes the connection. If the events registered were
  -- EPOLLIN, and EPOLLOUT exactly if `enable_epollout` is on, then they are again, unless the last
  -- control call failed.
  pub handle-Written :
      (rounds ev : ℕ) (s : State World)
      → IsPushing reponse s.session
      → IsRegistered s.session
      → supply s.world < rounds
      → let o = handle K reponse rounds ev s in
        Written (not (bit_and ev epollout == 0)) s o × IsRegistered o.1.session
  handle-Written rounds ev s v r h =
      let w = handle_lem rounds ev s v h in (w, Turns-Registers _ _ _ _ _ _ w.0.0.turns r)
