-- ===== src/Push/Single/Send.antt =====
-- One `send_buf` of server_epollout_simple.cpp.
use linux_programming.Prelude.{
  ℕ, zero, suc, ◌-◌, ◌≤◌, ◌≡◌, ◌≢◌, refl, ◌∙◌, true, false, List, arith, length, drop, ltb, ◌==◌,
  if_lem, length-drop, inr,
}
use linux_programming.Kernel.{Reply, ret, again, fail, Kernel, IsFinite}
use linux_programming.Response.Calls.{Exit, done, error, exhausted}
use linux_programming.Push.{State, set_epollout, sent}
use linux_programming.Echo.Control.{Turns-trans}
use linux_programming.Push.Send.{control, IsPushing, Keeps, sent-IsPushing, stays, turned}
use linux_programming.Push.Receive.{set_epollout-supply}
use linux_programming.Push.Single.{both, sent_once, send_once, send_stopped, send_end, send_buf}

module _ (K : Kernel) (finite : IsFinite K) (reponse : List ℕ) where
  open K use {World, send, recv, send_bound}
  open finite use {supply, send_keeps}

  -- What a method keeps: what the socket has accepted is the front of the response, and a connection
  -- that stays open is asked for EPOLLOUT if it was before.
  pub record Stays (s : State World) (x : Exit) (t : State World) : Type 0 where
    pub keeps : Keeps reponse s t
    pub supplies : supply t.world ≤ supply s.world
    pub ends : x ≢ exhausted
    pub listens : s.interest ≡ both → x ≡ done 0 → t.interest ≡ both

  -- The first part of `send_buf` changes nothing but what was sent.
  record Sent (s t : State World) : Type 0 where
    keeps : Keeps reponse s t
    supplies : supply t.world ≤ supply s.world
    same_interest : t.interest ≡ s.interest

  still :
      (w : World) (s : State World)
      → IsPushing reponse s.session
      → supply w ≤ supply s.world
      → Sent s (record s { world = w })
  still w s v l = record {
    keeps = record {
      pushing = v;
      onward = omega arith;
      same_fd = refl;
      turns = inr (refl, refl, refl);
    };
    supplies = l;
    same_interest = refl;
  }

  sent_once-Sent :
      (r : Reply ℕ) (w : World) (s : State World)
      → IsPushing reponse s.session
      → supply w ≤ supply s.world
      → ((n : ℕ) → r ≡ ret n → n ≤ length reponse - s.send_len)
      → Sent s (sent_once K reponse (drop s.send_len reponse) r w s).1
  unfolding sent_once sent
  sent_once-Sent (ret zero) w s v l b = still w s v l
  sent_once-Sent (ret (suc n)) w s v l b =
      let (p, len, own) = sent-IsPushing K reponse n w s v (b (suc n) refl) in
      record {
        keeps = record {
          pushing = p;
          onward = omega (arith, len);
          same_fd = own;
          turns = inr (refl, refl, refl);
        };
        supplies = l;
        same_interest = refl;
      }
  sent_once-Sent again w s v l b = still w s v l
  sent_once-Sent fail w s v l b = still w s v l

  send_once-Sent :
      (s : State World) → IsPushing reponse s.session → Sent s (send_once K reponse s).1
  unfolding send_once
  send_once-Sent s v =
      let bs = drop s.send_len reponse in
      if_lem (λ (r : Reply ℕ × State World). Sent s r.1) (ltb s.send_len (length reponse)) _
        (ret 0, s)
        (λ more.
          sent_once-Sent ((send s.fd bs s.world).0) ((send s.fd bs s.world).1) s v
            (send_keeps s.fd bs s.world)
            (λ n e. omega (arith, send_bound s.fd bs s.world n e, length-drop s.send_len reponse)))
        (λ all. still s.world s v (omega arith))

  open_after :
      (s : State World) (x : Exit) → IsPushing reponse s.session → x ≢ exhausted → Stays s x s
  open_after s x v e = record {
    keeps = stays K reponse s v;
    supplies = omega arith;
    ends = e;
    listens = λ i q. i;
  }

  set_epollout-interest :
      (s : State World) → s.interest ≡ both → (set_epollout K reponse true s).interest ≡ both
  unfolding set_epollout
  set_epollout-interest s e = ground arith

  turned_on :
      (s : State World)
      → IsPushing reponse s.session
      → Stays s (done 0) (set_epollout K reponse true s)
  turned_on s v = record {
    keeps = (turned K reponse true s v).0;
    supplies = set_epollout-supply K finite reponse true s;
    ends = λ q. cc q;
    listens = λ i q. set_epollout-interest s i;
  }

  turned_off :
      (s : State World)
      → IsPushing reponse s.session
      → Stays s (done 1) (set_epollout K reponse false s)
  turned_off s v = record {
    keeps = (turned K reponse false s v).0;
    supplies = set_epollout-supply K finite reponse false s;
    ends = λ q. cc q;
    listens = λ i q. absurd (cc q);
  }

  send_stopped-Stays :
      (tmp : Reply ℕ) (s : State World)
      → IsPushing reponse s.session
      → let (x, t) = send_stopped K reponse tmp s in Stays s x t
  unfolding send_stopped
  send_stopped-Stays (ret n) s v = open_after s (done 0) v (λ q. cc q)
  send_stopped-Stays again s v =
      if_lem (Stays s (done 0)) s.enable_epollout s (set_epollout K reponse true s)
        (λ on. open_after s (done 0) v (λ q. cc q)) (λ off. turned_on s v)
  send_stopped-Stays fail s v = open_after s error v (λ q. cc q)

  send_end-Stays :
      (tmp : Reply ℕ) (s : State World)
      → IsPushing reponse s.session
      → let (x, t) = send_end K reponse tmp s in Stays s x t
  unfolding send_end
  send_end-Stays tmp s v =
      if_lem (λ (r : Exit × State World). Stays s r.0 r.1) (s.send_len == length reponse) _
        (send_stopped K reponse tmp s)
        (λ all.
          if_lem (Stays s (done 1)) s.enable_epollout (set_epollout K reponse false s) s
            (λ on. turned_off s v) (λ off. open_after s (done 1) v (λ q. cc q)))
        (λ more. send_stopped-Stays tmp s v)

  pub send_buf-Stays :
      (s : State World)
      → IsPushing reponse s.session
      → let (x, t) = send_buf K reponse s in Stays s x t
  unfolding send_buf
  send_buf-Stays s v =
      let first = send_once-Sent s v in
      let (tmp, m) = send_once K reponse s in
      let e = send_end-Stays tmp m first.keeps.pushing in
      record {
        keeps = record {
          pushing = e.keeps.pushing;
          onward = omega (arith, first.keeps.onward, e.keeps.onward);
          same_fd = e.keeps.same_fd ∙ first.keeps.same_fd;
          turns =
              Turns-trans (control s.session) (control m.session)
                (control (send_end K reponse tmp m).1.session) first.keeps.turns e.keeps.turns;
        };
        supplies = omega (arith, first.supplies, e.supplies);
        ends = e.ends;
        listens = λ i q. e.listens (first.same_interest ∙ i) q;
      }
