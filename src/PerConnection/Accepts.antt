-- ===== src/PerConnection/Accepts.antt =====
-- `main` of network/tcp_echo/server.cpp, which stores each descriptor in sock_fds.
use linux_programming.Prelude.{
  ℕ, zero, suc, ◌+◌, ◌≤◌, ◌<◌, ◌≡◌, refl, ◌∙◌, ap, none, some, [], ◌∷◌, ◌++◌, inl, inr, arith,
  Option-cases, length, length-set, length-replicate, true, false, ltb, get_or, set, get_or-set_ne,
  ℕ_discrete,
}
use linux_programming.Kernel.{Kernel}
use linux_programming.Threads.{upto}
use linux_programming.PerConnection.{Table, accept_one, accept_many, new_table}

module _ (K : Kernel) where
  open K use {World, accept4}

  -- After `n` accepts the next place is free, each thread has the address of a place of its own, and the
  -- places that were filled before hold what they held.
  pub record Filled (n : ℕ) (s t : Table K) : Type 0 where
    pub sock_num : t.sock_num ≡ s.sock_num + n
    pub size : length t.sock_fds ≡ length s.sock_fds
    pub threads : s.threads ≡ upto s.sock_num → t.threads ≡ upto t.sock_num
    pub kept : (k : ℕ) → k < s.sock_num → get_or t.sock_fds k none ≡ get_or s.sock_fds k none

  one-Filled :
      (fd : ℕ) (s : Table K)
      → s.sock_num < length s.sock_fds
      → (t : Table K) × (accept_one K fd s ≡ some t) × Filled 1 s t
  unfolding accept_one upto
  one-Filled fd s h =
      let (conn, w) = accept4 fd s.world in
      let room : ltb s.sock_num (length s.sock_fds) ≡ true = ground (arith, h) in
      let more : s.sock_num + 1 ≡ suc s.sock_num = omega arith in
      (
        record {
          sock_fds = set s.sock_fds s.sock_num conn;
          sock_num = s.sock_num + 1;
          threads = s.threads ++ (s.sock_num ∷ []);
          world = w;
        },
        rw room refl,
        record {
          sock_num = refl;
          size = length-set s.sock_fds s.sock_num conn;
          threads = λ e. rw more (ap (λ l. l ++ (s.sock_num ∷ [])) e);
          kept = λ k l. get_or-set_ne s.sock_fds s.sock_num k conn none (λ e. omega (arith, e, l));
        },
      )

  many-Filled :
      (n fd : ℕ) (s : Table K)
      → s.sock_num + n ≤ length s.sock_fds
      → (t : Table K) × (accept_many K n fd s ≡ some t) × Filled n s t
  unfolding accept_many
  many-Filled zero fd s h = (
    s,
    refl,
    record { sock_num = omega arith; size = refl; threads = λ e. e; kept = λ k l. refl },
  )
  many-Filled (suc n) fd s h =
      let (u, e, one) = one-Filled fd s (omega (arith, h)) in
      let (t, f, more) = many-Filled n fd u (omega (arith, h, one.sock_num, one.size)) in
      (
        t,
        rw (accept_many, e) f,
        record {
          sock_num = omega (arith, more.sock_num, one.sock_num);
          size = more.size ∙ one.size;
          threads = λ q. more.threads (one.threads q);
          kept = λ k l. more.kept k (omega (arith, l, one.sock_num)) ∙ one.kept k l;
        },
      )

  past_end : (fd : ℕ) (s : Table K) → s.sock_num ≡ length s.sock_fds → accept_one K fd s ≡ none
  unfolding accept_one
  past_end fd s h =
      let full : ltb s.sock_num (length s.sock_fds) ≡ false = ground (arith, h) in rw full refl

  many_past_end :
      (n fd : ℕ) (s : Table K)
      → s.sock_num ≤ length s.sock_fds
      → length s.sock_fds < s.sock_num + n
      → accept_many K n fd s ≡ none
  unfolding accept_many
  many_past_end zero fd s le h = absurd (omega (arith, h))
  many_past_end (suc n) fd s le h = elim (ℕ_discrete s.sock_num (length s.sock_fds)) [
    | yes e ↦ rw (accept_many, past_end fd s e) refl
    | no ne ↦
        let (u, e, one) = one-Filled fd s (omega (arith, le, ne)) in
        rw (accept_many, e)
          (many_past_end n fd u (omega (arith, one.sock_num, one.size, ne, le))
            (omega (arith, h, one.sock_num, one.size)))
  ]

  some_inj : (s u : Table K) → some s ≡ some u → s ≡ u
  some_inj s u e = ap (λ o. elim o [ none ↦ s | some t ↦ t ]) e

  many_after :
      (k n fd : ℕ) (s u : Table K)
      → accept_many K k fd s ≡ some u
      → accept_many K (k + n) fd s ≡ accept_many K n fd u
  unfolding accept_many
  many_after zero n fd s u e =
      let same : s ≡ u = some_inj s u e in
      let z : 0 + n ≡ n = omega arith in rw z (ap (accept_many K n fd) same)
  many_after (suc k) n fd s u e = elim (Option-cases (accept_one K fd s)) [
    | inl z ↦ absurd (cc (rw (accept_many, z) at e))
    | inr (t, z) ↦
        let one_less : suc k + n ≡ suc (k + n) = omega arith in
        rw (one_less, accept_many, z) (many_after k n fd t u (rw (accept_many, z) at e))
  ]

  -- `main` stores the descriptors of `max_conns` connections, each at a place of its own that no later one
  -- overwrites, and gives the address to a thread; the next one is stored past the end.
  pub room_for_max_conns :
      (max_conns k n fd : ℕ) (w : World)
      → (k + n ≤ max_conns
          → (u : Table K) × (t : Table K) × (accept_many K k fd (new_table K max_conns w) ≡ some u)
            × (accept_many K (k + n) fd (new_table K max_conns w) ≡ some t)
            × (t.sock_num ≡ k + n)
            × (t.threads ≡ upto (k + n))
            × ((j : ℕ) → j < k → get_or t.sock_fds j none ≡ get_or u.sock_fds j none))
        × (max_conns < k + n → accept_many K (k + n) fd (new_table K max_conns w) ≡ none)
  unfolding new_table upto
  room_for_max_conns max_conns k n fd w =
      let s : Table K = new_table K max_conns w in
      let size : length s.sock_fds ≡ max_conns = length-replicate max_conns (some 0) in
      (
        (λ h.
            let (u, e, first) = many-Filled k fd s (omega (arith, size, h)) in
            let (t, f, more) =
              many-Filled n fd u (omega (arith, size, h, first.sock_num, first.size)) in
            let num : t.sock_num ≡ k + n = omega (arith, first.sock_num, more.sock_num) in
            (
              u,
              t,
              e,
              many_after k n fd s u e ∙ f,
              num,
              more.threads (first.threads refl) ∙ ap upto num,
              λ j l. more.kept j (omega (arith, l, first.sock_num)),
            )),
        (λ h. many_past_end (k + n) fd s (omega arith) (omega (arith, size, h))),
      )
