-- ===== src/ThreadQueue/Finish.antt =====
-- What holds in every state of pthread/blocking_queue/main.cpp, and the state in which its threads end.
use linux_programming.Prelude.{
  ℕ, zero, suc, ◌+◌, ◌*◌, ◌≤◌, ◌<◌, ◌≡◌, refl, sym, ap, ◌∙◌, List, [], ◌++◌, arith, length,
  length-append, length-set, length-replicate, get_or, set, replicate, dec_lt, leb, if◌then◌else◌,
  append-nil, min,
}
use linux_programming.Threads.{upto, total, one-le-total, total-replicate, total-append, total-le}
use linux_programming.ThreadQueue.{
  Item, Shared, Pc, producing, put_locked, put_pushed, put_leaving, consuming, take_entering,
  take_locked, take_sleeping, take_popped, took, ended, Call, Move, producers, Signal, start,
}
use linux_programming.ThreadQueue.Counts.{
  nulls, EndsNull-empty, locks, unpushed, active, Fits, IsSound, Move-IsSound,
}
use linux_programming.ThreadQueue.Delivery.{of_id, Owns, Takes, IsPlaced, Move-IsPlaced}

pub record Follows (item_num n : ℕ) (q : Shared) (pcs : List Pc) : Type 0 where
  pub sound : IsSound item_num q pcs
  pub placed : IsPlaced item_num n q pcs
  pub size : length pcs ≡ n + n

pub Move-Follows :
    {m n : ℕ} {q r : Shared} {b : Pc} {c : Call} (pcs : List Pc) (i : ℕ)
    → i < length pcs
    → Move m q (get_or pcs i ended) c r b
    → Follows m n q pcs
    → Follows m n r (set pcs i b)
Move-Follows {m} {n} {b = b} pcs i h mv v = record {
  sound = Move-IsSound pcs i h mv v.sound;
  placed = Move-IsPlaced m n pcs i h mv (v.sound.fits i) v.placed;
  size = length-set pcs i b ∙ v.size;
}

length-producers : (id n : ℕ) → length (producers id n) ≡ n
unfolding producers
length-producers id zero = refl
length-producers id (suc n) = omega (arith, length-producers (id + 1) n)

-- A weight that producers have before their first round.
total-producers :
    (w : Pc → ℕ) (x : ℕ)
    → ((id : ℕ) → w (producing id 0) ≡ x)
    → (id n : ℕ) → total w (producers id n) ≡ n * x
unfolding producers total
total-producers w x h id zero = omega arith
total-producers w x h id (suc n) = omega (arith, h id, total-producers w x h (id + 1) n)

pub total-start :
    (w : Pc → ℕ) (x : ℕ)
    → ((id : ℕ) → w (producing id 0) ≡ x)
    → (C : Signal) (n : ℕ) → total w (start C n).pcs ≡ n * x + n * w consuming
unfolding start
total-start w x h C n = omega (
  arith,
  total-append w (producers 0 n) (replicate n consuming),
  total-producers w x h 0 n,
  total-replicate w consuming n,
)

-- Where a thread stands at the start: each producer before its first round, by its id.
starts :
    (id n : ℕ) (l : List Pc) (k : ℕ)
    → k < n
    → get_or (producers id n ++ l) k ended ≡ producing (id + k) 0
unfolding producers
starts id zero l k h = absurd (omega arith)
starts id (suc n) l zero h = ap (λ j. producing j 0) (omega arith)
starts id (suc n) l (suc k) h =
    starts (id + 1) n l k (omega arith) ∙ ap (λ j. producing j 0) (omega arith)

-- What `consuming` and `ended` share is true of the other threads.
starts_other :
    (S : Pc → Type 0)
    → S consuming
    → S ended
    → (id n m k : ℕ) → n ≤ k
    → S (get_or (producers id n ++ replicate m consuming) k ended)
unfolding producers
starts_other S c e id zero zero k h = e
starts_other S c e id zero (suc m) zero h = c
starts_other S c e id zero (suc m) (suc k) h = starts_other S c e id zero m k (omega arith)
starts_other S c e id (suc n) m zero h = absurd (omega arith)
starts_other S c e id (suc n) m (suc k) h = starts_other S c e (id + 1) n m k (omega arith)

pub start-Follows : (C : Signal) (m n : ℕ) → Follows m n (start C n).shared (start C n).pcs
unfolding start nulls of_id upto
start-Follows C m n = record {
  sound = record {
    fits = λ i. elim (dec_lt i n) [
      | yes l ↦ rw (starts 0 n (replicate n consuming) i l) tt
      | no g ↦ starts_other (Fits m) tt tt 0 n n i (omega (arith, g))
    ];
    one_lock = omega (arith, total-start locks 0 (λ id. refl) C n);
    sentinels = omega (
      arith,
      total-start (unpushed m) 1 (λ id. ground arith) C n,
      total-start active 0 (λ id. refl) C n,
    );
    last = λ z. tt;
    history = refl;
  };
  placed = record {
    owns = λ k l.
        let no_item : min 0 m ≡ 0 = omega arith in
        let id : 0 + k ≡ k = omega arith in
        rw (starts 0 n (replicate n consuming) k l, no_item) (id, refl);
    takes = λ k g. starts_other Takes tt tt 0 n n k g;
  };
  size = omega (
    arith,
    length-append (producers 0 n) (replicate n consuming),
    length-producers 0 n,
    length-replicate n consuming,
  );
}

-- It would go on if no call held it up, and the mutex was free.
abbrev pub wants : (item_num : ℕ) → Pc → ℕ
wants item_num (producing id i) = if leb i item_num then 1 else 0
wants item_num (put_leaving id i) = 1
wants item_num take_entering = 1
wants item_num (took x) = 1
wants item_num a = 0

-- The thread is over: a producer has gone through its rounds, a consumer has left its loop.
abbrev pub IsOver : (item_num : ℕ) → Pc → Type 0
IsOver item_num (producing id i) = item_num < i
IsOver item_num ended = Unit
IsOver item_num a = ⊥

unpushed-wants : (m : ℕ) (a : Pc) → unpushed m a ≤ locks a + wants m a
unpushed-wants m (producing id i) = omega arith
unpushed-wants m (put_locked id i) = omega arith
unpushed-wants m (put_pushed id i) = ground arith
unpushed-wants m (put_leaving id i) = ground arith
unpushed-wants m consuming = omega arith
unpushed-wants m take_entering = omega arith
unpushed-wants m take_locked = omega arith
unpushed-wants m take_sleeping = omega arith
unpushed-wants m (take_popped x) = omega arith
unpushed-wants m (took x) = omega arith
unpushed-wants m ended = omega arith

idle-IsOver : (m : ℕ) (a : Pc) → locks a ≡ 0 → wants m a ≡ 0 → active a ≡ 0 → IsOver m a
idle-IsOver m (producing id i) l w v = ground (arith, w)
idle-IsOver m (put_locked id i) l w v = absurd (omega (arith, l))
idle-IsOver m (put_pushed id i) l w v = absurd (omega (arith, l))
idle-IsOver m (put_leaving id i) l w v = absurd (omega (arith, w))
idle-IsOver m consuming l w v = absurd (omega (arith, v))
idle-IsOver m take_entering l w v = absurd (omega (arith, w))
idle-IsOver m take_locked l w v = absurd (omega (arith, l))
idle-IsOver m take_sleeping l w v = absurd (omega (arith, v))
idle-IsOver m (take_popped x) l w v = absurd (omega (arith, l))
idle-IsOver m (took x) l w v = absurd (omega (arith, w))
idle-IsOver m ended l w v = tt

-- `main` has joined its threads: each has gone its way to the end, everything that was put was taken,
-- in that order, and of each producer that is its `item_num` items, in the order of its rounds.
pub record IsDone (item_num n : ℕ) (q : Shared) (pcs : List Pc) : Type 0 where
  pub over : (i : ℕ) → i < length pcs → IsOver item_num (get_or pcs i ended)
  pub empty : q.queue ≡ []
  pub all_taken : q.popped ≡ q.pushed
  pub complete : (k : ℕ) → k < n → of_id k q.popped ≡ upto item_num

owned : (m k : ℕ) (a : Pc) (l : List Item) → IsOver m a → Owns m k a l → of_id k l ≡ upto m
owned m k (producing id i) l h (own, e) =
    let all : min i m ≡ m = omega (arith, h) in e ∙ ap upto all
owned m k (put_locked id i) l h o = absurd h
owned m k (put_pushed id i) l h o = absurd h
owned m k (put_leaving id i) l h o = absurd h
owned m k consuming l h o = absurd h
owned m k take_entering l h o = absurd h
owned m k take_locked l h o = absurd h
owned m k take_sleeping l h o = absurd h
owned m k (take_popped x) l h o = absurd h
owned m k (took x) l h o = absurd h
owned m k ended l h o = absurd o

module _ {m n : ℕ} {q : Shared} {pcs : List Pc} (v : Follows m n q pcs) where
  -- When nobody holds the mutex or wants to go on, every NULL is in the queue or taken.
  pub rest_counts : total locks pcs ≡ 0 → total (wants m) pcs ≡ 0 → nulls q.queue ≡ total active pcs
  rest_counts l w =
      omega (
        arith,
        l,
        w,
        v.sound.sentinels,
        total-le (unpushed m) locks (wants m) pcs (unpushed-wants m),
      )

  pub rest-IsDone :
      total locks pcs ≡ 0 → total (wants m) pcs ≡ 0 → total active pcs ≡ 0 → IsDone m n q pcs
  rest-IsDone l w z =
      let none_left : total (unpushed m) pcs ≡ 0 =
        omega (arith, l, w, total-le (unpushed m) locks (wants m) pcs (unpushed-wants m)) in
      let no_null : nulls q.queue ≡ 0 = omega (arith, z, v.sound.sentinels) in
      let gone = EndsNull-empty q.queue (v.sound.last none_left) no_null in
      let taken = sym (v.sound.history ∙ ap (λ r. q.popped ++ r) gone ∙ append-nil q.popped) in
      let ends : (i : ℕ) → i < length pcs → IsOver m (get_or pcs i ended) = λ i h.
        idle-IsOver m (get_or pcs i ended) (omega (arith, l, one-le-total locks ended pcs i refl h))
          (omega (arith, w, one-le-total (wants m) ended pcs i refl h))
          (omega (arith, z, one-le-total active ended pcs i refl h)) in
      record {
        over = ends;
        empty = gone;
        all_taken = taken;
        complete = λ k h.
            ap (of_id k) taken
            ∙ owned m k (get_or pcs k ended) q.pushed (ends k (omega (arith, h, v.size)))
                (v.placed.owns k h);
      }
