-- ===== src/ThreadQueue/Counts.antt =====
-- The mutex and the NULLs of pthread/blocking_queue/main.cpp, counted against the places of the
-- threads, whatever `not_empty` is.
use linux_programming.Prelude.{
  ℕ, ◌+◌, ◌≤◌, ◌<◌, ◌≡◌, refl, sym, ap, ◌∙◌, none, some, List, [], ◌∷◌, ◌++◌, arith, true, false,
  length, get_or, set, get_or-set_self, get_or-set_ne, ℕ_discrete, ltb, leb, ◌==◌, if◌then◌else◌,
  append_assoc,
}
use linux_programming.Threads.{total, others, split-total}
use linux_programming.ThreadQueue.{
  Item, Shared, item_of, push, pop, Pc, producing, put_locked, put_pushed, put_leaving, consuming,
  take_entering, take_locked, take_sleeping, take_popped, took, ended, Call, Move, put_lock,
  put_push, put_unlock, put_tell, take_enter, take_lock, take_sleep, take_wake, take_pop,
  take_unlock, take_again, take_end,
}

unfoldable pub nulls : List Item → ℕ
nulls [] = 0
nulls (none ∷ l) = 1 + nulls l
nulls (some a ∷ l) = nulls l

nulls-append : (l r : List Item) → nulls (l ++ r) ≡ nulls l + nulls r
unfolding nulls
nulls-append [] r = omega arith
nulls-append (none ∷ l) r = omega (arith, nulls-append l r)
nulls-append (some a ∷ l) r = nulls-append l r

-- The last item is NULL, if there is any.
abbrev pub EndsNull : List Item → Type 0
EndsNull [] = Unit
EndsNull (x ∷ []) = x ≡ none
EndsNull (x ∷ y ∷ l) = EndsNull (y ∷ l)

EndsNull-last : (l : List Item) → EndsNull (l ++ (none ∷ []))
EndsNull-last [] = refl
EndsNull-last (x ∷ []) = refl
EndsNull-last (x ∷ y ∷ l) = EndsNull-last (y ∷ l)

EndsNull-rest : (x : Item) (l : List Item) → EndsNull (x ∷ l) → EndsNull l
EndsNull-rest x [] e = tt
EndsNull-rest x (y ∷ l) e = e

pub EndsNull-empty : (l : List Item) → EndsNull l → nulls l ≡ 0 → l ≡ []
unfolding nulls
EndsNull-empty [] e z = refl
EndsNull-empty (none ∷ l) e z = absurd (omega arith)
EndsNull-empty (some a ∷ []) e z = absurd (cc e)
EndsNull-empty (some a ∷ y ∷ l) e z = let r = EndsNull-empty (y ∷ l) e z in absurd (cc r)

-- The thread holds the mutex.
abbrev pub locks : Pc → ℕ
locks (put_locked id i) = 1
locks (put_pushed id i) = 1
locks take_locked = 1
locks (take_popped x) = 1
locks a = 0

-- It is a producer that has not pushed its NULL.
abbrev pub unpushed : (item_num : ℕ) → Pc → ℕ
unpushed item_num (producing id i) = if leb i item_num then 1 else 0
unpushed item_num (put_locked id i) = 1
unpushed item_num (put_pushed id i) = if ltb i item_num then 1 else 0
unpushed item_num (put_leaving id i) = if ltb i item_num then 1 else 0
unpushed item_num a = 0

-- It is a consumer that has not taken a NULL.
abbrev pub active : Pc → ℕ
active consuming = 1
active take_entering = 1
active take_locked = 1
active take_sleeping = 1
active (take_popped (some a)) = 1
active (took (some a)) = 1
active a = 0

-- A producer in `put` has not gone through its rounds.
abbrev pub Fits : (item_num : ℕ) → Pc → Type 0
Fits item_num (put_locked id i) = i ≤ item_num
Fits item_num (put_pushed id i) = i ≤ item_num
Fits item_num (put_leaving id i) = i ≤ item_num
Fits item_num a = Unit

-- The counts, the other threads' weights being `l`, `u` and `v`.
abbrev Counts : Shared → ℕ → ℕ → ℕ → Type 0
Counts q l u v = (q.mutex + l ≡ 1) × (u + nulls q.queue ≡ v)

pushed_one :
    (m id i : ℕ) (l : List Item)
    → i ≤ m
    → unpushed m (put_pushed id i) + nulls (l ++ (item_of m id i ∷ [])) ≡ 1 + nulls l
unfolding nulls
pushed_one m id i l h = elim (ℕ_discrete i m) [
  | yes e ↦
      let last : (i == m) ≡ true = ground (arith, e) in
      let none_left : ltb i m ≡ false = ground (arith, e) in
      rw (last, none_left) (omega (arith, nulls-append l (none ∷ [])))
  | no ne ↦
      let more : (i == m) ≡ false = ground (arith, ne) in
      let left : ltb i m ≡ true = ground (arith, h, ne) in
      rw (more, left) (omega (arith, nulls-append l (some (id, i) ∷ [])))
]

popped_one : (x : Item) (l : List Item) → active (take_popped x) + nulls (x ∷ l) ≡ 1 + nulls l
unfolding nulls
popped_one none l = omega arith
popped_one (some a) l = omega arith

taken_one : (x : Item) → (active (took x) ≡ active (take_popped x)) × (locks (took x) ≡ 0)
taken_one none = (refl, refl)
taken_one (some a) = (refl, refl)

told_one : (m id i : ℕ) → i ≤ m → unpushed m (producing id (i + 1)) ≡ unpushed m (put_leaving id i)
told_one m id i h = ground arith

Move-Counts :
    {m : ℕ} {q r : Shared} {a b : Pc} {c : Call} (l u v : ℕ)
    → Move m q a c r b
    → Fits m a
    → Counts q (l + locks a) (u + unpushed m a) (v + active a)
    → Counts r (l + locks b) (u + unpushed m b) (v + active b)
unfolding push pop
Move-Counts {m} {q} l u v (put_lock {id} {i} h z) f c =
    let on : leb i m ≡ true = ground (arith, h) in
    let w : unpushed m (producing id i) ≡ 1 = rw on refl in
    (omega (arith, c.0, z), omega (arith, c.1, w))
Move-Counts {m} {q} l u v (put_push {id} {i}) f c =
    (c.0, omega (arith, c.1, pushed_one m id i q.queue f))
Move-Counts l u v put_unlock f c = (omega (arith, c.0), c.1)
Move-Counts {m} l u v (put_tell {id} {i}) f c = (c.0, omega (arith, c.1, told_one m id i f))
Move-Counts l u v take_enter f c = c
Move-Counts l u v (take_lock z) f c = (omega (arith, c.0, z), c.1)
Move-Counts l u v (take_sleep e) f c = (omega (arith, c.0), c.1)
Move-Counts l u v take_wake f c = c
Move-Counts l u v (take_pop {x} {rest} e) f c =
    (c.0, omega (arith, c.1, ap nulls e, popped_one x rest))
Move-Counts l u v (take_unlock {x}) f c =
    let (same, free) = taken_one x in (omega (arith, c.0, free), omega (arith, c.1, same))
Move-Counts l u v take_again f c = c
Move-Counts l u v take_end f c = c

-- When every producer has pushed its NULL, a NULL is the last item.
Move-last :
    {m : ℕ} {q r : Shared} {a b : Pc} {c : Call} (u : ℕ)
    → Move m q a c r b
    → Fits m a
    → (u + unpushed m a ≡ 0 → EndsNull q.queue)
    → u + unpushed m b ≡ 0
    → EndsNull r.queue
unfolding push pop
Move-last {m} u (put_lock {id} {i} h z) f e d = absurd (omega arith)
Move-last {m} {q} u (put_push {id} {i}) f e d = elim (ℕ_discrete i m) [
  | yes same ↦ let last : (i == m) ≡ true = ground (arith, same) in rw last (EndsNull-last q.queue)
  | no ne ↦
      let left : ltb i m ≡ true = ground (arith, f, ne) in absurd (omega (arith, rw left at d))
]
Move-last u put_unlock f e d = e d
Move-last {m} u (put_tell {id} {i}) f e d = e (omega (arith, told_one m id i f, d))
Move-last u take_enter f e d = e d
Move-last u (take_lock z) f e d = e d
Move-last u (take_sleep z) f e d = e d
Move-last u take_wake f e d = e d
Move-last u (take_pop {x} {rest} z) f e d = EndsNull-rest x rest (rw z at (e d))
Move-last u take_unlock f e d = e d
Move-last u take_again f e d = e d
Move-last u take_end f e d = e d

Move-Fits : {m : ℕ} {q r : Shared} {a b : Pc} {c : Call} → Move m q a c r b → Fits m a → Fits m b
Move-Fits (put_lock h z) f = h
Move-Fits put_push f = f
Move-Fits put_unlock f = f
Move-Fits put_tell f = tt
Move-Fits take_enter f = tt
Move-Fits (take_lock z) f = tt
Move-Fits (take_sleep e) f = tt
Move-Fits take_wake f = tt
Move-Fits (take_pop e) f = tt
Move-Fits take_unlock f = tt
Move-Fits take_again f = tt
Move-Fits take_end f = tt

-- What was pushed was popped or waits.
Move-history :
    {m : ℕ} {q r : Shared} {a b : Pc} {c : Call}
    → Move m q a c r b
    → q.pushed ≡ q.popped ++ q.queue
    → r.pushed ≡ r.popped ++ r.queue
unfolding push pop
Move-history (put_lock h z) e = e
Move-history {m} {q} (put_push {id} {i}) e =
    let x = item_of m id i in ap (λ l. l ++ (x ∷ [])) e ∙ append_assoc q.popped q.queue (x ∷ [])
Move-history put_unlock e = e
Move-history put_tell e = e
Move-history take_enter e = e
Move-history (take_lock z) e = e
Move-history (take_sleep d) e = e
Move-history take_wake e = e
Move-history {m} {q} (take_pop {x} {rest} d) e =
    e ∙ ap (λ l. q.popped ++ l) d ∙ sym (append_assoc q.popped (x ∷ []) rest)
Move-history take_unlock e = e
Move-history take_again e = e
Move-history take_end e = e

-- What holds of the queue and the threads after every step.
pub record IsSound (item_num : ℕ) (q : Shared) (pcs : List Pc) : Type 0 where
  pub fits : (i : ℕ) → Fits item_num (get_or pcs i ended)
  pub one_lock : q.mutex + total locks pcs ≡ 1
  pub sentinels : total (unpushed item_num) pcs + nulls q.queue ≡ total active pcs
  pub last : total (unpushed item_num) pcs ≡ 0 → EndsNull q.queue
  pub history : q.pushed ≡ q.popped ++ q.queue

pub Move-IsSound :
    {m : ℕ} {q r : Shared} {b : Pc} {c : Call} (pcs : List Pc) (i : ℕ)
    → i < length pcs
    → Move m q (get_or pcs i ended) c r b
    → IsSound m q pcs
    → IsSound m r (set pcs i b)
Move-IsSound {m} {q} {r} {b} pcs i h mv v =
    let (l, l') = split-total locks ended pcs i b refl h in
    let (u, u') = split-total (unpushed m) ended pcs i b refl h in
    let (a, a') = split-total active ended pcs i b refl h in
    let lo = others locks ended pcs i in
    let uo = others (unpushed m) ended pcs i in
    let (c, d) =
      Move-Counts lo uo (others active ended pcs i) mv (v.fits i)
        (omega (arith, l, v.one_lock), omega (arith, u, a, v.sentinels)) in
    record {
      fits = λ j. elim (ℕ_discrete i j) [
        | yes e ↦ rw (sym e) (rw (get_or-set_self pcs i b ended h) (Move-Fits mv (v.fits i)))
        | no ne ↦ rw (get_or-set_ne pcs i j b ended ne) (v.fits j)
      ];
      one_lock = omega (arith, l', c);
      sentinels = omega (arith, u', a', d);
      last = λ z.
          Move-last uo mv (v.fits i) (λ y. v.last (omega (arith, u, y))) (omega (arith, u', z));
      history = Move-history mv v.history;
    }
