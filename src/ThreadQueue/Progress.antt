-- ===== src/ThreadQueue/Progress.antt =====
-- pthread/blocking_queue/main.cpp: which thread can go on, and how often, for any `not_empty` that lets
-- the threads pass.
use linux_programming.Prelude.{
  ℕ, ◌+◌, ◌≤◌, ◌<◌, ◌≡◌, ◌⊎◌, refl, sym, none, some, List, [], ◌∷◌, inl, inr, arith, length, get_or,
  dec_lt,
}
use mathlib.Core.Path.{subst}
use linux_programming.Threads.{total, total-found, total-le}
use linux_programming.ThreadQueue.{
  Item, Shared, Pc, producing, put_locked, put_pushed, put_leaving, consuming, take_entering,
  take_locked, take_sleeping, take_popped, took, ended, Call, no_call, sleep, tell, Move, put_lock,
  put_push, put_unlock, put_tell, take_lock, take_sleep, take_pop, take_unlock, take_again,
  take_end, Signal, System, Advance, pick,
}
use linux_programming.ThreadQueue.Counts.{locks, active}
use linux_programming.ThreadQueue.Finish.{Follows, wants, IsDone, rest-IsDone}

-- An item is pushed and nobody was told, or a taker is on its way to the queue.
abbrev pub helps : Pc → ℕ
helps (put_pushed id i) = 1
helps (put_leaving id i) = 1
helps take_entering = 1
helps take_locked = 1
helps a = 0

abbrev pub sleeps : Pc → ℕ
sleeps take_sleeping = 1
sleeps a = 0

pub helps-wants : (m : ℕ) (a : Pc) → helps a ≤ locks a + wants m a
helps-wants m (producing id i) = omega arith
helps-wants m (put_locked id i) = omega arith
helps-wants m (put_pushed id i) = omega arith
helps-wants m (put_leaving id i) = omega arith
helps-wants m consuming = omega arith
helps-wants m take_entering = omega arith
helps-wants m take_locked = omega arith
helps-wants m take_sleeping = omega arith
helps-wants m (take_popped x) = omega arith
helps-wants m (took x) = omega arith
helps-wants m ended = omega arith

-- Outside `take`: at the head of the loop of `consumer`.
abbrev pub outside : Pc → ℕ
outside consuming = 1
outside a = 0

at-outside : (a : Pc) → 0 < outside a → a ≡ consuming
at-outside (producing id i) z = absurd (omega arith)
at-outside (put_locked id i) z = absurd (omega arith)
at-outside (put_pushed id i) z = absurd (omega arith)
at-outside (put_leaving id i) z = absurd (omega arith)
at-outside consuming z = refl
at-outside take_entering z = absurd (omega arith)
at-outside take_locked z = absurd (omega arith)
at-outside take_sleeping z = absurd (omega arith)
at-outside (take_popped x) z = absurd (omega arith)
at-outside (took x) z = absurd (omega arith)
at-outside ended z = absurd (omega arith)

at-sleeps : (a : Pc) → 0 < sleeps a → a ≡ take_sleeping
at-sleeps (producing id i) z = absurd (omega arith)
at-sleeps (put_locked id i) z = absurd (omega arith)
at-sleeps (put_pushed id i) z = absurd (omega arith)
at-sleeps (put_leaving id i) z = absurd (omega arith)
at-sleeps consuming z = absurd (omega arith)
at-sleeps take_entering z = absurd (omega arith)
at-sleeps take_locked z = absurd (omega arith)
at-sleeps take_sleeping z = refl
at-sleeps (take_popped x) z = absurd (omega arith)
at-sleeps (took x) z = absurd (omega arith)
at-sleeps ended z = absurd (omega arith)

active-rest : (m : ℕ) (a : Pc) → active a ≤ (locks a + wants m a) + (outside a + sleeps a)
active-rest m (producing id i) = omega arith
active-rest m (put_locked id i) = omega arith
active-rest m (put_pushed id i) = omega arith
active-rest m (put_leaving id i) = omega arith
active-rest m consuming = omega arith
active-rest m take_entering = omega arith
active-rest m take_locked = omega arith
active-rest m take_sleeping = omega arith
active-rest m (take_popped none) = omega arith
active-rest m (take_popped (some x)) = omega arith
active-rest m (took none) = omega arith
active-rest m (took (some x)) = omega arith
active-rest m ended = omega arith

-- When nobody holds the mutex or wants to go on, those that have taken no NULL are outside or asleep.
pub rest_active :
    (m : ℕ) (pcs : List Pc)
    → total locks pcs ≡ 0
    → total (wants m) pcs ≡ 0
    → total active pcs ≤ total outside pcs + total sleeps pcs
rest_active m pcs l w =
    let busy : Pc → ℕ = λ a. locks a + wants m a in
    let out : Pc → ℕ = λ a. outside a + sleeps a in
    omega (
      arith,
      l,
      w,
      total-le active busy out pcs (active-rest m),
      total-le busy locks (wants m) pcs (λ a. omega arith),
      total-le out outside sleeps pcs (λ a. omega arith),
    )

pub found_outside :
    (pcs : List Pc)
    → 0 < total outside pcs
    → (i : ℕ) × (i < length pcs) × (get_or pcs i ended ≡ consuming)
found_outside pcs z =
    let (i, h, y) = total-found outside ended pcs z in (i, h, at-outside (get_or pcs i ended) y)

pub found_asleep :
    (pcs : List Pc)
    → 0 < total sleeps pcs
    → (i : ℕ) × (i < length pcs) × (get_or pcs i ended ≡ take_sleeping)
found_asleep pcs z =
    let (i, h, y) = total-found sleeps ended pcs z in (i, h, at-sleeps (get_or pcs i ended) y)

-- Some thread can make a step.
abbrev pub Goes : (C : Signal) (item_num : ℕ) → System C → Type 0
Goes C item_num s = (t : System C) × Advance C item_num s t

module _ (C : Signal) (m : ℕ) (s : System C) where
  pub Goes-at :
      (i : ℕ) (a : Pc) {c : Call} {n : C.State} {r : Shared} {b : Pc}
      → i < length s.pcs
      → get_or s.pcs i ended ≡ a
      → Move m s.shared a c r b
      → C.Passes s.signal c n
      → Goes C m s
  Goes-at i a {c} {n} {r} {b} h e mv p =
      (_, pick i h (subst (λ d. Move m s.shared d c r b) (sym e) mv) p)

  module _ (free : C.Passes s.signal no_call s.signal) where
    -- The thread that holds the mutex goes on.
    holder :
        (sleeping : (j : ℕ)
          → j < length s.pcs
          → get_or s.pcs j ended ≡ take_locked
          → s.shared.queue ≡ []
          → (n : C.State) × C.Passes s.signal sleep n)
        (i : ℕ) (a : Pc)
        → i < length s.pcs
        → get_or s.pcs i ended ≡ a
        → 0 < locks a
        → Goes C m s
    holder sl i (producing id j) h e z = absurd (omega arith)
    holder sl i (put_locked id j) h e z = Goes-at i (put_locked id j) h e put_push free
    holder sl i (put_pushed id j) h e z = Goes-at i (put_pushed id j) h e put_unlock free
    holder sl i (put_leaving id j) h e z = absurd (omega arith)
    holder sl i consuming h e z = absurd (omega arith)
    holder sl i take_entering h e z = absurd (omega arith)
    holder sl i take_locked h e z = look s.shared.queue refl
      where
        look : (l : List Item) → s.shared.queue ≡ l → Goes C m s
        look [] g = let (n, p) = sl i h e g in Goes-at i take_locked h e (take_sleep g) p
        look (x ∷ rest) g = Goes-at i take_locked h e (take_pop g) free
    holder sl i take_sleeping h e z = absurd (omega arith)
    holder sl i (take_popped x) h e z = Goes-at i (take_popped x) h e take_unlock free
    holder sl i (took x) h e z = absurd (omega arith)
    holder sl i ended h e z = absurd (omega arith)

    -- With the mutex free, a thread that wants to goes on.
    wanter :
        (telling : (n : C.State) × C.Passes s.signal tell n) (i : ℕ) (a : Pc)
        → i < length s.pcs
        → get_or s.pcs i ended ≡ a
        → 0 < s.shared.mutex
        → 0 < wants m a
        → Goes C m s
    wanter te i (producing id j) h e f z =
        let round : j ≤ m = ground (arith, z) in
        Goes-at i (producing id j) h e (put_lock round f) free
    wanter te i (put_locked id j) h e f z = absurd (omega arith)
    wanter te i (put_pushed id j) h e f z = absurd (omega arith)
    wanter te i (put_leaving id j) h e f z = Goes-at i (put_leaving id j) h e put_tell te.1
    wanter te i consuming h e f z = absurd (omega arith)
    wanter te i take_entering h e f z = Goes-at i take_entering h e (take_lock f) free
    wanter te i take_locked h e f z = absurd (omega arith)
    wanter te i take_sleeping h e f z = absurd (omega arith)
    wanter te i (take_popped x) h e f z = absurd (omega arith)
    wanter te i (took none) h e f z = Goes-at i (took none) h e take_end free
    wanter te i (took (some x)) h e f z = Goes-at i (took (some x)) h e take_again free
    wanter te i ended h e f z = absurd (omega arith)

    -- Some thread goes on or all are done, if that is so when no thread holds the mutex or wants to go
    -- on.
    pub Goes-or_IsDone :
        {n : ℕ}
        → Follows m n s.shared s.pcs
        → ((j : ℕ)
            → j < length s.pcs
            → get_or s.pcs j ended ≡ take_locked
            → s.shared.queue ≡ []
            → (k : C.State) × C.Passes s.signal sleep k)
        → (k : C.State) × C.Passes s.signal tell k
        → (total locks s.pcs ≡ 0
            → total (wants m) s.pcs ≡ 0
            → Goes C m s ⊎ (total active s.pcs ≡ 0))
        → Goes C m s ⊎ IsDone m n s.shared s.pcs
    Goes-or_IsDone v sl te rest = elim (dec_lt 0 (total locks s.pcs)) [
      | yes l ↦
          let (i, h, z) = total-found locks ended s.pcs l in
          inl (holder sl i (get_or s.pcs i ended) h refl z)
      | no nl ↦ elim (dec_lt 0 (total (wants m) s.pcs)) [
        | yes w ↦
            let (i, h, z) = total-found (wants m) ended s.pcs w in
            inl (wanter te i (get_or s.pcs i ended) h refl (omega (arith, nl, v.sound.one_lock)) z)
        | no nw ↦
            let no_lock : total locks s.pcs ≡ 0 = omega (arith, nl) in
            let no_wish : total (wants m) s.pcs ≡ 0 = omega (arith, nw) in
            elim (rest no_lock no_wish) [
              | inl g ↦ inl g
              | inr z ↦ inr (rest-IsDone v no_lock no_wish z)
            ]
      ]
    ]
