-- ===== src/Latency/Report.antt =====
-- `push` and `report`: every sample is counted once, in the order of the pushes.
use linux_programming.Prelude.{
  ℕ, zero, suc, ◌+◌, ◌-◌, ◌/◌, ◌%◌, ◌≤◌, ◌<◌, ◌≡◌, ◌≢◌, refl, sym, ap, ◌∙◌, false, some, List, [],
  ◌∷◌, ◌++◌, append-nil, inl, inr, arith, length, length-append, append_assoc, ltb, ◌==◌,
  if◌then◌else◌, update, Bool-cases,
}
use mathlib.Core.Path.{subst}
use linux_programming.Latency.{
  Tracer, Total, size, push, take_one, take_many, batch, report_loop, count_in, report,
}

-- `n` samples from position `f` on.
unfoldable pub samples : (ℕ → ℕ) → (f n : ℕ) → List ℕ
samples d f zero = []
samples d f (suc n) = d (f % size) ∷ samples d (f + 1) n

-- The samples that are pushed and not reported.
abbrev pub waiting : Tracer → List ℕ
waiting t = samples t.data_at t.f (t.p - t.f)

unfoldable pub push_all : List ℕ → Tracer → Tracer
push_all [] t = t
push_all (x ∷ xs) t = push_all xs (push x t)

unfoldable pub occurrences : ℕ → List ℕ → ℕ
occurrences x [] = 0
occurrences x (y ∷ ys) = (if y == x then 1 else 0) + occurrences x ys

length-samples : (d : ℕ → ℕ) (f n : ℕ) → length (samples d f n) ≡ n
unfolding samples
length-samples d f zero = refl
length-samples d f (suc n) = ap suc (length-samples d (f + 1) n)

samples-add : (d : ℕ → ℕ) (m f n : ℕ) → samples d f (m + n) ≡ samples d f m ++ samples d (f + m) n
unfolding samples
samples-add d zero f n =
    let e : 0 + n ≡ n = omega arith in let e' : f + 0 ≡ f = omega arith in rw (e, e') refl
samples-add d (suc m) f n =
    let e : suc m + n ≡ suc (m + n) = omega arith in
    let e' : f + suc m ≡ f + 1 + m = omega arith in
    rw (e, e') (ap (λ l. d (f % size) ∷ l) (samples-add d m (f + 1) n))

occurrences-append :
    (x : ℕ) (xs ys : List ℕ) → occurrences x (xs ++ ys) ≡ occurrences x xs + occurrences x ys
unfolding occurrences
occurrences-append x [] ys = omega arith
occurrences-append x (y ∷ xs) ys = omega (arith, occurrences-append x xs ys)

-- A write at a position that the samples do not reach is not seen by them.
samples-update :
    (d : ℕ → ℕ) (q x f n : ℕ)
    → f + n ≤ q
    → q < f + size
    → samples (update d (q % size) x) f n ≡ samples d f n
unfolding samples
samples-update d q x f zero h r = refl
samples-update d q x f (suc n) h r =
    let apart : q % size ≢ f % size = λ e. omega arith in
    let other : (q % size == f % size) ≡ false = ground arith in
    rw other
      (ap (λ l. d (f % size) ∷ l) (samples-update d q x (f + 1) n (omega arith) (omega arith)))

push-waiting :
    (x : ℕ) (t : Tracer) → t.f ≤ t.p → t.p < t.f + size → waiting (push x t) ≡ waiting t ++ (x ∷ [])
unfolding push samples
push-waiting x t h r =
    let d = update t.data_at (t.p % size) x in
    let e : t.p + 1 - t.f ≡ t.p - t.f + 1 = omega arith in
    let at : t.f + (t.p - t.f) ≡ t.p = omega arith in
    let own : d (t.p % size) ≡ x = ground arith in
    ap (samples d t.f) e
    ∙ samples-add d (t.p - t.f) t.f 1
    ∙ ap (λ l. l ++ samples d (t.f + (t.p - t.f)) 1)
        (samples-update t.data_at t.p x t.f (t.p - t.f) (omega arith) r)
    ∙ ap (λ k. waiting t ++ (d (k % size) ∷ [])) at
    ∙ ap (λ v. waiting t ++ (v ∷ [])) own

-- Pushes in a row append, as long as there is room.
push_all-waiting :
    (xs : List ℕ) (t : Tracer)
    → t.f ≤ t.p
    → t.p - t.f + length xs ≤ size
    → (waiting (push_all xs t) ≡ waiting t ++ xs)
      × ((push_all xs t).f ≡ t.f)
      × ((push_all xs t).p ≡ t.p + length xs)
unfolding push_all push
push_all-waiting [] t h r = (sym (append-nil (waiting t)), refl, omega arith)
push_all-waiting (x ∷ xs) t h r =
    let (e, ef, ep) = push_all-waiting xs (push x t) (omega arith) (omega arith) in
    (
      e
          ∙ ap (λ l. l ++ xs) (push-waiting x t h (omega arith))
          ∙ append_assoc (waiting t) (x ∷ []) xs,
      ef,
      omega (arith, ep),
    )

-- What the samples `taken` have changed.
record Took (taken : List ℕ) (a b : ℕ × Tracer × Total) : Type 0 where
  same_data : b.1.data_at ≡ a.1.data_at
  same_p : b.1.p ≡ a.1.p
  further : b.1.f ≡ a.1.f + length taken
  num : b.0 ≡ a.0 + length taken
  same_num : b.2.num ≡ a.2.num
  tails : (x : ℕ) → b.2.tails x ≡ a.2.tails x + occurrences x taken

take_many-Took :
    (k n : ℕ) (t : Tracer) (total : Total)
    → Took (samples t.data_at t.f k) (n, t, total) (take_many k (n, t, total))
unfolding take_many take_one samples occurrences
take_many-Took zero n t total = record {
  same_data = refl;
  same_p = refl;
  further = omega arith;
  num = omega arith;
  same_num = refl;
  tails = λ x. omega arith;
}
take_many-Took (suc k) n t total =
    let x = t.data_at (t.f % size) in
    let u : Tracer = record t { f = t.f + 1 } in
    let total' : Total = record total { tails = update total.tails x (total.tails x + 1) } in
    let e = take_many-Took k (n + 1) u total' in
    record {
      same_data = e.same_data;
      same_p = e.same_p;
      further = omega (arith, e.further);
      num = omega (arith, e.num);
      same_num = e.same_num;
      tails =
          λ y. e.tails y ∙ one_more y x total.tails (occurrences y (samples t.data_at (t.f + 1) k));
    }
  where
    one_more :
        (y x : ℕ) (tails : ℕ → ℕ) (rest : ℕ)
        → update tails x (tails x + 1) y + rest ≡ tails y + ((if x == y then 1 else 0) + rest)
    one_more y x tails rest = elim (Bool-cases (x == y)) [
      | inl same ↦ let e : x ≡ y = ground arith in rw (same, e) (omega arith)
      | inr other ↦ rw other (omega arith)
    ]

none_taken :
    (n : ℕ) (t : Tracer) (total : Total)
    → Took (samples t.data_at t.f 0) (n, t, total) (n, t, total)
unfolding take_many
none_taken n t total = take_many-Took 0 n t total

Took-trans :
    (xs ys : List ℕ) (a b c : ℕ × Tracer × Total) → Took xs a b → Took ys b c → Took (xs ++ ys) a c
Took-trans xs ys a b c e g = record {
  same_data = g.same_data ∙ e.same_data;
  same_p = g.same_p ∙ e.same_p;
  further = omega (arith, e.further, g.further, length-append xs ys);
  num = omega (arith, e.num, g.num, length-append xs ys);
  same_num = g.same_num ∙ e.same_num;
  tails = λ x. omega (arith, e.tails x, g.tails x, occurrences-append x xs ys);
}

report_loop-Took :
    (fuel n : ℕ) (t : Tracer) (total : Total)
    → t.p / batch - t.f / batch < fuel
    → t.f ≤ t.p
    → t.f % batch ≡ 0
    → (m : ℕ) × (b : ℕ × Tracer × Total) × (report_loop fuel (n, t, total) ≡ some b)
      × Took (samples t.data_at t.f m) (n, t, total) b
      × (t.f + m ≤ t.p)
      × (t.p - (t.f + m) < batch)
      × (m % batch ≡ 0)
unfolding report_loop
report_loop-Took zero n t total h l z = absurd (omega arith)
report_loop-Took (suc fuel) n t total h l z =
    elim (Bool-cases (ltb 0 (t.p / batch - t.f / batch))) [
      | inl more ↦
          let (n', u, total') = take_many batch (n, t, total) in
          let first = take_many-Took batch n t total in
          let len = length-samples t.data_at t.f batch in
          let room : t.f + batch ≤ t.p = ground (arith, more) in
          let far : u.f ≡ t.f + batch = omega (arith, first.further, len) in
          let same : u.p ≡ t.p = first.same_p in
          let seen : (k : ℕ) → samples u.data_at u.f k ≡ samples t.data_at (t.f + batch) k =
            λ k. ap (λ d. samples d u.f k) first.same_data ∙ ap (λ g. samples t.data_at g k) far in
          let (m, b, e, took, inside, near, whole) =
            report_loop-Took fuel n' u total' (omega (arith, far, same, h, room))
              (omega (arith, far, same, room)) (omega (arith, far, z)) in
          (
            batch + m,
            b,
            rw (more, report_loop) e,
            subst (λ l. Took l (n, t, total) b) (sym (samples-add t.data_at batch t.f m))
                (Took-trans _ _ _ _ _ first (subst (λ l. Took l (n', u, total') b) (seen m) took)),
            omega (arith, inside, far, same),
            omega (arith, near, far, same),
            omega (arith, whole),
          )
      | inr all ↦ (
        0,
        (n, t, total),
        rw (all, report_loop) refl,
        none_taken n t total,
        omega arith,
        ground (arith, all),
        omega arith,
      )
    ]

-- What `report` leaves, for the samples `taken`.
pub record Reported (taken : List ℕ) (t : Tracer) (a b : Total) : Type 0 where
  pub few : t.p - t.f < batch
  pub whole : t.f % batch ≡ 0
  pub inside : t.f ≤ t.p
  pub num : b.num ≡ a.num + length taken
  pub tails : (x : ℕ) → b.tails x ≡ a.tails x + occurrences x taken

report-Reported :
    (t : Tracer) (total : Total)
    → t.f ≤ t.p
    → t.f % batch ≡ 0
    → (u : Tracer) × (b : Total) × (taken : List ℕ) × (report t total ≡ some (u, b))
      × (waiting t ≡ taken ++ waiting u)
      × Reported taken u total b
unfolding report count_in
report-Reported t total l z =
    let (m, (n, u, b), e, took, inside, near, whole) =
      report_loop-Took (t.p / batch - t.f / batch + 1) 0 t total (omega arith) l z in
    let len = length-samples t.data_at t.f m in
    let far : u.f ≡ t.f + m = omega (arith, took.further, len) in
    let left : u.p - u.f ≡ t.p - (t.f + m) = omega (arith, far, took.same_p) in
    let all : t.p - t.f ≡ m + (t.p - (t.f + m)) = omega (arith, inside) in
    (
      u,
      record b { num = b.num + n },
      samples t.data_at t.f m,
      ap count_in e,
      ap (samples t.data_at t.f) all
          ∙ samples-add t.data_at m t.f (t.p - (t.f + m))
          ∙ ap (λ r. samples t.data_at t.f m ++ r)
              (sym (
                ap (λ d. samples d u.f (u.p - u.f)) took.same_data
                ∙ ap (λ g. samples t.data_at g (u.p - u.f)) far
                ∙ ap (λ k. samples t.data_at (t.f + m) k) left)),
      record {
        few = omega (arith, near, far, took.same_p);
        whole = omega (arith, whole, far, z);
        inside = omega (arith, inside, far, took.same_p);
        num = omega (arith, took.num, took.same_num);
        tails = took.tails;
      },
    )

-- Samples are pushed, as long as there is room for them, and then `report` is called, on a tracer that
-- has reported whole batches so far. It ends, and what waited and what was pushed is what it has taken
-- followed by what waits, in order; every sample that it took is counted once; and less than a batch
-- waits.
pub every_sample_counted :
    (xs : List ℕ) (t : Tracer) (total : Total)
    → t.f ≤ t.p
    → t.f % batch ≡ 0
    → t.p - t.f + length xs ≤ size
    → (u : Tracer) × (b : Total) × (taken : List ℕ) × (report (push_all xs t) total ≡ some (u, b))
      × (waiting t ++ xs ≡ taken ++ waiting u)
      × Reported taken u total b
every_sample_counted xs t total l z room =
    let (e, ef, ep) = push_all-waiting xs t l room in
    let (u, b, taken, ran, split, r) =
      report-Reported (push_all xs t) total (omega (arith, ef, ep, l)) (omega (arith, ef, z)) in
    (u, b, taken, ran, sym e ∙ split, r)
