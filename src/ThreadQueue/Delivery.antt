-- ===== src/ThreadQueue/Delivery.antt =====
-- What each producer of pthread/blocking_queue/main.cpp has pushed, and the state in which `main` ends.
use linux_programming.Prelude.{
  ℕ, suc, ◌+◌, ◌≤◌, ◌<◌, ◌≡◌, ◌≢◌, refl, sym, ap, ◌∙◌, none, some, List, [], ◌∷◌, ◌++◌, arith, true,
  false, length, get_or, set, get_or-set_self, get_or-set_ne, ℕ_discrete, dec_lt, ◌==◌,
  if◌then◌else◌, append-nil, min,
}
use linux_programming.Threads.{upto}
use linux_programming.ThreadQueue.{
  Item, Shared, item_of, push, pop, Pc, producing, put_locked, put_pushed, put_leaving, consuming,
  take_entering, take_locked, take_sleeping, take_popped, took, ended, Call, Move, put_lock,
  put_push, put_unlock, put_tell, take_enter, take_lock, take_sleep, take_wake, take_pop,
  take_unlock, take_again, take_end,
}
use linux_programming.ThreadQueue.Counts.{Fits}

-- The rounds of the items of producer `k`, in order.
unfoldable pub of_id : ℕ → List Item → List ℕ
of_id k [] = []
of_id k (none ∷ l) = of_id k l
of_id k (some (id, i) ∷ l) = let rest = of_id k l in if id == k then i ∷ rest else rest

of_id-append : (k : ℕ) (l r : List Item) → of_id k (l ++ r) ≡ of_id k l ++ of_id k r
unfolding of_id
of_id-append k [] r = refl
of_id-append k (none ∷ l) r = of_id-append k l r
of_id-append k (some (id, i) ∷ l) r =
    ap (λ x. if id == k then i ∷ x else x) (of_id-append k l r) ∙ same (id == k)
  where
    same :
        (b : _)
        → (if b then i ∷ of_id k l ++ of_id k r else of_id k l ++ of_id k r)
          ≡ (if b then i ∷ of_id k l else of_id k l) ++ of_id k r
    same true = refl
    same false = refl

-- Producer `k` stands at `a`, and has pushed its items as far as it got.
abbrev pub Owns : (item_num k : ℕ) → Pc → List Item → Type 0
Owns m k (producing id i) l = (id ≡ k) × (of_id k l ≡ upto (min i m))
Owns m k (put_locked id i) l = (id ≡ k) × (of_id k l ≡ upto (min i m))
Owns m k (put_pushed id i) l = (id ≡ k) × (of_id k l ≡ upto (min (i + 1) m))
Owns m k (put_leaving id i) l = (id ≡ k) × (of_id k l ≡ upto (min (i + 1) m))
Owns m k a l = ⊥

abbrev pub Takes : Pc → Type 0
Takes (producing id i) = ⊥
Takes (put_locked id i) = ⊥
Takes (put_pushed id i) = ⊥
Takes (put_leaving id i) = ⊥
Takes a = Unit

push-of_id :
    (m k i : ℕ) (l : List Item)
    → i ≤ m
    → of_id k l ≡ upto (min i m)
    → of_id k (l ++ (item_of m k i ∷ [])) ≡ upto (min (i + 1) m)
unfolding of_id upto
push-of_id m k i l h e = elim (ℕ_discrete i m) [
  | yes last ↦
      let at : (i == m) ≡ true = ground (arith, last) in
      let same : min (i + 1) m ≡ min i m = omega (arith, last) in
      rw (at, same) (of_id-append k l (none ∷ []) ∙ append-nil (of_id k l) ∙ e)
  | no more ↦
      let at : (i == m) ≡ false = ground (arith, more) in
      let own : (k == k) ≡ true = ground arith in
      let less : min i m ≡ i = omega (arith, h) in
      let next_round : min (i + 1) m ≡ suc i = omega (arith, h, more) in
      rw (at, next_round)
        (of_id-append k l (some (k, i) ∷ [])
          ∙ ap (λ b. of_id k l ++ (if b then i ∷ [] else [])) own
          ∙ ap (λ r. r ++ (i ∷ [])) (e ∙ ap upto less))
]

push-other :
    (m id k i : ℕ) (l : List Item) → id ≢ k → of_id k (l ++ (item_of m id i ∷ [])) ≡ of_id k l
unfolding of_id
push-other m id k i l ne = of_id-append k l (item_of m id i ∷ []) ∙ nothing_new
  where
    other : (id == k) ≡ false
    other = ground (arith, ne)

    none_of : (x : Item) → x ≡ item_of m id i → of_id k (x ∷ []) ≡ []
    none_of none e = refl
    none_of (some (j, o)) e = ground (arith, e, other)

    nothing_new : of_id k l ++ of_id k (item_of m id i ∷ []) ≡ of_id k l
    nothing_new = ap (λ r. of_id k l ++ r) (none_of (item_of m id i) refl) ∙ append-nil (of_id k l)

Move-Owns :
    {m : ℕ} {q r : Shared} {a b : Pc} {c : Call} (k : ℕ)
    → Move m q a c r b
    → Fits m a
    → Owns m k a q.pushed
    → Owns m k b r.pushed
unfolding push pop
Move-Owns k (put_lock h z) f o = o
Move-Owns {m} {q} k (put_push {id} {i}) f (own, e) = (own, rw own (push-of_id m k i q.pushed f e))
Move-Owns k put_unlock f o = o
Move-Owns k put_tell f o = o
Move-Owns k take_enter f o = absurd o
Move-Owns k (take_lock z) f o = absurd o
Move-Owns k (take_sleep e) f o = absurd o
Move-Owns k take_wake f o = absurd o
Move-Owns k (take_pop e) f o = absurd o
Move-Owns k take_unlock f o = absurd o
Move-Owns k take_again f o = absurd o
Move-Owns k take_end f o = absurd o

Move-Takes :
    {m : ℕ} {q r : Shared} {a b : Pc} {c : Call}
    → Move m q a c r b
    → Takes a
    → Takes b × (r.pushed ≡ q.pushed)
unfolding push pop
Move-Takes (put_lock h z) t = absurd t
Move-Takes put_push t = absurd t
Move-Takes put_unlock t = absurd t
Move-Takes put_tell t = absurd t
Move-Takes take_enter t = (tt, refl)
Move-Takes (take_lock z) t = (tt, refl)
Move-Takes (take_sleep e) t = (tt, refl)
Move-Takes take_wake t = (tt, refl)
Move-Takes (take_pop e) t = (tt, refl)
Move-Takes take_unlock t = (tt, refl)
Move-Takes take_again t = (tt, refl)
Move-Takes take_end t = (tt, refl)

-- A move of producer `j` pushes nothing of producer `k`.
Move-other :
    {m : ℕ} {q r : Shared} {a b : Pc} {c : Call} (j k : ℕ)
    → Move m q a c r b
    → Owns m j a q.pushed
    → j ≢ k
    → of_id k r.pushed ≡ of_id k q.pushed
unfolding push pop
Move-other j k (put_lock h z) o ne = refl
Move-other {m} {q} j k (put_push {id} {i}) (own, e) ne =
    push-other m id k i q.pushed (λ z. ne (sym own ∙ z))
Move-other j k put_unlock o ne = refl
Move-other j k put_tell o ne = refl
Move-other j k take_enter o ne = absurd o
Move-other j k (take_lock z) o ne = absurd o
Move-other j k (take_sleep e) o ne = absurd o
Move-other j k take_wake o ne = absurd o
Move-other j k (take_pop e) o ne = absurd o
Move-other j k take_unlock o ne = absurd o
Move-other j k take_again o ne = absurd o
Move-other j k take_end o ne = absurd o

-- What a producer owns depends on its own items only.
Owns-same :
    (m k : ℕ) (a : Pc) (l r : List Item) → of_id k r ≡ of_id k l → Owns m k a l → Owns m k a r
Owns-same m k (producing id i) l r e (own, o) = (own, e ∙ o)
Owns-same m k (put_locked id i) l r e (own, o) = (own, e ∙ o)
Owns-same m k (put_pushed id i) l r e (own, o) = (own, e ∙ o)
Owns-same m k (put_leaving id i) l r e (own, o) = (own, e ∙ o)
Owns-same m k consuming l r e o = o
Owns-same m k take_entering l r e o = o
Owns-same m k take_locked l r e o = o
Owns-same m k take_sleeping l r e o = o
Owns-same m k (take_popped x) l r e o = o
Owns-same m k (took x) l r e o = o
Owns-same m k ended l r e o = o

-- The first `n` threads are the producers, in the order of their ids; the others are consumers.
pub record IsPlaced (item_num n : ℕ) (q : Shared) (pcs : List Pc) : Type 0 where
  pub owns : (k : ℕ) → k < n → Owns item_num k (get_or pcs k ended) q.pushed
  pub takes : (k : ℕ) → n ≤ k → Takes (get_or pcs k ended)

module _ (m n : ℕ) where
  placed-Owns :
      (q r : Shared) (pcs : List Pc) (i k : ℕ) (b : Pc)
      → i < length pcs
      → (k ≡ i → Owns m k b r.pushed)
      → (i ≢ k → of_id k r.pushed ≡ of_id k q.pushed)
      → Owns m k (get_or pcs k ended) q.pushed
      → Owns m k (get_or (set pcs i b) k ended) r.pushed
  placed-Owns q r pcs i k b h f g o = elim (ℕ_discrete i k) [
    | yes e ↦ rw (sym e) (rw (get_or-set_self pcs i b ended h) (rw (sym e) at (f (sym e))))
    | no ne ↦
        rw (get_or-set_ne pcs i k b ended ne)
          (Owns-same m k (get_or pcs k ended) q.pushed r.pushed (g ne) o)
  ]

  placed-Takes :
      (pcs : List Pc) (i k : ℕ) (b : Pc)
      → i < length pcs
      → (i ≡ k → Takes b)
      → Takes (get_or pcs k ended)
      → Takes (get_or (set pcs i b) k ended)
  placed-Takes pcs i k b h f t = elim (ℕ_discrete i k) [
    | yes e ↦ rw (sym e) (rw (get_or-set_self pcs i b ended h) (f e))
    | no ne ↦ rw (get_or-set_ne pcs i k b ended ne) t
  ]

  pub Move-IsPlaced :
      {q r : Shared} {b : Pc} {c : Call} (pcs : List Pc) (i : ℕ)
      → i < length pcs
      → Move m q (get_or pcs i ended) c r b
      → Fits m (get_or pcs i ended)
      → IsPlaced m n q pcs
      → IsPlaced m n r (set pcs i b)
  Move-IsPlaced {q} {r} {b} pcs i h mv f v = elim (dec_lt i n) [
    | yes l ↦ record {
      owns = λ k lk.
          placed-Owns q r pcs i k b h (λ e. rw e (Move-Owns i mv f (v.owns i l)))
            (Move-other i k mv (v.owns i l)) (v.owns k lk);
      takes =
          λ k lk. placed-Takes pcs i k b h (λ e. absurd (omega (arith, e, l, lk))) (v.takes k lk);
    }
    | no g ↦
        let (t, same) = Move-Takes mv (v.takes i (omega (arith, g))) in
        record {
          owns = λ k lk.
              placed-Owns q r pcs i k b h (λ e. absurd (omega (arith, e, g, lk)))
                (λ ne. ap (of_id k) same) (v.owns k lk);
          takes = λ k lk. placed-Takes pcs i k b h (λ e. t) (v.takes k lk);
        }
  ]
