-- ===== src/FixedQueue/Ids.antt =====
-- The numbers that bounded_blocking_queue_semaphore_mmap_unnamed0/main.cpp gives to its nodes.
use linux_programming.Prelude.{
  ℕ, suc, ◌+◌, ◌%◌, ◌<◌, ◌≤◌, ◌≡◌, refl, sym, ap, ap₂, ◌∙◌, List, [], ◌∷◌, ◌++◌, length, length-set,
  length-replicate, get_or, set, arith, get_or-set_self, get_or-set_ne, ℕ_discrete,
}
use native.Mathlib.Nat.{mod-lt}
use linux_programming.Threads.{one-le-total, upto}
use linux_programming.BoundedQueue.Slots.{mod_ne}
use linux_programming.FixedQueue.{
  Node, blank, Shared, Pc, put_ended, Move, put_wait, put_lock, put_store, put_unlock, put_post,
  take_wait, take_lock, take_load, take_unlock, take_post, System, store, load, start,
}
use linux_programming.FixedQueue.Counts.{holds_empty, holds_full, IsSound}

-- The `id` of each node.
abbrev pub ids : List Node → List ℕ
ids [] = []
ids (x ∷ xs) = x.id ∷ ids xs

ids-append : (xs ys : List Node) → ids (xs ++ ys) ≡ ids xs ++ ids ys
ids-append [] ys = refl
ids-append (x ∷ xs) ys = ap (λ l. x.id ∷ l) (ids-append xs ys)

-- The nodes between `f` and `p` have their numbers for ids, and those before `f` were read in order.
pub record IsNumbered (queue_len : ℕ) (s : Shared) : Type 0 where
  pub size : length s.queue ≡ queue_len
  pub waiting : (j : ℕ) → s.f ≤ j → j < s.p → (get_or s.queue (j % queue_len) blank).id ≡ j
  pub read : ids s.taken ≡ upto s.f

module _ {u : ℕ} where
  store-IsNumbered :
      (author value : ℕ) (s : Shared)
      → s.f ≤ s.p
      → s.p < s.f + u
      → IsNumbered u s
      → IsNumbered u (store u author value s)
  unfolding store
  store-IsNumbered author value s le room v =
      let tmp : Node = record { id = s.p; author = author; value = value } in
      let at = s.p % u in
      let inside : at < length s.queue = omega (arith, v.size, mod-lt s.p {m = u} (omega arith)) in
      record {
        size = length-set s.queue at tmp ∙ v.size;
        waiting = λ j h l. elim (ℕ_discrete j s.p) [
          | yes e ↦
              let same : (get_or (set s.queue at tmp) at blank).id ≡ s.p =
                ap (λ x. x.id) (get_or-set_self s.queue at tmp blank inside) in
              rw e same
          | no ne ↦
              let apart = mod_ne u j s.p (omega (arith, l, ne)) (omega (arith, h, room)) in
              let kept = get_or-set_ne s.queue at (j % u) tmp blank (λ z. apart (sym z)) in
              ap (λ x. x.id) kept ∙ v.waiting j h (omega (arith, l, ne))
        ];
        read = v.read;
      }

  load-IsNumbered : (s : Shared) → s.f < s.p → IsNumbered u s → IsNumbered u (load u s)
  unfolding load upto
  load-IsNumbered s some_node v = record {
    size = v.size;
    waiting = λ j h l. v.waiting j (omega (arith, h)) l;
    read =
        let next_one : s.f + 1 ≡ suc s.f = omega arith in
        let node = get_or s.queue (s.f % u) blank in
        let id : node.id ≡ s.f = v.waiting s.f (omega arith) some_node in
        rw next_one (ids-append s.taken (node ∷ []) ∙ ap₂ (λ l i. l ++ (i ∷ [])) v.read id);
  }

  pub Move-IsNumbered :
      {t n : ℕ} {s : System} {q : Shared} {a b : Pc} (i : ℕ)
      → Move u t s.shared a q b
      → i < length s.pcs
      → get_or s.pcs i put_ended ≡ a
      → IsSound u t n s
      → IsNumbered u s.shared
      → IsNumbered u q
  Move-IsNumbered {s = s} i (put_store author value) h e v w =
      let mine = one-le-total holds_empty put_ended s.pcs i refl h in
      store-IsNumbered author value s.shared (omega (arith, v.nodes))
        (omega (arith, v.slots, mine, ap holds_empty e)) w
  Move-IsNumbered {s = s} i take_load h e v w =
      let mine = one-le-total holds_full put_ended s.pcs i refl h in
      load-IsNumbered s.shared (omega (arith, v.nodes, mine, ap holds_full e)) w
  Move-IsNumbered i (put_wait z) h e v w = record {
    size = w.size;
    waiting = w.waiting;
    read = w.read;
  }
  Move-IsNumbered i (put_lock z) h e v w = record {
    size = w.size;
    waiting = w.waiting;
    read = w.read;
  }
  Move-IsNumbered i put_unlock h e v w = record {
    size = w.size;
    waiting = w.waiting;
    read = w.read;
  }
  Move-IsNumbered i put_post h e v w = record { size = w.size; waiting = w.waiting; read = w.read }
  Move-IsNumbered i (take_wait z) h e v w = record {
    size = w.size;
    waiting = w.waiting;
    read = w.read;
  }
  Move-IsNumbered i (take_lock z) h e v w = record {
    size = w.size;
    waiting = w.waiting;
    read = w.read;
  }
  Move-IsNumbered i take_unlock h e v w = record {
    size = w.size;
    waiting = w.waiting;
    read = w.read;
  }
  Move-IsNumbered i take_post h e v w = record { size = w.size; waiting = w.waiting; read = w.read }

  pub start-IsNumbered : (t n : ℕ) → IsNumbered u (start u t n).shared
  unfolding start upto
  start-IsNumbered t n = record {
    size = length-replicate u blank;
    waiting = λ j h l. absurd (omega arith);
    read = refl;
  }
