-- ===== src/Tests/HashMapRuns.antt =====
-- The hash maps of the kernel modules, with two buckets.
use linux_programming.Prelude.{ℕ, ◌+◌, ◌-◌, ◌≡◌, refl, true, none, some, List, [], ◌∷◌, replicate}
use linux_programming.HashMap.Chain.{find, assign, erase}
use linux_programming.HashMap.{
  Slab, empty_bucket, Store, create, index, pe_entry_hash, get, put, drop_key, ask, Request,
  perform, serve,
}
use linux_programming.HashMap.Locked
use linux_programming.HashMap.Rcu
use linux_programming.HashMap.Refine.{
  IsSound, Does, displaced, locked-Does, rcu_refines, rcu-Does, same_answers,
}
use linux_programming.HashMap.Worker.{Worker, ReadBack, run, run-ReadBack}
use linux_programming.HashMap.Memory.{fresh-IsSound}

-- A cache that never runs out.
abbrev heap : Slab
heap = record {
  World = ℕ;
  alloc = λ w. (true, w + 1);
  free = λ w. w - 1;
  in_use = λ w. w;
  alloc_some = λ w e. refl;
  alloc_none = λ w e. absurd (cc e);
  free_one = λ w. refl;
}

abbrev fresh : Store ℕ
fresh = record {
  map = record { buckets = replicate 2 empty_bucket; buckets_mask = 1 };
  memory = 0;
  pending = 0;
}

fresh-IsSound_at_two : IsSound heap fresh
unfolding create
fresh-IsSound_at_two = (fresh-IsSound heap 1 0 fresh.map _ refl refl).0

abbrev requests : List Request
requests = put 5 50 ∷ put 3 30 ∷ put 5 51 ∷ drop_key 3 ∷ drop_key 4 ∷ ask 5 ∷ ask 3 ∷ []

-- 5 and 3 stand in one bucket.
answers :
    (serve (Rcu.insert heap) (Rcu.remove heap) requests fresh).0
    ≡ some 0 ∷ some 0 ∷ some 0 ∷ some 0 ∷ none ∷ some 51 ∷ none ∷ []
unfolding get Rcu.insert Rcu.insert_got Rcu.settle Rcu.remove Rcu.remove_found index pe_entry_hash
    find assign erase
answers = refl

locked-Does_example :
    let (a, t) = perform (Locked.insert heap) (Locked.remove heap) (put 5 50) fresh in
    IsSound heap t × Does true (put 5 50) (get fresh.map) a (get t.map)
locked-Does_example = locked-Does heap (put 5 50) fresh fresh-IsSound_at_two

abbrev one : Store ℕ
one = (Rcu.insert heap 5 50 fresh).1

-- The key 5 is there: its entry waits for the callback, and two are in use.
one-IsSound : IsSound heap one
one-IsSound = (rcu_refines heap (put 5 50) fresh fresh-IsSound_at_two).0

rcu-Does_example :
    let (a, t) = perform (Rcu.insert heap) (Rcu.remove heap) (put 5 51) one in
    IsSound heap t
    × Does true (put 5 51) (get one.map) a (get t.map)
    × ((t.memory ≡ one.memory + 1)
        × (t.pending ≡ one.pending + displaced true (put 5 51) (get one.map)))
rcu-Does_example = rcu-Does heap (put 5 51) one one-IsSound

same_answers_example :
    let (as', s') = serve (Locked.insert heap) (Locked.remove heap) requests fresh in
    let (bs', u') = serve (Rcu.insert heap) (Rcu.remove heap) requests fresh in
    (as' ≡ bs') × ((q : ℕ) → get s'.map q ≡ get u'.map q)
same_answers_example =
    same_answers heap (λ w. refl) requests fresh fresh fresh-IsSound_at_two fresh-IsSound_at_two
      (λ q. refl)

abbrev worker : Worker
worker = record { running = true; count = 0; insert_errors = 0; get_errors = 0; remove_errors = 0 }

fresh-empty : (q : ℕ) → get fresh.map q ≡ none
unfolding create
fresh-empty q = (fresh-IsSound heap 1 0 fresh.map _ refl refl).1 q

run-ReadBack_example :
    ReadBack heap
      ((5, 50) ∷ (3, 30) ∷ [])
      worker
      (run heap ((5, 50) ∷ (3, 30) ∷ []) (worker, fresh))
run-ReadBack_example =
    run-ReadBack heap ((5, 50) ∷ (3, 30) ∷ []) worker fresh (λ w. refl) refl fresh-IsSound_at_two
      fresh-empty
