-- ===== src/HashMap/Memory.antt =====
-- Emptying the hash maps: `pe_map_flush` of proc_entry_hashmap1.c, the callbacks of call_rcu, and creation.
use linux_programming.Prelude.{
  ℕ, zero, suc, ◌+◌, ◌-◌, ◌^◌, ◌<◌, ◌≡◌, refl, ap, sym, true, none, some, List, [], ◌∷◌, arith,
  length, get_or, replicate, length-replicate,
}
use linux_programming.HashMap.Chain.{find, count}
use linux_programming.HashMap.{Slab, Bucket, empty_bucket, Map, Store, Block, create, index, get}
use linux_programming.HashMap.Locked
use linux_programming.HashMap.Rcu
use linux_programming.HashMap.Table.{IsValid, total}
use linux_programming.HashMap.Refine.{IsSound}

-- No bucket has an entry.
abbrev pub AllEmpty : List Bucket → Type 0
AllEmpty bs = (i : ℕ) → get_or bs i empty_bucket ≡ empty_bucket

empty-IsValid : (m : Map) → length m.buckets ≡ m.buckets_mask + 1 → AllEmpty m.buckets → IsValid m
unfolding count
empty-IsValid m w e = record {
  width = w;
  once = λ q i. rw (e i) (omega arith);
  home = λ q i far. rw (e i) refl;
  counted = λ i. rw (e i) refl;
}

empty-get : (m : Map) → AllEmpty m.buckets → (q : ℕ) → get m q ≡ none
unfolding get find
empty-get m e q = rw (e (index m q)) refl

empty-total : (bs : List Bucket) → AllEmpty bs → total bs ≡ 0
unfolding total
empty-total [] e = refl
empty-total (b ∷ bs) e =
    let z : length b.chain ≡ 0 = ap (λ c. length c.chain) (e 0) in
    omega (arith, z, empty-total bs (λ i. e (suc i)))

empty-replicate : (n : ℕ) → AllEmpty (replicate n empty_bucket)
empty-replicate zero i = refl
empty-replicate (suc n) zero = refl
empty-replicate (suc n) (suc i) = empty-replicate n i

positive : (bits : ℕ) → 0 < 2 ^ bits
positive zero = omega arith
positive (suc bits) = omega (arith, positive bits)

module _ (S : Slab) where
  open S use {World, free, in_use, free_one}

  -- A flushed map: empty, with nothing in use and no callback left.
  pub record Flushed (s t : Store World) : Type 0 where
    pub empty : (q : ℕ) → get t.map q ≡ none
    pub valid : IsValid t.map
    pub freed : in_use t.memory ≡ 0
    pub settled : t.pending ≡ 0

  -- A callback that is pending can run at any time: the map reads the same, and stays sound.
  pub callback-IsSound :
      (s : Store World) → IsSound S s → 0 < s.pending → IsSound S (Rcu.pe_entry_free_rcu S s)
  unfolding Rcu.pe_entry_free_rcu
  callback-IsSound s v h = record {
    valid = v.valid;
    accounted = omega (arith, v.accounted, free_one s.memory);
  }

  -- A map that `pe_map_create` has built, before the first call.
  pub fresh-IsSound :
      (bits : ℕ) (w : World) (m : Map) (blocks : List Block)
      → create true true true bits ≡ (some m, blocks)
      → in_use w ≡ 0
      → IsSound S (record { map = m; memory = w; pending = 0 }) × ((q : ℕ) → get m q ≡ none)
  unfolding create
  fresh-IsSound bits w m blocks e z =
      let bs = replicate (2 ^ bits) empty_bucket in
      let made : Map = record { buckets = bs; buckets_mask = 2 ^ bits - 1 } in
      let same : made ≡ m = cc e in
      let empty = empty-replicate (2 ^ bits) in
      let size = length-replicate (2 ^ bits) empty_bucket in
      rw (sym same) (
        record {
          valid = empty-IsValid made (omega (arith, size, positive bits)) empty;
          accounted = omega (arith, z, empty-total bs empty);
        },
        empty-get made empty,
      )
