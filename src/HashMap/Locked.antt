-- ===== src/HashMap/Locked.antt =====
-- The operations of proc_entry_hashmap1.c: an entry is freed as soon as it is out of its chain.
use linux_programming.Prelude.{ℕ, ◌+◌, ◌-◌, Bool, true, false, Option, none, some, List, [], ◌∷◌}
use linux_programming.HashMap.Chain.{Entry, find}
use linux_programming.HashMap.{Slab, Bucket, Store, bucket_of, add_head, overwrite, unlink}

module _ (S : Slab) where
  open S use {World, alloc, free}

  -- `pe_map_insert` with a new entry, by what the loop found.
  unfoldable pub settle : (key value : ℕ) → Option ℕ → Store World → Store World
  settle key value (some old) s = overwrite key value (record s { memory = free s.memory })
  settle key value none s = add_head key value s

  unfoldable pub insert_got : (key value : ℕ) → Bool → Store World → Option ℕ × Store World
  insert_got key value false s = (none, s)
  insert_got key value true s = (some 0, settle key value (find key (bucket_of s.map key).chain) s)

  unfoldable pub insert : (key value : ℕ) → Store World → Option ℕ × Store World
  insert key value s =
      let (got, w) = alloc s.memory in insert_got key value got (record s { memory = w })

  unfoldable pub remove_found : ℕ → Option ℕ → Store World → Option ℕ × Store World
  remove_found key none s = (none, s)
  remove_found key (some old) s = (some 0, unlink key (record s { memory = free s.memory }))

  unfoldable pub remove : ℕ → Store World → Option ℕ × Store World
  remove key s = remove_found key (find key (bucket_of s.map key).chain) s

  -- The loop of `pe_map_flush` over one chain, with `bucket->num` and `count`.
  unfoldable pub flush_chain : List Entry → ℕ × ℕ × World → ℕ × ℕ × World
  flush_chain [] r = r
  flush_chain (e ∷ c) (num, total, w) = flush_chain c (num - 1, total + 1, free w)

  unfoldable pub flush_buckets : List Bucket → ℕ × World → List Bucket × ℕ × World
  flush_buckets [] (total, w) = ([], total, w)
  flush_buckets (b ∷ bs) (total, w) =
      let (num, total', w') = flush_chain b.chain (b.num, total, w) in
      let (bs', total'', w'') = flush_buckets bs (total', w') in
      (record { chain = []; num = num } ∷ bs', total'', w'')

  -- `pe_map_flush`, with the count that it prints.
  unfoldable pub flush : Store World → ℕ × Store World
  flush s =
      let (bs, total, w) = flush_buckets s.map.buckets (0, s.memory) in
      (total, record s { map = record (s.map) { buckets = bs }; memory = w })
