-- ===== src/HashMap/Rcu.antt =====
-- The operations of proc_entry_hashmap2.c: an entry that is out of its chain is freed by a callback
-- of call_rcu, when no reader can see it any more.
use linux_programming.Prelude.{ℕ, ◌+◌, ◌-◌, Bool, true, false, Option, none, some}
use linux_programming.HashMap.Chain.{find}
use linux_programming.HashMap.{Slab, Store, bucket_of, add_head, overwrite, unlink}

module _ (S : Slab) where
  open S use {World, alloc, free}

  -- `call_rcu(&old_entry->rcu, pe_entry_free_rcu);`
  abbrev call_rcu : Store World → Store World
  call_rcu s = record s { pending = s.pending + 1 }

  unfoldable pub settle : (key value : ℕ) → Option ℕ → Store World → Store World
  settle key value (some old) s = call_rcu (overwrite key value s)
  settle key value none s = add_head key value s

  unfoldable pub insert_got : (key value : ℕ) → Bool → Store World → Option ℕ × Store World
  insert_got key value false s = (none, s)
  insert_got key value true s = (some 0, settle key value (find key (bucket_of s.map key).chain) s)

  unfoldable pub insert : (key value : ℕ) → Store World → Option ℕ × Store World
  insert key value s =
      let (got, w) = alloc s.memory in insert_got key value got (record s { memory = w })

  unfoldable pub remove_found : ℕ → Option ℕ → Store World → Option ℕ × Store World
  remove_found key none s = (none, s)
  remove_found key (some old) s = (some 0, call_rcu (unlink key s))

  unfoldable pub remove : ℕ → Store World → Option ℕ × Store World
  remove key s = remove_found key (find key (bucket_of s.map key).chain) s

  -- `pe_entry_free_rcu`, which runs once for each `call_rcu`, at any later time.
  unfoldable pub pe_entry_free_rcu : Store World → Store World
  pe_entry_free_rcu s = record s { memory = free s.memory; pending = s.pending - 1 }
