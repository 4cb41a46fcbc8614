-- ===== src/HashMap.antt =====
-- module/proc_entry_hashmap1/kmod/proc_entry_hashmap1.c and
-- module/proc_entry_hashmap2/kmod/proc_entry_hashmap2.c: a hash map in the kernel behind a proc file.
-- This file has what the two have in common: the table, the hash, creation and lookup.
-- A `long long` is its 64-bit word. The lock of a bucket is held over each access to it, so that a
-- call is one step; the readers of the second map run between two calls.
pub mod Chain
pub mod Locked
pub mod Rcu
pub mod Device
pub mod Table
pub mod Refine
pub mod Memory
pub mod Worker
use linux_programming.Prelude.{
  ℕ, zero, suc, ◌+◌, ◌-◌, ◌/◌, ◌^◌, ◌≡◌, Bool, true, false, Option, none, some, List, [], ◌∷◌,
  length, get_or, set, replicate, bit_and, bit_xor, if◌then◌else◌,
}
use linux_programming.HashMap.Chain.{Entry, find, assign, erase}

-- The kmem_cache of the entries, which is the kernel's: whether an allocation succeeds, and how many
-- entries are in use.
pub record Slab : Type 1 where
  pub World : Type 0
  pub alloc : World → Bool × World
  pub free : World → World
  pub in_use : World → ℕ
  pub alloc_some : (w : World) → (alloc w).0 ≡ true → in_use (alloc w).1 ≡ in_use w + 1
  pub alloc_none : (w : World) → (alloc w).0 ≡ false → in_use (alloc w).1 ≡ in_use w
  pub free_one : (w : World) → in_use (free w) ≡ in_use w - 1

-- `struct pe_map_bucket`; the chain from `head` on.
pub record Bucket : Type 0 where
  pub chain : List Entry
  pub num : ℕ

abbrev pub empty_bucket : Bucket
empty_bucket = record { chain = []; num = 0 }

-- `struct pe_hashmap`; `buckets_num` is the length of `buckets`.
pub record Map : Type 0 where
  pub buckets : List Bucket
  pub buckets_mask : ℕ

-- A map with the kernel's memory and the number of entries that `call_rcu` is still to free.
pub record Store (W : Type 0) : Type 0 where
  pub map : Map
  pub memory : W
  pub pending : ℕ

-- What `pe_map_create` allocates.
pub data Block : Type 0 where
  map_block buckets_block cache_block : Block

-- `pe_map_create`, by whether each of its three allocations succeeds: the map, and what is left
-- allocated.
unfoldable pub create : (map_ok buckets_ok cache_ok : Bool) → ℕ → Option Map × List Block
create false buckets_ok cache_ok bits = (none, [])
create true false cache_ok bits = (none, [])
create true true false bits = (none, [])
create true true true bits = (
  some (record { buckets = replicate (2 ^ bits) empty_bucket; buckets_mask = 2 ^ bits - 1 }),
  map_block ∷ buckets_block ∷ cache_block ∷ [],
)

unfoldable pub pe_entry_hash : ℕ → ℕ
pe_entry_hash src = bit_xor (bit_xor (bit_xor src (src / 2 ^ 16)) (src / 2 ^ 32)) (src / 2 ^ 48)

unfoldable pub index : Map → ℕ → ℕ
index m key = bit_and (pe_entry_hash key) m.buckets_mask

abbrev pub bucket_of : Map → ℕ → Bucket
bucket_of m key = get_or m.buckets (index m key) empty_bucket

-- `pe_map_get`: the value, or -1.
unfoldable pub get : Map → ℕ → Option ℕ
get m key = find key (bucket_of m key).chain

-- The bucket of `key` becomes `b`.
abbrev pub put_bucket : {W : Type 0} → ℕ → Bucket → Store W → Store W
put_bucket key b s = record s {
  map = record (s.map) { buckets = set s.map.buckets (index s.map key) b };
}

-- `hlist_add_head_rcu(&new_entry->hlist, head); bucket->num++;`
abbrev pub add_head : {W : Type 0} → (key value : ℕ) → Store W → Store W
add_head key value s =
    let b = bucket_of s.map key in
    put_bucket key (record { chain = (key, value) ∷ b.chain; num = b.num + 1 }) s

-- The entry of `key` has a new value.
abbrev pub overwrite : {W : Type 0} → (key value : ℕ) → Store W → Store W
overwrite key value s =
    let b = bucket_of s.map key in put_bucket key (record b { chain = assign key value b.chain }) s

-- `hlist_del_rcu(&entry->hlist); bucket->num--;`
abbrev pub unlink : {W : Type 0} → ℕ → Store W → Store W
unlink key s =
    let b = bucket_of s.map key in
    put_bucket key (record { chain = erase key b.chain; num = b.num - 1 }) s

-- A call of one of the three operations.
pub data Request : Type 0 where
  put : (key value : ℕ) → Request
  drop_key : ℕ → Request
  ask : ℕ → Request

module _ {W : Type 0} (insert : ℕ → ℕ → Store W → Option ℕ × Store W)
    (remove : ℕ → Store W → Option ℕ × Store W) where
  abbrev pub perform : Request → Store W → Option ℕ × Store W
  perform (put key value) s = insert key value s
  perform (drop_key key) s = remove key s
  perform (ask key) s = (get s.map key, s)

  -- The answers to requests in a row.
  abbrev pub serve : List Request → Store W → List (Option ℕ) × Store W
  serve [] s = ([], s)
  serve (r ∷ rs) s = let (a, t) = perform r s in let (as', u) = serve rs t in (a ∷ as', u)
