-- ===== src/HashMap/Table.antt =====
-- The table of the proc_entry_hashmap modules: where entries stand, what it means, and what a write
-- to one bucket does.
use Prim.Native.Nat.{digits, bit_and-bitwise}
use linux_programming.Prelude.{
  ℕ, zero, suc, ◌+◌, ◌-◌, ◌/◌, ◌≤◌, ◌<◌, ◌≡◌, ◌≢◌, refl, ◌∙◌, ap, sym, Option, none, some, List, [],
  ◌∷◌, inl, inr, arith, length, get_or, set, length-set, get_or-set_self, get_or-set_ne, ◌==◌,
  if◌then◌else◌, bit_and, min, ℕ_discrete, Bool-cases,
}
use linux_programming.HashMap.Chain.{
  find, assign, erase, count, count-absent, find-assign, count-assign, length-assign, find-erase,
  count-erase, length-erase,
}
use linux_programming.HashMap.{
  Bucket, empty_bucket, Map, Store, pe_entry_hash, index, bucket_of, get, add_head, overwrite,
  unlink,
}

digits-le : (n a b : ℕ) → digits (λ b. zero) min n a b ≤ b
digits-le zero a b = omega arith
digits-le (suc n) zero b = omega arith
digits-le (suc n) (suc a) b = omega (arith, digits-le n (suc a / 2) (b / 2))

bit_and-le : (a b : ℕ) → bit_and a b ≤ b
bit_and-le a b = rw (bit_and-bitwise a b) (digits-le a a b)

-- A key has at most one entry, and only in its bucket; the counters are the lengths of the chains.
pub record IsValid (m : Map) : Type 0 where
  pub width : length m.buckets ≡ m.buckets_mask + 1
  pub once : (q i : ℕ) → count q (get_or m.buckets i empty_bucket).chain ≤ 1
  pub home : (q i : ℕ) → index m q ≢ i → count q (get_or m.buckets i empty_bucket).chain ≡ 0
  pub counted :
      (i : ℕ)
      → (get_or m.buckets i empty_bucket).num ≡ length (get_or m.buckets i empty_bucket).chain

pub index-lt : (m : Map) (key : ℕ) → IsValid m → index m key < length m.buckets
unfolding index
index-lt m key v = omega (arith, v.width, bit_and-le (pe_entry_hash key) m.buckets_mask)

-- All entries of a table.
unfoldable pub total : List Bucket → ℕ
total [] = 0
total (b ∷ bs) = length b.chain + total bs

pub total-set :
    (bs : List Bucket) (i : ℕ) (b : Bucket)
    → i < length bs
    → total (set bs i b) + length (get_or bs i empty_bucket).chain ≡ total bs + length b.chain
unfolding total
total-set [] i b h = absurd (omega arith)
total-set (c ∷ bs) zero b h = omega arith
total-set (c ∷ bs) (suc i) b h = omega (arith, total-set bs i b (omega arith))

-- The map after `v` was written under `key`, or its entry taken out.
pub record Writes (key : ℕ) (v : Option ℕ) (m n : Map) : Type 0 where
  pub valid : IsValid n
  pub reads : (q : ℕ) → get n q ≡ (if key == q then v else get m q)

-- A new bucket for `key` writes `v` if its chain does.
put_bucket-Writes :
    (key : ℕ) (v : Option ℕ) (b : Bucket) (m : Map)
    → IsValid m
    → b.num ≡ length b.chain
    → ((q : ℕ) → count q b.chain ≤ 1)
    → ((q : ℕ) → index m q ≢ index m key → count q b.chain ≡ 0)
    → ((q : ℕ) → find q b.chain ≡ (if key == q then v else find q (bucket_of m key).chain))
    → Writes key v m (record m { buckets = set m.buckets (index m key) b })
unfolding get index
put_bucket-Writes key v b m w n once home reads =
    let i = index m key in
    let lt = index-lt m key w in
    record {
      valid = record {
        width = length-set m.buckets i b ∙ w.width;
        once = λ q j. elim (ℕ_discrete i j) [
          | yes e ↦ rw (sym e, get_or-set_self m.buckets i b empty_bucket lt) (once q)
          | no ne ↦ rw (get_or-set_ne m.buckets i j b empty_bucket ne) (w.once q j)
        ];
        home = λ q j far. elim (ℕ_discrete i j) [
          | yes e ↦
              rw (sym e, get_or-set_self m.buckets i b empty_bucket lt) (home q (λ z. far (z ∙ e)))
          | no ne ↦ rw (get_or-set_ne m.buckets i j b empty_bucket ne) (w.home q j far)
        ];
        counted = λ j. elim (ℕ_discrete i j) [
          | yes e ↦ rw (sym e, get_or-set_self m.buckets i b empty_bucket lt) n
          | no ne ↦ rw (get_or-set_ne m.buckets i j b empty_bucket ne) (w.counted j)
        ];
      };
      reads = λ q. elim (ℕ_discrete i (index m q)) [
        | yes e ↦ rw (sym e, get_or-set_self m.buckets i b empty_bucket lt) (reads q)
        | no ne ↦
            rw (get_or-set_ne m.buckets i (index m q) b empty_bucket ne)
              (elim (Bool-cases (key == q)) [
                | inl same ↦ absurd (ne (ap (index m) (ground arith)))
                | inr other ↦ rw other refl
              ])
      ];
    }

-- The entries of a map and its writes, for a store.
abbrev pub entries : {W : Type 0} → Store W → ℕ
entries s = total s.map.buckets

pub add_head-Writes :
    {W : Type 0} (key value : ℕ) (s : Store W)
    → IsValid s.map
    → get s.map key ≡ none
    → Writes key (some value) s.map (add_head key value s).map
      × (entries (add_head key value s) ≡ entries s + 1)
unfolding get find count
add_head-Writes key value s v absent =
    let b = bucket_of s.map key in
    (
      put_bucket-Writes key (some value)
          (record { chain = (key, value) ∷ b.chain; num = b.num + 1 }) s.map v
          (omega (arith, v.counted (index s.map key)))
          (λ q. ground (arith, v.once q (index s.map key), count-absent key b.chain absent))
          (λ q far. elim (Bool-cases (key == q)) [
            | inl same ↦ absurd (far (ap (index s.map) (ground arith)))
            | inr other ↦ rw other (omega (arith, v.home q (index s.map key) far))
          ])
          (λ q. refl),
      omega (
        arith,
        total-set s.map.buckets (index s.map key)
            (record { chain = (key, value) ∷ b.chain; num = b.num + 1 }) (index-lt s.map key v),
      ),
    )

pub overwrite-Writes :
    {W : Type 0} (key value old : ℕ) (s : Store W)
    → IsValid s.map
    → get s.map key ≡ some old
    → Writes key (some value) s.map (overwrite key value s).map
      × (entries (overwrite key value s) ≡ entries s)
unfolding get
overwrite-Writes key value old s v found =
    let b = bucket_of s.map key in
    let size = length-assign key value b.chain in
    (
      put_bucket-Writes key (some value) (record b { chain = assign key value b.chain }) s.map v
          (v.counted (index s.map key) ∙ sym size)
          (λ q. rw (count-assign key value q b.chain) (v.once q (index s.map key)))
          (λ q far. rw (count-assign key value q b.chain) (v.home q (index s.map key) far))
          (λ q. find-assign key value q old b.chain found),
      omega (
        arith,
        size,
        total-set s.map.buckets (index s.map key) (record b { chain = assign key value b.chain })
            (index-lt s.map key v),
      ),
    )

pub unlink-Writes :
    {W : Type 0} (key old : ℕ) (s : Store W)
    → IsValid s.map
    → get s.map key ≡ some old
    → Writes key none s.map (unlink key s).map × (entries (unlink key s) + 1 ≡ entries s)
unfolding get
unlink-Writes key old s v found =
    let b = bucket_of s.map key in
    let size = length-erase key old b.chain found in
    (
      put_bucket-Writes key none (record { chain = erase key b.chain; num = b.num - 1 }) s.map v
          (omega (arith, size, v.counted (index s.map key)))
          (λ q. omega (arith, count-erase key q b.chain, v.once q (index s.map key)))
          (λ q far. omega (arith, count-erase key q b.chain, v.home q (index s.map key) far))
          (λ q. find-erase key q b.chain (v.once q (index s.map key))),
      omega (
        arith,
        size,
        total-set s.map.buckets (index s.map key)
            (record { chain = erase key b.chain; num = b.num - 1 }) (index-lt s.map key v),
      ),
    )
