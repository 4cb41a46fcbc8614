-- ===== src/HashMap/Chain.antt =====
-- One chain of entries, walked by hlist_for_each_entry.
use linux_programming.Prelude.{
  ℕ, ◌+◌, ◌≤◌, ◌≡◌, refl, Option, none, some, List, [], ◌∷◌, arith, length, ◌==◌, if◌then◌else◌,
}

-- The key and the value of `struct pe_map_entry`.
abbrev pub Entry : Type 0
Entry = ℕ × ℕ

-- The loops stop at the first entry with the key.
unfoldable pub find : ℕ → List Entry → Option ℕ
find key [] = none
find key (e ∷ c) = if e.0 == key then some e.1 else find key c

-- `entry->value = value`, or the replacement of the entry by a new one in its place.
unfoldable pub assign : ℕ → ℕ → List Entry → List Entry
assign key value [] = []
assign key value (e ∷ c) = if e.0 == key then (key, value) ∷ c else e ∷ assign key value c

-- hlist_del_rcu of that entry.
unfoldable pub erase : ℕ → List Entry → List Entry
erase key [] = []
erase key (e ∷ c) = if e.0 == key then c else e ∷ erase key c

-- How many entries have a key.
unfoldable pub count : ℕ → List Entry → ℕ
count q [] = 0
count q (e ∷ c) = (if e.0 == q then 1 else 0) + count q c

pub find-absent : (q : ℕ) (c : List Entry) → count q c ≡ 0 → find q c ≡ none
unfolding find count
find-absent q [] h = refl
find-absent q (e ∷ c) h = ground (arith, find-absent q c)

pub count-absent : (q : ℕ) (c : List Entry) → find q c ≡ none → count q c ≡ 0
unfolding find count
count-absent q [] h = refl
count-absent q (e ∷ c) h = ground (arith, count-absent q c)

pub find-assign :
    (key value q old : ℕ) (c : List Entry)
    → find key c ≡ some old
    → find q (assign key value c) ≡ (if key == q then some value else find q c)
unfolding find assign
find-assign key value q old [] h = cc
find-assign key value q old (e ∷ c) h = ground (arith, find-assign key value q old c)

pub count-assign : (key value q : ℕ) (c : List Entry) → count q (assign key value c) ≡ count q c
unfolding count assign
count-assign key value q [] = refl
count-assign key value q (e ∷ c) = ground (arith, count-assign key value q c)

pub length-assign : (key value : ℕ) (c : List Entry) → length (assign key value c) ≡ length c
unfolding assign
length-assign key value [] = refl
length-assign key value (e ∷ c) = ground (arith, length-assign key value c)

pub find-erase :
    (key q : ℕ) (c : List Entry)
    → count q c ≤ 1
    → find q (erase key c) ≡ (if key == q then none else find q c)
unfolding find erase count
find-erase key q [] h = ground arith
find-erase key q (e ∷ c) h = ground (arith, find-erase key q c, find-absent q c)

pub count-erase : (key q : ℕ) (c : List Entry) → count q (erase key c) ≤ count q c
unfolding count erase
count-erase key q [] = omega arith
count-erase key q (e ∷ c) = ground (arith, count-erase key q c)

pub length-erase :
    (key old : ℕ) (c : List Entry) → find key c ≡ some old → length (erase key c) + 1 ≡ length c
unfolding erase find
length-erase key old [] h = cc
length-erase key old (e ∷ c) h = ground (arith, length-erase key old c)
