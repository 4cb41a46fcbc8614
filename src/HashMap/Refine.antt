-- ===== src/HashMap/Refine.antt =====
-- The operations of both hash maps against a finite map, and against each other.
use linux_programming.Prelude.{
  ℕ, ◌+◌, ◌≡◌, refl, ◌∙◌, ap, ap₂, sym, Bool, true, false, Option, none, some, List, [], ◌∷◌, inl,
  inr, arith, ◌==◌, if◌then◌else◌, Bool-cases,
}
use linux_programming.HashMap.{Slab, Map, Store, get, Request, put, drop_key, ask, perform, serve}
use linux_programming.HashMap.Locked
use linux_programming.HashMap.Rcu
use linux_programming.HashMap.Device.{
  param_size, hello_entry_insert, hello_entry_get, write_param, entry_write, answer, entry_read,
}
use linux_programming.HashMap.Table.{
  IsValid, Writes, entries, add_head-Writes, overwrite-Writes, unlink-Writes,
}

-- 0 or -1, as the key is there or not.
abbrev pub present : Option ℕ → Option ℕ
present none = none
present (some v) = some 0

-- What a request does to a finite map `f`, by whether memory for an entry is there.
abbrev pub Does : Bool → Request → (ℕ → Option ℕ) → Option ℕ → (ℕ → Option ℕ) → Type 0
Does true (put key value) f r g =
    (r ≡ some 0) × ((q : ℕ) → g q ≡ (if key == q then some value else f q))
Does false (put key value) f r g = (r ≡ none) × ((q : ℕ) → g q ≡ f q)
Does got (drop_key key) f r g =
    (r ≡ present (f key)) × ((q : ℕ) → g q ≡ (if key == q then none else f q))
Does got (ask key) f r g = (r ≡ f key) × ((q : ℕ) → g q ≡ f q)

abbrev pub held : Option ℕ → ℕ
held none = 0
held (some v) = 1

-- The memory that a request gets, and the entries that it takes out of their chains.
abbrev pub taken : Bool → Request → ℕ
taken true (put key value) = 1
taken false (put key value) = 0
taken got (drop_key key) = 0
taken got (ask key) = 0

abbrev pub displaced : Bool → Request → (ℕ → Option ℕ) → ℕ
displaced true (put key value) f = held (f key)
displaced false (put key value) f = 0
displaced got (drop_key key) f = held (f key)
displaced got (ask key) f = 0

same_absent :
    (key : ℕ) (m : Map) (q : ℕ) → get m key ≡ none → get m q ≡ (if key == q then none else get m q)
same_absent key m q e = elim (Bool-cases (key == q)) [
  | inl same ↦ let k : key ≡ q = ground arith in rw same (ap (get m) (sym k) ∙ e)
  | inr other ↦ rw other refl
]

module _ (S : Slab) where
  open S use {World, alloc, free, in_use, alloc_some, alloc_none, free_one}

  -- The table is valid, and every entry in use is in it or waits for its callback.
  pub record IsSound (s : Store World) : Type 0 where
    pub valid : IsValid s.map
    pub accounted : in_use s.memory ≡ entries s + s.pending

  -- Nothing is freed, and each entry that is taken out has its callback.
  abbrev pub Defers : Bool → Request → Store World → Store World → Type 0
  Defers got r s t =
      (in_use t.memory ≡ in_use s.memory + taken got r)
      × (t.pending ≡ s.pending + displaced got r (get s.map))

  settle_locked :
      (key value : ℕ) (found : Option ℕ) (s : Store World)
      → get s.map key ≡ found
      → IsValid s.map
      → in_use s.memory ≡ entries s + s.pending + 1
      → let t = Locked.settle S key value found s in IsSound t × Writes key (some value) s.map t.map
  unfolding Locked.settle
  settle_locked key value (some old) s e v n =
      let (w, size) = overwrite-Writes key value old s v e in
      (record { valid = w.valid; accounted = omega (arith, n, size, free_one s.memory) }, w)
  settle_locked key value none s e v n =
      let (w, size) = add_head-Writes key value s v e in
      (record { valid = w.valid; accounted = omega (arith, n, size) }, w)

  settle_rcu :
      (key value : ℕ) (found : Option ℕ) (s : Store World)
      → get s.map key ≡ found
      → IsValid s.map
      → in_use s.memory ≡ entries s + s.pending + 1
      → let t = Rcu.settle S key value found s in IsSound t × Writes key (some value) s.map t.map
  unfolding Rcu.settle
  settle_rcu key value (some old) s e v n =
      let (w, size) = overwrite-Writes key value old s v e in
      (record { valid = w.valid; accounted = omega (arith, n, size) }, w)
  settle_rcu key value none s e v n =
      let (w, size) = add_head-Writes key value s v e in
      (record { valid = w.valid; accounted = omega (arith, n, size) }, w)

  Done : Request → Bool → Store World → Option ℕ × Store World → Type 0
  Done r got s (a, t) = IsSound t × Does got r (get s.map) a (get t.map)

  insert_locked :
      (key value : ℕ) (got : Bool) (w : World) (s : Store World)
      → IsSound s
      → (got ≡ true → in_use w ≡ in_use s.memory + 1)
      → (got ≡ false → in_use w ≡ in_use s.memory)
      → Done (put key value) got s (Locked.insert_got S key value got (record s { memory = w }))
  unfolding Locked.insert_got Done get
  insert_locked key value true w s v a b =
      let (sound, writes) =
        settle_locked key value _ (record s { memory = w }) refl v.valid
          (omega (arith, a refl, v.accounted)) in
      (sound, (refl, writes.reads))
  insert_locked key value false w s v a b =
      (record { valid = v.valid; accounted = b refl ∙ v.accounted }, (refl, λ q. refl))

  insert_rcu :
      (key value : ℕ) (got : Bool) (w : World) (s : Store World)
      → IsSound s
      → (got ≡ true → in_use w ≡ in_use s.memory + 1)
      → (got ≡ false → in_use w ≡ in_use s.memory)
      → Done (put key value) got s (Rcu.insert_got S key value got (record s { memory = w }))
  unfolding Rcu.insert_got Done get
  insert_rcu key value true w s v a b =
      let (sound, writes) =
        settle_rcu key value _ (record s { memory = w }) refl v.valid
          (omega (arith, a refl, v.accounted)) in
      (sound, (refl, writes.reads))
  insert_rcu key value false w s v a b =
      (record { valid = v.valid; accounted = b refl ∙ v.accounted }, (refl, λ q. refl))

  remove_locked :
      (key : ℕ) (got : Bool) (found : Option ℕ) (s : Store World)
      → get s.map key ≡ found
      → IsSound s
      → Done (drop_key key) got s (Locked.remove_found S key found s)
  unfolding Locked.remove_found Done
  remove_locked key got none s e v = (v, (sym (ap present e), λ q. same_absent key s.map q e))
  remove_locked key got (some old) s e v =
      let (w, size) = unlink-Writes key old s v.valid e in
      (
        record { valid = w.valid; accounted = omega (arith, v.accounted, size, free_one s.memory) },
        (sym (ap present e), w.reads),
      )

  remove_rcu :
      (key : ℕ) (got : Bool) (found : Option ℕ) (s : Store World)
      → get s.map key ≡ found
      → IsSound s
      → Done (drop_key key) got s (Rcu.remove_found S key found s)
  unfolding Rcu.remove_found Done
  remove_rcu key got none s e v = (v, (sym (ap present e), λ q. same_absent key s.map q e))
  remove_rcu key got (some old) s e v =
      let (w, size) = unlink-Writes key old s v.valid e in
      (
        record { valid = w.valid; accounted = omega (arith, v.accounted, size) },
        (sym (ap present e), w.reads),
      )

  -- Each request to a sound map of proc_entry_hashmap1.c does to the finite map that it stands for what
  -- the request means, and answers accordingly; an insert fails exactly if no memory is there. The
  -- table stays valid and no entry is leaked or freed while it is in the table.
  pub locked-Does :
      (r : Request) (s : Store World)
      → IsSound s
      → let (a, t) = perform (Locked.insert S) (Locked.remove S) r s in
        IsSound t × Does (alloc s.memory).0 r (get s.map) a (get t.map)
  unfolding Locked.insert Locked.remove get Done
  locked-Does (put key value) s v =
      insert_locked key value ((alloc s.memory).0) ((alloc s.memory).1) s v (alloc_some s.memory)
        (alloc_none s.memory)
  locked-Does (drop_key key) s v = remove_locked key ((alloc s.memory).0) _ s refl v
  locked-Does (ask key) s v = (v, (refl, λ q. refl))

  -- The same of proc_entry_hashmap2.c, where an entry that left its chain waits for its callback.
  pub rcu_refines :
      (r : Request) (s : Store World)
      → IsSound s
      → let (a, t) = perform (Rcu.insert S) (Rcu.remove S) r s in
        IsSound t × Does (alloc s.memory).0 r (get s.map) a (get t.map)
  unfolding Rcu.insert Rcu.remove get Done
  rcu_refines (put key value) s v =
      insert_rcu key value ((alloc s.memory).0) ((alloc s.memory).1) s v (alloc_some s.memory)
        (alloc_none s.memory)
  rcu_refines (drop_key key) s v = remove_rcu key ((alloc s.memory).0) _ s refl v
  rcu_refines (ask key) s v = (v, (refl, λ q. refl))

  settle-Defers :
      (key value : ℕ) (found : Option ℕ) (s : Store World)
      → let t = Rcu.settle S key value found s in
        (in_use t.memory ≡ in_use s.memory) × (t.pending ≡ s.pending + held found)
  unfolding Rcu.settle
  settle-Defers key value (some old) s = (refl, refl)
  settle-Defers key value none s = (refl, omega arith)

  insert_got-Defers :
      (key value : ℕ) (got : Bool) (w : World) (s : Store World)
      → (got ≡ true → in_use w ≡ in_use s.memory + 1)
      → (got ≡ false → in_use w ≡ in_use s.memory)
      → Defers got (put key value) s (Rcu.insert_got S key value got (record s { memory = w })).1
  unfolding Rcu.insert_got get
  insert_got-Defers key value true w s a b =
      let (u, p) = settle-Defers key value (get s.map key) (record s { memory = w }) in
      (u ∙ a refl, p)
  insert_got-Defers key value false w s a b = (omega (arith, b refl), omega arith)

  remove_found-Defers :
      (key : ℕ) (found : Option ℕ) (s : Store World)
      → let t = (Rcu.remove_found S key found s).1 in
        (in_use t.memory ≡ in_use s.memory) × (t.pending ≡ s.pending + held found)
  unfolding Rcu.remove_found
  remove_found-Defers key none s = (refl, omega arith)
  remove_found-Defers key (some old) s = (refl, refl)

  -- Each request to a sound map of proc_entry_hashmap2.c does to the finite map that it stands for what
  -- the request means, and answers accordingly; an insert fails exactly if no memory is there. The
  -- table stays valid, and every entry in use is in it or waits for its callback. A request frees
  -- nothing: what is in use grows by the memory that an insert got, and one callback more is pending
  -- exactly if an entry of the key was replaced or removed.
  pub rcu-Does :
      (r : Request) (s : Store World)
      → IsSound s
      → let (a, t) = perform (Rcu.insert S) (Rcu.remove S) r s in
        IsSound t
        × Does (alloc s.memory).0 r (get s.map) a (get t.map)
        × Defers (alloc s.memory).0 r s t
  unfolding Rcu.insert Rcu.remove get
  rcu-Does (put key value) s v =
      let (w, d) = rcu_refines (put key value) s v in
      (
        w,
        d,
        insert_got-Defers key value ((alloc s.memory).0) ((alloc s.memory).1) s
            (alloc_some s.memory) (alloc_none s.memory),
      )
  rcu-Does (drop_key key) s v =
      let (w, d) = rcu_refines (drop_key key) s v in
      let (u, p) = remove_found-Defers key (get s.map key) s in (w, d, (omega (arith, u), p))
  rcu-Does (ask key) s v =
      let (w, d) = rcu_refines (ask key) s v in (w, d, (omega arith, omega arith))

  -- What a request means is determined by it.
  Does-unique :
      (got : Bool) (r : Request) (f f' g g' : ℕ → Option ℕ) (a a' : Option ℕ)
      → ((q : ℕ) → f q ≡ f' q)
      → Does got r f a g
      → Does got r f' a' g'
      → (a ≡ a') × ((q : ℕ) → g q ≡ g' q)
  Does-unique true (put key value) f f' g g' a a' e (p, u) (p', u') =
      (p ∙ sym p', λ q. u q ∙ ap (λ o. if key == q then some value else o) (e q) ∙ sym (u' q))
  Does-unique false (put key value) f f' g g' a a' e (p, u) (p', u') =
      (p ∙ sym p', λ q. u q ∙ e q ∙ sym (u' q))
  Does-unique got (drop_key key) f f' g g' a a' e (p, u) (p', u') = (
    p ∙ ap present (e key) ∙ sym p',
    λ q. u q ∙ ap (λ o. if key == q then none else o) (e q) ∙ sym (u' q),
  )
  Does-unique got (ask key) f f' g g' a a' e (p, u) (p', u') =
      (p ∙ e key ∙ sym p', λ q. u q ∙ e q ∙ sym (u' q))

  -- As long as memory is there, the maps of the two modules answer the same requests with the same
  -- answers, from any two sound maps that read the same, and read the same afterwards.
  pub same_answers :
      ((w : World) → (alloc w).0 ≡ true)
      → (rs : List Request) (s u : Store World) → IsSound s
      → IsSound u
      → ((q : ℕ) → get s.map q ≡ get u.map q)
      → let (as', s') = serve (Locked.insert S) (Locked.remove S) rs s in
        let (bs', u') = serve (Rcu.insert S) (Rcu.remove S) rs u in
        (as' ≡ bs') × ((q : ℕ) → get s'.map q ≡ get u'.map q)
  same_answers plenty [] s u v w e = (refl, e)
  same_answers plenty (r ∷ rs) s u v w e =
      let (v', d) = locked-Does r s v in
      let (w', d') = rcu_refines r u w in
      let (a, e') =
        Does-unique true r _ _ _ _ _ _ e (rw (plenty s.memory) at d) (rw (plenty u.memory) at d') in
      let (as', e'') = same_answers plenty rs _ _ v' w' e' in (ap₂ ◌∷◌ a as', e'')

  -- A value that a process has written to /proc/example/hello of proc_entry_hashmap2 for a key, on a
  -- sound map and when memory is there, is what it reads back for the key.
  pub write_read :
      (key value old : ℕ) (s : Store World)
      → IsSound s
      → (alloc s.memory).0 ≡ true
      → let (a, t) =
          entry_write
            (Rcu.insert S)
            (Rcu.remove S)
            param_size
            (some (record { operation = hello_entry_insert; key = key; value = value }))
            s in
        (a ≡ some 0)
        × (entry_read param_size
              (some (record { operation = hello_entry_get; key = key; value = old }))
              true
              t
            ≡ (some 0, some (record { operation = hello_entry_get; key = key; value = value })))
  unfolding entry_write write_param entry_read answer
  write_read key value old s v got =
      let (w, d) = rcu_refines (put key value) s v in
      let (a, reads) = rw got at d in
      let now : get (Rcu.insert S key value s).1.map key ≡ some value = reads key ∙ ground arith in
      (a, rw now refl)
