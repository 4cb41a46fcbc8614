-- ===== src/HashMap/Worker.antt =====
-- class Worker of module/proc_entry_hashmap2/example/main1.cpp, over the file operations of the kernel
-- module. The numbers that `rand` returns are a parameter.
use linux_programming.Prelude.{
  ℕ, suc, ◌+◌, ◌≡◌, refl, ◌∙◌, ap, sym, Bool, true, false, Option, none, some, List, [], ◌∷◌, arith,
  ◌==◌, if◌then◌else◌, bit_and, length, ap₂, inl, inr, Bool-cases,
}
use mathlib.Core.Path.{subst}
use linux_programming.HashMap.{Slab, Store, get, put, drop_key}
use linux_programming.HashMap.Rcu
use linux_programming.HashMap.Device.{
  Param, param_size, hello_entry_insert, hello_entry_get, hello_entry_remove, entry_write,
  write_param, entry_read, answer,
}
use linux_programming.HashMap.Refine.{IsSound, rcu_refines, present}

-- The members of Worker that `run` changes, and how often a call failed, which is printed.
pub record Worker : Type 0 where
  pub running : Bool
  pub count : ℕ
  pub insert_errors : ℕ
  pub get_errors : ℕ
  pub remove_errors : ℕ

-- One more if the call returned less than 0.
abbrev pub tally : Option ℕ → ℕ → ℕ
tally none errors = errors + 1
tally (some n) errors = errors

-- `key`, of what `rand` returned.
abbrev pub key_of : ℕ → ℕ
key_of r = bit_and r 0xffffff

module _ (S : Slab) where
  open S use {World}

  abbrev write_file : Param → Store World → Option ℕ × Store World
  write_file p s = entry_write (Rcu.insert S) (Rcu.remove S) param_size (some p) s

  -- What `read` leaves in `param`.
  abbrev filled : Param → Option Param → Param
  filled p none = p
  filled p (some q) = q

  -- The body of the loop of Worker::run for proc_entry_hashmap2, with the two numbers of `rand`: the
  -- value that was read, and the next state.
  unfoldable pub round : ℕ × ℕ → Worker × Store World → ℕ × (Worker × Store World)
  round (r, v) (k, s) =
      let param : Param = record { operation = hello_entry_insert; key = key_of r; value = v } in
      let (i, t) = write_file param s in
      let asking : Param = record param { operation = hello_entry_get; value = 0 } in
      let (g, user) = entry_read param_size (some asking) true t in
      let read_back = filled asking user in
      let (d, u) = write_file (record read_back { operation = hello_entry_remove }) t in
      (
        read_back.value,
        (
          record {
            running = elim i [ none ↦ false | some n ↦ k.running ];
            count = k.count + 1;
            insert_errors = tally i k.insert_errors;
            get_errors = tally g k.get_errors;
            remove_errors = tally d k.remove_errors;
          },
          u,
        ),
      )

  -- `while (running)`, as far as there are numbers: the values that were read, and the last state.
  unfoldable pub run : List (ℕ × ℕ) → Worker × Store World → List ℕ × (Worker × Store World)
  run [] (k, s) = ([], (k, s))
  run (x ∷ xs) (k, s) =
      if k.running
      then (let (v, t) = round x (k, s) in let (vs, u) = run xs t in (v ∷ vs, u))
      else ([], (k, s))

  -- What one round leaves, when memory is there and the map is empty.
  record Clean (v : ℕ) (k : Worker) (o : ℕ × (Worker × Store World)) : Type 0 where
    value : o.0 ≡ v
    worker : o.1.0 ≡ record k { count = k.count + 1 }
    sound : IsSound S o.1.1
    empty : (q : ℕ) → get o.1.1.map q ≡ none

  round-Clean :
      (r v : ℕ) (k : Worker) (s : Store World)
      → ((w : World) → (S.alloc w).0 ≡ true)
      → IsSound S s
      → ((q : ℕ) → get s.map q ≡ none)
      → Clean v k (round (r, v) (k, s))
  unfolding round entry_write write_param entry_read answer
  round-Clean r v k s plenty h e =
      let (w, d) = rcu_refines S (put (key_of r) v) s h in
      let (a, reads) = rw (plenty s.memory) at d in
      let t = (Rcu.insert S (key_of r) v s).1 in
      let now : get t.map (key_of r) ≡ some v = reads (key_of r) ∙ ground arith in
      let (x, (b, gone)) = rcu_refines S (drop_key (key_of r)) t w in
      let out : (Rcu.remove S (key_of r) t).0 ≡ some 0 = b ∙ ap present now in
      record {
        value = rw now refl;
        worker = rw (now, a, out) refl;
        sound = rw now x;
        empty = λ q. rw now (gone q ∙ cleared q);
      }
    where
      cleared :
          (q : ℕ)
          → (if key_of r == q then none else get (Rcu.insert S (key_of r) v s).1.map q) ≡ none
      cleared q = elim (Bool-cases (key_of r == q)) [
        | inl y ↦ rw y refl
        | inr y ↦
            let d = rcu_refines S (put (key_of r) v) s h in
            let (a, reads) = rw (plenty s.memory) at d.1 in rw y (rw y at (reads q) ∙ e q)
      ]

  -- The numbers that `rand` gave for values.
  abbrev pub values : List (ℕ × ℕ) → List ℕ
  values [] = []
  values ((r, v) ∷ xs) = v ∷ values xs

  -- What comes out when each round reads its value back, no call fails and nothing is left in the map.
  abbrev pub ReadBack : List (ℕ × ℕ) → Worker → List ℕ × (Worker × Store World) → Type 0
  ReadBack xs k (vs, (k', t)) =
      (vs ≡ values xs)
      × (k' ≡ record k { count = k.count + length xs })
      × IsSound S t
      × ((q : ℕ) → get t.map q ≡ none)

  -- One worker on an empty map of proc_entry_hashmap2, while memory is there, goes through all its
  -- rounds: each reads the value that it has inserted, no call fails, `count` counts them, and the map is
  -- sound and empty again.
  pub run-ReadBack :
      (xs : List (ℕ × ℕ)) (k : Worker) (s : Store World)
      → ((w : World) → (S.alloc w).0 ≡ true)
      → k.running ≡ true
      → IsSound S s
      → ((q : ℕ) → get s.map q ≡ none)
      → ReadBack xs k (run xs (k, s))
  unfolding run
  run-ReadBack [] k s plenty on h e =
      let z : k.count + 0 ≡ k.count = omega arith in (refl, rw z refl, h, e)
  run-ReadBack ((r, v) ∷ xs) k s plenty on h e =
      let o = round (r, v) (k, s) in
      let c = round-Clean r v k s plenty h e in
      let still : o.1.0.running ≡ true = ap (λ w. w.running) c.worker ∙ on in
      let (vs, ws, f, g) = run-ReadBack xs o.1.0 o.1.1 plenty still c.sound c.empty in
      let counted : k.count + 1 + length xs ≡ k.count + suc (length xs) = omega arith in
      let add_rounds : Worker → Worker = λ w. record w { count = w.count + length xs } in
      let with_count : ℕ → Worker = λ n. record k { count = n } in
      let after : List ℕ × (Worker × Store World) = run xs o.1 in
      subst (λ b. ReadBack ((r, v) ∷ xs) k (if b then (o.0 ∷ after.0, after.1) else ([], (k, s))))
        (sym on) (ap₂ ◌∷◌ c.value vs, ws ∙ ap add_rounds c.worker ∙ ap with_count counted, f, g)
