-- ===== src/FixedQueue/Ends.antt =====
-- How bounded_blocking_queue_semaphore_mmap_unnamed0/main.cpp ends.
use linux_programming.Prelude.{
  ℕ, ◌+◌, ◌*◌, ◌<◌, ◌≤◌, ◌≡◌, ◌⊎◌, inl, inr, refl, sym, ap, ◌∙◌, length, get_or, arith, dec_lt,
}
use mathlib.Core.Path.{subst}
use linux_programming.Threads.{total, total-found, one-le-total, upto}
use linux_programming.FixedQueue.{
  Shared, Pc, producing, put_waiting, put_locked, put_stored, put_leaving, put_ended, consuming,
  take_waiting, take_locked, take_loaded, take_leaving, take_ended, Move, put_wait, put_lock,
  put_store, put_unlock, put_post, take_wait, take_lock, take_load, take_unlock, take_post, System,
  Step, pick, Reach, here, next, start,
}
use linux_programming.FixedQueue.Counts.{locks, left, IsSound, Move-IsSound, start-IsSound, measure}
use linux_programming.FixedQueue.Ids.{IsNumbered, Move-IsNumbered, start-IsNumbered}
use linux_programming.FixedQueue.Rest.{
  wants, at_put, at_take, IsDone, idle-IsOver, rest, all_made, at-at_put, at-at_take,
}

module _ (u t n : ℕ) (s : System) where
  abbrev pub Goes : Type 0
  Goes = (r : System) × Step u t s r

  Goes-at :
      (i : ℕ) (a : Pc) {q : Shared} {b : Pc}
      → i < length s.pcs
      → get_or s.pcs i put_ended ≡ a
      → Move u t s.shared a q b
      → Goes
  Goes-at i a {q} {b} h e mv = (_, pick i h (subst (λ d. Move u t s.shared d q b) (sym e) mv))

  holder : (i : ℕ) (a : Pc) → i < length s.pcs → get_or s.pcs i put_ended ≡ a → 0 < locks a → Goes
  holder i producing h e z = absurd (omega arith)
  holder i put_waiting h e z = absurd (omega arith)
  holder i put_locked h e z = Goes-at i put_locked h e (put_store 0 0)
  holder i (put_stored b) h e z = Goes-at i (put_stored b) h e put_unlock
  holder i (put_leaving b) h e z = absurd (omega arith)
  holder i put_ended h e z = absurd (omega arith)
  holder i consuming h e z = absurd (omega arith)
  holder i take_waiting h e z = absurd (omega arith)
  holder i take_locked h e z = Goes-at i take_locked h e take_load
  holder i (take_loaded b) h e z = Goes-at i (take_loaded b) h e take_unlock
  holder i (take_leaving b) h e z = absurd (omega arith)
  holder i take_ended h e z = absurd (omega arith)

  wanter :
      (i : ℕ) (a : Pc)
      → i < length s.pcs
      → get_or s.pcs i put_ended ≡ a
      → 0 < s.shared.mutex
      → 0 < wants a
      → Goes
  wanter i producing h e f z = absurd (omega arith)
  wanter i put_waiting h e f z = Goes-at i put_waiting h e (put_lock f)
  wanter i put_locked h e f z = absurd (omega arith)
  wanter i (put_stored b) h e f z = absurd (omega arith)
  wanter i (put_leaving b) h e f z = Goes-at i (put_leaving b) h e put_post
  wanter i put_ended h e f z = absurd (omega arith)
  wanter i consuming h e f z = absurd (omega arith)
  wanter i take_waiting h e f z = Goes-at i take_waiting h e (take_lock f)
  wanter i take_locked h e f z = absurd (omega arith)
  wanter i (take_loaded b) h e f z = absurd (omega arith)
  wanter i (take_leaving b) h e f z = Goes-at i (take_leaving b) h e take_post
  wanter i take_ended h e f z = absurd (omega arith)

  -- A thread at the head of its loop begins a round, if its semaphore lets it.
  round_or_not :
      (Goes ⊎ ((total at_put s.pcs ≡ 0) ⊎ (s.shared.empty ≡ 0)))
      × (Goes ⊎ ((total at_take s.pcs ≡ 0) ⊎ (s.shared.full ≡ 0)))
  round_or_not = (
    (elim (dec_lt 0 (total at_put s.pcs)) [
      | no nz ↦ inr (inl (omega (arith, nz)))
      | yes z ↦ elim (dec_lt 0 s.shared.empty) [
        | no ng ↦ inr (inr (omega (arith, ng)))
        | yes g ↦
            let (i, h, y) = total-found at_put put_ended s.pcs z in
            inl (Goes-at i producing h (at-at_put (get_or s.pcs i put_ended) y) (put_wait g))
      ]
    ]),
    (elim (dec_lt 0 (total at_take s.pcs)) [
      | no nz ↦ inr (inl (omega (arith, nz)))
      | yes z ↦ elim (dec_lt 0 s.shared.full) [
        | no ng ↦ inr (inr (omega (arith, ng)))
        | yes g ↦
            let (i, h, y) = total-found at_take put_ended s.pcs z in
            inl (Goes-at i consuming h (at-at_take (get_or s.pcs i put_ended) y) (take_wait g))
      ]
    ]),
  )

  rest-IsDone :
      0 < u
      → 0 < n
      → IsSound u t n s
      → IsNumbered u s.shared
      → total locks s.pcs ≡ 0
      → total wants s.pcs ≡ 0
      → (total at_put s.pcs ≡ 0) ⊎ (s.shared.empty ≡ 0)
      → (total at_take s.pcs ≡ 0) ⊎ (s.shared.full ≡ 0)
      → IsDone t n s
  rest-IsDone hu hn v w l z p c =
      let (a, b, x, y) = rest v l z in
      let (no_put, no_take, stored, loaded) =
        all_made u t n s.shared.f s.shared.p s.shared.full s.shared.empty (total at_put s.pcs)
          (total at_take s.pcs) hu hn a b x y p c in
      record {
        over = λ i h.
            idle-IsOver (get_or s.pcs i put_ended)
              (omega (arith, l, one-le-total locks put_ended s.pcs i refl h))
              (omega (arith, z, one-le-total wants put_ended s.pcs i refl h))
              (omega (arith, no_put, one-le-total at_put put_ended s.pcs i refl h))
              (omega (arith, no_take, one-le-total at_take put_ended s.pcs i refl h));
        stored = stored;
        loaded = loaded;
        in_order = w.read ∙ ap upto loaded;
      }

  Goes_or_IsDone : 0 < u → 0 < n → IsSound u t n s → IsNumbered u s.shared → Goes ⊎ IsDone t n s
  Goes_or_IsDone hu hn v w = elim (dec_lt 0 (total locks s.pcs)) [
    | yes l ↦
        let (i, h, z) = total-found locks put_ended s.pcs l in
        inl (holder i (get_or s.pcs i put_ended) h refl z)
    | no nl ↦ elim (dec_lt 0 (total wants s.pcs)) [
      | yes l ↦
          let (i, h, z) = total-found wants put_ended s.pcs l in
          inl (wanter i (get_or s.pcs i put_ended) h refl (omega (arith, nl, v.one_lock)) z)
      | no nw ↦ elim round_or_not.0 [
        | inl g ↦ inl g
        | inr p ↦ elim round_or_not.1 [
          | inl g ↦ inl g
          | inr c ↦ inr (rest-IsDone hu hn v w (omega (arith, nl)) (omega (arith, nw)) p c)
        ]
      ]
    ]
  ]

-- How many steps there were.
unfoldable pub steps : {u t : ℕ} {s r : System} → Reach u t s r → ℕ
steps here = 0
steps (next r st) = steps r + 1

record Keeps (u t n : ℕ) (s : System) (k : ℕ) : Type 0 where
  sound : IsSound u t n s
  numbered : IsNumbered u s.shared
  few : k + measure t n s.shared (total left s.pcs) ≤ 10 * (t + n) + 4 * n

Reach-Keeps : {u t n : ℕ} {s : System} (r : Reach u t (start u t n) s) → Keeps u t n s (steps r)
unfolding steps start
Reach-Keeps {u} {t} {n} here =
    let (v, w) = start-IsSound {u = u} {t = t} {n = n} in
    record { sound = v; numbered = start-IsNumbered t n; few = omega (arith, w) }
Reach-Keeps (next r (pick i h mv)) =
    let v = Reach-Keeps r in
    let (w, less) = Move-IsSound i h mv v.sound in
    record {
      sound = w;
      numbered = Move-IsNumbered i mv h refl v.sound v.numbered;
      few = omega (arith, less, v.few);
    }

-- `n` producers and `n` consumers, however they take turns, never all wait before every one of them has
-- ended and the nodes were read in the order of their ids, and they make a bounded number of steps.
pub ends_in_order :
    (u t n : ℕ) {s : System}
    → 0 < u
    → 0 < n
    → (r : Reach u t (start u t n) s)
    → (Goes u t n s ⊎ IsDone t n s) × (steps r ≤ 10 * (t + n) + 4 * n)
ends_in_order u t n {s} hu hn r =
    let v = Reach-Keeps r in (Goes_or_IsDone u t n s hu hn v.sound v.numbered, omega (arith, v.few))
