-- ===== src/Latency.antt =====
-- The latencies of network/tcp_echo/client_epoll_bench.cpp: class LatencyTracer, a ring of samples
-- that one thread pushes and another reports, what Total collects of them, and get_p99. The sum of the
-- latencies, a double, and what is printed are left out. A latency is a number: a clock that is set
-- back, which makes one negative, is not modelled. A call of `report` is one step between two pushes.
pub mod Report
pub mod Percentile
use mathlib.Core.List.{reverse}
use linux_programming.Prelude.{
  ℕ, zero, suc, ◌+◌, ◌-◌, ◌/◌, ◌%◌, ◌^◌, true, false, Option, none, some, List, [], ◌∷◌, ltb, leb,
  ◌==◌, ◌||◌, ◌&&◌, if◌then◌else◌, update,
}

-- `size`; an index `& mask` is its remainder.
abbrev pub size : ℕ
size = 2 ^ 18

-- `data` is a block of `size` numbers.
pub record Tracer : Type 0 where
  pub data_at : ℕ → ℕ
  pub f : ℕ
  pub p : ℕ

-- `Total::num` and `Total::tails`, where a key that is missing counts 0.
pub record Total : Type 0 where
  pub num : ℕ
  pub tails : ℕ → ℕ

unfoldable pub push : ℕ → Tracer → Tracer
push x t = record t { data_at = update t.data_at (t.p % size) x; p = t.p + 1 }

-- The body of the inner loop of `report`, with its `num`.
unfoldable pub take_one : ℕ × Tracer × Total → ℕ × Tracer × Total
take_one (n, t, total) =
    let x = t.data_at (t.f % size) in
    (
      n + 1,
      record t { f = t.f + 1 },
      record total { tails = update total.tails x (total.tails x + 1) },
    )

-- Rounds of the inner loop.
unfoldable pub take_many : ℕ → ℕ × Tracer × Total → ℕ × Tracer × Total
take_many zero r = r
take_many (suc k) r = take_many k (take_one r)

-- `buf_size` in `report`
abbrev pub batch : ℕ
batch = 256

-- The outer loop, on fuel; `none` is fuel used up.
unfoldable pub report_loop : ℕ → ℕ × Tracer × Total → Option (ℕ × Tracer × Total)
report_loop zero r = none
report_loop (suc fuel) (n, t, total) = elim (ltb 0 (t.p / batch - t.f / batch)) [
  | true ↦ report_loop fuel (take_many batch (n, t, total))
  | false ↦ some (n, t, total)
]

-- `total->num += num;`
unfoldable pub count_in : Option (ℕ × Tracer × Total) → Option (Tracer × Total)
count_in none = none
count_in (some (n, t, total)) = some (t, record total { num = total.num + n })

unfoldable pub report : Tracer → Total → Option (Tracer × Total)
report t total = count_in (report_loop (t.p / batch - t.f / batch + 1) (0, t, total))

-- `sort(sorted.begin(), sorted.end())`, on pairs of a latency and how often it occurred.
unfoldable pub insert : ℕ × ℕ → List (ℕ × ℕ) → List (ℕ × ℕ)
insert e [] = e ∷ []
insert e (x ∷ xs) =
    if ltb e.0 x.0 || (e.0 == x.0 && leb e.1 x.1) then e ∷ x ∷ xs else x ∷ insert e xs

unfoldable pub sort : List (ℕ × ℕ) → List (ℕ × ℕ)
sort [] = []
sort (e ∷ es) = insert e (sort es)

-- The loop of `get_p99`, with `n`, over the entries from the last to the first.
unfoldable pub scan : (tail_num n : ℕ) → List (ℕ × ℕ) → ℕ
scan tail_num n [] = 0
scan tail_num n (x ∷ xs) =
    let rest = scan tail_num (n + x.1) xs in if leb tail_num (n + x.1) then x.0 else rest

-- `get_p99` of the entries of the map, in any order.
unfoldable pub get_p99 : List (ℕ × ℕ) → ℕ → ℕ
get_p99 tails tail_num = scan tail_num 0 (reverse (sort tails))
