-- ===== src/Tests/LatencyRuns.antt =====
-- LatencyTracer and get_p99 of client_epoll_bench.cpp at concrete inputs.
use linux_programming.Prelude.{ℕ, ◌%◌, ◌≤◌, ◌<◌, ◌≡◌, ◌++◌, refl, some, List, [], ◌∷◌, arith}
use linux_programming.Latency.{Tracer, Total, report, insert, sort, scan, get_p99}
use linux_programming.Latency.Report.{waiting, push_all, Reported, every_sample_counted}
use linux_programming.Latency.Percentile.{reaching, get_p99-IsTail}

-- 300 samples of 0, 1 and 2 wait.
abbrev ready : Tracer
ready = record { data_at = λ i. i % 3; f = 0; p = 300 }

abbrev empty_total : Total
empty_total = record { num = 0; tails = λ x. 0 }

every_sample_counted_example :
    (u : Tracer) × (b : Total) × (taken : List ℕ) × (report
        (push_all (7 ∷ 9 ∷ []) ready)
        empty_total
      ≡ some (u, b))
    × (waiting ready ++ (7 ∷ 9 ∷ []) ≡ taken ++ waiting u)
    × Reported taken u empty_total b
every_sample_counted_example =
    every_sample_counted (7 ∷ 9 ∷ []) ready empty_total (omega arith) refl (omega arith)

-- 1 sample of 90, 3 of 50, 6 of 10, in no order.
abbrev entries : List (ℕ × ℕ)
entries = (50, 3) ∷ (10, 6) ∷ (90, 1) ∷ []

largest : get_p99 entries 1 ≡ 90
unfolding get_p99 sort insert scan
largest = refl

get_p99-IsTail_example : (2 ≤ reaching 50 entries) × ((y : ℕ) → 50 < y → reaching y entries < 2)
unfolding get_p99 sort insert scan reaching
get_p99-IsTail_example =
    get_p99-IsTail entries 2
      (((λ z. absurd (cc z)), ((λ z. absurd (cc z)), tt)), (((λ z. absurd (cc z)), tt), (tt, tt)))
      (omega arith) (omega arith)
