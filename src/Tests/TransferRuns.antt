-- ===== src/Tests/TransferRuns.antt =====
-- util.cpp, run on a scripted kernel whose `send` takes at least one byte.
use linux_programming.Prelude.{
  ℕ, ◌+◌, ◌≤◌, ◌≡◌, ◌≢◌, refl, some, List, [], ◌∷◌, ◌++◌, arith, length, take, min,
}
use linux_programming.Kernel.{Reply, ret, again, fail, Kernel}
use linux_programming.Kernel.Scripted.{Script, scripted}
use linux_programming.Transfer.{Link, sent, send_loop, send_full}
use linux_programming.Transfer.Full.{Through, IsEager, send_full-Through}

abbrev pub eager_reply : List ℕ → Script → Reply ℕ × Script
eager_reply msg [] = (again, [])
eager_reply msg (ret bs ∷ w) = (ret (min (length bs + 1) (length msg)), w)
eager_reply msg (again ∷ w) = (again, w)
eager_reply msg (fail ∷ w) = (fail, w)

pub eager_reply_bound :
    (msg : List ℕ) (w : Script) (n : ℕ) → (eager_reply msg w).0 ≡ ret n → n ≤ length msg
eager_reply_bound msg [] n e = ground arith
eager_reply_bound msg (ret cs ∷ w) n e = ground arith
eager_reply_bound msg (again ∷ w) n e = ground arith
eager_reply_bound msg (fail ∷ w) n e = ground arith

abbrev pub eager : Kernel
eager = record scripted {
  send = λ fd bs w. eager_reply bs w;
  send_bound = λ fd bs w n. eager_reply_bound bs w n;
}

pub eager_reply-positive : (b : ℕ) (bs : List ℕ) (w : Script) → (eager_reply (b ∷ bs) w).0 ≢ ret 0
eager_reply-positive b bs [] e = ground arith
eager_reply-positive b bs (ret cs ∷ w) e = ground arith
eager_reply-positive b bs (again ∷ w) e = ground arith
eager_reply-positive b bs (fail ∷ w) e = ground arith

pub eager-IsEager : IsEager eager
eager-IsEager fd b bs w = eager_reply-positive b bs w

abbrev link : Script → Link Script
link w = record { world = w; rx = []; tx = []; stops = 0 }

abbrev message : List ℕ
message = 1 ∷ 2 ∷ 3 ∷ []

-- One byte goes out, then the other two.
abbrev in_parts : Script
in_parts = ret [] ∷ ret (0 ∷ []) ∷ []

abbrev all_sent : Link Script
all_sent = record { world = []; rx = []; tx = message; stops = 0 }

sent_in_parts : send_full eager 5 message (link in_parts) ≡ (some 3, all_sent)
unfolding send_full send_loop sent
sent_in_parts = refl

send_full-Through_example :
    (n : ℕ) × (some 3 ≡ some n)
    × (message ≡ [] ++ take n message)
    × (◌≡◌ {A = List ℕ} [] [])
    × Through n 3 (link in_parts) all_sent
unfolding send_full send_loop sent
send_full-Through_example = send_full-Through eager eager-IsEager 5 message (link in_parts)

-- Two bytes come in, and the stream ends.
abbrev short : Script
short = ret (8 ∷ 9 ∷ []) ∷ ret [] ∷ []

abbrev ended : Link Script
ended = record { world = []; rx = 8 ∷ 9 ∷ []; tx = []; stops = 1 }
