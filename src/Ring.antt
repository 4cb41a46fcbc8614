-- ===== src/Ring.antt =====
-- class RingBuffer of network/tcp_echo/server_epollout_handle.cpp: a ring of `max_pkt_size` bytes
-- with two 64-bit positions that only grow, `f` of the oldest byte and `p` past the newest.
pub mod Memory
pub mod Bounds
pub mod Fifo
use linux_programming.Prelude.{ℕ, ◌+◌, ◌-◌, ◌%◌, ◌^◌, List, [], ◌∷◌, ltb, leb, ◌==◌, if◌then◌else◌}
use linux_programming.Prelude.Int.{ℤ, to_int}

abbrev pub max_pkt_size : ℕ
max_pkt_size = 64

-- `buf` is the block that the constructor allocates.
pub record RingBuffer : Type 0 where
  pub f : ℕ  -- uint64_t
  pub p : ℕ  -- uint64_t
  pub buf : List ℕ

-- A `struct iovec` over `buf`: where it starts in `buf`, and how long it is.
pub record Iovec : Type 0 where
  pub base : ℕ
  pub len : ℕ

-- The constructor. What `new char[]` leaves in the block is any content `fresh`.
unfoldable pub init : List ℕ → RingBuffer
init fresh = record { f = 0; p = 0; buf = fresh }

-- `p - f` on uint64_t
abbrev pub distance : RingBuffer → ℕ
distance r = (r.p + 2 ^ 64 - r.f) % 2 ^ 64

-- `max_pkt_size - 1 - (p - f)` is computed on uint64_t, and returned as int.
unfoldable pub get_blank_size : RingBuffer → ℤ
get_blank_size r = to_int ((max_pkt_size - 1 + 2 ^ 64 - distance r) % 2 ^ 64)

unfoldable pub get_exist_size : RingBuffer → ℤ
get_exist_size r = to_int (distance r)

-- The list is `iov[0..*iov_len_p)`. The return value, always 0, is left out.
unfoldable pub get_blank_iovec : RingBuffer → List Iovec
get_blank_iovec r =
    let mf = r.f % max_pkt_size in
    let mp = r.p % max_pkt_size in
    if ltb mp mf
    then record { base = mp; len = mf - mp - 1 } ∷ []
    else if mf == 0
    then record { base = mp; len = max_pkt_size - mp - 1 } ∷ []
    else if mf == 1
    then record { base = mp; len = max_pkt_size - mp } ∷ []
    else record { base = mp; len = max_pkt_size - mp } ∷ record { base = 0; len = mf - 1 } ∷ []

unfoldable pub get_exist_iovec : RingBuffer → List Iovec
get_exist_iovec r =
    let mf = r.f % max_pkt_size in
    let mp = r.p % max_pkt_size in
    if leb mf mp
    then record { base = mf; len = mp - mf } ∷ []
    else if mp == 0
    then record { base = mf; len = max_pkt_size - mf } ∷ []
    else record { base = mf; len = max_pkt_size - mf } ∷ record { base = 0; len = mp } ∷ []

-- The callers pass no negative `v`.
unfoldable pub add_blank : ℕ → RingBuffer → RingBuffer
add_blank v r = record r { f = (r.f + v) % 2 ^ 64 }

unfoldable pub add_exist : ℕ → RingBuffer → RingBuffer
add_exist v r = record r { p = (r.p + v) % 2 ^ 64 }
