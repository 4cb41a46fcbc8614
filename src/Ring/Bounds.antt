-- ===== src/Ring/Bounds.antt =====
-- RingBuffer: the invariant of the two positions, the sizes, and where the iovecs lie.
use linux_programming.Prelude.{ℕ, ◌+◌, ◌-◌, ◌%◌, ◌^◌, ◌≤◌, ◌<◌, ◌≡◌, List, [], ◌∷◌, arith, length}
use linux_programming.Prelude.Int.{pos}
use linux_programming.Ring.{
  RingBuffer, Iovec, max_pkt_size, distance, init, get_blank_size, get_exist_size, get_blank_iovec,
  get_exist_iovec, add_blank, add_exist,
}
use linux_programming.Ring.Memory.{total_len}

-- One byte of the ring is always left free, so that a full ring is not taken for an empty one.
pub record IsValid (r : RingBuffer) : Type 0 where
  pub block : length r.buf ≡ max_pkt_size
  pub f_word : r.f < 2 ^ 64
  pub p_word : r.p < 2 ^ 64
  pub fits : distance r < max_pkt_size

-- The iovecs lie inside the block, and walk round the ring from position `i`.
abbrev pub Covers : ℕ → List Iovec → Type 0
Covers i [] = Unit
Covers i (v ∷ vs) =
    (v.base % max_pkt_size ≡ i % max_pkt_size)
    × (v.base + v.len ≤ max_pkt_size)
    × Covers (i + v.len) vs

pub init-IsValid :
    (fresh : List ℕ)
    → length fresh ≡ max_pkt_size
    → IsValid (init fresh) × (distance (init fresh) ≡ 0)
unfolding init
init-IsValid fresh h = ground arith

-- In a valid ring the two sizes are exact, and make up the block less one byte.
pub sizes :
    (r : RingBuffer)
    → IsValid r
    → (get_exist_size r ≡ pos (distance r))
      × (get_blank_size r ≡ pos (max_pkt_size - 1 - distance r))
unfolding get_exist_size get_blank_size
sizes r v = ground arith

-- The iovecs of the blank part lie inside the block, start at `p`, and are as long as the blank
-- part.
pub blank_iovec-Covers :
    (r : RingBuffer)
    → IsValid r
    → Covers r.p (get_blank_iovec r)
      × (total_len (get_blank_iovec r) ≡ max_pkt_size - 1 - distance r)
unfolding get_blank_iovec total_len
blank_iovec-Covers r v = ground arith

pub exist_iovec-Covers :
    (r : RingBuffer)
    → IsValid r
    → Covers r.f (get_exist_iovec r) × (total_len (get_exist_iovec r) ≡ distance r)
unfolding get_exist_iovec total_len
exist_iovec-Covers r v = ground arith

pub distance-add_exist :
    (r : RingBuffer) (n : ℕ)
    → IsValid r
    → distance r + n < max_pkt_size
    → distance (add_exist n r) ≡ distance r + n
unfolding add_exist
distance-add_exist r n v h = omega arith

pub distance-add_blank :
    (r : RingBuffer) (n : ℕ)
    → IsValid r
    → n ≤ distance r
    → distance (add_blank n r) ≡ distance r - n
unfolding add_blank
distance-add_blank r n v h = omega arith

pub add_exist-IsValid :
    (r : RingBuffer) (n : ℕ) → IsValid r → distance r + n < max_pkt_size → IsValid (add_exist n r)
unfolding add_exist
add_exist-IsValid r n v h = omega arith

pub add_blank-IsValid :
    (r : RingBuffer) (n : ℕ) → IsValid r → n ≤ distance r → IsValid (add_blank n r)
unfolding add_blank
add_blank-IsValid r n v h = omega arith
