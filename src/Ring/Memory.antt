-- ===== src/Ring/Memory.antt =====
-- What a system call does to the memory that its iovecs name: a receiving call writes its bytes in
-- the order of the iovecs, a sending call reads them in that order.
use linux_programming.Prelude.{
  ℕ, zero, suc, ◌+◌, ◌%◌, ◌≤◌, ◌≡◌, refl, ap, List, [], ◌∷◌, ◌++◌, arith, length, get_or, set, take,
  drop, length-set, get_or-set_self, get_or-set_ne, ap₂, ◌∙◌, append-nil, append_assoc, ◌<◌,
}
use linux_programming.Ring.{Iovec, max_pkt_size}

-- memcpy of `bs` to `buf + base`
unfoldable pub write_at : List ℕ → ℕ → List ℕ → List ℕ
write_at buf base [] = buf
write_at buf base (x ∷ xs) = write_at (set buf base x) (base + 1) xs

-- The bytes that one iovec names.
abbrev pub slice : List ℕ → Iovec → List ℕ
slice buf v = take v.len (drop v.base buf)

unfoldable pub gather : List ℕ → List Iovec → List ℕ
gather buf [] = []
gather buf (v ∷ vs) = slice buf v ++ gather buf vs

unfoldable pub scatter : List ℕ → List Iovec → List ℕ → List ℕ
scatter buf [] bs = buf
scatter buf (v ∷ vs) bs = scatter (write_at buf v.base (take v.len bs)) vs (drop v.len bs)

unfoldable pub total_len : List Iovec → ℕ
total_len [] = 0
total_len (v ∷ vs) = v.len + total_len vs

-- The `n` bytes from position `i` on, going round at `max_pkt_size`.
unfoldable pub ring_bytes : List ℕ → ℕ → ℕ → List ℕ
ring_bytes buf i zero = []
ring_bytes buf i (suc n) = get_or buf (i % max_pkt_size) 0 ∷ ring_bytes buf (i + 1) n

pub length-write_at : (buf : List ℕ) (b : ℕ) (bs : List ℕ) → length (write_at buf b bs) ≡ length buf
unfolding write_at
length-write_at buf b [] = refl
length-write_at buf b (x ∷ xs) =
    omega (arith, length-write_at (set buf b x) (b + 1) xs, length-set buf b x)

pub length-scatter :
    (buf : List ℕ) (vs : List Iovec) (bs : List ℕ) → length (scatter buf vs bs) ≡ length buf
unfolding scatter
length-scatter buf [] bs = refl
length-scatter buf (v ∷ vs) bs = omega (
  arith,
  length-scatter (write_at buf v.base (take v.len bs)) vs (drop v.len bs),
  length-write_at buf v.base (take v.len bs),
)

pub length-ring_bytes : (buf : List ℕ) (i n : ℕ) → length (ring_bytes buf i n) ≡ n
unfolding ring_bytes
length-ring_bytes buf i zero = refl
length-ring_bytes buf i (suc n) = ap suc (length-ring_bytes buf (i + 1) n)

-- Only the position modulo the size counts.
pub ring_bytes_mod :
    (buf : List ℕ) (i j n : ℕ)
    → i % max_pkt_size ≡ j % max_pkt_size
    → ring_bytes buf i n ≡ ring_bytes buf j n
unfolding ring_bytes
ring_bytes_mod buf i j zero e = refl
ring_bytes_mod buf i j (suc n) e =
    ground (arith, e, ring_bytes_mod buf (i + 1) (j + 1) n (omega arith))

pub ring_bytes_add :
    (buf : List ℕ) (i m n : ℕ)
    → ring_bytes buf i (m + n) ≡ ring_bytes buf i m ++ ring_bytes buf (i + m) n
unfolding ring_bytes
ring_bytes_add buf i zero n = ground arith
ring_bytes_add buf i (suc m) n =
    let e : suc m + n ≡ suc (m + n) = omega arith in
    let f : i + 1 + m ≡ i + suc m = omega arith in rw (e, ring_bytes_add buf (i + 1) m n, f)

-- A write just past a window that is not the whole ring extends it by that byte.
pub ring_bytes-set_end :
    (buf : List ℕ) (i n j x : ℕ)
    → length buf ≡ max_pkt_size
    → n < max_pkt_size
    → j ≡ (i + n) % max_pkt_size
    → ring_bytes (set buf j x) i (suc n) ≡ ring_bytes buf i n ++ (x ∷ [])
unfolding ring_bytes
ring_bytes-set_end buf i zero j x hl hn e =
    let e' : j ≡ i % max_pkt_size = omega arith in
    rw (e', get_or-set_self buf (i % max_pkt_size) x 0 (omega arith))
ring_bytes-set_end buf i (suc n) j x hl hn e =
    ap₂ ◌∷◌ (get_or-set_ne buf j (i % max_pkt_size) x 0 (omega arith))
      (ring_bytes-set_end buf (i + 1) n j x hl (omega arith) (omega arith))

-- A run of bytes that ends at the end of the block, written just past a window, extends it.
pub ring_bytes-write_at :
    (buf : List ℕ) (i n b : ℕ) (bs : List ℕ)
    → length buf ≡ max_pkt_size
    → n + length bs ≤ max_pkt_size
    → b + length bs ≤ max_pkt_size
    → b % max_pkt_size ≡ (i + n) % max_pkt_size
    → ring_bytes (write_at buf b bs) i (n + length bs) ≡ ring_bytes buf i n ++ bs
unfolding write_at
ring_bytes-write_at buf i n b [] hl hn hb e = let z : n + 0 ≡ n = omega arith in rw (z, append-nil)
ring_bytes-write_at buf i n b (x ∷ xs) hl hn hb e =
    let z : n + suc (length xs) ≡ suc n + length xs = omega arith in
    rw (
      z,
      ring_bytes-write_at (set buf b x) i (suc n) (b + 1) xs (length-set buf b x ∙ hl) (omega arith)
          (omega arith) (omega arith),
      ring_bytes-set_end buf i n b x hl (omega arith) (omega arith),
      append_assoc (ring_bytes buf i n) (x ∷ []) xs,
    )

pub drop-cons :
    (buf : List ℕ) (b : ℕ) → b < length buf → drop b buf ≡ get_or buf b 0 ∷ drop (b + 1) buf
drop-cons [] b h = absurd (omega arith)
drop-cons (x ∷ xs) zero h = refl
drop-cons (x ∷ xs) (suc b) h =
    let e : suc b + 1 ≡ suc (b + 1) = omega arith in rw e (drop-cons xs b (omega arith))

-- Inside the block the window of the ring is the range of memory.
pub slice-eq-ring_bytes :
    (buf : List ℕ) (b n : ℕ)
    → length buf ≡ max_pkt_size
    → b + n ≤ max_pkt_size
    → slice buf (record { base = b; len = n }) ≡ ring_bytes buf b n
unfolding ring_bytes
slice-eq-ring_bytes buf b zero hl h = refl
slice-eq-ring_bytes buf b (suc n) hl h =
    let e : b % max_pkt_size ≡ b = omega arith in
    rw (drop-cons buf b (omega arith), e)
      (ap (λ t. get_or buf b 0 ∷ t) (slice-eq-ring_bytes buf (b + 1) n hl (omega arith)))
