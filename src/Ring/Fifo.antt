-- ===== src/Ring/Fifo.antt =====
-- RingBuffer as a queue: what the iovecs name, and what the two positions do to the contents.
use linux_programming.Prelude.{
  ℕ, zero, suc, ◌+◌, ◌-◌, ◌%◌, ◌^◌, ◌≤◌, ◌<◌, ◌≡◌, refl, ◌∙◌, ap, sym, List, [], ◌∷◌, ◌++◌, arith,
  length, take, drop, length-take, length-drop, take-append-drop, append-nil, append_assoc,
  drop-append, drop_all, drop_all_le, take_all, dec_lt,
}
use linux_programming.Ring.{
  RingBuffer, Iovec, max_pkt_size, distance, get_exist_iovec, add_blank, add_exist,
}
use linux_programming.Ring.Memory.{
  write_at, gather, scatter, length-scatter, total_len, ring_bytes, ring_bytes_mod, ring_bytes_add,
  ring_bytes-write_at, slice-eq-ring_bytes, length-write_at, length-ring_bytes,
}
use linux_programming.Ring.Bounds.{
  IsValid, Covers, exist_iovec-Covers, add_exist-IsValid, distance-add_exist,
}

-- The bytes that wait in the ring, oldest first.
unfoldable pub contents : RingBuffer → List ℕ
contents r = ring_bytes r.buf r.f (distance r)

-- Iovecs that walk round the ring name its bytes in order.
pub gather-Covers :
    (buf : List ℕ) (i : ℕ) (vs : List Iovec)
    → length buf ≡ max_pkt_size
    → Covers i vs
    → gather buf vs ≡ ring_bytes buf i (total_len vs)
unfolding gather total_len ring_bytes
gather-Covers buf i [] hl c = refl
gather-Covers buf i (v ∷ vs) hl c =
    rw
      (
        slice-eq-ring_bytes buf v.base v.len hl c.1,
        ring_bytes_mod buf v.base i v.len c.0,
        gather-Covers buf (i + v.len) vs hl c.2,
      )
      (sym (ring_bytes_add buf i v.len (total_len vs)))

take_nil {ℓ} : (A : Type ℓ) (n : ℕ) → (take {A = A} n [] ≡ []) × (drop {A = A} n [] ≡ [])
take_nil A zero = (refl, refl)
take_nil A (suc n) = (refl, refl)

pub scatter_nil : (buf : List ℕ) (vs : List Iovec) → scatter buf vs [] ≡ buf
unfolding scatter write_at
scatter_nil buf [] = refl
scatter_nil buf (v ∷ vs) = rw ((take_nil ℕ v.len).0, (take_nil ℕ v.len).1) (scatter_nil buf vs)

-- Bytes received into iovecs that start where a window ends extend the window.
pub scatter-Covers :
    (buf : List ℕ) (i n : ℕ) (vs : List Iovec) (bs : List ℕ)
    → length buf ≡ max_pkt_size
    → Covers (i + n) vs
    → length bs ≤ total_len vs
    → n + length bs ≤ max_pkt_size
    → ring_bytes (scatter buf vs bs) i (n + length bs) ≡ ring_bytes buf i n ++ bs
unfolding scatter total_len
scatter-Covers buf i n [] [] hl c hb hn = let z : n + 0 ≡ n = omega arith in rw (z, append-nil)
scatter-Covers buf i n [] (b ∷ bs) hl c hb hn = absurd (omega arith)
scatter-Covers buf i n (v ∷ vs) bs hl c hb hn = elim (dec_lt v.len (length bs)) [
  | yes more ↦
      let t : length (take v.len bs) ≡ v.len = omega (arith, length-take v.len bs) in
      let d : length bs ≡ v.len + length (drop v.len bs) = omega (arith, length-drop v.len bs) in
      let e : i + n + v.len ≡ i + (n + v.len) = omega arith in
      let z : n + (v.len + length (drop v.len bs)) ≡ n + v.len + length (drop v.len bs) =
        omega arith in
      let first : ring_bytes (write_at buf v.base (take v.len bs)) i (n + v.len)
          ≡ ring_bytes buf i n ++ take v.len bs =
        rw t at
          (ring_bytes-write_at buf i n v.base (take v.len bs) hl (omega arith) (omega arith) c.0) in
      rw (
        d,
        z,
        scatter-Covers (write_at buf v.base (take v.len bs)) i (n + v.len) vs (drop v.len bs)
            (length-write_at buf v.base (take v.len bs) ∙ hl) (rw (← e) c.2) (omega arith)
            (omega arith),
        first,
        append_assoc (ring_bytes buf i n) (take v.len bs) (drop v.len bs),
        take-append-drop v.len bs,
      )
  | no enough ↦
      rw
        (
          drop_all_le v.len bs (omega arith),
          take_all v.len bs (omega arith),
          scatter_nil (write_at buf v.base bs) vs,
        )
        (ring_bytes-write_at buf i n v.base bs hl hn (omega arith) c.0)
]

-- The iovecs of the exist part name the contents.
pub gather_exist : (r : RingBuffer) → IsValid r → gather r.buf (get_exist_iovec r) ≡ contents r
unfolding contents
gather_exist r v =
    let (c, t) = exist_iovec-Covers r v in
    gather-Covers r.buf r.f (get_exist_iovec r) v.block c ∙ ap (ring_bytes r.buf r.f) t

pub length-contents : (r : RingBuffer) → length (contents r) ≡ distance r
unfolding contents
length-contents r = length-ring_bytes r.buf r.f (distance r)

pub Covers-mod :
    (i j : ℕ) (vs : List Iovec) → i % max_pkt_size ≡ j % max_pkt_size → Covers i vs → Covers j vs
Covers-mod i j [] e c = tt
Covers-mod i j (v ∷ vs) e c =
    (omega arith, c.1, Covers-mod (i + v.len) (j + v.len) vs (omega arith) c.2)

-- Bytes received into iovecs that walk on from `p`, and counted by `add_exist`, are appended to the
-- contents.
pub contents-add_exist :
    (r : RingBuffer) (vs : List Iovec) (bs : List ℕ)
    → IsValid r
    → Covers r.p vs
    → length bs ≤ total_len vs
    → distance r + length bs < max_pkt_size
    → contents (add_exist (length bs) (record r { buf = scatter r.buf vs bs })) ≡ contents r ++ bs
unfolding contents add_exist
contents-add_exist r vs bs v c hb hn =
    let e : (((r.p + length bs) % 2 ^ 64) + 2 ^ 64 - r.f) % 2 ^ 64 ≡ distance r + length bs =
      omega arith in
    rw e (
      scatter-Covers r.buf r.f (distance r) vs bs v.block
        (Covers-mod r.p (r.f + distance r) vs (omega arith) c) hb (omega arith))

drop-ring_bytes :
    (buf : List ℕ) (i n m : ℕ)
    → n ≤ m
    → drop n (ring_bytes buf i m) ≡ ring_bytes buf (i + n) (m - n)
drop-ring_bytes buf i n m h =
    let e : m ≡ n + (m - n) = omega arith in
    let d : n + (m - n) - n ≡ m - n = omega arith in
    rw (
      e,
      ring_bytes_add buf i n (m - n),
      drop-append n (ring_bytes buf i n) (ring_bytes buf (i + n) (m - n))
          (omega (arith, length-ring_bytes buf i n)),
      drop_all n (ring_bytes buf i n) (omega (arith, length-ring_bytes buf i n)),
      d,
    )

-- `add_blank` takes bytes from the front of the contents.
pub contents-add_blank :
    (r : RingBuffer) (n : ℕ)
    → IsValid r
    → n ≤ distance r
    → contents (add_blank n r) ≡ drop n (contents r)
unfolding contents add_blank
contents-add_blank r n v h =
    let e : (r.p + 2 ^ 64 - (r.f + n) % 2 ^ 64) % 2 ^ 64 ≡ distance r - n = omega arith in
    rw (e, drop-ring_bytes r.buf r.f n (distance r) h)
      (ring_bytes_mod r.buf ((r.f + n) % 2 ^ 64) (r.f + n) (distance r - n) (omega arith))

-- The ring after `bs` were received into `vs` and counted.
abbrev pub pushed : RingBuffer → List Iovec → List ℕ → RingBuffer
pushed r vs bs = add_exist (length bs) (record r { buf = scatter r.buf vs bs })

pub pushed-IsValid :
    (r : RingBuffer) (vs : List Iovec) (bs : List ℕ)
    → IsValid r
    → distance r + length bs < max_pkt_size
    → IsValid (pushed r vs bs) × (distance (pushed r vs bs) ≡ distance r + length bs)
pushed-IsValid r vs bs v h =
    let r' : RingBuffer = record r { buf = scatter r.buf vs bs } in
    let v' : IsValid r' = record {
      block = length-scatter r.buf vs bs ∙ v.block;
      f_word = v.f_word;
      p_word = v.p_word;
      fits = v.fits;
    } in
    (add_exist-IsValid r' (length bs) v' h, distance-add_exist r' (length bs) v' h)

-- Iovecs that walk over the exist part name the contents.
pub contents-Covers :
    (r : RingBuffer) (vs : List Iovec)
    → IsValid r
    → Covers r.f vs
    → total_len vs ≡ distance r
    → contents r ≡ gather r.buf vs
unfolding contents
contents-Covers r vs v c t = rw (← t) (sym (gather-Covers r.buf r.f vs v.block c))
