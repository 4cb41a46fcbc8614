-- ===== src/Transfer.antt =====
-- network/tcp_echo/util.cpp: send_full and recv_full, which repeat a call until all bytes are through
-- or a call fails. The descriptors block, so that EAGAIN is an error like others.
pub mod Full
use linux_programming.Prelude.{
  ℕ, zero, suc, ◌+◌, ◌-◌, Option, none, some, List, [], ◌∷◌, ◌++◌, length, take, drop,
}
use linux_programming.Kernel.{Reply, ret, again, fail, Kernel}

-- The world, and three histories: the bytes received and sent, and how many calls ended a transfer,
-- because they returned -1 or found the end of the stream.
pub record Link (W : Type 0) : Type 0 where
  pub world : W
  pub rx : List ℕ
  pub tx : List ℕ
  pub stops : ℕ

-- `return (len - remaining);`
abbrev pub subtract_from : ℕ → Option ℕ → Option ℕ
subtract_from len none = none
subtract_from len (some remaining) = some (len - remaining)

module _ (K : Kernel) where
  open K use {World, send, recv}

  -- The loop of `send_full`, on fuel, over the bytes from `cur` on: the last value of `remaining`.
  -- `none` is fuel used up.
  unfoldable pub sent :
      (List ℕ → Link World → Option ℕ × Link World)
      → List ℕ
      → Reply ℕ
      → World
      → Link World
      → Option ℕ × Link World
  sent continue bs (ret n) w s =
      continue (drop n bs) (record s { world = w; tx = s.tx ++ take n bs })
  sent continue bs again w s = (some (length bs), record s { world = w; stops = s.stops + 1 })
  sent continue bs fail w s = (some (length bs), record s { world = w; stops = s.stops + 1 })

  unfoldable pub send_loop : ℕ → ℕ → List ℕ → Link World → Option ℕ × Link World
  send_loop zero fd bs s = (none, s)
  send_loop (suc fuel) fd [] s = (some 0, s)
  send_loop (suc fuel) fd (b ∷ bs) s =
      let (r, w) = send fd (b ∷ bs) s.world in sent (send_loop fuel fd) (b ∷ bs) r w s

  unfoldable pub send_full : ℕ → List ℕ → Link World → Option ℕ × Link World
  send_full fd msg s =
      let (r, t) = send_loop (length msg + 1) fd msg s in (subtract_from (length msg) r, t)

  -- The loop of `recv_full`: what is left of `remaining`. The bytes of `msg` that it has written are
  -- those that it adds to `rx`.
  unfoldable pub received :
      (ℕ → Link World → Option ℕ × Link World)
      → ℕ
      → Reply (List ℕ)
      → World
      → Link World
      → Option ℕ × Link World
  received continue remaining (ret []) w s =
      (some remaining, record s { world = w; stops = s.stops + 1 })
  received continue remaining (ret (b ∷ bs)) w s =
      continue (remaining - length (b ∷ bs)) (record s { world = w; rx = s.rx ++ (b ∷ bs) })
  received continue remaining again w s =
      (some remaining, record s { world = w; stops = s.stops + 1 })
  received continue remaining fail w s =
      (some remaining, record s { world = w; stops = s.stops + 1 })

  unfoldable pub recv_loop : ℕ → ℕ → ℕ → Link World → Option ℕ × Link World
  recv_loop zero fd remaining s = (none, s)
  recv_loop (suc fuel) fd zero s = (some 0, s)
  recv_loop (suc fuel) fd (suc remaining) s =
      let (r, w) = recv fd (suc remaining) s.world in
      received (recv_loop fuel fd) (suc remaining) r w s

  unfoldable pub recv_full : ℕ → ℕ → Link World → Option ℕ × Link World
  recv_full fd len s = let (r, t) = recv_loop (len + 1) fd len s in (subtract_from len r, t)
