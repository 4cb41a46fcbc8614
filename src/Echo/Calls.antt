-- ===== src/Echo/Calls.antt =====
-- The object that a method of Connection changes, the system calls as it makes them, and the
-- chaining of methods (network/tcp_echo/server_epollout_handle.cpp).
use linux_programming.Prelude.{ℕ, Bool, Option, none, some, List, ◌++◌, take}
use linux_programming.Kernel.{Reply, ret, again, fail}
use linux_programming.Ring.{RingBuffer, Iovec}
use linux_programming.Ring.Memory.{scatter}

-- The members of the class.
pub record Connection : Type 0 where
  pub fd : ℕ
  pub epfd : ℕ
  pub buf : RingBuffer
  pub enable_epollout : Bool

-- A connection, the world, and four history variables: the bytes that the socket has delivered
-- to the connection, those that it has accepted from it, the events that the last successful
-- control call registered, and whether the last control call succeeded.
pub record State (W : Type 0) : Type 0 where
  pub conn : Connection
  pub open conn use *
  pub world : W
  pub rx : List ℕ
  pub tx : List ℕ
  pub interest : ℕ
  pub ctl_ok : Bool

-- A method that may fail.
abbrev pub M : Type 0 → Type 0 → Type 0
M W A = State W → Option A × State W

infixl 5 ◌>>=◌ ◌>>◌
abbrev pub ◌>>=◌ : {W A B : Type 0} → M W A → (A → M W B) → M W B
◌>>=◌ m f s = let (r, t) = m s in elim r [ none ↦ (none, t) | some a ↦ f a t ]

abbrev pub ◌>>◌ : {W A B : Type 0} → M W A → M W B → M W B
m >> k = m >>= λ _. k

abbrev pub return : {W A : Type 0} → A → M W A
return a s = (some a, s)

module _ {W : Type 0} where
  unfoldable pub with_buf : RingBuffer → State W → State W
  with_buf b s = record s { conn = record (s.conn) { buf = b } }

  -- The kernel has answered a receiving call over `vs`: its bytes are in the ring's block.
  unfoldable pub received : List Iovec → Reply (List ℕ) → W → State W → State W
  unfolding with_buf
  received vs (ret bs) w s =
      let t = with_buf (record (s.buf) { buf = scatter s.buf.buf vs bs }) s in
      record t { world = w; rx = s.rx ++ bs }
  received vs again w s = record s { world = w }
  received vs fail w s = record s { world = w }

  -- The kernel has answered a sending call of `bs`.
  unfoldable pub sent : List ℕ → Reply ℕ → W → State W → State W
  sent bs (ret n) w s = record s { world = w; tx = s.tx ++ take n bs }
  sent bs again w s = record s { world = w }
  sent bs fail w s = record s { world = w }
