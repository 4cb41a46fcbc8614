-- ===== src/Response/Calls.antt =====
-- The object that a method of Connection changes in network/tcp_echo/server_epollout_response.cpp,
-- and the chaining of methods.
use linux_programming.Prelude.{ℕ, Bool, List}
use linux_programming.Ring.{RingBuffer}

-- The members of the class. The two counters are int64_t, and are never negative.
pub record Connection : Type 0 where
  pub fd : ℕ
  pub epfd : ℕ
  pub buf : RingBuffer
  pub response_cnt : ℕ
  pub response_pos : ℕ
  pub enable_epollout : Bool

-- A connection, the world, and four history variables: the bytes that the socket has delivered
-- to the connection, those that it has accepted from it, the events that the last successful
-- control call registered, and whether the last control call succeeded.
pub record State (W : Type 0) : Type 0 where
  pub conn : Connection
  pub open conn use *
  pub world : W
  pub rx : List ℕ
  pub tx : List ℕ
  pub interest : ℕ
  pub ctl_ok : Bool

-- How a method ends: with an int that is not negative, with -1, or, which the theorems exclude,
-- with its loop's fuel used up.
pub data Exit : Type 0 where
  done : ℕ → Exit
  error : Exit
  exhausted : Exit

abbrev pub M : Type 0 → Type 0
M W = State W → Exit × State W

-- `if (m() < 0) return -1;` and what follows it.
infixl 5 ◌>>◌
abbrev pub ◌>>◌ : {W : Type 0} → M W → M W → M W
◌>>◌ m k s =
    let (x, t) = m s in elim x [ done n ↦ k t | error ↦ (error, t) | exhausted ↦ (exhausted, t) ]

abbrev pub return : {W : Type 0} → ℕ → M W
return n s = (done n, s)
