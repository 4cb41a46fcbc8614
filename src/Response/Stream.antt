-- ===== src/Response/Stream.antt =====
-- What a connection of network/tcp_echo/server_epollout_response.cpp owes its client, and when a
-- sending method has done its work.
use linux_programming.Prelude.{
  ℕ, zero, suc, ◌+◌, ◌-◌, ◌*◌, ◌≤◌, ◌<◌, ◌≡◌, ◌≢◌, refl, ap, Bool, List, [], ◌++◌, arith, length,
  drop, ltb,
}
use linux_programming.Echo.Control.{Turns}
use linux_programming.Response.{fill, response_buf, pending}
use linux_programming.Response.Calls.{Connection, State, Exit, done, exhausted}

length-fill : (i n : ℕ) → length (fill i n) ≡ n
unfolding fill
length-fill i zero = refl
length-fill i (suc n) = ap suc (length-fill (i + 1) n)

pub length-response_buf : (n : ℕ) → length (response_buf n) ≡ n
unfolding response_buf
length-response_buf n = length-fill 0 n

-- `k` responses, one after another.
unfoldable pub copies : ℕ → ℕ → List ℕ
copies size zero = []
copies size (suc k) = response_buf size ++ copies size k

pub copies_pred : (size k : ℕ) → 0 < k → copies size k ≡ response_buf size ++ copies size (k - 1)
unfolding copies
copies_pred size zero h = absurd (omega arith)
copies_pred size (suc k) h = let e : suc k - 1 ≡ k = omega arith in rw e

pub mul_pred : (k m : ℕ) → 0 < k → k * m ≡ (k - 1) * m + m
mul_pred zero m h = absurd (omega arith)
mul_pred (suc k) m h = let e : suc k - 1 ≡ k = omega arith in rw e (omega arith)

-- What a connection has still to send: the rest of the response begun, and the others.
unfoldable pub owed : ℕ → Connection → List ℕ
owed size c = drop c.response_pos (response_buf size) ++ copies size c.response_cnt

-- `enable_epollout` is on exactly when something is owed.
abbrev pub IsArmed : {W : Type 0} → ℕ → State W → Type 0
IsArmed size s = s.enable_epollout ≡ ltb 0 (pending size s.conn)

-- Whether the last control call succeeded, what the last successful one registered, and the member.
abbrev pub control : {W : Type 0} → State W → Bool × ℕ × Bool
control s = (s.ctl_ok, s.interest, s.enable_epollout)

-- What sending does: what went out is the front of what was owed; the input side is left alone.
pub record Pays {W : Type 0} (size : ℕ) (s t : State W) : Type 0 where
  pub stream : t.tx ++ owed size t.conn ≡ s.tx ++ owed size s.conn
  pub within : t.response_pos ≤ size
  pub same_rx : t.rx ≡ s.rx
  pub same_buf : t.buf ≡ s.buf
  pub turns : Turns (control s) (control t)

-- A sending method ends; if it does not fail, `enable_epollout` is as it must be.
abbrev pub Ends : {W : Type 0} → ℕ → State W → Exit × State W → Type 0
Ends size s (x, t) = Pays size s t × (x ≢ exhausted) × ((n : ℕ) → x ≡ done n → IsArmed size t)
