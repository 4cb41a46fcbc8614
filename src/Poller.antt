-- ===== src/Poller.antt =====
-- class Poller of network/tcp_echo/server_poll_handle.cpp: the table of descriptors for poll(2) and
-- the handler of each. `pfds` holds the first `num` entries of the array, and a descriptor of -1 is
-- `none`. A handler is its address. What `show_fds` prints is left out.
pub mod Table
pub mod Slots
pub mod Sweep
use linux_programming.Prelude.{
  ℕ, zero, suc, ◌+◌, Bool, true, false, Option, none, some, List, [], ◌∷◌, ◌++◌, length, ◌==◌, leb,
  ◌||◌, if◌then◌else◌, update,
}

pub record Pollfd : Type 0 where
  pub fd : Option ℕ
  pub events : ℕ
  pub revents : ℕ

pub record Poller : Type 0 where
  pub pfds : List Pollfd
  pub handlers : ℕ → Option ℕ

abbrev pub max_fds : ℕ
max_fds = 4096

abbrev pub fd_range : ℕ
fd_range = 4096

abbrev pub num : Poller → ℕ
num p = length p.pfds

-- The constructor.
abbrev pub new_poller : Poller
new_poller = record { pfds = []; handlers = λ fd. none }

-- A call returns 0 or -1, or writes behind the end of `pfds`, which nothing in the code prevents.
pub data Outcome : Type 0 where
  done refused overflow : Outcome

-- `pfds[i].fd == fd`
abbrev pub is_fd : ℕ → Option ℕ → Bool
is_fd fd none = false
is_fd fd (some k) = k == fd

-- The loops of `add_fd` and `remove_fd` find an entry.
unfoldable pub has : ℕ → List Pollfd → Bool
has fd [] = false
has fd (x ∷ xs) = is_fd fd x.fd || has fd xs

unfoldable pub add_fd : (fd events : ℕ) → Option ℕ → Poller → Outcome × Poller
add_fd fd events handler p =
    if leb fd_range fd || has fd p.pfds
    then (refused, p)
    else if leb max_fds (num p)
    then (overflow, p)
    else (
      done,
      record {
        pfds = p.pfds ++ (record { fd = some fd; events = events; revents = 0 } ∷ []);
        handlers = update p.handlers fd handler;
      },
    )

-- The first entry that holds `fd` is set to -1.
unfoldable pub clear : ℕ → List Pollfd → List Pollfd
clear fd [] = []
clear fd (x ∷ xs) = if is_fd fd x.fd then record x { fd = none } ∷ xs else x ∷ clear fd xs

unfoldable pub remove_fd : ℕ → Poller → Outcome × Poller
remove_fd fd p =
    if has fd p.pfds
    then (done, record { pfds = clear fd p.pfds; handlers = update p.handlers fd none })
    else (refused, p)

-- A call of one of the two.
pub data Call : Type 0 where
  add : (fd events : ℕ) → Option ℕ → Call
  remove : ℕ → Call

unfoldable pub call : Call → Poller → Outcome × Poller
call (add fd events handler) p = add_fd fd events handler p
call (remove fd) p = remove_fd fd p

-- Calls in a row; `none` if one of them writes behind the end of the array.
unfoldable pub go_on : (Poller → Option Poller) → Outcome × Poller → Option Poller
go_on k (done, p) = k p
go_on k (refused, p) = k p
go_on k (overflow, p) = none

unfoldable pub calls : List Call → Poller → Option Poller
calls [] p = some p
calls (c ∷ cs) p = go_on (calls cs) (call c p)
