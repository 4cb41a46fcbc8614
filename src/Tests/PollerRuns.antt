-- ===== src/Tests/PollerRuns.antt =====
-- class Poller, run on a table of two entries.
use linux_programming.Prelude.{ℕ, ◌<◌, ◌≡◌, refl, Option, none, some, List, [], ◌∷◌, arith, update}
use linux_programming.Poller.{
  Poller, max_fds, fd_range, new_poller, refused, overflow, has, add_fd, Call, add, remove, calls,
}
use linux_programming.Poller.Table.{count}
use linux_programming.Poller.Slots.{
  IsValid, adds, new_poller-IsValid, calls-IsValid, churn, churn-overflow,
}
use linux_programming.Kernel.{ret}
use linux_programming.Kernel.Scripted.{Script, scripted}
use linux_programming.Poller.Sweep.{
  Server, sent, send_back, echo, handle, finish, call_handler, dispatch, entered, accepted,
  handle_accept, quiet, visit, and_on, sweep_from, sweep, wild,
}
use linux_programming.Poller.Sweep.Objects.{Serves}
use linux_programming.Poller.Sweep.Serves.{sweep-Sweeps}

abbrev listening : Poller
listening = record {
  pfds = record { fd = some 4; events = 1; revents = 0 } ∷ [];
  handlers = λ fd. none;
}

abbrev both : Poller
both = record {
  pfds =
      record { fd = some 4; events = 1; revents = 0 }
      ∷ record { fd = some 7; events = 1; revents = 0 }
      ∷ [];
  handlers = update listening.handlers 7 (some 99);
}

abbrev gone : Poller
gone = record {
  pfds =
      record { fd = some 4; events = 1; revents = 0 }
      ∷ record { fd = none; events = 1; revents = 0 }
      ∷ [];
  handlers = update both.handlers 7 none;
}

added_twice : (add_fd 7 1 (some 98) both).0 ≡ refused
unfolding add_fd has
added_twice = refl

abbrev session : List Call
session = add 4 1 none ∷ add 7 1 (some 99) ∷ remove 7 ∷ []

calls-IsValid_example : (q : Poller) × (calls session new_poller ≡ some q) × IsValid q
unfolding adds
calls-IsValid_example = calls-IsValid session new_poller new_poller-IsValid (omega arith)

churn-overflow_example :
    (q : Poller) × (calls (churn 7 max_fds) new_poller ≡ some q)
    × ((k : ℕ) → count k q.pfds ≡ 0)
    × ((k events : ℕ) (handler : Option ℕ)
        → k < fd_range
        → (add_fd k events handler q).0 ≡ overflow)
churn-overflow_example = churn-overflow 7 (omega arith)

-- poll(2) has reported a client on the listening socket 4, and bytes on the connection 7.
abbrev reported : Poller
reported = record {
  pfds =
      record { fd = some 4; events = 1; revents = 1 }
      ∷ record { fd = some 7; events = 1; revents = 1 }
      ∷ [];
  handlers = update listening.handlers 7 (some 99);
}

abbrev crowd : Server Script
crowd = record {
  poller = reported;
  objects = update (λ a. none) 99 (some (record { fd = 7; rx = []; tx = [] }));
  next = 100;
  world = ret (8 ∷ []) ∷ ret (1 ∷ 2 ∷ []) ∷ ret (0 ∷ 0 ∷ []) ∷ [];
}

crowd-Serves : Serves 4 crowd
unfolding count
crowd-Serves = record {
  table = record {
    once = λ fd. ground arith;
    in_range = λ fd h. ground arith;
    no_stale = λ fd z. ground arith;
    bounded = omega arith;
  };
  listens = ground arith;
  no_handler = ground arith;
  reached = λ fd h ne. (99, record { fd = 7; rx = []; tx = [] }, ground arith, refl, ground arith);
  fresh = λ a l. ground arith;
}

-- The client is accepted on 8, and the bytes are sent back.
abbrev swept_crowd : Server Script
swept_crowd = record {
  poller = record {
    pfds =
        record { fd = some 4; events = 1; revents = 0 }
        ∷ record { fd = some 7; events = 1; revents = 0 }
        ∷ record { fd = some 8; events = 1; revents = 0 }
        ∷ [];
    handlers = update reported.handlers 8 (some 100);
  };
  objects =
      update (update crowd.objects 100 (some (record { fd = 8; rx = []; tx = [] }))) 99
        (some (record { fd = 7; rx = 1 ∷ 2 ∷ []; tx = 1 ∷ 2 ∷ [] }));
  next = 101;
  world = [];
}

sweep-Sweeps_example : Serves 4 swept_crowd
unfolding sweep_from and_on visit quiet handle_accept accepted entered add_fd has dispatch
    call_handler handle echo send_back sent finish
sweep-Sweeps_example =
    sweep-Sweeps scripted 4 crowd crowd-Serves ((λ z. absurd (cc z)), ((λ z. absurd (cc z)), tt))

-- poll(2) has reported only POLLERR of the listening socket 4: its handler, which is NULL, is called.
listener_failed :
    sweep scripted 4 (record crowd {
      poller = record reported { pfds = record { fd = some 4; events = 1; revents = 8 } ∷ [] };
    })
    ≡ wild
unfolding sweep_from and_on visit quiet dispatch call_handler
listener_failed = refl
