-- ===== src/PerConnection.antt =====
-- network/tcp_echo/server.cpp and client.cpp, which have a thread for each connection. The thread of the
-- server sends back with send_full what each `recv` returns; the thread of the client sends a packet and
-- waits for as many bytes. The descriptors block.
pub mod Echoes
pub mod Requests
pub mod Accepts
use linux_programming.Prelude.{
  ℕ, zero, suc, ◌+◌, ◌<◌, ◌≡◌, Option, none, some, List, [], ◌∷◌, ◌++◌, length, replicate, get_or,
  set, ltb, ◌%◌, if◌then◌else◌,
}
use linux_programming.Kernel.{Reply, ret, again, fail, Kernel}
use linux_programming.Transfer.{Link, send_full, recv_full}

abbrev pub buf_size : ℕ
buf_size = 4096

module _ (K : Kernel) where
  open K use {World, recv, close, accept4}

  -- `if (send_len < recv_len) break;`. `none` is fuel used up.
  unfoldable pub after_send :
      (Link World → Option (Link World)) → ℕ → Option ℕ × Link World → Option (Link World)
  after_send continue recv_len (none, t) = none
  after_send continue recv_len (some send_len, t) =
      if ltb send_len recv_len then some t else continue t

  -- The body of the loop of `worker` in server.cpp, after `recv`.
  unfoldable pub received :
      (Link World → Option (Link World))
      → ℕ
      → Reply (List ℕ)
      → World
      → Link World
      → Option (Link World)
  received continue fd (ret []) w s = some (record s { world = w })
  received continue fd (ret (b ∷ bs)) w s =
      after_send continue (length (b ∷ bs))
        (send_full K fd (b ∷ bs) (record s { world = w; rx = s.rx ++ (b ∷ bs) }))
  received continue fd again w s = some (record s { world = w })
  received continue fd fail w s = some (record s { world = w })

  unfoldable pub echo_loop : (fuel fd : ℕ) → Link World → Option (Link World)
  echo_loop zero fd s = none
  echo_loop (suc fuel) fd s =
      let (r, w) = recv fd buf_size s.world in received (echo_loop fuel fd) fd r w s

  unfoldable pub closed : ℕ → Option (Link World) → Option (Link World)
  closed fd none = none
  closed fd (some t) = some (record t { world = close fd t.world })

  -- `worker` of server.cpp
  unfoldable pub worker : (fuel fd : ℕ) → Link World → Option (Link World)
  worker fuel fd s = closed fd (echo_loop fuel fd s)

  -- One request of `worker` in client.cpp: `send_len` and `recv_len`.
  unfoldable pub request : (fd : ℕ) → List ℕ → Link World → (Option ℕ × Option ℕ) × Link World
  request fd send_buf s =
      let (send_len, t) = send_full K fd send_buf s in
      let (recv_len, u) = recv_full K fd (length send_buf) t in ((send_len, recv_len), u)

  -- `if (recv_len < send_len) break;`
  unfoldable pub after_request :
      (Link World → Option (Link World)) → (Option ℕ × Option ℕ) × Link World → Option (Link World)
  after_request continue ((none, recv_len), t) = none
  after_request continue ((some send_len, none), t) = none
  after_request continue ((some send_len, some recv_len), t) =
      if ltb recv_len send_len then some t else continue t

  -- The loop over `request_num`.
  unfoldable pub request_loop : (request_num fd : ℕ) → List ℕ → Link World → Option (Link World)
  request_loop zero fd send_buf s = some s
  request_loop (suc n) fd send_buf s =
      after_request (request_loop n fd send_buf) (request fd send_buf s)

  -- `worker` of client.cpp: every byte of `send_buf` is `fd`, as a char.
  unfoldable pub client : (request_num size fd : ℕ) → Link World → Option (Link World)
  client request_num size fd s =
      closed fd (request_loop request_num fd (replicate size (fd % 256)) s)

  -- The variables of `main` in server.cpp, and the addresses in sock_fds that the threads were given. A
  -- descriptor is `none` for -1.
  pub record Table : Type 0 where
    pub sock_fds : List (Option ℕ)
    pub sock_num : ℕ
    pub threads : List ℕ
    pub world : World

  -- The body of the loop of `main` in server.cpp. `none` is a store past the end of sock_fds.
  unfoldable pub accept_one : (fd : ℕ) → Table → Option Table
  accept_one fd s =
      let (conn, w) = accept4 fd s.world in
      if ltb s.sock_num (length s.sock_fds)
      then some (record {
        sock_fds = set s.sock_fds s.sock_num conn;
        sock_num = s.sock_num + 1;
        threads = s.threads ++ (s.sock_num ∷ []);
        world = w;
      })
      else none

  unfoldable pub accept_many : (count fd : ℕ) → Table → Option Table
  accept_many zero fd s = some s
  accept_many (suc n) fd s = elim (accept_one fd s) [ none ↦ none | some t ↦ accept_many n fd t ]

  -- The globals of server.cpp; `max_conns` is a parameter.
  unfoldable pub new_table : (max_conns : ℕ) → World → Table
  new_table max_conns w = record {
    sock_fds = replicate max_conns (some 0);
    sock_num = 0;
    threads = [];
    world = w;
  }
