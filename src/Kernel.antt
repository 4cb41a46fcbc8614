-- ===== src/Kernel.antt =====
-- The system calls that the programs under network/tcp_echo make, as an interface: the code of the
-- kernel is not in the repository. An implementation has a state of its own, the `World`, and the
-- laws say what send(2), recv(2) and their vector forms document of the counts that they return.
pub mod Scripted
use linux_programming.Prelude.{ℕ, ◌≤◌, ◌<◌, ◌≡◌, Bool, Option, List, ◌∷◌, length}

-- What a call on a non-blocking descriptor returns: a result, -1 with errno EAGAIN or EWOULDBLOCK,
-- or -1 with another errno.
pub data Reply (A : Type 0) : Type 0 where
  ret : A → Reply A
  again : Reply A
  fail : Reply A

pub data CtlOp : Type 0 where
  add modify del : CtlOp

-- <sys/epoll.h>
abbrev pub epollin : ℕ
epollin = 0x001

abbrev pub epollout : ℕ
epollout = 0x004

abbrev pub epollerr : ℕ
epollerr = 0x008

-- A receiving call returns the bytes that it took from the socket; none of them is the end of the
-- stream, for which the call returns 0.
pub record Kernel : Type 1 where
  pub World : Type 0
  pub send : (fd : ℕ) → List ℕ → World → Reply ℕ × World
  pub sendmsg : (fd : ℕ) → List ℕ → World → Reply ℕ × World
  pub recv : (fd count : ℕ) → World → Reply (List ℕ) × World
  pub recvmsg : (fd count : ℕ) → World → Reply (List ℕ) × World
  pub epoll_ctl : (epfd : ℕ) → CtlOp → (fd events : ℕ) → World → Bool × World
  pub accept4 : (fd : ℕ) → World → Option ℕ × World
  pub close : (fd : ℕ) → World → World
  pub send_bound :
      (fd : ℕ) (bs : List ℕ) (w : World) (n : ℕ) → (send fd bs w).0 ≡ ret n → n ≤ length bs
  pub sendmsg_bound :
      (fd : ℕ) (bs : List ℕ) (w : World) (n : ℕ) → (sendmsg fd bs w).0 ≡ ret n → n ≤ length bs
  pub recv_bound :
      (fd count : ℕ) (w : World) (bs : List ℕ) → (recv fd count w).0 ≡ ret bs → length bs ≤ count
  pub recvmsg_bound :
      (fd count : ℕ) (w : World) (bs : List ℕ) → (recvmsg fd count w).0 ≡ ret bs → length bs ≤ count

-- What bounds the loops that receive until nothing is left: the clients send finitely many times.
-- `supply` bounds how often bytes may still be received. It is a hypothesis of the theorems that
-- need it, and no law of the kernel.
pub record IsFinite (K : Kernel) : Type 0 where
  pub supply : K.World → ℕ
  pub recv_uses :
      (fd count : ℕ) (w : K.World) (b : ℕ) (bs : List ℕ)
      → (K.recv fd count w).0 ≡ ret (b ∷ bs)
      → supply (K.recv fd count w).1 < supply w
  pub recv_keeps : (fd count : ℕ) (w : K.World) → supply (K.recv fd count w).1 ≤ supply w
  pub send_keeps : (fd : ℕ) (bs : List ℕ) (w : K.World) → supply (K.send fd bs w).1 ≤ supply w
  pub ctl_keeps :
      (epfd : ℕ) (op : CtlOp) (fd events : ℕ) (w : K.World)
      → supply (K.epoll_ctl epfd op fd events w).1 ≤ supply w
  pub accept_keeps : (fd : ℕ) (w : K.World) → supply (K.accept4 fd w).1 ≤ supply w
  pub close_keeps : (fd : ℕ) (w : K.World) → supply (K.close fd w) ≤ supply w
