-- ===== src/Kernel/Scripted.antt =====
-- A kernel that reads its replies from a script, for tests and witnesses: a receiving call takes
-- the bytes of the next reply as far as they fit, a sending call takes as many bytes as the next
-- reply holds, and every control call succeeds. A script that has run out answers EAGAIN.
use linux_programming.Prelude.{
  ℕ, ◌≤◌, ◌<◌, ◌≡◌, true, Option, none, some, List, [], ◌∷◌, arith, length, take, min, length-take,
}
use linux_programming.Kernel.{Reply, ret, again, fail, Kernel, IsFinite}

abbrev pub Script : Type 0
Script = List (Reply (List ℕ))

abbrev pub recv_reply : ℕ → Script → Reply (List ℕ) × Script
recv_reply count [] = (again, [])
recv_reply count (ret bs ∷ w) = (ret (take count bs), w)
recv_reply count (again ∷ w) = (again, w)
recv_reply count (fail ∷ w) = (fail, w)

abbrev pub send_reply : List ℕ → Script → Reply ℕ × Script
send_reply msg [] = (again, [])
send_reply msg (ret bs ∷ w) = (ret (min (length bs) (length msg)), w)
send_reply msg (again ∷ w) = (again, w)
send_reply msg (fail ∷ w) = (fail, w)

-- The descriptor of an accepted connection is the first byte of the reply.
abbrev pub accept_reply : Script → Option ℕ × Script
accept_reply (ret (fd ∷ bs) ∷ w) = (some fd, w)
accept_reply w = (none, w)

pub recv_reply_bound :
    (count : ℕ) (w : Script) (bs : List ℕ) → (recv_reply count w).0 ≡ ret bs → length bs ≤ count
recv_reply_bound count [] bs e = ground arith
recv_reply_bound count (ret cs ∷ w) bs e = ground (arith, length-take count cs)
recv_reply_bound count (again ∷ w) bs e = ground arith
recv_reply_bound count (fail ∷ w) bs e = ground arith

pub send_reply_bound :
    (msg : List ℕ) (w : Script) (n : ℕ) → (send_reply msg w).0 ≡ ret n → n ≤ length msg
send_reply_bound msg [] n e = ground arith
send_reply_bound msg (ret cs ∷ w) n e = ground arith
send_reply_bound msg (again ∷ w) n e = ground arith
send_reply_bound msg (fail ∷ w) n e = ground arith

abbrev pub scripted : Kernel
scripted = record {
  World = Script;
  send = λ fd bs w. send_reply bs w;
  sendmsg = λ fd bs w. send_reply bs w;
  recv = λ fd count w. recv_reply count w;
  recvmsg = λ fd count w. recv_reply count w;
  epoll_ctl = λ epfd op fd events w. (true, w);
  accept4 = λ fd w. accept_reply w;
  close = λ fd w. w;
  send_bound = λ fd bs w n. send_reply_bound bs w n;
  sendmsg_bound = λ fd bs w n. send_reply_bound bs w n;
  recv_bound = λ fd count w bs. recv_reply_bound count w bs;
  recvmsg_bound = λ fd count w bs. recv_reply_bound count w bs;
}

-- A script ends.
pub recv_reply-uses :
    (count : ℕ) (w : Script) (b : ℕ) (bs : List ℕ)
    → (recv_reply count w).0 ≡ ret (b ∷ bs)
    → length (recv_reply count w).1 < length w
recv_reply-uses count [] b bs e = ground arith
recv_reply-uses count (ret cs ∷ w) b bs e = omega arith
recv_reply-uses count (again ∷ w) b bs e = omega arith
recv_reply-uses count (fail ∷ w) b bs e = omega arith

pub recv_reply-keeps : (count : ℕ) (w : Script) → length (recv_reply count w).1 ≤ length w
recv_reply-keeps count [] = omega arith
recv_reply-keeps count (ret cs ∷ w) = omega arith
recv_reply-keeps count (again ∷ w) = omega arith
recv_reply-keeps count (fail ∷ w) = omega arith

pub send_reply-keeps : (msg : List ℕ) (w : Script) → length (send_reply msg w).1 ≤ length w
send_reply-keeps msg [] = omega arith
send_reply-keeps msg (ret cs ∷ w) = omega arith
send_reply-keeps msg (again ∷ w) = omega arith
send_reply-keeps msg (fail ∷ w) = omega arith

pub accept_reply-keeps : (w : Script) → length (accept_reply w).1 ≤ length w
accept_reply-keeps [] = omega arith
accept_reply-keeps (ret [] ∷ w) = omega arith
accept_reply-keeps (ret (fd ∷ bs) ∷ w) = omega arith
accept_reply-keeps (again ∷ w) = omega arith
accept_reply-keeps (fail ∷ w) = omega arith

abbrev pub scripted-IsFinite : IsFinite scripted
scripted-IsFinite = record {
  supply = λ w. length w;
  recv_uses = λ fd count w b bs. recv_reply-uses count w b bs;
  recv_keeps = λ fd count w. recv_reply-keeps count w;
  send_keeps = λ fd bs w. send_reply-keeps bs w;
  ctl_keeps = λ epfd op fd events w. omega arith;
  accept_keeps = λ fd w. accept_reply-keeps w;
  close_keeps = λ fd w. omega arith;
}
