-- ===== src/Tests/EchoRuns.antt =====
-- The echo connection of server_epollout_handle.cpp, run on a scripted kernel.
use linux_programming.Prelude.{
  ℕ, inr, ◌≡◌, ◌-◌, ◌^◌, refl, true, false, some, List, [], ◌∷◌, ◌++◌, arith, replicate, sym,
}
use linux_programming.Kernel.{ret}
use linux_programming.Kernel.Scripted.{Script, scripted}
use linux_programming.Ring.{
  RingBuffer, Iovec, max_pkt_size, distance, get_blank_size, get_exist_size, get_blank_iovec,
  get_exist_iovec, add_blank, add_exist,
}
use linux_programming.Ring.Memory.{gather, scatter, total_len}
use linux_programming.Ring.Bounds.{IsValid, Covers, blank_iovec-Covers}
use linux_programming.Ring.Fifo.{contents, contents-add_exist}
use linux_programming.Echo
use linux_programming.Echo.Calls
use linux_programming.Ring
use linux_programming.Ring.Memory
use linux_programming.Echo.Calls.{State}
use linux_programming.Echo.Receive.{IsEcho}
use linux_programming.Echo.Handle.{Serves, handle-Serves, construct-Serves}

abbrev zeros : List ℕ
zeros = replicate 64 0

-- Both positions have wrapped round the ring: the contents are 10, 11, 12 at indices 62, 63 and 0.
abbrev wrapped : RingBuffer
wrapped = record { f = 2 ^ 64 - 2; p = 1; buf = 12 ∷ replicate 61 0 ++ (10 ∷ 11 ∷ []) }

wrapped-IsValid : IsValid wrapped
wrapped-IsValid = omega arith

contents-wrapped : contents wrapped ≡ 10 ∷ 11 ∷ 12 ∷ []
unfolding contents linux_programming.Ring.Memory.ring_bytes
contents-wrapped = refl

blank_iovec-Covers_example :
    Covers 1 (get_blank_iovec wrapped) × (total_len (get_blank_iovec wrapped) ≡ 60)
blank_iovec-Covers_example = blank_iovec-Covers wrapped wrapped-IsValid

contents-add_exist_example :
    contents (
      add_exist 2
        (record wrapped { buf = scatter wrapped.buf (get_blank_iovec wrapped) (7 ∷ 8 ∷ []) }))
    ≡ contents wrapped ++ (7 ∷ 8 ∷ [])
contents-add_exist_example =
    contents-add_exist wrapped (get_blank_iovec wrapped) (7 ∷ 8 ∷ []) wrapped-IsValid
      (blank_iovec-Covers wrapped wrapped-IsValid).0
      (omega (arith, (blank_iovec-Covers wrapped wrapped-IsValid).1)) (omega arith)

-- Five bytes come in, and three go out.
abbrev script : Script
script = ret (1 ∷ 2 ∷ 3 ∷ 4 ∷ 5 ∷ []) ∷ ret (0 ∷ 0 ∷ 0 ∷ []) ∷ []

abbrev start : State Script
start = Echo.construct scripted 5 3 zeros script

construct-Serves_example : Serves (some 0, start)
construct-Serves_example = construct-Serves scripted 5 3 zeros script refl

handle-Serves_example : Serves (Echo.handle scripted 1 start)
handle-Serves_example =
    handle-Serves scripted 1 start (construct-Serves scripted 5 3 zeros script refl).0
      ((construct-Serves scripted 5 3 zeros script refl).1 0 refl)

partial_send :
    let (o, t) = Echo.handle scripted 1 start in
    (o ≡ some 0) × (t.tx ≡ 1 ∷ 2 ∷ 3 ∷ []) × (t.enable_epollout ≡ true)
unfolding Echo.construct Echo.handle Echo.handle_read Echo.handle_write Echo.recv_buf_native
    Echo.recv_iovs Echo.recv_step Echo.count_received Echo.send_buf Echo.send_buf_native
    Echo.send_iovs Echo.send_step Echo.count_sent Echo.update_epollout Echo.set_epollout
    Calls.received Calls.sent Calls.with_buf Ring.init Ring.get_blank_size Ring.get_exist_size
    Ring.get_blank_iovec Ring.get_exist_iovec Ring.add_exist Ring.add_blank Memory.scatter
    Memory.write_at Memory.total_len
partial_send = (refl, refl, refl)

-- A connection whose ring holds three bytes on both sides of its end.
abbrev waiting : State Script
waiting = record {
  conn = record { fd = 5; epfd = 3; buf = wrapped; enable_epollout = false };
  world = script;
  rx = 10 ∷ 11 ∷ 12 ∷ [];
  tx = [];
  interest = 1;
  ctl_ok = true;
}

waiting-IsEcho : IsEcho waiting
waiting-IsEcho = record {
  valid = wrapped-IsValid;
  balance = sym contents-wrapped;
  registers = inr refl;
}
