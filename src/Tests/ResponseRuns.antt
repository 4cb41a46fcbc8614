-- ===== src/Tests/ResponseRuns.antt =====
-- The responding connection of server_epollout_response.cpp, with responses of 4 bytes.
use linux_programming.Prelude.{◌≡◌, refl, true, false, [], ◌∷◌, arith, replicate, inl, inr}
use linux_programming.Kernel.{ret}
use linux_programming.Kernel.Scripted.{Script, scripted}
use linux_programming.Ring
use linux_programming.Ring.Memory
use linux_programming.Ring.{distance}
use linux_programming.Echo.Control.{Registers}
use linux_programming.Response
use linux_programming.Response.Calls.{State, done}
use linux_programming.Response.Stream.{IsArmed, Ends}
use linux_programming.Response.Send.{send_response-Ends}
use linux_programming.Response.Requests.{IsResponding}
use linux_programming.Response.Handle.{Responds, handle-Responds, construct-Responds}

-- A request comes in, of which the response goes out in two parts.
abbrev script : Script
script = ret (replicate 9 1) ∷ ret (0 ∷ []) ∷ ret (0 ∷ 0 ∷ 0 ∷ []) ∷ []

abbrev start : State Script
start = Response.construct scripted 4 5 3 (replicate 64 0) script

start_at_rest : IsResponding 4 start × IsArmed 4 start
start_at_rest = construct-Responds scripted 4 (omega arith) 5 3 (replicate 64 0) script refl

construct-Responds_example : IsResponding 4 start × IsArmed 4 start
construct-Responds_example =
    construct-Responds scripted 4 (omega arith) 5 3 (replicate 64 0) script refl

handle-Responds_example : Responds 4 (Response.handle scripted 4 1 start)
handle-Responds_example =
    handle-Responds scripted 4 (omega arith) 1 start start_at_rest.0 start_at_rest.1

one_response :
    let (x, t) = Response.handle scripted 4 1 start in
    (x ≡ done 0) × (t.tx ≡ 0 ∷ 1 ∷ 2 ∷ 3 ∷ []) × (t.enable_epollout ≡ false)
unfolding Response.construct Response.handle Response.handle_read Response.recv_request
    Response.serve_requests Response.recv_buf Response.recv_done Response.received
    Response.count_received Response.take_requests Response.send_response Response.send_loop
    Response.send_round Response.next_response Response.send_step Response.after_send
    Response.advance Response.turn Response.set_epollout Response.response_buf Ring.init
    Ring.get_blank_size Ring.get_exist_size Ring.get_blank_iovec Ring.add_exist Ring.add_blank
    Memory.scatter Memory.write_at Memory.total_len
one_response = (refl, refl, refl)

-- A connection that owes two responses, the first of them half sent.
abbrev owing : State Script
owing = record {
  conn = record {
    fd = 5;
    epfd = 3;
    buf = record { f = 0; p = 0; buf = replicate 64 0 };
    response_cnt = 1;
    response_pos = 2;
    enable_epollout = true;
  };
  world = ret (0 ∷ []) ∷ [];
  rx = [];
  tx = [];
  interest = 5;
  ctl_ok = true;
}

send_response-Ends_example :
    let o = Response.send_response scripted 4 owing in
    Ends 4 owing o × Registers o.1.ctl_ok o.1.interest o.1.enable_epollout
send_response-Ends_example =
    send_response-Ends scripted 4 (omega arith) owing (omega arith) (inl refl) (inr refl)
