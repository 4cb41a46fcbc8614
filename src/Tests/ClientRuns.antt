-- ===== src/Tests/ClientRuns.antt =====
-- client_epoll_verify.cpp, run on a scripted kernel with packets of two numbers.
use linux_programming.Prelude.{ℕ, ◌<◌, ◌≡◌, refl, some, List, [], ◌∷◌, arith}
use linux_programming.Kernel.{ret}
use linux_programming.Kernel.Scripted.{Script}
use linux_programming.Ring.Memory.{write_at, slice}
use linux_programming.Transfer.{sent, send_loop, send_full}
use linux_programming.Tests.TransferRuns.{eager, eager-IsEager}
use linux_programming.Client.{
  Connection, bytes_of, word_of, fill_words, check_words, prepare, count_sent, send, received,
}
use linux_programming.Client.Words.{AllBytes}
use linux_programming.Client.Checks.{IsSized, echo-clean}

abbrev blank : List ℕ
blank = 0 ∷ 0 ∷ 0 ∷ 0 ∷ 0 ∷ 0 ∷ 0 ∷ 0 ∷ 0 ∷ 0 ∷ 0 ∷ 0 ∷ 0 ∷ 0 ∷ 0 ∷ 0 ∷ []

abbrev one_two : List ℕ
one_two = 1 ∷ 0 ∷ 0 ∷ 0 ∷ 0 ∷ 0 ∷ 0 ∷ 0 ∷ 2 ∷ 0 ∷ 0 ∷ 0 ∷ 0 ∷ 0 ∷ 0 ∷ 0 ∷ []

-- The buffer that holds 1 and 2 counts no error against 1, and two against 0.
checked : check_words 2 0 one_two (1, 5) ≡ (3, 5)
unfolding check_words word_of slice
checked = refl

checked_wrong : check_words 2 0 one_two (0, 5) ≡ (2, 7)
unfolding check_words word_of slice
checked_wrong = refl

-- The buffer whose second byte is not 0 does not hold 7.
abbrev odd : List ℕ
odd = 7 ∷ 1 ∷ 0 ∷ 0 ∷ 0 ∷ 0 ∷ 0 ∷ 0 ∷ []

odd-AllBytes : AllBytes odd
odd-AllBytes =
    let z : 0 < 256 = omega arith in (omega arith, (omega arith, (z, (z, (z, (z, (z, (z, tt))))))))

abbrev fresh : Script → Connection Script
fresh w = record {
  fd = 6;
  pkt_size = 16;
  tx_buf = blank;
  rx_buf = blank;
  tracer = record { tx_pkt = 0; rx_pkt = 0; tx_byte = 0; rx_byte = 0 };
  tx_seq = 1;
  rx_seq = 1;
  err_cnt = 0;
  link = record { world = w; rx = []; tx = []; stops = 0 };
}

fresh-IsSized : (w : Script) → IsSized 2 (fresh w)
fresh-IsSized w = record { numbers = refl; tx_room = omega arith; rx_room = omega arith }

-- The kernel takes three bytes, and then the other thirteen.
abbrev in_parts : Script
in_parts = ret (0 ∷ 0 ∷ []) ∷ ret blank ∷ []

abbrev sent_all : Connection Script
sent_all = record {
  fd = 6;
  pkt_size = 16;
  tx_buf = one_two;
  rx_buf = blank;
  tracer = record { tx_pkt = 1; rx_pkt = 0; tx_byte = 16; rx_byte = 0 };
  tx_seq = 3;
  rx_seq = 1;
  err_cnt = 0;
  link = record { world = []; rx = []; tx = one_two; stops = 0 };
}

ran : send eager (fresh in_parts) ≡ some sent_all
unfolding send prepare fill_words bytes_of write_at count_sent send_full send_loop sent
ran = refl

echo-clean_example :
    let (a, e) = received eager (ret one_two) sent_all in
    (a ≡ some 16) × (e.err_cnt ≡ 0) × (e.rx_seq ≡ e.tx_seq)
echo-clean_example =
    echo-clean eager eager-IsEager 2 (fresh in_parts) (fresh-IsSized in_parts) (omega arith)
      (omega arith) refl sent_all one_two ran refl refl
