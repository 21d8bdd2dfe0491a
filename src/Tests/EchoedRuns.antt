-- ===== src/Tests/EchoedRuns.antt =====
-- The request of a load client comes back from a server.
use linux_system_programing.Prelude.{
  ℕ, zero, suc, ◌≡◌, refl, subst, List, [], ◌∷◌, ◌++◌, replicate, length-replicate, some, arith,
}
use linux_system_programing.Kernel.{Received, bytes, took}
use linux_system_programing.Lines.{newline}
use linux_system_programing.Echo.Client.{
  Client, init_client, handle_recv, handle_send, ok, scan, move_line, echo_lines, fill,
  append_received, take_in, advance,
}
use linux_system_programing.Bytes.{blit}
use linux_system_programing.Echo.Views.{queued}
use linux_system_programing.Echo.Send.{accepted, Takes}
use linux_system_programing.Echo.Stream.{Stream, start, received, sent}
use linux_system_programing.Stress.Client as Load
use linux_system_programing.Stress.Request.{prepare_request, request_text, digits}
use linux_system_programing.Stress.Handlers
use linux_system_programing.Stress.Receiving.{asked, Completed, Ends}
use linux_system_programing.Stress.Echoed.{request-echoed}

abbrev idle : Load.Client
idle = record {
  fd = some 5;
  id = 0;
  state = Load.ClientState.done;
  send_buf = replicate 256 0;
  send_len = 0;
  send_offset = 0;
  recv_buf = replicate 256 0;
  recv_len = 0;
  current_request_start_ns = 0;
  request_completed = 0;
  request_failed = 0;
  last_errno = 0;
}

abbrev request : List ℕ
request = b'b' ∷ b'e' ∷ b'n' ∷ b'c' ∷ b'h' ∷ b'-' ∷ b'0' ∷ b'-' ∷ b'7' ∷ newline ∷ []

-- The server gets the request in one piece, and sends it in one.
abbrev fed : Client
fed = (handle_recv (bytes request) init_client).0

abbrev drained : Client
drained = (handle_send (took 10) fed).0

fed_ok : handle_recv (bytes request) init_client ≡ (fed, ok)
unfolding handle_recv init_client take_in echo_lines fill append_received blit scan move_line
fed_ok = refl

all_taken : Takes (took 10) fed
unfolding handle_recv init_client take_in echo_lines fill append_received blit scan move_line
all_taken = omega arith

drained_ok : handle_send (took 10) fed ≡ (drained, ok)
unfolding handle_recv handle_send init_client take_in echo_lines fill append_received blit scan
    move_line
drained_ok = refl

nothing_left : queued drained ≡ []
unfolding handle_recv handle_send init_client take_in echo_lines fill append_received blit scan
    move_line advance
nothing_left = refl

all_sent : request ≡ [] ++ accepted (took 10) fed
unfolding handle_recv init_client take_in echo_lines fill append_received blit scan move_line
all_sent = refl

asked_request : [] ++ request ≡ asked (prepare_request 7 7 idle).0
unfolding prepare_request request_text digits blit
asked_request = refl

run : Stream init_client (asked (prepare_request 7 7 idle).0) ([] ++ accepted (took 10) fed) drained
run =
    sent (took 10)
      (subst (λ ins. Stream init_client ins [] fed) asked_request
        (received (bytes request) start (omega arith) fed_ok))
      all_taken drained_ok

-- The client gets it back in two pieces.
abbrev answer : ℕ → ℕ → Received
answer zero n = bytes (b'b' ∷ b'e' ∷ [])
answer (suc i) n = bytes (b'n' ∷ b'c' ∷ b'h' ∷ b'-' ∷ b'0' ∷ b'-' ∷ b'7' ∷ newline ∷ [])

abbrev no_stats : Load.Stats
no_stats = record {
  total_requests = 1;
  completed = 0;
  failed = 0;
  bytes_sent = 0;
  bytes_received = 0;
  latency_sum_ns = 0;
  latencies_ns = 0 ∷ [];
  latency_count = 0;
  latency_capacity = 1;
  start_time = 0;
}

request-echoed_example :
    let asking = (prepare_request 7 7 idle).0 in
    Ends (Completed 9 asking no_stats) (Handlers.handle_recv answer 9 2 0 asking no_stats)
request-echoed_example =
    request-echoed 7 7 idle (length-replicate {A = ℕ} 256 0) (length-replicate {A = ℕ} 256 0) run
      nothing_left answer 9
      ((b'b' ∷ b'e' ∷ []) ∷ (b'n' ∷ b'c' ∷ b'h' ∷ b'-' ∷ b'0' ∷ b'-' ∷ b'7' ∷ newline ∷ []) ∷ []) 2
      0 no_stats all_sent ((λ n. refl), omega arith, ((λ n. refl), omega arith, tt)) (omega arith)
