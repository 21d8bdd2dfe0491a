-- ===== src/Tests/StressRuns.antt =====
-- Turns of one client of socket_test/stress_test_client.c.
use linux_system_programing.Prelude.{
  ℕ, ◌≡◌, [], ◌∷◌, replicate, arith, some, true, length-replicate,
}
use linux_system_programing.Lines.{newline}
use linux_system_programing.Kernel.{Received, recv_error, Sent, took, eagain}
use linux_system_programing.Stress.Client.{Client, ClientState, Stats, buf_size}
use linux_system_programing.Stress.Handlers.{so_error}
use linux_system_programing.Stress.Sending.{Window}
use linux_system_programing.Stress.Receiving.{HasRoom}
use linux_system_programing.Stress.Loop.{Slot, Answers, no_events, after_poll}
use linux_system_programing.Stress.Counts.{SlotSound, Turned}
use linux_system_programing.Stress.Settled.{Settled}
use linux_system_programing.Stress.Ends.{IsFuelled, after_poll-ends}

-- A client with the request "a\n", of which nothing is sent yet.
abbrev asking : Client
asking = record {
  fd = some 5;
  id = 0;
  state = ClientState.writing;
  send_buf = b'a' ∷ newline ∷ replicate 254 0;
  send_len = 2;
  send_offset = 0;
  recv_buf = replicate buf_size 0;
  recv_len = 0;
  current_request_start_ns = 7;
  request_completed = 0;
  request_failed = 0;
  last_errno = 0;
}

abbrev waiting : Client
waiting = record asking { state = ClientState.reading; send_offset = 2 }

abbrev no_stats : Stats
no_stats = record {
  total_requests = 1;
  completed = 0;
  failed = 0;
  bytes_sent = 0;
  bytes_received = 0;
  latency_sum_ns = 0;
  latencies_ns = 0 ∷ [];
  latency_count = 0;
  latency_capacity = 1;
  start_time = 0;
}

asking-HasRoom : HasRoom asking
asking-HasRoom = record {
  recv_room = length-replicate {A = ℕ} buf_size 0;
  recv_in = omega arith;
  send_room = omega (arith, length-replicate {A = ℕ} 254 0);
  len_in = omega arith;
}

waiting-HasRoom : HasRoom waiting
waiting-HasRoom = record {
  recv_room = length-replicate {A = ℕ} buf_size 0;
  recv_in = omega arith;
  send_room = omega (arith, length-replicate {A = ℕ} 254 0);
  len_in = omega arith;
}

asking-Window : Window asking
asking-Window = record { offset_in = omega arith; len_in = omega arith }

-- send() takes all that it is offered.
abbrev takes_all : ℕ → ℕ → Sent
takes_all i n = took n

-- recv() has nothing.
abbrev silence : ℕ → ℕ → Received
silence i n = recv_error eagain

-- The socket is writable, and takes the whole request.
abbrev writable : Answers
writable = record {
  revents = record no_events { pollout = true };
  so = so_error 0;
  send = takes_all;
  stale = 0;
  recv = silence;
  fuel = 300;
  clock = 9;
  later_clock = 9;
}

abbrev begun : Slot
begun = record { client = asking; next_sequence = 1; stats = no_stats }

begun-SlotSound : SlotSound 1 begun
begun-SlotSound = record { room = asking-HasRoom; window = asking-Window; counts = omega arith }

writable-IsFuelled : IsFuelled 0 writable
writable-IsFuelled = record {
  send_settles = λ i n h q. ground arith;
  recv_quiet = λ i n h q. ground arith;
  enough = omega arith;
}

after_poll-ends_example :
    (t : Slot) × (after_poll 1 writable begun ≡ some t) × Turned 1 begun t × Settled t
after_poll-ends_example =
    after_poll-ends 1 0 writable begun (omega arith) (omega arith)
      (record { send_honest = λ i n. omega arith; recv_bounded = λ i n. omega arith })
      writable-IsFuelled begun-SlotSound (λ fd q e. ground arith)
