-- ===== src/Stress/Client.antt =====
-- The data of socket_test/stress_test_client.c: `Client`, `Stats`, and the functions that only set
-- their fields.
use linux_system_programing.Prelude.{
  ℕ, List, none, some, replicate, set, ltb, if◌then◌else◌, add_u64,
}
use linux_system_programing.Kernel.{Fd}
use linux_system_programing.Echo.Client.{Ret, ok, failed}

pub data ClientState : Type 0 where
  connecting writing reading done broken : ClientState  -- `broken` is CLIENT_FAILED

-- sizeof(send_buf) = sizeof(recv_buf)
abbrev pub buf_size : ℕ
buf_size = 256

pub record Client : Type 0 where
  pub fd : Fd
  pub id : ℕ
  pub state : ClientState
  pub send_buf : List ℕ
  pub send_len : ℕ
  pub send_offset : ℕ
  pub recv_buf : List ℕ
  pub recv_len : ℕ
  pub current_request_start_ns : ℕ
  pub request_completed : ℕ
  pub request_failed : ℕ
  pub last_errno : ℕ

pub record Stats : Type 0 where
  pub total_requests : ℕ
  pub completed : ℕ
  pub failed : ℕ
  pub bytes_sent : ℕ
  pub bytes_received : ℕ
  pub latency_sum_ns : ℕ
  pub latencies_ns : List ℕ
  pub latency_count : ℕ
  pub latency_capacity : ℕ
  pub start_time : ℕ

-- `stats_init` where malloc() and clock_gettime() succeed; the fresh array has no meaning yet, and
-- its values are a parameter.
unfoldable pub stats_init : (ℕ → List ℕ) → ℕ → ℕ → Stats
stats_init malloc now total =
    let capacity = if ltb 1_000_000 total then 1_000_000 else total in
    record {
      total_requests = total;
      completed = 0;
      failed = 0;
      bytes_sent = 0;
      bytes_received = 0;
      latency_sum_ns = 0;
      latencies_ns = malloc capacity;
      latency_count = 0;
      latency_capacity = capacity;
      start_time = now;
    }

unfoldable pub record_latency : ℕ → Stats → Stats
record_latency latency s =
    let summed : Stats = record s { latency_sum_ns = add_u64 s.latency_sum_ns latency } in
    if ltb s.latency_count s.latency_capacity
    then record summed {
      latencies_ns = set s.latencies_ns s.latency_count latency;
      latency_count = add_u64 s.latency_count 1;
    }
    else summed

-- `close_client`; the close() itself is an effect on the descriptor alone.
unfoldable pub close_client : Client → Client
close_client c = record c { fd = none; state = ClientState.done }

-- `reset_client`: memset() clears every field, then the descriptor is set to -1.
unfoldable pub reset_client : Client → Client
reset_client c = record {
  fd = none;
  id = 0;
  state = ClientState.connecting;
  send_buf = replicate buf_size 0;
  send_len = 0;
  send_offset = 0;
  recv_buf = replicate buf_size 0;
  recv_len = 0;
  current_request_start_ns = 0;
  request_completed = 0;
  request_failed = 0;
  last_errno = 0;
}

-- a result of `connect_nonblock`: a descriptor, or -1 with `errno`
pub data Connected : Type 0 where
  socket : ℕ → Connected
  connect_error : ℕ → Connected

unfoldable pub reconnect_client : Connected → Client → Client × Ret
unfolding reset_client
reconnect_client (socket fd) c =
    (record (reset_client c) { fd = some fd; state = ClientState.connecting }, ok)
reconnect_client (connect_error e) c =
    (record (reset_client c) { state = ClientState.broken; last_errno = e }, failed)
