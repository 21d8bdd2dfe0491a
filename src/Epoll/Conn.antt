-- ===== src/Epoll/Conn.antt =====
-- A client of socket_test/tcp_epoll_server_v1.c and socket_test/tcp_epoll_server_v2.c, its handlers,
-- and what one event does to it. The second version differs in what handle_recv returns at the end of
-- the stream, in a test of `main`, and in its limits.
use linux_system_programing.Prelude.{
  ℕ, List, [], ◌∷◌, some, Bool, true, false, ltb, ◌==◌, ◌&&◌, not, if◌then◌else◌, add_u64,
}
use linux_system_programing.Kernel.{
  Received, bytes, recv_error, Sent, took, send_error, eintr, would_block,
}
use linux_system_programing.Echo.Client.{Client, init_client, Ret, ok, failed, done}
use linux_system_programing.Echo.Client
use linux_system_programing.Epoll.Recv.{recv_bytes}

-- `struct Client`, its buffers in the record of the select server, and whether its descriptor is
-- watched for EPOLLOUT. EPOLLIN and EPOLLRDHUP always are.
pub record Conn : Type 0 where
  pub client : Client
  pub should_close : Bool
  pub epollout : Bool

-- malloc(), `_init_client` and EPOLL_CTL_ADD for a descriptor
unfoldable pub init_conn : ℕ → Conn
init_conn fd = record {
  client = record init_client { client_fd = some fd };
  should_close = false;
  epollout = false;
}

-- What a version does with the end of the stream, and its limit.
pub record Version : Type 0 where
  pub eof : Ret
  pub rdhup_needs_ret : Bool
  pub max_connections : ℕ

abbrev pub v1 : Version
v1 = record { eof = failed; rdhup_needs_ret = false; max_connections = 256 }

abbrev pub v2 : Version
v2 = record { eof = done; rdhup_needs_ret = true; max_connections = 16_384 }

-- The end of `handle_recv`: EPOLLOUT is watched when bytes wait to be sent.
unfoldable pub watch_queue : Client × Ret → Conn → Conn × Ret
watch_queue (c, ok) d = (
  if ltb c.send_offset c.send_len
      then record d { client = c; epollout = true }
      else record d { client = c },
  ok,
)
watch_queue (c, ret) d = (record d { client = c }, ret)

-- `handle_recv`
unfoldable pub recv_conn : Version → Received → Conn → Conn × Ret
recv_conn v (bytes []) d = (d, v.eof)
recv_conn v (bytes (x ∷ xs)) d = watch_queue (recv_bytes (x ∷ xs) d.client) d
recv_conn v (recv_error e) d = if would_block e then (d, ok) else (d, failed)

-- `n` bytes are sent: 1 when none is left, and EPOLLOUT is no more watched.
unfoldable pub advance_conn : ℕ → Conn → Conn × Ret
advance_conn n d =
    if d.client.send_len == add_u64 d.client.send_offset n
    then (
      record d { client = record d.client { send_len = 0; send_offset = 0 }; epollout = false },
      done,
    )
    else (
      record d { client = record d.client { send_offset = add_u64 d.client.send_offset n } },
      ok,
    )

unfoldable pub send_conn : Sent → Conn → Conn × Ret
send_conn (took n) d =
    if d.client.send_len == d.client.send_offset
    then (d, ok)
    else if ltb 0 n
    then advance_conn n d
    else (d, failed)
send_conn (send_error e) d =
    if d.client.send_len == d.client.send_offset
    then (d, ok)
    else if would_block e
    then (d, ok)
    else if e == eintr
    then (d, ok)
    else (d, failed)

-- the bits of `revents` that `main` reads
pub record Revents : Type 0 where
  pub epollin : Bool
  pub epollout : Bool
  pub epollrdhup : Bool

-- what becomes of the connection: kept, given up after a send() that failed, or closed on purpose
pub data Verdict : Type 0 where
  kept broken closed : Conn → Verdict

-- `should_close` after a handle_recv().
unfoldable pub mark : Version → Revents → Conn × Ret → Conn
mark v ev (d, failed) = record d { should_close = true }
mark v ev (d, ok) =
    if ev.epollrdhup && not v.rdhup_needs_ret then record d { should_close = true } else d
mark v ev (d, done) = if ev.epollrdhup then record d { should_close = true } else d

unfoldable pub in_turn : Version → Revents → Received → Conn → Conn
in_turn v ev r d = if ev.epollin then mark v ev (recv_conn v r d) else d

-- After a handle_send().
unfoldable pub judge : Conn × Ret → Verdict
judge (d, failed) = broken d
judge (d, ok) = kept d
judge (d, done) = if d.should_close then closed d else kept d

-- send() answers what it is offered after the receiving half of the turn.
unfoldable pub out_turn : Revents → (List ℕ → Sent) → Conn → Verdict
out_turn ev s d = if ev.epollout then judge (send_conn (s (Client.offered d.client)) d) else kept d

-- One event of a client.
unfoldable pub turn : Version → Revents → Received → (List ℕ → Sent) → Conn → Verdict
turn v ev r s d = out_turn ev s (in_turn v ev r d)
