-- ===== src/PollServer/Entry.antt =====
-- One connection of socket_test/tcp_poll_server_v1.c: its `struct pollfd`, its client, whose buffers are
-- those of the select server, and the two handlers.
use linux_system_programing.Prelude.{
  ℕ, [], ◌∷◌, Bool, true, false, ltb, ◌==◌, if◌then◌else◌, add_u64,
}
use linux_system_programing.Kernel.{
  Fd, Received, bytes, recv_error, Sent, took, send_error, eintr, would_block,
}
use linux_system_programing.Echo.Client.{Client, Ret, ok, failed, done}
use linux_system_programing.Echo.Client

-- the bits of `revents` that `main` reads; `hup_err` is POLLHUP or POLLERR
pub record Events : Type 0 where
  pub pollin : Bool
  pub pollout : Bool
  pub hup_err : Bool

-- `struct pollfd`, `events` by the two bits that the program sets
pub record PollEntry : Type 0 where
  pub fd : Fd
  pub pollin : Bool
  pub pollout : Bool
  pub revents : Events

-- `fds[i]` and `c[i - 1]`
pub record Pair : Type 0 where
  pub entry : PollEntry
  pub client : Client

-- The end of `handle_recv`: POLLOUT is watched when bytes wait to be sent.
unfoldable pub watch : PollEntry → Client × Ret → Pair × Ret
watch e (c, ok) = (
  record {
    entry = if ltb c.send_offset c.send_len then record e { pollout = true } else e;
    client = c;
  },
  ok,
)
watch e (c, failed) = (record { entry = e; client = c }, failed)
watch e (c, done) = (record { entry = e; client = c }, done)

-- `handle_recv`, whose bytes go the way of the select server's. The end of the stream returns 0, as
-- success does, and no `errno` is told apart.
unfoldable pub handle_recv : Received → Pair → Pair × Ret
handle_recv (bytes []) p = (p, ok)
handle_recv (bytes (x ∷ xs)) p = watch p.entry (Client.handle_recv (bytes (x ∷ xs)) p.client)
handle_recv (recv_error e) p = (p, failed)

-- `n` bytes are sent: when none is left, POLLOUT is no more watched.
unfoldable pub advance : ℕ → Pair → Pair
advance n p =
    if p.client.send_len == add_u64 p.client.send_offset n
    then record {
      entry = record p.entry { pollout = false };
      client = record p.client { send_len = 0; send_offset = 0 };
    }
    else record p { client = record p.client { send_offset = add_u64 p.client.send_offset n } }

unfoldable pub handle_send : Sent → Pair → Pair × Ret
handle_send (took n) p =
    if p.client.send_len == p.client.send_offset
    then (p, ok)
    else if ltb 0 n
    then (advance n p, ok)
    else (p, failed)
handle_send (send_error e) p =
    if p.client.send_len == p.client.send_offset
    then (p, ok)
    else if would_block e
    then (p, ok)
    else if e == eintr
    then (p, ok)
    else (p, failed)
