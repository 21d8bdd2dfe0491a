-- ===== src/Stress/Loop.antt =====
-- The loop of `main` in socket_test/stress_test_client.c: the turn of one client before and after
-- poll(), the rounds over all clients, and the loop itself.
use linux_system_programing.Prelude.{
  ℕ, Option, none, some, Bool, true, false, ltb, ◌||◌, if◌then◌else◌, add_u64,
}
use linux_system_programing.Kernel.{Fd, Received, Sent}
use linux_system_programing.Echo.Client.{Ret, failed}
use linux_system_programing.Stress.Client.{Client, ClientState, Stats, close_client}
use linux_system_programing.Stress.Request.{prepare_request}
use linux_system_programing.Stress.Handlers.{
  SockError, Outcome, handle_connect, handle_send, handle_recv, emsgsize, econnreset,
}

-- the bits of `events` and `revents` that the program names
pub record Events : Type 0 where
  pub pollin : Bool
  pub pollout : Bool
  pub pollerr : Bool
  pub pollhup : Bool
  pub pollnval : Bool

abbrev pub no_events : Events
no_events = record {
  pollin = false;
  pollout = false;
  pollerr = false;
  pollhup = false;
  pollnval = false;
}

-- `struct pollfd`, as the program fills it in
pub record PollFd : Type 0 where
  pub fd : Fd
  pub events : Events

-- What the loop keeps for one client, and the counters that all clients share.
pub record Slot : Type 0 where
  pub client : Client
  pub next_sequence : ℕ
  pub stats : Stats

-- stats.failed++; close_client(c);
unfoldable pub fail_slot : Slot → Slot
unfolding close_client
fail_slot s = record s {
  client = close_client s.client;
  stats = record s.stats { failed = add_u64 s.stats.failed 1 };
}

-- What follows prepare_request(): its sequence number is used up, or the client fails.
unfoldable pub begin_request : Client × Ret → Slot → Slot
begin_request (c, failed) s = fail_slot (record s { client = c })
begin_request (c, ret) s = record s { client = c; next_sequence = add_u64 s.next_sequence 1 }

unfoldable pub next_request : (now : ℕ) → Slot → Slot
next_request now s = begin_request (prepare_request now s.next_sequence s.client) s

-- what poll() is asked to watch for a client
unfoldable pub interest : ClientState → Events
interest ClientState.connecting = record no_events {
  pollout = true;
  pollerr = true;
  pollhup = true;
}
interest ClientState.writing = record no_events { pollout = true; pollerr = true; pollhup = true }
interest ClientState.reading = record no_events { pollin = true; pollerr = true; pollhup = true }
interest ClientState.done = no_events
interest ClientState.broken = no_events

-- The entry of the client in the array for poll().
unfoldable pub poll_entry : Client → PollFd
poll_entry c = record {
  fd = c.fd;
  events = elim c.fd [ none ↦ no_events | some _ ↦ interest c.state ];
}

-- A prepare_request() before poll() that fails leaves EMSGSIZE in `last_errno`.
unfoldable pub begin_early : Client × Ret → Slot → Slot
begin_early (c, failed) s = fail_slot (record s { client = record c { last_errno = emsgsize } })
begin_early (c, ret) s = record s { client = c; next_sequence = add_u64 s.next_sequence 1 }

-- The turn of a client before poll(), by its descriptor and its state: one that has finished a
-- request starts the next.
unfoldable pub start_turn : (requests now : ℕ) → Fd → ClientState → Slot → Slot
start_turn requests now (some fd) ClientState.done s =
    if ltb s.next_sequence requests
    then begin_early (prepare_request now s.next_sequence s.client) s
    else s
start_turn requests now fd state s = s

unfoldable pub before_poll : (requests now : ℕ) → Slot → Slot
before_poll requests now s = start_turn requests now s.client.fd s.client.state s

-- What the system calls of one client's turn return; the turn's loops take `fuel`.
pub record Answers : Type 0 where
  pub revents : Events
  pub so : SockError
  pub send : ℕ → ℕ → Sent
  pub stale : ℕ
  pub recv : ℕ → ℕ → Received
  pub fuel : ℕ
  pub clock : ℕ
  pub later_clock : ℕ

-- What follows handle_connect().
unfoldable pub connected : Answers → Client × Ret → Slot → Slot
connected a (c, failed) s = fail_slot (record s { client = c })
connected a (c, ret) s = next_request a.clock (record s { client = c })

-- CLIENT_DONE after the handlers: the next request, or the end of this client.
unfoldable pub end_turn : (requests : ℕ) → Answers → ClientState → Slot → Slot
unfolding close_client
end_turn requests a ClientState.done s =
    if ltb s.next_sequence requests
    then next_request a.later_clock s
    else record s { client = close_client s.client }
end_turn requests a state s = s

abbrev pub on_done : (requests : ℕ) → Answers → Slot → Slot
on_done requests a s = end_turn requests a s.client.state s

-- The end of a handler: -1 fails the slot and skips the rest of the turn.
unfoldable pub settle : (Slot → Option Slot) → ℕ → Option Outcome → Option Slot
settle rest seq none = none
settle rest seq (some o) =
    let s : Slot = record { client = o.client; next_sequence = seq; stats = o.stats } in
    elim o.ret [ failed ↦ some (fail_slot s) | _ ↦ rest s ]

unfoldable pub read_turn : (requests : ℕ) → Answers → ClientState → Slot → Option Slot
read_turn requests a ClientState.reading s =
    if a.revents.pollin
    then settle (λ t. some (on_done requests a t)) s.next_sequence
        (handle_recv a.recv a.clock a.fuel 0 s.client s.stats)
    else some s
read_turn requests a state s = some (on_done requests a s)

abbrev pub on_readable : (requests : ℕ) → Answers → Slot → Option Slot
on_readable requests a s = read_turn requests a s.client.state s

unfoldable pub write_turn : (requests : ℕ) → Answers → ClientState → Slot → Option Slot
write_turn requests a ClientState.writing s =
    if a.revents.pollout
    then settle (on_readable requests a) s.next_sequence
        (handle_send a.send a.stale a.fuel 0 s.client s.stats)
    else some s
write_turn requests a state s = on_readable requests a s

abbrev pub any_event : Events → Bool
any_event e = e.pollin || e.pollout || e.pollerr || e.pollhup || e.pollnval

-- POLLOUT | POLLERR | POLLHUP
abbrev pub connect_event : Events → Bool
connect_event e = e.pollout || e.pollerr || e.pollhup

-- POLLERR | POLLHUP | POLLNVAL
abbrev pub fatal_event : Events → Bool
fatal_event e = e.pollerr || e.pollhup || e.pollnval

-- A fatal event: ECONNRESET, and the client is given up.
abbrev pub hang_up : Slot → Slot
hang_up s = fail_slot (record s { client = record s.client { last_errno = econnreset } })

-- The turn of a client with an event, by its state.
unfoldable pub event_turn : (requests : ℕ) → Answers → ClientState → Slot → Option Slot
event_turn requests a ClientState.connecting s =
    if connect_event a.revents then some (connected a (handle_connect a.so s.client) s) else some s
event_turn requests a state s =
    if fatal_event a.revents then some (hang_up s) else write_turn requests a state s

-- The turn of a client after poll(), by its descriptor. `none` is a handler whose fuel is used up.
unfoldable pub poll_turn : (requests : ℕ) → Answers → Fd → Slot → Option Slot
poll_turn requests a none s = some s
poll_turn requests a (some fd) s =
    if any_event a.revents then event_turn requests a s.client.state s else some s

unfoldable pub after_poll : (requests : ℕ) → Answers → Slot → Option Slot
after_poll requests a s = poll_turn requests a s.client.fd s
