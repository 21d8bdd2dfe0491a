-- ===== src/PollServer/Loop.antt =====
-- `remove_conn` and `main` of socket_test/tcp_poll_server_v1.c.
use linux_system_programing.Prelude.{
  ℕ, ◌+◌, ◌-◌, List, [], ◌∷◌, Option, none, some, Bool, true, false, ltb, ◌==◌, ◌&&◌, ◌||◌,
  if◌then◌else◌,
}
use linux_system_programing.Kernel.{Fd, Received, Sent}
use linux_system_programing.Echo.Client.{Client, Ret, ok, failed, done, offered}
use linux_system_programing.Echo.Client
use linux_system_programing.SelectServer.State.{max_connections}
use linux_system_programing.PollServer.Entry.{Events, PollEntry, Pair, handle_recv, handle_send}

-- `_init_client` is that of the select server, to the letter.
abbrev pub init_client : Client
init_client = Client.init_client

-- one element of an array
abbrev pub assign : {A : Type 0} → (ℕ → A) → ℕ → A → ℕ → A
assign a i x j = if j == i then x else a j

-- `closed` are the arguments of close(), newest first. `strayed` is set once the program has used an
-- index outside `fds` (of 257 elements) or `client` (of 256): from then on the record says nothing.
pub record Server : Type 0 where
  pub server_fd : ℕ
  pub fds : ℕ → PollEntry
  pub client : ℕ → Client
  pub active_conns : ℕ
  pub closed : List Fd
  pub strayed : Bool

abbrev pub pair_at : Server → ℕ → Pair
pair_at s i = record { entry = s.fds i; client = s.client (i - 1) }

abbrev pub put_pair : Server → ℕ → Pair → Server
put_pair s i p = record s {
  fds = assign s.fds i p.entry;
  client = assign s.client (i - 1) p.client;
}

-- `_init_pollfd`, which leaves `revents` as the memory has it
abbrev pub init_pollfd : Events → PollEntry
init_pollfd memory = record { fd = none; pollin = false; pollout = false; revents = memory }

-- `main` before its loop
unfoldable pub boot : (memory : ℕ → Events) → ℕ → Server
boot memory fd = record {
  server_fd = fd;
  fds =
      assign (λ i. init_pollfd (memory i)) 0
        (record (init_pollfd (memory 0)) { fd = some fd; pollin = true });
  client = λ _. init_client;
  active_conns = 1;
  closed = [];
  strayed = false;
}

-- The last of the active entries takes the place of entry `i`.
unfoldable pub move_last : ℕ → Server → Server
move_last i s = if i == s.active_conns - 1 then s else record s {
  fds = assign s.fds i (s.fds (s.active_conns - 1));
  client = assign s.client (i - 1) (s.client (s.active_conns - 2));
  strayed = s.strayed || (i == 0) || ltb s.active_conns 2;
}

-- `fds[active_conns]` and `c[active_conns - 1]`, which are past the active ones, are cleared.
unfoldable pub clear_past : Server → Server
clear_past s =
    let n = s.active_conns in
    record s {
      fds = assign s.fds n (record (s.fds n) { fd = none; pollin = false; pollout = false });
      client =
          assign s.client (n - 1) (record (s.client (n - 1)) {
            client_fd = none;
            used = 0;
            send_offset = 0;
            send_len = 0;
          });
      strayed = s.strayed || (n == 0) || ltb max_connections n;
    }

-- `remove_conn`, with the count that it returns, or -1.
unfoldable pub remove_conn : ℕ → Server → Server × Option ℕ
remove_conn i s = if ltb s.active_conns i then (s, none) else (
  clear_past (move_last i (record s { closed = (s.fds i).fd ∷ s.closed })),
  some (s.active_conns - 1),
)

-- `active_conns = remove_conn(…)`; a count of -1 is outside the model.
unfoldable pub counted : Server × Option ℕ → Server
counted (s, none) = record s { strayed = true }
counted (s, some n) = record s { active_conns = n }

-- accept() has returned `fd`. `revents` of the new entry stays what it was.
unfoldable pub accept_conn : ℕ → Server → Server
accept_conn fd s =
    let n = s.active_conns in
    record s {
      fds = assign s.fds n (record (s.fds n) { fd = some fd; pollin = true; pollout = false });
      client = assign s.client (n - 1) (record (s.client (n - 1)) { client_fd = some fd });
      active_conns = n + 1;
      strayed = s.strayed || (n == 0) || ltb max_connections n;
    }

-- What accept(), recv() and send() return in one round of the inner loop.
pub record Results : Type 0 where
  pub accept : Fd
  pub recv : Received
  pub send : List ℕ → Sent

abbrev pub is_server : Server → Fd → Bool
is_server s none = false
is_server s (some fd) = fd == s.server_fd

-- POLLOUT, whose result is not looked at.
unfoldable pub send_at : Results → ℕ → Server → Server
send_at r i s =
    if (s.fds i).revents.pollout
    then record (put_pair s i (handle_send (r.send (offered (s.client (i - 1)))) (pair_at s i)).0) {
      strayed = s.strayed || (i == 0);
    }
    else s

-- POLLHUP and POLLERR. The index is that of the next round: `i--` and `i++` leave it.
unfoldable pub hup_at : ℕ → Server → Server × ℕ
hup_at i s = if (s.fds i).revents.hup_err then (counted (remove_conn i s), i) else (s, i + 1)

-- What follows a handle_recv(). After a result of 0 the connection is removed, and the count that
-- remove_conn() returns is dropped.
unfoldable pub after_recv : Results → ℕ → Server → Ret → Server × ℕ
after_recv r i s ok = ((remove_conn i s).0, i)
after_recv r i s failed = hup_at i (send_at r i s)
after_recv r i s done = hup_at i (send_at r i s)

unfoldable pub recv_at : Results → ℕ → Server → Server × ℕ
recv_at r i s =
    let p = handle_recv r.recv (pair_at s i) in
    after_recv r i (record (put_pair s i p.0) { strayed = s.strayed || (i == 0) }) p.1

unfoldable pub accept_at : Results → Server → Server
accept_at r s = elim r.accept [ none ↦ s | some fd ↦ accept_conn fd s ]

-- One round of the inner loop of `main`, with the index of the next one.
unfoldable pub visit : Results → ℕ → Server → Server × ℕ
visit r i s =
    if is_server s (s.fds i).fd && (s.fds i).revents.pollin
    then (accept_at r s, i + 1)
    else if (s.fds i).revents.pollin
    then recv_at r i s
    else hup_at i (send_at r i s)

-- poll() writes `revents` of the active entries.
unfoldable pub polled : (ℕ → Events) → Server → Server
polled ev s = record s {
  fds = λ i. if ltb i s.active_conns then record (s.fds i) { revents = ev i } else s.fds i;
}
