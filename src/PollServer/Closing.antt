-- ===== src/PollServer/Closing.antt =====
-- What the removal of an entry in socket_test/tcp_poll_server_v1.c leaves, and when it happens.
use linux_system_programing.Prelude.{
  ℕ, ◌+◌, ◌-◌, ◌<◌, ◌≡◌, ◌≢◌, ==_iff, refl, ◌∙◌, ap, [], ◌∷◌, arith, true, false, ◌==◌, ◌||◌, some,
  none,
}
use linux_system_programing.Kernel.{Fd, Received, bytes, recv_error}
use linux_system_programing.Echo.Client.{Ret, ok, failed, done}
use linux_system_programing.Echo.Client
use linux_system_programing.PollServer.Entry.{Events, PollEntry, Pair, watch, handle_recv}
use linux_system_programing.PollServer.Loop.{
  Server, pair_at, put_pair, move_last, clear_past, remove_conn, counted, accept_conn, Results,
  is_server, send_at, hup_at, after_recv, recv_at, visit,
}

-- Entry `i` is closed and has become the last one, which also stays where it was; the entries below the
-- old count are otherwise as they were.
record Removed (i : ℕ) (s t : Server) : Type 0 where
  pub closes : t.closed ≡ (s.fds i).fd ∷ s.closed
  pub moved : t.fds i ≡ s.fds (s.active_conns - 1)
  pub moved_client : t.client (i - 1) ≡ s.client (s.active_conns - 2)
  pub others : (j : ℕ) → j < s.active_conns → j ≢ i → t.fds j ≡ s.fds j
  pub other_clients : (j : ℕ) → j + 1 < s.active_conns → j + 1 ≢ i → t.client j ≡ s.client j
  pub cleared :
      ((t.fds s.active_conns).fd ≡ none) × ((t.client (s.active_conns - 1)).client_fd ≡ none)

-- For an active entry other than the listening one: `remove_conn` closes its descriptor, puts the last
-- entry and its client in its place, leaves the others below the old count as they were, clears the entry
-- past them, and returns the count less one. The last entry and client stay behind where they were.
remove_conn-Removed :
    (i : ℕ) (s : Server)
    → 0 < i
    → i < s.active_conns
    → Removed i s (remove_conn i s).0 × ((remove_conn i s).1 ≡ some (s.active_conns - 1))
unfolding remove_conn move_last clear_past
remove_conn-Removed i s pos here = (
  record {
    closes = ground arith;
    moved = ground arith;
    moved_client = ground arith;
    others = λ j h ne. ground arith;
    other_clients = λ j h ne. ground arith;
    cleared = (ground arith, ground arith);
  },
  ground arith,
)

-- When an active entry is removed at a hang-up and a connection is accepted next, its client has the
-- buffers and counters of the client that was last before, and its entry has the `revents` of that one.
pub accept_conn-inherits :
    (i fd : ℕ) (s : Server)
    → 0 < i
    → i < s.active_conns
    → (s.fds i).revents.hup_err ≡ true
    → let t = accept_conn fd (hup_at i s).0 in
      (t.client (s.active_conns - 2)
        ≡ record (s.client (s.active_conns - 2)) { client_fd = some fd })
      × ((t.fds (s.active_conns - 1)).revents ≡ (s.fds (s.active_conns - 1)).revents)
      × ((t.fds (s.active_conns - 1)).fd ≡ some fd)
      × (t.active_conns ≡ s.active_conns)
unfolding hup_at counted remove_conn move_last clear_past accept_conn
accept_conn-inherits i fd s pos here hup = (ground arith, ground arith, ground arith, ground arith)

reading :
    (r : Results) (i : ℕ) (s : Server)
    → is_server s (s.fds i).fd ≡ false
    → (s.fds i).revents.pollin ≡ true
    → visit r i s ≡ recv_at r i s
unfolding visit
reading r i s not_server readable = rw (not_server, readable)

-- the server after a handle_recv()
abbrev received : Results → ℕ → Server → Server
received r i s = record (put_pair s i (handle_recv r.recv (pair_at s i)).0) {
  strayed = s.strayed || (i == 0);
}

removing :
    (r : Results) (i : ℕ) (s : Server)
    → (handle_recv r.recv (pair_at s i)).1 ≡ ok
    → recv_at r i s ≡ ((remove_conn i (received r i s)).0, i)
unfolding recv_at after_recv
removing r i s succeeds = rw succeeds

active_conns-remove_conn : (i : ℕ) (s : Server) → (remove_conn i s).0.active_conns ≡ s.active_conns
unfolding remove_conn move_last clear_past
active_conns-remove_conn i s = ground arith

-- handle_recv() changes of an entry only what it waits for.
entry-handle_recv :
    (r : Received) (p : Pair)
    → let q = (handle_recv r p).0 in (q.entry.fd ≡ p.entry.fd) × (q.entry.revents ≡ p.entry.revents)
unfolding handle_recv watch
entry-handle_recv (bytes []) p = (refl, refl)
entry-handle_recv (bytes (x ∷ xs)) p = watched (Client.handle_recv (bytes (x ∷ xs)) p.client)
  where
    watched :
        (o : Client.Client × Ret)
        → let q = (watch p.entry o).0 in
          (q.entry.fd ≡ p.entry.fd) × (q.entry.revents ≡ p.entry.revents)
    watched (c, ok) = (ground arith, ground arith)
    watched (c, failed) = (refl, refl)
    watched (c, done) = (refl, refl)
entry-handle_recv (recv_error e) p = (refl, refl)

abbrev only_readable : Events
only_readable = record { pollin = true; pollout = false; hup_err = false }

itself : (i : ℕ) → (i == i) ≡ true
itself i = (==_iff i i).1 refl

-- Behind its handle_recv() the round does nothing more.
quiet_round :
    (r : Results) (i : ℕ) (t : Server)
    → (t.fds i).revents ≡ only_readable
    → hup_at i (send_at r i t) ≡ (t, i + 1)
unfolding hup_at send_at
quiet_round r i t events =
    let out : (t.fds i).revents.pollout ≡ false = ap (λ (v : Events). v.pollout) events in
    let hup : (t.fds i).revents.hup_err ≡ false = ap (λ (v : Events). v.hup_err) events in
    rw (out, hup) refl

fds-received_nothing : (t : Server) (i : ℕ) → (put_pair t i (pair_at t i)).fds i ≡ t.fds i
fds-received_nothing t i = ground (arith, itself i)

-- The next round has an entry that can be read, where recv() fails, and nothing else to do: the entry stays.
visit-failing :
    (r : Results) (i : ℕ) (t : Server) (e : ℕ)
    → is_server t (t.fds i).fd ≡ false
    → (t.fds i).revents ≡ only_readable
    → r.recv ≡ recv_error e
    → let u = visit r i t in
      (u.0.active_conns ≡ t.active_conns)
      × ((u.0.fds i).fd ≡ (t.fds i).fd)
      × (u.0.closed ≡ t.closed)
      × (u.1 ≡ i + 1)
unfolding recv_at after_recv handle_recv
visit-failing r i t e not_server events fails =
    let same = fds-received_nothing t i in
    let x : Server = record (put_pair t i (pair_at t i)) { strayed = t.strayed || (i == 0) } in
    let quiet : recv_at r i t ≡ (x, i + 1) = rw fails (
      quiet_round (record r { recv = recv_error e }) i x
        (ap (λ (v : PollEntry). v.revents) same ∙ events)) in
    rw (reading r i t not_server (ap (λ (v : Events). v.pollin) events), quiet)
      (refl, ap (λ (v : PollEntry). v.fd) same, refl, refl)

server_fd-remove_conn : (i : ℕ) (s : Server) → (remove_conn i s).0.server_fd ≡ s.server_fd
unfolding remove_conn move_last clear_past
server_fd-remove_conn i s = ground arith

same_server : (s t : Server) (fd : Fd) → t.server_fd ≡ s.server_fd → is_server t fd ≡ is_server s fd
same_server s t none e = refl
same_server s t (some d) e = ap (λ n. d == n) e

entry-received :
    (r : Results) (i : ℕ) (s : Server)
    → (received r i s).fds i ≡ (handle_recv r.recv (pair_at s i)).0.entry
entry-received r i s = ground (arith, itself i)

-- The entry of the last connection after it is removed with its count kept.
last_entry :
    (r : Results) (i : ℕ) (s : Server)
    → 0 < i
    → i + 1 ≡ s.active_conns
    → let t = (remove_conn i (received r i s)).0 in
      ((t.fds i).fd ≡ (s.fds i).fd) × ((t.fds i).revents ≡ (s.fds i).revents)
last_entry r i s pos last =
    let (gone, e) = remove_conn-Removed i (received r i s) pos (omega arith) in
    let (fd, events) = entry-handle_recv r.recv (pair_at s i) in
    let at : s.active_conns - 1 ≡ i = omega arith in
    let moved = gone.moved ∙ ap (received r i s).fds at ∙ entry-received r i s in
    (ap (λ (v : PollEntry). v.fd) moved ∙ fd, ap (λ (v : PollEntry). v.revents) moved ∙ events)

-- After a handle_recv() that succeeds on an active connection, its descriptor is closed in the same round
-- and the count of active entries stays; where it was not the last connection, the last one is then
-- in its entry and in its own. Where it was the last one, and poll() has reported nothing but POLLIN for it, its
-- entry stays: the next round reads from it again, and when that recv() fails, as on a closed
-- descriptor, the inner loop is through and the next poll() has the closed descriptor still.
pub visit-closes :
    (r : Results) (i : ℕ) (s : Server)
    → 0 < i
    → i < s.active_conns
    → is_server s (s.fds i).fd ≡ false
    → (s.fds i).revents.pollin ≡ true
    → (handle_recv r.recv (pair_at s i)).1 ≡ ok
    → let (t, j) = visit r i s in
      (t.closed ≡ (s.fds i).fd ∷ s.closed)
      × (t.active_conns ≡ s.active_conns)
      × (j ≡ i)
      × (i + 1 ≢ s.active_conns
          → (t.fds i ≡ s.fds (s.active_conns - 1))
            × (t.fds (s.active_conns - 1) ≡ s.fds (s.active_conns - 1)))
      × (i + 1 ≡ s.active_conns
          → (s.fds i).revents ≡ record { pollin = true; pollout = false; hup_err = false }
          → (next : Results) (e : ℕ) → next.recv ≡ recv_error e
          → let u = visit next i t in
            (u.0.active_conns ≡ s.active_conns)
            × (u.1 ≡ s.active_conns)
            × ((u.0.fds i).fd ≡ (s.fds i).fd))
visit-closes r i s pos here not_server readable succeeds =
    let s1 = received r i s in
    let (gone, e) = remove_conn-Removed i s1 pos here in
    let same = itself i in
    rw (reading r i s not_server readable, removing r i s succeeds)
      (
        gone.closes
            ∙ ap (λ fd. fd ∷ s.closed)
                (ap (λ (v : PollEntry). v.fd) (entry-received r i s)
                  ∙ (entry-handle_recv r.recv (pair_at s i)).0),
        active_conns-remove_conn i s1,
        refl,
        λ q. (
          gone.moved ∙ ground arith,
          gone.others (s.active_conns - 1) (omega arith) (λ e. omega arith) ∙ ground arith,
        ),
        λ last events next e2 fails.
            let (fd, revents) = last_entry r i s pos last in
            let (active, stays, closed, index) =
              visit-failing next i (remove_conn i s1).0 e2
                (ap (is_server (remove_conn i s1).0) fd
                  ∙ same_server s (remove_conn i s1).0 (s.fds i).fd (server_fd-remove_conn i s1)
                  ∙ not_server)
                (revents ∙ events) fails in
            (active ∙ active_conns-remove_conn i s1, index ∙ last, stays ∙ fd),
      )
