-- ===== src/Tests/PollRuns.antt =====
-- Runs of socket_test/tcp_poll_server_v1.c.
use linux_system_programing.Prelude.{ℕ, ◌+◌, ◌≡◌, ◌≢◌, refl, [], ◌∷◌, true, false, some, arith}
use linux_system_programing.Kernel.{bytes, recv_error, took}
use linux_system_programing.Echo.Client.{init_client, ok}
use linux_system_programing.Echo.Client
use linux_system_programing.Bytes
use linux_system_programing.PollServer.Entry.{Events, watch, handle_recv}
use linux_system_programing.PollServer.Loop.{
  Server, boot, pair_at, accept_conn, Results, hup_at, visit, polled,
}
use linux_system_programing.PollServer.Valid.{IsServer}
use linux_system_programing.PollServer.Rounds.{arrivals}
use linux_system_programing.PollServer.Runs.{Run, booted, polling, visiting, Run-IsInside}
use linux_system_programing.PollServer.Closing.{accept_conn-inherits, visit-closes}

abbrev silent : Events
silent = record { pollin = false; pollout = false; hup_err = false }

abbrev readable : Events
readable = record silent { pollin = true }

-- A connection comes in, and "hi" and a newline on it.
abbrev answers : Results
answers = record { accept = some 9; recv = bytes (104 ∷ 105 ∷ 10 ∷ []); send = λ xs. took 0 }

abbrev called : Server
called = polled (λ _. readable) (boot (λ _. silent) 7)

abbrev called_run : Run (λ _. silent) 7 0 called (some 0)
called_run = polling (λ _. readable) booted

Run-IsInside_example : IsServer (0 + arrivals answers 0 called) true (visit answers 0 called).0
unfolding polled boot
Run-IsInside_example =
    Run-IsInside (visiting answers called_run (omega arith))
      (
        record { not_server = λ fd q. cc; recv_fits = omega arith; send_takes = λ xs. omega arith },
        ((refl, refl), tt),
      )
      (omega arith)

-- Two connections; the first can be read, and has hung up.
abbrev two : Server
two = record {
  server_fd = 7;
  fds = λ i. record {
    fd = some (7 + i);
    pollin = true;
    pollout = false;
    revents = record { pollin = true; pollout = false; hup_err = true };
  };
  client = λ i. record init_client { client_fd = some (8 + i) };
  active_conns = 3;
  closed = [];
  strayed = false;
}

accept_conn-inherits_example :
    let t = accept_conn 12 (hup_at 1 two).0 in
    (t.client 1 ≡ record (two.client 1) { client_fd = some 12 })
    × ((t.fds 2).revents ≡ (two.fds 2).revents)
    × ((t.fds 2).fd ≡ some 12)
    × (t.active_conns ≡ 3)
accept_conn-inherits_example = accept_conn-inherits 1 12 two (omega arith) (omega arith) refl

-- One connection, which can be read.
abbrev one : Server
one = record two { fds = λ i. record (two.fds i) { revents = readable }; active_conns = 2 }

received_ok : (handle_recv answers.recv (pair_at one 1)).1 ≡ ok
unfolding handle_recv watch init_client Client.handle_recv Client.fill Client.take_in
    Client.append_received Client.echo_lines Client.scan Client.move_line Bytes.blit
received_ok = refl

visit-closes_example :
    let (t, j) = visit answers 1 one in
    (t.closed ≡ some 8 ∷ [])
    × (t.active_conns ≡ 2)
    × (j ≡ 1)
    × (1 + 1 ≢ one.active_conns → (t.fds 1 ≡ one.fds 1) × (t.fds 1 ≡ one.fds 1))
    × (1 + 1 ≡ one.active_conns
        → readable ≡ record { pollin = true; pollout = false; hup_err = false }
        → (next : Results) (e : ℕ) → next.recv ≡ recv_error e
        → let u = visit next 1 t in (u.0.active_conns ≡ 2) × (u.1 ≡ 2) × ((u.0.fds 1).fd ≡ some 8))
visit-closes_example = visit-closes answers 1 one (omega arith) (omega arith) refl refl received_ok
