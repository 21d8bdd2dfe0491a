-- ===== src/Tests/EpollRuns.antt =====
-- Runs of the servers of socket_test/tcp_epoll_server_v1.c and socket_test/tcp_epoll_server_v2.c.
use linux_system_programing.Prelude.{
  ℕ, zero, suc, ◌+◌, ◌≤◌, ◌<◌, ◌≡◌, refl, subst, List, [], ◌∷◌, arith, some, true, false, ltb,
}
use linux_system_programing.Lines.{newline}
use linux_system_programing.Bytes.{blit}
use linux_system_programing.Kernel.{Received, bytes, Sent, send_error, eagain}
use linux_system_programing.Echo.Client.{init_client}
use linux_system_programing.Epoll.Recv.{recv_bytes, queue_messages, queue_message, find_message}
use linux_system_programing.Epoll.Conn.{
  Conn, init_conn, v1, v2, Revents, kept, turn, in_turn, out_turn, mark, judge, recv_conn,
  send_conn, watch_queue,
}
use linux_system_programing.Epoll.Loop.{Server, Arrival, arrive, register, settle}
use linux_system_programing.Epoll.Ends.{turns, turns_at_end}
use linux_system_programing.Epoll.Runs.{
  Run, booted, arrived, served, IsServer, Run-IsServer, lost-refuses,
}
use linux_system_programing.Epoll.Same.{client_of, received_by, sent_by, turn-eq-handlers}

abbrev no_send : List ℕ → Sent
no_send xs = send_error eagain

-- The peer has gone: EPIPE.
abbrev pipe : List ℕ → Sent
pipe xs = send_error 32

abbrev readable : Revents
readable = record { epollin = true; epollout = false; epollrdhup = false }

abbrev writable : Revents
writable = record { epollin = false; epollout = true; epollrdhup = false }

abbrev ended : Revents
ended = record { epollin = true; epollout = false; epollrdhup = true }

turns_at_end_example :
    turns v2 no_send (ended ∷ ended ∷ []) (init_conn 4)
    ≡ kept (record (init_conn 4) { should_close = true })
unfolding init_conn
turns_at_end_example =
    turns_at_end v2 no_send (init_conn 4) ended (ended ∷ []) (λ q. cc) refl
      ((refl, refl, λ q. cc), ((refl, refl, λ q. cc), tt))

-- "a\n"
abbrev hello : Received
hello = bytes (b'a' ∷ newline ∷ [])

turn-eq-handlers_example :
    client_of (turn v1 writable hello pipe (init_conn 4))
    ≡ sent_by writable pipe (received_by writable hello (init_conn 4).client)
turn-eq-handlers_example = turn-eq-handlers v1 writable hello pipe (init_conn 4)

abbrev call : Arrival
call = record {
  fd = some 4;
  set_nonblock_fails = false;
  malloc_fails = false;
  epoll_ctl_fails = false;
}

abbrev talking : Conn
talking = in_turn v1 readable hello (init_conn 4)

abbrev emptied : ℕ → Server
emptied n = record { conns = n; table = [] }

accepted_call :
    (n : ℕ)
    → n < 256
    → arrive v1 call (emptied n) ≡ record { conns = n + 1; table = init_conn 4 ∷ [] }
unfolding arrive register
accepted_call n h = let e : ltb 256 (n + 1) ≡ false = ground arith in rw e

-- A connection comes, its client sends a line and goes, and the answer cannot be sent.
one_more : (n : ℕ) → n < 256 → Run v1 n (emptied n) → Run v1 (n + 1) (emptied (n + 1))
unfolding settle turn in_turn out_turn mark judge recv_conn send_conn watch_queue init_conn
    recv_bytes queue_messages queue_message find_message blit init_client
one_more n h run =
    let came : Run v1 n (record { conns = n + 1; table = init_conn 4 ∷ [] }) =
      subst (Run v1 n) (accepted_call n h) (arrived call run) in
    let told : Run v1 (n + 0) (record { conns = n + 1; table = talking ∷ [] }) =
      served 0 readable hello no_send (init_conn 4) came refl (omega arith) (λ xs. omega arith) in
    let gone : Run v1 (n + 0 + 1) (emptied (n + 1)) =
      served 0 writable (bytes []) pipe talking told refl (omega arith) (λ xs. omega arith) in
    let e : n + 0 + 1 ≡ n + 1 = omega arith in subst (λ m. Run v1 m (emptied (n + 1))) e gone

many : (n : ℕ) → n ≤ 256 → Run v1 n (emptied n)
many zero h = booted
many (suc n) h =
    let e : n + 1 ≡ suc n = omega arith in
    subst (λ m. Run v1 m (emptied m)) e (one_more n (omega arith) (many n (omega arith)))

Run-IsServer_example : IsServer v1 2 (emptied 2)
Run-IsServer_example = Run-IsServer (many 2 (omega arith))

lost-refuses_example : ((emptied 256).table ≡ []) × (arrive v1 call (emptied 256) ≡ emptied 256)
lost-refuses_example = lost-refuses call (many 256 (omega arith))
