-- ===== src/Epoll/Second.antt =====
-- socket_test/tcp_epoll_server_v2.c beside the first version.
use linux_system_programing.Prelude.{ℕ, List}
use linux_system_programing.Kernel.{Received, Sent}
use linux_system_programing.Echo.Client.{Ret}
use linux_system_programing.Epoll.Conn.{Conn, v2, Revents, Verdict, recv_conn, send_conn, turn}
use linux_system_programing.Epoll.Loop.{Server, Arrival, arrive}

-- `handle_recv`
abbrev pub handle_recv_v2 : Received → Conn → Conn × Ret
handle_recv_v2 r d = recv_conn v2 r d

-- `handle_send`
abbrev pub handle_send_v2 : Sent → Conn → Conn × Ret
handle_send_v2 s d = send_conn s d

-- a new connection
abbrev pub arrive_v2 : Arrival → Server → Server
arrive_v2 a s = arrive v2 a s

-- an event of a client
abbrev pub turn_v2 : Revents → Received → (List ℕ → Sent) → Conn → Verdict
turn_v2 ev r s d = turn v2 ev r s d
