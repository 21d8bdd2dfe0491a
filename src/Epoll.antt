-- ===== src/Epoll.antt =====
-- socket_test/tcp_epoll_server_v1.c and socket_test/tcp_epoll_server_v2.c: the echo server on epoll.
pub mod Recv
pub mod Conn
pub mod Loop
pub mod Turns
pub mod Runs
pub mod Ends
pub mod Same
pub mod Second
