-- ===== src/SelectServer.antt =====
-- socket_test/tcp_select_server_v2.c: one thread, select(), a table of 256 clients.
pub mod State
pub mod Steps
pub mod Valid
pub mod Accept
pub mod Rounds
