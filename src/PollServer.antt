-- ===== src/PollServer.antt =====
-- socket_test/tcp_poll_server_v1.c: an echo server on poll(), with two arrays side by side.
pub mod Entry
pub mod Loop
pub mod Entries
pub mod Valid
pub mod Rounds
pub mod Runs
pub mod Closing
