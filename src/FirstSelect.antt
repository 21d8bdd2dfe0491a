-- ===== src/FirstSelect.antt =====
-- socket_test/tcp_select_server_v1.c: the echo server whose clients stand at the index of their descriptor.
pub mod Steps
pub mod Tables
pub mod Turns
pub mod Rounds
